-- ===== src/Send/Coordinator/Delivery.antt =====
-- coordinator.rs: what a waiter hears of its transfer.
use failsafe.Prelude.{ℕ, ◌≡◌, ◌≢◌, refl, sym, subst, List, [], ◌∷◌, arith, nat_key}
use failsafe.Prelude.Assoc.{
  get, insert, remove, get-insert, get-remove, get-insert_self, Distinct, remove-fresh,
  insert-Distinct, remove-Distinct,
}
use failsafe.Send.Payload.{Uuid, SendAck, SendProgress}
use failsafe.Send.Coordinator.{
  AckResult, Notice, acked, Pending, register, complete, cancelled, cancel, cancel_all,
  complete_ack, report_progress,
}

-- Whoever registered last for a transfer gets the result of its completion, and only the first
-- completion: a later one reaches nobody, and other transfers keep their waiters.
pub complete-register :
    (t : Uuid) (w : ℕ) (p : Pending) (r r' : AckResult)
    → let p' = (register t w p).0 in
      ((complete t r p').1 ≡ acked w r ∷ [])
      × ((complete t r' (complete t r p').0).1 ≡ [])
      × ((u : Uuid) → t ≢ u → get u (complete t r p').0 ≡ get u p)
unfolding register complete
complete-register t w p r r' = (
  ground (arith, get-insert_self t w p),
  ground (arith, get-remove t t (insert t w p)),
  λ u h. ground (arith, get-remove t u (insert t w p), get-insert t u w p),
)

abbrev pub all_cancelled : Pending → List Notice
all_cancelled [] = []
all_cancelled ((t, w) ∷ p) = acked w cancelled ∷ all_cancelled p

-- Cancelling all leaves nobody waiting, and tells every waiter once that its transfer is cancelled.
pub cancel_all_lem : (p : Pending) → Distinct p → cancel_all p ≡ ([], all_cancelled p)
unfolding cancel_all cancel remove get
cancel_all_lem [] h = refl
cancel_all_lem ((t, w) ∷ p) h = ground (arith, remove-fresh t p h.0, cancel_all_lem p h.1)

-- Operations of the coordinator, and the waiters after a history of them.
pub data Call : Type 0 where
  registers : Uuid → ℕ → Call
  completes : Uuid → AckResult → Call
  acknowledges : SendAck → Call
  reports : SendProgress → Call
  cancels_all : Call

unfoldable pub step : Call → Pending → Pending
step (registers t w) p = (register t w p).0
step (completes t r) p = (complete t r p).0
step (acknowledges a) p = (complete_ack a p).0
step (reports x) p = (report_progress x p).0
step cancels_all p = (cancel_all p).0

unfoldable pub run : List Call → Pending
run [] = []
run (c ∷ cs) = step c (run cs)

step-Distinct : (c : Call) (p : Pending) → Distinct p → Distinct (step c p)
unfolding step register complete complete_ack report_progress
step-Distinct (registers t w) p h = insert-Distinct t w p h
step-Distinct (completes t r) p h = remove-Distinct t p h
step-Distinct (acknowledges a) p h = remove-Distinct a.transfer_id p h
step-Distinct (reports x) p h = h
step-Distinct cancels_all p h =
    subst (λ (r : Pending × List Notice). Distinct r.0) (sym (cancel_all_lem p h)) tt

run-Distinct : (cs : List Call) → Distinct (run cs)
unfolding run
run-Distinct [] = tt
run-Distinct (c ∷ cs) = step-Distinct c (run cs) (run-Distinct cs)

-- After any history, cancelling all leaves nobody waiting and tells every waiter, once, that its
-- transfer is cancelled.
pub cancel_all-run : (cs : List Call) → cancel_all (run cs) ≡ ([], all_cancelled (run cs))
cancel_all-run cs = cancel_all_lem (run cs) (run-Distinct cs)
