-- ===== src/Send/Feature/Leads.antt =====
-- feature.rs of crates/failsafe-send: runs of messages and where they lead.
use mathlib.Core.List.{append_assoc, append-nil}
use failsafe.Prelude.{
  ℕ, suc, ◌≡◌, refl, ap, ◌∙◌, Option, some, List, [], ◌∷◌, ◌++◌, map, nat_key, Result, ok, All,
}
use failsafe.Prelude.Assoc.{get}
use failsafe.Core.Message.{DeviceId, FeatureMessage, Serde}
use failsafe.Send.Payload.{
  Uuid, SendPayload, SendTransferChunk, SendEnvelope, transfer_header, transfer_chunk,
}
use failsafe.Send.Manifest.{ChunkedTransfer, header_of, end_of}
use failsafe.Send.Manifest.Plan.{Numbered}
use failsafe.Send.Feature.{State, SendError, Effect, handle_envelope, handle_message, run, Carries}

-- A run of envelopes, as `run` makes of their messages.
abbrev pub Results : Type 0
Results = List (Result SendError (Unit {0}))

unfoldable pub run_envelopes : DeviceId → List SendEnvelope → State → State × Results × List Effect
run_envelopes from [] s = (s, [], [])
run_envelopes from (e ∷ es) s =
    let (s', r, es') = handle_envelope from e s in
    let (s'', rs, es'') = run_envelopes from es s' in (s'', r ∷ rs, es' ++ es'')

pub handle_message-envelope :
    (json : Serde SendEnvelope) (e : SendEnvelope) (m : FeatureMessage) (s : State)
    → json.to_vec e ≡ some m.payload
    → handle_message json m s ≡ handle_envelope m.from e s
unfolding handle_message
handle_message-envelope json e m s h = rw (json.round_trip e m.payload h, handle_message)

pub run-Carries :
    (json : Serde SendEnvelope) (from : DeviceId) (es : List SendEnvelope)
    (ms : List FeatureMessage) (s : State)
    → Carries json from es ms
    → run json ms s ≡ run_envelopes from es s
unfolding run run_envelopes
run-Carries json from [] [] s h = refl
run-Carries json from [] (m ∷ ms) s h = elim h [ ]
run-Carries json from (e ∷ es) [] s h = elim h [ ]
run-Carries json from (e ∷ es) (m ∷ ms) s h = cc (
  h.0,
  handle_message-envelope json e m s h.1,
  run-Carries json from es ms (handle_envelope from e s).0 h.2,
)

-- What a run leads to for the transfer `t`.
pub record Leads (t : Uuid) (r : State × Results × List Effect) (at : Option ChunkedTransfer)
    (rs : Results) (es : List Effect) : Type 0 where
  pub entry : get t r.0.pending_chunked ≡ at
  pub results : r.1 ≡ rs
  pub effects : r.2 ≡ es

pub run-append :
    (from : DeviceId) (xs ys : List SendEnvelope) (s : State)
    → let r = run_envelopes from xs s in
      let q = run_envelopes from ys r.0 in
      run_envelopes from (xs ++ ys) s ≡ (q.0, r.1 ++ q.1, r.2 ++ q.2)
unfolding run_envelopes
run-append from [] ys s = refl
run-append from (x ∷ xs) ys s =
    let (s', r, es) = handle_envelope from x s in
    let ih = run-append from xs ys s' in
    let e1 = run_envelopes from xs s' in
    cc (ih, append_assoc es e1.2 (run_envelopes from ys e1.0).2)

module _ (from : DeviceId) (t : Uuid) (s : State) where
  pub Leads-append :
      (xs ys : List SendEnvelope) {x y : Option ChunkedTransfer} {rs rs' : Results}
      {es es' : List Effect}
      → Leads t (run_envelopes from xs s) x rs es
      → Leads t (run_envelopes from ys (run_envelopes from xs s).0) y rs' es'
      → Leads t (run_envelopes from (xs ++ ys) s) y (rs ++ rs') (es ++ es')
  Leads-append xs ys first second =
      let parts = run-append from xs ys s in
      record {
        entry = cc (parts, second.entry);
        results = cc (parts, first.results, second.results);
        effects = cc (parts, first.effects, second.effects);
      }

  pub Leads-one :
      (e : SendEnvelope) {y : Option ChunkedTransfer} {r : Result SendError (Unit {0})}
      {es : List Effect}
      → get t (handle_envelope from e s).0.pending_chunked ≡ y
      → (handle_envelope from e s).1 ≡ r
      → (handle_envelope from e s).2 ≡ es
      → Leads t (run_envelopes from (e ∷ []) s) y (r ∷ []) es
  unfolding run_envelopes
  Leads-one e at result effects = record {
    entry = at;
    results = ap (λ r. r ∷ []) result;
    effects = append-nil _ ∙ effects;
  }

-- The envelopes of a chunked transfer as they arrive: the end after some of the chunks.
abbrev pub arriving :
    SendPayload → ℕ → List SendTransferChunk → List SendTransferChunk → List SendEnvelope
arriving p count before after =
    transfer_header (header_of p)
    ∷ (map transfer_chunk before ++ end_of p.transfer_id count ∷ map transfer_chunk after)

-- No result is an error.
abbrev pub all_ok : List SendTransferChunk → Results
all_ok [] = []
all_ok (c ∷ cs) = ok tt ∷ all_ok cs

abbrev pub OfTransfer : Uuid → List SendTransferChunk → Type 0
OfTransfer t cs = All (λ c. c.transfer_id ≡ t) cs

pub Numbered-OfTransfer :
    (t i : ℕ) (cs : List SendTransferChunk) → Numbered t i cs → OfTransfer t cs
Numbered-OfTransfer t i [] n = tt
Numbered-OfTransfer t i (c ∷ cs) n = (n.0, Numbered-OfTransfer t (suc i) cs n.3)
