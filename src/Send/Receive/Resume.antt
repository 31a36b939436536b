-- ===== src/Send/Receive/Resume.antt =====
-- resume.rs of crates/failsafe-send: whom a resume acknowledges.
use mathlib.Core.List.{append_assoc, append-nil}
use failsafe.Prelude.{
  ◌≡◌, refl, sym, ap, ◌∙◌, inl, inr, ◌⊎◌, true, false, not, String, Option, none, some, List, [],
  ◌∷◌, ◌++◌, keep, nat_key, ok, err, Bool-cases,
}
use failsafe.Prelude.Assoc.{contains}
use failsafe.Core.Message.{DeviceId}
use failsafe.Send.Payload.{SendAck}
use failsafe.Send.TransferState.{
  Store, ReceiveTransferState, is_done, states_of, listed, list_incomplete_receives,
}
use failsafe.Send.Receive.{
  Env, World, Ran, run_receive, accepted, resumed, resume_each, resume_listed,
  resume_incomplete_receives,
}
use failsafe.Send.Receive.Acks.{Received, run_receive-Received, acknowledge-acks}

module _ (env : Env) (connected : List DeviceId) where
  -- The acknowledgements belong to saved states, in the order of the states and one for each at most:
  -- a state's acknowledgement accepts its transfer and goes to its sender, who is connected; the state
  -- was not complete, and its files were accepted by the limits, downloaded and exported.
  abbrev pub Earned : Store → List (DeviceId × SendAck) → Type 0
  Earned [] acks = acks ≡ []
  Earned ((transfer_id, st) ∷ store) acks =
      Earned store acks
      ⊎ ((rest : List (DeviceId × SendAck)) × (acks
            ≡ (st.sender, accepted env st.transfer_id) ∷ rest)
          × (is_done st.stage ≡ false)
          × (contains st.sender connected ≡ true)
          × Received env st
          × Earned store rest)

  none-Earned : (store : Store) → Earned store []
  none-Earned [] = refl
  none-Earned ((transfer_id, st) ∷ store) = inl (none-Earned store)

  -- A resumed state sends nothing, or its acknowledgement after it has fetched its files.
  resumed-acks :
      (st : ReceiveTransferState) (r : Ran) (w : World)
      → (r.0.acks ≡ w.acks) × (r.1 ≡ ok tt → Received env st)
      → ((resumed env st r).acks ≡ w.acks)
        ⊎ (((resumed env st r).acks ≡ w.acks ++ (st.sender, accepted env st.transfer_id) ∷ [])
            × Received env st)
  resumed-acks st (w', err message) w h = inl h.0
  resumed-acks st (w', ok u) w h = inr (
    acknowledge-acks env st.sender st.transfer_id w'
        ∙ ap (λ l. l ++ (st.sender, accepted env st.transfer_id) ∷ []) h.0,
    h.1 refl,
  )

  -- The acknowledgements that were added, of the states that a store has.
  abbrev Adds : Store → World → World → Type 0
  Adds store w w' = (new : List (DeviceId × SendAck)) × (w'.acks ≡ w.acks ++ new) × Earned store new

  resume_each-Adds :
      (store : Store) (w : World)
      → Adds store w (
          resume_each env connected
            (keep
              (λ (st : ReceiveTransferState). not (is_done st.stage))
              (states_of env.disk store))
            w)
  unfolding resume_each
  resume_each-Adds [] w = ([], sym (append-nil w.acks), refl)
  resume_each-Adds ((transfer_id, st) ∷ store) w = elim (Bool-cases (is_done st.stage)) [
    | inl complete ↦
        let (new, added, earned) = resume_each-Adds store w in rw complete (new, added, inl earned)
    | inr open_ ↦ elim (Bool-cases (contains st.sender connected)) [
      | inr away ↦
          let (new, added, earned) = resume_each-Adds store w in
          rw open_ (rw (away, resume_each) (new, added, inl earned))
      | inl known ↦
          let ran = run_receive env st w in
          let (new, added, earned) = resume_each-Adds store (resumed env st ran) in
          rw open_ (
            rw (known, resume_each)
              (elim (resumed-acks st ran w (run_receive-Received env st w)) [
                | inl silent ↦ (new, added ∙ ap (λ l. l ++ new) silent, inl earned)
                | inr (sent, got) ↦ (
                  (st.sender, accepted env st.transfer_id) ∷ new,
                  added
                      ∙ (ap (λ l. l ++ new) sent
                          ∙ append_assoc w.acks ((st.sender, accepted env st.transfer_id) ∷ [])
                              new),
                  inr (new, refl, refl, refl, got, earned),
                )
              ]))
    ]
  ]

  resume_listed-Adds :
      (w : World) (o : Option String)
      → Adds w.store w (
          resume_listed env connected
            (listed env.disk o (
              keep
                (λ (st : ReceiveTransferState). not (is_done st.stage))
                (states_of env.disk w.store)))
            w)
  resume_listed-Adds w (some e) = ([], sym (append-nil w.acks), none-Earned w.store)
  resume_listed-Adds w none = resume_each-Adds w.store w

  -- A resume adds acknowledgements for saved states only, in their order and one for each at most. It
  -- accepts the transfer of the state and goes to the state's sender, who is connected; the state was
  -- not complete, and its files were just accepted by the limits, downloaded and exported.
  pub resume_incomplete_receives-Earned :
      (w : World)
      → (new : List (DeviceId × SendAck)) × ((resume_incomplete_receives env connected w).acks
          ≡ w.acks ++ new)
        × Earned w.store new
  unfolding resume_incomplete_receives list_incomplete_receives
  resume_incomplete_receives-Earned w = resume_listed-Adds w env.disk.list_error
