-- ===== src/Send/Outbound/Sound.antt =====
-- outbound.rs: what every state that is saved of a send has.
use failsafe.Prelude.{
  ◌≡◌, refl, sym, subst, Bool, true, false, String, Option, none, some, List, [], ◌∷◌, nat_key,
  ◌==◌, Result, ok, err, arith, Bool-cases, Option-cases, inl, inr,
}
use failsafe.Prelude.Assoc.{get, insert, remove}
use failsafe.Prelude.Stateful.{
  ◌>>◌, lift, Keeps, >>=-Keeps, >>-Keeps, lift-Keeps, Gives, >>=-Gives, >>-Gives, lift-Gives,
  >>=-Keeps_given, ok-inj,
}
use failsafe.Core.Message.{DeviceId}
use failsafe.Send.Payload.{Uuid, FileEntry}
use failsafe.Send.SavedSends.{
  SendPathSpec, SendStage, importing, ready_to_send, waiting_ack, complete_stage, failed_stage,
  SendTransferState, Outbox, save_send_state, load_send_state, remove_send_state, loaded,
}
use failsafe.Send.Outbound.{
  SendEnv, during_import, import_needed, run_collection_import, run_import, ready, hand_over,
  mark_loaded, prepare_send_payload, load_or_init_send_state, import_step, mark_send_complete,
  mark_send_failed,
}

-- A send that is ready, or waits for its acknowledgement, names a collection.
abbrev pub NamesOne : SendStage → Option String → Type 0
NamesOne ready_to_send hash = (h : String) × (hash ≡ some h)
NamesOne waiting_ack hash = (h : String) × (hash ≡ some h)
NamesOne importing hash = Unit
NamesOne complete_stage hash = Unit
NamesOne failed_stage hash = Unit

module _ (env : SendEnv) where
  open env use {disk}

  -- The collection is what importing the files at the paths gives, with these entries.
  abbrev pub Imported : List SendPathSpec → String → List FileEntry → Type 0
  Imported paths hash entries =
      (sources : List (String × String)) × (env.sources_of paths ≡ ok sources)
      × (env.import_sources sources ≡ ok (hash, entries))

  -- A collection that a state names, at whatever stage, is the one of its paths and entries.
  abbrev pub IsOwn : List SendPathSpec → Option String → List FileEntry → Type 0
  IsOwn paths none entries = Unit
  IsOwn paths (some hash) entries = Imported paths hash entries

  abbrev pub IsSound : SendTransferState → Type 0
  IsSound st = NamesOne st.stage st.collection_hash × IsOwn st.paths st.collection_hash st.entries

  abbrev pub AllSound : List (Uuid × SendTransferState) → Type 0
  AllSound [] = Unit
  AllSound ((i, st) ∷ saved) = IsSound st × AllSound saved

  abbrev pub Sound : Outbox → Type 0
  Sound o = AllSound o.saved

  insert-AllSound :
      (i : Uuid) (st : SendTransferState) (saved : List (Uuid × SendTransferState))
      → IsSound st
      → AllSound saved
      → AllSound (insert i st saved)
  unfolding insert
  insert-AllSound i st [] one h = (one, tt)
  insert-AllSound i st ((j, other) ∷ saved) one h = elim (Bool-cases (j == i)) [
    | inl same ↦ rw same (one, h.1)
    | inr apart ↦ rw apart (h.0, insert-AllSound i st saved one h.1)
  ]

  remove-AllSound :
      (i : Uuid) (saved : List (Uuid × SendTransferState))
      → AllSound saved
      → AllSound (remove i saved)
  unfolding remove
  remove-AllSound i [] h = tt
  remove-AllSound i ((j, other) ∷ saved) h = elim (Bool-cases (j == i)) [
    | inl same ↦ rw same (remove-AllSound i saved h.1)
    | inr apart ↦ rw apart (h.0, remove-AllSound i saved h.1)
  ]

  get-IsSound :
      (i : Uuid) (saved : List (Uuid × SendTransferState)) (st : SendTransferState)
      → get i saved ≡ some st
      → AllSound saved
      → IsSound st
  unfolding get
  get-IsSound i [] st at h = absurd (ground arith)
  get-IsSound i ((j, other) ∷ saved) st at h = elim (Bool-cases (j == i)) [
    | inl same ↦ let e : other ≡ st = ground (arith, same, at) in subst IsSound e h.0
    | inr apart ↦ get-IsSound i saved st (ground (arith, apart, at)) h.1
  ]

  save_send_state-Sound :
      (st : SendTransferState) → IsSound st → Keeps Sound (save_send_state disk st)
  unfolding save_send_state ◌>>◌
  save_send_state-Sound st one o h = elim (Option-cases (disk.save_error st)) [
    | inl fine ↦ rw fine (insert-AllSound st.transfer_id st o.saved one h)
    | inr (e, fault) ↦ rw fault h
  ]

  remove_send_state-Sound : (i : Uuid) → Keeps Sound (remove_send_state disk i)
  unfolding remove_send_state lift ◌>>◌
  remove_send_state-Sound i o h = elim (Option-cases (get i o.saved)) [
    | inl none_ ↦ rw none_ h
    | inr (st, there) ↦ elim (Option-cases (disk.remove_error i)) [
      | inl fine ↦ rw there (rw fine (remove-AllSound i o.saved h))
      | inr (e, fault) ↦ rw there (rw fault h)
    ]
  ]

  loaded-IsSound :
      (i : Uuid) (o : Outbox) (found : Option SendTransferState) (fault : Option String)
      (st : SendTransferState)
      → get i o.saved ≡ found
      → Sound o
      → loaded disk found fault ≡ ok st
      → IsSound st
  loaded-IsSound i o none fault st at h is = absurd (ground arith)
  loaded-IsSound i o (some other) (some e) st at h is = absurd (ground arith)
  loaded-IsSound i o (some other) none st at h is =
      get-IsSound i o.saved st (ground (arith, at, is)) h

  load_send_state-Gives : (i : Uuid) → Gives Sound IsSound (load_send_state disk i)
  unfolding load_send_state
  load_send_state-Gives i o h =
      (h, λ st is. loaded-IsSound i o (get i o.saved) (disk.read_error i) st refl h is)

  -- A state that names its own collection, which is sound at every stage.
  abbrev Named : SendTransferState → Type 0
  Named st =
      ((h : String) × (st.collection_hash ≡ some h)) × IsOwn st.paths st.collection_hash st.entries

  -- What is taken up is sound, and is sent from its own paths.
  abbrev OnItsPaths : List SendPathSpec × SendTransferState → Type 0
  OnItsPaths p = IsSound p.1 × (p.0 ≡ p.1.paths)

  load_or_init-Gives :
      (paths : List SendPathSpec) (target : DeviceId) (i : Uuid) (resume : Bool)
      → Gives Sound OnItsPaths (load_or_init_send_state env paths target i resume)
  unfolding load_or_init_send_state
  load_or_init-Gives paths target i true = >>=-Gives Sound _ _ (load_send_state-Gives i) λ st one.
      >>-Gives Sound _ _ (lift-Keeps Sound _)
        (lift-Gives Sound _ (λ p is. subst OnItsPaths (ok-inj is) (one, refl)))
  load_or_init-Gives paths target i false =
      >>=-Gives Sound {Q = λ x. Unit {0}} _ _ (lift-Gives Sound _ (λ a is. tt))
        λ previews known. lift-Gives Sound _ (λ p is. subst OnItsPaths (ok-inj is) ((tt, tt), refl))

  run_collection_import-ok :
      (sources : List (String × String)) (imported : String × List FileEntry)
      → run_collection_import env sources ≡ ok imported
      → env.import_sources sources ≡ ok imported
  run_collection_import-ok sources imported is = elim (Bool-cases (env.cancelled during_import)) [
    | inl stop ↦ absurd (ground (arith, stop, is))
    | inr go ↦ ground (arith, go, is)
  ]

  run_import-Gives :
      (st : SendTransferState)
      → st.stage ≡ importing
      → IsOwn st.paths st.collection_hash st.entries
      → Gives Sound Named (run_import env st.paths st)
  run_import-Gives st fresh own =
      >>-Gives Sound _ _
        (save_send_state-Sound st (subst (λ x. NamesOne x st.collection_hash) (sym fresh) tt, own))
        (>>=-Gives Sound _ _ (lift-Gives Sound _ (λ a is. is)) λ sources known.
          >>=-Gives Sound _ _ (lift-Gives Sound _ (run_collection_import-ok sources))
            λ imported known'.
              let own' : Imported st.paths imported.0 imported.1 = (sources, known, known') in
              >>-Gives Sound _ _
                (save_send_state-Sound (ready env st imported) ((imported.0, refl), own'))
                (lift-Gives Sound _ λ a is. subst Named (ok-inj is) ((imported.0, refl), own')))

  needless-Named :
      (st : SendTransferState)
      → import_needed env st.collection_hash st.bytes_total ≡ false
      → (h : String) × (st.collection_hash ≡ some h)
  needless-Named st off = elim (Option-cases st.collection_hash) [
    | inl none_ ↦ absurd (ground (arith, none_, off))
    | inr there ↦ there
  ]

  import_step-Gives :
      (st : SendTransferState) → IsSound st → Gives Sound Named (import_step env st.paths st)
  import_step-Gives st one =
      elim (Bool-cases (import_needed env st.collection_hash st.bytes_total)) [
        | inl needed ↦ rw needed (run_import-Gives (record st { stage = importing }) refl one.1)
        | inr stored ↦
            rw stored
              (lift-Gives Sound _ λ a is. subst Named (ok-inj is) (needless-Named st stored, one.1))
      ]

  hand_over-Keeps :
      (i : Uuid) (st : SendTransferState) → Named st → Keeps Sound (hand_over env i st)
  hand_over-Keeps i st named = >>-Keeps Sound _ _ (lift-Keeps Sound _) (
      >>-Keeps Sound _ _ (save_send_state-Sound (record st { stage = waiting_ack }) named)
        (>>=-Keeps Sound _ _ (lift-Keeps Sound _) (λ hash. lift-Keeps Sound _)))

  -- However the preparation of a send goes, the saved states stay sound.
  pub prepare_send_payload-Sound :
      (paths : List SendPathSpec) (target : DeviceId) (i : Uuid) (resume : Bool)
      → Keeps Sound (prepare_send_payload env paths target i resume)
  unfolding prepare_send_payload
  prepare_send_payload-Sound paths target i resume = >>-Keeps Sound _ _ (lift-Keeps Sound _) (
      >>=-Keeps_given Sound _ _ (load_or_init-Gives paths target i resume) λ loaded one.
        >>-Keeps Sound _ _ (lift-Keeps Sound _) (
          >>-Keeps Sound _ _ (save_send_state-Sound loaded.1 one.0) (
            >>=-Keeps_given Sound _ _
              (subst (λ ps. Gives Sound Named (import_step env ps loaded.1)) (sym one.1)
                (import_step-Gives loaded.1 one.0))
              λ st named. hand_over-Keeps i st named)))

  pub mark_send_complete-Sound : (i : Uuid) → Keeps Sound (mark_send_complete env i)
  unfolding mark_send_complete
  mark_send_complete-Sound i = >>=-Keeps_given Sound _ _ (load_send_state-Gives i) λ st one.
      >>-Keeps Sound _ _
        (save_send_state-Sound (record st { stage = complete_stage; error = none }) (tt, one.1))
        (remove_send_state-Sound i)

  mark_loaded-Sound :
      (message : String) (r : Outbox × Result String SendTransferState)
      → Sound r.0
      → ((st : SendTransferState) → r.1 ≡ ok st → IsSound st)
      → Sound (mark_loaded env message r)
  mark_loaded-Sound message (o, err e) h known = h
  mark_loaded-Sound message (o, ok st) h known =
      save_send_state-Sound (record st { stage = failed_stage; error = some message })
        (tt, (known st refl).1) o h

  pub mark_send_failed-Sound :
      (i : Uuid) (message : String) → Keeps Sound (mark_send_failed env i message)
  unfolding mark_send_failed
  mark_send_failed-Sound i message o h =
      let r = load_send_state-Gives i o h in
      mark_loaded-Sound message (load_send_state disk i o) r.0 r.1
