-- ===== src/Transport/Blobs/Import/Order.antt =====
-- Importing files concurrently: the order in which the tasks end does not matter.
use failsafe.Prelude.{
  ℕ, zero, suc, ◌+◌, ◌≤◌, ◌≡◌, ◌≢◌, refl, sym, ap, String, Option, none, some, List, [], ◌∷◌, map,
  length, ltb, nat_beq_refl, Result, ok, err, arith, get_elem?, Bool-cases, inl, inr, ltb→le,
}
use failsafe.Prelude.Stateful.{◌>>=◌, ◌>>◌, lift}
use failsafe.Transport.Blobs.{BlobError, Library, Host}
use failsafe.Transport.Blobs.Import.{
  Entry, ImportEvent, offset_at, finished, change, Importing, moved, filled, gather, flatten,
  started, collect, import_sources, sum_of, ended, empty_slot,
}

-- Each task that ends has imported its file, and sends that once; `slots` tells who has.
abbrev pub Sends : List Entry → List ImportEvent → List (Option Entry) → Type 0
Sends entries [] slots = Unit
Sends entries (offset_at index offset ∷ events) slots = Sends entries events slots
Sends entries (finished index (err e) ∷ events) slots = ⊥
Sends entries (finished index (ok entry) ∷ events) slots =
    (get_elem? entries index ≡ some entry)
    × (get_elem? slots index ≡ some none)
    × Sends entries events (change index (λ (slot : Option Entry). some entry) slots)

-- How many tasks end.
abbrev pub ends : List ImportEvent → ℕ
ends [] = 0
ends (offset_at index offset ∷ events) = ends events
ends (finished index result ∷ events) = suc (ends events)

abbrev taken : List (Option Entry) → ℕ
taken [] = 0
taken (none ∷ slots) = taken slots
taken (some entry ∷ slots) = suc (taken slots)

-- What is in the slots are the entries of the sources.
abbrev Matches : List Entry → List (Option Entry) → Type 0
Matches [] [] = Unit
Matches [] (slot ∷ slots) = ⊥
Matches (entry ∷ entries) [] = ⊥
Matches (entry ∷ entries) (none ∷ slots) = Matches entries slots
Matches (entry ∷ entries) (some e ∷ slots) = (e ≡ entry) × Matches entries slots

taken_le :
    (entries : List Entry) (slots : List (Option Entry))
    → Matches entries slots
    → taken slots ≤ length entries
taken_le [] [] h = omega arith
taken_le [] (slot ∷ slots) h = absurd h
taken_le (entry ∷ entries) [] h = absurd h
taken_le (entry ∷ entries) (none ∷ slots) h = omega (arith, taken_le entries slots h)
taken_le (entry ∷ entries) (some e ∷ slots) h = omega (arith, taken_le entries slots h.1)

-- When all slots are taken, they hold the entries in the order of the sources.
flatten-taken :
    (entries : List Entry) (slots : List (Option Entry))
    → Matches entries slots
    → taken slots ≡ length entries
    → flatten slots ≡ entries
unfolding flatten
flatten-taken [] [] h all_ = refl
flatten-taken [] (slot ∷ slots) h all_ = absurd h
flatten-taken (entry ∷ entries) [] h all_ = absurd h
flatten-taken (entry ∷ entries) (none ∷ slots) h all_ =
    absurd (omega (arith, taken_le entries slots h, all_))
flatten-taken (entry ∷ entries) (some e ∷ slots) h all_ =
    rw h.0
      (ap (λ (es : List Entry). entry ∷ es) (flatten-taken entries slots h.1 (omega (arith, all_))))

change-Matches :
    (index : ℕ) (entry : Entry) (entries : List Entry) (slots : List (Option Entry))
    → Matches entries slots
    → get_elem? entries index ≡ some entry
    → get_elem? slots index ≡ some none
    → let slots' = change index (λ (slot : Option Entry). some entry) slots in
      Matches entries slots' × (taken slots' ≡ suc (taken slots))
change-Matches index entry [] [] h at free = absurd (ground (arith, at))
change-Matches index entry [] (slot ∷ slots) h at free = absurd h
change-Matches index entry (e ∷ entries) [] h at free = absurd h
change-Matches zero entry (e ∷ entries) (none ∷ slots) h at free = ((ground (arith, at), h), refl)
change-Matches zero entry (e ∷ entries) (some s ∷ slots) h at free = absurd (ground (arith, free))
change-Matches (suc i) entry (e ∷ entries) (none ∷ slots) h at free =
    change-Matches i entry entries slots h at free
change-Matches (suc i) entry (e ∷ entries) (some s ∷ slots) h at free =
    let r = change-Matches i entry entries slots h.1 at free in ((h.0, r.0), ap suc r.1)

module _ (entries : List Entry) (total count : ℕ) (sized : count ≡ length entries) where
  -- The loop ends without an error, with the entries of all tasks in their slots.
  gather-all :
      (events : List ImportEvent) (w : Importing)
      → Sends entries events w.results
      → Matches entries w.results
      → w.completed ≡ taken w.results
      → w.completed + ends events ≡ count
      → let r = gather count total events w in
        (r.1 ≡ ok tt) × (r.0.completed ≡ count) × (flatten r.0.results ≡ entries)
  unfolding gather
  gather-all [] w sends matches counts all_ = (
    refl,
    omega (arith, all_),
    flatten-taken entries w.results matches (omega (arith, sized, counts, all_)),
  )
  gather-all (offset_at index offset ∷ events) w sends matches counts all_ =
      elim (Bool-cases (ltb w.completed count)) [
        | inl more ↦
            rw more (gather-all events (moved count total index offset w) sends matches counts all_)
        | inr full ↦
            let n : w.completed ≡ count = omega (arith, ltb→le w.completed count full, all_) in
            rw full
              (refl, n, flatten-taken entries w.results matches (omega (arith, sized, counts, n)))
      ]
  gather-all (finished index (err e) ∷ events) w sends matches counts all_ = absurd sends
  gather-all (finished index (ok entry) ∷ events) w sends matches counts all_ =
      elim (Bool-cases (ltb w.completed count)) [
        | inl more ↦
            let r = change-Matches index entry entries w.results matches sends.0 sends.1 in
            rw more (
              gather-all events (filled count total index entry w) sends.2 r.0
                (omega (arith, r.1, counts)) (omega (arith, all_)))
        | inr full ↦ absurd (omega (arith, ltb→le w.completed count full, all_))
      ]

none-Matches :
    (entries : List Entry) (sources : List (String × String))
    → length sources ≡ length entries
    → Matches entries (map empty_slot sources) × (taken (map empty_slot sources) ≡ 0)
none-Matches [] [] h = (tt, refl)
none-Matches [] (source ∷ sources) h = absurd (omega (arith, h))
none-Matches (entry ∷ entries) [] h = absurd (omega (arith, h))
none-Matches (entry ∷ entries) (source ∷ sources) h =
    none-Matches entries sources (omega (arith, h))

module _ {S : Type 0} (library : Library S) (file_len : String → ℕ) where
  ended-collect :
      (entries : List Entry) (total count : ℕ) (r : Importing × Result BlobError (Unit {0}))
      (host : Host S)
      → r.1 ≡ ok tt
      → r.0.completed ≡ count
      → flatten r.0.results ≡ entries
      → let run = ended library file_len count total r host in
        let direct = collect library file_len entries host.store in
        (run.1 ≡ direct.1) × (run.0.store ≡ direct.0)
  unfolding ◌>>=◌ ◌>>◌ lift
  ended-collect entries total count (w, err e) host fine full held = absurd (ground (arith, fine))
  ended-collect entries total count (w, ok u) host fine full held =
      rw full (rw (nat_beq_refl count) (rw held (refl, refl)))

  -- When there are sources and the tasks import all of them, the collection has their entries in the order of the sources,
  -- whatever the order in which the tasks end and whatever they tell of their progress in between.
  pub import_sources-any_order :
      (sources : List (String × String)) (entries : List Entry) (events : List ImportEvent)
      (host : Host S)
      → sources ≢ []
      → length sources ≡ length entries
      → Sends entries events (map empty_slot sources)
      → ends events ≡ length sources
      → let run = import_sources library file_len sources events host in
        let direct = collect library file_len entries host.store in
        (run.1 ≡ direct.1) × (run.0.store ≡ direct.0)
  unfolding import_sources
  import_sources-any_order [] entries events host some_ sized sends all_ = absurd (some_ refl)
  import_sources-any_order (source ∷ sources) entries events host some_ sized sends all_ =
      let w = started library file_len (source ∷ sources) in
      let open_ = none-Matches entries (source ∷ sources) sized in
      let count = length (source ∷ sources) in
      let r =
        gather-all entries (sum_of w.states) count sized events w sends open_.0 (sym open_.1)
          (omega (arith, all_)) in
      ended-collect entries (sum_of w.states) count (gather count (sum_of w.states) events w) host
        r.0 r.1 r.2
