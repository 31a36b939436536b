-- ===== src/Prelude/Assoc.antt =====
-- Hash maps and hash sets as association lists without repeated keys. `insert` overwrites.
use failsafe.Prelude.{
  ◌≡◌, ◌≢◌, refl, sym, ap, subst, inl, inr, Bool, true, false, Option, none, some, List, [], ◌∷◌,
  arith, Key, ◌==◌, if◌then◌else◌, beq_refl, beq→eq, beq-eq-false, Bool-cases,
}

module _ {ℓ} {K V : Type ℓ} ⦃e : Key K⦄ where
  unfoldable pub get : K → List (K × V) → Option V
  get k [] = none
  get k ((j, v) ∷ m) = if j == k then some v else get k m

  unfoldable pub insert : K → V → List (K × V) → List (K × V)
  insert k v [] = (k, v) ∷ []
  insert k v ((j, w) ∷ m) = if j == k then (k, v) ∷ m else (j, w) ∷ insert k v m

  unfoldable pub remove : K → List (K × V) → List (K × V)
  remove k [] = []
  remove k ((j, w) ∷ m) = if j == k then remove k m else (j, w) ∷ remove k m

  pub get-insert :
      (k j : K) (v : V) (m : List (K × V))
      → get j (insert k v m) ≡ (if k == j then some v else get j m)
  unfolding get insert
  get-insert k j v [] = refl
  get-insert k j v ((i, w) ∷ m) =
      ground (arith, e.same_iff k j, e.same_iff i k, e.same_iff i j, get-insert k j v m)

  pub get-remove :
      (k j : K) (m : List (K × V)) → get j (remove k m) ≡ (if k == j then none else get j m)
  unfolding get remove
  get-remove k j [] = ground arith
  get-remove k j ((i, w) ∷ m) =
      ground (arith, e.same_iff k j, e.same_iff i k, e.same_iff i j, get-remove k j m)

  pub get-insert_self : (k : K) (v : V) (m : List (K × V)) → get k (insert k v m) ≡ some v
  get-insert_self k v m = ground (arith, get-insert k k v m, beq_refl k)

  pub get-insert_ne : (k j : K) (v : V) (m : List (K × V)) → k ≢ j → get j (insert k v m) ≡ get j m
  get-insert_ne k j v m h = ground (arith, get-insert k j v m, e.same_iff k j)

  pub get-remove_self : (k : K) (m : List (K × V)) → get k (remove k m) ≡ none
  get-remove_self k m = ground (arith, get-remove k k m, beq_refl k)

  -- The key is none of the map's.
  abbrev pub Absent : K → List (K × V) → Type ℓ
  Absent k [] = Unit
  Absent k ((j, v) ∷ m) = (k ≢ j) × Absent k m

  -- No key stands twice, as in a hash map.
  abbrev pub Distinct : List (K × V) → Type ℓ
  Distinct [] = Unit
  Distinct ((j, v) ∷ m) = Absent j m × Distinct m

  pub remove-fresh : (k : K) (m : List (K × V)) → Absent k m → remove k m ≡ m
  unfolding remove
  remove-fresh k [] h = refl
  remove-fresh k ((j, v) ∷ m) h =
      rw (beq-eq-false j k (λ p. h.0 (sym p))) (ap (λ r. (j, v) ∷ r) (remove-fresh k m h.1))

  insert-Absent :
      (k j : K) (v : V) (m : List (K × V)) → k ≢ j → Absent k m → Absent k (insert j v m)
  unfolding insert
  insert-Absent k j v [] ne h = (ne, tt)
  insert-Absent k j v ((i, w) ∷ m) ne h = elim (Bool-cases (i == j)) [
    | inl same ↦ rw same (ne, h.1)
    | inr other ↦ rw other (h.0, insert-Absent k j v m ne h.1)
  ]

  remove-Absent : (k j : K) (m : List (K × V)) → Absent k m → Absent k (remove j m)
  unfolding remove
  remove-Absent k j [] h = tt
  remove-Absent k j ((i, w) ∷ m) h = elim (Bool-cases (i == j)) [
    | inl same ↦ rw same (remove-Absent k j m h.1)
    | inr other ↦ rw other (h.0, remove-Absent k j m h.1)
  ]

  pub insert-Distinct : (k : K) (v : V) (m : List (K × V)) → Distinct m → Distinct (insert k v m)
  unfolding insert
  insert-Distinct k v [] h = (tt, tt)
  insert-Distinct k v ((i, w) ∷ m) h = elim (Bool-cases (i == k)) [
    | inl same ↦ rw same (subst (λ j. Absent j m) (beq→eq i k same) h.0, h.1)
    | inr other ↦ rw other (
      insert-Absent i k v m (λ p. cc ((e.same_iff i k).1 p, other)) h.0,
      insert-Distinct k v m h.1,
    )
  ]

  pub remove-Distinct : (k : K) (m : List (K × V)) → Distinct m → Distinct (remove k m)
  unfolding remove
  remove-Distinct k [] h = tt
  remove-Distinct k ((i, w) ∷ m) h = elim (Bool-cases (i == k)) [
    | inl same ↦ rw same (remove-Distinct k m h.1)
    | inr other ↦ rw other (remove-Absent i k m h.0, remove-Distinct k m h.1)
  ]

module _ {ℓ} {K : Type ℓ} ⦃e : Key K⦄ where
  -- A hash set.
  unfoldable pub contains : K → List K → Bool
  contains k [] = false
  contains k (j ∷ s) = if j == k then true else contains k s

  unfoldable pub add : K → List K → List K
  add k s = if contains k s then s else k ∷ s

  unfoldable pub discard : K → List K → List K
  discard k [] = []
  discard k (j ∷ s) = if j == k then discard k s else j ∷ discard k s

  -- Collecting a list into a hash set.
  abbrev pub to_set : List K → List K
  to_set [] = []
  to_set (k ∷ ks) = add k (to_set ks)

  pub contains-add :
      (k j : K) (s : List K) → contains j (add k s) ≡ (if k == j then true else contains j s)
  unfolding add contains
  contains-add k j s = elim (Bool-cases (contains k s)) [
    | inl old ↦ ground (arith, e.same_iff k j, old)
    | inr fresh ↦ ground (arith, e.same_iff k j, fresh)
  ]

  pub contains-discard :
      (k j : K) (s : List K) → contains j (discard k s) ≡ (if k == j then false else contains j s)
  unfolding discard contains
  contains-discard k j [] = ground arith
  contains-discard k j (i ∷ s) =
      ground (arith, e.same_iff k j, e.same_iff i k, e.same_iff i j, contains-discard k j s)
