-- ===== src/Prelude/OrdMap.antt =====
-- Hash maps with number keys, kept in the order of their keys, so that two maps with the same
-- entries are equal. `insert` overwrites.
use failsafe.Prelude.{
  ℕ, suc, ◌≤◌, ◌≡◌, ◌≢◌, refl, Option, none, some, List, [], ◌∷◌, arith, ltb, nat_beq,
  if◌then◌else◌,
}

module _ {ℓ} {V : Type ℓ} where
  unfoldable pub get : ℕ → List (ℕ × V) → Option V
  get k [] = none
  get k ((j, v) ∷ m) = if nat_beq j k then some v else get k m

  unfoldable pub insert : ℕ → V → List (ℕ × V) → List (ℕ × V)
  insert k v [] = (k, v) ∷ []
  insert k v ((j, w) ∷ m) =
      let rest = insert k v m in
      if ltb k j then (k, v) ∷ (j, w) ∷ m else if nat_beq k j then (k, v) ∷ m else (j, w) ∷ rest

  abbrev pub keys : List (ℕ × V) → List ℕ
  keys [] = []
  keys ((k, v) ∷ m) = k ∷ keys m

  abbrev pub values : List (ℕ × V) → List V
  values [] = []
  values ((k, v) ∷ m) = v ∷ values m

  pub get-insert :
      (k j : ℕ) (v : V) (m : List (ℕ × V))
      → get j (insert k v m) ≡ (if nat_beq k j then some v else get j m)
  unfolding get insert
  get-insert k j v [] = refl
  get-insert k j v ((i, w) ∷ m) = ground (arith, get-insert k j v m)

  pub insert_comm :
      (i j : ℕ) (v w : V) (m : List (ℕ × V))
      → i ≢ j
      → insert i v (insert j w m) ≡ insert j w (insert i v m)
  unfolding insert
  insert_comm i j v w [] h = ground arith
  insert_comm i j v w ((k, x) ∷ m) h = ground (arith, insert_comm i j v w m)

  -- The keys rise along the list and stay above the bound.
  abbrev pub Above : ℕ → List (ℕ × V) → Type 0
  Above n [] = Unit {0}
  Above n ((k, v) ∷ m) = (n ≤ k) × Above (suc k) m

  -- A key below all others goes to the front.
  pub insert_front :
      (k : ℕ) (v : V) (m : List (ℕ × V)) → Above (suc k) m → insert k v m ≡ (k, v) ∷ m
  unfolding insert
  insert_front k v [] h = refl
  insert_front k v ((j, w) ∷ m) h = ground arith
