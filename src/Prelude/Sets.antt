-- ===== src/Prelude/Sets.antt =====
-- Membership in hash sets and lists of keys.
use failsafe.Prelude.{
  ◌≡◌, refl, ap, inl, inr, Bool, ◌&&◌, ◌||◌, List, [], ◌∷◌, ◌++◌, keep, arith, Key, ◌==◌,
  Bool-cases, beq→eq,
}
use failsafe.Prelude.Assoc.{contains, to_set, contains-add}

module _ {ℓ} {K : Type ℓ} ⦃e : Key K⦄ where
  pub contains-to_set : (k : K) (ks : List K) → contains k (to_set ks) ≡ contains k ks
  unfolding contains
  contains-to_set k [] = refl
  contains-to_set k (j ∷ ks) = ground (arith, contains-add j k (to_set ks), contains-to_set k ks)

  pub contains-keep :
      (p : K → Bool) (k : K) (ks : List K) → contains k (keep p ks) ≡ (contains k ks && p k)
  unfolding contains
  contains-keep p k [] = refl
  contains-keep p k (j ∷ ks) = elim (Bool-cases (j == k)) [
    | inl same ↦ ground (arith, same, ap p (beq→eq j k same), contains-keep p k ks)
    | inr other ↦ ground (arith, other, contains-keep p k ks)
  ]

  pub contains-append :
      (k : K) (ks js : List K) → contains k (ks ++ js) ≡ (contains k ks || contains k js)
  unfolding contains
  contains-append k [] js = refl
  contains-append k (j ∷ ks) js = ground (arith, contains-append k ks js)
