-- ===== src/Core/Registry/Effects.antt =====
-- registry.rs: what enabling and disabling does to the enabled and the registered ids.
use failsafe.Prelude.{
  ◌≡◌, refl, inl, inr, true, false, some, List, ◌==◌, arith, string_key, Bool-cases, Option-cases,
  if◌then◌else◌, beq→eq,
}
use failsafe.Prelude.Assoc.{get, insert, add, get-insert, contains-add, contains-discard}
use failsafe.Core.Message.{FeatureId}
use failsafe.Core.Registry.{
  Methods, Registry, is_registered, is_enabled, disable, enable, enable_and_start,
}
use failsafe.Core.Registry.Delivery.{disable-enabled, enable_and_start-started}

module _ {F : Type 0} (methods : Methods F) where
  pub is_enabled-disable :
      (i j : FeatureId) (r : Registry F)
      → is_enabled methods j (disable methods i r)
        ≡ (if i == j then false else is_enabled methods j r)
  unfolding is_enabled
  is_enabled-disable i j r = rw (disable-enabled methods i r) (contains-discard i j r.enabled)

  registered_again :
      (i j : FeatureId) (f g : F) (r : Registry F)
      → get i r.features ≡ some f
      → is_registered methods j (record r { features = insert i g r.features })
        ≡ is_registered methods j r
  unfolding is_registered
  registered_again i j f g r e = elim (Bool-cases (i == j)) [
    | inl same ↦ ground (arith, get-insert i j g r.features, e, beq→eq i j same)
    | inr other ↦ ground (arith, get-insert i j g r.features, other)
  ]

  pub is_registered-disable :
      (i j : FeatureId) (r : Registry F)
      → is_registered methods j (disable methods i r) ≡ is_registered methods j r
  unfolding disable is_registered
  is_registered-disable i j r = elim (Option-cases (get i r.features)) [
    | inl e ↦ rw e refl
    | inr (f, e) ↦ rw (e, registered_again i j f (methods.stop f).0 r e) refl
  ]

  registered_some :
      (i : FeatureId) (r : Registry F)
      → is_registered methods i r ≡ true
      → (f : F) × (get i r.features ≡ some f)
  unfolding is_registered
  registered_some i r h = elim (Option-cases (get i r.features)) [
    | inl e ↦ absurd (ground (arith, e))
    | inr found ↦ found
  ]

  is_enabled-add :
      (i j : FeatureId) (r : Registry F) (fs : List (FeatureId × F))
      → is_enabled methods j (record { features = fs; enabled = add i r.enabled })
        ≡ (if i == j then true else is_enabled methods j r)
  unfolding is_enabled
  is_enabled-add i j r fs = contains-add i j r.enabled

  pub enable_and_start-registered :
      (i j : FeatureId) (r : Registry F)
      → is_registered methods i r ≡ true
      → (is_registered methods j (enable_and_start methods i r).0 ≡ is_registered methods j r)
        × (is_enabled methods j (enable_and_start methods i r).0
            ≡ (if i == j then true else is_enabled methods j r))
  unfolding is_registered
  enable_and_start-registered i j r h =
      let (f, e) = registered_some i r h in
      rw (enable_and_start-started methods i r f e) (
        registered_again i j f (methods.start f).0 (record r { enabled = add i r.enabled }) e,
        is_enabled-add i j r (insert i (methods.start f).0 r.features),
      )

  pub enable-registered :
      (i j : FeatureId) (r : Registry F)
      → is_registered methods i r ≡ true
      → (is_registered methods j (enable methods i r).0 ≡ is_registered methods j r)
        × (is_enabled methods j (enable methods i r).0
            ≡ (if i == j then true else is_enabled methods j r))
  unfolding enable is_registered is_enabled
  enable-registered i j r h = rw h (refl, contains-add i j r.enabled)
