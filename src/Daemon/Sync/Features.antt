-- ===== src/Daemon/Sync/Features.antt =====
-- sync.rs: the registry after a sync.
use failsafe.Prelude.{
  ◌≡◌, ◌≢◌, refl, sym, ap, ◌∙◌, ◌⊎◌, inl, inr, Bool, true, false, ◌&&◌, List, [], ◌∷◌, ◌==◌, arith,
  string_key, Bool-cases, if◌then◌else◌, ok, err, beq→eq,
}
use failsafe.Prelude.Assoc.{contains}
use failsafe.Core.Message.{FeatureId}
use failsafe.Core.Catalog.{all_ids, is_known_feature}
use failsafe.Core.Registry.{
  Methods, Registry, Exit, returned, panicked, is_registered, is_enabled, disable, enable,
  enable_and_start,
}
use failsafe.Core.Registry.Safety.{Exit-cases}
use failsafe.Core.Registry.Effects.{
  is_enabled-disable, is_registered-disable, enable_and_start-registered, enable-registered,
}
use failsafe.Daemon.Sync.{sync_feature, sync_each, sync_features_to_registry}

pub ok-or-not : (e : Exit) → (e ≡ returned (ok tt)) ⊎ (e ≢ returned (ok tt))
ok-or-not (returned (ok tt)) = inl refl
ok-or-not (returned (err x)) = inr (λ p. ground arith)
ok-or-not panicked = inr (λ p. ground arith)

module _ {F : Type 0} (methods : Methods F) (target : List FeatureId) (starts : Bool) where
  -- What the registry says of `j` after the features of a list were synced.
  abbrev wanted : Bool → FeatureId → Registry F → Bool
  wanted listed j r =
      if listed && is_registered methods j r then contains j target else is_enabled methods j r

  abbrev Synced : Bool → FeatureId → Registry F → Registry F → Type 0
  Synced listed j r r' =
      (is_registered methods j r' ≡ is_registered methods j r)
      × (is_enabled methods j r' ≡ wanted listed j r)

  Synced-same :
      (f j : FeatureId) (r : Registry F)
      → (is_registered methods f r ≡ false) ⊎ (contains f target ≡ is_enabled methods f r)
      → Synced (f == j) j r r
  Synced-same f j r h = elim (Bool-cases (f == j)) [
    | inl same ↦ (refl, ground (arith, same, beq→eq f j same, h))
    | inr other ↦ (refl, ground (arith, other))
  ]

  Synced-to :
      (f j : FeatureId) (r r' : Registry F) (on : Bool)
      → is_registered methods f r ≡ true
      → contains f target ≡ on
      → (is_registered methods j r' ≡ is_registered methods j r)
        × (is_enabled methods j r' ≡ (if f == j then on else is_enabled methods j r))
      → Synced (f == j) j r r'
  Synced-to f j r r' on known e h = elim (Bool-cases (f == j)) [
    | inl same ↦ (h.0, ground (arith, same, beq→eq f j same, h.1, known, e))
    | inr other ↦ (h.0, ground (arith, other, h.1))
  ]

  sync_feature-Synced :
      (f j : FeatureId) (r : Registry F)
      → Synced (f == j) j r (sync_feature methods target starts f r).0
  unfolding sync_feature
  sync_feature-Synced f j r = elim (Bool-cases (is_registered methods f r)) [
    | inl known ↦ elim (Bool-cases (contains f target)) [
      | inl on ↦ elim (Bool-cases (is_enabled methods f r)) [
        | inl already ↦ rw (known, on, already) (Synced-same f j r (inr (on ∙ sym already)))
        | inr fresh ↦ elim (Bool-cases starts) [
          | inl s ↦
              rw (known, on, fresh, s)
                (Synced-to f j r (enable_and_start methods f r).0 true known on
                  (enable_and_start-registered methods f j r known))
          | inr s ↦
              rw (known, on, fresh, s)
                (Synced-to f j r (enable methods f r).0 true known on
                  (enable-registered methods f j r known))
        ]
      ]
      | inr off ↦ elim (Bool-cases (is_enabled methods f r)) [
        | inl already ↦
            rw (known, off, already)
              (Synced-to f j r (disable methods f r) false known off
                (is_registered-disable methods f j r, is_enabled-disable methods f j r))
        | inr fresh ↦ rw (known, off, fresh) (Synced-same f j r (inr (off ∙ sym fresh)))
      ]
    ]
    | inr unknown ↦ rw unknown (Synced-same f j r (inl unknown))
  ]

  pub sync_each-next :
      (f : FeatureId) (fs : List FeatureId) (r : Registry F)
      → (sync_feature methods target starts f r).1 ≡ returned (ok tt)
      → sync_each methods target starts (f ∷ fs) r
        ≡ sync_each methods target starts fs (sync_feature methods target starts f r).0
  unfolding sync_each
  sync_each-next f fs r e = rw (e, sync_each) refl

  -- The first feature that fails ends the loop with its exit.
  pub sync_each-fails :
      (f : FeatureId) (fs : List FeatureId) (r : Registry F)
      → (sync_feature methods target starts f r).1 ≢ returned (ok tt)
      → sync_each methods target starts (f ∷ fs) r ≡ sync_feature methods target starts f r
  unfolding sync_each
  sync_each-fails f fs r ne = elim (Exit-cases (sync_feature methods target starts f r).1) [
    | inl e ↦ rw (e, sync_each) refl
    | inr (inl (x, e)) ↦ rw (e, sync_each) refl
    | inr (inr e) ↦ absurd (ne e)
  ]

  pub sync_each-Synced :
      (fs : List FeatureId) (j : FeatureId) (r : Registry F)
      → (sync_each methods target starts fs r).1 ≡ returned (ok tt)
      → Synced (contains j fs) j r (sync_each methods target starts fs r).0
  unfolding contains sync_each
  sync_each-Synced [] j r h = (refl, refl)
  sync_each-Synced (f ∷ fs) j r h =
      let s = sync_feature methods target starts f r in
      let one = sync_feature-Synced f j r in
      elim (ok-or-not s.1) [
        | inr ne ↦ absurd (ne (ap (λ x. x.1) (sym (sync_each-fails f fs r ne)) ∙ h))
        | inl e ↦
            let next = sync_each-next f fs r e in
            let rest = sync_each-Synced fs j s.0 (ap (λ x. x.1) (sym next) ∙ h) in
            rw (next, rest.0, rest.1, one.0) (refl, ground (arith, one.1, one.0))
      ]

  -- After a sync that succeeds, a registered feature that the build knows is enabled exactly when
  -- the server lists it, any other feature is as before, and no registration is lost.
  pub sync_features_to_registry-Synced :
      (j : FeatureId) (r : Registry F)
      → (sync_features_to_registry methods target starts r).1 ≡ returned (ok tt)
      → let r' = (sync_features_to_registry methods target starts r).0 in
        (is_registered methods j r' ≡ is_registered methods j r)
        × (is_enabled methods j r' ≡ (
            if is_known_feature j && is_registered methods j r
            then contains j target
            else is_enabled methods j r))
  unfolding sync_features_to_registry is_known_feature
  sync_features_to_registry-Synced j r h = sync_each-Synced all_ids j r h
