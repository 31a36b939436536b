-- ===== src/Core/Registry/Delivery.antt =====
-- registry.rs: which feature a message reaches.
use failsafe.Prelude.{
  ◌≡◌, ◌≢◌, refl, sym, subst, inl, inr, false, some, arith, string_key, Bool-cases, Option-cases,
  ok, err, beq_refl,
}
use failsafe.Prelude.Assoc.{
  get, insert, add, discard, contains-add, contains-discard, get-insert_ne, get-insert_self,
}
use failsafe.Core.Message.{FeatureId, FeatureMessage}
use failsafe.Core.Registry.{
  Methods, Registry, not_enabled, returned, is_registered, is_enabled, disable, enable,
  enable_and_start, put, dispatch,
}

module _ {F : Type 0} (methods : Methods F) where
  pub disable-enabled :
      (i : FeatureId) (r : Registry F) → (disable methods i r).enabled ≡ discard i r.enabled
  unfolding disable
  disable-enabled i r = elim (Option-cases (get i r.features)) [
    | inl e ↦ rw e refl
    | inr (f, e) ↦ rw e refl
  ]

  disable-features :
      (i j : FeatureId) (r : Registry F)
      → i ≢ j
      → get j (disable methods i r).features ≡ get j r.features
  unfolding disable
  disable-features i j r ne = elim (Option-cases (get i r.features)) [
    | inl e ↦ rw e refl
    | inr (f, e) ↦ rw e (get-insert_ne i j (methods.stop f).0 r.features ne)
  ]

  -- The exit of a message depends on the entry of its feature alone.
  dispatch-exit :
      (m : FeatureMessage) (r r' : Registry F)
      → is_enabled methods m.feature r' ≡ is_enabled methods m.feature r
      → get m.feature r'.features ≡ get m.feature r.features
      → (dispatch methods m r').1 ≡ (dispatch methods m r).1
  unfolding dispatch
  dispatch-exit m r r' on at = elim (Bool-cases (is_enabled methods m.feature r)) [
    | inl admitted ↦ elim (Option-cases (get m.feature r.features)) [
      | inl e ↦ rw (on, at, admitted, e) refl
      | inr (f, e) ↦ rw (on, at, admitted, e) refl
    ]
    | inr refused ↦ rw (on, refused) refl
  ]

  dispatch-not_enabled :
      (m : FeatureMessage) (r : Registry F)
      → is_enabled methods m.feature r ≡ false
      → dispatch methods m r ≡ (r, returned (err (not_enabled m.feature)))
  unfolding dispatch
  dispatch-not_enabled m r off = rw off refl

  -- After a feature is disabled, its messages are refused and change nothing, and a message to
  -- another feature has the exit that it had before.
  pub dispatch-disable :
      (i : FeatureId) (m : FeatureMessage) (r : Registry F)
      → (m.feature ≡ i
          → dispatch methods m (disable methods i r)
            ≡ (disable methods i r, returned (err (not_enabled i))))
        × (m.feature ≢ i → (dispatch methods m (disable methods i r)).1 ≡ (dispatch methods m r).1)
  unfolding is_enabled
  dispatch-disable i m r = (
    λ same.
        subst
          (λ j.
            dispatch methods m (disable methods i r)
            ≡ (disable methods i r, returned (err (not_enabled j))))
          same
          (dispatch-not_enabled m (disable methods i r) (
            ground (
              arith,
              disable-enabled i r,
              contains-discard i m.feature r.enabled,
              string_key.same_iff i m.feature,
            ))),
    λ ne.
        dispatch-exit m r (disable methods i r)
          (ground (
            arith,
            disable-enabled i r,
            contains-discard i m.feature r.enabled,
            string_key.same_iff i m.feature,
          ))
          (disable-features i m.feature r (λ p. ne (sym p))),
  )

  abbrev pub started_as : FeatureId → F → Registry F → Registry F
  started_as i f r = record {
    features = insert i (methods.start f).0 r.features;
    enabled = add i r.enabled;
  }

  pub enable_and_start-started :
      (i : FeatureId) (r : Registry F) (f : F)
      → get i r.features ≡ some f
      → enable_and_start methods i r ≡ (started_as i f r, returned (methods.start f).1)
  unfolding enable_and_start enable is_registered
  enable_and_start-started i r f e = rw (e, e) refl

  dispatch-started_as :
      (m : FeatureMessage) (r : Registry F) (f : F)
      → dispatch methods m (started_as m.feature f r)
        ≡ put methods m.feature (methods.handle m (methods.start f).0) (started_as m.feature f r)
  unfolding dispatch is_enabled
  dispatch-started_as m r f =
      let on = contains-add m.feature m.feature r.enabled in
      let at = get-insert_self m.feature (methods.start f).0 r.features in
      rw (on, beq_refl m.feature, at) refl

  -- When starting a registered feature succeeds, its next message reaches it as it was started.
  pub dispatch-enable_and_start :
      (m : FeatureMessage) (r : Registry F) (f : F)
      → get m.feature r.features ≡ some f
      → (methods.start f).1 ≡ ok tt
      → ((enable_and_start methods m.feature r).1 ≡ returned (ok tt))
        × ((dispatch methods m (enable_and_start methods m.feature r).0).1
            ≡ returned (methods.handle m (methods.start f).0).1)
        × (get m.feature (dispatch methods m (enable_and_start methods m.feature r).0).0.features
            ≡ some (methods.handle m (methods.start f).0).0)
  dispatch-enable_and_start m r f e started =
      rw (enable_and_start-started m.feature r f e, dispatch-started_as m r f, started)
        (
          refl,
          refl,
          get-insert_self m.feature (methods.handle m (methods.start f).0).0
              (started_as m.feature f r).features,
        )
