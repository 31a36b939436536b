-- ===== src/Core/Registry/Safety.antt =====
-- registry.rs: the `expect`s of `start_enabled` and `enable_and_start`.
use failsafe.Prelude.{
  ◌≡◌, refl, sym, subst, ◌∙◌, ◌⊎◌, inl, inr, true, List, [], ◌∷◌, ◌==◌, All, arith, string_key,
  Bool-cases, Option-cases, if◌then◌else◌, ok, err, beq→eq, beq_refl,
}
use failsafe.Prelude.Assoc.{
  get, insert, contains, add, discard, get-insert, contains-add, contains-discard,
}
use failsafe.Core.Message.{FeatureId, FeatureMessage}
use failsafe.Core.Registry.{
  Methods, Registry, Exit, FeatureError, returned, panicked, is_registered, is_enabled, register,
  enable, disable, enable_and_start, start_each, start_enabled, start_at, dispatch, new,
}

-- The public operations that change a registry.
pub data Call (F : Type 0) : Type 0 where
  registers : F → Call F
  enables : FeatureId → Call F
  disables : FeatureId → Call F
  starts : FeatureId → Call F
  starts_enabled : Call F
  dispatches : FeatureMessage → Call F

-- The call came back.
abbrev pub IsSafe : Exit → Type 0
IsSafe (returned result) = Unit
IsSafe panicked = ⊥

pub Exit-cases :
    (e : Exit)
    → (e ≡ panicked) ⊎ ((x : FeatureError) × (e ≡ returned (err x))) ⊎ (e ≡ returned (ok tt))
Exit-cases panicked = inl refl
Exit-cases (returned (err x)) = inr (inl (x, refl))
Exit-cases (returned (ok tt)) = inr (inr refl)

module _ {F : Type 0} (methods : Methods F) where
  unfoldable pub step : Call F → Registry F → Registry F × Exit
  step (registers f) r = ((register methods f r).0, returned (register methods f r).1)
  step (enables i) r = ((enable methods i r).0, returned (enable methods i r).1)
  step (disables i) r = (disable methods i r, returned (ok tt))
  step (starts i) r = enable_and_start methods i r
  step starts_enabled r = start_enabled methods r
  step (dispatches m) r = dispatch methods m r

  -- The exits of the calls of a history.
  unfoldable pub exits : List (Call F) → Registry F → List Exit
  exits [] r = []
  exits (c ∷ cs) r = (step c r).1 ∷ exits cs (step c r).0

  -- All ids of a set are registered.
  abbrev Listed : List FeatureId → Registry F → Type 0
  Listed is' r = (i : FeatureId) → contains i is' ≡ true → is_registered methods i r ≡ true

  -- Every enabled feature is registered.
  abbrev pub IsValid : Registry F → Type 0
  IsValid r = Listed r.enabled r

  pub new-IsValid : IsValid (new methods)
  unfolding contains
  new-IsValid i h = absurd (ground arith)

  pub registered-insert :
      (i j : FeatureId) (f : F) (r : Registry F)
      → is_registered methods j (record r { features = insert i f r.features })
        ≡ (if i == j then true else is_registered methods j r)
  unfolding is_registered
  registered-insert i j f r = ground (arith, get-insert i j f r.features)

  insert-Listed :
      (i : FeatureId) (f : F) (is' : List FeatureId) (r : Registry F)
      → Listed is' r
      → Listed is' (record r { features = insert i f r.features })
  insert-Listed i f is' r v j h = ground (arith, registered-insert i j f r, v j h)

  add-Listed :
      (i : FeatureId) (is' : List FeatureId) (r : Registry F)
      → is_registered methods i r ≡ true
      → Listed is' r
      → Listed (add i is') r
  add-Listed i is' r h v j hj = elim (Bool-cases (i == j)) [
    | inl same ↦ cc (beq→eq i j same, h)
    | inr other ↦ v j (ground (arith, contains-add i j is', other))
  ]

  discard-Listed :
      (i : FeatureId) (is' : List FeatureId) (r : Registry F)
      → Listed is' r
      → Listed (discard i is') r
  discard-Listed i is' r v j hj = v j (ground (arith, contains-discard i j is'))

  -- The call did not panic and all of `is'` is still registered.
  abbrev Keeps : List FeatureId → Registry F → Registry F × Exit → Type 0
  Keeps is' r s = IsSafe s.1 × Listed is' s.0 × (s.0.enabled ≡ r.enabled)

  Keeps-IsValid :
      (r : Registry F) (s : Registry F × Exit) → Keeps r.enabled r s → IsSafe s.1 × IsValid s.0
  Keeps-IsValid r s k = (k.0, subst (λ is'. Listed is' s.0) (sym k.2) k.1)

  start_at-Keeps :
      (i : FeatureId) (is' : List FeatureId) (r : Registry F)
      → is_registered methods i r ≡ true
      → Listed is' r
      → Keeps is' r (start_at methods i (get i r.features) r)
  unfolding is_registered
  start_at-Keeps i is' r h v = elim (Option-cases (get i r.features)) [
    | inl e ↦ absurd (ground (arith, e))
    | inr (f, e) ↦ rw e (tt, insert-Listed i (methods.start f).0 is' r v, refl)
  ]

  start_each-Keeps :
      (ids : List FeatureId) (is' : List FeatureId) (r : Registry F)
      → Listed ids r
      → Listed is' r
      → Keeps is' r (start_each methods ids r)
  unfolding start_each contains
  start_each-Keeps [] is' r h v = (tt, v, refl)
  start_each-Keeps (i ∷ ids) is' r h v =
      let here = h i (rw (beq_refl i) refl) in
      let later : Listed ids r = λ j hj. h j (ground (arith, hj)) in
      let one = start_at-Keeps i is' r here v in
      let rest =
        start_each-Keeps ids is' (start_at methods i (get i r.features) r).0
          (start_at-Keeps i ids r here later).1 one.1 in
      elim (Exit-cases (start_at methods i (get i r.features) r).1) [
        | inl e ↦ absurd (subst IsSafe e one.0)
        | inr (inl (x, e)) ↦ rw (e, start_each) (tt, one.1, one.2)
        | inr (inr e) ↦ rw (e, start_each) (rest.0, rest.1, rest.2 ∙ one.2)
      ]

  enable_and_start-IsSafe :
      (i : FeatureId) (r : Registry F)
      → IsValid r
      → IsSafe (enable_and_start methods i r).1 × IsValid (enable_and_start methods i r).0
  unfolding enable_and_start enable
  enable_and_start-IsSafe i r v = elim (Bool-cases (is_registered methods i r)) [
    | inl old ↦
        let r' = record r { enabled = add i r.enabled } in
        let s = start_at-Keeps i r'.enabled r' old (add-Listed i r.enabled r old v) in
        rw old (Keeps-IsValid r' (start_at methods i (get i r.features) r') s)
    | inr fresh ↦ rw fresh (tt, v)
  ]

  -- One call on a valid registry does not panic and leaves a valid registry.
  pub step-IsValid :
      (c : Call F) (r : Registry F) → IsValid r → IsSafe (step c r).1 × IsValid (step c r).0
  unfolding step register enable disable start_enabled dispatch
  step-IsValid (registers f) r v = elim (Bool-cases (is_registered methods (methods.id f) r)) [
    | inl old ↦ rw old (tt, v)
    | inr fresh ↦ rw fresh (tt, insert-Listed (methods.id f) f r.enabled r v)
  ]
  step-IsValid (enables i) r v = elim (Bool-cases (is_registered methods i r)) [
    | inl old ↦ rw old (tt, add-Listed i r.enabled r old v)
    | inr fresh ↦ rw fresh (tt, v)
  ]
  step-IsValid (disables i) r v = elim (Option-cases (get i r.features)) [
    | inl e ↦ rw e (tt, discard-Listed i r.enabled r v)
    | inr (f, e) ↦
        rw e (tt, insert-Listed i (methods.stop f).0 _ r (discard-Listed i r.enabled r v))
  ]
  step-IsValid (starts i) r v = enable_and_start-IsSafe i r v
  step-IsValid starts_enabled r v =
      Keeps-IsValid r (start_each methods r.enabled r) (start_each-Keeps r.enabled r.enabled r v v)
  step-IsValid (dispatches m) r v = elim (Bool-cases (is_enabled methods m.feature r)) [
    | inl on ↦ elim (Option-cases (get m.feature r.features)) [
      | inl e ↦ rw (on, e) (tt, v)
      | inr (f, e) ↦ rw (on, e) (tt, insert-Listed m.feature (methods.handle m f).0 r.enabled r v)
    ]
    | inr off ↦ rw off (tt, v)
  ]

  -- No call of any history from a valid registry, such as a new one, panics.
  pub exits-IsSafe : (cs : List (Call F)) (r : Registry F) → IsValid r → All IsSafe (exits cs r)
  unfolding exits
  exits-IsSafe [] r v = tt
  exits-IsSafe (c ∷ cs) r v = let s = step-IsValid c r v in (s.0, exits-IsSafe cs (step c r).0 s.1)
