-- ===== src/Daemon/Service/Settled.antt =====
-- sync.rs, `apply_self_from_server`: what a second call with the same list does.
use failsafe.Prelude.{
  ◌≡◌, refl, inl, inr, Bool, true, false, not, some, String, List, [], ◌∷◌, all, ◌==◌, arith,
  string_key, Bool-cases, Option-cases, Result-cases, if◌then◌else◌, ok, err, beq_refl,
}
use failsafe.Prelude.Assoc.{contains, to_set}
use failsafe.Core.Message.{DeviceId, FeatureId}
use failsafe.Core.Registry.{Methods, Exit, returned, panicked}
use failsafe.Daemon.Config.{Save, apply_server_policy}
use failsafe.Daemon.Sync.{DeviceInfo, find_self_device, same_set}
use failsafe.Daemon.Service.{
  Own, finished, apply_self, apply_self_from_server, take_features, persist,
}

all-contains :
    (fs gs : List FeatureId)
    → ((f : FeatureId) → contains f fs ≡ true → contains f gs ≡ true)
    → all (λ f. contains f gs) fs ≡ true
unfolding contains
all-contains [] gs h = refl
all-contains (f ∷ fs) gs h =
    ground (
      arith,
      h f (ground (arith, beq_refl f)),
      all-contains fs gs (λ g at. h g (ground (arith, at))),
    )

pub same_set_refl : (fs : List FeatureId) → same_set fs fs ≡ true
same_set_refl fs = rw (all-contains fs fs (λ f h. h)) refl

module _ {F W : Type 0} (methods : Methods F) (save : Save W) where
  -- The name and the features are those of the server's entry.
  abbrev pub IsSettled : DeviceInfo → Own F W → Type 0
  IsSettled d s =
      ((d.name == s.device_name) ≡ true)
      × (same_set (to_set d.enabled_features) s.local_features ≡ true)

  persist-IsSettled :
      (changed : Bool) (d : DeviceInfo) (s : Own F W) (e : Exit)
      → IsSettled d s
      → IsSettled d (persist methods save changed d (s, e)).0
  persist-IsSettled changed d s panicked h = h
  persist-IsSettled changed d s (returned (err x)) h = h
  persist-IsSettled false d s (returned (ok u)) h = h
  persist-IsSettled true d s (returned (ok u)) h =
      elim (Result-cases (apply_server_policy save d.name d.enabled_features s.stored).1) [
        | inl (x, e) ↦ rw e h
        | inr (b, e) ↦ rw e h
      ]

  take_features-IsSettled :
      (d : DeviceInfo) (starts : Bool) (s : Own F W)
      → (d.name == s.device_name) ≡ true
      → let server_features = to_set d.enabled_features in
        IsSettled d
          (take_features methods save
            (not (same_set server_features s.local_features))
            server_features
            starts
            s).0
  take_features-IsSettled d starts s h =
      elim (Bool-cases (same_set (to_set d.enabled_features) s.local_features)) [
        | inl same ↦ rw same (h, same)
        | inr other ↦ rw other (h, same_set_refl (to_set d.enabled_features))
      ]

  renamed :
      (d : DeviceInfo) (name : String)
      → (d.name == (if not (d.name == name) then d.name else name)) ≡ true
  renamed d name = elim (Bool-cases (d.name == name)) [
    | inl same ↦ rw (same, same) refl
    | inr other ↦ rw other (beq_refl d.name)
  ]

  pub apply_self-IsSettled :
      (starts : Bool) (d : DeviceInfo) (s : Own F W)
      → IsSettled d (apply_self methods save starts (some d) s).0
  apply_self-IsSettled starts d s = persist-IsSettled _ d _ _ (
      take_features-IsSettled d starts
        (record s { device_name = if not (d.name == s.device_name) then d.name else s.device_name })
        (renamed d s.device_name))

  IsSettled-apply_self :
      (starts : Bool) (d : DeviceInfo) (s : Own F W)
      → IsSettled d s
      → apply_self methods save starts (some d) s ≡ (s, finished (ok false))
  IsSettled-apply_self starts d s h = rw (h.0, h.1) refl

  -- Whatever a call returned, an error included, the next one with the same list does nothing and
  -- reports that nothing changed.
  pub apply_self_from_server-again :
      (self_id : DeviceId) (devices : List DeviceInfo) (starts starts' : Bool) (s : Own F W)
      → let s' = (apply_self_from_server methods save self_id devices starts s).0 in
        apply_self_from_server methods save self_id devices starts' s' ≡ (s', finished (ok false))
  unfolding apply_self_from_server
  apply_self_from_server-again self_id devices starts starts' s =
      elim (Option-cases (find_self_device self_id devices)) [
        | inl e ↦ rw e refl
        | inr (d, e) ↦ rw e (
            IsSettled-apply_self starts' d (apply_self methods save starts (some d) s).0
              (apply_self-IsSettled starts d s))
      ]
