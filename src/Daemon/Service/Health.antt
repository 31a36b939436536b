-- ===== src/Daemon/Service/Health.antt =====
-- daemon.rs: panics and the end of the daemon, over ticks, messages and a shutdown.
use failsafe.Prelude.{
  ◌≡◌, ◌≢◌, refl, inl, inr, ◌⊎◌, ◌↔◌, Bool, true, false, not, ◌&&◌, ◌||◌, Option, none, some, List,
  [], ◌∷◌, arith, string_key, Bool-cases, Result, ok, err, Result-cases,
}
use failsafe.Prelude.Assoc.{contains, to_set}
use failsafe.Core.Message.{DeviceId, FeatureId, FeatureMessage}
use failsafe.Core.Catalog.{all_ids}
use failsafe.Core.Registry.{
  Methods, Registry, Exit, returned, panicked, is_registered, is_enabled, disable,
}
use failsafe.Core.Registry.Safety.{
  IsValid, IsSafe, step, step-IsValid, enables, disables, starts, dispatches,
}
use failsafe.Core.Registry.Effects.{is_enabled-disable}
use failsafe.Daemon.Config.{
  DaemonError, device_removed, config_error, io, feature_error, control_error, transport_error,
  transport_unavailable, Save, apply_server_policy,
}
use failsafe.Daemon.Sync.{
  DeviceInfo, find_self_device, sync_features_to_registry, sync_feature, sync_each,
}
use failsafe.Daemon.Sync.Features.{sync_each-next, sync_each-fails, ok-or-not}
use failsafe.Daemon.Service.{
  removed, Own, Daemon, name_changed, features_changed, named, Finish, finished, aborted,
  apply_self, apply_self_from_server, take_features, persist, synced, sync_from_server,
  handle_sync_tick, shared_after, handle_transport_message, disable_each, shutdown,
}

-- The call came back.
abbrev pub IsFinished : {A : Type 0} → Finish A → Type 0
IsFinished (finished result) = Unit
IsFinished aborted = ⊥

removed_iff : (h : Result DaemonError (Unit {0})) → (removed h ≡ true) ↔ (h ≡ err device_removed)
removed_iff (ok tt) = (λ p. ground arith, λ p. ground arith)
removed_iff (err device_removed) = (λ p. refl, λ p. refl)
removed_iff (err (config_error x)) = (λ p. ground arith, λ p. ground arith)
removed_iff (err (io x)) = (λ p. ground arith, λ p. ground arith)
removed_iff (err (feature_error x)) = (λ p. ground arith, λ p. ground arith)
removed_iff (err (control_error x)) = (λ p. ground arith, λ p. ground arith)
removed_iff (err (transport_error x)) = (λ p. ground arith, λ p. ground arith)
removed_iff (err (transport_unavailable x)) = (λ p. ground arith, λ p. ground arith)

module _ {F : Type 0} (methods : Methods F) where
  abbrev Safe : Registry F × Exit → Type 0
  Safe s = IsSafe s.1 × IsValid methods s.0

  sync_feature-Safe :
      (target : List FeatureId) (now : Bool) (f : FeatureId) (r : Registry F)
      → IsValid methods r
      → Safe (sync_feature methods target now f r)
  unfolding sync_feature step
  sync_feature-Safe target now f r v = elim (Bool-cases (is_registered methods f r)) [
    | inr unknown ↦ rw unknown (tt, v)
    | inl known ↦ elim (Bool-cases (contains f target)) [
      | inl on ↦ elim (Bool-cases (is_enabled methods f r)) [
        | inl already ↦ rw (known, on, already) (tt, v)
        | inr fresh ↦ elim (Bool-cases now) [
          | inl s ↦ rw (known, on, fresh, s) (step-IsValid methods (starts f) r v)
          | inr s ↦ rw (known, on, fresh, s) (step-IsValid methods (enables f) r v)
        ]
      ]
      | inr off ↦ elim (Bool-cases (is_enabled methods f r)) [
        | inl already ↦ rw (known, off, already) (step-IsValid methods (disables f) r v)
        | inr fresh ↦ rw (known, off, fresh) (tt, v)
      ]
    ]
  ]

  sync_each-Safe :
      (target : List FeatureId) (now : Bool) (fs : List FeatureId) (r : Registry F)
      → IsValid methods r
      → Safe (sync_each methods target now fs r)
  unfolding sync_each
  sync_each-Safe target now [] r v = (tt, v)
  sync_each-Safe target now (f ∷ fs) r v =
      let one = sync_feature-Safe target now f r v in
      elim (ok-or-not (sync_feature methods target now f r).1) [
        | inl e ↦
            rw (sync_each-next methods target now f fs r e)
              (sync_each-Safe target now fs (sync_feature methods target now f r).0 one.1)
        | inr ne ↦ rw (sync_each-fails methods target now f fs r ne) one
      ]

  disable_each-off :
      (fs : List FeatureId) (j : FeatureId) (r : Registry F)
      → is_enabled methods j (disable_each methods fs r)
        ≡ (is_enabled methods j r && not (contains j fs))
  unfolding contains disable_each
  disable_each-off [] j r = ground arith
  disable_each-off (f ∷ fs) j r =
      let rest = disable_each-off fs j (disable methods f r) in
      ground (arith, rest, is_enabled-disable methods f j r)

module _ {F W : Type 0} (methods : Methods F) (save : Save W) where
  -- The registry of the daemon enables registered features only.
  abbrev pub IsHealthy : Daemon F W → Type 0
  IsHealthy d = IsValid methods d.own.registry

  persist-Safe :
      (changed : Bool) (d : DeviceInfo) (s : Own F W × Exit)
      → IsSafe s.1
      → IsValid methods s.0.registry
      → let p = persist methods save changed d s in IsFinished p.1 × IsValid methods p.0.registry
  persist-Safe changed d (s, panicked) h v = absurd h
  persist-Safe changed d (s, returned (err e)) h v = (tt, v)
  persist-Safe false d (s, returned (ok u)) h v = (tt, v)
  persist-Safe true d (s, returned (ok u)) h v =
      elim (Result-cases (apply_server_policy save d.name d.enabled_features s.stored).1) [
        | inl (x, e) ↦ rw e (tt, v)
        | inr (b, e) ↦ rw e (tt, v)
      ]

  take_features-Safe :
      (changed : Bool) (target : List FeatureId) (now : Bool) (s : Own F W)
      → IsValid methods s.registry
      → let t = take_features methods save changed target now s in
        IsSafe t.1 × IsValid methods t.0.registry
  unfolding sync_features_to_registry
  take_features-Safe false target now s v = (tt, v)
  take_features-Safe true target now s v = sync_each-Safe methods target now all_ids s.registry v

  apply_self-Safe :
      (now : Bool) (o : Option DeviceInfo) (s : Own F W)
      → IsValid methods s.registry
      → let a = apply_self methods save now o s in IsFinished a.1 × IsValid methods a.0.registry
  apply_self-Safe now none s v = (tt, v)
  apply_self-Safe now (some d) s v =
      let t =
        take_features-Safe (features_changed d s) (to_set d.enabled_features) now (named d s) v in
      persist-Safe (name_changed d s || features_changed d s) d
        (take_features methods save (features_changed d s) (to_set d.enabled_features) now
          (named d s))
        t.0 t.1

  synced-Safe :
      (self_id : DeviceId) (devices : List DeviceInfo) (d : Daemon F W) (a : Own F W × Finish Bool)
      → IsFinished a.1
      → IsValid methods a.0.registry
      → let r = synced methods save self_id devices d a in IsFinished r.1 × IsHealthy r.0
  synced-Safe self_id devices d (own, aborted) h v = absurd h
  synced-Safe self_id devices d (own, finished (err e)) h v = (tt, v)
  synced-Safe self_id devices d (own, finished (ok b)) h v = (tt, v)

  sync_from_server-Safe :
      (self_id : DeviceId) (now : Bool) (response : Option (Result DaemonError (List DeviceInfo)))
      (d : Daemon F W)
      → IsHealthy d
      → let r = sync_from_server methods save self_id now response d in
        IsFinished r.1 × IsHealthy r.0
  unfolding sync_from_server apply_self_from_server
  sync_from_server-Safe self_id now none d v = (tt, v)
  sync_from_server-Safe self_id now (some (err e)) d v = (tt, v)
  sync_from_server-Safe self_id now (some (ok devices)) d v =
      let a = apply_self-Safe now (find_self_device self_id devices) d.own v in
      synced-Safe self_id devices d (apply_self_from_server methods save self_id devices now d.own)
        a.0 a.1

  -- A tick that does not find the device removed goes on, whatever the server answers.
  abbrev GoesOn : Daemon F W × List FeatureId × Finish (Unit {0}) → Type 0
  GoesOn t = (t.2 ≡ finished (ok tt)) × IsHealthy t.0

  shared_after-GoesOn :
      (shared : List FeatureId) (s : Daemon F W × Finish (Unit {0}))
      → IsFinished s.1
      → IsHealthy s.0
      → GoesOn (shared_after methods save shared s)
  shared_after-GoesOn shared (d, aborted) h v = absurd h
  shared_after-GoesOn shared (d, finished (err e)) h v = (refl, v)
  shared_after-GoesOn shared (d, finished (ok u)) h v = (refl, v)

  -- On a healthy daemon a tick neither panics nor ends the daemon, whatever the server answers,
  -- unless the heartbeat says that the device was removed; then it ends with that error and
  -- changes nothing. The daemon stays healthy.
  pub handle_sync_tick-IsHealthy :
      (self_id : DeviceId) (heartbeat : Result DaemonError (Unit {0}))
      (response : Option (Result DaemonError (List DeviceInfo))) (shared : List FeatureId)
      (d : Daemon F W)
      → IsHealthy d
      → let t = handle_sync_tick methods save self_id heartbeat response shared d in
        IsHealthy t.0
        × ((heartbeat ≢ err device_removed) × (t.2 ≡ finished (ok tt))
            ⊎ (heartbeat ≡ err device_removed) × (t ≡ (d, shared, finished (err device_removed))))
  unfolding handle_sync_tick
  handle_sync_tick-IsHealthy self_id heartbeat response shared d v =
      elim (Bool-cases (removed heartbeat)) [
        | inl gone ↦ rw gone (v, inr ((removed_iff heartbeat).0 gone, refl))
        | inr stays ↦
            let a = sync_from_server-Safe self_id true response d v in
            let g =
              shared_after-GoesOn shared (sync_from_server methods save self_id true response d) a.0
                a.1 in
            rw stays (g.1, inl (λ p. ground (arith, stays, (removed_iff heartbeat).1 p), g.0))
      ]

  -- Messages and a shutdown keep the daemon healthy.
  pub handle_transport_message-IsHealthy :
      (m : FeatureMessage) (d : Daemon F W)
      → IsHealthy d
      → IsHealthy (handle_transport_message methods save m d)
  unfolding handle_transport_message step
  handle_transport_message-IsHealthy m d v =
      (step-IsValid methods (dispatches m) d.own.registry v).1

  -- After a shutdown no feature is enabled.
  pub shutdown-off :
      (d : Daemon F W) (f : FeatureId)
      → is_enabled methods f (shutdown methods save d).own.registry ≡ false
  unfolding shutdown is_enabled
  shutdown-off d f =
      let all_ = disable_each-off methods d.own.registry.enabled f d.own.registry in
      elim (Bool-cases (contains f d.own.registry.enabled)) [
        | inl on ↦ ground (arith, all_, on)
        | inr off ↦ ground (arith, all_, off)
      ]
