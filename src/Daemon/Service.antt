-- ===== src/Daemon/Service.antt =====
-- sync.rs, `apply_self_from_server`, and daemon.rs: the state of the daemon and what a sync with the
-- server, a tick and a shutdown do to it. What the server answers is an argument.
pub mod Settled
pub mod Health
pub mod Agreement
use failsafe.Prelude.{
  ℕ, Bool, true, false, not, ◌&&◌, ◌||◌, String, Option, none, some, List, [], ◌∷◌, if◌then◌else◌,
  ◌==◌, nat_key, string_key, Result, ok, err,
}
use failsafe.Prelude.Assoc.{contains, to_set}
use failsafe.Core.Message.{DeviceId, FeatureId, FeatureMessage}
use failsafe.Core.Peer.{PeerDirectory}
use failsafe.Core.Registry.{
  Methods, Registry, Exit, Done, returned, panicked, is_registered, enable, disable, dispatch,
}
use failsafe.Daemon.Config.{
  DaemonError, config_error, feature_error, device_removed, Stored, Save, apply_server_policy,
}
use failsafe.Daemon.Sync.{
  DeviceInfo, PeerAddressBook, find_self_device, same_set, sync_features_to_registry,
  apply_server_devices,
}

-- What a call leads to: a result, or a panic of the registry.
pub data Finish (A : Type 0) : Type 0 where
  finished : Result DaemonError A → Finish A
  aborted : Finish A

-- The part of the daemon that follows the server's entry of this device.
pub record Own (F W : Type 0) : Type 0 where
  pub device_name : String
  pub local_features : List FeatureId
  pub registry : Registry F
  pub stored : Stored W

-- A daemon that was built from a configuration, `from_config`.
pub record Daemon (F W : Type 0) : Type 0 where
  pub own : Own F W
  pub peers : PeerDirectory
  pub addresses : PeerAddressBook

-- `matches!(error, DeviceRemoved)` of a heartbeat.
abbrev pub removed : Result DaemonError (Unit {0}) → Bool
removed (err device_removed) = true
removed _ = false

module _ {F W : Type 0} where
  abbrev pub name_changed : DeviceInfo → Own F W → Bool
  name_changed d s = not (d.name == s.device_name)

  abbrev pub features_changed : DeviceInfo → Own F W → Bool
  features_changed d s = not (same_set (to_set d.enabled_features) s.local_features)

  abbrev pub named : DeviceInfo → Own F W → Own F W
  named d s = record s { device_name = if name_changed d s then d.name else s.device_name }

module _ {F : Type 0} (methods : Methods F) where
  unfoldable pub disable_each : List FeatureId → Registry F → Registry F
  disable_each [] r = r
  disable_each (f ∷ fs) r = disable_each fs (disable methods f r)

  -- The last loop of `build`: the configured features that this build has are enabled.
  unfoldable pub enable_configured : List FeatureId → Registry F → Registry F × Done
  enable_configured [] r = (r, ok tt)
  enable_configured (f ∷ fs) r =
      let one = if is_registered methods f r then enable methods f r else (r, ok tt) in
      elim one.1 [ err e ↦ (one.0, err e) | ok u ↦ enable_configured fs one.0 ]

module _ {F W : Type 0} (methods : Methods F) (save : Save W) where
  abbrev persisted : Own F W → Stored W × Result DaemonError Bool → Bool → Own F W × Finish Bool
  persisted s (stored, err e) changed = (record s { stored = stored }, finished (err e))
  persisted s (stored, ok b) changed = (record s { stored = stored }, finished (ok changed))

  abbrev persist : Bool → DeviceInfo → Own F W × Exit → Own F W × Finish Bool
  persist changed d (s, panicked) = (s, aborted)
  persist changed d (s, returned (err e)) = (s, finished (err (feature_error e)))
  persist false d (s, returned (ok u)) = (s, finished (ok false))
  persist true d (s, returned (ok u)) =
      persisted s (apply_server_policy save d.name d.enabled_features s.stored) true

  abbrev take_features : Bool → List FeatureId → Bool → Own F W → Own F W × Exit
  take_features false server_features start_new_features s = (s, returned (ok tt))
  take_features true server_features start_new_features s =
      let (r, exit) =
        sync_features_to_registry methods server_features start_new_features s.registry in
      (record s { local_features = server_features; registry = r }, exit)

  abbrev apply_self : Bool → Option DeviceInfo → Own F W → Own F W × Finish Bool
  apply_self start_new_features none s = (s, finished (ok false))
  apply_self start_new_features (some d) s = persist (name_changed d s || features_changed d s) d (
      take_features (features_changed d s) (to_set d.enabled_features) start_new_features
        (named d s))

  unfoldable pub apply_self_from_server :
      DeviceId → List DeviceInfo → Bool → Own F W → Own F W × Finish Bool
  apply_self_from_server self_id devices start_new_features s =
      apply_self start_new_features (find_self_device self_id devices) s

  abbrev synced :
      DeviceId
      → List DeviceInfo
      → Daemon F W
      → Own F W × Finish Bool
      → Daemon F W × Finish (Unit {0})
  synced self_id devices d (own, aborted) = (record d { own = own }, aborted)
  synced self_id devices d (own, finished (err e)) = (record d { own = own }, finished (err e))
  synced self_id devices d (own, finished (ok b)) =
      let (peers, addresses) = apply_server_devices self_id own.local_features devices d.peers in
      (record { own = own; peers = peers; addresses = addresses }, finished (ok tt))

  -- The answer of `list_devices`; `none` when there is no server client.
  unfoldable pub sync_from_server :
      DeviceId
      → Bool
      → Option (Result DaemonError (List DeviceInfo))
      → Daemon F W
      → Daemon F W × Finish (Unit {0})
  sync_from_server self_id starts none d =
      (d, finished (err (config_error "credentials are required; pair this device first")))
  sync_from_server self_id starts (some (err e)) d = (d, finished (err e))
  sync_from_server self_id starts (some (ok devices)) d =
      synced self_id devices d (apply_self_from_server self_id devices starts d.own)

  -- What a tick leads to: the daemon, the features it shares with the control server, and the end
  -- of the daemon when there is one.
  abbrev shared_after :
      List FeatureId
      → Daemon F W × Finish (Unit {0})
      → Daemon F W × List FeatureId × Finish (Unit {0})
  shared_after shared (d, aborted) = (d, shared, aborted)
  shared_after shared (d, finished (err e)) = (d, shared, finished (ok tt))
  shared_after shared (d, finished (ok u)) = (d, d.own.local_features, finished (ok tt))

  unfoldable pub handle_sync_tick :
      DeviceId
      → Result DaemonError (Unit {0})
      → Option (Result DaemonError (List DeviceInfo))
      → List FeatureId
      → Daemon F W
      → Daemon F W × List FeatureId × Finish (Unit {0})
  handle_sync_tick self_id heartbeat response shared d =
      if removed heartbeat
      then (d, shared, finished (err device_removed))
      else shared_after shared (sync_from_server self_id true response d)

  -- The error of a message is logged and no more.
  unfoldable pub handle_transport_message : FeatureMessage → Daemon F W → Daemon F W
  handle_transport_message message d = record d {
    own = record d.own { registry = (dispatch methods message d.own.registry).0 };
  }

  unfoldable pub shutdown : Daemon F W → Daemon F W
  unfolding disable_each
  shutdown d = record d {
    own = record d.own { registry = disable_each methods d.own.registry.enabled d.own.registry };
  }
