-- ===== src/Tests/Daemon.antt =====
-- The daemon at a concrete server list. The file system counts the saves.
use failsafe.Prelude.{
  ℕ, suc, ◌≡◌, ◌≢◌, ◌⊎◌, refl, inr, true, false, String, none, some, List, [], ◌∷◌, arith,
  if◌then◌else◌, string_key, nat_key, pair_key, Result, ok, err, not,
}
use failsafe.Prelude.Assoc.{get, contains, insert, discard, add}
use failsafe.Core.Message.{FeatureId}
use failsafe.Core.Catalog.{all_ids, clipboard_id, send_id, shell_id, is_known_feature}
use failsafe.Core.Peer.{PeerDirectory, is_feature_enabled}
use failsafe.Core.Registry.{
  Registry, returned, is_registered, is_enabled, disable, enable, enable_and_start,
}
use failsafe.Daemon.Config.{
  Config, Save, DaemonError, apply_server_policy, device_removed, config_error,
}
use failsafe.Daemon.Sync.{
  DeviceInfo, find_self_device, apply_server_devices, sync_features_to_registry, sync_feature,
}
use failsafe.Daemon.Sync.Policy.{shared, apply_server_devices-peer}
use failsafe.Daemon.Service.{
  Own, Daemon, finished, apply_self_from_server, handle_sync_tick, sync_from_server,
}
use failsafe.Daemon.Service.Settled.{apply_self_from_server-again}
use failsafe.Daemon.Service.Health.{IsHealthy, handle_sync_tick-IsHealthy}
use failsafe.Daemon.Service.Agreement.{Agrees, sync_from_server-Agrees}
use failsafe.Tests.Features.{Counter, counter, two}

abbrev device : ℕ → String → List FeatureId → DeviceInfo
device id name features = record {
  device_id = id;
  name = name;
  iroh_public_key = name;
  enabled_features = features;
  last_seen = none;
  online = true;
}

abbrev desk : DeviceInfo
desk = device 2 "desk" (clipboard_id ∷ "unknown" ∷ [])

abbrev listed : List DeviceInfo
listed = device 1 "me" (send_id ∷ []) ∷ desk ∷ device 3 "phone" [] ∷ []

abbrev peers : PeerDirectory
peers = record { peers = 5 ∷ []; disabled = (2, clipboard_id) ∷ [] }

abbrev local_features : List FeatureId
local_features = clipboard_id ∷ []

apply_server_devices-peer_example :
    let r = apply_server_devices 1 local_features listed peers in
    let before = apply_server_devices 1 local_features (device 1 "me" (send_id ∷ []) ∷ []) peers in
    (is_feature_enabled 2 clipboard_id r.0 ≡ (
      if is_known_feature clipboard_id
      then shared clipboard_id local_features desk.enabled_features
      else not (contains {K = ℕ × FeatureId} (2, clipboard_id) before.0.disabled)))
    × (get {K = ℕ} 2 r.1 ≡ some "desk")
apply_server_devices-peer_example =
    apply_server_devices-peer 1 local_features clipboard_id (device 1 "me" (send_id ∷ []) ∷ [])
      (device 3 "phone" [] ∷ []) desk peers (λ p. ground arith) (inr (λ p. ground arith), tt)

synced_well : (sync_features_to_registry counter (send_id ∷ []) true two).1 ≡ returned (ok tt)
unfolding sync_features_to_registry all_ids sync_feature is_registered get contains is_enabled
    disable insert discard
synced_well = refl

-- The file system is the number of saves.
abbrev save : Save ℕ
save c w = (suc w, ok tt)

abbrev config : Config
config = record {
  device_id = 1;
  device_name = "old";
  server_url = "";
  enabled_features = clipboard_id ∷ send_id ∷ [];
  blob_store_path = none;
  clipboard_max_file_bytes = 10;
}

-- The shell of this registry does not start.
abbrev three : Registry Counter
three = record {
  features =
      (clipboard_id, (clipboard_id, 4)) ∷ (shell_id, (shell_id, 0)) ∷ (send_id, (send_id, 2)) ∷ [];
  enabled = clipboard_id ∷ [];
}

abbrev own : Registry Counter → Own Counter ℕ
own r = record {
  device_name = "old";
  local_features = r.enabled;
  registry = r;
  stored = record { config = config; world = 0 };
}

abbrev wants_all : List DeviceInfo
wants_all = device 1 "me" (clipboard_id ∷ shell_id ∷ send_id ∷ []) ∷ []

apply_self_from_server-again_example :
    let s' = (apply_self_from_server counter save 1 wants_all true (own three)).0 in
    apply_self_from_server counter save 1 wants_all true s' ≡ (s', finished (ok false))
apply_self_from_server-again_example =
    apply_self_from_server-again counter save 1 wants_all true true (own three)

-- The first call fails at the shell: Send is not enabled and nothing is saved.
failed_first :
    let s' = (apply_self_from_server counter save 1 wants_all true (own three)).0 in
    (is_enabled counter send_id s'.registry ≡ false)
    × (contains {K = FeatureId} send_id s'.local_features ≡ true)
    × (s'.stored.world ≡ 0)
unfolding apply_self_from_server find_self_device sync_features_to_registry all_ids sync_feature
    is_registered get contains is_enabled enable_and_start enable disable insert discard add
failed_first = (refl, refl, refl)

abbrev offline : Result DaemonError (Unit {0})
offline = err (config_error "offline")

abbrev daemon : Registry Counter → Daemon Counter ℕ
daemon r = record { own = own r; peers = peers; addresses = [] }

three-Valid : IsHealthy counter save (daemon three)
unfolding contains is_registered get
three-Valid i h = ground (arith, string_key.same_iff clipboard_id i)

handle_sync_tick-IsHealthy_example :
    let t = handle_sync_tick counter save 1 offline (some (ok wants_all)) [] (daemon three) in
    IsHealthy counter save t.0
    × ((offline ≢ err device_removed) × (t.2 ≡ finished (ok tt))
        ⊎ (offline ≡ err device_removed) × (t ≡ (daemon three, [], finished (err device_removed))))
handle_sync_tick-IsHealthy_example =
    handle_sync_tick-IsHealthy counter save 1 offline (some (ok wants_all)) [] (daemon three)
      three-Valid

two-Agrees : Agrees counter save two (clipboard_id ∷ send_id ∷ [])
unfolding is_enabled
two-Agrees f known present = refl

sync_ok :
    (sync_from_server counter save 1 true (some (ok listed)) (daemon two)).1 ≡ finished (ok tt)
unfolding sync_from_server apply_self_from_server find_self_device sync_features_to_registry all_ids
    sync_feature is_registered get contains is_enabled disable insert discard add
    apply_server_policy
sync_ok = refl

found_me : find_self_device 1 listed ≡ some (device 1 "me" (send_id ∷ []))
unfolding find_self_device
found_me = refl

sync_from_server-Agrees_example :
    let s = (sync_from_server counter save 1 true (some (ok listed)) (daemon two)).0.own in
    Agrees counter save s.registry s.local_features
    × ((f : FeatureId) → contains f s.local_features ≡ contains f (send_id ∷ []))
sync_from_server-Agrees_example =
    sync_from_server-Agrees counter save 1 true listed (daemon two) (device 1 "me" (send_id ∷ []))
      found_me two-Agrees sync_ok
