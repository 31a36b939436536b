-- ===== src/Daemon/Sync.antt =====
-- sync.rs: the daemon takes over what the server lists. Awaited calls run one after the other.
pub mod Policy
pub mod Features
use failsafe.Prelude.{
  ℕ, Bool, true, false, not, ◌&&◌, ◌||◌, String, Option, none, some, List, [], ◌∷◌, ◌++◌, all,
  find?, if◌then◌else◌, ◌==◌, nat_key, string_key, Result, ok, err,
}
use failsafe.Prelude.Assoc.{insert, contains, add}
use failsafe.Core.Message.{DeviceId, FeatureId}
use failsafe.Core.Catalog.{all_ids}
use failsafe.Core.Peer.{PeerDirectory, replace_peers, set_feature_enabled}
use failsafe.Core.Registry.{
  Methods, Registry, Exit, Done, returned, panicked, is_registered, is_enabled, enable, disable,
  enable_and_start,
}
use failsafe.Daemon.Config.{Config, DaemonError, feature_error, Stored, apply_server_policy}

-- api.rs: what the server says of a device.
pub record DeviceInfo : Type 0 where
  pub device_id : DeviceId
  pub name : String
  pub iroh_public_key : String
  pub enabled_features : List FeatureId
  pub last_seen : Option String
  pub online : Bool

-- peer_address.rs
abbrev pub PeerAddressBook : Type 0
PeerAddressBook = List (DeviceId × String)

unfoldable pub find_self_device : DeviceId → List DeviceInfo → Option DeviceInfo
find_self_device self_id devices = find? (λ (d : DeviceInfo). d.device_id == self_id) devices

unfoldable pub peer_address_book_from_devices : DeviceId → List DeviceInfo → PeerAddressBook
peer_address_book_from_devices self_id devices = addresses_from devices []
  where
    addresses_from : List DeviceInfo → PeerAddressBook → PeerAddressBook
    addresses_from [] book = book
    addresses_from (d ∷ ds) book =
        addresses_from ds
          (if d.device_id == self_id then book else insert d.device_id d.iroh_public_key book)

-- The inner loop of `apply_server_devices`.
unfoldable pub apply_features :
    DeviceId → List FeatureId → List FeatureId → List FeatureId → PeerDirectory → PeerDirectory
apply_features device local_features remote_features [] peers = peers
apply_features device local_features remote_features (feature ∷ features) peers =
    apply_features device local_features remote_features features (
      set_feature_enabled device feature
        (contains feature local_features && contains feature remote_features) peers)

-- What the loop over the devices has gathered.
pub record Gathered : Type 0 where
  pub peers : PeerDirectory
  pub peer_ids : List DeviceId
  pub addresses : PeerAddressBook

unfoldable pub apply_device : DeviceId → List FeatureId → DeviceInfo → Gathered → Gathered
unfolding apply_features
apply_device self_id local_features d g = if d.device_id == self_id then g else record {
  peers = apply_features d.device_id local_features d.enabled_features all_ids g.peers;
  peer_ids = g.peer_ids ++ d.device_id ∷ [];
  addresses = insert d.device_id d.iroh_public_key g.addresses;
}

unfoldable pub apply_each : DeviceId → List FeatureId → List DeviceInfo → Gathered → Gathered
unfolding apply_device
apply_each self_id local_features [] g = g
apply_each self_id local_features (d ∷ ds) g =
    apply_each self_id local_features ds (apply_device self_id local_features d g)

unfoldable pub apply_server_devices :
    DeviceId → List FeatureId → List DeviceInfo → PeerDirectory → PeerDirectory × PeerAddressBook
unfolding apply_each
apply_server_devices self_id local_features devices peers =
    let g =
      apply_each self_id local_features devices
        (record { peers = peers; peer_ids = []; addresses = [] }) in
    (replace_peers g.peer_ids g.peers, g.addresses)

-- `!=` of two hash sets.
abbrev pub same_set : List FeatureId → List FeatureId → Bool
same_set fs gs = all (λ f. contains f gs) fs && all (λ g. contains g fs) gs

module _ {F : Type 0} (methods : Methods F) where
  abbrev returning : Registry F × Done → Registry F × Exit
  returning (r, d) = (r, returned d)

  -- One turn of the loop of `sync_features_to_registry`.
  unfoldable pub sync_feature : List FeatureId → Bool → FeatureId → Registry F → Registry F × Exit
  sync_feature target start_new_features feature r =
      if not (is_registered methods feature r)
      then (r, returned (ok tt))
      else if contains feature target && not (is_enabled methods feature r)
      then (if start_new_features
          then enable_and_start methods feature r
          else returning (enable methods feature r))
      else if not (contains feature target) && is_enabled methods feature r
      then (disable methods feature r, returned (ok tt))
      else (r, returned (ok tt))

  unfoldable pub sync_each : List FeatureId → Bool → List FeatureId → Registry F → Registry F × Exit
  sync_each target start_new_features [] r = (r, returned (ok tt))
  sync_each target start_new_features (feature ∷ features) r =
      let (r', exit) = sync_feature target start_new_features feature r in
      elim exit [
        | returned (ok u) ↦ sync_each target start_new_features features r'
        | returned (err e) ↦ (r', returned (err e))
        | panicked ↦ (r', panicked)
      ]

  unfoldable pub sync_features_to_registry : List FeatureId → Bool → Registry F → Registry F × Exit
  unfolding sync_each
  sync_features_to_registry target start_new_features r =
      sync_each target start_new_features all_ids r
