-- ===== src/Core/Peer.antt =====
-- peer.rs: the account's other devices, and the features that are off for each of them.
use failsafe.Prelude.{Bool, not, ◌&&◌, List, [], keep, if◌then◌else◌, nat_key, string_key, pair_key}
use failsafe.Prelude.Assoc.{contains, add, discard, to_set}
use failsafe.Core.Message.{DeviceId, FeatureId}

pub record PeerDirectory : Type 0 where
  pub peers : List DeviceId
  pub disabled : List (DeviceId × FeatureId)

abbrev pub empty : PeerDirectory
empty = record { peers = []; disabled = [] }

unfoldable pub replace_peers : List DeviceId → PeerDirectory → PeerDirectory
replace_peers ds p = record p { peers = to_set ds }

unfoldable pub set_feature_enabled : DeviceId → FeatureId → Bool → PeerDirectory → PeerDirectory
set_feature_enabled peer feature enabled p =
    if enabled
    then record p { disabled = discard (peer, feature) p.disabled }
    else record p { disabled = add (peer, feature) p.disabled }

unfoldable pub is_feature_enabled : DeviceId → FeatureId → PeerDirectory → Bool
is_feature_enabled peer feature p =
    contains peer p.peers && not (contains (peer, feature) p.disabled)

unfoldable pub recipients_for : FeatureId → PeerDirectory → List DeviceId
recipients_for feature p = keep (λ peer. not (contains (peer, feature) p.disabled)) p.peers
