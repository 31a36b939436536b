-- ===== src/Transport/Router/Policy.antt =====
-- router.rs: who gets a published message, and what the publisher learns of it.
use failsafe.Prelude.{
  ◌≡◌, refl, ap, ◌∙◌, not, ◌&&◌, List, [], ◌∷◌, map, keep, nat_key, string_key, pair_key, Result,
  ok, err,
}
use failsafe.Prelude.Assoc.{contains, to_set}
use failsafe.Prelude.Sets.{contains-to_set, contains-keep}
use failsafe.Core.Message.{DeviceId, FeatureId, FeatureMessage}
use failsafe.Core.Peer.{PeerDirectory, is_feature_enabled, recipients_for}
use failsafe.Transport.Router.{
  Link, OutboundMessage, message_to, publish, send_each, publish_to, publish_among, conclude,
  failure_of,
}

contains-recipients_for :
    (d : DeviceId) (f : FeatureId) (ps : PeerDirectory)
    → contains d (recipients_for f ps) ≡ is_feature_enabled d f ps
unfolding recipients_for is_feature_enabled
contains-recipients_for d f ps =
    contains-keep (λ peer. not (contains (peer, f) ps.disabled)) d ps.peers

module _ {E : Type 0} (link : Link E) where
  -- The peers a message goes to.
  abbrev pub targets : OutboundMessage → PeerDirectory → List DeviceId
  targets outbound peers =
      keep (λ peer. contains peer link.connected) (recipients_for outbound.feature peers)

  -- The failures of the peers whose message could not be sent.
  abbrev pub failures : OutboundMessage → List DeviceId → List (DeviceId × E)
  failures outbound [] = []
  failures outbound (peer ∷ peers) =
      failure_of link peer (link.send (message_to link outbound peer)) (failures outbound peers)

  abbrev pub verdict : List (DeviceId × E) → Result (List (DeviceId × E)) (Unit {0})
  verdict [] = ok tt
  verdict (f ∷ fs) = err (f ∷ fs)

  send_each-failures :
      (outbound : OutboundMessage) (ds : List DeviceId)
      → send_each link outbound ds ≡ (map (message_to link outbound) ds, failures outbound ds)
  unfolding send_each
  send_each-failures outbound [] = refl
  send_each-failures outbound (d ∷ ds) = rw (send_each-failures outbound ds) refl

  conclude-verdict :
      (ms : List FeatureMessage) (fs : List (DeviceId × E))
      → conclude link (ms, fs) ≡ record { attempts = ms; result = verdict fs }
  conclude-verdict ms [] = refl
  conclude-verdict ms (f ∷ fs) = refl

  publish_to-failures :
      (outbound : OutboundMessage) (ds : List DeviceId)
      → publish_to link outbound ds ≡ record {
        attempts = map (message_to link outbound) ds;
        result = verdict (failures outbound ds);
      }
  publish_to-failures outbound [] = refl
  publish_to-failures outbound (d ∷ ds) =
      ap (conclude link) (send_each-failures outbound (d ∷ ds))
      ∙ conclude-verdict (map (message_to link outbound) (d ∷ ds)) (failures outbound (d ∷ ds))

  keep-to_set :
      (ds : List DeviceId)
      → keep (λ peer. contains peer (to_set link.connected)) ds
        ≡ keep (λ peer. contains peer link.connected) ds
  keep-to_set [] = refl
  keep-to_set (d ∷ ds) = rw (contains-to_set d link.connected, keep-to_set ds) refl

  publish_among-failures :
      (outbound : OutboundMessage) (ds : List DeviceId)
      → publish_among link outbound ds
        ≡ publish_to link outbound (keep (λ peer. contains peer link.connected) ds)
  publish_among-failures outbound [] = refl
  publish_among-failures outbound (d ∷ ds) = ap (publish_to link outbound) (keep-to_set (d ∷ ds))

  -- Publishing hands one message to `send` for each target, in the directory's order, goes on
  -- after a failure, and its error lists the peers whose message failed and no other.
  pub publish-failures :
      (outbound : OutboundMessage) (ps : PeerDirectory)
      → publish link outbound ps ≡ record {
        attempts = map (message_to link outbound) (targets outbound ps);
        result = verdict (failures outbound (targets outbound ps));
      }
  unfolding publish
  publish-failures outbound ps =
      publish_among-failures outbound (recipients_for outbound.feature ps)
      ∙ publish_to-failures outbound (targets outbound ps)

  map-message_to :
      (outbound : OutboundMessage) (ds : List DeviceId)
      → map FeatureMessage.to (map (message_to link outbound) ds) ≡ ds
  map-message_to outbound [] = refl
  map-message_to outbound (d ∷ ds) = ap (λ t. d ∷ t) (map-message_to outbound ds)

  -- A published message goes to a device exactly when the device is connected, is a peer of the
  -- account, and the feature is not off for it.
  pub publish-is_feature_enabled :
      (outbound : OutboundMessage) (ps : PeerDirectory) (d : DeviceId)
      → contains d (map FeatureMessage.to (publish link outbound ps).attempts)
        ≡ (is_feature_enabled d outbound.feature ps && contains d link.connected)
  publish-is_feature_enabled outbound ps d =
      rw
        (
          publish-failures outbound ps,
          map-message_to outbound (targets outbound ps),
          contains-keep (λ peer. contains peer link.connected) d
              (recipients_for outbound.feature ps),
          contains-recipients_for d outbound.feature ps,
        )
        refl
