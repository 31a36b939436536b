-- ===== src/Transport/Router.antt =====
-- router.rs: what a device publishes is sent to the connected peers that take the feature. The
-- transport is a parameter: who is connected, and what each sent message leads to.
pub mod Policy
use failsafe.Prelude.{
  ℕ, Bool, Option, none, some, List, [], ◌∷◌, ◌++◌, keep, map, nat_key, Result, ok, err,
  if◌then◌else◌,
}
use failsafe.Prelude.Assoc.{contains, to_set}
use failsafe.Core.Message.{DeviceId, FeatureId, FeatureMessage, new_message}
use failsafe.Core.Peer.{PeerDirectory, recipients_for}

pub record OutboundMessage : Type 0 where
  pub feature : FeatureId
  pub payload : List ℕ

-- The transport at the time of a call; `send` gives the error of a message that is not sent.
pub record Link (E : Type 0) : Type 0 where
  pub local_id : DeviceId
  pub connected : List DeviceId
  pub send : FeatureMessage → Option E

-- The messages that were handed to `send`, and the failures of the others' peers.
pub record Published (E : Type 0) : Type 0 where
  pub attempts : List FeatureMessage
  pub result : Result (List (DeviceId × E)) (Unit {0})

module _ {E : Type 0} (link : Link E) where
  open link use {local_id, connected, send}

  abbrev failure_of : DeviceId → Option E → List (DeviceId × E) → List (DeviceId × E)
  failure_of peer none rest = rest
  failure_of peer (some e) rest = (peer, e) ∷ rest

  abbrev pub message_to : OutboundMessage → DeviceId → FeatureMessage
  message_to outbound peer = new_message local_id peer outbound.feature outbound.payload

  unfoldable pub send_each :
      OutboundMessage → List DeviceId → List FeatureMessage × List (DeviceId × E)
  send_each outbound [] = ([], [])
  send_each outbound (peer ∷ peers) =
      let message = message_to outbound peer in
      let rest = send_each outbound peers in
      (message ∷ rest.0, failure_of peer (send message) rest.1)

  abbrev conclude : List FeatureMessage × List (DeviceId × E) → Published E
  conclude (attempts, []) = record { attempts = attempts; result = ok tt }
  conclude (attempts, f ∷ fs) = record { attempts = attempts; result = err (f ∷ fs) }

  abbrev publish_to : OutboundMessage → List DeviceId → Published E
  publish_to outbound [] = record { attempts = []; result = ok tt }
  publish_to outbound (p ∷ ps) = conclude (send_each outbound (p ∷ ps))

  abbrev publish_among : OutboundMessage → List DeviceId → Published E
  publish_among outbound [] = record { attempts = []; result = ok tt }
  publish_among outbound (c ∷ cs) =
      publish_to outbound (keep (λ peer. contains peer (to_set connected)) (c ∷ cs))

  unfoldable pub publish : OutboundMessage → PeerDirectory → Published E
  unfolding recipients_for send_each
  publish outbound peers = publish_among outbound (recipients_for outbound.feature peers)
