-- ===== src/Core/Message.antt =====
-- message.rs, device.rs, feature.rs and api.rs of crates/failsafe-core. A UUID is a number, a
-- feature id is its text, and JSON is a parameter.
use failsafe.Prelude.{ℕ, ◌≡◌, String, Option, some, List}

abbrev pub DeviceId : Type 0
DeviceId = ℕ

abbrev pub AccountId : Type 0
AccountId = ℕ

abbrev pub FeatureId : Type 0
FeatureId = String

pub record FeatureMessage : Type 0 where
  pub version : ℕ
  pub from : DeviceId
  pub to : DeviceId
  pub feature : FeatureId
  pub payload : List ℕ

abbrev pub feature_message_version : ℕ
feature_message_version = 1

-- `FeatureMessage::new`.
abbrev pub new_message : DeviceId → DeviceId → FeatureId → List ℕ → FeatureMessage
new_message from to feature payload = record {
  version = feature_message_version;
  from = from;
  to = to;
  feature = feature;
  payload = payload;
}

-- What the code relies on of `serde_json` at a type: what it writes, it reads back.
pub record Serde (M : Type 0) : Type 0 where
  pub to_vec : M → Option (List ℕ)
  pub from_slice : List ℕ → Option M
  pub round_trip : (m : M) (bytes : List ℕ) → to_vec m ≡ some bytes → from_slice bytes ≡ some m
