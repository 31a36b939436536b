-- ===== src/Daemon/Config.antt =====
-- config.rs and error.rs of crates/failsafe. The file system is a parameter `W` with what `save`
-- does to it.
use failsafe.Prelude.{
  ℕ, Bool, true, false, not, ◌&&◌, ◌||◌, String, Option, none, List, [], ◌∷◌, if◌then◌else◌, ◌==◌,
  string_key, Result, ok, err,
}
use failsafe.Prelude.Words.{u64_max, saturating_mul}
use failsafe.Core.Message.{DeviceId, FeatureId}
use failsafe.Core.Catalog.{clipboard_id, shell_id, send_id}
use failsafe.Core.Registry.{FeatureError}
use failsafe.Clipboard.Limits.{ClipboardLimits}

pub data DaemonError : Type 0 where
  config_error : String → DaemonError
  io : String → DaemonError
  feature_error : FeatureError → DaemonError
  control_error : String → DaemonError
  transport_error : String → DaemonError
  transport_unavailable : String → DaemonError
  device_removed : DaemonError

pub record Config : Type 0 where
  pub device_id : DeviceId
  pub device_name : String
  pub server_url : String
  pub enabled_features : List FeatureId
  pub blob_store_path : Option String
  pub clipboard_max_file_bytes : ℕ

abbrev pub default_clipboard_max_file_bytes : ℕ
default_clipboard_max_file_bytes = 104857600

-- `Config::new`.
abbrev pub new_config : DeviceId → Config
new_config device_id = record {
  device_id = device_id;
  device_name = "my-device";
  server_url = "https://failsafe.pendejo.dev";
  enabled_features = clipboard_id ∷ shell_id ∷ send_id ∷ [];
  blob_store_path = none;
  clipboard_max_file_bytes = default_clipboard_max_file_bytes;
}

unfoldable pub clipboard_limits : Config → ClipboardLimits
clipboard_limits c = record {
  max_file_bytes = c.clipboard_max_file_bytes;
  max_total_bytes = saturating_mul u64_max c.clipboard_max_file_bytes 5;
}

-- `!=` of two feature lists.
abbrev pub list_same : List FeatureId → List FeatureId → Bool
list_same [] [] = true
list_same [] (y ∷ ys) = false
list_same (x ∷ xs) [] = false
list_same (x ∷ xs) (y ∷ ys) = (x == y) && list_same xs ys

-- The configuration in memory and the file system.
pub record Stored (W : Type 0) : Type 0 where
  pub config : Config
  pub world : W

abbrev pub Save : Type 0 → Type 0
Save W = Config → W → W × Result DaemonError (Unit {0})

module _ {W : Type 0} (save : Save W) where
  abbrev saved :
      Bool → Config → W × Result DaemonError (Unit {0}) → Stored W × Result DaemonError Bool
  saved changed c (w, err e) = (record { config = c; world = w }, err e)
  saved changed c (w, ok u) = (record { config = c; world = w }, ok changed)

  unfoldable pub apply_server_policy :
      String → List FeatureId → Stored W → Stored W × Result DaemonError Bool
  apply_server_policy name features s =
      let changed =
        not (s.config.device_name == name) || not (list_same s.config.enabled_features features) in
      let c = record s.config { device_name = name; enabled_features = features } in
      if changed then saved changed c (save c s.world) else (s, ok changed)
