-- ===== src/Core/Catalog.antt =====
-- feature_registry.rs of crates/failsafe-feature-registry: the features that a build knows.
use failsafe.Prelude.{Bool, List, [], ◌∷◌, string_key}
use failsafe.Prelude.Assoc.{contains}
use failsafe.Core.Message.{FeatureId}

abbrev pub clipboard_id : FeatureId
clipboard_id = "clipboard"

abbrev pub shell_id : FeatureId
shell_id = "shell"

abbrev pub port_id : FeatureId
port_id = "port_forward"

abbrev pub send_id : FeatureId
send_id = "file_send"

unfoldable pub all_ids : List FeatureId
all_ids = clipboard_id ∷ shell_id ∷ port_id ∷ send_id ∷ []

unfoldable pub is_known_feature : FeatureId → Bool
is_known_feature id = contains id all_ids
