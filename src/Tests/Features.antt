-- ===== src/Tests/Features.antt =====
-- The registry, the router and the daemon at concrete features. A feature counts its messages; the
-- ones called "bad" do not start.
use failsafe.Prelude.{
  ℕ, suc, ◌≡◌, ◌↔◌, ◌⊎◌, ◌≤◌, refl, ◌&&◌, String, none, some, List, [], ◌∷◌, map, All, arith,
  if◌then◌else◌, ◌==◌, string_key, nat_key, pair_key, ok, err,
}
use failsafe.Prelude.Assoc.{get, contains}
use failsafe.Core.Message.{FeatureId, FeatureMessage}
use failsafe.Core.Catalog.{clipboard_id, send_id, shell_id}
use failsafe.Core.Peer.{PeerDirectory, is_feature_enabled}
use failsafe.Core.Registry.{failed, Methods, Registry, new}
use failsafe.Core.Registry.Safety.{
  Call, registers, enables, disables, starts, starts_enabled, dispatches, IsSafe, exits,
  exits-IsSafe, new-IsValid,
}
use failsafe.Transport.Router.{Link, OutboundMessage, publish}
use failsafe.Transport.Router.Policy.{publish-is_feature_enabled}
use failsafe.Clipboard.Limits.{validate_entries, default_limits}
use failsafe.Clipboard.Limits.Bounds.{EachFits, total_of, validate_entries-EachFits}

abbrev pub Counter : Type 0
Counter = String × ℕ

abbrev pub counter : Methods Counter
counter = record {
  id = λ f. f.0;
  start = λ f. (f, if f.0 == shell_id then err (failed shell_id "no terminal") else ok tt);
  stop = λ f. ((f.0, 0), ok tt);
  handle = λ m f. ((f.0, suc f.1), ok tt);
}

abbrev note : FeatureId → FeatureMessage
note f = record { version = 1; from = 7; to = 9; feature = f; payload = 1 ∷ [] }

abbrev calls : List (Call Counter)
calls =
    registers (clipboard_id, 0)
    ∷ enables clipboard_id
    ∷ starts send_id
    ∷ registers (shell_id, 0)
    ∷ starts shell_id
    ∷ starts_enabled
    ∷ dispatches (note clipboard_id)
    ∷ disables clipboard_id
    ∷ []

exits-IsSafe_example : All IsSafe (exits counter calls (new counter))
exits-IsSafe_example = exits-IsSafe counter calls (new counter) (new-IsValid counter)

abbrev pub two : Registry Counter
two = record {
  features = (clipboard_id, (clipboard_id, 4)) ∷ (send_id, (send_id, 2)) ∷ [];
  enabled = clipboard_id ∷ send_id ∷ [];
}

two_send : get send_id two.features ≡ some (send_id, 2)
unfolding get
two_send = refl

-- Device 3 cannot be reached.
abbrev link : Link String
link = record {
  local_id = 9;
  connected = 3 ∷ 4 ∷ 5 ∷ [];
  send = λ m. if m.to == 3 then some "unreachable" else none;
}

abbrev directory : PeerDirectory
directory = record { peers = 2 ∷ 3 ∷ 4 ∷ 5 ∷ []; disabled = (5, clipboard_id) ∷ [] }

abbrev copied : OutboundMessage
copied = record { feature = clipboard_id; payload = 1 ∷ 2 ∷ [] }

publish-is_feature_enabled_example :
    contains {K = ℕ} 4 (map FeatureMessage.to (publish link copied directory).attempts)
    ≡ (is_feature_enabled 4 clipboard_id directory && contains {K = ℕ} 4 (3 ∷ 4 ∷ 5 ∷ []))
publish-is_feature_enabled_example = publish-is_feature_enabled link copied directory 4

abbrev entries : List (String × ℕ)
entries = ("a", 10) ∷ ("b", 18446744073709551610) ∷ []

validate_entries-EachFits_example : (validate_entries default_limits entries ≡ ok tt) ↔ (
    EachFits 104857600 entries
    × ((total_of entries ≤ 524288000) ⊎ (default_limits.max_total_bytes ≡ 18446744073709551615)))
validate_entries-EachFits_example = validate_entries-EachFits default_limits entries (omega arith)
