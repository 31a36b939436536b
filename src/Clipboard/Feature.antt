-- ===== src/Clipboard/Feature.antt =====
-- feature/mod.rs and feature/watcher.rs of crates/failsafe-clipboard: a device publishes what is new
-- on its clipboard, and puts there what its peers publish. The watcher's turns and the messages come
-- one at a time, each as a whole: `applying_remote` is set only while a message is handled, so it is
-- not set between them. What the clipboard shows and whether it can be written are arguments.
pub mod Changes
pub mod Echo
use failsafe.Prelude.{
  ℕ, ◌≡◌, Bool, true, false, String, Option, none, some, List, [], ◌∷◌, ◌++◌, string_key, ◌==◌,
  if◌then◌else◌, Result, ok, err,
}
use failsafe.Core.Message.{DeviceId, FeatureMessage, FeatureId}
use failsafe.Core.Registry.{FeatureError, failed}
use failsafe.Clipboard.Payload.{
  Bytes, ClipboardPayload, ClipboardContent, Services, decode, encode, fingerprint,
  content_to_payload, fingerprint_content, resolve_payload_to_content,
}

abbrev pub clipboard_id : FeatureId
clipboard_id = "clipboard"

-- `published` are the payloads that went to the publisher, whose errors are only printed; `written`
-- what was handed to the clipboard to be put there, also when that failed.
pub record ClipboardState : Type 0 where
  pub last_emitted : Option String
  pub last_failed : Option String
  pub applying_remote : Bool
  pub watching : Bool
  pub published : List Bytes
  pub written : List ClipboardContent

abbrev pub new_state : ClipboardState
new_state = record {
  last_emitted = none;
  last_failed = none;
  applying_remote = false;
  watching = false;
  published = [];
  written = [];
}

abbrev pub is_last : Option String → String → Bool
is_last none f = false
is_last (some last) f = last == f

-- `start` when the watcher runs already, and `stop`.
unfoldable pub start : ClipboardState → ClipboardState
start s = record s { watching = true }

unfoldable pub stop : ClipboardState → ClipboardState
stop s = record s { watching = false }

module _ (services : Services) where
  abbrev published_new : ClipboardPayload → String → ClipboardState → ClipboardState
  published_new payload f s = if is_last s.last_emitted f then s else record s {
    last_emitted = some f;
    published = s.published ++ encode services payload ∷ [];
  }

  abbrev built : String → Result String ClipboardPayload → ClipboardState → ClipboardState
  built content_fingerprint (ok payload) s =
      published_new payload (fingerprint services payload) (record s { last_failed = none })
  built content_fingerprint (err e) s =
      if is_last s.last_failed content_fingerprint
      then s
      else record s { last_failed = some content_fingerprint }

  abbrev seen : Result String (Option ClipboardContent) → ClipboardState → ClipboardState
  seen (err e) s = s
  seen (ok none) s = s
  seen (ok (some content)) s =
      built (fingerprint_content services content) (content_to_payload services content) s

  -- One turn of the loop of `watch_clipboard`, at what the clipboard shows.
  unfoldable pub watch_clipboard :
      Result String (Option ClipboardContent) → ClipboardState → ClipboardState
  watch_clipboard read s = if s.applying_remote then s else seen read s

  abbrev pub Handled : Type 0
  Handled = ClipboardState × Result FeatureError (Unit {0})

  abbrev write_result : Option String → Result FeatureError (Unit {0})
  write_result none = ok tt
  write_result (some e) = err (failed clipboard_id e)

  abbrev resolved :
      ClipboardPayload → Option String → Result String ClipboardContent → ClipboardState → Handled
  resolved payload write_error (err e) s = (s, err (failed clipboard_id e))
  resolved payload write_error (ok content) s = (
    record s {
      applying_remote = false;
      last_emitted = some (fingerprint services payload);
      written = s.written ++ content ∷ [];
    },
    write_result write_error,
  )

  abbrev received :
      DeviceId → Option String → Result String ClipboardPayload → ClipboardState → Handled
  received from write_error (err e) s = (s, err (failed clipboard_id e))
  received from write_error (ok payload) s =
      resolved payload write_error (resolve_payload_to_content services payload from) s

  -- `write_error` is the error of putting the content on the clipboard.
  unfoldable pub handle_message : FeatureMessage → Option String → ClipboardState → Handled
  handle_message message write_error s =
      received message.from write_error (decode services message.payload) s
