-- ===== src/Tests/Clipboard.antt =====
-- The clipboard of a device at concrete payloads.
use failsafe.Prelude.{
  zero, suc, ◌≡◌, refl, false, String, Option, none, some, [], ◌∷◌, ok, err, arith, inl, inr,
  string_key, ◌==◌, if◌then◌else◌, Bool-cases, beq→eq,
}
use failsafe.Core.Message.{FeatureMessage, Serde}
use failsafe.Clipboard.Payload.{
  Bytes, ClipboardPayload, PayloadContent, text, html, html_blob, image, files, Services,
  plain_text, decode, content_to_payload, fingerprint, resolve_payload_to_content,
}
use failsafe.Clipboard.Feature.{new_state, watch_clipboard, handle_message}
use failsafe.Clipboard.Feature.Changes.{turns, receives, history-changes, history, changes}
use failsafe.Clipboard.Feature.Echo.{watch_clipboard-echoes}

-- A serialiser that writes the text "a" alone.
abbrev write_text : ClipboardPayload → PayloadContent → Option Bytes
write_text p (text t) = if t == "a" then some (p.version ∷ []) else none
write_text p (html source plain) = none
write_text p (html_blob hash plain) = none
write_text p (image hash width height mime) = none
write_text p (files hash entries) = none

abbrev read_text : Bytes → Option ClipboardPayload
read_text (version ∷ []) = some (record { version = version; content = text "a" })
read_text _ = none

read-write_text :
    (p : ClipboardPayload) (c : PayloadContent) (bytes : Bytes)
    → p.content ≡ c
    → write_text p c ≡ some bytes
    → read_text bytes ≡ some p
read-write_text p (text t) bytes e h = elim (Bool-cases (t == "a")) [
  | inl same ↦ ground (arith, e, h, same, beq→eq t "a" same)
  | inr other ↦ ground (arith, h, other)
]
read-write_text p (html source plain) bytes e h = cc
read-write_text p (html_blob hash plain) bytes e h = cc
read-write_text p (image hash width height mime) bytes e h = cc
read-write_text p (files hash entries) bytes e h = cc

abbrev payload_json : Serde ClipboardPayload
payload_json = record {
  to_vec = λ p. write_text p p.content;
  from_slice = read_text;
  round_trip = λ p bytes. read-write_text p p.content bytes refl;
}

abbrev digest_of : Bytes → String
digest_of (suc zero ∷ []) = "one"
digest_of _ = "other"

abbrev services : Services
services = record {
  serde = payload_json;
  write_json = λ p. p.version ∷ [];
  read_legacy = λ bytes. ok "a";
  digest = digest_of;
  as_bytes = λ t. [];
  from_utf8 = λ bytes. ok "a";
  show = λ n. "number";
  join = λ ts. "all";
  write_png = λ shown. ok [];
  read_png = λ bytes. err "no image";
  store_bytes = λ bytes. ok "hash";
  store_files = λ fs. ok "hash";
  fetch_bytes = λ peer hash. err "not there";
  fetch_collection_files = λ peer hash. err "not there";
  write_received_files = λ fs. ok [];
  exists = λ path. false;
  read_file = λ path. err "not there";
  file_name = λ path. none;
  describe = λ e. "too large";
  limits = record { max_file_bytes = 1000; max_total_bytes = 2000 };
}

abbrev message_with : Bytes → FeatureMessage
message_with payload = record {
  version = 1;
  from = 7;
  to = 2;
  feature = "clipboard";
  payload = payload;
}

history-changes_example :
    let es = turns (ok (some (plain_text "a"))) ∷ receives (message_with (1 ∷ [])) none ∷ [] in
    (history services es new_state).published ≡ (2 ∷ []) ∷ []
unfolding changes content_to_payload fingerprint decode resolve_payload_to_content
history-changes_example =
    history-changes services
      (turns (ok (some (plain_text "a"))) ∷ receives (message_with (1 ∷ [])) none ∷ []) new_state
      refl

watch_clipboard-echoes_example :
    let s = (handle_message services (message_with (1 ∷ [])) none new_state).0 in
    (watch_clipboard services (ok (some (plain_text "a"))) s).published ≡ (2 ∷ []) ∷ []
unfolding decode fingerprint
watch_clipboard-echoes_example =
    watch_clipboard-echoes services "a" (message_with (1 ∷ [])) none new_state refl refl
