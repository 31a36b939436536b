-- ===== src/Clipboard/Payload.antt =====
-- payload.rs, io/content.rs, feature/image.rs, feature/outbound.rs and feature/inbound.rs of
-- crates/failsafe-clipboard: what is on a clipboard, what is sent of it, and the ways between them.
-- JSON, PNG, blake3, UTF-8, the blob store and the file system are parameters; a path is a text.
use failsafe.Prelude.{
  ℕ, ◌*◌, Bool, not, String, Option, none, some, List, [], ◌∷◌, map, length, leb, ltb,
  if◌then◌else◌, Result, ok, err, ◌>>=◌, ◌>>◌,
}
use failsafe.Prelude.Strings.{append, byte_len}
use failsafe.Core.Message.{DeviceId, Serde}
use failsafe.Clipboard.Limits.{ClipboardLimits, LimitError, validate_blob, validate_files}

abbrev pub Bytes : Type 0
Bytes = List ℕ

abbrev pub clipboard_payload_version : ℕ
clipboard_payload_version = 2

abbrev pub inline_html_threshold : ℕ
inline_html_threshold = 65536

pub record FileEntry : Type 0 where
  pub name : String
  pub size : ℕ

pub data PayloadContent : Type 0 where
  text : String → PayloadContent
  html : String → String → PayloadContent
  html_blob : String → String → PayloadContent
  image : String → ℕ → ℕ → String → PayloadContent
  files : String → List FileEntry → PayloadContent

pub record ClipboardPayload : Type 0 where
  pub version : ℕ
  pub content : PayloadContent

pub record ImageDataOwned : Type 0 where
  pub width : ℕ
  pub height : ℕ
  pub rgba : Bytes

pub data ClipboardContent : Type 0 where
  plain_text : String → ClipboardContent
  rich_text : String → String → ClipboardContent
  picture : ImageDataOwned → ClipboardContent
  paths : List String → ClipboardContent

-- What the code calls. `read_legacy` reads the older form of a payload, a text alone. `digest` is the
-- hexadecimal blake3 hash. `show` writes a number, `join` joins texts with a zero character.
pub record Services : Type 0 where
  pub serde : Serde ClipboardPayload
  pub write_json : ClipboardPayload → Bytes
  pub read_legacy : Bytes → Result String String
  pub digest : Bytes → String
  pub as_bytes : String → Bytes
  pub from_utf8 : Bytes → Result String String
  pub show : ℕ → String
  pub join : List String → String
  pub write_png : ImageDataOwned → Result String Bytes
  pub read_png : Bytes → Result String ImageDataOwned
  pub store_bytes : Bytes → Result String String
  pub store_files : List (String × Bytes) → Result String String
  pub fetch_bytes : DeviceId → String → Result String Bytes
  pub fetch_collection_files : DeviceId → String → Result String (List (String × Bytes))
  pub write_received_files : List (String × Bytes) → Result String (List String)
  pub exists : String → Bool
  pub read_file : String → Result String Bytes
  pub file_name : String → Option String
  pub describe : LimitError → String
  pub limits : ClipboardLimits

module _ (services : Services) where
  open services use {
    serde, write_json, read_legacy, digest, as_bytes, from_utf8, show, join, write_png, read_png,
    store_bytes, store_files, fetch_bytes, fetch_collection_files, write_received_files, exists,
    read_file, file_name, describe, limits,
  }

  abbrev legacy : Result String String → Result String ClipboardPayload
  legacy (err e) = err (append "invalid clipboard payload: " e)
  legacy (ok t) = ok (record { version = 1; content = text t })

  abbrev decoded : Bytes → Option ClipboardPayload → Result String ClipboardPayload
  decoded bytes (some payload) = ok payload
  decoded bytes none = legacy (read_legacy bytes)

  unfoldable pub decode : Bytes → Result String ClipboardPayload
  decode bytes = decoded bytes (serde.from_slice bytes)

  abbrev pub encode : ClipboardPayload → Bytes
  encode payload = write_json payload

  unfoldable pub fingerprint : ClipboardPayload → String
  fingerprint payload = digest (encode payload)

  abbrev within : Result LimitError (Unit {0}) → Result String (Unit {0})
  within (ok u) = ok tt
  within (err e) = err (describe e)

  -- `ImageBuffer::from_raw` wants four bytes for each pixel at least.
  unfoldable pub encode_image_png : ImageDataOwned → Result String Bytes
  encode_image_png shown =
      if ltb (length shown.rgba) (shown.width * shown.height * 4)
      then err "invalid clipboard image dimensions"
      else write_png shown

  -- The files that are still there, with their bytes.
  unfoldable pub read_each : List String → Result String (List (String × Bytes))
  read_each [] = ok []
  read_each (path ∷ more) =
      let rest = read_each more in
      if not (exists path)
      then rest
      else read_file path >>= λ bytes.
          rest >>= λ others. ok ((or_file (file_name path), bytes) ∷ others)
    where
      or_file : Option String → String
      or_file none = "file"
      or_file (some name) = name

  abbrev entry_of : String × Bytes → FileEntry
  entry_of file = record { name = file.0; size = length file.1 }

  abbrev pub image_mime : String
  image_mime = "image/png"

  abbrev html_content : String → String → Result String PayloadContent
  html_content source plain =
      if leb (byte_len source) inline_html_threshold
      then ok (html source plain)
      else within (validate_blob limits (byte_len source))
        >> (store_bytes (as_bytes source) >>= λ hash. ok (html_blob hash plain))

  abbrev image_content : ImageDataOwned → Result String PayloadContent
  image_content shown = encode_image_png shown >>= λ png.
      within (validate_blob limits (length png))
      >> (store_bytes png >>= λ hash. ok (image hash shown.width shown.height image_mime))

  abbrev stored_files : List (String × Bytes) → Result String PayloadContent
  stored_files [] = err "clipboard file paths are missing or unreadable"
  stored_files (file ∷ more) =
      within (validate_files limits (file ∷ more))
      >> (store_files (file ∷ more) >>= λ hash. ok (files hash (map entry_of (file ∷ more))))

  abbrev payload_content : ClipboardContent → Result String PayloadContent
  payload_content (plain_text t) = ok (text t)
  payload_content (rich_text source plain) = html_content source plain
  payload_content (picture shown) = image_content shown
  payload_content (paths ps) = read_each ps >>= stored_files

  unfoldable pub content_to_payload : ClipboardContent → Result String ClipboardPayload
  content_to_payload content = payload_content content >>= λ c.
      ok (record { version = clipboard_payload_version; content = c })

  abbrev seed : ClipboardContent → String
  seed (plain_text t) = append "text:" t
  seed (rich_text source plain) = append "html:" (join (source ∷ plain ∷ []))
  seed (picture shown) = append "image:" (
      append (show shown.width)
        (append "x" (append (show shown.height) (append ":" (digest shown.rgba)))))
  seed (paths ps) = append "files:" (join ps)

  unfoldable pub fingerprint_content : ClipboardContent → String
  fingerprint_content content = digest (as_bytes (seed content))

  abbrev pictured : ℕ → ℕ → Result String ImageDataOwned → Result String ClipboardContent
  pictured width height (err e) = err e
  pictured width height (ok shown) = ok (picture (record shown { width = width; height = height }))

  abbrev from_content : DeviceId → PayloadContent → Result String ClipboardContent
  from_content peer (text t) = ok (plain_text t)
  from_content peer (html source plain) = ok (rich_text source plain)
  from_content peer (html_blob hash plain) = fetch_bytes peer hash >>= λ bytes.
      within (validate_blob limits (length bytes))
      >> (from_utf8 bytes >>= λ source. ok (rich_text source plain))
  from_content peer (image hash width height mime) = fetch_bytes peer hash >>= λ bytes.
      within (validate_blob limits (length bytes)) >> pictured width height (read_png bytes)
  from_content peer (files hash entries) = fetch_collection_files peer hash >>= λ received.
      within (validate_files limits received)
      >> (write_received_files received >>= λ ps. ok (paths ps))

  unfoldable pub resolve_payload_to_content :
      ClipboardPayload → DeviceId → Result String ClipboardContent
  resolve_payload_to_content payload peer = from_content peer payload.content
