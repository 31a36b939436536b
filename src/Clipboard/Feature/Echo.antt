-- ===== src/Clipboard/Feature/Echo.antt =====
-- feature/mod.rs and feature/watcher.rs: whether a device sends back what a peer has put on its
-- clipboard.
use failsafe.Prelude.{
  ℕ, ◌≡◌, refl, true, false, String, Option, some, [], ◌∷◌, ◌++◌, leb, ok, string_key, ◌==◌,
  beq_refl,
}
use failsafe.Prelude.Strings.{byte_len}
use failsafe.Core.Message.{FeatureMessage}
use failsafe.Clipboard.Payload.{
  ClipboardPayload, PayloadContent, text, html, html_blob, image, files, ClipboardContent,
  plain_text, rich_text, Services, decode, encode, fingerprint, content_to_payload,
  resolve_payload_to_content, clipboard_payload_version, inline_html_threshold,
}
use failsafe.Clipboard.Feature.{ClipboardState, watch_clipboard, handle_message}

-- A payload that carries its content itself.
abbrev pub IsInline : PayloadContent → Type 0
IsInline (text t) = Unit
IsInline (html source plain) = leb (byte_len source) inline_html_threshold ≡ true
IsInline (html_blob hash plain) = ⊥
IsInline (image hash width height mime) = ⊥
IsInline (files hash entries) = ⊥

abbrev pub shown_as : PayloadContent → ClipboardContent
shown_as (text t) = plain_text t
shown_as (html source plain) = rich_text source plain
shown_as (html_blob hash plain) = plain_text hash
shown_as (image hash width height mime) = plain_text hash
shown_as (files hash entries) = plain_text hash

abbrev pub payload_of : ℕ → PayloadContent → ClipboardPayload
payload_of version c = record { version = version; content = c }

abbrev pub old_text : String → ClipboardPayload
old_text t = payload_of 1 (text t)

abbrev pub new_text : String → ClipboardPayload
new_text t = payload_of clipboard_payload_version (text t)

module _ (services : Services) where
  inline_back :
      (c : PayloadContent)
      → IsInline c
      → content_to_payload services (shown_as c) ≡ ok (payload_of clipboard_payload_version c)
  unfolding content_to_payload
  inline_back (text t) h = refl
  inline_back (html source plain) h = rw h refl
  inline_back (html_blob hash plain) h = absurd h
  inline_back (image hash width height mime) h = absurd h
  inline_back (files hash entries) h = absurd h

  inline_resolves :
      (c : PayloadContent) (version : ℕ) (message : FeatureMessage)
      → IsInline c
      → resolve_payload_to_content services (payload_of version c) message.from ≡ ok (shown_as c)
  unfolding resolve_payload_to_content
  inline_resolves (text t) version message h = refl
  inline_resolves (html source plain) version message h = refl
  inline_resolves (html_blob hash plain) version message h = absurd h
  inline_resolves (image hash width height mime) version message h = absurd h
  inline_resolves (files hash entries) version message h = absurd h

  -- A text or a short HTML that a peer of this version sends is put on the clipboard, and when the
  -- watcher reads it there, it publishes nothing.
  pub watch_clipboard-handle_message :
      (c : PayloadContent) (message : FeatureMessage) (write_error : Option String)
      (s : ClipboardState)
      → IsInline c
      → decode services message.payload ≡ ok (payload_of clipboard_payload_version c)
      → let s' = (handle_message services message write_error s).0 in
        (s'.written ≡ s.written ++ shown_as c ∷ [])
        × ((watch_clipboard services (ok (some (shown_as c))) s').published ≡ s.published)
  unfolding handle_message watch_clipboard
  watch_clipboard-handle_message c message write_error s inline reads =
      let payload = payload_of clipboard_payload_version c in
      let back = inline_resolves c clipboard_payload_version message inline in
      (
        rw reads (rw back refl),
        rw reads (
            rw back
              (rw (inline_back c inline) (rw (beq_refl (fingerprint services payload)) refl))),
      )

  -- The text of an older peer, whose payload has no version, is sent back to the peers by the next turn
  -- of the watcher, in the form of this version, if the two forms have different hashes.
  pub watch_clipboard-echoes :
      (t : String) (message : FeatureMessage) (write_error : Option String) (s : ClipboardState)
      → decode services message.payload ≡ ok (old_text t)
      → (fingerprint services (old_text t) == fingerprint services (new_text t)) ≡ false
      → let s' = (handle_message services message write_error s).0 in
        (watch_clipboard services (ok (some (plain_text t))) s').published
        ≡ s.published ++ encode services (new_text t) ∷ []
  unfolding handle_message watch_clipboard
  watch_clipboard-echoes t message write_error s reads differ =
      let back = inline_resolves (text t) 1 message tt in
      rw reads (rw back (rw (inline_back (text t) tt) (rw differ refl)))
