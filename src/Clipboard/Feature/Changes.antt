-- ===== src/Clipboard/Feature/Changes.antt =====
-- feature/watcher.rs and feature/mod.rs: what is published over a history, against a specification
-- that knows nothing but the payloads that came by.
use failsafe.Prelude.{
  ◌≡◌, refl, sym, subst, ◌∙◌, false, String, Option, none, some, List, [], ◌∷◌, ◌++◌, map,
  if◌then◌else◌, Result, ok, err, arith, inl, inr, Bool-cases,
}
use mathlib.Core.List.{append_assoc, append-nil}
use failsafe.Core.Message.{FeatureMessage}
use failsafe.Clipboard.Payload.{
  Bytes, ClipboardPayload, ClipboardContent, Services, decode, encode, fingerprint,
  content_to_payload, fingerprint_content, resolve_payload_to_content,
}
use failsafe.Clipboard.Feature.{
  ClipboardState, is_last, built, seen, watch_clipboard, received, resolved, handle_message,
}

-- A turn of the watcher at what the clipboard shows, or a message with the error of writing its
-- content.
pub data Event : Type 0 where
  turns : Result String (Option ClipboardContent) → Event
  receives : FeatureMessage → Option String → Event

-- What an event shows of a payload: that it stands on the clipboard here, or came from a peer.
pub data Observation : Type 0 where
  nothing : Observation
  shows comes : ClipboardPayload → Observation

module _ (services : Services) where
  unfoldable pub after : Event → ClipboardState → ClipboardState
  after (turns read) s = watch_clipboard services read s
  after (receives message write_error) s = (handle_message services message write_error s).0

  unfoldable pub history : List Event → ClipboardState → ClipboardState
  history [] s = s
  history (e ∷ es) s = history es (after e s)

  abbrev shown : Result String ClipboardPayload → Observation
  shown (ok payload) = shows payload
  shown (err e) = nothing

  abbrev resolves : ClipboardPayload → Result String ClipboardContent → Observation
  resolves payload (ok content) = comes payload
  resolves payload (err e) = nothing

  abbrev decodes : FeatureMessage → Result String ClipboardPayload → Observation
  decodes message (ok payload) =
      resolves payload (resolve_payload_to_content services payload message.from)
  decodes message (err e) = nothing

  abbrev pub observed : Event → Observation
  observed (turns (ok (some content))) = shown (content_to_payload services content)
  observed (turns (ok none)) = nothing
  observed (turns (err e)) = nothing
  observed (receives message write_error) = decodes message (decode services message.payload)

  -- The specification: a payload is published when it stands on the clipboard and is not the one that
  -- was published or came last.
  unfoldable pub changes : Option String → List Observation → List Bytes
  changes last [] = []
  changes last (nothing ∷ os) = changes last os
  changes last (comes payload ∷ os) = changes (some (fingerprint services payload)) os
  changes last (shows payload ∷ os) =
      let rest = changes (some (fingerprint services payload)) os in
      let same = changes last os in
      if is_last last (fingerprint services payload) then same else encode services payload ∷ rest

  -- A state that follows another as the specification goes on after an observation.
  abbrev Follows : ClipboardState → Observation → ClipboardState → Type 0
  Follows s o s' =
      (s'.applying_remote ≡ false)
      × ((os : List Observation)
          → s'.published ++ changes s'.last_emitted os
            ≡ s.published ++ changes s.last_emitted (o ∷ os))

  built-Follows :
      (content_fingerprint : String) (r : Result String ClipboardPayload) (s : ClipboardState)
      → s.applying_remote ≡ false
      → Follows s (shown r) (built services content_fingerprint r s)
  unfolding changes
  built-Follows f (ok payload) s idle =
      elim (Bool-cases (is_last s.last_emitted (fingerprint services payload))) [
        | inl same ↦ (ground (arith, same, idle), λ os. rw same refl)
        | inr new ↦ (
          ground (arith, new, idle),
          λ os. rw new (append_assoc s.published (encode services payload ∷ []) _),
        )
      ]
  built-Follows f (err e) s idle = elim (Bool-cases (is_last s.last_failed f)) [
    | inl known ↦ (ground (arith, known, idle), λ os. rw known refl)
    | inr new ↦ (ground (arith, new, idle), λ os. rw new refl)
  ]

  resolved-Follows :
      (payload : ClipboardPayload) (write_error : Option String)
      (r : Result String ClipboardContent) (s : ClipboardState)
      → s.applying_remote ≡ false
      → Follows s (resolves payload r) (resolved services payload write_error r s).0
  unfolding changes
  resolved-Follows payload write_error (ok content) s idle = (refl, λ os. refl)
  resolved-Follows payload write_error (err e) s idle = (idle, λ os. refl)

  received-Follows :
      (message : FeatureMessage) (write_error : Option String) (r : Result String ClipboardPayload)
      (s : ClipboardState)
      → s.applying_remote ≡ false
      → Follows s (decodes message r) (received services message.from write_error r s).0
  unfolding changes
  received-Follows message write_error (ok payload) s idle =
      resolved-Follows payload write_error
        (resolve_payload_to_content services payload message.from) s idle
  received-Follows message write_error (err e) s idle = (idle, λ os. refl)

  seen-Follows :
      (read : Result String (Option ClipboardContent)) (s : ClipboardState)
      → s.applying_remote ≡ false
      → Follows s (observed (turns read)) (seen services read s)
  unfolding changes
  seen-Follows (err e) s idle = (idle, λ os. refl)
  seen-Follows (ok none) s idle = (idle, λ os. refl)
  seen-Follows (ok (some content)) s idle =
      built-Follows (fingerprint_content services content) (content_to_payload services content) s
        idle

  after-Follows :
      (e : Event) (s : ClipboardState)
      → s.applying_remote ≡ false
      → Follows s (observed e) (after e s)
  unfolding after watch_clipboard handle_message
  after-Follows (turns read) s idle =
      let same : watch_clipboard services read s ≡ seen services read s = ground (arith, idle) in
      subst (Follows s (observed (turns read))) (sym same) (seen-Follows read s idle)
  after-Follows (receives message write_error) s idle =
      received-Follows message write_error (decode services message.payload) s idle

  -- Over any history of turns and messages, from a state in which no message is being handled, the
  -- feature publishes exactly what the specification says of the payloads that came by: each payload
  -- on the clipboard whose hash is not that of the last one published or received.
  pub history-changes :
      (es : List Event) (s : ClipboardState)
      → s.applying_remote ≡ false
      → (history es s).published ≡ s.published ++ changes s.last_emitted (map observed es)
  unfolding history changes
  history-changes [] s idle = sym (append-nil s.published)
  history-changes (e ∷ es) s idle =
      let step = after-Follows e s idle in
      history-changes es (after e s) step.0 ∙ step.1 (map observed es)
