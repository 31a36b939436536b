-- ===== src/Prelude/Strings.antt =====
-- What the code calls of `str`, over the native strings. The tables of Unicode are parameters.
use Prim.Native.Char.{Char, code}
use mathlib.Core.Option
use Prim.Native.String.{len as str_len}
use failsafe.Prelude.{
  ℕ, ◌≡◌, refl, Bool, true, false, ◌&&◌, String, Option, none, some, nat_beq, leb, nat_beq_refl,
  if◌then◌else◌, List, [], ◌∷◌, All, Bool-cases, inl, inr,
}

pub record Unicode : Type 0 where
  pub is_whitespace : Char → Bool
  pub lower : Char → String
  pub upper : Char → String

-- The length in UTF-8.
abbrev pub byte_len : String → ℕ
byte_len s = str_len s

abbrev pub is_empty : String → Bool
is_empty String.[] = true
is_empty (String.◌∷◌ c s) = false

abbrev pub all_chars : (Char → Bool) → String → Bool
all_chars test String.[] = true
all_chars test (String.◌∷◌ c s) = test c && all_chars test s

abbrev pub map_chars : (Char → Char) → String → String
map_chars f String.[] = String.[]
map_chars f (String.◌∷◌ c s) = String.◌∷◌ (f c) (map_chars f s)

abbrev pub is_ascii_digit : Char → Bool
is_ascii_digit c = leb 48 (code c) && leb (code c) 57

-- `s + t`, for literals in `format!` too.
abbrev pub append : String → String → String
append String.[] t = t
append (String.◌∷◌ c s) t = String.◌∷◌ c (append s t)

-- `s.split_once(c)`, the separator as a code point.
unfoldable pub split_once : ℕ → String → Option (String × String)
split_once c String.[] = none
split_once c (String.◌∷◌ d s) =
    if nat_beq (code d) c
    then some (String.[], s)
    else Option.map (λ (p : String × String). (String.◌∷◌ d p.0, p.1)) (split_once c s)

-- No character of the text has this code point.
abbrev pub Without : ℕ → String → Type 0
Without c String.[] = Unit
Without c (String.◌∷◌ d s) = (nat_beq (code d) c ≡ false) × Without c s

split_once-append :
    (c : ℕ) (s : String) (sep : Char) (t : String)
    → code sep ≡ c
    → Without c s
    → split_once c (append s (String.◌∷◌ sep t)) ≡ some (s, t)
unfolding split_once
split_once-append c String.[] sep t at h = rw at (rw (nat_beq_refl c) refl)
split_once-append c (String.◌∷◌ d s) sep t at h =
    rw h.0 (rw (split_once-append c s sep t at h.1) refl)

pub split_once-colon :
    (s t : String) → Without 58 s → split_once 58 (append s (append ":" t)) ≡ some (s, t)
split_once-colon s t h = split_once-append 58 s _ t refl h

module _ (unicode : Unicode) where
  open unicode use {is_whitespace, lower, upper}

  abbrev pub trim_start : String → String
  trim_start String.[] = String.[]
  trim_start (String.◌∷◌ c s) = if is_whitespace c then trim_start s else String.◌∷◌ c s

  abbrev drop_blank : Char → String → String
  drop_blank c String.[] = if is_whitespace c then String.[] else String.◌∷◌ c String.[]
  drop_blank c (String.◌∷◌ d s) = String.◌∷◌ c (String.◌∷◌ d s)

  abbrev pub trim_end : String → String
  trim_end String.[] = String.[]
  trim_end (String.◌∷◌ c s) = drop_blank c (trim_end s)

  abbrev pub trim : String → String
  trim s = trim_end (trim_start s)

  abbrev pub to_lowercase : String → String
  to_lowercase String.[] = String.[]
  to_lowercase (String.◌∷◌ c s) = append (lower c) (to_lowercase s)

  abbrev pub to_uppercase : String → String
  to_uppercase String.[] = String.[]
  to_uppercase (String.◌∷◌ c s) = append (upper c) (to_uppercase s)

-- `s.strip_prefix(p)`.
unfoldable pub strip_prefix : String → String → Option String
strip_prefix String.[] s = some s
strip_prefix (String.◌∷◌ c p) String.[] = none
strip_prefix (String.◌∷◌ c p) (String.◌∷◌ d s) =
    if nat_beq (code c) (code d) then strip_prefix p s else none

pub strip_prefix-append : (p s : String) → strip_prefix p (append p s) ≡ some s
unfolding strip_prefix
strip_prefix-append String.[] s = refl
strip_prefix-append (String.◌∷◌ c p) s = rw (nat_beq_refl (code c)) (strip_prefix-append p s)

abbrev put_first : Char → List String → List String
put_first c [] = String.◌∷◌ c String.[] ∷ []
put_first c (part ∷ parts) = String.◌∷◌ c part ∷ parts

-- `s.split(c)`, the separator as a code point.
unfoldable pub split_on : ℕ → String → List String
split_on c String.[] = String.[] ∷ []
split_on c (String.◌∷◌ d s) =
    let rest = split_on c s in if nat_beq (code d) c then String.[] ∷ rest else put_first d rest

put_first-Without :
    (c : ℕ) (d : Char) (parts : List String)
    → nat_beq (code d) c ≡ false
    → All (Without c) parts
    → All (Without c) (put_first d parts)
put_first-Without c d [] other h = ((other, tt), tt)
put_first-Without c d (part ∷ parts) other h = ((other, h.0), h.1)

pub split_on-Without : (c : ℕ) (s : String) → All (Without c) (split_on c s)
unfolding split_on
split_on-Without c String.[] = (tt, tt)
split_on-Without c (String.◌∷◌ d s) = elim (Bool-cases (nat_beq (code d) c)) [
  | inl same ↦ rw same (tt, split_on-Without c s)
  | inr other ↦ rw other (put_first-Without c d (split_on c s) other (split_on-Without c s))
]

-- A text has one part at least.
pub split_on-head :
    (c : ℕ) (s : String) → (part : String) × ((parts : List String) × (split_on c s ≡ part ∷ parts))
unfolding split_on
split_on-head c String.[] = (String.[], ([], refl))
split_on-head c (String.◌∷◌ d s) =
    let rest = split_on-head c s in
    elim (Bool-cases (nat_beq (code d) c)) [
      | inl same ↦ rw same (String.[], (split_on c s, refl))
      | inr other ↦ rw other (rw rest.1.1 (String.◌∷◌ d rest.0, (rest.1.0, refl)))
    ]
