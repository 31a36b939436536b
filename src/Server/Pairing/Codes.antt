-- ===== src/Server/Pairing/Codes.antt =====
-- pairing.rs: how a made code and a typed one are read.
use failsafe.Prelude.{
  ℕ, zero, suc, subst, ◌<◌, ◌≡◌, refl, ap, ◌∙◌, inl, inr, Bool, true, false, none, some, List, [],
  ◌∷◌, all, All, length, get_elem?, nat_beq, if◌then◌else◌, arith, Bool-cases,
}
use failsafe.Server.Pairing.{
  Text, Chars, code_charset, char_at, generate_code, is_code_char, byte_len, trim_start, trim_end,
  uppercase, normalize_code, drop_blank,
}

-- What the code relies on: capital letters and digits are no white space and are their own upper
-- case.
abbrev pub AsciiLaws : Chars → Type 0
AsciiLaws chars =
    (c : ℕ)
    → is_code_char c ≡ true
    → (chars.is_whitespace c ≡ false) × (chars.to_uppercase c ≡ c ∷ [])

module _ (chars : Chars) (laws : AsciiLaws chars) where
  drop_blank-code :
      (c : ℕ) (cs : Text) → chars.is_whitespace c ≡ false → drop_blank chars c cs ≡ c ∷ cs
  drop_blank-code c [] h = rw h refl
  drop_blank-code c (d ∷ ds) h = refl

  trim_end-code : (cs : Text) → all is_code_char cs ≡ true → trim_end chars cs ≡ cs
  trim_end-code [] h = refl
  trim_end-code (c ∷ cs) h =
      let here : is_code_char c ≡ true = ground (arith, h) in
      let rest = trim_end-code cs (ground (arith, h)) in
      ap (drop_blank chars c) rest ∙ drop_blank-code c cs (laws c here).0

  trim_start-code : (cs : Text) → all is_code_char cs ≡ true → trim_start chars cs ≡ cs
  trim_start-code [] h = refl
  trim_start-code (c ∷ cs) h =
      let here : is_code_char c ≡ true = ground (arith, h) in rw (laws c here).0 refl

  uppercase-code : (cs : Text) → all is_code_char cs ≡ true → uppercase chars cs ≡ cs
  uppercase-code [] h = refl
  uppercase-code (c ∷ cs) h =
      let here : is_code_char c ≡ true = ground (arith, h) in
      rw (laws c here).1 (ap (λ t. c ∷ t) (uppercase-code cs (ground (arith, h))))

byte_len-code : (cs : Text) → all is_code_char cs ≡ true → byte_len cs ≡ length cs
byte_len-code [] h = refl
byte_len-code (c ∷ cs) h = ground (arith, byte_len-code cs)

-- A pick is an index into the charset.
abbrev pub IsPick : ℕ → Type 0
IsPick i = i < 36

all-char_at :
    (p : ℕ → Bool) (cs : Text) (i : ℕ)
    → all p cs ≡ true
    → i < length cs
    → p (char_at (get_elem? cs i)) ≡ true
all-char_at p [] i h lt = absurd (omega arith)
all-char_at p (c ∷ cs) zero h lt = ground (arith, h)
all-char_at p (c ∷ cs) (suc i) h lt = all-char_at p cs i (ground (arith, h)) (omega arith)

all-generate_code :
    (picks : List ℕ) → All IsPick picks → all is_code_char (generate_code picks) ≡ true
unfolding generate_code
all-generate_code [] h = refl
all-generate_code (i ∷ picks) h =
    rw (all-char_at is_code_char code_charset i refl h.0) (all-generate_code picks h.1)

length-generate_code : (picks : List ℕ) → length (generate_code picks) ≡ length picks
unfolding generate_code
length-generate_code [] = refl
length-generate_code (i ∷ picks) = ap suc (length-generate_code picks)

module _ (chars : Chars) (laws : AsciiLaws chars) where
  -- A text of capital letters and digits is kept exactly when it has eight of them.
  normalize_code-code :
      (cs : Text)
      → all is_code_char cs ≡ true
      → normalize_code chars cs ≡ (if nat_beq (length cs) 8 then some cs else none)
  unfolding normalize_code
  normalize_code-code cs h =
      rw
        (
          trim_start-code chars laws cs h,
          trim_end-code chars laws cs h,
          uppercase-code chars laws cs h,
          byte_len-code cs h,
          h,
        )
        (elim (Bool-cases (nat_beq (length cs) 8)) [ inl e ↦ rw e refl | inr e ↦ rw e refl ])

  normalize_code-kept :
      (code n : Text)
      → normalize_code chars code ≡ some n
      → (length n ≡ 8) × (all is_code_char n ≡ true)
  unfolding normalize_code
  normalize_code-kept code n h =
      let m = uppercase chars (trim_end chars (trim_start chars code)) in
      elim (Bool-cases (nat_beq (byte_len m) 8)) [
        | inr e ↦ absurd (ground (arith, e, h))
        | inl e ↦ elim (Bool-cases (all is_code_char m)) [
          | inr f ↦ absurd (ground (arith, e, f, h))
          | inl f ↦
              let same : m ≡ n = ground (arith, e, f, h) in
              subst (λ x. (length x ≡ 8) × (all is_code_char x ≡ true)) same
                (ground (arith, byte_len-code m f, e), f)
        ]
      ]

  -- A generated code of eight picks is accepted as it is, and what is accepted of any text has
  -- eight capital letters and digits and is accepted again as it is.
  pub normalize_code-generate_code :
      (picks : List ℕ) (code n : Text)
      → All IsPick picks
      → length picks ≡ 8
      → normalize_code chars code ≡ some n
      → (normalize_code chars (generate_code picks) ≡ some (generate_code picks))
        × (length n ≡ 8)
        × (all is_code_char n ≡ true)
        × (normalize_code chars n ≡ some n)
  normalize_code-generate_code picks code n picked eight kept =
      let k = normalize_code-kept code n kept in
      (
        normalize_code-code (generate_code picks) (all-generate_code picks picked)
            ∙ rw (length-generate_code picks, eight) refl,
        k.0,
        k.1,
        normalize_code-code n k.1 ∙ rw k.0 refl,
      )
