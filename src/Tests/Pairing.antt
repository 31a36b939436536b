-- ===== src/Tests/Pairing.antt =====
-- Pairing codes at concrete requests.
use failsafe.Prelude.{
  ℕ, ◌+◌, ◌-◌, ◌≡◌, refl, true, ◌&&◌, none, some, List, [], ◌∷◌, length, all, leb, nat_beq, ok,
  arith, if◌then◌else◌,
}
use failsafe.Server.Pairing.{
  Text, Chars, PairingRow, Services, is_code_char, generate_code, normalize_code,
  redeem_pairing_code,
}
use failsafe.Server.Pairing.Codes.{AsciiLaws, normalize_code-generate_code}
use failsafe.Server.Pairing.Once.{
  Call, creates, redeems, history, IsRefused, redeem_pairing_code-once,
}

-- ASCII alone.
abbrev ascii : Chars
ascii = record {
  is_whitespace = λ c. nat_beq c 32;
  to_uppercase = λ c. (if leb 97 c && leb c 122 then c - 32 else c) ∷ [];
}

ascii-Laws : AsciiLaws ascii
ascii-Laws c h = (ground arith, ground arith)

abbrev picks : List ℕ
picks = 0 ∷ 28 ∷ 10 ∷ 35 ∷ 25 ∷ 27 ∷ 23 ∷ 28 ∷ []

-- A code in small letters between blanks, and what is made of it.
abbrev typed : Text
typed = 32 ∷ 97 ∷ 50 ∷ 107 ∷ 57 ∷ 122 ∷ 49 ∷ 120 ∷ 50 ∷ 32 ∷ []

abbrev code : Text
code = 65 ∷ 50 ∷ 75 ∷ 57 ∷ 90 ∷ 49 ∷ 88 ∷ 50 ∷ []

typed_normalized : normalize_code ascii typed ≡ some code
unfolding normalize_code
typed_normalized = refl

normalize_code-generate_code_example :
    (normalize_code ascii (generate_code picks) ≡ some (generate_code picks))
    × (length code ≡ 8)
    × (all is_code_char code ≡ true)
    × (normalize_code ascii code ≡ some code)
normalize_code-generate_code_example =
    normalize_code-generate_code ascii ascii-Laws picks typed code
      (
        omega arith,
        (
          omega arith,
          (
            omega arith,
            (omega arith, (omega arith, (omega arith, (omega arith, (omega arith, tt))))),
          ),
        ),
      )
      refl typed_normalized

-- A device is a number; the table of devices counts them.
abbrev services : Services ℕ ℕ ℕ
services = record {
  register_device = λ account device devices. ok (devices + 1);
  issue_auth_response = λ account. ok account;
}

abbrev row : PairingRow
row = record {
  id = 1;
  account_id = 4;
  code = code;
  expires_at = 600;
  used_at = none;
  created_at = 0;
}

redeemed : (redeem_pairing_code ascii services typed (some 7) 20 (row ∷ []) 0).2 ≡ ok 4
unfolding redeem_pairing_code normalize_code
redeemed = refl

code_normalized : normalize_code ascii code ≡ some code
unfolding normalize_code
code_normalized = refl

abbrev between : List (Call ascii services)
between = creates (λ r rows. none) 4 30 ((2, picks) ∷ []) ∷ redeems code none 40 ∷ []

redeem_pairing_code-once_example :
    let r = redeem_pairing_code ascii services typed (some 7) 20 (row ∷ []) 0 in
    let s = history ascii services between (r.0, r.1) in
    IsRefused ascii services s (redeem_pairing_code ascii services code none 50 s.0 s.1)
redeem_pairing_code-once_example =
    redeem_pairing_code-once ascii services typed code code (some 7) none 20 50 (row ∷ []) 0 4
      between typed_normalized code_normalized redeemed
