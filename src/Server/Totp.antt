-- ===== src/Server/Totp.antt =====
-- totp.rs of crates/failsafe-server: recovery codes, the sealing of TOTP secrets, and the test of a
-- TOTP code. SHA-256, AES-GCM, base64 and TOTP itself are those of the libraries it calls; random
-- values and the time are arguments. A nonce of another length than twelve, which the code never
-- stores, is refused by the cipher that is a parameter.
pub mod Seal
use Prim.Native.String
use Prim.Native.String.{char_at}
use failsafe.Prelude.{
  ℕ, ◌%◌, ◌||◌, Bool, true, false, not, String, Option, none, some, List, [], ◌∷◌, map, take,
  nat_beq, if◌then◌else◌, Result, ok, err, ◌>>=◌, ok_or,
}
use failsafe.Prelude.Strings.{
  Unicode, append, byte_len, all_chars, is_ascii_digit, split_once, trim, to_uppercase,
}
use failsafe.Server.Error.{ServerError, auth_error, internal, hashing_failed, invalid_credentials}

abbrev pub Bytes : Type 0
Bytes = List ℕ

-- The libraries. `totp_new` takes an email and a secret; the TOTP that it makes is a text.
pub record Crypto : Type 0 where
  pub sha256 : String → Bytes
  pub sha256_hex : String → String
  pub base64_encode : Bytes → String
  pub base64_decode : String → Option Bytes
  pub aes_encrypt : Bytes → Bytes → Bytes → Option Bytes
  pub aes_decrypt : Bytes → Bytes → Bytes → Option Bytes
  pub from_utf8 : Bytes → Option String
  pub as_bytes : String → Bytes
  pub totp_new : String → String → Option String
  pub check_current : String → ℕ → String → Option Bool
  pub get_url : String → String

abbrev pub recovery_code_count : ℕ
recovery_code_count = 10

abbrev pub recovery_code_length : ℕ
recovery_code_length = 8

abbrev pub recovery_charset : String
recovery_charset = "ABCDEFGHJKLMNPQRSTUVWXYZ23456789"

-- One code from the random numbers of its characters.
unfoldable pub recovery_code_of : List ℕ → String
recovery_code_of [] = String.[]
recovery_code_of (next ∷ more) =
    String.◌∷◌ (char_at recovery_charset (next % byte_len recovery_charset)) (recovery_code_of more)

-- The rows hold the random numbers, ten rows of eight.
unfoldable pub generate_recovery_codes : List (List ℕ) → List String
generate_recovery_codes draws =
    map (λ (draw : List ℕ). recovery_code_of (take recovery_code_length draw))
      (take recovery_code_count draws)

module _ (unicode : Unicode) (crypto : Crypto) where
  open crypto use {
    sha256, sha256_hex, base64_encode, base64_decode, aes_encrypt, aes_decrypt, from_utf8, as_bytes,
    totp_new, check_current, get_url,
  }

  abbrev pub hash_recovery_code : String → String
  hash_recovery_code code = sha256_hex (to_uppercase unicode (trim unicode code))

  unfoldable pub encrypt_secret : String → Bytes → String → Result ServerError String
  encrypt_secret encryption_key nonce plaintext =
      ok_or (aes_encrypt (sha256 encryption_key) nonce (as_bytes plaintext))
        (auth_error hashing_failed)
      >>= λ ciphertext. ok (append (base64_encode nonce) (append ":" (base64_encode ciphertext)))

  unfoldable pub decrypt_secret : String → String → Result ServerError String
  decrypt_secret encryption_key stored =
      ok_or (split_once 58 stored) (internal "invalid encrypted secret format") >>= λ parts.
      ok_or (base64_decode parts.0) (internal "invalid encrypted secret nonce") >>= λ nonce.
      ok_or (base64_decode parts.1) (internal "invalid encrypted secret ciphertext")
      >>= λ ciphertext.
          ok_or (aes_decrypt (sha256 encryption_key) nonce ciphertext)
            (auth_error invalid_credentials)
          >>= λ plaintext. ok_or (from_utf8 plaintext) (auth_error invalid_credentials)

  abbrev pub build_totp : String → String → Result ServerError String
  build_totp email secret = ok_or (totp_new email secret) (auth_error invalid_credentials)

  unfoldable pub build_otpauth_uri : String → String → Result ServerError String
  build_otpauth_uri email secret = build_totp email secret >>= λ totp. ok (get_url totp)

  abbrev checked : Bool → Result ServerError (Unit {0})
  checked true = ok tt
  checked false = err (auth_error invalid_credentials)

  unfoldable pub verify_totp : String → String → String → ℕ → Result ServerError (Unit {0})
  verify_totp email secret code now = build_totp email secret >>= λ totp.
      let trimmed = trim unicode code in
      if not (nat_beq (byte_len trimmed) 6) || not (all_chars is_ascii_digit trimmed)
      then err (auth_error invalid_credentials)
      else ok_or (check_current totp now trimmed) (auth_error invalid_credentials) >>= checked
