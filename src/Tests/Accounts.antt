-- ===== src/Tests/Accounts.antt =====
-- Accounts at concrete requests.
use failsafe.Prelude.{
  ℕ, ◌+◌, ◌≡◌, ◌≢◌, refl, true, false, String, none, some, [], ◌∷◌, ok, err, arith, string_key,
  nat_key, nat_beq, ◌==◌,
}
use Prim.Native.Char.{code}
use failsafe.Prelude.Strings.{Unicode, append, split_once}
use failsafe.Prelude.Stateful.{◌>>=◌, ◌>>◌, lift}
use failsafe.Server.Error.{unauthorized, auth_error, invalid_token}
use failsafe.Server.RefreshToken.{TokenRow, AuthResponse, authenticated}
use failsafe.Server.RefreshToken
use failsafe.Server.Totp.{
  Crypto, verify_totp, decrypt_secret, generate_recovery_codes, recovery_code_of,
}
use failsafe.Server.Jwt.{
  issue, issue_with_ttl, issue_mfa_pending, verify_password, validate, validate_mfa_pending,
  hash_password,
}
use failsafe.Server.Accounts.State.{transaction, AccountRow, RecoveryRow, Tables, by_id}
use failsafe.Server.Accounts.{
  Server, Faults, Draws, mfa_required, use_codes, any_usable, issue_auth_response,
  validate_password_length, register, login, consume_recovery_code, verify_totp_or_recovery,
  login_mfa, set_account,
}
use failsafe.Server.Accounts.Changes.{change_password, refresh, put_password}
use failsafe.Server.Accounts.Requests.{Requests, gives_code, enables, refreshes, serve_all}
use failsafe.Server.Accounts.Guard.{require_auth, require_auth-issue}
use failsafe.Server.Accounts.Login.{login-second_factor}
use failsafe.Server.Accounts.Second.{IsSecondStep, login_mfa-IsSecondStep}
use failsafe.Server.Accounts.Once.{consume_recovery_code-once}
use failsafe.Server.Accounts.Emails.{Distinct, serve_all-Distinct}
use failsafe.Server.Accounts.Sessions.{change_password-ends}
use failsafe.Tests.Tokens.{signer, signer-Laws, unary, written, reads, count}

abbrev unicode : Unicode
unicode = record {
  is_whitespace = λ c. nat_beq (code c) 32;
  lower = λ c. String.◌∷◌ c String.[];
  upper = λ c. String.◌∷◌ c String.[];
}

-- The code of the moment is always 123456.
abbrev crypto : Crypto
crypto = record {
  sha256 = λ s. [];
  sha256_hex = λ s. s;
  base64_encode = λ b. "x";
  base64_decode = λ s. some [];
  aes_encrypt = λ k n p. some p;
  aes_decrypt = λ k n s. some s;
  from_utf8 = λ b. some "secret";
  as_bytes = λ s. [];
  totp_new = λ email secret. some secret;
  check_current = λ totp now c. some (c == "123456");
  get_url = λ totp. totp;
}

abbrev server : Server
server = record {
  unicode = unicode;
  crypto = crypto;
  signer = signer;
  encryption_key = "key";
  hash_token = λ raw. raw;
  insert_error = λ row rows. none;
  update_error = λ row rows. none;
}

abbrev fine : Faults
fine = record {
  find = none;
  write_account = none;
  delete_codes = none;
  insert_code = none;
  use_code = none;
  commit = none;
}

abbrev at_time : ℕ → String → Draws
at_time now raw = record {
  now = now;
  fresh = record { raw = raw; row_id = now; now = now };
  account_id = now;
  salt = "salt";
  nonce = [];
  secret = "secret";
  draws = (0 ∷ 1 ∷ []) ∷ [];
  code_id = now;
}

-- Account 3 has a second factor and two recovery codes; account 4 has none.
abbrev with_factor : AccountRow
with_factor = record {
  id = 3;
  email = "a@b";
  password_hash = "password";
  totp_secret = some "n:c";
  totp_enabled = true;
  created_at = 0;
}

abbrev plain : AccountRow
plain = record {
  id = 4;
  email = "c@d";
  password_hash = "password";
  totp_secret = none;
  totp_enabled = false;
  created_at = 0;
}

abbrev code_of : ℕ → String → RecoveryRow
code_of id hash = record {
  id = id;
  account_id = 3;
  code_hash = hash;
  used_at = none;
  created_at = 0;
}

abbrev old_token : TokenRow
old_token = record {
  id = 1;
  account_id = 4;
  token_hash = "old";
  expires_at = 9000;
  revoked_at = none;
  created_at = 0;
}

abbrev tables : Tables
tables = record {
  accounts = with_factor ∷ plain ∷ [];
  recovery = code_of 1 "HELLO" ∷ code_of 2 "WORLD" ∷ [];
  tokens = old_token ∷ [];
}

abbrev pending : String
pending = written (record { sub = unary 3; exp = 305; iat = 5; mfa_pending = some true })

asked : (login server fine (at_time 5 "r") " a@b" "password" tables).1 ≡ ok (mfa_required pending)
unfolding login issue_with_ttl verify_password ◌>>=◌ ◌>>◌ lift
asked = refl

login-second_factor_example :
    (t : String) × (mfa_required pending ≡ mfa_required t)
    × ((login server fine (at_time 5 "r") " a@b" "password" tables).0 ≡ tables)
    × (validate_mfa_pending signer t 200 ≡ ok 3)
    × (validate signer t 200 ≡ err (auth_error invalid_token))
login-second_factor_example =
    login-second_factor server fine (at_time 5 "r") " a@b" "password" tables (mfa_required pending)
      with_factor asked refl refl 200 signer-Laws (omega arith) (omega arith)

abbrev answered : String → ℕ → ℕ → AuthResponse
answered raw id now =
    authenticated
      (written (record { sub = unary id; exp = now + 3600; iat = now; mfa_pending = none })) raw

second_step :
    (login_mfa server fine (at_time 6 "r") pending " HELLO" tables).1 ≡ ok (answered "r" 3 6)
unfolding login_mfa verify_totp_or_recovery verify_totp decrypt_secret split_once
    consume_recovery_code any_usable use_codes issue_auth_response issue_with_ttl RefreshToken.issue
    validate_mfa_pending reads written count unary ◌>>=◌ ◌>>◌ lift
second_step = refl

login_mfa-IsSecondStep_example :
    IsSecondStep server fine
      (at_time 6 "r")
      pending
      " HELLO"
      tables
      (login_mfa server fine (at_time 6 "r") pending " HELLO" tables).0.recovery
login_mfa-IsSecondStep_example =
    login_mfa-IsSecondStep server fine (at_time 6 "r") pending " HELLO" tables (answered "r" 3 6)
      second_step

abbrev between : Requests
between =
    (fine, at_time 7 "s", gives_code pending "HELLO")
    ∷ (fine, at_time 8 "t", enables 4 "123456")
    ∷ (fine, at_time 9 "u", refreshes "old")
    ∷ []

taken : (consume_recovery_code server fine (at_time 6 "r") 3 "HELLO" tables).1 ≡ ok true
unfolding consume_recovery_code any_usable ◌>>◌
taken = refl

consume_recovery_code-once_example :
    let s' =
      serve_all server between
        (consume_recovery_code server fine (at_time 6 "r") 3 "HELLO" tables).0 in
    (consume_recovery_code server fine (at_time 10 "v") 3 "HELLO" s').1 ≢ ok true
unfolding generate_recovery_codes recovery_code_of
consume_recovery_code-once_example =
    consume_recovery_code-once server 3 "HELLO" fine fine (at_time 6 "r") (at_time 10 "v") tables
      between taken ((refl, tt), ((refl, tt), ((refl, tt), tt)))

password_changed :
    (change_password server fine (at_time 6 "r") 4 "password" "new password" tables).1 ≡ ok tt
unfolding change_password validate_password_length verify_password hash_password transaction ◌>>=◌
    ◌>>◌ lift
password_changed = refl

change_password-ends_example :
    let after =
      (change_password server fine (at_time 6 "r") 4 "password" "new password" tables).0 in
    let s' = serve_all server between after in
    (refresh server fine (at_time 10 "v") "old " s' ≡ (s', err unauthorized))
    × ((account : AccountRow) × (hash : String) × (after.accounts
          ≡ set_account account.id (put_password server fine (at_time 6 "r") hash) tables.accounts)
        × (by_id 4 tables.accounts ≡ some account)
        × (verify_password signer "new password" hash ≡ ok tt))
change_password-ends_example =
    change_password-ends server fine fine (at_time 6 "r") (at_time 10 "v") 4 "password"
      "new password" tables "old " old_token between signer-Laws password_changed refl refl refl

registered :
    (register server fine (at_time 6 "r") "E@F" "password" tables).1 ≡ ok (answered "r" 6 6)
unfolding register validate_password_length hash_password issue_auth_response issue_with_ttl
    RefreshToken.issue ◌>>=◌ ◌>>◌ lift
registered = refl

serve_all-Distinct_example : Distinct (serve_all server between tables).accounts
serve_all-Distinct_example = serve_all-Distinct server between tables ((refl, tt), (tt, tt))

abbrev access : String
access = written (record { sub = unary 3; exp = 3605; iat = 5; mfa_pending = none })

access_issued : issue signer 3 5 ≡ ok access
unfolding issue_with_ttl
access_issued = refl

pending_issued : issue_mfa_pending signer 3 5 ≡ ok pending
unfolding issue_with_ttl
pending_issued = refl

require_auth-issue_example :
    (require_auth server fine (at_time 200 "r") (some (append "Bearer " access)) tables
      ≡ (tables, ok 3))
    × (require_auth server fine (at_time 200 "r") (some (append "Bearer " pending)) tables
        ≡ (tables, err (auth_error invalid_token)))
require_auth-issue_example =
    require_auth-issue server fine (at_time 200 "r") 3 5 5 access pending tables with_factor
      signer-Laws access_issued (omega arith) (omega arith) refl refl pending_issued (omega arith)
      (omega arith)
