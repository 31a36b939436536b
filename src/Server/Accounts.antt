-- ===== src/Server/Accounts.antt =====
-- routes/auth.rs of crates/failsafe-server: accounts, logins, passwords and second factors. The
-- random values and the time of a request are its `Draws`, and the calls of the database that fail
-- are its `Faults`; a transaction that fails leaves the tables as they were.
pub mod State
pub mod Changes
pub mod Login
pub mod Second
pub mod Requests
pub mod Kept
pub mod Once
pub mod Emails
pub mod Sessions
pub mod Guard
use failsafe.Prelude.{
  ℕ, ◌+◌, suc, Bool, true, false, not, ◌&&◌, ◌||◌, String, Option, none, some, List, [], ◌∷◌, ◌++◌,
  map, keep, ltb, nat_key, string_key, ◌==◌, if◌then◌else◌, Result, ok, err, ok_or, fail_if,
}
use failsafe.Prelude.Strings.{Unicode, byte_len, is_empty, trim, to_lowercase}
use failsafe.Prelude.Stateful.{◌>>=◌, ◌>>◌, continue_, lift}
use failsafe.Core.Message.{AccountId}
use failsafe.Server.Error.{ServerError, unauthorized, conflict, bad_request}
use failsafe.Server.RefreshToken.{
  Table, TokenRow, Backend, Fresh, AuthResponse, authenticated, is_some, issue, rotate,
  revoke_all_for_account, logout,
}
use failsafe.Server.Totp.{
  Bytes, Crypto, hash_recovery_code, generate_recovery_codes, encrypt_secret, decrypt_secret,
  build_otpauth_uri, verify_totp,
}
use failsafe.Server.Jwt.{
  Signer, issue_mfa_pending, validate_mfa_pending, hash_password, verify_password,
}
use failsafe.Server.Jwt
use failsafe.Server.Accounts.State.{
  AccountRow, RecoveryRow, Tables, Handler, check, transaction, by_id, by_email,
}

-- What the server is made of besides its tables.
pub record Server : Type 0 where
  pub unicode : Unicode
  pub crypto : Crypto
  pub signer : Signer
  pub encryption_key : String
  pub hash_token : String → String
  pub insert_error : TokenRow → Table → Option String
  pub update_error : TokenRow → Table → Option String

-- The errors of the database, each at the call that it names.
pub record Faults : Type 0 where
  pub find : Option String
  pub write_account : Option String
  pub delete_codes : Option String
  pub insert_code : Option String
  pub use_code : Option String
  pub commit : Option String

pub record Draws : Type 0 where
  pub now : ℕ
  pub fresh : Fresh
  pub account_id : AccountId
  pub salt : String
  pub nonce : Bytes
  pub secret : String
  pub draws : List (List ℕ)
  pub code_id : ℕ

-- core/src/api.rs
abbrev pub mfa_required : String → AuthResponse
mfa_required mfa_token = record {
  token = none;
  refresh_token = none;
  mfa_required = true;
  mfa_token = some mfa_token;
}

pub record AccountResponse : Type 0 where
  pub email : String
  pub totp_enabled : Bool

pub record TotpSetupResponse : Type 0 where
  pub otpauth_uri : String
  pub secret : String

-- `update` of the row with an account's id.
abbrev pub set_account : AccountId → (AccountRow → AccountRow) → List AccountRow → List AccountRow
set_account id change rows =
    map (λ (row : AccountRow). if row.id == id then change row else row) rows

-- `delete_many` of an account's codes.
abbrev pub without_codes : AccountId → List RecoveryRow → List RecoveryRow
without_codes id rows = keep (λ (row : RecoveryRow). not (row.account_id == id)) rows

abbrev pub usable : AccountId → String → RecoveryRow → Bool
usable id hash row = (row.account_id == id) && (row.code_hash == hash) && not (is_some row.used_at)

-- `update_many` of the codes that can be used, and whether there were any.
unfoldable pub use_codes : AccountId → String → ℕ → List RecoveryRow → List RecoveryRow
use_codes id hash now rows =
    map
      (λ (row : RecoveryRow). if usable id hash row then record row { used_at = some now } else row)
      rows

unfoldable pub any_usable : AccountId → String → List RecoveryRow → Bool
any_usable id hash [] = false
any_usable id hash (row ∷ rows) = usable id hash row || any_usable id hash rows

-- `is_ok`.
abbrev pub passes : Result ServerError (Unit {0}) → Bool
passes (ok u) = true
passes (err e) = false

module _ (server : Server) (faults : Faults) (draws : Draws) where
  open server use {unicode, crypto, signer, encryption_key}

  abbrev pub backend_at : Tables → Backend
  backend_at s = record {
    hash_token = server.hash_token;
    account_exists = λ id. elim (by_id id s.accounts) [ none ↦ false | some row ↦ true ];
    sign = λ id. Jwt.issue signer id draws.now;
    insert_error = server.insert_error;
    update_error = server.update_error;
  }

  abbrev pub load_account : AccountId → Handler AccountRow
  load_account id = do check faults.find; (λ s. (s, ok_or (by_id id s.accounts) unauthorized))

  abbrev pub issue_token : AccountId → Handler (Unit {0})
  issue_token id s =
      let r = issue (backend_at s) id draws.fresh s.tokens in (record s { tokens = r.0 }, r.1)

  unfoldable pub issue_auth_response : AccountId → Handler AuthResponse
  issue_auth_response id = do
    token ← lift (Jwt.issue signer id draws.now)
    issue_token id
    lift (ok (authenticated token draws.fresh.raw))

  unfoldable pub validate_password_length : String → String → Result ServerError (Unit {0})
  validate_password_length password message =
      fail_if (ltb (byte_len password) 8) (bad_request message)

  unfoldable pub me : AccountId → Handler AccountResponse
  me id = do
    account ← load_account id
    lift (ok (record { email = account.email; totp_enabled = account.totp_enabled }))

  abbrev pub stored_email : String → String
  stored_email email = to_lowercase unicode (trim unicode email)

  abbrev pub new_account : String → String → AccountRow
  new_account email password_hash = record {
    id = draws.account_id;
    email = stored_email email;
    password_hash = password_hash;
    totp_secret = none;
    totp_enabled = false;
    created_at = draws.now;
  }

  abbrev pub add_account : AccountRow → Handler (Unit {0})
  add_account row = do
    check faults.write_account
    (λ s. (record s { accounts = s.accounts ++ row ∷ [] }, ok tt))

  abbrev pub find_email : String → Handler (Option AccountRow)
  find_email email = do check faults.find; (λ s. (s, ok (by_email (stored_email email) s.accounts)))

  abbrev none_registered : Option AccountRow → Result ServerError (Unit {0})
  none_registered none = ok tt
  none_registered (some row) = err (conflict "email already registered")

  unfoldable pub register : String → String → Handler AuthResponse
  register email password = do
    lift (
        fail_if (is_empty (trim unicode email) || is_empty password)
          (bad_request "email and password are required"))
    lift (validate_password_length password "password must be at least 8 characters")
    existing ← find_email email
    lift (none_registered existing)
    password_hash ← lift (hash_password signer password draws.salt)
    add_account (new_account email password_hash)
    issue_auth_response draws.account_id

  abbrev pub ask_second : AccountId → Handler AuthResponse
  ask_second id = do
    mfa_token ← lift (issue_mfa_pending signer id draws.now)
    lift (ok (mfa_required mfa_token))

  unfoldable pub login : String → String → Handler AuthResponse
  login email password = do
    found ← find_email email
    account ← lift (ok_or found unauthorized)
    lift (verify_password signer password account.password_hash)
    if account.totp_enabled then ask_second account.id else issue_auth_response account.id

  unfoldable pub consume_recovery_code : AccountId → String → Handler Bool
  consume_recovery_code id code = do
    check faults.use_code
    (λ s.
        let hash = hash_recovery_code unicode crypto code in
        (
          record s { recovery = use_codes id hash draws.now s.recovery },
          ok (any_usable id hash s.recovery),
        ))

  abbrev pub by_recovery : AccountId → String → Handler (Unit {0})
  by_recovery id code = do
    used ← consume_recovery_code id code
    lift (fail_if (not used) unauthorized)

  abbrev pub by_secret : AccountId → AccountRow → String → Option String → Handler (Unit {0})
  by_secret id account code none = by_recovery id code
  by_secret id account code (some encrypted) = do
    secret ← lift (decrypt_secret unicode crypto encryption_key encrypted)
    if passes (verify_totp unicode crypto account.email secret code draws.now)
        then lift (ok tt)
        else by_recovery id code

  unfoldable pub verify_totp_or_recovery : AccountId → AccountRow → String → Handler (Unit {0})
  verify_totp_or_recovery id account code = by_secret id account code account.totp_secret

  unfoldable pub login_mfa : String → String → Handler AuthResponse
  login_mfa mfa_token code = do
    lift (
        fail_if (is_empty (trim unicode mfa_token) || is_empty (trim unicode code))
          (bad_request "mfa_token and code are required"))
    id ← lift (validate_mfa_pending signer (trim unicode mfa_token) draws.now)
    account ← load_account id
    lift (fail_if (not account.totp_enabled) unauthorized)
    verify_totp_or_recovery id account (trim unicode code)
    issue_auth_response id
