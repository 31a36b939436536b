-- ===== src/Server/Accounts/Changes.antt =====
-- routes/auth.rs of crates/failsafe-server: refresh and logout, the change of a password, and setting
-- up, enabling and disabling the second factor.
use failsafe.Prelude.{
  ℕ, suc, true, false, not, ◌||◌, String, none, some, List, [], ◌∷◌, ◌++◌, if◌then◌else◌, ok, ok_or,
  fail_if,
}
use failsafe.Prelude.Strings.{is_empty, trim}
use failsafe.Prelude.Stateful.{◌>>=◌, ◌>>◌, lift}
use failsafe.Core.Message.{AccountId}
use failsafe.Server.Error.{conflict, bad_request}
use failsafe.Server.RefreshToken.{AuthResponse, rotate, revoke_all_for_account}
use failsafe.Server.RefreshToken
use failsafe.Server.Totp.{
  hash_recovery_code, generate_recovery_codes, encrypt_secret, decrypt_secret, build_otpauth_uri,
  verify_totp,
}
use failsafe.Server.Jwt.{hash_password, verify_password}
use failsafe.Server.Accounts.State.{AccountRow, RecoveryRow, Handler, check, transaction}
use failsafe.Server.Accounts.{
  Server, Faults, Draws, TotpSetupResponse, set_account, without_codes, backend_at, load_account,
  validate_password_length, verify_totp_or_recovery,
}

module _ (server : Server) (faults : Faults) (draws : Draws) where
  open server use {unicode, crypto, signer, encryption_key}

  abbrev pub rotated : String → Handler AuthResponse
  rotated raw s =
      let r = rotate (backend_at server faults draws s) raw draws.fresh s.tokens in
      (record s { tokens = r.0 }, r.1)

  unfoldable pub refresh : String → Handler AuthResponse
  refresh refresh_token = do
    lift (fail_if (is_empty (trim unicode refresh_token)) (bad_request "refresh_token is required"))
    rotated (trim unicode refresh_token)

  abbrev pub logged_out : String → Handler (Unit {0})
  logged_out raw s =
      let r = RefreshToken.logout (backend_at server faults draws s) raw draws.now s.tokens in
      (record s { tokens = r.0 }, r.1)

  unfoldable pub logout : String → Handler (Unit {0})
  logout refresh_token =
      if not (is_empty (trim unicode refresh_token))
      then logged_out (trim unicode refresh_token)
      else lift (ok tt)

  abbrev pub update_account : AccountId → (AccountRow → AccountRow) → Handler (Unit {0})
  update_account id change = do
    check faults.write_account
    (λ s. (record s { accounts = set_account id change s.accounts }, ok tt))

  abbrev pub revoke_tokens : AccountId → Handler (Unit {0})
  revoke_tokens id s = (
    record s {
      tokens = revoke_all_for_account (backend_at server faults draws s) id draws.now s.tokens;
    },
    ok tt,
  )

  abbrev pub put_password : String → AccountRow → AccountRow
  put_password hash account = record account { password_hash = hash }

  unfoldable pub change_password : AccountId → String → String → Handler (Unit {0})
  change_password id current_password new_password = do
    lift (
        fail_if (is_empty current_password || is_empty new_password)
          (bad_request "current_password and new_password are required"))
    lift (
        validate_password_length server faults draws new_password
          "new password must be at least 8 characters")
    account ← load_account server faults draws id
    lift (verify_password signer current_password account.password_hash)
    password_hash ← lift (hash_password signer new_password draws.salt)
    transaction faults.commit
        do update_account account.id (put_password password_hash); revoke_tokens id

  unfoldable pub totp_setup : AccountId → Handler TotpSetupResponse
  totp_setup id = do
    account ← load_account server faults draws id
    lift (fail_if account.totp_enabled (conflict "2FA is already enabled"))
    encrypted ← lift (encrypt_secret unicode crypto encryption_key draws.nonce draws.secret)
    otpauth_uri ← lift (build_otpauth_uri unicode crypto account.email draws.secret)
    update_account account.id
        (λ row. record row { totp_secret = some encrypted; totp_enabled = false })
    lift (ok (record { otpauth_uri = otpauth_uri; secret = draws.secret }))

  abbrev pub delete_codes : AccountId → Handler (Unit {0})
  delete_codes id = do
    check faults.delete_codes
    (λ s. (record s { recovery = without_codes id s.recovery }, ok tt))

  abbrev pub code_row : AccountId → ℕ → String → RecoveryRow
  code_row id code_id code = record {
    id = code_id;
    account_id = id;
    code_hash = hash_recovery_code unicode crypto code;
    used_at = none;
    created_at = draws.now;
  }

  abbrev pub code_rows : AccountId → ℕ → List String → List RecoveryRow
  code_rows id next [] = []
  code_rows id next (code ∷ codes) = code_row id next code ∷ code_rows id (suc next) codes

  -- The loop of inserts; one that fails ends the transaction.
  abbrev pub insert_codes : AccountId → List String → Handler (Unit {0})
  insert_codes id codes = do
    check faults.insert_code
    (λ s. (record s { recovery = s.recovery ++ code_rows id draws.code_id codes }, ok tt))

  unfoldable pub totp_enable : AccountId → String → Handler (List String)
  totp_enable id code = do
    lift (fail_if (is_empty (trim unicode code)) (bad_request "code is required"))
    account ← load_account server faults draws id
    lift (fail_if account.totp_enabled (conflict "2FA is already enabled"))
    encrypted_secret ←
        lift (ok_or account.totp_secret (bad_request "call /auth/2fa/setup before enabling 2FA"))
    secret ← lift (decrypt_secret unicode crypto encryption_key encrypted_secret)
    lift (verify_totp unicode crypto account.email secret code draws.now)
    transaction faults.commit do
      delete_codes id
      insert_codes id (generate_recovery_codes draws.draws)
      update_account account.id (λ row. record row { totp_enabled = true })
      lift (ok (generate_recovery_codes draws.draws))

  unfoldable pub totp_disable : AccountId → String → String → Handler (Unit {0})
  totp_disable id password code = do
    lift (
        fail_if (is_empty password || is_empty (trim unicode code))
          (bad_request "password and code are required"))
    account ← load_account server faults draws id
    lift (fail_if (not account.totp_enabled) (bad_request "2FA is not enabled"))
    lift (verify_password signer password account.password_hash)
    verify_totp_or_recovery server faults draws id account (trim unicode code)
    transaction faults.commit do
      delete_codes id
      update_account account.id (λ row. record row { totp_secret = none; totp_enabled = false })
      revoke_tokens id
