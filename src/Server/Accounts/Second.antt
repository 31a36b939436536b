-- ===== src/Server/Accounts/Second.antt =====
-- routes/auth.rs: who passes the second step of a login.
use failsafe.Prelude.{
  ◌≡◌, refl, true, String, Option, none, some, Result, ok, err, arith, inl, inr, ◌||◌, ◌⊎◌, List,
  Option-cases, Result-cases, Bool-cases,
}
use failsafe.Prelude.Strings.{is_empty, trim}
use failsafe.Prelude.Stateful.{◌>>=◌, ◌>>◌, lift}
use failsafe.Core.Message.{AccountId}
use failsafe.Server.Error.{ServerError}
use failsafe.Server.RefreshToken.{AuthResponse}
use failsafe.Server.Totp.{hash_recovery_code, decrypt_secret, verify_totp}
use failsafe.Server.Jwt
use failsafe.Server.Jwt.{validate_mfa_pending}
use failsafe.Server.Accounts.State.{AccountRow, RecoveryRow, Tables, by_id}
use failsafe.Server.Accounts.{
  Server, Faults, Draws, use_codes, any_usable, consume_recovery_code, passes, by_secret,
  verify_totp_or_recovery, by_recovery, issue_auth_response, login_mfa,
}

module _ (server : Server) (faults : Faults) (draws : Draws) where
  open server use {unicode, crypto, signer, encryption_key}

  -- The code is the account's TOTP code at the time of the request.
  pub record ShowsTotp (account : AccountRow) (code : String) : Type 0 where
    pub sealed : String
    pub secret : String
    pub stored : account.totp_secret ≡ some sealed
    pub opened : decrypt_secret unicode crypto encryption_key sealed ≡ ok secret
    pub current : verify_totp unicode crypto account.email secret code draws.now ≡ ok tt

  -- The code is an unused recovery code of the account, which is used by it.
  pub record UsesRecovery (id : AccountId) (code : String) (before after : List RecoveryRow)
      : Type 0 where
    pub usable : any_usable id (hash_recovery_code unicode crypto code) before ≡ true
    pub used : after ≡ use_codes id (hash_recovery_code unicode crypto code) draws.now before

  passes-ok : (r : Result ServerError (Unit {0})) → passes r ≡ true → r ≡ ok tt
  passes-ok (ok u) h = refl
  passes-ok (err e) h = absurd (ground arith)

  consume-uses :
      (id : AccountId) (code : String) (s : Tables)
      → (consume_recovery_code server faults draws id code s).1 ≡ ok true
      → UsesRecovery id code s.recovery
          (consume_recovery_code server faults draws id code s).0.recovery
  unfolding consume_recovery_code ◌>>=◌ ◌>>◌ lift
  consume-uses id code s h = elim (Option-cases faults.use_code) [
    | inl fine ↦ record { usable = ground (arith, fine, h); used = ground (arith, fine) }
    | inr (e, fault) ↦ absurd (ground (arith, fault, h))
  ]

  recovers :
      (id : AccountId) (code : String) (s : Tables)
      → (by_recovery server faults draws id code s).1 ≡ ok tt
      → UsesRecovery id code s.recovery (by_recovery server faults draws id code s).0.recovery
  unfolding consume_recovery_code ◌>>=◌ ◌>>◌ lift
  recovers id code s h =
      let hash = hash_recovery_code unicode crypto code in
      elim (Option-cases faults.use_code) [
        | inr (e, fault) ↦ absurd (ground (arith, fault, h))
        | inl fine ↦ elim (Bool-cases (any_usable id hash s.recovery)) [
          | inl some_ ↦ record { usable = some_; used = ground (arith, fine, some_) }
          | inr none_ ↦ absurd (ground (arith, fine, none_, h))
        ]
      ]

  by_secret-ok :
      (id : AccountId) (account : AccountRow) (code : String) (stored : Option String) (s : Tables)
      → account.totp_secret ≡ stored
      → (by_secret server faults draws id account code stored s).1 ≡ ok tt
      → ShowsTotp account code
        ⊎ UsesRecovery id code s.recovery
            (by_secret server faults draws id account code stored s).0.recovery
  unfolding ◌>>=◌ lift
  by_secret-ok id account code none s at h = inr (recovers id code s h)
  by_secret-ok id account code (some sealed) s at h =
      elim (Result-cases (decrypt_secret unicode crypto encryption_key sealed)) [
        | inl (e, bad) ↦ absurd (ground (arith, bad, h))
        | inr (secret, opened) ↦
            let r = verify_totp unicode crypto account.email secret code draws.now in
            elim (Bool-cases (passes r)) [
              | inl current ↦ inl (record {
                sealed = sealed;
                secret = secret;
                stored = at;
                opened = opened;
                current = passes-ok r current;
              })
              | inr other ↦
                  rw opened (rw other (inr (recovers id code s (ground (arith, opened, other, h)))))
            ]
      ]

  verify_totp_or_recovery-ok :
      (id : AccountId) (account : AccountRow) (code : String) (s : Tables)
      → (verify_totp_or_recovery server faults draws id account code s).1 ≡ ok tt
      → ShowsTotp account code
        ⊎ UsesRecovery id code s.recovery
            (verify_totp_or_recovery server faults draws id account code s).0.recovery
  unfolding verify_totp_or_recovery
  verify_totp_or_recovery-ok id account code s h =
      by_secret-ok id account code account.totp_secret s refl h

  issue_auth_response-recovery :
      (id : AccountId) (s : Tables)
      → (issue_auth_response server faults draws id s).0.recovery ≡ s.recovery
  unfolding issue_auth_response ◌>>=◌ ◌>>◌ lift
  issue_auth_response-recovery id s = elim (Result-cases (Jwt.issue signer id draws.now)) [
    | inl (e, bad) ↦ ground (arith, bad)
    | inr (t, good) ↦ ground (arith, good)
  ]

  -- Who passed the second step of a login: its token is one of a pending second factor that names an
  -- account with a second factor, and the code is that account's TOTP code, or one of its unused
  -- recovery codes, which is used after it.
  pub record IsSecondStep (mfa_token code : String) (s : Tables) (after : List RecoveryRow)
      : Type 0 where
    pub id : AccountId
    pub account : AccountRow
    pub named : validate_mfa_pending signer (trim unicode mfa_token) draws.now ≡ ok id
    pub found : by_id id s.accounts ≡ some account
    pub enabled : account.totp_enabled ≡ true
    pub shown :
        ShowsTotp account (trim unicode code) ⊎ UsesRecovery id (trim unicode code) s.recovery after

  -- The second step of a login succeeds only as `IsSecondStep` says.
  pub login_mfa-IsSecondStep :
      (mfa_token code : String) (s : Tables) (response : AuthResponse)
      → (login_mfa server faults draws mfa_token code s).1 ≡ ok response
      → IsSecondStep mfa_token code s (login_mfa server faults draws mfa_token code s).0.recovery
  unfolding login_mfa ◌>>=◌ ◌>>◌ lift
  login_mfa-IsSecondStep mfa_token code s response h =
      elim (Bool-cases (is_empty (trim unicode mfa_token) || is_empty (trim unicode code))) [
        | inl empty ↦ absurd (ground (arith, empty, h))
        | inr given ↦
            elim (Result-cases (validate_mfa_pending signer (trim unicode mfa_token) draws.now)) [
              | inl (e, bad) ↦ absurd (ground (arith, given, bad, h))
              | inr (id, named) ↦ elim (Option-cases faults.find) [
                | inr (e, fault) ↦ absurd (ground (arith, given, named, fault, h))
                | inl fine ↦ elim (Option-cases (by_id id s.accounts)) [
                  | inl gone ↦ absurd (ground (arith, given, named, fine, gone, h))
                  | inr (account, found) ↦ elim (Bool-cases account.totp_enabled) [
                    | inr off ↦ absurd (ground (arith, given, named, fine, found, off, h))
                    | inl on ↦
                        let v =
                          verify_totp_or_recovery server faults draws id account (trim unicode code)
                            s in
                        elim (Result-cases v.1) [
                          | inl (e, bad) ↦
                              absurd (ground (arith, given, named, fine, found, on, bad, h))
                          | inr (u, good) ↦
                              let rest = issue_auth_response-recovery id v.0 in
                              let same : (login_mfa server faults draws mfa_token code s).0.recovery
                                  ≡ v.0.recovery =
                                ground (arith, given, named, fine, found, on, good, rest) in
                              record {
                                id = id;
                                account = account;
                                named = named;
                                found = found;
                                enabled = on;
                                shown = rw same (
                                    verify_totp_or_recovery-ok id account (trim unicode code) s
                                      good);
                              }
                        ]
                  ]
                ]
              ]
            ]
      ]
