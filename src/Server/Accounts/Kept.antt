-- ===== src/Server/Accounts/Kept.antt =====
-- routes/auth.rs: what the single steps keep, every request keeps.
use failsafe.Prelude.{◌≡◌, refl, String, Option, none, some, [], ◌∷◌, All}
use failsafe.Prelude.Stateful.{Keeps, >>=-Keeps, >>-Keeps, lift-Keeps, if-Keeps}
use failsafe.Core.Message.{AccountId}
use failsafe.Server.Totp.{generate_recovery_codes}
use failsafe.Server.Accounts.State.{AccountRow, Tables}
use failsafe.Server.Accounts.{
  Server, Faults, Draws, load_account, issue_token, issue_auth_response, find_email, ask_second,
  login, consume_recovery_code, by_recovery, by_secret, verify_totp_or_recovery, login_mfa,
  register, add_account,
}
use failsafe.Server.Accounts.Changes.{
  rotated, refresh, logged_out, logout, update_account, revoke_tokens, change_password, totp_setup,
  delete_codes, insert_codes, totp_enable, totp_disable,
}
use failsafe.Server.Accounts.Requests.{
  Request, registers, logs_in, gives_code, refreshes, logs_out, changes_password, sets_up, enables,
  disables, Requests, serve, serve_all, check-Keeps, transaction-Keeps,
}

-- Where nothing need be known of the random values.
pub any : (rs : Requests) → All (λ (r : Faults × Draws × Request). Unit {0}) rs
any [] = tt
any (r ∷ rs) = (tt, any rs)

module _ (server : Server) (P : Tables → Type 0) (f : Faults) (d : Draws)
    (added : (row : AccountRow) → Keeps P (add_account server f d row))
    (issued : (id : AccountId) → Keeps P (issue_token server f d id)) where
  pub register-Keeps : (email password : String) → Keeps P (register server f d email password)
  unfolding register issue_auth_response
  register-Keeps email password = >>-Keeps P _ _ (lift-Keeps P _) (
      >>-Keeps P _ _ (lift-Keeps P _) (
        >>=-Keeps P _ _ (>>-Keeps P _ _ (check-Keeps P f.find) (λ s h. h)) λ found.
          >>-Keeps P _ _ (lift-Keeps P _) (
            >>=-Keeps P _ _ (lift-Keeps P _) λ made. >>-Keeps P _ _ (added _) (
              >>=-Keeps P _ _ (lift-Keeps P _)
                λ token. >>-Keeps P _ _ (issued d.account_id) (lift-Keeps P _)))))

module _ (server : Server) (P : Tables → Type 0) (C : Draws → Type 0) where
  -- The steps that change the tables; `C` is what is known of the random values.
  pub record Steps : Type 0 where
    pub registered :
        (f : Faults) (d : Draws) (email password : String)
        → Keeps P (register server f d email password)
    pub issued : (f : Faults) (d : Draws) (id : AccountId) → Keeps P (issue_token server f d id)
    pub consumed :
        (f : Faults) (d : Draws) (id : AccountId) (code : String)
        → Keeps P (consume_recovery_code server f d id code)
    pub exchanged : (f : Faults) (d : Draws) (raw : String) → Keeps P (rotated server f d raw)
    pub ended : (f : Faults) (d : Draws) (raw : String) → Keeps P (logged_out server f d raw)
    pub revoked : (f : Faults) (d : Draws) (id : AccountId) → Keeps P (revoke_tokens server f d id)
    pub updated :
        (f : Faults) (d : Draws) (id : AccountId) (change : AccountRow → AccountRow)
        → ((row : AccountRow) → (change row).email ≡ row.email)
        → Keeps P (update_account server f d id change)
    pub deleted : (f : Faults) (d : Draws) (id : AccountId) → Keeps P (delete_codes server f d id)
    pub inserted :
        (f : Faults) (d : Draws) (id : AccountId)
        → C d
        → Keeps P (insert_codes server f d id (generate_recovery_codes d.draws))

  module _ (steps : Steps) (f : Faults) (d : Draws) where
    load_account-Keeps : (id : AccountId) → Keeps P (load_account server f d id)
    load_account-Keeps id = >>-Keeps P _ _ (check-Keeps P f.find) (λ s h. h)

    find_email-Keeps : (email : String) → Keeps P (find_email server f d email)
    find_email-Keeps email = >>-Keeps P _ _ (check-Keeps P f.find) (λ s h. h)

    issue_auth_response-Keeps : (id : AccountId) → Keeps P (issue_auth_response server f d id)
    unfolding issue_auth_response
    issue_auth_response-Keeps id =
        >>=-Keeps P _ _ (lift-Keeps P _)
          λ token. >>-Keeps P _ _ (steps.issued f d id) (lift-Keeps P _)

    ask_second-Keeps : (id : AccountId) → Keeps P (ask_second server f d id)
    ask_second-Keeps id = >>=-Keeps P _ _ (lift-Keeps P _) (λ token. lift-Keeps P _)

    login-Keeps : (email password : String) → Keeps P (login server f d email password)
    unfolding login
    login-Keeps email password = >>=-Keeps P _ _ (find_email-Keeps email) λ found.
        >>=-Keeps P _ _ (lift-Keeps P _) λ account. >>-Keeps P _ _ (lift-Keeps P _) (
          if-Keeps P account.totp_enabled _ _ (ask_second-Keeps account.id)
            (issue_auth_response-Keeps account.id))

    by_recovery-Keeps : (id : AccountId) (code : String) → Keeps P (by_recovery server f d id code)
    by_recovery-Keeps id code =
        >>=-Keeps P _ _ (steps.consumed f d id code) (λ used. lift-Keeps P _)

    by_secret-Keeps :
        (id : AccountId) (account : AccountRow) (code : String) (stored : Option String)
        → Keeps P (by_secret server f d id account code stored)
    by_secret-Keeps id account code none = by_recovery-Keeps id code
    by_secret-Keeps id account code (some sealed) =
        >>=-Keeps P _ _ (lift-Keeps P _)
          λ secret. if-Keeps P _ _ _ (lift-Keeps P _) (by_recovery-Keeps id code)

    verify_totp_or_recovery-Keeps :
        (id : AccountId) (account : AccountRow) (code : String)
        → Keeps P (verify_totp_or_recovery server f d id account code)
    unfolding verify_totp_or_recovery
    verify_totp_or_recovery-Keeps id account code =
        by_secret-Keeps id account code account.totp_secret

    login_mfa-Keeps : (mfa_token code : String) → Keeps P (login_mfa server f d mfa_token code)
    unfolding login_mfa
    login_mfa-Keeps mfa_token code = >>-Keeps P _ _ (lift-Keeps P _) (
        >>=-Keeps P _ _ (lift-Keeps P _) λ id. >>=-Keeps P _ _ (load_account-Keeps id) λ account.
          >>-Keeps P _ _ (lift-Keeps P _) (
            >>-Keeps P _ _ (verify_totp_or_recovery-Keeps id account _)
              (issue_auth_response-Keeps id)))

    refresh-Keeps : (token : String) → Keeps P (refresh server f d token)
    unfolding refresh
    refresh-Keeps token = >>-Keeps P _ _ (lift-Keeps P _) (steps.exchanged f d _)

    logout-Keeps : (token : String) → Keeps P (logout server f d token)
    unfolding logout
    logout-Keeps token = if-Keeps P _ _ _ (steps.ended f d _) (lift-Keeps P _)

    change_password-Keeps :
        (id : AccountId) (old new : String) → Keeps P (change_password server f d id old new)
    unfolding change_password
    change_password-Keeps id old new = >>-Keeps P _ _ (lift-Keeps P _) (
        >>-Keeps P _ _ (lift-Keeps P _) (
          >>=-Keeps P _ _ (load_account-Keeps id) λ account. >>-Keeps P _ _ (lift-Keeps P _) (
            >>=-Keeps P _ _ (lift-Keeps P _) λ hash. transaction-Keeps P f.commit _ (
              >>-Keeps P _ _ (steps.updated f d account.id _ (λ row. refl))
                (steps.revoked f d id)))))

    totp_setup-Keeps : (id : AccountId) → Keeps P (totp_setup server f d id)
    unfolding totp_setup
    totp_setup-Keeps id = >>=-Keeps P _ _ (load_account-Keeps id) λ account.
        >>-Keeps P _ _ (lift-Keeps P _) (
          >>=-Keeps P _ _ (lift-Keeps P _) λ sealed.
            >>=-Keeps P _ _ (lift-Keeps P _)
              λ uri. >>-Keeps P _ _ (steps.updated f d account.id _ (λ row. refl)) (lift-Keeps P _))

    totp_enable-Keeps :
        (id : AccountId) (code : String) → C d → Keeps P (totp_enable server f d id code)
    unfolding totp_enable
    totp_enable-Keeps id code known = >>-Keeps P _ _ (lift-Keeps P _) (
        >>=-Keeps P _ _ (load_account-Keeps id) λ account. >>-Keeps P _ _ (lift-Keeps P _) (
          >>=-Keeps P _ _ (lift-Keeps P _) λ sealed. >>=-Keeps P _ _ (lift-Keeps P _) λ secret.
            >>-Keeps P _ _ (lift-Keeps P _) (
              transaction-Keeps P f.commit _ (
                >>-Keeps P _ _ (steps.deleted f d id) (
                  >>-Keeps P _ _ (steps.inserted f d id known) (
                    >>-Keeps P _ _ (steps.updated f d account.id _ (λ row. refl))
                      (lift-Keeps P _)))))))

    totp_disable-Keeps :
        (id : AccountId) (password code : String)
        → Keeps P (totp_disable server f d id password code)
    unfolding totp_disable
    totp_disable-Keeps id password code = >>-Keeps P _ _ (lift-Keeps P _) (
        >>=-Keeps P _ _ (load_account-Keeps id) λ account. >>-Keeps P _ _ (lift-Keeps P _) (
          >>-Keeps P _ _ (lift-Keeps P _) (
            >>-Keeps P _ _ (verify_totp_or_recovery-Keeps id account _) (
              transaction-Keeps P f.commit _ (
                >>-Keeps P _ _ (steps.deleted f d id) (
                  >>-Keeps P _ _ (steps.updated f d account.id _ (λ row. refl))
                    (steps.revoked f d id)))))))

    serve-Keeps : (r : Request) (s : Tables) → C d → P s → P (serve server f d r s)
    unfolding serve
    serve-Keeps (registers email password) s known h = steps.registered f d email password s h
    serve-Keeps (logs_in email password) s known h = login-Keeps email password s h
    serve-Keeps (gives_code mfa_token code) s known h = login_mfa-Keeps mfa_token code s h
    serve-Keeps (refreshes token) s known h = refresh-Keeps token s h
    serve-Keeps (logs_out token) s known h = logout-Keeps token s h
    serve-Keeps (changes_password id old new) s known h = change_password-Keeps id old new s h
    serve-Keeps (sets_up id) s known h = totp_setup-Keeps id s h
    serve-Keeps (enables id code) s known h = totp_enable-Keeps id code known s h
    serve-Keeps (disables id password code) s known h = totp_disable-Keeps id password code s h

  pub serve_all-Keeps :
      (steps : Steps) (rs : Requests) (s : Tables)
      → All (λ (r : Faults × Draws × Request). C r.1) rs
      → P s
      → P (serve_all server rs s)
  unfolding serve_all
  serve_all-Keeps steps [] s known h = h
  serve_all-Keeps steps ((f, d, r) ∷ rs) s known h =
      serve_all-Keeps steps rs (serve server f d r s) known.1 (serve-Keeps steps f d r s known.0 h)
