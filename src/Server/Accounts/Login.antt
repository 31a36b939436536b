-- ===== src/Server/Accounts/Login.antt =====
-- routes/auth.rs: what a login gives to an account with and without a second factor.
use failsafe.Prelude.{
  ℕ, ◌+◌, ◌≤◌, ◌<◌, ◌≡◌, true, String, some, ok, err, arith, inl, inr, Option-cases, Result-cases,
}
use failsafe.Prelude.Words.{u64_mod}
use failsafe.Prelude.Stateful.{◌>>=◌, ◌>>◌, lift}
use failsafe.Server.Error.{auth_error, invalid_token}
use failsafe.Server.RefreshToken.{AuthResponse}
use failsafe.Server.Jwt.{
  mfa_token_ttl, issue_mfa_pending, validate, validate_mfa_pending, verify_password,
}
use failsafe.Server.Jwt.Kinds.{SignerLaws, validate-issue_mfa_pending}
use failsafe.Server.Accounts.State.{AccountRow, Tables, by_email}
use failsafe.Server.Accounts.{Server, Faults, Draws, mfa_required, stored_email, login}

module _ (server : Server) (faults : Faults) (draws : Draws) (email password : String) (s : Tables)
    (response : AuthResponse) (account : AccountRow)
    (accepted : (login server faults draws email password s).1 ≡ ok response)
    (found : by_email (stored_email server faults draws email) s.accounts ≡ some account)
    (second : account.totp_enabled ≡ true) where
  login-asks :
      (t : String) × (response ≡ mfa_required t)
      × (issue_mfa_pending server.signer account.id draws.now ≡ ok t)
      × ((login server faults draws email password s).0 ≡ s)
  unfolding login ◌>>=◌ ◌>>◌ lift
  login-asks = elim (Option-cases faults.find) [
    | inr (e, fault) ↦ absurd (ground (arith, fault, accepted))
    | inl fine ↦
        elim (Result-cases (verify_password server.signer password account.password_hash)) [
          | inl (e, wrong) ↦ absurd (ground (arith, fine, found, wrong, accepted))
          | inr (u, right) ↦
              elim (Result-cases (issue_mfa_pending server.signer account.id draws.now)) [
                | inl (e, bad) ↦ absurd (ground (arith, fine, found, right, second, bad, accepted))
                | inr (t, good) ↦ (
                  t,
                  ground (arith, fine, found, right, second, good, accepted),
                  good,
                  ground (arith, fine, found, right, second, good),
                )
              ]
        ]
  ]

  -- A login with the right password to an account with a second factor gives no access and no refresh
  -- token and changes nothing; its token for the second step names the account there until it expires,
  -- and is never taken as an access token in that time.
  pub login-second_factor :
      (later : ℕ)
      → SignerLaws server.signer
      → draws.now + mfa_token_ttl < u64_mod
      → later ≤ draws.now + mfa_token_ttl
      → (t : String) × (response ≡ mfa_required t)
        × ((login server faults draws email password s).0 ≡ s)
        × (validate_mfa_pending server.signer t later ≡ ok account.id)
        × (validate server.signer t later ≡ err (auth_error invalid_token))
  login-second_factor later laws fits young =
      let (t, is, made, same) = login-asks in
      let read =
        validate-issue_mfa_pending server.signer laws account.id draws.now later t made fits
          young in
      (t, is, same, read.0, read.1)
