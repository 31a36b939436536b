-- ===== src/Server/Accounts/Guard.antt =====
-- middleware.rs of crates/failsafe-server: the account of a request to a protected route.
use failsafe.Prelude.{ℕ, ◌+◌, ◌≤◌, ◌<◌, ◌≡◌, refl, String, Option, none, some, ok, err, ok_or}
use failsafe.Prelude.Strings.{append, strip_prefix, strip_prefix-append}
use failsafe.Prelude.Words.{u64_mod}
use failsafe.Prelude.Stateful.{◌>>=◌, ◌>>◌, lift}
use failsafe.Core.Message.{AccountId}
use failsafe.Server.Error.{unauthorized, auth_error, invalid_token}
use failsafe.Server.Jwt.{token_ttl, mfa_token_ttl, issue, issue_mfa_pending, validate}
use failsafe.Server.Jwt.Kinds.{SignerLaws, validate-issue, validate-issue_mfa_pending}
use failsafe.Server.Accounts.State.{Handler, AccountRow, Tables, by_id}
use failsafe.Server.Accounts.{Server, Faults, Draws, load_account}

module _ (server : Server) (faults : Faults) (draws : Draws) where
  -- The header is `none` where it is missing or no text. What follows gets the account's id.
  unfoldable pub require_auth : Option String → Handler AccountId
  require_auth header = do
    auth_header ← lift (ok_or header unauthorized)
    token ← lift (ok_or (strip_prefix "Bearer " auth_header) unauthorized)
    id ← lift (validate server.signer token draws.now)
    account ← load_account server faults draws id
    lift (ok id)

  -- While it lasts, an access token admits a request to its account if the account is there, and a
  -- token of a pending second factor is refused on every protected route.
  pub require_auth-issue :
      (id : AccountId) (issued issued' : ℕ) (token pending : String) (s : Tables)
      (account : AccountRow)
      → SignerLaws server.signer
      → issue server.signer id issued ≡ ok token
      → issued + token_ttl < u64_mod
      → draws.now ≤ issued + token_ttl
      → faults.find ≡ none
      → by_id id s.accounts ≡ some account
      → issue_mfa_pending server.signer id issued' ≡ ok pending
      → issued' + mfa_token_ttl < u64_mod
      → draws.now ≤ issued' + mfa_token_ttl
      → (require_auth (some (append "Bearer " token)) s ≡ (s, ok id))
        × (require_auth (some (append "Bearer " pending)) s ≡ (s, err (auth_error invalid_token)))
  unfolding require_auth ◌>>=◌ ◌>>◌ lift
  require_auth-issue id issued issued' token pending s account laws made fits young fine found asked
        fits' young' =
      let full = validate-issue server.signer laws id issued draws.now token made fits young in
      let half =
        validate-issue_mfa_pending server.signer laws id issued' draws.now pending asked fits'
          young' in
      (
        rw (strip_prefix-append "Bearer " token) (rw full.0 (rw fine (rw found refl))),
        rw (strip_prefix-append "Bearer " pending) (rw half.1 refl),
      )
