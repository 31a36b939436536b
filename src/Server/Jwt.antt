-- ===== src/Server/Jwt.antt =====
-- auth.rs of crates/failsafe-server: access tokens, tokens of a pending second factor, and password
-- hashes. Signing, reading signed claims, the text of an account's id and Argon2 are parameters; the
-- time is an argument, in seconds. A sum of machine words wraps around as in a release build.
pub mod Kinds
use failsafe.Prelude.{
  ℕ, ◌+◌, ◌%◌, Bool, true, false, not, String, Option, none, some, if◌then◌else◌, Result, ok, err,
  ◌>>=◌, ok_or,
}
use failsafe.Prelude.Words.{u64_mod}
use failsafe.Core.Message.{AccountId}
use failsafe.Server.Error.{
  AuthError, ServerError, auth_error, jwt, invalid_token, invalid_credentials, hashing_failed,
}

abbrev pub token_ttl : ℕ
token_ttl = 3600

abbrev pub mfa_token_ttl : ℕ
mfa_token_ttl = 300

pub record Claims : Type 0 where
  pub sub : String
  pub exp : ℕ
  pub iat : ℕ
  pub mfa_pending : Option Bool

-- `encode` answers with its error's text; `decode` takes the time, and refuses claims that have
-- expired. `hash_password` takes the salt.
pub record Signer : Type 0 where
  pub encode : Claims → Result String String
  pub decode : ℕ → String → Option Claims
  pub show_id : AccountId → String
  pub parse_id : String → Option AccountId
  pub argon2_hash : String → String → Option String
  pub argon2_parse : String → Option String
  pub argon2_verify : String → String → Bool

abbrev pub is_pending : Option Bool → Bool
is_pending (some true) = true
is_pending (some false) = false
is_pending none = false

module _ (signer : Signer) where
  open signer use {encode, decode, show_id, parse_id, argon2_hash, argon2_parse, argon2_verify}

  abbrev map_jwt : Result String String → Result ServerError String
  map_jwt (ok token) = ok token
  map_jwt (err e) = err (auth_error (jwt e))

  abbrev pub claims_of : AccountId → ℕ → Option Bool → ℕ → Claims
  claims_of account_id ttl mfa_pending now = record {
    sub = show_id account_id;
    exp = (now + ttl) % u64_mod;
    iat = now;
    mfa_pending = mfa_pending;
  }

  unfoldable pub issue_with_ttl : AccountId → ℕ → Option Bool → ℕ → Result ServerError String
  issue_with_ttl account_id ttl mfa_pending now =
      map_jwt (encode (claims_of account_id ttl mfa_pending now))

  abbrev pub issue : AccountId → ℕ → Result ServerError String
  issue account_id now = issue_with_ttl account_id token_ttl none now

  abbrev pub issue_mfa_pending : AccountId → ℕ → Result ServerError String
  issue_mfa_pending account_id now = issue_with_ttl account_id mfa_token_ttl (some true) now

  unfoldable pub validate : String → ℕ → Result ServerError AccountId
  validate token now = ok_or (decode now token) (auth_error invalid_token) >>= λ claims.
      if is_pending claims.mfa_pending
      then err (auth_error invalid_token)
      else ok_or (parse_id claims.sub) (auth_error invalid_token)

  unfoldable pub validate_mfa_pending : String → ℕ → Result ServerError AccountId
  validate_mfa_pending token now = ok_or (decode now token) (auth_error invalid_token) >>= λ claims.
      if not (is_pending claims.mfa_pending)
      then err (auth_error invalid_token)
      else ok_or (parse_id claims.sub) (auth_error invalid_token)

  unfoldable pub hash_password : String → String → Result ServerError String
  hash_password password salt = ok_or (argon2_hash password salt) (auth_error hashing_failed)

  unfoldable pub verify_password : String → String → Result ServerError (Unit {0})
  verify_password password password_hash =
      ok_or (argon2_parse password_hash) (auth_error invalid_credentials) >>= λ parsed.
      if argon2_verify password parsed then ok tt else err (auth_error invalid_credentials)
