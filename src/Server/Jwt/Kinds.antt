-- ===== src/Server/Jwt/Kinds.antt =====
-- auth.rs: which token opens what, and which password a hash accepts.
use failsafe.Prelude.{
  ℕ, ◌+◌, ◌≤◌, ◌<◌, ◌≡◌, refl, Bool, true, String, Option, none, some, ok, err, arith, inl, inr,
  Result-cases, Option-cases,
}
use failsafe.Prelude.Words.{u64_mod}
use failsafe.Core.Message.{AccountId}
use failsafe.Server.Error.{auth_error, invalid_token}
use failsafe.Server.Jwt.{
  token_ttl, mfa_token_ttl, Claims, Signer, claims_of, issue_with_ttl, issue, issue_mfa_pending,
  validate, validate_mfa_pending, hash_password, verify_password,
}

-- What the code relies on: signed claims are read back until they expire, an id is read back from
-- its text, and a hash accepts the password that it was made from.
pub record SignerLaws (signer : Signer) : Type 0 where
  pub decode_back :
      (claims : Claims) (token : String) (now : ℕ)
      → signer.encode claims ≡ ok token
      → now ≤ claims.exp
      → signer.decode now token ≡ some claims
  pub parse_back : (a : AccountId) → signer.parse_id (signer.show_id a) ≡ some a
  pub argon2_back :
      (password salt hash : String)
      → signer.argon2_hash password salt ≡ some hash
      → (parsed : String) × (signer.argon2_parse hash ≡ some parsed)
        × (signer.argon2_verify password parsed ≡ true)

module _ (signer : Signer) (laws : SignerLaws signer) where
  issue_with_ttl-ok :
      (account_id : AccountId) (ttl now later : ℕ) (kind : Option Bool) (token : String)
      → issue_with_ttl signer account_id ttl kind now ≡ ok token
      → now + ttl < u64_mod
      → later ≤ now + ttl
      → signer.decode later token ≡ some (claims_of signer account_id ttl kind now)
  unfolding issue_with_ttl
  issue_with_ttl-ok account_id ttl now later kind token h fits young =
      elim (Result-cases (signer.encode (claims_of signer account_id ttl kind now))) [
        | inl (e, at) ↦ absurd (ground (arith, at, h))
        | inr (t, at) ↦
            laws.decode_back (claims_of signer account_id ttl kind now) token later
              (ground (arith, at, h)) (omega arith)
      ]

  -- Until it expires, a token of a pending second factor names its account to the second step of a
  -- login, and is refused as an access token.
  pub validate-issue_mfa_pending :
      (account_id : AccountId) (now later : ℕ) (token : String)
      → issue_mfa_pending signer account_id now ≡ ok token
      → now + mfa_token_ttl < u64_mod
      → later ≤ now + mfa_token_ttl
      → (validate_mfa_pending signer token later ≡ ok account_id)
        × (validate signer token later ≡ err (auth_error invalid_token))
  unfolding validate validate_mfa_pending
  validate-issue_mfa_pending account_id now later token h fits young =
      let read =
        issue_with_ttl-ok account_id mfa_token_ttl now later (some true) token h fits young in
      (rw read (rw (laws.parse_back account_id) refl), rw read refl)

  -- Until it expires, an access token names its account, and is refused as a token of a pending
  -- second factor.
  pub validate-issue :
      (account_id : AccountId) (now later : ℕ) (token : String)
      → issue signer account_id now ≡ ok token
      → now + token_ttl < u64_mod
      → later ≤ now + token_ttl
      → (validate signer token later ≡ ok account_id)
        × (validate_mfa_pending signer token later ≡ err (auth_error invalid_token))
  unfolding validate validate_mfa_pending
  validate-issue account_id now later token h fits young =
      let read = issue_with_ttl-ok account_id token_ttl now later none token h fits young in
      (rw read (rw (laws.parse_back account_id) refl), rw read refl)

  pub verify_password-hash_password :
      (password salt hash : String)
      → hash_password signer password salt ≡ ok hash
      → verify_password signer password hash ≡ ok tt
  unfolding hash_password verify_password
  verify_password-hash_password password salt hash h =
      elim (Option-cases (signer.argon2_hash password salt)) [
        | inl at ↦ absurd (ground (arith, at, h))
        | inr (made, at) ↦
            let (parsed, reads, holds) =
              laws.argon2_back password salt hash (ground (arith, at, h)) in
            rw reads (rw holds refl)
      ]
