-- ===== src/Server/Accounts/Sessions.antt =====
-- routes/auth.rs: the sessions of an account after its password was changed.
use failsafe.Prelude.{
  ◌≡◌, refl, subst, true, false, ◌||◌, String, some, find?, ok, err, arith, inl, inr, string_key,
  ◌==◌, Option-cases, Result-cases, Bool-cases,
}
use failsafe.Prelude.Strings.{is_empty, trim}
use failsafe.Prelude.Stateful.{◌>>=◌, ◌>>◌, lift, >>-Keeps}
use failsafe.Core.Message.{AccountId}
use failsafe.Server.Error.{unauthorized}
use failsafe.Server.RefreshToken.{TokenRow, is_some, revoke_all_for_account}
use failsafe.Server.RefreshToken.Spent.{
  IsSpent, Call, issues, rotates, logs_out, revokes_all, after, after-IsSpent, rotate-IsSpent,
}
use failsafe.Server.RefreshToken.Once.{revoke_all-spends}
use failsafe.Server.Jwt.{hash_password, verify_password}
use failsafe.Server.Jwt.Kinds.{SignerLaws, verify_password-hash_password}
use failsafe.Server.Accounts.State.{transaction, AccountRow, Tables, by_id}
use failsafe.Server.Accounts.{
  Server, Faults, Draws, backend_at, set_account, validate_password_length, consume_recovery_code,
}
use failsafe.Server.Accounts.Changes.{refresh, put_password, change_password}
use failsafe.Server.Accounts.Requests.{Requests, serve_all, check-Keeps}
use failsafe.Server.Accounts.Kept.{Steps, register-Keeps, serve_all-Keeps, any}

module _ (server : Server) (f : Faults) (d : Draws) (id : AccountId) (old new : String) (s : Tables)
    (changed : (change_password server f d id old new s).1 ≡ ok tt) where
  -- The tables after a change of the password that succeeds.
  record IsChanged : Type 0 where
    account : AccountRow
    hash : String
    found : by_id id s.accounts ≡ some account
    known : verify_password server.signer old account.password_hash ≡ ok tt
    made : hash_password server.signer new d.salt ≡ ok hash
    stored :
        (change_password server f d id old new s).0.accounts
        ≡ set_account account.id (put_password server f d hash) s.accounts
    ended :
        (change_password server f d id old new s).0.tokens
        ≡ revoke_all_for_account
            (backend_at server f d (record s {
              accounts = set_account account.id (put_password server f d hash) s.accounts;
            }))
            id
            d.now
            s.tokens

  change_password-IsChanged : IsChanged
  unfolding change_password ◌>>=◌ ◌>>◌ lift transaction
  change_password-IsChanged = elim (Bool-cases (is_empty old || is_empty new)) [
    | inl empty ↦ absurd (ground (arith, empty, changed))
    | inr given ↦
        elim (Result-cases
          (validate_password_length server f d new "new password must be at least 8 characters")) [
            | inl (e, short) ↦ absurd (ground (arith, given, short, changed))
            | inr (u, long) ↦ elim (Option-cases f.find) [
              | inr (e, fault) ↦ absurd (ground (arith, given, long, fault, changed))
              | inl fine ↦ elim (Option-cases (by_id id s.accounts)) [
                | inl gone ↦ absurd (ground (arith, given, long, fine, gone, changed))
                | inr (account, found) ↦
                    elim (Result-cases (verify_password server.signer old account.password_hash)) [
                      | inl (e, wrong) ↦
                          absurd (ground (arith, given, long, fine, found, wrong, changed))
                      | inr (v, known) ↦
                          elim (Result-cases (hash_password server.signer new d.salt)) [
                            | inl (e, bad) ↦
                                absurd
                                  (ground (arith, given, long, fine, found, known, bad, changed))
                            | inr (hash, made) ↦ elim (Option-cases f.write_account) [
                              | inr (e, fault) ↦ absurd (
                                  ground
                                    (arith, given, long, fine, found, known, made, fault, changed))
                              | inl written ↦ elim (Option-cases f.commit) [
                                | inr (e, fault) ↦ absurd (
                                    ground (
                                      arith, given, long, fine, found, known, made, written, fault,
                                      changed,
                                    ))
                                | inl committed ↦ record {
                                  account = account;
                                  hash = hash;
                                  found = found;
                                  known = known;
                                  made = made;
                                  stored = ground (
                                    arith, given, long, fine, found, known, made, written,
                                    committed,
                                  );
                                  ended = ground (
                                    arith, given, long, fine, found, known, made, written,
                                    committed,
                                  );
                                }
                              ]
                            ]
                          ]
                    ]
              ]
            ]
          ]
  ]

-- A refresh token whose row is revoked.
module _ (server : Server) (raw : String) where
  abbrev pub IsEnded : Tables → Type 0
  IsEnded s =
      (row : TokenRow) × (find? (λ (r : TokenRow). r.token_hash == server.hash_token raw) s.tokens
        ≡ some row)
      × (is_some row.revoked_at ≡ true)

  kept :
      (f : Faults) (d : Draws) (s : Tables) (c : Call (backend_at server f d s))
      → IsEnded s
      → IsEnded (record s { tokens = after (backend_at server f d s) c s.tokens })
  kept f d s c h = after-IsSpent (backend_at server f d s) c (server.hash_token raw) s.tokens h

  IsEnded-Steps : Steps server IsEnded (λ d. Unit {0})
  unfolding consume_recovery_code after
  IsEnded-Steps = record {
    registered = λ f d email password.
        register-Keeps server IsEnded f d
          (λ row. >>-Keeps IsEnded _ _ (check-Keeps IsEnded f.write_account) (λ s h. h))
          (λ i s h. kept f d s (issues i d.fresh) h) email password;
    issued = λ f d i s h. kept f d s (issues i d.fresh) h;
    consumed = λ f d i c. >>-Keeps IsEnded _ _ (check-Keeps IsEnded f.use_code) (λ s h. h);
    exchanged = λ f d r s h. kept f d s (rotates r d.fresh) h;
    ended = λ f d r s h. kept f d s (logs_out r d.now) h;
    revoked = λ f d i s h. kept f d s (revokes_all i d.now) h;
    updated =
        λ f d i change same. >>-Keeps IsEnded _ _ (check-Keeps IsEnded f.write_account) (λ s h. h);
    deleted = λ f d i. >>-Keeps IsEnded _ _ (check-Keeps IsEnded f.delete_codes) (λ s h. h);
    inserted = λ f d i known. >>-Keeps IsEnded _ _ (check-Keeps IsEnded f.insert_code) (λ s h. h);
  }

  refresh-IsEnded :
      (f : Faults) (d : Draws) (token : String) (s : Tables)
      → is_empty (trim server.unicode token) ≡ false
      → trim server.unicode token ≡ raw
      → IsEnded s
      → refresh server f d token s ≡ (s, err unauthorized)
  unfolding refresh ◌>>◌ lift
  refresh-IsEnded f d token s given at h =
      let refused = rotate-IsSpent (backend_at server f d s) raw d.fresh s.tokens h in
      rw given (rw at (rw refused refl))

-- Once its password was changed, every refresh token that the account had is refused, whatever
-- requests come between, and the refused request changes nothing; the stored hash is then one that
-- accepts the new password.
pub change_password-ends :
    (server : Server) (f f' : Faults) (d d' : Draws) (id : AccountId) (old new : String)
    (s : Tables) (token : String) (row : TokenRow) (rs : Requests)
    → SignerLaws server.signer
    → (change_password server f d id old new s).1 ≡ ok tt
    → is_empty (trim server.unicode token) ≡ false
    → find?
        (λ (r : TokenRow). r.token_hash == server.hash_token (trim server.unicode token))
        s.tokens
      ≡ some row
    → row.account_id ≡ id
    → let s' = serve_all server rs (change_password server f d id old new s).0 in
      (refresh server f' d' token s' ≡ (s', err unauthorized))
      × ((account : AccountRow) × (hash : String) × ((change_password server f d id old new
              s).0.accounts
            ≡ set_account account.id (put_password server f d hash) s.accounts)
          × (by_id id s.accounts ≡ some account)
          × (verify_password server.signer new hash ≡ ok tt))
change_password-ends server f f' d d' id old new s token row rs laws changed given at owner =
    let c = change_password-IsChanged server f d id old new s changed in
    let raw = trim server.unicode token in
    let b = backend_at server f d (record s {
      accounts = set_account c.account.id (put_password server f d c.hash) s.accounts;
    }) in
    let spent =
      subst
        (λ (i : AccountId).
          IsSpent b (server.hash_token raw) (revoke_all_for_account b i d.now s.tokens))
        owner (revoke_all-spends b raw d.now s.tokens row at) in
    let done : IsEnded server raw (change_password server f d id old new s).0 = rw c.ended spent in
    let after_all =
      serve_all-Keeps server (IsEnded server raw) (λ d. Unit {0}) (IsEnded-Steps server raw) rs _
        (any rs) done in
    (
      refresh-IsEnded server raw f' d' token _ given refl after_all,
      (
        c.account,
        c.hash,
        c.stored,
        c.found,
        verify_password-hash_password server.signer laws new d.salt c.hash c.made,
      ),
    )
