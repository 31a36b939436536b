-- ===== src/Server/Accounts/Emails.antt =====
-- routes/auth.rs: registering, the emails of the accounts, and the first login.
use failsafe.Prelude.{
  ◌≡◌, refl, ap, ◌∙◌, false, ◌||◌, String, none, some, List, [], ◌∷◌, ◌++◌, All, Result, ok, err,
  arith, inl, inr, ◌⊎◌, if◌then◌else◌, ◌==◌, nat_key, string_key, beq_refl, Option-cases,
  Result-cases, Bool-cases,
}
use failsafe.Prelude.Strings.{is_empty, trim}
use failsafe.Prelude.Stateful.{◌>>=◌, ◌>>◌, lift, Keeps, >>-Keeps}
use failsafe.Core.Message.{AccountId}
use failsafe.Server.Error.{ServerError, bad_request, conflict, database}
use failsafe.Server.RefreshToken.{AuthResponse}
use failsafe.Server.Jwt
use failsafe.Server.Jwt.{hash_password}
use failsafe.Server.Jwt.Kinds.{SignerLaws, verify_password-hash_password}
use failsafe.Server.Accounts.State.{AccountRow, Tables, by_email}
use failsafe.Server.Accounts.{
  Server, Faults, Draws, consume_recovery_code, set_account, stored_email, new_account,
  validate_password_length, issue_auth_response, register, login,
}
use failsafe.Server.Accounts.Requests.{Requests, serve_all, check-Keeps}
use failsafe.Server.Accounts.Kept.{Steps, serve_all-Keeps, any}

-- No two accounts have the same email.
abbrev pub Distinct : List AccountRow → Type 0
Distinct [] = Unit
Distinct (row ∷ rows) =
    All (λ (other : AccountRow). (row.email == other.email) ≡ false) rows × Distinct rows

Apart-append :
    (email : String) (rows : List AccountRow) (new : AccountRow)
    → All (λ (other : AccountRow). (email == other.email) ≡ false) rows
    → (email == new.email) ≡ false
    → All (λ (other : AccountRow). (email == other.email) ≡ false) (rows ++ new ∷ [])
Apart-append email [] new h k = (k, tt)
Apart-append email (row ∷ rows) new h k = (h.0, Apart-append email rows new h.1 k)

Distinct-append :
    (rows : List AccountRow) (new : AccountRow)
    → Distinct rows
    → by_email new.email rows ≡ none
    → Distinct (rows ++ new ∷ [])
Distinct-append [] new h free = (tt, tt)
Distinct-append (row ∷ rows) new h free = elim (Bool-cases (row.email == new.email)) [
  | inl same ↦ absurd (ground (arith, same, free))
  | inr other ↦ (
    Apart-append row.email rows new h.0 other,
    Distinct-append rows new h.1 (ground (arith, other, free)),
  )
]

module _ (id : AccountId) (change : AccountRow → AccountRow)
    (keeps : (row : AccountRow) → (change row).email ≡ row.email) where
  changed-email : (row : AccountRow) → (if row.id == id then change row else row).email ≡ row.email
  changed-email row = elim (Bool-cases (row.id == id)) [
    | inl same ↦ rw same (keeps row)
    | inr other ↦ rw other refl
  ]

  Apart-set_account :
      (email : String) (rows : List AccountRow)
      → All (λ (other : AccountRow). (email == other.email) ≡ false) rows
      → All (λ (other : AccountRow). (email == other.email) ≡ false) (set_account id change rows)
  Apart-set_account email [] h = tt
  Apart-set_account email (row ∷ rows) h = (
    ap (λ e. string_key.same email e) (changed-email row) ∙ h.0,
    Apart-set_account email rows h.1,
  )

  Distinct-set_account :
      (rows : List AccountRow) → Distinct rows → Distinct (set_account id change rows)
  Distinct-set_account [] h = tt
  Distinct-set_account (row ∷ rows) h =
      (rw (changed-email row) (Apart-set_account row.email rows h.0), Distinct-set_account rows h.1)

find-append :
    (email : String) (rows : List AccountRow) (new : AccountRow)
    → by_email email rows ≡ none
    → new.email ≡ email
    → by_email email (rows ++ new ∷ []) ≡ some new
find-append email [] new free at = rw at (rw (beq_refl email) refl)
find-append email (row ∷ rows) new free at = elim (Bool-cases (row.email == email)) [
  | inl same ↦ absurd (ground (arith, same, free))
  | inr other ↦ rw other (find-append email rows new (ground (arith, other, free)) at)
]

module _ (server : Server) (f : Faults) (d : Draws) (email password : String) (s : Tables) where
  -- A request to register fails and adds nothing, or it adds an account with an email that none has, and a
  -- hash that was made from the password.
  abbrev Adds : Tables × Result ServerError AuthResponse → Type 0
  Adds (after, result) =
      ((e : ServerError) × (result ≡ err e) × (after.accounts ≡ s.accounts))
      ⊎ ((hash : String) × (hash_password server.signer password d.salt ≡ ok hash)
          × (by_email (stored_email server f d email) s.accounts ≡ none)
          × (after.accounts ≡ s.accounts ++ new_account server f d email hash ∷ []))

  issue_auth_response-accounts :
      (id : AccountId) (t : Tables) → (issue_auth_response server f d id t).0.accounts ≡ t.accounts
  unfolding issue_auth_response ◌>>=◌ ◌>>◌ lift
  issue_auth_response-accounts id t = elim (Result-cases (Jwt.issue server.signer id d.now)) [
    | inl (e, bad) ↦ ground (arith, bad)
    | inr (token, good) ↦ ground (arith, good)
  ]

  register-Adds : Adds (register server f d email password s)
  unfolding register ◌>>=◌ ◌>>◌ lift
  register-Adds = elim (Bool-cases (is_empty (trim server.unicode email) || is_empty password)) [
    | inl empty ↦ inl (
      bad_request "email and password are required",
      ground (arith, empty),
      ground (arith, empty),
    )
    | inr given ↦
        elim (Result-cases
          (validate_password_length server f d password "password must be at least 8 characters")) [
            | inl (e, short) ↦ inl (e, ground (arith, given, short), ground (arith, given, short))
            | inr (u, long) ↦ elim (Option-cases f.find) [
              | inr (e, fault) ↦ inl (
                database e,
                ground (arith, given, long, fault),
                ground (arith, given, long, fault),
              )
              | inl fine ↦
                  elim (Option-cases (by_email (stored_email server f d email) s.accounts)) [
                    | inr (row, taken) ↦ inl (
                      conflict "email already registered",
                      ground (arith, given, long, fine, taken),
                      ground (arith, given, long, fine, taken),
                    )
                    | inl free ↦ elim (Result-cases (hash_password server.signer password d.salt)) [
                      | inl (e, bad) ↦ inl (
                        e,
                        ground (arith, given, long, fine, free, bad),
                        ground (arith, given, long, fine, free, bad),
                      )
                      | inr (hash, made) ↦ elim (Option-cases f.write_account) [
                        | inr (e, fault) ↦ inl (
                          database e,
                          ground (arith, given, long, fine, free, made, fault),
                          ground (arith, given, long, fine, free, made, fault),
                        )
                        | inl written ↦
                            let t = record s {
                              accounts = s.accounts ++ new_account server f d email hash ∷ [];
                            } in
                            inr (
                              hash,
                              made,
                              free,
                              ground (
                                arith,
                                given,
                                long,
                                fine,
                                free,
                                made,
                                written,
                                issue_auth_response-accounts d.account_id t,
                              ),
                            )
                      ]
                    ]
                  ]
            ]
          ]
  ]

  register-adds :
      (response : AuthResponse)
      → (register server f d email password s).1 ≡ ok response
      → (hash : String) × (hash_password server.signer password d.salt ≡ ok hash)
        × (by_email (stored_email server f d email) s.accounts ≡ none)
        × ((register server f d email password s).0.accounts
            ≡ s.accounts ++ new_account server f d email hash ∷ [])
  register-adds response h = elim register-Adds [
    | inl (e, failed, same) ↦ absurd (ground (arith, failed, h))
    | inr adds ↦ adds
  ]

  -- Right after a registration the same email and password log in to the new account, with no second
  -- step.
  pub login-register :
      (f' : Faults) (d' : Draws) (response : AuthResponse)
      → SignerLaws server.signer
      → (register server f d email password s).1 ≡ ok response
      → f'.find ≡ none
      → let s' = (register server f d email password s).0 in
        login server f' d' email password s' ≡ issue_auth_response server f' d' d.account_id s'
  unfolding login ◌>>=◌ ◌>>◌ lift
  login-register f' d' response laws h fine =
      let (hash, made, free, added) = register-adds response h in
      let at =
        find-append (stored_email server f d email) s.accounts (new_account server f d email hash)
          free refl in
      let right = verify_password-hash_password server.signer laws password d.salt hash made in
      rw fine (rw added (rw at (rw right refl)))

module _ (server : Server) where
  abbrev pub HasDistinct : Tables → Type 0
  HasDistinct s = Distinct s.accounts

  register-HasDistinct :
      (f : Faults) (d : Draws) (email password : String)
      → Keeps HasDistinct (register server f d email password)
  register-HasDistinct f d email password s h = elim (register-Adds server f d email password s) [
    | inl (e, failed, same) ↦ rw same h
    | inr (hash, made, free, added) ↦
        rw added (Distinct-append s.accounts (new_account server f d email hash) h free)
  ]

  HasDistinct-Steps : Steps server HasDistinct (λ d. Unit {0})
  unfolding consume_recovery_code
  HasDistinct-Steps = record {
    registered = register-HasDistinct;
    issued = λ f d i s h. h;
    consumed = λ f d i c. >>-Keeps HasDistinct _ _ (check-Keeps HasDistinct f.use_code) (λ s h. h);
    exchanged = λ f d raw s h. h;
    ended = λ f d raw s h. h;
    revoked = λ f d i s h. h;
    updated = λ f d i change same.
        >>-Keeps HasDistinct _ _ (check-Keeps HasDistinct f.write_account)
          λ s h. Distinct-set_account i change same s.accounts h;
    deleted = λ f d i. >>-Keeps HasDistinct _ _ (check-Keeps HasDistinct f.delete_codes) (λ s h. h);
    inserted =
        λ f d i known. >>-Keeps HasDistinct _ _ (check-Keeps HasDistinct f.insert_code) (λ s h. h);
  }

  -- No history of requests makes two accounts with one email.
  pub serve_all-Distinct :
      (rs : Requests) (s : Tables) → Distinct s.accounts → Distinct (serve_all server rs s).accounts
  serve_all-Distinct rs s h =
      serve_all-Keeps server HasDistinct (λ d. Unit {0}) HasDistinct-Steps rs s (any rs) h
