-- ===== src/Server/RefreshToken/Spent.antt =====
-- refresh_token.rs: the row of a token that was exchanged, logged out or revoked.
use failsafe.Prelude.{
  ℕ, ◌≡◌, refl, sym, ap, ◌∙◌, inl, inr, true, false, String, Option, none, some, List, [], ◌∷◌,
  ◌++◌, map, nat_key, string_key, ◌==◌, if◌then◌else◌, Result, ok, err, arith, Bool-cases,
  Option-cases, beq_refl,
}
use failsafe.Core.Message.{AccountId}
use failsafe.Server.Error.{ServerError, unauthorized}
use failsafe.Server.RefreshToken.{
  TokenRow, AuthResponse, Table, is_some, Backend, Fresh, by_hash, new_row, insert_row,
  find_valid_in_conn, revoke_id, revoke_record, rotate_inserted, rotate_revoked, rotate_found,
  rotate_in_transaction, commit, rotate, issue, revoke_all_for_account, logout_found, logout,
}

module _ (backend : Backend) where
  -- The row of the hash is revoked.
  abbrev pub IsSpent : String → Table → Type 0
  IsSpent hash rows =
      (row : TokenRow) × (by_hash backend hash rows ≡ some row) × (is_some row.revoked_at ≡ true)

  pub by_hash-append :
      (hash : String) (rows new : Table) (row : TokenRow)
      → by_hash backend hash rows ≡ some row
      → by_hash backend hash (rows ++ new) ≡ some row
  by_hash-append hash [] new row h = absurd (ground arith)
  by_hash-append hash (r ∷ rows) new row h = elim (Bool-cases (r.token_hash == hash)) [
    | inl same ↦ rw same (ground (arith, h, same))
    | inr other ↦ rw other (by_hash-append hash rows new row (ground (arith, h, other)))
  ]

  pub by_hash-map :
      (g : TokenRow → TokenRow) (hash : String) (rows : Table) (row : TokenRow)
      → ((r : TokenRow) → (g r).token_hash ≡ r.token_hash)
      → by_hash backend hash rows ≡ some row
      → by_hash backend hash (map g rows) ≡ some (g row)
  by_hash-map g hash [] row keeps h = absurd (ground arith)
  by_hash-map g hash (r ∷ rows) row keeps h = elim (Bool-cases (r.token_hash == hash)) [
    | inl same ↦
        let mapped : ((g r).token_hash == hash) ≡ true =
          ap (λ t. string_key.same t hash) (keeps r) ∙ same in
        let first : by_hash backend hash (r ∷ rows) ≡ some r = rw same refl in
        let e : some r ≡ some row = sym first ∙ h in
        rw mapped (ap (λ o. elim o [ none ↦ none | some x ↦ some (g x) ]) e)
    | inr other ↦
        let mapped : ((g r).token_hash == hash) ≡ false =
          ap (λ t. string_key.same t hash) (keeps r) ∙ other in
        rw mapped (by_hash-map g hash rows row keeps (ground (arith, h, other)))
  ]

  -- A row map that keeps hashes and what is revoked.
  IsSpent-map :
      (g : TokenRow → TokenRow) (hash : String) (rows : Table)
      → ((r : TokenRow) → (g r).token_hash ≡ r.token_hash)
      → ((r : TokenRow) → is_some r.revoked_at ≡ true → is_some (g r).revoked_at ≡ true)
      → IsSpent hash rows
      → IsSpent hash (map g rows)
  IsSpent-map g hash rows keeps stays (row, at, spent) =
      (g row, by_hash-map g hash rows row keeps at, stays row spent)

  revoke_id-IsSpent :
      (id now : ℕ) (hash : String) (rows : Table)
      → IsSpent hash rows
      → IsSpent hash (revoke_id backend id now rows)
  revoke_id-IsSpent id now hash rows =
      IsSpent-map _ hash rows (λ r. ground arith) (λ r h. ground arith)

  revoke_all-IsSpent :
      (account_id : AccountId) (now : ℕ) (hash : String) (rows : Table)
      → IsSpent hash rows
      → IsSpent hash (revoke_all_for_account backend account_id now rows)
  unfolding revoke_all_for_account
  revoke_all-IsSpent account_id now hash rows =
      IsSpent-map _ hash rows (λ r. ground arith) (λ r h. ground arith)

  pub insert_row-IsSpent :
      (new : TokenRow) (hash : String) (rows : Table)
      → IsSpent hash rows
      → IsSpent hash (insert_row backend new rows).0
  insert_row-IsSpent new hash rows (row, at, spent) =
      elim (Option-cases (backend.insert_error new rows)) [
        | inl e ↦ rw e (row, by_hash-append hash rows (new ∷ []) row at, spent)
        | inr (x, e) ↦ rw e (row, at, spent)
      ]

  revoke_record-IsSpent :
      (r : TokenRow) (now : ℕ) (hash : String) (rows : Table)
      → IsSpent hash rows
      → IsSpent hash (revoke_record backend r now rows).0
  unfolding revoke_record
  revoke_record-IsSpent r now hash rows s = elim (Option-cases (backend.update_error r rows)) [
    | inl e ↦ rw e (revoke_id-IsSpent r.id now hash rows s)
    | inr (x, e) ↦ rw e s
  ]

  -- The calls that change the table.
  pub data Call : Type 0 where
    issues : AccountId → Fresh → Call
    rotates : String → Fresh → Call
    logs_out : String → ℕ → Call
    revokes_all : AccountId → ℕ → Call

  unfoldable pub after : Call → Table → Table
  after (issues account_id fresh) rows = (issue backend account_id fresh rows).0
  after (rotates raw fresh) rows = (rotate backend raw fresh rows).0
  after (logs_out raw now) rows = (logout backend raw now rows).0
  after (revokes_all account_id now) rows = revoke_all_for_account backend account_id now rows

  unfoldable pub history : List Call → Table → Table
  history [] rows = rows
  history (c ∷ cs) rows = history cs (after c rows)

  pub rotate_inserted-IsSpent :
      (account_id : AccountId) (fresh : Fresh) (s : Table × Result ServerError (Unit {0}))
      (hash : String)
      → IsSpent hash s.0
      → IsSpent hash (rotate_inserted backend account_id fresh s).0
  rotate_inserted-IsSpent account_id fresh (rows, err e) hash h = h
  rotate_inserted-IsSpent account_id fresh (rows, ok u) hash h = h

  pub rotate_revoked-IsSpent :
      (account_id : AccountId) (fresh : Fresh) (s : Table × Result ServerError (Unit {0}))
      (hash : String)
      → IsSpent hash s.0
      → IsSpent hash (rotate_revoked backend account_id fresh s).0
  rotate_revoked-IsSpent account_id fresh (rows, err e) hash h = h
  rotate_revoked-IsSpent account_id fresh (rows, ok u) hash h =
      rotate_inserted-IsSpent account_id fresh
        (insert_row backend (new_row backend account_id fresh) rows) hash
        (insert_row-IsSpent (new_row backend account_id fresh) hash rows h)

  rotate_found-IsSpent :
      (fresh : Fresh) (o : Result ServerError TokenRow) (hash : String) (rows : Table)
      → IsSpent hash rows
      → IsSpent hash (rotate_found backend fresh o rows).0
  rotate_found-IsSpent fresh (err e) hash rows h = h
  rotate_found-IsSpent fresh (ok row) hash rows h =
      rotate_revoked-IsSpent row.account_id fresh (revoke_record backend row fresh.now rows) hash
        (revoke_record-IsSpent row fresh.now hash rows h)

  commit-IsSpent :
      (before : Table) (s : Table × Result ServerError AuthResponse) (hash : String)
      → IsSpent hash before
      → IsSpent hash s.0
      → IsSpent hash (commit backend before s).0
  commit-IsSpent before (rows, err e) hash b h = b
  commit-IsSpent before (rows, ok r) hash b h = h

  logout_found-IsSpent :
      (now : ℕ) (o : Option TokenRow) (hash : String) (rows : Table)
      → IsSpent hash rows
      → IsSpent hash (logout_found backend now o rows).0
  logout_found-IsSpent now none hash rows h = h
  logout_found-IsSpent now (some row) hash rows h = elim (Bool-cases (is_some row.revoked_at)) [
    | inl e ↦ rw e h
    | inr e ↦ rw e (revoke_record-IsSpent row now hash rows h)
  ]

  pub after-IsSpent :
      (c : Call) (hash : String) (rows : Table) → IsSpent hash rows → IsSpent hash (after c rows)
  unfolding after issue rotate rotate_in_transaction logout
  after-IsSpent (issues account_id fresh) hash rows h =
      insert_row-IsSpent (new_row backend account_id fresh) hash rows h
  after-IsSpent (rotates raw fresh) hash rows h =
      commit-IsSpent rows (rotate_in_transaction backend raw fresh rows) hash h
        (rotate_found-IsSpent fresh (find_valid_in_conn backend raw fresh.now rows) hash rows h)
  after-IsSpent (logs_out raw now) hash rows h =
      logout_found-IsSpent now (by_hash backend (backend.hash_token raw) rows) hash rows h
  after-IsSpent (revokes_all account_id now) hash rows h =
      revoke_all-IsSpent account_id now hash rows h

  pub history-IsSpent :
      (cs : List Call) (hash : String) (rows : Table)
      → IsSpent hash rows
      → IsSpent hash (history cs rows)
  unfolding history
  history-IsSpent [] hash rows h = h
  history-IsSpent (c ∷ cs) hash rows h =
      history-IsSpent cs hash (after c rows) (after-IsSpent c hash rows h)

  pub rotate-IsSpent :
      (raw : String) (fresh : Fresh) (rows : Table)
      → IsSpent (backend.hash_token raw) rows
      → rotate backend raw fresh rows ≡ (rows, err unauthorized)
  unfolding rotate rotate_in_transaction find_valid_in_conn
  rotate-IsSpent raw fresh rows (row, at, spent) = rw (at, spent) refl

  -- The token of a found row is spent once the row is revoked.
  pub revoke_record-spends :
      (hash : String) (row : TokenRow) (now : ℕ) (rows : Table)
      → by_hash backend hash rows ≡ some row
      → (revoke_record backend row now rows).1 ≡ ok tt
      → IsSpent hash (revoke_record backend row now rows).0
  unfolding revoke_record
  revoke_record-spends hash row now rows at done =
      elim (Option-cases (backend.update_error row rows)) [
        | inl e ↦
            let own : (row.id == row.id) ≡ true = beq_refl row.id in
            let mapped =
              by_hash-map
                (λ (r : TokenRow). if r.id == row.id then record r { revoked_at = some now } else r)
                hash rows row (λ r. ground arith) at in
            rw e (record row { revoked_at = some now }, mapped ∙ rw own refl, refl)
        | inr (x, e) ↦ absurd (ground (arith, e, done))
      ]
