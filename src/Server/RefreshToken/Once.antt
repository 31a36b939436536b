-- ===== src/Server/RefreshToken/Once.antt =====
-- refresh_token.rs: a token after an exchange, a logout, and a revocation.
use failsafe.Prelude.{
  ℕ, ◌≡◌, refl, sym, ap, ◌∙◌, subst, inl, inr, not, ◌&&◌, ◌||◌, String, Option, none, some, List,
  ltb, nat_key, string_key, ◌==◌, if◌then◌else◌, Result, ok, err, arith, Bool-cases, beq_refl,
}
use failsafe.Core.Message.{AccountId}
use failsafe.Server.Error.{ServerError, unauthorized}
use failsafe.Server.RefreshToken.{
  TokenRow, AuthResponse, Table, is_some, Backend, Fresh, by_hash, found, find_valid_in_conn,
  revoke_record, rotate_revoked, rotate_found, rotate_in_transaction, commit, rotate,
  revoke_all_for_account, logout_found, logout,
}
use failsafe.Server.RefreshToken.Spent.{
  IsSpent, Call, history, history-IsSpent, rotate-IsSpent, rotate_revoked-IsSpent,
  revoke_record-spends, by_hash-map,
}

module _ (backend : Backend) where
  found-ok :
      (now : ℕ) (o : Option TokenRow) (row : TokenRow) → found backend now o ≡ ok row → o ≡ some row
  found-ok now none row h = absurd (ground arith)
  found-ok now (some r) row h = elim (Bool-cases (is_some r.revoked_at || ltb r.expires_at now)) [
    | inl bad ↦ absurd (ground (arith, bad, h))
    | inr good ↦ elim (Bool-cases (backend.account_exists r.account_id)) [
      | inl there ↦ ground (arith, good, there, h)
      | inr gone ↦ absurd (ground (arith, good, gone, h))
    ]
  ]

  rotate_revoked-ok :
      (account_id : AccountId) (fresh : Fresh) (s : Table × Result ServerError (Unit {0}))
      (response : AuthResponse)
      → (rotate_revoked backend account_id fresh s).1 ≡ ok response
      → s.1 ≡ ok tt
  rotate_revoked-ok account_id fresh (rows, err e) response h = absurd (ground arith)
  rotate_revoked-ok account_id fresh (rows, ok u) response h = refl

  rotate_found-spends :
      (hash : String) (fresh : Fresh) (o : Result ServerError TokenRow) (rows : Table)
      (response : AuthResponse)
      → ((row : TokenRow) → o ≡ ok row → by_hash backend hash rows ≡ some row)
      → (rotate_found backend fresh o rows).1 ≡ ok response
      → IsSpent backend hash (rotate_found backend fresh o rows).0
  rotate_found-spends hash fresh (err e) rows response at h = absurd (ground arith)
  rotate_found-spends hash fresh (ok row) rows response at h =
      let done =
        rotate_revoked-ok row.account_id fresh (revoke_record backend row fresh.now rows) response
          h in
      rotate_revoked-IsSpent backend row.account_id fresh (revoke_record backend row fresh.now rows)
        hash (revoke_record-spends backend hash row fresh.now rows (at row refl) done)

  commit-ok :
      (before : Table) (s : Table × Result ServerError AuthResponse) (response : AuthResponse)
      → (commit backend before s).1 ≡ ok response
      → (s.1 ≡ ok response) × ((commit backend before s).0 ≡ s.0)
  commit-ok before (rows, err e) response h = absurd (ground arith)
  commit-ok before (rows, ok r) response h = (h, refl)

  rotate-spends :
      (raw : String) (fresh : Fresh) (rows : Table) (response : AuthResponse)
      → (rotate backend raw fresh rows).1 ≡ ok response
      → IsSpent backend (backend.hash_token raw) (rotate backend raw fresh rows).0
  unfolding rotate rotate_in_transaction find_valid_in_conn
  rotate-spends raw fresh rows response h =
      let hash = backend.hash_token raw in
      let o = find_valid_in_conn backend raw fresh.now rows in
      let k = commit-ok rows (rotate_in_transaction backend raw fresh rows) response h in
      subst (IsSpent backend hash) (sym k.1) (
        rotate_found-spends hash fresh o rows response
          (λ row e. found-ok fresh.now (by_hash backend hash rows) row e) k.0)

  -- A refresh token that was exchanged once is refused ever after, whatever calls come between, and
  -- the refused call changes nothing.
  pub rotate-once :
      (raw : String) (fresh fresh' : Fresh) (rows : Table) (response : AuthResponse)
      (cs : List (Call backend))
      → (rotate backend raw fresh rows).1 ≡ ok response
      → let rows' = history backend cs (rotate backend raw fresh rows).0 in
        rotate backend raw fresh' rows' ≡ (rows', err unauthorized)
  rotate-once raw fresh fresh' rows response cs h =
      rotate-IsSpent backend raw fresh' (history backend cs (rotate backend raw fresh rows).0) (
        history-IsSpent backend cs (backend.hash_token raw) (rotate backend raw fresh rows).0
          (rotate-spends raw fresh rows response h))

  pub revoke_all-spends :
      (raw : String) (now : ℕ) (rows : Table) (row : TokenRow)
      → by_hash backend (backend.hash_token raw) rows ≡ some row
      → IsSpent backend
          (backend.hash_token raw)
          (revoke_all_for_account backend row.account_id now rows)
  unfolding revoke_all_for_account
  revoke_all-spends raw now rows row at =
      let mapped =
        by_hash-map backend
          (λ (r : TokenRow).
            if (r.account_id == row.account_id) && not (is_some r.revoked_at)
            then record r { revoked_at = some now }
            else r)
          (backend.hash_token raw) rows row (λ r. ground arith) at in
      (
        (if (row.account_id == row.account_id) && not (is_some row.revoked_at)
            then record row { revoked_at = some now }
            else row),
        mapped,
        ground (arith, beq_refl row.account_id),
      )

  -- Once an account's tokens are revoked, each is refused ever after.
  pub rotate-revoke_all_for_account :
      (raw : String) (now : ℕ) (fresh : Fresh) (rows : Table) (row : TokenRow)
      (cs : List (Call backend))
      → by_hash backend (backend.hash_token raw) rows ≡ some row
      → let rows' = history backend cs (revoke_all_for_account backend row.account_id now rows) in
        rotate backend raw fresh rows' ≡ (rows', err unauthorized)
  rotate-revoke_all_for_account raw now fresh rows row cs at =
      let spent = revoke_all-spends raw now rows row at in
      rotate-IsSpent backend raw fresh _
        (history-IsSpent backend cs (backend.hash_token raw) _ spent)

  logout-spends :
      (raw : String) (now : ℕ) (rows : Table) (row : TokenRow)
      → by_hash backend (backend.hash_token raw) rows ≡ some row
      → (logout backend raw now rows).1 ≡ ok tt
      → IsSpent backend (backend.hash_token raw) (logout backend raw now rows).0
  unfolding logout
  logout-spends raw now rows row at h = elim (Bool-cases (is_some row.revoked_at)) [
    | inl spent ↦ rw (at, spent) (row, at, spent)
    | inr open_ ↦
        let same : logout_found backend now (by_hash backend (backend.hash_token raw) rows) rows
            ≡ revoke_record backend row now rows =
          rw (at, open_) refl in
        subst
          (λ (s : Table × Result ServerError (Unit {0})).
            IsSpent backend (backend.hash_token raw) s.0)
          (sym same)
          (revoke_record-spends backend (backend.hash_token raw) row now rows at
            (ap (λ s. s.1) (sym same) ∙ h))
  ]

  -- A token that was logged out without an error is refused ever after.
  pub rotate-logout :
      (raw : String) (now : ℕ) (fresh : Fresh) (rows : Table) (row : TokenRow)
      (cs : List (Call backend))
      → by_hash backend (backend.hash_token raw) rows ≡ some row
      → (logout backend raw now rows).1 ≡ ok tt
      → let rows' = history backend cs (logout backend raw now rows).0 in
        rotate backend raw fresh rows' ≡ (rows', err unauthorized)
  rotate-logout raw now fresh rows row cs at h =
      rotate-IsSpent backend raw fresh (history backend cs (logout backend raw now rows).0) (
        history-IsSpent backend cs (backend.hash_token raw) (logout backend raw now rows).0
          (logout-spends raw now rows row at h))
