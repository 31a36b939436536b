-- ===== src/Server/RefreshToken.antt =====
-- refresh_token.rs of crates/failsafe-server. The table is the list of its rows in the order of
-- insertion. The database, the hash, the accounts and the signer of access tokens are parameters;
-- random values and the time are arguments. A transaction that fails leaves the table as it was. Reads
-- of the database, and beginning a transaction, do not fail here; what changes a row may.
pub mod Spent
pub mod Once
use failsafe.Prelude.{
  ℕ, ◌+◌, Bool, true, false, not, ◌&&◌, ◌||◌, String, Option, none, some, List, [], ◌∷◌, ◌++◌, map,
  find?, ltb, nat_key, string_key, ◌==◌, if◌then◌else◌, Result, ok, err,
}
use failsafe.Core.Message.{AccountId}
use failsafe.Server.Error.{ServerError, unauthorized, database}

-- entity/refresh_token.rs
pub record TokenRow : Type 0 where
  pub id : ℕ
  pub account_id : AccountId
  pub token_hash : String
  pub expires_at : ℕ
  pub revoked_at : Option ℕ
  pub created_at : ℕ

pub record AuthResponse : Type 0 where
  pub token : Option String
  pub refresh_token : Option String
  pub mfa_required : Bool
  pub mfa_token : Option String

abbrev pub authenticated : String → String → AuthResponse
authenticated token refresh_token = record {
  token = some token;
  refresh_token = some refresh_token;
  mfa_required = false;
  mfa_token = none;
}

abbrev pub Table : Type 0
Table = List TokenRow

-- 30 days, in seconds.
abbrev pub refresh_token_ttl : ℕ
refresh_token_ttl = 2592000

abbrev pub is_some : Option ℕ → Bool
is_some none = false
is_some (some t) = true

-- What the code calls: an insert or an update may fail.
pub record Backend : Type 0 where
  pub hash_token : String → String
  pub account_exists : AccountId → Bool
  pub sign : AccountId → Result ServerError String
  pub insert_error : TokenRow → Table → Option String
  pub update_error : TokenRow → Table → Option String

-- A fresh random token, its row's id, and the time of the call.
pub record Fresh : Type 0 where
  pub raw : String
  pub row_id : ℕ
  pub now : ℕ

module _ (backend : Backend) where
  open backend use {hash_token, account_exists, sign, insert_error, update_error}

  abbrev pub by_hash : String → Table → Option TokenRow
  by_hash hash rows = find? (λ (row : TokenRow). row.token_hash == hash) rows

  abbrev pub new_row : AccountId → Fresh → TokenRow
  new_row account_id fresh = record {
    id = fresh.row_id;
    account_id = account_id;
    token_hash = hash_token fresh.raw;
    expires_at = fresh.now + refresh_token_ttl;
    revoked_at = none;
    created_at = fresh.now;
  }

  abbrev inserted : TokenRow → Option String → Table → Table × Result ServerError (Unit {0})
  inserted row none rows = (rows ++ row ∷ [], ok tt)
  inserted row (some e) rows = (rows, err (database e))

  abbrev pub insert_row : TokenRow → Table → Table × Result ServerError (Unit {0})
  insert_row row rows = inserted row (insert_error row rows) rows

  abbrev usable : ℕ → TokenRow → Result ServerError TokenRow
  usable now row =
      if is_some row.revoked_at || ltb row.expires_at now
      then err unauthorized
      else if account_exists row.account_id
      then ok row
      else err unauthorized

  abbrev found : ℕ → Option TokenRow → Result ServerError TokenRow
  found now none = err unauthorized
  found now (some row) = usable now row

  unfoldable pub find_valid_in_conn : String → ℕ → Table → Result ServerError TokenRow
  find_valid_in_conn raw now rows = found now (by_hash (hash_token raw) rows)

  -- The update of the row with the record's primary key.
  abbrev pub revoke_id : ℕ → ℕ → Table → Table
  revoke_id id now rows =
      map (λ (row : TokenRow). if row.id == id then record row { revoked_at = some now } else row)
        rows

  abbrev revoked : TokenRow → ℕ → Option String → Table → Table × Result ServerError (Unit {0})
  revoked row now none rows = (revoke_id row.id now rows, ok tt)
  revoked row now (some e) rows = (rows, err (database e))

  unfoldable pub revoke_record : TokenRow → ℕ → Table → Table × Result ServerError (Unit {0})
  revoke_record row now rows = revoked row now (update_error row rows) rows

  abbrev answer : Result ServerError String → String → Result ServerError AuthResponse
  answer (err e) raw = err e
  answer (ok token) raw = ok (authenticated token raw)

  abbrev rotate_inserted :
      AccountId
      → Fresh
      → Table × Result ServerError (Unit {0})
      → Table × Result ServerError AuthResponse
  rotate_inserted account_id fresh (rows, err e) = (rows, err e)
  rotate_inserted account_id fresh (rows, ok u) = (rows, answer (sign account_id) fresh.raw)

  abbrev rotate_revoked :
      AccountId
      → Fresh
      → Table × Result ServerError (Unit {0})
      → Table × Result ServerError AuthResponse
  rotate_revoked account_id fresh (rows, err e) = (rows, err e)
  rotate_revoked account_id fresh (rows, ok u) =
      rotate_inserted account_id fresh (insert_row (new_row account_id fresh) rows)

  abbrev rotate_found :
      Fresh → Result ServerError TokenRow → Table → Table × Result ServerError AuthResponse
  rotate_found fresh (err e) rows = (rows, err e)
  rotate_found fresh (ok row) rows =
      rotate_revoked row.account_id fresh (revoke_record row fresh.now rows)

  unfoldable pub rotate_in_transaction :
      String → Fresh → Table → Table × Result ServerError AuthResponse
  rotate_in_transaction raw fresh rows =
      rotate_found fresh (find_valid_in_conn raw fresh.now rows) rows

  -- Only a transaction that succeeds is committed.
  abbrev commit :
      Table → Table × Result ServerError AuthResponse → Table × Result ServerError AuthResponse
  commit before (rows, err e) = (before, err e)
  commit before (rows, ok response) = (rows, ok response)

  unfoldable pub rotate : String → Fresh → Table → Table × Result ServerError AuthResponse
  rotate raw fresh rows = commit rows (rotate_in_transaction raw fresh rows)

  unfoldable pub issue : AccountId → Fresh → Table → Table × Result ServerError (Unit {0})
  issue account_id fresh rows = insert_row (new_row account_id fresh) rows

  unfoldable pub revoke_all_for_account : AccountId → ℕ → Table → Table
  revoke_all_for_account account_id now rows =
      map
        (λ (row : TokenRow).
          if (row.account_id == account_id) && not (is_some row.revoked_at)
          then record row { revoked_at = some now }
          else row)
        rows

  abbrev logout_found : ℕ → Option TokenRow → Table → Table × Result ServerError (Unit {0})
  logout_found now none rows = (rows, ok tt)
  logout_found now (some row) rows =
      if is_some row.revoked_at then (rows, ok tt) else revoke_record row now rows

  unfoldable pub logout : String → ℕ → Table → Table × Result ServerError (Unit {0})
  logout raw now rows = logout_found now (by_hash (hash_token raw) rows) rows
