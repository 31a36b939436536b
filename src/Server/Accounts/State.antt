-- ===== src/Server/Accounts/State.antt =====
-- The tables that routes/auth.rs of crates/failsafe-server works on, and its handlers as functions
-- of them: a handler leaves the tables and answers, or fails with the error that the `?` returns.
use failsafe.Prelude.{
  ℕ, Bool, String, Option, none, some, List, find?, nat_key, string_key, ◌==◌, Result, ok, err,
}
use failsafe.Prelude.Stateful.{Stateful, ◌>>=◌, ◌>>◌, lift}
use failsafe.Core.Message.{AccountId}
use failsafe.Server.Error.{ServerError, database}
use failsafe.Server.RefreshToken.{Table}

-- entity/account.rs
pub record AccountRow : Type 0 where
  pub id : AccountId
  pub email : String
  pub password_hash : String
  pub totp_secret : Option String
  pub totp_enabled : Bool
  pub created_at : ℕ

-- entity/recovery_code.rs
pub record RecoveryRow : Type 0 where
  pub id : ℕ
  pub account_id : AccountId
  pub code_hash : String
  pub used_at : Option ℕ
  pub created_at : ℕ

pub record Tables : Type 0 where
  pub accounts : List AccountRow
  pub recovery : List RecoveryRow
  pub tokens : Table

abbrev pub Handler : Type 0 → Type 0
Handler A = Stateful Tables ServerError A

-- A call of the database that may fail.
abbrev pub check : Option String → Handler (Unit {0})
check none s = (s, ok tt)
check (some e) s = (s, err (database e))

abbrev pub rolled_back :
    {A : Type 0} → Tables → Tables × Result ServerError A → Tables × Result ServerError A
rolled_back before (s, err e) = (before, err e)
rolled_back before (s, ok a) = (s, ok a)

-- `begin`, the body, and `commit`, which may fail: an error leaves the tables as they were.
unfoldable pub transaction : {A : Type 0} → Option String → Handler A → Handler A
transaction commit_error body s = rolled_back s ((do a ← body; check commit_error; lift (ok a)) s)

abbrev pub by_id : AccountId → List AccountRow → Option AccountRow
by_id id rows = find? (λ (row : AccountRow). row.id == id) rows

abbrev pub by_email : String → List AccountRow → Option AccountRow
by_email email rows = find? (λ (row : AccountRow). row.email == email) rows
