-- ===== src/Server/Accounts/Requests.antt =====
-- routes/auth.rs: a history of requests, and what every request keeps. The rules follow the way that
-- a handler is put together.
use failsafe.Prelude.{String, Option, none, some, List, [], ◌∷◌, Result, ok, err}
use failsafe.Prelude.Stateful.{Keeps, >>=-Keeps, >>-Keeps, lift-Keeps}
use failsafe.Core.Message.{AccountId}
use failsafe.Server.Error.{ServerError}
use failsafe.Server.Accounts.State.{Tables, Handler, check, transaction, rolled_back}
use failsafe.Server.Accounts.{Server, Faults, Draws, register, login, login_mfa}
use failsafe.Server.Accounts.Changes.{
  refresh, logout, change_password, totp_setup, totp_enable, totp_disable,
}

pub data Request : Type 0 where
  registers logs_in gives_code : String → String → Request
  refreshes logs_out : String → Request
  changes_password : AccountId → String → String → Request
  sets_up : AccountId → Request
  enables : AccountId → String → Request
  disables : AccountId → String → String → Request

-- The tables after a request, whatever it answers.
unfoldable pub serve : Server → Faults → Draws → Request → Tables → Tables
serve v f d (registers email password) s = (register v f d email password s).0
serve v f d (logs_in email password) s = (login v f d email password s).0
serve v f d (gives_code mfa_token code) s = (login_mfa v f d mfa_token code s).0
serve v f d (refreshes token) s = (refresh v f d token s).0
serve v f d (logs_out token) s = (logout v f d token s).0
serve v f d (changes_password id old new) s = (change_password v f d id old new s).0
serve v f d (sets_up id) s = (totp_setup v f d id s).0
serve v f d (enables id code) s = (totp_enable v f d id code s).0
serve v f d (disables id password code) s = (totp_disable v f d id password code s).0

abbrev pub Requests : Type 0
Requests = List (Faults × Draws × Request)

unfoldable pub serve_all : Server → Requests → Tables → Tables
serve_all v [] s = s
serve_all v ((f, d, r) ∷ rs) s = serve_all v rs (serve v f d r s)

-- Rules for calls of the database and for transactions.
module _ (P : Tables → Type 0) where
  pub check-Keeps : (e : Option String) → Keeps P (check e)
  check-Keeps none s h = h
  check-Keeps (some e) s h = h

  rolled_back-Keeps :
      {A : Type 0} (s : Tables) (r : Tables × Result ServerError A)
      → P s
      → P r.0
      → P (rolled_back s r).0
  rolled_back-Keeps s (t, err e) h k = h
  rolled_back-Keeps s (t, ok a) h k = k

  pub transaction-Keeps :
      {A : Type 0} (e : Option String) (body : Handler A)
      → Keeps P body
      → Keeps P (transaction e body)
  unfolding transaction
  transaction-Keeps e body keeps s h =
      rolled_back-Keeps s _ h (
        >>=-Keeps P body _ keeps (λ a. >>-Keeps P (check e) _ (check-Keeps e) (lift-Keeps P _)) s h)
