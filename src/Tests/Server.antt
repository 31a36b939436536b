-- ===== src/Tests/Server.antt =====
-- The server at concrete requests.
use failsafe.Prelude.{
  ℕ, ◌≡◌, refl, true, false, String, none, List, [], ◌∷◌, ok, err, arith, string_key, nat_key,
}
use failsafe.Server.RateLimit.{new_limiter}
use failsafe.Server.RateLimit.Window.{Calls, decisions, decisions_logged, decisions-logged}
use failsafe.Server.Error.{unauthorized}
use failsafe.Server.RefreshToken.{
  TokenRow, Table, Backend, Fresh, authenticated, find_valid_in_conn, revoke_record,
  rotate_in_transaction, rotate, logout,
}
use failsafe.Server.RefreshToken.Spent.{Call, rotates, issues, revokes_all, history}
use failsafe.Server.RefreshToken.Once.{rotate-once}

abbrev requests : Calls
requests = ("login", 1) ∷ ("pair", 2) ∷ ("login", 3) ∷ ("login", 5) ∷ ("login", 20) ∷ []

decisions-logged_example : decisions requests (new_limiter 2 10) ≡ decisions_logged 2 10 requests []
decisions-logged_example =
    decisions-logged requests 2 10
      (omega arith, (omega arith, (omega arith, (omega arith, (omega arith, tt)))))

-- The third login within ten is refused.
requests_decided : decisions_logged 2 10 requests [] ≡ true ∷ true ∷ true ∷ false ∷ true ∷ []
requests_decided = refl

abbrev backend : Backend
backend = record {
  hash_token = λ raw. raw;
  account_exists = λ a. true;
  sign = λ a. ok "signed";
  insert_error = λ row rows. none;
  update_error = λ row rows. none;
}

abbrev fresh : String → ℕ → Fresh
fresh raw now = record { raw = raw; row_id = now; now = now }

abbrev row : TokenRow
row = record {
  id = 1;
  account_id = 4;
  token_hash = "first";
  expires_at = 1000;
  revoked_at = none;
  created_at = 0;
}

abbrev rows : Table
rows = row ∷ []

abbrev between : List (Call backend)
between = rotates "second" (fresh "third" 30) ∷ issues 4 (fresh "other" 31) ∷ revokes_all 9 32 ∷ []

rotated : (rotate backend "first" (fresh "second" 20) rows).1 ≡ ok (authenticated "signed" "second")
unfolding rotate rotate_in_transaction find_valid_in_conn revoke_record
rotated = refl

rotate-once_example :
    let rows' = history backend between (rotate backend "first" (fresh "second" 20) rows).0 in
    rotate backend "first" (fresh "again" 40) rows' ≡ (rows', err unauthorized)
rotate-once_example =
    rotate-once backend "first" (fresh "second" 20) (fresh "again" 40) rows
      (authenticated "signed" "second") between rotated

logged_out : (logout backend "first" 20 rows).1 ≡ ok tt
unfolding logout revoke_record
logged_out = refl
