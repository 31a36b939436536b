-- ===== src/Server/RateLimit.antt =====
-- rate_limit.rs of crates/failsafe-server. An instant is a number of nanoseconds; `duration_since`
-- of a later instant is 0. The time of a call is an argument, and the lock makes calls follow one
-- another.
pub mod Window
use failsafe.Prelude.{
  ℕ, ◌-◌, Bool, true, false, String, Option, none, some, List, [], ◌∷◌, ◌++◌, keep, length, ltb,
  leb, string_key, if◌then◌else◌,
}
use failsafe.Prelude.Assoc.{get, insert}

pub record RateLimiter : Type 0 where
  pub entries : List (String × List ℕ)
  pub max_requests : ℕ
  pub window : ℕ

abbrev pub new_limiter : ℕ → ℕ → RateLimiter
new_limiter max_requests window = record {
  entries = [];
  max_requests = max_requests;
  window = window;
}

-- `entry(key).or_default()`
abbrev pub or_default : Option (List ℕ) → List ℕ
or_default none = []
or_default (some history) = history

abbrev pub history_of : String → RateLimiter → List ℕ
history_of key l = or_default (get key l.entries)

-- `retain`
abbrev pub recent : ℕ → ℕ → List ℕ → List ℕ
recent window now history = keep (λ instant. ltb (now - instant) window) history

unfoldable pub allow : String → ℕ → RateLimiter → RateLimiter × Bool
allow key now l =
    let history = recent l.window now (history_of key l) in
    if leb l.max_requests (length history)
    then (record l { entries = insert key history l.entries }, false)
    else (record l { entries = insert key (history ++ now ∷ []) l.entries }, true)
