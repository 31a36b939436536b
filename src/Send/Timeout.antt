-- ===== src/Send/Timeout.antt =====
-- timeout.rs of crates/failsafe-send: how long a sender waits for an acknowledgement, in seconds.
use failsafe.Prelude.{ℕ, ◌+◌, ◌*◌, ◌/◌, ◌≤◌, ◌≡◌, arith}
use failsafe.Prelude.Words.{u64_max, saturating_add, saturating_mul}

unfoldable pub send_ack_timeout : ℕ → ℕ
send_ack_timeout bytes_total =
    saturating_add u64_max 300 (saturating_mul u64_max (bytes_total / 1048576) 120)

-- For every u64 size the wait is five minutes and two minutes for each whole mebibyte; it never
-- saturates, and a larger transfer never waits less.
pub send_ack_timeout-scales :
    (a b : ℕ)
    → a ≤ b
    → b ≤ u64_max
    → (send_ack_timeout b ≡ 300 + (b / 1048576) * 120)
      × (send_ack_timeout a ≤ send_ack_timeout b)
      × (send_ack_timeout b ≤ u64_max)
unfolding send_ack_timeout
send_ack_timeout-scales a b le word = (omega arith, omega arith, omega arith)
