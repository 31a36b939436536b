-- ===== src/Prelude/Words.antt =====
-- Machine integers as numbers: the bounds of u32 and u64 and their saturating operations.
use failsafe.Prelude.{ℕ, ◌+◌, ◌*◌, ◌≤◌, min, arith}

abbrev pub u32_max : ℕ
u32_max = 4294967295

abbrev pub u64_max : ℕ
u64_max = 18446744073709551615

-- 2 ^ 64, at which unsigned sums wrap around.
abbrev pub u64_mod : ℕ
u64_mod = 18446744073709551616

abbrev pub saturating_add : ℕ → ℕ → ℕ → ℕ
saturating_add top a b = min (a + b) top

abbrev pub saturating_mul : ℕ → ℕ → ℕ → ℕ
saturating_mul top a b = min (a * b) top

pub saturating_add_le : (top a b : ℕ) → saturating_add top a b ≤ top
saturating_add_le top a b = omega arith
