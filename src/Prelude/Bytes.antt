-- ===== src/Prelude/Bytes.antt =====
-- Big-endian machine words as lists of bytes: `to_be_bytes` and `from_be_bytes` of u16 and u32.
use failsafe.Prelude.{ℕ, ◌+◌, ◌*◌, ◌/◌, ◌%◌, ◌<◌, ◌≡◌, List, [], ◌∷◌, arith}

unfoldable pub u16_to_be_bytes : ℕ → List ℕ
u16_to_be_bytes n = (n / 256) % 256 ∷ n % 256 ∷ []

unfoldable pub u32_to_be_bytes : ℕ → List ℕ
u32_to_be_bytes n = (n / 16777216) % 256 ∷ (n / 65536) % 256 ∷ (n / 256) % 256 ∷ n % 256 ∷ []

abbrev pub from_be_bytes : ℕ → List ℕ → ℕ
from_be_bytes acc [] = acc
from_be_bytes acc (b ∷ bs) = from_be_bytes (acc * 256 + b) bs

pub from_be_bytes-u16 : (n : ℕ) → n < 65536 → from_be_bytes 0 (u16_to_be_bytes n) ≡ n
unfolding u16_to_be_bytes
from_be_bytes-u16 n h = omega arith

pub from_be_bytes-u32 : (n : ℕ) → n < 4294967296 → from_be_bytes 0 (u32_to_be_bytes n) ≡ n
unfolding u32_to_be_bytes
from_be_bytes-u32 n h = omega arith
