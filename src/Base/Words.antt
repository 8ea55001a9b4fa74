-- ===== src/Base/Words.antt =====
-- Sums and differences of unsigned 64-bit words (uint64 and size_t), which wrap at 2 ^ 64.
use Prim.Native.Nat.{ℕ, ◌+◌, ◌-◌, ◌%◌, ◌^◌, ◌≤◌, ◌<◌}
use mathlib.Core.Path.{◌≡◌}
use native.Mathlib.Omega.{arith}

abbrev pub advance : ℕ → ℕ → ℕ
advance a b = (a + b) % 2 ^ 64

abbrev pub distance : ℕ → ℕ → ℕ
distance a b = (a + (2 ^ 64 - b)) % 2 ^ 64

pub advance-lt : (a b : ℕ) → a + b < 2 ^ 64 → advance a b ≡ a + b
advance-lt a b w = omega arith

pub distance-le : (a b : ℕ) → b ≤ a → a < 2 ^ 64 → distance a b ≡ a - b
distance-le a b h w = omega arith

pub distance-gt : (a b : ℕ) → a < b → b ≤ 2 ^ 64 → distance a b ≡ a + (2 ^ 64 - b)
distance-gt a b h w = omega arith
