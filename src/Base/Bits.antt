-- ===== src/Base/Bits.antt =====
-- Masks and disjoint fields of machine words as arithmetic, for every width, and tables over bytes.
use Prim.Native.Nat.{ℕ, zero, suc, ◌+◌, ◌-◌, ◌*◌, ◌/◌, ◌%◌, ◌^◌, ◌≤◌, ◌<◌, min, max}
use Prim.Native.Nat.{bit_and, bit_or, digits, bit_and-bitwise, bit_or-bitwise}
use mathlib.Core.Path.{◌≡◌, refl, ap}
use mathlib.Core.Bool.{Bool, true, ◌&&◌}
use native.Mathlib.Omega.{arith}
use native.Mathlib.Nat.{pow-suc, one-le-pow, div-add-mod}
use tdutils.Base.Tests.{◌==◌, ==_iff}

-- The count of rounds that the native operations are given does not matter once it is enough.
pub digits_enough :
    (z : ℕ → ℕ) (f : ℕ → ℕ → ℕ) (k m a b : ℕ) → a ≤ k → a ≤ m → digits z f k a b ≡ digits z f m a b
digits_enough z f zero zero zero b p q = refl
digits_enough z f zero (suc m) zero b p q = refl
digits_enough z f (suc k) zero zero b p q = refl
digits_enough z f (suc k) (suc m) zero b p q = refl
digits_enough z f (suc k) (suc m) (suc a) b p q =
    rw (digits_enough z f k m (suc a / 2) (b / 2) (omega arith) (omega arith))
digits_enough z f _ _ (suc a) b p q = absurd (omega arith)

-- The lowest digit of each operation.
or_digit : (a b : ℕ) → bit_or a b ≡ bit_or (a / 2) (b / 2) * 2 + max (a % 2) (b % 2)
or_digit zero b = omega (arith, bit_or-bitwise 0 b, bit_or-bitwise 0 (b / 2))
or_digit (suc a) b = omega (
  arith,
  bit_or-bitwise (suc a) b,
  bit_or-bitwise (suc a / 2) (b / 2),
  digits_enough (λ y. y) max a (suc a / 2) (suc a / 2) (b / 2) (omega arith) (omega arith),
)

and_digit : (a b : ℕ) → bit_and a b ≡ bit_and (a / 2) (b / 2) * 2 + min (a % 2) (b % 2)
and_digit zero b = omega (arith, bit_and-bitwise 0 b, bit_and-bitwise 0 (b / 2))
and_digit (suc a) b = omega (
  arith,
  bit_and-bitwise (suc a) b,
  bit_and-bitwise (suc a / 2) (b / 2),
  digits_enough (λ y. 0) min a (suc a / 2) (suc a / 2) (b / 2) (omega arith) (omega arith),
)

bit_or-zero_below : (n a : ℕ) → a ≤ n → bit_or a 0 ≡ a
bit_or-zero_below zero zero h = refl
bit_or-zero_below zero (suc a) h = absurd (omega arith)
bit_or-zero_below (suc n) a h =
    omega (arith, or_digit a 0, bit_or-zero_below n (a / 2) (omega arith))

pub bit_or-zero : (a : ℕ) → bit_or a 0 ≡ a
bit_or-zero a = bit_or-zero_below a a (omega arith)

pub zero-bit_or : (a : ℕ) → bit_or 0 a ≡ a
zero-bit_or a = omega (arith, bit_or-bitwise 0 a)

bit_and-zero_below : (n a : ℕ) → a ≤ n → bit_and a 0 ≡ 0
bit_and-zero_below zero zero h = refl
bit_and-zero_below zero (suc a) h = absurd (omega arith)
bit_and-zero_below (suc n) a h =
    omega (arith, and_digit a 0, bit_and-zero_below n (a / 2) (omega arith))

bit_and-zero : (a : ℕ) → bit_and a 0 ≡ 0
bit_and-zero a = bit_and-zero_below a a (omega arith)

pub two_pow : (q k : ℕ) → q * 2 ^ suc k ≡ 2 * (q * 2 ^ k)
two_pow q k = omega (arith, ap (λ (t : ℕ). q * t) (pow-suc 2 k))

-- `(q << k) | r`, where `r` fits the `k` free bits.
pub bit_or-disjoint : (k q r : ℕ) → r < 2 ^ k → bit_or (q * 2 ^ k) r ≡ q * 2 ^ k + r
bit_or-disjoint zero q r h = ground (arith, bit_or-zero (q * 1))
bit_or-disjoint (suc k) q r h = omega (
  arith,
  pow-suc 2 k,
  two_pow q k,
  or_digit (q * 2 ^ suc k) r,
  bit_or-disjoint k q (r / 2) (omega (arith, pow-suc 2 k)),
  ap (λ (t : ℕ). bit_or t (r / 2)) {x = q * 2 ^ suc k / 2} {y = q * 2 ^ k}
      (omega (arith, two_pow q k)),
)

pub bit_or-add : (k x r : ℕ) → x % 2 ^ k ≡ 0 → r < 2 ^ k → bit_or x r ≡ x + r
bit_or-add k x r e h =
    let w : x ≡ x / 2 ^ k * 2 ^ k = omega (arith, div-add-mod x (2 ^ k)) in
    rw w (bit_or-disjoint k (x / 2 ^ k) r h)

low_of_fields : (k q r : ℕ) → r < 2 ^ k → bit_and (q * 2 ^ k + r) (2 ^ k - 1) ≡ r
low_of_fields zero q r h = let w : r ≡ 0 = omega arith in rw w (bit_and-zero (q * 2 ^ 0 + 0))
low_of_fields (suc k) q r h = omega (
  arith,
  pow-suc 2 k,
  one-le-pow k 2,
  two_pow q k,
  and_digit (q * 2 ^ suc k + r) (2 ^ suc k - 1),
  low_of_fields k q (r / 2) (omega (arith, pow-suc 2 k)),
  ap (λ (t : ℕ). bit_and t ((2 ^ suc k - 1) / 2)) {x = (q * 2 ^ suc k + r) / 2}
      {y = q * 2 ^ k + r / 2} (omega (arith, two_pow q k)),
  ap (λ (t : ℕ). bit_and (q * 2 ^ k + r / 2) t) {x = (2 ^ suc k - 1) / 2} {y = 2 ^ k - 1}
      (omega (arith, pow-suc 2 k, one-le-pow k 2 (omega arith))),
)

-- `x & (2^k - 1)`
pub bit_and-low : (k x : ℕ) → bit_and x (2 ^ k - 1) ≡ x % 2 ^ k
bit_and-low k x = ground (arith, one-le-pow k 2, low_of_fields k (x / 2 ^ k) (x % 2 ^ k))

-- Over a small range, check every value by evaluation.
unfoldable pub holds_below : ℕ → (ℕ → Bool) → Bool
holds_below zero p = true
holds_below (suc n) p = p n && holds_below n p

pub holds_at : (n : ℕ) (p : ℕ → Bool) → holds_below n p ≡ true → (x : ℕ) → x < n → p x ≡ true
unfolding holds_below
holds_at zero p e x h = absurd (omega arith)
holds_at (suc n) p e x h = ground (arith, holds_at n p (ground arith) x)

pub eq_at :
    (n : ℕ) (f g : ℕ → ℕ) → holds_below n (λ x. f x == g x) ≡ true → (x : ℕ) → x < n → f x ≡ g x
eq_at n f g e x h = (==_iff (f x) (g x)).0 (holds_at n (λ x. f x == g x) e x h)
