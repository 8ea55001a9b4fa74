-- ===== src/Base/Xor.antt =====
-- Exclusive or on machine words, for every width.
use Prim.Native.Nat.{
  ℕ, zero, suc, ◌+◌, ◌*◌, ◌/◌, ◌%◌, ◌^◌, ◌≤◌, ◌<◌, bit_xor, differ, bit_xor-bitwise,
}
use mathlib.Core.Path.{◌≡◌, refl, ap, ◌∙◌}
use native.Mathlib.Omega.{arith}
use native.Mathlib.Nat.{pow-suc}
use tdutils.Base.Bits.{digits_enough, two_pow}

xor_digit : (a b : ℕ) → bit_xor a b ≡ bit_xor (a / 2) (b / 2) * 2 + differ (a % 2) (b % 2)
xor_digit zero b = omega (arith, bit_xor-bitwise 0 b, bit_xor-bitwise 0 (b / 2))
xor_digit (suc a) b = omega (
  arith,
  bit_xor-bitwise (suc a) b,
  bit_xor-bitwise (suc a / 2) (b / 2),
  digits_enough (λ y. y) differ a (suc a / 2) (suc a / 2) (b / 2) (omega arith) (omega arith),
)

differ-bits :
    (x y : ℕ)
    → x < 2
    → y < 2
    → (differ x y < 2) × (differ x (differ x y) ≡ y) × (differ x y ≡ (x + y) % 2)
differ-bits zero y p q = (q, refl, omega arith)
differ-bits (suc zero) zero p q = (omega arith, refl, omega arith)
differ-bits (suc zero) (suc zero) p q = (omega arith, refl, omega arith)
differ-bits (suc zero) (suc (suc y)) p q = absurd (omega arith)
differ-bits (suc (suc x)) y p q = absurd (omega arith)

-- The halves and the last digit of an exclusive or.
xor_parts :
    (a b : ℕ)
    → (bit_xor a b / 2 ≡ bit_xor (a / 2) (b / 2)) × (bit_xor a b % 2 ≡ differ (a % 2) (b % 2))
xor_parts a b =
    let (lt, _, _) = differ-bits (a % 2) (b % 2) (omega arith) (omega arith) in
    let d = xor_digit a b in (omega arith, omega arith)

xor_cancel_below : (n a b : ℕ) → a ≤ n → b ≤ n → bit_xor a (bit_xor a b) ≡ b
xor_cancel_below zero zero zero p q = refl
xor_cancel_below zero (suc a) b p q = absurd (omega arith)
xor_cancel_below zero zero (suc b) p q = absurd (omega arith)
xor_cancel_below (suc n) a b p q =
    let (half, low) = xor_parts a b in
    let ih = xor_cancel_below n (a / 2) (b / 2) (omega arith) (omega arith) in
    let (_, back, _) = differ-bits (a % 2) (b % 2) (omega arith) (omega arith) in
    omega (
      arith,
      xor_digit a (bit_xor a b),
      ap (λ (t : ℕ). bit_xor (a / 2) t) half,
      ih,
      ap (λ (t : ℕ). differ (a % 2) t) low,
      back,
    )

-- `x ^ x ^ y`
pub bit_xor_cancel : (a b : ℕ) → bit_xor a (bit_xor a b) ≡ b
bit_xor_cancel a b = xor_cancel_below (a + b) a b (omega arith) (omega arith)

bit_xor-zero_below : (n a : ℕ) → a ≤ n → bit_xor a 0 ≡ a
bit_xor-zero_below zero zero h = refl
bit_xor-zero_below zero (suc a) h = absurd (omega arith)
bit_xor-zero_below (suc n) a h =
    let (_, _, low) = differ-bits (a % 2) 0 (omega arith) (omega arith) in
    omega (arith, xor_digit a 0, bit_xor-zero_below n (a / 2) (omega arith), low)

-- An exclusive or with a low field leaves the high bits alone.
pub bit_xor_fields :
    (k q r y : ℕ) → r < 2 ^ k → y < 2 ^ k → bit_xor (q * 2 ^ k + r) y ≡ q * 2 ^ k + bit_xor r y
bit_xor_fields zero q r y h g =
    let zr : r ≡ 0 = omega arith in
    let zy : y ≡ 0 = omega arith in
    rw (zr, zy) (bit_xor-zero_below (q * 2 ^ 0 + 0) _ (omega arith) ∙ omega arith)
bit_xor_fields (suc k) q r y h g =
    let x = q * 2 ^ suc k + r in
    let half : x / 2 ≡ q * 2 ^ k + r / 2 = omega (arith, two_pow q k) in
    let digit : x % 2 ≡ r % 2 = omega (arith, two_pow q k) in
    omega (
      arith,
      pow-suc 2 k,
      two_pow q k,
      xor_digit x y,
      xor_digit r y,
      ap (λ (t : ℕ). bit_xor t (y / 2)) half,
      ap (λ (t : ℕ). differ t (y % 2)) digit,
      bit_xor_fields k q (r / 2) (y / 2) (omega (arith, pow-suc 2 k)) (omega (arith, pow-suc 2 k)),
    )

pub bit_xor-lt : (k a b : ℕ) → a < 2 ^ k → b < 2 ^ k → bit_xor a b < 2 ^ k
bit_xor-lt zero a b p q =
    let za : a ≡ 0 = omega arith in let zb : b ≡ 0 = omega arith in rw (za, zb) (omega arith)
bit_xor-lt (suc k) a b p q =
    let (lt, _, _) = differ-bits (a % 2) (b % 2) (omega arith) (omega arith) in
    omega (
      arith,
      pow-suc 2 k,
      xor_digit a b,
      lt,
      bit_xor-lt k (a / 2) (b / 2) (omega (arith, pow-suc 2 k)) (omega (arith, pow-suc 2 k)),
    )
