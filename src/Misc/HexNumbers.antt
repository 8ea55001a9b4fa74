-- ===== src/Misc/HexNumbers.antt =====
-- hex_to_integer and hex_to_integer_safe of td/utils/misc.h for an unsigned type of `w` bits.
use mathlib.Core.Bool.{false≢true}
use native.Mathlib.Nat.{mod-eq_of_lt, one-le-pow, pow-suc}
use tdutils.Base.{
  all, ap, arith, Bool-cases, error, false, ge→ltb, if◌then◌else◌, inl, inr, is_ok, List, ltb,
  ltb→ge, ok, refl, Result, suc, true, ℕ, [], ◌%◌, ◌*◌, ◌+◌, ◌-◌, ◌/◌, ◌<◌, ◌==◌, ◌^◌, ◌↔◌, ◌∙◌,
  ◌∷◌, ◌≡◌, ◌≤◌,
}
use tdutils.Misc.Chars.{hex_to_int, hex_to_int-is_hex_digit, hex_to_int-le, is_hex_digit}

unfoldable pub hex_to_integer_from : ℕ → ℕ → List ℕ → ℕ
hex_to_integer_from w integer_value [] = integer_value
hex_to_integer_from w integer_value (c ∷ str) =
    let rest = hex_to_integer_from w ((integer_value * 16 + hex_to_int c) % 2 ^ w) str in
    if is_hex_digit c then rest else integer_value

abbrev pub hex_to_integer : ℕ → List ℕ → ℕ
hex_to_integer w str = hex_to_integer_from w 0 str

unfoldable pub hex_to_integer_safe_from : ℕ → ℕ → List ℕ → Result ℕ
hex_to_integer_safe_from w integer_value [] = ok integer_value
hex_to_integer_safe_from w integer_value (c ∷ str) =
    let digit = hex_to_int c in
    let rest = hex_to_integer_safe_from w ((integer_value * 16 + digit) % 2 ^ w) str in
    if digit == 16
    then error "Not a hex digit"
    else (if ltb ((2 ^ w - 1) / 16) integer_value then error "Hex number overflow" else rest)

abbrev pub hex_to_integer_safe : ℕ → List ℕ → Result ℕ
hex_to_integer_safe w str = hex_to_integer_safe_from w 0 str

-- The number that the digits stand for, behind those that stand for `value`.
unfoldable pub hex_value : ℕ → List ℕ → ℕ
hex_value value [] = value
hex_value value (c ∷ str) = hex_value (value * 16 + hex_to_int c) str

hex_value-ge : (value : ℕ) (str : List ℕ) → value ≤ hex_value value str
unfolding hex_value
hex_value-ge value [] = omega arith
hex_value-ge value (c ∷ str) = omega (arith, hex_value-ge (value * 16 + hex_to_int c) str)

-- A text of hexadecimal digits only, whose number fits the type.
Fits : ℕ → ℕ → List ℕ → ℕ → Type 0
Fits w value str n = (all is_hex_digit str ≡ true) × (hex_value value str ≡ n) × (n < 2 ^ w)

no_digit : (c : ℕ) → is_hex_digit c ≡ false → (hex_to_int c == 16) ≡ true
no_digit c h = hex_to_int-is_hex_digit c ∙ rw h refl

is_digit_16 : (c : ℕ) → is_hex_digit c ≡ true → ((hex_to_int c == 16) ≡ false) × (hex_to_int c ≤ 15)
is_digit_16 c h =
    let e : (hex_to_int c == 16) ≡ false = hex_to_int-is_hex_digit c ∙ rw h refl in
    (e, (let l = hex_to_int-le c in ground arith))

two_pow_four : (k : ℕ) → 2 ^ suc (suc (suc (suc k))) ≡ 16 * 2 ^ k
two_pow_four k =
    omega (
      arith,
      pow-suc 2 k,
      pow-suc 2 (suc k),
      pow-suc 2 (suc (suc k)),
      pow-suc 2 (suc (suc (suc k))),
    )

sixteenths : (w : ℕ) → 4 ≤ w → 2 ^ w ≡ 16 * 2 ^ (w - 4)
sixteenths w h =
    let e : w ≡ suc (suc (suc (suc (w - 4)))) = omega arith in
    ap (λ k. 2 ^ k) e ∙ two_pow_four (w - 4)

safe_from-Fits :
    (w value : ℕ) (str : List ℕ) (n : ℕ)
    → 4 ≤ w
    → value < 2 ^ w
    → hex_to_integer_safe_from w value str ≡ ok n
    → Fits w value str n
unfolding hex_to_integer_safe_from Fits hex_value
safe_from-Fits w value [] n p l h = (let e : value ≡ n = cc in (refl, e, omega arith))
safe_from-Fits w value (c ∷ str) n p l h =
    let most = (2 ^ w - 1) / 16 in
    elim (Bool-cases (is_hex_digit c)) [
      | inr e ↦ absurd (false≢true (ap is_ok (rw (no_digit c e) at h)))
      | inl e ↦
          let (d, k) = is_digit_16 c e in
          elim (Bool-cases (ltb most value)) [
            | inl t ↦ absurd (false≢true (ap is_ok (rw t at (rw d at h))))
            | inr t ↦
                let less = ltb→ge most value t in
                let parts = sixteenths w p in
                let fits : value * 16 + hex_to_int c < 2 ^ w = omega arith in
                let same : (value * 16 + hex_to_int c) % 2 ^ w ≡ value * 16 + hex_to_int c =
                  mod-eq_of_lt fits in
                rw e (
                  safe_from-Fits w (value * 16 + hex_to_int c) str n p fits
                    (rw same at (rw t at (rw d at h))))
          ]
    ]

Fits-safe_from :
    (w value : ℕ) (str : List ℕ) (n : ℕ)
    → Fits w value str n
    → (hex_to_integer_safe_from w value str ≡ ok n) × (hex_to_integer_from w value str ≡ n)
unfolding hex_to_integer_safe_from hex_to_integer_from Fits hex_value
Fits-safe_from w value [] n (a, e, l) = (ap ok e, e)
Fits-safe_from w value (c ∷ str) n (a, e, l) = elim (Bool-cases (is_hex_digit c)) [
  | inr b ↦ absurd (false≢true (rw b at a))
  | inl b ↦
      let (d, k) = is_digit_16 c b in
      let grows = hex_value-ge (value * 16 + hex_to_int c) str in
      let fits : value * 16 + hex_to_int c < 2 ^ w = omega arith in
      let same : (value * 16 + hex_to_int c) % 2 ^ w ≡ value * 16 + hex_to_int c =
        mod-eq_of_lt fits in
      let t : ltb ((2 ^ w - 1) / 16) value ≡ false =
        ge→ltb ((2 ^ w - 1) / 16) value (omega arith) in
      let (safe, plain) = Fits-safe_from w (value * 16 + hex_to_int c) str n (rw b at a, e, l) in
      (rw d (rw t (rw same safe)), rw b (rw same plain))
]

-- For a type of at least four bits, hex_to_integer_safe reads `n` exactly from a text of hexadecimal
-- digits that stands for `n`, where `n` fits the type, and hex_to_integer reads the same from it.
pub hex_to_integer_safe_accepts :
    (w : ℕ) (str : List ℕ) (n : ℕ)
    → 4 ≤ w
    → (hex_to_integer_safe w str ≡ ok n) ↔ (
        (all is_hex_digit str ≡ true)
        × (hex_value 0 str ≡ n)
        × (n < 2 ^ w)
        × (hex_to_integer w str ≡ n))
unfolding Fits
hex_to_integer_safe_accepts w str n p = (
  λ h.
      (let (a, e, l) = safe_from-Fits w 0 str n p (one-le-pow w 2 (omega arith)) h in
        (a, e, l, (Fits-safe_from w 0 str n (a, e, l)).1)),
  λ (a, e, l, r). (Fits-safe_from w 0 str n (a, e, l)).0,
)
