-- ===== src/Misc/SafeIntegers.antt =====
-- Which texts to_integer and to_integer_safe of td/utils/misc.h accept for a signed type, and what
-- they read from them.
use mathlib.Core.Path.{subst}
use mathlib.Core.Bool.{false≢true}
use native.Mathlib.Nat.{mod-eq_of_lt, one-le-pow, pow-suc}
use tdutils.Base.{
  ap, arith, Bool, Bool-cases, false, if◌then◌else◌, inl, inr, is_ok, leb, leb→le, List, ok, refl,
  suc, sym, true, zero, ℕ, [], ◌%◌, ◌*◌, ◌-◌, ◌<◌, ◌==◌, ◌^◌, ◌↔◌, ◌∙◌, ◌∷◌, ◌≡◌, ◌≢◌, ◌≤◌,
}
use tdutils.Base.Equality.{is_same, is_same-eq, is_same_refl}
use tdutils.Misc.Integers.{
  max_value, minus, negsuc, pos, print_int, print_uint, read_digits, to_integer, to_integer_safe,
  with_sign, ℤ,
}
use tdutils.Misc.Chars.{is_digit}
use tdutils.Misc.Decimal.{read_digits-print_uint}

-- The integers of a signed type of width `w`.
abbrev pub InRange : ℕ → ℤ → Type 0
InRange w (pos n) = n < 2 ^ (w - 1)
InRange w (negsuc n) = n < 2 ^ (w - 1)

two_halves : (w : ℕ) → 0 < w → 2 ^ w ≡ 2 * 2 ^ (w - 1)
two_halves zero p = omega (arith, p)
two_halves (suc w) p =
    (let e : suc w - 1 ≡ w = omega arith in omega (arith, pow-suc 2 w, ap (λ k. 2 ^ k) e))

half_pos : (w : ℕ) → 0 < 2 ^ (w - 1)
half_pos w = one-le-pow (w - 1) 2 (omega arith)

minus-InRange : (w n : ℕ) → n ≤ 2 ^ (w - 1) → InRange w (minus n)
unfolding minus
minus-InRange w zero h = half_pos w
minus-InRange w (suc n) h = h

signed :
    (w : ℕ) (sign : Bool) (x : ℕ)
    → x < 2 ^ (w - 1)
    → InRange w (if sign then pos x else minus x) × InRange w (if sign then minus x else pos x)
signed w true x h = (h, minus-InRange w x (omega arith))
signed w false x h = (minus-InRange w x (omega arith), h)

with_sign-InRange : (w : ℕ) (sign : Bool) (x : ℕ) → InRange w (with_sign w sign x)
unfolding with_sign
with_sign-InRange w sign x =
    let half = half_pos w in
    let inverse = (2 ^ w - x) % 2 ^ w in
    elim (Bool-cases (leb x (max_value w))) [
      | inl t ↦ let h = leb→le x (max_value w) t in rw t ((signed w sign x (omega arith)).1)
      | inr t ↦ elim (Bool-cases (leb inverse (max_value w))) [
        | inl u ↦
            let h = leb→le inverse (max_value w) u in
            rw t (rw u ((signed w sign inverse (omega arith)).0))
        | inr u ↦ rw t (rw u (minus-InRange w (2 ^ (w - 1)) (omega arith)))
      ]
    ]

with_sign-pos : (w n : ℕ) → n < 2 ^ (w - 1) → with_sign w false n ≡ pos n
unfolding with_sign
with_sign-pos w n h = ground arith

with_sign-negsuc : (w n : ℕ) → 0 < w → n < 2 ^ (w - 1) → with_sign w true (suc n) ≡ negsuc n
unfolding with_sign minus
with_sign-negsuc w n p h =
    let half = half_pos w in
    let twice = two_halves w p in
    elim (Bool-cases (leb (suc n) (max_value w))) [
      | inl t ↦ rw t refl
      | inr t ↦
          let more : 2 ^ (w - 1) ≤ suc n = ground arith in
          let e : 2 ^ (w - 1) ≡ suc n = omega arith in
          let m : (2 ^ w - suc n) % 2 ^ w ≡ suc n =
            (let d : 2 ^ w - suc n ≡ suc n = omega arith in rw d (mod-eq_of_lt (omega arith))) in
          let k : leb (suc n) (max_value w) ≡ false = t in rw t (rw m (rw t (ap minus e)))
    ]

to_integer-InRange : (w : ℕ) (str : List ℕ) → InRange w (to_integer w str)
unfolding to_integer
to_integer-InRange w [] = with_sign-InRange w false 0
to_integer-InRange w (c ∷ str) = elim (Bool-cases (c == b'-')) [
  | inl t ↦ rw t (with_sign-InRange w true (read_digits w 0 str))
  | inr t ↦ rw t (with_sign-InRange w false (read_digits w 0 (c ∷ str)))
]

read_digits-dash : (w c : ℕ) (str : List ℕ) → (c == b'-') ≡ true → read_digits w 0 (c ∷ str) ≡ 0
unfolding read_digits is_digit
read_digits-dash w c str t = ground arith

read_digits-nil : (w : ℕ) → read_digits w 0 [] ≡ 0
unfolding read_digits
read_digits-nil w = refl

to_integer-dash :
    (w : ℕ) (str : List ℕ) → to_integer w (b'-' ∷ str) ≡ with_sign w true (read_digits w 0 str)
unfolding to_integer
to_integer-dash w str = refl

nonzero : {x n : ℕ} → x ≡ suc n → x ≢ 0
nonzero e z = omega (arith, e, z)

to_integer-unsigned :
    (w n : ℕ) (str : List ℕ)
    → read_digits w 0 str ≡ suc n
    → to_integer w str ≡ with_sign w false (suc n)
unfolding to_integer
to_integer-unsigned w n [] e = elim (nonzero e (read_digits-nil w)) [ ]
to_integer-unsigned w n (c ∷ str) e = elim (Bool-cases (c == b'-')) [
  | inl t ↦ elim (nonzero e (read_digits-dash w c str t)) [ ]
  | inr t ↦ rw t (ap (with_sign w false) e)
]

print_uint-zero : print_uint 0 ≡ b'0' ∷ []
unfolding print_uint
print_uint-zero = refl

to_integer-zero : (w : ℕ) → to_integer w (b'0' ∷ []) ≡ with_sign w false (0 % 2 ^ w)
unfolding to_integer read_digits is_digit
to_integer-zero w = refl

to_integer-print_int : (w : ℕ) (n : ℤ) → 0 < w → InRange w n → to_integer w (print_int n) ≡ n
unfolding print_int
to_integer-print_int w (pos zero) p h =
    let twice = two_halves w p in
    let z : 0 % 2 ^ w ≡ 0 = mod-eq_of_lt (omega arith) in
    rw print_uint-zero (to_integer-zero w ∙ rw z (with_sign-pos w 0 h))
to_integer-print_int w (pos (suc n)) p h =
    let twice = two_halves w p in
    to_integer-unsigned w n (print_uint (suc n)) (read_digits-print_uint w (suc n) (omega arith))
    ∙ with_sign-pos w (suc n) h
to_integer-print_int w (negsuc n) p h =
    let twice = two_halves w p in
    to_integer-dash w (print_uint (suc n))
    ∙ ap (with_sign w true) (read_digits-print_uint w (suc n) (omega arith))
    ∙ with_sign-negsuc w n p h

-- to_integer_safe reads a text exactly when it is what the printer writes for an integer of the
-- type, and then reads this integer.
pub to_integer_safe_accepts :
    (w : ℕ) (str : List ℕ) (n : ℤ)
    → 0 < w
    → (to_integer_safe w str ≡ ok n) ↔ (InRange w n × (print_int n ≡ str))
unfolding to_integer_safe
to_integer_safe_accepts w str n p = (
  λ h. elim (Bool-cases (is_same (print_int (to_integer w str)) str)) [
    | inl t ↦
        let e : to_integer w str ≡ n = (let k = rw t at h in cc) in
        (
          subst (InRange w) e (to_integer-InRange w str),
          ap print_int (sym e) ∙ is_same-eq (print_int (to_integer w str)) str t,
        )
    | inr t ↦ elim (false≢true (ap is_ok (rw t at h))) [ ]
  ],
  λ (r, e).
      subst (λ s. to_integer_safe w s ≡ ok n) e
        (rw (to_integer-print_int w n p r) (rw (is_same_refl (print_int n)) refl)),
)
