-- ===== src/Misc/Decimal.antt =====
-- What the loop of to_integer in td/utils/misc.h reads from the digits that print_uint in
-- td/utils/StringBuilder.cpp writes.
use native.Mathlib.Nat.{mod-eq_of_lt}
use mathlib.Core.List.{reverse_aux}
use tdutils.Base.{
  ap, arith, Bool-cases, inl, inr, List, ltb, ltb→ge, ltb→lt, refl, suc, true, zero, ℕ, [], ◌%◌,
  ◌*◌, ◌+◌, ◌-◌, ◌/◌, ◌<◌, ◌^◌, ◌∙◌, ◌∷◌, ◌≡◌,
}
use tdutils.Misc.Integers.{last_digits, print_uint, read_digits}
use tdutils.Misc.Chars.{is_digit}

-- The digit that the loop reads next, when no wrap-around is needed.
read_digits-digit :
    (w x : ℕ) (s : List ℕ)
    → x < 2 ^ w
    → read_digits w (x / 10) ((b'0' + x % 10) ∷ s) ≡ read_digits w x s
unfolding read_digits is_digit
read_digits-digit w x s h =
    let m : ((x / 10) * 10 + ((b'0' + x % 10) - b'0')) % 2 ^ w ≡ x =
      (let e : (x / 10) * 10 + ((b'0' + x % 10) - b'0') ≡ x = omega arith in
        rw e (mod-eq_of_lt h)) in
    let d : is_digit (b'0' + x % 10) ≡ true = ground arith in rw d (rw m refl)

read_digits-last_digits :
    (w fuel x : ℕ) (s : List ℕ)
    → x < 2 ^ w
    → x < fuel
    → read_digits w 0 (reverse_aux (last_digits fuel x) s) ≡ read_digits w x s
unfolding last_digits
read_digits-last_digits w zero x s h k = omega (arith, k)
read_digits-last_digits w (suc fuel) x s h k =
    let next = read_digits-digit w x s h in
    elim (Bool-cases (ltb 0 (x / 10))) [
      | inl t ↦
          let p = ltb→lt 0 (x / 10) t in
          rw t (
            read_digits-last_digits w fuel (x / 10) ((b'0' + x % 10) ∷ s) (omega arith)
              (omega arith)
            ∙ next)
      | inr t ↦
          let z : 0 ≡ x / 10 = (let g = ltb→ge 0 (x / 10) t in omega arith) in
          rw t (ap (λ q. read_digits w q ((b'0' + x % 10) ∷ s)) z ∙ next)
    ]

-- print_uint writes the digits that the loop reads.
pub read_digits-print_uint : (w x : ℕ) → x < 2 ^ w → read_digits w 0 (print_uint x) ≡ x
unfolding print_uint read_digits
read_digits-print_uint w x h = elim (Bool-cases (ltb x 100)) [
  | inr t ↦ rw t (read_digits-last_digits w (x + 1) x [] h (omega arith))
  | inl t ↦
      let less = ltb→lt x 100 t in
      elim (Bool-cases (ltb x 10)) [
        | inl u ↦
            let few = ltb→lt x 10 u in
            let z : 0 ≡ x / 10 = omega arith in
            let e : x ≡ x % 10 = omega arith in
            rw t (
              rw u (
                ap (λ d. read_digits w 0 ((b'0' + d) ∷ [])) e
                ∙ ap (λ q. read_digits w q ((b'0' + x % 10) ∷ [])) z
                ∙ read_digits-digit w x [] h))
        | inr u ↦
            let more = ltb→ge x 10 u in
            let z : 0 ≡ (x / 10) / 10 = omega arith in
            let e : x / 10 ≡ (x / 10) % 10 = omega arith in
            let last = (b'0' + x % 10) ∷ [] in
            rw t (
              rw u (
                ap (λ d. read_digits w 0 ((b'0' + d) ∷ last)) e
                ∙ ap (λ q. read_digits w q ((b'0' + (x / 10) % 10) ∷ last)) z
                ∙ read_digits-digit w (x / 10) last (omega arith)
                ∙ read_digits-digit w x [] h))
      ]
]
