-- ===== src/Utf8/RoundTrip.antt =====
-- append_utf8_character and next_utf8_unsafe of td/utils/utf8.cpp, one after the other.
-- The code units by their payload, over every value of it.
use mathlib.Core.Path.{ap₂}
use tdutils.Base.{
  ap, arith, bit_and, bit_or, Bool, Bool-cases, false, if◌then◌else◌, inl, inr, leb, leb→le, List,
  not, refl, some, true, ℕ, ==_iff, [], ◌%◌, ◌&&◌, ◌*◌, ◌++◌, ◌+◌, ◌/◌, ◌<◌, ◌==◌, ◌^◌, ◌∙◌, ◌∷◌,
  ◌≡◌,
}
use tdutils.Base.Bits.{bit_and-low, bit_or-add, bit_or-disjoint, eq_at, holds_at, holds_below}
use tdutils.Utf8.{
  append_utf8_character, four_units, next_utf8_unsafe, three_units, two_units, utf8_code_units,
}

continuation_table : holds_below 64 (λ y. bit_and (bit_or 0x80 y % 2 ^ 8) 0x3f == y) ≡ true
unfolding holds_below
continuation_table = refl

single_table : holds_below 128 (λ x. if bit_and x 0x80 == 0 then true else false) ≡ true
unfolding holds_below
single_table = refl

lead_of_two : ℕ → Bool
lead_of_two x =
    let a = bit_or 0xc0 x % 2 ^ 8 in
    not (bit_and a 0x80 == 0) && (bit_and a 0x20 == 0) && (bit_and a 0x1f == x)

lead_of_three : ℕ → Bool
lead_of_three x =
    let a = bit_or 0xe0 x % 2 ^ 8 in
    not (bit_and a 0x80 == 0)
    && not (bit_and a 0x20 == 0)
    && (bit_and a 0x10 == 0)
    && (bit_and a 0x0f == x)

lead_of_four : ℕ → Bool
lead_of_four x =
    let a = bit_or 0xf0 x % 2 ^ 8 in
    not (bit_and a 0x80 == 0)
    && not (bit_and a 0x20 == 0)
    && not (bit_and a 0x10 == 0)
    && (bit_and a 0x08 == 0)
    && (bit_and a 0x07 == x)

two_table : holds_below 32 lead_of_two ≡ true
unfolding holds_below lead_of_two
two_table = refl

three_table : holds_below 16 lead_of_three ≡ true
unfolding holds_below lead_of_three
three_table = refl

four_table : holds_below 8 lead_of_four ≡ true
unfolding holds_below lead_of_four
four_table = refl

payload : (x : ℕ) → bit_and (bit_or 0x80 (bit_and x 0x3f) % 2 ^ 8) 0x3f ≡ x % 64
payload x =
    let low = bit_and-low 6 x in
    let bound : bit_and x 0x3f < 64 = omega (arith, low) in
    eq_at 64 (λ y. bit_and (bit_or 0x80 y % 2 ^ 8) 0x3f) (λ y. y) continuation_table
      (bit_and x 0x3f) bound
    ∙ low

-- The fields of a character put together again.
pub join_two : (x y : ℕ) → y < 64 → bit_or (x * 2 ^ 6) y ≡ x * 64 + y
join_two x y h = bit_or-disjoint 6 x y h

pub join_three :
    (x y z : ℕ)
    → y < 64
    → z < 64
    → bit_or (bit_or (x * 2 ^ 12) (y * 2 ^ 6)) z ≡ x * 4096 + y * 64 + z
join_three x y z h k =
    ap (λ t. bit_or t z) (bit_or-disjoint 12 x (y * 2 ^ 6) (omega (arith, h)))
    ∙ bit_or-add 6 (x * 2 ^ 12 + y * 2 ^ 6) z (omega arith) k

pub join_four :
    (x y z w : ℕ)
    → y < 64
    → z < 64
    → w < 64
    → bit_or (bit_or (bit_or (x * 2 ^ 18) (y * 2 ^ 12)) (z * 2 ^ 6)) w
      ≡ x * 262144 + y * 4096 + z * 64 + w
join_four x y z w h k l =
    ap (λ t. bit_or (bit_or t (z * 2 ^ 6)) w) (bit_or-disjoint 18 x (y * 2 ^ 12) (omega (arith, h)))
    ∙ ap (λ t. bit_or t w)
        (bit_or-add 12 (x * 2 ^ 18 + y * 2 ^ 12) (z * 2 ^ 6) (omega arith) (omega (arith, k)))
    ∙ bit_or-add 6 (x * 2 ^ 18 + y * 2 ^ 12 + z * 2 ^ 6) w (omega arith) l

-- The tests of next_utf8_unsafe on a lead, one by one.
three_tests : (p q r : Bool) → (not p && q && r) ≡ true → (p ≡ false) × (q ≡ true) × (r ≡ true)
three_tests false true true e = (refl, refl, refl)
three_tests false true false e = cc
three_tests false false r e = cc
three_tests true q r e = cc

four_tests :
    (p q r s : Bool)
    → (not p && not q && r && s) ≡ true
    → (p ≡ false) × (q ≡ false) × (r ≡ true) × (s ≡ true)
four_tests false false true true e = (refl, refl, refl, refl)
four_tests false false true false e = cc
four_tests false false false s e = cc
four_tests false true r s e = cc
four_tests true q r s e = cc

five_tests :
    (p q r s t : Bool)
    → (not p && not q && not r && s && t) ≡ true
    → (p ≡ false) × (q ≡ false) × (r ≡ false) × (s ≡ true) × (t ≡ true)
five_tests false false false true true e = (refl, refl, refl, refl, refl)
five_tests false false false true false e = cc
five_tests false false false false t e = cc
five_tests false false true s t e = cc
five_tests false true r s t e = cc
five_tests true q r s t e = cc

next_two :
    (x : ℕ) (rest : List ℕ) (b : ℕ)
    → x < 32
    → next_utf8_unsafe (bit_or 0xc0 x % 2 ^ 8 ∷ b ∷ rest)
      ≡ some (bit_or (x * 2 ^ 6) (bit_and b 0x3f), rest)
unfolding next_utf8_unsafe two_units lead_of_two
next_two x rest b h =
    let a = bit_or 0xc0 x % 2 ^ 8 in
    let (p, q, r) =
      three_tests (bit_and a 0x80 == 0) (bit_and a 0x20 == 0) (bit_and a 0x1f == x)
        (holds_at 32 lead_of_two two_table x h) in
    rw (p, q, (==_iff (bit_and a 0x1f) x).0 r, next_utf8_unsafe) refl

next_three :
    (x : ℕ) (rest : List ℕ) (b c : ℕ)
    → x < 16
    → next_utf8_unsafe (bit_or 0xe0 x % 2 ^ 8 ∷ b ∷ c ∷ rest)
      ≡ some (bit_or (bit_or (x * 2 ^ 12) (bit_and b 0x3f * 2 ^ 6)) (bit_and c 0x3f), rest)
unfolding next_utf8_unsafe three_units lead_of_three
next_three x rest b c h =
    let a = bit_or 0xe0 x % 2 ^ 8 in
    let (p, q, r, s) =
      four_tests (bit_and a 0x80 == 0) (bit_and a 0x20 == 0) (bit_and a 0x10 == 0)
        (bit_and a 0x0f == x) (holds_at 16 lead_of_three three_table x h) in
    rw (p, q, r, (==_iff (bit_and a 0x0f) x).0 s, next_utf8_unsafe) refl

next_four :
    (x : ℕ) (rest : List ℕ) (b c d : ℕ)
    → x < 8
    → next_utf8_unsafe (bit_or 0xf0 x % 2 ^ 8 ∷ b ∷ c ∷ d ∷ rest)
      ≡ some (
        bit_or
            (bit_or (bit_or (x * 2 ^ 18) (bit_and b 0x3f * 2 ^ 12)) (bit_and c 0x3f * 2 ^ 6))
            (bit_and d 0x3f),
        rest,
      )
unfolding next_utf8_unsafe four_units lead_of_four
next_four x rest b c d h =
    let a = bit_or 0xf0 x % 2 ^ 8 in
    let (p, q, r, s, t) =
      five_tests (bit_and a 0x80 == 0) (bit_and a 0x20 == 0) (bit_and a 0x10 == 0)
        (bit_and a 0x08 == 0) (bit_and a 0x07 == x) (holds_at 8 lead_of_four four_table x h) in
    rw (p, q, r, s, (==_iff (bit_and a 0x07) x).0 t, next_utf8_unsafe) refl

is_single : (b : Bool) → (if b then true else false) ≡ true → b ≡ true
is_single true e = refl
is_single false e = cc

next_one : (ch : ℕ) (rest : List ℕ) → ch < 128 → next_utf8_unsafe (ch ∷ rest) ≡ some (ch, rest)
unfolding next_utf8_unsafe
next_one ch rest h =
    rw
      (
        is_single _
            (holds_at 128 (λ x. if bit_and x 0x80 == 0 then true else false) single_table ch h),
        next_utf8_unsafe,
      )
      refl

-- The code units that append_utf8_character writes for a code below 2 ^ 21 are read back as the code
-- by next_utf8_unsafe, which stops behind them.
pub next_utf8_unsafe-append :
    (ch : ℕ) (rest : List ℕ)
    → ch < 2 ^ 21
    → next_utf8_unsafe (append_utf8_character [] ch ++ rest) ≡ some (ch, rest)
unfolding append_utf8_character utf8_code_units
next_utf8_unsafe-append ch rest h = elim (Bool-cases (leb ch 0x7f)) [
  | inl a ↦
      rw (a, utf8_code_units, append_utf8_character)
        (next_one ch rest (omega (arith, leb→le ch 0x7f a)))
  | inr a ↦ elim (Bool-cases (leb ch 0x7ff)) [
    | inl b ↦
        rw (a, b, utf8_code_units, append_utf8_character)
          (next_two (ch / 2 ^ 6) rest (bit_or 0x80 (bit_and ch 0x3f) % 2 ^ 8)
              (omega (arith, leb→le ch 0x7ff b))
            ∙ ap (λ t. some (bit_or (ch / 2 ^ 6 * 2 ^ 6) t, rest)) (payload ch)
            ∙ ap (λ t. some (t, rest))
                (join_two (ch / 2 ^ 6) (ch % 64) (omega arith) ∙ omega arith))
    | inr b ↦ elim (Bool-cases (leb ch 0xffff)) [
      | inl c ↦
          rw (a, b, c, utf8_code_units, append_utf8_character)
            (next_three (ch / 2 ^ 12) rest (bit_or 0x80 (bit_and (ch / 2 ^ 6) 0x3f) % 2 ^ 8)
                (bit_or 0x80 (bit_and ch 0x3f) % 2 ^ 8) (omega (arith, leb→le ch 0xffff c))
              ∙ ap₂ (λ s t. some (bit_or (bit_or (ch / 2 ^ 12 * 2 ^ 12) (s * 2 ^ 6)) t, rest))
                  (payload (ch / 2 ^ 6)) (payload ch)
              ∙ ap (λ t. some (t, rest))
                  (join_three (ch / 2 ^ 12) (ch / 2 ^ 6 % 64) (ch % 64) (omega arith) (omega arith)
                    ∙ omega arith))
      | inr c ↦
          rw (a, b, c, utf8_code_units, append_utf8_character)
            (next_four (ch / 2 ^ 18) rest (bit_or 0x80 (bit_and (ch / 2 ^ 12) 0x3f) % 2 ^ 8)
                (bit_or 0x80 (bit_and (ch / 2 ^ 6) 0x3f) % 2 ^ 8)
                (bit_or 0x80 (bit_and ch 0x3f) % 2 ^ 8) (omega (arith, h))
              ∙ ap
                  (λ r. some (
                    bit_or
                        (bit_or (bit_or (ch / 2 ^ 18 * 2 ^ 18) (r * 2 ^ 12))
                          (bit_and (bit_or 0x80 (bit_and (ch / 2 ^ 6) 0x3f) % 2 ^ 8) 0x3f * 2 ^ 6))
                        (bit_and (bit_or 0x80 (bit_and ch 0x3f) % 2 ^ 8) 0x3f),
                    rest,
                  ))
                  (payload (ch / 2 ^ 12))
              ∙ ap₂
                  (λ s t. some (
                    bit_or
                        (bit_or (bit_or (ch / 2 ^ 18 * 2 ^ 18) (ch / 2 ^ 12 % 64 * 2 ^ 12))
                          (s * 2 ^ 6))
                        t,
                    rest,
                  ))
                  (payload (ch / 2 ^ 6)) (payload ch)
              ∙ ap (λ t. some (t, rest))
                  (join_four (ch / 2 ^ 18) (ch / 2 ^ 12 % 64) (ch / 2 ^ 6 % 64) (ch % 64)
                      (omega arith) (omega arith) (omega arith)
                    ∙ omega arith))
    ]
  ]
]
