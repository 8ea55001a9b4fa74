-- ===== src/Utf8/Accepts.antt =====
-- check_utf8 on what append_utf8_character writes (td/utils/utf8.cpp).
use tdutils.Base.{
  ap, arith, bit_and, bit_or, Bool, Bool-cases, false, if◌then◌else◌, inl, inr, leb, leb→le, List,
  ltb, none, refl, some, true, ℕ, [], ◌%◌, ◌&&◌, ◌++◌, ◌/◌, ◌<◌, ◌==◌, ◌^◌, ◌||◌, ◌∙◌, ◌∷◌, ◌≡◌,
  ◌≤◌,
}
use tdutils.Base.Bits.{bit_and-low, holds_at, holds_below}
use tdutils.Utf8.Check.{character_size, check_from, check_utf8, is_continuation}
use tdutils.Utf8.{append_utf8_character, utf8_code_units}
use tdutils.Utf8.Sizes.{
  continuations, four_allowed, four_sizes, three_allowed, three_sizes, two_sizes,
}

-- The characters of Unicode: codes up to 0x10ffff without the surrogates.
abbrev pub is_scalar : ℕ → Bool
is_scalar ch = (ltb ch 0xd800 || ltb 0xdfff ch) && ltb ch 0x110000

low_bits : (x : ℕ) → bit_and x 0x3f ≡ x % 64
low_bits x = bit_and-low 6 x

continues : (y : ℕ) → y < 64 → is_continuation (bit_or 0x80 y % 2 ^ 8) ≡ true
continues y h = holds_at 64 (λ y. is_continuation (bit_or 0x80 y % 2 ^ 8)) continuations y h

-- One round of the loop on a lead with a continuation.
round_of :
    (a b : ℕ) (rest : List ℕ) (p : Bool) (k : ℕ)
    → character_size a (b ∷ rest) ≡ (if p then some k else none)
    → check_from 0 (a ∷ b ∷ rest) ≡ (p && check_from k (b ∷ rest))
unfolding check_from
round_of a b rest true k e = rw (e, check_from) refl
round_of a b rest false k e = rw (e, check_from) refl

check_two :
    (ch : ℕ) (s : List ℕ)
    → 0x80 ≤ ch
    → ch ≤ 0x7ff
    → check_from 0 (bit_or 0xc0 (ch / 2 ^ 6) % 2 ^ 8 ∷ bit_or 0x80 (bit_and ch 0x3f) % 2 ^ 8 ∷ s)
      ≡ (is_scalar ch && check_from 0 s)
unfolding check_from
check_two ch s l h = rw (low_bits ch) (
    round_of _ _ s (leb 0x80 ch) 1 (two_sizes ch s (omega arith))
    ∙ ap (λ p. p && check_from 0 s) (ground arith))

check_three :
    (ch : ℕ) (s : List ℕ)
    → 0x800 ≤ ch
    → ch ≤ 0xffff
    → check_from 0 (
        bit_or 0xe0 (ch / 2 ^ 12) % 2 ^ 8
        ∷ bit_or 0x80 (bit_and (ch / 2 ^ 6) 0x3f) % 2 ^ 8
        ∷ bit_or 0x80 (bit_and ch 0x3f) % 2 ^ 8
        ∷ s)
      ≡ (is_scalar ch && check_from 0 s)
unfolding check_from three_allowed
check_three ch s l h =
    let c = bit_or 0x80 (ch % 64) % 2 ^ 8 in
    let e : ch / 2 ^ 12 ≡ ch / 2 ^ 6 / 64 = omega arith in
    rw (low_bits ch, low_bits (ch / 2 ^ 6), e)
      (round_of _ _ (c ∷ s) (three_allowed (ch / 2 ^ 6)) 2
          (three_sizes (ch / 2 ^ 6) c s (omega arith) (continues (ch % 64) (omega arith)))
        ∙ ap (λ p. p && check_from 0 s) (ground arith))

check_four :
    (ch : ℕ) (s : List ℕ)
    → 0x10000 ≤ ch
    → ch < 2 ^ 21
    → check_from 0 (
        bit_or 0xf0 (ch / 2 ^ 18) % 2 ^ 8
        ∷ bit_or 0x80 (bit_and (ch / 2 ^ 12) 0x3f) % 2 ^ 8
        ∷ bit_or 0x80 (bit_and (ch / 2 ^ 6) 0x3f) % 2 ^ 8
        ∷ bit_or 0x80 (bit_and ch 0x3f) % 2 ^ 8
        ∷ s)
      ≡ (is_scalar ch && check_from 0 s)
unfolding check_from four_allowed
check_four ch s l h =
    let c = bit_or 0x80 (ch / 2 ^ 6 % 64) % 2 ^ 8 in
    let d = bit_or 0x80 (ch % 64) % 2 ^ 8 in
    let e : ch / 2 ^ 18 ≡ ch / 2 ^ 12 / 64 = omega arith in
    rw (low_bits ch, low_bits (ch / 2 ^ 6), low_bits (ch / 2 ^ 12), e)
      (round_of _ _ (c ∷ d ∷ s) (four_allowed (ch / 2 ^ 12)) 3 (
          four_sizes (ch / 2 ^ 12) c d s (omega arith) (continues (ch / 2 ^ 6 % 64) (omega arith))
            (continues (ch % 64) (omega arith)))
        ∙ ap (λ p. p && check_from 0 s) (ground arith))

-- A code unit below 0x80.
ascii_table : holds_below 128 (λ x. bit_and x 0x80 == 0) ≡ true
unfolding holds_below
ascii_table = refl

check_one : (ch b : ℕ) (s : List ℕ) → ch < 128 → check_from 0 (ch ∷ b ∷ s) ≡ check_from 0 (b ∷ s)
unfolding check_from character_size
check_one ch b s h =
    rw (holds_at 128 (λ x. bit_and x 0x80 == 0) ascii_table ch h, check_from, character_size) refl

check_one_end :
    (ch : ℕ) (s : List ℕ) → ch < 128 → check_from 0 (ch ∷ s ++ 0 ∷ []) ≡ check_from 0 (s ++ 0 ∷ [])
check_one_end ch [] h = check_one ch 0 [] h
check_one_end ch (b ∷ s) h = check_one ch b (s ++ 0 ∷ []) h

-- check_utf8 lets pass the code units that append_utf8_character writes for a code below 2 ^ 21,
-- followed by any text, exactly when the code is a character of Unicode, that is no surrogate and
-- not above 0x10ffff, and the text passes.
pub check_utf8-append :
    (ch : ℕ) (s : List ℕ)
    → ch < 2 ^ 21
    → check_utf8 (append_utf8_character [] ch ++ s) ≡ (is_scalar ch && check_utf8 s)
unfolding check_utf8 append_utf8_character utf8_code_units
check_utf8-append ch s h = elim (Bool-cases (leb ch 0x7f)) [
  | inl a ↦
      rw (a, utf8_code_units, append_utf8_character)
        (check_one_end ch s (omega (arith, leb→le ch 0x7f a))
          ∙ ap (λ p. p && check_from 0 (s ++ 0 ∷ [])) {x = true} {y = is_scalar ch} (ground arith))
  | inr a ↦ elim (Bool-cases (leb ch 0x7ff)) [
    | inl b ↦
        rw (a, b, utf8_code_units, append_utf8_character)
          (check_two ch (s ++ 0 ∷ []) (ground arith) (ground arith))
    | inr b ↦ elim (Bool-cases (leb ch 0xffff)) [
      | inl c ↦
          rw (a, b, c, utf8_code_units, append_utf8_character)
            (check_three ch (s ++ 0 ∷ []) (ground arith) (ground arith))
      | inr c ↦
          rw (a, b, c, utf8_code_units, append_utf8_character)
            (check_four ch (s ++ 0 ∷ []) (ground arith) h)
    ]
  ]
]
