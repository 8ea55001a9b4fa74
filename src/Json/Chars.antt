-- ===== src/Json/Chars.antt =====
-- The escapes of JsonOneChar and JsonChar (td/utils/JsonBuilder.h) under json_string_decode
-- (td/utils/JsonBuilder.cpp).
use mathlib.Core.Option.{none-ne-some, some-injective}
use tdutils.Base.{
  ap, arith, bit_and, Bool-cases, false, inl, inr, leb, List, ltb, ok, refl, some, suc, true, ℕ, [],
  ◌%◌, ◌++◌, ◌+◌, ◌-◌, ◌/◌, ◌<◌, ◌>>=◌, ◌^◌, ◌∙◌, ◌∷◌, ◌≡◌, ◌≤◌,
}
use tdutils.Base.Bits.{bit_and-low, bit_or-disjoint}
use tdutils.Json.Chunks.{
  hex_four-nibbles, nibbles, nibbles-Transparent, ReadAs, Transparent, Transparent-append,
  Transparent-escape,
}
use tdutils.Json.Escapes.{
  is_surrogate, json_char, json_code_units, json_one_char, low_half, pair_up, read_escape,
  simple_escape, unicode,
}
use tdutils.Json.Strings.{unescape}

pub json_one_char-Transparent : (c : ℕ) → c < 2 ^ 16 → Transparent (json_one_char c)
unfolding json_one_char nibbles
json_one_char-Transparent c h =
    Transparent-append (b'\\' ∷ b'u' ∷ []) (nibbles c) (Transparent-escape b'u')
      (nibbles-Transparent c h)

unescape_u :
    (text : List ℕ) (num n : ℕ)
    → unicode text ≡ ok (num, n)
    → unescape 0 (b'\\' ∷ b'u' ∷ text)
      ≡ (unescape n text >>= λ more. ok (json_code_units num ++ more))
unfolding unescape read_escape simple_escape
unescape_u text num n e =
    let w : n + 1 ≡ suc n = omega arith in rw (e, unescape, read_escape, w) refl

pub json_one_char-ReadAs :
    (c : ℕ) → c < 2 ^ 16 → is_surrogate c ≡ false → ReadAs (json_one_char c) (json_code_units c)
unfolding ReadAs json_one_char nibbles unicode unescape
json_one_char-ReadAs c h p u =
    let e : unicode (nibbles c ++ u) ≡ ok (c, 4) = rw (hex_four-nibbles c u h, p, unicode) refl in
    unescape_u (nibbles c ++ u) c 4 e

-- Two surrogates in a row.
pair_of : ℕ → List ℕ
pair_of num = json_one_char (0xD7C0 + num / 2 ^ 10) ++ json_one_char (0xDC00 + bit_and num 0x3FF)

pair-Transparent : (num : ℕ) → num < 0x110000 → Transparent (pair_of num)
unfolding pair_of
pair-Transparent num h =
    Transparent-append _ _ (json_one_char-Transparent (0xD7C0 + num / 2 ^ 10) (omega arith))
      (json_one_char-Transparent (0xDC00 + bit_and num 0x3FF) (omega (arith, bit_and-low 10 num)))

pair_up-halves :
    (num : ℕ)
    → 0x10000 ≤ num
    → num < 0x110000
    → pair_up (0xD7C0 + num / 2 ^ 10) (0xDC00 + bit_and num 0x3FF) ≡ (num, 10)
unfolding pair_up
pair_up-halves num l h =
    let hi : bit_and (0xD7C0 + num / 2 ^ 10) 0x3FF ≡ num / 2 ^ 10 - 64 =
      bit_and-low 10 (0xD7C0 + num / 2 ^ 10) ∙ omega arith in
    let low : bit_and num 0x3FF ≡ num % 2 ^ 10 = bit_and-low 10 num in
    let lo : bit_and (0xDC00 + num % 2 ^ 10) 0x3FF ≡ num % 2 ^ 10 =
      bit_and-low 10 (0xDC00 + num % 2 ^ 10) ∙ omega arith in
    let second : is_surrogate (0xDC00 + num % 2 ^ 10) ≡ true = ground arith in
    rw
      (
        low,
        second,
        hi,
        lo,
        pair_up,
        bit_or-disjoint 10 (num / 2 ^ 10 - 64) (num % 2 ^ 10) (omega arith),
      )
      (ap (λ n. (n, 10)) (omega arith))

low_half-nibbles :
    (num new_num : ℕ) (u : List ℕ)
    → new_num < 2 ^ 16
    → low_half num (b'\\' ∷ b'u' ∷ (nibbles new_num ++ u)) ≡ ok (pair_up num new_num)
unfolding low_half nibbles
low_half-nibbles num new_num u h =
    ap (λ r. r >>= λ n. ok (pair_up num n)) (hex_four-nibbles new_num u h)

unicode-pair :
    (num : ℕ) (u : List ℕ)
    → 0x10000 ≤ num
    → num < 0x110000
    → unicode (
        nibbles (0xD7C0 + num / 2 ^ 10)
        ++ (b'\\' ∷ b'u' ∷ (nibbles (0xDC00 + bit_and num 0x3FF) ++ u)))
      ≡ ok (num, 10)
unfolding unicode nibbles
unicode-pair num u l h =
    let lo = 0xDC00 + bit_and num 0x3FF in
    let text = b'\\' ∷ b'u' ∷ (nibbles lo ++ u) in
    let first : is_surrogate (0xD7C0 + num / 2 ^ 10) ≡ true = ground arith in
    rw (hex_four-nibbles (0xD7C0 + num / 2 ^ 10) text (omega arith), first, unicode)
      (low_half-nibbles (0xD7C0 + num / 2 ^ 10) lo u (omega (arith, bit_and-low 10 num))
        ∙ ap ok (pair_up-halves num l h))

pair-ReadAs :
    (num : ℕ) → 0x10000 ≤ num → num < 0x110000 → ReadAs (pair_of num) (json_code_units num)
unfolding ReadAs pair_of json_one_char nibbles unescape
pair-ReadAs num l h u =
    let lo = 0xDC00 + bit_and num 0x3FF in
    unescape_u (nibbles (0xD7C0 + num / 2 ^ 10) ++ (b'\\' ∷ b'u' ∷ (nibbles lo ++ u))) num 10
      (unicode-pair num u l h)

-- What JsonChar prints is read as the code units of the character.
pub json_char-Chunk :
    (num : ℕ) (out : List ℕ)
    → json_char num ≡ some out
    → Transparent out × ReadAs out (json_code_units num)
unfolding json_char pair_of
json_char-Chunk num out e = elim (Bool-cases (ltb num 0x10000)) [
  | inl small ↦ elim (Bool-cases (is_surrogate num)) [
    | inl bad ↦ absurd (none-ne-some _ (rw (small, bad, json_char) at e))
    | inr good ↦
        let w : json_one_char num ≡ out = some-injective _ _ (rw (small, good, json_char) at e) in
        rw (← w) (
          json_one_char-Transparent num (ground arith),
          json_one_char-ReadAs num (ground arith) good,
        )
  ]
  | inr big ↦ elim (Bool-cases (leb num 0x10ffff)) [
    | inl in_bounds ↦
        let w : pair_of num ≡ out = some-injective _ _ (rw (big, in_bounds, json_char) at e) in
        rw (← w)
          (pair-Transparent num (ground arith), pair-ReadAs num (ground arith) (ground arith))
    | inr beyond ↦ absurd (none-ne-some _ (rw (big, beyond, json_char) at e))
  ]
]
