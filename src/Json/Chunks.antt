-- ===== src/Json/Chunks.antt =====
-- What json_string_decode makes of one character that JsonOneChar or JsonChar printed
-- (td/utils/JsonBuilder.h and td/utils/JsonBuilder.cpp).
use tdutils.Base.{
  ap, append_assoc, arith, bit_and, error, false, List, none, not, ok, Option, refl, Result, some,
  sym, true, ℕ, [], ◌%◌, ◌&&◌, ◌*◌, ◌++◌, ◌+◌, ◌/◌, ◌<◌, ◌==◌, ◌>>=◌, ◌^◌, ◌∙◌, ◌∷◌, ◌≡◌,
}
use tdutils.Base.Bits.{bit_and-low, eq_at, holds_at, holds_below}
use tdutils.Json.Strings.{before, find_closing, unescape}
use tdutils.Misc.Chars.{hex_to_int}
use tdutils.Json.Escapes.{add_digit, hex_four, read_escape, simple_escape}
use tdutils.Misc.Hex.{at_index, hex_digits}

-- The search for the closing quote passes over the text.
unfoldable pub Transparent : List ℕ → Type 0
Transparent out = (u : List ℕ) → find_closing (out ++ u) ≡ before out (find_closing u)

-- The text is read as these bytes, whatever follows.
unfoldable pub ReadAs : List ℕ → List ℕ → Type 0
ReadAs out bytes =
    (u : List ℕ) → unescape 0 (out ++ u) ≡ (unescape 0 u >>= λ more. ok (bytes ++ more))

before-before :
    (a b : List ℕ) (o : Option (List ℕ × List ℕ)) → before a (before b o) ≡ before (a ++ b) o
before-before a b none = refl
before-before a b (some (s, text)) = ap (λ t. some (t, text)) (sym (append_assoc a b s))

before-nil : (o : Option (List ℕ × List ℕ)) → o ≡ before [] o
before-nil none = refl
before-nil (some (s, text)) = refl

pub Transparent-nil : Transparent []
unfolding Transparent
Transparent-nil u = before-nil (find_closing u)

pub Transparent-append : (a b : List ℕ) → Transparent a → Transparent b → Transparent (a ++ b)
unfolding Transparent
Transparent-append a b h k u =
    ap find_closing (append_assoc a b u)
    ∙ h (b ++ u)
    ∙ ap (before a) (k u)
    ∙ before-before a b (find_closing u)

pub Transparent-plain : (c : ℕ) → (c == b'"') ≡ false → (c == b'\\') ≡ false → Transparent (c ∷ [])
unfolding Transparent find_closing
Transparent-plain c p q [] = rw (p, find_closing) refl
Transparent-plain c p q (d ∷ u) = rw (p, q, find_closing) refl

pub Transparent-escape : (c : ℕ) → Transparent (b'\\' ∷ c ∷ [])
unfolding Transparent find_closing
Transparent-escape c u = refl

ReadAs-step :
    (a b : List ℕ) (r : Result (List ℕ))
    → ((r >>= λ more. ok (b ++ more)) >>= λ more. ok (a ++ more))
      ≡ (r >>= λ more. ok ((a ++ b) ++ more))
ReadAs-step a b (error m) = refl
ReadAs-step a b (ok s) = ap ok (sym (append_assoc a b s))

same_result : (r : Result (List ℕ)) → r ≡ (r >>= λ more. ok ([] ++ more))
same_result (error m) = refl
same_result (ok s) = refl

pub ReadAs-nil : ReadAs [] []
unfolding ReadAs
ReadAs-nil u = same_result (unescape 0 u)

pub ReadAs-append : (a b p q : List ℕ) → ReadAs a p → ReadAs b q → ReadAs (a ++ b) (p ++ q)
unfolding ReadAs
ReadAs-append a b p q h k u =
    ap (unescape 0) (append_assoc a b u)
    ∙ h (b ++ u)
    ∙ ap (λ r. r >>= λ more. ok (p ++ more)) (k u)
    ∙ ReadAs-step p q (unescape 0 u)

pub ReadAs-plain : (c : ℕ) → (c == b'\\') ≡ false → ReadAs (c ∷ []) (c ∷ [])
unfolding ReadAs unescape
ReadAs-plain c q u = rw (q, unescape) refl

pub ReadAs-escape : (c d : ℕ) → simple_escape c ≡ some d → ReadAs (b'\\' ∷ c ∷ []) (d ∷ [])
unfolding ReadAs unescape read_escape
ReadAs-escape c d e u = rw (e, unescape, read_escape) refl

-- The digits of a code below 2 ^ 16.
digit_table : holds_below 16 (λ k. hex_to_int (at_index hex_digits k) == k) ≡ true
unfolding holds_below hex_to_int
digit_table = refl

plain_table :
    holds_below 16
      (λ k. not (at_index hex_digits k == b'"') && not (at_index hex_digits k == b'\\'))
    ≡ true
unfolding holds_below
plain_table = refl

hex_digit : (k : ℕ) → k < 16 → hex_to_int (at_index hex_digits k) ≡ k
hex_digit = eq_at 16 _ _ digit_table

digit-Transparent : (k : ℕ) → k < 16 → Transparent (at_index hex_digits k ∷ [])
digit-Transparent k h =
    let t =
      holds_at 16 (λ k. not (at_index hex_digits k == b'"') && not (at_index hex_digits k == b'\\'))
        plain_table k h in
    Transparent-plain (at_index hex_digits k) (ground arith) (ground arith)

add_digit-hex : (n k c : ℕ) → hex_to_int c ≡ k → k < 16 → add_digit (ok n) c ≡ ok (n * 16 + k)
unfolding add_digit
add_digit-hex n k c e h = ground arith

unfoldable pub nibbles : ℕ → List ℕ
nibbles c =
    at_index hex_digits (c / 2 ^ 12)
    ∷ at_index hex_digits (bit_and (c / 2 ^ 8) 15)
    ∷ at_index hex_digits (bit_and (c / 2 ^ 4) 15)
    ∷ at_index hex_digits (bit_and c 15)
    ∷ []

pub hex_four-nibbles : (c : ℕ) (u : List ℕ) → c < 2 ^ 16 → hex_four (nibbles c ++ u) ≡ ok c
unfolding hex_four nibbles
hex_four-nibbles c u h =
    rw
      (
        bit_and-low 4 (c / 2 ^ 8),
        bit_and-low 4 (c / 2 ^ 4),
        bit_and-low 4 c,
        add_digit-hex 0 (c / 2 ^ 12) _ (hex_digit (c / 2 ^ 12) (omega arith)) (omega arith),
        add_digit-hex _ (c / 2 ^ 8 % 16) _ (hex_digit (c / 2 ^ 8 % 16) (omega arith)) (omega arith),
        add_digit-hex _ (c / 2 ^ 4 % 16) _ (hex_digit (c / 2 ^ 4 % 16) (omega arith)) (omega arith),
        add_digit-hex _ (c % 16) _ (hex_digit (c % 16) (omega arith)) (omega arith),
      )
      (ap ok (omega arith))

pub nibbles-Transparent : (c : ℕ) → c < 2 ^ 16 → Transparent (nibbles c)
unfolding nibbles
nibbles-Transparent c h =
    let low : (x : ℕ) → bit_and x 15 < 16 = λ x. omega (arith, bit_and-low 4 x) in
    Transparent-append _ _ (digit-Transparent (c / 2 ^ 12) (omega arith)) (
      Transparent-append _ _ (digit-Transparent _ (low (c / 2 ^ 8))) (
        Transparent-append _ _ (digit-Transparent _ (low (c / 2 ^ 4)))
          (digit-Transparent _ (low c))))
