-- ===== src/Utf8.antt =====
-- td/utils/utf8.h and td/utils/utf8.cpp: UTF-8 code units and characters.
-- A string is the list of its bytes; a pointer is the list of the bytes from it on, and `none` stands
-- for a read behind the end or for the LOG(FATAL).
pub mod RoundTrip
pub mod Check
pub mod Sizes
pub mod Accepts
mod Tests
use tdutils.Base.{
  bit_and, bit_or, Bool, false, if◌then◌else◌, leb, List, none, not, Option, some, true, ℕ, [], ◌%◌,
  ◌*◌, ◌++◌, ◌+◌, ◌/◌, ◌==◌, ◌^◌, ◌∷◌,
}

unfoldable pub is_utf8_character_first_code_unit : ℕ → Bool
is_utf8_character_first_code_unit c = not (bit_and c 0xC0 == 0x80)

unfoldable pub utf8_length : List ℕ → ℕ
utf8_length [] = 0
utf8_length (c ∷ str) = (if is_utf8_character_first_code_unit c then 1 else 0) + utf8_length str

unfoldable pub utf8_utf16_length : List ℕ → ℕ
utf8_utf16_length [] = 0
utf8_utf16_length (c ∷ str) =
    (if is_utf8_character_first_code_unit c then 1 else 0)
    + (if bit_and c 0xf8 == 0xf0 then 1 else 0)
    + utf8_utf16_length str

-- The code units that append_utf8_character pushes; `static_cast<char>` keeps the low byte.
unfoldable pub utf8_code_units : ℕ → List ℕ
utf8_code_units ch =
    if leb ch 0x7f
    then ch ∷ []
    else if leb ch 0x7ff
    then bit_or 0xc0 (ch / 2 ^ 6) % 2 ^ 8 ∷ bit_or 0x80 (bit_and ch 0x3f) % 2 ^ 8 ∷ []
    else if leb ch 0xffff
    then bit_or 0xe0 (ch / 2 ^ 12) % 2 ^ 8
      ∷ bit_or 0x80 (bit_and (ch / 2 ^ 6) 0x3f) % 2 ^ 8
      ∷ bit_or 0x80 (bit_and ch 0x3f) % 2 ^ 8
      ∷ []
    else bit_or 0xf0 (ch / 2 ^ 18) % 2 ^ 8
      ∷ bit_or 0x80 (bit_and (ch / 2 ^ 12) 0x3f) % 2 ^ 8
      ∷ bit_or 0x80 (bit_and (ch / 2 ^ 6) 0x3f) % 2 ^ 8
      ∷ bit_or 0x80 (bit_and ch 0x3f) % 2 ^ 8
      ∷ []

unfoldable pub append_utf8_character : List ℕ → ℕ → List ℕ
append_utf8_character str ch = str ++ utf8_code_units ch

unfoldable pub two_units : ℕ → List ℕ → Option (ℕ × List ℕ)
two_units a (b ∷ rest) = some (bit_or (bit_and a 0x1f * 2 ^ 6) (bit_and b 0x3f), rest)
two_units a _ = none

unfoldable pub three_units : ℕ → List ℕ → Option (ℕ × List ℕ)
three_units a (b ∷ c ∷ rest) =
    some (bit_or (bit_or (bit_and a 0x0f * 2 ^ 12) (bit_and b 0x3f * 2 ^ 6)) (bit_and c 0x3f), rest)
three_units a _ = none

unfoldable pub four_units : ℕ → List ℕ → Option (ℕ × List ℕ)
four_units a (b ∷ c ∷ d ∷ rest) = some (
  bit_or
      (bit_or (bit_or (bit_and a 0x07 * 2 ^ 18) (bit_and b 0x3f * 2 ^ 12)) (bit_and c 0x3f * 2 ^ 6))
      (bit_and d 0x3f),
  rest,
)
four_units a _ = none

-- The character at the pointer and the pointer behind it, by the first code unit.
unfoldable pub next_utf8_unsafe : List ℕ → Option (ℕ × List ℕ)
next_utf8_unsafe [] = none
next_utf8_unsafe (a ∷ rest) = elim (bit_and a 0x80 == 0) [
  | true ↦ some (a, rest)
  | false ↦ elim (bit_and a 0x20 == 0) [
    | true ↦ two_units a rest
    | false ↦ elim (bit_and a 0x10 == 0) [
      | true ↦ three_units a rest
      | false ↦ elim (bit_and a 0x08 == 0) [ true ↦ four_units a rest | false ↦ none ]
    ]
  ]
]
