-- ===== src/Json/Escapes.antt =====
-- Escapes in JSON strings: what JsonOneChar and JsonChar print (td/utils/JsonBuilder.h), and what
-- json_string_decode and json_string_skip read behind a backslash (td/utils/JsonBuilder.cpp).
use tdutils.Base.{
  bit_and, bit_or, Bool, drop, error, false, if◌then◌else◌, leb, List, ltb, none, ok, Option,
  Result, some, true, ℕ, [], ◌%◌, ◌&&◌, ◌*◌, ◌++◌, ◌+◌, ◌/◌, ◌==◌, ◌>>=◌, ◌^◌, ◌||◌, ◌∷◌,
}
use tdutils.Misc.Hex.{at_index, hex_digits}
use tdutils.Misc.Chars.{hex_to_int}

unfoldable pub json_one_char : ℕ → List ℕ
json_one_char c =
    b'\\'
    ∷ b'u'
    ∷ at_index hex_digits (c / 2 ^ 12)
    ∷ at_index hex_digits (bit_and (c / 2 ^ 8) 15)
    ∷ at_index hex_digits (bit_and (c / 2 ^ 4) 15)
    ∷ at_index hex_digits (bit_and c 15)
    ∷ []

abbrev pub is_surrogate : ℕ → Bool
is_surrogate num = ltb 0xD7FF num && ltb num 0xE000

-- `none` stands for UNREACHABLE.
unfoldable pub json_char : ℕ → Option (List ℕ)
json_char c =
    if ltb c 0x10000
    then (if is_surrogate c then none else some (json_one_char c))
    else if leb c 0x10ffff
    then some (json_one_char (0xD7C0 + c / 2 ^ 10) ++ json_one_char (0xDC00 + bit_and c 0x3FF))
    else none

-- `static_cast<char>` keeps the low byte.
unfoldable pub json_code_units : ℕ → List ℕ
json_code_units num =
    if ltb num 128
    then num ∷ []
    else if ltb num 0x800
    then (0xc0 + num / 2 ^ 6) % 2 ^ 8 ∷ (0x80 + bit_and num 63) % 2 ^ 8 ∷ []
    else if leb num 0xffff
    then (0xe0 + num / 2 ^ 12) % 2 ^ 8
      ∷ (0x80 + bit_and (num / 2 ^ 6) 63) % 2 ^ 8
      ∷ (0x80 + bit_and num 63) % 2 ^ 8
      ∷ []
    else (0xf0 + num / 2 ^ 18) % 2 ^ 8
      ∷ (0x80 + bit_and (num / 2 ^ 12) 63) % 2 ^ 8
      ∷ (0x80 + bit_and (num / 2 ^ 6) 63) % 2 ^ 8
      ∷ (0x80 + bit_and num 63) % 2 ^ 8
      ∷ []

-- One round of the loop over four hexadecimal digits.
unfoldable pub add_digit : Result ℕ → ℕ → Result ℕ
add_digit num c = num >>= λ n.
    if hex_to_int c == 16 then error "Invalid \\u -- not hex digit" else ok (n * 16 + hex_to_int c)

unfoldable pub hex_four : List ℕ → Result ℕ
hex_four (a ∷ b ∷ c ∷ d ∷ text) = add_digit (add_digit (add_digit (add_digit (ok 0) a) b) c) d
hex_four _ = error "\\u has less than 4 symbols"

-- A pair of surrogates is one character; with any other second symbol only the first is read.
unfoldable pub pair_up : ℕ → ℕ → ℕ × ℕ
pair_up num new_num =
    if is_surrogate new_num
    then (bit_or (bit_and num 0x3FF * 2 ^ 10) (bit_and new_num 0x3FF) + 0x10000, 10)
    else (num, 4)

-- The code, and the symbols read since `u`, where `num` is a surrogate.
unfoldable pub low_half : ℕ → List ℕ → Result (ℕ × ℕ)
low_half num (s ∷ u ∷ a ∷ b ∷ c ∷ d ∷ text) = elim (s == b'\\' && u == b'u') [
  | true ↦ hex_four (a ∷ b ∷ c ∷ d ∷ text) >>= λ new_num. ok (pair_up num new_num)
  | false ↦ ok (num, 4)
]
low_half num _ = ok (num, 4)

unfoldable pub unicode : List ℕ → Result (ℕ × ℕ)
unicode text =
    hex_four text >>= λ num. if is_surrogate num then low_half num (drop 4 text) else ok (num, 4)

unfoldable pub simple_escape : ℕ → Option ℕ
simple_escape c =
    if c == b'"' || c == b'\\' || c == b'/'
    then some c
    else if c == b'b'
    then some 8
    else if c == b'f'
    then some 12
    else if c == b'n'
    then some 10
    else if c == b'r'
    then some 13
    else if c == b't'
    then some 9
    else none

-- The `switch` of json_string_decode: what it writes, and the symbols that it reads. A symbol that no
-- case names is not read: the next round of the loop copies it.
unfoldable pub read_escape : List ℕ → Result (List ℕ × ℕ)
read_escape [] = error "Unexpected end of string"
read_escape (c ∷ text) = elim (simple_escape c) [
  | some d ↦ ok (d ∷ [], 1)
  | none ↦ elim (c == b'u') [
    | true ↦ unicode text >>= λ (num, n). ok (json_code_units num, n + 1)
    | false ↦ ok ([], 0)
  ]
]

-- The `switch` of json_string_skip.
unfoldable pub skip_escape : List ℕ → Result ℕ
skip_escape [] = error "Unexpected end of string"
skip_escape (c ∷ text) = elim (simple_escape c) [
  | some d ↦ ok 1
  | none ↦ elim (c == b'u') [ true ↦ unicode text >>= λ (num, n). ok (n + 1) | false ↦ ok 0 ]
]
