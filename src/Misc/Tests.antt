-- ===== src/Misc/Tests.antt =====
-- Runs of the helpers of misc.h and misc.cpp, and the theorems at concrete texts.
use tdutils.Base.{
  all, arith, false, is_ok, length, List, map, ok, refl, true, ℕ, [], ◌%◌, ◌&&◌, ◌<◌, ◌==◌, ◌^◌,
  ◌↔◌, ◌∷◌, ◌≡◌,
}
use tdutils.Base.Equality.{is_same}
use tdutils.Base.Text.{codes}
use tdutils.Misc.Hex.{
  hex_decode, hex_decode-accepts, hex_decode-hex_encode, hex_encode, hex_encode-hex_decode,
}
use tdutils.Misc.Chars.{hex_to_int, is_digit, is_hex_digit, to_lower}
use tdutils.Misc.RunLength.{
  count_run, is_zero, x_decode, x_decode-x_encode, x_encode, x_encode_from, zero_decode,
  zero_encode, zero_one_decode, zero_one_encode,
}
use tdutils.Misc.Integers.{
  last_digits, minus, negsuc, print_int, print_uint, read_digits, to_integer, to_integer_safe,
  with_sign,
}
use tdutils.Misc.SafeIntegers.{InRange, to_integer_safe_accepts}
use tdutils.Misc.Split.{begins_with, ends_with, full_split, full_split_loop, lpad0, split}
use tdutils.Misc.Parts.{full_split_correct, Parts}
use tdutils.Parser.{find_char}
use tdutils.Misc.HexNumbers.{
  hex_to_integer, hex_to_integer_from, hex_to_integer_safe, hex_to_integer_safe_accepts,
  hex_to_integer_safe_from, hex_value,
}

abbrev bytes : List ℕ
bytes = 0 ∷ 0x1f ∷ 0xab ∷ []

decode_upper : hex_decode (codes "001FaB") ≡ ok bytes
unfolding hex_decode hex_to_int
decode_upper = refl

hex_decode-hex_encode_example : hex_decode (hex_encode bytes) ≡ ok bytes
hex_decode-hex_encode_example = hex_decode-hex_encode bytes (omega arith)

hex_encode-hex_decode_example : hex_encode bytes ≡ map to_lower (codes "001FaB")
hex_encode-hex_decode_example =
    hex_encode-hex_decode (codes "001FaB") bytes (omega arith) decode_upper

hex_decode-accepts_example :
    is_ok (hex_decode (codes "0x1"))
    ≡ ((length (codes "0x1") % 2 == 0) && all is_hex_digit (codes "0x1"))
hex_decode-accepts_example = hex_decode-accepts (codes "0x1")

zero_encode_run : zero_encode (7 ∷ 0 ∷ 0 ∷ 0 ∷ 9 ∷ 0 ∷ []) ≡ 7 ∷ 0 ∷ 3 ∷ 9 ∷ 0 ∷ 1 ∷ []
unfolding zero_encode x_encode x_encode_from count_run is_zero
zero_encode_run = refl

x_decode-x_encode_example :
    (x_decode is_zero (x_encode is_zero (0 ∷ 0 ∷ 5 ∷ [])) ≡ 0 ∷ 0 ∷ 5 ∷ [])
    × (zero_decode (zero_encode (0 ∷ 0 ∷ 5 ∷ [])) ≡ 0 ∷ 0 ∷ 5 ∷ [])
    × (zero_one_decode (zero_one_encode (0 ∷ 0 ∷ 5 ∷ [])) ≡ 0 ∷ 0 ∷ 5 ∷ [])
x_decode-x_encode_example = x_decode-x_encode is_zero (0 ∷ 0 ∷ 5 ∷ [])

reads_integers :
    (to_integer 32 (codes "-2147483648") ≡ negsuc 2147483647)
    × (to_integer 32 (codes "4294967295") ≡ negsuc 0)
    × (to_integer_safe 32 (codes "-2147483648") ≡ ok (negsuc 2147483647))
    × (is_ok (to_integer_safe 32 (codes "2147483648")) ≡ false)
    × (is_ok (to_integer_safe 32 (codes "007")) ≡ false)
    × (is_ok (to_integer_safe 32 (codes "-0")) ≡ false)
unfolding to_integer to_integer_safe read_digits with_sign minus print_int print_uint last_digits
    is_same is_digit
reads_integers = (refl, refl, refl, refl, refl, refl)

to_integer_safe_accepts_example :
    (to_integer_safe 32 (codes "-12") ≡ ok (negsuc 11))
    ↔ (InRange 32 (negsuc 11) × (print_int (negsuc 11) ≡ codes "-12"))
to_integer_safe_accepts_example = to_integer_safe_accepts 32 (codes "-12") (negsuc 11) (omega arith)

-- "a b c" with at most two parts, and with more.
splits :
    (full_split (codes "a b c") b' ' 2 ≡ codes "a" ∷ codes "b c" ∷ [])
    × (full_split (codes "a  c") b' ' 9 ≡ codes "a" ∷ [] ∷ codes "c" ∷ [])
    × (split (codes "a b c") b' ' ≡ (codes "a", codes "b c"))
    × (lpad0 (codes "7") 3 ≡ codes "007")
    × (begins_with (codes "abc") (codes "ab") ≡ true)
    × (ends_with (codes "abc") (codes "ab") ≡ false)
unfolding full_split full_split_loop split find_char lpad0 begins_with ends_with is_same
splits = (refl, refl, refl, refl, refl, refl)

full_split_correct_example :
    Parts b' ' 2 (codes "a b c") (full_split (codes "a b c") b' ' 2) × (full_split [] b' ' 2 ≡ [])
full_split_correct_example = full_split_correct b'a' (codes " b c") b' ' 2 (omega arith)

reads_hex :
    (hex_to_integer_safe 32 (codes "fFfFfFfF") ≡ ok 4294967295)
    × (is_ok (hex_to_integer_safe 32 (codes "100000000")) ≡ false)
    × (hex_to_integer 32 (codes "1fg") ≡ 31)
unfolding hex_to_integer_safe_from hex_to_integer_from hex_to_int is_hex_digit
reads_hex = (refl, refl, refl)

hex_to_integer_safe_accepts_example : (hex_to_integer_safe 32 (codes "1F") ≡ ok 31) ↔ (
    (all is_hex_digit (codes "1F") ≡ true)
    × (hex_value 0 (codes "1F") ≡ 31)
    × (31 < 2 ^ 32)
    × (hex_to_integer 32 (codes "1F") ≡ 31))
hex_to_integer_safe_accepts_example = hex_to_integer_safe_accepts 32 (codes "1F") 31 (omega arith)
