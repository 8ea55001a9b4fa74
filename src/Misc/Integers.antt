-- ===== src/Misc/Integers.antt =====
-- to_integer for signed types and to_integer_safe of td/utils/misc.h, and the printers of integers in
-- td/utils/StringBuilder.cpp. `w` is the width of the type, 32 or 64; the loop's unsigned integer wraps at 2 ^ w.
use tdutils.Base.{
  Bool, error, false, if◌then◌else◌, leb, List, ltb, ok, Result, reverse, suc, true, zero, ℕ, [],
  ◌%◌, ◌*◌, ◌+◌, ◌-◌, ◌/◌, ◌==◌, ◌^◌, ◌∷◌,
}
use tdutils.Base.Equality.{is_same}
use tdutils.Misc.Chars.{is_digit}

-- `negsuc n` is -(n + 1).
pub data ℤ : Type 0 where
  pos : ℕ → ℤ
  negsuc : ℕ → ℤ

-- -n
unfoldable pub minus : ℕ → ℤ
minus zero = pos zero
minus (suc n) = negsuc n

-- std::numeric_limits<T>::max()
abbrev pub max_value : ℕ → ℕ
max_value w = 2 ^ (w - 1) - 1

unfoldable pub read_digits : ℕ → ℕ → List ℕ → ℕ
read_digits w integer_value [] = integer_value
read_digits w integer_value (c ∷ str) =
    let rest = read_digits w ((integer_value * 10 + (c - b'0')) % 2 ^ w) str in
    if is_digit c then rest else integer_value

-- What follows the loop; `~x + 1` is `2 ^ w - x`.
unfoldable pub with_sign : ℕ → Bool → ℕ → ℤ
with_sign w is_negative integer_value =
    if leb integer_value (max_value w)
    then (if is_negative then minus integer_value else pos integer_value)
    else (let integer_value' = (2 ^ w - integer_value) % 2 ^ w in
        if leb integer_value' (max_value w)
        then (if is_negative then pos integer_value' else minus integer_value')
        else minus (2 ^ (w - 1)))

unfoldable pub to_integer : ℕ → List ℕ → ℤ
to_integer w [] = with_sign w false 0
to_integer w (c ∷ str) =
    if c == b'-'
    then with_sign w true (read_digits w 0 str)
    else with_sign w false (read_digits w 0 (c ∷ str))

-- The `do` of print_uint, the last digit first; `fuel` is more than the number of rounds.
unfoldable pub last_digits : ℕ → ℕ → List ℕ
last_digits zero x = []
last_digits (suc fuel) x =
    let more = last_digits fuel (x / 10) in (b'0' + x % 10) ∷ (if ltb 0 (x / 10) then more else [])

unfoldable pub print_uint : ℕ → List ℕ
print_uint x =
    if ltb x 100
    then (if ltb x 10 then (b'0' + x) ∷ [] else (b'0' + x / 10) ∷ (b'0' + x % 10) ∷ [])
    else reverse (last_digits (x + 1) x)

-- The least integer is printed by the standard library.
unfoldable pub print_int : ℤ → List ℕ
print_int (pos n) = print_uint n
print_int (negsuc n) = b'-' ∷ print_uint (suc n)

unfoldable pub to_integer_safe : ℕ → List ℕ → Result ℤ
to_integer_safe w str =
    let res = to_integer w str in
    if is_same (print_int res) str then ok res else error "Can't parse as number"
