-- ===== src/Misc/Chars.antt =====
-- The character classes of td/utils/misc.h. `char` is signed there; a byte from 128 on is negative
-- and fails every test below, as it does when it is read as an unsigned number.
use tdutils.Base.{
  arith, bit_or, Bool, false, if◌then◌else◌, leb, not, refl, true, ℕ, ◌&&◌, ◌+◌, ◌-◌, ◌==◌, ◌||◌,
  ◌≡◌, ◌≤◌,
}
use tdutils.Base.Bits.{holds_below}

unfoldable pub to_lower : ℕ → ℕ
to_lower c = if leb b'A' c && leb c b'Z' then c - b'A' + b'a' else c

unfoldable pub to_upper : ℕ → ℕ
to_upper c = if leb b'a' c && leb c b'z' then c - b'a' + b'A' else c

-- ' ', '\t', '\r', '\n', '\0' and '\v'
unfoldable pub is_space : ℕ → Bool
is_space c = c == 32 || c == 9 || c == 13 || c == 10 || c == 0 || c == 11

unfoldable pub is_alpha : ℕ → Bool
is_alpha c = let c' = bit_or c 0x20 in leb b'a' c' && leb c' b'z'

unfoldable pub is_digit : ℕ → Bool
is_digit c = leb b'0' c && leb c b'9'

unfoldable pub is_alnum : ℕ → Bool
unfolding is_alpha is_digit
is_alnum c = is_alpha c || is_digit c

unfoldable pub is_hex_digit : ℕ → Bool
unfolding is_digit
is_hex_digit c = if is_digit c then true else (let c' = bit_or c 0x20 in leb b'a' c' && leb c' b'f')

-- 16 stands for "not a hexadecimal digit".
unfoldable pub hex_to_int : ℕ → ℕ
unfolding is_digit
hex_to_int c =
    if is_digit c
    then c - b'0'
    else (let c' = bit_or c 0x20 in if leb b'a' c' && leb c' b'f' then c' - b'a' + 10 else 16)

pub hex_to_int-le : (c : ℕ) → hex_to_int c ≤ 16
unfolding hex_to_int
hex_to_int-le c = ground arith

-- `hex_to_int` answers 16 exactly on the characters that `is_hex_digit` refuses.
pub hex_to_int-is_hex_digit :
    (c : ℕ) → (hex_to_int c == 16) ≡ (if is_hex_digit c then false else true)
unfolding hex_to_int is_hex_digit
hex_to_int-is_hex_digit c = ground arith

-- Reading a letter's case off bit 5 is the usual test for a letter, on every byte.
letters_table :
    holds_below 256 (λ c.
      if is_alpha c
      then (leb b'A' c && leb c b'Z') || (leb b'a' c && leb c b'z')
      else not ((leb b'A' c && leb c b'Z') || (leb b'a' c && leb c b'z')))
    ≡ true
unfolding holds_below is_alpha
letters_table = refl
