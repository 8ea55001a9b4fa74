-- ===== src/Base64/Values.antt =====
-- The two alphabets of td/utils/base64.cpp and the table made from each.
use tdutils.Base.{
  arith, Bool, false, if◌then◌else◌, ltb, refl, true, ℕ, ◌&&◌, ◌<◌, ◌==◌, ◌≡◌, ◌≢◌, ◌≤◌,
}
use tdutils.Base.Bits.{eq_at, holds_at, holds_below}
use tdutils.Base.Text.{IsByte}
use tdutils.Base64.{char_to_value, character, get_character_table}

index_table :
    (is_url : Bool) → holds_below 64 (λ i. char_to_value is_url (character is_url i) == i) ≡ true
unfolding holds_below char_to_value character get_character_table
index_table true = refl
index_table false = refl

-- The table maps the `i`-th character of the alphabet to `i`.
pub value-character :
    (is_url : Bool) (i : ℕ) → i < 64 → char_to_value is_url (character is_url i) ≡ i
value-character is_url = eq_at 64 _ _ (index_table is_url)

back_table :
    (is_url : Bool)
    → holds_below 256 (λ c.
      ltb (char_to_value is_url c) 65
      && (if char_to_value is_url c == 64
          then true
          else character is_url (char_to_value is_url c) == c))
      ≡ true
unfolding holds_below char_to_value character get_character_table
back_table true = refl
back_table false = refl

-- Every other entry is 64.
pub value_bound : (is_url : Bool) (c : ℕ) → IsByte c → char_to_value is_url c ≤ 64
value_bound is_url c b = ground (arith, holds_at 256 _ (back_table is_url) c b)

pub character-value :
    (is_url : Bool) (c : ℕ)
    → IsByte c
    → char_to_value is_url c ≢ 64
    → character is_url (char_to_value is_url c) ≡ c
character-value is_url c b n = ground (arith, holds_at 256 _ (back_table is_url) c b)

pub value-equals_sign : (is_url : Bool) → char_to_value is_url b'=' ≡ 64
unfolding char_to_value get_character_table
value-equals_sign true = refl
value-equals_sign false = refl
