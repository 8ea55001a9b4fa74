-- ===== src/Base64.antt =====
-- td/utils/base64.cpp: base64 and base64url with their decoders and validators.
-- A Slice is the list of its bytes. `is_url` is the template argument of the `_impl` functions.
pub mod Values
pub mod Groups
pub mod Encode
pub mod Padding
pub mod Decode
pub mod Buffer
pub mod RoundTrip
pub mod Validate
pub mod Canonical
mod Tests
use tdutils.Base.{
  bit_and, bit_or, Bool, drop, error, false, get_last?, get_or, if◌then◌else◌, is_ok, leb, length,
  List, ltb, none, not, ok, replicate, Result, reverse, set, some, true, ℕ, [], ◌%◌, ◌&&◌, ◌*◌,
  ◌++◌, ◌+◌, ◌-◌, ◌/◌, ◌==◌, ◌>>=◌, ◌^◌, ◌||◌, ◌∷◌,
}
use tdutils.Base.Text.{codes}

unfoldable pub get_characters : Bool → List ℕ
get_characters true = codes "ABCDEFGHIJKLMNOPQRSTUVWXYZabcdefghijklmnopqrstuvwxyz0123456789-_"
get_characters false = codes "ABCDEFGHIJKLMNOPQRSTUVWXYZabcdefghijklmnopqrstuvwxyz0123456789+/"

-- `char_to_value[characters[i]] = i` for the characters from the `i`-th on.
unfoldable pub fill_table : List ℕ → ℕ → List ℕ → List ℕ
fill_table [] i table = table
fill_table (c ∷ rest) i table = fill_table rest (i + 1) (set table c i)

-- std::fill with 64, then one entry for each character.
unfoldable pub get_character_table : Bool → List ℕ
unfolding get_characters fill_table
get_character_table is_url = fill_table (get_characters is_url) 0 (replicate 256 64)

-- Every index is a byte, so each read is inside the 256 entries.
unfoldable pub char_to_value : Bool → ℕ → ℕ
char_to_value is_url c = get_or (get_character_table is_url) c 64

unfoldable pub character : Bool → ℕ → ℕ
character is_url i = get_or (get_characters is_url) i 0

-- One round for each three bytes; `left` is 3, 2 or 1 in the three clauses with input.
unfoldable pub base64_encode_impl : Bool → List ℕ → List ℕ
base64_encode_impl is_url (a ∷ b ∷ d ∷ rest) =
    let c = a * 2 ^ 16 in
    let c' = bit_or c (b * 2 ^ 8) in
    let c'' = bit_or c' d in
    character is_url (c / 2 ^ 18)
    ∷ character is_url (bit_and (c' / 2 ^ 12) 63)
    ∷ character is_url (bit_and (c'' / 2 ^ 6) 63)
    ∷ character is_url (bit_and c'' 63)
    ∷ base64_encode_impl is_url rest
base64_encode_impl is_url (a ∷ b ∷ []) =
    let c = a * 2 ^ 16 in
    let c' = bit_or c (b * 2 ^ 8) in
    character is_url (c / 2 ^ 18)
    ∷ character is_url (bit_and (c' / 2 ^ 12) 63)
    ∷ character is_url (bit_and (c' / 2 ^ 6) 63)
    ∷ (if is_url then [] else b'=' ∷ [])
base64_encode_impl is_url (a ∷ []) =
    let c = a * 2 ^ 16 in
    character is_url (c / 2 ^ 18)
    ∷ character is_url (bit_and (c / 2 ^ 12) 63)
    ∷ (if is_url then [] else b'=' ∷ b'=' ∷ [])
base64_encode_impl is_url [] = []

pub base64_encode : List ℕ → List ℕ
base64_encode = base64_encode_impl false

pub base64url_encode : List ℕ → List ℕ
base64url_encode = base64_encode_impl true

-- `while (!s.empty() && s.back() == '=')` on the reversed slice, with the count of removed signs.
unfoldable pub drop_signs : List ℕ → ℕ → List ℕ × ℕ
drop_signs [] n = ([], n)
drop_signs (c ∷ rest) n =
    let more = drop_signs rest (n + 1) in if c == b'=' then more else (c ∷ rest, n)

unfoldable pub split_padding : List ℕ → List ℕ × ℕ
unfolding drop_signs
split_padding s = let (back, n) = drop_signs (reverse s) 0 in (reverse back, n)

unfoldable pub base64_drop_padding : Bool → List ℕ → Result (List ℕ)
base64_drop_padding is_url s =
    let (base64, padding_length) = split_padding s in
    if leb 3 padding_length
    then error "Wrong string padding"
    else if (not is_url || ltb 0 padding_length)
        && not (bit_and (length base64 + padding_length) 3 == 0)
    then error "Wrong padding length"
    else if is_url && bit_and (length base64) 3 == 1
    then error "Wrong string length"
    else ok base64

-- The inner loop over the characters of one group: `c |= value << ((3 - t) * 6)`.
unfoldable pub group_bits : Bool → List ℕ → ℕ → ℕ → Result ℕ
group_bits is_url [] t c = ok c
group_bits is_url (x ∷ rest) t c =
    let value = char_to_value is_url x in
    let more = group_bits is_url rest (t + 1) (bit_or c (value * 2 ^ ((3 - t) * 6))) in
    if value == 64 then error "Wrong character in the string" else more

-- do_base64_decode_impl: groups of four characters, the last of 1 to 4. What it writes through
-- `ptr` is the list returned.
unfoldable pub do_base64_decode_impl : Bool → List ℕ → Result (List ℕ)
do_base64_decode_impl is_url (w ∷ x ∷ y ∷ z ∷ rest) =
    group_bits is_url (w ∷ x ∷ y ∷ z ∷ []) 0 0 >>= λ c. do_base64_decode_impl is_url rest >>= λ out.
    ok (c / 2 ^ 16 % 256 ∷ c / 2 ^ 8 % 256 ∷ c % 256 ∷ out)
do_base64_decode_impl is_url (w ∷ x ∷ y ∷ []) = group_bits is_url (w ∷ x ∷ y ∷ []) 0 0 >>= λ c.
    if bit_and c (2 ^ 8 - 1) == 0
    then ok (c / 2 ^ 16 % 256 ∷ c / 2 ^ 8 % 256 ∷ [])
    else error "Wrong padding in the string"
do_base64_decode_impl is_url (w ∷ x ∷ []) = group_bits is_url (w ∷ x ∷ []) 0 0 >>= λ c.
    if bit_and c (2 ^ 16 - 1) == 0
    then ok (c / 2 ^ 16 % 256 ∷ [])
    else error "Wrong padding in the string"
do_base64_decode_impl is_url (w ∷ []) =
    group_bits is_url (w ∷ []) 0 0 >>= λ c. ok (c / 2 ^ 16 % 256 ∷ c / 2 ^ 8 % 256 ∷ c % 256 ∷ [])
do_base64_decode_impl is_url [] = ok []

-- The number of bytes that the loop writes through `ptr` before it ends or refuses the text.
unfoldable pub written_bytes : Bool → List ℕ → ℕ
written_bytes is_url (w ∷ x ∷ y ∷ z ∷ rest) =
    let more = written_bytes is_url rest in
    if is_ok (group_bits is_url (w ∷ x ∷ y ∷ z ∷ []) 0 0) then 3 + more else 0
written_bytes is_url (w ∷ x ∷ y ∷ []) =
    if is_ok (group_bits is_url (w ∷ x ∷ y ∷ []) 0 0) then 2 else 0
written_bytes is_url (w ∷ x ∷ []) = if is_ok (group_bits is_url (w ∷ x ∷ []) 0 0) then 1 else 0
written_bytes is_url (w ∷ []) = if is_ok (group_bits is_url (w ∷ []) 0 0) then 3 else 0
written_bytes is_url [] = 0

-- The number of bytes that base64_decode_impl allocates.
unfoldable pub decoded_size : List ℕ → ℕ
decoded_size base64 = length base64 / 4 * 3 + (bit_and (length base64) 3 + 1) / 2

-- A write behind the end of `result` would be undefined behaviour.
unfoldable pub base64_decode_impl : Bool → List ℕ → Result (List ℕ)
base64_decode_impl is_url s = base64_drop_padding is_url s >>= λ base64.
    let result = replicate (decoded_size base64) 0 in
    if ltb (length result) (written_bytes is_url base64)
    then error "Write out of range"
    else (do_base64_decode_impl is_url base64 >>= λ out. ok (out ++ drop (length out) result))

pub base64_decode : List ℕ → Result (List ℕ)
base64_decode = base64_decode_impl false

pub base64url_decode : List ℕ → Result (List ℕ)
base64url_decode = base64_decode_impl true

-- `for (auto c : input) if (table[c] == 64) return false;`
unfoldable pub is_base64_characters_impl : Bool → List ℕ → Bool
is_base64_characters_impl is_url [] = true
is_base64_characters_impl is_url (c ∷ rest) =
    if char_to_value is_url c == 64 then false else is_base64_characters_impl is_url rest

-- The value of the last character, 64 where there is none.
abbrev pub last_value : Bool → List ℕ → ℕ
last_value is_url s = elim (get_last? s) [ none ↦ 64 | some c ↦ char_to_value is_url c ]

unfoldable pub is_base64_impl : Bool → List ℕ → Bool
is_base64_impl is_url s =
    let (input, padding_length) = split_padding s in
    if leb 3 padding_length
    then false
    else if (not is_url || ltb 0 padding_length)
        && not (bit_and (length input + padding_length) 3 == 0)
    then false
    else if is_url && bit_and (length input) 3 == 1
    then false
    else if not (is_base64_characters_impl is_url input)
    then false
    else if bit_and (length input) 3 == 2 && not (bit_and (last_value is_url input) 15 == 0)
    then false
    else if bit_and (length input) 3 == 3 && not (bit_and (last_value is_url input) 3 == 0)
    then false
    else true

pub is_base64 : List ℕ → Bool
is_base64 = is_base64_impl false

pub is_base64url : List ℕ → Bool
is_base64url = is_base64_impl true

-- base64_filter keeps the characters of the alphabet and the equals signs.
unfoldable pub base64_filter : List ℕ → List ℕ
base64_filter [] = []
base64_filter (c ∷ rest) =
    if not (char_to_value false c == 64) || c == b'='
    then c ∷ base64_filter rest
    else base64_filter rest
