-- ===== src/Misc/Hex.antt =====
-- hex_encode, hex_decode and buffer_to_hex of td/utils/misc.cpp.
use tdutils.Base.{
  All, all, ap, arith, bit_and, Bool, Bool-cases, error, false, get_or, if◌then◌else◌, inl, inr,
  is_ok, is_ok-bind_ok, length, List, map, ok, refl, Result, true, ℕ, ==_iff, [], ◌%◌, ◌&&◌, ◌*◌,
  ◌+◌, ◌/◌, ◌<◌, ◌==◌, ◌>>=◌, ◌^◌, ◌||◌, ◌∙◌, ◌∷◌, ◌≡◌,
}
use tdutils.Base.Bits.{bit_and-low, eq_at, holds_at, holds_below}
use tdutils.Base.Text.{codes, IsByte}
use tdutils.Misc.Chars.{hex_to_int, hex_to_int-is_hex_digit, hex_to_int-le, is_hex_digit, to_lower}

abbrev pub hex_digits : List ℕ
hex_digits = codes "0123456789abcdef"

abbrev pub upper_hex_digits : List ℕ
upper_hex_digits = codes "0123456789ABCDEF"

-- Index 16 of a C literal is its terminator.
abbrev pub at_index : List ℕ → ℕ → ℕ
at_index s i = get_or s i 0

unfoldable pub hex_encode : List ℕ → List ℕ
hex_encode [] = []
hex_encode (c ∷ rest) =
    at_index hex_digits (c / 2 ^ 4) ∷ at_index hex_digits (bit_and c 15) ∷ hex_encode rest

-- The low half comes first here.
unfoldable pub buffer_to_hex : List ℕ → List ℕ
buffer_to_hex [] = []
buffer_to_hex (c ∷ rest) =
    at_index upper_hex_digits (bit_and c 15)
    ∷ at_index upper_hex_digits (c / 2 ^ 4)
    ∷ buffer_to_hex rest

-- The loop of hex_decode, two characters a round; the length was found even.
unfoldable pub hex_pairs : List ℕ → Result (List ℕ)
hex_pairs (h ∷ l ∷ rest) =
    let high = hex_to_int h in
    let low = hex_to_int l in
    let more = hex_pairs rest >>= λ r. ok ((high * 16 + low) ∷ r) in
    if high == 16 || low == 16 then error "Wrong hex string" else more
hex_pairs _ = ok []

unfoldable pub hex_decode : List ℕ → Result (List ℕ)
unfolding hex_pairs
hex_decode hex = if length hex % 2 == 0 then hex_pairs hex else error "Wrong hex string length"

digit_table : holds_below 256 (λ c. hex_to_int (at_index hex_digits (c / 2 ^ 4)) == c / 16) ≡ true
unfolding holds_below hex_to_int
digit_table = refl

low_digit_table :
    holds_below 256 (λ c. hex_to_int (at_index hex_digits (bit_and c 15)) == c % 16) ≡ true
unfolding holds_below hex_to_int
low_digit_table = refl

upper_digit_table :
    holds_below 256 (λ c. hex_to_int (at_index upper_hex_digits (c / 2 ^ 4)) == c / 16) ≡ true
unfolding holds_below hex_to_int
upper_digit_table = refl

upper_low_digit_table :
    holds_below 256 (λ c. hex_to_int (at_index upper_hex_digits (bit_and c 15)) == c % 16) ≡ true
unfolding holds_below hex_to_int
upper_low_digit_table = refl

high_digit : (c : ℕ) → IsByte c → hex_to_int (at_index hex_digits (c / 2 ^ 4)) ≡ c / 16
high_digit = eq_at 256 _ _ digit_table

low_digit : (c : ℕ) → IsByte c → hex_to_int (at_index hex_digits (bit_and c 15)) ≡ c % 16
low_digit = eq_at 256 _ _ low_digit_table

upper_high_digit : (c : ℕ) → IsByte c → hex_to_int (at_index upper_hex_digits (c / 2 ^ 4)) ≡ c / 16
upper_high_digit = eq_at 256 _ _ upper_digit_table

upper_low_digit :
    (c : ℕ) → IsByte c → hex_to_int (at_index upper_hex_digits (bit_and c 15)) ≡ c % 16
upper_low_digit = eq_at 256 _ _ upper_low_digit_table

-- One round of the decoder on two digits.
hex_pairs_step :
    (h l high low : ℕ) (rest : List ℕ)
    → hex_to_int h ≡ high
    → hex_to_int l ≡ low
    → high < 16
    → low < 16
    → hex_pairs (h ∷ l ∷ rest) ≡ (hex_pairs rest >>= λ r. ok ((high * 16 + low) ∷ r))
unfolding hex_pairs
hex_pairs_step h l high low rest eh el hh hl = ground arith

hex_pairs-hex_encode : (s : List ℕ) → All IsByte s → hex_pairs (hex_encode s) ≡ ok s
unfolding hex_encode hex_pairs
hex_pairs-hex_encode [] h = refl
hex_pairs-hex_encode (c ∷ rest) (b, h) =
    hex_pairs_step _ _ (c / 16) (c % 16) (hex_encode rest) (high_digit c b) (low_digit c b)
      (omega arith) (omega arith)
    ∙ rw (hex_pairs-hex_encode rest h) (ap (λ t. ok (t ∷ rest)) (omega arith))

length-hex_encode : (s : List ℕ) → length (hex_encode s) ≡ 2 * length s
unfolding hex_encode
length-hex_encode [] = refl
length-hex_encode (c ∷ rest) = omega (arith, length-hex_encode rest)

length-buffer_to_hex : (s : List ℕ) → length (buffer_to_hex s) ≡ 2 * length s
unfolding buffer_to_hex
length-buffer_to_hex [] = refl
length-buffer_to_hex (c ∷ rest) = omega (arith, length-buffer_to_hex rest)

hex_decode_even : (s : List ℕ) → length s % 2 ≡ 0 → hex_decode s ≡ hex_pairs s
unfolding hex_decode
hex_decode_even s h = rw h

-- Decoding what hex_encode wrote gives the bytes back, for every byte string.
pub hex_decode-hex_encode : (s : List ℕ) → All IsByte s → hex_decode (hex_encode s) ≡ ok s
hex_decode-hex_encode s h =
    hex_decode_even (hex_encode s) (omega (arith, length-hex_encode s)) ∙ hex_pairs-hex_encode s h

abbrev pub swap_nibbles : ℕ → ℕ
swap_nibbles c = c % 16 * 16 + c / 16

hex_pairs-buffer_to_hex :
    (s : List ℕ) → All IsByte s → hex_pairs (buffer_to_hex s) ≡ ok (map swap_nibbles s)
unfolding buffer_to_hex hex_pairs
hex_pairs-buffer_to_hex [] h = refl
hex_pairs-buffer_to_hex (c ∷ rest) (b, h) =
    hex_pairs_step _ _ (c % 16) (c / 16) (buffer_to_hex rest) (upper_low_digit c b)
      (upper_high_digit c b) (omega arith) (omega arith)
    ∙ rw (hex_pairs-buffer_to_hex rest h)

-- buffer_to_hex writes the low half of each byte first: hex_decode reads its text as the bytes with
-- their halves exchanged.
hex_decode-buffer_to_hex :
    (s : List ℕ) → All IsByte s → hex_decode (buffer_to_hex s) ≡ ok (map swap_nibbles s)
hex_decode-buffer_to_hex s h =
    hex_decode_even (buffer_to_hex s) (omega (arith, length-buffer_to_hex s))
    ∙ hex_pairs-buffer_to_hex s h

digit_back_table :
    holds_below 256
      (λ c. if hex_to_int c == 16 then true else at_index hex_digits (hex_to_int c) == to_lower c)
    ≡ true
unfolding holds_below hex_to_int to_lower
digit_back_table = refl

digit_back :
    (c : ℕ)
    → IsByte c
    → (hex_to_int c == 16) ≡ false
    → at_index hex_digits (hex_to_int c) ≡ to_lower c
digit_back c b e =
    let t =
      holds_at 256
        (λ x. if hex_to_int x == 16 then true else at_index hex_digits (hex_to_int x) == to_lower x)
        digit_back_table c b in
    (==_iff _ _).0 (rw e at t)

-- The digits of a byte that was put together from two halves.
byte_digits :
    (high low : ℕ)
    → high < 16
    → low < 16
    → ((high * 16 + low) / 2 ^ 4 ≡ high) × (bit_and (high * 16 + low) 15 ≡ low)
byte_digits high low p q = (omega arith, bit_and-low 4 (high * 16 + low) ∙ omega arith)

hex_pairs_cases :
    (h l : ℕ) (rest d : List ℕ)
    → hex_pairs (h ∷ l ∷ rest) ≡ ok d
    → (r : List ℕ) × (hex_pairs rest ≡ ok r)
      × (d ≡ (hex_to_int h * 16 + hex_to_int l) ∷ r)
      × ((hex_to_int h == 16) ≡ false)
      × ((hex_to_int l == 16) ≡ false)
unfolding hex_pairs
hex_pairs_cases h l rest d e = split (hex_pairs rest) refl
  where
    split :
        (m : Result (List ℕ))
        → hex_pairs rest ≡ m
        → (r : List ℕ) × (hex_pairs rest ≡ ok r)
          × (d ≡ (hex_to_int h * 16 + hex_to_int l) ∷ r)
          × ((hex_to_int h == 16) ≡ false)
          × ((hex_to_int l == 16) ≡ false)
    split (ok r) f = (r, f, ground arith, ground arith, ground arith)
    split (error m) f = absurd (ground arith)

hex_encode-hex_pairs :
    (s d : List ℕ)
    → All IsByte s
    → length s % 2 ≡ 0
    → hex_pairs s ≡ ok d
    → hex_encode d ≡ map to_lower s
unfolding hex_encode
hex_encode-hex_pairs [] d b n e = unfold hex_pairs in (ground arith)
hex_encode-hex_pairs (h ∷ []) d b n e = absurd (omega arith)
hex_encode-hex_pairs (h ∷ l ∷ rest) d (bh, (bl, b)) n e =
    let (r, er, ed, eh, el) = hex_pairs_cases h l rest d e in
    let (q, m) =
      byte_digits (hex_to_int h) (hex_to_int l) (ground (arith, hex_to_int-le h))
        (ground (arith, hex_to_int-le l)) in
    rw (ed, hex_encode, q, m, digit_back h bh eh, digit_back l bl el)
      (ap (λ t. to_lower h ∷ to_lower l ∷ t) (hex_encode-hex_pairs rest r b (omega arith) er))

-- Every text that hex_decode accepts is, up to the case of its digits, what hex_encode writes for
-- the bytes that it decoded.
pub hex_encode-hex_decode :
    (s d : List ℕ) → All IsByte s → hex_decode s ≡ ok d → hex_encode d ≡ map to_lower s
unfolding hex_decode
hex_encode-hex_decode s d b e = elim (Bool-cases (length s % 2 == 0)) [
  | inl even ↦ hex_encode-hex_pairs s d b (ground arith) (rw even at e)
  | inr odd ↦ cc (rw odd at e)
]

hex_pairs_accepts_step :
    (h l : ℕ) (rest : List ℕ)
    → is_ok (hex_pairs (h ∷ l ∷ rest))
      ≡ (if hex_to_int h == 16 || hex_to_int l == 16 then false else is_ok (hex_pairs rest))
unfolding hex_pairs
hex_pairs_accepts_step h l rest = elim (Bool-cases (hex_to_int h == 16 || hex_to_int l == 16)) [
  | inl bad ↦ rw bad
  | inr good ↦ rw good (is_ok-bind_ok (hex_pairs rest) _)
]

both_digits :
    (a b c : Bool)
    → (if (if a then false else true) || (if b then false else true) then false else c)
      ≡ (a && (b && c))
both_digits true true c = refl
both_digits true false c = refl
both_digits false b c = refl

hex_pairs-accepts : (s : List ℕ) → length s % 2 ≡ 0 → is_ok (hex_pairs s) ≡ all is_hex_digit s
unfolding hex_pairs
hex_pairs-accepts [] n = refl
hex_pairs-accepts (h ∷ []) n = absurd (omega arith)
hex_pairs-accepts (h ∷ l ∷ rest) n =
    hex_pairs_accepts_step h l rest
    ∙ rw
        (hex_to_int-is_hex_digit h, hex_to_int-is_hex_digit l, hex_pairs-accepts rest (omega arith))
        (both_digits (is_hex_digit h) (is_hex_digit l) (all is_hex_digit rest))

-- hex_decode accepts exactly the texts of even length whose characters are hexadecimal digits.
pub hex_decode-accepts :
    (s : List ℕ) → is_ok (hex_decode s) ≡ ((length s % 2 == 0) && all is_hex_digit s)
unfolding hex_decode
hex_decode-accepts s = elim (Bool-cases (length s % 2 == 0)) [
  | inl even ↦ rw even (hex_pairs-accepts s (ground arith))
  | inr odd ↦ rw odd
]
