-- ===== src/Base64/RoundTrip.antt =====
-- Encoder and decoder of td/utils/base64.cpp, one after the other, in both alphabets.
use tdutils.Base.{
  All, ap, append-nil, arith, Bool, false, if◌then◌else◌, length, length-append, length-replicate,
  List, map, ok, refl, replicate, suc, sym, true, zero, ℕ, [], ◌%◌, ◌*◌, ◌++◌, ◌+◌, ◌/◌, ◌<◌, ◌==◌,
  ◌∙◌, ◌∷◌, ◌≡◌, ◌≢◌,
}
use tdutils.Base.Bits.{eq_at, holds_below}
use tdutils.Base.Text.{IsByte}
use tdutils.Base64.{
  base64_decode_impl, base64_encode, base64_encode_impl, base64url_encode, char_to_value, character,
  do_base64_decode_impl, get_characters, split_padding,
}
use tdutils.Base64.Encode.{
  body, body-valid, encode-body, length-body, length-body_tail, padding_count, signs, signs-le,
}
use tdutils.Base64.Decode.{decode_four, decode_three, decode_two, Valid}
use tdutils.Base64.Values.{value-character, value-equals_sign}
use tdutils.Base64.Padding.{
  padding_fits, padding_fits-plain, padding_fits-url, split_padding-append,
}
use tdutils.Base64.Buffer.{decode_impl_fits}

module _ (is_url : Bool) where
  at : (i : ℕ) → i < 64 → char_to_value is_url (character is_url i) ≡ i
  at i h = value-character is_url i h

  decode-body : (s : List ℕ) → All IsByte s → do_base64_decode_impl is_url (body is_url s) ≡ ok s
  unfolding body
  decode-body (a ∷ b ∷ d ∷ rest) (ha, (hb, (hd, h))) =
      let valid = body-valid is_url (a ∷ b ∷ d ∷ []) (ha, (hb, (hd, tt))) in
      decode_four is_url _ _ _ _ (body is_url rest) valid
      ∙ rw
          (
            decode-body rest h,
            at (a / 4) (omega arith),
            at (a % 4 * 16 + b / 16) (omega arith),
            at (b % 16 * 4 + d / 64) (omega arith),
            at (d % 64) (omega arith),
          )
          (ground arith)
  decode-body (a ∷ b ∷ []) (ha, (hb, h)) =
      let valid = body-valid is_url (a ∷ b ∷ []) (ha, (hb, tt)) in
      decode_three is_url _ _ _ valid
      ∙ rw
          (
            at (a / 4) (omega arith),
            at (a % 4 * 16 + b / 16) (omega arith),
            at (b % 16 * 4) (omega arith),
          )
          (ground arith)
  decode-body (a ∷ []) (ha, h) =
      let valid = body-valid is_url (a ∷ []) (ha, tt) in
      decode_two is_url _ _ valid
      ∙ rw (at (a / 4) (omega arith), at (a % 4 * 16) (omega arith)) (ground arith)
  decode-body [] h = unfold do_base64_decode_impl in refl

  Valid-NotSign : (s : List ℕ) → Valid is_url s → All (λ c. c ≢ b'=') s
  Valid-NotSign [] h = tt
  Valid-NotSign (c ∷ s) (p, h) = (
    λ e. absurd (omega (arith, value-equals_sign is_url, ap (char_to_value is_url) e)),
    Valid-NotSign s h,
  )

  split-encode :
      (s : List ℕ)
      → All IsByte s
      → split_padding (base64_encode_impl is_url s) ≡ (body is_url s, padding_count is_url s)
  split-encode s h = rw (encode-body is_url s h) (
      split_padding-append (body is_url s) (padding_count is_url s)
        (Valid-NotSign (body is_url s) (body-valid is_url s h)))

encode-padding_fits :
    (is_url : Bool) (s : List ℕ)
    → padding_fits is_url (length (body is_url s)) (padding_count is_url s) ≡ true
encode-padding_fits true s = padding_fits-url (length (body true s)) (length-body_tail true s)
encode-padding_fits false s =
    padding_fits-plain (length (body false s)) (signs s) (signs-le s)
      (omega (arith, length-body false s))

-- Decoding what the encoder wrote gives the bytes back: for base64, whose last group is filled with
-- equals signs, and for base64url, where it is not.
pub base64_decode-encode :
    (is_url : Bool) (s : List ℕ)
    → All IsByte s
    → base64_decode_impl is_url (base64_encode_impl is_url s) ≡ ok s
base64_decode-encode is_url s h =
    let e = split-encode is_url s h in
    let fits =
      ap (λ (p : List ℕ × ℕ). padding_fits is_url (length p.0) p.1) e
      ∙ encode-padding_fits is_url s in
    decode_impl_fits is_url (base64_encode_impl is_url s) fits
    ∙ ap (λ (p : List ℕ × ℕ). do_base64_decode_impl is_url p.0) e
    ∙ decode-body is_url s h

-- The character of base64url for one of base64.
abbrev pub url_character : ℕ → ℕ
url_character c = if c == b'+' then b'-' else (if c == b'/' then b'_' else c)

alphabets_table : holds_below 64 (λ i. url_character (character false i) == character true i) ≡ true
unfolding holds_below character get_characters
alphabets_table = refl

alphabets : (i : ℕ) → i < 64 → url_character (character false i) ≡ character true i
alphabets = eq_at 64 _ _ alphabets_table

body-url : (s : List ℕ) → All IsByte s → map url_character (body false s) ≡ body true s
unfolding body
body-url (a ∷ b ∷ d ∷ rest) (ha, (hb, (hd, h))) =
    rw
      (
        alphabets (a / 4) (omega arith),
        alphabets (a % 4 * 16 + b / 16) (omega arith),
        alphabets (b % 16 * 4 + d / 64) (omega arith),
        alphabets (d % 64) (omega arith),
        body-url rest h,
      )
      refl
body-url (a ∷ b ∷ []) (ha, (hb, h)) =
    rw
      (
        alphabets (a / 4) (omega arith),
        alphabets (a % 4 * 16 + b / 16) (omega arith),
        alphabets (b % 16 * 4) (omega arith),
      )
      refl
body-url (a ∷ []) (ha, h) =
    rw (alphabets (a / 4) (omega arith), alphabets (a % 4 * 16) (omega arith)) refl
body-url [] h = refl

map-append {ℓ} : {A : Type ℓ} (f : A → A) (xs ys : List A) → map f (xs ++ ys) ≡ map f xs ++ map f ys
map-append f [] ys = refl
map-append f (x ∷ xs) ys = ap (λ t. f x ∷ t) (map-append f xs ys)

map-replicate {ℓ} :
    {A : Type ℓ} (f : A → A) (n : ℕ) (a : A) → map f (replicate n a) ≡ replicate n (f a)
map-replicate f zero a = refl
map-replicate f (suc n) a = ap (λ t. f a ∷ t) (map-replicate f n a)

length-base64_encode :
    (s : List ℕ) → All IsByte s → length (base64_encode s) ≡ (length s + 2) / 3 * 4
unfolding base64_encode
length-base64_encode s h = rw (encode-body false s h) (
    omega (
      arith,
      length-body false s,
      length-append (body false s) (replicate (signs s) b'='),
      length-replicate {A = ℕ} (signs s) b'=',
    ))

-- For every byte string, base64_encode writes four characters for each three bytes begun, and
-- base64url_encode writes the same
-- characters, but a minus for each plus and an underscore for each slash, and leaves out the equals
-- signs at the end.
pub base64url_encode-base64_encode :
    (s : List ℕ)
    → All IsByte s
    → (length (base64_encode s) ≡ (length s + 2) / 3 * 4)
      × (base64url_encode s ++ replicate (signs s) b'=' ≡ map url_character (base64_encode s))
unfolding base64_encode base64url_encode
base64url_encode-base64_encode s h = (
  length-base64_encode s h,
  rw (encode-body false s h, encode-body true s h, append-nil (body true s))
      (sym (
        map-append url_character (body false s) (replicate (signs s) b'=')
        ∙ ap (λ t. t ++ map url_character (replicate (signs s) b'=')) (body-url s h)
        ∙ ap (λ t. body true s ++ t) (map-replicate url_character (signs s) b'='))),
)
