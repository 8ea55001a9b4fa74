-- ===== src/Base64/Encode.antt =====
-- What base64_encode_impl writes, in plain arithmetic: the characters of a body and the signs of
-- a padding.
use tdutils.Base.{
  All, ap, arith, bit_and, bit_or, Bool, false, if◌then◌else◌, length, List, refl, replicate, true,
  ℕ, [], ◌%◌, ◌*◌, ◌++◌, ◌+◌, ◌/◌, ◌<◌, ◌^◌, ◌∙◌, ◌∷◌, ◌≡◌, ◌≢◌, ◌≤◌,
}
use tdutils.Base.Bits.{bit_and-low, bit_or-add}
use tdutils.Base.Text.{IsByte}
use tdutils.Base64.{base64_encode_impl, char_to_value, character}
use tdutils.Base64.Values.{value-character}

-- The equals signs that fill the last group.
unfoldable pub signs : List ℕ → ℕ
signs (a ∷ b ∷ d ∷ rest) = signs rest
signs (a ∷ b ∷ []) = 1
signs (a ∷ []) = 2
signs [] = 0

abbrev pub padding_count : Bool → List ℕ → ℕ
padding_count is_url s = if is_url then 0 else signs s

padding_of :
    (is_url : Bool) (n c : ℕ)
    → (if is_url then [] else replicate n c) ≡ replicate (if is_url then 0 else n) c
padding_of true n c = refl
padding_of false n c = refl

module _ (is_url : Bool) where
  abbrev ch : ℕ → ℕ
  ch = character is_url

  two_bytes :
      (a b : ℕ) → IsByte a → IsByte b → bit_or (a * 2 ^ 16) (b * 2 ^ 8) ≡ a * 2 ^ 16 + b * 2 ^ 8
  two_bytes a b ha hb = bit_or-add 16 (a * 2 ^ 16) (b * 2 ^ 8) (omega arith) (omega arith)

  three_bytes :
      (a b d : ℕ)
      → IsByte a
      → IsByte b
      → IsByte d
      → bit_or (bit_or (a * 2 ^ 16) (b * 2 ^ 8)) d ≡ a * 2 ^ 16 + b * 2 ^ 8 + d
  three_bytes a b d ha hb hd =
      rw (two_bytes a b ha hb) (bit_or-add 8 (a * 2 ^ 16 + b * 2 ^ 8) d (omega arith) (omega arith))

  low_six : (x v : ℕ) → x % 2 ^ 6 ≡ v → ch (bit_and x 63) ≡ ch v
  low_six x v e = ap ch (bit_and-low 6 x ∙ e)

  abbrev pub four_characters : ℕ → ℕ → ℕ → List ℕ → List ℕ
  four_characters a b d rest =
      ch (a / 4) ∷ ch (a % 4 * 16 + b / 16) ∷ ch (b % 16 * 4 + d / 64) ∷ ch (d % 64) ∷ rest

  encode_three :
      (a b d : ℕ) (rest : List ℕ)
      → IsByte a
      → IsByte b
      → IsByte d
      → base64_encode_impl is_url (a ∷ b ∷ d ∷ rest)
        ≡ four_characters a b d (base64_encode_impl is_url rest)
  unfolding base64_encode_impl
  encode_three a b d rest ha hb hd =
      rw
        (
          three_bytes a b d ha hb hd,
          two_bytes a b ha hb,
          low_six ((a * 2 ^ 16 + b * 2 ^ 8) / 2 ^ 12) (a % 4 * 16 + b / 16) (omega arith),
          low_six ((a * 2 ^ 16 + b * 2 ^ 8 + d) / 2 ^ 6) (b % 16 * 4 + d / 64) (omega arith),
          low_six (a * 2 ^ 16 + b * 2 ^ 8 + d) (d % 64) (omega arith),
        )
        (let first : a * 2 ^ 16 / 2 ^ 18 ≡ a / 4 = omega arith in rw first)

  encode_two :
      (a b : ℕ)
      → IsByte a
      → IsByte b
      → base64_encode_impl is_url (a ∷ b ∷ [])
        ≡ ch (a / 4)
          ∷ ch (a % 4 * 16 + b / 16)
          ∷ ch (b % 16 * 4)
          ∷ (if is_url then [] else b'=' ∷ [])
  unfolding base64_encode_impl
  encode_two a b ha hb =
      rw
        (
          two_bytes a b ha hb,
          low_six ((a * 2 ^ 16 + b * 2 ^ 8) / 2 ^ 12) (a % 4 * 16 + b / 16) (omega arith),
          low_six ((a * 2 ^ 16 + b * 2 ^ 8) / 2 ^ 6) (b % 16 * 4) (omega arith),
        )
        (let first : a * 2 ^ 16 / 2 ^ 18 ≡ a / 4 = omega arith in rw first)

  encode_one :
      (a : ℕ)
      → IsByte a
      → base64_encode_impl is_url (a ∷ [])
        ≡ ch (a / 4) ∷ ch (a % 4 * 16) ∷ (if is_url then [] else b'=' ∷ b'=' ∷ [])
  unfolding base64_encode_impl
  encode_one a ha =
      rw (low_six (a * 2 ^ 16 / 2 ^ 12) (a % 4 * 16) (omega arith))
        (let first : a * 2 ^ 16 / 2 ^ 18 ≡ a / 4 = omega arith in rw first)

  -- The characters that carry data.
  unfoldable pub body : List ℕ → List ℕ
  body (a ∷ b ∷ d ∷ rest) = four_characters a b d (body rest)
  body (a ∷ b ∷ []) = ch (a / 4) ∷ ch (a % 4 * 16 + b / 16) ∷ ch (b % 16 * 4) ∷ []
  body (a ∷ []) = ch (a / 4) ∷ ch (a % 4 * 16) ∷ []
  body [] = []

  encode_body-signs :
      (s : List ℕ)
      → All IsByte s
      → base64_encode_impl is_url s ≡ body s ++ (if is_url then [] else replicate (signs s) b'=')
  unfolding body signs
  encode_body-signs (a ∷ b ∷ d ∷ rest) (ha, (hb, (hd, h))) =
      rw (encode_three a b d rest ha hb hd, encode_body-signs rest h)
  encode_body-signs (a ∷ b ∷ []) (ha, (hb, h)) = encode_two a b ha hb
  encode_body-signs (a ∷ []) (ha, h) = encode_one a ha
  encode_body-signs [] h = unfold base64_encode_impl in (ground arith)

  pub encode-body :
      (s : List ℕ)
      → All IsByte s
      → base64_encode_impl is_url s ≡ body s ++ replicate (padding_count is_url s) b'='
  encode-body s h = encode_body-signs s h ∙ ap (λ t. body s ++ t) (padding_of is_url (signs s) b'=')

  value_below : (v : ℕ) → v < 64 → char_to_value is_url (ch v) < 64
  value_below v h = rw (value-character is_url v h) h

  -- Only characters of the alphabet stand in the body.
  pub body-valid : (s : List ℕ) → All IsByte s → All (λ c. char_to_value is_url c < 64) (body s)
  unfolding body
  body-valid (a ∷ b ∷ d ∷ rest) (ha, (hb, (hd, h))) = (
    value_below (a / 4) (omega arith),
    (
      value_below (a % 4 * 16 + b / 16) (omega arith),
      (
        value_below (b % 16 * 4 + d / 64) (omega arith),
        (value_below (d % 64) (omega arith), body-valid rest h),
      ),
    ),
  )
  body-valid (a ∷ b ∷ []) (ha, (hb, h)) = (
    value_below (a / 4) (omega arith),
    (value_below (a % 4 * 16 + b / 16) (omega arith), (value_below (b % 16 * 4) (omega arith), tt)),
  )
  body-valid (a ∷ []) (ha, h) =
      (value_below (a / 4) (omega arith), (value_below (a % 4 * 16) (omega arith), tt))
  body-valid [] h = tt

  -- Body and signs fill whole groups of four.
  pub length-body : (s : List ℕ) → length (body s) + signs s ≡ (length s + 2) / 3 * 4
  unfolding body signs
  length-body (a ∷ b ∷ d ∷ rest) = omega (arith, length-body rest)
  length-body (a ∷ b ∷ []) = omega arith
  length-body (a ∷ []) = omega arith
  length-body [] = omega arith

pub signs-le : (s : List ℕ) → signs s ≤ 2
unfolding signs
signs-le (a ∷ b ∷ d ∷ rest) = signs-le rest
signs-le (a ∷ b ∷ []) = omega arith
signs-le (a ∷ []) = omega arith
signs-le [] = omega arith

pub length-body_tail : (is_url : Bool) (s : List ℕ) → length (body is_url s) % 4 ≢ 1
length-body_tail is_url s = omega (arith, length-body is_url s, signs-le s)
