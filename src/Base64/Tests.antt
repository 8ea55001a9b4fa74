-- ===== src/Base64/Tests.antt =====
-- Runs of the base64 functions, and the theorems at concrete texts.
use tdutils.Base.{
  arith, error, false, is_ok, length, List, map, ok, refl, replicate, true, ℕ, [], ◌++◌, ◌∷◌, ◌≡◌,
  ◌≤◌, ◌⊎◌,
}
use tdutils.Base.Text.{codes}
use tdutils.Base64.{
  base64_decode, base64_decode_impl, base64_drop_padding, base64_encode, base64_encode_impl,
  base64_filter, base64url_decode, base64url_encode, char_to_value, character, decoded_size,
  do_base64_decode_impl, drop_signs, get_character_table, get_characters, group_bits,
  is_base64_impl, split_padding, written_bytes,
}
use tdutils.Base64.Encode.{signs}
use tdutils.Base64.Canonical.{base64_encode-decode}
use tdutils.Base64.Validate.{is_base64-decode}
use tdutils.Base64.RoundTrip.{base64_decode-encode, base64url_encode-base64_encode, url_character}
use tdutils.Base64.Buffer.{base64_decode_size, Filled}

-- "foob"
abbrev sample : List ℕ
sample = codes "foob"

encode_sample :
    (base64_encode sample ≡ codes "Zm9vYg==") × (base64url_encode sample ≡ codes "Zm9vYg")
unfolding base64_encode base64url_encode base64_encode_impl character get_characters
encode_sample = (refl, refl)

decode_sample : base64_decode (codes "Zm9vYg==") ≡ ok sample
unfolding base64_decode base64_decode_impl base64_drop_padding split_padding drop_signs
    do_base64_decode_impl written_bytes decoded_size group_bits char_to_value get_character_table
decode_sample = refl

decode_url_sample : base64url_decode (codes "Zm9vYg") ≡ ok sample
unfolding base64url_decode base64_decode_impl base64_drop_padding split_padding drop_signs
    do_base64_decode_impl written_bytes decoded_size group_bits char_to_value get_character_table
decode_url_sample = refl

stray_bits : base64_decode (codes "Zm9vYh==") ≡ error "Wrong padding in the string"
unfolding base64_decode base64_decode_impl base64_drop_padding split_padding drop_signs
    do_base64_decode_impl written_bytes decoded_size group_bits char_to_value get_character_table
stray_bits = refl

filtered : base64_filter (codes "Zm9v\nYg==") ≡ codes "Zm9vYg=="
unfolding base64_filter char_to_value get_character_table
filtered = refl

base64_decode-encode_example : base64_decode_impl true (base64_encode_impl true sample) ≡ ok sample
base64_decode-encode_example = base64_decode-encode true sample (omega arith)

base64url_encode-base64_encode_example :
    (length (base64_encode (0xfb ∷ 0xf0 ∷ [])) ≡ 4)
    × (base64url_encode (0xfb ∷ 0xf0 ∷ []) ++ replicate (signs (0xfb ∷ 0xf0 ∷ [])) b'='
        ≡ map url_character (base64_encode (0xfb ∷ 0xf0 ∷ [])))
base64url_encode-base64_encode_example =
    base64url_encode-base64_encode (0xfb ∷ 0xf0 ∷ []) (omega arith)

is_base64-decode_example :
    is_base64_impl false (codes "Zm9vYh==") ≡ is_ok (base64_decode_impl false (codes "Zm9vYh=="))
is_base64-decode_example = is_base64-decode false (codes "Zm9vYh==") (omega arith)

-- The second group is refused after the first was written.
drops_signs : base64_drop_padding false (codes "Zm9vYh==") ≡ ok (codes "Zm9vYh")
unfolding base64_drop_padding split_padding drop_signs
drops_signs = refl

base64_decode_size_example :
    (written_bytes false (codes "Zm9vYh") ≤ decoded_size (codes "Zm9vYh"))
    × (((d : List ℕ) × Filled false (codes "Zm9vYh==") (codes "Zm9vYh") d)
        ⊎ (is_ok (do_base64_decode_impl false (codes "Zm9vYh")) ≡ false)
          × (is_ok (base64_decode_impl false (codes "Zm9vYh==")) ≡ false))
base64_decode_size_example =
    base64_decode_size false (codes "Zm9vYh==") (codes "Zm9vYh") drops_signs

base64_encode-decode_example : base64_encode sample ≡ codes "Zm9vYg=="
base64_encode-decode_example =
    base64_encode-decode (codes "Zm9vYg==") sample (omega arith) decode_sample
