-- ===== src/Base64/Decode.antt =====
-- The loop of do_base64_decode_impl in td/utils/base64.cpp, group by group.
use tdutils.Base.{
  All, arith, Bool, error, if◌then◌else◌, List, ok, ℕ, [], ◌%◌, ◌*◌, ◌+◌, ◌/◌, ◌<◌, ◌==◌, ◌>>=◌,
  ◌^◌, ◌∷◌, ◌≡◌,
}
use tdutils.Base.Bits.{bit_and-low}
use tdutils.Base64.{char_to_value, do_base64_decode_impl}
use tdutils.Base64.Groups.{group_four, group_three, group_two, val}

module _ (is_url : Bool) where
  v : ℕ → ℕ
  v = char_to_value is_url

  abbrev pub Valid : List ℕ → Type 0
  Valid s = All (λ c. char_to_value is_url c < 64) s

  -- One round on four characters of the alphabet.
  pub decode_four :
      (w x y z : ℕ) (rest : List ℕ)
      → Valid (w ∷ x ∷ y ∷ z ∷ [])
      → do_base64_decode_impl is_url (w ∷ x ∷ y ∷ z ∷ rest) ≡ (
          do_base64_decode_impl is_url rest >>= λ out. ok (
            (val is_url w * 4 + val is_url x / 16)
            ∷ (val is_url x % 16 * 16 + val is_url y / 4)
            ∷ (val is_url y % 4 * 64 + val is_url z)
            ∷ out))
  unfolding do_base64_decode_impl
  decode_four w x y z rest (hw, (hx, (hy, (hz, _)))) =
      let c = val is_url w * 2 ^ 18 + val is_url x * 2 ^ 12 + val is_url y * 2 ^ 6 + val is_url z in
      let first : c / 2 ^ 16 % 256 ≡ val is_url w * 4 + val is_url x / 16 = omega arith in
      let second : c / 2 ^ 8 % 256 ≡ val is_url x % 16 * 16 + val is_url y / 4 = omega arith in
      let third : c % 256 ≡ val is_url y % 4 * 64 + val is_url z = omega arith in
      rw (group_four is_url w x y z hw hx hy hz) (simp (first, second, third))

  -- The two short groups; the bits that no byte takes must be zero.
  pub decode_three :
      (w x y : ℕ)
      → Valid (w ∷ x ∷ y ∷ [])
      → do_base64_decode_impl is_url (w ∷ x ∷ y ∷ []) ≡ (
          if val is_url y % 4 == 0
          then ok (
              (val is_url w * 4 + val is_url x / 16)
              ∷ (val is_url x % 16 * 16 + val is_url y / 4)
              ∷ [])
          else error "Wrong padding in the string")
  unfolding do_base64_decode_impl
  decode_three w x y (hw, (hx, (hy, _))) =
      let c = val is_url w * 2 ^ 18 + val is_url x * 2 ^ 12 + val is_url y * 2 ^ 6 in
      let first : c / 2 ^ 16 % 256 ≡ val is_url w * 4 + val is_url x / 16 = omega arith in
      let second : c / 2 ^ 8 % 256 ≡ val is_url x % 16 * 16 + val is_url y / 4 = omega arith in
      rw (group_three is_url w x y hw hx hy, bit_and-low 8 c, first, second)
        (let low : (c % 2 ^ 8 == 0) ≡ (val is_url y % 4 == 0) = ground arith in rw low)

  pub decode_two :
      (w x : ℕ)
      → Valid (w ∷ x ∷ [])
      → do_base64_decode_impl is_url (w ∷ x ∷ []) ≡ (
          if val is_url x % 16 == 0
          then ok ((val is_url w * 4 + val is_url x / 16) ∷ [])
          else error "Wrong padding in the string")
  unfolding do_base64_decode_impl
  decode_two w x (hw, (hx, _)) =
      let c = val is_url w * 2 ^ 18 + val is_url x * 2 ^ 12 in
      let first : c / 2 ^ 16 % 256 ≡ val is_url w * 4 + val is_url x / 16 = omega arith in
      rw (group_two is_url w x hw hx, bit_and-low 16 c, first)
        (let low : (c % 2 ^ 16 == 0) ≡ (val is_url x % 16 == 0) = ground arith in rw low)
