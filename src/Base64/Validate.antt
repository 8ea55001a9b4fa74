-- ===== src/Base64/Validate.antt =====
-- is_base64 and is_base64url against the decoder.
use tdutils.Base.{
  All, All-append_left, ap, arith, bit_and, Bool, Bool-cases, false, if◌then◌else◌, inl, inr, is_ok,
  is_ok-bind_error, is_ok-bind_ok, leb, length, List, ltb, not, refl, replicate, suc, sym, true, ℕ,
  [], ◌%◌, ◌&&◌, ◌++◌, ◌+◌, ◌==◌, ◌||◌, ◌∙◌, ◌∷◌, ◌≡◌, ◌≢◌,
}
use tdutils.Base.Bits.{bit_and-low}
use tdutils.Base.Text.{IsByte}
use tdutils.Base64.{
  base64_decode_impl, char_to_value, do_base64_decode_impl, is_base64_characters_impl,
  is_base64_impl, last_value, split_padding,
}
use tdutils.Base64.Decode.{decode_four, decode_three, decode_two, Valid}
use tdutils.Base64.Groups.{group_bits-accepts}
use tdutils.Base64.Values.{value_bound}
use tdutils.Base64.Padding.{padding_fits, padding_fits-tail, split_padding_parts}
use tdutils.Base64.Buffer.{decode_impl_fits, decode_impl_refuses}

module _ (is_url : Bool) where
  chars-append :
      (s t : List ℕ)
      → is_base64_characters_impl is_url (s ++ t)
        ≡ (is_base64_characters_impl is_url s && is_base64_characters_impl is_url t)
  unfolding is_base64_characters_impl
  chars-append [] t = refl
  chars-append (c ∷ s) t = elim (Bool-cases (char_to_value is_url c == 64)) [
    | inl bad ↦ rw bad
    | inr good ↦ rw good (chars-append s t)
  ]

  pub chars-Valid :
      (s : List ℕ) → All IsByte s → is_base64_characters_impl is_url s ≡ true → Valid is_url s
  unfolding is_base64_characters_impl
  chars-Valid [] b h = tt
  chars-Valid (c ∷ s) (hc, b) h = elim (Bool-cases (char_to_value is_url c == 64)) [
    | inl bad ↦ cc (rw bad at h)
    | inr good ↦ (ground (arith, value_bound is_url c hc), chars-Valid s b (rw good at h))
  ]

  -- The unused bits of the last value, in a last group of two or three characters.
  abbrev pub tail_fits : List ℕ → Bool
  tail_fits s =
      if length s % 4 == 2
      then last_value is_url s % 16 == 0
      else if length s % 4 == 3
      then last_value is_url s % 4 == 0
      else true

  tail_fits_four : (w x y z : ℕ) (rest : List ℕ) → tail_fits (w ∷ x ∷ y ∷ z ∷ rest) ≡ tail_fits rest
  tail_fits_four w x y z [] = refl
  tail_fits_four w x y z (c ∷ rest) =
      let n : suc (suc (suc (suc (suc (length rest))))) % 4 ≡ suc (length rest) % 4 = omega arith in
      rw n

  -- The loop of the decoder accepts exactly the texts over the alphabet whose last group has no
  -- stray bits.
  pub decode-accepts :
      (s : List ℕ)
      → All IsByte s
      → length s % 4 ≢ 1
      → is_ok (do_base64_decode_impl is_url s) ≡ (is_base64_characters_impl is_url s && tail_fits s)
  decode-accepts [] b n = unfold do_base64_decode_impl is_base64_characters_impl in refl
  decode-accepts (w ∷ []) b n = absurd (n (omega arith))
  decode-accepts (w ∷ x ∷ []) b n =
      elim (Bool-cases (is_base64_characters_impl is_url (w ∷ x ∷ []))) [
        | inl good ↦
            rw (good, decode_two is_url w x (chars-Valid (w ∷ x ∷ []) b good)) (ground arith)
        | inr bad ↦ rw bad (
            unfold do_base64_decode_impl in
            is_ok-bind_error _ _ (group_bits-accepts is_url (w ∷ x ∷ []) 0 0 ∙ bad))
      ]
  decode-accepts (w ∷ x ∷ y ∷ []) b n =
      elim (Bool-cases (is_base64_characters_impl is_url (w ∷ x ∷ y ∷ []))) [
        | inl good ↦
            rw (good, decode_three is_url w x y (chars-Valid (w ∷ x ∷ y ∷ []) b good))
              (ground arith)
        | inr bad ↦ rw bad (
            unfold do_base64_decode_impl in
            is_ok-bind_error _ _ (group_bits-accepts is_url (w ∷ x ∷ y ∷ []) 0 0 ∙ bad))
      ]
  decode-accepts (w ∷ x ∷ y ∷ z ∷ rest) (bw, (bx, (by, (bz, b)))) n =
      let four = w ∷ x ∷ y ∷ z ∷ [] in
      let bytes : All IsByte four = (bw, (bx, (by, (bz, tt)))) in
      elim (Bool-cases (is_base64_characters_impl is_url four)) [
        | inl good ↦
            rw
              (
                chars-append four rest,
                good,
                decode_four is_url w x y z rest (chars-Valid four bytes good),
                tail_fits_four w x y z rest,
              )
              (is_ok-bind_ok (do_base64_decode_impl is_url rest) _
                ∙ decode-accepts rest b (omega arith))
        | inr bad ↦
            rw (chars-append four rest, bad)
              (unfold do_base64_decode_impl in
                is_ok-bind_error _ _ (group_bits-accepts is_url four 0 0 ∙ bad))
      ]

checks_shape :
    (a b c d e f : Bool)
    → (if a
        then false
        else if b
        then false
        else if c
        then false
        else if not d
        then false
        else if e
        then false
        else if f
        then false
        else true)
      ≡ ((if a then false else if b then false else if c then false else true)
          && (d && (not e && not f)))
checks_shape true b c d e f = refl
checks_shape false true c d e f = refl
checks_shape false false true d e f = refl
checks_shape false false false false e f = refl
checks_shape false false false true true f = refl
checks_shape false false false true false true = refl
checks_shape false false false true false false = refl

tail_shape :
    (n x : ℕ)
    → (not (bit_and n 3 == 2 && not (bit_and x 15 == 0))
        && not (bit_and n 3 == 3 && not (bit_and x 3 == 0)))
      ≡ (if n % 4 == 2 then x % 16 == 0 else if n % 4 == 3 then x % 4 == 0 else true)
tail_shape n x =
    rw (bit_and-low 2 n, bit_and-low 4 x, bit_and-low 2 x)
      (shape (n % 4) (x % 16 == 0) (x % 4 == 0))
  where
    shape :
        (r : ℕ) (p q : Bool)
        → (not (r == 2 && not p) && not (r == 3 && not q))
          ≡ (if r == 2 then p else if r == 3 then q else true)
    shape r p q = ground arith

module _ (is_url : Bool) (s : List ℕ) (bytes : All IsByte s) where
  abbrev pub input : List ℕ
  input = (split_padding s).0

  pub input_bytes : All IsByte input
  input_bytes =
      All-append_left IsByte input (replicate (split_padding s).1 b'=')
        (rw (split_padding_parts s) bytes)

  is_base64_shape : is_base64_impl is_url s ≡ (
      padding_fits is_url (length input) (split_padding s).1
      && (is_base64_characters_impl is_url input && tail_fits is_url input))
  unfolding is_base64_impl padding_fits
  is_base64_shape =
      checks_shape (leb 3 (split_padding s).1)
        ((not is_url || ltb 0 (split_padding s).1)
          && not (bit_and (length input + (split_padding s).1) 3 == 0))
        (is_url && bit_and (length input) 3 == 1) (is_base64_characters_impl is_url input)
        (bit_and (length input) 3 == 2 && not (bit_and (last_value is_url input) 15 == 0))
        (bit_and (length input) 3 == 3 && not (bit_and (last_value is_url input) 3 == 0))
      ∙ ap
          (λ t.
            padding_fits is_url (length input) (split_padding s).1
            && (is_base64_characters_impl is_url input && t))
          (tail_shape (length input) (last_value is_url input))

  -- is_base64 and is_base64url accept exactly the texts that base64_decode and base64url_decode
  -- decode without an error, for every byte string.
  pub is_base64-decode : is_base64_impl is_url s ≡ is_ok (base64_decode_impl is_url s)
  is_base64-decode = elim (Bool-cases (padding_fits is_url (length input) (split_padding s).1)) [
    | inl fits ↦
        rw (is_base64_shape, fits, decode_impl_fits is_url s fits)
          (sym (decode-accepts is_url input input_bytes (padding_fits-tail is_url _ _ fits)))
    | inr bad ↦ rw (is_base64_shape, bad) (sym (decode_impl_refuses is_url s bad))
  ]
