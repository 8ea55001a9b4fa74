-- ===== src/Base64/Canonical.antt =====
-- Texts that the decoder of td/utils/base64.cpp accepts, and the buffer that it allocates for them.
use mathlib.Core.Bool.{true≢false}
use native.Mathlib.Nat.{mod-lt}
use tdutils.Base.{
  All, ap, append-nil, arith, bit_and, Bool, Bool-cases, error, false, inl, inr, is_ok, is_ok-bind,
  length, List, ok, refl, replicate, Result, sym, true, ℕ, [], ◌%◌, ◌&&◌, ◌*◌, ◌++◌, ◌+◌, ◌-◌, ◌/◌,
  ◌<◌, ◌==◌, ◌^◌, ◌∙◌, ◌∷◌, ◌≡◌, ◌≢◌, ◌≤◌,
}
use tdutils.Base.Bits.{bit_and-low}
use tdutils.Base.Text.{IsByte}
use tdutils.Base64.{
  base64_decode, base64_decode_impl, base64_encode, base64url_decode, base64url_encode,
  char_to_value, character, do_base64_decode_impl, group_bits, split_padding,
}
use tdutils.Base64.Encode.{body, encode-body, length-body, signs, signs-le}
use tdutils.Base64.Decode.{decode_four, decode_three, decode_two, Valid}
use tdutils.Base64.Values.{character-value}
use tdutils.Base64.Padding.{padding_fits, padding_fits-tail, split_padding_parts}
use tdutils.Base64.Validate.{chars-Valid, decode-accepts, input_bytes}
use tdutils.Base64.Buffer.{decode_impl_fits, decode_impl_refuses}

module _ (is_url : Bool) where
  back :
      (c i : ℕ)
      → IsByte c
      → char_to_value is_url c < 64
      → i ≡ char_to_value is_url c
      → character is_url i ≡ c
  back c i b h e = rw e (character-value is_url c b (omega arith))

  ok-injective : {d d' : List ℕ} → ok d ≡ ok d' → d ≡ d'
  ok-injective e = cc

  -- Each byte is cut to eight bits as it is written.
  decode_loop-bytes : (s d : List ℕ) → do_base64_decode_impl is_url s ≡ ok d → All IsByte d
  unfolding do_base64_decode_impl
  decode_loop-bytes [] d e = rw (← ok-injective e) tt
  decode_loop-bytes (w ∷ []) d e =
      let (c, _, f) = is_ok-bind (group_bits is_url (w ∷ []) 0 0) _ e in
      rw (← ok-injective f) (omega arith)
  decode_loop-bytes (w ∷ x ∷ []) d e =
      let (c, _, f) = is_ok-bind (group_bits is_url (w ∷ x ∷ []) 0 0) _ e in
      elim (Bool-cases (bit_and c (2 ^ 16 - 1) == 0)) [
        | inl fine ↦ rw (← ok-injective (rw fine at f)) (omega arith)
        | inr stray ↦ cc (rw stray at f)
      ]
  decode_loop-bytes (w ∷ x ∷ y ∷ []) d e =
      let (c, _, f) = is_ok-bind (group_bits is_url (w ∷ x ∷ y ∷ []) 0 0) _ e in
      elim (Bool-cases (bit_and c (2 ^ 8 - 1) == 0)) [
        | inl fine ↦ rw (← ok-injective (rw fine at f)) (omega arith)
        | inr stray ↦ cc (rw stray at f)
      ]
  decode_loop-bytes (w ∷ x ∷ y ∷ z ∷ rest) d e =
      let (c, _, f) = is_ok-bind (group_bits is_url (w ∷ x ∷ y ∷ z ∷ []) 0 0) _ e in
      let (out, g, h) = is_ok-bind (do_base64_decode_impl is_url rest) _ f in
      rw (← ok-injective h) (
        mod-lt (c / 2 ^ 16) (omega arith),
        (mod-lt (c / 2 ^ 8) (omega arith), (mod-lt c (omega arith), decode_loop-bytes rest out g)),
      )

  decode_nothing : do_base64_decode_impl is_url [] ≡ ok []
  unfolding do_base64_decode_impl
  decode_nothing = refl

  -- What the loop wrote encodes back to the characters that it read.
  body-decode_loop :
      (s d : List ℕ)
      → All IsByte s
      → Valid is_url s
      → length s % 4 ≢ 1
      → do_base64_decode_impl is_url s ≡ ok d
      → body is_url d ≡ s
  unfolding body
  body-decode_loop [] d b v n e = rw (← ok-injective (sym decode_nothing ∙ e)) refl
  body-decode_loop (w ∷ []) d b v n e = absurd (n (omega arith))
  body-decode_loop (w ∷ x ∷ []) d (bw, (bx, b)) (vw, (vx, v)) n e =
      elim (Bool-cases (char_to_value is_url x % 16 == 0)) [
        | inl zero_bits ↦
            let d' = (char_to_value is_url w * 4 + char_to_value is_url x / 16) ∷ [] in
            let eq : d' ≡ d =
              ok-injective (rw (decode_two is_url w x (vw, (vx, tt)), zero_bits) at e) in
            rw (← eq) (
              rw (
                back w ((char_to_value is_url w * 4 + char_to_value is_url x / 16) / 4) bw vw
                    (omega arith),
                back x ((char_to_value is_url w * 4 + char_to_value is_url x / 16) % 4 * 16) bx vx
                    (ground arith),
              ))
        | inr stray ↦ cc (rw (decode_two is_url w x (vw, (vx, tt)), stray) at e)
      ]
  body-decode_loop (w ∷ x ∷ y ∷ []) d (bw, (bx, (by, b))) (vw, (vx, (vy, v))) n e =
      let step = decode_three is_url w x y (vw, (vx, (vy, tt))) in
      elim (Bool-cases (char_to_value is_url y % 4 == 0)) [
        | inl zero_bits ↦
            let d' =
              (char_to_value is_url w * 4 + char_to_value is_url x / 16)
              ∷ (char_to_value is_url x % 16 * 16 + char_to_value is_url y / 4)
              ∷ [] in
            let eq : d' ≡ d = ok-injective (rw (step, zero_bits) at e) in
            rw (← eq) (
              rw (
                back w ((char_to_value is_url w * 4 + char_to_value is_url x / 16) / 4) bw vw
                    (omega arith),
                back x
                    ((char_to_value is_url w * 4 + char_to_value is_url x / 16) % 4 * 16
                      + (char_to_value is_url x % 16 * 16 + char_to_value is_url y / 4) / 16)
                    bx vx (omega arith),
                back y ((char_to_value is_url x % 16 * 16 + char_to_value is_url y / 4) % 16 * 4) by
                    vy (ground arith),
              ))
        | inr stray ↦ cc (rw (step, stray) at e)
      ]
  body-decode_loop (w ∷ x ∷ y ∷ z ∷ rest) d (bw, (bx, (by, (bz, b)))) (vw, (vx, (vy, (vz, v)))) n
        e =
      let step = decode_four is_url w x y z rest (vw, (vx, (vy, (vz, tt)))) in
      let (out, g, h) = is_ok-bind (do_base64_decode_impl is_url rest) _ (rw step at e) in
      rw (← ok-injective h) (
        rw (
          back w ((char_to_value is_url w * 4 + char_to_value is_url x / 16) / 4) bw vw
              (omega arith),
          back x
              ((char_to_value is_url w * 4 + char_to_value is_url x / 16) % 4 * 16
                + (char_to_value is_url x % 16 * 16 + char_to_value is_url y / 4) / 16)
              bx vx (omega arith),
          back y
              ((char_to_value is_url x % 16 * 16 + char_to_value is_url y / 4) % 16 * 4
                + (char_to_value is_url y % 4 * 64 + char_to_value is_url z) / 64)
              by vy (omega arith),
          back z ((char_to_value is_url y % 4 * 64 + char_to_value is_url z) % 64) bz vz
              (omega arith),
          body-decode_loop rest out b v (omega arith) g,
        ))

is_ok_of {ℓ} : {A : Type ℓ} (r : Result A) {a : A} → r ≡ ok a → is_ok r ≡ true
is_ok_of (ok b) e = refl
is_ok_of (error m) e = cc

and_left : (a b : Bool) → (a && b) ≡ true → a ≡ true
and_left true b h = refl
and_left false b h = h

-- An accepted text: its checks pass, and the loop decodes what stands before the signs.
accepted :
    (is_url : Bool) (s d : List ℕ)
    → base64_decode_impl is_url s ≡ ok d
    → (padding_fits is_url (length (split_padding s).0) (split_padding s).1 ≡ true)
      × (do_base64_decode_impl is_url (split_padding s).0 ≡ ok d)
accepted is_url s d e =
    elim (Bool-cases (padding_fits is_url (length (split_padding s).0) (split_padding s).1)) [
      | inl fits ↦ (fits, sym (decode_impl_fits is_url s fits) ∙ e)
      | inr bad ↦ absurd (true≢false (sym (ap is_ok e) ∙ decode_impl_refuses is_url s bad))
    ]

decoded_body :
    (is_url : Bool) (s d : List ℕ)
    → All IsByte s
    → base64_decode_impl is_url s ≡ ok d
    → body is_url d ≡ (split_padding s).0
decoded_body is_url s d b e =
    let (fits, loop) = accepted is_url s d e in
    let tail = padding_fits-tail is_url _ _ fits in
    let bytes = input_bytes is_url s b in
    let chars =
      and_left _ _ (sym (decode-accepts is_url (split_padding s).0 bytes tail) ∙ is_ok_of _ loop) in
    body-decode_loop is_url (split_padding s).0 d bytes (chars-Valid is_url _ bytes chars) tail loop

fits_plain : (n k : ℕ) → padding_fits false n k ≡ true → (k ≤ 2) × ((n + k) % 4 ≡ 0)
unfolding padding_fits
fits_plain n k h = ground (arith, bit_and-low 2 (n + k))

-- Every text that base64_decode accepts is what base64_encode writes for the decoded bytes: no two
-- texts decode to the same bytes.
pub base64_encode-decode :
    (s d : List ℕ) → All IsByte s → base64_decode s ≡ ok d → base64_encode d ≡ s
unfolding base64_decode base64_encode
base64_encode-decode s d b e =
    let (fits, loop) = accepted false s d e in
    let (few, whole) = fits_plain (length (split_padding s).0) (split_padding s).1 fits in
    let text = decoded_body false s d b e in
    let count : signs d ≡ (split_padding s).1 =
      omega (arith, few, whole, length-body false d, ap length text, signs-le d) in
    encode-body false d (decode_loop-bytes false _ d loop)
    ∙ rw (text, count) (split_padding_parts s)

-- Every text that base64url_decode accepts is, without the equals signs at its end, what
-- base64url_encode writes for the decoded bytes.
base64url_encode-decode :
    (s d : List ℕ)
    → All IsByte s
    → base64url_decode s ≡ ok d
    → base64url_encode d ++ replicate (split_padding s).1 b'=' ≡ s
unfolding base64url_decode base64url_encode
base64url_encode-decode s d b e =
    rw
      (
        encode-body true d (decode_loop-bytes true _ d (accepted true s d e).1),
        append-nil (body true d),
        decoded_body true s d b e,
      )
      (split_padding_parts s)
