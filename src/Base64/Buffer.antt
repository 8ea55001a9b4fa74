-- ===== src/Base64/Buffer.antt =====
-- The buffer that base64_decode_impl of td/utils/base64.cpp allocates and what the loop writes to it.
use mathlib.Core.Bool.{true≢false}
use tdutils.Base.{
  ap, append-nil, arith, Bool, Bool-cases, drop, drop_all, error, false, ge→ltb, if◌then◌else◌, inl,
  inr, is_ok, is_ok-bind, is_ok-bind_error, length, length-replicate, List, ltb, ok, refl,
  replicate, Result, sym, true, ℕ, [], ◌%◌, ◌*◌, ◌++◌, ◌+◌, ◌/◌, ◌>>=◌, ◌∙◌, ◌∷◌, ◌≡◌, ◌≢◌, ◌≤◌,
  ◌⊎◌,
}
use tdutils.Base.Bits.{bit_and-low}
use tdutils.Base64.{
  base64_decode_impl, base64_drop_padding, decoded_size, do_base64_decode_impl, group_bits,
  split_padding, written_bytes,
}
use tdutils.Base64.Padding.{
  drop_padding_fits, drop_padding_refuses, padding_fits, padding_fits-tail,
}

module _ (is_url : Bool) where
  length-do_base64_decode_impl :
      (s d : List ℕ)
      → length s % 4 ≢ 1
      → do_base64_decode_impl is_url s ≡ ok d
      → (length d ≡ length s / 4 * 3 + (length s % 4 + 1) / 2) × (written_bytes is_url s ≡ length d)
  unfolding do_base64_decode_impl written_bytes
  length-do_base64_decode_impl [] d n e = ground arith
  length-do_base64_decode_impl (w ∷ []) d n e = absurd (n (omega arith))
  length-do_base64_decode_impl (w ∷ x ∷ []) d n e =
      let (c, g, f) = is_ok-bind (group_bits is_url (w ∷ x ∷ []) 0 0) _ e in
      rw (ap is_ok g) (ground arith)
  length-do_base64_decode_impl (w ∷ x ∷ y ∷ []) d n e =
      let (c, g, f) = is_ok-bind (group_bits is_url (w ∷ x ∷ y ∷ []) 0 0) _ e in
      rw (ap is_ok g) (ground arith)
  length-do_base64_decode_impl (w ∷ x ∷ y ∷ z ∷ rest) d n e =
      let (c, g, f) = is_ok-bind (group_bits is_url (w ∷ x ∷ y ∷ z ∷ []) 0 0) _ e in
      let (out, k, h) = is_ok-bind (do_base64_decode_impl is_url rest) _ f in
      let (ih, writes) = length-do_base64_decode_impl rest out (omega arith) k in
      rw (ap is_ok g) (ground (arith, ih, writes))

  written_bytes-le :
      (s : List ℕ)
      → length s % 4 ≢ 1
      → written_bytes is_url s ≤ length s / 4 * 3 + (length s % 4 + 1) / 2
  unfolding written_bytes
  written_bytes-le [] n = omega arith
  written_bytes-le (w ∷ []) n = absurd (n (omega arith))
  written_bytes-le (w ∷ x ∷ []) n = ground arith
  written_bytes-le (w ∷ x ∷ y ∷ []) n = ground arith
  written_bytes-le (w ∷ x ∷ y ∷ z ∷ rest) n =
      let ih = written_bytes-le rest (omega arith) in
      elim (Bool-cases (is_ok (group_bits is_url (w ∷ x ∷ y ∷ z ∷ []) 0 0))) [
        | inl b ↦ rw b (omega (arith, ih))
        | inr b ↦ rw b (omega arith)
      ]

  decoded_size_lem : (s : List ℕ) → decoded_size s ≡ length s / 4 * 3 + (length s % 4 + 1) / 2
  unfolding decoded_size
  decoded_size_lem s = rw (bit_and-low 2 (length s)) refl

  -- The write stays in the buffer, and fills it where the loop ends.
  filled :
      (base64 : List ℕ)
      → length base64 % 4 ≢ 1
      → (let result = replicate (decoded_size base64) 0 in
          if ltb (length result) (written_bytes is_url base64)
          then error "Write out of range"
          else (do_base64_decode_impl is_url base64 >>= λ out.
              ok (out ++ drop (length out) result)))
        ≡ do_base64_decode_impl is_url base64
  filled base64 n =
      let result = replicate (decoded_size base64) 0 in
      let size : length result ≡ decoded_size base64 =
        length-replicate {A = ℕ} (decoded_size base64) 0 in
      let room : ltb (length result) (written_bytes is_url base64) ≡ false =
        ge→ltb _ _ (omega (arith, size, decoded_size_lem base64, written_bytes-le base64 n)) in
      rw room (by_result (do_base64_decode_impl is_url base64) refl)
    where
      by_result :
          (r : Result (List ℕ))
          → do_base64_decode_impl is_url base64 ≡ r
          → (r >>= λ out. ok (out ++ drop (length out) (replicate (decoded_size base64) 0))) ≡ r
      by_result (error m) e = refl
      by_result (ok d) e =
          let (l, _) = length-do_base64_decode_impl base64 d n e in
          let size = length-replicate {A = ℕ} (decoded_size base64) 0 in
          rw
            (drop_all {A = ℕ} (replicate (decoded_size base64) 0) (length d)
              (omega (arith, l, size, decoded_size_lem base64)))
            (ap ok (append-nil d))

  -- An input whose signs are in order is what the loop makes of it.
  pub decode_impl_fits :
      (s : List ℕ)
      → padding_fits is_url (length (split_padding s).0) (split_padding s).1 ≡ true
      → base64_decode_impl is_url s ≡ do_base64_decode_impl is_url (split_padding s).0
  unfolding base64_decode_impl
  decode_impl_fits s fits =
      rw (drop_padding_fits is_url s fits)
        (filled (split_padding s).0 (padding_fits-tail is_url _ _ fits))

  pub decode_impl_refuses :
      (s : List ℕ)
      → padding_fits is_url (length (split_padding s).0) (split_padding s).1 ≡ false
      → is_ok (base64_decode_impl is_url s) ≡ false
  unfolding base64_decode_impl
  decode_impl_refuses s bad = is_ok-bind_error _ _ (drop_padding_refuses is_url s bad)

  ok-injective : {d d' : List ℕ} → ok d ≡ ok d' → d ≡ d'
  ok-injective e = cc

  -- A text that base64_drop_padding accepts.
  dropped :
      (s base64 : List ℕ)
      → base64_drop_padding is_url s ≡ ok base64
      → (length base64 % 4 ≢ 1)
        × (base64_decode_impl is_url s ≡ do_base64_decode_impl is_url base64)
  dropped s base64 e =
      let text = (split_padding s).0 in
      elim (Bool-cases (padding_fits is_url (length text) (split_padding s).1)) [
        | inl fits ↦
            let same : text ≡ base64 = ok-injective (sym (drop_padding_fits is_url s fits) ∙ e) in
            rw (← same) (padding_fits-tail is_url _ _ fits, decode_impl_fits s fits)
        | inr bad ↦ absurd (true≢false (sym (ap is_ok e) ∙ drop_padding_refuses is_url s bad))
      ]

  -- What the loop makes of its text, and what base64_decode_impl answers then.
  abbrev pub Filled : List ℕ → List ℕ → List ℕ → Type 0
  Filled s base64 d =
      (do_base64_decode_impl is_url base64 ≡ ok d)
      × (base64_decode_impl is_url s ≡ ok d)
      × (length d ≡ decoded_size base64)
      × (written_bytes is_url base64 ≡ decoded_size base64)

  -- Where base64_drop_padding accepts the equals signs at the end of a text, the loop writes no more
  -- bytes than base64_decode_impl allocates, also if it refuses the text after some groups; if it
  -- refuses nothing, it writes exactly as many as are allocated, and they are the answer.
  pub base64_decode_size :
      (s base64 : List ℕ)
      → base64_drop_padding is_url s ≡ ok base64
      → (written_bytes is_url base64 ≤ decoded_size base64)
        × (((d : List ℕ) × Filled s base64 d)
            ⊎ (is_ok (do_base64_decode_impl is_url base64) ≡ false)
              × (is_ok (base64_decode_impl is_url s) ≡ false))
  base64_decode_size s base64 e =
      let (n, same) = dropped s base64 e in
      (
        omega (arith, decoded_size_lem base64, written_bytes-le base64 n),
        by_result n same (do_base64_decode_impl is_url base64) refl,
      )
    where
      by_result :
          length base64 % 4 ≢ 1
          → base64_decode_impl is_url s ≡ do_base64_decode_impl is_url base64
          → (r : Result (List ℕ)) → do_base64_decode_impl is_url base64 ≡ r
          → ((d : List ℕ) × Filled s base64 d)
            ⊎ (is_ok (do_base64_decode_impl is_url base64) ≡ false)
              × (is_ok (base64_decode_impl is_url s) ≡ false)
      by_result n same (error m) q = inr (ap is_ok q, ap is_ok (same ∙ q))
      by_result n same (ok d) q =
          let (l, w) = length-do_base64_decode_impl base64 d n q in
          let size = decoded_size_lem base64 in
          inl (d, (q, same ∙ q, omega (arith, l, size), omega (arith, l, w, size)))
