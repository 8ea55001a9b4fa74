-- ===== src/Base64/Groups.antt =====
-- The bits that the inner loop of the decoder gathers from one group of characters.
use tdutils.Base.{
  ap, arith, bit_or, Bool, Bool-cases, error, inl, inr, is_ok, List, ne→==, ok, refl, ℕ, [], ◌*◌,
  ◌+◌, ◌-◌, ◌<◌, ◌==◌, ◌^◌, ◌∙◌, ◌∷◌, ◌≡◌, ◌≢◌,
}
use tdutils.Base.Bits.{bit_or-add, zero-bit_or}
use tdutils.Base64.{char_to_value, group_bits, is_base64_characters_impl}

module _ (is_url : Bool) where
  abbrev pub val : ℕ → ℕ
  val = char_to_value is_url

  step_ok :
      (x : ℕ) (rest : List ℕ) (t c : ℕ)
      → val x ≢ 64
      → group_bits is_url (x ∷ rest) t c
        ≡ group_bits is_url rest (t + 1) (bit_or c (val x * 2 ^ ((3 - t) * 6)))
  unfolding group_bits
  step_ok x rest t c h = rw (ne→== (val x) 64 h)

  step_bad :
      (x : ℕ) (rest : List ℕ) (t c : ℕ)
      → val x ≡ 64
      → group_bits is_url (x ∷ rest) t c ≡ error "Wrong character in the string"
  unfolding group_bits
  step_bad x rest t c h = rw h

  first_bits : (v : ℕ) → bit_or 0 (v * 2 ^ 18) ≡ v * 2 ^ 18
  first_bits v = zero-bit_or (v * 2 ^ 18)

  pub group_two :
      (w x : ℕ)
      → val w < 64
      → val x < 64
      → group_bits is_url (w ∷ x ∷ []) 0 0 ≡ ok (val w * 2 ^ 18 + val x * 2 ^ 12)
  unfolding group_bits
  group_two w x hw hx =
      rw (step_ok w (x ∷ []) 0 0 (omega arith), first_bits (val w))
        (rw (step_ok x [] 1 (val w * 2 ^ 18) (omega arith))
          (ap ok (bit_or-add 18 (val w * 2 ^ 18) (val x * 2 ^ 12) (omega arith) (omega arith))))

  pub group_three :
      (w x y : ℕ)
      → val w < 64
      → val x < 64
      → val y < 64
      → group_bits is_url (w ∷ x ∷ y ∷ []) 0 0
        ≡ ok (val w * 2 ^ 18 + val x * 2 ^ 12 + val y * 2 ^ 6)
  unfolding group_bits
  group_three w x y hw hx hy =
      rw (step_ok w (x ∷ y ∷ []) 0 0 (omega arith), first_bits (val w))
        (rw
          (
            step_ok x (y ∷ []) 1 (val w * 2 ^ 18) (omega arith),
            bit_or-add 18 (val w * 2 ^ 18) (val x * 2 ^ 12) (omega arith) (omega arith),
          )
          (rw (step_ok y [] 2 (val w * 2 ^ 18 + val x * 2 ^ 12) (omega arith)) (
            ap ok (
              bit_or-add 12 (val w * 2 ^ 18 + val x * 2 ^ 12) (val y * 2 ^ 6) (omega arith)
                (omega arith)))))

  pub group_four :
      (w x y z : ℕ)
      → val w < 64
      → val x < 64
      → val y < 64
      → val z < 64
      → group_bits is_url (w ∷ x ∷ y ∷ z ∷ []) 0 0
        ≡ ok (val w * 2 ^ 18 + val x * 2 ^ 12 + val y * 2 ^ 6 + val z)
  unfolding group_bits
  group_four w x y z hw hx hy hz =
      rw (step_ok w (x ∷ y ∷ z ∷ []) 0 0 (omega arith), first_bits (val w))
        (rw
          (
            step_ok x (y ∷ z ∷ []) 1 (val w * 2 ^ 18) (omega arith),
            bit_or-add 18 (val w * 2 ^ 18) (val x * 2 ^ 12) (omega arith) (omega arith),
          )
          (rw
            (
              step_ok y (z ∷ []) 2 (val w * 2 ^ 18 + val x * 2 ^ 12) (omega arith),
              bit_or-add 12 (val w * 2 ^ 18 + val x * 2 ^ 12) (val y * 2 ^ 6) (omega arith)
                  (omega arith),
            )
            (rw (step_ok z [] 3 (val w * 2 ^ 18 + val x * 2 ^ 12 + val y * 2 ^ 6) (omega arith)) (
              ap ok (
                bit_or-add 6 (val w * 2 ^ 18 + val x * 2 ^ 12 + val y * 2 ^ 6) (val z * 1)
                  (omega arith) (omega arith)
                ∙ omega arith)))))

  -- The loop stops at the first character outside the alphabet, and only there.
  pub group_bits-accepts :
      (s : List ℕ) (t c : ℕ) → is_ok (group_bits is_url s t c) ≡ is_base64_characters_impl is_url s
  unfolding group_bits is_base64_characters_impl
  group_bits-accepts [] t c = refl
  group_bits-accepts (x ∷ rest) t c =
      let ih = group_bits-accepts rest (t + 1) (bit_or c (val x * 2 ^ ((3 - t) * 6))) in
      elim (Bool-cases (val x == 64)) [ inl bad ↦ rw bad | inr good ↦ rw good ih ]
