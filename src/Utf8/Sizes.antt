-- ===== src/Utf8/Sizes.antt =====
-- What check_utf8 of td/utils/utf8.cpp reads of one character, by its lead and first continuation.
use tdutils.Base.{
  bit_and, bit_or, Bool, false, if◌then◌else◌, leb, List, ltb, none, not, refl, some, true, ℕ, ◌%◌,
  ◌&&◌, ◌/◌, ◌<◌, ◌==◌, ◌^◌, ◌∷◌, ◌≡◌,
}
use tdutils.Base.Bits.{holds_at, holds_below}
use tdutils.Utf8.Check.{
  character_size, ensure_four, ensure_three, is_continuation, lead_size, size_four, size_three,
}

same : Bool → Bool → Bool
same true b = b
same false b = not b

same_eq : (a b : Bool) → same a b ≡ true → a ≡ b
unfolding same
same_eq true true e = refl
same_eq true false e = cc
same_eq false true e = cc
same_eq false false e = refl

conjuncts : (p q : Bool) → (p && q) ≡ true → (p ≡ true) × (q ≡ true)
conjuncts true true e = (refl, refl)
conjuncts true false e = cc
conjuncts false q e = cc

negated : (p : Bool) → not p ≡ true → p ≡ false
negated true e = cc
negated false e = refl

pub continuations : holds_below 64 (λ y. is_continuation (bit_or 0x80 y % 2 ^ 8)) ≡ true
unfolding holds_below is_continuation
continuations = refl

-- Lead and first continuation by the bits that both carry.
lead_and_next : ℕ → ℕ → Bool
lead_and_next a b = not (bit_and a 0x80 == 0) && (not (bit_and a 0x40 == 0) && is_continuation b)

two_table :
    holds_below 2048 (λ n.
      let a = bit_or 0xc0 (n / 64) % 2 ^ 8 in
      lead_and_next a (bit_or 0x80 (n % 64) % 2 ^ 8)
      && ((bit_and a 0x20 == 0) && same (ltb 0 (bit_and a 0x1e)) (leb 0x80 n)))
    ≡ true
unfolding holds_below lead_and_next is_continuation same
two_table = refl

unfoldable pub three_allowed : ℕ → Bool
three_allowed n = leb 32 n && not (leb 864 n && leb n 895)

three_table :
    holds_below 1024 (λ n.
      let a = bit_or 0xe0 (n / 64) % 2 ^ 8 in
      let b = bit_or 0x80 (n % 64) % 2 ^ 8 in
      lead_and_next a b
      && (not (bit_and a 0x20 == 0)
          && ((bit_and a 0x10 == 0) && same (ensure_three a b) (three_allowed n))))
    ≡ true
unfolding holds_below lead_and_next is_continuation same ensure_three three_allowed
three_table = refl

unfoldable pub four_allowed : ℕ → Bool
four_allowed n = leb 16 n && ltb n 272

four_table :
    holds_below 512 (λ n.
      let a = bit_or 0xf0 (n / 64) % 2 ^ 8 in
      let b = bit_or 0x80 (n % 64) % 2 ^ 8 in
      lead_and_next a b
      && (not (bit_and a 0x20 == 0)
          && (not (bit_and a 0x10 == 0)
              && ((bit_and a 0x08 == 0) && same (ensure_four a b) (four_allowed n)))))
    ≡ true
unfolding holds_below lead_and_next is_continuation same ensure_four four_allowed
four_table = refl

pub two_sizes :
    (n : ℕ) (rest : List ℕ)
    → n < 2048
    → character_size (bit_or 0xc0 (n / 64) % 2 ^ 8) (bit_or 0x80 (n % 64) % 2 ^ 8 ∷ rest)
      ≡ (if leb 0x80 n then some 1 else none)
unfolding character_size lead_size lead_and_next
two_sizes n rest h =
    let a = bit_or 0xc0 (n / 64) % 2 ^ 8 in
    let b = bit_or 0x80 (n % 64) % 2 ^ 8 in
    let f = λ (n : ℕ).
      let a = bit_or 0xc0 (n / 64) % 2 ^ 8 in
      lead_and_next a (bit_or 0x80 (n % 64) % 2 ^ 8)
      && ((bit_and a 0x20 == 0) && same (ltb 0 (bit_and a 0x1e)) (leb 0x80 n)) in
    let (l, r) =
      conjuncts (lead_and_next a b)
        ((bit_and a 0x20 == 0) && same (ltb 0 (bit_and a 0x1e)) (leb 0x80 n))
        (holds_at 2048 f two_table n h) in
    let (l1, l2) =
      conjuncts (not (bit_and a 0x80 == 0)) (not (bit_and a 0x40 == 0) && is_continuation b) l in
    let (r1, r2) = conjuncts (bit_and a 0x20 == 0) (same (ltb 0 (bit_and a 0x1e)) (leb 0x80 n)) r in
    rw
      (
        negated (bit_and a 0x80 == 0) l1,
        l2,
        r1,
        same_eq (ltb 0 (bit_and a 0x1e)) (leb 0x80 n) r2,
        character_size,
        lead_size,
      )
      refl

pub three_sizes :
    (n c : ℕ) (rest : List ℕ)
    → n < 1024
    → is_continuation c ≡ true
    → character_size (bit_or 0xe0 (n / 64) % 2 ^ 8) (bit_or 0x80 (n % 64) % 2 ^ 8 ∷ c ∷ rest)
      ≡ (if three_allowed n then some 2 else none)
unfolding character_size lead_size size_three lead_and_next
three_sizes n c rest h k =
    let a = bit_or 0xe0 (n / 64) % 2 ^ 8 in
    let b = bit_or 0x80 (n % 64) % 2 ^ 8 in
    let f = λ (n : ℕ).
      let a = bit_or 0xe0 (n / 64) % 2 ^ 8 in
      let b = bit_or 0x80 (n % 64) % 2 ^ 8 in
      lead_and_next a b
      && (not (bit_and a 0x20 == 0)
          && ((bit_and a 0x10 == 0) && same (ensure_three a b) (three_allowed n))) in
    let t = same (ensure_three a b) (three_allowed n) in
    let (l, r) =
      conjuncts (lead_and_next a b) (not (bit_and a 0x20 == 0) && ((bit_and a 0x10 == 0) && t))
        (holds_at 1024 f three_table n h) in
    let (l1, l2) =
      conjuncts (not (bit_and a 0x80 == 0)) (not (bit_and a 0x40 == 0) && is_continuation b) l in
    let (r1, r') = conjuncts (not (bit_and a 0x20 == 0)) ((bit_and a 0x10 == 0) && t) r in
    let (r2, r3) = conjuncts (bit_and a 0x10 == 0) t r' in
    rw
      (
        negated (bit_and a 0x80 == 0) l1,
        l2,
        negated (bit_and a 0x20 == 0) r1,
        k,
        r2,
        same_eq (ensure_three a b) (three_allowed n) r3,
        character_size,
        lead_size,
        size_three,
      )
      refl

pub four_sizes :
    (n c d : ℕ) (rest : List ℕ)
    → n < 512
    → is_continuation c ≡ true
    → is_continuation d ≡ true
    → character_size (bit_or 0xf0 (n / 64) % 2 ^ 8) (bit_or 0x80 (n % 64) % 2 ^ 8 ∷ c ∷ d ∷ rest)
      ≡ (if four_allowed n then some 3 else none)
unfolding character_size lead_size size_three size_four lead_and_next
four_sizes n c d rest h k m =
    let a = bit_or 0xf0 (n / 64) % 2 ^ 8 in
    let b = bit_or 0x80 (n % 64) % 2 ^ 8 in
    let f = λ (n : ℕ).
      let a = bit_or 0xf0 (n / 64) % 2 ^ 8 in
      let b = bit_or 0x80 (n % 64) % 2 ^ 8 in
      lead_and_next a b
      && (not (bit_and a 0x20 == 0)
          && (not (bit_and a 0x10 == 0)
              && ((bit_and a 0x08 == 0) && same (ensure_four a b) (four_allowed n)))) in
    let t = same (ensure_four a b) (four_allowed n) in
    let (l, r) =
      conjuncts (lead_and_next a b)
        (not (bit_and a 0x20 == 0) && (not (bit_and a 0x10 == 0) && ((bit_and a 0x08 == 0) && t)))
        (holds_at 512 f four_table n h) in
    let (l1, l2) =
      conjuncts (not (bit_and a 0x80 == 0)) (not (bit_and a 0x40 == 0) && is_continuation b) l in
    let (r1, r') =
      conjuncts (not (bit_and a 0x20 == 0))
        (not (bit_and a 0x10 == 0) && ((bit_and a 0x08 == 0) && t)) r in
    let (r2, r'') = conjuncts (not (bit_and a 0x10 == 0)) ((bit_and a 0x08 == 0) && t) r' in
    let (r3, r4) = conjuncts (bit_and a 0x08 == 0) t r'' in
    rw
      (
        negated (bit_and a 0x80 == 0) l1,
        l2,
        negated (bit_and a 0x20 == 0) r1,
        k,
        negated (bit_and a 0x10 == 0) r2,
        m,
        r3,
        same_eq (ensure_four a b) (four_allowed n) r4,
        character_size,
        lead_size,
        size_three,
        size_four,
      )
      refl
