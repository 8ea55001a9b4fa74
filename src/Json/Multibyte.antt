-- ===== src/Json/Multibyte.antt =====
-- What JsonString prints for a character of several code units (td/utils/JsonBuilder.cpp).
use mathlib.Core.Option.{none-ne-some}
use tdutils.Base.{
  All, arith, bit_and, bit_or, Bool-cases, false, inl, inr, leb, List, ltb, none, not, Option, refl,
  some, sym, take, true, ℕ, [], ◌&&◌, ◌*◌, ◌+◌, ◌==◌, ◌∙◌, ◌∷◌, ◌≡◌, ◌≤◌,
}
use tdutils.Base.Text.{IsByte}
use tdutils.Json.Chunks.{ReadAs, Transparent}
use tdutils.Json.Strings.{print_four, print_lead, print_three, with_size}
use tdutils.Json.Chars.{json_char-Chunk}
use tdutils.Json.Leads.{
  Continues, continues, lead_four, lead_three, lead_two, list_four, list_three, list_two,
  units_four, units_three, units_two,
}
use tdutils.Json.Escapes.{json_char, json_code_units}
use tdutils.Utf8.Check.{is_continuation}
use tdutils.Utf8.RoundTrip.{join_four, join_three, join_two}

unfoldable pub Chunk : List ℕ → List ℕ → Type 0
Chunk out bytes = Transparent out × ReadAs out bytes

with_size-some :
    (n : ℕ) (o : Option (List ℕ)) (out : List ℕ) (k : ℕ)
    → with_size n o ≡ some (out, k)
    → (o ≡ some out) × (k ≡ n)
with_size-some n none out k e = cc
with_size-some n (some out') out k e = (cc, cc)

-- A code whose code units are known.
coded-Chunk :
    (n num num' : ℕ) (bytes out : List ℕ) (k : ℕ)
    → num ≡ num'
    → json_code_units num' ≡ bytes
    → with_size n (json_char num) ≡ some (out, k)
    → Chunk out bytes × (k ≡ n)
unfolding Chunk
coded-Chunk n num num' bytes out k p q e =
    let (f, g) = with_size-some n (json_char num) out k e in
    let w : json_code_units num ≡ bytes = rw p q in (rw (← w) (json_char-Chunk num out f), g)

bit_or-none : (p q : ℕ) → p ≡ 0 → q ≡ 0 → ltb 0 (bit_or p q) ≡ false
bit_or-none p q e f = rw (e, f) refl

-- One of two fields that are not both empty.
one_of : (p q : ℕ) → ltb 0 (bit_or p q) ≡ true → (p == 0) ≡ true → (q == 0) ≡ false
one_of p q e f = elim (Bool-cases (q == 0)) [
  | inl g ↦ let w = bit_or-none p q (ground arith) (ground arith) in cc
  | inr g ↦ g
]

pub big_four :
    (x y z w q : ℕ)
    → ltb 0 (bit_or x q) ≡ true
    → ((q == 0) ≡ false → 16 ≤ y)
    → 0x10000 ≤ x * 262144 + y * 4096 + z * 64 + w
big_four x y z w q h k = elim (Bool-cases (x == 0)) [
  | inl e ↦ omega (arith, k (one_of x q h e))
  | inr e ↦ ground arith
]

pub big_three :
    (x y z q : ℕ)
    → ltb 0 (bit_or x q) ≡ true
    → ((q == 0) ≡ false → 32 ≤ y)
    → 0x800 ≤ x * 4096 + y * 64 + z
big_three x y z q h k = elim (Bool-cases (x == 0)) [
  | inl e ↦ omega (arith, k (one_of x q h e))
  | inr e ↦ ground arith
]

print_four-Chunk :
    (a b c : ℕ) (s out : List ℕ) (k : ℕ)
    → IsByte a
    → (leb 128 a
        && (not (bit_and a 0x40 == 0) && (not (bit_and a 0x20 == 0) && not (bit_and a 0x10 == 0))))
      ≡ true
    → Continues b (bit_and b 0x3f)
    → Continues c (bit_and c 0x3f)
    → All IsByte s
    → print_four a b c s ≡ some (out, k)
    → Chunk out (a ∷ take k (b ∷ c ∷ s))
unfolding print_four Continues
print_four-Chunk a b c [] out k h t cb cc' hs e = absurd (none-ne-some _ e)
print_four-Chunk a b c (d ∷ s) out k h t cb cc' (hd, hs) e =
    elim (Bool-cases (
      is_continuation d
      && (bit_and a 0x08 == 0)
      && ltb 0 (bit_or (bit_and a 0x07) (bit_and b 0x30)))) [
        | inr q ↦ absurd (none-ne-some _ (rw (q, print_four) at e))
        | inl q ↦
            let (ea, la) = lead_four a h (ground arith) in
            let (eb, lb, _, bb) = cb in
            let (ec, lc, _, _) = cc' in
            let (ed, ld, _, _) = continues d hd (ground arith) in
            let x = bit_and a 0x07 in
            let y = bit_and b 0x3f in
            let big : 0x10000 ≤ x * 262144 + y * 4096 + bit_and c 0x3f * 64 + bit_and d 0x3f =
              big_four x y (bit_and c 0x3f) (bit_and d 0x3f) (bit_and b 0x30) (ground arith) bb in
            let (chunk, ek) =
              coded-Chunk 3 _ _ _ out k (join_four x y (bit_and c 0x3f) (bit_and d 0x3f) lb lc ld)
                (units_four x y (bit_and c 0x3f) (bit_and d 0x3f) big la lb lc ld
                  ∙ list_four (sym ea) (sym eb) (sym ec) (sym ed))
                (rw (q, print_four) at e) in
            rw ek chunk
      ]

print_three-Chunk :
    (a b : ℕ) (s out : List ℕ) (k : ℕ)
    → IsByte a
    → (leb 128 a && (not (bit_and a 0x40 == 0) && not (bit_and a 0x20 == 0))) ≡ true
    → Continues b (bit_and b 0x3f)
    → All IsByte s
    → print_three a b s ≡ some (out, k)
    → Chunk out (a ∷ take k (b ∷ s))
unfolding print_three Continues
print_three-Chunk a b [] out k h t cb hs e = absurd (none-ne-some _ e)
print_three-Chunk a b (c ∷ s) out k h t cb (hc, hs) e = elim (Bool-cases (is_continuation c)) [
  | inr p ↦ absurd (none-ne-some _ (rw (p, print_three) at e))
  | inl p ↦ elim (Bool-cases (bit_and a 0x10 == 0)) [
    | inr q ↦
        print_four-Chunk a b c s out k h (ground arith) cb (continues c hc p) hs
          (rw (p, q, print_three) at e)
    | inl q ↦ elim (Bool-cases (ltb 0 (bit_or (bit_and a 0x0f) (bit_and b 0x20)))) [
      | inr r ↦ absurd (none-ne-some _ (rw (p, q, r, print_three) at e))
      | inl r ↦
          let (ea, la) = lead_three a h (ground arith) in
          let (eb, lb, bb, _) = cb in
          let (ec, lc, _, _) = continues c hc p in
          let x = bit_and a 0x0f in
          let y = bit_and b 0x3f in
          let big = big_three x y (bit_and c 0x3f) (bit_and b 0x20) r bb in
          let (chunk, ek) =
            coded-Chunk 2 _ _ _ out k (join_three x y (bit_and c 0x3f) lb lc)
              (units_three x y (bit_and c 0x3f) big la lb lc
                ∙ list_three (sym ea) (sym eb) (sym ec))
              (rw (p, q, r, print_three) at e) in
          rw ek chunk
    ]
  ]
]

pub print_lead-Chunk :
    (a : ℕ) (s out : List ℕ) (k : ℕ)
    → IsByte a
    → leb 128 a ≡ true
    → All IsByte s
    → print_lead a s ≡ some (out, k)
    → Chunk out (a ∷ take k s)
unfolding print_lead Continues
print_lead-Chunk a [] out k h t hs e = absurd (none-ne-some _ e)
print_lead-Chunk a (b ∷ s) out k h t (hb, hs) e =
    elim (Bool-cases (not (bit_and a 0x40 == 0) && is_continuation b)) [
      | inr p ↦ absurd (none-ne-some _ (rw (p, print_lead) at e))
      | inl p ↦ elim (Bool-cases (bit_and a 0x20 == 0)) [
        | inr q ↦
            print_three-Chunk a b s out k h (ground arith) (continues b hb (ground arith)) hs
              (rw (p, q, print_lead) at e)
        | inl q ↦ elim (Bool-cases (ltb 0 (bit_and a 0x1e))) [
          | inr r ↦ absurd (none-ne-some _ (rw (p, q, r, print_lead) at e))
          | inl r ↦
              let (ea, big, la) = lead_two a h (ground arith) in
              let (eb, lb, _, _) = continues b hb (ground arith) in
              let x = bit_and a 0x1f in
              let y = bit_and b 0x3f in
              let (chunk, ek) =
                coded-Chunk 1 _ _ _ out k (join_two x y lb)
                  (units_two x y big la lb ∙ list_two (sym ea) (sym eb))
                  (rw (p, q, r, print_lead) at e) in
              rw ek chunk
        ]
      ]
    ]
