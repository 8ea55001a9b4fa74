-- ===== src/Base64/Padding.antt =====
-- base64_drop_padding: the signs at the end of the text.
use mathlib.Core.List.{reverse-append, reverse-reverse}
use tdutils.Base.{
  All, All-append, ap, arith, bit_and, Bool, Bool-cases, false, if◌then◌else◌, inl, inr, is_ok, leb,
  length, List, ltb, ne→==, not, ok, refl, replicate, reverse, suc, sym, true, zero, ℕ, [], ◌%◌,
  ◌&&◌, ◌++◌, ◌+◌, ◌-◌, ◌==◌, ◌||◌, ◌∙◌, ◌∷◌, ◌≡◌, ◌≢◌, ◌≤◌,
}
use tdutils.Base.Bits.{bit_and-low}
use tdutils.Base64.{base64_drop_padding, drop_signs, split_padding}

abbrev NotSign : ℕ → Type 0
NotSign c = c ≢ b'='

drop_signs-append :
    (k : ℕ) (r : List ℕ) (n : ℕ) → drop_signs (replicate k b'=' ++ r) n ≡ drop_signs r (n + k)
unfolding drop_signs
drop_signs-append zero r n = ap (drop_signs r) (omega arith)
drop_signs-append (suc k) r n = drop_signs-append k r (n + 1) ∙ ap (drop_signs r) (omega arith)

drop_signs_stop : (r : List ℕ) (n : ℕ) → All NotSign r → drop_signs r n ≡ (r, n)
unfolding drop_signs
drop_signs_stop [] n h = refl
drop_signs_stop (c ∷ r) n (h, _) = rw (ne→== c b'=' h)

replicate-snoc {ℓ} : {A : Type ℓ} (k : ℕ) (a : A) → replicate k a ++ a ∷ [] ≡ a ∷ replicate k a
replicate-snoc zero a = refl
replicate-snoc (suc k) a = ap (λ t. a ∷ t) (replicate-snoc k a)

reverse-replicate {ℓ} : {A : Type ℓ} (k : ℕ) (a : A) → reverse (replicate k a) ≡ replicate k a
reverse-replicate zero a = refl
reverse-replicate (suc k) a =
    reverse-append (a ∷ []) (replicate k a) ∙ rw (reverse-replicate k a) (replicate-snoc k a)

All-reverse {ℓ κ} : {A : Type ℓ} (P : A → Type κ) (s : List A) → All P s → All P (reverse s)
All-reverse P [] h = h
All-reverse P (x ∷ s) (p, h) =
    rw (reverse-append (x ∷ []) s) (All-append P (reverse s) (x ∷ []) (All-reverse P s h) (p, tt))

-- A text without signs, followed by `k` signs, is split into the two.
pub split_padding-append :
    (b : List ℕ) (k : ℕ) → All NotSign b → split_padding (b ++ replicate k b'=') ≡ (b, k)
unfolding split_padding
split_padding-append b k h =
    rw
      (
        reverse-append b (replicate k b'='),
        reverse-replicate {A = ℕ} k b'=',
        drop_signs-append k (reverse b) 0,
        drop_signs_stop (reverse b) (0 + k) (All-reverse NotSign b h),
        reverse-reverse b,
      )
      (ap (λ t. (b, t)) (omega arith))

drop_signs_parts :
    (r : List ℕ) (n : ℕ)
    → (replicate ((drop_signs r n).1 - n) b'=' ++ (drop_signs r n).0 ≡ r) × (n ≤ (drop_signs r n).1)
unfolding drop_signs
drop_signs_parts [] n = (let z : n - n ≡ 0 = omega arith in rw z, omega arith)
drop_signs_parts (c ∷ r) n = elim (Bool-cases (c == b'=')) [
  | inl sign ↦
      let (ih, le) = drop_signs_parts r (n + 1) in
      let z : (drop_signs r (n + 1)).1 - n ≡ suc ((drop_signs r (n + 1)).1 - (n + 1)) =
        omega arith in
      let e : c ≡ b'=' = ground arith in
      rw sign (rw z (ap (λ t. b'=' ∷ t) ih ∙ ap (λ t. t ∷ r) (sym e)), omega arith)
  | inr other ↦ let z : n - n ≡ 0 = omega arith in rw other (rw z, omega arith)
]

-- What split_padding removes is what it counts.
pub split_padding_parts :
    (s : List ℕ) → (split_padding s).0 ++ replicate (split_padding s).1 b'=' ≡ s
unfolding split_padding
split_padding_parts s =
    let (back, _) = drop_signs_parts (reverse s) 0 in
    let n = (drop_signs (reverse s) 0).1 in
    let z : n - 0 ≡ n = omega arith in
    let whole = ap reverse (rw z at back) in
    sym (
      reverse-append (replicate n b'=') (drop_signs (reverse s) 0).0
      ∙ ap (λ t. reverse (drop_signs (reverse s) 0).0 ++ t) (reverse-replicate n b'='))
    ∙ whole
    ∙ reverse-reverse s

-- The three checks on the `n` characters before `k` signs.
unfoldable pub padding_fits : Bool → ℕ → ℕ → Bool
padding_fits is_url n k =
    if leb 3 k
    then false
    else if (not is_url || ltb 0 k) && not (bit_and (n + k) 3 == 0)
    then false
    else if is_url && bit_and n 3 == 1
    then false
    else true

module _ (is_url : Bool) (s : List ℕ) where
  abbrev text : List ℕ
  text = (split_padding s).0

  abbrev count : ℕ
  count = (split_padding s).1

  pub drop_padding_fits :
      padding_fits is_url (length text) count ≡ true → base64_drop_padding is_url s ≡ ok text
  unfolding padding_fits base64_drop_padding
  drop_padding_fits h = elim (Bool-cases (leb 3 count)) [
    | inl a ↦ cc (rw a at h)
    | inr a ↦
        elim (Bool-cases
          ((not is_url || ltb 0 count) && not (bit_and (length text + count) 3 == 0))) [
            | inl b ↦ cc (rw (a, b) at h)
            | inr b ↦ elim (Bool-cases (is_url && bit_and (length text) 3 == 1)) [
              | inl c ↦ cc (rw (a, b, c) at h)
              | inr c ↦ rw (a, b, c)
            ]
          ]
  ]

  pub drop_padding_refuses :
      padding_fits is_url (length text) count ≡ false → is_ok (base64_drop_padding is_url s) ≡ false
  unfolding padding_fits base64_drop_padding
  drop_padding_refuses h = elim (Bool-cases (leb 3 count)) [
    | inl a ↦ rw a
    | inr a ↦
        elim (Bool-cases
          ((not is_url || ltb 0 count) && not (bit_and (length text + count) 3 == 0))) [
            | inl b ↦ rw (a, b)
            | inr b ↦ elim (Bool-cases (is_url && bit_and (length text) 3 == 1)) [
              | inl c ↦ rw (a, b, c)
              | inr c ↦ cc (rw (a, b, c) at h)
            ]
          ]
  ]

-- The checks in arithmetic.
pub padding_fits-plain : (n k : ℕ) → k ≤ 2 → (n + k) % 4 ≡ 0 → padding_fits false n k ≡ true
unfolding padding_fits
padding_fits-plain n k h e = ground (arith, bit_and-low 2 (n + k))

pub padding_fits-url : (n : ℕ) → n % 4 ≢ 1 → padding_fits true n 0 ≡ true
unfolding padding_fits
padding_fits-url n h = ground (arith, bit_and-low 2 n)

-- No accepted text leaves one character in its last group.
pub padding_fits-tail : (is_url : Bool) (n k : ℕ) → padding_fits is_url n k ≡ true → n % 4 ≢ 1
unfolding padding_fits
padding_fits-tail true n k h = ground (arith, bit_and-low 2 n)
padding_fits-tail false n k h = ground (arith, bit_and-low 2 (n + k))
