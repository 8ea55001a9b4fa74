-- ===== src/Misc/RunLength.antt =====
-- zero_encode, zero_decode, zero_one_encode and zero_one_decode of td/utils/misc.cpp: a byte that
-- `f` selects is followed by the length of its run.
use mathlib.Core.Path.{ap₂}
use tdutils.Base.{
  All, ap, arith, Bool, Bool-cases, drop, false, inl, inr, length, length-drop, List, ltb, refl,
  replicate, suc, true, zero, ℕ, [], ◌%◌, ◌&&◌, ◌*◌, ◌++◌, ◌+◌, ◌-◌, ◌<◌, ◌==◌, ◌^◌, ◌||◌, ◌∙◌, ◌∷◌,
  ◌≡◌, ◌≤◌,
}
use tdutils.Base.Text.{IsByte}

-- `n % 2 ^ 8` is the cast to unsigned char.
unfoldable pub x_decode : (ℕ → Bool) → List ℕ → List ℕ
x_decode f [] = []
x_decode f (c ∷ []) = c ∷ []
x_decode f (c ∷ n ∷ rest) = elim (f c) [
  | true ↦ replicate (n % 2 ^ 8) c ++ x_decode f rest
  | false ↦ c ∷ x_decode f (n ∷ rest)
]

-- The `while` of x_encode: `cnt` characters equal to `c` were seen before `rest`. `cnt` is an unsigned
-- char, which wraps at 2 ^ 8.
unfoldable pub count_run : ℕ → ℕ → List ℕ → ℕ
count_run cnt c [] = cnt
count_run cnt c (d ∷ rest) = elim (ltb cnt 250 && d == c) [
  | true ↦ count_run ((cnt + 1) % 2 ^ 8) c rest
  | false ↦ cnt
]

-- The loop of x_encode; `skip` characters were counted into the last run. `% 2 ^ 8` is the cast of the
-- count to char.
unfoldable pub x_encode_from : (ℕ → Bool) → ℕ → List ℕ → List ℕ
x_encode_from f skip [] = []
x_encode_from f (suc skip) (c ∷ rest) = x_encode_from f skip rest
x_encode_from f zero (c ∷ rest) = elim (f c) [
  | true ↦ c ∷ count_run 1 c rest % 2 ^ 8 ∷ x_encode_from f (count_run 1 c rest - 1) rest
  | false ↦ c ∷ x_encode_from f 0 rest
]

unfoldable pub x_encode : (ℕ → Bool) → List ℕ → List ℕ
x_encode f s = x_encode_from f 0 s

unfoldable pub is_zero : ℕ → Bool
is_zero c = c == 0

unfoldable pub is_zero_or_one : ℕ → Bool
is_zero_or_one c = c == 0 || c == 0xff

unfoldable pub zero_encode : List ℕ → List ℕ
zero_encode s = x_encode is_zero s

unfoldable pub zero_decode : List ℕ → List ℕ
zero_decode s = x_decode is_zero s

unfoldable pub zero_one_encode : List ℕ → List ℕ
zero_one_encode s = x_encode is_zero_or_one s

unfoldable pub zero_one_decode : List ℕ → List ℕ
zero_one_decode s = x_decode is_zero_or_one s

-- What count_run adds to its count is the length of a run of `c`.
record Run (cnt c : ℕ) (rest : List ℕ) (n : ℕ) : Type 0 where
  more : ℕ
  counted : n ≡ cnt + more
  bounded : n ≤ 250
  equal : replicate more c ++ drop more rest ≡ rest

count_run-Run : (cnt c : ℕ) (rest : List ℕ) → cnt ≤ 250 → Run cnt c rest (count_run cnt c rest)
unfolding count_run
count_run-Run cnt c [] k = record { more = 0; counted = omega arith; bounded = k; equal = refl }
count_run-Run cnt c (d ∷ rest) k = elim (Bool-cases (ltb cnt 250 && d == c)) [
  | inl e ↦
      let few : cnt < 250 = ground arith in
      let next : (cnt + 1) % 2 ^ 8 ≡ cnt + 1 = omega arith in
      rw (e, next, count_run)
        (let r = count_run-Run (cnt + 1) c rest (omega arith) in
          record {
            more = suc r.more;
            counted = omega (arith, r.counted);
            bounded = r.bounded;
            equal = ap₂ (λ x t. x ∷ t) (ground arith) r.equal;
          })
  | inr e ↦
      rw (e, count_run) (record { more = 0; counted = omega arith; bounded = k; equal = refl })
]

encode-skip :
    (f : ℕ → Bool) (k : ℕ) (s : List ℕ) → x_encode_from f k s ≡ x_encode_from f 0 (drop k s)
unfolding x_encode_from
encode-skip f zero s = refl
encode-skip f (suc k) [] = refl
encode-skip f (suc k) (c ∷ s) = encode-skip f k s

-- One step of the decoder.
decode_plain :
    (f : ℕ → Bool) (c : ℕ) (s : List ℕ) → f c ≡ false → x_decode f (c ∷ s) ≡ c ∷ x_decode f s
unfolding x_decode
decode_plain f c [] e = refl
decode_plain f c (d ∷ s) e = rw (e, x_decode) refl

decode_run :
    (f : ℕ → Bool) (c n : ℕ) (s : List ℕ)
    → f c ≡ true
    → n ≤ 250
    → x_decode f (c ∷ n % 2 ^ 8 ∷ s) ≡ replicate n c ++ x_decode f s
unfolding x_decode
decode_run f c n s e k =
    let byte : n % 2 ^ 8 % 2 ^ 8 ≡ n = omega arith in rw (e, byte, x_decode) refl

replicate-Run : (c n : ℕ) (s : List ℕ) → Run 1 c s n → replicate n c ++ drop (n - 1) s ≡ c ∷ s
replicate-Run c n s r =
    ap (λ k. replicate k c ++ drop (n - 1) s) {x = n} {y = suc r.more} (omega (arith, r.counted))
    ∙ ap (λ k. replicate (suc r.more) c ++ drop k s) {x = n - 1} {y = r.more}
        (omega (arith, r.counted))
    ∙ ap (λ t. c ∷ t) r.equal

round_trip_below :
    (f : ℕ → Bool) (n : ℕ) (s : List ℕ) → length s ≤ n → x_decode f (x_encode_from f 0 s) ≡ s
unfolding x_encode_from x_decode
round_trip_below f n [] h = refl
round_trip_below f zero (c ∷ s) h = absurd (omega arith)
round_trip_below f (suc n) (c ∷ s) h = elim (Bool-cases (f c)) [
  | inl e ↦
      let k = count_run 1 c s in
      let run = count_run-Run 1 c s (omega arith) in
      rw (e, x_encode_from)
        (decode_run f c k (x_encode_from f (k - 1) s) e run.bounded
          ∙ ap (λ t. replicate k c ++ x_decode f t) (encode-skip f (k - 1) s)
          ∙ ap (λ t. replicate k c ++ t)
              (round_trip_below f n (drop (k - 1) s) (omega (arith, length-drop (k - 1) s)))
          ∙ replicate-Run c k s run)
  | inr e ↦
      rw (e, x_encode_from)
        (decode_plain f c (x_encode_from f 0 s) e
          ∙ ap (λ t. c ∷ t) (round_trip_below f n s (omega arith)))
]

-- What x_encode writes decodes to the text, for every set of bytes that are counted: so zero_decode
-- undoes zero_encode and zero_one_decode undoes zero_one_encode.
pub x_decode-x_encode :
    (f : ℕ → Bool) (s : List ℕ)
    → (x_decode f (x_encode f s) ≡ s)
      × (zero_decode (zero_encode s) ≡ s)
      × (zero_one_decode (zero_one_encode s) ≡ s)
unfolding x_encode zero_decode zero_encode zero_one_decode zero_one_encode
x_decode-x_encode f s = (
  round_trip_below f (length s) s (omega arith),
  round_trip_below is_zero (length s) s (omega arith),
  round_trip_below is_zero_or_one (length s) s (omega arith),
)

encoded_below :
    (f : ℕ → Bool) (s : List ℕ) (k : ℕ)
    → All IsByte s
    → All IsByte (x_encode_from f k s) × (length (x_encode_from f k s) ≤ 2 * length s)
unfolding x_encode_from
encoded_below f [] zero h = (tt, omega arith)
encoded_below f [] (suc k) h = (tt, omega arith)
encoded_below f (c ∷ s) (suc k) (b, h) = let (a, l) = encoded_below f s k h in (a, omega arith)
encoded_below f (c ∷ s) zero (b, h) = elim (Bool-cases (f c)) [
  | inl e ↦
      let k = count_run 1 c s in
      let (a, l) = encoded_below f s (k - 1) h in
      rw (e, x_encode_from)
        ((b, (omega (arith, (count_run-Run 1 c s (omega arith)).bounded), a)), omega arith)
  | inr e ↦ let (a, l) = encoded_below f s 0 h in rw (e, x_encode_from) ((b, a), omega arith)
]

-- The encoder turns bytes into bytes: every count fits in one, and at most two are written for each.
x_encode_bound :
    (f : ℕ → Bool) (s : List ℕ)
    → All IsByte s
    → All IsByte (x_encode f s) × (length (x_encode f s) ≤ 2 * length s)
unfolding x_encode
x_encode_bound f s h = encoded_below f s 0 h
