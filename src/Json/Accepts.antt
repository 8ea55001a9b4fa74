-- ===== src/Json/Accepts.antt =====
-- When the checks of JsonString (td/utils/JsonBuilder.cpp) hold: check_utf8 of td/utils/utf8.cpp.
use tdutils.Base.{
  All, arith, bit_and, bit_or, Bool, Bool-cases, false, if◌then◌else◌, inl, inr, leb, length, List,
  ltb, none, not, Option, Option-cases, refl, some, suc, true, zero, ℕ, [], ◌&&◌, ◌*◌, ◌++◌, ◌+◌,
  ◌==◌, ◌∙◌, ◌∷◌, ◌≡◌, ◌≤◌,
}
use tdutils.Base.Bits.{holds_at, holds_below}
use tdutils.Base.Text.{IsByte}
use tdutils.Json.Leads.{Continues, continues, lead_four, lead_three, lead_two}
use tdutils.Utf8.Check.{
  character_size, check_from, check_utf8, ensure_four, is_continuation, lead_size, size_four,
  size_three,
}
use tdutils.Json.Multibyte.{big_four, big_three}
use tdutils.Json.Strings.{
  escaped, json_string, prepend, print_char, print_four, print_lead, print_three, string_body,
  with_size,
}
use tdutils.Utf8.RoundTrip.{join_four, join_three, join_two}
use tdutils.Json.Sizes.{coded-size, ensure_four-bits, ensure_three-bits, is_some, size_of}

size_four-print :
    (a b c : ℕ) (s : List ℕ)
    → IsByte a
    → (leb 128 a
        && (not (bit_and a 0x40 == 0) && (not (bit_and a 0x20 == 0) && not (bit_and a 0x10 == 0))))
      ≡ true
    → Continues b (bit_and b 0x3f)
    → Continues c (bit_and c 0x3f)
    → All IsByte s
    → size_of (print_four a b c s) ≡ size_four a b (s ++ 0 ∷ [])
unfolding print_four size_four Continues is_continuation
size_four-print a b c [] h t cb cc' hs = refl
size_four-print a b c (d ∷ s) h t cb cc' (hd, hs) =
    elim (Bool-cases (is_continuation d && (bit_and a 0x08 == 0))) [
      | inr q ↦ rw (q, print_four, size_four) refl
      | inl q ↦
          let (ea, la) = lead_four a h (ground arith) in
          let (eb, lb, _, bb) = cb in
          let (ec, lc, _, _) = cc' in
          let (ed, ld, _, _) = continues d hd (ground arith) in
          let x = bit_and a 0x07 in
          let y = bit_and b 0x3f in
          let e : ensure_four a b ≡ (ltb 0 (bit_or x (bit_and b 0x30)) && ltb (x * 64 + y) 272) =
            ensure_four-bits a b x y ea eb la lb in
          elim (Bool-cases (ltb 0 (bit_or x (bit_and b 0x30)))) [
            | inr r ↦ rw (q, e, r, print_four, size_four) refl
            | inl r ↦
                let big = big_four x y (bit_and c 0x3f) (bit_and d 0x3f) (bit_and b 0x30) r bb in
                rw (q, e, r, print_four, size_four)
                  (coded-size 3 _ _ (ltb (x * 64 + y) 272)
                    (join_four x y (bit_and c 0x3f) (bit_and d 0x3f) lb lc ld) (ground arith))
          ]
    ]

size_three-print :
    (a b : ℕ) (s : List ℕ)
    → IsByte a
    → (leb 128 a && (not (bit_and a 0x40 == 0) && not (bit_and a 0x20 == 0))) ≡ true
    → Continues b (bit_and b 0x3f)
    → All IsByte s
    → size_of (print_three a b s) ≡ size_three a b (s ++ 0 ∷ [])
unfolding print_three size_three Continues is_continuation
size_three-print a b [] h t cb hs = refl
size_three-print a b (c ∷ s) h t cb (hc, hs) = elim (Bool-cases (is_continuation c)) [
  | inr p ↦ rw (p, print_three, size_three) refl
  | inl p ↦ elim (Bool-cases (bit_and a 0x10 == 0)) [
    | inr q ↦
        rw (p, q, print_three, size_three)
          (size_four-print a b c s h (ground arith) cb (continues c hc p) hs)
    | inl q ↦
        let (ea, la) = lead_three a h (ground arith) in
        let (eb, lb, bb, _) = cb in
        let (ec, lc, _, _) = continues c hc p in
        let x = bit_and a 0x0f in
        let y = bit_and b 0x3f in
        let e = ensure_three-bits a b x y ea eb la lb in
        elim (Bool-cases (ltb 0 (bit_or x (bit_and b 0x20)))) [
          | inr r ↦ rw (p, q, e, r, print_three, size_three) refl
          | inl r ↦
              let big = big_three x y (bit_and c 0x3f) (bit_and b 0x20) r bb in
              rw (p, q, e, r, print_three, size_three)
                (coded-size 2 _ _ (not (leb 864 (x * 64 + y) && leb (x * 64 + y) 895))
                  (join_three x y (bit_and c 0x3f) lb lc) (ground arith))
        ]
  ]
]

lead_size-print :
    (a : ℕ) (s : List ℕ)
    → IsByte a
    → leb 128 a ≡ true
    → All IsByte s
    → size_of (print_lead a s) ≡ lead_size a (s ++ 0 ∷ [])
unfolding print_lead lead_size Continues is_continuation
lead_size-print a [] h t hs = elim (Bool-cases (bit_and a 0x40 == 0)) [
  | inl p ↦ rw (p, lead_size, print_lead) refl
  | inr p ↦ rw (p, lead_size, print_lead) refl
]
lead_size-print a (b ∷ s) h t (hb, hs) =
    elim (Bool-cases (not (bit_and a 0x40 == 0) && is_continuation b)) [
      | inr p ↦ rw (p, print_lead, lead_size) refl
      | inl p ↦ elim (Bool-cases (bit_and a 0x20 == 0)) [
        | inr q ↦
            rw (p, q, print_lead, lead_size)
              (size_three-print a b s h (ground arith) (continues b hb (ground arith)) hs)
        | inl q ↦ elim (Bool-cases (ltb 0 (bit_and a 0x1e))) [
          | inr r ↦ rw (p, q, r, print_lead, lead_size) refl
          | inl r ↦
              let (ea, big, la) = lead_two a h (ground arith) in
              let (eb, lb, _, _) = continues b hb (ground arith) in
              rw (p, q, r, print_lead, lead_size)
                (coded-size 1 _ _ true (join_two (bit_and a 0x1f) (bit_and b 0x3f) lb)
                  (ground arith))
        ]
      ]
    ]

byte_table :
    holds_below 256 (λ a. if leb 128 a then not (bit_and a 0x80 == 0) else bit_and a 0x80 == 0)
    ≡ true
unfolding holds_below
byte_table = refl

escaped-small : (ch : ℕ) → leb 128 ch ≡ true → escaped ch ≡ none
unfolding escaped
escaped-small ch h = ground arith

character_size-print :
    (ch : ℕ) (s : List ℕ)
    → IsByte ch
    → All IsByte s
    → size_of (print_char ch s) ≡ character_size ch (s ++ 0 ∷ [])
unfolding print_char character_size
character_size-print ch s h hs =
    let t = holds_at 256 _ byte_table ch h in
    elim (Bool-cases (leb 128 ch)) [
      | inl big ↦
          let e : (bit_and ch 0x80 == 0) ≡ false = ground arith in
          rw (escaped-small ch big, big, e, print_char, character_size)
            (lead_size-print ch s h big hs)
      | inr small ↦
          let e : (bit_and ch 0x80 == 0) ≡ true = ground arith in
          elim (Option-cases (escaped ch)) [
            | inl p ↦ rw (p, small, e, print_char, character_size) refl
            | inr (out, p) ↦ rw (p, e, print_char, character_size) refl
          ]
    ]

-- A character lies within the string.
abbrev Within : ℕ → Option ℕ → Type 0
Within n none = Unit {0}
Within n (some k) = k ≤ n

if-Within :
    (b : Bool) (n m : ℕ) (o : Option (List ℕ))
    → n ≤ m
    → Within m (size_of (if b then with_size n o else none))
if-Within true n m none h = tt
if-Within true n m (some out) h = h
if-Within false n m o h = tt

print_lead-Within : (a : ℕ) (s : List ℕ) → Within (length s) (size_of (print_lead a s))
unfolding print_lead print_three print_four
print_lead-Within a [] = tt
print_lead-Within a (b ∷ s) = elim (Bool-cases (not (bit_and a 0x40 == 0) && is_continuation b)) [
  | inr p ↦ rw (p, print_lead) tt
  | inl p ↦ elim (Bool-cases (bit_and a 0x20 == 0)) [
    | inl q ↦ rw (p, q, print_lead) (if-Within _ 1 _ _ (omega arith))
    | inr q ↦ rw (p, q, print_lead) (three s)
  ]
]
  where
    four : (c : ℕ) (s : List ℕ) → Within (suc (suc (length s))) (size_of (print_four a b c s))
    four c [] = tt
    four c (d ∷ s) = if-Within _ 3 _ _ (omega arith)

    three : (s : List ℕ) → Within (suc (length s)) (size_of (print_three a b s))
    three [] = tt
    three (c ∷ s) = elim (Bool-cases (is_continuation c)) [
      | inr p ↦ rw (p, print_three) tt
      | inl p ↦ elim (Bool-cases (bit_and a 0x10 == 0)) [
        | inl q ↦ rw (p, q, print_three) (if-Within _ 2 _ _ (omega arith))
        | inr q ↦ rw (p, q, print_three) (four c s)
      ]
    ]

print_char-Within : (ch : ℕ) (s : List ℕ) → Within (length s) (size_of (print_char ch s))
unfolding print_char
print_char-Within ch s = elim (Option-cases (escaped ch)) [
  | inr (out, p) ↦ rw (p, print_char) (omega arith)
  | inl p ↦ elim (Bool-cases (leb 128 ch)) [
    | inl q ↦ rw (p, q, print_char) (print_lead-Within ch s)
    | inr q ↦ rw (p, q, print_char) (omega arith)
  ]
]

is_some-prepend : (out : List ℕ) (o : Option (List ℕ)) → is_some (prepend out o) ≡ is_some o
is_some-prepend out none = refl
is_some-prepend out (some t) = refl

-- A round of the loop of check_utf8 where something follows.
check_round :
    (a : ℕ) (rest : List ℕ)
    → check_from 0 (a ∷ rest ++ 0 ∷ []) ≡ elim (character_size a (rest ++ 0 ∷ [])) [
      | none ↦ false
      | some skip ↦ check_from skip (rest ++ 0 ∷ [])
    ]
unfolding check_from
check_round a [] = refl
check_round a (b ∷ rest) = refl

string_body-check :
    (skip : ℕ) (s : List ℕ)
    → skip ≤ length s
    → All IsByte s
    → is_some (string_body skip s) ≡ check_from skip (s ++ 0 ∷ [])
unfolding string_body check_from
string_body-check zero [] l h = refl
string_body-check (suc skip) [] l h = absurd (omega arith)
string_body-check (suc skip) (ch ∷ s) l (hc, h) = (string_body-check skip s (omega arith) h)
string_body-check zero (ch ∷ s) l (hc, h) =
    let e = character_size-print ch s hc h in
    let w = print_char-Within ch s in
    elim (Option-cases (print_char ch s)) [
      | inl p ↦
          let f : none ≡ character_size ch (s ++ 0 ∷ []) = rw p at e in
          rw (p, string_body, check_round ch s, ← f) refl
      | inr ((out, k), p) ↦
          let f : some k ≡ character_size ch (s ++ 0 ∷ []) = rw p at e in
          rw (p, string_body, check_round ch s, ← f)
            (is_some-prepend out (string_body k s) ∙ string_body-check k s (rw p at w) h)
    ]

is_some-json_string :
    (o : Option (List ℕ))
    → is_some (prepend (b'"' ∷ []) (elim o [ none ↦ none | some body ↦ some (body ++ b'"' ∷ []) ]))
      ≡ is_some o
is_some-json_string none = refl
is_some-json_string (some body) = refl

-- The checks of JsonString hold on exactly the byte strings that check_utf8 accepts.
pub json_string-check_utf8 : (s : List ℕ) → All IsByte s → is_some (json_string s) ≡ check_utf8 s
unfolding json_string check_utf8
json_string-check_utf8 s h =
    is_some-json_string (string_body 0 s) ∙ string_body-check 0 s (omega arith) h
