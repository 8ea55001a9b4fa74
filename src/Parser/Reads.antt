-- ===== src/Parser/Reads.antt =====
-- read_till_nofail of td/utils/Parser.h against read_while.
use tdutils.Base.{
  ap, arith, Bool, Bool-cases, drop, false, if◌then◌else◌, inl, inr, length, List, ltb, ltb→ge,
  ltb→lt, min, none, not, Option-cases, refl, some, suc, sym, take, true, ℕ, [], ◌&&◌, ◌==◌, ◌||◌,
  ◌∙◌, ◌∷◌, ◌≡◌, ◌≤◌,
}
use tdutils.Parser.{best_till, find_char, Parser, read_till_nofail_any, read_while, split_at}

-- The symbols that the text begins with and that pass the test.
prefix_of : (ℕ → Bool) → List ℕ → ℕ
prefix_of f [] = 0
prefix_of f (d ∷ text) = if f d then suc (prefix_of f text) else 0

abbrev pub is_in : List ℕ → ℕ → Bool
is_in [] d = false
is_in (c ∷ str) d = (d == c) || is_in str d

read_while-prefix_of :
    (f : ℕ → Bool) (text : List ℕ)
    → (take (prefix_of f text) text, drop (prefix_of f text) text) ≡ read_while f text
unfolding prefix_of read_while
read_while-prefix_of f [] = refl
read_while-prefix_of f (d ∷ text) = elim (Bool-cases (f d)) [
  | inl e ↦ rw (e, prefix_of, read_while, ← read_while-prefix_of f text) refl
  | inr e ↦ rw (e, prefix_of, read_while) refl
]

prefix_of-le : (f : ℕ → Bool) (text : List ℕ) → prefix_of f text ≤ length text
unfolding prefix_of
prefix_of-le f [] = omega arith
prefix_of-le f (d ∷ text) = ground (arith, prefix_of-le f text)

-- Where memchr finds the symbol, and the end of the text where it does not.
position : ℕ → List ℕ → ℕ
position c text = elim (find_char c text) [ none ↦ length text | some i ↦ i ]

position-prefix_of : (c : ℕ) (text : List ℕ) → position c text ≡ prefix_of (λ d. not (d == c)) text
unfolding position find_char prefix_of
position-prefix_of c [] = refl
position-prefix_of c (d ∷ text) = elim (Bool-cases (d == c)) [
  | inl e ↦ rw (e, position, find_char, prefix_of) refl
  | inr e ↦ elim (Option-cases (find_char c text)) [
    | inl p ↦
        let h = position-prefix_of c text in
        let w : length text ≡ prefix_of (λ d. not (d == c)) text = rw (p, position) at h in
        rw (e, p, position, find_char, prefix_of) (ap suc w)
    | inr (i, p) ↦
        let h = position-prefix_of c text in
        let w : i ≡ prefix_of (λ d. not (d == c)) text = rw (p, position) at h in
        rw (e, p, position, find_char, prefix_of) (omega (arith, w))
  ]
]

prefix_of-either :
    (f g : ℕ → Bool) (text : List ℕ)
    → prefix_of (λ d. f d && g d) text ≡ min (prefix_of f text) (prefix_of g text)
unfolding prefix_of
prefix_of-either f g [] = omega arith
prefix_of-either f g (d ∷ text) = ground (arith, prefix_of-either f g text)

prefix_of-same :
    (f g : ℕ → Bool) (text : List ℕ) → ((d : ℕ) → f d ≡ g d) → prefix_of f text ≡ prefix_of g text
unfolding prefix_of
prefix_of-same f g [] h = refl
prefix_of-same f g (d ∷ text) h =
    rw (h d, prefix_of) (ap (λ n. if g d then suc n else 0) (prefix_of-same f g text h))

prefix_of-all : (text : List ℕ) → prefix_of (λ d. true) text ≡ length text
unfolding prefix_of
prefix_of-all [] = refl
prefix_of-all (d ∷ text) = ap suc (prefix_of-all text)

neither : (p q : Bool) → (not p && not q) ≡ not (p || q)
neither true q = refl
neither false q = refl

prefix_of-cons :
    (c : ℕ) (str text : List ℕ)
    → prefix_of (λ d. not (is_in (c ∷ str) d)) text
      ≡ min (prefix_of (λ d. not (d == c)) text) (prefix_of (λ d. not (is_in str d)) text)
prefix_of-cons c str text =
    sym (prefix_of-same _ _ text (λ d. neither (d == c) (is_in str d)))
    ∙ prefix_of-either (λ d. not (d == c)) (λ d. not (is_in str d)) text

best_till-min :
    (str text : List ℕ) (best : ℕ)
    → best ≤ length text
    → best_till str text best ≡ min best (prefix_of (λ d. not (is_in str d)) text)
unfolding best_till position
best_till-min [] text best h = omega (arith, prefix_of-all text)
best_till-min (c ∷ str) text best h =
    let q = position-prefix_of c text in
    let cons = prefix_of-cons c str text in
    let bound = prefix_of-le (λ d. not (d == c)) text in
    elim (Option-cases (find_char c text)) [
      | inl p ↦
          let w : length text ≡ prefix_of (λ d. not (d == c)) text = rw (p, position) at q in
          rw (p, best_till) (omega (arith, best_till-min str text best h))
      | inr (i, p) ↦
          let w : i ≡ prefix_of (λ d. not (d == c)) text = rw (p, position) at q in
          elim (Bool-cases (ltb i best)) [
            | inl l ↦
                rw (p, l, best_till)
                  (omega (arith, ltb→lt i best l, best_till-min str text i (omega arith)))
            | inr l ↦
                rw (p, l, best_till) (omega (arith, ltb→ge i best l, best_till-min str text best h))
          ]
    ]

-- Where the status is OK, read_till_nofail reads up to the first symbol of `str`, and all of the text
-- where it holds none: what read_while reads by the test for the other symbols.
pub read_till_nofail_any-read_while :
    (str : List ℕ) (p : Parser)
    → p.status ≡ none
    → ((read_till_nofail_any str p).0, (read_till_nofail_any str p).1.text)
      ≡ read_while (λ d. not (is_in str d)) p.text
unfolding read_till_nofail_any split_at
read_till_nofail_any-read_while str p h =
    let f : ℕ → Bool = λ d. not (is_in str d) in
    let w : best_till str p.text (length p.text) ≡ prefix_of f p.text =
      best_till-min str p.text (length p.text) (omega arith)
      ∙ omega (arith, prefix_of-le f p.text) in
    rw (h, read_till_nofail_any, split_at, w) (read_while-prefix_of f p.text)
