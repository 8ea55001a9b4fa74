-- ===== src/Json/Values/Fuel.antt =====
-- The loops of do_json_decode (td/utils/JsonBuilder.cpp) end: each round reads a symbol.
use tdutils.Base.{
  arith, Bool, Bool-cases, error, false, if◌then◌else◌, inl, inr, length, List, none, ok, Option,
  Option-cases, refl, Result, some, true, ℕ, [], ◌+◌, ◌<◌, ◌==◌, ◌>>=◌, ◌∷◌, ◌≡◌, ◌≢◌, ◌≤◌,
}
use tdutils.Json.Strings.{before, find_closing}
use tdutils.Json.Values.{is_number_char, ran_out, starts_number}
use tdutils.Parser.{
  find_char, peek_char, read_while, skip_till_not, skip_whitespaces, try_skip, try_skip_prefix,
  whitespaces,
}

-- A parser that did not run out of fuel, and leaves fewer than `n` symbols where it succeeds.
unfoldable pub Progress {ℓ} : {T : Type ℓ} → ℕ → Result (T × List ℕ) → Type 0
Progress n (error message) = message ≢ ran_out
Progress n (ok (value, rest)) = length rest < n

module _ {ℓ κ} {S : Type ℓ} {T : Type κ} where
  pub Progress-bind :
      (n : ℕ) (r : Result (S × List ℕ)) (g : S → List ℕ → Result (T × List ℕ))
      → Progress n r
      → ((v : S) (t : List ℕ) → length t < n → Progress n (g v t))
      → Progress n (elim r [ error e ↦ error e | ok (v, t) ↦ g v t ])
  unfolding Progress
  Progress-bind n (error e) g h k = h
  Progress-bind n (ok (v, t)) g h k = k v t h

  pub Progress-map :
      (n : ℕ) (f : S → T) (r : Result (S × List ℕ))
      → Progress n r
      → Progress n (r >>= λ (s, rest). ok (f s, rest))
  unfolding Progress
  Progress-map n f (error e) h = h
  Progress-map n f (ok (s, rest)) h = h

module _ {ℓ} {T : Type ℓ} where
  pub Progress-le : (m n : ℕ) (r : Result (T × List ℕ)) → m ≤ n → Progress m r → Progress n r
  unfolding Progress
  Progress-le m n (error e) l h = h
  Progress-le m n (ok (s, rest)) l h = omega arith

  pub if-Progress :
      (n : ℕ) (b : Bool) (r s : Result (T × List ℕ))
      → (b ≡ true → Progress n r)
      → (b ≡ false → Progress n s)
      → Progress n (if b then r else s)
  if-Progress n true r s h k = h refl
  if-Progress n false r s h k = k refl

pub try_skip-shorter :
    (c : ℕ) (text : List ℕ) {rest : List ℕ}
    → try_skip c text ≡ some rest
    → length rest < length text
unfolding try_skip
try_skip-shorter c [] e = cc
try_skip-shorter c (d ∷ text) e = ground arith

skip_till_not-le : (str text : List ℕ) → length (skip_till_not str text) ≤ length text
unfolding skip_till_not
skip_till_not-le str [] = omega arith
skip_till_not-le str (c ∷ text) = elim (Option-cases (find_char c str)) [
  | inl e ↦ rw (e, skip_till_not) (omega arith)
  | inr (i, e) ↦ rw (e, skip_till_not) (omega (arith, skip_till_not-le str text))
]

pub skip_whitespaces-le : (text : List ℕ) → length (skip_whitespaces text) ≤ length text
unfolding skip_whitespaces
skip_whitespaces-le text = skip_till_not-le whitespaces text

pub try_skip_prefix-le :
    (prefix text : List ℕ) {rest : List ℕ}
    → try_skip_prefix prefix text ≡ some rest
    → length rest + length prefix ≡ length text
unfolding try_skip_prefix
try_skip_prefix-le [] text e = ground arith
try_skip_prefix-le (c ∷ prefix) [] e = cc
try_skip_prefix-le (c ∷ prefix) (d ∷ text) {rest} e = elim (Bool-cases (c == d)) [
  | inl q ↦
      let f : try_skip_prefix prefix text ≡ some rest = rw (← e, q, try_skip_prefix) refl in
      omega (arith, try_skip_prefix-le prefix text f)
  | inr q ↦ let f : none ≡ some rest = rw (← e, q, try_skip_prefix) refl in cc
]

read_while-le : (f : ℕ → Bool) (text : List ℕ) → length (read_while f text).1 ≤ length text
unfolding read_while
read_while-le f [] = omega arith
read_while-le f (c ∷ text) = elim (Bool-cases (f c)) [
  | inl e ↦ rw (e, read_while) (omega (arith, read_while-le f text))
  | inr e ↦ rw (e, read_while) (omega arith)
]

pub read_number-shorter :
    (text : List ℕ)
    → starts_number (peek_char text) ≡ true
    → length (read_while is_number_char text).1 < length text
unfolding read_while starts_number is_number_char peek_char
read_number-shorter [] h = cc
read_number-shorter (c ∷ text) h =
    let e : is_number_char c ≡ true = ground arith in
    rw (e, read_while) (omega (arith, read_while-le is_number_char text))

-- The rest behind a closing quote, where one is found.
abbrev pub Shorter : ℕ → Option (List ℕ × List ℕ) → Type 0
Shorter n none = Unit {0}
Shorter n (some (s, rest)) = length rest < n

Shorter-before :
    (m n : ℕ) (out : List ℕ) (o : Option (List ℕ × List ℕ))
    → m ≤ n
    → Shorter m o
    → Shorter n (before out o)
Shorter-before m n out none l h = tt
Shorter-before m n out (some (s, rest)) l h = omega arith

pub find_closing-Shorter : (text : List ℕ) → Shorter (length text) (find_closing text)
unfolding find_closing
find_closing-Shorter [] = tt
find_closing-Shorter (c ∷ []) = elim (Bool-cases (c == b'"')) [
  | inl e ↦ rw (e, find_closing) (omega arith)
  | inr e ↦ rw (e, find_closing) tt
]
find_closing-Shorter (c ∷ d ∷ text) = elim (Bool-cases (c == b'"')) [
  | inl e ↦ rw (e, find_closing) (omega arith)
  | inr e ↦ elim (Bool-cases (c == b'\\')) [
    | inl q ↦
        rw (e, q, find_closing)
          (Shorter-before (length text) (length (c ∷ d ∷ text)) (c ∷ d ∷ []) (find_closing text)
            (omega arith) (find_closing-Shorter text))
    | inr q ↦
        rw (e, q, find_closing)
          (Shorter-before (length (d ∷ text)) (length (c ∷ d ∷ text)) (c ∷ [])
            (find_closing (d ∷ text)) (omega arith) (find_closing-Shorter (d ∷ text)))
  ]
]
