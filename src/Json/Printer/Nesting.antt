-- ===== src/Json/Printer/Nesting.antt =====
-- One value, item or field of do_json_decode (td/utils/JsonBuilder.cpp) where its text was printed.
use mathlib.Core.Option.{none-ne-some, some-injective}
use tdutils.Base.{
  All, all, ap, arith, Bool, Bool-cases, false, inl, inr, List, ok, Option-cases, refl, Result,
  some, suc, true, ℕ, ==_iff, [], ◌++◌, ◌==◌, ◌>>=◌, ◌∙◌, ◌∷◌, ◌≡◌,
}
use tdutils.Base.Text.{IsByte}
use tdutils.Json.{JsonValue, number, string}
use tdutils.Parser.{empty, find_char, peek_char, read_while, skip_till_not, skip_whitespaces}
use tdutils.Json.Strings.{json_string, json_string_decode, string_body}
use tdutils.Json.Printer.Begins.{Begins, begins_value, is_number, skip_whitespaces-begins}
use tdutils.Json.RoundTrip.{json_string_decode-json_string}
use tdutils.Json.Values.{decode_value, do_json_decode, is_number_char, starts_number}

-- What stands behind a value does not go on with a number.
abbrev pub Ends : List ℕ → Type 0
Ends rest = is_number_char (peek_char rest) ≡ false

pub Begins-append :
    (t u : List ℕ) → Begins t → (skip_whitespaces (t ++ u) ≡ t ++ u) × (empty (t ++ u) ≡ false)
unfolding Begins empty
Begins-append [] u h = absurd h
Begins-append (c ∷ t) u h = (skip_whitespaces-begins c (t ++ u) h, refl)

read_while-all :
    (f : ℕ → Bool) (s rest : List ℕ)
    → all f s ≡ true
    → f (peek_char rest) ≡ false
    → read_while f (s ++ rest) ≡ (s, rest)
unfolding read_while peek_char
read_while-all f [] [] h k = refl
read_while-all f [] (c ∷ rest) h k = rw (k, read_while) refl
read_while-all f (c ∷ s) rest h k =
    let p : f c ≡ true = ground arith in
    rw (p, read_while, read_while-all f s rest (ground arith) k) refl

starts_number-distinct :
    (c d : ℕ) → starts_number c ≡ true → starts_number d ≡ false → (c == d) ≡ false
starts_number-distinct c d h k = elim (Bool-cases (c == d)) [
  | inr e ↦ e
  | inl e ↦ let w : c ≡ d = (==_iff c d).0 e in cc
]

starts_number-begins : (c : ℕ) → starts_number c ≡ true → begins_value c ≡ true
unfolding starts_number begins_value
starts_number-begins c h = ground arith

decode_value-number :
    (one : List ℕ → Result (JsonValue × List ℕ)) (c : ℕ) (u : List ℕ)
    → starts_number c ≡ true
    → decode_value one (c ∷ u)
      ≡ (let (s, rest) = read_while is_number_char (c ∷ u) in ok (number s, rest))
unfolding decode_value peek_char starts_number
decode_value-number one c u h =
    let p : (c == b'f') ≡ false = starts_number-distinct c b'f' h refl in
    let q : (c == b't') ≡ false = starts_number-distinct c b't' h refl in
    let r : (c == b'n') ≡ false = starts_number-distinct c b'n' h refl in
    let s : (c == b'"') ≡ false = starts_number-distinct c b'"' h refl in
    let t : (c == b'[') ≡ false = starts_number-distinct c b'[' h refl in
    let v : (c == b'{') ≡ false = starts_number-distinct c b'{' h refl in
    rw (p, q, r, s, t, v, h, decode_value) refl

pub decode-number :
    (d : ℕ) (s rest : List ℕ)
    → is_number s ≡ true
    → Ends rest
    → do_json_decode (suc d) (s ++ rest) ≡ ok (number s, rest)
unfolding do_json_decode is_number
decode-number d [] rest h k = cc
decode-number d (c ∷ s) rest h k =
    let p : starts_number c ≡ true = ground arith in
    let q : all is_number_char (c ∷ s) ≡ true = ground arith in
    rw (skip_whitespaces-begins c (s ++ rest) (starts_number-begins c p), do_json_decode)
      (decode_value-number (do_json_decode d) c (s ++ rest) p
        ∙ ap (λ (s, rest). ok (number s, rest)) (read_while-all is_number_char (c ∷ s) rest q k))

decode-quote :
    (d : ℕ) (u : List ℕ)
    → do_json_decode (suc d) (b'"' ∷ u)
      ≡ (json_string_decode (b'"' ∷ u) >>= λ (s, rest). ok (string s, rest))
unfolding do_json_decode decode_value skip_whitespaces skip_till_not find_char peek_char
decode-quote d u = refl

pub json_string-quote : (s t : List ℕ) → json_string s ≡ some t → (u : List ℕ) × (b'"' ∷ u ≡ t)
unfolding json_string
json_string-quote s t e = elim (Option-cases (string_body 0 s)) [
  | inl p ↦ absurd (none-ne-some _ (rw (p, json_string) at e))
  | inr (body, p) ↦ (body ++ b'"' ∷ [], some-injective _ _ (rw (p, json_string) at e))
]

pub decode-string :
    (d : ℕ) (s t rest : List ℕ)
    → All IsByte s
    → json_string s ≡ some t
    → do_json_decode (suc d) (t ++ rest) ≡ ok (string s, rest)
decode-string d s t rest h e =
    let (u, w) = json_string-quote s t e in
    let r = json_string_decode-json_string s t rest h e in
    rw (← w) (decode-quote d (u ++ rest) ∙ rw (rw (← w) at r) refl)
