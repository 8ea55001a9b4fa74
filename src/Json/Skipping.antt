-- ===== src/Json/Skipping.antt =====
-- json_string_skip against json_string_decode (td/utils/JsonBuilder.cpp).
use tdutils.Base.{
  Bool-cases, error, inl, inr, is_ok, is_ok-bind_ok, List, none, ok, Option, Option-cases, refl,
  Result, some, suc, sym, zero, ℕ, [], ◌++◌, ◌+◌, ◌==◌, ◌>>=◌, ◌∙◌, ◌∷◌, ◌≡◌,
}
use tdutils.Json.Escapes.{json_code_units, read_escape, simple_escape, skip_escape, unicode}
use tdutils.Json.Strings.{
  find_closing, json_string_decode, json_string_skip, skip_escapes, unescape,
}
use tdutils.Parser.{try_skip}

-- What a parser leaves of the text, where it succeeds.
abbrev pub left_of {ℓ} : {T : Type ℓ} → Result (T × List ℕ) → Option (List ℕ)
left_of (error message) = none
left_of (ok (value, rest)) = some rest

abbrev pub skipped : Result (List ℕ) → Option (List ℕ)
skipped (error message) = none
skipped (ok rest) = some rest

abbrev taken : Result (List ℕ × ℕ) → Result ℕ
taken (error message) = error message
taken (ok (out, n)) = ok n

skip_unicode :
    (r : Result (ℕ × ℕ))
    → taken (r >>= λ (num, n). ok (json_code_units num, n + 1)) ≡ (r >>= λ (num, n). ok (n + 1))
skip_unicode (error message) = refl
skip_unicode (ok (num, n)) = refl

-- Both switches read the same symbols.
skip_escape-read_escape : (s : List ℕ) → skip_escape s ≡ taken (read_escape s)
unfolding skip_escape read_escape
skip_escape-read_escape [] = refl
skip_escape-read_escape (c ∷ text) = elim (Option-cases (simple_escape c)) [
  | inl e ↦ elim (Bool-cases (c == b'u')) [
    | inl u ↦ rw (e, u, skip_escape, read_escape) (sym (skip_unicode (unicode text)))
    | inr u ↦ rw (e, u, skip_escape, read_escape) refl
  ]
  | inr (d, e) ↦ rw (e, skip_escape, read_escape) refl
]

unescape_round :
    (s : List ℕ) (r : Result (List ℕ × ℕ))
    → ((k : ℕ) → is_ok (skip_escapes k s) ≡ is_ok (unescape k s))
    → is_ok (elim (taken r) [ error e ↦ error e | ok skip ↦ skip_escapes skip s ])
      ≡ is_ok (elim r [
        | error e ↦ error e
        | ok (out, skip) ↦ unescape skip s >>= λ more. ok (out ++ more)
      ])
unescape_round s (error message) h = refl
unescape_round s (ok (out, skip)) h =
    h skip ∙ sym (is_ok-bind_ok (unescape skip s) (λ more. out ++ more))

skip_escapes-unescape : (k : ℕ) (s : List ℕ) → is_ok (skip_escapes k s) ≡ is_ok (unescape k s)
unfolding skip_escapes unescape
skip_escapes-unescape k [] = refl
skip_escapes-unescape (suc k) (c ∷ s) = skip_escapes-unescape k s
skip_escapes-unescape zero (c ∷ s) = elim (Bool-cases (c == b'\\')) [
  | inl b ↦
      rw (b, skip_escape-read_escape s, skip_escapes, unescape)
        (unescape_round s (read_escape s) (λ k. skip_escapes-unescape k s))
  | inr b ↦
      rw (b, skip_escapes, unescape)
        (skip_escapes-unescape 0 s ∙ sym (is_ok-bind_ok (unescape 0 s) (λ more. c ∷ more)))
]

same_rest :
    (rest : List ℕ) (r : Result (Unit {0})) (d : Result (List ℕ))
    → is_ok r ≡ is_ok d
    → skipped (r >>= λ _. ok rest) ≡ left_of (d >>= λ s. ok (s, rest))
same_rest rest (ok u) (ok s) e = refl
same_rest rest (ok u) (error message) e = cc
same_rest rest (error message) (ok s) e = cc
same_rest rest (error message) (error message') e = refl

-- json_string_skip passes over exactly the strings that json_string_decode decodes.
pub json_string_skip-decode :
    (text : List ℕ) → skipped (json_string_skip text) ≡ left_of (json_string_decode text)
unfolding json_string_skip json_string_decode
json_string_skip-decode text = elim (Option-cases (try_skip b'"' text)) [
  | inl e ↦ rw (e, json_string_skip, json_string_decode) refl
  | inr (text', e) ↦ elim (Option-cases (find_closing text')) [
    | inl q ↦ rw (e, q, json_string_skip, json_string_decode) refl
    | inr ((s, rest), q) ↦
        rw (e, q, json_string_skip, json_string_decode)
          (same_rest rest (skip_escapes 0 s) (unescape 0 s) (skip_escapes-unescape 0 s))
  ]
]
