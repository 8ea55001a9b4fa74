-- ===== src/Json/Printer/Scopes.antt =====
-- The scopes of JsonBuilder (td/utils/JsonBuilder.h) under do_json_decode (td/utils/JsonBuilder.cpp).
use mathlib.Core.Option.{some-injective}
use tdutils.Base.{
  ap, append_assoc, arith, Bool-cases, false, inl, inr, length, List, none, ok, Option, refl,
  Result, some, suc, sym, ℕ, ==_iff, [], ◌++◌, ◌+◌, ◌==◌, ◌>>=◌, ◌∙◌, ◌∷◌, ◌≡◌,
}
use tdutils.Json.{array, JsonArray, JsonObject, JsonValue, no_fields, no_items, object}
use tdutils.Json.Values.{
  decode_array, decode_fields, decode_items, decode_object, decode_value, do_json_decode,
}
use tdutils.Json.Printer.{dec_offset, followed_by, in_scope, inc_offset, print_offset}
use tdutils.Parser.{find_char, peek_char, skip_till_not, skip_whitespaces, try_skip}
use tdutils.Json.Printer.Steps.{close, skip_whitespaces-close}
use tdutils.Json.Strings.{prepend}
use tdutils.Json.Printer.Nesting.{Begins-append}
use tdutils.Json.Printer.Begins.{Begins, begins_value, skip_whitespaces-print_offset}

-- The two parts of a text that was printed in two steps, with what stands behind it.
pub followed_by-some :
    (pre : List ℕ) (o p : Option (List ℕ)) (t : List ℕ)
    → prepend pre (followed_by o p) ≡ some t
    → (a : List ℕ) × (b : List ℕ) × (o ≡ some a)
      × (p ≡ some b)
      × ((u : List ℕ) → t ++ u ≡ pre ++ (a ++ (b ++ u)))
followed_by-some pre none p t e = cc
followed_by-some pre (some a) none t e = cc
followed_by-some pre (some a) (some b) t e = (
  a,
  b,
  refl,
  refl,
  λ u.
      ap (λ s. s ++ u) (sym (some-injective _ _ e))
      ∙ append_assoc pre (a ++ b) u
      ∙ ap (λ s. pre ++ s) (append_assoc a b u),
)

-- A scope's text: what stands in it, and its end.
pub in_scope-some :
    (opening closing : ℕ) (offset : Option ℕ) (body : Option (List ℕ)) (t : List ℕ)
    → in_scope opening closing offset body ≡ some t
    → (a : List ℕ) × (body ≡ some a)
      × ((u : List ℕ) → t ++ u ≡ opening ∷ (a ++ close (dec_offset (inc_offset offset)) closing u))
unfolding in_scope close
in_scope-some opening closing offset body t e =
    let end = print_offset (dec_offset (inc_offset offset)) in
    let (a, b, ea, eb, w) = followed_by-some (opening ∷ []) body (some (end ++ closing ∷ [])) t e in
    (
      a,
      ea,
      λ u.
          w u
          ∙ ap (λ s. opening ∷ (a ++ s))
              (ap (λ s. s ++ u) (sym (some-injective _ _ eb)) ∙ append_assoc end (closing ∷ []) u),
    )

pub decode-array :
    (d : ℕ) (u : List ℕ)
    → do_json_decode (suc d) (b'[' ∷ u) ≡ decode_array (do_json_decode d) (skip_whitespaces u)
unfolding do_json_decode decode_value skip_whitespaces skip_till_not find_char peek_char
decode-array d u = refl

pub decode-object :
    (d : ℕ) (u : List ℕ)
    → do_json_decode (suc d) (b'{' ∷ u) ≡ decode_object (do_json_decode d) (skip_whitespaces u)
unfolding do_json_decode decode_value skip_whitespaces skip_till_not find_char peek_char
decode-object d u = refl

Begins-no_end :
    (c : ℕ) (t u : List ℕ) → begins_value c ≡ false → Begins t → try_skip c (t ++ u) ≡ none
unfolding Begins try_skip
Begins-no_end c [] u h k = absurd k
Begins-no_end c (d ∷ t) u h k = elim (Bool-cases (d == c)) [
  | inl e ↦ let w : d ≡ c = (==_iff d c).0 e in cc
  | inr e ↦ rw (e, try_skip) refl
]

module _ (one : List ℕ → Result (JsonValue × List ℕ)) where
  pub decode_array-closed :
      (offset : Option ℕ) (rest : List ℕ)
      → decode_array one (skip_whitespaces (close offset b']' rest)) ≡ ok (array no_items, rest)
  unfolding decode_array try_skip skip_whitespaces skip_till_not find_char
  decode_array-closed offset rest =
      rw (skip_whitespaces-close offset b']' rest refl, decode_array, try_skip) refl

  pub decode_object-closed :
      (offset : Option ℕ) (rest : List ℕ)
      → decode_object one (skip_whitespaces (close offset b'}' rest)) ≡ ok (object no_fields, rest)
  unfolding decode_object try_skip skip_whitespaces skip_till_not find_char
  decode_object-closed offset rest =
      rw (skip_whitespaces-close offset b'}' rest refl, decode_object, try_skip) refl

  -- Where the layout and a first value follow the bracket.
  pub decode_array-open :
      (offset : Option ℕ) (t u rest : List ℕ) (items : JsonArray)
      → Begins t
      → decode_items one (suc (length (t ++ u))) (t ++ u) ≡ ok (items, rest)
      → decode_array one (skip_whitespaces (print_offset offset ++ (t ++ u)))
        ≡ ok (array items, rest)
  unfolding decode_array begins_value
  decode_array-open offset t u rest items h e =
      let w : length (t ++ u) + 1 ≡ suc (length (t ++ u)) = omega arith in
      ap (decode_array one)
        (skip_whitespaces-print_offset offset (t ++ u) ∙ (Begins-append t u h).0)
      ∙ rw (Begins-no_end b']' t u refl h, decode_array)
          (ap (λ r. r >>= λ (x, left). ok (array x, left))
            (ap (λ n. decode_items one n (t ++ u)) w ∙ e))

  pub decode_object-open :
      (offset : Option ℕ) (t u rest : List ℕ) (others : JsonObject)
      → Begins t
      → decode_fields one (suc (length (t ++ u))) (t ++ u) ≡ ok (others, rest)
      → decode_object one (skip_whitespaces (print_offset offset ++ (t ++ u)))
        ≡ ok (object others, rest)
  unfolding decode_object begins_value
  decode_object-open offset t u rest others h e =
      let w : length (t ++ u) + 1 ≡ suc (length (t ++ u)) = omega arith in
      ap (decode_object one)
        (skip_whitespaces-print_offset offset (t ++ u) ∙ (Begins-append t u h).0)
      ∙ rw (Begins-no_end b'}' t u refl h, decode_object)
          (ap (λ r. r >>= λ (x, left). ok (object x, left))
            (ap (λ n. decode_fields one n (t ++ u)) w ∙ e))
