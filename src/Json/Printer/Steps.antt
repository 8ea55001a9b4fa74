-- ===== src/Json/Printer/Steps.antt =====
-- One round of the loops of do_json_decode (td/utils/JsonBuilder.cpp) on a text that store
-- (td/utils/JsonBuilder.h) printed.
use tdutils.Base.{
  ap, error, false, if◌then◌else◌, List, none, ok, Option, refl, Result, some, suc, ℕ, ==-refl,
  ◌++◌, ◌==◌, ◌>>=◌, ◌∙◌, ◌∷◌, ◌≡◌,
}
use tdutils.Base.Text.{codes}
use tdutils.Json.{field, item, JsonArray, JsonObject, JsonValue, no_fields, no_items}
use tdutils.Json.Values.{
  after_key, after_value, closed, decode_fields, decode_items, is_number_char, more, unexpected,
}
use tdutils.Parser.{empty, find_char, peek_char, skip_till_not, skip_whitespaces, try_skip}
use tdutils.Json.Printer.{after_name, is_pretty, print_offset}
use tdutils.Json.Printer.Nesting.{Begins-append, Ends}
use tdutils.Json.Printer.Begins.{Begins, skip_whitespaces-print_offset}
use tdutils.Json.Strings.{json_string_decode}

-- The end of a scope, and what stands behind it.
unfoldable pub close : Option ℕ → ℕ → List ℕ → List ℕ
close offset c rest = print_offset offset ++ c ∷ rest

pub close-Ends :
    (offset : Option ℕ) (c : ℕ) (rest : List ℕ)
    → is_number_char c ≡ false
    → Ends (close offset c rest)
unfolding close print_offset peek_char is_number_char
close-Ends none c rest h = h
close-Ends (some n) c rest h = refl

pub skip_whitespaces-close :
    (offset : Option ℕ) (c : ℕ) (rest : List ℕ)
    → skip_whitespaces (c ∷ rest) ≡ c ∷ rest
    → skip_whitespaces (close offset c rest) ≡ c ∷ rest
unfolding close
skip_whitespaces-close offset c rest h = skip_whitespaces-print_offset offset (c ∷ rest) ∙ h

after_value-close :
    (offset : Option ℕ) (c : ℕ) (rest : List ℕ)
    → skip_whitespaces (c ∷ rest) ≡ c ∷ rest
    → after_value c (skip_whitespaces (close offset c rest)) ≡ closed rest
unfolding after_value try_skip
after_value-close offset c rest h =
    rw (skip_whitespaces-close offset c rest h, after_value, try_skip, ==-refl c) refl

-- A comma, the layout and the text of the next value.
after_value-comma :
    (offset : Option ℕ) (c : ℕ) (t u : List ℕ)
    → (b',' == c) ≡ false
    → Begins t
    → after_value c (skip_whitespaces ((b',' ∷ print_offset offset) ++ (t ++ u))) ≡ more (t ++ u)
unfolding after_value try_skip skip_whitespaces skip_till_not find_char
after_value-comma offset c t u h k =
    rw (h, after_value, try_skip)
      (ap more (skip_whitespaces-print_offset offset (t ++ u) ∙ (Begins-append t u k).0))

module _ (one : List ℕ → Result (JsonValue × List ℕ)) where
  -- The rest of an array behind the value `v`.
  unfoldable pub after_item : ℕ → JsonValue → List ℕ → Result (JsonArray × List ℕ)
  after_item fuel v text = elim (after_value b']' (skip_whitespaces text)) [
    | closed rest ↦ ok (item v no_items, rest)
    | more rest ↦ decode_items one fuel rest >>= λ (items, left). ok (item v items, left)
    | unexpected ↦
        if empty (skip_whitespaces text)
        then error "Unexpected string end"
        else error "Unexpected symbol while parsing JSON Array"
  ]

  pub decode_items-item :
      (fuel : ℕ) (v : JsonValue) (t tail : List ℕ)
      → Begins t
      → one (t ++ tail) ≡ ok (v, tail)
      → decode_items one (suc fuel) (t ++ tail) ≡ after_item fuel v tail
  unfolding decode_items after_item
  decode_items-item fuel v t tail h e = rw ((Begins-append t tail h).1, e, decode_items) refl

  pub after_item-closed :
      (fuel : ℕ) (v : JsonValue) (offset : Option ℕ) (rest : List ℕ)
      → after_item fuel v (close offset b']' rest) ≡ ok (item v no_items, rest)
  unfolding after_item skip_whitespaces skip_till_not find_char
  after_item-closed fuel v offset rest =
      rw (after_value-close offset b']' rest refl, after_item) refl

  pub after_item-more :
      (fuel : ℕ) (v w : JsonValue) (items : JsonArray) (offset : Option ℕ) (t tail rest : List ℕ)
      → Begins t
      → one (t ++ tail) ≡ ok (w, tail)
      → after_item fuel w tail ≡ ok (items, rest)
      → after_item (suc fuel) v ((b',' ∷ print_offset offset) ++ (t ++ tail))
        ≡ ok (item v items, rest)
  unfolding after_item
  after_item-more fuel v w items offset t tail rest h e k =
      rw
        (
          after_value-comma offset b']' t tail refl h,
          after_item,
          decode_items-item fuel w t tail h e,
          k,
        )
        refl

module _ (one : List ℕ → Result (JsonValue × List ℕ)) where
  -- The rest of an object behind the value `v` of the name `key`.
  unfoldable pub after_field : ℕ → List ℕ → JsonValue → List ℕ → Result (JsonObject × List ℕ)
  after_field fuel key v text = elim (after_value b'}' (skip_whitespaces text)) [
    | closed rest ↦ ok (field key v no_fields, rest)
    | more rest ↦ decode_fields one fuel rest >>= λ (others, left). ok (field key v others, left)
    | unexpected ↦
        if empty (skip_whitespaces text)
        then error "Unexpected string end"
        else error "Unexpected symbol while parsing JSON Object"
  ]

  pub after_field-closed :
      (fuel : ℕ) (key : List ℕ) (v : JsonValue) (offset : Option ℕ) (rest : List ℕ)
      → after_field fuel key v (close offset b'}' rest) ≡ ok (field key v no_fields, rest)
  unfolding after_field skip_whitespaces skip_till_not find_char
  after_field-closed fuel key v offset rest =
      rw (after_value-close offset b'}' rest refl, after_field) refl

  module _ (spaced : (u : List ℕ) → one (b' ' ∷ u) ≡ one u) where
    pub decode_fields-field :
        (fuel : ℕ) (offset : Option ℕ) (key : List ℕ) (v : JsonValue) (k t tail : List ℕ)
        → Begins k
        → json_string_decode (k ++ (after_name offset ++ (t ++ tail)))
          ≡ ok (key, after_name offset ++ (t ++ tail))
        → one (t ++ tail) ≡ ok (v, tail)
        → decode_fields one (suc fuel) (k ++ (after_name offset ++ (t ++ tail)))
          ≡ after_field fuel key v tail
    unfolding decode_fields after_field after_key after_name is_pretty codes try_skip
        skip_whitespaces skip_till_not find_char
    decode_fields-field fuel none key v k t tail b e f =
        rw ((Begins-append k (after_name none ++ (t ++ tail)) b).1, e, decode_fields, after_key, f)
          refl
    decode_fields-field fuel (some n) key v k t tail b e f =
        rw
          (
            (Begins-append k (after_name (some n) ++ (t ++ tail)) b).1,
            e,
            decode_fields,
            after_key,
            spaced (t ++ tail),
            f,
          )
          refl

  pub after_field-more :
      (fuel : ℕ) (key : List ℕ) (v : JsonValue) (others : JsonObject) (offset : Option ℕ)
      (k u rest : List ℕ)
      → Begins k
      → decode_fields one fuel (k ++ u) ≡ ok (others, rest)
      → after_field fuel key v ((b',' ∷ print_offset offset) ++ (k ++ u))
        ≡ ok (field key v others, rest)
  unfolding after_field
  after_field-more fuel key v others offset k u rest h e =
      rw (after_value-comma offset b'}' k u refl h, after_field, e) refl
