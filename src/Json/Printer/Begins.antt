-- ===== src/Json/Printer/Begins.antt =====
-- What JsonValue::store prints first, and the layout between values (td/utils/JsonBuilder.h).
use mathlib.Core.Option.{some-injective}
use tdutils.Base.{
  All, all, arith, Bool, false, List, max, none, not, Option, refl, some, suc, true, zero, ℕ, [],
  ◌&&◌, ◌++◌, ◌==◌, ◌∷◌, ◌≡◌,
}
use tdutils.Base.Text.{codes, IsByte}
use tdutils.Parser.{find_char, skip_till_not, skip_whitespaces}
use tdutils.Json.Values.{is_number_char, starts_number}
use tdutils.Json.Printer.{in_scope, indent, print_offset, store}
use tdutils.Json.{
  array, boolean, field, item, JsonArray, JsonObject, JsonValue, no_fields, no_items, null, number,
  object, string,
}
use tdutils.Json.Strings.{json_string, prepend}

-- A symbol that no parser passes over, nor takes for the end of an array or an object.
unfoldable pub begins_value : ℕ → Bool
begins_value c =
    not (c == b' ')
    && not (c == b'\t')
    && not (c == b'\r')
    && not (c == b'\n')
    && not (c == b']')
    && not (c == b'}')
    && not (c == b',')
    && not (c == b':')

pub skip_whitespaces-begins :
    (c : ℕ) (u : List ℕ) → begins_value c ≡ true → skip_whitespaces (c ∷ u) ≡ c ∷ u
unfolding skip_whitespaces skip_till_not find_char begins_value
skip_whitespaces-begins c u h = ground arith

skip_indent : (n : ℕ) (u : List ℕ) → skip_whitespaces (indent n ++ u) ≡ skip_whitespaces u
unfolding skip_whitespaces skip_till_not find_char indent
skip_indent zero u = refl
skip_indent (suc n) u = skip_indent n u

pub skip_whitespaces-print_offset :
    (offset : Option ℕ) (u : List ℕ)
    → skip_whitespaces (print_offset offset ++ u) ≡ skip_whitespaces u
unfolding print_offset skip_whitespaces skip_till_not find_char
skip_whitespaces-print_offset none u = refl
skip_whitespaces-print_offset (some n) u = skip_indent n u

-- A number's text, as do_json_decode reads it.
unfoldable pub is_number : List ℕ → Bool
is_number [] = false
is_number (c ∷ s) = starts_number c && all is_number_char (c ∷ s)

unfoldable pub Begins : List ℕ → Type 0
Begins [] = ⊥
Begins (c ∷ t) = begins_value c ≡ true

-- What store needs of a value so that its text can be read: numbers that are numbers, and strings of
-- bytes.
unfoldable mutual
  pub Readable : JsonValue → Type 0
  Readable null = Unit {0}
  Readable (boolean b) = Unit {0}
  Readable (number s) = is_number s ≡ true
  Readable (string s) = All IsByte s
  Readable (array items) = ReadableItems items
  Readable (object fields) = ReadableFields fields

  pub ReadableItems : JsonArray → Type 0
  ReadableItems no_items = Unit {0}
  ReadableItems (item v items) = Readable v × ReadableItems items

  pub ReadableFields : JsonObject → Type 0
  ReadableFields no_fields = Unit {0}
  ReadableFields (field key v fields) = All IsByte key × Readable v × ReadableFields fields

-- The depth that do_json_decode needs.
unfoldable mutual
  pub depth : JsonValue → ℕ
  depth null = 1
  depth (boolean b) = 1
  depth (number s) = 1
  depth (string s) = 1
  depth (array items) = suc (depth_items items)
  depth (object fields) = suc (depth_fields fields)

  pub depth_items : JsonArray → ℕ
  depth_items no_items = 0
  depth_items (item v items) = max (depth v) (depth_items items)

  pub depth_fields : JsonObject → ℕ
  depth_fields no_fields = 0
  depth_fields (field key v fields) = max (depth v) (depth_fields fields)

prepend-Begins :
    (c : ℕ) (o : Option (List ℕ)) (t : List ℕ)
    → begins_value c ≡ true
    → prepend (c ∷ []) o ≡ some t
    → Begins t
unfolding Begins
prepend-Begins c none t h e = cc
prepend-Begins c (some t') t h e = rw (← some-injective _ _ e) h

number-Begins : (s : List ℕ) → is_number s ≡ true → Begins s
unfolding is_number Begins starts_number begins_value
number-Begins [] h = cc
number-Begins (c ∷ s) h = ground arith

pub store-Begins :
    (offset : Option ℕ) (v : JsonValue) (t : List ℕ)
    → Readable v
    → store offset v ≡ some t
    → Begins t
unfolding store Readable json_string in_scope begins_value Begins codes
store-Begins offset null t h e = rw (← some-injective _ _ e) refl
store-Begins offset (boolean true) t h e = rw (← some-injective _ _ e) refl
store-Begins offset (boolean false) t h e = rw (← some-injective _ _ e) refl
store-Begins offset (number s) t h e = rw (← some-injective _ _ e) (number-Begins s h)
store-Begins offset (string s) t h e = prepend-Begins b'"' _ t refl e
store-Begins offset (array _) t h e = prepend-Begins b'[' _ t refl e
store-Begins offset (object _) t h e = prepend-Begins b'{' _ t refl e
