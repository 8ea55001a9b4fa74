-- ===== src/Json/Printer/Ends.antt =====
-- What stands before and behind a value that store (td/utils/JsonBuilder.h) printed.
use mathlib.Core.Option.{some-injective}
use tdutils.Base.{
  ap, arith, false, length, length-append, List, ok, Option, refl, some, suc, true, zero, ℕ, [],
  ◌++◌, ◌+◌, ◌<◌, ◌∷◌, ◌≡◌, ◌≤◌,
}
use tdutils.Base.Text.{codes}
use tdutils.Json.{
  array, boolean, field, item, JsonArray, JsonObject, JsonValue, no_fields, no_items, null, number,
  object, string,
}
use tdutils.Json.Printer.{
  after_name, enter_next, followed_by, print_offset, store, store_fields, store_items,
}
use tdutils.Json.Printer.Scopes.{followed_by-some}
use tdutils.Json.Printer.Nesting.{Ends, json_string-quote}
use tdutils.Json.Printer.Begins.{Begins, begins_value, depth}
use tdutils.Parser.{find_char, peek_char, skip_till_not, skip_whitespaces, try_skip_prefix}
use tdutils.Json.Values.{decode_value, do_json_decode, is_number_char, token}
use tdutils.Json.Printer.Steps.{close, close-Ends}
use tdutils.Json.Strings.{json_string, prepend}

pub spaced : (d : ℕ) (u : List ℕ) → do_json_decode d (b' ' ∷ u) ≡ do_json_decode d u
unfolding do_json_decode skip_whitespaces skip_till_not find_char
spaced zero u = refl
spaced (suc d) u = refl

pub depth-positive : (v : JsonValue) → 0 < depth v
unfolding depth
depth-positive null = omega arith
depth-positive (boolean b) = omega arith
depth-positive (number s) = omega arith
depth-positive (string s) = omega arith
depth-positive (array _) = omega arith
depth-positive (object _) = omega arith

pub decode-word :
    (d : ℕ) (rest : List ℕ)
    → (do_json_decode (suc d) (codes "null" ++ rest) ≡ ok (null, rest))
      × (do_json_decode (suc d) (codes "true" ++ rest) ≡ ok (boolean true, rest))
      × (do_json_decode (suc d) (codes "false" ++ rest) ≡ ok (boolean false, rest))
unfolding do_json_decode decode_value token try_skip_prefix skip_whitespaces skip_till_not find_char
    peek_char codes
decode-word d rest = (refl, refl, refl)

-- What stands behind an item or a field.
pub items-Ends :
    (offset offset' : Option ℕ) (items : JsonArray) (m rest : List ℕ)
    → store_items true offset items ≡ some m
    → Ends (m ++ close offset' b']' rest)
unfolding store_items is_number_char peek_char enter_next
items-Ends offset offset' no_items m rest e =
    rw (← some-injective _ _ e) (close-Ends offset' b']' rest refl)
items-Ends offset offset' (item v items) m rest e =
    let (a, b, _, _, w) =
      followed_by-some (b',' ∷ print_offset offset) (store offset v) (store_items true offset items)
        m e in
    rw (w (close offset' b']' rest)) refl

pub fields-Ends :
    (offset offset' : Option ℕ) (others : JsonObject) (m rest : List ℕ)
    → store_fields true offset others ≡ some m
    → Ends (m ++ close offset' b'}' rest)
unfolding store_fields is_number_char peek_char enter_next
fields-Ends offset offset' no_fields m rest e =
    rw (← some-injective _ _ e) (close-Ends offset' b'}' rest refl)
fields-Ends offset offset' (field key v others) m rest e =
    let (a, b, _, _, w) =
      followed_by-some (b',' ∷ print_offset offset) (json_string key)
        (prepend (after_name offset)
          (followed_by (store offset v) (store_fields true offset others)))
        m e in
    rw (w (close offset' b'}' rest)) refl

pub name-Begins : (key k : List ℕ) → json_string key ≡ some k → Begins k
unfolding Begins begins_value
name-Begins key k e = let (u, w) = json_string-quote key k e in rw (← w) refl

-- The last part of a text that was printed in steps is no longer than the text.
pub inner-le :
    (x pre t m : List ℕ)
    → ((u : List ℕ) → x ++ u ≡ pre ++ (t ++ (m ++ u)))
    → length pre + length m ≤ length x
inner-le x pre t m w = omega (
  arith,
  ap (length {A = ℕ}) (w []),
  length-append x [],
  length-append pre (t ++ (m ++ [])),
  length-append t (m ++ []),
  length-append m [],
)

pub middle-le : (a m c : List ℕ) → length m ≤ length (a ++ (m ++ c))
middle-le a m c = omega (arith, length-append a (m ++ c), length-append m c)
