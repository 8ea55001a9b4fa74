-- ===== src/Json/Tests.antt =====
-- Runs of the JSON printer and parser (td/utils/JsonBuilder.h and td/utils/JsonBuilder.cpp).
use tdutils.Base.{
  All, arith, false, length, List, ok, refl, some, true, ℕ, [], ◌++◌, ◌↔◌, ◌∷◌, ◌≡◌, ◌≤◌,
}
use tdutils.Base.Text.{codes, IsByte}
use tdutils.Base.Equality.{is_same}
use tdutils.Json.{
  array, boolean, boolean_type, field, item, JsonObject, JsonValue, no_fields, no_items, null,
  null_type, number, object, object_type, string_type, type_of,
}
use tdutils.Json.Printer.{
  after_name, dec_offset, enter_next, in_scope, inc_offset, indent, is_pretty, json_encode,
  print_offset, store,
}
use tdutils.Json.Strings.{
  escaped, find_closing, json_raw_string, json_string, json_string_decode, print_char, print_four,
  print_lead, print_three, raw_string_body, string_body, unescape,
}
use tdutils.Utf8.Check.{check_utf8, is_continuation}
use tdutils.Json.Values.{do_json_decode, do_json_skip, is_number_char, json_decode, starts_number}
use tdutils.Json.Values.Fuel.{Progress}
use tdutils.Json.Escapes.{
  add_digit, hex_four, json_char, json_code_units, json_one_char, low_half, pair_up, read_escape,
  simple_escape, unicode,
}
use tdutils.Json.Values.Progress.{do_json_decode-Progress}
use tdutils.Json.Values.Skip.{do_json_skip-decode}
use tdutils.Json.Printer.RoundTrip.{json_decode-json_encode}
use tdutils.Json.Printer.Begins.{depth, is_number, Readable}
use tdutils.Json.Sizes.{is_some}
use tdutils.Parser.{try_skip}
use tdutils.Json.Skipping.{left_of, skipped}
use tdutils.Json.RoundTrip.{json_string_decode-json_string}
use tdutils.Json.Accepts.{json_string-check_utf8}
use tdutils.Misc.Chars.{hex_to_int, is_digit}
use tdutils.Json.Fields.{
  get_boolean, get_json_object_bool_field, get_json_object_field, get_json_object_field-force,
  get_json_object_field_force, get_json_object_string_field, get_text, get_type_name,
  has_json_object_field, Answers, is_type, no_field,
}
use tdutils.Misc.Integers.{
  pos, last_digits, print_int, print_uint, read_digits, to_integer, to_integer_safe, with_sign,
}
use tdutils.Json.IntegerFields.{
  get_json_object_int_field, get_json_object_int_field_reads, get_json_object_long_field,
  integer_field,
}
use tdutils.Misc.SafeIntegers.{InRange}

-- {"é\n": [1, true], "😀": {}}
abbrev sample : JsonValue
sample = object (
    field (0xc3 ∷ 0xa9 ∷ 10 ∷ [])
      (array (item (number (codes "-1e5")) (item (boolean true) no_items)))
      (field (0xf0 ∷ 0x9f ∷ 0x98 ∷ 0x80 ∷ []) (object no_fields) no_fields))

abbrev compact : List ℕ
compact = codes "{\"\\u00e9\\n\":[-1e5,true],\"\\ud83d\\ude00\":{}}"

abbrev pretty_text : List ℕ
pretty_text =
    codes
      "{\n   \"\\u00e9\\n\" : [\n      -1e5,\n      true\n   ],\n   \"\\ud83d\\ude00\" : {\n   }\n}\n"

prints_compact : json_encode sample false ≡ some compact
unfolding json_encode store in_scope enter_next print_offset inc_offset dec_offset after_name
    is_pretty json_string string_body print_char escaped print_lead print_three print_four
    is_continuation json_char json_one_char codes
prints_compact = refl

prints_pretty : json_encode sample true ≡ some pretty_text
unfolding json_encode store in_scope enter_next print_offset indent inc_offset dec_offset after_name
    is_pretty json_string string_body print_char escaped print_lead print_three print_four
    is_continuation json_char json_one_char codes
prints_pretty = refl

sample-Readable : Readable sample
unfolding Readable is_number starts_number is_number_char codes
sample-Readable = (
  (omega arith, (omega arith, (omega arith, tt))),
  (refl, (tt, tt)),
  ((omega arith, (omega arith, (omega arith, (omega arith, tt)))), tt, tt),
)

depth-sample : depth sample ≤ 101
unfolding depth
depth-sample = omega arith

json_decode-json_encode_example : json_decode compact ≡ ok sample
json_decode-json_encode_example =
    json_decode-json_encode sample false compact prints_compact sample-Readable depth-sample

key_bytes : All IsByte (0xc3 ∷ 0xa9 ∷ 10 ∷ [])
key_bytes = (omega arith, (omega arith, (omega arith, tt)))

abbrev key_text : List ℕ
key_text = codes "\"\\u00e9\\n\""

key_printed : json_string (0xc3 ∷ 0xa9 ∷ 10 ∷ []) ≡ some key_text
unfolding json_string string_body print_char escaped print_lead is_continuation json_char
    json_one_char codes
key_printed = refl

json_string_decode-json_string_example :
    json_string_decode (key_text ++ codes ": 1") ≡ ok (0xc3 ∷ 0xa9 ∷ 10 ∷ [], codes ": 1")
json_string_decode-json_string_example =
    json_string_decode-json_string (0xc3 ∷ 0xa9 ∷ 10 ∷ []) key_text (codes ": 1") key_bytes
      key_printed

json_string-check_utf8_example :
    is_some (json_string (0xc3 ∷ 0xa9 ∷ 10 ∷ [])) ≡ check_utf8 (0xc3 ∷ 0xa9 ∷ 10 ∷ [])
json_string-check_utf8_example = json_string-check_utf8 (0xc3 ∷ 0xa9 ∷ 10 ∷ []) key_bytes

do_json_skip-decode_example : skipped (do_json_skip 3 compact) ≡ left_of (do_json_decode 3 compact)
do_json_skip-decode_example = do_json_skip-decode 3 compact

do_json_decode-Progress_example : Progress (length compact) (do_json_decode 3 compact)
do_json_decode-Progress_example = do_json_decode-Progress 3 compact

-- Two halves of a pair in the wrong order are put together as well.
reads_swapped_halves :
    json_string_decode (codes "\"\\udc00\\ud800\"") ≡ ok (0xf0 ∷ 0x90 ∷ 0x80 ∷ 0x80 ∷ [], [])
unfolding json_string_decode try_skip find_closing unescape read_escape simple_escape unicode
    hex_four add_digit hex_to_int low_half pair_up json_code_units codes
reads_swapped_halves = refl

refuses_raw_control : json_raw_string (b'a' ∷ b'"' ∷ 1 ∷ []) ≡ codes "\"a\\\"\\u0001\""
unfolding json_raw_string raw_string_body escaped json_one_char codes
refuses_raw_control = refl

types_of_values : (type_of sample ≡ object_type) × (type_of null ≡ null_type)
unfolding type_of
types_of_values = (refl, refl)

abbrev settings : JsonObject
settings = field (codes "on") (boolean true) (field (codes "size") (number (codes "12")) no_fields)

reads_fields :
    (get_json_object_bool_field settings (codes "on") true false
      ≡ ok (true, field (codes "on") null (field (codes "size") (number (codes "12")) no_fields)))
    × (get_json_object_string_field settings (codes "size") true [] ≡ ok (codes "12"))
    × (get_type_name boolean_type ≡ codes "Boolean")
unfolding get_json_object_bool_field get_json_object_field get_json_object_string_field get_text
    get_boolean is_same is_type type_of no_field get_type_name
reads_fields = (refl, refl, refl)

get_json_object_field-force_example :
    Answers settings string_type true
      (has_json_object_field settings (codes "size"))
      (get_json_object_field_force settings (codes "size"))
      (get_json_object_field settings (codes "size") string_type true)
get_json_object_field-force_example =
    get_json_object_field-force settings (codes "size") string_type true

reads_integer_field : get_json_object_int_field settings (codes "size") false (pos 0) ≡ ok (pos 12)
unfolding get_json_object_int_field integer_field is_same get_text to_integer_safe to_integer
    read_digits with_sign print_int print_uint last_digits is_digit
reads_integer_field = refl

get_json_object_int_field_reads_example :
    ((get_json_object_int_field settings (codes "size") false (pos 0) ≡ ok (pos 12)) ↔ (
      InRange 32 (pos 12)
      × (get_json_object_string_field settings (codes "size") false [] ≡ ok (print_int (pos 12)))))
    × ((get_json_object_long_field settings (codes "size") false (pos 0) ≡ ok (pos 12)) ↔ (
        InRange 64 (pos 12)
        × (get_json_object_string_field settings (codes "size") false []
            ≡ ok (print_int (pos 12)))))
get_json_object_int_field_reads_example =
    get_json_object_int_field_reads settings (codes "size") (pos 0) (pos 12)
