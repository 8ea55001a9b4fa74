-- ===== src/Json/Values.antt =====
-- do_json_decode, do_json_skip and json_decode of td/utils/JsonBuilder.cpp and td/utils/JsonBuilder.h.
-- `depth` is `max_depth + 1`. The loops over items and fields run on fuel: each round reads a symbol at
-- least, so one unit for each symbol of the text and one more is enough. The parser's status is OK
-- throughout: nothing here sets it. An error's text leaves out the symbol that it names.
pub mod Fuel
pub mod Fueled
pub mod Skip
pub mod Progress
use Prim.Native.String.{String}
use tdutils.Base.{
  Bool, drop, error, false, if◌then◌else◌, leb, length, List, ltb, none, ok, Option, Result, some,
  suc, true, zero, ℕ, ◌&&◌, ◌+◌, ◌==◌, ◌>>=◌, ◌||◌,
}
use tdutils.Base.Text.{codes}
use tdutils.Json.{
  array, boolean, field, item, JsonArray, JsonObject, JsonValue, no_fields, no_items, null, number,
  object, string,
}
use tdutils.Json.Strings.{json_string_decode, json_string_skip}
use tdutils.Parser.{empty, peek_char, read_while, skip_whitespaces, try_skip, try_skip_prefix}

-- Behind an item or a field.
pub data Next : Type 0 where
  closed more : List ℕ → Next
  unexpected : Next

unfoldable pub after_value : ℕ → List ℕ → Next
after_value closing text = elim (try_skip closing text) [
  | some rest ↦ closed rest
  | none ↦ elim (try_skip b',' text) [
    | some rest ↦ more (skip_whitespaces rest)
    | none ↦ unexpected
  ]
]

abbrev pub ran_out : String
ran_out = "out of fuel"

-- The `while` over the items of an array; `value` reads one of them.
unfoldable pub decode_items :
    (List ℕ → Result (JsonValue × List ℕ)) → ℕ → List ℕ → Result (JsonArray × List ℕ)
decode_items value zero text = error ran_out
decode_items value (suc fuel) text = elim (empty text) [
  | true ↦ error "Unexpected string end"
  | false ↦ elim (value text) [
    | error e ↦ error e
    | ok (v, text') ↦ elim (after_value b']' (skip_whitespaces text')) [
      | closed rest ↦ ok (item v no_items, rest)
      | more rest ↦ decode_items value fuel rest >>= λ (items, left). ok (item v items, left)
      | unexpected ↦
          if empty (skip_whitespaces text')
          then error "Unexpected string end"
          else error "Unexpected symbol while parsing JSON Array"
    ]
  ]
]

-- `':'` behind a key.
unfoldable pub after_key : List ℕ → Option (List ℕ)
after_key text = try_skip b':' (skip_whitespaces text)

unfoldable pub decode_fields :
    (List ℕ → Result (JsonValue × List ℕ)) → ℕ → List ℕ → Result (JsonObject × List ℕ)
decode_fields value zero text = error ran_out
decode_fields value (suc fuel) text = elim (empty text) [
  | true ↦ error "Unexpected string end"
  | false ↦ elim (json_string_decode text) [
    | error e ↦ error e
    | ok (key, text') ↦ elim (after_key text') [
      | none ↦ error "':' expected"
      | some text'' ↦ elim (value text'') [
        | error e ↦ error e
        | ok (v, text3) ↦ elim (after_value b'}' (skip_whitespaces text3)) [
          | closed rest ↦ ok (field key v no_fields, rest)
          | more rest ↦
              decode_fields value fuel rest >>= λ (others, left). ok (field key v others, left)
          | unexpected ↦
              if empty (skip_whitespaces text3)
              then error "Unexpected string end"
              else error "Unexpected symbol while parsing JSON Object"
        ]
      ]
    ]
  ]
]

unfoldable pub is_number_char : ℕ → Bool
is_number_char c =
    c == b'-' || (leb b'0' c && leb c b'9') || c == b'e' || c == b'E' || c == b'+' || c == b'.'

-- The cases '-' to '9' of the switch.
unfoldable pub starts_number : ℕ → Bool
starts_number c = c == b'-' || c == b'+' || c == b'.' || (leb b'0' c && leb c b'9')

unfoldable pub unexpected_symbol : ℕ → String
unexpected_symbol c = if ltb 0 c && ltb c 127 then "Unexpected symbol ''" else "Unexpected symbol"

unfoldable pub token : List ℕ → JsonValue → String → List ℕ → Result (JsonValue × List ℕ)
token name value message text = elim (try_skip_prefix name text) [
  | some rest ↦ ok (value, rest)
  | none ↦ error message
]

unfoldable pub decode_array :
    (List ℕ → Result (JsonValue × List ℕ)) → List ℕ → Result (JsonValue × List ℕ)
decode_array value text = elim (try_skip b']' text) [
  | some rest ↦ ok (array no_items, rest)
  | none ↦ decode_items value (length text + 1) text >>= λ (items, rest). ok (array items, rest)
]

unfoldable pub decode_object :
    (List ℕ → Result (JsonValue × List ℕ)) → List ℕ → Result (JsonValue × List ℕ)
decode_object value text = elim (try_skip b'}' text) [
  | some rest ↦ ok (object no_fields, rest)
  | none ↦ decode_fields value (length text + 1) text >>= λ (fields, rest). ok (object fields, rest)
]

-- The switch on the first symbol, with `value` for the recursive call.
unfoldable pub decode_value :
    (List ℕ → Result (JsonValue × List ℕ)) → List ℕ → Result (JsonValue × List ℕ)
decode_value value text =
    let c = peek_char text in
    if c == b'f'
    then token (codes "false") (boolean false) "Token starts with 'f' -- false expected" text
    else if c == b't'
    then token (codes "true") (boolean true) "Token starts with 't' -- true expected" text
    else if c == b'n'
    then token (codes "null") null "Token starts with 'n' -- null expected" text
    else if c == b'"'
    then (json_string_decode text >>= λ (s, rest). ok (string s, rest))
    else if c == b'['
    then decode_array value (skip_whitespaces (drop 1 text))
    else if c == b'{'
    then decode_object value (skip_whitespaces (drop 1 text))
    else if starts_number c
    then (let (s, rest) = read_while is_number_char text in ok (number s, rest))
    else if c == 0
    then error "Unexpected string end"
    else error (unexpected_symbol c)

unfoldable pub do_json_decode : ℕ → List ℕ → Result (JsonValue × List ℕ)
do_json_decode zero text = error "Too big object depth"
do_json_decode (suc depth) text = decode_value (do_json_decode depth) (skip_whitespaces text)

-- DEFAULT_MAX_DEPTH is 100.
unfoldable pub json_decode : List ℕ → Result JsonValue
json_decode json = elim (do_json_decode 101 json) [
  | error e ↦ error e
  | ok (v, rest) ↦ if empty (skip_whitespaces rest) then ok v else error "Expected string end"
]

unfoldable pub skip_items : (List ℕ → Result (List ℕ)) → ℕ → List ℕ → Result (List ℕ)
skip_items value zero text = error ran_out
skip_items value (suc fuel) text = elim (empty text) [
  | true ↦ error "Unexpected end"
  | false ↦ elim (value text) [
    | error e ↦ error e
    | ok text' ↦ elim (after_value b']' (skip_whitespaces text')) [
      | closed rest ↦ ok rest
      | more rest ↦ skip_items value fuel rest
      | unexpected ↦ error "Unexpected symbol"
    ]
  ]
]

unfoldable pub skip_fields : (List ℕ → Result (List ℕ)) → ℕ → List ℕ → Result (List ℕ)
skip_fields value zero text = error ran_out
skip_fields value (suc fuel) text = elim (empty text) [
  | true ↦ error "Unexpected end"
  | false ↦ elim (json_string_skip text) [
    | error e ↦ error e
    | ok text' ↦ elim (after_key text') [
      | none ↦ error "':' expected"
      | some text'' ↦ elim (value text'') [
        | error e ↦ error e
        | ok text3 ↦ elim (after_value b'}' (skip_whitespaces text3)) [
          | closed rest ↦ ok rest
          | more rest ↦ skip_fields value fuel rest
          | unexpected ↦ error "Unexpected symbol"
        ]
      ]
    ]
  ]
]

unfoldable pub skip_token : List ℕ → String → List ℕ → Result (List ℕ)
skip_token name message text = elim (try_skip_prefix name text) [
  | some rest ↦ ok rest
  | none ↦ error message
]

unfoldable pub skip_array : (List ℕ → Result (List ℕ)) → List ℕ → Result (List ℕ)
skip_array value text = elim (try_skip b']' text) [
  | some rest ↦ ok rest
  | none ↦ skip_items value (length text + 1) text
]

unfoldable pub skip_object : (List ℕ → Result (List ℕ)) → List ℕ → Result (List ℕ)
skip_object value text = elim (try_skip b'}' text) [
  | some rest ↦ ok rest
  | none ↦ skip_fields value (length text + 1) text
]

unfoldable pub skip_value : (List ℕ → Result (List ℕ)) → List ℕ → Result (List ℕ)
skip_value value text =
    let c = peek_char text in
    if c == b'f'
    then skip_token (codes "false") "Starts with 'f' -- false expected" text
    else if c == b't'
    then skip_token (codes "true") "Starts with 't' -- true expected" text
    else if c == b'n'
    then skip_token (codes "null") "Starts with 'n' -- null expected" text
    else if c == b'"'
    then json_string_skip text
    else if c == b'['
    then skip_array value (skip_whitespaces (drop 1 text))
    else if c == b'{'
    then skip_object value (skip_whitespaces (drop 1 text))
    else if starts_number c
    then ok ((read_while is_number_char text).1)
    else if c == 0
    then error "Unexpected end"
    else error (unexpected_symbol c)

unfoldable pub do_json_skip : ℕ → List ℕ → Result (List ℕ)
do_json_skip zero text = error "Too big object depth"
do_json_skip (suc depth) text = skip_value (do_json_skip depth) (skip_whitespaces text)
