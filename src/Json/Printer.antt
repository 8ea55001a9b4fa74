-- ===== src/Json/Printer.antt =====
-- JsonBuilder with its scopes, JsonValue::store and json_encode of td/utils/JsonBuilder.h.
-- `offset_` is `none` where it is negative, which is the compact layout. A function answers what it
-- adds to the string builder, whose buffer has no end here; `none` stands for a failed check in
-- JsonString. The checks on the active scope hold in store, which closes a scope before it goes on.
pub mod Begins
pub mod Nesting
pub mod Steps
pub mod Scopes
pub mod Ends
pub mod RoundTrip
use tdutils.Base.{
  Bool, false, if◌then◌else◌, List, none, Option, some, suc, true, zero, ℕ, [], ◌++◌, ◌+◌, ◌-◌, ◌∷◌,
}
use tdutils.Base.Text.{codes}
use tdutils.Json.{
  array, boolean, field, item, JsonArray, JsonObject, JsonValue, no_fields, no_items, null, number,
  object, string,
}
use tdutils.Json.Strings.{json_string, prepend}

unfoldable pub is_pretty : Option ℕ → Bool
is_pretty none = false
is_pretty (some offset) = true

unfoldable pub indent : ℕ → List ℕ
indent zero = []
indent (suc offset) = b' ' ∷ b' ' ∷ b' ' ∷ indent offset

unfoldable pub print_offset : Option ℕ → List ℕ
print_offset none = []
print_offset (some offset) = b'\n' ∷ indent offset

unfoldable pub inc_offset : Option ℕ → Option ℕ
inc_offset none = none
inc_offset (some offset) = some (offset + 1)

-- The check that the offset is positive holds: a scope calls inc_offset first.
unfoldable pub dec_offset : Option ℕ → Option ℕ
dec_offset none = none
dec_offset (some offset) = some (offset - 1)

abbrev pub followed_by : Option (List ℕ) → Option (List ℕ) → Option (List ℕ)
followed_by none next = none
followed_by (some out) next = prepend out next

-- enter_value of an array and operator() of an object begin alike; `is_first` is the flag `is_first_`.
unfoldable pub enter_next : Bool → Option ℕ → List ℕ
enter_next is_first offset = (if is_first then b',' ∷ [] else []) ++ print_offset offset

-- A scope from its constructor to leave; `body` is what it prints in between.
unfoldable pub in_scope : ℕ → ℕ → Option ℕ → Option (List ℕ) → Option (List ℕ)
in_scope opening closing offset body =
    prepend (opening ∷ [])
      (followed_by body (some (print_offset (dec_offset (inc_offset offset)) ++ closing ∷ [])))

unfoldable pub after_name : Option ℕ → List ℕ
after_name offset = if is_pretty offset then codes " : " else codes ":"

unfoldable mutual
  pub store : Option ℕ → JsonValue → Option (List ℕ)
  store offset null = some (codes "null")
  store offset (boolean b) = some (if b then codes "true" else codes "false")
  store offset (number s) = some s
  store offset (string s) = json_string s
  store offset (array items) =
      in_scope b'[' b']' offset (store_items false (inc_offset offset) items)
  store offset (object fields) =
      in_scope b'{' b'}' offset (store_fields false (inc_offset offset) fields)

  pub store_items : Bool → Option ℕ → JsonArray → Option (List ℕ)
  store_items is_first offset no_items = some []
  store_items is_first offset (item v items) =
      prepend (enter_next is_first offset)
        (followed_by (store offset v) (store_items true offset items))

  pub store_fields : Bool → Option ℕ → JsonObject → Option (List ℕ)
  store_fields is_first offset no_fields = some []
  store_fields is_first offset (field key v fields) = prepend (enter_next is_first offset) (
      followed_by (json_string key) (
        prepend (after_name offset)
          (followed_by (store offset v) (store_fields true offset fields))))

unfoldable pub json_encode : JsonValue → Bool → Option (List ℕ)
json_encode val pretty =
    followed_by (store (if pretty then some 0 else none) val)
      (some (if pretty then b'\n' ∷ [] else []))
