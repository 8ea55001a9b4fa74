-- ===== src/Json/Fields.antt =====
-- Fields of a JSON object: has_json_object_field and its relatives of td/utils/JsonBuilder.cpp.
-- A value that is moved out leaves null behind. Messages of errors leave out the name of the field.
use mathlib.Core.Bool.{false≢true}
use mathlib.Core.Path.{subst}
use tdutils.Base.{
  ap, Bool, Bool-cases, error, false, if◌then◌else◌, inl, inr, List, none, not, ok, Option, refl,
  Result, some, sym, true, ℕ, ◌&&◌, ◌>>=◌, ◌∙◌, ◌≡◌, ◌≢◌, ◌⊎◌,
}
use tdutils.Base.Equality.{is_same}
use tdutils.Base.Text.{codes}
use tdutils.Json.{
  array_type, boolean, boolean_type, field, JsonObject, JsonType, JsonValue, no_fields, null,
  null_type, number, number_type, object_type, string, string_type, type_of,
}

unfoldable pub has_json_object_field : JsonObject → List ℕ → Bool
has_json_object_field no_fields name = false
has_json_object_field (field key v others) name =
    if is_same key name then true else has_json_object_field others name

unfoldable pub get_json_object_field_force : JsonObject → List ℕ → JsonValue × JsonObject
get_json_object_field_force no_fields name = (null, no_fields)
get_json_object_field_force (field key v others) name =
    let (value, rest) = get_json_object_field_force others name in
    if is_same key name then (v, field key null others) else (value, field key v rest)

unfoldable pub get_type_name : JsonType → List ℕ
get_type_name null_type = codes "Null"
get_type_name number_type = codes "Number"
get_type_name boolean_type = codes "Boolean"
get_type_name string_type = codes "String"
get_type_name array_type = codes "Array"
get_type_name object_type = codes "Object"

unfoldable pub is_type : JsonType → JsonType → Bool
is_type null_type null_type = true
is_type number_type number_type = true
is_type boolean_type boolean_type = true
is_type string_type string_type = true
is_type array_type array_type = true
is_type object_type object_type = true
is_type _ _ = false

-- The answer on a field that is not there.
unfoldable pub no_field {ℓ} : {T : Type ℓ} → Bool → T → Result T
no_field is_optional default_value =
    if is_optional then ok default_value else error "Can't find field"

-- Null as the type stands for any type.
unfoldable pub get_json_object_field :
    JsonObject → List ℕ → JsonType → Bool → Result (JsonValue × JsonObject)
get_json_object_field no_fields name type is_optional = no_field is_optional (null, no_fields)
get_json_object_field (field key v others) name type is_optional =
    let found = get_json_object_field others name type is_optional in
    if is_same key name
    then (if not (is_type type null_type) && not (is_type (type_of v) type)
        then error "Field must be of another type"
        else ok (v, field key null others))
    else (found >>= λ (value, rest). ok (value, field key v rest))

unfoldable pub get_boolean : JsonValue → Bool → Bool
get_boolean (boolean b) default_value = b
get_boolean _ default_value = default_value

-- The type was asked for, so a value that is not null is Boolean.
unfoldable pub get_json_object_bool_field :
    JsonObject → List ℕ → Bool → Bool → Result (Bool × JsonObject)
get_json_object_bool_field fs name is_optional default_value =
    get_json_object_field fs name boolean_type is_optional >>= λ (value, rest).
    ok (get_boolean value default_value, rest)

-- The text of a string or a number.
unfoldable pub get_text : JsonValue → Option (List ℕ)
get_text (string s) = some s
get_text (number s) = some s
get_text _ = none

unfoldable pub get_json_object_string_field : JsonObject → List ℕ → Bool → List ℕ → Result (List ℕ)
get_json_object_string_field no_fields name is_optional default_value =
    no_field is_optional default_value
get_json_object_string_field (field key v others) name is_optional default_value =
    let found = get_json_object_string_field others name is_optional default_value in
    if is_same key name
    then (elim (get_text v) [ some s ↦ ok s | none ↦ error "Field must be of type String" ])
    else found

abbrev is_found :
    Bool → JsonType → Bool → JsonObject → JsonValue × JsonObject → Result (JsonValue × JsonObject)
is_found true type is_optional fs (v, rest) =
    if not (is_type type null_type) && not (is_type (type_of v) type)
    then error "Field must be of another type"
    else ok (v, rest)
is_found false type is_optional fs _ = no_field is_optional (null, fs)

found_behind :
    (b : Bool) (type : JsonType) (is_optional : Bool) (fs : JsonObject) (key : List ℕ)
    (v : JsonValue) (p : JsonValue × JsonObject)
    → (is_found b type is_optional fs p >>= λ (value, rest). ok (value, field key v rest))
      ≡ is_found b type is_optional (field key v fs) (p.0, field key v p.1)
unfolding no_field
found_behind true type is_optional fs key v (value, rest) =
    elim (Bool-cases (not (is_type type null_type) && not (is_type (type_of value) type))) [
      | inl e ↦ rw e refl
      | inr e ↦ rw e refl
    ]
found_behind false type true fs key v p = refl
found_behind false type false fs key v p = refl

get_json_object_field-is_found :
    (fs : JsonObject) (name : List ℕ) (type : JsonType) (is_optional : Bool)
    → get_json_object_field fs name type is_optional
      ≡ is_found
          (has_json_object_field fs name)
          type
          is_optional
          fs
          (get_json_object_field_force fs name)
unfolding get_json_object_field has_json_object_field get_json_object_field_force
get_json_object_field-is_found no_fields name type is_optional = refl
get_json_object_field-is_found (field key v others) name type is_optional =
    elim (Bool-cases (is_same key name)) [
      | inl e ↦
          rw (e, get_json_object_field, has_json_object_field, get_json_object_field_force) refl
      | inr e ↦
          rw
            (
              e,
              get_json_object_field,
              has_json_object_field,
              get_json_object_field_force,
              get_json_object_field-is_found others name type is_optional,
            )
            (found_behind (has_json_object_field others name) type is_optional others key v
              (get_json_object_field_force others name))
    ]

is_type_eq : (a b : JsonType) → is_type a b ≡ true → a ≡ b
unfolding is_type
is_type_eq null_type null_type h = refl
is_type_eq number_type number_type h = refl
is_type_eq boolean_type boolean_type h = refl
is_type_eq string_type string_type h = refl
is_type_eq array_type array_type h = refl
is_type_eq object_type object_type h = refl
is_type_eq _ _ h = cc

is_type_refl : (a : JsonType) → is_type a a ≡ true
unfolding is_type
is_type_refl null_type = refl
is_type_refl number_type = refl
is_type_refl boolean_type = refl
is_type_refl string_type = refl
is_type_refl array_type = refl
is_type_refl object_type = refl

is_type_ne : (a b : JsonType) → is_type a b ≡ false → a ≢ b
is_type_ne a b h e = false≢true (sym h ∙ ap (is_type a) (sym e) ∙ is_type_refl a)

-- The answers of get_json_object_field, where `found` says whether there is such a field, `value` is
-- what it holds and `rest` the object without this value.
abbrev pub Answers :
    JsonObject
    → JsonType
    → Bool
    → Bool
    → JsonValue × JsonObject
    → Result (JsonValue × JsonObject)
    → Type 0
Answers fs type is_optional found (value, rest) r =
    (found ≡ true) × ((type ≡ null_type) ⊎ (type_of value ≡ type)) × (r ≡ ok (value, rest))
    ⊎ (found ≡ true)
      × (type ≢ null_type)
      × (type_of value ≢ type)
      × (r ≡ error "Field must be of another type")
    ⊎ (found ≡ false) × (is_optional ≡ true) × (r ≡ ok (null, fs))
    ⊎ (found ≡ false) × (is_optional ≡ false) × (r ≡ error "Can't find field")

is_found-Answers :
    (found : Bool) (type : JsonType) (is_optional : Bool) (fs : JsonObject)
    (p : JsonValue × JsonObject)
    → Answers fs type is_optional found p (is_found found type is_optional fs p)
unfolding no_field
is_found-Answers false type true fs (v, rest) = inr (inr (inl (refl, refl, refl)))
is_found-Answers false type false fs (v, rest) = inr (inr (inr (refl, refl, refl)))
is_found-Answers true type is_optional fs (v, rest) = elim (Bool-cases (is_type type null_type)) [
  | inl a ↦ rw a (inl (refl, inl (is_type_eq type null_type a), refl))
  | inr a ↦ elim (Bool-cases (is_type (type_of v) type)) [
    | inl b ↦ rw (a, b) (inl (refl, inr (is_type_eq (type_of v) type b), refl))
    | inr b ↦
        rw (a, b)
          (inr (inl (refl, is_type_ne type null_type a, is_type_ne (type_of v) type b, refl)))
  ]
]

-- Where has_json_object_field finds the field, get_json_object_field moves out what
-- get_json_object_field_force finds if any type is asked for or the value has the type, and refuses
-- it otherwise; where there is no such field, it answers null if the field is optional, and
-- refuses otherwise.
pub get_json_object_field-force :
    (fs : JsonObject) (name : List ℕ) (type : JsonType) (is_optional : Bool)
    → Answers fs type is_optional
        (has_json_object_field fs name)
        (get_json_object_field_force fs name)
        (get_json_object_field fs name type is_optional)
get_json_object_field-force fs name type is_optional =
    subst
      (Answers fs type is_optional (has_json_object_field fs name)
        (get_json_object_field_force fs name))
      (sym (get_json_object_field-is_found fs name type is_optional))
      (is_found-Answers (has_json_object_field fs name) type is_optional fs
        (get_json_object_field_force fs name))
