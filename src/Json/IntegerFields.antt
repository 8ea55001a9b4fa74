-- ===== src/Json/IntegerFields.antt =====
-- Integer fields of a JSON object: get_json_object_int_field and get_json_object_long_field of
-- td/utils/JsonBuilder.cpp. Messages of errors leave out the name of the field.
use mathlib.Core.Bool.{false≢true}
use Prim.Native.String.{String}
use tdutils.Base.{
  ap, arith, Bool, Bool-cases, error, false, if◌then◌else◌, inl, inr, is_ok, List, none, ok,
  Option-cases, Result, some, sym, ℕ, [], ◌<◌, ◌↔◌, ◌≡◌, ◌≢◌,
}
use tdutils.Base.Equality.{is_same}
use tdutils.Misc.SafeIntegers.{InRange, to_integer_safe_accepts}
use tdutils.Misc.Integers.{print_int, to_integer_safe, ℤ}
use tdutils.Json.Fields.{get_json_object_string_field, get_text, no_field}
use tdutils.Json.{field, JsonObject, no_fields}

-- What both getters do, for a type of `w` bits.
unfoldable pub integer_field : ℕ → String → JsonObject → List ℕ → Bool → ℤ → Result ℤ
integer_field w wrong no_fields name is_optional default_value = no_field is_optional default_value
integer_field w wrong (field key v others) name is_optional default_value =
    let found = integer_field w wrong others name is_optional default_value in
    if is_same key name
    then (elim (get_text v) [ some s ↦ to_integer_safe w s | none ↦ error wrong ])
    else found

unfoldable pub get_json_object_int_field : JsonObject → List ℕ → Bool → ℤ → Result ℤ
get_json_object_int_field = integer_field 32 "Field must be of type Number"

unfoldable pub get_json_object_long_field : JsonObject → List ℕ → Bool → ℤ → Result ℤ
get_json_object_long_field = integer_field 64 "Field must be a Number"

-- The text that a required field must have to be read as `n`.
IsText : ℕ → JsonObject → List ℕ → ℤ → Type 0
IsText w fs name n =
    InRange w n × (get_json_object_string_field fs name false [] ≡ ok (print_int n))

refused : {A : Type 0} {m : String} {a : A} → error m ≢ ok a
refused e = false≢true (ap is_ok e)

integer_field_reads :
    (w : ℕ) (wrong : String) (fs : JsonObject) (name : List ℕ) (default_value n : ℤ)
    → 0 < w
    → (integer_field w wrong fs name false default_value ≡ ok n) ↔ IsText w fs name n
unfolding integer_field get_json_object_string_field no_field IsText
integer_field_reads w wrong no_fields name d n p =
    (λ h. elim (refused h) [ ], λ (r, h). elim (refused h) [ ])
integer_field_reads w wrong (field key v others) name d n p = elim (Bool-cases (is_same key name)) [
  | inr e ↦ rw e (integer_field_reads w wrong others name d n p)
  | inl e ↦ elim (Option-cases (get_text v)) [
    | inl t ↦ rw e (rw t (λ h. elim (refused h) [ ], λ (r, h). elim (refused h) [ ]))
    | inr (s, t) ↦
        let accepts = to_integer_safe_accepts w s n p in
        rw e (
          rw t (
            λ h. (let (r, q) = accepts.0 h in (r, ap ok (sym q))),
            λ (r, h). accepts.1 (r, (let q : s ≡ print_int n = cc in sym q)),
          ))
  ]
]

-- A required integer field is read as `n` exactly when `n` fits the type, 32 bits in
-- get_json_object_int_field and 64 in get_json_object_long_field, and get_json_object_string_field
-- finds in the field what print_int writes for `n`.
pub get_json_object_int_field_reads :
    (fs : JsonObject) (name : List ℕ) (default_value n : ℤ)
    → ((get_json_object_int_field fs name false default_value ≡ ok n)
        ↔ (InRange 32 n × (get_json_object_string_field fs name false [] ≡ ok (print_int n))))
      × ((get_json_object_long_field fs name false default_value ≡ ok n)
          ↔ (InRange 64 n × (get_json_object_string_field fs name false [] ≡ ok (print_int n))))
unfolding get_json_object_int_field get_json_object_long_field IsText
get_json_object_int_field_reads fs name default_value n = (
  integer_field_reads 32 _ fs name default_value n (omega arith),
  integer_field_reads 64 _ fs name default_value n (omega arith),
)
