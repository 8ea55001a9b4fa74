-- ===== src/Json.antt =====
-- td/utils/JsonBuilder.h and td/utils/JsonBuilder.cpp: JSON values, their printer and their parser.
-- A MutableSlice is the list of its bytes, whether it was read in place or not. A vector of values and
-- a vector of named values are types of their own, since a type cannot hold a list of itself.
pub mod Escapes
pub mod Strings
pub mod Skipping
pub mod Chunks
pub mod Chars
pub mod Leads
pub mod Multibyte
pub mod RoundTrip
pub mod Sizes
pub mod Accepts
pub mod Values
pub mod Printer
pub mod Fields
pub mod IntegerFields
mod Tests
use tdutils.Base.{Bool, List, ℕ}

mutual
  pub data JsonValue : Type 0 where
    null : JsonValue
    number : List ℕ → JsonValue
    boolean : Bool → JsonValue
    string : List ℕ → JsonValue
    array : JsonArray → JsonValue
    object : JsonObject → JsonValue

  pub data JsonArray : Type 0 where
    no_items : JsonArray
    item : JsonValue → JsonArray → JsonArray

  pub data JsonObject : Type 0 where
    no_fields : JsonObject
    field : List ℕ → JsonValue → JsonObject → JsonObject

pub data JsonType : Type 0 where
  null_type number_type boolean_type string_type array_type object_type : JsonType

unfoldable pub type_of : JsonValue → JsonType
type_of null = null_type
type_of (number s) = number_type
type_of (boolean b) = boolean_type
type_of (string s) = string_type
type_of (array _) = array_type
type_of (object _) = object_type
