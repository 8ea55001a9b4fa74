-- ===== src/Json/Printer/RoundTrip.antt =====
-- json_encode and json_decode (td/utils/JsonBuilder.h), one after the other.
use mathlib.Core.Option.{none-ne-some, some-injective}
use tdutils.Base.{
  ap, arith, Bool, false, inl, inr, length, length-append, List, none, ok, Option, Option-cases,
  refl, some, suc, true, zero, ℕ, [], ◌++◌, ◌∙◌, ◌∷◌, ◌≡◌, ◌≤◌,
}
use tdutils.Base.Text.{codes}
use tdutils.Json.{
  array, boolean, field, item, JsonArray, JsonObject, JsonValue, no_fields, no_items, null, number,
  object, string,
}
use tdutils.Json.Printer.{
  after_name, dec_offset, enter_next, followed_by, inc_offset, json_encode, print_offset, store,
  store_fields, store_items,
}
use tdutils.Json.Printer.Scopes.{
  decode-array, decode-object, decode_array-closed, decode_array-open, decode_object-closed,
  decode_object-open, followed_by-some, in_scope-some,
}
use tdutils.Json.Printer.Nesting.{decode-number, decode-string, Ends}
use tdutils.Json.Printer.Begins.{
  depth, depth_fields, depth_items, Readable, ReadableFields, ReadableItems, store-Begins,
}
use tdutils.Parser.{empty, find_char, peek_char, skip_till_not, skip_whitespaces}
use tdutils.Json.Values.{do_json_decode, is_number_char, json_decode}
use tdutils.Json.Printer.Steps.{
  after_field, after_field-closed, after_field-more, after_item, after_item-closed, after_item-more,
  close, decode_fields-field, decode_items-item,
}
use tdutils.Json.Strings.{json_string, prepend}
use tdutils.Json.RoundTrip.{json_string_decode-json_string}
use tdutils.Json.Printer.Ends.{
  decode-word, depth-positive, fields-Ends, inner-le, items-Ends, middle-le, name-Begins, spaced,
}

mutual
  unfolding store Readable depth codes enter_next

  value-back :
      (d : ℕ) (offset : Option ℕ) (v : JsonValue) (t rest : List ℕ)
      → store offset v ≡ some t
      → Readable v
      → depth v ≤ d
      → Ends rest
      → do_json_decode d (t ++ rest) ≡ ok (v, rest)
  value-back zero offset v t rest e r l k = absurd (omega (arith, depth-positive v))
  value-back (suc d) offset null t rest e r l k = rw (← some-injective _ _ e) (decode-word d rest).0
  value-back (suc d) offset (boolean true) t rest e r l k =
      rw (← some-injective _ _ e) (decode-word d rest).1
  value-back (suc d) offset (boolean false) t rest e r l k =
      rw (← some-injective _ _ e) (decode-word d rest).2
  value-back (suc d) offset (number s) t rest e r l k =
      rw (← some-injective _ _ e) (decode-number d s rest r k)
  value-back (suc d) offset (string s) t rest e r l k = decode-string d s t rest r e
  value-back (suc d) offset (array no_items) t rest e r l k =
      let (a, ea, w) = in_scope-some b'[' b']' offset (some []) t e in
      rw (w rest, ← some-injective _ _ ea)
        (decode-array d _
          ∙ decode_array-closed (do_json_decode d) (dec_offset (inc_offset offset)) rest)
  value-back (suc d) offset (array (item v items)) t rest e (rv, r) l k =
      let o = inc_offset offset in
      let (a, ea, w) = in_scope-some b'[' b']' offset (store_items false o (item v items)) t e in
      let (tv, m, ev, em, w') =
        followed_by-some (print_offset o) (store o v) (store_items true o items) a ea in
      let tail = m ++ close (dec_offset o) b']' rest in
      let b = store-Begins o v tv rv ev in
      let first =
        value-back d o v tv tail ev rv (omega arith)
          (items-Ends o (dec_offset o) items m rest em) in
      let others =
        items-back d o (dec_offset o) items (length (tv ++ tail)) v m rest em r (omega arith)
          (middle-le tv m _) in
      ap (do_json_decode (suc d))
        (w rest ∙ ap (λ u. b'[' ∷ u) (w' (close (dec_offset o) b']' rest)))
      ∙ decode-array d _
      ∙ decode_array-open (do_json_decode d) o tv tail rest (item v items) b
          (decode_items-item (do_json_decode d) (length (tv ++ tail)) v tv tail b first ∙ others)
  value-back (suc d) offset (object no_fields) t rest e r l k =
      let (a, ea, w) = in_scope-some b'{' b'}' offset (some []) t e in
      rw (w rest, ← some-injective _ _ ea)
        (decode-object d _
          ∙ decode_object-closed (do_json_decode d) (dec_offset (inc_offset offset)) rest)
  value-back (suc d) offset (object (field key v others)) t rest e (rk, rv, r) l k =
      let o = inc_offset offset in
      let (a, ea, w) =
        in_scope-some b'{' b'}' offset (store_fields false o (field key v others)) t e in
      let (name, x, ek, ex, w') =
        followed_by-some (print_offset o) (json_string key)
          (prepend (after_name o) (followed_by (store o v) (store_fields true o others))) a ea in
      let (tv, m, ev, em, w3) =
        followed_by-some (after_name o) (store o v) (store_fields true o others) x ex in
      let end = close (dec_offset o) b'}' rest in
      let tail = m ++ end in
      let b = name-Begins key name ek in
      let first =
        value-back d o v tv tail ev rv (omega arith)
          (fields-Ends o (dec_offset o) others m rest em) in
      let text = after_name o ++ (tv ++ tail) in
      let others' =
        fields-back d o (dec_offset o) others (length (name ++ text)) key v m rest em r
          (omega arith)
          (omega (
            arith,
            middle-le (name ++ (after_name o ++ tv)) m end,
            length-append name text,
            length-append (after_name o) (tv ++ tail),
            length-append tv tail,
            length-append m end,
          )) in
      ap (do_json_decode (suc d))
        (w rest ∙ ap (λ u. b'{' ∷ u) (w' end ∙ ap (λ u. print_offset o ++ (name ++ u)) (w3 end)))
      ∙ decode-object d _
      ∙ decode_object-open (do_json_decode d) o name text rest (field key v others) b (
          decode_fields-field (do_json_decode d) (spaced d) (length (name ++ text)) o key v name tv
            tail b (json_string_decode-json_string key name text rk ek) first
          ∙ others')

  items-back :
      (d : ℕ) (offset offset' : Option ℕ) (items : JsonArray) (fuel : ℕ) (v : JsonValue)
      (m rest : List ℕ)
      → store_items true offset items ≡ some m
      → ReadableItems items
      → depth_items items ≤ d
      → length m ≤ fuel
      → after_item (do_json_decode d) fuel v (m ++ close offset' b']' rest)
        ≡ ok (item v items, rest)
  items-back d offset offset' no_items fuel v m rest e r l n =
      rw (← some-injective _ _ e) (after_item-closed (do_json_decode d) fuel v offset' rest)
  items-back d offset offset' (item w items) zero v m rest e r l n =
      let (t, m', _, _, x) =
        followed_by-some (b',' ∷ print_offset offset) (store offset w)
          (store_items true offset items) m e in
      absurd (omega (arith, inner-le m (b',' ∷ print_offset offset) t m' x))
  items-back d offset offset' (item w items) (suc fuel) v m rest e (rv, r) l n =
      let (t, m', et, em, x) =
        followed_by-some (b',' ∷ print_offset offset) (store offset w)
          (store_items true offset items) m e in
      let end = close offset' b']' rest in
      let first =
        value-back d offset w t (m' ++ end) et rv (omega arith)
          (items-Ends offset offset' items m' rest em) in
      let others =
        items-back d offset offset' items fuel w m' rest em r (omega arith)
          (omega (arith, inner-le m (b',' ∷ print_offset offset) t m' x)) in
      ap (after_item (do_json_decode d) (suc fuel) v) (x end)
      ∙ after_item-more (do_json_decode d) fuel v w (item w items) offset t (m' ++ end) rest
          (store-Begins offset w t rv et) first others

  fields-back :
      (d : ℕ) (offset offset' : Option ℕ) (fs : JsonObject) (fuel : ℕ) (key : List ℕ)
      (v : JsonValue) (m rest : List ℕ)
      → store_fields true offset fs ≡ some m
      → ReadableFields fs
      → depth_fields fs ≤ d
      → length m ≤ fuel
      → after_field (do_json_decode d) fuel key v (m ++ close offset' b'}' rest)
        ≡ ok (field key v fs, rest)
  fields-back d offset offset' no_fields fuel key v m rest e r l n =
      rw (← some-injective _ _ e) (after_field-closed (do_json_decode d) fuel key v offset' rest)
  fields-back d offset offset' (field key' w fs) zero key v m rest e r l n =
      let (name, x, _, _, p) =
        followed_by-some (b',' ∷ print_offset offset) (json_string key')
          (prepend (after_name offset) (followed_by (store offset w) (store_fields true offset fs)))
          m e in
      absurd (omega (arith, inner-le m (b',' ∷ print_offset offset) name x p))
  fields-back d offset offset' (field key' w fs) (suc fuel) key v m rest e (rk, rv, r) l n =
      let (name, x, ek, ex, p) =
        followed_by-some (b',' ∷ print_offset offset) (json_string key')
          (prepend (after_name offset) (followed_by (store offset w) (store_fields true offset fs)))
          m e in
      let (t, m', et, em, q) =
        followed_by-some (after_name offset) (store offset w) (store_fields true offset fs) x ex in
      let end = close offset' b'}' rest in
      let tail = m' ++ end in
      let b = name-Begins key' name ek in
      let first =
        value-back d offset w t tail et rv (omega arith)
          (fields-Ends offset offset' fs m' rest em) in
      let others = fields-back d offset offset' fs fuel key' w m' rest em r (omega arith) (
        omega (
          arith,
          inner-le m (b',' ∷ print_offset offset) name x p,
          inner-le x (after_name offset) t m' q,
        )) in
      ap (after_field (do_json_decode d) (suc fuel) key v)
        (p end ∙ ap (λ u. (b',' ∷ print_offset offset) ++ (name ++ u)) (q end))
      ∙ after_field-more (do_json_decode d) (suc fuel) key v (field key' w fs) offset name
          (after_name offset ++ (t ++ tail)) rest b
          (decode_fields-field (do_json_decode d) (spaced d) fuel offset key' w name t tail b
              (json_string_decode-json_string key' name (after_name offset ++ (t ++ tail)) rk ek)
              first
            ∙ others)

json_decode-end :
    (v : JsonValue) (offset : Option ℕ) (t end : List ℕ)
    → store offset v ≡ some t
    → Readable v
    → depth v ≤ 101
    → Ends end
    → empty (skip_whitespaces end) ≡ true
    → json_decode (t ++ end) ≡ ok v
unfolding json_decode
json_decode-end v offset t end e r l k h =
    rw (value-back 101 offset v t end e r l k, json_decode, h) refl

-- A value of readable numbers and strings, nested at most 101 deep, is read back from what json_encode
-- prints for it, in the compact and in the pretty layout.
pub json_decode-json_encode :
    (v : JsonValue) (pretty : Bool) (t : List ℕ)
    → json_encode v pretty ≡ some t
    → Readable v
    → depth v ≤ 101
    → json_decode t ≡ ok v
unfolding json_encode empty is_number_char peek_char skip_whitespaces skip_till_not find_char
json_decode-json_encode v true t e r l = elim (Option-cases (store (some 0) v)) [
  | inl p ↦ absurd (none-ne-some _ (rw (p, json_encode) at e))
  | inr (s, p) ↦
      rw (← some-injective _ _ (rw (p, json_encode) at e))
        (json_decode-end v (some 0) s (b'\n' ∷ []) p r l refl refl)
]
json_decode-json_encode v false t e r l = elim (Option-cases (store none v)) [
  | inl p ↦ absurd (none-ne-some _ (rw (p, json_encode) at e))
  | inr (s, p) ↦
      rw (← some-injective _ _ (rw (p, json_encode) at e))
        (json_decode-end v none s [] p r l refl refl)
]
