-- ===== src/Json/Values/Skip.antt =====
-- do_json_skip against do_json_decode (td/utils/JsonBuilder.cpp).
use Prim.Native.String.{String}
use mathlib.Core.Option.{some-injective}
use tdutils.Base.{
  Bool, Bool-cases, error, false, if◌then◌else◌, inl, inr, length, List, none, ok, Option,
  Option-cases, refl, Result, some, suc, sym, true, zero, ℕ, ◌+◌, ◌==◌, ◌>>=◌, ◌∙◌, ◌≡◌,
}
use tdutils.Json.{
  array, field, item, JsonArray, JsonObject, JsonValue, no_fields, no_items, object, string,
}
use tdutils.Json.Skipping.{json_string_skip-decode, left_of, skipped}
use tdutils.Json.Values.{
  after_key, after_value, closed, decode_array, decode_fields, decode_items, decode_object,
  decode_value, do_json_decode, do_json_skip, more, Next, skip_array, skip_fields, skip_items,
  skip_object, skip_token, skip_value, starts_number, token, unexpected,
}
use tdutils.Parser.{empty, peek_char, skip_whitespaces, try_skip, try_skip_prefix}
use tdutils.Json.Strings.{json_string_decode, json_string_skip}

left_of-map {ℓ κ} :
    {S : Type ℓ} {T : Type κ} (f : S → T) (r : Result (S × List ℕ))
    → left_of (r >>= λ (s, rest). ok (f s, rest)) ≡ left_of r
left_of-map f (error message) = refl
left_of-map f (ok (s, rest)) = refl

-- A skipping and a decoding parser leave the same rest, or both fail.
abbrev Agree {ℓ} : {T : Type ℓ} → Result (List ℕ) → Result (T × List ℕ) → Type 0
Agree s r = skipped s ≡ left_of r

if-Agree {ℓ} :
    {T : Type ℓ} (b : Bool) (s s' : Result (List ℕ)) (r r' : Result (T × List ℕ))
    → Agree s r
    → Agree s' r'
    → Agree (if b then s else s') (if b then r else r')
if-Agree true s s' r r' h k = h
if-Agree false s s' r r' h k = k

-- Two chains agree when their first links do, and their other links on the rest that these leave.
Agree-bind {ℓ κ} :
    {S : Type ℓ} {T : Type κ} (s : Result (List ℕ)) (r : Result (S × List ℕ))
    (f : List ℕ → Result (List ℕ)) (g : S → List ℕ → Result (T × List ℕ))
    → Agree s r
    → ((v : S) (t : List ℕ) → Agree (f t) (g v t))
    → Agree
        (elim s [ error e ↦ error e | ok t ↦ f t ])
        (elim r [ error e ↦ error e | ok (v, t) ↦ g v t ])
Agree-bind (error e) (error e') f g h k = refl
Agree-bind (error e) (ok (v, t)) f g h k = cc
Agree-bind (ok t) (error e) f g h k = cc
Agree-bind (ok t) (ok (v, t')) f g h k = rw (some-injective _ _ h) (k v t')

error_if {ℓ} :
    (T : Type ℓ) (b : Bool) (m n : String) → none ≡ left_of {T = T} (if b then error m else error n)
error_if T true m n = refl
error_if T false m n = refl

items_next :
    (n : Next) (b : Bool) (v : JsonValue) (m m' : String) (skip_more : List ℕ → Result (List ℕ))
    (decode_more : List ℕ → Result (JsonArray × List ℕ))
    → ((t : List ℕ) → Agree (skip_more t) (decode_more t))
    → Agree
        (elim n [
          | closed rest ↦ ok rest
          | more rest ↦ skip_more rest
          | unexpected ↦ error "Unexpected symbol"
        ])
        (elim n [
          | closed rest ↦ ok (item v no_items, rest)
          | more rest ↦ decode_more rest >>= λ (items, left). ok (item v items, left)
          | unexpected ↦ if b then error m else error m'
        ])
items_next (closed rest) b v m m' f g k = refl
items_next (more rest) b v m m' f g k = k rest ∙ sym (left_of-map (item v) (g rest))
items_next unexpected b v m m' f g k = error_if _ b m m'

fields_next :
    (n : Next) (b : Bool) (key : List ℕ) (v : JsonValue) (m m' : String)
    (skip_more : List ℕ → Result (List ℕ)) (decode_more : List ℕ → Result (JsonObject × List ℕ))
    → ((t : List ℕ) → Agree (skip_more t) (decode_more t))
    → Agree
        (elim n [
          | closed rest ↦ ok rest
          | more rest ↦ skip_more rest
          | unexpected ↦ error "Unexpected symbol"
        ])
        (elim n [
          | closed rest ↦ ok (field key v no_fields, rest)
          | more rest ↦ decode_more rest >>= λ (others, left). ok (field key v others, left)
          | unexpected ↦ if b then error m else error m'
        ])
fields_next (closed rest) b key v m m' f g k = refl
fields_next (more rest) b key v m m' f g k = k rest ∙ sym (left_of-map (field key v) (g rest))
fields_next unexpected b key v m m' f g k = error_if _ b m m'

module _ (skip_one : List ℕ → Result (List ℕ)) (decode_one : List ℕ → Result (JsonValue × List ℕ))
    (same : (t : List ℕ) → Agree (skip_one t) (decode_one t)) where
  skip_items-decode :
      (fuel : ℕ) (text : List ℕ)
      → Agree (skip_items skip_one fuel text) (decode_items decode_one fuel text)
  unfolding skip_items decode_items
  skip_items-decode zero text = refl
  skip_items-decode (suc fuel) text = elim (Bool-cases (empty text)) [
    | inl e ↦ rw (e, skip_items, decode_items) refl
    | inr e ↦
        rw (e, skip_items, decode_items)
          (Agree-bind (skip_one text) (decode_one text) _ _ (same text) (λ v t.
            items_next (after_value b']' (skip_whitespaces t)) _ v _ _ _ _
              (skip_items-decode fuel)))
  ]

  fields_rest :
      (after : Option (List ℕ)) (key : List ℕ) (m : String) (f : List ℕ → Result (List ℕ))
      (g : JsonValue → List ℕ → Result (JsonObject × List ℕ))
      → ((v : JsonValue) (t : List ℕ) → Agree (f t) (g v t))
      → Agree
          (elim after [
            | none ↦ error m
            | some t ↦ elim (skip_one t) [ error e ↦ error e | ok t3 ↦ f t3 ]
          ])
          (elim after [
            | none ↦ error m
            | some t ↦ elim (decode_one t) [ error e ↦ error e | ok (v, t3) ↦ g v t3 ]
          ])
  fields_rest none key m f g k = refl
  fields_rest (some t) key m f g k = Agree-bind (skip_one t) (decode_one t) f g (same t) k

  skip_fields-decode :
      (fuel : ℕ) (text : List ℕ)
      → Agree (skip_fields skip_one fuel text) (decode_fields decode_one fuel text)
  unfolding skip_fields decode_fields
  skip_fields-decode zero text = refl
  skip_fields-decode (suc fuel) text = elim (Bool-cases (empty text)) [
    | inl e ↦ rw (e, skip_fields, decode_fields) refl
    | inr e ↦
        rw (e, skip_fields, decode_fields)
          (Agree-bind (json_string_skip text) (json_string_decode text) _ _
            (json_string_skip-decode text)
            (λ key t. fields_rest (after_key t) key _ _ _ (λ v t3.
              fields_next (after_value b'}' (skip_whitespaces t3)) _ key v _ _ _ _
                (skip_fields-decode fuel))))
  ]

  skip_array-decode :
      (text : List ℕ) → Agree (skip_array skip_one text) (decode_array decode_one text)
  unfolding skip_array decode_array
  skip_array-decode text = elim (Option-cases (try_skip b']' text)) [
    | inr (rest, e) ↦ rw (e, skip_array, decode_array) refl
    | inl e ↦
        rw (e, skip_array, decode_array)
          (skip_items-decode (length text + 1) text
            ∙ sym (left_of-map array (decode_items decode_one (length text + 1) text)))
  ]

  skip_object-decode :
      (text : List ℕ) → Agree (skip_object skip_one text) (decode_object decode_one text)
  unfolding skip_object decode_object
  skip_object-decode text = elim (Option-cases (try_skip b'}' text)) [
    | inr (rest, e) ↦ rw (e, skip_object, decode_object) refl
    | inl e ↦
        rw (e, skip_object, decode_object)
          (skip_fields-decode (length text + 1) text
            ∙ sym (left_of-map object (decode_fields decode_one (length text + 1) text)))
  ]

  skip_token-decode :
      (name : List ℕ) (v : JsonValue) (m m' : String) (text : List ℕ)
      → Agree (skip_token name m text) (token name v m' text)
  unfolding skip_token token
  skip_token-decode name v m m' text = elim (Option-cases (try_skip_prefix name text)) [
    | inl e ↦ rw (e, skip_token, token) refl
    | inr (rest, e) ↦ rw (e, skip_token, token) refl
  ]

  skip_value-decode :
      (text : List ℕ) → Agree (skip_value skip_one text) (decode_value decode_one text)
  unfolding skip_value decode_value
  skip_value-decode text =
      let c = peek_char text in
      if-Agree (c == b'f') _ _ _ _ (skip_token-decode _ _ _ _ text) (
        if-Agree (c == b't') _ _ _ _ (skip_token-decode _ _ _ _ text) (
          if-Agree (c == b'n') _ _ _ _ (skip_token-decode _ _ _ _ text) (
            if-Agree (c == b'"') _ _ _ _
              (json_string_skip-decode text ∙ sym (left_of-map string (json_string_decode text)))
              (if-Agree (c == b'[') _ _ _ _ (skip_array-decode _) (
                if-Agree (c == b'{') _ _ _ _ (skip_object-decode _) (
                  if-Agree (starts_number c) _ _ _ _ refl
                    (if-Agree (c == 0) _ _ _ _ refl refl)))))))

-- do_json_skip passes over exactly the values that do_json_decode decodes, at every depth.
pub do_json_skip-decode :
    (depth : ℕ) (text : List ℕ)
    → skipped (do_json_skip depth text) ≡ left_of (do_json_decode depth text)
unfolding do_json_skip do_json_decode
do_json_skip-decode zero text = refl
do_json_skip-decode (suc depth) text =
    skip_value-decode (do_json_skip depth) (do_json_decode depth) (do_json_skip-decode depth)
      (skip_whitespaces text)
