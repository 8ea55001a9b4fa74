-- ===== src/Json/Values/Progress.antt =====
-- do_json_decode (td/utils/JsonBuilder.cpp) ends on every text: the fuel of its loops is enough.
use Prim.Native.String.{String}
use tdutils.Base.{
  arith, Bool, Bool-cases, drop, error, false, if◌then◌else◌, inl, inr, length, List, ltb, none, ok,
  Option, Option-cases, Result, some, suc, true, zero, ℕ, [], ◌&&◌, ◌+◌, ◌<◌, ◌==◌, ◌∷◌, ◌≡◌, ◌≢◌,
  ◌≤◌,
}
use tdutils.Base.Text.{codes}
use tdutils.Json.{array, field, item, JsonObject, JsonValue, object, string}
use tdutils.Json.Values.{
  after_key, after_value, closed, decode_array, decode_fields, decode_items, decode_object,
  decode_value, do_json_decode, more, Next, ran_out, starts_number, token, unexpected,
  unexpected_symbol,
}
use tdutils.Parser.{empty, peek_char, skip_whitespaces, try_skip, try_skip_prefix}
use tdutils.Json.Values.Fuel.{
  if-Progress, Progress, Progress-bind, Progress-le, Progress-map, read_number-shorter,
  skip_whitespaces-le, try_skip-shorter, try_skip_prefix-le,
}
use tdutils.Json.Strings.{json_string_decode}
use tdutils.Json.Values.Fueled.{json_string_decode-Progress}

-- What stands behind a value leaves less than the text.
Behind : ℕ → Next → Type 0
Behind n (closed rest) = length rest < n
Behind n (more rest) = length rest < n
Behind n unexpected = Unit {0}

after_value-Behind :
    (closing n : ℕ) (text : List ℕ) → length text ≤ n → Behind n (after_value closing text)
unfolding after_value Behind
after_value-Behind closing n text h = elim (Option-cases (try_skip closing text)) [
  | inr (rest, e) ↦ rw (e, after_value) (omega (arith, try_skip-shorter closing text e))
  | inl e ↦ elim (Option-cases (try_skip b',' text)) [
    | inl f ↦ rw (e, f, after_value) tt
    | inr (rest, f) ↦
        rw (e, f, after_value)
          (omega (arith, try_skip-shorter b',' text f, skip_whitespaces-le rest))
  ]
]

module _ {ℓ} {T : Type ℓ} where
  next-Progress :
      (n : ℕ) (next : Next) (f g : List ℕ → Result (T × List ℕ)) (b : Bool) (m m' : String)
      → Behind n next
      → m ≢ ran_out
      → m' ≢ ran_out
      → ((rest : List ℕ) → length rest < n → Progress n (f rest))
      → ((rest : List ℕ) → length rest < n → Progress n (g rest))
      → Progress n (elim next [
        | closed rest ↦ f rest
        | more rest ↦ g rest
        | unexpected ↦ if b then error m else error m'
      ])
  unfolding Progress Behind
  next-Progress n (closed rest) f g b m m' h p q k l = k rest h
  next-Progress n (more rest) f g b m m' h p q k l = l rest h
  next-Progress n unexpected f g true m m' h p q k l = p
  next-Progress n unexpected f g false m m' h p q k l = q

ShorterText : ℕ → Option (List ℕ) → Type 0
ShorterText n none = Unit {0}
ShorterText n (some text) = length text < n

after_key-ShorterText : (n : ℕ) (text : List ℕ) → length text < n → ShorterText n (after_key text)
unfolding after_key ShorterText
after_key-ShorterText n text h = elim (Option-cases (try_skip b':' (skip_whitespaces text))) [
  | inl e ↦ rw (e, after_key) tt
  | inr (t, e) ↦
      rw (e, after_key)
        (omega (arith, skip_whitespaces-le text, try_skip-shorter b':' (skip_whitespaces text) e))
]

bracket-shorter :
    (c : ℕ) (text : List ℕ)
    → 0 < c
    → (peek_char text == c) ≡ true
    → length (skip_whitespaces (drop 1 text)) < length text
unfolding peek_char
bracket-shorter c [] h e = ground arith
bracket-shorter c (d ∷ text) h e = omega (arith, skip_whitespaces-le text)

unexpected_symbol-Progress : (n c : ℕ) → Progress {T = JsonValue} n (error (unexpected_symbol c))
unfolding unexpected_symbol Progress
unexpected_symbol-Progress n c = elim (Bool-cases (ltb 0 c && ltb c 127)) [
  | inl e ↦ rw (e, unexpected_symbol) (λ e. cc)
  | inr e ↦ rw (e, unexpected_symbol) (λ e. cc)
]

module _ (decode_one : List ℕ → Result (JsonValue × List ℕ))
    (moves : (t : List ℕ) → Progress (length t) (decode_one t)) where
  decode_items-Progress :
      (fuel : ℕ) (text : List ℕ)
      → length text < fuel
      → Progress (length text) (decode_items decode_one fuel text)
  unfolding decode_items Progress
  decode_items-Progress zero text h = absurd (omega arith)
  decode_items-Progress (suc fuel) text h = elim (Bool-cases (empty text)) [
    | inl e ↦ rw (e, decode_items) (λ e. cc)
    | inr e ↦
        rw (e, decode_items)
          (Progress-bind (length text) (decode_one text) _ (moves text) (λ v t l.
            next-Progress (length text) (after_value b']' (skip_whitespaces t)) _ _ _ _ _
              (after_value-Behind b']' (length text) (skip_whitespaces t)
                (omega (arith, skip_whitespaces-le t)))
              (λ e. cc) (λ e. cc) (λ rest l. l)
              (λ rest l. Progress-map (length text) (item v) (decode_items decode_one fuel rest) (
                Progress-le (length rest) (length text) _ (omega arith)
                  (decode_items-Progress fuel rest (omega arith))))))
  ]

  field_value-Progress :
      (n : ℕ) (after : Option (List ℕ)) (m : String)
      (g : JsonValue → List ℕ → Result (JsonObject × List ℕ))
      → ShorterText n after
      → m ≢ ran_out
      → ((v : JsonValue) (t : List ℕ) → length t < n → Progress n (g v t))
      → Progress n (elim after [
        | none ↦ error m
        | some t ↦ elim (decode_one t) [ error e ↦ error e | ok (v, t3) ↦ g v t3 ]
      ])
  unfolding Progress ShorterText
  field_value-Progress n none m g h p k = p
  field_value-Progress n (some t) m g h p k =
      Progress-bind n (decode_one t) g
        (Progress-le (length t) n (decode_one t) (omega arith) (moves t)) k

  decode_fields-Progress :
      (fuel : ℕ) (text : List ℕ)
      → length text < fuel
      → Progress (length text) (decode_fields decode_one fuel text)
  unfolding decode_fields Progress
  decode_fields-Progress zero text h = absurd (omega arith)
  decode_fields-Progress (suc fuel) text h = elim (Bool-cases (empty text)) [
    | inl e ↦ rw (e, decode_fields) (λ e. cc)
    | inr e ↦
        rw (e, decode_fields)
          (Progress-bind (length text) (json_string_decode text) _
            (json_string_decode-Progress text)
            (λ key t l.
              field_value-Progress (length text) (after_key t) _ _
                (after_key-ShorterText (length text) t (omega arith)) (λ e. cc)
                (λ v t l.
                  next-Progress (length text) (after_value b'}' (skip_whitespaces t)) _ _ _ _ _
                    (after_value-Behind b'}' (length text) (skip_whitespaces t)
                      (omega (arith, skip_whitespaces-le t)))
                    (λ e. cc) (λ e. cc) (λ rest l. l)
                    (λ rest l.
                      Progress-map (length text) (field key v) (decode_fields decode_one fuel rest)
                        (Progress-le (length rest) (length text) _ (omega arith)
                          (decode_fields-Progress fuel rest (omega arith)))))))
  ]

  decode_array-Progress :
      (n : ℕ) (text : List ℕ) → length text < n → Progress n (decode_array decode_one text)
  unfolding decode_array Progress
  decode_array-Progress n text h = elim (Option-cases (try_skip b']' text)) [
    | inr (rest, e) ↦ rw (e, decode_array) (omega (arith, try_skip-shorter b']' text e))
    | inl e ↦
        rw (e, decode_array)
          (Progress-map n array (decode_items decode_one (length text + 1) text) (
            Progress-le (length text) n _ (omega arith)
              (decode_items-Progress (length text + 1) text (omega arith))))
  ]

  decode_object-Progress :
      (n : ℕ) (text : List ℕ) → length text < n → Progress n (decode_object decode_one text)
  unfolding decode_object Progress
  decode_object-Progress n text h = elim (Option-cases (try_skip b'}' text)) [
    | inr (rest, e) ↦ rw (e, decode_object) (omega (arith, try_skip-shorter b'}' text e))
    | inl e ↦
        rw (e, decode_object)
          (Progress-map n object (decode_fields decode_one (length text + 1) text) (
            Progress-le (length text) n _ (omega arith)
              (decode_fields-Progress (length text + 1) text (omega arith))))
  ]

  token-Progress :
      (name : List ℕ) (v : JsonValue) (m : String) (text : List ℕ)
      → 0 < length name
      → m ≢ ran_out
      → Progress (length text) (token name v m text)
  unfolding token Progress
  token-Progress name v m text h p = elim (Option-cases (try_skip_prefix name text)) [
    | inl e ↦ rw (e, token) p
    | inr (rest, e) ↦ rw (e, token) (omega (arith, try_skip_prefix-le name text e))
  ]

  decode_value-Progress : (text : List ℕ) → Progress (length text) (decode_value decode_one text)
  unfolding decode_value Progress codes unexpected_symbol
  decode_value-Progress text =
      let c = peek_char text in
      if-Progress (length text) (c == b'f') _ _
        (λ e. token-Progress _ _ _ text (omega arith) (λ e. cc))
        (λ q.
          if-Progress (length text) (c == b't') _ _
            (λ e. token-Progress _ _ _ text (omega arith) (λ e. cc))
            (λ q.
              if-Progress (length text) (c == b'n') _ _
                (λ e. token-Progress _ _ _ text (omega arith) (λ e. cc))
                (λ q.
                  if-Progress (length text) (c == b'"') _ _
                    (λ e.
                      Progress-map _ string (json_string_decode text)
                        (json_string_decode-Progress text))
                    (λ q.
                      if-Progress (length text) (c == b'[') _ _
                        (λ e. decode_array-Progress _ _ (bracket-shorter b'[' text (omega arith) e))
                        (λ q.
                          if-Progress (length text) (c == b'{') _ _
                            (λ e.
                              decode_object-Progress _ _
                                (bracket-shorter b'{' text (omega arith) e))
                            (λ q.
                              if-Progress (length text) (starts_number c) _ _
                                (λ e. read_number-shorter text e)
                                (λ q.
                                  if-Progress (length text) (c == 0) _ _ (λ e. λ e. cc)
                                    (λ q. unexpected_symbol-Progress (length text) c))))))))

-- do_json_decode never runs out of fuel, at any depth, and where it succeeds it leaves fewer symbols
-- than it was given.
pub do_json_decode-Progress :
    (depth : ℕ) (text : List ℕ) → Progress (length text) (do_json_decode depth text)
unfolding do_json_decode Progress
do_json_decode-Progress zero text = λ e. cc
do_json_decode-Progress (suc depth) text =
    Progress-le (length (skip_whitespaces text)) (length text) _ (skip_whitespaces-le text) (
      decode_value-Progress (do_json_decode depth) (do_json_decode-Progress depth)
        (skip_whitespaces text))
