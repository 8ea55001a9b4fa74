-- ===== src/Json/Strings.antt =====
-- JSON strings: operator<< of JsonRawString and JsonString, json_string_decode and json_string_skip of
-- td/utils/JsonBuilder.cpp.
use tdutils.Base.{
  bit_and, bit_or, error, false, if◌then◌else◌, leb, List, ltb, none, not, ok, Option, Result, some,
  suc, true, zero, ℕ, [], ◌&&◌, ◌*◌, ◌++◌, ◌==◌, ◌>>=◌, ◌^◌, ◌∷◌,
}
use tdutils.Parser.{try_skip}
use tdutils.Json.Escapes.{json_char, json_one_char, read_escape, skip_escape}
use tdutils.Utf8.Check.{is_continuation}

-- The cases that JsonRawString and JsonString share: `none` for a character of the default.
unfoldable pub escaped : ℕ → Option (List ℕ)
escaped ch =
    if ch == b'"'
    then some (b'\\' ∷ b'"' ∷ [])
    else if ch == b'\\'
    then some (b'\\' ∷ b'\\' ∷ [])
    else if ch == 8
    then some (b'\\' ∷ b'b' ∷ [])
    else if ch == 12
    then some (b'\\' ∷ b'f' ∷ [])
    else if ch == 10
    then some (b'\\' ∷ b'n' ∷ [])
    else if ch == 13
    then some (b'\\' ∷ b'r' ∷ [])
    else if ch == 9
    then some (b'\\' ∷ b't' ∷ [])
    else if leb ch 31
    then some (json_one_char ch)
    else none

unfoldable pub raw_string_body : List ℕ → List ℕ
raw_string_body [] = []
raw_string_body (ch ∷ s) =
    elim (escaped ch) [ some out ↦ out | none ↦ ch ∷ [] ] ++ raw_string_body s

unfoldable pub json_raw_string : List ℕ → List ℕ
json_raw_string s = b'"' ∷ raw_string_body s ++ b'"' ∷ []

-- A printed character, with the number of bytes behind its first.
abbrev pub with_size : ℕ → Option (List ℕ) → Option (List ℕ × ℕ)
with_size n none = none
with_size n (some out) = some (out, n)

-- The branch `128 <= ch`, by the bytes that it reads; `none` stands for a failed CHECK.
unfoldable pub print_four : ℕ → ℕ → ℕ → List ℕ → Option (List ℕ × ℕ)
print_four a b c [] = none
print_four a b c (d ∷ s) =
    if is_continuation d
      && (bit_and a 0x08 == 0)
      && ltb 0 (bit_or (bit_and a 0x07) (bit_and b 0x30))
    then with_size 3 (
        json_char (
          bit_or
            (bit_or (bit_or (bit_and a 0x07 * 2 ^ 18) (bit_and b 0x3f * 2 ^ 12))
              (bit_and c 0x3f * 2 ^ 6))
            (bit_and d 0x3f)))
    else none

unfoldable pub print_three : ℕ → ℕ → List ℕ → Option (List ℕ × ℕ)
print_three a b [] = none
print_three a b (c ∷ s) = elim (is_continuation c) [
  | false ↦ none
  | true ↦ elim (bit_and a 0x10 == 0) [
    | true ↦
        if ltb 0 (bit_or (bit_and a 0x0f) (bit_and b 0x20))
        then with_size 2 (
            json_char
              (bit_or (bit_or (bit_and a 0x0f * 2 ^ 12) (bit_and b 0x3f * 2 ^ 6)) (bit_and c 0x3f)))
        else none
    | false ↦ print_four a b c s
  ]
]

unfoldable pub print_lead : ℕ → List ℕ → Option (List ℕ × ℕ)
print_lead a [] = none
print_lead a (b ∷ s) = elim (not (bit_and a 0x40 == 0) && is_continuation b) [
  | false ↦ none
  | true ↦ elim (bit_and a 0x20 == 0) [
    | true ↦
        if ltb 0 (bit_and a 0x1e)
        then with_size 1 (json_char (bit_or (bit_and a 0x1f * 2 ^ 6) (bit_and b 0x3f)))
        else none
    | false ↦ print_three a b s
  ]
]

-- One round of the loop.
unfoldable pub print_char : ℕ → List ℕ → Option (List ℕ × ℕ)
print_char ch s = elim (escaped ch) [
  | some out ↦ some (out, 0)
  | none ↦ elim (leb 128 ch) [ true ↦ print_lead ch s | false ↦ some (ch ∷ [], 0) ]
]

abbrev pub prepend : List ℕ → Option (List ℕ) → Option (List ℕ)
prepend out none = none
prepend out (some more) = some (out ++ more)

-- The loop; `skip` bytes belong to the last character.
unfoldable pub string_body : ℕ → List ℕ → Option (List ℕ)
string_body skip [] = some []
string_body (suc skip) (ch ∷ s) = string_body skip s
string_body zero (ch ∷ s) = elim (print_char ch s) [
  | none ↦ none
  | some (out, skip) ↦ prepend out (string_body skip s)
]

unfoldable pub json_string : List ℕ → Option (List ℕ)
json_string s =
    prepend (b'"' ∷ [])
      (elim (string_body 0 s) [ none ↦ none | some body ↦ some (body ++ b'"' ∷ []) ])

-- The search for the closing quote: what stands before it, and the text behind it.
abbrev pub before : List ℕ → Option (List ℕ × List ℕ) → Option (List ℕ × List ℕ)
before out none = none
before out (some (s, text)) = some (out ++ s, text)

unfoldable pub find_closing : List ℕ → Option (List ℕ × List ℕ)
find_closing [] = none
find_closing (c ∷ []) = if c == b'"' then some ([], []) else none
find_closing (c ∷ d ∷ text) = elim (c == b'"') [
  | true ↦ some ([], d ∷ text)
  | false ↦ elim (c == b'\\') [
    | true ↦ before (c ∷ d ∷ []) (find_closing text)
    | false ↦ before (c ∷ []) (find_closing (d ∷ text))
  ]
]

-- The loop of json_string_decode; `skip` symbols were read by the last escape.
unfoldable pub unescape : ℕ → List ℕ → Result (List ℕ)
unescape skip [] = ok []
unescape (suc skip) (c ∷ s) = unescape skip s
unescape zero (c ∷ s) = elim (c == b'\\') [
  | false ↦ unescape 0 s >>= λ more. ok (c ∷ more)
  | true ↦ elim (read_escape s) [
    | error e ↦ error e
    | ok (out, skip) ↦ unescape skip s >>= λ more. ok (out ++ more)
  ]
]

unfoldable pub json_string_decode : List ℕ → Result (List ℕ × List ℕ)
json_string_decode text = elim (try_skip b'"' text) [
  | none ↦ error "Opening '\"' expected"
  | some text' ↦ elim (find_closing text') [
    | none ↦ error "Closing '\"' not found"
    | some (s, rest) ↦ unescape 0 s >>= λ decoded. ok (decoded, rest)
  ]
]

-- The loop of json_string_skip.
unfoldable pub skip_escapes : ℕ → List ℕ → Result (Unit {0})
skip_escapes skip [] = ok tt
skip_escapes (suc skip) (c ∷ s) = skip_escapes skip s
skip_escapes zero (c ∷ s) = elim (c == b'\\') [
  | false ↦ skip_escapes 0 s
  | true ↦ elim (skip_escape s) [ error e ↦ error e | ok skip ↦ skip_escapes skip s ]
]

unfoldable pub json_string_skip : List ℕ → Result (List ℕ)
json_string_skip text = elim (try_skip b'"' text) [
  | none ↦ error "Opening '\"' expected"
  | some text' ↦ elim (find_closing text') [
    | none ↦ error "Closing '\"' not found"
    | some (s, rest) ↦ skip_escapes 0 s >>= λ _. ok rest
  ]
]
