-- ===== src/Json/RoundTrip.antt =====
-- JsonString and json_string_decode (td/utils/JsonBuilder.cpp), one after the other.
use mathlib.Core.Option.{none-ne-some, some-injective}
use tdutils.Base.{
  All, ap, append-nil, append_assoc, arith, Bool, Bool-cases, drop, false, if◌then◌else◌, inl, inr,
  leb, List, none, ok, Option, Option-cases, refl, some, suc, take, take-append-drop, true, zero, ℕ,
  [], ◌++◌, ◌==◌, ◌∙◌, ◌∷◌, ◌≡◌,
}
use tdutils.Base.Text.{IsByte}
use tdutils.Json.Chunks.{
  ReadAs, ReadAs-append, ReadAs-escape, ReadAs-nil, ReadAs-plain, Transparent, Transparent-append,
  Transparent-escape, Transparent-nil, Transparent-plain,
}
use tdutils.Json.Strings.{
  before, escaped, find_closing, json_string, json_string_decode, print_char, string_body, unescape,
}
use tdutils.Json.Multibyte.{Chunk, print_lead-Chunk}
use tdutils.Json.Chars.{json_one_char-ReadAs, json_one_char-Transparent}
use tdutils.Json.Escapes.{json_code_units, json_one_char, simple_escape}
use tdutils.Parser.{try_skip}

if-Chunk :
    (b : Bool) (ch : ℕ) (out out' : List ℕ) (o : Option (List ℕ))
    → (b ≡ true → Chunk out' (ch ∷ []))
    → (o ≡ some out → Chunk out (ch ∷ []))
    → (if b then some out' else o) ≡ some out
    → Chunk out (ch ∷ [])
if-Chunk true ch out out' o h k e = rw (← some-injective _ _ e) (h refl)
if-Chunk false ch out out' o h k e = k e

escape-Chunk :
    (c d ch : ℕ) → simple_escape c ≡ some d → (ch == d) ≡ true → Chunk (b'\\' ∷ c ∷ []) (ch ∷ [])
unfolding Chunk
escape-Chunk c d ch e h =
    let w : ch ≡ d = ground arith in rw w (Transparent-escape c, ReadAs-escape c d e)

control-Chunk : (ch : ℕ) → leb ch 31 ≡ true → Chunk (json_one_char ch) (ch ∷ [])
unfolding Chunk json_code_units
control-Chunk ch h =
    let one : json_code_units ch ≡ ch ∷ [] = ground arith in
    (
      json_one_char-Transparent ch (ground arith),
      rw (← one) (json_one_char-ReadAs ch (ground arith) (ground arith)),
    )

escaped-Chunk : (ch : ℕ) (out : List ℕ) → escaped ch ≡ some out → Chunk out (ch ∷ [])
unfolding escaped simple_escape
escaped-Chunk ch out = if-Chunk (ch == b'"') ch out _ _ (escape-Chunk b'"' 34 ch refl) (
    if-Chunk (ch == b'\\') ch out _ _ (escape-Chunk b'\\' 92 ch refl) (
      if-Chunk (ch == 8) ch out _ _ (escape-Chunk b'b' 8 ch refl) (
        if-Chunk (ch == 12) ch out _ _ (escape-Chunk b'f' 12 ch refl) (
          if-Chunk (ch == 10) ch out _ _ (escape-Chunk b'n' 10 ch refl) (
            if-Chunk (ch == 13) ch out _ _ (escape-Chunk b'r' 13 ch refl) (
              if-Chunk (ch == 9) ch out _ _ (escape-Chunk b't' 9 ch refl) (
                if-Chunk (leb ch 31) ch out _ _ (control-Chunk ch)
                  (λ e. absurd (none-ne-some _ e)))))))))

not_escaped : (ch : ℕ) → escaped ch ≡ none → ((ch == b'"') ≡ false) × ((ch == b'\\') ≡ false)
unfolding escaped
not_escaped ch e = (ground arith, ground arith)

plain-Chunk : (ch : ℕ) → escaped ch ≡ none → Chunk (ch ∷ []) (ch ∷ [])
unfolding Chunk
plain-Chunk ch e = let (p, q) = not_escaped ch e in (Transparent-plain ch p q, ReadAs-plain ch q)

print_char-Chunk :
    (ch : ℕ) (s out : List ℕ) (k : ℕ)
    → IsByte ch
    → All IsByte s
    → print_char ch s ≡ some (out, k)
    → Chunk out (ch ∷ take k s)
unfolding print_char
print_char-Chunk ch s out k h hs e = elim (Option-cases (escaped ch)) [
  | inr (out', p) ↦
      let f : some (out', 0) ≡ some (out, k) = rw (p, print_char) at e in
      let (w, n) : (out' ≡ out) × (0 ≡ k) = (cc, cc) in rw (← w, ← n) (escaped-Chunk ch out' p)
  | inl p ↦ elim (Bool-cases (leb 128 ch)) [
    | inl q ↦ print_lead-Chunk ch s out k h q hs (rw (p, q, print_char) at e)
    | inr q ↦
        let f : some (ch ∷ [], 0) ≡ some (out, k) = rw (p, q, print_char) at e in
        let (w, n) : ((ch ∷ []) ≡ out) × (0 ≡ k) = (cc, cc) in rw (← w, ← n) (plain-Chunk ch p)
  ]
]

string_body-Chunk :
    (skip : ℕ) (s t : List ℕ) → All IsByte s → string_body skip s ≡ some t → Chunk t (drop skip s)
unfolding string_body Chunk
string_body-Chunk zero [] t h e = rw (← some-injective _ _ e) (Transparent-nil, ReadAs-nil)
string_body-Chunk (suc skip) [] t h e = rw (← some-injective _ _ e) (Transparent-nil, ReadAs-nil)
string_body-Chunk (suc skip) (ch ∷ s) t (hc, h) e = string_body-Chunk skip s t h e
string_body-Chunk zero (ch ∷ s) t (hc, h) e = elim (Option-cases (print_char ch s)) [
  | inl p ↦ absurd (none-ne-some _ (rw (p, string_body) at e))
  | inr ((out, k), p) ↦ elim (Option-cases (string_body k s)) [
    | inl q ↦ absurd (none-ne-some _ (rw (p, q, string_body) at e))
    | inr (more, q) ↦
        let w : out ++ more ≡ t = some-injective _ _ (rw (p, q, string_body) at e) in
        let (seen, reads) = print_char-Chunk ch s out k hc h p in
        let (seen', reads') = string_body-Chunk k s more h q in
        let r : ReadAs (out ++ more) ((ch ∷ take k s) ++ drop k s) =
          ReadAs-append _ _ _ _ reads reads' in
        rw (← w) (Transparent-append _ _ seen seen', rw (take-append-drop k s) at r)
  ]
]

-- The closing quote that JsonString printed is the one that is found.
find_closing-quote : (rest : List ℕ) → find_closing (b'"' ∷ rest) ≡ some ([], rest)
unfolding find_closing
find_closing-quote [] = refl
find_closing-quote (c ∷ rest) = refl

-- A string of bytes that JsonString prints is read back by json_string_decode, which stops behind its
-- closing quote.
pub json_string_decode-json_string :
    (s t rest : List ℕ)
    → All IsByte s
    → json_string s ≡ some t
    → json_string_decode (t ++ rest) ≡ ok (s, rest)
unfolding json_string json_string_decode try_skip Chunk Transparent ReadAs unescape
json_string_decode-json_string s t rest h e = elim (Option-cases (string_body 0 s)) [
  | inl p ↦ absurd (none-ne-some _ (rw (p, json_string) at e))
  | inr (body, p) ↦
      let w : b'"' ∷ (body ++ b'"' ∷ []) ≡ t = some-injective _ _ (rw (p, json_string) at e) in
      let (seen, reads) = string_body-Chunk 0 s body h p in
      let closing : find_closing ((body ++ b'"' ∷ []) ++ rest) ≡ some (body ++ [], rest) =
        ap find_closing (append_assoc body (b'"' ∷ []) rest)
        ∙ seen (b'"' ∷ rest)
        ∙ ap (before body) (find_closing-quote rest) in
      rw (← w, closing, json_string_decode, try_skip, reads [], append-nil s) refl
]
