-- ===== src/Json/Values/Fueled.antt =====
-- The string parser of td/utils/JsonBuilder.cpp needs no fuel and moves on.
use tdutils.Base.{
  arith, Bool, Bool-cases, drop, error, false, if◌then◌else◌, inl, inr, length, List, none, ok,
  Option, Option-cases, Result, some, suc, true, zero, ℕ, [], ◌&&◌, ◌<◌, ◌==◌, ◌>>=◌, ◌∷◌, ◌≢◌,
}
use tdutils.Json.Strings.{find_closing, json_string_decode, unescape}
use tdutils.Json.Values.{ran_out}
use tdutils.Parser.{try_skip}
use tdutils.Json.Escapes.{
  add_digit, hex_four, is_surrogate, low_half, read_escape, simple_escape, unicode,
}
use tdutils.Misc.Chars.{hex_to_int}
use tdutils.Json.Values.Fuel.{
  find_closing-Shorter, Progress, Progress-le, Shorter, try_skip-shorter,
}

-- A result that is not the lack of fuel.
abbrev Fueled {ℓ} : {T : Type ℓ} → Result T → Type 0
Fueled (error message) = message ≢ ran_out
Fueled (ok value) = Unit {0}

module _ {ℓ κ} {S : Type ℓ} {T : Type κ} where
  Fueled-bind :
      (r : Result S) (g : S → Result T) → Fueled r → ((v : S) → Fueled (g v)) → Fueled (r >>= g)
  Fueled-bind (error e) g h k = h
  Fueled-bind (ok v) g h k = k v

Fueled-out :
    (r : Result (List ℕ × ℕ)) (g : List ℕ → ℕ → Result (List ℕ))
    → Fueled r
    → ((out : List ℕ) (n : ℕ) → Fueled (g out n))
    → Fueled (elim r [ error e ↦ error e | ok (out, n) ↦ g out n ])
Fueled-out (error e) g h k = h
Fueled-out (ok (out, n)) g h k = k out n

if-Fueled {ℓ} :
    {T : Type ℓ} (b : Bool) (r s : Result T) → Fueled r → Fueled s → Fueled (if b then r else s)
if-Fueled true r s h k = h
if-Fueled false r s h k = k

add_digit-Fueled : (num : Result ℕ) (c : ℕ) → Fueled num → Fueled (add_digit num c)
unfolding add_digit
add_digit-Fueled (error e) c h = h
add_digit-Fueled (ok n) c h = if-Fueled (hex_to_int c == 16) _ _ (λ e. cc) tt

hex_four-Fueled : (text : List ℕ) → Fueled (hex_four text)
unfolding hex_four
hex_four-Fueled (a ∷ b ∷ c ∷ d ∷ text) =
    add_digit-Fueled _ d
      (add_digit-Fueled _ c (add_digit-Fueled _ b (add_digit-Fueled (ok 0) a tt)))
hex_four-Fueled [] = λ e. cc
hex_four-Fueled (a ∷ []) = λ e. cc
hex_four-Fueled (a ∷ b ∷ []) = λ e. cc
hex_four-Fueled (a ∷ b ∷ c ∷ []) = λ e. cc

low_half-Fueled : (num : ℕ) (text : List ℕ) → Fueled (low_half num text)
unfolding low_half
low_half-Fueled num (s ∷ u ∷ a ∷ b ∷ c ∷ d ∷ text) = elim (Bool-cases (s == b'\\' && u == b'u')) [
  | inl e ↦
      rw (e, low_half)
        (Fueled-bind (hex_four (a ∷ b ∷ c ∷ d ∷ text)) _ (hex_four-Fueled (a ∷ b ∷ c ∷ d ∷ text))
          (λ n. tt))
  | inr e ↦ rw (e, low_half) tt
]
low_half-Fueled num [] = tt
low_half-Fueled num (s ∷ []) = tt
low_half-Fueled num (s ∷ u ∷ []) = tt
low_half-Fueled num (s ∷ u ∷ a ∷ []) = tt
low_half-Fueled num (s ∷ u ∷ a ∷ b ∷ []) = tt
low_half-Fueled num (s ∷ u ∷ a ∷ b ∷ c ∷ []) = tt

unicode-Fueled : (text : List ℕ) → Fueled (unicode text)
unfolding unicode
unicode-Fueled text =
    Fueled-bind (hex_four text) _ (hex_four-Fueled text)
      (λ num. if-Fueled (is_surrogate num) _ _ (low_half-Fueled num (drop 4 text)) tt)

read_escape-Fueled : (text : List ℕ) → Fueled (read_escape text)
unfolding read_escape
read_escape-Fueled [] = λ e. cc
read_escape-Fueled (c ∷ text) = elim (Option-cases (simple_escape c)) [
  | inr (d, e) ↦ rw (e, read_escape) tt
  | inl e ↦ elim (Bool-cases (c == b'u')) [
    | inl u ↦ rw (e, u, read_escape) (Fueled-bind (unicode text) _ (unicode-Fueled text) (λ n. tt))
    | inr u ↦ rw (e, u, read_escape) tt
  ]
]

unescape-Fueled : (k : ℕ) (s : List ℕ) → Fueled (unescape k s)
unfolding unescape
unescape-Fueled k [] = tt
unescape-Fueled (suc k) (c ∷ s) = unescape-Fueled k s
unescape-Fueled zero (c ∷ s) = elim (Bool-cases (c == b'\\')) [
  | inl b ↦
      rw (b, unescape)
        (Fueled-out (read_escape s) _ (read_escape-Fueled s)
          (λ out skip. Fueled-bind (unescape skip s) _ (unescape-Fueled skip s) (λ more. tt)))
  | inr b ↦ rw (b, unescape) (Fueled-bind (unescape 0 s) _ (unescape-Fueled 0 s) (λ more. tt))
]

Fueled-Progress :
    (n : ℕ) (r : Result (List ℕ)) (rest : List ℕ)
    → Fueled r
    → length rest < n
    → Progress n (r >>= λ s. ok (s, rest))
unfolding Progress
Fueled-Progress n (error e) rest h l = h
Fueled-Progress n (ok s) rest h l = l

decoded-Progress :
    (n : ℕ) (o : Option (List ℕ × List ℕ))
    → Shorter n o
    → Progress n (elim o [
      | none ↦ error "Closing '\"' not found"
      | some (s, rest) ↦ unescape 0 s >>= λ decoded. ok (decoded, rest)
    ])
unfolding Progress
decoded-Progress n none h = λ e. cc
decoded-Progress n (some (s, rest)) h =
    Fueled-Progress n (unescape 0 s) rest (unescape-Fueled 0 s) h

pub json_string_decode-Progress : (text : List ℕ) → Progress (length text) (json_string_decode text)
unfolding json_string_decode Progress
json_string_decode-Progress text = elim (Option-cases (try_skip b'"' text)) [
  | inl e ↦ rw (e, json_string_decode) (λ e. cc)
  | inr (text', e) ↦
      rw (e, json_string_decode)
        (Progress-le (length text') (length text) _ (omega (arith, try_skip-shorter b'"' text e))
          (decoded-Progress (length text') (find_closing text') (find_closing-Shorter text')))
]
