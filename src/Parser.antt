-- ===== src/Parser.antt =====
-- td/utils/Parser.h: a cursor over a text.
-- `ptr_` and `end_` are the list of the bytes between them. The functions that leave the status alone
-- are functions of that list; those that read or set it are functions of a Parser, whose status is
-- `none` for OK and otherwise the message. `none` as the result of advance stands for its CHECK.
pub mod Reads
mod Tests
use tdutils.Base.{
  Bool, drop, false, if◌then◌else◌, leb, length, List, ltb, none, not, Option, some, take, true, ℕ,
  [], ◌++◌, ◌+◌, ◌==◌, ◌||◌, ◌∷◌,
}
use tdutils.Base.Text.{codes}

pub record Parser : Type 0 where
  pub text : List ℕ
  pub status : Option (List ℕ)

unfoldable pub start : List ℕ → Parser
start text = record { text = text; status = none }

unfoldable pub clear : Parser → Parser
clear p = record { text = []; status = none }

unfoldable pub empty : List ℕ → Bool
empty [] = true
empty (c ∷ text) = false

-- At the end of the text the answer is 0.
unfoldable pub peek_char : List ℕ → ℕ
peek_char [] = 0
peek_char (c ∷ text) = c

unfoldable pub read_while : (ℕ → Bool) → List ℕ → List ℕ × List ℕ
read_while f [] = ([], [])
read_while f (c ∷ text) =
    let (read, rest) = read_while f text in if f c then (c ∷ read, rest) else ([], c ∷ text)

unfoldable pub skip_nofail : ℕ → List ℕ → List ℕ
skip_nofail c [] = []
skip_nofail c (d ∷ text) = if d == c then text else d ∷ text

-- try_skip(char): `none` where it answers false.
unfoldable pub try_skip : ℕ → List ℕ → Option (List ℕ)
try_skip c [] = none
try_skip c (d ∷ text) = if d == c then some text else none

-- try_skip(Slice).
unfoldable pub try_skip_prefix : List ℕ → List ℕ → Option (List ℕ)
try_skip_prefix [] text = some text
try_skip_prefix (c ∷ prefix) [] = none
try_skip_prefix (c ∷ prefix) (d ∷ text) = if c == d then try_skip_prefix prefix text else none

unfoldable pub advance : ℕ → List ℕ → Option (List ℕ)
advance diff text = if leb diff (length text) then some (drop diff text) else none

-- memchr: the position of the first `c`.
unfoldable pub find_char : ℕ → List ℕ → Option ℕ
find_char c [] = none
find_char c (d ∷ text) = elim (d == c) [
  | true ↦ some 0
  | false ↦ elim (find_char c text) [ none ↦ none | some i ↦ some (i + 1) ]
]

unfoldable pub skip_till_not : List ℕ → List ℕ → List ℕ
skip_till_not str [] = []
skip_till_not str (c ∷ text) = elim (find_char c str) [
  | none ↦ c ∷ text
  | some i ↦ skip_till_not str text
]

abbrev pub whitespaces : List ℕ
whitespaces = b' ' ∷ b'\t' ∷ b'\r' ∷ b'\n' ∷ []

unfoldable pub skip_whitespaces : List ℕ → List ℕ
skip_whitespaces text = skip_till_not whitespaces text

-- The loop of read_till_nofail(Slice) over `str`.
unfoldable pub best_till : List ℕ → List ℕ → ℕ → ℕ
best_till [] text best = best
best_till (c ∷ str) text best = elim (find_char c text) [
  | none ↦ best_till str text best
  | some till ↦ best_till str text (if ltb till best then till else best)
]

unfoldable pub split_at : ℕ → Parser → List ℕ × Parser
split_at n p = (take n p.text, record p { text = drop n p.text })

-- read_till_nofail(char).
unfoldable pub read_till_nofail : ℕ → Parser → List ℕ × Parser
read_till_nofail c p = elim p.status [
  | some message ↦ ([], p)
  | none ↦ elim (find_char c p.text) [
    | none ↦ split_at (length p.text) p
    | some till ↦ split_at till p
  ]
]

-- read_till_nofail(Slice).
unfoldable pub read_till_nofail_any : List ℕ → Parser → List ℕ × Parser
read_till_nofail_any str p = elim p.status [
  | some message ↦ ([], p)
  | none ↦ split_at (best_till str p.text (length p.text)) p
]

unfoldable pub read_all : List ℕ → List ℕ × List ℕ
read_all text = (text, [])

unfoldable pub read_till : ℕ → Parser → List ℕ × Parser
read_till c p = elim p.status [
  | some message ↦ ([], p)
  | none ↦
      let (res, q) = read_till_nofail c p in
      if empty q.text || not (peek_char q.text == c)
      then ([], record q { status = some (codes "Read till [char:" ++ (c ∷ codes "] failed")) })
      else (res, q)
]

unfoldable pub skip : ℕ → Parser → Parser
skip c p = elim p.status [
  | some message ↦ p
  | none ↦ elim (try_skip c p.text) [
    | none ↦ record p { status = some (codes "Skip [char:" ++ (c ∷ codes "] failed")) }
    | some text ↦ record p { text = text }
  ]
]

unfoldable pub read_word : Parser → List ℕ × Parser
read_word p = read_till_nofail_any whitespaces (record p { text = skip_whitespaces p.text })
