-- ===== src/Misc/Split.antt =====
-- split and full_split of td/utils/misc.h for strings, implode and lpad0 of td/utils/misc.cpp, and
-- begins_with and ends_with of td/utils/misc.h.
use tdutils.Base.{
  Bool, drop, false, if◌then◌else◌, leb, length, List, ltb, none, replicate, some, suc, take, true,
  zero, ℕ, [], ◌&&◌, ◌++◌, ◌+◌, ◌-◌, ◌∷◌,
}
use tdutils.Base.Equality.{is_same}
use tdutils.Parser.{find_char}

unfoldable pub split : List ℕ → ℕ → List ℕ × List ℕ
split s delimiter = elim (find_char delimiter s) [
  | none ↦ (s, [])
  | some delimiter_pos ↦ (take delimiter_pos s, drop (delimiter_pos + 1) s)
]

-- The loop of full_split and the line after it; `fuel` is more than the number of rounds.
unfoldable pub full_split_loop : ℕ → ℕ → ℕ → List (List ℕ) → List ℕ → List (List ℕ)
full_split_loop zero delimiter max_parts result s = result ++ (s ∷ [])
full_split_loop (suc fuel) delimiter max_parts result s = elim (ltb (length result + 1) max_parts) [
  | false ↦ result ++ (s ∷ [])
  | true ↦ elim (find_char delimiter s) [
    | none ↦ result ++ (s ∷ [])
    | some delimiter_pos ↦
        full_split_loop fuel delimiter max_parts (result ++ (take delimiter_pos s ∷ []))
          (drop (delimiter_pos + 1) s)
  ]
]

unfoldable pub full_split : List ℕ → ℕ → ℕ → List (List ℕ)
full_split [] delimiter max_parts = []
full_split (c ∷ s) delimiter max_parts =
    full_split_loop (length s + 2) delimiter max_parts [] (c ∷ s)

-- The rounds of implode after the first.
unfoldable pub implode_rest : ℕ → List (List ℕ) → List ℕ
implode_rest delimiter [] = []
implode_rest delimiter (part ∷ v) = delimiter ∷ (part ++ implode_rest delimiter v)

unfoldable pub implode : List (List ℕ) → ℕ → List ℕ
implode [] delimiter = []
implode (part ∷ v) delimiter = part ++ implode_rest delimiter v

unfoldable pub lpad0 : List ℕ → ℕ → List ℕ
lpad0 str size = if leb size (length str) then str else replicate (size - length str) b'0' ++ str

unfoldable pub begins_with : List ℕ → List ℕ → Bool
begins_with str prefix =
    leb (length prefix) (length str) && is_same prefix (take (length prefix) str)

unfoldable pub ends_with : List ℕ → List ℕ → Bool
ends_with str suffix =
    leb (length suffix) (length str) && is_same suffix (drop (length str - length suffix) str)
