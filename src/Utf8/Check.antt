-- ===== src/Utf8/Check.antt =====
-- check_utf8 of td/utils/utf8.cpp.
-- `none` stands for its `return false`; a read behind the terminator cannot happen, since the
-- terminator is no continuation.
use tdutils.Base.{
  bit_and, bit_or, Bool, false, if◌then◌else◌, List, ltb, none, not, Option, some, suc, true, zero,
  ℕ, [], ◌&&◌, ◌*◌, ◌++◌, ◌==◌, ◌^◌, ◌∷◌,
}

unfoldable pub is_continuation : ℕ → Bool
is_continuation b = bit_and b 0xc0 == 0x80

-- Neither overlong nor a surrogate.
unfoldable pub ensure_three : ℕ → ℕ → Bool
ensure_three a b =
    let x = bit_or (bit_and a 0x0f * 2 ^ 6) (bit_and b 0x20) in not (x == 0) && not (x == 0x360)

-- Neither overlong nor above 0x10ffff.
unfoldable pub ensure_four : ℕ → ℕ → Bool
ensure_four a b = let t = bit_or (bit_and a 0x07 * 2 ^ 6) (bit_and b 0x30) in ltb 0 t && ltb t 0x110

-- The code units behind the lead `a` that its `continue` has read, from the bytes after it.
unfoldable pub size_four : ℕ → ℕ → List ℕ → Option ℕ
size_four a b [] = none
size_four a b (d ∷ rest) =
    if is_continuation d && (bit_and a 0x08 == 0) && ensure_four a b then some 3 else none

unfoldable pub size_three : ℕ → ℕ → List ℕ → Option ℕ
size_three a b [] = none
size_three a b (c ∷ rest) = elim (is_continuation c) [
  | false ↦ none
  | true ↦ elim (bit_and a 0x10 == 0) [
    | true ↦ if ensure_three a b then some 2 else none
    | false ↦ size_four a b rest
  ]
]

unfoldable pub lead_size : ℕ → List ℕ → Option ℕ
lead_size a [] = none
lead_size a (b ∷ rest) = elim (not (bit_and a 0x40 == 0) && is_continuation b) [
  | false ↦ none
  | true ↦ elim (bit_and a 0x20 == 0) [
    | true ↦ if ltb 0 (bit_and a 0x1e) then some 1 else none
    | false ↦ size_three a b rest
  ]
]

unfoldable pub character_size : ℕ → List ℕ → Option ℕ
character_size a rest = elim (bit_and a 0x80 == 0) [ true ↦ some 0 | false ↦ lead_size a rest ]

-- The loop up to and with the terminator; `skip` code units belong to the last character.
unfoldable pub check_from : ℕ → List ℕ → Bool
check_from skip [] = false
check_from (suc skip) (a ∷ rest) = check_from skip rest
check_from zero (a ∷ []) = bit_and a 0x80 == 0
check_from zero (a ∷ b ∷ rest) = elim (character_size a (b ∷ rest)) [
  | none ↦ false
  | some skip ↦ check_from skip (b ∷ rest)
]

unfoldable pub check_utf8 : List ℕ → Bool
check_utf8 str = check_from 0 (str ++ 0 ∷ [])
