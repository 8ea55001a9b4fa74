-- ===== src/Utf8/Tests.antt =====
-- Runs of the UTF-8 functions, and the theorem at a concrete character.
-- The euro sign, and a character outside the basic plane.
use tdutils.Base.{arith, false, refl, some, true, [], ◌&&◌, ◌++◌, ◌∷◌, ◌≡◌}
use tdutils.Utf8.{
  append_utf8_character, is_utf8_character_first_code_unit, next_utf8_unsafe, utf8_code_units,
  utf8_length, utf8_utf16_length,
}
use tdutils.Utf8.RoundTrip.{next_utf8_unsafe-append}
use tdutils.Utf8.Check.{
  character_size, check_from, check_utf8, ensure_four, ensure_three, is_continuation, lead_size,
  size_four, size_three,
}
use tdutils.Utf8.Accepts.{check_utf8-append, is_scalar}

euro : append_utf8_character [] 0x20ac ≡ 0xe2 ∷ 0x82 ∷ 0xac ∷ []
unfolding append_utf8_character utf8_code_units
euro = refl

lengths :
    (utf8_length (0x41 ∷ 0xf0 ∷ 0x9f ∷ 0x98 ∷ 0x80 ∷ []) ≡ 2)
    × (utf8_utf16_length (0x41 ∷ 0xf0 ∷ 0x9f ∷ 0x98 ∷ 0x80 ∷ []) ≡ 3)
unfolding utf8_length utf8_utf16_length is_utf8_character_first_code_unit
lengths = (refl, refl)

next_utf8_unsafe-append_example :
    next_utf8_unsafe (append_utf8_character [] 0x1f600 ++ 0x41 ∷ []) ≡ some (0x1f600, 0x41 ∷ [])
next_utf8_unsafe-append_example = next_utf8_unsafe-append 0x1f600 (0x41 ∷ []) (omega arith)

-- A character, an overlong slash, a surrogate, the last code, and a text that is cut.
checks :
    (check_utf8 (0xe2 ∷ 0x82 ∷ 0xac ∷ 0x41 ∷ []) ≡ true)
    × (check_utf8 (0xc0 ∷ 0xaf ∷ []) ≡ false)
    × (check_utf8 (0xed ∷ 0xa0 ∷ 0x80 ∷ []) ≡ false)
    × (check_utf8 (0xf4 ∷ 0x8f ∷ 0xbf ∷ 0xbf ∷ []) ≡ true)
    × (check_utf8 (0xf4 ∷ 0x90 ∷ 0x80 ∷ 0x80 ∷ []) ≡ false)
    × (check_utf8 (0xe2 ∷ 0x82 ∷ []) ≡ false)
unfolding check_utf8 check_from character_size lead_size size_three size_four ensure_three
    ensure_four is_continuation
checks = (refl, refl, refl, refl, refl, refl)

check_utf8-append_example :
    check_utf8 (append_utf8_character [] 0xd801 ++ 0x41 ∷ [])
    ≡ (is_scalar 0xd801 && check_utf8 (0x41 ∷ []))
check_utf8-append_example = check_utf8-append 0xd801 (0x41 ∷ []) (omega arith)
