-- ===== src/Json/Sizes.antt =====
-- The tests of JsonString (td/utils/JsonBuilder.cpp) on a character of three or four code units, against
-- those of check_utf8 (td/utils/utf8.cpp).
use tdutils.Base.{
  ap, arith, bit_and, bit_or, Bool, false, if◌then◌else◌, leb, List, ltb, none, not, Option, refl,
  some, true, ℕ, ◌%◌, ◌&&◌, ◌*◌, ◌+◌, ◌/◌, ◌<◌, ◌∙◌, ◌≡◌,
}
use tdutils.Base.Bits.{holds_at, holds_below}
use tdutils.Utf8.Check.{ensure_four, ensure_three}
use tdutils.Json.Escapes.{is_surrogate, json_char}
use tdutils.Json.Strings.{with_size}

abbrev pub is_some {ℓ} : {A : Type ℓ} → Option A → Bool
is_some none = false
is_some (some a) = true

abbrev pub size_of : Option (List ℕ × ℕ) → Option ℕ
size_of none = none
size_of (some (out, n)) = some n

size_of-with_size :
    (n : ℕ) (o : Option (List ℕ)) → size_of (with_size n o) ≡ (if is_some o then some n else none)
size_of-with_size n none = refl
size_of-with_size n (some out) = refl

is_some-json_char :
    (num : ℕ) → is_some (json_char num) ≡ (not (is_surrogate num) && leb num 0x10ffff)
unfolding json_char
is_some-json_char num = ground arith

-- The two tests of a lead with its continuation, by the bits that these carry.
four_table :
    holds_below 512 (λ n.
      if ensure_four (0xf0 + n / 64) (0x80 + n % 64)
      then ltb 0 (bit_or (n / 64) (bit_and (0x80 + n % 64) 0x30)) && ltb n 272
      else not (ltb 0 (bit_or (n / 64) (bit_and (0x80 + n % 64) 0x30)) && ltb n 272))
    ≡ true
unfolding holds_below ensure_four
four_table = refl

three_table :
    holds_below 1024 (λ n.
      if ensure_three (0xe0 + n / 64) (0x80 + n % 64)
      then ltb 0 (bit_or (n / 64) (bit_and (0x80 + n % 64) 0x20)) && not (leb 864 n && leb n 895)
      else not
          (ltb 0 (bit_or (n / 64) (bit_and (0x80 + n % 64) 0x20)) && not (leb 864 n && leb n 895)))
    ≡ true
unfolding holds_below ensure_three
three_table = refl

agreed : (p q : Bool) → (if p then q else not q) ≡ true → p ≡ q
agreed true true e = refl
agreed true false e = cc
agreed false true e = cc
agreed false false e = refl

fields_of : (x y : ℕ) → y < 64 → ((x * 64 + y) / 64 ≡ x) × ((x * 64 + y) % 64 ≡ y)
fields_of x y h = (omega arith, omega arith)

pub ensure_four-bits :
    (a b x y : ℕ)
    → a ≡ 0xf0 + x
    → b ≡ 0x80 + y
    → x < 8
    → y < 64
    → ensure_four a b ≡ (ltb 0 (bit_or x (bit_and b 0x30)) && ltb (x * 64 + y) 272)
ensure_four-bits a b x y ea eb h k =
    let (p, q) = fields_of x y k in
    let t = holds_at 512 _ four_table (x * 64 + y) (omega arith) in
    rw (ea, eb) (agreed _ _ (rw (p, q) at t))

pub ensure_three-bits :
    (a b x y : ℕ)
    → a ≡ 0xe0 + x
    → b ≡ 0x80 + y
    → x < 16
    → y < 64
    → ensure_three a b
      ≡ (ltb 0 (bit_or x (bit_and b 0x20)) && not (leb 864 (x * 64 + y) && leb (x * 64 + y) 895))
ensure_three-bits a b x y ea eb h k =
    let (p, q) = fields_of x y k in
    let t = holds_at 1024 _ three_table (x * 64 + y) (omega arith) in
    rw (ea, eb) (agreed _ _ (rw (p, q) at t))

pub coded-size :
    (n num num' : ℕ) (q : Bool)
    → num ≡ num'
    → (not (is_surrogate num') && leb num' 0x10ffff) ≡ q
    → size_of (with_size n (json_char num)) ≡ (if q then some n else none)
coded-size n num num' q e f =
    size_of-with_size n (json_char num)
    ∙ ap (λ p. if p then some n else none) (is_some-json_char num ∙ rw e f)
