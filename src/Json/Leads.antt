-- ===== src/Json/Leads.antt =====
-- The branch of JsonString for bytes from 128 on (td/utils/JsonBuilder.cpp): the code that it puts
-- together is the one whose code units json_string_decode writes.
use tdutils.Base.{
  arith, bit_and, Bool, false, if◌then◌else◌, leb, ltb, not, refl, true, ℕ, [], ◌%◌, ◌&&◌, ◌*◌, ◌+◌,
  ◌/◌, ◌<◌, ◌==◌, ◌^◌, ◌||◌, ◌∷◌, ◌≡◌, ◌≤◌,
}
use tdutils.Base.Bits.{bit_and-low, holds_at, holds_below}
use tdutils.Base.Text.{IsByte}
use tdutils.Json.Escapes.{json_code_units}
use tdutils.Utf8.Check.{is_continuation}

continuation_table :
    holds_below 256 (λ b.
      if is_continuation b
      then (b == 0x80 + bit_and b 0x3f)
        && ltb (bit_and b 0x3f) 64
        && ((bit_and b 0x20 == 0) || leb 32 (bit_and b 0x3f))
        && ((bit_and b 0x30 == 0) || leb 16 (bit_and b 0x3f))
      else true)
    ≡ true
unfolding holds_below is_continuation
continuation_table = refl

-- A lead of two, three or four code units and the bits that it carries.
two_table :
    holds_below 256 (λ a.
      if leb 128 a
        && (not (bit_and a 0x40 == 0) && ((bit_and a 0x20 == 0) && ltb 0 (bit_and a 0x1e)))
      then (a == 0xc0 + bit_and a 0x1f) && leb 2 (bit_and a 0x1f) && ltb (bit_and a 0x1f) 32
      else true)
    ≡ true
unfolding holds_below
two_table = refl

three_table :
    holds_below 256 (λ a.
      if leb 128 a
        && (not (bit_and a 0x40 == 0) && (not (bit_and a 0x20 == 0) && (bit_and a 0x10 == 0)))
      then (a == 0xe0 + bit_and a 0x0f) && ltb (bit_and a 0x0f) 16
      else true)
    ≡ true
unfolding holds_below
three_table = refl

four_table :
    holds_below 256 (λ a.
      if leb 128 a
        && (not (bit_and a 0x40 == 0)
            && (not (bit_and a 0x20 == 0) && (not (bit_and a 0x10 == 0) && (bit_and a 0x08 == 0))))
      then (a == 0xf0 + bit_and a 0x07) && ltb (bit_and a 0x07) 8
      else true)
    ≡ true
unfolding holds_below
four_table = refl

-- A continuation and the six bits that it carries; the two tests look at the upper ones.
unfoldable pub Continues : ℕ → ℕ → Type 0
Continues b y =
    (b ≡ 0x80 + y)
    × (y < 64)
    × ((bit_and b 0x20 == 0) ≡ false → 32 ≤ y)
    × ((bit_and b 0x30 == 0) ≡ false → 16 ≤ y)

if-true : (p q : Bool) → (if p then q else true) ≡ true → p ≡ true → q ≡ true
if-true true q e h = e
if-true false q e h = cc

pub continues : (b : ℕ) → IsByte b → is_continuation b ≡ true → Continues b (bit_and b 0x3f)
unfolding Continues
continues b h e =
    let t = if-true _ _ (holds_at 256 _ continuation_table b h) e in
    (ground arith, ground arith, λ p. ground arith, λ p. ground arith)

pub list_two : {a b c d : ℕ} → a ≡ c → b ≡ d → (a ∷ b ∷ []) ≡ (c ∷ d ∷ [])
list_two p q = rw (p, q) refl

pub list_three : {a b c d e f : ℕ} → a ≡ d → b ≡ e → c ≡ f → (a ∷ b ∷ c ∷ []) ≡ (d ∷ e ∷ f ∷ [])
list_three p q r = rw (p, q, r) refl

pub list_four :
    {a b c d e f g h : ℕ}
    → a ≡ e
    → b ≡ f
    → c ≡ g
    → d ≡ h
    → (a ∷ b ∷ c ∷ d ∷ []) ≡ (e ∷ f ∷ g ∷ h ∷ [])
list_four p q r s = rw (p, q, r, s) refl

low_bits : (x : ℕ) → bit_and x 63 ≡ x % 64
low_bits x = bit_and-low 6 x

pub units_two :
    (x y : ℕ)
    → 2 ≤ x
    → x < 32
    → y < 64
    → json_code_units (x * 64 + y) ≡ (0xc0 + x) ∷ (0x80 + y) ∷ []
unfolding json_code_units
units_two x y l h k =
    let num = x * 64 + y in
    let p : ltb num 128 ≡ false = ground arith in
    let q : ltb num 0x800 ≡ true = ground arith in
    rw (p, q, low_bits num, json_code_units) (list_two (omega arith) (omega arith))

pub units_three :
    (x y z : ℕ)
    → 0x800 ≤ x * 4096 + y * 64 + z
    → x < 16
    → y < 64
    → z < 64
    → json_code_units (x * 4096 + y * 64 + z) ≡ (0xe0 + x) ∷ (0x80 + y) ∷ (0x80 + z) ∷ []
unfolding json_code_units
units_three x y z l h k j =
    let num = x * 4096 + y * 64 + z in
    let p : ltb num 128 ≡ false = ground arith in
    let q : ltb num 0x800 ≡ false = ground arith in
    let r : leb num 0xffff ≡ true = ground arith in
    rw (p, q, r, low_bits num, low_bits (num / 2 ^ 6), json_code_units)
      (list_three (omega arith) (omega arith) (omega arith))

pub units_four :
    (x y z w : ℕ)
    → 0x10000 ≤ x * 262144 + y * 4096 + z * 64 + w
    → x < 8
    → y < 64
    → z < 64
    → w < 64
    → json_code_units (x * 262144 + y * 4096 + z * 64 + w)
      ≡ (0xf0 + x) ∷ (0x80 + y) ∷ (0x80 + z) ∷ (0x80 + w) ∷ []
unfolding json_code_units
units_four x y z w l h k j i =
    let num = x * 262144 + y * 4096 + z * 64 + w in
    let p : ltb num 128 ≡ false = ground arith in
    let q : ltb num 0x800 ≡ false = ground arith in
    let r : leb num 0xffff ≡ false = ground arith in
    rw (p, q, r, low_bits num, low_bits (num / 2 ^ 6), low_bits (num / 2 ^ 12), json_code_units)
      (list_four (omega arith) (omega arith) (omega arith) (omega arith))

pub lead_two :
    (a : ℕ)
    → IsByte a
    → (leb 128 a
        && (not (bit_and a 0x40 == 0) && ((bit_and a 0x20 == 0) && ltb 0 (bit_and a 0x1e))))
      ≡ true
    → (a ≡ 0xc0 + bit_and a 0x1f) × (2 ≤ bit_and a 0x1f) × (bit_and a 0x1f < 32)
lead_two a h e =
    let t = if-true _ _ (holds_at 256 _ two_table a h) e in
    (ground arith, ground arith, ground arith)

pub lead_three :
    (a : ℕ)
    → IsByte a
    → (leb 128 a
        && (not (bit_and a 0x40 == 0) && (not (bit_and a 0x20 == 0) && (bit_and a 0x10 == 0))))
      ≡ true
    → (a ≡ 0xe0 + bit_and a 0x0f) × (bit_and a 0x0f < 16)
lead_three a h e =
    let t = if-true _ _ (holds_at 256 _ three_table a h) e in (ground arith, ground arith)

pub lead_four :
    (a : ℕ)
    → IsByte a
    → (leb 128 a
        && (not (bit_and a 0x40 == 0)
            && (not (bit_and a 0x20 == 0) && (not (bit_and a 0x10 == 0) && (bit_and a 0x08 == 0)))))
      ≡ true
    → (a ≡ 0xf0 + bit_and a 0x07) × (bit_and a 0x07 < 8)
lead_four a h e =
    let t = if-true _ _ (holds_at 256 _ four_table a h) e in (ground arith, ground arith)
