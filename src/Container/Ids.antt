-- ===== src/Container/Ids.antt =====
-- encode_id and decode_id of td/utils/Container.h, and generations, in arithmetic.
use tdutils.Base.{
  ap, arith, bit_xor, Bool, Bool-cases, false, get_elem?, get_elem?-ge, get_elem?-lt, ge→ltb,
  if◌then◌else◌, inl, inr, length, ltb, lt→ltb, none, not, Option-cases, refl, some, true, ℕ,
  ==-refl, ◌%◌, ◌&&◌, ◌*◌, ◌+◌, ◌/◌, ◌<◌, ◌==◌, ◌^◌, ◌∙◌, ◌≡◌, ◌≢◌, ◌≤◌,
}
use tdutils.Base.Bits.{bit_and-low, bit_or-disjoint}
use tdutils.Base.Xor.{bit_xor-lt, bit_xor_cancel, bit_xor_fields}
use tdutils.Container.{
  Container, decode_id, encode_id, is_reusable, match_slot, next_generation, retype, Slot,
  slot_in_range,
}

pub encode_id-sum : (i g : ℕ) → g < 2 ^ 32 → encode_id i g ≡ i * 2 ^ 32 + g
unfolding encode_id
encode_id-sum i g h = bit_or-disjoint 32 i g h

pub encode_id_parts :
    (i g : ℕ)
    → i < 2 ^ 32
    → g < 2 ^ 32
    → (encode_id i g / 2 ^ 32 % 2 ^ 32 ≡ i) × (encode_id i g % 2 ^ 32 ≡ g)
encode_id_parts i g hi hg =
    (omega (arith, encode_id-sum i g hg), omega (arith, encode_id-sum i g hg))

-- The serial number of a generation stands above the eight bits of the type.
abbrev pub serial : ℕ → ℕ
serial generation = generation / 256

pub retype-parts : (g t : ℕ) → t < 256 → retype g t ≡ serial g * 256 + t
unfolding retype
retype-parts g t h =
    let low = bit_and-low 8 g in
    let split : g ≡ serial g * 2 ^ 8 + g % 2 ^ 8 = omega arith in
    let r : g % 2 ^ 8 < 2 ^ 8 = omega arith in
    rw low (
      ap (λ (x : ℕ). bit_xor x (bit_xor (g % 2 ^ 8) t)) split
      ∙ bit_xor_fields 8 (serial g) (g % 2 ^ 8) (bit_xor (g % 2 ^ 8) t) r (bit_xor-lt 8 _ t r h)
      ∙ ap (λ (x : ℕ). serial g * 2 ^ 8 + x) (bit_xor_cancel (g % 2 ^ 8) t))

pub next_generation-wrap_free : (g : ℕ) → g + 256 < 2 ^ 32 → next_generation g ≡ g + 256
unfolding next_generation
next_generation-wrap_free g h = omega arith

pub next_generation-ne : (g : ℕ) → g < 2 ^ 32 → next_generation g ≢ g
unfolding next_generation
next_generation-ne g h = omega arith

pub next_generation-lt : (g : ℕ) → next_generation g < 2 ^ 32
unfolding next_generation
next_generation-lt g = omega arith

pub is_reusable_iff : (g : ℕ) → is_reusable g ≡ not (serial g == 0)
unfolding is_reusable
is_reusable_iff g = refl

module _ {ℓ} {DataT : Type ℓ} where
  pub in_range :
      (c : Container DataT) (i : ℕ)
      → length c.slots < 2 ^ 31
      → slot_in_range c i ≡ ltb i (length c.slots)
  unfolding slot_in_range
  in_range c i h =
      let s : length c.slots % 2 ^ 32 ≡ length c.slots = omega arith in rw s (ground arith)

  pub decode-encode :
      (c : Container DataT) (i : ℕ) (slot : Slot DataT)
      → length c.slots < 2 ^ 31
      → slot.generation < 2 ^ 32
      → get_elem? c.slots i ≡ some slot
      → decode_id c (encode_id i slot.generation) ≡ some (i, slot)
  unfolding decode_id
  decode-encode c i slot n g e =
      let lt = get_elem?-lt c.slots i e in
      let (p, q) = encode_id_parts i slot.generation (omega arith) g in
      rw (p, q, in_range c i n, lt→ltb i (length c.slots) lt, e, ==-refl slot.generation)

  -- What decode_id accepts is the id of a slot at its present generation.
  pub decode_id_inv :
      (c : Container DataT) (id i : ℕ) (slot : Slot DataT)
      → decode_id c id ≡ some (i, slot)
      → (get_elem? c.slots i ≡ some slot)
        × (slot.generation ≡ id % 2 ^ 32)
        × (i ≡ id / 2 ^ 32 % 2 ^ 32)
  unfolding decode_id
  decode_id_inv c id i slot e =
      let i' = id / 2 ^ 32 % 2 ^ 32 in
      elim (Bool-cases (slot_in_range c i')) [
        | inr out ↦ cc (rw out at e)
        | inl inside ↦ elim (Option-cases (get_elem? c.slots i')) [
          | inl missing ↦ cc (rw (inside, missing) at e)
          | inr (s, found) ↦ matched s found (rw (inside, found) at e)
        ]
      ]
    where
      matched :
          (s : Slot DataT)
          → get_elem? c.slots (id / 2 ^ 32 % 2 ^ 32) ≡ some s
          → match_slot (id / 2 ^ 32 % 2 ^ 32) (id % 2 ^ 32) (some s) ≡ some (i, slot)
          → (get_elem? c.slots i ≡ some slot)
            × (slot.generation ≡ id % 2 ^ 32)
            × (i ≡ id / 2 ^ 32 % 2 ^ 32)
      matched s found m = ground arith

  -- With more than 2 ^ 31 - 1 slots the cast of the size is negative, and every id is refused.
  pub decode_id_overfull :
      (c : Container DataT) (id : ℕ)
      → 2 ^ 31 ≤ length c.slots
      → length c.slots < 2 ^ 32
      → decode_id c id ≡ none
  unfolding decode_id slot_in_range
  decode_id_overfull c id n m =
      let s : length c.slots % 2 ^ 32 ≡ length c.slots = omega arith in
      rw (s, ge→ltb (length c.slots) (2 ^ 31) n) (shape (ltb (id / 2 ^ 32 % 2 ^ 32) (2 ^ 31)))
    where
      shape :
          (b : Bool)
          → (if b && false
              then match_slot
                  (id / 2 ^ 32 % 2 ^ 32)
                  (id % 2 ^ 32)
                  (get_elem? c.slots (id / 2 ^ 32 % 2 ^ 32))
              else none)
            ≡ none
      shape true = refl
      shape false = refl

  -- With the size within an int32 the range test is that of the read.
  pub decode_id_read :
      (c : Container DataT) (id : ℕ)
      → length c.slots < 2 ^ 31
      → decode_id c id
        ≡ match_slot (id / 2 ^ 32 % 2 ^ 32) (id % 2 ^ 32) (get_elem? c.slots (id / 2 ^ 32 % 2 ^ 32))
  unfolding decode_id
  decode_id_read c id n =
      let i = id / 2 ^ 32 % 2 ^ 32 in
      elim (Bool-cases (ltb i (length c.slots))) [
        | inl inside ↦ rw (in_range c i n, inside)
        | inr out ↦ rw (in_range c i n, out, get_elem?-ge c.slots i (ground arith))
      ]
