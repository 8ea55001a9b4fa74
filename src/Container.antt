-- ===== src/Container.antt =====
-- td/utils/Container.h: a slot map whose ids carry a generation, so that a stale id is refused.
-- An Id is a uint64: the slot index above bit 32, the slot's generation below. A uint32 wraps at
-- 2 ^ 32. The empty `DataT()` is an argument, `blank`; a failed CHECK is `none`.
pub mod Ids
pub mod Validity
pub mod Lookup
pub mod Creation
pub mod Retirement
pub mod Access
pub mod History
pub mod Limits
mod Tests
use tdutils.Base.{
  bit_and, bit_or, bit_xor, Bool, drop_last, false, get_elem?, get_last?, if◌then◌else◌, leb,
  length, List, ltb, none, not, Option, replicate, set, some, true, ℕ, [], ◌%◌, ◌&&◌, ◌*◌, ◌++◌,
  ◌+◌, ◌-◌, ◌/◌, ◌==◌, ◌^◌, ◌∷◌,
}

unfoldable pub generation_step : ℕ
generation_step = 2 ^ 8

-- The bitwise or of two disjoint fields of a uint64.
unfoldable pub encode_id : ℕ → ℕ → ℕ
encode_id slot_id generation = bit_or (slot_id * 2 ^ 32) generation

unfoldable pub next_generation : ℕ → ℕ
unfolding generation_step
next_generation generation = (generation + generation_step) % 2 ^ 32

-- `slots_[id].generation & ~TYPE_MASK`: nonzero unless the generation has wrapped.
unfoldable pub is_reusable : ℕ → Bool
is_reusable generation = not (generation / 2 ^ 8 == 0)

-- `generation ^= (generation & TYPE_MASK) ^ type`
unfoldable pub retype : ℕ → ℕ → ℕ
retype generation type = bit_xor generation (bit_xor (bit_and generation 255) type)

unfoldable pub type_from_id : ℕ → ℕ
type_from_id id = id % 2 ^ 8

-- The marks `is_bad`, then the ids of the unmarked slots in order.
unfoldable pub mark_bad : List ℕ → List Bool → List Bool
mark_bad [] is_bad = is_bad
mark_bad (id ∷ rest) is_bad = mark_bad rest (set is_bad id true)

pub record Slot {ℓ} (DataT : Type ℓ) : Type ℓ where
  pub generation : ℕ
  pub content : DataT

pub record Container {ℓ} (DataT : Type ℓ) : Type ℓ where
  pub slots : List (Slot DataT)
  pub empty_slots : List ℕ

module _ {ℓ} {DataT : Type ℓ} where
  abbrev pub fresh : Container DataT
  fresh = record { slots = []; empty_slots = [] }

  -- `slot_id < 0` and `slot_id >= static_cast<int32>(slots_.size())` on the two casts to int32: a
  -- value from 2 ^ 31 on is negative.
  unfoldable pub slot_in_range : Container DataT → ℕ → Bool
  slot_in_range c slot_id =
      let size32 = length c.slots % 2 ^ 32 in
      ltb slot_id (2 ^ 31) && (ltb size32 (2 ^ 31) && ltb slot_id size32)

  -- `generation != slots_[slot_id].generation`
  unfoldable pub match_slot : ℕ → ℕ → Option (Slot DataT) → Option (ℕ × Slot DataT)
  match_slot slot_id generation none = none
  match_slot slot_id generation (some slot) =
      if generation == slot.generation then some (slot_id, slot) else none

  -- decode_id, with `none` for -1.
  unfoldable pub decode_id : Container DataT → ℕ → Option (ℕ × Slot DataT)
  unfolding match_slot
  decode_id c id =
      let slot_id = id / 2 ^ 32 % 2 ^ 32 in
      if slot_in_range c slot_id
      then match_slot slot_id (id % 2 ^ 32) (get_elem? c.slots slot_id)
      else none

  unfoldable pub get : Container DataT → ℕ → Option DataT
  get c id = elim (decode_id c id) [ none ↦ none | some (_, slot) ↦ some slot.content ]

  unfoldable pub inc_generation : Container DataT → ℕ → Slot DataT → Container DataT
  inc_generation c slot_id slot = record c {
    slots = set c.slots slot_id (record slot { generation = next_generation slot.generation });
  }

  unfoldable pub release : DataT → Container DataT → ℕ → Slot DataT → Container DataT
  release blank c slot_id slot =
      let generation = next_generation slot.generation in
      record {
        slots = set c.slots slot_id (record { generation = generation; content = blank });
        empty_slots =
            if is_reusable generation then c.empty_slots ++ slot_id ∷ [] else c.empty_slots;
      }

  unfoldable pub erase : DataT → Container DataT → ℕ → Container DataT
  erase blank c id = elim (decode_id c id) [
    | none ↦ c
    | some (slot_id, slot) ↦ release blank c slot_id slot
  ]

  unfoldable pub extract : DataT → Container DataT → ℕ → Option (DataT × Container DataT)
  extract blank c id = elim (decode_id c id) [
    | none ↦ none
    | some (slot_id, slot) ↦ some (slot.content, release blank c slot_id slot)
  ]

  unfoldable pub store_reused :
      Container DataT → DataT → ℕ → ℕ → Option (Slot DataT) → Option (ℕ × ℕ × Container DataT)
  store_reused c content type pos none = none
  store_reused c content type pos (some slot) =
      let generation = retype slot.generation type in
      some (
        pos,
        generation,
        record {
          slots = set c.slots pos (record { generation = generation; content = content });
          empty_slots = drop_last c.empty_slots;
        },
      )

  unfoldable pub store_grown : Container DataT → DataT → ℕ → Option (ℕ × ℕ × Container DataT)
  store_grown c content type =
      let generation = generation_step + type in
      if leb (length c.slots) (2 ^ 31 - 1)
      then some (
        length c.slots,
        generation,
        record {
          slots = c.slots ++ record { generation = generation; content = content } ∷ [];
          empty_slots = c.empty_slots;
        },
      )
      else none

  -- store: the slot, its generation and the container; a number in empty_slots that is out of range
  -- would be undefined behaviour, and the CHECK on the size can fail.
  unfoldable pub store : Container DataT → DataT → ℕ → Option (ℕ × ℕ × Container DataT)
  unfolding store_reused store_grown
  store c content type = elim (get_last? c.empty_slots) [
    | some pos ↦ store_reused c content type pos (get_elem? c.slots pos)
    | none ↦ store_grown c content type
  ]

  unfoldable pub create : Container DataT → DataT → ℕ → Option (ℕ × Container DataT)
  create c content type = elim (store c content type) [
    | none ↦ none
    | some (pos, generation, c') ↦ some (encode_id pos generation, c')
  ]

  unfoldable pub reset_id : Container DataT → ℕ → Option (ℕ × Container DataT)
  reset_id c id = elim (decode_id c id) [
    | none ↦ none
    | some (slot_id, slot) ↦
        some (encode_id slot_id (next_generation slot.generation), inc_generation c slot_id slot)
  ]

  unfoldable pub unmarked_ids : List (Slot DataT) → List Bool → ℕ → List ℕ
  unmarked_ids (slot ∷ slots) (bad ∷ is_bad) i =
      let rest = unmarked_ids slots is_bad (i + 1) in
      if bad then rest else encode_id i slot.generation ∷ rest
  unmarked_ids _ _ i = []

  unfoldable pub ids : Container DataT → List ℕ
  ids c = unmarked_ids c.slots (mark_bad c.empty_slots (replicate (length c.slots) false)) 0

  -- size, with `none` for the failed CHECK.
  unfoldable pub size : Container DataT → Option ℕ
  size c =
      if leb (length c.empty_slots) (length c.slots)
      then some (length c.slots - length c.empty_slots)
      else none

  -- empty, with `none` for the failed CHECK of size.
  unfoldable pub empty : Container DataT → Option Bool
  empty c = elim (size c) [ none ↦ none | some n ↦ some (n == 0) ]

  unfoldable pub clear : Container DataT → Container DataT
  clear c = fresh
