-- ===== src/VectorQueue.antt =====
-- td/utils/VectorQueue.h: a queue in a vector whose front is the position `read_pos`.
-- `none` stands for a read out of range. Values that were moved from stay in the vector and are not
-- read again. Sizes stay below 2 ^ 64.
pub mod Contents
pub mod Refinement
pub mod Readers
mod Tests
use tdutils.Base.{
  Bool, drop, get_elem?, get_last?, if◌then◌else◌, length, List, ltb, none, Option, some, take, ℕ,
  [], ◌&&◌, ◌*◌, ◌++◌, ◌+◌, ◌-◌, ◌==◌, ◌∷◌,
}
use mathlib.Core.Option

pub record VectorQueue {ℓ} (T : Type ℓ) : Type ℓ where
  pub vector : List T
  pub read_pos : ℕ

module _ {ℓ} {T : Type ℓ} where
  abbrev pub empty_queue : VectorQueue T
  empty_queue = record { vector = []; read_pos = 0 }

  unfoldable pub try_shrink : VectorQueue T → VectorQueue T
  try_shrink q =
      if ltb (length q.vector) (q.read_pos * 2) && ltb 4 q.read_pos
      then record { vector = drop q.read_pos q.vector; read_pos = 0 }
      else q

  unfoldable pub push : VectorQueue T → T → VectorQueue T
  push q s = record q { vector = q.vector ++ s ∷ [] }

  -- The element is built from the arguments in its place.
  unfoldable pub emplace {κ} : {Args : Type κ} → VectorQueue T → (Args → T) → Args → VectorQueue T
  emplace q make args = record q { vector = q.vector ++ make args ∷ [] }

  -- `vector_[read_pos_++]` after try_shrink.
  unfoldable pub read_next : VectorQueue T → Option (T × VectorQueue T)
  read_next q = elim (get_elem? q.vector q.read_pos) [
    | none ↦ none
    | some x ↦ some (x, record q { read_pos = q.read_pos + 1 })
  ]

  unfoldable pub pop : VectorQueue T → Option (T × VectorQueue T)
  pop q = read_next (try_shrink q)

  unfoldable pub pop_n : VectorQueue T → ℕ → VectorQueue T
  pop_n q n = try_shrink (record q { read_pos = q.read_pos + n })

  unfoldable pub front : VectorQueue T → Option T
  front q = get_elem? q.vector q.read_pos

  unfoldable pub back : VectorQueue T → Option T
  back q = get_last? q.vector

  unfoldable pub size : VectorQueue T → ℕ
  size q = length q.vector - q.read_pos

  unfoldable pub empty : VectorQueue T → Bool
  empty q = size q == 0

  -- The span of `size()` elements from `data()`.
  unfoldable pub as_span : VectorQueue T → List T
  as_span q = take (size q) (drop q.read_pos q.vector)
