-- ===== src/ChangesProcessor.antt =====
-- td/utils/ChangesProcessor.h: changes that finish in any order are processed in the order in which
-- they were added.
-- A token is a uint64; its arithmetic wraps at 2 ^ 64. The calls of `func` are the list of its
-- arguments. The loop of finish runs over the part of the array from `ready_i` on.
pub mod Pending
pub mod Marks
pub mod Sequence
mod Tests
use tdutils.Base.{
  Bool, drop, false, if◌then◌else◌, leb, length, List, ltb, suc, true, zero, ℕ, [], ◌&&◌, ◌*◌, ◌++◌,
  ◌+◌, ◌∷◌,
}
use tdutils.Base.Words.{advance, distance}

pub record ChangesProcessor {ℓ} (DataT : Type ℓ) : Type ℓ where
  pub offset : ℕ
  pub ready_i : ℕ
  pub data_array : List (DataT × Bool)

module _ {ℓ} {DataT : Type ℓ} where
  abbrev pub new_processor : ChangesProcessor DataT
  new_processor = record { offset = 1; ready_i = 0; data_array = [] }

  unfoldable pub clear : ChangesProcessor DataT → ChangesProcessor DataT
  clear p = record { offset = advance p.offset (length p.data_array); ready_i = 0; data_array = [] }

  unfoldable pub add : ChangesProcessor DataT → DataT → ℕ × ChangesProcessor DataT
  add p content = (
    advance p.offset (length p.data_array),
    record p { data_array = p.data_array ++ (content, false) ∷ [] },
  )

  -- `data_array_[pos].second = true`
  unfoldable pub set_finished : List (DataT × Bool) → ℕ → List (DataT × Bool)
  set_finished [] pos = []
  set_finished ((content, flag) ∷ rest) zero = (content, true) ∷ rest
  set_finished (change ∷ rest) (suc pos) = change ∷ set_finished rest pos

  -- The `while` of finish on what is left from `i` on: the processed changes, and `ready_i` after it.
  unfoldable pub process_ready : List (DataT × Bool) → ℕ → List DataT × ℕ
  process_ready [] i = ([], i)
  process_ready ((content, false) ∷ rest) i = ([], i)
  process_ready ((content, true) ∷ rest) i =
      let (processed, ready_i) = process_ready rest (i + 1) in (content ∷ processed, ready_i)

  unfoldable pub try_compactify : ChangesProcessor DataT → ChangesProcessor DataT
  try_compactify p =
      if ltb 5 p.ready_i && ltb (length p.data_array) (p.ready_i * 2)
      then record {
        offset = advance p.offset p.ready_i;
        ready_i = 0;
        data_array = drop p.ready_i p.data_array;
      }
      else p

  unfoldable pub finish : ChangesProcessor DataT → ℕ → List DataT × ChangesProcessor DataT
  finish p token =
      let pos = distance token p.offset in
      let data_array = set_finished p.data_array pos in
      let (processed, ready_i) = process_ready (drop p.ready_i data_array) p.ready_i in
      if leb (length p.data_array) pos
      then ([], p)
      else (processed, try_compactify (record p { ready_i = ready_i; data_array = data_array }))
