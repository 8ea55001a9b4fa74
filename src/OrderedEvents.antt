-- ===== src/OrderedEvents.antt =====
-- td/utils/OrderedEventsProcessor.h: events that come in any order are handed out in the order of
-- their sequence numbers.
-- A SeqNo is a uint64 and its arithmetic wraps at 2 ^ 64. `blank` is `DataT()`. The calls of
-- `function` are the list of its arguments; `none` stands for a failed LOG_CHECK, a read out of range
-- or too little fuel.
pub mod State
pub mod Deliver
pub mod Settle
pub mod Add
pub mod Sequence
mod Tests
use tdutils.Base.{
  Bool, drop, false, get_elem?, if◌then◌else◌, length, List, ltb, none, not, Option, replicate, set,
  some, suc, true, zero, ℕ, [], ◌%◌, ◌&&◌, ◌*◌, ◌++◌, ◌+◌, ◌-◌, ◌==◌, ◌^◌, ◌∷◌,
}
use tdutils.Base.Words.{distance}

abbrev next_seq_no : ℕ → ℕ
next_seq_no seq_no = (seq_no + 1) % 2 ^ 64

pub record OrderedEventsProcessor {ℓ} (DataT : Type ℓ) : Type ℓ where
  pub offset : ℕ
  pub begin : ℕ
  pub end : ℕ
  pub data_array : List (DataT × Bool)

module _ {ℓ} {DataT : Type ℓ} where
  abbrev pub started : ℕ → OrderedEventsProcessor DataT
  started offset = record { offset = offset; begin = offset; end = offset; data_array = [] }

  -- The `while` of add: the events handed out, the array and `begin` after them.
  unfoldable pub drain :
      ℕ → ℕ → ℕ → List (DataT × Bool) → ℕ → Option (List (ℕ × DataT) × List (DataT × Bool) × ℕ)
  drain zero offset end array begin = none
  drain (suc fuel) offset end array begin = elim (ltb begin end) [
    | false ↦ some ([], array, begin)
    | true ↦ elim (get_elem? array (distance begin offset)) [
      | none ↦ none
      | some (content, false) ↦ some ([], array, begin)
      | some (content, true) ↦
          elim (drain fuel offset end (set array (distance begin offset) (content, false))
            (next_seq_no begin)) [
              | none ↦ none
              | some (events, array', begin') ↦ some ((begin, content) ∷ events, array', begin')
            ]
    ]
  ]

  unfoldable pub extend_end : OrderedEventsProcessor DataT → OrderedEventsProcessor DataT
  extend_end p = if ltb p.end p.begin then record p { end = p.begin } else p

  unfoldable pub move_offset : OrderedEventsProcessor DataT → OrderedEventsProcessor DataT
  move_offset p = if p.begin == p.end then record p { offset = p.begin } else p

  unfoldable pub try_compactify : OrderedEventsProcessor DataT → OrderedEventsProcessor DataT
  try_compactify p =
      let begin_pos = distance p.begin p.offset in
      if ltb 5 begin_pos && ltb (length p.data_array) (begin_pos * 2)
      then record p { data_array = drop begin_pos p.data_array; offset = p.begin }
      else p

  -- The branch `seq_no == begin_`.
  unfoldable pub run_now :
      OrderedEventsProcessor DataT
      → DataT
      → Option (List (ℕ × DataT) × OrderedEventsProcessor DataT)
  run_now p content =
      elim (drain (p.end - p.begin + 1) p.offset p.end p.data_array (next_seq_no p.begin)) [
        | none ↦ none
        | some (events, array, begin) ↦ some (
          (p.begin, content) ∷ events,
          try_compactify
              (move_offset (extend_end (record p { data_array = array; begin = begin }))),
        )
      ]

  -- The array with room for the position `at`.
  unfoldable pub resize : DataT → List (DataT × Bool) → ℕ → List (DataT × Bool)
  resize blank array at =
      let need_size = at + 1 in
      if ltb (length array) need_size
      then array ++ replicate (need_size - length array) (blank, false)
      else array

  -- The other branch.
  unfoldable pub keep :
      DataT → OrderedEventsProcessor DataT → ℕ → DataT → OrderedEventsProcessor DataT
  keep blank p seq_no content =
      let at = distance seq_no p.offset in
      let end = next_seq_no seq_no in
      record p {
        data_array = set (resize blank p.data_array at) at (content, true);
        end = if ltb p.end end then end else p.end;
      }

  unfoldable pub add :
      DataT
      → OrderedEventsProcessor DataT
      → ℕ
      → DataT
      → Option (List (ℕ × DataT) × OrderedEventsProcessor DataT)
  add blank p seq_no content = elim (ltb seq_no p.begin) [
    | true ↦ none
    | false ↦ elim (seq_no == p.begin) [
      | true ↦ run_now p content
      | false ↦ some ([], keep blank p seq_no content)
    ]
  ]

  unfoldable pub has_events : OrderedEventsProcessor DataT → Bool
  has_events p = not (p.begin == p.end)

  unfoldable pub max_unfinished_seq_no : OrderedEventsProcessor DataT → ℕ
  max_unfinished_seq_no p = distance p.end 1

  unfoldable pub max_finished_seq_no : OrderedEventsProcessor DataT → ℕ
  max_finished_seq_no p = distance p.begin 1

  -- clear: `function` gets the content that is still held; the processor starts at 1 again.
  unfoldable pub held : List (DataT × Bool) → List DataT
  held [] = []
  held ((content, true) ∷ rest) = content ∷ held rest
  held ((content, false) ∷ rest) = held rest

  unfoldable pub clear : OrderedEventsProcessor DataT → List DataT × OrderedEventsProcessor DataT
  clear p = (held p.data_array, started 1)
