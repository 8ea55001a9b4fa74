-- ===== src/Heap.antt =====
-- td/utils/Heap.h: KHeap, a K-ary min-heap in a vector whose nodes know their positions.
-- A HeapNode* is a number, and `pos_` of all nodes is one map in which `none` stands for -1. Keys
-- are natural numbers: the code uses them through `<` alone. `none` as a result stands for a failed
-- CHECK, for a read out of range, or for the fuel of a loop running out. Indices stay below the
-- size, which is an int in the code.
pub mod Moves
pub mod Places
pub mod Up
pub mod Down
pub mod Sink
pub mod Contents
pub mod Insert
pub mod Erase
pub mod Fix
pub mod Calls
mod Tests
use tdutils.Base.{
  Bool, drop_last, false, get_elem?, get_last?, if◌then◌else◌, leb, length, List, ltb, map, min,
  none, Option, set, some, suc, true, zero, ℕ, [], ◌&&◌, ◌*◌, ◌++◌, ◌+◌, ◌-◌, ◌/◌, ◌==◌, ◌∷◌,
}
use mathlib.Core.Option

pub record Item : Type 0 where
  pub key : ℕ
  pub node : ℕ

pub record KHeap : Type 0 where
  pub array : List Item
  pub pos : ℕ → Option ℕ

unfoldable pub set_pos : (ℕ → Option ℕ) → ℕ → Option ℕ → ℕ → Option ℕ
set_pos pos node p m = if m == node then p else pos m

unfoldable pub in_heap : KHeap → ℕ → Bool
in_heap h node = elim (h.pos node) [ none ↦ false | some _ ↦ true ]

unfoldable pub is_top : KHeap → ℕ → Bool
is_top h node = elim (h.pos node) [ none ↦ false | some p ↦ p == 0 ]

unfoldable pub empty : KHeap → Bool
empty h = length h.array == 0

unfoldable pub size : KHeap → ℕ
size h = length h.array

unfoldable pub top : KHeap → Option ℕ
top h = Option.map (λ (i : Item). i.node) (get_elem? h.array 0)

-- `(pos - 1) / K`
unfoldable pub parent : ℕ → ℕ → ℕ
parent k pos = (pos - 1) / k

-- The end of both loops: the saved item goes to the place that is left.
unfoldable pub place : List Item → (ℕ → Option ℕ) → Item → ℕ → KHeap
place array pos item p = record { array = set array p item; pos = set_pos pos item.node (some p) }

-- The loop of fix_up; one unit of fuel for each level.
unfoldable pub fix_up_loop : ℕ → ℕ → List Item → (ℕ → Option ℕ) → Item → ℕ → Option KHeap
fix_up_loop k zero array pos item p = none
fix_up_loop k (suc fuel) array pos item p = elim (p == 0) [
  | true ↦ some (place array pos item p)
  | false ↦ elim (get_elem? array (parent k p)) [
    | none ↦ none
    | some parent_item ↦ elim (ltb parent_item.key item.key) [
      | true ↦ some (place array pos item p)
      | false ↦
          fix_up_loop k fuel (set array p parent_item) (set_pos pos parent_item.node (some p)) item
            (parent k p)
    ]
  ]
]

unfoldable pub fix_up : ℕ → KHeap → ℕ → Option KHeap
fix_up k h p = elim (get_elem? h.array p) [
  | none ↦ none
  | some item ↦ fix_up_loop k (p + 1) h.array h.pos item p
]

-- The `for` of fix_down over `n` children from `i`: the first child of the least key below next_key.
unfoldable pub least_child : ℕ → List Item → ℕ → ℕ → ℕ → Option ℕ
least_child zero array i next_pos next_key = some next_pos
least_child (suc n) array i next_pos next_key = elim (get_elem? array i) [
  | none ↦ none
  | some child ↦ elim (ltb child.key next_key) [
    | true ↦ least_child n array (i + 1) i child.key
    | false ↦ least_child n array (i + 1) next_pos next_key
  ]
]

unfoldable pub fix_down_loop : ℕ → ℕ → List Item → (ℕ → Option ℕ) → Item → ℕ → Option KHeap
fix_down_loop k zero array pos item p = none
fix_down_loop k (suc fuel) array pos item p =
    let left_pos = p * k + 1 in
    let right_pos = min (left_pos + k) (length array) in
    elim (least_child (right_pos - left_pos) array left_pos p item.key) [
      | none ↦ none
      | some next_pos ↦ elim (next_pos == p) [
        | true ↦ some (place array pos item p)
        | false ↦ elim (get_elem? array next_pos) [
          | none ↦ none
          | some next ↦
              fix_down_loop k fuel (set array p next) (set_pos pos next.node (some p)) item next_pos
        ]
      ]
    ]

unfoldable pub fix_down : ℕ → KHeap → ℕ → Option KHeap
fix_down k h p = elim (get_elem? h.array p) [
  | none ↦ none
  | some item ↦ fix_down_loop k (length h.array) h.array h.pos item p
]

-- erase(int pos)
unfoldable pub erase_at : ℕ → KHeap → ℕ → Option KHeap
erase_at k h p = elim (get_last? h.array) [
  | none ↦ none
  | some back ↦
      let h' = record h { array = drop_last (set h.array p back) } in
      elim (ltb p (length h'.array)) [
        | true ↦ elim (fix_down k h' p) [ none ↦ none | some h'' ↦ fix_up k h'' p ]
        | false ↦ some h'
      ]
]

unfoldable pub top_key : KHeap → Option ℕ
top_key h = Option.map (λ (i : Item). i.key) (get_elem? h.array 0)

unfoldable pub pop : ℕ → KHeap → Option (ℕ × KHeap)
pop k h = elim (get_elem? h.array 0) [
  | none ↦ none
  | some top ↦ elim (erase_at k (record h { pos = set_pos h.pos top.node none }) 0) [
    | none ↦ none
    | some h' ↦ some (top.node, h')
  ]
]

unfoldable pub insert : ℕ → KHeap → ℕ → ℕ → Option KHeap
insert k h key node = elim (in_heap h node) [
  | true ↦ none
  | false ↦
      fix_up k (record h { array = h.array ++ record { key = key; node = node } ∷ [] })
        (length h.array)
]

unfoldable pub fix : ℕ → KHeap → ℕ → ℕ → Option KHeap
fix k h key node = elim (h.pos node) [
  | none ↦ none
  | some p ↦ elim (get_elem? h.array p) [
    | none ↦ none
    | some old ↦
        let h' = record h { array = set h.array p (record old { key = key }) } in
        elim (ltb key old.key) [ true ↦ fix_up k h' p | false ↦ fix_down k h' p ]
  ]
]

unfoldable pub erase : ℕ → KHeap → ℕ → Option KHeap
erase k h node = elim (h.pos node) [
  | none ↦ none
  | some p ↦ erase_at k (record h { pos = set_pos h.pos node none }) p
]

-- The inner loop of check: the children from `j` on, `n` of them, of an item with this key.
unfoldable pub check_children : ℕ → List Item → ℕ → ℕ → Bool
check_children zero array key j = true
check_children (suc n) array key j = elim (get_elem? array j) [
  | none ↦ true
  | some child ↦ leb key child.key && check_children n array key (j + 1)
]

-- The outer loop, from `i` on.
unfoldable pub check_from : ℕ → ℕ → List Item → ℕ → Bool
check_from k zero array i = true
check_from k (suc n) array i = elim (get_elem? array i) [
  | none ↦ true
  | some item ↦ check_children k array item.key (i * k + 1) && check_from k n array (i + 1)
]

unfoldable pub check : ℕ → KHeap → Bool
check k h = check_from k (length h.array) h.array 0
