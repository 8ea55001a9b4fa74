-- ===== src/Heap/Tests.antt =====
-- Runs of the heap of td/utils/Heap.h with two children for each node.
use tdutils.Base.{
  arith, false, if◌then◌else◌, length, List, none, Option, refl, some, suc, true, zero, ℕ, [], ◌-◌,
  ◌<◌, ◌==◌, ◌∷◌, ◌≡◌, ◌≤◌,
}
use tdutils.Heap.{
  check, check_children, check_from, empty, erase, erase_at, fix, fix_down, fix_down_loop, fix_up,
  fix_up_loop, in_heap, insert, is_top, KHeap, least_child, parent, place, pop, set_pos, size, top,
}
use tdutils.Heap.Moves.{IsSound, key_of}
use tdutils.Heap.Contents.{Updated, WellFormed}
use tdutils.Heap.Up.{IsHeap, Ordered}
use tdutils.Heap.Insert.{insert_correct}
use tdutils.Heap.Fix.{fix_correct}
use tdutils.Heap.Calls.{erase_node_correct, pop_correct}

abbrev empty_heap : KHeap
empty_heap = record { array = []; pos = λ _. none }

-- Each pair is a key and its node.
abbrev insert_all : KHeap → List (ℕ × ℕ) → Option KHeap
insert_all h [] = some h
insert_all h ((key, node) ∷ rest) = elim (insert 2 h key node) [
  | none ↦ none
  | some h' ↦ insert_all h' rest
]

-- The nodes in the order in which pop returns them.
abbrev pop_all : ℕ → Option KHeap → List ℕ
pop_all zero h = []
pop_all (suc n) none = []
pop_all (suc n) (some h) = elim (pop 2 h) [
  | none ↦ []
  | some (node, h') ↦ node ∷ pop_all n (some h')
]

pops_by_key :
    pop_all 4 (insert_all empty_heap ((7, 0) ∷ (3, 1) ∷ (9, 2) ∷ (1, 3) ∷ [])) ≡ 3 ∷ 1 ∷ 0 ∷ 2 ∷ []
unfolding insert pop erase_at in_heap set_pos parent place fix_up fix_up_loop fix_down fix_down_loop
    least_child
pops_by_key = refl

abbrev or_empty : Option KHeap → KHeap
or_empty none = empty_heap
or_empty (some h) = h

-- Node 0 with the key 7.
abbrev one_node : KHeap
one_node = or_empty (insert 2 empty_heap 7 0)

-- And node 1 with the key 3 above it.
abbrev two_nodes : KHeap
two_nodes = or_empty (insert 2 one_node 3 1)

WellFormed-returned :
    (keys : ℕ → Option ℕ) (n : ℕ) (r : Option KHeap)
    → Updated 2 keys n r
    → WellFormed 2 (or_empty r)
WellFormed-returned keys n r u = rw u.returns u.valid

empty_heap-WellFormed : WellFormed 2 empty_heap
unfolding IsSound IsHeap Ordered
empty_heap-WellFormed = record {
  sound = ((λ i x e. cc), (λ m i e. cc));
  ordered = λ c lc x y e f. cc;
}

one_node-WellFormed : WellFormed 2 one_node
unfolding in_heap
one_node-WellFormed =
    WellFormed-returned _ _ (insert 2 empty_heap 7 0)
      (insert_correct 2 empty_heap 7 0 empty_heap-WellFormed refl)

one_absent : in_heap one_node 1 ≡ false
unfolding insert in_heap set_pos parent place fix_up fix_up_loop
one_absent = refl

two_nodes-WellFormed : WellFormed 2 two_nodes
unfolding insert in_heap set_pos parent place fix_up fix_up_loop
two_nodes-WellFormed =
    WellFormed-returned _ _ (insert 2 one_node 3 1)
      (insert_correct 2 one_node 3 1 one_node-WellFormed refl)

node_present : in_heap two_nodes 0 ≡ true
unfolding insert in_heap set_pos parent place fix_up fix_up_loop
node_present = refl

checked :
    (check 2 two_nodes ≡ true)
    × (top two_nodes ≡ some 1)
    × (is_top two_nodes 0 ≡ false)
    × (size two_nodes ≡ 2)
    × (empty two_nodes ≡ false)
unfolding check check_from check_children top is_top size empty insert in_heap set_pos parent place
    fix_up fix_up_loop
checked = (refl, refl, refl, refl, refl)

two_long : 0 < length two_nodes.array
unfolding insert in_heap set_pos parent place fix_up fix_up_loop
two_long = omega arith

insert_correct_example :
    Updated 2
      (λ m. if m == 1 then some 3 else key_of one_node m)
      (suc (length one_node.array))
      (insert 2 one_node 3 1)
insert_correct_example = insert_correct 2 one_node 3 1 one_node-WellFormed one_absent

erase_node_correct_example :
    Updated 2
      (λ m. if m == 0 then none else key_of two_nodes m)
      (length two_nodes.array - 1)
      (erase 2 two_nodes 0)
erase_node_correct_example =
    erase_node_correct 2 two_nodes 0 (omega arith) two_nodes-WellFormed node_present

fix_correct_example :
    Updated 2
      (λ m. if m == 0 then some 1 else key_of two_nodes m)
      (length two_nodes.array)
      (fix 2 two_nodes 1 0)
fix_correct_example = fix_correct 2 two_nodes 1 0 (omega arith) two_nodes-WellFormed node_present

pop_correct_example :
    (node : ℕ) × (key : ℕ) × (key_of two_nodes node ≡ some key)
    × ((m key' : ℕ) → key_of two_nodes m ≡ some key' → key ≤ key')
    × (h' : KHeap) × (pop 2 two_nodes ≡ some (node, h'))
    × Updated 2
        (λ m. if m == node then none else key_of two_nodes m)
        (length two_nodes.array - 1)
        (some h')
pop_correct_example = pop_correct 2 two_nodes (omega arith) two_nodes-WellFormed two_long
