-- ===== src/Heap/Insert.antt =====
-- insert of td/utils/Heap.h.
use mathlib.Core.Option.{none-ne-some}
use tdutils.Base.{
  ap, arith, Bool-cases, false, get_elem?, get_elem?-append_end, get_elem?-append_left,
  get_elem?-lt, if◌then◌else◌, inl, inr, length, length-append, List, none, Option-cases, some, suc,
  sym, true, ℕ, [], ◌++◌, ◌+◌, ◌<◌, ◌==◌, ◌∙◌, ◌∷◌, ◌≡◌, ◌≢◌, ◌≤◌,
}
use tdutils.Heap.Moves.{at, IsSound, key_of, same_node}
use tdutils.Heap.{fix_up, in_heap, insert, Item, KHeap, parent, place}
use tdutils.Heap.Up.{fix_up_loop-Settled, IsHeap, Ordered, OrderedBut, parent-lt}
use tdutils.Heap.Contents.{
  key_of-member, key_of-removed, place-IsSound, Settled-Updated, Updated, WellFormed,
}
use tdutils.Heap.Places.{at-other, at-place, length-place}

pub false-true : ¬ (false ≡ true)
false-true e = cc

module _ (k : ℕ) (h : KHeap) (x : Item) (valid : WellFormed k h) (free : h.pos x.node ≡ none) where
  abbrev n : ℕ
  n = length h.array

  abbrev longer : List Item
  longer = h.array ++ x ∷ []

  length-longer : length longer ≡ suc n
  length-longer = omega (arith, length-append h.array (x ∷ []))

  -- The old items stand where they stood.
  old : (i : ℕ) (z : Item) → i ≢ n → get_elem? longer i ≡ some z → at h i ≡ some z
  old i z a e =
      let l = get_elem?-lt longer i e in
      sym (get_elem?-append_left h.array (x ∷ []) i (omega (arith, length-longer))) ∙ e

  apart : (i : ℕ) (z : Item) → at h i ≡ some z → z.node ≢ x.node
  unfolding IsSound
  apart i z e w = none-ne-some _ (sym free ∙ ap h.pos (sym w) ∙ valid.sound.0 i z e)

  placed : KHeap
  placed = place longer h.pos x n

  placed-IsSound : IsSound placed
  unfolding IsSound placed
  placed-IsSound =
      place-IsSound longer h.pos x n (omega (arith, length-longer))
        (λ i z a e. let b = old i z a e in (apart i z b, valid.sound.0 i z b))
        (λ m i a e.
          let (z, b, c) = valid.sound.1 m i e in
          let l = get_elem?-lt h.array i b in
          (λ w. omega arith, z, get_elem?-append_left h.array (x ∷ []) i l ∙ b, c))

  placed_old : (i : ℕ) → i ≢ n → at placed i ≡ get_elem? longer i
  unfolding placed
  placed_old i a = at-other longer h.pos x n i (omega (arith, length-longer)) (λ w. a (sym w))

  placed_new : at placed n ≡ some x
  unfolding placed
  placed_new = at-place longer h.pos x n (omega (arith, length-longer))

  placed_size : length placed.array ≡ suc n
  unfolding placed
  placed_size = length-place longer h.pos x n ∙ length-longer

  placed-OrderedBut : OrderedBut false k placed n
  unfolding OrderedBut Ordered IsHeap
  placed-OrderedBut = (ordered, above)
    where
      ordered :
          (c : ℕ)
          → 0 < c
          → (c ≡ n → false ≡ true)
          → (u v : Item) → at placed (parent k c) ≡ some u
          → at placed c ≡ some v
          → u.key ≤ v.key
      ordered c lc a u v e f =
          let l = get_elem?-lt placed.array c f in
          let up = parent-lt k c lc in
          let c-n : c ≢ n = λ w. absurd (false-true (a w)) in
          let p-n : parent k c ≢ n = λ w. omega (arith, placed_size) in
          valid.ordered c lc u v (old (parent k c) u p-n (sym (placed_old (parent k c) p-n) ∙ e))
            (old c v c-n (sym (placed_old c c-n) ∙ f))

      above :
          (c : ℕ)
          → 0 < c
          → 0 < n
          → parent k c ≡ n
          → (u v : Item) → at placed (parent k n) ≡ some u
          → at placed c ≡ some v
          → u.key ≤ v.key
      above c lc ln w u v e f =
          let up = parent-lt k c lc in
          let l = get_elem?-lt placed.array c f in absurd (omega (arith, placed_size))

  placed-key_of : (m : ℕ) → key_of placed m ≡ (if m == x.node then some x.key else key_of h m)
  unfolding IsSound
  placed-key_of m =
      let removed =
        key_of-removed placed h x.node placed-IsSound valid.sound
          (λ i z e.
            let l = get_elem?-lt h.array i e in
            (
              apart i z e,
              i,
              placed_old i (λ w. omega arith) ∙ get_elem?-append_left h.array (x ∷ []) i l ∙ e,
            ))
          (λ i z e a.
            let i-n : i ≢ n = λ w. a (same_node placed.array e w placed_new) in
            (i, old i z i-n (sym (placed_old i i-n) ∙ e)))
          m in
      elim (Bool-cases (m == x.node)) [
        | inl q ↦
            let w : m ≡ x.node = ground arith in
            rw q (ap (key_of placed) w ∙ key_of-member placed n x placed-IsSound placed_new)
        | inr q ↦ rw q (sym (rw q at removed))
      ]

-- insert of a node that is in no heap returns a valid heap that holds the node under its key, and the
-- other nodes as before.
pub insert_correct :
    (k : ℕ) (h : KHeap) (key node : ℕ)
    → WellFormed k h
    → in_heap h node ≡ false
    → Updated k
        (λ m. if m == node then some key else key_of h m)
        (suc (length h.array))
        (insert k h key node)
unfolding insert fix_up in_heap placed
insert_correct k h key node valid free =
    let x : Item = record { key = key; node = node } in
    let none_yet : h.pos node ≡ none = elim (Option-cases (h.pos node)) [
      | inl e ↦ e
      | inr (i, e) ↦ let f = rw (in_heap, e) at free in cc
    ] in
    rw (free, insert, get_elem?-append_end h.array x, fix_up)
      (Settled-Updated k _ _
        (fix_up_loop-Settled k (length h.array + 1) (h.array ++ x ∷ []) h.pos x (length h.array)
          (omega arith) (omega (arith, length-append h.array (x ∷ [])))
          (placed-IsSound k h x valid none_yet) (placed-OrderedBut k h x valid none_yet))
        (placed-key_of k h x valid none_yet) (placed_size k h x valid none_yet))
