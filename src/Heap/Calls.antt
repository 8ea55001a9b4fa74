-- ===== src/Heap/Calls.antt =====
-- erase, pop and fix of td/utils/Heap.h.
use mathlib.Core.Option.{none-ne-some, some-injective}
use tdutils.Base.{
  ap, arith, Bool-cases, false, get_elem?-lt, get_elem?-some, if◌then◌else◌, inl, inr, length, ltb,
  ltb→lt, none, Option, Option-cases, refl, some, suc, sym, true, zero, ℕ, ◌-◌, ◌<◌, ◌==◌, ◌∙◌, ◌≡◌,
  ◌≢◌, ◌≤◌,
}
use tdutils.Heap.Moves.{at, IsSound, key_of, key_of-at, key_of-none, same_node}
use tdutils.Heap.{
  erase, erase_at, fix_down, fix_down_loop, fix_up, in_heap, Item, KHeap, parent, pop, set_pos,
}
use tdutils.Heap.Up.{fix_up-Settled, IsHeap, Ordered, OrderedBut, parent-lt, Settled}
use tdutils.Heap.Erase.{
  filled, filled-IsSound, filled-key_of, filled-OrderedAbove, freed, freed_held, freed_other, Gap,
  get_last?-get_elem?, kept, length-filled, length-shorter, moved, same_place, shorter,
}
use tdutils.Heap.Contents.{key_of-member, key_of-removed, Settled-Updated, Updated, WellFormed}
use tdutils.Heap.Sink.{fix_down_loop-Settled}

down_then_up :
    (k : ℕ) {h : KHeap} (p : ℕ) (r : Option KHeap)
    → p < length h.array
    → Settled (λ g. OrderedBut false k g p) h r
    → Settled (IsHeap k) h (elim r [ none ↦ none | some g ↦ fix_up k g p ])
down_then_up k p r l t =
    let u = fix_up-Settled k t.result p (omega (arith, t.same_size)) t.sound t.ordered in
    rw t.returns (record {
      result = u.result;
      returns = u.returns;
      sound = u.sound;
      ordered = u.ordered;
      same_keys = λ m. u.same_keys m ∙ t.same_keys m;
      same_size = u.same_size ∙ t.same_size;
    })

module _ {k : ℕ} {h : KHeap} {p n : ℕ} {r back : Item} (valid : WellFormed k h)
    (gap : Gap h p n r back) where
  -- Where the last item is the one that goes.
  abbrev cut : KHeap
  cut = record { array = shorter valid gap; pos = freed valid gap }

  module _ (w : p ≡ n) where
    same : (i : ℕ) → i < n → at cut i ≡ at h i
    same i l = kept valid gap i l (λ v. omega arith)

    below : (i : ℕ) (z : Item) → at cut i ≡ some z → i < n
    below i z e = omega (arith, get_elem?-lt cut.array i e, length-shorter valid gap)

    apart : (i : ℕ) (z : Item) → i < n → at h i ≡ some z → z.node ≢ r.node
    apart i z l e v = let q = same_place valid gap i p z r e gap.at_p v in absurd (omega arith)

    cut-IsSound : IsSound cut
    unfolding IsSound
    cut-IsSound = (
      λ i z e.
          let l = below i z e in
          let f = sym (same i l) ∙ e in
          freed_other valid gap z.node (apart i z l f) ∙ valid.sound.0 i z f,
      λ m i e.
          let (b, f) = freed_held valid gap m i e in
          let (z, g, v) = valid.sound.1 m i f in
          let i-p : i ≢ p = λ s. b (sym v ∙ same_node h.array g s gap.at_p) in
          let bound = get_elem?-lt h.array i g in (z, same i (omega arith) ∙ g, v),
    )

    cut-IsHeap : IsHeap k cut
    unfolding IsHeap Ordered
    cut-IsHeap c lc u v e f =
        let up = parent-lt k c lc in
        let l = below c v f in
        valid.ordered c lc u v (sym (same (parent k c) (omega arith)) ∙ e) (sym (same c l) ∙ f)

    cut-key_of : (m : ℕ) → key_of cut m ≡ (if m == r.node then none else key_of h m)
    cut-key_of =
        key_of-removed h cut r.node valid.sound cut-IsSound
          (λ i z e. let l = below i z e in let f = sym (same i l) ∙ e in (apart i z l f, i, f))
          (λ j z e a.
            let j-p : j ≢ p = λ s. a (same_node h.array e s gap.at_p) in
            let bound = get_elem?-lt h.array j e in (j, same j (omega arith) ∙ e))

  abbrev without : ℕ → Option ℕ
  without m = if m == r.node then none else key_of h m

  last_place : ltb p n ≡ false → p ≡ n
  last_place q = let bound = get_elem?-lt h.array p gap.at_p in ground arith

  fix_down-cut :
      p < n → fix_down k cut p ≡ fix_down_loop k (length cut.array) cut.array cut.pos back p
  unfolding fix_down
  fix_down-cut l = rw (moved valid gap l, fix_down) refl

  -- erase(pos) where the node at `pos` was told that it is in no heap.
  erase_at-Updated :
      0 < k → Updated k without n (erase_at k (record h { pos = set_pos h.pos r.node none }) p)
  unfolding erase_at
  erase_at-Updated lk =
      let last = get_last?-get_elem? h.array n back (omega (arith, gap.size)) gap.at_n in
      let bound = get_elem?-lt h.array p gap.at_p in
      let long = length-shorter valid gap in
      elim (Bool-cases (ltb p n)) [
        | inr q ↦
            rw (last, long, q, erase_at)
              (record {
                result = cut;
                returns = refl;
                valid = record {
                  sound = cut-IsSound (last_place q);
                  ordered = cut-IsHeap (last_place q);
                };
                keys_are = cut-key_of (last_place q);
                size_is = long;
              })
        | inl q ↦
            rw (last, long, q, erase_at)
              (let l = ltb→lt p n q in
                rw (fix_down-cut l) (
                  Settled-Updated k without n
                    (down_then_up k {h = filled valid gap} p _
                      (omega (arith, length-filled valid gap l))
                      (fix_down_loop-Settled k false (length cut.array) cut.array cut.pos back p lk
                        (omega arith) (omega (arith, long)) (filled-IsSound valid gap l)
                        (filled-OrderedAbove valid gap l)))
                    (filled-key_of valid gap l) (length-filled valid gap l)))
      ]

last_item :
    (k : ℕ) (h : KHeap)
    → WellFormed k h
    → 0 < length h.array
    → (n : ℕ) × (length h.array ≡ suc n) × (back : Item) × (at h n ≡ some back)
last_item k h valid l =
    let n = length h.array - 1 in
    let (back, e) = get_elem?-some h.array n (omega arith) in (n, omega arith, back, e)

-- erase of a node that is in the heap returns a valid heap without it, in which the other nodes have
-- their keys.
pub erase_node_correct :
    (k : ℕ) (h : KHeap) (node : ℕ)
    → 0 < k
    → WellFormed k h
    → in_heap h node ≡ true
    → Updated k (λ m. if m == node then none else key_of h m) (length h.array - 1) (erase k h node)
unfolding erase in_heap IsSound
erase_node_correct k h node lk valid present = elim (Option-cases (h.pos node)) [
  | inl e ↦ let f = rw (in_heap, e) at present in cc
  | inr (p, e) ↦
      let (r, at_p, w) = valid.sound.1 node p e in
      let bound = get_elem?-lt h.array p at_p in
      let (n, size, back, at_n) = last_item k h valid (omega arith) in
      let gap : Gap h p n r back = record { size = size; at_p = at_p; at_n = at_n } in
      let u = erase_at-Updated valid gap lk in
      let size' : length h.array - 1 ≡ n = omega arith in rw (e, erase, size', ← w) u
]

root_least :
    (k : ℕ) (h : KHeap) (top : Item)
    → IsHeap k h
    → at h 0 ≡ some top
    → (fuel i : ℕ) (z : Item) → i ≤ fuel
    → at h i ≡ some z
    → top.key ≤ z.key
unfolding IsHeap Ordered
root_least k h top o e fuel zero z l f =
    let w = ap (λ (z : Item). z.key) (some-injective _ _ (sym e ∙ f)) in omega arith
root_least k h top o e zero (suc i) z l f = absurd (omega arith)
root_least k h top o e (suc fuel) (suc i) z l f =
    let up = parent-lt k (suc i) (omega arith) in
    let bound = get_elem?-lt h.array (suc i) f in
    let (y, g) = get_elem?-some h.array (parent k (suc i)) (omega arith) in
    omega (
      arith,
      root_least k h top o e fuel (parent k (suc i)) y (omega arith) g,
      o (suc i) (omega arith) y z g f,
    )

least_key :
    (k : ℕ) (h : KHeap) (top : Item)
    → WellFormed k h
    → at h 0 ≡ some top
    → (m key : ℕ) → key_of h m ≡ some key
    → top.key ≤ key
unfolding IsSound
least_key k h top valid e m key f = elim (Option-cases (h.pos m)) [
  | inl a ↦ absurd (none-ne-some _ (sym (key_of-none h m a) ∙ f))
  | inr (i, a) ↦
      let (z, b, w) = valid.sound.1 m i a in
      let kz = some-injective _ _ (sym (key_of-at h m i z a b) ∙ f) in
      omega (arith, root_least k h top valid.ordered e i i z (omega arith) b)
]

-- pop of a heap that is not empty returns a node of the least key, and a valid heap without it.
pub pop_correct :
    (k : ℕ) (h : KHeap)
    → 0 < k
    → WellFormed k h
    → 0 < length h.array
    → (node : ℕ) × (key : ℕ) × (key_of h node ≡ some key)
      × ((m key' : ℕ) → key_of h m ≡ some key' → key ≤ key')
      × (h' : KHeap) × (pop k h ≡ some (node, h'))
      × Updated k (λ m. if m == node then none else key_of h m) (length h.array - 1) (some h')
unfolding pop
pop_correct k h lk valid l =
    let (top, at_p) = get_elem?-some h.array 0 l in
    let (n, size, back, at_n) = last_item k h valid l in
    let gap : Gap h 0 n top back = record { size = size; at_p = at_p; at_n = at_n } in
    let u = erase_at-Updated valid gap lk in
    let size' : length h.array - 1 ≡ n = omega arith in
    (
      top.node,
      top.key,
      key_of-member h 0 top valid.sound at_p,
      least_key k h top valid at_p,
      u.result,
      rw (at_p, u.returns, pop) refl,
      rw size' (record {
        result = u.result;
        returns = refl;
        valid = u.valid;
        keys_are = u.keys_are;
        size_is = u.size_is;
      }),
    )
