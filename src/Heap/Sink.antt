-- ===== src/Heap/Sink.antt =====
-- The loop of fix_down of td/utils/Heap.h.
use mathlib.Core.Path.{subst}
use tdutils.Base.{
  arith, Bool, Bool-cases, get_elem?, get_elem?-lt, get_elem?-some, inl, inr, length, length-set,
  List, min, Option, set, some, suc, sym, true, zero, ℕ, ◌*◌, ◌+◌, ◌-◌, ◌<◌, ◌==◌, ◌∙◌, ◌≡◌, ◌≤◌,
  ◌⊎◌,
}
use tdutils.Heap.{fix_down, fix_down_loop, Item, KHeap, parent, place, set_pos}
use tdutils.Heap.Down.{
  child_range, IsHeap-OrderedBut, IsLeast, least_child-IsLeast, OrderedAbove, OrderedBut-IsHeap,
  parent_of_child, rest_ordered, sink,
}
use tdutils.Heap.Up.{IsHeap, OrderedBut, parent-lt, Settled, Settled-Exchange, stay}
use tdutils.Heap.Moves.{at, Exchange-IsSound, IsSound}
use tdutils.Heap.Places.{at-other, length-place, place-back, place-Exchange}

-- The least of the children of `p` by a search from the first to the last of them.
least_of_children :
    (k : ℕ) (array : List Item) (p least : ℕ)
    → 0 < k
    → ((j : ℕ) (z : Item)
        → p * k + 1 ≤ j
        → j < p * k + 1 + (min (p * k + 1 + k) (length array) - (p * k + 1))
        → get_elem? array j ≡ some z
        → least ≤ z.key)
    → (c : ℕ) → 0 < c
    → parent k c ≡ p
    → (z : Item) → get_elem? array c ≡ some z
    → least ≤ z.key
least_of_children k array p least lk h c lc w z e =
    let (a, b) = child_range k c p lk lc w in
    let l = get_elem?-lt array c e in h c z a (omega arith) e

weaken :
    (whole : Bool) (k : ℕ) {h : KHeap} {r : Option KHeap} (p : ℕ)
    → p < length h.array
    → Settled (IsHeap k) h r
    → Settled (λ g. OrderedBut whole k g p) h r
weaken whole k p l t = record {
  result = t.result;
  returns = t.returns;
  sound = t.sound;
  ordered = IsHeap-OrderedBut whole k t.result p (omega (arith, t.same_size)) t.ordered;
  same_keys = t.same_keys;
  same_size = t.same_size;
}

pub full :
    (k : ℕ) {h : KHeap} {r : Option KHeap} (p : ℕ)
    → Settled (λ g. OrderedBut true k g p) h r
    → Settled (IsHeap k) h r
full k p t = record {
  result = t.result;
  returns = t.returns;
  sound = t.sound;
  ordered = OrderedBut-IsHeap k t.result p t.ordered;
  same_keys = t.same_keys;
  same_size = t.same_size;
}

pub fix_down_loop-Settled :
    (k : ℕ) (whole : Bool) (fuel : ℕ) (array : List Item) (pos : ℕ → Option ℕ) (x : Item) (p : ℕ)
    → 0 < k
    → length array ≤ fuel + p
    → p < length array
    → IsSound (place array pos x p)
    → OrderedAbove whole k (place array pos x p) p
    → Settled
        (λ g. OrderedBut whole k g p)
        (place array pos x p)
        (fix_down_loop k fuel array pos x p)
unfolding fix_down_loop IsLeast
fix_down_loop-Settled k whole zero array pos x p lk f l s o = absurd (omega arith)
fix_down_loop-Settled k whole (suc fuel) array pos x p lk f l s o =
    let left = p * k + 1 in
    let n = min (left + k) (length array) - left in
    let (m, em, answer) = least_child-IsLeast n array left p x.key (omega arith) in
    let (least, low, above, found) = answer in
    let below = least_of_children k array p least lk above in
    elim (Bool-cases (m == p)) [
      | inl w ↦
          let w' : m ≡ p = ground arith in
          rw (em, w, fix_down_loop)
            (stay _ _ s (
              rest_ordered whole k array pos x p l
                (λ c lc e z a. omega (arith, below c lc e z a, top_least w' found)) o))
      | inr w ↦ elim found [
        | inl (w', _) ↦ absurd (ground arith)
        | inr (lm, lm', y, ey, ky) ↦
            let child = parent_of_child k m p lm (omega arith) in
            let up = parent-lt k m (omega arith) in
            let e =
              place-Exchange array pos x y p m l (get_elem?-lt array m ey) (λ w. omega arith) ey
                s in
            let placed : (d : ℕ)
                → 0 < d
                → parent k d ≡ p
                → (z : Item) → at (place array pos x p) d ≡ some z
                → y.key ≤ z.key =
              λ d ld c z a.
                let down = parent-lt k d ld in
                omega (
                  arith,
                  below d ld c z (sym (at-other array pos x p d l (λ w. omega arith)) ∙ a),
                ) in
            rw (em, w, ey, fix_down_loop)
              (Settled-Exchange _ _ s e (
                weaken whole k p (omega (arith, e.same_size, length-place array pos x p)) (
                  full k m (
                    fix_down_loop-Settled k true fuel (set array p y) (set_pos pos y.node (some p))
                      x m lk (omega (arith, length-set array p y))
                      (omega (arith, length-set array p y, get_elem?-lt array m ey))
                      (Exchange-IsSound s e)
                      (sink k whole child (omega arith) e (omega arith) placed o)))))
      ]
    ]
  where
    top_least :
        {m : ℕ} {least : ℕ}
        → m ≡ p
        → ((m ≡ p) × (least ≡ x.key))
          ⊎ ((p * k + 1 ≤ m)
              × (m < p * k + 1 + (min (p * k + 1 + k) (length array) - (p * k + 1)))
              × (y : Item) × (get_elem? array m ≡ some y)
              × (y.key ≡ least))
        → x.key ≤ least
    top_least w (inl (_, e)) = omega arith
    top_least {m} w (inr (lm, lm', _, _, _)) =
        let child = parent_of_child k m p lm (omega arith) in
        let up = parent-lt k m (omega arith) in absurd (omega arith)

pub fix_down-Settled :
    (k : ℕ) (whole : Bool) (h : KHeap) (p : ℕ)
    → 0 < k
    → p < length h.array
    → IsSound h
    → OrderedAbove whole k h p
    → Settled (λ g. OrderedBut whole k g p) h (fix_down k h p)
unfolding fix_down
fix_down-Settled k whole h p lk l s o =
    let (x, e) = get_elem?-some h.array p l in
    let b = place-back h p x s e in
    rw (e, fix_down)
      (subst
        (λ g.
          Settled (λ g. OrderedBut whole k g p) g
            (fix_down_loop k (length h.array) h.array h.pos x p))
        b
        (fix_down_loop-Settled k whole (length h.array) h.array h.pos x p lk (omega arith) l
          (subst IsSound (sym b) s) (subst (λ g. OrderedAbove whole k g p) (sym b) o)))
