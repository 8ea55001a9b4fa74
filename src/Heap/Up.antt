-- ===== src/Heap/Up.antt =====
-- fix_up of td/utils/Heap.h.
use native.Mathlib.Nat.{div-le_self}
use mathlib.Core.Option.{some-injective}
use mathlib.Core.Path.{subst}
use tdutils.Base.{
  ap, arith, Bool, Bool-cases, false, get_elem?, get_elem?-some, inl, inr, length, length-set, List,
  ltb, Option, refl, set, some, suc, sym, true, zero, ℕ, ◌+◌, ◌-◌, ◌<◌, ◌==◌, ◌∙◌, ◌≡◌, ◌≤◌,
}
use tdutils.Heap.Moves.{
  at, Exchange, Exchange-at, Exchange-IsSound, Exchange-key_of, IsSound, key_of, same_key,
}
use tdutils.Heap.{fix_up, fix_up_loop, Item, KHeap, parent, place, set_pos}
use tdutils.Heap.Places.{place-back, place-Exchange, set-other, set-same}

unfoldable pub Ordered : ℕ → KHeap → ℕ → Type 0
Ordered k h c = (x y : Item) → at h (parent k c) ≡ some x → at h c ≡ some y → x.key ≤ y.key

-- The heap order, at `p` only where `whole` is true; and below `p` against the parent of `p`.
unfoldable pub OrderedBut : Bool → ℕ → KHeap → ℕ → Type 0
OrderedBut whole k h p =
    ((c : ℕ) → 0 < c → (c ≡ p → whole ≡ true) → Ordered k h c)
    × ((c : ℕ)
        → 0 < c
        → 0 < p
        → parent k c ≡ p
        → (x y : Item) → at h (parent k p) ≡ some x
        → at h c ≡ some y
        → x.key ≤ y.key)

unfoldable pub IsHeap : ℕ → KHeap → Type 0
IsHeap k h = (c : ℕ) → 0 < c → Ordered k h c

pub parent-lt : (k p : ℕ) → 0 < p → parent k p < p
unfolding parent
parent-lt k p h = omega (arith, div-le_self (p - 1) k)

-- Raising an item that is not above its parent leaves the order loose at the parent only.
module _ (k : ℕ) {h h' : KHeap} {p : ℕ} {x y : Item} (l : 0 < p)
    (e : Exchange h h' p (parent k p) x y) (le : x.key ≤ y.key)
    (loose : OrderedBut false k h p) where
  raise-Ordered : (c : ℕ) → 0 < c → (c ≡ parent k p → false ≡ true) → Ordered k h' c
  unfolding OrderedBut Ordered
  raise-Ordered c lc n u v a b = elim (Exchange-at e c v b) [
    | inl (w, kv) ↦
        let ku =
          ap (λ (z : Item). z.key)
            (some-injective _ _ (sym a ∙ ap (λ i. at h' (parent k i)) w ∙ e.to_q)) in
        omega arith
    | inr (inl (w, kv)) ↦ let f = n w in cc
    | inr (inr (c-p, c-q, bh)) ↦ elim (Exchange-at e (parent k c) u a) [
      | inl (w, ku) ↦ omega (arith, loose.1 c lc l w y v e.at_q bh)
      | inr (inl (w, ku)) ↦
          omega (arith, loose.0 c lc (λ w. absurd (c-p w)) y v (ap (at h) w ∙ e.at_q) bh)
      | inr (inr (_, _, ah)) ↦ loose.0 c lc (λ w. absurd (c-p w)) u v ah bh
    ]
  ]

  raise_above :
      (c : ℕ)
      → 0 < c
      → 0 < parent k p
      → parent k c ≡ parent k p
      → (u v : Item) → at h' (parent k (parent k p)) ≡ some u
      → at h' c ≡ some v
      → u.key ≤ v.key
  unfolding OrderedBut Ordered
  raise_above c lc lq w u v a b =
      let q = parent k p in
      let below = parent-lt k p l in
      let below' = parent-lt k q lq in
      let ah : at h (parent k q) ≡ some u =
        sym (e.others (parent k q) (λ s. omega arith) (λ s. omega arith)) ∙ a in
      let first = loose.0 q lq (λ s. absurd (omega arith)) u y ah e.at_q in
      elim (Exchange-at e c v b) [
        | inl (_, kv) ↦ omega arith
        | inr (inl (s, kv)) ↦
            let f : parent k q ≡ q = ap (parent k) (sym s) ∙ w in absurd (omega arith)
        | inr (inr (c-p, c-q, bh)) ↦
            omega (arith, loose.0 c lc (λ s. absurd (c-p s)) y v (ap (at h) w ∙ e.at_q) bh)
      ]

  raise : OrderedBut false k h' (parent k p)
  unfolding OrderedBut
  raise = (raise-Ordered, raise_above)

-- A loop that ends in a sound heap of the same items, in the order `Q`.
pub record Settled (Q : KHeap → Type 0) (h : KHeap) (r : Option KHeap) : Type 0 where
  pub result : KHeap
  pub returns : r ≡ some result
  pub sound : IsSound result
  pub ordered : Q result
  pub same_keys : (m : ℕ) → key_of result m ≡ key_of h m
  pub same_size : length result.array ≡ length h.array

pub stay : (Q : KHeap → Type 0) (h : KHeap) → IsSound h → Q h → Settled Q h (some h)
stay Q h s o = record {
  result = h;
  returns = refl;
  sound = s;
  ordered = o;
  same_keys = λ m. refl;
  same_size = refl;
}

pub Settled-Exchange :
    (Q : KHeap → Type 0) {h h' : KHeap} {p q : ℕ} {x y : Item} (r : Option KHeap)
    → IsSound h
    → Exchange h h' p q x y
    → Settled Q h' r
    → Settled Q h r
Settled-Exchange Q r s e t = record {
  result = t.result;
  returns = t.returns;
  sound = t.sound;
  ordered = t.ordered;
  same_keys = λ m. t.same_keys m ∙ Exchange-key_of s e m;
  same_size = t.same_size ∙ e.same_size;
}

-- Where the parent is not above the item, the order holds everywhere.
stop_ordered :
    (k : ℕ) (array : List Item) (pos : ℕ → Option ℕ) (x : Item) (p : ℕ)
    → 0 < p
    → p < length array
    → (y : Item) → get_elem? array (parent k p) ≡ some y
    → y.key ≤ x.key
    → OrderedBut false k (place array pos x p) p
    → IsHeap k (place array pos x p)
unfolding IsHeap OrderedBut Ordered place
stop_ordered k array pos x p lp l y ey le o c lc u v a b = elim (Bool-cases (c == p)) [
  | inr n ↦ o.0 c lc (λ w. absurd (ground arith)) u v a b
  | inl w ↦
      let w' : c ≡ p = ground arith in
      let below = parent-lt k p lp in
      let kv = same_key (set array p x) b w' (set-same array p x l) in
      let ku =
        ap (λ (z : Item). z.key)
          (some-injective _ _ (
            sym a
            ∙ ap (λ i. get_elem? (set array p x) (parent k i)) w'
            ∙ set-other array p (parent k p) x l (λ s. omega arith)
            ∙ ey)) in
      omega arith
]

pub fix_up_loop-Settled :
    (k fuel : ℕ) (array : List Item) (pos : ℕ → Option ℕ) (x : Item) (p : ℕ)
    → p < fuel
    → p < length array
    → IsSound (place array pos x p)
    → OrderedBut false k (place array pos x p) p
    → Settled (IsHeap k) (place array pos x p) (fix_up_loop k fuel array pos x p)
unfolding fix_up_loop IsHeap OrderedBut
fix_up_loop-Settled k zero array pos x p f l s o = absurd (omega arith)
fix_up_loop-Settled k (suc fuel) array pos x p f l s o = elim (Bool-cases (p == 0)) [
  | inl z ↦
      rw (z, fix_up_loop) (stay (IsHeap k) _ s (λ c lc. o.0 c lc (λ w. absurd (ground arith))))
  | inr z ↦
      let lp : 0 < p = ground arith in
      let q = parent k p in
      let below = parent-lt k p lp in
      let (y, ey) = get_elem?-some array q (omega arith) in
      elim (Bool-cases (ltb y.key x.key)) [
        | inl less ↦
            rw (z, ey, less, fix_up_loop)
              (stay (IsHeap k) _ s (stop_ordered k array pos x p lp l y ey (ground arith) o))
        | inr more ↦
            let e = place-Exchange array pos x y p q l (omega arith) (λ w. omega arith) ey s in
            rw (z, ey, more, fix_up_loop)
              (Settled-Exchange (IsHeap k) _ s e (
                fix_up_loop-Settled k fuel (set array p y) (set_pos pos y.node (some p)) x q
                  (omega arith) (omega (arith, length-set array p y)) (Exchange-IsSound s e)
                  (raise k lp e (ground arith) o)))
      ]
]

pub fix_up-Settled :
    (k : ℕ) (h : KHeap) (p : ℕ)
    → p < length h.array
    → IsSound h
    → OrderedBut false k h p
    → Settled (IsHeap k) h (fix_up k h p)
unfolding fix_up place
fix_up-Settled k h p l s o =
    let (x, e) = get_elem?-some h.array p l in
    let b = place-back h p x s e in
    rw (e, fix_up)
      (subst (λ g. Settled (IsHeap k) g (fix_up_loop k (p + 1) h.array h.pos x p)) b
        (fix_up_loop-Settled k (p + 1) h.array h.pos x p (omega arith) l (subst IsSound (sym b) s)
          (subst (λ g. OrderedBut false k g p) (sym b) o)))
