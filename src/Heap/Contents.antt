-- ===== src/Heap/Contents.antt =====
-- A heap of td/utils/Heap.h as a map from nodes to keys, and what adds or removes a node.
use mathlib.Core.Option.{none-ne-some, some-injective}
use tdutils.Base.{
  ap, arith, Bool-cases, false, get_elem?, if◌then◌else◌, inl, inr, length, List, ne→==, none,
  Option, Option-cases, set, some, sym, ℕ, ==-refl, ◌<◌, ◌==◌, ◌∙◌, ◌≡◌, ◌≢◌,
}
use tdutils.Heap.Moves.{at, IsSound, key_of, key_of-at, key_of-none}
use tdutils.Heap.{Item, KHeap, place, set_pos}
use tdutils.Heap.Up.{IsHeap, Settled}
use tdutils.Heap.Places.{set-other, set-same}

-- Nodes and places agree, and no key is below its parent's.
pub record WellFormed (k : ℕ) (h : KHeap) : Type 0 where
  pub sound : IsSound h
  pub ordered : IsHeap k h

pub key_of-member :
    (h : KHeap) (i : ℕ) (z : Item) → IsSound h → at h i ≡ some z → key_of h z.node ≡ some z.key
unfolding IsSound
key_of-member h i z s e = key_of-at h z.node i z (s.0 i z e) e

-- Two sound heaps that hold the same items, but for those of the node `n`.
pub key_of-removed :
    (h h' : KHeap) (n : ℕ)
    → IsSound h
    → IsSound h'
    → ((i : ℕ) (z : Item) → at h' i ≡ some z → (z.node ≢ n) × (j : ℕ) × (at h j ≡ some z))
    → ((j : ℕ) (z : Item) → at h j ≡ some z → z.node ≢ n → (i : ℕ) × (at h' i ≡ some z))
    → (m : ℕ) → key_of h' m ≡ (if m == n then none else key_of h m)
unfolding IsSound
key_of-removed h h' n s s' from to m = elim (Option-cases (h'.pos m)) [
  | inr (i, e) ↦
      let (z, a, w) = s'.1 m i e in
      let (apart, j, b) = from i z a in
      let other : (m == n) ≡ false = ne→== m n (λ v. apart (w ∙ v)) in
      rw other (key_of-at h' m i z e a ∙ sym (ap (key_of h) (sym w) ∙ key_of-member h j z s b))
  | inl e ↦ elim (Bool-cases (m == n)) [
    | inl q ↦ rw q (key_of-none h' m e)
    | inr q ↦ rw q (elim (Option-cases (h.pos m)) [
      | inl f ↦ key_of-none h' m e ∙ sym (key_of-none h m f)
      | inr (j, f) ↦
          let (z, a, w) = s.1 m j f in
          let (i, b) = to j z a (λ v. ground arith) in
          let g : h'.pos m ≡ some i = ap h'.pos (sym w) ∙ s'.0 i z b in
          absurd (none-ne-some _ (sym e ∙ g))
    ])
  ]
]

-- When an item put at `p` knows its place, and the others know theirs.
pub place-IsSound :
    (array : List Item) (pos : ℕ → Option ℕ) (x : Item) (p : ℕ)
    → p < length array
    → ((i : ℕ) (z : Item)
        → i ≢ p
        → get_elem? array i ≡ some z
        → (z.node ≢ x.node) × (pos z.node ≡ some i))
    → ((m i : ℕ)
        → m ≢ x.node
        → pos m ≡ some i
        → (i ≢ p) × (z : Item) × (get_elem? array i ≡ some z) × (z.node ≡ m))
    → IsSound (place array pos x p)
unfolding IsSound place set_pos
place-IsSound array pos x p l known held = (forth, back)
  where
    forth :
        (i : ℕ) (z : Item)
        → get_elem? (set array p x) i ≡ some z
        → (if z.node == x.node then some p else pos z.node) ≡ some i
    forth i z e = elim (Bool-cases (i == p)) [
      | inl q ↦
          let w : i ≡ p = ground arith in
          let v : x ≡ z =
            some-injective _ _
              (sym (set-same array p x l) ∙ ap (get_elem? (set array p x)) (sym w) ∙ e) in
          rw (← v, ==-refl x.node) (ap some (sym w))
      | inr q ↦
          let (apart, k) =
            known i z (λ w. ground arith) (sym (set-other array p i x l (λ w. ground arith)) ∙ e) in
          rw (ne→== z.node x.node apart) k
    ]

    back :
        (m i : ℕ)
        → (if m == x.node then some p else pos m) ≡ some i
        → (z : Item) × (get_elem? (set array p x) i ≡ some z) × (z.node ≡ m)
    back m i e = elim (Bool-cases (m == x.node)) [
      | inl q ↦
          let w : p ≡ i = some-injective _ _ (rw q at e) in
          (x, ap (get_elem? (set array p x)) (sym w) ∙ set-same array p x l, ground arith)
      | inr q ↦
          let (apart, z, a, w) = held m i (λ w. ground arith) (rw q at e) in
          (z, set-other array p i x l (λ w. apart (sym w)) ∙ a, w)
    ]

-- A call that returns a valid heap with these keys and this size.
pub record Updated (k : ℕ) (keys : ℕ → Option ℕ) (size : ℕ) (r : Option KHeap) : Type 0 where
  pub result : KHeap
  pub returns : r ≡ some result
  pub valid : WellFormed k result
  pub keys_are : (m : ℕ) → key_of result m ≡ keys m
  pub size_is : length result.array ≡ size

pub Settled-Updated :
    (k : ℕ) {h : KHeap} {r : Option KHeap} (keys : ℕ → Option ℕ) (size : ℕ)
    → Settled (IsHeap k) h r
    → ((m : ℕ) → key_of h m ≡ keys m)
    → length h.array ≡ size
    → Updated k keys size r
Settled-Updated k keys size t e f = record {
  result = t.result;
  returns = t.returns;
  valid = record { sound = t.sound; ordered = t.ordered };
  keys_are = λ m. t.same_keys m ∙ e m;
  size_is = t.same_size ∙ f;
}
