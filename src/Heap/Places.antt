-- ===== src/Heap/Places.antt =====
-- An item put at a place of the array of td/utils/Heap.h.
use mathlib.Core.Option.{some-injective}
use tdutils.Base.{
  ap, arith, Bool-cases, get_elem?, get_elem?-set, if◌then◌else◌, inl, inr, length, length-set,
  List, ne→==, Option, refl, set, some, suc, sym, zero, ℕ, ==-refl, [], ◌<◌, ◌==◌, ◌∙◌, ◌∷◌, ◌≡◌,
  ◌≢◌,
}
use tdutils.Heap.{Item, KHeap, place, set_pos}
use tdutils.Heap.Moves.{at, Exchange, IsSound}

pub set-same :
    {A : Type 0} (xs : List A) (i : ℕ) (v : A) → i < length xs → get_elem? (set xs i v) i ≡ some v
set-same xs i v h = rw (get_elem?-set xs i i v h, ==-refl i) refl

pub set-other :
    {A : Type 0} (xs : List A) (i j : ℕ) (v : A)
    → i < length xs
    → i ≢ j
    → get_elem? (set xs i v) j ≡ get_elem? xs j
set-other xs i j v h n = rw (get_elem?-set xs i j v h, ne→== i j n) refl

pub at-place :
    (array : List Item) (pos : ℕ → Option ℕ) (x : Item) (p : ℕ)
    → p < length array
    → at (place array pos x p) p ≡ some x
unfolding place
at-place array pos x p h = set-same array p x h

pub at-other :
    (array : List Item) (pos : ℕ → Option ℕ) (x : Item) (p i : ℕ)
    → p < length array
    → p ≢ i
    → at (place array pos x p) i ≡ get_elem? array i
unfolding place
at-other array pos x p i h n = set-other array p i x h n

-- A round of either loop: the item at `q` goes to the place `p` that is left, and leaves `q`.
pub place-Exchange :
    (array : List Item) (pos : ℕ → Option ℕ) (x y : Item) (p q : ℕ)
    → p < length array
    → q < length array
    → p ≢ q
    → get_elem? array q ≡ some y
    → IsSound (place array pos x p)
    → Exchange
        (place array pos x p)
        (place (set array p y) (set_pos pos y.node (some p)) x q)
        p
        q
        x
        y
unfolding place set_pos IsSound
place-Exchange array pos x y p q hp hq n e good =
    let hq' : q < length (set array p y) = omega (arith, length-set array p y) in
    let at_q : get_elem? (set array p x) q ≡ some y = set-other array p q x hp n ∙ e in
    let nodes : x.node ≢ y.node = λ w. n (
      some-injective _ _ (
        sym (good.0 p x (set-same array p x hp))
        ∙ ap (set_pos pos x.node (some p)) w
        ∙ good.0 q y at_q)) in
    record {
      apart = n;
      at_p = set-same array p x hp;
      at_q = at_q;
      to_p = set-other (set array p y) q p x hq' (λ w. n (sym w)) ∙ set-same array p y hp;
      to_q = set-same (set array p y) q x hq';
      others = λ i a b.
          set-other (set array p y) q i x hq' (λ w. b (sym w))
          ∙ set-other array p i y hp (λ w. a (sym w))
          ∙ sym (set-other array p i x hp (λ w. a (sym w)));
      pos_x = rw (==-refl x.node) refl;
      pos_y = rw (ne→== y.node x.node (λ w. nodes (sym w)), ==-refl y.node) refl;
      pos_others = λ m a b. rw (ne→== m x.node a, ne→== m y.node b) refl;
      same_size =
          length-set (set array p y) q x ∙ length-set array p y ∙ sym (length-set array p x);
    }

set-get : {A : Type 0} (xs : List A) (i : ℕ) (v : A) → get_elem? xs i ≡ some v → set xs i v ≡ xs
set-get [] i v e = refl
set-get (x ∷ xs) zero v e = ap (λ t. t ∷ xs) (sym (some-injective _ _ e))
set-get (x ∷ xs) (suc i) v e = ap (λ t. x ∷ t) (set-get xs i v e)

-- An item that is put back where it was taken.
pub place-back :
    (h : KHeap) (p : ℕ) (x : Item) → IsSound h → at h p ≡ some x → place h.array h.pos x p ≡ h
unfolding place IsSound set_pos
place-back h p x s e = λ i. record { array = set-get h.array p x e i; pos = λ m. same m i }
  where
    same : (m : ℕ) → (if m == x.node then some p else h.pos m) ≡ h.pos m
    same m = elim (Bool-cases (m == x.node)) [
      | inl w ↦ let v : m ≡ x.node = ground arith in rw w (sym (ap h.pos v ∙ s.0 p x e))
      | inr w ↦ rw w refl
    ]

pub length-place :
    (array : List Item) (pos : ℕ → Option ℕ) (x : Item) (p : ℕ)
    → length (place array pos x p).array ≡ length array
unfolding place
length-place array pos x p = length-set array p x
