-- ===== src/Heap/Down.antt =====
-- fix_down of td/utils/Heap.h.
use native.Mathlib.Nat.{add-mul, div-eq_of_lt-le, div-mul-le_self, lt-div-mul-add}
use mathlib.Core.Option.{some-injective}
use tdutils.Base.{
  ap, arith, Bool, Bool-cases, get_elem?, get_elem?-some, inl, inr, length, List, ltb, Option, refl,
  set, some, suc, sym, true, zero, ℕ, ◌*◌, ◌+◌, ◌-◌, ◌<◌, ◌==◌, ◌∙◌, ◌≡◌, ◌≢◌, ◌≤◌, ◌⊎◌,
}
use tdutils.Heap.{Item, KHeap, least_child, parent, place}
use tdutils.Heap.Moves.{at, Exchange, Exchange-at, same_key}
use tdutils.Heap.Up.{IsHeap, Ordered, OrderedBut, parent-lt}
use tdutils.Heap.Places.{set-other, set-same}

-- What the search among the children from `i` answers: the position `m` of the least key.
unfoldable pub IsLeast : List Item → ℕ → ℕ → ℕ → ℕ → ℕ → Type 0
IsLeast array n i next_pos next_key m =
    (least : ℕ) × (least ≤ next_key)
    × ((j : ℕ) (z : Item) → i ≤ j → j < i + n → get_elem? array j ≡ some z → least ≤ z.key)
    × (((m ≡ next_pos) × (least ≡ next_key))
        ⊎ ((i ≤ m) × (m < i + n) × (y : Item) × (get_elem? array m ≡ some y) × (y.key ≡ least)))

widen :
    (array : List Item) (n i next_pos next_key pos' key' m : ℕ) (child : Item)
    → get_elem? array i ≡ some child
    → key' ≤ child.key
    → key' ≤ next_key
    → ((pos' ≡ next_pos) × (key' ≡ next_key)) ⊎ ((pos' ≡ i) × (key' ≡ child.key))
    → IsLeast array n (i + 1) pos' key' m
    → IsLeast array (suc n) i next_pos next_key m
unfolding IsLeast
widen array n i next_pos next_key pos' key' m child e le le' w (least, a, b, c) =
    (least, omega arith, below, where_)
  where
    below : (j : ℕ) (z : Item) → i ≤ j → j < i + suc n → get_elem? array j ≡ some z → least ≤ z.key
    below j z l l' f = elim (Bool-cases (j == i)) [
      | inl q ↦ let v : i ≡ j = ground arith in let kz = same_key array e v f in omega arith
      | inr q ↦ b j z (ground arith) (omega arith) f
    ]

    where_ :
        ((m ≡ next_pos) × (least ≡ next_key))
        ⊎ ((i ≤ m) × (m < i + suc n) × (y : Item) × (get_elem? array m ≡ some y) × (y.key ≡ least))
    where_ = elim c [
      | inr (l, l', y, f, g) ↦ inr (omega arith, omega arith, y, f, g)
      | inl (f, g) ↦ elim w [
        | inl (f', g') ↦ inl (f ∙ f', g ∙ g')
        | inr (f', g') ↦
            inr (omega arith, omega arith, child, ap (get_elem? array) (f ∙ f') ∙ e, sym (g ∙ g'))
      ]
    ]

pub least_child-IsLeast :
    (n : ℕ) (array : List Item) (i next_pos next_key : ℕ)
    → n ≤ length array - i
    → (m : ℕ) × (least_child n array i next_pos next_key ≡ some m)
      × IsLeast array n i next_pos next_key m
unfolding least_child IsLeast
least_child-IsLeast zero array i next_pos next_key l =
    (next_pos, refl, (next_key, omega arith, λ j z a b. absurd (omega arith), inl (refl, refl)))
least_child-IsLeast (suc n) array i next_pos next_key l =
    let (child, e) = get_elem?-some array i (omega arith) in
    elim (Bool-cases (ltb child.key next_key)) [
      | inl less ↦
          let (m, f, t) = least_child-IsLeast n array (i + 1) i child.key (omega arith) in
          (
            m,
            rw (e, less, least_child) f,
            widen array n i next_pos next_key i child.key m child e (omega arith) (ground arith)
                (inr (refl, refl)) t,
          )
      | inr more ↦
          let (m, f, t) = least_child-IsLeast n array (i + 1) next_pos next_key (omega arith) in
          (
            m,
            rw (e, more, least_child) f,
            widen array n i next_pos next_key next_pos next_key m child e (ground arith)
                (omega arith) (inl (refl, refl)) t,
          )
    ]

-- The children of a place.
pub child_range :
    (k c p : ℕ) → 0 < k → 0 < c → parent k c ≡ p → (p * k + 1 ≤ c) × (c < p * k + 1 + k)
unfolding parent
child_range k c p lk lc e =
    let a : p * k ≤ c - 1 = rw (← e) (div-mul-le_self (c - 1) k) in
    let b : c - 1 < p * k + k = rw (← e) (lt-div-mul-add {a = c - 1} {b = k} lk) in
    (omega arith, omega arith)

pub parent_of_child : (k c p : ℕ) → p * k + 1 ≤ c → c < p * k + 1 + k → parent k c ≡ p
unfolding parent
parent_of_child k c p l l' = div-eq_of_lt-le k (omega arith) (omega (arith, add-mul p 1 k))

-- The heap order but for the children of `p`, and at `p` only where `whole` is true; the children of
-- `p` against its parent.
unfoldable pub OrderedAbove : Bool → ℕ → KHeap → ℕ → Type 0
OrderedAbove whole k h p =
    ((c : ℕ) → 0 < c → parent k c ≢ p → (c ≡ p → whole ≡ true) → Ordered k h c)
    × ((c : ℕ)
        → 0 < c
        → 0 < p
        → parent k c ≡ p
        → (x y : Item) → at h (parent k p) ≡ some x
        → at h c ≡ some y
        → x.key ≤ y.key)

-- Lowering an item below its least child leaves the order open below that place only.
module _ (k : ℕ) (whole : Bool) {h h' : KHeap} {p c : ℕ} {x y : Item} (child : parent k c ≡ p)
    (lc : 0 < c) (e : Exchange h h' p c x y) (le : y.key ≤ x.key)
    (least : (d : ℕ) → 0 < d → parent k d ≡ p → (z : Item) → at h d ≡ some z → y.key ≤ z.key)
    (loose : OrderedAbove whole k h p) where
  sink-Ordered : (d : ℕ) → 0 < d → parent k d ≢ c → (d ≡ c → true ≡ true) → Ordered k h' d
  unfolding OrderedAbove Ordered
  sink-Ordered d ld n _ u v a b = elim (Exchange-at e d v b) [
    | inl (w, kv) ↦
        let lp : 0 < p = omega arith in
        let up = parent-lt k p lp in
        let down = parent-lt k c lc in
        let ah : at h (parent k p) ≡ some u =
          sym (e.others (parent k p) (λ s. omega arith) (λ s. omega arith))
          ∙ ap (λ i. at h' (parent k i)) (sym w)
          ∙ a in
        omega (arith, loose.1 c lc lp child u y ah e.at_q)
    | inr (inl (w, kv)) ↦
        let ku =
          ap (λ (z : Item). z.key)
            (some-injective _ _
              (sym a ∙ ap (λ i. at h' (parent k i)) w ∙ ap (at h') child ∙ e.to_p)) in
        omega arith
    | inr (inr (d-p, d-c, bh)) ↦ elim (Exchange-at e (parent k d) u a) [
      | inl (w, ku) ↦ omega (arith, least d ld w v bh)
      | inr (inl (w, ku)) ↦ absurd (n w)
      | inr (inr (m, _, ah)) ↦ loose.0 d ld m (λ s. absurd (d-p s)) u v ah bh
    ]
  ]

  sink_above :
      (d : ℕ)
      → 0 < d
      → 0 < c
      → parent k d ≡ c
      → (u v : Item) → at h' (parent k c) ≡ some u
      → at h' d ≡ some v
      → u.key ≤ v.key
  unfolding OrderedAbove Ordered
  sink_above d ld _ w u v a b =
      let ku = same_key h'.array a child e.to_p in
      let down = parent-lt k c lc in
      let down' = parent-lt k d ld in
      elim (Exchange-at e d v b) [
        | inl (s, kv) ↦ absurd (omega arith)
        | inr (inl (s, kv)) ↦ absurd (omega arith)
        | inr (inr (d-p, d-c, bh)) ↦ omega (
          arith,
          loose.0 d ld (λ s. omega arith) (λ s. absurd (d-p s)) y v (ap (at h) w ∙ e.at_q) bh,
        )
      ]

  pub sink : OrderedAbove true k h' c
  unfolding OrderedAbove
  sink = (sink-Ordered, sink_above)

-- In a heap the order holds against the parent's parent as well.
pub IsHeap-OrderedBut :
    (whole : Bool) (k : ℕ) (h : KHeap) (p : ℕ)
    → p < length h.array
    → IsHeap k h
    → OrderedBut whole k h p
unfolding IsHeap OrderedBut Ordered
IsHeap-OrderedBut whole k h p l o = (
  λ c lc _. o c lc,
  λ c lc lp w u v a b.
      let (y, e) = get_elem?-some h.array p l in
      omega (arith, o p lp u y a e, o c lc y v (ap (at h) w ∙ e) b),
)

pub OrderedBut-IsHeap : (k : ℕ) (h : KHeap) (p : ℕ) → OrderedBut true k h p → IsHeap k h
unfolding IsHeap OrderedBut
OrderedBut-IsHeap k h p o c lc = o.0 c lc (λ _. refl)

-- The order below a place that is no child's.
pub rest_ordered :
    (whole : Bool) (k : ℕ) (array : List Item) (pos : ℕ → Option ℕ) (x : Item) (p : ℕ)
    → p < length array
    → ((c : ℕ) → 0 < c → parent k c ≡ p → (z : Item) → get_elem? array c ≡ some z → x.key ≤ z.key)
    → OrderedAbove whole k (place array pos x p) p
    → OrderedBut whole k (place array pos x p) p
unfolding OrderedAbove OrderedBut Ordered place
rest_ordered whole k array pos x p l below o = (ordered, o.1)
  where
    ordered :
        (c : ℕ)
        → 0 < c
        → (c ≡ p → whole ≡ true)
        → (u v : Item) → get_elem? (set array p x) (parent k c) ≡ some u
        → get_elem? (set array p x) c ≡ some v
        → u.key ≤ v.key
    ordered c lc n u v a b = elim (Bool-cases (parent k c == p)) [
      | inr q ↦ o.0 c lc (λ w. ground arith) n u v a b
      | inl q ↦
          let w : parent k c ≡ p = ground arith in
          let down = parent-lt k c lc in
          let ku = same_key (set array p x) a w (set-same array p x l) in
          omega (arith, below c lc w v (sym (set-other array p c x l (λ s. omega arith)) ∙ b))
    ]
