-- ===== src/Heap/Moves.antt =====
-- One round of the loops of td/utils/Heap.h, seen as an exchange of two items: the saved item stands,
-- in thought, at the place that is left.
use mathlib.Core.Option.{some-injective}
use tdutils.Base.{
  ap, arith, Bool-cases, get_elem?, inl, inr, length, List, none, Option, Option-cases, refl, some,
  sym, ℕ, ◌==◌, ◌∙◌, ◌≡◌, ◌≢◌, ◌⊎◌,
}
use tdutils.Heap.{Item, KHeap}

abbrev pub at : KHeap → ℕ → Option Item
at h i = get_elem? h.array i

-- The nodes know their places, and a place that a node knows is its own.
unfoldable pub IsSound : KHeap → Type 0
IsSound h =
    ((i : ℕ) (x : Item) → at h i ≡ some x → h.pos x.node ≡ some i)
    × ((m i : ℕ) → h.pos m ≡ some i → (x : Item) × (at h i ≡ some x) × (x.node ≡ m))

-- The heap as a map from nodes to keys.
abbrev pub key_in : Option Item → Option ℕ
key_in none = none
key_in (some x) = some x.key

unfoldable pub key_of : KHeap → ℕ → Option ℕ
key_of h m = elim (h.pos m) [ none ↦ none | some i ↦ key_in (at h i) ]

-- One place holds one item.
pub same_key :
    (xs : List Item) {i j : ℕ} {u v : Item}
    → get_elem? xs i ≡ some u
    → i ≡ j
    → get_elem? xs j ≡ some v
    → u.key ≡ v.key
same_key xs e w f = ap (λ (z : Item). z.key) (some-injective _ _ (sym e ∙ ap (get_elem? xs) w ∙ f))

pub same_node :
    (xs : List Item) {i j : ℕ} {u v : Item}
    → get_elem? xs i ≡ some u
    → i ≡ j
    → get_elem? xs j ≡ some v
    → u.node ≡ v.node
same_node xs e w f =
    ap (λ (z : Item). z.node) (some-injective _ _ (sym e ∙ ap (get_elem? xs) w ∙ f))

pub record Exchange (h h' : KHeap) (p q : ℕ) (x y : Item) : Type 0 where
  pub apart : p ≢ q
  pub at_p : at h p ≡ some x
  pub at_q : at h q ≡ some y
  pub to_p : at h' p ≡ some y
  pub to_q : at h' q ≡ some x
  pub others : (i : ℕ) → i ≢ p → i ≢ q → at h' i ≡ at h i
  pub pos_x : h'.pos x.node ≡ some q
  pub pos_y : h'.pos y.node ≡ some p
  pub pos_others : (m : ℕ) → m ≢ x.node → m ≢ y.node → h'.pos m ≡ h.pos m
  pub same_size : length h'.array ≡ length h.array

-- A place of the new heap: one of the two, or where nothing changed.
split_at_two : (i p q : ℕ) → (i ≡ p) ⊎ ((i ≡ q) ⊎ ((i ≢ p) × (i ≢ q)))
split_at_two i p q = elim (Bool-cases (i == p)) [
  | inl e ↦ inl (ground arith)
  | inr e ↦ elim (Bool-cases (i == q)) [
    | inl f ↦ inr (inl (ground arith))
    | inr f ↦ inr (inr (ground arith, ground arith))
  ]
]

pub key_of-at :
    (h : KHeap) (m i : ℕ) (z : Item) → h.pos m ≡ some i → at h i ≡ some z → key_of h m ≡ some z.key
unfolding key_of
key_of-at h m i z e f = rw (e, key_of, f) refl

pub key_of-none : (h : KHeap) (m : ℕ) → h.pos m ≡ none → key_of h m ≡ none
unfolding key_of
key_of-none h m e = rw (e, key_of) refl

module _ {h h' : KHeap} {p q : ℕ} {x y : Item} (good : IsSound h) (e : Exchange h h' p q x y) where
  node_elsewhere :
      (i : ℕ) (z : Item) → at h i ≡ some z → i ≢ p → i ≢ q → (z.node ≢ x.node) × (z.node ≢ y.node)
  unfolding IsSound
  node_elsewhere i z a n m =
      let ez = good.0 i z a in
      let ex = good.0 p x e.at_p in
      let ey = good.0 q y e.at_q in
      (
        λ w. n (some-injective _ _ (sym ez ∙ ap h.pos w ∙ ex)),
        λ w. m (some-injective _ _ (sym ez ∙ ap h.pos w ∙ ey)),
      )

  pub Exchange-IsSound : IsSound h'
  unfolding IsSound
  Exchange-IsSound = (forth, back)
    where
      forth : (i : ℕ) (z : Item) → at h' i ≡ some z → h'.pos z.node ≡ some i
      forth i z a = elim (split_at_two i p q) [
        | inl w ↦
            let v : y ≡ z = some-injective _ _ (sym e.to_p ∙ ap (at h') (sym w) ∙ a) in
            ap (λ (z : Item). h'.pos z.node) (sym v) ∙ e.pos_y ∙ ap some (sym w)
        | inr (inl w) ↦
            let v : x ≡ z = some-injective _ _ (sym e.to_q ∙ ap (at h') (sym w) ∙ a) in
            ap (λ (z : Item). h'.pos z.node) (sym v) ∙ e.pos_x ∙ ap some (sym w)
        | inr (inr (n, m)) ↦
            let a' = sym (e.others i n m) ∙ a in
            let (s, t) = node_elsewhere i z a' n m in e.pos_others z.node s t ∙ good.0 i z a'
      ]

      back : (m i : ℕ) → h'.pos m ≡ some i → (z : Item) × (at h' i ≡ some z) × (z.node ≡ m)
      back m i a = elim (split_at_two m x.node y.node) [
        | inl w ↦
            let v : q ≡ i = some-injective _ _ (sym e.pos_x ∙ ap h'.pos (sym w) ∙ a) in
            (x, ap (at h') (sym v) ∙ e.to_q, sym w)
        | inr (inl w) ↦
            let v : p ≡ i = some-injective _ _ (sym e.pos_y ∙ ap h'.pos (sym w) ∙ a) in
            (y, ap (at h') (sym v) ∙ e.to_p, sym w)
        | inr (inr (n, n')) ↦
            let (z, b, c) = good.1 m i (sym (e.pos_others m n n') ∙ a) in
            let i-p : i ≢ p = λ w. n (sym c ∙ same_node h.array b w e.at_p) in
            let i-q : i ≢ q = λ w. n' (sym c ∙ same_node h.array b w e.at_q) in
            (z, e.others i i-p i-q ∙ b, c)
      ]

  pub Exchange-key_of : (m : ℕ) → key_of h' m ≡ key_of h m
  unfolding IsSound
  Exchange-key_of m = elim (split_at_two m x.node y.node) [
    | inl w ↦
        ap (key_of h') w
        ∙ key_of-at h' x.node q x e.pos_x e.to_q
        ∙ sym (key_of-at h x.node p x (good.0 p x e.at_p) e.at_p)
        ∙ ap (key_of h) (sym w)
    | inr (inl w) ↦
        ap (key_of h') w
        ∙ key_of-at h' y.node p y e.pos_y e.to_p
        ∙ sym (key_of-at h y.node q y (good.0 q y e.at_q) e.at_q)
        ∙ ap (key_of h) (sym w)
    | inr (inr (n, n')) ↦ elim (Option-cases (h.pos m)) [
      | inl a ↦ key_of-none h' m (e.pos_others m n n' ∙ a) ∙ sym (key_of-none h m a)
      | inr (i, a) ↦
          let (z, b, c) = good.1 m i a in
          let i-p : i ≢ p = λ w. n (sym c ∙ same_node h.array b w e.at_p) in
          let i-q : i ≢ q = λ w. n' (sym c ∙ same_node h.array b w e.at_q) in
          key_of-at h' m i z (e.pos_others m n n' ∙ a) (e.others i i-p i-q ∙ b)
          ∙ sym (key_of-at h m i z a b)
    ]
  ]

-- What a place holds after an exchange.
pub Exchange-at :
    {h h' : KHeap} {p q : ℕ} {x y : Item}
    → Exchange h h' p q x y
    → (i : ℕ) (u : Item) → at h' i ≡ some u
    → ((i ≡ p) × (u.key ≡ y.key))
      ⊎ (((i ≡ q) × (u.key ≡ x.key)) ⊎ ((i ≢ p) × (i ≢ q) × (at h i ≡ some u)))
Exchange-at {h} {h'} {p} {q} {x} {y} e i u a = elim (split_at_two i p q) [
  | inl w ↦ inl (w, same_key h'.array a w e.to_p)
  | inr (inl w) ↦ inr (inl (w, same_key h'.array a w e.to_q))
  | inr (inr (n, m)) ↦ inr (inr (n, m, sym (e.others i n m) ∙ a))
]
