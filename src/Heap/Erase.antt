-- ===== src/Heap/Erase.antt =====
-- erase(int) of td/utils/Heap.h, after the node at the place was removed.
use mathlib.Core.Option.{none-ne-some, some-injective}
use tdutils.Base.{
  ap, arith, Bool-cases, drop_last, false, get_elem?, get_elem?-lt, get_last?, if◌then◌else◌, inl,
  inr, length, length-drop_last, length-set, List, ne→==, none, Option, refl, set, some, suc, sym,
  true, zero, ℕ, [], ◌+◌, ◌<◌, ◌==◌, ◌∙◌, ◌∷◌, ◌≡◌, ◌≢◌, ◌≤◌,
}
use tdutils.Heap.Moves.{at, IsSound, key_of, same_node}
use tdutils.Heap.{Item, KHeap, parent, place, set_pos}
use tdutils.Heap.Contents.{key_of-removed, place-IsSound, WellFormed}
use tdutils.Heap.Up.{IsHeap, Ordered, parent-lt}
use tdutils.Heap.Insert.{false-true}
use tdutils.Heap.Down.{OrderedAbove}
use tdutils.Heap.Places.{at-other, at-place, length-place, set-other, set-same}

get_elem?-drop_last :
    {A : Type 0} (xs : List A) (i : ℕ)
    → i + 1 < length xs
    → get_elem? (drop_last xs) i ≡ get_elem? xs i
get_elem?-drop_last [] i h = absurd (omega arith)
get_elem?-drop_last (x ∷ []) i h = absurd (omega arith)
get_elem?-drop_last (x ∷ y ∷ xs) zero h = refl
get_elem?-drop_last (x ∷ y ∷ xs) (suc i) h = get_elem?-drop_last (y ∷ xs) i (omega arith)

pub get_last?-get_elem? :
    {A : Type 0} (xs : List A) (i : ℕ) (v : A)
    → i + 1 ≡ length xs
    → get_elem? xs i ≡ some v
    → get_last? xs ≡ some v
get_last?-get_elem? [] i v h e = cc
get_last?-get_elem? (x ∷ []) zero v h e = e
get_last?-get_elem? (x ∷ []) (suc i) v h e = absurd (omega arith)
get_last?-get_elem? (x ∷ y ∷ xs) zero v h e = absurd (omega arith)
get_last?-get_elem? (x ∷ y ∷ xs) (suc i) v h e = get_last?-get_elem? (y ∷ xs) i v (omega arith) e

-- The item `r` at `p` is to go, and `back` at `n` is the last item.
pub record Gap (h : KHeap) (p n : ℕ) (r back : Item) : Type 0 where
  pub size : length h.array ≡ suc n
  pub at_p : at h p ≡ some r
  pub at_n : at h n ≡ some back

module _ {k : ℕ} {h : KHeap} {p n : ℕ} {r back : Item} (valid : WellFormed k h)
    (gap : Gap h p n r back) where
  -- The array without its last place, which was copied to `p`.
  abbrev pub shorter : List Item
  shorter = drop_last (set h.array p back)

  abbrev pub freed : ℕ → Option ℕ
  freed = set_pos h.pos r.node none

  pub length-shorter : length shorter ≡ n
  length-shorter =
      omega (arith, gap.size, length-drop_last (set h.array p back), length-set h.array p back)

  pub kept : (i : ℕ) → i < n → i ≢ p → get_elem? shorter i ≡ at h i
  kept i l a =
      get_elem?-drop_last (set h.array p back) i
        (omega (arith, gap.size, length-set h.array p back))
      ∙ set-other h.array p i back (get_elem?-lt h.array p gap.at_p) (λ w. a (sym w))

  pub moved : p < n → get_elem? shorter p ≡ some back
  moved l =
      get_elem?-drop_last (set h.array p back) p
        (omega (arith, gap.size, length-set h.array p back))
      ∙ set-same h.array p back (get_elem?-lt h.array p gap.at_p)

  -- Two items of one node are at one place.
  pub same_place :
      (i j : ℕ) (z w : Item) → at h i ≡ some z → at h j ≡ some w → z.node ≡ w.node → i ≡ j
  unfolding IsSound
  same_place i j z w e f g =
      some-injective _ _ (sym (valid.sound.0 i z e) ∙ ap h.pos g ∙ valid.sound.0 j w f)

  pub freed_other : (m : ℕ) → m ≢ r.node → freed m ≡ h.pos m
  unfolding set_pos
  freed_other m a = rw (ne→== m r.node a) refl

  pub freed_held : (m i : ℕ) → freed m ≡ some i → (m ≢ r.node) × (h.pos m ≡ some i)
  unfolding set_pos
  freed_held m i e = elim (Bool-cases (m == r.node)) [
    | inl q ↦ absurd (none-ne-some _ (rw q at e))
    | inr q ↦ ((λ w. ground arith), rw q at e)
  ]

  -- Where the last item fills the place.
  abbrev pub filled : KHeap
  filled = place shorter freed back p

  module _ (l : p < n) where
    not_p : (i : ℕ) (z : Item) → at h i ≡ some z → i ≢ p → z.node ≢ r.node
    not_p i z e a w = a (same_place i p z r e gap.at_p w)

    not_n : (i : ℕ) (z : Item) → at h i ≡ some z → i ≢ n → z.node ≢ back.node
    not_n i z e a w = a (same_place i n z back e gap.at_n w)

    filled_other : (i : ℕ) → i < n → i ≢ p → at filled i ≡ at h i
    filled_other i b a =
        at-other shorter freed back p i (omega (arith, length-shorter)) (λ w. a (sym w))
        ∙ kept i b a

    pub length-filled : length filled.array ≡ n
    length-filled = length-place shorter freed back p ∙ length-shorter

    filled_p : at filled p ≡ some back
    filled_p = at-place shorter freed back p (omega (arith, length-shorter))

    pub filled-IsSound : IsSound filled
    unfolding IsSound
    filled-IsSound =
        place-IsSound shorter freed back p (omega (arith, length-shorter))
          (λ i z a e.
            let b : i < n = omega (arith, get_elem?-lt shorter i e, length-shorter) in
            let f = sym (kept i b a) ∙ e in
            (
              not_n i z f (λ w. omega arith),
              freed_other z.node (not_p i z f a) ∙ valid.sound.0 i z f,
            ))
          (λ m i a e.
            let (b, f) = freed_held m i e in
            let (z, g, w) = valid.sound.1 m i f in
            let i-p : i ≢ p = λ v. b (sym w ∙ same_node h.array g v gap.at_p) in
            let i-n : i ≢ n = λ v. a (sym w ∙ same_node h.array g v gap.at_n) in
            let i_size = get_elem?-lt h.array i g in
            let b : i < n = omega arith in (i-p, z, kept i b i-p ∙ g, w))

    pub filled-OrderedAbove : OrderedAbove false k filled p
    unfolding OrderedAbove Ordered IsHeap
    filled-OrderedAbove = (ordered, above)
      where
        ordered :
            (c : ℕ)
            → 0 < c
            → parent k c ≢ p
            → (c ≡ p → false ≡ true)
            → (u v : Item) → at filled (parent k c) ≡ some u
            → at filled c ≡ some v
            → u.key ≤ v.key
        ordered c lc a b u v e f =
            let up = parent-lt k c lc in
            let bound = get_elem?-lt filled.array c f in
            let c-p : c ≢ p = λ w. absurd (false-true (b w)) in
            valid.ordered c lc u v
              (sym (filled_other (parent k c) (omega (arith, length-filled)) a) ∙ e)
              (sym (filled_other c (omega (arith, length-filled)) c-p) ∙ f)

        above :
            (c : ℕ)
            → 0 < c
            → 0 < p
            → parent k c ≡ p
            → (u v : Item) → at filled (parent k p) ≡ some u
            → at filled c ≡ some v
            → u.key ≤ v.key
        above c lc lp w u v e f =
            let up = parent-lt k c lc in
            let up' = parent-lt k p lp in
            let bound = get_elem?-lt filled.array c f in
            let first =
              valid.ordered p lp u r
                (sym (filled_other (parent k p) (omega arith) (λ v. omega arith)) ∙ e) gap.at_p in
            let second =
              valid.ordered c lc r v (ap (at h) w ∙ gap.at_p)
                (sym (filled_other c (omega (arith, length-filled)) (λ v. omega arith)) ∙ f) in
            omega arith

    pub filled-key_of : (m : ℕ) → key_of filled m ≡ (if m == r.node then none else key_of h m)
    filled-key_of = key_of-removed h filled r.node valid.sound filled-IsSound from to
      where
        from :
            (i : ℕ) (z : Item)
            → at filled i ≡ some z
            → (z.node ≢ r.node) × (j : ℕ) × (at h j ≡ some z)
        from i z e = elim (Bool-cases (i == p)) [
          | inl q ↦
              let w : i ≡ p = ground arith in
              let v : back ≡ z = some-injective _ _ (sym filled_p ∙ ap (at filled) (sym w) ∙ e) in
              rw (← v) (not_p n back gap.at_n (λ w. omega arith), n, gap.at_n)
          | inr q ↦
              let a : i ≢ p = λ w. ground arith in
              let f =
                sym (filled_other i (omega (arith, get_elem?-lt filled.array i e, length-filled)) a)
                ∙ e in
              (not_p i z f a, i, f)
        ]

        to :
            (j : ℕ) (z : Item)
            → at h j ≡ some z
            → z.node ≢ r.node
            → (i : ℕ) × (at filled i ≡ some z)
        to j z e a =
            let j-p : j ≢ p = λ w. a (same_node h.array e w gap.at_p) in
            let bound = get_elem?-lt h.array j e in
            elim (Bool-cases (j == n)) [
              | inl q ↦
                  let w : n ≡ j = ground arith in (p, filled_p ∙ sym gap.at_n ∙ ap (at h) w ∙ e)
              | inr q ↦ (j, filled_other j (ground arith) j-p ∙ e)
            ]
