-- ===== src/Heap/Fix.antt =====
-- fix of td/utils/Heap.h, which gives a node another key.
use tdutils.Base.{
  ap, arith, Bool-cases, false, get_elem?-lt, if◌then◌else◌, inl, inr, length, length-set, ltb,
  Option-cases, set, some, sym, true, ℕ, ◌<◌, ◌==◌, ◌∙◌, ◌≡◌, ◌≢◌, ◌≤◌, ◌⊎◌,
}
use tdutils.Heap.Moves.{at, IsSound, key_of, key_of-at, key_of-none, same_key, same_node}
use tdutils.Heap.{fix, in_heap, Item, KHeap, parent}
use tdutils.Heap.Contents.{Settled-Updated, Updated, WellFormed}
use tdutils.Heap.Up.{fix_up-Settled, IsHeap, Ordered, OrderedBut, parent-lt}
use tdutils.Heap.Down.{OrderedAbove}
use tdutils.Heap.Insert.{false-true}
use tdutils.Heap.Sink.{fix_down-Settled, full}
use tdutils.Heap.Places.{set-other, set-same}

module _ {k : ℕ} {h : KHeap} {old : Item} (valid : WellFormed k h) (p key : ℕ)
    (at_p : at h p ≡ some old) where
  abbrev changed : KHeap
  changed = record h { array = set h.array p (record old { key = key }) }

  bound : p < length h.array
  bound = get_elem?-lt h.array p at_p

  changed_p : at changed p ≡ some (record old { key = key })
  changed_p = set-same h.array p (record old { key = key }) bound

  changed_other : (i : ℕ) → i ≢ p → at changed i ≡ at h i
  changed_other i a = set-other h.array p i (record old { key = key }) bound (λ w. a (sym w))

  changed-IsSound : IsSound changed
  unfolding IsSound
  changed-IsSound = (forth, back)
    where
      forth : (i : ℕ) (z : Item) → at changed i ≡ some z → h.pos z.node ≡ some i
      forth i z e = elim (Bool-cases (i == p)) [
        | inr q ↦ valid.sound.0 i z (sym (changed_other i (λ w. ground arith)) ∙ e)
        | inl q ↦
            let w : i ≡ p = ground arith in
            let v = same_node changed.array changed_p (sym w) e in
            ap h.pos (sym v) ∙ valid.sound.0 p old at_p ∙ ap some (sym w)
      ]

      back : (m i : ℕ) → h.pos m ≡ some i → (z : Item) × (at changed i ≡ some z) × (z.node ≡ m)
      back m i e =
          let (z, a, w) = valid.sound.1 m i e in
          elim (Bool-cases (i == p)) [
            | inr q ↦ (z, changed_other i (λ v. ground arith) ∙ a, w)
            | inl q ↦
                let v : i ≡ p = ground arith in
                let s = same_node h.array at_p (sym v) a in
                (record old { key = key }, ap (at changed) v ∙ changed_p, s ∙ w)
          ]

  changed-key_of : (m : ℕ) → key_of changed m ≡ (if m == old.node then some key else key_of h m)
  unfolding IsSound
  changed-key_of m = elim (Bool-cases (m == old.node)) [
    | inl q ↦
        let w : m ≡ old.node = ground arith in
        rw q (
          key_of-at changed m p (record old { key = key }) (ap h.pos w ∙ valid.sound.0 p old at_p)
            changed_p)
    | inr q ↦ rw q (elim (Option-cases (h.pos m)) [
      | inl e ↦ key_of-none changed m e ∙ sym (key_of-none h m e)
      | inr (i, e) ↦
          let (z, a, w) = valid.sound.1 m i e in
          let apart : m ≢ old.node = λ s. ground arith in
          let i-p : i ≢ p = λ v. apart (sym w ∙ same_node h.array a v at_p) in
          key_of-at changed m i z e (changed_other i i-p ∙ a) ∙ sym (key_of-at h m i z e a)
    ])
  ]

  -- What a place held before: the same item, or the old key at `p`.
  before_at :
      (i : ℕ) (u : Item)
      → at changed i ≡ some u
      → ((i ≡ p) × (u.key ≡ key)) ⊎ ((i ≢ p) × (at h i ≡ some u))
  before_at i u e = elim (Bool-cases (i == p)) [
    | inr q ↦ inr ((λ w. ground arith), sym (changed_other i (λ w. ground arith)) ∙ e)
    | inl q ↦ let w : i ≡ p = ground arith in inl (w, same_key changed.array e w changed_p)
  ]

  changed_above :
      (c : ℕ)
      → 0 < c
      → 0 < p
      → parent k c ≡ p
      → (u v : Item) → at changed (parent k p) ≡ some u
      → at changed c ≡ some v
      → u.key ≤ v.key
  unfolding IsHeap Ordered
  changed_above c lc lp w u v e f =
      let up = parent-lt k p lp in
      let up' = parent-lt k c lc in
      let first =
        valid.ordered p lp u old (sym (changed_other (parent k p) (λ s. omega arith)) ∙ e) at_p in
      let second =
        valid.ordered c lc old v (ap (at h) w ∙ at_p)
          (sym (changed_other c (λ s. omega arith)) ∙ f) in
      omega arith

  lowered : key ≤ old.key → OrderedBut false k changed p
  unfolding OrderedBut Ordered IsHeap
  lowered le = (ordered, changed_above)
    where
      ordered :
          (c : ℕ)
          → 0 < c
          → (c ≡ p → false ≡ true)
          → (u v : Item) → at changed (parent k c) ≡ some u
          → at changed c ≡ some v
          → u.key ≤ v.key
      ordered c lc a u v e f =
          let b = sym (changed_other c (λ w. absurd (false-true (a w)))) ∙ f in
          elim (before_at (parent k c) u e) [
            | inl (w, ku) ↦ omega (arith, valid.ordered c lc old v (ap (at h) w ∙ at_p) b)
            | inr (_, g) ↦ valid.ordered c lc u v g b
          ]

  raised : old.key ≤ key → OrderedAbove true k changed p
  unfolding OrderedAbove Ordered IsHeap
  raised le = (ordered, changed_above)
    where
      ordered :
          (c : ℕ)
          → 0 < c
          → parent k c ≢ p
          → (c ≡ p → true ≡ true)
          → (u v : Item) → at changed (parent k c) ≡ some u
          → at changed c ≡ some v
          → u.key ≤ v.key
      ordered c lc a _ u v e f =
          let b = sym (changed_other (parent k c) a) ∙ e in
          elim (before_at c v f) [
            | inl (w, kv) ↦ omega (arith, valid.ordered c lc u old b (ap (at h) w ∙ at_p))
            | inr (_, g) ↦ valid.ordered c lc u v b g
          ]

-- fix of a node that is in the heap returns a valid heap in which it has the new key and the other
-- nodes have theirs.
pub fix_correct :
    (k : ℕ) (h : KHeap) (key node : ℕ)
    → 0 < k
    → WellFormed k h
    → in_heap h node ≡ true
    → Updated k
        (λ m. if m == node then some key else key_of h m)
        (length h.array)
        (fix k h key node)
unfolding fix in_heap IsSound
fix_correct k h key node lk valid present = elim (Option-cases (h.pos node)) [
  | inl e ↦ let f = rw (in_heap, e) at present in cc
  | inr (p, e) ↦
      let (old, at_p, w) = valid.sound.1 node p e in
      let l = get_elem?-lt h.array p at_p in
      let g = changed valid p key at_p in
      let sound = changed-IsSound valid p key at_p in
      let size = length-set h.array p (record old { key = key }) in
      let keys = changed-key_of valid p key at_p in
      elim (Bool-cases (ltb key old.key)) [
        | inl less ↦
            rw (e, at_p, less, fix, ← w)
              (Settled-Updated k _ _
                (fix_up-Settled k g p (omega (arith, size)) sound
                  (lowered valid p key at_p (ground arith)))
                keys size)
        | inr more ↦
            rw (e, at_p, more, fix, ← w)
              (Settled-Updated k _ _
                (full k p (
                  fix_down-Settled k true g p lk (omega (arith, size)) sound
                    (raised valid p key at_p (ground arith))))
                keys size)
      ]
]
