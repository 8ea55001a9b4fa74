-- ===== src/VectorQueue/Contents.antt =====
-- VectorQueue (td/utils/VectorQueue.h) against a list whose head is the front of the queue.
use tdutils.Base.{
  ap, arith, Bool-cases, drop, get_elem?, get_elem?-drop, inl, inr, length, length-append,
  length-drop, List, ltb, refl, some, sym, ℕ, [], ◌&&◌, ◌*◌, ◌++◌, ◌+◌, ◌-◌, ◌∙◌, ◌∷◌, ◌≡◌, ◌≤◌,
}
use tdutils.Base.Slices.{drop-append, drop-drop}
use tdutils.VectorQueue.{pop, pop_n, push, read_next, try_shrink, VectorQueue}

module _ {ℓ} {T : Type ℓ} where
  -- The queue stands for a list: what is left from `read_pos` on, which does not pass the end.
  pub record Implements (q : VectorQueue T) (xs : List T) : Type ℓ where
    pub rest : drop q.read_pos q.vector ≡ xs
    pub in_range : q.read_pos ≤ length q.vector

  -- What try_shrink is for: the consumed part is never much larger than the rest.
  abbrev pub IsCompact : VectorQueue T → Type 0
  IsCompact q = q.read_pos ≤ length q.vector - q.read_pos + 6

  data Shrunk (q : VectorQueue T) : VectorQueue T → Type ℓ where
    kept : q.read_pos ≤ length q.vector - q.read_pos + 4 → Shrunk q q
    cut : Shrunk q (record { vector = drop q.read_pos q.vector; read_pos = 0 })

  try_shrink-Shrunk : (q : VectorQueue T) → Shrunk q (try_shrink q)
  unfolding try_shrink
  try_shrink-Shrunk q =
      elim (Bool-cases (ltb (length q.vector) (q.read_pos * 2) && ltb 4 q.read_pos)) [
        | inl e ↦ rw e cut
        | inr e ↦ rw e (kept (ground arith))
      ]

  Shrunk-Implements :
      {q r : VectorQueue T} (xs : List T)
      → Shrunk q r
      → Implements q xs
      → Implements r xs × (r.read_pos ≤ length r.vector - r.read_pos + 4)
  Shrunk-Implements xs (kept h) i = (i, h)
  Shrunk-Implements xs cut i = (record { rest = i.rest; in_range = omega arith }, omega arith)

  -- try_shrink changes the representation only, and leaves it compact.
  pub try_shrink_lem :
      (q : VectorQueue T) (xs : List T)
      → Implements q xs
      → Implements (try_shrink q) xs
        × ((try_shrink q).read_pos ≤ length (try_shrink q).vector - (try_shrink q).read_pos + 4)
  try_shrink_lem q xs i = Shrunk-Implements xs (try_shrink-Shrunk q) i

  pub push_lem :
      (q : VectorQueue T) (xs : List T) (s : T)
      → Implements q xs
      → IsCompact q
      → Implements (push q s) (xs ++ s ∷ []) × IsCompact (push q s)
  unfolding push
  push_lem q xs s i c = (
    record {
      rest = drop-append q.vector (s ∷ []) q.read_pos i.in_range ∙ ap (λ t. t ++ s ∷ []) i.rest;
      in_range = omega (arith, i.in_range, length-append q.vector (s ∷ []));
    },
    omega (arith, c, length-append q.vector (s ∷ [])),
  )

  pub length-rest :
      (q : VectorQueue T) (xs : List T) → Implements q xs → length xs ≡ length q.vector - q.read_pos
  length-rest q xs i = sym (ap length i.rest) ∙ length-drop q.read_pos q.vector

  pub get_elem?-rest :
      (q : VectorQueue T) (xs : List T) (n : ℕ)
      → Implements q xs
      → get_elem? q.vector (q.read_pos + n) ≡ get_elem? xs n
  get_elem?-rest q xs n i =
      sym (get_elem?-drop q.read_pos q.vector n) ∙ ap (λ t. get_elem? t n) i.rest

  at_front :
      (q : VectorQueue T) (x : T) (xs : List T)
      → Implements q (x ∷ xs)
      → get_elem? q.vector q.read_pos ≡ some x
  at_front q x xs i =
      ap (get_elem? q.vector) {x = q.read_pos} {y = q.read_pos + 0} (omega arith)
      ∙ get_elem?-rest q (x ∷ xs) 0 i

  read_next_lem :
      (q : VectorQueue T) (x : T) (xs : List T)
      → Implements q (x ∷ xs)
      → q.read_pos ≤ length q.vector - q.read_pos + 4
      → (q' : VectorQueue T) × (read_next q ≡ some (x, q')) × Implements q' xs × IsCompact q'
  unfolding read_next
  read_next_lem q x xs i c = (
    record q { read_pos = q.read_pos + 1 },
    rw (at_front q x xs i, read_next) refl,
    record {
      rest = sym (drop-drop q.read_pos 1 q.vector) ∙ ap (drop 1) i.rest;
      in_range = omega (arith, length-rest q (x ∷ xs) i);
    },
    omega (arith, c, length-rest q (x ∷ xs) i),
  )

  pub pop_lem :
      (q : VectorQueue T) (x : T) (xs : List T)
      → Implements q (x ∷ xs)
      → (q' : VectorQueue T) × (pop q ≡ some (x, q')) × Implements q' xs × IsCompact q'
  unfolding pop
  pop_lem q x xs i =
      let (j, c) = try_shrink_lem q (x ∷ xs) i in read_next_lem (try_shrink q) x xs j c

  pub pop_n_lem :
      (q : VectorQueue T) (xs : List T) (n : ℕ)
      → Implements q xs
      → n ≤ length xs
      → Implements (pop_n q n) (drop n xs) × IsCompact (pop_n q n)
  unfolding pop_n
  pop_n_lem q xs n i h =
      let moved = record q { read_pos = q.read_pos + n } in
      let (j, c) = try_shrink_lem moved (drop n xs) (record {
        rest = sym (drop-drop q.read_pos n q.vector) ∙ ap (drop n) i.rest;
        in_range = omega (arith, length-rest q xs i, i.in_range);
      }) in
      (j, omega (arith, c))
