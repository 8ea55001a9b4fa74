-- ===== src/VectorQueue/Readers.antt =====
-- The readers of VectorQueue (td/utils/VectorQueue.h).
use tdutils.Base.{
  ap, arith, get_elem?, get_last?, inl, inr, length, List, refl, sym, [], ◌+◌, ◌-◌, ◌==◌, ◌∙◌, ◌∷◌,
  ◌≡◌, ◌⊎◌,
}
use tdutils.Base.Slices.{get_last?-drop, take_all}
use tdutils.VectorQueue.{as_span, back, empty, front, size, VectorQueue}
use tdutils.VectorQueue.Contents.{get_elem?-rest, Implements, length-rest}

module _ {ℓ} {T : Type ℓ} where
  back_lem :
      (q : VectorQueue T) (xs : List T) → Implements q xs → (xs ≡ []) ⊎ (back q ≡ get_last? xs)
  unfolding back
  back_lem q [] i = inl refl
  back_lem q (x ∷ xs) i = inr (
      sym (get_last?-drop q.vector q.read_pos (omega (arith, length-rest q (x ∷ xs) i)))
      ∙ ap get_last? i.rest)

  -- The readers answer from the list that the queue stands for: size, empty, front, the span of the
  -- elements, and back where there is one.
  readers_correct :
      (q : VectorQueue T) (xs : List T)
      → Implements q xs
      → (size q ≡ length xs)
        × (empty q ≡ (length xs == 0))
        × (front q ≡ get_elem? xs 0)
        × (as_span q ≡ xs)
        × ((xs ≡ []) ⊎ (back q ≡ get_last? xs))
  unfolding size empty front as_span
  readers_correct q xs i =
      let n = sym (length-rest q xs i) in
      (
        n,
        ap (λ k. k == 0) n,
        ap (get_elem? q.vector) {x = q.read_pos} {y = q.read_pos + 0} (omega arith)
            ∙ get_elem?-rest q xs 0 i,
        rw (i.rest) (take_all (length q.vector - q.read_pos) xs (omega arith)),
        back_lem q xs i,
      )
