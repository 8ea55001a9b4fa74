-- ===== src/VectorQueue/Refinement.antt =====
-- Sequences of calls on a VectorQueue (td/utils/VectorQueue.h) and on a list.
use mathlib.Core.Path.{subst}
use mathlib.Core.Option.{some-injective}
use tdutils.Base.{
  ap, Bool-cases, drop, if◌then◌else◌, inl, inr, leb, leb→le, length, List, none, Option, some, ℕ,
  [], ◌++◌, ◌∷◌, ◌≡◌,
}
use tdutils.VectorQueue.{pop, pop_n, push, VectorQueue}
use tdutils.VectorQueue.Contents.{Implements, IsCompact, pop_lem, pop_n_lem, push_lem}

-- The calls that change the queue.
pub data Call {ℓ} (T : Type ℓ) : Type ℓ where
  push_call : T → Call T
  pop_call : Call T
  pop_n_call : ℕ → Call T

module _ {ℓ} {T : Type ℓ} where
  -- What a call answers and leaves, on the queue and on a list.
  unfoldable pub queue_call : Call T → VectorQueue T → Option (List T × VectorQueue T)
  queue_call (push_call s) q = some ([], push q s)
  queue_call pop_call q = elim (pop q) [ none ↦ none | some (x, q') ↦ some (x ∷ [], q') ]
  queue_call (pop_n_call n) q = some ([], pop_n q n)

  unfoldable pub list_call : Call T → List T → Option (List T × List T)
  list_call (push_call s) xs = some ([], xs ++ s ∷ [])
  list_call pop_call [] = none
  list_call pop_call (x ∷ xs) = some (x ∷ [], xs)
  list_call (pop_n_call n) xs = if leb n (length xs) then some ([], drop n xs) else none

  -- A call and the calls after it, with the answers of both.
  abbrev and_then {κ} :
      {S : Type κ} → Option (List T × S) → (S → Option (List T × S)) → Option (List T × S)
  and_then none next = none
  and_then (some (out, s)) next = elim (next s) [
    | none ↦ none
    | some (more, s') ↦ some (out ++ more, s')
  ]

  unfoldable pub run {κ} :
      {S : Type κ} → (Call T → S → Option (List T × S)) → List (Call T) → S → Option (List T × S)
  run step [] s = some ([], s)
  run step (c ∷ cs) s = and_then (step c s) (run step cs)

  -- The queue answers as the list does, wherever the list answers.
  data Agrees : Option (List T × VectorQueue T) → Option (List T × List T) → Type ℓ where
    refused : {r : Option (List T × VectorQueue T)} → Agrees r none
    agreed :
        {out ys : List T} {q : VectorQueue T}
        → Implements q ys
        → IsCompact q
        → Agrees (some (out, q)) (some (out, ys))

  call_refines :
      (c : Call T) (q : VectorQueue T) (xs : List T)
      → Implements q xs
      → IsCompact q
      → Agrees (queue_call c q) (list_call c xs)
  unfolding queue_call list_call
  call_refines (push_call s) q xs i c = let (j, d) = push_lem q xs s i c in agreed j d
  call_refines pop_call q [] i c = refused
  call_refines pop_call q (x ∷ xs) i c =
      let (q', e, j, d) = pop_lem q x xs i in rw (e, queue_call) (agreed j d)
  call_refines (pop_n_call n) q xs i c = elim (Bool-cases (leb n (length xs))) [
    | inl e ↦ let (j, d) = pop_n_lem q xs n i (leb→le n (length xs) e) in rw e (agreed j d)
    | inr e ↦ rw e refused
  ]

  then-Agrees :
      (out ys : List T) (r : Option (List T × VectorQueue T)) (s : Option (List T × List T))
      → Agrees r s
      → Agrees
          (elim r [ none ↦ none | some (more, q) ↦ some (out ++ more, q) ])
          (elim s [ none ↦ none | some (more, zs) ↦ some (out ++ more, zs) ])
  then-Agrees out ys r _ refused = refused
  then-Agrees out ys _ _ (agreed i c) = agreed i c

  and_then-Agrees :
      {r : Option (List T × VectorQueue T)} {s : Option (List T × List T)}
      (f : VectorQueue T → Option (List T × VectorQueue T)) (g : List T → Option (List T × List T))
      → Agrees r s
      → ((q : VectorQueue T) (ys : List T) → Implements q ys → IsCompact q → Agrees (f q) (g ys))
      → Agrees (and_then r f) (and_then s g)
  and_then-Agrees f g refused h = refused
  and_then-Agrees f g (agreed {out} {ys} {q} i c) h = then-Agrees out ys (f q) (g ys) (h q ys i c)

  run-Agrees :
      (cs : List (Call T)) (q : VectorQueue T) (xs : List T)
      → Implements q xs
      → IsCompact q
      → Agrees (run queue_call cs q) (run list_call cs xs)
  unfolding run
  run-Agrees [] q xs i c = agreed i c
  run-Agrees (c ∷ cs) q xs i d =
      and_then-Agrees (run queue_call cs) (run list_call cs) (call_refines c q xs i d)
        (λ r ys. run-Agrees cs r ys)

  agreed_answer :
      {r : Option (List T × VectorQueue T)} {s : Option (List T × List T)} (out ys : List T)
      → Agrees r s
      → s ≡ some (out, ys)
      → (q : VectorQueue T) × (r ≡ some (out, q)) × Implements q ys × IsCompact q
  agreed_answer out ys refused e = cc
  agreed_answer out ys (agreed {q = q} i c) e =
      let p = some-injective _ _ e in
      (q, ap (λ t. some (t.0, q)) p, subst (Implements q) (ap (λ t. t.1) p) i, c)

  -- Whatever a list answers to calls of push, pop and pop_n, the queue answers too, from a queue that
  -- stands for the list; it then stands for the list that is left, and the consumed part of its
  -- vector is still at most six longer than the rest.
  pub run_refines :
      (cs : List (Call T)) (q : VectorQueue T) (xs : List T) {out ys : List T}
      → Implements q xs
      → IsCompact q
      → run list_call cs xs ≡ some (out, ys)
      → (q' : VectorQueue T) × (run queue_call cs q ≡ some (out, q'))
        × Implements q' ys
        × IsCompact q'
  run_refines cs q xs {out} {ys} i c e = agreed_answer out ys (run-Agrees cs q xs i c) e
