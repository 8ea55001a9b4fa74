-- ===== src/VectorQueue/Tests.antt =====
-- Runs of VectorQueue, and the theorems at concrete queues.
use tdutils.Base.{arith, List, refl, some, ℕ, [], ◌+◌, ◌∷◌, ◌≡◌}
use tdutils.VectorQueue.{
  as_span, back, emplace, empty_queue, pop, pop_n, push, read_next, size, try_shrink, VectorQueue,
}
use tdutils.VectorQueue.Refinement.{
  Call, list_call, pop_call, pop_n_call, push_call, queue_call, run, run_refines,
}
use tdutils.VectorQueue.Contents.{Implements, IsCompact}

abbrev calls : List (Call ℕ)
calls =
    push_call 1
    ∷ push_call 2
    ∷ push_call 3
    ∷ push_call 4
    ∷ push_call 5
    ∷ push_call 6
    ∷ push_call 7
    ∷ push_call 8
    ∷ pop_n_call 5
    ∷ pop_call
    ∷ push_call 9
    ∷ pop_call
    ∷ []

-- The fifth element consumed empties the front of the vector.
shrinks :
    run queue_call calls empty_queue
    ≡ some (6 ∷ 7 ∷ [], record { vector = 6 ∷ 7 ∷ 8 ∷ 9 ∷ []; read_pos = 2 })
unfolding run queue_call push pop pop_n try_shrink read_next
shrinks = refl

empty-Implements : Implements {T = ℕ} empty_queue []
empty-Implements = record { rest = refl; in_range = omega arith }

calls_on_list : run list_call calls [] ≡ some (6 ∷ 7 ∷ [], 8 ∷ 9 ∷ [])
unfolding run list_call
calls_on_list = refl

run_refines_example :
    (q : VectorQueue ℕ) × (run queue_call calls empty_queue ≡ some (6 ∷ 7 ∷ [], q))
    × Implements q (8 ∷ 9 ∷ [])
    × IsCompact q
run_refines_example = run_refines calls empty_queue [] empty-Implements (omega arith) calls_on_list

abbrev half_read : VectorQueue ℕ
half_read = record { vector = 4 ∷ 5 ∷ 6 ∷ []; read_pos = 1 }

reads_half : (size half_read ≡ 2) × (back half_read ≡ some 6) × (as_span half_read ≡ 5 ∷ 6 ∷ [])
unfolding size back as_span
reads_half = (refl, refl, refl)

-- An element that is built from a pair of arguments.
emplaces : as_span (emplace half_read (λ (p : ℕ × ℕ). p.0 + p.1) (3, 4)) ≡ 5 ∷ 6 ∷ 7 ∷ []
unfolding emplace as_span size
emplaces = refl
