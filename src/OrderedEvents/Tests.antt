-- ===== src/OrderedEvents/Tests.antt =====
-- Runs of OrderedEventsProcessor, and the theorems at concrete calls.
use tdutils.Base.{arith, false, List, none, refl, some, true, ℕ, [], ◌<◌, ◌∷◌, ◌≡◌, ◌≤◌, ◌⊎◌}
use tdutils.OrderedEvents.{
  add, drain, extend_end, keep, move_offset, OrderedEventsProcessor, resize, run_now, started,
  try_compactify,
}
use tdutils.OrderedEvents.State.{Delivers, Holds, started-Holds, with_event}
use tdutils.OrderedEvents.Add.{add_correct, Added}
use tdutils.OrderedEvents.Sequence.{added, run, run_correct}

abbrev calls : List (ℕ × ℕ)
calls = (3, 30) ∷ (1, 10) ∷ (5, 50) ∷ (2, 20) ∷ []

-- 3 waits for 2, and 5 waits for 4.
calls_in_order :
    run 0 calls (started 1)
    ≡ some (
      (1, 10) ∷ (2, 20) ∷ (3, 30) ∷ [],
      record {
        offset = 1;
        begin = 4;
        end = 6;
        data_array = (0, false) ∷ (0, false) ∷ (30, false) ∷ (0, false) ∷ (50, true) ∷ [];
      },
    )
unfolding run add drain run_now keep resize extend_end move_offset try_compactify
calls_in_order = refl

run_correct_example :
    (events : List (ℕ × ℕ)) × (after : OrderedEventsProcessor ℕ) × (run 0 calls (started 1)
      ≡ some (events, after))
    × Delivers (added (λ _. none) calls) 1 events after.begin
    × Holds after (added (λ _. none) calls)
run_correct_example = run_correct 0 1 calls (omega arith) (omega arith) (omega arith)

add_correct_example :
    (5 < 1 × (add {DataT = ℕ} 0 (started 1) 5 50 ≡ none))
    ⊎ (1 ≤ 5 × Added (started 1) (with_event (λ _. none) 5 50) (add {DataT = ℕ} 0 (started 1) 5 50))
add_correct_example =
    add_correct {DataT = ℕ} 0 (started 1) (λ _. none) 5 50 (started-Holds 1 (omega arith))
      (omega arith)
