-- ===== src/ChangesProcessor/Tests.antt =====
-- Runs of ChangesProcessor, and the theorems at concrete calls.
use tdutils.Base.{arith, false, List, refl, true, ℕ, [], ◌∷◌, ◌≡◌}
use tdutils.ChangesProcessor.{
  add, ChangesProcessor, finish, new_processor, process_ready, set_finished, try_compactify,
}
use tdutils.ChangesProcessor.Pending.{finish_correct, Finished, Waits}
use tdutils.ChangesProcessor.Sequence.{
  add_call, Call, contents, finish_call, processed_in_order, run,
}

abbrev calls : List (Call ℕ)
calls = add_call 10 ∷ add_call 20 ∷ add_call 30 ∷ finish_call 2 ∷ finish_call 1 ∷ []

-- The second change waits for the first.
calls_in_order_run : (run calls new_processor).0 ≡ 10 ∷ 20 ∷ []
unfolding run add finish set_finished process_ready try_compactify
calls_in_order_run = refl

processed_in_order_example :
    ((run calls new_processor).0 ≡ 10 ∷ 20 ∷ [])
    × Waits (run calls new_processor).1 3 ((30, false) ∷ [])
    × (◌≡◌ {A = List ℕ} (10 ∷ 20 ∷ contents ((30, false) ∷ [])) (10 ∷ 20 ∷ 30 ∷ []))
processed_in_order_example = processed_in_order calls (omega arith) (omega arith)

abbrev waiting : ChangesProcessor ℕ
waiting = record {
  offset = 1;
  ready_i = 1;
  data_array = (10, true) ∷ (20, false) ∷ (30, true) ∷ [];
}

waiting-Waits : Waits waiting 2 ((20, false) ∷ (30, true) ∷ [])
waiting-Waits = record {
  in_range = omega arith;
  numbered = omega arith;
  pending = refl;
  word = omega arith;
  blocked = refl;
}

finish_correct_example : Finished 2 (20 ∷ 30 ∷ [], []) (finish waiting 2)
finish_correct_example =
    finish_correct waiting 2 ((20, false) ∷ (30, true) ∷ []) 2 waiting-Waits (omega arith)
