-- ===== src/Container/Tests.antt =====
-- Runs of the container, and the theorems at concrete containers.
use tdutils.Base.{
  arith, false, inl, none, refl, some, sym, true, ℕ, [], ◌+◌, ◌-◌, ◌^◌, ◌∙◌, ◌∷◌, ◌≡◌, ◌≢◌,
}
use tdutils.Container.{
  Container, clear, create, decode_id, empty, encode_id, erase, extract, fresh, generation_step,
  get, ids, inc_generation, is_reusable, mark_bad, next_generation, release, reset_id, retype, size,
  slot_in_range, store, type_from_id, unmarked_ids,
}
use tdutils.Container.History.{creates, here, In, next, Reach, start, World}
use tdutils.Container.Limits.{erase_wrapped}
use tdutils.Container.Access.{create_correct, erase_correct, extract-get-erase, reset_id_correct}
use tdutils.Container.History.Stale.{erased_forever, issued_once, Reach-Sound, Sound}
use tdutils.Container.Validity.{IsValid}
use tdutils.Container.Lookup.{slot_of}

-- One element of type 3 in slot 0; its id is 259.
abbrev one : Container ℕ
one = record { slots = record { generation = 259; content = 7 } ∷ []; empty_slots = [] }

abbrev other_id : ℕ
other_id = 2 ^ 32 + 256

-- Two elements, then the first erased.
abbrev two : Container ℕ
two = record {
  slots = record { generation = 259; content = 7 } ∷ record { generation = 256; content = 9 } ∷ [];
  empty_slots = [];
}

abbrev erased : Container ℕ
erased = record {
  slots = record { generation = 515; content = 0 } ∷ record { generation = 256; content = 9 } ∷ [];
  empty_slots = 0 ∷ [];
}

create_first : create fresh 7 3 ≡ some (259, one)
unfolding create store encode_id generation_step
create_first = refl

create_second : create one 9 0 ≡ some (other_id, two)
unfolding create store encode_id generation_step
create_second = refl

erase_first : erase 0 two 259 ≡ erased
unfolding erase decode_id slot_in_range release is_reusable next_generation
erase_first = refl

create_again :
    create erased 5 1
    ≡ some (
      513,
      record two {
        slots =
            record { generation = 513; content = 5 }
            ∷ record { generation = 256; content = 9 }
            ∷ [];
      },
    )
unfolding create store retype encode_id
create_again = refl

ids_after : (ids erased ≡ other_id ∷ []) × (size erased ≡ some 1) × (get erased other_id ≡ some 9)
unfolding ids mark_bad unmarked_ids encode_id size get decode_id slot_in_range
ids_after = (refl, refl, refl)

two-IsValid : IsValid two
two-IsValid = record {
  fits = omega arith;
  words = (omega arith, (omega arith, tt));
  free = tt;
  distinct = tt;
}

one-IsValid : IsValid one
one-IsValid = record { fits = omega arith; words = (omega arith, tt); free = tt; distinct = tt }

create_correct_example :
    (id : ℕ) × (c' : Container ℕ) × (create one 9 0 ≡ some (id, c'))
    × IsValid c'
    × (get c' id ≡ some 9)
    × (type_from_id id ≡ 0)
    × (id ≢ 0)
create_correct_example = create_correct one 9 0 one-IsValid (omega arith) (omega arith)

empty_runs : (empty erased ≡ some false) × (empty (clear erased) ≡ some true)
unfolding empty size clear
empty_runs = (refl, refl)

erase_correct_example : IsValid (erase 0 two 259) × (get (erase 0 two 259) 259 ≡ none)
erase_correct_example = erase_correct 0 two 259 two-IsValid tt

reset_first :
    reset_id one 259
    ≡ some (515, record one { slots = record { generation = 515; content = 7 } ∷ [] })
unfolding reset_id decode_id slot_in_range inc_generation encode_id next_generation
reset_first = refl

abbrev reset : Container ℕ
reset = record one { slots = record { generation = 515; content = 7 } ∷ [] }

reset_id_correct_example :
    IsValid reset
    × (get reset 515 ≡ get one 259)
    × (slot_of 515 ≡ slot_of 259)
    × (get reset 259 ≡ none)
reset_id_correct_example = reset_id_correct one 259 515 reset one-IsValid tt reset_first

extract-get-erase_example :
    extract 0 two 259 ≡ (elim (get two 259) [ none ↦ none | some x ↦ some (x, erase 0 two 259) ])
extract-get-erase_example = extract-get-erase 0 two 259

-- The last generation of type 0: the next one is 0.
abbrev worn : Container ℕ
worn = record { slots = record { generation = 2 ^ 32 - 256; content = 7 } ∷ []; empty_slots = [] }

worn-IsValid : IsValid worn
worn-IsValid = record { fits = omega arith; words = (omega arith, tt); free = tt; distinct = tt }

decode_worn :
    decode_id worn (2 ^ 32 - 256) ≡ some (0, record { generation = 2 ^ 32 - 256; content = 7 })
unfolding decode_id slot_in_range
decode_worn = refl

erase_wrapped_example :
    (size (erase 0 worn (2 ^ 32 - 256)) ≡ some 1)
    × (get (erase 0 worn (2 ^ 32 - 256)) (encode_id 0 0) ≡ some 0)
erase_wrapped_example =
    erase_wrapped 0 worn (2 ^ 32 - 256) 0 (record { generation = 2 ^ 32 - 256; content = 7 })
      worn-IsValid (omega arith) decode_worn (omega arith)

abbrev first_world : World ℕ
first_world = record { container = one; issued = 259 ∷ [] }

first_reached : Reach 0 start first_world
first_reached = next here (creates start 7 3 259 one (omega arith) (omega arith) create_first)

found_first : get one 259 ≡ some 7
unfolding get decode_id slot_in_range
found_first = refl

Reach-Sound_example : Sound first_world
Reach-Sound_example = Reach-Sound 0 first_world first_reached

abbrev after_erase : World ℕ
after_erase = record first_world { container = erase 0 one 259 }

abbrev reused_slot : Container ℕ
reused_slot = record { slots = record { generation = 513; content = 5 } ∷ []; empty_slots = [] }

create_reused : create (erase 0 one 259) 5 1 ≡ some (513, reused_slot)
unfolding create store retype encode_id erase decode_id slot_in_range release is_reusable
    next_generation
create_reused = refl

later : Reach 0 after_erase (record { container = reused_slot; issued = 513 ∷ 259 ∷ [] })
unfolding erase decode_id slot_in_range release is_reusable next_generation
later =
    next here (creates after_erase 5 1 513 reused_slot (omega arith) (omega arith) create_reused)

erased_forever_example : get reused_slot 259 ≡ none
erased_forever_example =
    erased_forever 0 first_world (record { container = reused_slot; issued = 513 ∷ 259 ∷ [] }) 259
      first_reached (inl refl) (λ slot e. ground arith) (λ e. cc (sym found_first ∙ e)) later

issued_once_example : ¬ In other_id (259 ∷ [])
issued_once_example =
    issued_once 0 first_world 9 0 other_id two first_reached (omega arith) (omega arith)
      create_second
