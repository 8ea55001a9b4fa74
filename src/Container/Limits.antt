-- ===== src/Container/Limits.antt =====
-- The two limits of td/utils/Container.h: a generation that wraps, and a table of 2 ^ 31 slots.
use tdutils.Base.{
  All-get, ap, arith, Bool, false, get_elem?, get_elem?-lt, get_elem?-set, if◌then◌else◌, leb,
  length, length-append, length-set, none, some, sym, true, ℕ, ==-refl, [], ◌%◌, ◌++◌, ◌+◌, ◌-◌,
  ◌<◌, ◌^◌, ◌∙◌, ◌∷◌, ◌≡◌, ◌≤◌,
}
use tdutils.Container.{
  Container, create, decode_id, encode_id, erase, get, is_reusable, next_generation, release, size,
  Slot,
}
use tdutils.Container.Validity.{grown, IsValid, IsWord, reused, Stored}
use tdutils.Container.Ids.{decode_id_inv, decode_id_overfull}
use tdutils.Container.Access.{erase_found}
use tdutils.Container.Creation.{create_inv}
use tdutils.Container.Lookup.{get_read}

module _ {ℓ} {DataT : Type ℓ} where
  size-erase_at :
      (blank : DataT) (c : Container DataT) (id i : ℕ) (slot : Slot DataT)
      → length c.empty_slots < length c.slots
      → decode_id c id ≡ some (i, slot)
      → size (erase blank c id) ≡ (
          if is_reusable (next_generation slot.generation)
          then some (length c.slots - length c.empty_slots - 1)
          else some (length c.slots - length c.empty_slots))
  unfolding size release
  size-erase_at blank c id i slot lt q =
      let new : Slot DataT = record {
        generation = next_generation slot.generation;
        content = blank;
      } in
      rw (erase_found blank c id (i, slot) q, length-set c.slots i new)
        (shape (is_reusable (next_generation slot.generation)))
    where
      shape :
          (b : Bool)
          → (if leb (length (if b then c.empty_slots ++ i ∷ [] else c.empty_slots)) (length c.slots)
              then some
                  (length c.slots - length (if b then c.empty_slots ++ i ∷ [] else c.empty_slots))
              else none)
            ≡ (if b
                then some (length c.slots - length c.empty_slots - 1)
                else some (length c.slots - length c.empty_slots))
      shape true = ground (arith, length-append c.empty_slots (i ∷ []))
      shape false = ground arith

  -- Erasing a current id whose slot is at its last generation does not lower size(), and afterwards
  -- the number made of the slot's index and its type alone is an id that finds the blank content.
  pub erase_wrapped :
      (blank : DataT) (c : Container DataT) (id i : ℕ) (slot : Slot DataT)
      → IsValid c
      → length c.empty_slots < length c.slots
      → decode_id c id ≡ some (i, slot)
      → 2 ^ 32 ≤ slot.generation + 256
      → (size (erase blank c id) ≡ some (length c.slots - length c.empty_slots))
        × (get (erase blank c id) (encode_id i (slot.generation % 256)) ≡ some blank)
  unfolding next_generation is_reusable release
  erase_wrapped blank c id i slot v lt q h =
      let found = (decode_id_inv c id i slot q).0 in
      let word : slot.generation < 2 ^ 32 = All-get IsWord c.slots i v.words found in
      let zero_serial : next_generation slot.generation ≡ slot.generation % 256 = omega arith in
      let new : Slot DataT = record { generation = slot.generation % 256; content = blank } in
      let read : get_elem? (release blank c i slot).slots i ≡ some new =
        get_elem?-set c.slots i i _ (get_elem?-lt c.slots i found)
        ∙ rw (==-refl i)
            (ap (λ (g : ℕ). some (record { generation = g; content = blank })) zero_serial) in
      (
        size-erase_at blank c id i slot lt q ∙ ground arith,
        rw (erase_found blank c id (i, slot) q)
            (get_read (release blank c i slot) i new (rw length-set v.fits) (omega arith) read),
      )

  -- The CHECK in store lets the table reach 2 ^ 31 slots; its size is then negative as an int32, and
  -- no id finds anything any more.
  pub create_overfull :
      (c : Container DataT) (content : DataT) (type id : ℕ) (c' : Container DataT)
      → length c.slots ≡ 2 ^ 31 - 1
      → c.empty_slots ≡ []
      → create c content type ≡ some (id, c')
      → (id' : ℕ) → get c' id' ≡ none
  unfolding get
  create_overfull c content type id c' n none_free e id' =
      let (pos, g, _, st) = create_inv c content type id c' e in
      let size = full c st n none_free in
      rw (decode_id_overfull c' id' (omega arith) (omega arith), get)
    where
      full :
          (c : Container DataT) {pos g : ℕ} {c' : Container DataT}
          → Stored c content type pos g c'
          → length c.slots ≡ 2 ^ 31 - 1
          → c.empty_slots ≡ []
          → length c'.slots ≡ 2 ^ 31
      full c (reused pos slot rest f found) n none_free =
          absurd (omega (arith, ap length (sym f ∙ none_free), length-append rest (pos ∷ [])))
      full c (grown f) n none_free = omega (arith, length-append c.slots (_ ∷ []))
