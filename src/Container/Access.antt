-- ===== src/Container/Access.antt =====
-- The operations of td/utils/Container.h, seen through get.
use tdutils.Base.{ap, inl, inr, length, none, Option-cases, some, sym, ℕ, ◌-◌, ◌<◌, ◌^◌, ◌≡◌, ◌≢◌}
use tdutils.Container.{
  Container, create, decode_id, erase, extract, get, release, reset_id, Slot, type_from_id,
}
use tdutils.Container.Validity.{IsLive, IsValid}
use tdutils.Container.Creation.{create-Created, create_total}
use tdutils.Container.Retirement.{erase-Retired, reset_id-Retired}
use tdutils.Container.Lookup.{slot_of}

module _ {ℓ} {DataT : Type ℓ} where
  pub erase_found :
      (blank : DataT) (c : Container DataT) (id : ℕ) (p : ℕ × Slot DataT)
      → decode_id c id ≡ some p
      → erase blank c id ≡ release blank c p.0 p.1
  unfolding erase
  erase_found blank c id p q = rw (q, erase)

  -- extract returns what get finds and does to the container what erase does; on an id that finds
  -- nothing its CHECK fails.
  pub extract-get-erase :
      (blank : DataT) (c : Container DataT) (id : ℕ)
      → extract blank c id
        ≡ (elim (get c id) [ none ↦ none | some content ↦ some (content, erase blank c id) ])
  unfolding extract get
  extract-get-erase blank c id = elim (Option-cases (decode_id c id)) [
    | inl q ↦ rw (q, extract, get)
    | inr (p, q) ↦
        rw (q, extract, get)
          (ap (λ (d : Container DataT). some (p.1.content, d)) (sym (erase_found blank c id p q)))
  ]

  -- In a valid container with room, create succeeds, keeps the invariant and returns an id of the
  -- given type (a uint8), not 0, that finds the content.
  pub create_correct :
      (c : Container DataT) (content : DataT) (type : ℕ)
      → IsValid c
      → type < 256
      → length c.slots < 2 ^ 31 - 1
      → (id : ℕ) × (c' : Container DataT) × (create c content type ≡ some (id, c'))
        × IsValid c'
        × (get c' id ≡ some content)
        × (type_from_id id ≡ type)
        × (id ≢ 0)
  create_correct c content type v t n =
      let (id, c', e) = create_total c content type v in
      let r = create-Created c content type id c' v t n e in
      (id, c', e, r.valid, r.found, r.typed, r.nonzero)

  -- The ids of every other slot find after create what they found before.
  create_frame :
      (c : Container DataT) (content : DataT) (type id : ℕ) (c' : Container DataT) (id' : ℕ)
      → IsValid c
      → type < 256
      → length c.slots < 2 ^ 31 - 1
      → create c content type ≡ some (id, c')
      → slot_of id' ≢ slot_of id
      → get c' id' ≡ get c id'
  create_frame c content type id c' id' v t n e =
      (create-Created c content type id c' v t n e).others id'

  -- In a valid container, erasing an id of a slot that is not free keeps the invariant, and the id
  -- finds nothing then.
  pub erase_correct :
      (blank : DataT) (c : Container DataT) (id : ℕ)
      → IsValid c
      → IsLive c (slot_of id)
      → IsValid (erase blank c id) × (get (erase blank c id) id ≡ none)
  erase_correct blank c id v live = let r = erase-Retired blank c id v live in (r.valid, r.gone)

  -- The ids of every other slot find after erase what they found before.
  erase_frame :
      (blank : DataT) (c : Container DataT) (id id' : ℕ)
      → IsValid c
      → IsLive c (slot_of id)
      → slot_of id' ≢ slot_of id
      → get (erase blank c id) id' ≡ get c id'
  erase_frame blank c id id' v live = (erase-Retired blank c id v live).others id'

  -- In a valid container, reset_id on an id of a slot that is not free keeps the invariant; the new id finds, in the same
  -- slot, what the old id found, and the old id finds nothing.
  pub reset_id_correct :
      (c : Container DataT) (id id' : ℕ) (c' : Container DataT)
      → IsValid c
      → IsLive c (slot_of id)
      → reset_id c id ≡ some (id', c')
      → IsValid c' × (get c' id' ≡ get c id) × (slot_of id' ≡ slot_of id) × (get c' id ≡ none)
  reset_id_correct c id id' c' v live e =
      let (r, found, at) = reset_id-Retired c id id' c' v live e in (r.valid, found, at, r.gone)
