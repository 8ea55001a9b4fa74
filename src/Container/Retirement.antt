-- ===== src/Container/Retirement.antt =====
-- erase and reset_id of td/utils/Container.h, which retire an id.
use mathlib.Core.Option.{some-injective}
use mathlib.Core.Path.{subst}
use tdutils.Base.{
  All-get, ap, arith, get_elem?, get_elem?-lt, get_elem?-set, if◌then◌else◌, List, ne→==, none,
  Option, refl, set, some, sym, ℕ, ==-refl, ◌%◌, ◌<◌, ◌==◌, ◌^◌, ◌∙◌, ◌≡◌, ◌≢◌,
}
use tdutils.Container.{
  Container, decode_id, encode_id, erase, get, inc_generation, next_generation, release, reset_id,
  Slot,
}
use tdutils.Container.Ids.{decode_id_inv, encode_id_parts, next_generation-lt, next_generation-ne}
use tdutils.Container.Validity.{inc_generation-IsValid, IsLive, IsValid, IsWord, release-IsValid}
use tdutils.Container.Lookup.{get_frame, get_read, get_stale, slot_of}

module _ {ℓ} {DataT : Type ℓ} where
  -- What erase and reset_id do to a container in which the id is current.
  pub record Retired (c : Container DataT) (id : ℕ) (c' : Container DataT) : Type ℓ where
    pub valid : IsValid c'
    pub gone : get c' id ≡ none
    pub others : (id' : ℕ) → slot_of id' ≢ slot_of id → get c' id' ≡ get c id'

  retired :
      (c c' : Container DataT) (id i : ℕ) (slot new : Slot DataT)
      → IsValid c
      → IsValid c'
      → get_elem? c.slots i ≡ some slot
      → slot.generation ≡ id % 2 ^ 32
      → i ≡ slot_of id
      → new.generation ≡ next_generation slot.generation
      → c'.slots ≡ set c.slots i new
      → Retired c id c'
  retired c c' id i slot new v v' found gen at step eq =
      let lt = get_elem?-lt c.slots i found in
      let word = All-get IsWord c.slots i v.words found in
      let read : (j : ℕ)
          → get_elem? c'.slots j ≡ (if i == j then some new else get_elem? c.slots j) =
        λ j. ap (λ (l : List (Slot DataT)). get_elem? l j) eq ∙ get_elem?-set c.slots i j new lt in
      record {
        valid = v';
        gone =
            get_stale c' id new v'.fits (read (slot_of id) ∙ rw (at, ==-refl (slot_of id)))
              (λ q. next_generation-ne slot.generation word (sym step ∙ sym q ∙ sym gen));
        others = λ id' ne.
            get_frame c c' id' v.fits v'.fits
              (read (slot_of id') ∙ rw (ne→== i (slot_of id') (λ q. ne (sym q ∙ at))));
      }

  pub erase-Retired :
      (blank : DataT) (c : Container DataT) (id : ℕ)
      → IsValid c
      → IsLive c (slot_of id)
      → Retired c id (erase blank c id)
  unfolding erase get release
  erase-Retired blank c id v live = by_slot (decode_id c id) refl
    where
      by_slot : (o : Option (ℕ × Slot DataT)) → decode_id c id ≡ o → Retired c id (erase blank c id)
      by_slot none q =
          rw (q, erase) (record { valid = v; gone = rw (q, get); others = λ id' ne. refl })
      by_slot (some (i, slot)) q =
          let (found, gen, at) = decode_id_inv c id i slot q in
          rw (q, erase)
            (retired c (release blank c i slot) id i slot
              (record { generation = next_generation slot.generation; content = blank }) v
              (release-IsValid c i slot blank v found (rw at live)) found gen at refl refl)

  pub reset_id-Retired :
      (c : Container DataT) (id id' : ℕ) (c' : Container DataT)
      → IsValid c
      → IsLive c (slot_of id)
      → reset_id c id ≡ some (id', c')
      → Retired c id c' × (get c' id' ≡ get c id) × (slot_of id' ≡ slot_of id)
  unfolding get inc_generation reset_id
  reset_id-Retired c id id' c' v live e = by_slot (decode_id c id) refl
    where
      Goal : ℕ × Container DataT → Type ℓ
      Goal (x, d) = Retired c id d × (get d x ≡ get c id) × (slot_of x ≡ slot_of id)

      by_slot :
          (o : Option (ℕ × Slot DataT))
          → decode_id c id ≡ o
          → Retired c id c' × (get c' id' ≡ get c id) × (slot_of id' ≡ slot_of id)
      by_slot none q = cc (rw (q, reset_id) at e)
      by_slot (some (i, slot)) q =
          let (found, gen, at) = decode_id_inv c id i slot q in
          let new : Slot DataT = record slot { generation = next_generation slot.generation } in
          let d = inc_generation c i slot in
          let lt = get_elem?-lt c.slots i found in
          let v' = inc_generation-IsValid c i slot v found (rw at live) in
          let read : get_elem? d.slots i ≡ some new =
            get_elem?-set c.slots i i new lt ∙ rw (==-refl i) in
          let word = next_generation-lt slot.generation in
          let found' = get_read d i new v'.fits word read in
          let small : i < 2 ^ 32 = omega (arith, v.fits) in
          let r : some (encode_id i new.generation, d) ≡ some (id', c') = rw (q, reset_id) at e in
          subst Goal (some-injective _ _ r) (
            retired c d id i slot new v v' found gen at refl refl,
            found' ∙ rw (q, get),
            (encode_id_parts i new.generation small word).0 ∙ at,
          )
