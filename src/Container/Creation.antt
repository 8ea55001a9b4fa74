-- ===== src/Container/Creation.antt =====
-- create of td/utils/Container.h.
use mathlib.Core.Option.{some-injective}
use mathlib.Core.Path.{subst}
use tdutils.Base.{
  All-append_right, All-get, ap, arith, drop_last, get_elem?, get_elem?-append_end, get_elem?-lt,
  get_elem?-set, get_last?, get_last?-snoc, length, length-append, length-set, le→leb, ne→==, none,
  Option, refl, some, sym, ℕ, ==-refl, [], ◌%◌, ◌+◌, ◌-◌, ◌<◌, ◌^◌, ◌∙◌, ◌∷◌, ◌≡◌, ◌≢◌, ◌≤◌,
}
use tdutils.Container.{
  Container, create, encode_id, generation_step, get, retype, store, store_grown, type_from_id,
}
use tdutils.Container.Ids.{encode_id-sum, encode_id_parts, retype-parts, serial}
use tdutils.Container.Validity.{
  grown, IsFree, IsValid, IsWord, reused, store-Stored, Stored, Stored-IsValid,
}
use tdutils.Container.Lookup.{get_frame, get_read, push_other, slot_of}

module _ {ℓ} {DataT : Type ℓ} where
  -- What create promises of its id and of the others.
  pub record Created (c : Container DataT) (content : DataT) (type id : ℕ) (c' : Container DataT)
      : Type ℓ where
    pub valid : IsValid c'
    pub found : get c' id ≡ some content
    pub typed : type_from_id id ≡ type
    pub nonzero : id ≢ 0
    pub others : (id' : ℕ) → slot_of id' ≢ slot_of id → get c' id' ≡ get c id'

  -- A new slot at `pos` in `c'`, the rest of the slots being those of `c`.
  placed :
      (c c' : Container DataT) (pos g : ℕ) (content : DataT) (type : ℕ)
      → length c.slots < 2 ^ 31
      → IsValid c'
      → get_elem? c'.slots pos ≡ some (record { generation = g; content = content })
      → ((j : ℕ) → j ≢ pos → get_elem? c'.slots j ≡ get_elem? c.slots j)
      → g % 256 ≡ type
      → 0 < serial g
      → Created c content type (encode_id pos g) c'
  placed c c' pos g content type n v e frame t nz =
      let word = All-get IsWord c'.slots pos v.words e in
      let lt = get_elem?-lt c'.slots pos e in
      let small : pos < 2 ^ 32 = omega (arith, v.fits) in
      let sum = encode_id-sum pos g word in
      let at = (encode_id_parts pos g small word).0 in
      record {
        valid = v;
        found = get_read c' pos (record { generation = g; content = content }) v.fits word e;
        typed = unfold type_from_id in omega arith;
        nonzero = omega arith;
        others = λ id' ne. get_frame c c' id' n v.fits (frame (slot_of id') (λ q. ne (q ∙ sym at)));
      }

  Stored-Created :
      {c : Container DataT} {content : DataT} {type pos g : ℕ} {c' : Container DataT}
      → Stored c content type pos g c'
      → IsValid c
      → IsValid c'
      → type < 256
      → Created c content type (encode_id pos g) c'
  Stored-Created {c} {content} {type} (reused pos slot rest e found) v v' t =
      let lt = get_elem?-lt c.slots pos found in
      let kept = retype-parts slot.generation type t in
      let (slot', found', nz) = (All-append_right _ rest (pos ∷ []) (rw e at v.free)).0 in
      let same : slot' ≡ slot = some-injective _ _ (sym found' ∙ found) in
      let nz' : 0 < serial slot.generation = subst (λ s. 0 < serial s.generation) same nz in
      placed c _ pos (retype slot.generation type) content type v.fits v'
        (get_elem?-set c.slots pos pos _ lt ∙ rw (==-refl pos))
        (λ j ne. get_elem?-set c.slots pos j _ lt ∙ rw (ne→== pos j (λ q. ne (sym q))))
        (omega arith) (omega arith)
  Stored-Created {c} {content} {type} (grown e) v v' t =
      placed c _ (length c.slots) (generation_step + type) content type v.fits v'
        (get_elem?-append_end c.slots _) (λ j ne. push_other c.slots _ j ne)
        (unfold generation_step in omega arith) (unfold generation_step in omega arith)

  length-Stored :
      {c : Container DataT} {content : DataT} {type pos g : ℕ} {c' : Container DataT}
      → Stored c content type pos g c'
      → length c'.slots ≤ length c.slots + 1
  length-Stored {c} (reused pos slot rest e found) = omega (
    arith,
    length-set c.slots pos (record { generation = retype slot.generation _; content = _ }),
  )
  length-Stored {c} (grown e) = omega (arith, length-append c.slots _)

  pub create_inv :
      (c : Container DataT) (content : DataT) (type id : ℕ) (c' : Container DataT)
      → create c content type ≡ some (id, c')
      → (pos g : ℕ) × (id ≡ encode_id pos g) × Stored c content type pos g c'
  unfolding create
  create_inv c content type id c' e = by_store (store c content type) refl
    where
      by_store :
          (o : Option (ℕ × ℕ × Container DataT))
          → store c content type ≡ o
          → (pos g : ℕ) × (id ≡ encode_id pos g) × Stored c content type pos g c'
      by_store none q = cc (rw (q, create) at e)
      by_store (some (pos, g, d)) q =
          let r : some (encode_id pos g, d) ≡ some (id, c') = rw (q, create) at e in
          (
            pos,
            g,
            ap (λ t. t.0) (sym (some-injective _ _ r)),
            subst (Stored c content type pos g) (ap (λ t. t.1) (some-injective _ _ r))
                (store-Stored c content type pos g d q),
          )

  pub create-Created :
      (c : Container DataT) (content : DataT) (type id : ℕ) (c' : Container DataT)
      → IsValid c
      → type < 256
      → length c.slots < 2 ^ 31 - 1
      → create c content type ≡ some (id, c')
      → Created c content type id c'
  create-Created c content type id c' v t n e =
      let (pos, g, q, s) = create_inv c content type id c' e in
      let size = length-Stored s in rw q (Stored-Created s v (Stored-IsValid s v t (omega arith)) t)

  store-ne-none :
      (c : Container DataT) (content : DataT) (type : ℕ) → IsValid c → store c content type ≢ none
  unfolding store
  store-ne-none c content type v e = by_last (get_last? c.empty_slots) refl
    where
      by_last : (o : Option ℕ) → get_last? c.empty_slots ≡ o → ⊥
      by_last none last =
          let room = le→leb (length c.slots) (2 ^ 31 - 1) (omega (arith, v.fits)) in
          cc (rw (last, store, store_grown, room) at e)
      by_last (some pos) last =
          let whole = get_last?-snoc c.empty_slots last in
          let (slot, found, _) =
            (All-append_right (IsFree c.slots) (drop_last c.empty_slots) (pos ∷ [])
              (rw whole v.free)).0 in
          cc (rw (last, store, found) at e)

  -- In a valid container create never fails its CHECK, and reads no slot out of range.
  pub create_total :
      (c : Container DataT) (content : DataT) (type : ℕ)
      → IsValid c
      → (id : ℕ) × (c' : Container DataT) × (create c content type ≡ some (id, c'))
  unfolding create
  create_total c content type v = by_store (store c content type) refl
    where
      by_store :
          (o : Option (ℕ × ℕ × Container DataT))
          → store c content type ≡ o
          → (id : ℕ) × (c' : Container DataT) × (create c content type ≡ some (id, c'))
      by_store none q = absurd (store-ne-none c content type v q)
      by_store (some (pos, g, d)) q = (encode_id pos g, d, rw (q, create))
