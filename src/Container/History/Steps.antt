-- ===== src/Container/History/Steps.antt =====
-- One call on a Container (td/utils/Container.h) inside a sequence.
use mathlib.Core.Option.{some-injective}
use tdutils.Base.{
  All, all, All-append, All-append_left, All-append_right, All-get, All-map, ap, arith, Bool,
  Distinct-snoc_inv, false, get_elem?, get_elem?-append_end, get_elem?-append_left, get_elem?-lt,
  get_elem?-set, if◌then◌else◌, length, List, refl, set, some, sym, true, ℕ, ==-refl, [], ◌++◌, ◌+◌,
  ◌<◌, ◌^◌, ◌∙◌, ◌∷◌, ◌≡◌, ◌≢◌,
}
use tdutils.Container.{
  Container, decode_id, encode_id, generation_step, inc_generation, is_reusable, next_generation,
  release, retype, Slot,
}
use tdutils.Container.Ids.{
  decode_id_inv, encode_id_parts, next_generation-lt, next_generation-wrap_free, retype-parts,
  serial,
}
use tdutils.Container.History.{Grows, Grows-at, id_serial, track_change, Tracked, WrapFree}
use tdutils.Container.Validity.{
  grown, inc_generation-IsValid, IsLive, IsValid, IsWord, release-IsValid, reused, Stored,
}
use tdutils.Container.Lookup.{slot_of}

module _ {ℓ} {DataT : Type ℓ} where
  -- A change that keeps the invariant and the issued ids, and lowers no generation.
  pub record Keeps (c c' : Container DataT) : Type ℓ where
    pub valid : IsValid c'
    pub tracked : (id : ℕ) → Tracked c id → Tracked c' id
    pub grows : Grows c c'

  pub Keeps-All :
      (c c' : Container DataT)
      → Keeps c c'
      → (ids : List ℕ) → All (Tracked c) ids
      → All (Tracked c') ids
  Keeps-All c c' k ids t = All-map (Tracked c) (Tracked c') k.tracked ids t

  pub same-Keeps : (c : Container DataT) → IsValid c → Keeps c c
  same-Keeps c v = record { valid = v; tracked = λ id t. t; grows = λ i s e. (s, e, omega arith) }

  -- A current id belongs to no free slot.
  Tracked-IsLive :
      (c : Container DataT) (id i : ℕ) (slot : Slot DataT)
      → Tracked c id
      → decode_id c id ≡ some (i, slot)
      → IsLive c (slot_of id)
  Tracked-IsLive c id i slot t q =
      let (found, gen, at) = decode_id_inv c id i slot q in
      let same : t.slot ≡ slot =
        some-injective _ _ (sym t.found ∙ ap (get_elem? c.slots) (sym at) ∙ found) in
      let level : serial t.slot.generation ≡ id_serial id =
        ap (λ (s : Slot DataT). serial s.generation) same ∙ ap serial gen in
      All-map _ _ (λ j past e. absurd (omega (arith, past e, level))) c.empty_slots t.past_if_free

  module _ (blank : DataT) (c : Container DataT) (id i : ℕ) (slot : Slot DataT) (v : IsValid c)
      (t : Tracked c id) (q : decode_id c id ≡ some (i, slot)) (wrap_free : WrapFree c id) where
    abbrev found : get_elem? c.slots i ≡ some slot
    found = (decode_id_inv c id i slot q).0

    abbrev at : i ≡ slot_of id
    at = (decode_id_inv c id i slot q).2

    live : IsLive c i
    live = rw at (Tracked-IsLive c id i slot t q)

    pub step_up : next_generation slot.generation ≡ slot.generation + 256
    step_up =
        next_generation-wrap_free slot.generation
          (wrap_free slot (ap (get_elem? c.slots) (sym at) ∙ found))

    -- Every tracked id of the slot falls behind.
    gap :
        (id' : ℕ)
        → Tracked c id'
        → slot_of id' ≡ i
        → id_serial id' < serial (next_generation slot.generation)
    gap id' t' e =
        let same : t'.slot ≡ slot =
          some-injective _ _ (sym t'.found ∙ ap (get_elem? c.slots) e ∙ found) in
        let level = ap (λ (s : Slot DataT). serial s.generation) same in
        omega (arith, t'.behind, level, step_up)

    pub release-Keeps : Keeps c (release blank c i slot)
    unfolding release
    release-Keeps =
        let new : Slot DataT = record {
          generation = next_generation slot.generation;
          content = blank;
        } in
        record {
          valid = release-IsValid c i slot blank v found live;
          tracked = λ id' t'.
              track_change c (release blank c i slot) i slot new found refl
                (λ P all p. pushed P all p (is_reusable (next_generation slot.generation))) id'
                (gap id' t') t';
          grows =
              Grows-at c (release blank c i slot) i slot new found refl (omega (arith, step_up));
        }
      where
        pushed :
            (P : ℕ → Type 0)
            → All P c.empty_slots
            → P i
            → (b : Bool) → All P (if b then c.empty_slots ++ i ∷ [] else c.empty_slots)
        pushed P all p true = All-append P c.empty_slots (i ∷ []) all (p, tt)
        pushed P all p false = all

    pub inc_generation-Keeps : Keeps c (inc_generation c i slot)
    unfolding inc_generation
    inc_generation-Keeps =
        let new : Slot DataT = record slot { generation = next_generation slot.generation } in
        record {
          valid = inc_generation-IsValid c i slot v found live;
          tracked = λ id' t'.
              track_change c (inc_generation c i slot) i slot new found refl (λ P all p. all) id'
                (gap id' t') t';
          grows =
              Grows-at c (inc_generation c i slot) i slot new found refl (omega (arith, step_up));
        }

    pub inc_generation_new :
        Tracked (inc_generation c i slot) (encode_id i (next_generation slot.generation))
        × ((x : ℕ) → Tracked c x → x ≢ encode_id i (next_generation slot.generation))
    unfolding inc_generation
    inc_generation_new =
        let new : Slot DataT = record slot { generation = next_generation slot.generation } in
        let small : i < 2 ^ 32 = omega (arith, get_elem?-lt c.slots i found, v.fits) in
        let (at', gen) =
          encode_id_parts i new.generation small (next_generation-lt slot.generation) in
        let read : get_elem? (set c.slots i new) i ≡ some new =
          get_elem?-set c.slots i i new (get_elem?-lt c.slots i found) ∙ rw (==-refl i) in
        (
          record {
            slot = new;
            found = ap (get_elem? (set c.slots i new)) at' ∙ read;
            behind = omega (arith, ap serial gen);
            past_if_free = All-map _ _ (λ j ne q. absurd (ne (q ∙ at'))) c.empty_slots live;
          },
          λ x t' q. omega (arith, gap x t' (ap slot_of q ∙ at'), ap id_serial q, ap serial gen),
        )

  pub Stored-Keeps :
      {c : Container DataT} {content : DataT} {type pos g : ℕ} {c' : Container DataT}
      → Stored c content type pos g c'
      → IsValid c
      → IsValid c'
      → type < 256
      → Keeps c c'
  Stored-Keeps {c} {content} {type} (reused pos slot rest e found) v v' t =
      let new : Slot DataT = record {
        generation = retype slot.generation type;
        content = content;
      } in
      let level : serial new.generation ≡ serial slot.generation =
        omega (arith, retype-parts slot.generation type t) in
      let d : Container DataT = record { slots = set c.slots pos new; empty_slots = rest } in
      record {
        valid = v';
        tracked = λ id' t'.
            track_change c d pos slot new found refl
              (λ P all p. All-append_left P rest (pos ∷ []) (rw e at all)) id'
              (λ q.
                let same : t'.slot ≡ slot =
                  some-injective _ _ (sym t'.found ∙ ap (get_elem? c.slots) q ∙ found) in
                let past =
                  (All-append_right _ rest (pos ∷ []) (rw e at t'.past_if_free)).0 (sym q) in
                omega (arith, past, level, ap (λ (s : Slot DataT). serial s.generation) same))
              t';
        grows = Grows-at c d pos slot new found refl (omega (arith, level));
      }
  Stored-Keeps {c} {content} {type} (grown e) v v' t =
      let kept : (j : ℕ) (s : Slot DataT)
          → get_elem? c.slots j ≡ some s
          → get_elem?
              (c.slots ++ record { generation = generation_step + type; content = content } ∷ []) j
            ≡ some s =
        λ j s q. get_elem?-append_left c.slots _ j (get_elem?-lt c.slots j q) ∙ q in
      record {
        valid = v';
        tracked = λ id' t'. record {
          slot = t'.slot;
          found = kept (slot_of id') t'.slot t'.found;
          behind = t'.behind;
          past_if_free = t'.past_if_free;
        };
        grows = λ j s q. (s, kept j s q, omega arith);
      }

  -- The new id is tracked, and no tracked id equals it.
  pub Stored-new :
      {c : Container DataT} {content : DataT} {type pos g : ℕ} {c' : Container DataT}
      → Stored c content type pos g c'
      → IsValid c
      → IsValid c'
      → type < 256
      → Tracked c' (encode_id pos g) × ((id : ℕ) → Tracked c id → id ≢ encode_id pos g)
  Stored-new {c} {content} {type} (reused pos slot rest e found) v v' t =
      let new : Slot DataT = record {
        generation = retype slot.generation type;
        content = content;
      } in
      let lt = get_elem?-lt c.slots pos found in
      let read : get_elem? (set c.slots pos new) pos ≡ some new =
        get_elem?-set c.slots pos pos new lt ∙ rw (==-refl pos) in
      let word : new.generation < 2 ^ 32 = All-get IsWord (set c.slots pos new) pos v'.words read in
      let small : pos < 2 ^ 32 = omega (arith, v.fits) in
      let (at, gen) = encode_id_parts pos new.generation small word in
      let live = (Distinct-snoc_inv rest pos (rw e at v.distinct)).1 in
      (
        record {
          slot = new;
          found = ap (get_elem? (set c.slots pos new)) at ∙ read;
          behind = omega (arith, ap serial gen);
          past_if_free = All-map _ _ (λ j ne q. absurd (ne (q ∙ at))) rest live;
        },
        λ id' t' q.
            let same : t'.slot ≡ slot =
              some-injective _ _
                (sym t'.found ∙ ap (get_elem? c.slots) (ap slot_of q ∙ at) ∙ found) in
            let past =
              (All-append_right _ rest (pos ∷ []) (rw e at t'.past_if_free)).0
                (sym (ap slot_of q ∙ at)) in
            omega (
              arith,
              past,
              ap (λ (s : Slot DataT). serial s.generation) same,
              ap id_serial q,
              ap serial gen,
              retype-parts slot.generation type t,
            ),
      )
  Stored-new {c} {content} {type} (grown e) v v' t =
      let new : Slot DataT = record { generation = generation_step + type; content = content } in
      let n = length c.slots in
      let word : new.generation < 2 ^ 32 = unfold generation_step in omega arith in
      let (at, gen) = encode_id_parts n new.generation (omega (arith, v.fits)) word in
      (
        record {
          slot = new;
          found = ap (get_elem? (c.slots ++ new ∷ [])) at ∙ get_elem?-append_end c.slots new;
          behind = omega (arith, ap serial gen);
          past_if_free = rw e tt;
        },
        λ id' t' q.
            let inside = get_elem?-lt c.slots (slot_of id') t'.found in
            omega (arith, inside, ap slot_of q, at),
      )
