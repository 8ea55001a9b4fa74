-- ===== src/Container/Validity.antt =====
-- The invariant of a Container (td/utils/Container.h), and its operations.
use mathlib.Core.Option.{some-injective}
use mathlib.Core.Path.{subst}
use tdutils.Base.{
  All, All-append, All-append_left, All-get, All-set, arith, Bool, Bool-cases, Distinct,
  Distinct-snoc, Distinct-snoc_inv, drop_last, false, get_elem?, get_elem?-append_left,
  get_elem?-lt, get_elem?-set, get_last?, get_last?-none, get_last?-snoc, inl, inr, leb, length,
  length-set, List, ne→==, none, Option, refl, set, some, sym, true, ℕ, ==-refl, [], ◌++◌, ◌+◌, ◌-◌,
  ◌<◌, ◌^◌, ◌∙◌, ◌∷◌, ◌≡◌, ◌≢◌,
}
use tdutils.Container.{
  Container, fresh, generation_step, inc_generation, is_reusable, next_generation, release, retype,
  Slot, store, store_grown, store_reused,
}
use tdutils.Container.Ids.{is_reusable_iff, next_generation-lt, retype-parts, serial}

module _ {ℓ} {DataT : Type ℓ} where
  abbrev pub IsWord : Slot DataT → Type 0
  IsWord slot = slot.generation < 2 ^ 32

  -- A free slot exists, and its generation has not wrapped.
  abbrev pub IsFree : List (Slot DataT) → ℕ → Type ℓ
  IsFree slots i =
      (slot : Slot DataT) × (get_elem? slots i ≡ some slot) × (0 < serial slot.generation)

  pub record IsValid (c : Container DataT) : Type ℓ where
    pub fits : length c.slots < 2 ^ 31
    pub words : All IsWord c.slots
    pub free : All (IsFree c.slots) c.empty_slots
    pub distinct : Distinct c.empty_slots

  -- The slot is not on the free list.
  abbrev pub IsLive : Container DataT → ℕ → Type 0
  IsLive c i = All (λ j. j ≢ i) c.empty_slots

  pub fresh-IsValid : IsValid (fresh {DataT = DataT})
  fresh-IsValid = record { fits = omega arith; words = tt; free = tt; distinct = tt }

  IsFree-set_other :
      (slots : List (Slot DataT)) (i : ℕ) (new : Slot DataT)
      → i < length slots
      → (free : List ℕ) → All (λ j. j ≢ i) free
      → All (IsFree slots) free
      → All (IsFree (set slots i new)) free
  IsFree-set_other slots i new lt [] n f = tt
  IsFree-set_other slots i new lt (j ∷ free) (ne, n) ((slot, e, pos), f) = (
    (slot, get_elem?-set slots i j new lt ∙ rw (ne→== i j (λ q. ne (sym q))) e, pos),
    IsFree-set_other slots i new lt free n f,
  )

  IsFree-push :
      (slots : List (Slot DataT)) (new : Slot DataT) (free : List ℕ)
      → All (IsFree slots) free
      → All (IsFree (slots ++ new ∷ [])) free
  IsFree-push slots new [] f = tt
  IsFree-push slots new (j ∷ free) ((slot, e, pos), f) = (
    (slot, get_elem?-append_left slots (new ∷ []) j (get_elem?-lt slots j e) ∙ e, pos),
    IsFree-push slots new free f,
  )

  module _ (c : Container DataT) (i : ℕ) (slot : Slot DataT) where
    -- Releasing a live slot keeps the invariant.
    pub release-IsValid :
        (blank : DataT)
        → IsValid c
        → get_elem? c.slots i ≡ some slot
        → IsLive c i
        → IsValid (release blank c i slot)
    unfolding release
    release-IsValid blank v e live =
        let lt = get_elem?-lt c.slots i e in
        let new : Slot DataT = record {
          generation = next_generation slot.generation;
          content = blank;
        } in
        let kept = IsFree-set_other c.slots i new lt c.empty_slots live v.free in
        elim (Bool-cases (is_reusable new.generation)) [
          | inl again ↦ rw again (record {
            fits = rw length-set v.fits;
            words = All-set IsWord c.slots i new v.words (next_generation-lt slot.generation);
            free = All-append _ c.empty_slots (i ∷ []) kept (
              (
                new,
                get_elem?-set c.slots i i new lt ∙ rw (==-refl i),
                ground (arith, is_reusable_iff new.generation),
              ),
              tt,
            );
            distinct = Distinct-snoc c.empty_slots i v.distinct live;
          })
          | inr wrapped ↦ rw wrapped (record {
            fits = rw length-set v.fits;
            words = All-set IsWord c.slots i new v.words (next_generation-lt slot.generation);
            free = kept;
            distinct = v.distinct;
          })
        ]

    pub inc_generation-IsValid :
        IsValid c → get_elem? c.slots i ≡ some slot → IsLive c i → IsValid (inc_generation c i slot)
    unfolding inc_generation
    inc_generation-IsValid v e live =
        let lt = get_elem?-lt c.slots i e in
        record {
          fits = rw length-set v.fits;
          words = All-set IsWord c.slots i _ v.words (next_generation-lt slot.generation);
          free = IsFree-set_other c.slots i _ lt c.empty_slots live v.free;
          distinct = v.distinct;
        }

  -- The two ways of storing: into the last free slot, or into a new one.
  pub data Stored (c : Container DataT) (content : DataT) (type : ℕ)
      : ℕ → ℕ → Container DataT → Type ℓ where
    reused :
        (pos : ℕ) (slot : Slot DataT) (rest : List ℕ)
        → c.empty_slots ≡ rest ++ pos ∷ []
        → get_elem? c.slots pos ≡ some slot
        → Stored c content type pos (retype slot.generation type) (record {
          slots =
              set c.slots pos
                (record { generation = retype slot.generation type; content = content });
          empty_slots = rest;
        })
    grown :
        c.empty_slots ≡ []
        → Stored c content type (length c.slots) (generation_step + type) (record {
          slots = c.slots ++ record { generation = generation_step + type; content = content } ∷ [];
          empty_slots = c.empty_slots;
        })

  -- Each successful store is one of the two.
  pub store-Stored :
      (c : Container DataT) (content : DataT) (type pos g : ℕ) (c' : Container DataT)
      → store c content type ≡ some (pos, g, c')
      → Stored c content type pos g c'
  unfolding store
  store-Stored c content type pos g c' e = by_last (get_last? c.empty_slots) refl
    where
      Goal : ℕ × ℕ × Container DataT → Type ℓ
      Goal (p, h, d) = Stored c content type p h d

      finish :
          {t : ℕ × ℕ × Container DataT}
          → Goal t
          → some t ≡ some (pos, g, c')
          → Stored c content type pos g c'
      finish s q = subst Goal (some-injective _ _ q) s

      by_slot :
          (p : ℕ)
          → get_last? c.empty_slots ≡ some p
          → (o : Option (Slot DataT)) → get_elem? c.slots p ≡ o
          → store_reused c content type p o ≡ some (pos, g, c')
          → Stored c content type pos g c'
      by_slot p last none found q = cc
      by_slot p last (some slot) found q =
          finish
            (reused p slot (drop_last c.empty_slots) (sym (get_last?-snoc c.empty_slots last))
              found)
            q

      by_last : (o : Option ℕ) → get_last? c.empty_slots ≡ o → Stored c content type pos g c'
      by_last (some p) last = by_slot p last (get_elem? c.slots p) refl (rw (last, store) at e)
      by_last none last = by_room (leb (length c.slots) (2 ^ 31 - 1)) refl (rw (last, store) at e)
        where
          by_room :
              (b : Bool)
              → leb (length c.slots) (2 ^ 31 - 1) ≡ b
              → store_grown c content type ≡ some (pos, g, c')
              → Stored c content type pos g c'
          by_room true room q =
              finish (grown (get_last?-none c.empty_slots last)) (rw (room, store_grown) at q)
          by_room false room q = cc (rw (room, store_grown) at q)

  pub Stored-IsValid :
      {c : Container DataT} {content : DataT} {type pos g : ℕ} {c' : Container DataT}
      → Stored c content type pos g c'
      → IsValid c
      → type < 256
      → length c'.slots < 2 ^ 31
      → IsValid c'
  Stored-IsValid {c} {type = type} (reused pos slot rest e found) v t n =
      let lt = get_elem?-lt c.slots pos found in
      let word = All-get IsWord c.slots pos v.words found in
      let (d, live) = Distinct-snoc_inv rest pos (rw e at v.distinct) in
      record {
        fits = rw length-set v.fits;
        words =
            All-set IsWord c.slots pos _ v.words
              (omega (arith, retype-parts slot.generation type t));
        free =
            IsFree-set_other c.slots pos _ lt rest live
              (All-append_left _ rest (pos ∷ []) (rw e at v.free));
        distinct = d;
      }
  Stored-IsValid {c} {type = type} (grown e) v t n = record {
    fits = n;
    words = All-append IsWord c.slots _ v.words (unfold generation_step in omega arith, tt);
    free = IsFree-push c.slots _ c.empty_slots v.free;
    distinct = v.distinct;
  }
