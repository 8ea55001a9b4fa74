-- ===== src/Container/History/Stale.antt =====
-- Sequences of calls on a Container (td/utils/Container.h) and the ids they issue.
use mathlib.Core.Path.{subst}
use mathlib.Core.Option.{some-injective}
use tdutils.Base.{
  All, ap, arith, get_elem?, get_elem?-lt, get_elem?-set, inl, inr, length, List, none, Option,
  refl, set, some, sym, ℕ, ==-refl, [], ◌-◌, ◌<◌, ◌^◌, ◌∙◌, ◌∷◌, ◌≡◌, ◌≢◌,
}
use tdutils.Container.{
  Container, create, decode_id, encode_id, erase, extract, get, inc_generation, next_generation,
  release, reset_id, Slot,
}
use tdutils.Container.Ids.{decode_id_inv, serial}
use tdutils.Container.History.{
  creates, erases, extracts, Grows, here, In, next, Outdated, Reach, resets, start, Step, Tracked,
  World, WrapFree,
}
use tdutils.Container.History.Steps.{
  inc_generation-Keeps, inc_generation_new, Keeps, Keeps-All, release-Keeps, same-Keeps, step_up,
  Stored-Keeps, Stored-new,
}
use tdutils.Container.Validity.{fresh-IsValid, IsValid}
use tdutils.Container.Creation.{create-Created, create_inv}
use tdutils.Container.Lookup.{get_stale, slot_of}

module _ {ℓ} {DataT : Type ℓ} where
  pub record Sound (w : World DataT) : Type ℓ where
    pub valid : IsValid w.container
    pub tracked : All (Tracked w.container) w.issued

  Tracked-In :
      (c : Container DataT) (ids : List ℕ) (id : ℕ) → All (Tracked c) ids → In id ids → Tracked c id
  Tracked-In c [] id t m = absurd m
  Tracked-In c (x ∷ ids) id (t, ts) (inl e) = subst (Tracked c) (sym e) t
  Tracked-In c (x ∷ ids) id (t, ts) (inr m) = Tracked-In c ids id ts m

  erase-Keeps :
      (blank : DataT) (c : Container DataT) (id : ℕ)
      → IsValid c
      → Tracked c id
      → WrapFree c id
      → Keeps c (erase blank c id)
  unfolding erase
  erase-Keeps blank c id v t wf = by_slot (decode_id c id) refl
    where
      by_slot : (o : Option (ℕ × Slot DataT)) → decode_id c id ≡ o → Keeps c (erase blank c id)
      by_slot none q = rw (q, erase) (same-Keeps c v)
      by_slot (some (i, slot)) q = rw (q, erase) (release-Keeps blank c id i slot v t q wf)

  -- After erase the slot is past the id.
  erase-Outdated :
      (blank : DataT) (c : Container DataT) (id : ℕ)
      → IsValid c
      → Tracked c id
      → WrapFree c id
      → ¬ (get c id ≡ none)
      → Outdated (erase blank c id) id
  unfolding erase get release
  erase-Outdated blank c id v t wf found_before = by_slot (decode_id c id) refl
    where
      by_slot : (o : Option (ℕ × Slot DataT)) → decode_id c id ≡ o → Outdated (erase blank c id) id
      by_slot none q = absurd (found_before (rw (q, get)))
      by_slot (some (i, slot)) q =
          let (found, gen, at) = decode_id_inv c id i slot q in
          let new : Slot DataT = record {
            generation = next_generation slot.generation;
            content = blank;
          } in
          let read : get_elem? (set c.slots i new) i ≡ some new =
            get_elem?-set c.slots i i new (get_elem?-lt c.slots i found) ∙ rw (==-refl i) in
          let up = step_up blank c id i slot v t q wf in
          rw (q, erase)
            (record {
              slot = new;
              found = ap (get_elem? (set c.slots i new)) (sym at) ∙ read;
              past = omega (arith, up, ap serial gen);
            })

  extract-Keeps :
      (blank : DataT) (c : Container DataT) (id : ℕ) (content : DataT) (c' : Container DataT)
      → IsValid c
      → Tracked c id
      → WrapFree c id
      → extract blank c id ≡ some (content, c')
      → Keeps c c'
  unfolding extract
  extract-Keeps blank c id content c' v t wf e = by_slot (decode_id c id) refl
    where
      by_slot : (o : Option (ℕ × Slot DataT)) → decode_id c id ≡ o → Keeps c c'
      by_slot none q = cc (rw (q, extract) at e)
      by_slot (some (i, slot)) q =
          let r : some (slot.content, release blank c i slot) ≡ some (content, c') =
            rw (q, extract) at e in
          subst (λ (p : DataT × Container DataT). Keeps c p.1) (some-injective _ _ r)
            (release-Keeps blank c id i slot v t q wf)

  reset-Keeps :
      (blank : DataT) (c : Container DataT) (id id' : ℕ) (c' : Container DataT)
      → IsValid c
      → Tracked c id
      → WrapFree c id
      → reset_id c id ≡ some (id', c')
      → Keeps c c' × Tracked c' id' × ((x : ℕ) → Tracked c x → x ≢ id')
  unfolding reset_id
  reset-Keeps blank c id id' c' v t wf e = by_slot (decode_id c id) refl
    where
      Goal : ℕ × Container DataT → Type ℓ
      Goal (x, d) = Keeps c d × Tracked d x × ((y : ℕ) → Tracked c y → y ≢ x)

      by_slot : (o : Option (ℕ × Slot DataT)) → decode_id c id ≡ o → Goal (id', c')
      by_slot none q = cc (rw (q, reset_id) at e)
      by_slot (some (i, slot)) q =
          let r : some (encode_id i (next_generation slot.generation), inc_generation c i slot)
              ≡ some (id', c') =
            rw (q, reset_id) at e in
          let (tracked, new) = inc_generation_new blank c id i slot v t q wf in
          subst Goal (some-injective _ _ r)
            (inc_generation-Keeps blank c id i slot v t q wf, tracked, new)

  Outdated-Grows : (c c' : Container DataT) (id : ℕ) → Grows c c' → Outdated c id → Outdated c' id
  Outdated-Grows c c' id grows o =
      let (s, found, le) = grows (slot_of id) o.slot o.found in
      record { slot = s; found = found; past = omega (arith, o.past, le) }

  module _ (blank : DataT) where
    Step-Sound :
        {w u : World DataT} → Step blank w u → Sound w → Sound u × Grows w.container u.container
    Step-Sound (creates w content type id c t room e) s =
        let (pos, g, q, st) = create_inv w.container content type id c e in
        let v' = (create-Created w.container content type id c s.valid t room e).valid in
        let k = Stored-Keeps st s.valid v' t in
        let (new, _) = Stored-new st s.valid v' t in
        (
          record { valid = v'; tracked = (rw q new, Keeps-All w.container c k w.issued s.tracked) },
          k.grows,
        )
    Step-Sound (erases w id m wf) s =
        let k =
          erase-Keeps blank w.container id s.valid (Tracked-In w.container w.issued id s.tracked m)
            wf in
        (
          record {
            valid = k.valid;
            tracked = Keeps-All w.container (erase blank w.container id) k w.issued s.tracked;
          },
          k.grows,
        )
    Step-Sound (extracts w id content c m wf e) s =
        let k =
          extract-Keeps blank w.container id content c s.valid
            (Tracked-In w.container w.issued id s.tracked m) wf e in
        (
          record { valid = k.valid; tracked = Keeps-All w.container c k w.issued s.tracked },
          k.grows,
        )
    Step-Sound (resets w id id' c m wf e) s =
        let (k, new, _) =
          reset-Keeps blank w.container id id' c s.valid
            (Tracked-In w.container w.issued id s.tracked m) wf e in
        (
          record { valid = k.valid; tracked = (new, Keeps-All w.container c k w.issued s.tracked) },
          k.grows,
        )

    start-Sound : Sound start
    start-Sound = record { valid = fresh-IsValid; tracked = tt }

    Reach-Sound_from : {w u : World DataT} → Reach blank w u → Sound w → Sound u
    Reach-Sound_from here s = s
    Reach-Sound_from (next r st) s = (Step-Sound st (Reach-Sound_from r s)).0

    Reach-Outdated :
        {w u : World DataT} (id : ℕ)
        → Reach blank w u
        → Sound w
        → Outdated w.container id
        → Outdated u.container id
    Reach-Outdated id here s o = o
    Reach-Outdated id (next r st) s o =
        Outdated-Grows _ _ id (Step-Sound st (Reach-Sound_from r s)).1 (Reach-Outdated id r s o)

    Outdated-get : (c : Container DataT) (id : ℕ) → IsValid c → Outdated c id → get c id ≡ none
    Outdated-get c id v o =
        get_stale c id o.slot v.fits o.found (λ q. absurd (omega (arith, o.past, ap serial q)))

    -- From the empty container, after any sequence of calls of create on a table with room, and of
    -- erase, extract and reset_id on ids that were issued before, none of which wraps a generation, the
    -- invariant holds, and the slot of every issued id is present and not behind the id.
    pub Reach-Sound : (w : World DataT) → Reach blank start w → Sound w
    Reach-Sound w r = Reach-Sound_from r start-Sound

    -- In a container that was reached from the empty one by calls of create on a table with room, and
    -- of erase, extract and reset_id on issued ids, none of which wraps a generation, an issued id that
    -- is erased while it is current, and without a wrap, finds nothing after any further sequence of
    -- such calls.
    pub erased_forever :
        (w u : World DataT) (id : ℕ)
        → Reach blank start w
        → In id w.issued
        → WrapFree w.container id
        → ¬ (get w.container id ≡ none)
        → Reach blank (record w { container = erase blank w.container id }) u
        → get u.container id ≡ none
    erased_forever w u id r m wf current later =
        let s = Reach-Sound w r in
        let t = Tracked-In w.container w.issued id s.tracked m in
        let s' = (Step-Sound (erases w id m wf) s).0 in
        let o = erase-Outdated blank w.container id s.valid t wf current in
        Outdated-get u.container id (Reach-Sound_from later s').valid (Reach-Outdated id later s' o)

    not-In :
        (c : Container DataT) (ids : List ℕ) (id : ℕ)
        → All (Tracked c) ids
        → ((x : ℕ) → Tracked c x → x ≢ id)
        → ¬ In id ids
    not-In c [] id t f m = m
    not-In c (x ∷ ids) id (t, ts) f (inl e) = f x t (sym e)
    not-In c (x ∷ ids) id (t, ts) f (inr m) = not-In c ids id ts f m

    -- In a container that was reached from the empty one by calls of create on a table with room, and
    -- of erase, extract and reset_id on issued ids, none of which wraps a generation, create on a table
    -- with room never returns an id that it, or reset_id, returned before.
    pub issued_once :
        (w : World DataT) (content : DataT) (type id : ℕ) (c : Container DataT)
        → Reach blank start w
        → type < 256
        → length w.container.slots < 2 ^ 31 - 1
        → create w.container content type ≡ some (id, c)
        → ¬ In id w.issued
    issued_once w content type id c r t room e =
        let s = Reach-Sound w r in
        let (pos, g, q, st) = create_inv w.container content type id c e in
        let v' = (create-Created w.container content type id c s.valid t room e).valid in
        let (_, new) = Stored-new st s.valid v' t in
        not-In w.container w.issued id s.tracked (λ x tx p. new x tx (p ∙ q))
