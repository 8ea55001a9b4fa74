-- ===== src/Container/History.antt =====
-- Sequences of the calls create, erase, extract and reset_id by clients that use only ids they were
-- given. The last three raise the generation of a slot, and are steps where it does not wrap. There
-- is no step for clear, after which the container issues its first ids again.
pub mod Steps
pub mod Stale
use mathlib.Core.Path.{subst}
use mathlib.Core.Option.{some-injective}
use native.Mathlib.Decide.{ℕ_discrete}
use tdutils.Base.{
  All, All-always, ap, arith, Bool-cases, get_elem?, get_elem?-lt, get_elem?-set, if◌then◌else◌,
  inl, inr, length, List, ne→==, set, some, sym, ℕ, ==-refl, [], ◌%◌, ◌+◌, ◌-◌, ◌<◌, ◌==◌, ◌^◌, ◌∙◌,
  ◌∷◌, ◌≡◌, ◌≤◌, ◌⊎◌,
}
use tdutils.Container.{Container, create, erase, extract, fresh, reset_id, Slot}
use tdutils.Container.Ids.{serial}
use tdutils.Container.Lookup.{slot_of}

abbrev pub In : ℕ → List ℕ → Type 0
In x [] = ⊥
In x (y ∷ ys) = (x ≡ y) ⊎ In x ys

-- The serial number that an id carries.
abbrev pub id_serial : ℕ → ℕ
id_serial id = serial (id % 2 ^ 32)

-- A container and every id that it has returned.
pub record World {ℓ} (DataT : Type ℓ) : Type ℓ where
  pub container : Container DataT
  pub issued : List ℕ

module _ {ℓ} {DataT : Type ℓ} where
  abbrev pub start : World DataT
  start = record { container = fresh; issued = [] }

  -- The generation of the id's slot does not wrap when it is raised.
  abbrev pub WrapFree : Container DataT → ℕ → Type ℓ
  WrapFree c id =
      (slot : Slot DataT)
      → get_elem? c.slots (slot_of id) ≡ some slot
      → slot.generation + 256 < 2 ^ 32

  -- One call.
  pub data Step (blank : DataT) : World DataT → World DataT → Type ℓ where
    creates :
        (w : World DataT) (content : DataT) (type id : ℕ) (c : Container DataT)
        → type < 256
        → length w.container.slots < 2 ^ 31 - 1
        → create w.container content type ≡ some (id, c)
        → Step blank w (record { container = c; issued = id ∷ w.issued })
    erases :
        (w : World DataT) (id : ℕ)
        → In id w.issued
        → WrapFree w.container id
        → Step blank w (record w { container = erase blank w.container id })
    extracts :
        (w : World DataT) (id : ℕ) (content : DataT) (c : Container DataT)
        → In id w.issued
        → WrapFree w.container id
        → extract blank w.container id ≡ some (content, c)
        → Step blank w (record w { container = c })
    resets :
        (w : World DataT) (id id' : ℕ) (c : Container DataT)
        → In id w.issued
        → WrapFree w.container id
        → reset_id w.container id ≡ some (id', c)
        → Step blank w (record { container = c; issued = id' ∷ w.issued })

  pub data Reach (blank : DataT) (w : World DataT) : World DataT → Type ℓ where
    here : Reach blank w w
    next : {u v : World DataT} → Reach blank w u → Step blank u v → Reach blank w v

  -- The id's slot exists, has not gone back behind the id, and is past it when it is free.
  pub record Tracked (c : Container DataT) (id : ℕ) : Type ℓ where
    pub slot : Slot DataT
    pub found : get_elem? c.slots (slot_of id) ≡ some slot
    pub behind : id_serial id ≤ serial slot.generation
    pub past_if_free :
        All (λ j. j ≡ slot_of id → id_serial id < serial slot.generation) c.empty_slots

  -- The id's slot is past the id.
  pub record Outdated (c : Container DataT) (id : ℕ) : Type ℓ where
    pub slot : Slot DataT
    pub found : get_elem? c.slots (slot_of id) ≡ some slot
    pub past : id_serial id < serial slot.generation

  -- A write to one slot that raises its serial number, or keeps it where every tracked id of the
  -- slot is behind already, keeps the other ids tracked.
  pub track_change :
      (c c' : Container DataT) (i : ℕ) (old new : Slot DataT)
      → get_elem? c.slots i ≡ some old
      → c'.slots ≡ set c.slots i new
      → ((P : ℕ → Type 0) → All P c.empty_slots → P i → All P c'.empty_slots)
      → (id : ℕ) → (slot_of id ≡ i → id_serial id < serial new.generation)
      → Tracked c id
      → Tracked c' id
  track_change c c' i old new found eq sub id gap t =
      let lt = get_elem?-lt c.slots i found in
      let read : get_elem? c'.slots (slot_of id)
          ≡ (if i == slot_of id then some new else get_elem? c.slots (slot_of id)) =
        ap (λ (l : List (Slot DataT)). get_elem? l (slot_of id)) eq
        ∙ get_elem?-set c.slots i (slot_of id) new lt in
      elim (ℕ_discrete (slot_of id) i) [
        | yes same ↦ record {
          slot = new;
          found = read ∙ rw (same, ==-refl i);
          behind = omega (arith, gap same);
          past_if_free = All-always _ (λ j q. gap same) c'.empty_slots;
        }
        | no other ↦ record {
          slot = t.slot;
          found = read ∙ rw (ne→== i (slot_of id) (λ q. other (sym q))) t.found;
          behind = t.behind;
          past_if_free = sub _ t.past_if_free (λ q. absurd (other (sym q)));
        }
      ]

  -- A slot's generation never falls.
  abbrev pub Grows : Container DataT → Container DataT → Type ℓ
  Grows c c' =
      (i : ℕ) (s : Slot DataT)
      → get_elem? c.slots i ≡ some s
      → (s' : Slot DataT) × (get_elem? c'.slots i ≡ some s')
        × (serial s.generation ≤ serial s'.generation)

  pub Grows-at :
      (c c' : Container DataT) (i : ℕ) (old new : Slot DataT)
      → get_elem? c.slots i ≡ some old
      → c'.slots ≡ set c.slots i new
      → serial old.generation ≤ serial new.generation
      → Grows c c'
  Grows-at c c' i old new found eq le j s e =
      let lt = get_elem?-lt c.slots i found in
      let read =
        ap (λ (l : List (Slot DataT)). get_elem? l j) eq ∙ get_elem?-set c.slots i j new lt in
      elim (Bool-cases (i == j)) [
        | inl same ↦
            let ij : i ≡ j = ground arith in
            let os : old ≡ s = some-injective _ _ (sym found ∙ ap (get_elem? c.slots) ij ∙ e) in
            (
              new,
              read ∙ rw same,
              subst (λ (t : Slot DataT). serial t.generation ≤ serial new.generation) os le,
            )
        | inr other ↦ (s, read ∙ rw other e, omega arith)
      ]
