-- ===== src/Container/Lookup.antt =====
-- get of td/utils/Container.h: what it reads, and what it leaves out of account.
use tdutils.Base.{
  arith, get_elem?, length, List, ne→==, none, refl, some, suc, zero, ℕ, [], ◌%◌, ◌++◌, ◌/◌, ◌<◌,
  ◌^◌, ◌∷◌, ◌≡◌, ◌≢◌,
}
use tdutils.Container.{Container, encode_id, get, match_slot, Slot}
use tdutils.Container.Ids.{decode-encode, decode_id_read}

-- The slot number in an id.
abbrev pub slot_of : ℕ → ℕ
slot_of id = id / 2 ^ 32 % 2 ^ 32

module _ {ℓ} {DataT : Type ℓ} where
  pub get_read :
      (c : Container DataT) (i : ℕ) (slot : Slot DataT)
      → length c.slots < 2 ^ 31
      → slot.generation < 2 ^ 32
      → get_elem? c.slots i ≡ some slot
      → get c (encode_id i slot.generation) ≡ some slot.content
  unfolding get
  get_read c i slot n g e = rw (decode-encode c i slot n g e, get)

  -- The answer depends on the slot alone.
  pub get_frame :
      (c c' : Container DataT) (id : ℕ)
      → length c.slots < 2 ^ 31
      → length c'.slots < 2 ^ 31
      → get_elem? c'.slots (slot_of id) ≡ get_elem? c.slots (slot_of id)
      → get c' id ≡ get c id
  unfolding get
  get_frame c c' id n n' e = rw (decode_id_read c id n, decode_id_read c' id n', e, get)

  -- A slot at another generation refuses the id.
  pub get_stale :
      (c : Container DataT) (id : ℕ) (slot : Slot DataT)
      → length c.slots < 2 ^ 31
      → get_elem? c.slots (slot_of id) ≡ some slot
      → id % 2 ^ 32 ≢ slot.generation
      → get c id ≡ none
  unfolding get match_slot
  get_stale c id slot n e ne =
      rw (decode_id_read c id n, e, ne→== (id % 2 ^ 32) slot.generation ne, get)

  pub push_other :
      (slots : List (Slot DataT)) (new : Slot DataT) (j : ℕ)
      → j ≢ length slots
      → get_elem? (slots ++ new ∷ []) j ≡ get_elem? slots j
  push_other [] new zero ne = absurd (ne refl)
  push_other [] new (suc j) ne = refl
  push_other (s ∷ slots) new zero ne = refl
  push_other (s ∷ slots) new (suc j) ne = push_other slots new j (omega arith)
