-- ===== src/OrderedEvents/Deliver.antt =====
-- One call of OrderedEventsProcessor::add (td/utils/OrderedEventsProcessor.h).
use tdutils.Base.{
  ap, arith, Bool, Bool-cases, false, get_elem?, get_elem?-some, ge→ltb, inl, inr, length,
  length-set, List, ltb, ltb→ge, ltb→lt, lt→ltb, none, Option, refl, set, some, suc, sym, true,
  zero, ℕ, [], ◌+◌, ◌-◌, ◌<◌, ◌∙◌, ◌∷◌, ◌≡◌, ◌≤◌,
}
use tdutils.Base.Words.{distance, distance-le}
use tdutils.OrderedEvents.{drain}
use tdutils.OrderedEvents.State.{
  Delivers, flag_of, flagged, flagged-set, hand_out, next_seq_no-lt, stop, Stores,
}

module _ {ℓ} {DataT : Type ℓ} where
  entry-flagged :
      (array : List (DataT × Bool)) (i : ℕ) {content : DataT}
      → get_elem? array i ≡ some (content, true)
      → flagged array i ≡ some content
  entry-flagged array i e = ap flag_of e

  entry-unflagged :
      (array : List (DataT × Bool)) (i : ℕ) {content : DataT}
      → get_elem? array i ≡ some (content, false)
      → flagged array i ≡ none
  entry-unflagged array i e = ap flag_of e

  -- The place of `begin` when something is ahead of it.
  begin_at :
      {offset begin end : ℕ} {array : List (DataT × Bool)} {f : ℕ → Option DataT}
      → Stores offset begin end array f
      → begin < end
      → (distance begin offset ≡ begin - offset) × (begin - offset < length array)
  begin_at {offset} {begin} st h = (
    distance-le begin offset st.offset-le (omega (arith, st.word_end)),
    omega (arith, st.covered h, st.offset-le),
  )

  waiting_at :
      {offset begin end : ℕ} {array : List (DataT × Bool)} {f : ℕ → Option DataT}
      → Stores offset begin end array f
      → flagged array (begin - offset) ≡ f begin
  waiting_at {offset} {begin} {f = f} st =
      st.waiting (begin - offset) (omega (arith, st.offset-le)) ∙ ap f (omega (arith, st.offset-le))

  -- After the event at `begin` is taken, the rest is stored from the next one on.
  Stores-advance :
      {offset begin end : ℕ} {array : List (DataT × Bool)} {f : ℕ → Option DataT} (content : DataT)
      → Stores offset begin end array f
      → begin < end
      → Stores offset (begin + 1) end (set array (begin - offset) (content, false)) f
  Stores-advance {offset} {begin} {end} {array} {f} content st h =
      let at = begin - offset in
      record {
        offset-le = omega (arith, st.offset-le);
        word_end = st.word_end;
        past = λ i p. elim (flagged-set array at i (content, false) (begin_at st h).1) [
          | inl (e, r) ↦ r
          | inr (ne, r) ↦ r ∙ st.past i (omega (arith, st.offset-le))
        ];
        waiting = λ i p. elim (flagged-set array at i (content, false) (begin_at st h).1) [
          | inl (e, r) ↦ absurd (omega (arith, st.offset-le))
          | inr (ne, r) ↦ r ∙ st.waiting i (omega arith)
        ];
        unknown = λ s p. st.unknown s (omega arith);
        covered = λ p. omega (arith, st.covered h, length-set array at (content, false));
      }

  pub record Drained (offset begin end : ℕ) (f : ℕ → Option DataT)
      (r : Option (List (ℕ × DataT) × List (DataT × Bool) × ℕ)) : Type ℓ where
    pub events : List (ℕ × DataT)
    pub array' : List (DataT × Bool)
    pub begin' : ℕ
    pub result : r ≡ some (events, array', begin')
    pub handed : Delivers f begin events begin'
    pub stores : Stores offset begin' end array' f
    pub next_missing : f begin' ≡ none

  Drained-here :
      {offset begin end : ℕ} {array : List (DataT × Bool)} {f : ℕ → Option DataT}
      → Stores offset begin end array f
      → f begin ≡ none
      → Drained offset begin end f (some ([], array, begin))
  Drained-here {begin = begin} {array} st e = record {
    events = [];
    array' = array;
    begin' = begin;
    result = refl;
    handed = stop;
    stores = st;
    next_missing = e;
  }

  Drained-cons :
      {offset begin end : ℕ} {f : ℕ → Option DataT} (content : DataT)
      (r : Option (List (ℕ × DataT) × List (DataT × Bool) × ℕ))
      → f begin ≡ some content
      → Drained offset (begin + 1) end f r
      → Drained offset begin end f (elim r [
        | none ↦ none
        | some (events, array', begin') ↦ some ((begin, content) ∷ events, array', begin')
      ])
  Drained-cons {begin = begin} content r e d = record {
    events = (begin, content) ∷ d.events;
    array' = d.array';
    begin' = d.begin';
    result = rw (d.result) refl;
    handed = hand_out e d.handed;
    stores = d.stores;
    next_missing = d.next_missing;
  }

  drain_entry :
      (fuel : ℕ) {offset begin end : ℕ} {array : List (DataT × Bool)} {f : ℕ → Option DataT}
      (content : DataT) (flag : Bool)
      → begin < end
      → Stores offset begin end array f
      → get_elem? array (begin - offset) ≡ some (content, flag)
      → Drained offset
          (begin + 1)
          end
          f
          (drain fuel offset end (set array (begin - offset) (content, false)) (begin + 1))
      → Drained offset begin end f (drain (suc fuel) offset end array begin)
  unfolding drain
  drain_entry fuel {offset} {begin} {end} {array} content true b st e d =
      rw
        (
          lt→ltb begin end b,
          (begin_at st b).0,
          e,
          (begin_at st b).0,
          next_seq_no-lt begin (omega (arith, st.word_end)),
          drain,
        )
        (Drained-cons content _ (sym (waiting_at st) ∙ ap flag_of e) d)
  drain_entry fuel {offset} {begin} {end} {array} content false b st e d =
      rw (lt→ltb begin end b, (begin_at st b).0, e, drain)
        (Drained-here st (sym (waiting_at st) ∙ ap flag_of e))

  -- One unit of fuel more than the distance to `end` is enough.
  pub drain_lem :
      (fuel : ℕ) {offset begin end : ℕ} {array : List (DataT × Bool)} {f : ℕ → Option DataT}
      → end ≤ begin + fuel
      → Stores offset begin end array f
      → Drained offset begin end f (drain (suc fuel) offset end array begin)
  unfolding drain
  drain_lem zero {offset} {begin} {end} h st =
      rw (ge→ltb begin end (omega arith), drain)
        (Drained-here st (st.unknown begin (omega arith) (omega arith)))
  drain_lem (suc fuel) {offset} {begin} {end} {array} {f} h st = elim (Bool-cases (ltb begin end)) [
    | inl b ↦
        let lt = ltb→lt begin end b in
        let (entry, e) = get_elem?-some array (begin - offset) (begin_at st lt).1 in
        drain_entry (suc fuel) entry.0 entry.1 lt st e
          (drain_lem fuel (omega (arith, h)) (Stores-advance entry.0 st lt))
    | inr b ↦ rw (b, drain) (Drained-here st (st.unknown begin (omega arith) (ltb→ge begin end b)))
  ]
