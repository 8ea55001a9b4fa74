-- ===== src/OrderedEvents/Settle.antt =====
-- What OrderedEventsProcessor::add does after its loop (td/utils/OrderedEventsProcessor.h).
use tdutils.Base.{
  ap, arith, Bool, Bool-cases, drop, get_elem?-drop, inl, inr, length, length-drop, List, ltb,
  ltb→ge, ltb→lt, none, Option, refl, sym, ℕ, ==_iff, ◌&&◌, ◌*◌, ◌+◌, ◌-◌, ◌<◌, ◌==◌, ◌^◌, ◌∙◌, ◌≡◌,
  ◌≤◌,
}
use tdutils.Base.Words.{distance-le}
use tdutils.OrderedEvents.{extend_end, move_offset, OrderedEventsProcessor, try_compactify}
use tdutils.OrderedEvents.State.{flag_of, flagged, Holds, Stores}

module _ {ℓ} {DataT : Type ℓ} where
  abbrev Keeps : OrderedEventsProcessor DataT → (ℕ → Option DataT) → Type ℓ
  Keeps p f = Stores p.offset p.begin p.end p.data_array f

  extend_end_lem :
      (p : OrderedEventsProcessor DataT) (f : ℕ → Option DataT)
      → Keeps p f
      → p.begin < 2 ^ 64
      → Keeps (extend_end p) f × (p.begin ≤ (extend_end p).end) × ((extend_end p).begin ≡ p.begin)
  unfolding extend_end
  extend_end_lem p f st w = elim (Bool-cases (ltb p.end p.begin)) [
    | inl b ↦
        rw (b, extend_end)
          (
            record {
              offset-le = st.offset-le;
              word_end = w;
              past = st.past;
              waiting = st.waiting;
              unknown = λ s h k. st.unknown s h (omega (arith, ltb→lt p.end p.begin b));
              covered = λ h. absurd (omega arith);
            },
            omega arith,
            refl,
          )
    | inr b ↦ rw (b, extend_end) (st, ltb→ge p.end p.begin b, refl)
  ]

  unflagged :
      (p : OrderedEventsProcessor DataT) (f : ℕ → Option DataT)
      → Keeps p f
      → p.begin ≡ p.end
      → (i : ℕ) → flagged p.data_array i ≡ none
  unflagged p f st e i = elim (Bool-cases (ltb (p.offset + i) p.begin)) [
    | inl b ↦ st.past i (ltb→lt _ _ b)
    | inr b ↦
        let h = ltb→ge (p.offset + i) p.begin b in
        st.waiting i h ∙ st.unknown (p.offset + i) h (omega (arith, h, e))
  ]

  move_offset_lem :
      (p : OrderedEventsProcessor DataT) (f : ℕ → Option DataT)
      → Keeps p f
      → Keeps (move_offset p) f × ((move_offset p).begin ≡ p.begin) × ((move_offset p).end ≡ p.end)
  unfolding move_offset
  move_offset_lem p f st = elim (Bool-cases (p.begin == p.end)) [
    | inl b ↦
        let e = (==_iff p.begin p.end).0 b in
        rw (b, move_offset)
          (
            record {
              offset-le = omega arith;
              word_end = st.word_end;
              past = λ i h. absurd (omega arith);
              waiting = λ i h.
                  unflagged p f st e i
                  ∙ sym (st.unknown (p.begin + i) (omega arith) (omega (arith, e)));
              unknown = st.unknown;
              covered = λ h. absurd (omega (arith, e));
            },
            refl,
            refl,
          )
    | inr b ↦ rw (b, move_offset) (st, refl, refl)
  ]

  flagged-drop :
      (array : List (DataT × Bool)) (k i : ℕ) → flagged (drop k array) i ≡ flagged array (k + i)
  flagged-drop array k i = ap flag_of (get_elem?-drop k array i)

  try_compactify_lem :
      (p : OrderedEventsProcessor DataT) (f : ℕ → Option DataT)
      → Keeps p f
      → p.begin ≤ p.end
      → Keeps (try_compactify p) f
        × ((try_compactify p).begin ≡ p.begin)
        × ((try_compactify p).end ≡ p.end)
  unfolding try_compactify
  try_compactify_lem p f st le =
      let d = distance-le p.begin p.offset st.offset-le (omega (arith, st.word_end)) in
      let k = p.begin - p.offset in
      elim (Bool-cases (ltb 5 k && ltb (length p.data_array) (k * 2))) [
        | inl b ↦
            rw (d, b, try_compactify)
              (
                record {
                  offset-le = omega arith;
                  word_end = st.word_end;
                  past = λ i h. absurd (omega arith);
                  waiting = λ i h.
                      flagged-drop p.data_array k i
                      ∙ st.waiting (k + i) (omega (arith, st.offset-le))
                      ∙ ap f {x = p.offset + (k + i)} {y = p.begin + i}
                          (omega (arith, st.offset-le));
                  unknown = st.unknown;
                  covered =
                      λ h. omega (arith, st.covered h, length-drop k p.data_array, st.offset-le);
                },
                refl,
                refl,
              )
        | inr b ↦ rw (d, b, try_compactify) (st, refl, refl)
      ]

  -- The lines after the loop: nothing that is held is lost or renumbered.
  pub settle_lem :
      (p : OrderedEventsProcessor DataT) (f : ℕ → Option DataT)
      → Keeps p f
      → p.begin < 2 ^ 64
      → f p.begin ≡ none
      → let q = try_compactify (move_offset (extend_end p)) in Holds q f × (q.begin ≡ p.begin)
  settle_lem p f st w m =
      let (s1, l1, b1) = extend_end_lem p f st w in
      let (s2, b2, e2) = move_offset_lem (extend_end p) f s1 in
      let (s3, b3, e3) =
        try_compactify_lem (move_offset (extend_end p)) f s2 (omega (arith, l1, b1, b2, e2)) in
      let b = b3 ∙ b2 ∙ b1 in
      (record { stored = s3; begin-le = omega (arith, b, l1, e2, e3); missing = ap f b ∙ m }, b)
