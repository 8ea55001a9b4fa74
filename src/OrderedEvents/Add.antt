-- ===== src/OrderedEvents/Add.antt =====
-- OrderedEventsProcessor::add (td/utils/OrderedEventsProcessor.h) on both of its branches.
use mathlib.Core.Option.{none-ne-some}
use mathlib.Core.Path.{subst}
use tdutils.Base.{
  ap, arith, Bool, Bool-cases, false, if◌then◌else◌, inl, inr, length, length-append,
  length-replicate, length-set, List, ltb, ltb→ge, ltb→lt, max, none, Option, refl, replicate, some,
  suc, sym, true, ℕ, ==_iff, [], ◌+◌, ◌-◌, ◌<◌, ◌==◌, ◌^◌, ◌∙◌, ◌∷◌, ◌≡◌, ◌≢◌, ◌≤◌, ◌⊎◌,
}
use tdutils.Base.Words.{distance-le}
use tdutils.OrderedEvents.{
  add, extend_end, keep, move_offset, OrderedEventsProcessor, resize, run_now, try_compactify,
}
use tdutils.OrderedEvents.State.{
  Delivers, flagged, flagged-resize, flagged-set, hand_out, Holds, next_seq_no-lt, stop, Stores,
  with_event, with_event_other, with_event_same,
}
use tdutils.OrderedEvents.Deliver.{drain_lem}
use tdutils.OrderedEvents.Settle.{settle_lem}

suc_fuel : (a b : ℕ) → a - b + 1 ≡ suc (a - b)
suc_fuel a b = omega arith

later_end : (a b : ℕ) → (if ltb a b then b else a) ≡ max a b
later_end a b = ground arith

module _ {ℓ} {DataT : Type ℓ} where
  -- What add promises: it hands out every event that is due, in order, and holds the others.
  pub record Added (p : OrderedEventsProcessor DataT) (f : ℕ → Option DataT)
      (r : Option (List (ℕ × DataT) × OrderedEventsProcessor DataT)) : Type ℓ where
    pub events : List (ℕ × DataT)
    pub after : OrderedEventsProcessor DataT
    pub result : r ≡ some (events, after)
    pub handed : Delivers f p.begin events after.begin
    pub holds : Holds after f

  -- Before the loop of the first branch the event itself is gone already.
  Stores-taken :
      (p : OrderedEventsProcessor DataT) (f : ℕ → Option DataT) (content : DataT)
      → Holds p f
      → Stores p.offset (p.begin + 1) p.end p.data_array (with_event f p.begin content)
  Stores-taken p f content h =
      let st = h.stored in
      record {
        offset-le = omega (arith, st.offset-le);
        word_end = st.word_end;
        past = λ i l. elim (Bool-cases (ltb (p.offset + i) p.begin)) [
          | inl b ↦ st.past i (ltb→lt _ _ b)
          | inr b ↦
              let e = ltb→ge (p.offset + i) p.begin b in
              st.waiting i e
              ∙ ap f {x = p.offset + i} {y = p.begin} (omega (arith, e, l))
              ∙ h.missing
        ];
        waiting = λ i l.
            st.waiting i (omega arith)
            ∙ sym (with_event_other f p.begin content (p.offset + i) (omega (arith, l)));
        unknown = λ s l k.
            with_event_other f p.begin content s (omega (arith, l)) ∙ st.unknown s (omega arith) k;
        covered = λ l. st.covered (omega arith);
      }

  -- What is handed out was added, so it ends where nothing was.
  begin-bound :
      {f : ℕ → Option DataT} {b b' : ℕ} {events : List (ℕ × DataT)} (n : ℕ)
      → ((s : ℕ) → b ≤ s → n ≤ s → f s ≡ none)
      → b ≤ n
      → Delivers f b events b'
      → b' ≤ n
  begin-bound n u l stop = l
  begin-bound {b = b} n u l (hand_out {content = content} e d) = elim (Bool-cases (ltb b n)) [
    | inl t ↦ begin-bound n (λ s k. u s (omega arith)) (omega (arith, ltb→lt b n t)) d
    | inr t ↦ absurd (none-ne-some content (sym (u b (omega arith) (ltb→ge b n t)) ∙ e))
  ]

  run_now_lem :
      (p : OrderedEventsProcessor DataT) (f : ℕ → Option DataT) (content : DataT)
      → Holds p f
      → p.begin + 1 < 2 ^ 64
      → Added p (with_event f p.begin content) (run_now p content)
  unfolding run_now
  run_now_lem p f content h w =
      let g = with_event f p.begin content in
      let st = Stores-taken p f content h in
      let d = drain_lem (p.end - p.begin) {begin = p.begin + 1} {end = p.end} (omega arith) st in
      let n = max p.end (p.begin + 1) in
      let bound = begin-bound n (λ s l k. st.unknown s l (omega arith)) (omega arith) d.handed in
      let q = record p { data_array = d.array'; begin = d.begin' } in
      let (holds, same) =
        settle_lem q g d.stores (omega (arith, bound, st.word_end)) d.next_missing in
      record {
        events = (p.begin, content) ∷ d.events;
        after = try_compactify (move_offset (extend_end q));
        result = rw (next_seq_no-lt p.begin w, suc_fuel p.end p.begin, d.result, run_now) refl;
        handed =
            hand_out (with_event_same f p.begin content)
              (subst (λ b. Delivers g (p.begin + 1) d.events b) (sym same) d.handed);
        holds = holds;
      }

  resize_lem :
      (blank : DataT) (array : List (DataT × Bool)) (at : ℕ)
      → (at < length (resize blank array at))
        × (length array ≤ length (resize blank array at))
        × ((i : ℕ) → flagged (resize blank array at) i ≡ flagged array i)
  unfolding resize
  resize_lem blank array at = elim (Bool-cases (ltb (length array) (at + 1))) [
    | inl b ↦
        let more = replicate (at + 1 - length array) (blank, false) in
        let n =
          length-append array more
          ∙ ap (λ k. length array + k) (length-replicate (at + 1 - length array) (blank, false)) in
        let l = ltb→lt _ _ b in
        rw (b, resize)
          (
            omega (arith, n, l),
            omega (arith, n),
            λ i. flagged-resize array (at + 1 - length array) blank i,
          )
    | inr b ↦ rw (b, resize) (omega (arith, ltb→ge _ _ b), omega arith, λ i. refl)
  ]

  keep_lem :
      (blank : DataT) (p : OrderedEventsProcessor DataT) (f : ℕ → Option DataT) (s : ℕ)
      (content : DataT)
      → Holds p f
      → p.begin < s
      → s + 1 < 2 ^ 64
      → Holds (keep blank p s content) (with_event f s content)
  unfolding keep
  keep_lem blank p f s content h l w =
      let st = h.stored in
      let at = s - p.offset in
      let d = distance-le s p.offset (omega (arith, st.offset-le)) (omega arith) in
      let (room, longer, same) = resize_lem blank p.data_array at in
      let array = resize blank p.data_array at in
      let read = λ (i : ℕ). flagged-set array at i (content, true) room in
      let other = λ (t : ℕ) (ne : t ≢ s). with_event_other f s content t ne in
      rw (d, next_seq_no-lt s w, later_end p.end (s + 1), keep)
        (record {
          stored = record {
            offset-le = st.offset-le;
            word_end = omega (arith, st.word_end);
            past = λ i k. elim (read i) [
              | inl (e, r) ↦ absurd (omega (arith, st.offset-le))
              | inr (ne, r) ↦ r ∙ same i ∙ st.past i k
            ];
            waiting = λ i k. elim (read i) [
              | inl (e, r) ↦
                  r
                  ∙ sym (
                      ap (with_event f s content) {x = p.offset + i} {y = s}
                        (omega (arith, e, st.offset-le))
                      ∙ with_event_same f s content)
              | inr (ne, r) ↦
                  r
                  ∙ same i
                  ∙ st.waiting i k
                  ∙ sym (other (p.offset + i) (omega (arith, ne, st.offset-le)))
            ];
            unknown = λ t k m. other t (omega (arith, m)) ∙ st.unknown t k (omega (arith, m));
            covered = λ k. elim (Bool-cases (ltb p.begin p.end)) [
              | inl b ↦ omega (
                arith,
                length-set array at (content, true),
                room,
                longer,
                st.covered (ltb→lt _ _ b),
                st.offset-le,
              )
              | inr b ↦
                  omega
                    (arith, length-set array at (content, true), room, ltb→ge _ _ b, st.offset-le)
            ];
          };
          begin-le = omega (arith, h.begin-le);
          missing = other p.begin (omega (arith, l)) ∙ h.missing;
        })

  -- A processor holds events from `begin` on, none of them under the number `begin`. add refuses
  -- a number below `begin`. On `begin` itself it hands out the event and those held under the numbers
  -- right behind it, in order, and holds the later ones; on every greater number below 2 ^ 64 - 1 it
  -- hands out nothing and holds the event, in place of one that it held under this number, beside
  -- those that it held under others.
  pub add_correct :
      (blank : DataT) (p : OrderedEventsProcessor DataT) (f : ℕ → Option DataT) (s : ℕ)
      (content : DataT)
      → Holds p f
      → s + 1 < 2 ^ 64
      → (s < p.begin × (add blank p s content ≡ none))
        ⊎ (p.begin ≤ s × Added p (with_event f s content) (add blank p s content))
  unfolding add keep
  add_correct blank p f s content h w = elim (Bool-cases (ltb s p.begin)) [
    | inl b ↦ inl (ltb→lt _ _ b, rw (b, add) refl)
    | inr b ↦ elim (Bool-cases (s == p.begin)) [
      | inl e ↦ inr (
        ltb→ge _ _ b,
        rw (b, e, add)
            (let same = (==_iff s p.begin).0 e in
              subst (λ t. Added p (with_event f t content) (run_now p content)) (sym same)
                (run_now_lem p f content h (omega (arith, same)))),
      )
      | inr e ↦ inr (
        ltb→ge _ _ b,
        rw (b, e, add)
            (record {
              events = [];
              after = keep blank p s content;
              result = refl;
              handed = stop;
              holds = keep_lem blank p f s content h (ground arith) w;
            }),
      )
    ]
  ]
