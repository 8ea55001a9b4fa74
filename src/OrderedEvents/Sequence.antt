-- ===== src/OrderedEvents/Sequence.antt =====
-- Sequences of add on an OrderedEventsProcessor (td/utils/OrderedEventsProcessor.h).
use mathlib.Core.Option.{none-ne-some}
use tdutils.Base.{
  All, All-map, ap, arith, Bool-cases, Distinct, if◌then◌else◌, inl, inr, List, ltb, ltb→ge, ltb→lt,
  map, none, Option, refl, some, sym, ℕ, ==_iff, [], ◌++◌, ◌+◌, ◌<◌, ◌==◌, ◌^◌, ◌∙◌, ◌∷◌, ◌≡◌, ◌≢◌,
  ◌≤◌,
}
use tdutils.OrderedEvents.{add, OrderedEventsProcessor, started}
use tdutils.OrderedEvents.State.{
  Delivers, hand_out, Holds, started-Holds, stop, with_event, with_event_other,
}
use tdutils.OrderedEvents.Add.{add_correct, Added}

module _ {ℓ} {DataT : Type ℓ} where
  -- The two parts of a run.
  abbrev and_then :
      {S : Type ℓ}
      → Option (List (ℕ × DataT) × S)
      → (S → Option (List (ℕ × DataT) × S))
      → Option (List (ℕ × DataT) × S)
  and_then none next = none
  and_then (some (events, s)) next = elim (next s) [
    | none ↦ none
    | some (more, s') ↦ some (events ++ more, s')
  ]

  -- All events that a sequence of calls hands out, and the processor after them.
  unfoldable pub run :
      DataT
      → List (ℕ × DataT)
      → OrderedEventsProcessor DataT
      → Option (List (ℕ × DataT) × OrderedEventsProcessor DataT)
  run blank [] p = some ([], p)
  run blank ((s, content) ∷ calls) p = and_then (add blank p s content) (run blank calls)

  -- The events of a sequence of calls by their sequence numbers.
  unfoldable pub added : (ℕ → Option DataT) → List (ℕ × DataT) → ℕ → Option DataT
  added f [] = f
  added f ((s, content) ∷ calls) = added (with_event f s content) calls

  -- The processor holds `f`, and of `f` everything from `offset` up to `begin` was handed out.
  record Serves (offset : ℕ) (p : OrderedEventsProcessor DataT) (f : ℕ → Option DataT)
      : Type ℓ where
    holds : Holds p f
    served : (t : ℕ) → offset ≤ t → t < p.begin → f t ≢ none

  Delivers-le :
      {f : ℕ → Option DataT} {b b' : ℕ} {events : List (ℕ × DataT)}
      → Delivers f b events b'
      → b ≤ b'
  Delivers-le stop = omega arith
  Delivers-le (hand_out e d) = omega (arith, Delivers-le d)

  Delivers-some :
      {f : ℕ → Option DataT} {b b' : ℕ} {events : List (ℕ × DataT)}
      → Delivers f b events b'
      → (t : ℕ) → b ≤ t
      → t < b'
      → f t ≢ none
  Delivers-some stop t l m = absurd (omega arith)
  Delivers-some {f} {b = b} (hand_out {content = content} e d) t l m = elim (Bool-cases (t == b)) [
    | inl q ↦ λ n. none-ne-some content (sym n ∙ ap f ((==_iff t b).0 q) ∙ e)
    | inr q ↦ Delivers-some d t (ground arith) m
  ]

  Delivers-agree :
      {f g : ℕ → Option DataT} {b b' : ℕ} {events : List (ℕ × DataT)}
      → ((t : ℕ) → t < b' → g t ≡ f t)
      → Delivers f b events b'
      → Delivers g b events b'
  Delivers-agree same stop = stop
  Delivers-agree {b = b} same (hand_out e d) =
      hand_out (same b (omega (arith, Delivers-le d)) ∙ e) (Delivers-agree same d)

  Delivers-append :
      {f : ℕ → Option DataT} {a b c : ℕ} {events more : List (ℕ × DataT)}
      → Delivers f a events b
      → Delivers f b more c
      → Delivers f a (events ++ more) c
  Delivers-append stop d = d
  Delivers-append (hand_out e d') d = hand_out e (Delivers-append d' d)

  abbrev pub numbers : List (ℕ × DataT) → List ℕ
  numbers calls = map (λ (c : ℕ × DataT). c.0) calls

  -- Later calls bring other events.
  added-other :
      (calls : List (ℕ × DataT)) (f : ℕ → Option DataT) (t : ℕ)
      → All (λ s. t ≢ s) (numbers calls)
      → added f calls t ≡ f t
  unfolding added
  added-other [] f t h = refl
  added-other ((s, content) ∷ calls) f t (ne, h) =
      added-other calls (with_event f s content) t h ∙ with_event_other f s content t ne

  Serves-add :
      (offset : ℕ) (p : OrderedEventsProcessor DataT) (f : ℕ → Option DataT) (s : ℕ)
      (content : DataT) {r : Option (List (ℕ × DataT) × OrderedEventsProcessor DataT)}
      → Serves offset p f
      → (a : Added p (with_event f s content) r) → Serves offset a.after (with_event f s content)
  Serves-add offset p f s content v a = record {
    holds = a.holds;
    served = λ t l m. elim (Bool-cases (ltb t p.begin)) [
      | inl b ↦ elim (Bool-cases (t == s)) [
        | inl q ↦ λ n. none-ne-some content (sym n ∙ ap (λ b'. if b' then some content else f t) q)
        | inr q ↦ λ n.
            v.served t l (ltb→lt _ _ b) (sym (ap (λ b'. if b' then some content else f t) q) ∙ n)
      ]
      | inr b ↦ Delivers-some a.handed t (ltb→ge _ _ b) m
    ];
  }

  abbrev Fresh : ℕ → (ℕ → Option DataT) → ℕ → Type ℓ
  Fresh offset f s = (offset ≤ s) × (s + 1 < 2 ^ 64) × (f s ≡ none)

  still-Fresh :
      (offset : ℕ) (f : ℕ → Option DataT) (s : ℕ) (content : DataT) (later : List ℕ)
      → All (Fresh offset f) later
      → All (λ t. t ≢ s) later
      → All (Fresh offset (with_event f s content)) later
  still-Fresh offset f s content [] h ne = tt
  still-Fresh offset f s content (t ∷ later) ((lo, w, new), h) (n, ne) =
      ((lo, w, with_event_other f s content t n ∙ new), still-Fresh offset f s content later h ne)

  not_later :
      (offset : ℕ) (p : OrderedEventsProcessor DataT) (f : ℕ → Option DataT) (t : ℕ)
      (later : List ℕ)
      → Serves offset p f
      → t < p.begin
      → All (Fresh offset f) later
      → All (λ s. t ≢ s) later
  not_later offset p f t [] v l h = tt
  not_later offset p f t (s ∷ later) v l ((lo, w, new), h) =
      (λ e. v.served s lo (omega (arith, e)) new, not_later offset p f t later v l h)

  record Ran (p : OrderedEventsProcessor DataT) (f : ℕ → Option DataT)
      (r : Option (List (ℕ × DataT) × OrderedEventsProcessor DataT)) : Type ℓ where
    events : List (ℕ × DataT)
    after : OrderedEventsProcessor DataT
    result : r ≡ some (events, after)
    handed : Delivers f p.begin events after.begin
    holds : Holds after f

  Ran-cons :
      (blank : DataT) (offset : ℕ) (s : ℕ) (content : DataT) (calls : List (ℕ × DataT))
      (p : OrderedEventsProcessor DataT) (f : ℕ → Option DataT)
      → Serves offset p f
      → All (Fresh offset f) (s ∷ numbers calls)
      → Distinct (s ∷ numbers calls)
      → ((q : OrderedEventsProcessor DataT) (g : ℕ → Option DataT)
          → Serves offset q g
          → All (Fresh offset g) (numbers calls)
          → Ran q (added g calls) (run blank calls q))
      → Ran p (added f ((s, content) ∷ calls)) (run blank ((s, content) ∷ calls) p)
  unfolding run added
  Ran-cons blank offset s content calls p f v ((lo, w, new), h) (ne, d) later =
      elim (add_correct blank p f s content v.holds w) [
        | inl (l, _) ↦ absurd (v.served s lo l new)
        | inr (l, a) ↦
            let g = with_event f s content in
            let v' = Serves-add offset p f s content v a in
            let h' = still-Fresh offset f s content (numbers calls) h ne in
            let r = later a.after g v' h' in
            record {
              events = a.events ++ r.events;
              after = r.after;
              result = rw (a.result, r.result, run) refl;
              handed =
                  Delivers-append
                    (Delivers-agree
                      (λ t l.
                        added-other calls g t
                          (not_later offset a.after g t (numbers calls) v' l h'))
                      a.handed)
                    r.handed;
              holds = r.holds;
            }
      ]

  run-Ran :
      (blank : DataT) (offset : ℕ) (calls : List (ℕ × DataT)) (p : OrderedEventsProcessor DataT)
      (f : ℕ → Option DataT)
      → Serves offset p f
      → All (Fresh offset f) (numbers calls)
      → Distinct (numbers calls)
      → Ran p (added f calls) (run blank calls p)
  unfolding run added
  run-Ran blank offset [] p f v h d = record {
    events = [];
    after = p;
    result = refl;
    handed = stop;
    holds = v.holds;
  }
  run-Ran blank offset ((s, content) ∷ calls) p f v h d =
      Ran-cons blank offset s content calls p f v h d
        (λ q g v' h'. run-Ran blank offset calls q g v' h' d.1)

  -- A new processor takes events with different sequence numbers, none below its first and all below
  -- 2 ^ 64 - 1, in any order:
  -- it refuses none, hands out those without a gap before them, each once and in order, and holds the
  -- others.
  pub run_correct :
      (blank : DataT) (offset : ℕ) (calls : List (ℕ × DataT))
      → offset < 2 ^ 64
      → All (λ s. (offset ≤ s) × (s + 1 < 2 ^ 64)) (numbers calls)
      → Distinct (numbers calls)
      → (events : List (ℕ × DataT)) × (after : OrderedEventsProcessor DataT) × (run blank calls
            (started offset)
          ≡ some (events, after))
        × Delivers (added (λ _. none) calls) offset events after.begin
        × Holds after (added (λ _. none) calls)
  run_correct blank offset calls w h d =
      let r =
        run-Ran blank offset calls (started offset) (λ _. none)
          (record { holds = started-Holds offset w; served = λ t l m. absurd (omega arith) })
          (All-map _ _ (λ s b. (b.0, b.1, refl)) (numbers calls) h) d in
      (r.events, r.after, r.result, r.handed, r.holds)
