-- ===== src/OrderedEvents/State.antt =====
-- What an OrderedEventsProcessor (td/utils/OrderedEventsProcessor.h) holds.
use tdutils.Base.{
  ap, arith, Bool, Bool-cases, false, get_elem?, get_elem?-set, if◌then◌else◌, inl, inr, length,
  List, ne→==, none, Option, refl, replicate, set, some, suc, true, zero, ℕ, ==-refl, ==_iff, [],
  ◌++◌, ◌+◌, ◌<◌, ◌==◌, ◌^◌, ◌∙◌, ◌∷◌, ◌≡◌, ◌≢◌, ◌≤◌, ◌⊎◌,
}
use tdutils.OrderedEvents.{next_seq_no, OrderedEventsProcessor, started}

pub next_seq_no-lt : (s : ℕ) → s + 1 < 2 ^ 64 → next_seq_no s ≡ s + 1
next_seq_no-lt s w = omega arith

module _ {ℓ} {DataT : Type ℓ} where
  abbrev pub flag_of : Option (DataT × Bool) → Option DataT
  flag_of none = none
  flag_of (some (content, true)) = some content
  flag_of (some (content, false)) = none

  -- The content at a position of the array whose flag is set.
  abbrev pub flagged : List (DataT × Bool) → ℕ → Option DataT
  flagged array i = flag_of (get_elem? array i)

  flag_of-if :
      (b : Bool) (x y : Option (DataT × Bool))
      → flag_of (if b then x else y) ≡ (if b then flag_of x else flag_of y)
  flag_of-if true x y = refl
  flag_of-if false x y = refl

  pub flagged-set :
      (array : List (DataT × Bool)) (i j : ℕ) (e : DataT × Bool)
      → i < length array
      → ((i ≡ j) × (flagged (set array i e) j ≡ flag_of (some e)))
        ⊎ ((i ≢ j) × (flagged (set array i e) j ≡ flagged array j))
  flagged-set array i j e h =
      let read =
        ap flag_of (get_elem?-set array i j e h)
        ∙ flag_of-if (i == j) (some e) (get_elem? array j) in
      elim (Bool-cases (i == j)) [
        | inl t ↦
            inl
              ((==_iff i j).0 t, read ∙ ap (λ b. if b then flag_of (some e) else flagged array j) t)
        | inr t ↦
            inr (ground arith, read ∙ ap (λ b. if b then flag_of (some e) else flagged array j) t)
      ]

  pub flagged-resize :
      (array : List (DataT × Bool)) (n : ℕ) (blank : DataT) (j : ℕ)
      → flagged (array ++ replicate n (blank, false)) j ≡ flagged array j
  flagged-resize [] zero blank j = refl
  flagged-resize [] (suc n) blank zero = refl
  flagged-resize [] (suc n) blank (suc j) = flagged-resize [] n blank j
  flagged-resize (e ∷ array) n blank zero = refl
  flagged-resize (e ∷ array) n blank (suc j) = flagged-resize array n blank j

  -- The processor's array against the events `f` that were added from `begin` on.
  pub record Stores (offset begin end : ℕ) (array : List (DataT × Bool)) (f : ℕ → Option DataT)
      : Type ℓ where
    pub offset-le : offset ≤ begin
    pub word_end : end < 2 ^ 64
    pub past : (i : ℕ) → offset + i < begin → flagged array i ≡ none
    pub waiting : (i : ℕ) → begin ≤ offset + i → flagged array i ≡ f (offset + i)
    pub unknown : (s : ℕ) → begin ≤ s → end ≤ s → f s ≡ none
    pub covered : begin < end → end ≤ offset + length array

  -- `f` hands out `events` from `begin` up to `begin'`.
  pub data Delivers (f : ℕ → Option DataT) : ℕ → List (ℕ × DataT) → ℕ → Type ℓ where
    stop : {b : ℕ} → Delivers f b [] b
    hand_out :
        {b b' : ℕ} {content : DataT} {events : List (ℕ × DataT)}
        → f b ≡ some content
        → Delivers f (b + 1) events b'
        → Delivers f b ((b, content) ∷ events) b'

  -- A processor that holds the events of `f` from `begin` on, with none of them due.
  pub record Holds (p : OrderedEventsProcessor DataT) (f : ℕ → Option DataT) : Type ℓ where
    pub stored : Stores p.offset p.begin p.end p.data_array f
    pub begin-le : p.begin ≤ p.end
    pub missing : f p.begin ≡ none

  -- `f` with the event that an add brings.
  abbrev pub with_event : (ℕ → Option DataT) → ℕ → DataT → ℕ → Option DataT
  with_event f s content t = if t == s then some content else f t

  pub with_event_same :
      (f : ℕ → Option DataT) (s : ℕ) (content : DataT) → with_event f s content s ≡ some content
  with_event_same f s content = rw (==-refl s) refl

  pub with_event_other :
      (f : ℕ → Option DataT) (s : ℕ) (content : DataT) (t : ℕ)
      → t ≢ s
      → with_event f s content t ≡ f t
  with_event_other f s content t ne = rw (ne→== t s ne) refl

  pub started-Holds : (offset : ℕ) → offset < 2 ^ 64 → Holds (started offset) (λ _. none)
  started-Holds offset h = record {
    stored = record {
      offset-le = omega arith;
      word_end = h;
      past = λ i p. refl;
      waiting = λ i p. refl;
      unknown = λ s p q. refl;
      covered = λ p. absurd (omega arith);
    };
    begin-le = omega arith;
    missing = refl;
  }
