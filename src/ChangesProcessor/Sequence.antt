-- ===== src/ChangesProcessor/Sequence.antt =====
-- Sequences of add and finish on a ChangesProcessor (td/utils/ChangesProcessor.h).
use mathlib.Core.Path.{subst}
use tdutils.Base.{
  ap, append-nil, append_assoc, arith, Bool, Bool-cases, false, inl, inr, length, length-append,
  length-drop, List, ltb, map, refl, suc, sym, true, zero, ℕ, [], ◌++◌, ◌+◌, ◌-◌, ◌<◌, ◌^◌, ◌∙◌,
  ◌∷◌, ◌≡◌,
}
use tdutils.Base.Slices.{drop-append}
use tdutils.Base.Words.{advance-lt}
use tdutils.ChangesProcessor.{add, ChangesProcessor, finish, new_processor, set_finished}
use tdutils.ChangesProcessor.Marks.{
  finish_token, finish_token-finish_pending, finished, take_ready-finished,
}
use tdutils.ChangesProcessor.Pending.{
  finish_correct, finish_pending, IsBlocked, length-set_finished, set_finished-mark, take_ready,
  Waits,
}

pub data Call {ℓ} (DataT : Type ℓ) : Type ℓ where
  add_call : DataT → Call DataT
  finish_call : ℕ → Call DataT

module _ {ℓ} {DataT : Type ℓ} where
  -- The changes that a sequence of calls processes, and the processor after it.
  unfoldable pub run :
      List (Call DataT) → ChangesProcessor DataT → List DataT × ChangesProcessor DataT
  run [] p = ([], p)
  run (add_call content ∷ calls) p = run calls ((add p content).1)
  run (finish_call token ∷ calls) p =
      let (done, q) = finish p token in let (more, r) = run calls q in (done ++ more, r)

  abbrev pub added : List (Call DataT) → List DataT
  added [] = []
  added (add_call content ∷ calls) = content ∷ added calls
  added (finish_call token ∷ calls) = added calls

  abbrev pub IsTokens : List (Call DataT) → Type 0
  IsTokens [] = Unit {0}
  IsTokens (add_call content ∷ calls) = IsTokens calls
  IsTokens (finish_call token ∷ calls) = (token < 2 ^ 64) × IsTokens calls

  abbrev pub contents : List (DataT × Bool) → List DataT
  contents changes = map (λ (c : DataT × Bool). c.0) changes

  IsBlocked-snoc :
      (changes : List (DataT × Bool)) (content : DataT)
      → IsBlocked changes
      → IsBlocked (changes ++ (content, false) ∷ [])
  IsBlocked-snoc [] content b = refl
  IsBlocked-snoc (change ∷ changes) content b = b

  -- add gives the change the token behind the last, and puts it behind the pending ones.
  add_token :
      (p : ChangesProcessor DataT) (first : ℕ) (changes : List (DataT × Bool)) (content : DataT)
      → Waits p first changes
      → first + length changes + 1 < 2 ^ 64
      → ((add p content).0 ≡ first + length changes)
        × Waits ((add p content).1) first (changes ++ (content, false) ∷ [])
  unfolding add
  add_token p first changes content w h =
      let n = length-drop p.ready_i p.data_array in
      let m = ap length w.pending in
      let l = length-append p.data_array ((content, false) ∷ []) in
      (
        advance-lt p.offset (length p.data_array) w.word
            ∙ omega (arith, n, m, w.in_range, w.numbered),
        record {
          in_range = omega (arith, w.in_range, l);
          numbered = w.numbered;
          pending =
              drop-append p.data_array ((content, false) ∷ []) p.ready_i w.in_range
              ∙ ap (λ t. t ++ (content, false) ∷ []) w.pending;
          word = omega (arith, h, n, m, l, w.in_range, w.numbered);
          blocked = IsBlocked-snoc changes content w.blocked;
        },
      )

  contents-set_finished :
      (changes : List (DataT × Bool)) (n : ℕ) → contents (set_finished changes n) ≡ contents changes
  unfolding set_finished
  contents-set_finished [] n = refl
  contents-set_finished ((content, flag) ∷ rest) zero = refl
  contents-set_finished ((content, flag) ∷ rest) (suc n) =
      ap (λ t. content ∷ t) (contents-set_finished rest n)

  contents-take_ready :
      (changes : List (DataT × Bool))
      → let (done, left) = take_ready changes in
        (done ++ contents left ≡ contents changes) × (length done + length left ≡ length changes)
  contents-take_ready [] = (refl, omega arith)
  contents-take_ready ((content, false) ∷ rest) = (refl, omega arith)
  contents-take_ready ((content, true) ∷ rest) =
      let (e, l) = contents-take_ready rest in (ap (λ t. content ∷ t) e, omega (arith, l))

  contents-finish :
      (first : ℕ) (changes : List (DataT × Bool)) (token : ℕ)
      → let (done, left) = finish_pending first changes token in
        (done ++ contents left ≡ contents changes) × (length done + length left ≡ length changes)
  contents-finish first changes token = elim (Bool-cases (ltb token first)) [
    | inl b ↦ rw b (refl, omega arith)
    | inr b ↦
        let marked = set_finished changes (token - first) in
        let (e, l) = contents-take_ready marked in
        rw (b, ← set_finished-mark changes (token - first))
          (
            e ∙ contents-set_finished changes (token - first),
            l ∙ length-set_finished changes (token - first),
          )
  ]

  contents-snoc :
      (changes : List (DataT × Bool)) (content : DataT) (later : List DataT)
      → contents (changes ++ (content, false) ∷ []) ++ later ≡ contents changes ++ content ∷ later
  contents-snoc [] content later = refl
  contents-snoc ((c, flag) ∷ changes) content later =
      ap (λ t. c ∷ t) (contents-snoc changes content later)

  -- The changes `h` after the calls, in the order of their addition, each with whether a finish
  -- named its token after it was added. The first change has the token 1.
  abbrev pub history : List (DataT × Bool) → List (Call DataT) → List (DataT × Bool)
  history h [] = h
  history h (add_call content ∷ calls) = history (h ++ (content, false) ∷ []) calls
  history h (finish_call token ∷ calls) = history (finish_token h token) calls

  contents-finish_token :
      (h : List (DataT × Bool)) (token : ℕ) → contents (finish_token h token) ≡ contents h
  contents-finish_token h zero = refl
  contents-finish_token h (suc n) =
      ap contents (sym (set_finished-mark h n)) ∙ contents-set_finished h n

  contents-history :
      (h : List (DataT × Bool)) (calls : List (Call DataT))
      → contents (history h calls) ≡ contents h ++ added calls
  contents-history h [] = sym (append-nil (contents h))
  contents-history h (add_call content ∷ calls) =
      contents-history (h ++ (content, false) ∷ []) calls ∙ contents-snoc h content (added calls)
  contents-history h (finish_call token ∷ calls) =
      contents-history (finish_token h token) calls
      ∙ ap (λ t. t ++ added calls) (contents-finish_token h token)

  -- The processor at the end of a history in which `ready` is finished.
  record AtEnd (ready : List DataT × List (DataT × Bool)) (before : List DataT)
      (r : List DataT × ChangesProcessor DataT) : Type ℓ where
    processed : before ++ r.0 ≡ ready.0
    waits : Waits r.1 (1 + length ready.0) ready.1

  run-AtEnd :
      (calls : List (Call DataT)) (p : ChangesProcessor DataT) (h : List (DataT × Bool))
      (done : List DataT) (left : List (DataT × Bool))
      → h ≡ finished done ++ left
      → Waits p (1 + length done) left
      → IsTokens calls
      → 1 + length done + length left + length (added calls) < 2 ^ 64
      → AtEnd (take_ready (history h calls)) done (run calls p)
  unfolding run
  run-AtEnd [] p h done left e w t b =
      let ready : take_ready h ≡ (done, left) =
        ap take_ready e ∙ take_ready-finished done left w.blocked in
      subst (λ q. AtEnd q done ([], p)) (sym ready)
        (record { processed = append-nil done; waits = w })
  run-AtEnd (add_call content ∷ calls) p h done left e w t b =
      let (_, v) = add_token p (1 + length done) left content w (omega (arith, b)) in
      let r =
        run-AtEnd calls _ (h ++ (content, false) ∷ []) done (left ++ (content, false) ∷ [])
          (ap (λ l. l ++ (content, false) ∷ []) e ∙ append_assoc (finished done) left _) v t
          (omega (arith, b, length-append left ((content, false) ∷ []))) in
      record { processed = r.processed; waits = r.waits }
  run-AtEnd (finish_call token ∷ calls) p h done left e w (k, t) b =
      let f = finish_correct p (1 + length done) left token w k in
      let (_, l) = contents-finish (1 + length done) left token in
      let (more, rest) = finish_pending (1 + length done) left token in
      let n = length-append done more in
      let r =
        run-AtEnd calls ((finish p token).1) (finish_token h token) (done ++ more) rest
          (ap (λ x. finish_token x token) e ∙ finish_token-finish_pending done left token)
          (subst (λ i. Waits (finish p token).1 i rest) {x = 1 + length done + length more}
            {y = 1 + length (done ++ more)} (omega (arith, n)) f.waits)
          t (omega (arith, b, l, n)) in
      record {
        processed =
            ap (λ x. done ++ (x ++ (run calls ((finish p token).1)).0)) f.processed
            ∙ sym (append_assoc done more ((run calls ((finish p token).1)).0))
            ∙ r.processed;
        waits = r.waits;
      }

  new-Waits : Waits {DataT = DataT} new_processor 1 []
  new-Waits = record {
    in_range = omega arith;
    numbered = omega arith;
    pending = refl;
    word = omega arith;
    blocked = tt;
  }

  -- Whatever is added to a new processor, fewer than 2 ^ 64 - 1 changes, and finished by tokens below
  -- 2 ^ 64, in whichever order: of all added changes in the order of their addition, the processed ones are those in
  -- front of the first that no finish has named by its token after it was added, in this order, and
  -- the processor waits for this one, with the token that follows those of the processed ones.
  pub processed_in_order :
      (calls : List (Call DataT))
      → IsTokens calls
      → 1 + length (added calls) < 2 ^ 64
      → let (done, left) = take_ready (history [] calls) in
        ((run calls new_processor).0 ≡ done)
        × Waits (run calls new_processor).1 (1 + length done) left
        × (done ++ contents left ≡ added calls)
  processed_in_order calls t h =
      let r = run-AtEnd calls new_processor [] [] [] refl new-Waits t (omega (arith, h)) in
      (r.processed, r.waits, (contents-take_ready (history [] calls)).0 ∙ contents-history [] calls)
