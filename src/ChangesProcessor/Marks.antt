-- ===== src/ChangesProcessor/Marks.antt =====
-- What a finish of td/utils/ChangesProcessor.h does to the list of all changes ever added: the
-- finished ones in front, then the pending ones.
use tdutils.Base.{
  ap, append-nil, append_assoc, arith, Bool, Bool-cases, inl, inr, length, List, lt→ltb, ltb,
  ltb→ge, ltb→lt, refl, suc, sym, true, false, zero, ℕ, [], ◌++◌, ◌+◌, ◌-◌, ◌<◌, ◌∙◌, ◌∷◌, ◌≡◌, ◌≤◌,
}
use tdutils.ChangesProcessor.Pending.{
  finish_pending, IsBlocked, mark, take_ready, take_ready-IsBlocked,
}

module _ {ℓ} {DataT : Type ℓ} where
  -- The change of a token is marked; the first change has the token 1.
  abbrev pub finish_token : List (DataT × Bool) → ℕ → List (DataT × Bool)
  finish_token h zero = h
  finish_token h (suc n) = mark h n

  abbrev pub finished : List DataT → List (DataT × Bool)
  finished [] = []
  finished (content ∷ done) = (content, true) ∷ finished done

  finished-append : (a b : List DataT) → finished (a ++ b) ≡ finished a ++ finished b
  finished-append [] b = refl
  finished-append (content ∷ a) b = ap (λ t. (content, true) ∷ t) (finished-append a b)

  take_ready-split :
      (xs : List (DataT × Bool)) → let (done, left) = take_ready xs in xs ≡ finished done ++ left
  take_ready-split [] = refl
  take_ready-split ((content, false) ∷ rest) = refl
  take_ready-split ((content, true) ∷ rest) = ap (λ t. (content, true) ∷ t) (take_ready-split rest)

  pub take_ready-finished :
      (done : List DataT) (left : List (DataT × Bool))
      → IsBlocked left
      → take_ready (finished done ++ left) ≡ (done, left)
  take_ready-finished [] left b = take_ready-IsBlocked left b
  take_ready-finished (content ∷ done) left b =
      ap (λ (p : List DataT × List (DataT × Bool)). (content ∷ p.0, p.1))
        (take_ready-finished done left b)

  mark-finished :
      (done : List DataT) (left : List (DataT × Bool)) (n : ℕ)
      → n < length done
      → mark (finished done ++ left) n ≡ finished done ++ left
  mark-finished [] left n h = absurd (omega arith)
  mark-finished (content ∷ done) left zero h = refl
  mark-finished (content ∷ done) left (suc n) h =
      ap (λ t. (content, true) ∷ t) (mark-finished done left n (omega arith))

  mark_behind :
      (done : List DataT) (left : List (DataT × Bool)) (n : ℕ)
      → length done ≤ n
      → mark (finished done ++ left) n ≡ finished done ++ mark left (n - length done)
  mark_behind [] left n h = ap (mark left) {x = n} {y = n - 0} (omega arith)
  mark_behind (content ∷ done) left zero h = absurd (omega arith)
  mark_behind (content ∷ done) left (suc n) h =
      ap (λ t. (content, true) ∷ t)
        (mark_behind done left n (omega arith)
          ∙ ap (λ k. finished done ++ mark left k) {x = n - length done}
              {y = suc n - suc (length done)} (omega arith))

  -- The history after a finish is what was processed, and then what is left.
  pub finish_token-finish_pending :
      (done : List DataT) (left : List (DataT × Bool)) (token : ℕ)
      → let (more, rest) = finish_pending (1 + length done) left token in
        finish_token (finished done ++ left) token ≡ finished (done ++ more) ++ rest
  finish_token-finish_pending done left zero =
      rw (lt→ltb 0 (1 + length done) (omega arith), append-nil done) refl
  finish_token-finish_pending done left (suc n) =
      elim (Bool-cases (ltb (suc n) (1 + length done))) [
        | inl b ↦
            let less = ltb→lt (suc n) (1 + length done) b in
            rw (b, append-nil done) (mark-finished done left n (omega arith))
        | inr b ↦
            let ge = ltb→ge (suc n) (1 + length done) b in
            let k = suc n - (1 + length done) in
            let (more, rest) = take_ready (mark left k) in
            rw (b, finished-append done more)
              (mark_behind done left n (omega arith)
                ∙ ap (λ i. finished done ++ mark left i) {x = n - length done} {y = k} (omega arith)
                ∙ ap (λ t. finished done ++ t) (take_ready-split (mark left k))
                ∙ sym (append_assoc (finished done) (finished more) rest))
      ]
