-- ===== src/ChangesProcessor/Pending.antt =====
-- A ChangesProcessor (td/utils/ChangesProcessor.h) as the list of the changes that are not processed.
use mathlib.Core.Path.{subst}
use tdutils.Base.{
  ap, arith, Bool, Bool-cases, drop, drop_all, false, if◌then◌else◌, inl, inr, leb, leb→le, length,
  length-drop, List, ltb, ltb→ge, ltb→lt, refl, suc, sym, take, true, zero, ℕ, [], ◌&&◌, ◌*◌, ◌++◌,
  ◌+◌, ◌-◌, ◌<◌, ◌^◌, ◌∙◌, ◌∷◌, ◌≡◌, ◌≤◌,
}
use tdutils.Base.Slices.{drop-drop}
use tdutils.Base.Words.{advance-lt, distance, distance-le}
use tdutils.ChangesProcessor.{ChangesProcessor, finish, process_ready, set_finished, try_compactify}

module _ {ℓ} {DataT : Type ℓ} where
  -- The change in front is not finished.
  abbrev pub IsBlocked : List (DataT × Bool) → Type 0
  IsBlocked [] = Unit {0}
  IsBlocked ((content, flag) ∷ rest) = flag ≡ false

  -- `first` is the token of the change in front of `changes`.
  pub record Waits (p : ChangesProcessor DataT) (first : ℕ) (changes : List (DataT × Bool))
      : Type ℓ where
    pub in_range : p.ready_i ≤ length p.data_array
    pub numbered : first ≡ p.offset + p.ready_i
    pub pending : drop p.ready_i p.data_array ≡ changes
    pub word : p.offset + length p.data_array < 2 ^ 64
    pub blocked : IsBlocked changes

  -- The list with a flag set in front.
  abbrev pub mark_first : List (DataT × Bool) → List (DataT × Bool)
  mark_first [] = []
  mark_first ((content, flag) ∷ rest) = (content, true) ∷ rest

  -- The list with the flag at position `n` set, if there is one.
  abbrev pub mark : List (DataT × Bool) → ℕ → List (DataT × Bool)
  mark changes n = take n changes ++ mark_first (drop n changes)

  -- What is finished in front, and the rest from the first change that is not finished.
  abbrev pub take_ready : List (DataT × Bool) → List DataT × List (DataT × Bool)
  take_ready [] = ([], [])
  take_ready ((content, false) ∷ rest) = ([], (content, false) ∷ rest)
  take_ready ((content, true) ∷ rest) = let (done, left) = take_ready rest in (content ∷ done, left)

  -- The specification of finish: mark the change of the token, if it is pending, and take what is
  -- finished from the front.
  abbrev pub finish_pending : ℕ → List (DataT × Bool) → ℕ → List DataT × List (DataT × Bool)
  finish_pending first changes token =
      if ltb token first then ([], changes) else take_ready (mark changes (token - first))

  -- The loop is take_ready, and counts what it takes.
  process_ready_lem :
      (array : List (DataT × Bool)) (i : ℕ)
      → let (processed, j) = process_ready array i in
        let (done, left) = take_ready array in
        (processed ≡ done)
        × (j ≡ i + length done)
        × (j ≤ i + length array)
        × (drop (j - i) array ≡ left)
        × IsBlocked left
  unfolding process_ready
  process_ready_lem [] i = (refl, omega arith, omega arith, drop_all [] (i - i) (omega arith), tt)
  process_ready_lem ((content, false) ∷ rest) i = (
    refl,
    omega arith,
    omega arith,
    ap (λ k. drop k ((content, false) ∷ rest)) {x = i - i} {y = 0} (omega arith),
    refl,
  )
  process_ready_lem ((content, true) ∷ rest) i =
      let (p, a, b, d, k) = process_ready_lem rest (i + 1) in
      let j = (process_ready rest (i + 1)).1 in
      (
        ap (λ t. content ∷ t) p,
        omega (arith, a),
        omega (arith, b),
        ap (λ n. drop n ((content, true) ∷ rest)) {x = j - i} {y = suc (j - (i + 1))}
              (omega (arith, a))
            ∙ d,
        k,
      )

  pub take_ready-IsBlocked : (xs : List (DataT × Bool)) → IsBlocked xs → take_ready xs ≡ ([], xs)
  take_ready-IsBlocked [] b = refl
  take_ready-IsBlocked ((content, false) ∷ rest) b = refl
  take_ready-IsBlocked ((content, true) ∷ rest) b = cc

  pub length-set_finished :
      (xs : List (DataT × Bool)) (n : ℕ) → length (set_finished xs n) ≡ length xs
  unfolding set_finished
  length-set_finished [] n = refl
  length-set_finished ((content, flag) ∷ rest) zero = refl
  length-set_finished (change ∷ rest) (suc n) = ap suc (length-set_finished rest n)

  pub set_finished-mark : (xs : List (DataT × Bool)) (n : ℕ) → set_finished xs n ≡ mark xs n
  unfolding set_finished
  set_finished-mark [] zero = refl
  set_finished-mark [] (suc n) = refl
  set_finished-mark ((content, flag) ∷ rest) zero = refl
  set_finished-mark (change ∷ rest) (suc n) = ap (λ t. change ∷ t) (set_finished-mark rest n)

  set_finished_beyond : (xs : List (DataT × Bool)) (n : ℕ) → length xs ≤ n → set_finished xs n ≡ xs
  unfolding set_finished
  set_finished_beyond [] n h = refl
  set_finished_beyond (change ∷ rest) zero h = absurd (omega arith)
  set_finished_beyond (change ∷ rest) (suc n) h =
      ap (λ t. change ∷ t) (set_finished_beyond rest n (omega arith))

  drop-set_finished_before :
      (r : ℕ) (xs : List (DataT × Bool)) (n : ℕ) → n < r → drop r (set_finished xs n) ≡ drop r xs
  unfolding set_finished
  drop-set_finished_before zero xs n h = absurd (omega arith)
  drop-set_finished_before (suc r) [] n h = refl
  drop-set_finished_before (suc r) ((content, flag) ∷ rest) zero h = refl
  drop-set_finished_before (suc r) (change ∷ rest) (suc n) h =
      drop-set_finished_before r rest n (omega arith)

  drop-set_finished :
      (r : ℕ) (xs : List (DataT × Bool)) (n : ℕ)
      → drop r (set_finished xs (r + n)) ≡ set_finished (drop r xs) n
  unfolding set_finished
  drop-set_finished zero xs n = ap (set_finished xs) (omega arith)
  drop-set_finished (suc r) [] n = refl
  drop-set_finished (suc r) (change ∷ rest) n =
      ap (λ k. drop (suc r) (set_finished (change ∷ rest) k)) {x = suc r + n} {y = suc (r + n)}
        (omega arith)
      ∙ drop-set_finished r rest n

  try_compactify-Waits :
      (p : ChangesProcessor DataT) (first : ℕ) (changes : List (DataT × Bool))
      → Waits p first changes
      → Waits (try_compactify p) first changes
  unfolding try_compactify
  try_compactify-Waits p first changes w =
      elim (Bool-cases (ltb 5 p.ready_i && ltb (length p.data_array) (p.ready_i * 2))) [
        | inl b ↦
            rw
              (b, advance-lt p.offset p.ready_i (omega (arith, w.word, w.in_range)), try_compactify)
              (record {
                in_range = omega arith;
                numbered = omega (arith, w.numbered);
                pending = w.pending;
                word = omega (arith, w.word, w.in_range, length-drop p.ready_i p.data_array);
                blocked = w.blocked;
              })
        | inr b ↦ rw (b, try_compactify) w
      ]

  -- The loop over an array of the same length.
  process-Waits :
      (p : ChangesProcessor DataT) (array : List (DataT × Bool))
      → p.ready_i ≤ length p.data_array
      → p.offset + length p.data_array < 2 ^ 64
      → length array ≡ length p.data_array
      → let (processed, j) = process_ready (drop p.ready_i array) p.ready_i in
        let (done, left) = take_ready (drop p.ready_i array) in
        (processed ≡ done)
        × Waits
            (record p { ready_i = j; data_array = array })
            (p.offset + p.ready_i + length done)
            left
  process-Waits p array r w l =
      let i = p.ready_i in
      let (q, a, b, d, k) = process_ready_lem (drop i array) i in
      let j = (process_ready (drop i array) i).1 in
      (
        q,
        record {
          in_range = omega (arith, b, l, r, length-drop i array);
          numbered = omega (arith, a);
          pending =
              ap (λ n. drop n array) {x = j} {y = i + (j - i)} (omega (arith, a))
              ∙ sym (drop-drop i (j - i) array)
              ∙ d;
          word = omega (arith, w, l);
          blocked = k;
        },
      )

  -- What finish promises of its result.
  pub record Finished (first : ℕ) (s : List DataT × List (DataT × Bool))
      (r : List DataT × ChangesProcessor DataT) : Type ℓ where
    pub processed : r.0 ≡ s.0
    pub waits : Waits r.1 (first + length s.0) s.1

  Finished-array :
      (p : ChangesProcessor DataT) (first : ℕ) (changes : List (DataT × Bool)) (pos : ℕ)
      → Waits p first changes
      → let array = set_finished p.data_array pos in
        let (processed, j) = process_ready (drop p.ready_i array) p.ready_i in
        Finished first
          (take_ready (drop p.ready_i array))
          (processed, try_compactify (record p { ready_i = j; data_array = array }))
  Finished-array p first changes pos w =
      let array = set_finished p.data_array pos in
      let (e, v) = process-Waits p array w.in_range w.word (length-set_finished p.data_array pos) in
      let (done, left) = take_ready (drop p.ready_i array) in
      record {
        processed = e;
        waits =
            subst
              (λ n.
                Waits
                  (try_compactify (record p {
                    ready_i = (process_ready (drop p.ready_i array) p.ready_i).1;
                    data_array = array;
                  }))
                  (n + length done) left)
              (sym w.numbered) (try_compactify-Waits _ _ _ v);
      }

  Finished-none :
      (p : ChangesProcessor DataT) (first : ℕ) (changes : List (DataT × Bool))
      → Waits p first changes
      → Finished first ([], changes) ([], p)
  Finished-none p first changes w = record {
    processed = refl;
    waits = subst (λ n. Waits p n changes) {x = first} {y = first + 0} (omega arith) w;
  }

  pending_beyond :
      (p : ChangesProcessor DataT) (first : ℕ) (changes : List (DataT × Bool)) (token : ℕ)
      → Waits p first changes
      → token < 2 ^ 64
      → length p.data_array ≤ distance token p.offset
      → finish_pending first changes token ≡ ([], changes)
  pending_beyond p first changes token w h l = elim (Bool-cases (ltb token first)) [
    | inl b ↦ rw b refl
    | inr b ↦
        let le = ltb→ge token first b in
        let d = distance-le token p.offset (omega (arith, w.numbered, le)) h in
        let n = length-drop p.ready_i p.data_array in
        rw
          (
            b,
            ← set_finished-mark changes (token - first),
            set_finished_beyond changes (token - first)
                (omega (arith, d, w.numbered, w.in_range, n, ap length w.pending, l)),
          )
          (take_ready-IsBlocked changes w.blocked)
  ]

  pending_within :
      (p : ChangesProcessor DataT) (first : ℕ) (changes : List (DataT × Bool)) (token : ℕ)
      → Waits p first changes
      → token < 2 ^ 64
      → distance token p.offset < length p.data_array
      → finish_pending first changes token
        ≡ take_ready (drop p.ready_i (set_finished p.data_array (distance token p.offset)))
  pending_within p first changes token w h l =
      let at_offset : p.offset ≤ token = omega (arith, w.word, l) in
      let d = distance-le token p.offset at_offset h in
      elim (Bool-cases (ltb token first)) [
        | inl b ↦
            let before =
              drop-set_finished_before p.ready_i p.data_array (distance token p.offset)
                (omega (arith, d, w.numbered, ltb→lt token first b)) in
            rw b (sym (ap take_ready (before ∙ w.pending) ∙ take_ready-IsBlocked changes w.blocked))
        | inr b ↦
            let at =
              ap (λ k. drop p.ready_i (set_finished p.data_array k)) {x = distance token p.offset}
                {y = p.ready_i + (token - first)}
                (omega (arith, d, w.numbered, ltb→ge token first b)) in
            rw b (
              sym (
                ap take_ready (
                  at
                  ∙ drop-set_finished p.ready_i p.data_array (token - first)
                  ∙ ap (λ t. set_finished t (token - first)) w.pending
                  ∙ set_finished-mark changes (token - first))))
      ]

  -- For a token below 2 ^ 64, finish does to the pending changes, in the order of their tokens from `first` on, what the
  -- specification does: it marks the change of a token that is pending as finished, and processes the
  -- finished changes in front of the first one that is not; with every other token it processes
  -- nothing and leaves the pending changes as they are.
  pub finish_correct :
      (p : ChangesProcessor DataT) (first : ℕ) (changes : List (DataT × Bool)) (token : ℕ)
      → Waits p first changes
      → token < 2 ^ 64
      → Finished first (finish_pending first changes token) (finish p token)
  unfolding finish
  finish_correct p first changes token w h =
      let pos = distance token p.offset in
      elim (Bool-cases (leb (length p.data_array) pos)) [
        | inl b ↦
            rw (b, finish)
              (subst (λ t. Finished first t ([], p))
                (sym (pending_beyond p first changes token w h (leb→le _ _ b)))
                (Finished-none p first changes w))
        | inr b ↦
            rw (b, finish)
              (subst
                (λ t. Finished first t (
                  (process_ready (drop p.ready_i (set_finished p.data_array pos)) p.ready_i).0,
                  try_compactify (record p {
                    ready_i =
                        (process_ready (drop p.ready_i (set_finished p.data_array pos))
                          p.ready_i).1;
                    data_array = set_finished p.data_array pos;
                  }),
                ))
                (sym (pending_within p first changes token w h (ground arith)))
                (Finished-array p first changes pos w))
      ]
