-- ===== src/Misc/Parts.antt =====
-- What full_split of td/utils/misc.h makes of a text, and what implode of td/utils/misc.cpp makes of
-- its parts.
use mathlib.Core.Bool.{false≢true}
use mathlib.Core.Path.{subst}
use tdutils.Base.{
  All, All-append, ap, append-nil, append_assoc, arith, Bool-cases, drop, inl, inr, length,
  length-append, length-drop, List, ltb, ltb→ge, ltb→lt, none, Option-cases, refl, some, suc, sym,
  take, zero, ℕ, ==_iff, [], ◌++◌, ◌+◌, ◌<◌, ◌==◌, ◌∙◌, ◌∷◌, ◌≡◌, ◌≢◌, ◌≤◌, ◌⊎◌,
}
use tdutils.Parser.{find_char}
use tdutils.Misc.Split.{full_split, full_split_loop, implode, implode_rest}

abbrev pub Lacks : ℕ → List ℕ → Type 0
Lacks delimiter s = All (λ c. c ≢ delimiter) s

-- The parts of a text: all but the last lack the delimiter, the last one as well unless there are
-- `max_parts` of them, and the delimiters between the parts give the text back.
pub record Parts (delimiter max_parts : ℕ) (s : List ℕ) (parts : List (List ℕ)) : Type 0 where
  pub first : List (List ℕ)
  pub last : List ℕ
  pub shape : parts ≡ first ++ (last ∷ [])
  pub lacking : All (Lacks delimiter) first
  pub complete : Lacks delimiter last ⊎ (length parts ≡ max_parts)
  pub size : length parts ≤ max_parts
  pub text : implode parts delimiter ≡ s

find_char-Lacks : (c : ℕ) (s : List ℕ) → find_char c s ≡ none → Lacks c s
unfolding find_char
find_char-Lacks c [] h = tt
find_char-Lacks c (d ∷ s) h = elim (Bool-cases (d == c)) [
  | inl e ↦ (let k = rw (e, find_char) at h in cc)
  | inr e ↦ elim (Option-cases (find_char c s)) [
    | inl n ↦ ((λ q. false≢true (sym e ∙ (==_iff d c).1 q)), find_char-Lacks c s n)
    | inr (i, n) ↦ (let k = rw (e, find_char, n) at h in cc)
  ]
]

-- Around a delimiter that was found.
Cut : ℕ → List ℕ → ℕ → Type 0
Cut c s i = Lacks c (take i s) × (take i s ++ (c ∷ drop (suc i) s) ≡ s) × (i < length s)

find_char-Cut : (c : ℕ) (s : List ℕ) (i : ℕ) → find_char c s ≡ some i → Cut c s i
unfolding find_char Cut
find_char-Cut c [] i h = cc
find_char-Cut c (d ∷ s) i h = elim (Bool-cases (d == c)) [
  | inl e ↦
      let z : 0 ≡ i = (let k = rw (e, find_char) at h in cc) in
      subst (Cut c (d ∷ s)) z (tt, ap (λ x. x ∷ s) (sym ((==_iff d c).0 e)), omega arith)
  | inr e ↦ elim (Option-cases (find_char c s)) [
    | inl n ↦ (let k = rw (e, find_char, n) at h in cc)
    | inr (j, n) ↦
        let t : j + 1 ≡ i = (let k = rw (e, find_char, n) at h in cc) in
        let z : suc j ≡ i = omega (arith, t) in
        let (lacks, back, less) = find_char-Cut c s j n in
        subst (Cut c (d ∷ s)) z
          (((λ q. false≢true (sym e ∙ (==_iff d c).1 q)), lacks), ap (λ t. d ∷ t) back, omega arith)
  ]
]

implode_rest-append :
    (d : ℕ) (u v : List (List ℕ)) → implode_rest d (u ++ v) ≡ implode_rest d u ++ implode_rest d v
unfolding implode_rest
implode_rest-append d [] v = refl
implode_rest-append d (x ∷ u) v =
    ap (λ t. d ∷ (x ++ t)) (implode_rest-append d u v)
    ∙ ap (λ t. d ∷ t) (sym (append_assoc x (implode_rest d u) (implode_rest d v)))

-- Two parts at the end hold the text that one part held.
implode_last :
    (d : ℕ) (u : List (List ℕ)) (a b : List ℕ)
    → implode ((u ++ (a ∷ [])) ++ (b ∷ [])) d ≡ implode (u ++ ((a ++ (d ∷ b)) ∷ [])) d
unfolding implode implode_rest
implode_last d [] a b = simp (append_assoc, append-nil)
implode_last d (x ∷ u) a b = simp (append_assoc, append-nil, implode_rest-append)

-- The loop has ended.
stopped :
    (d m : ℕ) (result : List (List ℕ)) (s : List ℕ)
    → length result < m
    → All (Lacks d) result
    → Lacks d s ⊎ (length (result ++ (s ∷ [])) ≡ m)
    → Parts d m (implode (result ++ (s ∷ [])) d) (result ++ (s ∷ []))
stopped d m result s l h k = record {
  first = result;
  last = s;
  shape = refl;
  lacking = h;
  complete = k;
  size = omega (arith, length-append result (s ∷ []));
  text = refl;
}

full_split_loop-Parts :
    (fuel d m : ℕ) (result : List (List ℕ)) (s : List ℕ)
    → length s < fuel
    → length result < m
    → All (Lacks d) result
    → Parts d m (implode (result ++ (s ∷ [])) d) (full_split_loop fuel d m result s)
unfolding full_split_loop Cut
full_split_loop-Parts zero d m result s f l h = absurd (omega arith)
full_split_loop-Parts (suc fuel) d m result s f l h =
    let count : length (result ++ (s ∷ [])) ≡ length result + 1 = length-append result (s ∷ []) in
    elim (Bool-cases (ltb (length result + 1) m)) [
      | inr e ↦
          let all_used = ltb→ge (length result + 1) m e in
          rw (e, full_split_loop) (stopped d m result s l h (inr (omega arith)))
      | inl e ↦ elim (Option-cases (find_char d s)) [
        | inl n ↦
            rw (e, full_split_loop, n) (stopped d m result s l h (inl (find_char-Lacks d s n)))
        | inr (i, n) ↦
            let cut = find_char-Cut d s i n in
            let part = take i s in
            let rest = drop (i + 1) s in
            let less = ltb→lt (length result + 1) m e in
            let shorter = length-drop (i + 1) s in
            let more = length-append result (part ∷ []) in
            let next : i + 1 ≡ suc i = omega arith in
            let same : implode ((result ++ (part ∷ [])) ++ (rest ∷ [])) d
                ≡ implode (result ++ (s ∷ [])) d =
              implode_last d result part rest
              ∙ ap (λ t. implode (result ++ (t ∷ [])) d)
                  (ap (λ k. part ++ (d ∷ drop k s)) next ∙ cut.1) in
            rw (e, full_split_loop, n)
              (subst (λ t. Parts d m t (full_split_loop fuel d m (result ++ (part ∷ [])) rest)) same
                (full_split_loop-Parts fuel d m (result ++ (part ∷ [])) rest (omega arith)
                  (omega arith) (All-append (Lacks d) result (part ∷ []) h (cut.0, tt))))
      ]
    ]

-- For a `max_parts` above 0, the parts that full_split makes of a text that is not empty: there are at most `max_parts` of
-- them, implode puts them together to the text again, no part but the last has a delimiter in it,
-- and the last one only if there are `max_parts` parts. The empty text has no parts.
pub full_split_correct :
    (c : ℕ) (s : List ℕ) (delimiter max_parts : ℕ)
    → 0 < max_parts
    → Parts delimiter max_parts (c ∷ s) (full_split (c ∷ s) delimiter max_parts)
      × (full_split [] delimiter max_parts ≡ [])
unfolding full_split implode implode_rest
full_split_correct c s d m p =
    let whole : implode ((c ∷ s) ∷ []) d ≡ c ∷ s = append-nil (c ∷ s) in
    (
      subst (λ t. Parts d m t (full_split_loop (length s + 2) d m [] (c ∷ s))) whole
          (full_split_loop-Parts (length s + 2) d m [] (c ∷ s) (omega arith) p tt),
      refl,
    )
