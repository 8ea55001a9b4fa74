-- ===== src/Base/Equality.antt =====
-- Equality of slices (td/utils/Slice.h).
use Prim.Native.Nat.{ℕ}
use mathlib.Core.Path.{◌≡◌, refl, ap, ◌∙◌}
use mathlib.Core.Logic.{inl, inr}
use mathlib.Core.Bool.{Bool, true, false, ◌&&◌, false≢true}
use mathlib.Core.List.{List, [], ◌∷◌}
use tdutils.Base.Tests.{◌==◌, ==_iff, ==-refl, Bool-cases}

unfoldable pub is_same : List ℕ → List ℕ → Bool
is_same [] [] = true
is_same [] (d ∷ t) = false
is_same (c ∷ s) [] = false
is_same (c ∷ s) (d ∷ t) = c == d && is_same s t

pub is_same_refl : (s : List ℕ) → is_same s s ≡ true
unfolding is_same
is_same_refl [] = refl
is_same_refl (c ∷ s) = rw (==-refl c) (is_same_refl s)

pub is_same-eq : (s t : List ℕ) → is_same s t ≡ true → s ≡ t
unfolding is_same
is_same-eq [] [] h = refl
is_same-eq [] (d ∷ t) h = cc
is_same-eq (c ∷ s) [] h = cc
is_same-eq (c ∷ s) (d ∷ t) h = elim (Bool-cases (c == d)) [
  | inl e ↦ ap (λ x. x ∷ s) ((==_iff c d).0 e) ∙ ap (λ x. d ∷ x) (is_same-eq s t (rw e at h))
  | inr e ↦ elim (false≢true (rw e at h)) [ ]
]
