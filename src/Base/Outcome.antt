-- ===== src/Base/Outcome.antt =====
-- td::Result of td/utils/Status.h: a value, or an error Status with its message.
use Prim.Native.String.{String}
use mathlib.Core.Path.{◌≡◌, refl}
use mathlib.Core.Bool.{Bool, true, false}

pub data Result {ℓ} (T : Type ℓ) : Type ℓ where
  error : String → Result T
  ok : T → Result T

abbrev pub is_ok {ℓ} : {T : Type ℓ} → Result T → Bool
is_ok (error message) = false
is_ok (ok value) = true

-- TRY_RESULT and TRY_STATUS
infixl 5 ◌>>=◌
abbrev pub ◌>>=◌ {ℓ κ} : {T : Type ℓ} {U : Type κ} → Result T → (T → Result U) → Result U
error message >>= next = error message
ok value >>= next = next value

-- A chain succeeds when both links do, with the value of the second.
pub is_ok-bind {ℓ κ} :
    {T : Type ℓ} {U : Type κ} (r : Result T) (next : T → Result U) {u : U}
    → (r >>= next) ≡ ok u
    → (t : T) × (r ≡ ok t) × (next t ≡ ok u)
is_ok-bind (error message) next e = cc
is_ok-bind (ok t) next e = (t, refl, e)

pub is_ok-bind_error {ℓ κ} :
    {T : Type ℓ} {U : Type κ} (r : Result T) (next : T → Result U)
    → is_ok r ≡ false
    → is_ok (r >>= next) ≡ false
is_ok-bind_error (error message) next e = refl
is_ok-bind_error (ok t) next e = cc

pub is_ok-bind_ok {ℓ κ} :
    {T : Type ℓ} {U : Type κ} (r : Result T) (g : T → U) → is_ok (r >>= λ t. ok (g t)) ≡ is_ok r
is_ok-bind_ok (error message) g = refl
is_ok-bind_ok (ok t) g = refl
