-- ===== src/Prelude/Effects.antt =====
-- Errors as Go's `error` values, and results. An error's text is its format string, without
-- what is printed into it; whether it is the API server's NotFound or Conflict is kept.
use Prim.Native.String.{String}
use mathlib.Core.Path.{◌≡◌, refl}
use native.Mathlib.Omega.{arith}
use mathlib.Core.Bool.{Bool, true, false}

pub data Error : Type 0 where
  not_found conflict : Error
  other : String → Error

-- `apierrors.IsNotFound` and `apierrors.IsConflict`.
abbrev pub is_not_found : Error → Bool
is_not_found not_found = true
is_not_found _ = false

abbrev pub is_conflict : Error → Bool
is_conflict conflict = true
is_conflict _ = false

-- How a Go function ends: with its value, with an error, or with a run-time panic (a nil pointer
-- that is dereferenced, an index out of range).
pub data Result {ℓ} (A : Type ℓ) : Type ℓ where
  ok : A → Result A
  err : Error → Result A
  panic : Result A

-- Go code that returns on the first error.
abbrev pub bind_ok : {A B : Type 0} → Result A → (A → Result B) → Result B
bind_ok (ok a) f = f a
bind_ok (err e) f = err e
bind_ok panic f = panic

-- It ends with a value only behind a first part that does.
pub bind_ok-ok :
    {A B : Type 0} (r : Result A) (f : A → Result B) {b : B}
    → bind_ok r f ≡ ok b
    → (a : A) × (r ≡ ok a) × (f a ≡ ok b)
bind_ok-ok (ok a) f h = (a, refl, h)
bind_ok-ok (err e) f h = absurd (ground arith)
bind_ok-ok panic f h = absurd (ground arith)
