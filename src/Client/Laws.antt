-- ===== src/Client/Laws.antt =====
-- How a computation with the client of the controllers, Go code that returns on the first error, got
-- to a value.
use rolebasedgroup.Prelude.{◌≡◌, refl, arith, Result, ok, err, panic}
use rolebasedgroup.Client.{Trace, M, ◌>>=◌}

-- A sequence that ends with a value has a first part that does.
pub bind-ok :
    {A B : Type 0} (m : M A) (f : A → M B) (t : Trace) (b : B)
    → ((m >>= f) t).0 ≡ ok b
    → (a : A) × (u : Trace) × (m t ≡ (ok a, u)) × ((f a u).0 ≡ ok b)
bind-ok {A} {B} m f t b h = go (m t) refl
  where
    go :
        (p : Result A × Trace)
        → m t ≡ p
        → (a : A) × (u : Trace) × (m t ≡ (ok a, u)) × ((f a u).0 ≡ ok b)
    go (ok a, u) e = (a, u, e, rw e at h)
    go (err x, u) e = absurd (ground arith)
    go (panic, u) e = absurd (ground arith)

-- The same, with the trace at the end.
pub bind-run :
    {A B : Type 0} (m : M A) (f : A → M B) (t v : Trace) (b : B)
    → (m >>= f) t ≡ (ok b, v)
    → (a : A) × (u : Trace) × (m t ≡ (ok a, u)) × (f a u ≡ (ok b, v))
bind-run {A} {B} m f t v b h = go (m t) refl
  where
    go :
        (p : Result A × Trace)
        → m t ≡ p
        → (a : A) × (u : Trace) × (m t ≡ (ok a, u)) × (f a u ≡ (ok b, v))
    go (ok a, u) e = (a, u, e, rw e at h)
    go (err x, u) e = absurd (ground arith)
    go (panic, u) e = absurd (ground arith)
