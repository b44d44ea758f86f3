-- ===== src/Client/Only.antt =====
-- Which calls a computation with the client makes: a property that all of them have, by the parts of
-- the Go code that makes them.
use mathlib.Core.List.{append_assoc}
use rolebasedgroup.Prelude.{
  Bool, true, false, List, [], ◌∷◌, ◌++◌, ◌≡◌, refl, sym, ap, ◌∙◌, if◌then◌else◌, All, All-append,
  Result, ok, err, panic,
}
use rolebasedgroup.Objects.{config_map_config}
use rolebasedgroup.Client.{Call, get, get_object, list, apply, Trace, M, ◌>>=◌, bind_result}

-- The calls that a reconciler makes before it applies its workload: reads, and the ConfigMap.
abbrev pub Prepares : Call → Type 0
Prepares (get kind namespace name) = Unit
Prepares (get_object version kind namespace name) = Unit
Prepares (list kind namespace labels) = Unit
Prepares (apply (config_map_config c)) = Unit
Prepares _ = ⊥

module _ (P : Call → Type 0) where
  -- The later trace is the earlier one with calls of the property in front.
  abbrev pub Extends : Trace → Trace → Type 0
  Extends t u = (l : List Call) × (u ≡ l ++ t) × All P l

  abbrev pub Only : {A : Type 0} → M A → Type 0
  Only m = (t : Trace) → Extends t (m t).1

  pub Extends-trans : {t u v : Trace} → Extends t u → Extends u v → Extends t v
  Extends-trans {t} (l, e, h) (k, f, g) =
      (k ++ l, f ∙ ap (λ x. k ++ x) e ∙ sym (append_assoc k l t), All-append P k l g h)

  -- A part that makes no call, and one that makes a single call. What is done with the result, as by
  -- `wrap` and `attempt`, makes none.
  pub no_call : (t : Trace) → Extends t t
  no_call t = ([], refl, tt)

  pub one_call : (c : Call) → P c → (t : Trace) → Extends t (c ∷ t)
  one_call c h t = (c ∷ [], refl, (h, tt))

  result-Only :
      {A B : Type 0} (r : Result A) (f : A → M B) → ((a : A) → Only (f a)) → Only (bind_result r f)
  result-Only (ok a) f h t = h a t
  result-Only (err e) f h t = ([], refl, tt)
  result-Only panic f h t = ([], refl, tt)

  pub bind-Only :
      {A B : Type 0} (m : M A) (f : A → M B) → Only m → ((a : A) → Only (f a)) → Only (m >>= f)
  bind-Only m f h k t = Extends-trans (h t) (result-Only (m t).0 f k (m t).1)

  pub if-Only : {A : Type 0} (b : Bool) (m n : M A) → Only m → Only n → Only (if b then m else n)
  if-Only true m n h k = h
  if-Only false m n h k = k
