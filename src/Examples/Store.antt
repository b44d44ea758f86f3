-- ===== src/Examples/Store.antt =====
-- An API server that keeps the adapters that are created and forgets those that are deleted.
use rolebasedgroup.Prelude.{
  String, Bool, true, ◌&&◌, [], ◌∷◌, ◌≡◌, refl, sym, ap, ◌∙◌, inl, inr, Bool-cases, str_eq,
  str_eq_refl, str_eq-eq, if◌then◌else◌, Result, ok, err, not_found, arith,
}
use rolebasedgroup.Api.{ScalingAdapter}
use rolebasedgroup.Client.{Client, Trace, Call, scaling_adapter, delete, create_adapter}
use rolebasedgroup.Group.Adapters.{Consistent}
use rolebasedgroup.Examples.Data.{server}

abbrev pub same : String → String → String → String → Bool
same ns name ns' name' = str_eq ns ns' && str_eq name name'

-- What a call does to the adapters.
pub data Effect : Type 0 where
  kept : ScalingAdapter → Effect
  gone : (ns name : String) → Effect
  nothing : Effect

abbrev pub effect_of : Call → Effect
effect_of (create_adapter a) = kept a
effect_of (delete scaling_adapter ns name) = gone ns name
effect_of _ = nothing

abbrev pub after : Effect → Result ScalingAdapter → String → String → Result ScalingAdapter
after (kept a) before ns name = if same a.meta.namespace a.meta.name ns name then ok a else before
after (gone ns' name') before ns name = if same ns' name' ns name then err not_found else before
after nothing before ns name = before

abbrev pub adapter_at : Trace → String → String → Result ScalingAdapter
adapter_at [] ns name = err not_found
adapter_at (c ∷ t) ns name = after (effect_of c) (adapter_at t ns name) ns name

abbrev pub store : Client
store = record server { get_adapter = adapter_at }

same_refl : (ns name : String) → same ns name ns name ≡ true
same_refl ns name = ground (arith, str_eq_refl ns, str_eq_refl name)

abbrev Asked : String → String → Result ScalingAdapter → Type 0
Asked ns name r = (a : ScalingAdapter) → r ≡ ok a → (a.meta.namespace ≡ ns) × (a.meta.name ≡ name)

after-Asked :
    (e : Effect) (before : Result ScalingAdapter) (ns name : String)
    → Asked ns name before
    → Asked ns name (after e before ns name)
after-Asked (kept b) before ns name old a h =
    elim (Bool-cases (same b.meta.namespace b.meta.name ns name)) [
      | inl hit ↦
          let q : b ≡ a = ground arith in
          (
            ap (λ x. x.meta.namespace) (sym q) ∙ str_eq-eq b.meta.namespace ns (ground arith),
            ap (λ x. x.meta.name) (sym q) ∙ str_eq-eq b.meta.name name (ground arith),
          )
      | inr miss ↦ old a (rw miss at h)
    ]
after-Asked (gone ns' name') before ns name old a h = elim (Bool-cases (same ns' name' ns name)) [
  | inl hit ↦ absurd (ground arith)
  | inr miss ↦ old a (rw miss at h)
]
after-Asked nothing before ns name old a h = old a h

store-Asked : (t : Trace) (ns name : String) → Asked ns name (adapter_at t ns name)
store-Asked [] ns name a h = absurd (cc)
store-Asked (c ∷ t) ns name a h =
    after-Asked (effect_of c) (adapter_at t ns name) ns name (store-Asked t ns name) a h

pub store-Consistent : Consistent store
store-Consistent = record {
  reads = λ t ns name. refl;
  created = λ t a w. (a, rw (same_refl a.meta.namespace a.meta.name) refl);
  deleted = λ t ns name w. rw (same_refl ns name) refl;
  asked = store-Asked;
}
