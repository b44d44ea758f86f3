-- ===== src/Adapter/Phases.antt =====
-- The phases of a scaling adapter of
-- internal/controller/workloads/rolebasedgroupscalingadapter_controller.go: how it is bound, and when
-- a bound one has nothing to scale.
use rolebasedgroup.Prelude.{
  String, true, false, Option, none, some, ◌∷◌, ◌≡◌, refl, str_eq, if◌then◌else◌, Result, ok, err,
  panic, arith,
}
use rolebasedgroup.Prelude.Int.{ℤ, eq_ℤ}
use rolebasedgroup.Api.{Labels, RoleSpec, RoleBasedGroup, ScalingAdapter, ScalingAdapterStatus}
use rolebasedgroup.Api.Helper.{get_workload_name}
use rolebasedgroup.Client.{
  Client, Call, get_object, patch_adapter_spec, patch_adapter_status, Trace, perform,
}
use rolebasedgroup.Adapter.{
  Requeue, done, bound, spec_with_replicas, status_with_replicas, bind_adapter, scale_bound,
  extract_selector, selector_version, join_pairs,
}

module _ (client : Client) where
  module _ (adapter : ScalingAdapter) (rbg : RoleBasedGroup) (role : RoleSpec) where
    eq_ℤ_refl : (n : ℤ) → eq_ℤ n n ≡ true
    eq_ℤ_refl n = ground arith

    scale_lem :
        (o : Option ℤ) (v : Trace)
        → scale_bound client adapter rbg role (spec_with_replicas adapter.spec o).replicas o v
          ≡ (ok done, v)
    unfolding scale_bound spec_with_replicas
    scale_lem none v =
        elim adapter.spec.replicas
          as (λ o. scale_bound client adapter rbg role o none v ≡ (ok done, v)) [
            | none ↦ refl
            | some n ↦ refl
          ]
    scale_lem (some n) v = rw (eq_ℤ_refl n) refl

    -- The status that binds the adapter.
    abbrev pub bound_status : String → ScalingAdapterStatus
    bound_status selector = record (status_with_replicas adapter.status role.replicas false) {
      phase = bound;
      selector = selector;
    }

    -- A binding that succeeds ends with the write of a bound status that has the role's replicas;
    -- before it the role's replicas were written into the adapter's spec, and with those the bound
    -- adapter has nothing to scale.
    pub bind_adapter-settles :
        (t : Trace) (r : Requeue)
        → (bind_adapter client adapter rbg role t).0 ≡ ok r
        → (selector : String) × (read_call : Call) × ((bind_adapter client adapter rbg role t).1
            ≡ patch_adapter_status adapter.meta.namespace adapter.meta.name adapter.spec
                (bound_status selector)
              ∷ read_call
              ∷ patch_adapter_spec adapter.meta.namespace adapter.meta.name
                  (spec_with_replicas adapter.spec role.replicas)
              ∷ t)
          × ((v : Trace)
              → scale_bound client adapter rbg role
                  (spec_with_replicas adapter.spec role.replicas).replicas
                  role.replicas
                  v
                ≡ (ok done, v))
    unfolding bind_adapter extract_selector perform selector_version
    bind_adapter-settles t r h = patched (client.write t spec_call) refl
      where
        spec_call : Call
        spec_call =
            patch_adapter_spec adapter.meta.namespace adapter.meta.name
              (spec_with_replicas adapter.spec role.replicas)

        Goal : Type 0
        Goal =
            (selector : String) × (read_call : Call) × ((bind_adapter client adapter rbg role t).1
              ≡ patch_adapter_status adapter.meta.namespace adapter.meta.name adapter.spec
                  (bound_status selector)
                ∷ read_call
                ∷ spec_call
                ∷ t)
            × ((v : Trace)
                → scale_bound client adapter rbg role
                    (spec_with_replicas adapter.spec role.replicas).replicas role.replicas v
                  ≡ (ok done, v))

        version : String
        version =
            if str_eq role.workload.kind "LeaderWorkerSet"
            then "apps/v1"
            else role.workload.api_version

        selector_call : Call
        selector_call =
            get_object version role.workload.kind rbg.meta.namespace (get_workload_name rbg role)

        status_call : Labels → Call
        status_call l =
            patch_adapter_status adapter.meta.namespace adapter.meta.name adapter.spec
              (bound_status (join_pairs l))

        written :
            (l : Labels)
            → client.write t spec_call ≡ ok tt
            → client.get_selector
                (spec_call ∷ t)
                version
                role.workload.kind
                rbg.meta.namespace
                (get_workload_name rbg role)
              ≡ ok l
            → (w : Result (Unit {0}))
            → client.write (selector_call ∷ spec_call ∷ t) (status_call l) ≡ w
            → Goal
        written l q e (ok _) p =
            (join_pairs l, selector_call, ground arith, scale_lem role.replicas)
        written l q e (err x) p = absurd (ground arith)
        written l q e panic p = absurd (ground arith)

        selected :
            (l : Result Labels)
            → client.write t spec_call ≡ ok tt
            → client.get_selector
                (spec_call ∷ t)
                version
                role.workload.kind
                rbg.meta.namespace
                (get_workload_name rbg role)
              ≡ l
            → Goal
        selected (ok l) q e =
            written l q e (client.write (selector_call ∷ spec_call ∷ t) (status_call l)) refl
        selected (err x) q e = absurd (ground arith)
        selected panic q e = absurd (ground arith)

        patched : (w : Result (Unit {0})) → client.write t spec_call ≡ w → Goal
        patched (ok _) q =
            selected
              (client.get_selector (spec_call ∷ t) version role.workload.kind rbg.meta.namespace
                (get_workload_name rbg role))
              q refl
        patched (err e) q = absurd (ground arith)
        patched panic q = absurd (ground arith)
