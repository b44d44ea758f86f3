-- ===== src/Examples/Controllers.antt =====
-- The controllers of internal/controller/workloads, on the group of two roles.
use rolebasedgroup.Prelude.{
  ◌⊎◌, ℕ, ◌+◌, length, true, false, some, List, [], ◌∷◌, ◌≡◌, ◌↔◌, refl, Result, ok,
}
use rolebasedgroup.Prelude.Int.{pos, ◌≤ℤ◌}
use rolebasedgroup.Api.{
  OwnerReference, ObjectMeta, RoleSpec, RoleBasedGroup, RoleBasedGroupSet, ScalingAdapter,
}
use rolebasedgroup.Api.Helper.{is_scaling_adapter_enable}
use rolebasedgroup.Client.{role_based_group, list, pure, perform}
use rolebasedgroup.Restart.{Request, pod_to_rbg}
use rolebasedgroup.Restart.Decision.{Restarts, pod_to_rbg_iff}
use rolebasedgroup.Workload.{
  WorkloadReconciler, WorkloadKind, stateful_sets, delete_orphans, cleanup_stateful_sets,
}
use rolebasedgroup.Workload.Orphans.{delete_orphans-deletes}
use rolebasedgroup.Workload.Orphans as Orphans
use rolebasedgroup.Client.Deletions.{Calls}
use rolebasedgroup.Workload.Recreate.{recreate_workload}
use rolebasedgroup.Workload.Named.{constructs}
use rolebasedgroup.Group.{
  finished, reconcile_roles, reconcile_scaling_adapter, after_get_adapter, delete_adapters,
}
use rolebasedgroup.Group.Run.{Ends, reconcile_roles-ends}
use rolebasedgroup.Group.Adapters.{delete_adapters-deletes, reconcile_scaling_adapter-settles}
use rolebasedgroup.Group.Adapters as Adapters
use rolebasedgroup.GroupSet.{reconcile_set, create_call, role_based_group_set_key}
use rolebasedgroup.GroupSet.Creates.{repeated, reconcile_set-creates}
use rolebasedgroup.Examples.Data.{
  meta_of, owned_meta, owner, roles, prefill, decode, group, adapter_of, failed_pod, server,
  group_server,
}
use rolebasedgroup.Examples.Store.{store, store-Consistent}

-- A reconciler whose workloads are ready as soon as they are asked for.
abbrev reconcilers : WorkloadKind → WorkloadReconciler
reconcilers kind = record {
  reconcile = λ rbg role. pure tt;
  construct_role_status = λ rbg role.
      pure (record { name = role.name; ready_replicas = pos 2; replicas = pos 2 }, false);
  check_workload_ready = λ rbg role. pure true;
  cleanup_orphaned_workloads = cleanup_stateful_sets server;
  recreate_workload = recreate_workload server kind;
}

abbrev controller_ref : RoleBasedGroup → OwnerReference
controller_ref rbg = owner

abbrev sorted : List RoleSpec
sorted = prefill ∷ decode ∷ []

reconcile_roles-ends_example :
    Ends store reconcilers group [] sorted []
      (reconcile_roles store reconcilers group sorted [] false []).0
      (reconcile_roles store reconcilers group sorted [] false []).1
reconcile_roles-ends_example = reconcile_roles-ends store reconcilers group sorted [] false []

abbrev request : Request
request = record { namespace = "default"; name = "llm" }

abbrev workloads : List ObjectMeta
workloads = owned_meta "llm-prefill" ∷ owned_meta "llm-router" ∷ []

delete_orphans-deletes_example :
    Calls
      (Orphans.is_orphan server stateful_sets group)
      (Orphans.delete_call server stateful_sets group)
      (delete_orphans server stateful_sets group workloads)
      workloads
      []
delete_orphans-deletes_example = delete_orphans-deletes server stateful_sets group workloads []

abbrev adapters : List ScalingAdapter
adapters = adapter_of "prefill" "Bound" ∷ adapter_of "router" "Bound" ∷ []

delete_adapters-deletes_example :
    Calls
      (Adapters.is_orphan group)
      (Adapters.delete_call group)
      (delete_adapters server group adapters)
      adapters
      []
delete_adapters-deletes_example = delete_adapters-deletes group server adapters []

reconcile_scaling_adapter-settles_example :
    Adapters.Settled store group prefill (reconcile_scaling_adapter store group prefill []).1
    × (reconcile_scaling_adapter store group prefill
          (reconcile_scaling_adapter store group prefill []).1
        ≡ (
          ok tt,
          Adapters.read_call store group prefill
              ∷ (reconcile_scaling_adapter store group prefill []).1,
        ))
unfolding reconcile_scaling_adapter after_get_adapter is_scaling_adapter_enable perform
reconcile_scaling_adapter-settles_example =
    reconcile_scaling_adapter-settles store group prefill store-Consistent [] refl

pod_to_rbg_iff_example :
    ((pod_to_rbg group_server failed_pod []).0 ≡ some request)
    ↔ Restarts group_server failed_pod [] request
pod_to_rbg_iff_example = pod_to_rbg_iff group_server failed_pod [] request

abbrev set : RoleBasedGroupSet
set = record { meta = meta_of "fleet"; replicas = some (pos 3); template_roles = roles }

abbrev set_reference : RoleBasedGroupSet → Result OwnerReference
set_reference s = ok owner

reconcile_set-creates_example :
    (n : ℕ) × (reconcile_set server set_reference set [] ≡ (
      ok finished,
      repeated server set_reference n
          (create_call server set_reference set owner)
          (list role_based_group "default" ((role_based_group_set_key, "fleet") ∷ []) ∷ []),
    ))
    × ((pos (n + length (group ∷ [])) ≡ pos 3) ⊎ (n ≡ 0) × (pos 3 ≤ℤ pos (length (group ∷ []))))
reconcile_set-creates_example =
    reconcile_set-creates server set_reference set owner refl (pos 3) (group ∷ []) [] refl refl

-- The reconciler of StatefulSets, with its `ConstructRoleStatus`.
abbrev stateful_set_reconciler : WorkloadReconciler
stateful_set_reconciler =
    let w = reconcilers stateful_sets in
    record w { construct_role_status = constructs group_server stateful_sets }
