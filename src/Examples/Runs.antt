-- ===== src/Examples/Runs.antt =====
-- A restart of the group of two roles, and the PodGroup of that group when it is scheduled as a gang.
use rolebasedgroup.Prelude.{true, false, some, List, [], ◌∷◌, ◌≡◌, refl, contains, ok}
use rolebasedgroup.Prelude.Int.{pos, i32, ◌+ℤ◌}
use rolebasedgroup.Api.{OwnerReference, RoleSpec, RoleBasedGroup}
use rolebasedgroup.Api.Helper.{
  get_group_size, enable_gang_scheduling, workload_string, find_role, get_workload_name,
}
use rolebasedgroup.Client.{Trace, perform}
use rolebasedgroup.Dependency.{
  visit_all, visit, visit_each, enter, leave, sort_strings, deps_of, dependency_order,
}
use rolebasedgroup.Dependency.Sort.{sort_roles, fill_dependencies, put, pick_roles, all_known}
use rolebasedgroup.Status.{restart_condition_true}
use rolebasedgroup.Restart.{
  with_restart_condition, set_restart_condition, recreate_roles, restart_rbg,
}
use rolebasedgroup.Restart.Run.{Recreated, status_call, restart_rbg-runs}
use rolebasedgroup.Workload.{new_workload_reconciler}
use rolebasedgroup.Workload.Recreate.{recreate_workload, workload_meta}
use rolebasedgroup.PodGroup.{reconcile_pod_group, create_or_update_pod_group}
use rolebasedgroup.PodGroup.Members.{Members, reconcile_pod_group-Members}
use rolebasedgroup.Adapter.Scaling.{last}
use rolebasedgroup.Examples.Data.{group, owner, server}

restart_rbg-runs_example :
    (sorted : List RoleSpec) × (u : Trace) × (sort_roles group.roles ≡ ok sorted)
    × Recreated server
        (with_restart_condition server group false)
        sorted
        (status_call server group false ∷ [])
        u
    × ((restart_rbg server group []).1
        ≡ status_call server (with_restart_condition server group false) true ∷ u)
    × (restart_condition_true (with_restart_condition server group false).status.conditions ≡ true)
    × (restart_condition_true
          (with_restart_condition server
            (with_restart_condition server group false)
            true).status.conditions
        ≡ false)
unfolding restart_rbg set_restart_condition recreate_roles perform sort_roles with_restart_condition
    fill_dependencies all_known contains dependency_order visit_all sort_strings put visit
    visit_each deps_of enter leave pick_roles find_role new_workload_reconciler get_workload_name
    workload_string recreate_workload workload_meta
restart_rbg-runs_example = restart_rbg-runs server group [] (restart_rbg server group []).1 refl

abbrev gang : RoleBasedGroup
gang = record group {
  pod_group_policy =
      some
        (record { kube_scheduling = some (record { schedule_timeout_seconds = some (pos 60) }) });
}

abbrev controller_ref : RoleBasedGroup → OwnerReference
controller_ref rbg = owner

reconcile_pod_group-Members_example :
    Members server controller_ref gang
      (pos 4)
      []
      (reconcile_pod_group server controller_ref gang []).1
unfolding reconcile_pod_group create_or_update_pod_group enable_gang_scheduling get_group_size
    perform workload_string ◌+ℤ◌ i32
reconcile_pod_group-Members_example =
    reconcile_pod_group-Members server controller_ref gang (pos 4) (λ S f s t. last s t) (pos 4) []
      (reconcile_pod_group server controller_ref gang []).1 refl refl refl refl
