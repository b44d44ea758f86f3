-- ===== src/Group.antt =====
-- internal/controller/workloads/rolebasedgroup_controller.go: `Reconcile` of a group, with
-- `CheckDependencyReady` of pkg/dependency/dependency.go. The reconcilers of the workloads are known
-- by their interface.
pub mod ScalingAdapters
pub mod Run
pub mod Adapters
pub mod Guards
pub mod Finished
unfoldable pub use ScalingAdapters.*
use rolebasedgroup.Prelude.{
  String, Bool, true, false, ◌||◌, not, Option, none, some, List, [], ◌∷◌, ◌++◌, str_eq,
  if◌then◌else◌, Error, Result, ok, err, panic, is_not_found, other,
}
use rolebasedgroup.Api.{
  Labels, OwnerReference, ObjectMeta, WorkloadSpec, RoleSpec, RoleStatus, RoleBasedGroup,
  AdapterScaleTargetRef, ScalingAdapter,
}
use rolebasedgroup.Api.Helper.{
  set_name_label_key, set_role_label_key, get_role, enable_gang_scheduling,
  generate_scaling_adapter_name, is_scaling_adapter_managed_by_rbg, is_scaling_adapter_enable,
}
use rolebasedgroup.Client.{
  Client, Kind, role_based_group, scaling_adapter, Call, get, list, delete, create_adapter, Trace,
  Io, M, ◌>>=◌, ◌>>◌, pure, lift, fail, attempt, wrap, perform, read, bind_result,
}
use rolebasedgroup.Dependency.Sort.{sort_roles}
use rolebasedgroup.PodGroup.{reconcile_pod_group}
use rolebasedgroup.Restart.{Request}
use rolebasedgroup.Status.{update_rbg_status}
use rolebasedgroup.Workload.{
  WorkloadReconciler, WorkloadKind, deployments, stateful_sets, leader_worker_sets,
  new_workload_reconciler, check_crd_exists,
}

-- `ctrl.Result` of a reconciliation: empty, or with `RequeueAfter: 5`.
pub data Outcome : Type 0 where
  finished requeue : Outcome

-- How the loop over the roles ends: at its end, with `roleStatuses` and `updateStatus`, or at a
-- role whose dependencies are not ready.
pub data RolesEnd : Type 0 where
  all_done : List RoleStatus → Bool → RolesEnd
  waiting : RolesEnd

abbrev pub pod_group_crd_name : String
pod_group_crd_name = "podgroups.scheduling.x-k8s.io"

-- `errors.NewAggregate`, of the errors of calls that all are made.
unfoldable pub both : M (Unit {0}) → M (Unit {0}) → M (Unit {0})
both m k = attempt m >>= next
  where
    second : Error → Result (Unit {0}) → M (Unit {0})
    second e panic = lift panic
    second e _ = fail e

    next : Result (Unit {0}) → M (Unit {0})
    next (ok _) = k
    next (err e) = attempt k >>= second e
    next panic = lift panic

module _ (client : Client) where
  module _ (workload : WorkloadKind → WorkloadReconciler) where
    -- `CheckDependencyReady`
    unfoldable pub check_dependency_ready : RoleBasedGroup → List String → M Bool
    check_dependency_ready rbg [] = pure true
    check_dependency_ready rbg (d ∷ ds) = do
      dep ← lift (get_role rbg d)
      kind ← lift (new_workload_reconciler dep.workload)
      ready ← (workload kind).check_workload_ready rbg dep
      if ready then check_dependency_ready rbg ds else pure false

    -- The rest of the loop's body, for a role whose dependencies are ready.
    unfoldable pub reconcile_role : RoleBasedGroup → RoleSpec → M (RoleStatus × Bool)
    reconcile_role rbg role = do
      kind ← lift (new_workload_reconciler role.workload)
      (workload kind).reconcile rbg role
      reconcile_scaling_adapter client rbg role
      (workload kind).construct_role_status rbg role

    -- The loop over the sorted roles.
    unfoldable pub reconcile_roles :
        RoleBasedGroup → List RoleSpec → List RoleStatus → Bool → M RolesEnd
    reconcile_roles rbg [] statuses update = pure (all_done statuses update)
    reconcile_roles rbg (role ∷ roles) statuses update = do
      ready ← check_dependency_ready rbg role.dependencies
      let rest : M RolesEnd = reconcile_role rbg role >>= λ s.
          reconcile_roles rbg roles (statuses ++ s.0 ∷ []) (update || s.1)
      if ready then rest else pure waiting

    -- `deleteRoles`
    unfoldable pub delete_roles : RoleBasedGroup → M (Unit {0})
    delete_roles rbg = both ((workload deployments).cleanup_orphaned_workloads rbg) (
        both ((workload stateful_sets).cleanup_orphaned_workloads rbg) (
          both ((workload leader_worker_sets).cleanup_orphaned_workloads rbg)
            (cleanup_orphaned_scaling_adapters client rbg)))

    unfoldable pub finish : RoleBasedGroup → RolesEnd → M Outcome
    finish rbg waiting = pure requeue
    finish rbg (all_done statuses update) = do
      if update then update_rbg_status client rbg statuses else pure tt
      delete_roles rbg
      pure finished

    -- Whether the PodGroups are watched after the check of their CRD, from whether they were before.
    unfoldable pub watch_pod_groups : Bool → RoleBasedGroup → Io (Result Bool)
    watch_pod_groups watched rbg =
        let check = attempt (check_crd_exists client pod_group_crd_name) >>= watch in
        if enable_gang_scheduling rbg then (if watched then pure true else check) else pure watched
      where
        watch : Result (Unit {0}) → M Bool
        watch (ok _) = pure true
        watch (err e) = pure false
        watch panic = lift panic

    module _ (controller_ref : RoleBasedGroup → OwnerReference) where
      -- `Reconcile` behind the watch of the PodGroups.
      unfoldable pub reconcile_watched : RoleBasedGroup → List RoleSpec → Bool → M Outcome
      reconcile_watched rbg sorted watched = do
        if watched then reconcile_pod_group client controller_ref rbg else pure tt
        end ← reconcile_roles rbg sorted [] false
        finish rbg end

      keep_watched :
          Bool → Result Bool → RoleBasedGroup → List RoleSpec → Io (Result Outcome × Bool)
      keep_watched old (ok watched) rbg sorted t =
          let (r, u) = reconcile_watched rbg sorted watched t in ((r, watched), u)
      keep_watched old (err e) rbg sorted t = ((err e, old), t)
      keep_watched old panic rbg sorted t = ((panic, old), t)

      with_sorted : Bool → RoleBasedGroup → Result (List RoleSpec) → Io (Result Outcome × Bool)
      unfolding keep_watched
      with_sorted watched rbg (ok sorted) t =
          let (r, u) = watch_pod_groups watched rbg t in keep_watched watched r rbg sorted u
      with_sorted watched rbg (err e) t = ((err e, watched), t)
      with_sorted watched rbg panic t = ((panic, watched), t)

      unfoldable pub reconcile_group : Bool → RoleBasedGroup → Io (Result Outcome × Bool)
      unfolding with_sorted
      reconcile_group watched rbg t =
          if rbg.meta.deleting
          then ((ok finished, watched), t)
          else with_sorted watched rbg (sort_roles rbg.roles) t

      after_get : Bool → Result RoleBasedGroup → Io (Result Outcome × Bool)
      after_get watched (ok rbg) t = reconcile_group watched rbg t
      after_get watched (err e) t = ((if is_not_found e then ok finished else err e, watched), t)
      after_get watched panic t = ((panic, watched), t)

      -- `Reconcile`; `watched` tells whether `watchedWorkload` has the PodGroups.
      unfoldable pub reconcile : Bool → Request → Io (Result Outcome × Bool)
      unfolding after_get
      reconcile watched req t =
          after_get watched (client.get_group t req.namespace req.name)
            (get role_based_group req.namespace req.name ∷ t)
