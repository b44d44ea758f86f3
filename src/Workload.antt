-- ===== src/Workload.antt =====
-- pkg/reconciler: what the reconcilers of the three kinds of workload have in common, and the
-- interface `WorkloadReconciler` of pkg/reconciler/workload_reconciler.go.
pub mod Orphans
pub mod Recreate
pub mod Named
use rolebasedgroup.Prelude.{
  String, Bool, true, false, ◌||◌, not, Option, none, some, List, [], ◌∷◌, map, str_eq,
  if◌then◌else◌, Error, Result, ok, err, panic, not_found, other, is_not_found,
}
use rolebasedgroup.Prelude.Int.{ℤ, eq_ℤ}
use rolebasedgroup.Api.{Labels, ObjectMeta, WorkloadSpec, RoleSpec, RoleStatus, RoleBasedGroup}
use rolebasedgroup.Api.Helper.{
  set_name_label_key, deployment_workload_type, stateful_set_workload_type,
  leader_worker_set_workload_type, workload_string, get_workload_name, get_role_status,
}
use rolebasedgroup.Objects.{StatefulSet, Deployment, LeaderWorkerSet, PodCondition}
use rolebasedgroup.Client.{
  Client, Kind, stateful_set, deployment, leader_worker_set, crd, Call, get, list, delete, Io, M,
  ◌>>=◌, ◌>>◌, pure, lift, fail, attempt, deref, perform, read, wrap, bind_result,
}

-- `WorkloadReconciler`
pub record WorkloadReconciler : Type 0 where
  pub reconcile : RoleBasedGroup → RoleSpec → M (Unit {0})
  pub construct_role_status : RoleBasedGroup → RoleSpec → M (RoleStatus × Bool)
  pub check_workload_ready : RoleBasedGroup → RoleSpec → M Bool
  pub cleanup_orphaned_workloads : RoleBasedGroup → M (Unit {0})
  pub recreate_workload : RoleBasedGroup → RoleSpec → M (Unit {0})

-- The three reconcilers that implement it, by the kind of their workload.
pub data WorkloadKind : Type 0 where
  deployments stateful_sets leader_worker_sets : WorkloadKind

abbrev pub kind_of : WorkloadKind → Kind
kind_of deployments = deployment
kind_of stateful_sets = stateful_set
kind_of leader_worker_sets = leader_worker_set

abbrev pub kind_text : WorkloadKind → String
kind_text deployments = "Deployment"
kind_text stateful_sets = "StatefulSet"
kind_text leader_worker_sets = "LeaderWorkerSet"

-- Which reconciler `NewWorkloadReconciler` gives.
unfoldable pub new_workload_reconciler : WorkloadSpec → Result WorkloadKind
new_workload_reconciler w =
    if str_eq (workload_string w) deployment_workload_type
    then ok deployments
    else if str_eq (workload_string w) stateful_set_workload_type
    then ok stateful_sets
    else if str_eq (workload_string w) leader_worker_set_workload_type
    then ok leader_worker_sets
    else err (other "unsupported workload type: %s")

-- The status that `ConstructRoleStatus` gives from what it read of the workload, and whether it is
-- new.
unfoldable pub role_status_from : RoleBasedGroup → RoleSpec → ℤ → ℤ → RoleStatus × Bool
role_status_from rbg role current_replicas current_ready =
    let new : RoleStatus = record {
      name = role.name;
      ready_replicas = current_ready;
      replicas = current_replicas;
    } in
    elim (get_role_status rbg role.name) [
      | none ↦ (new, true)
      | some status ↦
          if not (eq_ℤ status.replicas current_replicas)
            || not (eq_ℤ status.ready_replicas current_ready)
          then (new, true)
          else (status, false)
    ]

abbrev pub lws_crd_name : String
lws_crd_name = "leaderworkersets.leaderworkerset.x-k8s.io"

-- The loop over the roles in `CleanupOrphanedWorkloads`: whether a role of that kind has a workload
-- of that name.
unfoldable pub has_workload : String → RoleBasedGroup → List RoleSpec → String → Bool
has_workload kind rbg [] name = false
has_workload kind rbg (role ∷ roles) name =
    if (if str_eq role.workload.kind kind then str_eq (get_workload_name rbg role) name else false)
    then true
    else has_workload kind rbg roles name

module _ (client : Client) where
  -- The loop over the workloads in `CleanupOrphanedWorkloads`.
  unfoldable pub delete_orphans : WorkloadKind → RoleBasedGroup → List ObjectMeta → M (Unit {0})
  delete_orphans kind rbg [] = pure tt
  delete_orphans kind rbg (w ∷ l) =
      let rest = delete_orphans kind rbg l in
      let deleted =
        wrap (other "delete %s error: %s")
          (perform client (delete (kind_of kind) w.namespace w.name))
        >> rest in
      if client.is_controlled_by w.owner_references rbg.meta.uid
      then (if has_workload (kind_text kind) rbg rbg.roles w.name then rest else deleted)
      else rest

  -- `utils.CheckCrdExists`
  established : List PodCondition → Bool
  established [] = false
  established (c ∷ l) =
      if (if str_eq c.type "Established" then str_eq c.status "True" else false)
      then true
      else established l

  unfoldable pub check_crd_exists : String → M (Unit {0})
  unfolding established
  check_crd_exists name = do
    conditions ← read (get crd "" name) (λ t. client.get_crd t name)
    if established conditions then pure tt else fail (other "CRD %s exists but not established")

  module _ (rbg : RoleBasedGroup) where
    -- The labels by which `CleanupOrphanedWorkloads` lists.
    abbrev group_labels : Labels
    group_labels = (set_name_label_key, rbg.meta.name) ∷ []

    abbrev list_call : Kind → Call
    list_call kind = list kind rbg.meta.namespace group_labels

    -- `CleanupOrphanedWorkloads` of the three reconcilers.
    unfoldable pub cleanup_deployments : M (Unit {0})
    cleanup_deployments = do
      l ←
          read (list_call deployment)
            (λ t. client.list_deployments t rbg.meta.namespace group_labels)
      delete_orphans deployments rbg (map (λ w. w.meta) l)

    unfoldable pub cleanup_stateful_sets : M (Unit {0})
    cleanup_stateful_sets = do
      l ←
          read (list_call stateful_set)
            (λ t. client.list_stateful_sets t rbg.meta.namespace group_labels)
      delete_orphans stateful_sets rbg (map (λ w. w.meta) l)

    delete_lws_orphans : M (Unit {0})
    delete_lws_orphans = do
      l ←
          read (list_call leader_worker_set)
            (λ t. client.list_leader_worker_sets t rbg.meta.namespace group_labels)
      delete_orphans leader_worker_sets rbg (map (λ w. w.meta) l)

    -- Without the CRD there is nothing to clean up.
    unfoldable pub cleanup_leader_worker_sets : M (Unit {0})
    unfolding delete_lws_orphans
    cleanup_leader_worker_sets = do
      established ← attempt (check_crd_exists lws_crd_name)
      after_check established
      where
        after_check : Result (Unit {0}) → M (Unit {0})
        after_check (ok _) = delete_lws_orphans
        after_check (err e) = pure tt
        after_check panic = lift panic

    module _ (role : RoleSpec) where
      abbrev workload_key : String
      workload_key = get_workload_name rbg role

      abbrev get_call : Kind → Call
      get_call kind = get kind rbg.meta.namespace workload_key

      abbrev pub read_stateful_set : M StatefulSet
      read_stateful_set =
          read (get_call stateful_set)
            (λ t. client.get_stateful_set t rbg.meta.namespace workload_key)

      abbrev pub read_deployment : M Deployment
      read_deployment =
          read (get_call deployment) (λ t. client.get_deployment t rbg.meta.namespace workload_key)

      abbrev pub read_leader_worker_set : M LeaderWorkerSet
      read_leader_worker_set =
          read (get_call leader_worker_set)
            (λ t. client.get_leader_worker_set t rbg.meta.namespace workload_key)

      -- `ConstructRoleStatus` of the three reconcilers.
      unfoldable pub construct_stateful_set_status : M (RoleStatus × Bool)
      construct_stateful_set_status = do
        sts ← read_stateful_set
        replicas ← lift (deref sts.replicas)
        pure (role_status_from rbg role replicas sts.ready_replicas)

      unfoldable pub construct_deployment_status : M (RoleStatus × Bool)
      construct_deployment_status = do
        deploy ← read_deployment
        replicas ← lift (deref deploy.replicas)
        pure (role_status_from rbg role replicas deploy.ready_replicas)

      unfoldable pub construct_leader_worker_set_status : M (RoleStatus × Bool)
      construct_leader_worker_set_status = do
        lws ← read_leader_worker_set
        pure (role_status_from rbg role lws.status_replicas lws.ready_replicas)

      -- `CheckWorkloadReady` of the three reconcilers.
      unfoldable pub check_stateful_set_ready : M Bool
      check_stateful_set_ready = do
        sts ← read_stateful_set
        replicas ← lift (deref sts.replicas)
        pure (eq_ℤ sts.ready_replicas replicas)

      unfoldable pub check_deployment_ready : M Bool
      check_deployment_ready = do
        deploy ← read_deployment
        replicas ← lift (deref deploy.replicas)
        pure (eq_ℤ deploy.ready_replicas replicas)

      unfoldable pub check_leader_worker_set_ready : M Bool
      check_leader_worker_set_ready = do
        lws ← read_leader_worker_set
        pure (eq_ℤ lws.ready_replicas lws.status_replicas)
