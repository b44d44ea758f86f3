-- ===== src/Restart.antt =====
-- internal/controller/workloads/pod_controller.go: a pod that fails restarts the whole group.
-- The tests of a pod are those of pkg/utils/pod_utils.go.
pub mod Decision
pub mod Run
use rolebasedgroup.Prelude.{
  String, Bool, true, false, ◌||◌, not, Option, none, some, List, [], ◌∷◌, str_eq, if◌then◌else◌,
  Error, Result, ok, err, panic, is_not_found,
}
use rolebasedgroup.Prelude.Int.{ℤ, pos, ltb_ℤ}
use rolebasedgroup.Api.{Condition, RoleSpec, RoleBasedGroup}
use rolebasedgroup.Api.Helper.{
  set_name_label_key, set_role_label_key, recreate_rbg_on_pod_restart, label, get_role,
}
use rolebasedgroup.Objects.{ContainerStatus, PodCondition, Pod}
use rolebasedgroup.Client.{
  Client, role_based_group, Call, get, patch_group_status, Trace, Io, M, ◌>>=◌, ◌>>◌, pure, lift,
  fail, read, perform, bind_result,
}
use rolebasedgroup.Dependency.Sort.{sort_roles}
use rolebasedgroup.Status.{restart_in_progress_type, set_condition, restart_condition_true}
use rolebasedgroup.Workload.{new_workload_reconciler}
use rolebasedgroup.Workload.Recreate.{recreate_workload}

any_restarted : List ContainerStatus → Bool
any_restarted [] = false
any_restarted (c ∷ l) = if ltb_ℤ (pos 0) c.restart_count then true else any_restarted l

-- The engine runtime may restart.
any_restarted_but_runtime : List ContainerStatus → Bool
any_restarted_but_runtime [] = false
any_restarted_but_runtime (c ∷ l) =
    if str_eq c.name "patio-runtime"
    then any_restarted_but_runtime l
    else if ltb_ℤ (pos 0) c.restart_count
    then true
    else any_restarted_but_runtime l

-- `ContainerRestarted`
unfoldable pub container_restarted : Pod → Bool
unfolding any_restarted any_restarted_but_runtime
container_restarted pod =
    if str_eq pod.phase "Running" || str_eq pod.phase "Pending"
    then (if any_restarted pod.init_container_statuses
        then true
        else any_restarted_but_runtime pod.container_statuses)
    else false

-- `PodDeleted`
unfoldable pub pod_deleted : Pod → Bool
pod_deleted pod = pod.meta.deleting

pod_condition : List PodCondition → String → Option PodCondition
pod_condition [] type = none
pod_condition (c ∷ l) type = if str_eq c.type type then some c else pod_condition l type

-- `PodRunningAndReady`
unfoldable pub pod_running_and_ready : Pod → Bool
unfolding pod_condition
pod_running_and_ready pod =
    if str_eq pod.phase "Running"
    then elim (pod_condition pod.conditions "Ready") [
      | none ↦ false
      | some c ↦ str_eq c.status "True"
    ]
    else false

-- A request to reconcile a group.
pub record Request : Type 0 where
  pub namespace : String
  pub name : String

-- The end of `podToRBG`, on the group that was read.
restart_request : Pod → String → Result RoleBasedGroup → Option Request
restart_request pod rbg_name (ok rbg) =
    let role_name = label pod.meta.labels set_role_label_key in
    if rbg.meta.deleting || restart_condition_true rbg.status.conditions || str_eq role_name ""
    then none
    else elim (get_role rbg role_name) [
      | ok role ↦
          if str_eq role.restart_policy recreate_rbg_on_pod_restart
          then some (record { namespace = rbg.meta.namespace; name = rbg_name })
          else none
      | err e ↦ none
      | panic ↦ none
    ]
restart_request pod rbg_name (err e) = none
restart_request pod rbg_name panic = none

-- `podToRBG`: at most one request.
unfoldable pub pod_to_rbg : Client → Pod → Io (Option Request)
unfolding restart_request
pod_to_rbg client pod t =
    let rbg_name = label pod.meta.labels set_name_label_key in
    if str_eq rbg_name "" || not (container_restarted pod || pod_deleted pod) then (none, t) else (
      restart_request pod rbg_name (client.get_group t pod.meta.namespace rbg_name),
      get role_based_group pod.meta.namespace rbg_name ∷ t,
    )

unfoldable pub restart_condition : Bool → Condition
restart_condition true = record {
  type = restart_in_progress_type;
  status = "False";
  reason = "RBGRestartCompleted";
  message = "RBG Restart Completed";
}
restart_condition false = record {
  type = restart_in_progress_type;
  status = "True";
  reason = "RBGRestart";
  message = "RBG Restart in progress";
}

module _ (client : Client) where
  -- The group with the condition set, in memory.
  unfoldable pub with_restart_condition : RoleBasedGroup → Bool → RoleBasedGroup
  with_restart_condition rbg completed =
      let status = record (rbg.status) {
        conditions = set_condition (restart_condition completed) rbg.status.conditions;
      } in
      record rbg { status = status }

  -- `setRestartCondition`
  unfoldable pub set_restart_condition : RoleBasedGroup → Bool → M RoleBasedGroup
  set_restart_condition rbg completed =
      let rbg' = with_restart_condition rbg completed in
      perform client (patch_group_status rbg.meta.namespace rbg.meta.name rbg'.status) >> pure rbg'

  -- The loop over the sorted roles.
  unfoldable pub recreate_roles : RoleBasedGroup → List RoleSpec → M (Unit {0})
  recreate_roles rbg [] = pure tt
  recreate_roles rbg (role ∷ roles) = do
    kind ← lift (new_workload_reconciler role.workload)
    recreate_workload client kind rbg role
    recreate_roles rbg roles

  -- `restartRBG`
  unfoldable pub restart_rbg : RoleBasedGroup → M (Unit {0})
  restart_rbg rbg = do
    started ← set_restart_condition rbg false
    roles ← lift (sort_roles started.roles)
    recreate_roles started roles
    set_restart_condition started true
    pure tt

  after_get : Result RoleBasedGroup → M (Unit {0})
  after_get (ok rbg) = restart_rbg rbg
  after_get (err e) = if is_not_found e then pure tt else fail e
  after_get panic = lift panic

  -- `Reconcile`; its result is always empty.
  unfoldable reconcile_pod : Request → M (Unit {0})
  unfolding after_get
  reconcile_pod req t =
      after_get (client.get_group t req.namespace req.name)
        (get role_based_group req.namespace req.name ∷ t)
