-- ===== src/Reconcile/Interface.antt =====
-- pkg/reconciler: the three reconcilers as implementations of `WorkloadReconciler`.
use rolebasedgroup.Prelude.{Bool, refl}
use rolebasedgroup.Api.{RoleSpec, RoleBasedGroup}
use rolebasedgroup.Client.{Client, M}
use rolebasedgroup.Workload.{
  WorkloadReconciler, WorkloadKind, stateful_sets, deployments, leader_worker_sets,
  cleanup_deployments, cleanup_stateful_sets, cleanup_leader_worker_sets, check_stateful_set_ready,
  check_deployment_ready, check_leader_worker_set_ready,
}
use rolebasedgroup.Workload.Named.{Named, constructs, constructs-Named}
use rolebasedgroup.Workload.Recreate.{recreate_workload}
use rolebasedgroup.Library.{Library}
use rolebasedgroup.Reconcile.Services.{reconcile_stateful_set_role}
use rolebasedgroup.Reconcile.Deployments.{reconcile_deployment_role}
use rolebasedgroup.Reconcile.LeaderWorkerSets.{reconcile_leader_worker_set_role}

module _ (client : Client) (lib : Library) where
  reconciles : WorkloadKind → RoleBasedGroup → RoleSpec → M (Unit {0})
  reconciles stateful_sets = reconcile_stateful_set_role client lib
  reconciles deployments = reconcile_deployment_role client lib
  reconciles leader_worker_sets = reconcile_leader_worker_set_role client lib

  cleans : WorkloadKind → RoleBasedGroup → M (Unit {0})
  cleans stateful_sets = cleanup_stateful_sets client
  cleans deployments = cleanup_deployments client
  cleans leader_worker_sets = cleanup_leader_worker_sets client

  checks : WorkloadKind → RoleBasedGroup → RoleSpec → M Bool
  checks stateful_sets = check_stateful_set_ready client
  checks deployments = check_deployment_ready client
  checks leader_worker_sets = check_leader_worker_set_ready client

  -- The reconciler of a kind of workload.
  unfoldable pub workload_reconciler : WorkloadKind → WorkloadReconciler
  unfolding reconciles cleans checks
  workload_reconciler kind = record {
    reconcile = reconciles kind;
    construct_role_status = constructs client kind;
    check_workload_ready = checks kind;
    cleanup_orphaned_workloads = cleans kind;
    recreate_workload = recreate_workload client kind;
  }

  pub workload_reconciler-Named : (kind : WorkloadKind) → Named (workload_reconciler kind)
  unfolding workload_reconciler
  workload_reconciler-Named kind = constructs-Named client kind (workload_reconciler kind) refl
