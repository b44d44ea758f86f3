-- ===== src/Lib.antt =====
-- The Kubernetes operator for role-based groups. A RoleBasedGroup has roles; each is a workload (a
-- StatefulSet, a Deployment or a LeaderWorkerSet) and may depend on other roles. Controllers react
-- to changes: that of the groups sorts the roles by their dependencies, reconciles each once its
-- dependencies are ready, gathers their statuses, and deletes what no role has any more; that of
-- the pods restarts a group when one of its pods fails; that of the scaling adapters sets the
-- replicas of a role; that of the sets creates groups.
--
-- Dependency models pkg/dependency/dependency.go: `dependency_order` and `visit` are
-- `dependencyOrder` and its closure, with the maps and slices that the closure shares as the record
-- `Walk`; Sort is `SortRoles`. The recursion is on fuel, two more than there are roles: one level
-- for each role, one for a name that is no role, and one to end. Api and Api/Helper model
-- api/workloads/v1alpha1 and pkg/scale/scaling_adapter.go: the types, with the fields that the
-- program uses, and the functions on them. Client is the API server: what it answers to a call is a
-- function of all the calls before, about which nothing is assumed; a computation takes the trace
-- of calls and gives a result (a value, an error or a panic) and the longer trace. It also holds
-- the functions of the Kubernetes libraries that the program calls, as parameters. Rollout models
-- the rolling update in pkg/reconciler/sts_reconciler.go: `rolling_update_partition` is
-- `rollingUpdatePartition`, on int32 with its wrap-around; an index out of range is `none`. Its
-- child Parameters is `rollingUpdateParameters` with `validateRolloutStrategy`. It takes as an
-- argument how the states of the replicas are read; States is `getReplicaStates`, which reads them.
-- Objects holds the objects of the Kubernetes API and the configurations that are applied. Workload
-- models what pkg/reconciler/sts_reconciler.go, deploy_reconciler.go and lws_reconciler.go have in
-- common (statuses, readiness, the clean-up of orphans), with Recreate for `RecreateWorkload`, and
-- the interface `WorkloadReconciler` of workload_reconciler.go, on which Group rests. Reconcile
-- models `Reconciler` of the three files: Deployments, LeaderWorkerSets and StatefulSets construct
-- a configuration (`construct_deployment` is `constructDeployApplyConfiguration`), compare it with
-- what the API server has, and apply it; Services is the headless service of a StatefulSet;
-- Interface puts them together as `NewWorkloadReconciler` does. They rest on Template, the pod
-- template of pod_reconciler.go, on Rollout for the partition, on Equality, the comparisons in
-- pod_reconciler.go and beside it, and on Library, which has `PatchObjectApplyConfiguration` of
-- pkg/utils/utils.go and, as parameters, the conversions, the strategic merge and the other library
-- functions that they call. The leader of a LeaderWorkerSet may share its containers with the
-- role's template, which the workers start from: `left_by_leader` is what it leaves there. Group
-- models internal/controller/workloads/rolebasedgroup_controller.go: `reconcile` is `Reconcile`,
-- `reconcile_roles` its loop over the roles, with ScalingAdapters for its work on scaling adapters
-- (`ReconcileScalingAdapter`, `CleanupOrphanedScalingAdapters`); Status is `updateRBGStatus` and
-- `setCondition`. Restart models pod_controller.go beside it, Adapter
-- rolebasedgroupscalingadapter_controller.go, GroupSet rolebasedgroupset_controller.go. Events
-- models the predicates that decide which events of workloads and pods wake a controller, with
-- `WorkloadEqual` and `CheckOwnerReference`; Setup the other predicates, the checks of the custom
-- resources, and `SetupWithManager` with the kinds that the controller of the groups owns;
-- `worker_step` is the next access of a worker to the two variables that `dynamicWatchCustomCRD`
-- and `Reconcile` change while other workers run. PodGroup models
-- pkg/scheduler/podgroup_manager.go. Discovery models pkg/discovery: the environment, the sidecars
-- and the mounts of a role's pods, with Config for config_builder.go and Inject for the ConfigMap
-- of `InjectConfig` in injector.go. Prelude holds the shared helpers, and Examples the concrete
-- objects on which theorems are applied.
--
-- Not modelled: logs, events and times; two calls of `Owns` at the very same time, which append to
-- one slice without a lock (`reconcile` takes what it loads of the shared variables as an
-- argument); the registration of the other controllers; the conversion of objects to and from JSON
-- and YAML; the fields of configurations that the program never reads back and that say the same
-- for every object, as blockOwnerDeletion; generated code; the program's entry in cmd/rbgs and the
-- command in cmd/cli. An error keeps its text without what is printed into it, and whether it is
-- NotFound or Conflict. A map is a list of entries, and nil is the empty one. Concurrent
-- controllers are part of the API server, whose answers may change between any two calls.
pub mod Prelude
pub mod Dependency
pub mod Api
pub mod Objects
pub mod Client
pub mod Rollout
pub mod Status
pub mod Workload
pub mod Restart
pub mod Adapter
pub mod PodGroup
pub mod Discovery
pub mod Library
pub mod Template
pub mod Reconcile
pub mod Events
pub mod Equality
pub mod GroupSet
pub mod Group
pub mod Setup
pub mod Examples
