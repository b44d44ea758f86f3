-- ===== src/Setup.antt =====
-- `SetupWithManager`, `CheckCrdExists`, `RBGPredicate` and `dynamicWatchCustomCRD` of
-- internal/controller/workloads/rolebasedgroup_controller.go, and the checks and the predicate of
-- rolebasedgroupscalingadapter_controller.go and rolebasedgroupset_controller.go beside it. The state
-- is `runtimeController` and `watchedWorkload`, two variables of the package that all workers share:
-- each access to them is a step, between any two of which other workers may run. `Owns`, which
-- appends to a slice without a lock, is one step here; two at the very same time are not modelled.
pub mod Workers
use rolebasedgroup.Prelude.{
  String, Bool, true, false, not, ◌&&◌, Option, none, some, List, [], ◌∷◌, ◌++◌, str_eq,
  if◌then◌else◌, Result, ok, err, panic,
}
use rolebasedgroup.Prelude.Int.{ℤ, eq_ℤ}
use rolebasedgroup.Api.{AdapterScaleTargetRef, ScalingAdapterSpec, ScalingAdapter, RoleBasedGroup}
use rolebasedgroup.Client.{
  Client, Kind, stateful_set, deployment, service, leader_worker_set, pod_group, M, ◌>>=◌, ◌>>◌,
  pure, lift, attempt,
}
use rolebasedgroup.Workload.{lws_crd_name, check_crd_exists}
use rolebasedgroup.Group.{pod_group_crd_name}

pub record Watches : Type 0 where
  -- The kinds that the builder owns, in the order of the calls of `Owns`, and those that it owned
  -- when `Complete` started the controller.
  pub owned : List Kind
  pub started : List Kind
  -- Whether `watchedWorkload` has the names of the two custom resources.
  pub has_lws : Bool
  pub has_pod_group : Bool

-- What the set-up makes of the two checks.
unfoldable pub set_up : (lws pod_groups : Bool) → Watches
set_up lws pod_groups =
    let always : List Kind = stateful_set ∷ deployment ∷ service ∷ [] in
    let owned : List Kind =
      (always ++ (if lws then leader_worker_set ∷ [] else []))
      ++ (if pod_groups then pod_group ∷ [] else []) in
    record { owned = owned; started = owned; has_lws = lws; has_pod_group = pod_groups }

-- The custom resources that are watched once they are there.
pub data Custom : Type 0 where
  lws_crd : Custom
  pod_group_crd : Custom

unfoldable pub custom_kind : Custom → Kind
custom_kind lws_crd = leader_worker_set
custom_kind pod_group_crd = pod_group

-- Whether `watchedWorkload` has the name, the store of the name, and `Owns`.
unfoldable pub has : Custom → Watches → Bool
has lws_crd w = w.has_lws
has pod_group_crd w = w.has_pod_group

unfoldable pub store : Custom → Watches → Watches
store lws_crd w = record w { has_lws = true }
store pod_group_crd w = record w { has_pod_group = true }

unfoldable pub owns : Custom → Watches → Watches
owns c w = record w { owned = w.owned ++ custom_kind c ∷ [] }

-- Where a worker of the controller stands: outside, behind a `Load` that did not find the name, or
-- behind the `LoadOrStore`, with `Owns` still to call.
pub data Phase : Type 0 where
  outside : Phase
  unseen : Custom → Phase
  stored : Custom → Phase

-- The next access of a worker to the variables, between any two of which others may run: of
-- `dynamicWatchCustomCRD`, or of `Reconcile` for the PodGroups, where the CRD is checked behind the
-- `Load`, with the answer `there`. A worker outside comes for the resource that is named.
unfoldable pub worker_step : Custom → (there : Bool) → Phase → Watches → Phase × Watches
worker_step c there outside w = (if has c w then outside else unseen c, w)
worker_step _ there (unseen lws_crd) w = (stored lws_crd, store lws_crd w)
worker_step _ there (unseen pod_group_crd) w =
    if there then (stored pod_group_crd, store pod_group_crd w) else (outside, w)
worker_step _ there (stored c) w = (outside, owns c w)

module _ (client : Client) where
  -- Whether a check found the resource.
  found : Result (Unit {0}) → M Bool
  found (ok _) = pure true
  found (err e) = pure false
  found panic = lift panic

  -- `SetupWithManager`
  unfoldable pub setup_with_manager : M Watches
  unfolding found
  setup_with_manager = do
    lws ← attempt (check_crd_exists client lws_crd_name) >>= found
    pod_groups ← attempt (check_crd_exists client pod_group_crd_name) >>= found
    pure (set_up lws pod_groups)

  -- The loop of `CheckCrdExists`.
  unfoldable check_crds : List String → M (Unit {0})
  check_crds [] = pure tt
  check_crds (name ∷ names) = check_crd_exists client name >> check_crds names

  -- `CheckCrdExists` of the controllers of the groups, the scaling adapters and the sets.
  unfoldable check_group_crds : M (Unit {0})
  check_group_crds = check_crds (
      "rolebasedgroups.workloads.x-k8s.io" ∷ "clusterengineruntimeprofiles.workloads.x-k8s.io" ∷ [])

  unfoldable check_adapter_crds : M (Unit {0})
  check_adapter_crds = check_crds ("rolebasedgroupscalingadapters.workloads.x-k8s.io" ∷ [])

  unfoldable check_set_crds : M (Unit {0})
  check_set_crds = check_crd_exists client "rolebasedgroupsets.workloads.x-k8s.io"

-- `UpdateFunc` of `RBGPredicate`; `none` is an object of another type. `reflect.DeepEqual` of the
-- specs, which have fields that the model has not, is a parameter.
unfoldable group_update :
    (RoleBasedGroup → RoleBasedGroup → Bool) → Option RoleBasedGroup → Option RoleBasedGroup → Bool
group_update same_spec (some old) (some new) = not (same_spec old new)
group_update same_spec _ _ = false

-- `CreateFunc` and `DeleteFunc` of `RBGPredicate`, and of `RBGScalingAdapterPredicate`.
unfoldable is_group : Option RoleBasedGroup → Bool
is_group none = false
is_group (some rbg) = true

unfoldable is_adapter : Option ScalingAdapter → Bool
is_adapter none = false
is_adapter (some a) = true

-- `reflect.DeepEqual` of two specs, which follows pointers.
unfoldable pub same_adapter_spec : ScalingAdapterSpec → ScalingAdapterSpec → Bool
same_adapter_spec s r =
    same_replicas s.replicas r.replicas && same_target s.scale_target_ref r.scale_target_ref
  where
    same_replicas : Option ℤ → Option ℤ → Bool
    same_replicas none none = true
    same_replicas (some m) (some n) = eq_ℤ m n
    same_replicas _ _ = false

    same_target : Option AdapterScaleTargetRef → Option AdapterScaleTargetRef → Bool
    same_target none none = true
    same_target (some x) (some y) = str_eq x.name y.name && str_eq x.role y.role
    same_target _ _ = false

-- `UpdateFunc` of `RBGScalingAdapterPredicate`
unfoldable pub adapter_update : Option ScalingAdapter → Option ScalingAdapter → Bool
adapter_update (some old) (some new) = not (same_adapter_spec old.spec new.spec)
adapter_update _ _ = false
