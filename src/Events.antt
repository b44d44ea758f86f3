-- ===== src/Events.antt =====
-- Which events wake the controllers: the predicates of
-- internal/controller/workloads/rolebasedgroup_controller.go and pod_controller.go, `WorkloadEqual` of
-- pkg/reconciler/workload_reconciler.go and `CheckOwnerReference` of pkg/utils/crds.go.
pub mod Missed
use rolebasedgroup.Prelude.{
  String, Bool, true, false, ◌&&◌, not, Option, none, some, List, [], ◌∷◌, str_eq, if◌then◌else◌,
  Result, ok, err, panic, bind_ok,
}
use rolebasedgroup.Prelude.Int.{ℤ, eq_ℤ}
use rolebasedgroup.Prelude.Maps.{map_get}
use rolebasedgroup.Api.{Labels, OwnerReference, ObjectMeta}
use rolebasedgroup.Api.Helper.{set_name_label_key}
use rolebasedgroup.Objects.{StatefulSet, Deployment, LeaderWorkerSet, Pod}
use rolebasedgroup.Equality.{
  semantically_equal_stateful_set, semantically_equal_deployment,
  semantically_equal_leader_worker_set,
}
use rolebasedgroup.Library.{Library}

-- The object of an event, by its type.
pub data WorkloadObject : Type 0 where
  a_deployment : Deployment → WorkloadObject
  a_stateful_set : StatefulSet → WorkloadObject
  a_leader_worker_set : LeaderWorkerSet → WorkloadObject
  another : ObjectMeta → WorkloadObject

abbrev object_meta : WorkloadObject → ObjectMeta
object_meta (a_deployment d) = d.meta
object_meta (a_stateful_set s) = s.meta
object_meta (a_leader_worker_set l) = l.meta
object_meta (another m) = m

-- `WorkloadEqual`, which returns an error exactly if it is false.
unfoldable pub workload_equal : WorkloadObject → WorkloadObject → Result Bool
workload_equal (a_deployment d) (a_deployment e) =
    ok (semantically_equal_deployment d e && eq_ℤ d.ready_replicas e.ready_replicas)
workload_equal (a_stateful_set s) (a_stateful_set r) =
    ok (semantically_equal_stateful_set s r && eq_ℤ s.ready_replicas r.ready_replicas)
workload_equal (a_leader_worker_set l) (a_leader_worker_set m) =
    bind_ok (semantically_equal_leader_worker_set l m)
      λ equal. ok (equal && eq_ℤ l.ready_replicas m.ready_replicas)
workload_equal _ _ = ok false

module _ (lib : Library) where
  -- Whether an owner reference is of a group, version and kind.
  unfoldable pub matches_owner : (group version kind : String) → OwnerReference → Bool
  matches_owner group version kind o = elim (lib.parse_group_version o.api_version) [
    | ok (g, v) ↦ str_eq g group && str_eq v version && str_eq o.kind kind
    | err e ↦ false
    | panic ↦ false
  ]

  -- `CheckOwnerReference`
  unfoldable pub check_owner_reference : List OwnerReference → (group version kind : String) → Bool
  check_owner_reference [] group version kind = false
  check_owner_reference (o ∷ l) group version kind =
      if matches_owner group version kind o
      then true
      else check_owner_reference l group version kind

  -- `hasValidOwnerRef`, for `getRbgGVK`; of no references there is none that matches.
  unfoldable pub has_valid_owner_ref : WorkloadObject → Bool
  has_valid_owner_ref w =
      check_owner_reference (object_meta w).owner_references "workloads.x-k8s.io" "v1alpha1"
        "RoleBasedGroup"

  -- `UpdateFunc` of `WorkloadPredicate`; `none` is nil. The log in front reads the new object.
  unfoldable pub workload_update : Option WorkloadObject → Option WorkloadObject → Result Bool
  workload_update old none = panic
  workload_update none (some new) = ok false
  workload_update (some old) (some new) =
      let changed = bind_ok (workload_equal old new) λ equal. ok (not equal) in
      if has_valid_owner_ref old && has_valid_owner_ref new then changed else ok false

  -- `DeleteFunc` of `WorkloadPredicate`
  unfoldable workload_delete : Option WorkloadObject → Bool
  workload_delete none = false
  workload_delete (some w) = has_valid_owner_ref w

-- The predicate of the pods; `none` is an object of another type.
has_name_label : Pod → Bool
has_name_label p = elim (map_get p.meta.labels set_name_label_key) [ none ↦ false | some v ↦ true ]

unfoldable pod_update : Option Pod → Option Pod → Bool
unfolding has_name_label
pod_update (some old) (some new) = has_name_label old && has_name_label new
pod_update _ _ = false

unfoldable pod_delete : Option Pod → Bool
unfolding has_name_label
pod_delete none = false
pod_delete (some p) = has_name_label p
