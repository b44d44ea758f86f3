-- ===== src/Api/Helper.antt =====
-- api/workloads/v1alpha1/helper.go and constant.go, and pkg/scale/scaling_adapter.go.
use Prim.Native.String.{◌++◌ as str_append}
use rolebasedgroup.Prelude.{
  String, Bool, true, false, Option, none, some, List, [], ◌∷◌, str_eq, if◌then◌else◌, Result, ok,
  err, panic, other,
}
use rolebasedgroup.Prelude.Decimal.{format_ℤ}
use rolebasedgroup.Prelude.Int.{ℤ, pos, ◌+ℤ◌, ◌*ℤ◌}
use rolebasedgroup.Api.{
  Labels, OwnerReference, WorkloadSpec, RoleSpec, RoleStatus, RoleBasedGroup, ScalingAdapter,
}

abbrev pub set_name_label_key : String
set_name_label_key = "rolebasedgroup.workloads.x-k8s.io/name"

abbrev pub set_role_label_key : String
set_role_label_key = "rolebasedgroup.workloads.x-k8s.io/role"

abbrev pub pod_group_label_key : String
pod_group_label_key = "pod-group.scheduling.sigs.k8s.io/name"

abbrev pub role_size_annotation_key : String
role_size_annotation_key = "rolebasedgroup.workloads.x-k8s.io/role-size"

abbrev pub deployment_workload_type : String
deployment_workload_type = "apps/v1/Deployment"

abbrev pub stateful_set_workload_type : String
stateful_set_workload_type = "apps/v1/StatefulSet"

abbrev pub leader_worker_set_workload_type : String
leader_worker_set_workload_type = "leaderworkerset.x-k8s.io/v1/LeaderWorkerSet"

abbrev pub recreate_rbg_on_pod_restart : String
recreate_rbg_on_pod_restart = "RecreateRBGOnPodRestart"

-- A read of a map of texts: "" for a missing key.
unfoldable pub label : Labels → String → String
label [] k = ""
label ((j, v) ∷ m) k = if str_eq j k then v else label m k

-- `WorkloadSpec.String`
unfoldable pub workload_string : WorkloadSpec → String
workload_string w = str_append w.api_version (str_append "/" w.kind)

-- `GetCommonLabelsFromRole`
unfoldable pub get_common_labels_from_role : RoleBasedGroup → RoleSpec → Labels
get_common_labels_from_role rbg role =
    (set_name_label_key, rbg.meta.name) ∷ (set_role_label_key, role.name) ∷ []

-- `GetCommonAnnotationsFromRole`: a nil pointer that is dereferenced is a panic.
unfoldable pub get_common_annotations_from_role : RoleSpec → Result Labels
get_common_annotations_from_role role = elim role.replicas [
  | none ↦ panic
  | some n ↦ ok ((role_size_annotation_key, format_ℤ n) ∷ [])
]

-- One round of `GetGroupSize`: `none` dereferences a nil pointer.
role_size : RoleSpec → Option ℤ
role_size role =
    if str_eq (workload_string role.workload) leader_worker_set_workload_type
    then lws_size role.leader_worker_set.size role.replicas
    else role.replicas
  where
    lws_size : Option ℤ → Option ℤ → Option ℤ
    lws_size (some size) (some replicas) = some (size *ℤ replicas)
    lws_size _ _ = none

-- The loop of `GetGroupSize`, with its sum so far, on 64-bit integers.
group_size_from : ℤ → List RoleSpec → Option ℤ
unfolding role_size
group_size_from ret [] = some ret
group_size_from ret (role ∷ roles) = elim (role_size role) [
  | none ↦ none
  | some n ↦ group_size_from (ret +ℤ n) roles
]

-- `GetGroupSize`
unfoldable pub get_group_size : RoleBasedGroup → Option ℤ
unfolding group_size_from
get_group_size rbg = group_size_from (pos 0) rbg.roles

-- `GetWorkloadName`
unfoldable pub get_workload_name : RoleBasedGroup → RoleSpec → String
get_workload_name rbg role = str_append rbg.meta.name (str_append "-" role.name)

-- The loop of `GetRole`: the first role of that name.
unfoldable pub find_role : List RoleSpec → String → Option RoleSpec
find_role [] name = none
find_role (r ∷ roles) name = if str_eq r.name name then some r else find_role roles name

-- `GetRole`
unfoldable pub get_role : RoleBasedGroup → String → Result RoleSpec
get_role rbg name =
    if str_eq name ""
    then err (other "roleName cannot be empty")
    else elim (find_role rbg.roles name) [ some r ↦ ok r | none ↦ err (other "role %q not found") ]

unfoldable pub find_status : List RoleStatus → String → Option RoleStatus
find_status [] name = none
find_status (s ∷ l) name = if str_eq s.name name then some s else find_status l name

-- `GetRoleStatus`: `none` if it is not found.
unfoldable pub get_role_status : RoleBasedGroup → String → Option RoleStatus
unfolding find_status
get_role_status rbg name =
    if str_eq name "" then none else find_status rbg.status.role_statuses name

-- `EnableGangScheduling`
unfoldable pub enable_gang_scheduling : RoleBasedGroup → Bool
enable_gang_scheduling rbg = elim rbg.pod_group_policy [
  | none ↦ false
  | some p ↦ elim p.kube_scheduling [ none ↦ false | some k ↦ true ]
]

-- The loop of `ContainsRBGOwner` and `IsScalingAdapterManagedByRBG`.
unfoldable pub owned_by : List OwnerReference → String → Bool
owned_by [] uid = false
owned_by (o ∷ l) uid = if str_eq o.uid uid then true else owned_by l uid

-- `ContainsRBGOwner`
unfoldable pub contains_rbg_owner : ScalingAdapter → RoleBasedGroup → Bool
contains_rbg_owner a rbg = owned_by a.meta.owner_references rbg.meta.uid

-- `GenerateScalingAdapterName`
unfoldable pub generate_scaling_adapter_name : String → String → String
generate_scaling_adapter_name rbg_name role_name = str_append rbg_name (str_append "-" role_name)

-- `IsScalingAdapterManagedByRBG`; `none` is a nil group.
unfoldable pub is_scaling_adapter_managed_by_rbg : ScalingAdapter → Option RoleBasedGroup → Bool
is_scaling_adapter_managed_by_rbg a none = false
is_scaling_adapter_managed_by_rbg a (some rbg) = owned_by a.meta.owner_references rbg.meta.uid

-- `IsScalingAdapterEnable`
unfoldable pub is_scaling_adapter_enable : RoleSpec → Bool
is_scaling_adapter_enable role = elim role.scaling_adapter [ none ↦ false | some s ↦ s.enable ]
