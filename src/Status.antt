-- ===== src/Status.antt =====
-- The status of a group: `setCondition` and `restartConditionTrue` of
-- internal/controller/workloads/pod_controller.go, and `updateRBGStatus` of
-- internal/controller/workloads/rolebasedgroup_controller.go.
pub mod Laws
use rolebasedgroup.Prelude.{
  String, Bool, true, false, ◌||◌, not, List, [], ◌∷◌, ◌++◌, str_eq, if◌then◌else◌, Result,
}
use rolebasedgroup.Prelude.Int.{eq_ℤ}
use rolebasedgroup.Api.{Condition, RoleStatus, RoleBasedGroup, RoleBasedGroupStatus}
use rolebasedgroup.Client.{Client, Call, patch_group_status, M, perform}

abbrev pub ready_type : String
ready_type = "Ready"

abbrev pub restart_in_progress_type : String
restart_in_progress_type = "RestartInProgress"

-- The loop of `setCondition`: every condition of the type whose status differs is replaced.
replace_conditions : Condition → List Condition → List Condition
replace_conditions new [] = []
replace_conditions new (c ∷ l) =
    (if str_eq new.type c.type then if str_eq new.status c.status then c else new else c)
    ∷ replace_conditions new l

has_condition : String → List Condition → Bool
has_condition type [] = false
has_condition type (c ∷ l) = if str_eq type c.type then true else has_condition type l

-- `setCondition`
unfoldable pub set_condition : Condition → List Condition → List Condition
unfolding replace_conditions has_condition
set_condition new l =
    if has_condition new.type l
    then replace_conditions new l
    else replace_conditions new l ++ new ∷ []

-- `restartConditionTrue`: the first condition of the type decides.
unfoldable pub restart_condition_true : List Condition → Bool
restart_condition_true [] = false
restart_condition_true (c ∷ l) =
    if str_eq c.type restart_in_progress_type
    then str_eq c.status "True"
    else restart_condition_true l

-- The loop that computes `rbgReady`.
unfoldable pub all_ready : List RoleStatus → Bool
all_ready [] = true
all_ready (s ∷ l) = if eq_ℤ s.ready_replicas s.replicas then all_ready l else false

unfoldable pub ready_condition : Bool → Condition
ready_condition true = record {
  type = ready_type;
  status = "True";
  reason = "AllRolesReady";
  message = "All roles are ready";
}
ready_condition false = record {
  type = ready_type;
  status = "False";
  reason = "RoleNotReady";
  message = "Not all role ready";
}

-- One round of the loop that updates the role statuses.
unfoldable pub merge_status : RoleStatus → List RoleStatus → List RoleStatus
merge_status new [] = new ∷ []
merge_status new (old ∷ l) =
    if str_eq new.name old.name
    then (if not (eq_ℤ new.replicas old.replicas)
          || not (eq_ℤ new.ready_replicas old.ready_replicas)
        then new
        else old)
      ∷ l
    else old ∷ merge_status new l

unfoldable pub merge_statuses : List RoleStatus → List RoleStatus → List RoleStatus
merge_statuses [] olds = olds
merge_statuses (new ∷ news) olds = merge_statuses news (merge_status new olds)

-- The status that `updateRBGStatus` patches.
unfoldable pub updated_status : RoleBasedGroupStatus → List RoleStatus → RoleBasedGroupStatus
updated_status status role_statuses = record {
  conditions = set_condition (ready_condition (all_ready role_statuses)) status.conditions;
  role_statuses = merge_statuses role_statuses status.role_statuses;
}

-- `updateRBGStatus`
unfoldable pub update_rbg_status : Client → RoleBasedGroup → List RoleStatus → M (Unit {0})
update_rbg_status client rbg role_statuses =
    perform client (
      patch_group_status rbg.meta.namespace rbg.meta.name (updated_status rbg.status role_statuses))
