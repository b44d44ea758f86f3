-- ===== src/GroupSet.antt =====
-- internal/controller/workloads/rolebasedgroupset_controller.go: a set creates the groups that it
-- lacks. The goroutines that create them make the same call each, so that in every order of theirs
-- the calls are the same; the model makes one after the other.
pub mod Creates
use rolebasedgroup.Prelude.{
  ℕ, zero, suc, ◌+◌, ◌-◌, ◌*◌, ◌≤◌, String, Bool, true, false, Option, none, some, List, [], ◌∷◌,
  ◌++◌, length, ◌≡◌, refl, ap, sym, ◌∙◌, if◌then◌else◌, inl, inr, Bool-cases, Error, is_not_found,
  Result, ok, err, panic, other, arith,
}
use Prim.Native.String.{◌++◌ as str_append}
use rolebasedgroup.Prelude.Int.{ℤ, pos, pos_part, ◌-ℤ◌, leb_ℤ, ◌≤ℤ◌, sub_ℕ, int_laws}
use rolebasedgroup.Api.{OwnerReference, ObjectMeta, RoleBasedGroup, RoleBasedGroupSet}
use rolebasedgroup.Client.{
  Client, role_based_group, role_based_group_set, Call, get, list, create_group, Trace, Io, M,
  ◌>>=◌, ◌>>◌, pure, lift, fail, deref, read, perform, wrap,
}
use rolebasedgroup.Group.{Outcome, finished}
use rolebasedgroup.Restart.{Request}

abbrev pub role_based_group_set_key : String
role_based_group_set_key = "workload-rbgs-name"

-- `controllerutil.SetControllerReference` gives the reference to the set, or an error.
module _ (client : Client) (set_reference : RoleBasedGroupSet → Result OwnerReference) where
  new_group : RoleBasedGroupSet → OwnerReference → RoleBasedGroup
  new_group set owner = record {
    api_version = "";
    kind = "";
    meta = record {
      name = "";
      namespace = set.meta.namespace;
      uid = "";
      labels = (role_based_group_set_key, set.meta.name) ∷ [];
      annotations = [];
      owner_references = owner ∷ [];
      deleting = false;
    };
    roles = set.template_roles;
    pod_group_policy = none;
    status = record { conditions = []; role_statuses = [] };
  }

  -- The call of `createRBG`, for the reference to the set.
  unfoldable pub create_call : RoleBasedGroupSet → OwnerReference → Call
  unfolding new_group
  create_call set owner = create_group (str_append set.meta.name "-") (new_group set owner)

  -- `createRBG`
  unfoldable pub create_rbg : RoleBasedGroupSet → M (Unit {0})
  create_rbg set = do
    owner ← lift (set_reference set)
    wrap (other "create rbg error: %v") (perform client (create_call set owner))

  -- The loop that starts the goroutines; an error of theirs is only logged.
  unfoldable pub create_all : ℕ → RoleBasedGroupSet → Trace → Trace
  create_all zero set t = t
  create_all (suc n) set t = create_all n set (create_rbg set t).1

  -- `createNum`: as many groups as the set has too few.
  unfoldable pub create_num : ℤ → ℕ → ℕ
  create_num replicas n = if leb_ℤ replicas (pos n) then 0 else pos_part (replicas -ℤ pos n)

  unfoldable pub reconcile_set : RoleBasedGroupSet → M Outcome
  reconcile_set set = do
    groups ←
        read (list role_based_group set.meta.namespace labels)
          (λ t. client.list_groups t set.meta.namespace labels)
    replicas ← lift (deref set.replicas)
    λ t. (ok finished, create_all (create_num replicas (length groups)) set t)
    where
      labels : List (String × String)
      labels = (role_based_group_set_key, set.meta.name) ∷ []

  after_get : Result RoleBasedGroupSet → M Outcome
  after_get (ok set) = reconcile_set set
  after_get (err e) = if is_not_found e then pure finished else fail e
  after_get panic = lift panic

  -- `Reconcile`
  unfoldable pub reconcile : Request → M Outcome
  unfolding after_get
  reconcile req t =
      after_get (client.get_group_set t req.namespace req.name)
        (get role_based_group_set req.namespace req.name ∷ t)
