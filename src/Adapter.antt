-- ===== src/Adapter.antt =====
-- internal/controller/workloads/rolebasedgroupscalingadapter_controller.go: a scaling adapter is
-- bound to a role of a group and sets its number of replicas. The apply configurations are those of
-- pkg/utils/rolebasedgroupscalingadapter_apply_configuration.go.
pub mod Scaling
pub mod Phases
pub mod Calls
use Prim.Native.String.{◌++◌ as str_append}
use rolebasedgroup.Prelude.{
  String, Bool, true, false, not, Option, none, some, List, [], ◌∷◌, str_eq, if◌then◌else◌, Error,
  Result, ok, err, panic, other, is_not_found, is_conflict,
}
use rolebasedgroup.Prelude.Int.{ℤ, eq_ℤ}
use rolebasedgroup.Api.{
  Labels, OwnerReference, RoleSpec, RoleBasedGroup, AdapterScaleTargetRef, ScalingAdapter,
  ScalingAdapterSpec, ScalingAdapterStatus,
}
use rolebasedgroup.Api.Helper.{
  get_workload_name, get_role, contains_rbg_owner, is_scaling_adapter_managed_by_rbg,
}
use rolebasedgroup.Client.{
  Client, role_based_group, scaling_adapter, Call, get, get_object, update_group,
  patch_adapter_owner, patch_adapter_spec, patch_adapter_status, Trace, Io, M, ◌>>=◌, ◌>>◌, pure,
  lift, fail, attempt, deref, read, perform, bind_result,
}
use rolebasedgroup.Restart.{Request}

abbrev not_bound : String
not_bound = "NotBound"

abbrev pub bound : String
bound = "Bound"

-- `ctrl.Result`: empty, or with `RequeueAfter: 1` or `RequeueAfter: 10`.
pub data Requeue : Type 0 where
  done : Requeue
  after_1 after_10 : Requeue

-- `WithReplicas` of the apply configuration of a spec: nil leaves it.
unfoldable pub spec_with_replicas : ScalingAdapterSpec → Option ℤ → ScalingAdapterSpec
spec_with_replicas spec none = spec
spec_with_replicas spec (some n) = record spec { replicas = some n }

-- `WithReplicas` of the apply configuration of a status: nil leaves it, and `scale` sets the time.
unfoldable pub status_with_replicas : ScalingAdapterStatus → Option ℤ → Bool → ScalingAdapterStatus
status_with_replicas status none scale = status
status_with_replicas status (some n) scale = record status {
  replicas = some n;
  scaled = if scale then true else status.scaled;
}

-- `strings.Join(pairs, ",")`, of `k=v`.
join_pairs : Labels → String
join_pairs [] = ""
join_pairs ((k, v) ∷ []) = str_append k (str_append "=" v)
join_pairs ((k, v) ∷ e ∷ l) =
    str_append k (str_append "=" (str_append v (str_append "," (join_pairs (e ∷ l)))))

-- The loop that sets the replicas of the first role of that name.
unfoldable pub set_role_replicas : List RoleSpec → String → Option ℤ → List RoleSpec
set_role_replicas [] name n = []
set_role_replicas (r ∷ roles) name n =
    if str_eq r.name name
    then record r { replicas = n } ∷ roles
    else r ∷ set_role_replicas roles name n

module _ (client : Client) where
  -- One try of `updateRoleReplicas`: on a conflict the group is read again, for the next try.
  unfoldable pub try_update :
      String → Option ℤ → RoleBasedGroup → Trace → (Result (Unit {0}) × RoleBasedGroup) × Trace
  try_update name n rbg t =
      let rbg' = record rbg { roles = set_role_replicas rbg.roles name n } in
      let (r, u) = perform client (update_group rbg') t in settle rbg' r u
    where
      reread : RoleBasedGroup → Error → Result RoleBasedGroup → Result (Unit {0}) × RoleBasedGroup
      reread old e (ok new) = (err e, new)
      reread old e (err e') = (err e', old)
      reread old e panic = (panic, old)

      settle :
          RoleBasedGroup → Result (Unit {0}) → Trace → (Result (Unit {0}) × RoleBasedGroup) × Trace
      settle new (ok _) u = ((ok tt, new), u)
      settle new (err e) u =
          if is_conflict e
          then (
            reread new e (client.get_group u new.meta.namespace new.meta.name),
            get role_based_group new.meta.namespace new.meta.name ∷ u,
          )
          else ((err e, new), u)
      settle new panic u = ((panic, new), u)

  -- `updateRoleReplicas`
  unfoldable pub update_role_replicas : RoleBasedGroup → String → Option ℤ → M (Unit {0})
  update_role_replicas rbg name n t =
      let (r, u) = client.retry_on_conflict RoleBasedGroup (try_update name n) rbg t in (r.0, u)

  module _ (adapter : ScalingAdapter) where
    abbrev ns : String
    ns = adapter.meta.namespace

    abbrev patch_status : ScalingAdapterStatus → M (Unit {0})
    patch_status status =
        perform client (patch_adapter_status ns adapter.meta.name adapter.spec status)

    -- The branch of `Reconcile` where the role is not found: the error of a patch is only logged.
    unfoldable pub unbind : M Requeue
    unbind =
        if str_eq adapter.status.phase not_bound
        then pure after_10
        else attempt (patch_status (record (adapter.status) { phase = not_bound })) >>= keep
      where
        keep : Result (Unit {0}) → M Requeue
        keep (ok _) = pure after_10
        keep (err e) = pure after_10
        keep panic = lift panic

    module _ (rbg : RoleBasedGroup) (role : RoleSpec) where
      -- `extractLabelSelectorDefault`
      -- For a LeaderWorkerSet the API version is replaced, the kind is not.
      selector_version : String
      selector_version =
          if str_eq role.workload.kind "LeaderWorkerSet"
          then "apps/v1"
          else role.workload.api_version

      extract_selector : M String
      unfolding join_pairs selector_version
      extract_selector = do
        labels ←
            read
              (get_object selector_version role.workload.kind rbg.meta.namespace
                (get_workload_name rbg role))
              (λ t.
                client.get_selector t selector_version role.workload.kind rbg.meta.namespace
                  (get_workload_name rbg role))
        pure (join_pairs labels)

      -- The branch that binds the adapter: its spec gets the role's replicas, its status too.
      unfoldable pub bind_adapter : M Requeue
      unfolding extract_selector
      bind_adapter = do
        perform client (
            patch_adapter_spec ns adapter.meta.name (spec_with_replicas adapter.spec role.replicas))
        selector ← extract_selector
        let status = status_with_replicas adapter.status role.replicas false
        patch_status (record status { phase = bound; selector = selector })
        pure after_1

      -- The branch that scales the role.
      scale_role : ℤ → M Requeue
      scale_role desired = do
        update_role_replicas rbg role.name (some desired)
        patch_status (status_with_replicas adapter.status (some desired) true)
        pure done

      unfoldable pub scale_bound : Option ℤ → Option ℤ → M Requeue
      unfolding scale_role
      scale_bound (some desired) (some current) =
          if eq_ℤ desired current then pure done else scale_role desired
      scale_bound _ _ = pure done

      -- `UpdateAdapterOwnerReference`
      unfoldable pub add_owner : M Requeue
      add_owner = do
        perform client (
            patch_adapter_owner ns adapter.meta.name adapter.spec (record {
              api_version = rbg.api_version;
              kind = rbg.kind;
              name = rbg.meta.name;
              uid = rbg.meta.uid;
              controller = false;
            }))
        pure after_1

      -- `Reconcile`, with the role found.
      unfoldable pub reconcile_role : M Requeue
      reconcile_role =
          if not (contains_rbg_owner adapter rbg)
          then add_owner
          else if not (str_eq adapter.status.phase bound)
          then bind_adapter
          else scale_bound adapter.spec.replicas role.replicas

    with_role : RoleBasedGroup → Result RoleSpec → M Requeue
    with_role rbg (ok role) = reconcile_role rbg role
    with_role rbg (err e) = unbind
    with_role rbg panic = lift panic

    -- `Reconcile`, with what was read of the group.
    with_group : AdapterScaleTargetRef → Result RoleBasedGroup → M Requeue
    unfolding with_role
    with_group target (ok rbg) =
        if is_scaling_adapter_managed_by_rbg adapter (some rbg)
        then with_role rbg (get_role rbg target.role)
        else pure done
    with_group target (err e) =
        if is_scaling_adapter_managed_by_rbg adapter none then unbind else pure done
    with_group target panic = lift panic

    unfoldable pub reconcile_adapter : M Requeue
    unfolding with_group
    reconcile_adapter =
        if adapter.meta.deleting
        then pure done
        else lift (deref adapter.spec.scale_target_ref) >>= λ target.
            attempt
              (read (get role_based_group ns target.name) (λ t. client.get_group t ns target.name))
            >>= with_group target

  -- `Reconcile`
  after_get : Result ScalingAdapter → M Requeue
  after_get (ok adapter) = reconcile_adapter adapter
  after_get (err e) = if is_not_found e then pure done else fail e
  after_get panic = lift panic

  unfoldable pub reconcile : Request → M Requeue
  unfolding after_get
  reconcile req t =
      after_get (client.get_adapter t req.namespace req.name)
        (get scaling_adapter req.namespace req.name ∷ t)
