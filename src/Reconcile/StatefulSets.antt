-- ===== src/Reconcile/StatefulSets.antt =====
-- `reconcileStatefulSet` and `constructStatefulSetApplyConfiguration` of
-- pkg/reconciler/sts_reconciler.go.
use rolebasedgroup.Prelude.{
  Bool, false, not, none, some, [], if◌then◌else◌, Result, ok, bind_ok, other,
}
use rolebasedgroup.Prelude.Int.{ℤ, pos, eq_ℤ}
use rolebasedgroup.Api.{Labels, RolloutStrategy, RoleSpec, RoleBasedGroup}
use rolebasedgroup.Api.Helper.{get_workload_name, get_common_annotations_from_role}
use rolebasedgroup.Objects.{StatefulSet, StatefulSetApply, stateful_set_config}
use rolebasedgroup.Client.{Client, M, ◌>>=◌, ◌>>◌, pure, lift, wrap, deref}
use rolebasedgroup.Workload.{read_stateful_set}
use rolebasedgroup.Equality.{semantically_equal_stateful_set}
use rolebasedgroup.Rollout.Parameters.{validate_rollout_strategy, rolling_update_parameters}
use rolebasedgroup.Rollout.States.{get_replica_states}
use rolebasedgroup.Discovery.Inject.{empty_meta}
use rolebasedgroup.Library.{Library, controlled_meta, patch_spec, patch_object, read_or}
use rolebasedgroup.Template.{construct_pod_template}
use rolebasedgroup.Reconcile.{match_labels, empty_template}

abbrev pub empty_stateful_set : StatefulSet
empty_stateful_set = record {
  api_version = "";
  kind = "";
  meta = empty_meta;
  replicas = none;
  partition = none;
  selector = [];
  service_name = "";
  template = empty_template;
  ready_replicas = pos 0;
}

-- Whether `reconcileStatefulSet` skips the patch: the later pointers are read only behind the tests
-- before them.
unfoldable pub skips : Bool → ℤ → StatefulSet → ℤ → Result Bool
skips equal partition old role_replicas =
    let rest = bind_ok (deref old.partition) λ p.
      let counted = bind_ok (deref old.replicas) λ n. ok (eq_ℤ n role_replicas) in
      if eq_ℤ partition p then counted else ok false in
    if equal then rest else ok false

-- `WithUpdateStrategy`
unfoldable pub with_update : ℤ → ℤ → RolloutStrategy → StatefulSetApply → Result StatefulSetApply
with_update partition replicas strategy config = bind_ok (deref strategy.rolling_update) λ u.
    ok (record config {
      replicas = replicas;
      update_strategy = some (record {
        type = strategy.type;
        max_unavailable = u.max_unavailable;
        partition = partition;
      });
    })

module _ (client : Client) (lib : Library) (rbg : RoleBasedGroup) where
  -- `constructStatefulSetApplyConfiguration`
  unfoldable pub construct_stateful_set : RoleSpec → StatefulSet → M StatefulSetApply
  construct_stateful_set role old = do
    let selector : Labels = match_labels old.meta old.selector rbg role
    template ← construct_pod_template client lib rbg role none selector role.template
    replicas ← lift (deref role.replicas)
    annotations ← lift (get_common_annotations_from_role role)
    pure (record {
      meta = controlled_meta rbg (get_workload_name rbg role) selector annotations;
      service_name = get_workload_name rbg role;
      replicas = replicas;
      template = template;
      pod_management_policy = "Parallel";
      selector = selector;
      update_strategy = none;
    })

  -- The end of `reconcileStatefulSet`: the patch, unless it is skipped.
  unfoldable pub patch_stateful_set :
      RolloutStrategy → ℤ → ℤ → Bool → StatefulSetApply → M (Unit {0})
  patch_stateful_set strategy partition replicas skipped config =
      let write = lift (with_update partition replicas strategy config) >>= λ c.
      patch_object client lib (stateful_set_config c) patch_spec in
      if skipped then pure tt else write

  -- What follows the construction of the configuration, for the role with its validated strategy.
  unfoldable pub roll_out :
      RoleSpec → RolloutStrategy → ℤ → StatefulSet → StatefulSetApply → M (Unit {0})
  roll_out role strategy role_replicas old config = do
    lift (lib.to_unstructured (stateful_set_config config))
    new ← wrap (other "convert stsApplyConfig to sts error: %s") (lift (lib.stateful_set_of config))
    let equal : Bool = semantically_equal_stateful_set old new
    p ← rolling_update_parameters client (get_replica_states client) role (some old) (not equal)
    skipped ← lift (skips equal p.0 old role_replicas)
    patch_stateful_set strategy p.0 p.1 skipped config

  -- `reconcileStatefulSet`
  unfoldable pub reconcile_stateful_set : RoleSpec → M (Unit {0})
  reconcile_stateful_set role = do
    replicas ← lift (deref role.replicas)
    strategy ← lift (validate_rollout_strategy client role.rollout_strategy replicas)
    old ← read_or empty_stateful_set (read_stateful_set client rbg role)
    let validated : RoleSpec = record role { rollout_strategy = some strategy }
    config ← construct_stateful_set validated old
    roll_out validated strategy replicas old config
