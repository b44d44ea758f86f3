-- ===== src/Reconcile/Deployments.antt =====
-- `Reconciler` and `constructDeployApplyConfiguration` of pkg/reconciler/deploy_reconciler.go.
use rolebasedgroup.Prelude.{Option, none, some, [], if◌then◌else◌, other}
use rolebasedgroup.Prelude.Int.{pos}
use rolebasedgroup.Api.{Labels, RolloutStrategy, RoleSpec, RoleBasedGroup}
use rolebasedgroup.Api.Helper.{get_workload_name, get_common_annotations_from_role}
use rolebasedgroup.Objects.{Deployment, DeploymentApply, deployment_config}
use rolebasedgroup.Client.{Client, M, ◌>>=◌, ◌>>◌, pure, lift, wrap, deref}
use rolebasedgroup.Workload.{read_deployment}
use rolebasedgroup.Equality.{semantically_equal_deployment}
use rolebasedgroup.Discovery.Inject.{empty_meta}
use rolebasedgroup.Library.{Library, controlled_meta, patch_spec, patch_object, read_or}
use rolebasedgroup.Template.{construct_pod_template}
use rolebasedgroup.Reconcile.{match_labels, empty_template}

abbrev pub empty_deployment : Deployment
empty_deployment = record {
  meta = empty_meta;
  replicas = none;
  selector = [];
  template = empty_template;
  ready_replicas = pos 0;
}

-- A strategy is applied if it has a rolling update.
abbrev pub rolling : Option RolloutStrategy → Option RolloutStrategy
rolling none = none
rolling (some s) = elim s.rolling_update [ none ↦ none | some u ↦ some s ]

module _ (client : Client) (lib : Library) (rbg : RoleBasedGroup) (role : RoleSpec) where
  -- `constructDeployApplyConfiguration`
  unfoldable pub construct_deployment : Deployment → M DeploymentApply
  construct_deployment old = do
    let selector : Labels = match_labels old.meta old.selector rbg role
    template ← construct_pod_template client lib rbg role none selector role.template
    replicas ← lift (deref role.replicas)
    annotations ← lift (get_common_annotations_from_role role)
    pure (record {
      meta = controlled_meta rbg (get_workload_name rbg role) selector annotations;
      replicas = replicas;
      template = template;
      selector = selector;
      strategy = rolling role.rollout_strategy;
    })

  -- What follows the construction.
  unfoldable pub apply_deployment : Deployment → DeploymentApply → M (Unit {0})
  apply_deployment old config = do
    lift (lib.to_unstructured (deployment_config config))
    new ←
        wrap (other "convert deployApplyConfig to deployment error: %s")
          (lift (lib.deployment_of config))
    let write = patch_object client lib (deployment_config config) patch_spec
    if semantically_equal_deployment old new then pure tt else write

  -- `Reconciler` of `DeploymentReconciler`
  unfoldable pub reconcile_deployment_role : M (Unit {0})
  reconcile_deployment_role = do
    old ← read_or empty_deployment (read_deployment client rbg role)
    config ← construct_deployment old
    apply_deployment old config
