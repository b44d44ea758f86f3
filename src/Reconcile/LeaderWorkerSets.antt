-- ===== src/Reconcile/LeaderWorkerSets.antt =====
-- `Reconciler` and `constructLWSApplyConfiguration` of pkg/reconciler/lws_reconciler.go.
use rolebasedgroup.Prelude.{
  String, Bool, true, false, Option, none, some, List, [], ◌∷◌, str_eq, contains, if◌then◌else◌,
  Result, ok,
}
use rolebasedgroup.Prelude.Int.{ℤ, pos}
use rolebasedgroup.Api.{
  RolloutStrategy, RollingUpdate, Container, PodTemplateSpec, EngineRuntime, RoleSpec,
  RoleBasedGroup,
}
use rolebasedgroup.Api.Helper.{
  get_role, get_workload_name, get_common_labels_from_role, get_common_annotations_from_role,
}
use rolebasedgroup.Objects.{LeaderWorkerSet, LeaderWorkerSetApply, leader_worker_set_config}
use rolebasedgroup.Client.{Client, profile, get, M, ◌>>=◌, ◌>>◌, pure, lift, deref, read}
use rolebasedgroup.Workload.{read_leader_worker_set}
use rolebasedgroup.Equality.{semantically_equal_leader_worker_set}
use rolebasedgroup.Discovery.{container_names, inject_env, inject_profile}
use rolebasedgroup.Discovery.Inject.{empty_meta, inject_config}
use rolebasedgroup.Library.{Library, controlled_meta, patch_spec, patch_object, read_or}
use rolebasedgroup.Template.{patch_pod_template, construct_pod_template}
use rolebasedgroup.Reconcile.{empty_template}

abbrev pub empty_leader_worker_set : LeaderWorkerSet
empty_leader_worker_set = record {
  meta = empty_meta;
  replicas = none;
  leader_template = none;
  worker_template = empty_template;
  size = none;
  restart_policy = "";
  status_replicas = pos 0;
  ready_replicas = pos 0;
}

unfoldable pub lws_restart_policy : String → String
lws_restart_policy policy = if str_eq policy "None" then "None" else "RecreateGroupOnPodRestart"

abbrev rolling_update : Option RolloutStrategy → Option RollingUpdate
rolling_update none = none
rolling_update (some s) = s.rolling_update

-- `role.Replicas`, which is set to 1 if it is nil.
abbrev pub replicas_or_one : Option ℤ → ℤ
replicas_or_one none = pos 1
replicas_or_one (some n) = n

-- Whether the loop of `injectRuntime` appends a container.
unfoldable pub adds_any : List Container → List Container → Bool
adds_any [] old = false
adds_any (c ∷ l) old = if contains (container_names old) c.name then adds_any l old else true

module _ (client : Client) (lib : Library) (rbg : RoleBasedGroup) (role : RoleSpec) where
  -- A template of the leader or of the workers, of the role's template `base`.
  unfoldable pub construct_member :
      PodTemplateSpec → Option (List String) → Option String → M PodTemplateSpec
  construct_member base objects patch = do
    template ← lift (patch_pod_template lib base patch)
    construct_pod_template client lib rbg role objects (get_common_labels_from_role rbg role)
        template

  -- What is left in the array of the containers that `pod` has, when the runtimes and then the
  -- variables are injected in place: they go on in another array as soon as `append` of a container
  -- needs one, since an array that was copied deeply has no room.
  unfoldable pub left_by_runtimes : List EngineRuntime → PodTemplateSpec → M (List Container)
  left_by_runtimes [] pod = pure (inject_env rbg role pod).containers
  left_by_runtimes (runtime ∷ l) pod = do
    p ← read (get profile "" runtime.profile_name) (λ t. client.get_profile t runtime.profile_name)
    if adds_any p.containers pod.containers
        then pure pod.containers
        else left_by_runtimes l (inject_profile p runtime pod)

  -- What the leader leaves in the containers of the role's template, if its template shares them.
  unfoldable pub left_by_leader : M (List Container)
  left_by_leader = do
    configured ← inject_config client lib rbg role role.template
    current ← lift (get_role rbg role.name)
    left_by_runtimes current.engine_runtimes configured

  -- The role's template when the leader's is constructed. Only a leader with a patch has containers
  -- of its own, since `patchPodTemplate` decodes a new template.
  unfoldable pub template_left : Option String → Result (List Container) → PodTemplateSpec
  template_left none (ok containers) = record role.template { containers = containers }
  template_left _ _ = role.template

  -- `constructLWSApplyConfiguration`, of the template that the workers start from; the workers get
  -- no sidecars.
  unfoldable pub construct_members : PodTemplateSpec → M LeaderWorkerSetApply
  construct_members left = do
    leader ← construct_member role.template none role.leader_worker_set.patch_leader_template
    worker ←
        construct_member left (some ("config" ∷ "env" ∷ []))
          role.leader_worker_set.patch_worker_template
    let replicas : ℤ = replicas_or_one role.replicas
    size ← lift (deref role.leader_worker_set.size)
    annotations ← lift (get_common_annotations_from_role (record role { replicas = some replicas }))
    pure (record {
      meta =
          controlled_meta rbg (get_workload_name rbg role) (get_common_labels_from_role rbg role)
            annotations;
      replicas = replicas;
      leader_template = leader;
      worker_template = worker;
      size = size;
      restart_policy = lws_restart_policy role.restart_policy;
      rolling_update = rolling_update role.rollout_strategy;
    })

  -- `constructLWSApplyConfiguration`. What the leader leaves in the role's template is told from the
  -- answers that its own calls get.
  unfoldable pub construct_leader_worker_set : M LeaderWorkerSetApply
  construct_leader_worker_set = λ t.
      construct_members
        (template_left role.leader_worker_set.patch_leader_template (left_by_leader t).0) t

  -- What follows the construction.
  unfoldable pub apply_leader_worker_set : LeaderWorkerSetApply → M (Unit {0})
  apply_leader_worker_set config = do
    lift (lib.to_unstructured (leader_worker_set_config config))
    new ← lift (lib.leader_worker_set_of config)
    old ← read_or empty_leader_worker_set (read_leader_worker_set client rbg role)
    equal ← lift (semantically_equal_leader_worker_set old new)
    if equal then pure tt else patch_object client lib (leader_worker_set_config config) patch_spec

  -- `Reconciler` of `LeaderWorkerSetReconciler`
  unfoldable pub reconcile_leader_worker_set_role : M (Unit {0})
  reconcile_leader_worker_set_role = construct_leader_worker_set >>= apply_leader_worker_set
