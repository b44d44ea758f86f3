-- ===== src/Library.antt =====
-- Functions of the libraries that the reconcilers of pkg/reconciler and pkg/discovery call, as
-- parameters, and pkg/utils/utils.go with the server-side apply.
pub mod Calls
use rolebasedgroup.Prelude.{
  String, Bool, true, false, Option, none, some, List, [], ◌∷◌, ◌≡◌, if◌then◌else◌, Error, Result,
  ok, err, panic, other, is_not_found,
}
use rolebasedgroup.Prelude.Maps.{map_get}
use rolebasedgroup.Api.{Labels, OwnerReference, ObjectMeta, PodTemplateSpec, RoleBasedGroup}
use rolebasedgroup.Objects.{
  StatefulSet, Deployment, LeaderWorkerSet, Service, ConfigMap, StatefulSetApply, DeploymentApply,
  LeaderWorkerSetApply, ServiceApply, ConfigMapApply, Applied,
}
use rolebasedgroup.Client.{
  Client, Call, apply, apply_status, M, ◌>>=◌, ◌>>◌, pure, lift, fail, attempt, perform,
  bind_result,
}
use rolebasedgroup.Discovery.Config.{ClusterConfig}

pub record Library : Type 0 where
  -- `ToUnstructured`, and `FromUnstructured` behind it.
  pub to_unstructured : Applied → Result (Unit {0})
  pub stateful_set_of : StatefulSetApply → Result StatefulSet
  pub deployment_of : DeploymentApply → Result Deployment
  pub leader_worker_set_of : LeaderWorkerSetApply → Result LeaderWorkerSet
  pub service_of : ServiceApply → Result Service
  pub config_map_of : ConfigMapApply → Result ConfigMap
  -- The apply configuration of a pod template.
  pub template_of : PodTemplateSpec → Result PodTemplateSpec
  -- `WithLabels`, on the labels that a configuration has.
  pub with_labels : Labels → Labels → Labels
  -- `yaml.Marshal`
  pub marshal : ClusterConfig → Result String
  -- `cmp.Diff` of two ConfigMaps finds nothing: all but what the API server sets is compared, and
  -- owner references in any order.
  pub same_config_map : ConfigMap → ConfigMap → Bool
  -- `strategicpatch.StrategicMergePatch`, between the conversions to and from JSON.
  pub merge_patch : PodTemplateSpec → String → Result PodTemplateSpec
  -- `schema.ParseGroupVersion`
  pub parse_group_version : String → Result (String × String)

-- As the apply configurations document it, `WithLabels` puts the entries into the labels, and
-- overwrites those of the same keys.
pub record PutsLabels (lib : Library) : Type 0 where
  pub put :
      (old new : Labels) (k v : String)
      → map_get new k ≡ some v
      → map_get (lib.with_labels old new) k ≡ some v

-- The metadata of a configuration that a group owns.
unfoldable pub controlled_meta :
    RoleBasedGroup → String → (labels annotations : Labels) → ObjectMeta
controlled_meta rbg name labels annotations = record {
  name = name;
  namespace = rbg.meta.namespace;
  uid = "";
  labels = labels;
  annotations = annotations;
  owner_references =
      record {
        api_version = rbg.api_version;
        kind = rbg.kind;
        name = rbg.meta.name;
        uid = rbg.meta.uid;
        controller = true;
      }
      ∷ [];
  deleting = false;
}

-- `PatchType`
pub data PatchType : Type 0 where
  patch_all patch_spec patch_status : PatchType

abbrev patches_spec : PatchType → Bool
patches_spec patch_status = false
patches_spec _ = true

abbrev patches_status : PatchType → Bool
patches_status patch_spec = false
patches_status _ = true

module _ (client : Client) (lib : Library) where
  -- `PatchObjectApplyConfiguration`
  unfoldable pub patch_object : Applied → PatchType → M (Unit {0})
  patch_object config type = do
    lift (lib.to_unstructured config)
    if patches_spec type then perform client (apply config) else pure tt
    if patches_status type then perform client (apply_status config) else pure tt

-- A read that leaves its object empty if there is none: `err != nil && !IsNotFound(err)`.
unfoldable pub found_or : {A : Type 0} → A → Result A → M A
found_or empty (ok a) = pure a
found_or empty (err e) = if is_not_found e then pure empty else fail e
found_or empty panic = lift panic

unfoldable pub read_or : {A : Type 0} → A → M A → M A
unfolding found_or
read_or empty m = attempt m >>= found_or empty
