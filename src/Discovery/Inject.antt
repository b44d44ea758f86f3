-- ===== src/Discovery/Inject.antt =====
-- `InjectConfig` of pkg/discovery/injector.go, with `semanticallyEqualConfigmap` of
-- config_builder.go beside it.
use Prim.Native.String.{◌++◌ as str_append}
use rolebasedgroup.Prelude.{String, Bool, false, [], ◌∷◌, if◌then◌else◌, other}
use rolebasedgroup.Api.{ObjectMeta, PodTemplateSpec, RoleSpec, RoleBasedGroup}
use rolebasedgroup.Api.Helper.{get_workload_name}
use rolebasedgroup.Objects.{ConfigMap, ConfigMapApply, config_map_config}
use rolebasedgroup.Client.{Client, config_map, get, M, ◌>>=◌, ◌>>◌, pure, lift, wrap, read}
use rolebasedgroup.Equality.{filter_system_annotations}
use rolebasedgroup.Library.{Library, controlled_meta, patch_spec, patch_object, read_or}
use rolebasedgroup.Discovery.{mount_config}
use rolebasedgroup.Discovery.Config.{build_cluster_config}

-- What a read leaves of an object that is not there.
abbrev pub empty_meta : ObjectMeta
empty_meta = record {
  name = "";
  namespace = "";
  uid = "";
  labels = [];
  annotations = [];
  owner_references = [];
  deleting = false;
}

abbrev filtered : ConfigMap → ConfigMap
filtered c = record c {
  meta = record c.meta { annotations = filter_system_annotations c.meta.annotations };
}

-- `semanticallyEqualConfigmap`, of two that are not nil.
unfoldable pub semantically_equal_config_map : Library → ConfigMap → ConfigMap → Bool
semantically_equal_config_map lib old new = lib.same_config_map (filtered old) (filtered new)

module _ (client : Client) (lib : Library) where
  module _ (rbg : RoleBasedGroup) (role : RoleSpec) where
    -- The configuration of the role's ConfigMap.
    unfoldable pub config_map_apply : String → ConfigMapApply
    config_map_apply config = record {
      meta = controlled_meta rbg (get_workload_name rbg role) [] [];
      entries = ("config.yaml", config) ∷ [];
    }

    abbrev pub read_config_map : M ConfigMap
    read_config_map =
        read (get config_map rbg.meta.namespace (get_workload_name rbg role))
          (λ t. client.get_config_map t rbg.meta.namespace (get_workload_name rbg role))

    -- The first half of `InjectConfig`: the ConfigMap is applied if it differs.
    unfoldable pub reconcile_config_map : M (Unit {0})
    reconcile_config_map = do
      cluster ← lift (build_cluster_config rbg)
      config ← lift (lib.marshal cluster)
      lift (lib.to_unstructured (config_map_config (config_map_apply config)))
      new ←
          wrap (other "convert ConfigmapApplyConfig to deploy error: %s")
            (lift (lib.config_map_of (config_map_apply config)))
      old ← read_or (record { meta = empty_meta; entries = [] }) read_config_map
      let write = patch_object client lib (config_map_config (config_map_apply config)) patch_spec
      if semantically_equal_config_map lib old new then pure tt else write

    -- `InjectConfig`
    unfoldable pub inject_config : PodTemplateSpec → M PodTemplateSpec
    inject_config pod = do
      reconcile_config_map
      pure (mount_config (str_append "configMap:" (get_workload_name rbg role)) pod)
