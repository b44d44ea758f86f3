-- ===== src/Discovery/Calls.antt =====
-- The calls that pkg/discovery makes for a pod template: reads, and the apply of the ConfigMap.
use rolebasedgroup.Prelude.{List, [], ◌∷◌, other}
use rolebasedgroup.Api.{EngineRuntime, PodTemplateSpec, RoleSpec, RoleBasedGroup}
use rolebasedgroup.Api.Helper.{get_role, get_workload_name}
use rolebasedgroup.Objects.{config_map_config}
use rolebasedgroup.Client.{Client, lift, pure, wrap, read, profile, get, config_map}
use rolebasedgroup.Client.Only.{Only, Prepares, bind-Only, no_call, one_call, if-Only}
use rolebasedgroup.Library.{Library, patch_spec, patch_object, read_or}
use rolebasedgroup.Library.Calls.{read_or-Only, patch_config_map-Prepares}
use rolebasedgroup.Discovery.{inject_runtime, inject_runtimes, inject_sidecar}
use rolebasedgroup.Discovery.Config.{build_cluster_config}
use rolebasedgroup.Discovery.Inject.{
  inject_config, reconcile_config_map, semantically_equal_config_map, config_map_apply,
  read_config_map, empty_meta,
}

module _ (client : Client) where
  inject_runtime-Prepares :
      (r : EngineRuntime) (pod : PodTemplateSpec) → Only Prepares (inject_runtime client r pod)
  unfolding inject_runtime
  inject_runtime-Prepares r pod =
      bind-Only Prepares
        (wrap (other "get engine runtime %s, error: %s")
          (read (get profile "" r.profile_name) (λ t. client.get_profile t r.profile_name)))
        _ (one_call Prepares (get profile "" r.profile_name) tt) λ p. no_call Prepares

  inject_runtimes-Prepares :
      (l : List EngineRuntime) (pod : PodTemplateSpec)
      → Only Prepares (inject_runtimes client l pod)
  unfolding inject_runtimes
  inject_runtimes-Prepares [] pod = no_call Prepares
  inject_runtimes-Prepares (r ∷ l) pod =
      bind-Only Prepares
        (wrap (other "reconcile engine runtime %s, error: %s") (inject_runtime client r pod)) _
        (inject_runtime-Prepares r pod) (inject_runtimes-Prepares l)

  module _ (rbg : RoleBasedGroup) (role : RoleSpec) where
    pub inject_sidecar-Prepares :
        (pod : PodTemplateSpec) → Only Prepares (inject_sidecar client rbg role pod)
    unfolding inject_sidecar
    inject_sidecar-Prepares pod =
        bind-Only Prepares (lift (get_role rbg role.name)) _ (no_call Prepares)
          λ r. inject_runtimes-Prepares r.engine_runtimes pod

    module _ (lib : Library) where
      reconcile_config_map-Prepares : Only Prepares (reconcile_config_map client lib rbg role)
      unfolding reconcile_config_map
      reconcile_config_map-Prepares =
          bind-Only Prepares (lift (build_cluster_config rbg)) _ (no_call Prepares) λ cluster.
            bind-Only Prepares (lift (lib.marshal cluster)) _ (no_call Prepares) λ config.
              let c = config_map_apply client lib rbg role config in
              bind-Only Prepares (lift (lib.to_unstructured (config_map_config c))) _
                (no_call Prepares)
                λ _.
                  bind-Only Prepares
                    (wrap (other "convert ConfigmapApplyConfig to deploy error: %s")
                      (lift (lib.config_map_of c)))
                    _ (no_call Prepares)
                    λ new.
                      bind-Only Prepares
                        (read_or (record { meta = empty_meta; entries = [] })
                          (read_config_map client lib rbg role))
                        _
                        (read_or-Only Prepares _ (read_config_map client lib rbg role) (
                          one_call Prepares
                            (get config_map rbg.meta.namespace (get_workload_name rbg role)) tt))
                        λ old.
                          if-Only Prepares (semantically_equal_config_map lib old new) (pure tt)
                            (patch_object client lib (config_map_config c) patch_spec)
                            (no_call Prepares) (patch_config_map-Prepares client lib c)

      pub inject_config-Prepares :
          (pod : PodTemplateSpec) → Only Prepares (inject_config client lib rbg role pod)
      unfolding inject_config
      inject_config-Prepares pod =
          bind-Only Prepares (reconcile_config_map client lib rbg role) _
            reconcile_config_map-Prepares λ _. no_call Prepares
