-- ===== src/Template/Calls.antt =====
-- The calls that the construction of a pod template in pkg/reconciler/pod_reconciler.go makes.
use rolebasedgroup.Prelude.{String, Option, List, contains, if◌then◌else◌}
use rolebasedgroup.Api.{Labels, PodTemplateSpec, RoleSpec, RoleBasedGroup}
use rolebasedgroup.Client.{Client, M, pure, lift}
use rolebasedgroup.Client.Only.{Only, Prepares, bind-Only, no_call, if-Only}
use rolebasedgroup.Discovery.{inject_sidecar}
use rolebasedgroup.Discovery.Inject.{inject_config}
use rolebasedgroup.Discovery.Calls.{inject_config-Prepares, inject_sidecar-Prepares}
use rolebasedgroup.Library.{Library}
use rolebasedgroup.Template.{errorf, injected, inject_objects, construct_pod_template}

module _ (client : Client) (lib : Library) (rbg : RoleBasedGroup) (role : RoleSpec) where
  configure : List String → PodTemplateSpec → M PodTemplateSpec
  configure objects template =
      if contains objects "config"
      then errorf "failed to inject config: %w" (inject_config client lib rbg role template)
      else pure template

  equip : List String → PodTemplateSpec → M PodTemplateSpec
  equip objects template =
      if contains objects "sidecar"
      then errorf "failed to inject sidecar: %w" (inject_sidecar client rbg role template)
      else pure template

  inject_objects-Prepares :
      (objects : List String) (template : PodTemplateSpec)
      → Only Prepares (inject_objects client lib rbg role objects template)
  unfolding inject_objects configure equip
  inject_objects-Prepares objects template =
      bind-Only Prepares (configure objects template) _
        (if-Only Prepares (contains objects "config")
          (errorf "failed to inject config: %w" (inject_config client lib rbg role template))
          (pure template) (inject_config-Prepares client rbg role lib template) (no_call Prepares))
        λ p.
          bind-Only Prepares (equip objects p) _
            (if-Only Prepares (contains objects "sidecar")
              (errorf "failed to inject sidecar: %w" (inject_sidecar client rbg role p)) (pure p)
              (inject_sidecar-Prepares client rbg role p) (no_call Prepares))
            λ q. no_call Prepares

  pub construct_pod_template-Prepares :
      (objects : Option (List String)) (labels : Labels) (template : PodTemplateSpec)
      → Only Prepares (construct_pod_template client lib rbg role objects labels template)
  unfolding construct_pod_template
  construct_pod_template-Prepares objects labels template =
      bind-Only Prepares (inject_objects client lib rbg role (injected objects) template) _
        (inject_objects-Prepares (injected objects) template)
        λ complete.
          bind-Only Prepares (lift (lib.template_of complete)) _ (no_call Prepares)
            λ config. no_call Prepares
