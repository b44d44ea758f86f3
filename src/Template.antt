-- ===== src/Template.antt =====
-- `ConstructPodTemplateSpecApplyConfiguration` of pkg/reconciler/pod_reconciler.go, and
-- `patchPodTemplate` of lws_reconciler.go: the pod template of a role's workload.
pub mod Selects
pub mod Calls
use rolebasedgroup.Prelude.{
  String, Bool, true, false, Option, none, some, List, [], ◌∷◌, contains, if◌then◌else◌, Error,
  Result, ok, err, panic, not_found, conflict, other,
}
use rolebasedgroup.Prelude.Maps.{map_put}
use rolebasedgroup.Api.{Labels, PodTemplateSpec, RoleSpec, RoleBasedGroup}
use rolebasedgroup.Api.Helper.{enable_gang_scheduling, pod_group_label_key}
use rolebasedgroup.Client.{Client, M, ◌>>=◌, pure, lift, bind_result}
use rolebasedgroup.Discovery.{inject_env, inject_sidecar}
use rolebasedgroup.Discovery.Inject.{inject_config}
use rolebasedgroup.Library.{Library}

-- `%w` keeps what the error is behind its new text.
abbrev add_text : String → Error → Error
add_text text not_found = not_found
add_text text conflict = conflict
add_text text (other s) = other text

abbrev errorf_result : {A : Type 0} → String → Result A → Result A
errorf_result text (ok a) = ok a
errorf_result text (err e) = err (add_text text e)
errorf_result text panic = panic

abbrev pub errorf : {A : Type 0} → String → M A → M A
errorf text m = λ t. let (r, u) = m t in (errorf_result text r, u)

-- The objects that are injected: `SetInjectors`, or all of them.
abbrev pub injected : Option (List String) → List String
injected none = "config" ∷ "sidecar" ∷ "env" ∷ []
injected (some l) = l

-- The labels that are put into the template; the map of the caller is the caller's copy.
unfoldable pub template_labels : RoleBasedGroup → Labels → Labels
template_labels rbg pod_labels =
    if enable_gang_scheduling rbg
    then map_put pod_group_label_key rbg.meta.name pod_labels
    else pod_labels

-- `patchPodTemplate`
unfoldable pub patch_pod_template :
    Library → PodTemplateSpec → Option String → Result PodTemplateSpec
patch_pod_template lib template none = ok template
patch_pod_template lib template (some patch) = lib.merge_patch template patch

module _ (client : Client) (lib : Library) (rbg : RoleBasedGroup) (role : RoleSpec) where
  -- What is injected into the template.
  unfoldable pub inject_objects : List String → PodTemplateSpec → M PodTemplateSpec
  inject_objects objects template =
      (if contains objects "config"
        then errorf "failed to inject config: %w" (inject_config client lib rbg role template)
        else pure template)
      >>= λ configured.
          (if contains objects "sidecar"
            then errorf "failed to inject sidecar: %w" (inject_sidecar client rbg role configured)
            else pure configured)
          >>= λ equipped.
              pure (if contains objects "env" then inject_env rbg role equipped else equipped)

  -- `ConstructPodTemplateSpecApplyConfiguration`, of the role's template or another one.
  unfoldable pub construct_pod_template :
      Option (List String) → Labels → PodTemplateSpec → M PodTemplateSpec
  construct_pod_template objects pod_labels template = do
    complete ← inject_objects (injected objects) template
    config ← lift (lib.template_of complete)
    pure (record config { labels = lib.with_labels config.labels (template_labels rbg pod_labels) })
