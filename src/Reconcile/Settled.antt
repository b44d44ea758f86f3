-- ===== src/Reconcile/Settled.antt =====
-- `Reconciler` of pkg/reconciler/deploy_reconciler.go for a Deployment that is as it was applied.
use rolebasedgroup.Prelude.{
  true, false, none, ◌∷◌, ◌≡◌, refl, ap, ap₂, ◌∙◌, subst, str_eq, Distinct, Option, some, ok, arith,
}
use rolebasedgroup.Prelude.Int.{ℤ}
use rolebasedgroup.Prelude.Maps.{keys}
use rolebasedgroup.Api.{Labels, ObjectMeta, PodTemplateSpec, RoleSpec, RoleBasedGroup}
use rolebasedgroup.Api.Helper.{get_workload_name, get_common_annotations_from_role}
use rolebasedgroup.Objects.{Deployment, DeploymentApply, deployment_config}
use rolebasedgroup.Client.{Client, Call, Trace, deployment, get, lift, deref}
use rolebasedgroup.Client.Only.{
  Extends, Extends-trans, Only, Prepares, bind-Only, no_call, one_call,
}
use rolebasedgroup.Equality.{
  maps_equal, pod_template_spec_equal, meta_equal, object_equal, replicas_equal,
  semantically_equal_deployment,
}
use rolebasedgroup.Equality.Stable.{pod_template_spec_equal_refl, meta_equal_refl, maps_equal_refl}
use rolebasedgroup.Library.{Library, read_or, found_or}
use rolebasedgroup.Template.{construct_pod_template}
use rolebasedgroup.Template.Calls.{construct_pod_template-Prepares}
use rolebasedgroup.Reconcile.{match_labels}
use rolebasedgroup.Reconcile.Deployments.{
  construct_deployment, apply_deployment, reconcile_deployment_role,
}

-- The first Deployment is there, and has what the second one asks for.
pub record Stored (old new : Deployment) : Type 0 where
  pub there : str_eq old.meta.uid "" ≡ false
  pub labels : old.meta.labels ≡ new.meta.labels
  pub annotations : old.meta.annotations ≡ new.meta.annotations
  pub replicas : old.replicas ≡ new.replicas
  pub selector : old.selector ≡ new.selector
  pub template : old.template ≡ new.template

-- The maps of a Deployment have no key twice.
pub record HasMaps (d : Deployment) : Type 0 where
  pub labels : Distinct (keys d.meta.labels)
  pub annotations : Distinct (keys d.meta.annotations)
  pub selector : Distinct (keys d.selector)
  pub template_labels : Distinct (keys d.template.labels)
  pub template_annotations : Distinct (keys d.template.annotations)

replicas_equal_refl : (n : Option ℤ) → replicas_equal n n ≡ true
unfolding replicas_equal
replicas_equal_refl none = refl
replicas_equal_refl (some n) = ground arith

-- Metadata and templates with equal fields compare equal.
pub same_meta :
    (old new : ObjectMeta)
    → old.labels ≡ new.labels
    → old.annotations ≡ new.annotations
    → Distinct (keys new.labels)
    → Distinct (keys new.annotations)
    → object_equal old new ≡ true
same_meta old new l a dl da =
    ap₂ (λ l a. meta_equal l a new.labels new.annotations) l a
    ∙ meta_equal_refl new.labels new.annotations dl da

pub same_template :
    (old new : PodTemplateSpec)
    → old ≡ new
    → Distinct (keys new.labels)
    → Distinct (keys new.annotations)
    → pod_template_spec_equal old new ≡ true
same_template old new e l a =
    ap (λ p. pod_template_spec_equal p new) e ∙ pod_template_spec_equal_refl new l a

pub same_map : (old new : Labels) → old ≡ new → Distinct (keys new) → maps_equal old new ≡ true
same_map old new e d = ap (λ l. maps_equal l new) e ∙ maps_equal_refl new d

Stored-equal :
    (old new : Deployment)
    → HasMaps new
    → Stored old new
    → semantically_equal_deployment old new ≡ true
unfolding semantically_equal_deployment
Stored-equal old new maps s =
    let m = same_meta old.meta new.meta s.labels s.annotations maps.labels maps.annotations in
    let t =
      same_template old.template new.template s.template maps.template_labels
        maps.template_annotations in
    let sel = same_map old.selector new.selector s.selector maps.selector in
    let there = s.there in
    let r : replicas_equal old.replicas new.replicas ≡ true =
      ap (λ n. replicas_equal n new.replicas) s.replicas ∙ replicas_equal_refl new.replicas in
    ground arith

module _ (client : Client) (lib : Library) (rbg : RoleBasedGroup) (role : RoleSpec) where
  construct_deployment-Prepares :
      (old : Deployment) → Only Prepares (construct_deployment client lib rbg role old)
  unfolding construct_deployment
  construct_deployment-Prepares old =
      let labels = match_labels old.meta old.selector rbg role in
      bind-Only Prepares (construct_pod_template client lib rbg role none labels role.template) _
        (construct_pod_template-Prepares client lib rbg role none labels role.template)
        λ p. bind-Only Prepares (lift (deref role.replicas)) _ (no_call Prepares) λ n.
          bind-Only Prepares (lift (get_common_annotations_from_role role)) _ (no_call Prepares)
            λ a. no_call Prepares

  abbrev here : Call
  here = get deployment rbg.meta.namespace (get_workload_name rbg role)

  -- A Deployment that is there and has what the configuration asks for, which is constructed for it
  -- now, and whose maps have no key twice, is left alone: the reconciliation succeeds, and makes
  -- reads and the apply of the ConfigMap only.
  pub reconcile_deployment_role-settles :
      (old new : Deployment) (config : DeploymentApply) (t u : Trace)
      → client.get_deployment t rbg.meta.namespace (get_workload_name rbg role) ≡ ok old
      → construct_deployment client lib rbg role old (here ∷ t) ≡ (ok config, u)
      → lib.to_unstructured (deployment_config config) ≡ ok tt
      → lib.deployment_of config ≡ ok new
      → HasMaps new
      → Stored old new
      → (reconcile_deployment_role client lib rbg role t ≡ (ok tt, u)) × Extends Prepares t u
  unfolding reconcile_deployment_role apply_deployment read_or found_or
  reconcile_deployment_role-settles old new config t u found made json converted maps stored = (
    rw found (rw made (rw json (rw converted (rw (Stored-equal old new maps stored) refl)))),
    Extends-trans Prepares (one_call Prepares here tt t) (
        subst (Extends Prepares (here ∷ t)) (ap (λ r. r.1) made)
          (construct_deployment-Prepares old (here ∷ t))),
  )
