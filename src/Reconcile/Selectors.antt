-- ===== src/Reconcile/Selectors.antt =====
-- The selectors that the reconcilers of pkg/reconciler apply: Kubernetes accepts no workload whose
-- selector does not select its own pods, nor a change of the selector.
use rolebasedgroup.Prelude.{
  String, false, none, some, ◌≡◌, refl, sym, ap, ◌∙◌, str_eq, ok, subst, arith,
}
use rolebasedgroup.Prelude.Int.{ℤ}
use rolebasedgroup.Prelude.Maps.{map_get}
use rolebasedgroup.Api.{Labels, ObjectMeta, PodTemplateSpec, RoleSpec, RoleBasedGroup}
use rolebasedgroup.Api.Helper.{pod_group_label_key, get_common_annotations_from_role}
use rolebasedgroup.Objects.{StatefulSet, StatefulSetApply, Deployment, DeploymentApply}
use rolebasedgroup.Client.{Client, Trace, ◌>>=◌, pure, lift, deref}
use rolebasedgroup.Client.Laws.{bind-ok}
use rolebasedgroup.Library.{Library, PutsLabels}
use rolebasedgroup.Template.{construct_pod_template}
use rolebasedgroup.Template.Selects.{construct_pod_template-get}
use rolebasedgroup.Reconcile.{match_labels}
use rolebasedgroup.Reconcile.StatefulSets.{construct_stateful_set}
use rolebasedgroup.Reconcile.Deployments.{construct_deployment}

-- Every entry of a selector is a label of the template, but for the key of the PodGroup's name.
abbrev pub Selects : Labels → PodTemplateSpec → Type 0
Selects selector template =
    (k v : String)
    → str_eq pod_group_label_key k ≡ false
    → map_get selector k ≡ some v
    → map_get template.labels k ≡ some v

match_labels-old :
    (old : ObjectMeta) (selector : Labels) (rbg : RoleBasedGroup) (role : RoleSpec)
    → str_eq old.uid "" ≡ false
    → match_labels old selector rbg role ≡ selector
unfolding match_labels
match_labels-old old selector rbg role h = rw h refl

module _ (client : Client) (lib : Library) (rbg : RoleBasedGroup) (role : RoleSpec)
    (t : Trace) where
  -- How a configuration is constructed from a template, a number of replicas and annotations.
  constructed :
      {C : Type 0} (make : PodTemplateSpec → ℤ → Labels → C) (labels : Labels) (config : C)
      → ((construct_pod_template client lib rbg role none labels role.template >>= λ p.
            lift (deref role.replicas) >>= λ n.
            lift (get_common_annotations_from_role role) >>= λ a. pure (make p n a))
          t).0
        ≡ ok config
      → (p : PodTemplateSpec) × (n : ℤ) × (a : Labels) × (make p n a ≡ config)
        × ((construct_pod_template client lib rbg role none labels role.template t).0 ≡ ok p)
  constructed make labels config h =
      let (p, u, made, h1) =
        bind-ok (construct_pod_template client lib rbg role none labels role.template) _ t config
          h in
      let (n, v, _, h2) = bind-ok (lift (deref role.replicas)) _ u config h1 in
      let (a, w, _, h3) = bind-ok (lift (get_common_annotations_from_role role)) _ v config h2 in
      (p, n, a, ground arith, ap (λ r. r.0) made)

  selects_lem :
      (labels : Labels) (p : PodTemplateSpec)
      → PutsLabels lib
      → (construct_pod_template client lib rbg role none labels role.template t).0 ≡ ok p
      → Selects labels p
  selects_lem labels p puts made k v q =
      construct_pod_template-get client lib rbg role none labels role.template p t k v puts q made

  pub construct_stateful_set-selector :
      (old : StatefulSet) (config : StatefulSetApply)
      → (construct_stateful_set client lib rbg role old t).0 ≡ ok config
      → str_eq old.meta.uid "" ≡ false
      → config.selector ≡ old.selector
  unfolding construct_stateful_set
  construct_stateful_set-selector old config h there =
      let labels : Labels = match_labels old.meta old.selector rbg role in
      let (p, n, a, e, _) = constructed _ labels config h in
      ap (λ (c : StatefulSetApply). c.selector) (sym e)
      ∙ match_labels-old old.meta old.selector rbg role there

  -- The configuration that is constructed for a StatefulSet selects the pods of its own template, but
  -- for the key of the PodGroup's name; and the selector of one that exists stays what it is.
  pub construct_stateful_set-Selects :
      (old : StatefulSet) (config : StatefulSetApply)
      → PutsLabels lib
      → (construct_stateful_set client lib rbg role old t).0 ≡ ok config
      → Selects config.selector config.template
        × (str_eq old.meta.uid "" ≡ false → config.selector ≡ old.selector)
  unfolding construct_stateful_set
  construct_stateful_set-Selects old config puts h =
      let labels : Labels = match_labels old.meta old.selector rbg role in
      let (p, n, a, e, made) = constructed _ labels config h in
      (
        subst (λ (c : StatefulSetApply). Selects c.selector c.template) e
            (selects_lem labels p puts made),
        construct_stateful_set-selector old config h,
      )

  -- The same for a Deployment.
  construct_deployment-Selects :
      (old : Deployment) (config : DeploymentApply)
      → PutsLabels lib
      → (construct_deployment client lib rbg role old t).0 ≡ ok config
      → Selects config.selector config.template
        × (str_eq old.meta.uid "" ≡ false → config.selector ≡ old.selector)
  unfolding construct_deployment
  construct_deployment-Selects old config puts h =
      let labels : Labels = match_labels old.meta old.selector rbg role in
      let (p, n, a, e, made) = constructed _ labels config h in
      (
        subst (λ (c : DeploymentApply). Selects c.selector c.template) e
            (selects_lem labels p puts made),
        λ there.
            ap (λ (c : DeploymentApply). c.selector) (sym e)
            ∙ match_labels-old old.meta old.selector rbg role there,
      )
