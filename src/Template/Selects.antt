-- ===== src/Template/Selects.antt =====
-- The labels of the pods that the templates of pkg/reconciler/pod_reconciler.go give.
use rolebasedgroup.Prelude.{String, false, some, List, ◌≡◌, sym, ap, ◌∙◌, ok, str_eq, Option, arith}
use rolebasedgroup.Prelude.Maps.{map_get, map_get-put}
use rolebasedgroup.Api.{Labels, PodTemplateSpec, RoleSpec, RoleBasedGroup}
use rolebasedgroup.Api.Helper.{pod_group_label_key}
use rolebasedgroup.Client.{Client, Trace, lift}
use rolebasedgroup.Client.Laws.{bind-ok}
use rolebasedgroup.Library.{Library, PutsLabels}
use rolebasedgroup.Template.{template_labels, injected, inject_objects, construct_pod_template}

template_labels-get :
    (rbg : RoleBasedGroup) (labels : Labels) (k v : String)
    → str_eq pod_group_label_key k ≡ false
    → map_get labels k ≡ some v
    → map_get (template_labels rbg labels) k ≡ some v
unfolding template_labels
template_labels-get rbg labels k v q h =
    ground (arith, map_get-put pod_group_label_key k rbg.meta.name labels)

-- A template that is constructed has all the labels that it was given, but for the key under which the
-- name of the PodGroup is put.
pub construct_pod_template-get :
    (client : Client) (lib : Library) (rbg : RoleBasedGroup) (role : RoleSpec)
    (objects : Option (List String)) (labels : Labels) (template result : PodTemplateSpec)
    (t : Trace) (k v : String)
    → PutsLabels lib
    → str_eq pod_group_label_key k ≡ false
    → (construct_pod_template client lib rbg role objects labels template t).0 ≡ ok result
    → map_get labels k ≡ some v
    → map_get result.labels k ≡ some v
unfolding construct_pod_template
construct_pod_template-get client lib rbg role objects labels template result t k v puts q h g =
    let (complete, u, _, h1) =
      bind-ok (inject_objects client lib rbg role (injected objects) template) _ t result h in
    let (config, w, _, h2) = bind-ok (lift (lib.template_of complete)) _ u result h1 in
    let e : record config { labels = lib.with_labels config.labels (template_labels rbg labels) }
        ≡ result =
      ground arith in
    ap (λ (r : PodTemplateSpec). map_get r.labels k) (sym e)
    ∙ puts.put config.labels (template_labels rbg labels) k v
        (template_labels-get rbg labels k v q g)
