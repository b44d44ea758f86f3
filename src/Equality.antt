-- ===== src/Equality.antt =====
-- pkg/reconciler/pod_reconciler.go, and the comparisons of StatefulSets, Deployments and
-- LeaderWorkerSets in pkg/reconciler, with the filters of pkg/utils/utils.go: whether a workload is
-- to be patched. A comparison returns an error exactly if it is false, so that the model keeps the
-- Boolean. Lists are sorted by names, which the API server keeps distinct; a list that is nil and an
-- empty one are the same here.
pub mod Sound
pub mod Stable
pub mod Maps
use text.Mathlib.Text.{starts_with}
use rolebasedgroup.Prelude.{
  ℕ, String, Bool, true, false, ◌&&◌, ◌||◌, not, Option, none, some, List, [], ◌∷◌, length, str_eq,
  str_le, ◌==◌, if◌then◌else◌, Result, ok, err, panic,
}
use rolebasedgroup.Prelude.Maps.{map_get}
use rolebasedgroup.Prelude.Int.{ℤ, pos, eq_ℤ}
use rolebasedgroup.Api.{Labels, EnvVar, VolumeMount, Volume, Container, PodTemplateSpec, ObjectMeta}
use rolebasedgroup.Objects.{StatefulSet, Deployment, LeaderWorkerSet}

abbrev rbg_prefix : String
rbg_prefix = "rolebasedgroup.workloads.x-k8s.io/"

abbrev app_prefix : String
app_prefix = "app.kubernetes.io/"

abbrev system_label : String → Bool
system_label k = starts_with k app_prefix || starts_with k rbg_prefix

abbrev system_annotation : String → Bool
system_annotation k =
    starts_with k "deployment.kubernetes.io/revision"
    || starts_with k rbg_prefix
    || starts_with k app_prefix

abbrev system_env : String → Bool
system_env k = starts_with k "ROLES_" || str_eq k "RBG_GROUP_SIZE"

-- The loops of the filters: what is dropped, by its name.
unfoldable pub drop_if {ℓ} : {A : Type ℓ} → (A → Bool) → List A → List A
drop_if p [] = []
drop_if p (x ∷ l) = if p x then drop_if p l else x ∷ drop_if p l

-- `FilterSystemLabels`, `FilterSystemAnnotations`, `FilterSystemEnvs`
unfoldable pub filter_system_labels : Labels → Labels
filter_system_labels l = drop_if (λ e. system_label e.0) l

unfoldable pub filter_system_annotations : Labels → Labels
filter_system_annotations l = drop_if (λ e. system_annotation e.0) l

unfoldable pub filter_system_envs : List EnvVar → List EnvVar
filter_system_envs l = drop_if (λ e. system_env e.name) l

-- The loop of `mapsEqual`.
unfoldable pub entries_in : Labels → Labels → Bool
entries_in [] other = true
entries_in ((k, v) ∷ m) other = elim (map_get other k) [
  | none ↦ false
  | some w ↦ if str_eq w v then entries_in m other else false
]

-- `mapsEqual`
unfoldable pub maps_equal : Labels → Labels → Bool
maps_equal [] [] = true
maps_equal [] (e ∷ m) = false
maps_equal (e ∷ m) [] = false
maps_equal (d ∷ l) (e ∷ m) =
    if length (d ∷ l) == length (e ∷ m) then entries_in (d ∷ l) (e ∷ m) else false

-- `objectMetaEqual`, on the labels and the annotations.
unfoldable pub meta_equal : (labels annotations labels' annotations' : Labels) → Bool
meta_equal labels annotations labels' annotations' =
    maps_equal (filter_system_labels labels) (filter_system_labels labels')
    && maps_equal (filter_system_annotations annotations) (filter_system_annotations annotations')

-- `sort.Slice` by a name.
insert_by {ℓ} : {A : Type ℓ} → (A → String) → A → List A → List A
insert_by name x [] = x ∷ []
insert_by name x (y ∷ l) = if str_le (name x) (name y) then x ∷ y ∷ l else y ∷ insert_by name x l

unfoldable pub sort_by {ℓ} : {A : Type ℓ} → (A → String) → List A → List A
unfolding insert_by
sort_by name [] = []
sort_by name (x ∷ l) = insert_by name x (sort_by name l)

-- A loop over the indices of two slices of the same length.
unfoldable pub pairwise {ℓ} : {A : Type ℓ} → (A → A → Bool) → List A → List A → Bool
pairwise f [] [] = true
pairwise f [] (y ∷ m) = false
pairwise f (x ∷ l) [] = false
pairwise f (x ∷ l) (y ∷ m) = f x y && pairwise f l m

-- `len(l1) != len(l2)`, and then the loop over the sorted copies.
unfoldable pub sorted_equal {ℓ} :
    {A : Type ℓ} → (A → String) → (A → A → Bool) → List A → List A → Bool
sorted_equal name f l m =
    if length l == length m then pairwise f (sort_by name l) (sort_by name m) else false

-- `reflect.DeepEqual` on slices of texts.
abbrev texts_equal : List String → List String → Bool
texts_equal l m = pairwise str_eq l m

-- `envVarsEqual`
unfoldable pub env_vars_equal : List EnvVar → List EnvVar → Bool
env_vars_equal l m =
    sorted_equal (λ e. e.name) (λ a b. str_eq a.value b.value && str_eq a.name b.name)
      (filter_system_envs l) (filter_system_envs m)

-- `volumesEqual`
unfoldable pub volumes_equal : List Volume → List Volume → Bool
volumes_equal l m = sorted_equal (λ v. v.name) (λ a b. str_eq a.name b.name) l m

-- `volumeMountsEqual`
unfoldable pub volume_mounts_equal : List VolumeMount → List VolumeMount → Bool
volume_mounts_equal l m = sorted_equal (λ v. v.name) (λ a b. str_eq a.name b.name) l m

-- The image pull policy counts if both have one.
abbrev pull_policy_equal : String → String → Bool
pull_policy_equal p q = if not (str_eq p "") && not (str_eq q "") then str_eq p q else true

-- `containerEqual`
unfoldable pub container_equal : Container → Container → Bool
container_equal c d =
    str_eq c.name d.name
    && str_eq c.image d.image
    && texts_equal c.command d.command
    && texts_equal c.args d.args
    && texts_equal c.ports d.ports
    && str_eq c.resources d.resources
    && pull_policy_equal c.image_pull_policy d.image_pull_policy
    && env_vars_equal c.env d.env
    && volume_mounts_equal c.volume_mounts d.volume_mounts

-- `podSpecEqual`
unfoldable pub pod_spec_equal : PodTemplateSpec → PodTemplateSpec → Bool
pod_spec_equal p q =
    sorted_equal (λ c. c.name) container_equal p.containers q.containers
    && volumes_equal p.volumes q.volumes

-- `podTemplateSpecEqual`
unfoldable pub pod_template_spec_equal : PodTemplateSpec → PodTemplateSpec → Bool
pod_template_spec_equal p q =
    meta_equal p.labels p.annotations q.labels q.annotations && pod_spec_equal p q

abbrev pub object_equal : ObjectMeta → ObjectMeta → Bool
object_equal m n = meta_equal m.labels m.annotations n.labels n.annotations

-- `SemanticallyEqualStatefulSet`, of the one that was read, which may be empty, and the new one.
-- A selector is compared as the map of its labels.
unfoldable pub semantically_equal_stateful_set : StatefulSet → StatefulSet → Bool
semantically_equal_stateful_set old new =
    not (str_eq old.meta.uid "")
    && object_equal old.meta new.meta
    && maps_equal old.selector new.selector
    && str_eq old.service_name new.service_name
    && pod_template_spec_equal old.template new.template

unfoldable pub replicas_equal : Option ℤ → Option ℤ → Bool
replicas_equal (some m) (some n) = eq_ℤ m n
replicas_equal _ _ = true

-- `SemanticallyEqualDeployment`
unfoldable pub semantically_equal_deployment : Deployment → Deployment → Bool
unfolding replicas_equal
semantically_equal_deployment old new =
    not (str_eq old.meta.uid "")
    && object_equal old.meta new.meta
    && replicas_equal old.replicas new.replicas
    && maps_equal old.selector new.selector
    && pod_template_spec_equal old.template new.template

-- A number of replicas that is nil counts as 1.
or_one : Option ℤ → ℤ
or_one none = pos 1
or_one (some n) = n

-- `leaderWorkerTemplateEqual` and `lwsSpecEqual`: a leader template that is nil is a panic, and so is
-- a size that is nil behind templates that are equal.
unfoldable pub lws_spec_equal : LeaderWorkerSet → LeaderWorkerSet → Result Bool
unfolding or_one
lws_spec_equal old new = templates old.leader_template new.leader_template
  where
    sizes : Option ℤ → Option ℤ → Result Bool
    sizes (some m) (some n) = ok (
        eq_ℤ m n
        && str_eq old.restart_policy new.restart_policy
        && eq_ℤ (or_one old.replicas) (or_one new.replicas))
    sizes _ _ = panic

    templates : Option PodTemplateSpec → Option PodTemplateSpec → Result Bool
    templates (some p) (some q) =
        if pod_template_spec_equal p q
          && pod_template_spec_equal old.worker_template new.worker_template
        then sizes old.size new.size
        else ok false
    templates _ _ = panic

-- `semanticallyEqualLeaderWorkerSet`
unfoldable pub semantically_equal_leader_worker_set :
    LeaderWorkerSet → LeaderWorkerSet → Result Bool
semantically_equal_leader_worker_set old new =
    if not (str_eq old.meta.uid "") && object_equal old.meta new.meta
    then lws_spec_equal old new
    else ok false
