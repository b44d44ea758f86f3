-- ===== src/Equality/Stable.antt =====
-- The comparisons of pkg/reconciler, on an object and itself.
use text.Mathlib.TextEquality.{eq_iff}
use rolebasedgroup.Prelude.{
  String, Bool, true, false, ◌&&◌, List, [], ◌∷◌, length, ◌≡◌, refl, str_eq, str_eq_refl, contains,
  Distinct, ==_iff, Bool-cases, inl, inr, arith,
}
use rolebasedgroup.Prelude.Maps.{map_get, keys}
use rolebasedgroup.Api.{Labels, EnvVar, VolumeMount, Volume, Container, PodTemplateSpec}
use rolebasedgroup.Objects.{StatefulSet}
use rolebasedgroup.Equality.{
  drop_if, entries_in, maps_equal, filter_system_labels, filter_system_annotations, meta_equal,
  pairwise, sorted_equal, sort_by, env_vars_equal, volumes_equal, volume_mounts_equal,
  container_equal, pod_spec_equal, pod_template_spec_equal, filter_system_envs,
  semantically_equal_stateful_set, system_label, system_annotation,
}

pairwise_refl {ℓ} :
    {A : Type ℓ} (f : A → A → Bool) (l : List A) → ((a : A) → f a a ≡ true) → pairwise f l l ≡ true
unfolding pairwise
pairwise_refl f [] h = refl
pairwise_refl f (x ∷ l) h = ground (arith, h x, pairwise_refl f l h)

sorted_equal_refl {ℓ} :
    {A : Type ℓ} (name : A → String) (f : A → A → Bool) (l : List A)
    → ((a : A) → f a a ≡ true)
    → sorted_equal name f l l ≡ true
unfolding sorted_equal
sorted_equal_refl name f l h =
    rw ((==_iff (length l) (length l)).1 refl) (pairwise_refl f (sort_by name l) h)

container_equal_refl : (c : Container) → container_equal c c ≡ true
unfolding container_equal env_vars_equal volume_mounts_equal
container_equal_refl c = ground (
  arith,
  str_eq_refl c.name,
  str_eq_refl c.image,
  str_eq_refl c.resources,
  str_eq_refl c.image_pull_policy,
  pairwise_refl str_eq c.command str_eq_refl,
  pairwise_refl str_eq c.args str_eq_refl,
  pairwise_refl str_eq c.ports str_eq_refl,
  sorted_equal_refl (λ (e : EnvVar). e.name) (λ a b. str_eq a.value b.value && str_eq a.name b.name)
      (filter_system_envs c.env) (λ a. ground (arith, str_eq_refl a.value, str_eq_refl a.name)),
  sorted_equal_refl (λ (v : VolumeMount). v.name) (λ a b. str_eq a.name b.name) c.volume_mounts
      (λ a. str_eq_refl a.name),
)

pub pod_spec_equal_refl : (p : PodTemplateSpec) → pod_spec_equal p p ≡ true
unfolding pod_spec_equal volumes_equal
pod_spec_equal_refl p = ground (
  arith,
  sorted_equal_refl (λ (c : Container). c.name) container_equal p.containers container_equal_refl,
  sorted_equal_refl (λ (v : Volume). v.name) (λ a b. str_eq a.name b.name) p.volumes
      (λ a. str_eq_refl a.name),
)

-- A key that the entries do not have may stand in front of the other map.
entries_in-cons :
    (l : Labels) (k v : String) (m : Labels)
    → contains (keys l) k ≡ false
    → entries_in l ((k, v) ∷ m) ≡ entries_in l m
unfolding entries_in map_get contains
entries_in-cons [] k v m h = refl
entries_in-cons ((j, w) ∷ l) k v m h =
    ground (arith, eq_iff j k, eq_iff k j, entries_in-cons l k v m (ground arith))

entries_in_refl : (l : Labels) → Distinct (keys l) → entries_in l l ≡ true
unfolding entries_in map_get
entries_in_refl [] d = refl
entries_in_refl ((k, v) ∷ l) d =
    ground (arith, str_eq_refl k, str_eq_refl v, entries_in-cons l k v l d.0, entries_in_refl l d.1)

pub maps_equal_refl : (l : Labels) → Distinct (keys l) → maps_equal l l ≡ true
unfolding maps_equal
maps_equal_refl [] d = refl
maps_equal_refl (e ∷ l) d =
    rw ((==_iff (length (e ∷ l)) (length (e ∷ l))).1 refl) (entries_in_refl (e ∷ l) d)

drop_if-lacks :
    (p : String × String → Bool) (l : Labels) (k : String)
    → contains (keys l) k ≡ false
    → contains (keys (drop_if p l)) k ≡ false
unfolding drop_if contains
drop_if-lacks p [] k h = refl
drop_if-lacks p (e ∷ l) k h = ground (arith, drop_if-lacks p l k (ground arith))

drop_if-Distinct :
    (p : String × String → Bool) (l : Labels) → Distinct (keys l) → Distinct (keys (drop_if p l))
unfolding drop_if
drop_if-Distinct p [] d = tt
drop_if-Distinct p (e ∷ l) d = elim (Bool-cases (p e)) [
  | inl out ↦ rw out (drop_if-Distinct p l d.1)
  | inr stays ↦ rw stays (drop_if-lacks p l e.0 d.0, drop_if-Distinct p l d.1)
]

pub meta_equal_refl :
    (labels annotations : Labels)
    → Distinct (keys labels)
    → Distinct (keys annotations)
    → meta_equal labels annotations labels annotations ≡ true
unfolding meta_equal filter_system_labels filter_system_annotations
meta_equal_refl labels annotations l a = ground (
  arith,
  maps_equal_refl (drop_if (λ e. system_label e.0) labels)
      (drop_if-Distinct (λ e. system_label e.0) labels l),
  maps_equal_refl (drop_if (λ e. system_annotation e.0) annotations)
      (drop_if-Distinct (λ e. system_annotation e.0) annotations a),
)

-- A pod template whose labels and annotations are maps, with no key twice, equals itself.
pub pod_template_spec_equal_refl :
    (p : PodTemplateSpec)
    → Distinct (keys p.labels)
    → Distinct (keys p.annotations)
    → pod_template_spec_equal p p ≡ true
unfolding pod_template_spec_equal
pod_template_spec_equal_refl p l a =
    ground (arith, pod_spec_equal_refl p, meta_equal_refl p.labels p.annotations l a)

-- A StatefulSet that was read, whose maps have no key twice, equals itself: without a change of the
-- group no new update of it begins.
semantically_equal_stateful_set_refl :
    (s : StatefulSet)
    → str_eq s.meta.uid "" ≡ false
    → Distinct (keys s.meta.labels)
    → Distinct (keys s.meta.annotations)
    → Distinct (keys s.selector)
    → Distinct (keys s.template.labels)
    → Distinct (keys s.template.annotations)
    → semantically_equal_stateful_set s s ≡ true
unfolding semantically_equal_stateful_set
semantically_equal_stateful_set_refl s there l a sel tl ta = ground (
  arith,
  pod_template_spec_equal_refl s.template tl ta,
  maps_equal_refl s.selector sel,
  str_eq_refl s.service_name,
  meta_equal_refl s.meta.labels s.meta.annotations l a,
)
