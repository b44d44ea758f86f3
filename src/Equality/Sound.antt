-- ===== src/Equality/Sound.antt =====
-- What the comparisons of pkg/reconciler/pod_reconciler.go tell of two objects that they find equal.
use rolebasedgroup.Prelude.{
  String, Bool, true, some, List, [], ◌∷◌, length, ◌≡◌, refl, sym, ap, ap₂, ◌∙◌, inl, inr, str_eq,
  str_eq-eq, ◌==◌, Bool-cases, Option-cases, ==_iff, map, arith,
}
use rolebasedgroup.Prelude.Maps.{map_get}
use rolebasedgroup.Api.{Labels, Container, PodTemplateSpec}
use rolebasedgroup.Equality.{
  entries_in, maps_equal, pairwise, sorted_equal, sort_by, container_equal, pod_spec_equal,
}

entries_in-head :
    (l m : Labels) (j w : String)
    → entries_in ((j, w) ∷ l) m ≡ true
    → (map_get m j ≡ some w) × (entries_in l m ≡ true)
unfolding entries_in
entries_in-head l m j w h = elim (Option-cases (map_get m j)) [
  | inl e ↦ absurd (ground arith)
  | inr (x, e) ↦ elim (Bool-cases (str_eq x w)) [
    | inl q ↦ (e ∙ ap some (str_eq-eq x w q), ground arith)
    | inr q ↦ absurd (ground arith)
  ]
]

pub entries_in-get :
    (l m : Labels) (k v : String)
    → entries_in l m ≡ true
    → map_get l k ≡ some v
    → map_get m k ≡ some v
unfolding map_get
entries_in-get [] m k v h e = absurd (cc)
entries_in-get ((j, w) ∷ l) m k v h e =
    let (first, rest) = entries_in-head l m j w h in
    elim (Bool-cases (str_eq j k)) [
      | inl same ↦
          let q : w ≡ v = ground arith in
          ap (λ x. map_get m x) (sym (str_eq-eq j k same)) ∙ first ∙ ap some q
      | inr differ ↦ entries_in-get l m k v rest (rw differ at e)
    ]

-- Two maps that compare equal have the same number of entries, and an entry of the first is one of
-- the second.
maps_equal-get :
    (l m : Labels) (k v : String)
    → maps_equal l m ≡ true
    → map_get l k ≡ some v
    → (length l ≡ length m) × (map_get m k ≡ some v)
unfolding maps_equal
maps_equal-get [] [] k v h e = (refl, e)
maps_equal-get [] (x ∷ m) k v h e = absurd (cc)
maps_equal-get (d ∷ l) [] k v h e = absurd (cc)
maps_equal-get (d ∷ l) (x ∷ m) k v h e = elim (Bool-cases (length (d ∷ l) == length (x ∷ m))) [
  | inl same ↦ (
    (==_iff (length (d ∷ l)) (length (x ∷ m))).0 same,
    entries_in-get (d ∷ l) (x ∷ m) k v (rw same at h) e,
  )
  | inr differ ↦ absurd (ground arith)
]

pairwise-map :
    {A B : Type 0} (f : A → A → Bool) (g : A → B) (l m : List A)
    → ((a b : A) → f a b ≡ true → g a ≡ g b)
    → pairwise f l m ≡ true
    → map g l ≡ map g m
unfolding pairwise
pairwise-map f g [] [] same h = refl
pairwise-map f g [] (y ∷ m) same h = absurd (cc)
pairwise-map f g (x ∷ l) [] same h = absurd (cc)
pairwise-map f g (x ∷ l) (y ∷ m) same h = elim (Bool-cases (f x y)) [
  | inl q ↦ ap₂ (λ a b. a ∷ b) (same x y q) (pairwise-map f g l m same (rw q at h))
  | inr q ↦ absurd (ground arith)
]

map_id : (l : List String) → map (λ s. s) l ≡ l
map_id [] = refl
map_id (s ∷ l) = ap (λ r. s ∷ r) (map_id l)

texts_lem : (l m : List String) → pairwise str_eq l m ≡ true → l ≡ m
texts_lem l m h = sym (map_id l) ∙ pairwise-map str_eq (λ s. s) l m str_eq-eq h ∙ map_id m

-- What the comparison of containers decides exactly.
abbrev pub Core : Type 0
Core = String × String × List String × List String × List String × String

abbrev pub core : Container → Core
core c = (c.name, c.image, c.command, c.args, c.ports, c.resources)

container_equal-core : (c d : Container) → container_equal c d ≡ true → core c ≡ core d
unfolding container_equal
container_equal-core c d h =
    let name : str_eq c.name d.name ≡ true = ground arith in
    let image : str_eq c.image d.image ≡ true = ground arith in
    let command : pairwise str_eq c.command d.command ≡ true = ground arith in
    let args : pairwise str_eq c.args d.args ≡ true = ground arith in
    let ports : pairwise str_eq c.ports d.ports ≡ true = ground arith in
    let resources : str_eq c.resources d.resources ≡ true = ground arith in
    λ i. (
      str_eq-eq c.name d.name name i,
      str_eq-eq c.image d.image image i,
      texts_lem c.command d.command command i,
      texts_lem c.args d.args args i,
      texts_lem c.ports d.ports ports i,
      str_eq-eq c.resources d.resources resources i,
    )

-- Two pod specs that compare equal have, in the order of their names, containers with the same
-- names, images, commands, arguments, ports and resources: a change of these is not missed.
pub pod_spec_equal-core :
    (p q : PodTemplateSpec)
    → pod_spec_equal p q ≡ true
    → map core (sort_by (λ c. c.name) p.containers) ≡ map core (sort_by (λ c. c.name) q.containers)
unfolding pod_spec_equal sorted_equal
pod_spec_equal-core p q h =
    let containers : sorted_equal (λ c. c.name) container_equal p.containers q.containers ≡ true =
      ground arith in
    elim (Bool-cases (length p.containers == length q.containers)) [
      | inl same ↦
          pairwise-map container_equal core (sort_by (λ c. c.name) p.containers)
            (sort_by (λ c. c.name) q.containers) container_equal-core (rw same at containers)
      | inr differ ↦ absurd (ground arith)
    ]
