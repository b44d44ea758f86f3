-- ===== src/Discovery/Sidecar.antt =====
-- The containers that `injectRuntime` of pkg/discovery/sidecar_builder.go adds to a pod.
use mathlib.Core.List.{append_assoc, append-nil, map-append}
use rolebasedgroup.Prelude.{
  String, true, false, List, [], ◌∷◌, ◌++◌, ◌≡◌, refl, sym, ap, ◌∙◌, subst, inl, inr, str_eq_refl,
  contains, contains-append_left, contains-append_right, Distinct, Distinct-snoc, All, Bool-cases,
  arith,
}
use rolebasedgroup.Api.{Container}
use rolebasedgroup.Discovery.{container_names, add_missing, override, override_all}

names-snoc :
    (l : List Container) (c : Container)
    → container_names (l ++ c ∷ []) ≡ container_names l ++ c.name ∷ []
names-snoc [] c = refl
names-snoc (x ∷ l) c = ap (λ n. x.name ∷ n) (names-snoc l c)

-- The containers that a pod has stay as they are, in front; each that the profile names is there
-- afterwards; and names that are distinct stay so.
abbrev pub Adds : (new old result : List Container) → Type 0
Adds new old result =
    (added : List Container) × (result ≡ old ++ added)
    × All (λ c. contains (container_names result) c.name ≡ true) new
    × Distinct (container_names result)

-- A container of the pod is in the result.
kept :
    (old added : List Container) (name : String)
    → contains (container_names old) name ≡ true
    → contains (container_names (old ++ added)) name ≡ true
kept old added name h =
    rw (map-append (λ (c : Container). c.name) old added)
      (contains-append_left (container_names old) (container_names added) name h)

old_lem :
    (c : Container) (new old result : List Container)
    → contains (container_names old) c.name ≡ true
    → Adds new old result
    → Adds (c ∷ new) old result
old_lem c new old result has (added, e, all, distinct) =
    (added, e, (rw e (kept old added c.name has), all), distinct)

own_name : (s : String) → contains (s ∷ []) s ≡ true
unfolding contains
own_name s = rw (str_eq_refl s) refl

new_lem :
    (c : Container) (new old result : List Container)
    → contains (container_names old) c.name ≡ false
    → Adds new (old ++ c ∷ []) result
    → Adds (c ∷ new) old result
new_lem c new old result lacks (added, e, all, distinct) = (
  c ∷ added,
  e ∙ append_assoc old (c ∷ []) added,
  (rw e (kept (old ++ c ∷ []) added c.name last), all),
  distinct,
)
  where
    last : contains (container_names (old ++ c ∷ [])) c.name ≡ true
    last =
        rw (names-snoc old c)
          (contains-append_right (container_names old) (c.name ∷ []) c.name (own_name c.name))

-- Adding the containers of a profile to those of a pod, whose names are distinct, keeps the pod's in
-- front, adds each that is missing, and keeps names distinct.
pub add_missing-Adds :
    (new old : List Container) → Distinct (container_names old) → Adds new old (add_missing new old)
unfolding add_missing
add_missing-Adds [] old d = ([], sym (append-nil old), tt, d)
add_missing-Adds (c ∷ new) old d = elim (Bool-cases (contains (container_names old) c.name)) [
  | inl has ↦
      subst (λ l. Adds (c ∷ new) old (add_missing new l)) (rw has refl)
        (old_lem c new old (add_missing new old) has (add_missing-Adds new old d))
  | inr lacks ↦
      let more : Distinct (container_names (old ++ c ∷ [])) =
        rw (names-snoc old c) (Distinct-snoc (container_names old) c.name d lacks) in
      subst (λ l. Adds (c ∷ new) old (add_missing new l)) (rw lacks refl)
        (new_lem c new old (add_missing new (old ++ c ∷ [])) lacks
          (add_missing-Adds new (old ++ c ∷ []) more))
]

override-names :
    (o : Container) (l : List Container) → container_names (override o l) ≡ container_names l
unfolding override
override-names o [] = refl
override-names o (c ∷ l) = ground (arith, override-names o l)

-- Overriding the variables and arguments of containers changes no name, so that the pod has the same
-- containers in the same order.
override_all-names :
    (names : List String) (os l : List Container)
    → container_names (override_all names os l) ≡ container_names l
unfolding override_all
override_all-names names [] l = refl
override_all-names names (o ∷ os) l = elim (Bool-cases (contains names o.name)) [
  | inl own ↦ rw own (override_all-names names os (override o l) ∙ override-names o l)
  | inr other ↦ rw other (override_all-names names os l)
]
