-- ===== src/Events/Missed.antt =====
-- What an update of a workload leaves alone that wakes no controller.
use rolebasedgroup.Prelude.{
  true, false, not, Option, none, some, List, [], ◌∷◌, map, ◌≡◌, refl, ap, ap₂, ◌∙◌, sym, ok,
  bind_ok, bind_ok-ok, arith,
}
use rolebasedgroup.Prelude.Int.{ℤ, eq_ℤ-eq}
use rolebasedgroup.Api.{PodTemplateSpec}
use rolebasedgroup.Equality.{
  sort_by, pod_template_spec_equal, semantically_equal_stateful_set, semantically_equal_deployment,
  semantically_equal_leader_worker_set, lws_spec_equal,
}
use rolebasedgroup.Equality.Sound.{Core, core, pod_spec_equal-core}
use rolebasedgroup.Objects.{LeaderWorkerSet}
use rolebasedgroup.Library.{Library}
use rolebasedgroup.Events.{
  WorkloadObject, a_deployment, a_stateful_set, a_leader_worker_set, another, workload_equal,
  has_valid_owner_ref, workload_update,
}

-- The containers of a template in the order of their names.
abbrev sorted_core : PodTemplateSpec → List Core
sorted_core p = map core (sort_by (λ c. c.name) p.containers)

abbrev pub leader : Option PodTemplateSpec → List PodTemplateSpec
leader none = []
leader (some p) = p ∷ []

-- The pod templates of a workload.
abbrev pub templates : WorkloadObject → List PodTemplateSpec
templates (a_deployment d) = d.template ∷ []
templates (a_stateful_set s) = s.template ∷ []
templates (a_leader_worker_set l) = l.worker_template ∷ leader l.leader_template
templates (another m) = []

abbrev pub ready : WorkloadObject → Option ℤ
ready (a_deployment d) = some d.ready_replicas
ready (a_stateful_set s) = some s.ready_replicas
ready (a_leader_worker_set l) = some l.ready_replicas
ready (another m) = none

template-core :
    (p q : PodTemplateSpec) → pod_template_spec_equal p q ≡ true → sorted_core p ≡ sorted_core q
unfolding pod_template_spec_equal
template-core p q h = pod_spec_equal-core p q (ground arith)

abbrev pub Same : WorkloadObject → WorkloadObject → Type 0
Same old new =
    (map sorted_core (templates old) ≡ map sorted_core (templates new)) × (ready old ≡ ready new)

module _ (l m : LeaderWorkerSet) where
  lws-templates :
      lws_spec_equal l m ≡ ok true
      → map sorted_core (templates (a_leader_worker_set l))
        ≡ map sorted_core (templates (a_leader_worker_set m))
  unfolding lws_spec_equal
  lws-templates h = go l.leader_template m.leader_template refl refl
    where
      go :
          (a b : Option PodTemplateSpec)
          → l.leader_template ≡ a
          → m.leader_template ≡ b
          → map sorted_core (templates (a_leader_worker_set l))
            ≡ map sorted_core (templates (a_leader_worker_set m))
      go (some p) (some q) e f =
          let lead : pod_template_spec_equal p q ≡ true = ground arith in
          let work : pod_template_spec_equal l.worker_template m.worker_template ≡ true =
            ground arith in
          ap₂ (λ x y. x ∷ y) (template-core l.worker_template m.worker_template work)
            (ap (λ o. map sorted_core (leader o)) e
              ∙ ap (λ c. c ∷ []) (template-core p q lead)
              ∙ ap (λ o. map sorted_core (leader o)) (sym f))
      go none b e f = absurd (ground arith)
      go (some p) none e f = absurd (ground arith)

workload_equal-Same : (old new : WorkloadObject) → workload_equal old new ≡ ok true → Same old new
unfolding workload_equal semantically_equal_deployment semantically_equal_stateful_set
workload_equal-Same (a_deployment d) (a_deployment e) h = (
  ap (λ c. c ∷ []) (template-core d.template e.template (ground arith)),
  ap some (eq_ℤ-eq d.ready_replicas e.ready_replicas (ground arith)),
)
workload_equal-Same (a_stateful_set d) (a_stateful_set e) h = (
  ap (λ c. c ∷ []) (template-core d.template e.template (ground arith)),
  ap some (eq_ℤ-eq d.ready_replicas e.ready_replicas (ground arith)),
)
workload_equal-Same (a_leader_worker_set l) (a_leader_worker_set m) h =
    let (b, e, q) = bind_ok-ok (semantically_equal_leader_worker_set l m) _ h in
    let equal : b ≡ true = ground arith in
    (
      lws-templates l m (unfold semantically_equal_leader_worker_set in ground arith),
      ap some (eq_ℤ-eq l.ready_replicas m.ready_replicas (ground arith)),
    )
workload_equal-Same (a_deployment d) (a_stateful_set e) h = absurd (cc)
workload_equal-Same (a_deployment d) (a_leader_worker_set e) h = absurd (cc)
workload_equal-Same (a_deployment d) (another e) h = absurd (cc)
workload_equal-Same (a_stateful_set d) (a_deployment e) h = absurd (cc)
workload_equal-Same (a_stateful_set d) (a_leader_worker_set e) h = absurd (cc)
workload_equal-Same (a_stateful_set d) (another e) h = absurd (cc)
workload_equal-Same (a_leader_worker_set d) (a_deployment e) h = absurd (cc)
workload_equal-Same (a_leader_worker_set d) (a_stateful_set e) h = absurd (cc)
workload_equal-Same (a_leader_worker_set d) (another e) h = absurd (cc)
workload_equal-Same (another d) e h = absurd (cc)

-- An update of a workload that a group owns before and after it, and that wakes no controller, has
-- changed neither the number of ready replicas nor, in the order of their names, the names, images,
-- commands, arguments, ports and resources of the containers of any of its templates.
pub workload_update-Same :
    (lib : Library) (old new : WorkloadObject)
    → has_valid_owner_ref lib old ≡ true
    → has_valid_owner_ref lib new ≡ true
    → workload_update lib (some old) (some new) ≡ ok false
    → Same old new
unfolding workload_update
workload_update-Same lib old new o n h =
    let changed : bind_ok (workload_equal old new) (λ equal. ok (not equal)) ≡ ok false =
      ground arith in
    let (b, e, q) = bind_ok-ok (workload_equal old new) (λ equal. ok (not equal)) changed in
    workload_equal-Same old new (e ∙ ap ok (ground arith))
