-- ===== src/Examples/Library.antt =====
-- The library's functions as their documentation has them, on the fields of the model, and an API
-- server with the StatefulSet of a role.
use rolebasedgroup.Prelude.{
  Result, String, none, some, [], ◌∷◌, ◌&&◌, ◌≡◌, inl, inr, Bool-cases, str_eq, if◌then◌else◌, ok,
  other, err, ◌∙◌,
}
use rolebasedgroup.Prelude.Int.{pos}
use rolebasedgroup.Prelude.Maps.{map_get, map_put, map_get-put}
use rolebasedgroup.Api.{Labels}
use rolebasedgroup.Client.{Client}
use rolebasedgroup.Equality.{maps_equal}
use rolebasedgroup.Library.{Library, PutsLabels}
use rolebasedgroup.Examples.Data.{group, prefill_set}
use rolebasedgroup.Examples.Store.{store}

-- The value of a result, or another one.
abbrev pub or_default {ℓ} : {A : Type ℓ} → Result A → A → A
or_default (ok a) d = a
or_default _ d = d

-- The entries of the second map are put into the first, the first entry of a key last.
abbrev pub put_labels : Labels → Labels → Labels
put_labels old [] = old
put_labels old ((k, v) ∷ new) = map_put k v (put_labels old new)

abbrev pub library : Library
library = record {
  to_unstructured = λ c. ok tt;
  stateful_set_of = λ c. ok (record {
    api_version = "apps/v1";
    kind = "StatefulSet";
    meta = c.meta;
    replicas = some c.replicas;
    partition = none;
    selector = c.selector;
    service_name = c.service_name;
    template = c.template;
    ready_replicas = pos 0;
  });
  deployment_of = λ c. ok (record {
    meta = c.meta;
    replicas = some c.replicas;
    selector = c.selector;
    template = c.template;
    ready_replicas = pos 0;
  });
  leader_worker_set_of = λ c. ok (record {
    meta = c.meta;
    replicas = some c.replicas;
    leader_template = some c.leader_template;
    worker_template = c.worker_template;
    size = some c.size;
    restart_policy = c.restart_policy;
    status_replicas = pos 0;
    ready_replicas = pos 0;
  });
  service_of = λ c. ok (record { meta = c.meta; selector = c.selector });
  config_map_of = λ c. ok (record { meta = c.meta; entries = c.entries });
  template_of = λ p. ok p;
  with_labels = put_labels;
  marshal = λ c. ok c.group.name;
  same_config_map = λ c d. str_eq c.meta.name d.meta.name && maps_equal c.entries d.entries;
  merge_patch = λ p s. ok p;
  parse_group_version = λ s.
      if str_eq s "workloads.x-k8s.io/v1alpha1"
      then ok ("workloads.x-k8s.io", "v1alpha1")
      else err (other "unexpected GroupVersion string: %v");
}

put_labels-get :
    (old new : Labels) (k v : String)
    → map_get new k ≡ some v
    → map_get (put_labels old new) k ≡ some v
unfolding map_get
put_labels-get old [] k v h = absurd (cc)
put_labels-get old ((j, w) ∷ new) k v h = elim (Bool-cases (str_eq j k)) [
  | inl same ↦ map_get-put j k w (put_labels old new) ∙ rw same (rw same at h)
  | inr differ ↦
      map_get-put j k w (put_labels old new)
      ∙ rw differ (put_labels-get old new k v (rw differ at h))
]

pub library-PutsLabels : PutsLabels library
library-PutsLabels = record { put = put_labels-get }

-- A cluster with the group, in which every StatefulSet is the one of the role `prefill`.
abbrev pub cluster : Client
cluster = record store {
  get_group = λ t ns n. ok group;
  get_stateful_set = λ t ns n. ok prefill_set;
}
