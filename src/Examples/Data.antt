-- ===== src/Examples/Data.antt =====
-- Objects of the API, a group of a prefill and a decode role, and an API server that answers every
-- read with NotFound and accepts every write.
use rolebasedgroup.Prelude.{
  String, Bool, true, false, Option, none, some, List, [], ◌∷◌, Result, ok, err, panic, not_found,
  other, str_eq, if◌then◌else◌,
}
use rolebasedgroup.Prelude.Int.{ℤ, pos}
use rolebasedgroup.Api.{
  OwnerReference, ObjectMeta, PodTemplateSpec, IntOrString, from_int, from_string, RoleSpec,
  RoleBasedGroup, ScalingAdapter, Container,
}
use rolebasedgroup.Api.Helper.{set_name_label_key, set_role_label_key, recreate_rbg_on_pod_restart}
use rolebasedgroup.Objects.{Pod, StatefulSet}
use rolebasedgroup.Client.{Client, Trace}

abbrev pub meta_of : String → ObjectMeta
meta_of name = record {
  name = name;
  namespace = "default";
  uid = "uid-1";
  labels = [];
  annotations = [];
  owner_references = [];
  deleting = false;
}

abbrev pub engine : Container
engine = record {
  name = "engine";
  image = "sglang:v0.5";
  command = "serve" ∷ [];
  args = [];
  ports = [];
  resources = "";
  image_pull_policy = "";
  env = record { name = "ROLE_NAME"; value = "mine"; field_path = none } ∷ [];
  volume_mounts = [];
}

abbrev pub template : PodTemplateSpec
template = record {
  labels = ("app", "llm") ∷ [];
  annotations = [];
  init_containers = [];
  containers = engine ∷ [];
  volumes = [];
}

abbrev pub role_of : String → List String → RoleSpec
role_of name dependencies = record {
  name = name;
  replicas = some (pos 2);
  rollout_strategy = none;
  restart_policy = recreate_rbg_on_pod_restart;
  dependencies = dependencies;
  workload = record { api_version = "apps/v1"; kind = "StatefulSet" };
  template = template;
  leader_worker_set = record {
    size = none;
    patch_leader_template = none;
    patch_worker_template = none;
  };
  service_ports = [];
  engine_runtimes = [];
  scaling_adapter = some (record { enable = true });
}

abbrev pub decode : RoleSpec
decode = role_of "decode" ("prefill" ∷ [])

abbrev pub prefill : RoleSpec
prefill = role_of "prefill" []

abbrev pub roles : List RoleSpec
roles = decode ∷ prefill ∷ []

abbrev pub group : RoleBasedGroup
group = record {
  api_version = "workloads.x-k8s.io/v1alpha1";
  kind = "RoleBasedGroup";
  meta = meta_of "llm";
  roles = roles;
  pod_group_policy = none;
  status = record { conditions = []; role_statuses = [] };
}

abbrev pub owner : OwnerReference
owner = record {
  api_version = "workloads.x-k8s.io/v1alpha1";
  kind = "RoleBasedGroup";
  name = "llm";
  uid = "uid-1";
  controller = true;
}

abbrev pub owned_meta : String → ObjectMeta
owned_meta name = record (meta_of name) { owner_references = owner ∷ [] }

-- An adapter of the role `prefill` that the group owns.
abbrev pub adapter_of : String → String → ScalingAdapter
adapter_of role phase = record {
  api_version = "workloads.x-k8s.io/v1alpha1";
  kind = "RoleBasedGroupScalingAdapter";
  meta = owned_meta "llm-prefill";
  spec = record {
    replicas = some (pos 4);
    scale_target_ref = some (record { name = "llm"; role = role });
  };
  status = record { phase = phase; replicas = none; selector = ""; scaled = false };
}

abbrev pub failed_pod : Pod
failed_pod = record {
  meta = record (meta_of "llm-prefill-0") {
    labels = (set_name_label_key, "llm") ∷ (set_role_label_key, "prefill") ∷ [];
    deleting = true;
  };
  phase = "Failed";
  conditions = [];
  init_container_statuses = [];
  container_statuses = [];
}

abbrev pub prefill_set : StatefulSet
prefill_set = record {
  api_version = "apps/v1";
  kind = "StatefulSet";
  meta = owned_meta "llm-prefill";
  replicas = some (pos 2);
  partition = some (pos 1);
  selector = ("app", "llm") ∷ [];
  service_name = "llm-prefill";
  template = template;
  ready_replicas = pos 2;
}

abbrev pub has_owner : List OwnerReference → String → Bool
has_owner [] uid = false
has_owner (o ∷ l) uid = if str_eq o.uid uid then true else has_owner l uid

abbrev pub first_owner : List OwnerReference → Option String
first_owner [] = none
first_owner (o ∷ l) = some o.uid

abbrev pub scaled : IntOrString → ℤ → Bool → Result ℤ
scaled (from_int n) total up = ok n
scaled (from_string s) total up = err (other "invalid value for IntOrString")

-- A poll that asks once.
abbrev pub asked_once : {S : Type 0} → (Result Bool × S) × Trace → (Result (Unit {0}) × S) × Trace
asked_once ((ok true, s), t) = ((ok tt, s), t)
asked_once ((ok false, s), t) = ((err (other "timed out"), s), t)
asked_once ((err e, s), t) = ((err e, s), t)
asked_once ((panic, s), t) = ((panic, s), t)

abbrev pub missing : {A : Type 0} → Result A
missing = err not_found

abbrev pub server : Client
server = record {
  get_group = λ t ns n. missing;
  get_group_set = λ t ns n. missing;
  get_adapter = λ t ns n. missing;
  get_stateful_set = λ t ns n. missing;
  get_deployment = λ t ns n. missing;
  get_leader_worker_set = λ t ns n. missing;
  get_service = λ t ns n. missing;
  get_config_map = λ t ns n. missing;
  get_pod_group = λ t ns n. missing;
  get_profile = λ t n. missing;
  get_crd = λ t n. missing;
  get_selector = λ t v k ns n. ok (("app", "llm") ∷ []);
  list_stateful_sets = λ t ns l. ok [];
  list_deployments = λ t ns l. ok [];
  list_leader_worker_sets = λ t ns l. ok [];
  list_adapters = λ t ns l. ok [];
  list_groups = λ t ns l. ok (group ∷ []);
  list_pods = λ t ns l. ok [];
  list_revisions = λ t ns l. ok [];
  write = λ t c. ok tt;
  is_controlled_by = has_owner;
  controller_uid = first_owner;
  scaled_value = scaled;
  retry_on_conflict = λ S f s t. f s t;
  poll_until = λ S f s t. asked_once (f s t);
}

-- The server, with the group.
abbrev pub group_server : Client
group_server = record server { get_group = λ t ns n. ok group }
