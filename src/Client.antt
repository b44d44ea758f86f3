-- ===== src/Client.antt =====
-- The Kubernetes client that the controllers call, as a parameter: what the API server answers to
-- a call may depend on every call before, in any way. Beside it the library functions that the
-- controllers are built on.
pub mod Laws
pub mod Deletions
pub mod Only
use rolebasedgroup.Prelude.{
  ℕ, String, Bool, true, false, Option, none, some, List, [], ◌∷◌, ◌++◌, ◌≡◌, refl, Error, Result,
  ok, err, panic, not_found, is_not_found, if◌then◌else◌,
}
use rolebasedgroup.Objects.{
  Applied, ConfigMap, ControllerRevision, Deployment, LeaderWorkerSet, Pod, PodCondition, PodGroup,
  RuntimeProfile, Service, StatefulSet,
}
use rolebasedgroup.Prelude.Int.{ℤ}
use rolebasedgroup.Api.{
  Labels, OwnerReference, IntOrString, RoleBasedGroup, RoleBasedGroupStatus, RoleBasedGroupSet,
  ScalingAdapter, ScalingAdapterSpec, ScalingAdapterStatus,
}

pub data Kind : Type 0 where
  role_based_group role_based_group_set scaling_adapter : Kind
  stateful_set deployment leader_worker_set : Kind
  service config_map pod_group profile pod revision crd : Kind

-- A call of the API server.
pub data Call : Type 0 where
  get : Kind → (namespace name : String) → Call
  get_object : (api_version kind namespace name : String) → Call
  list : Kind → (namespace : String) → (labels : Labels) → Call
  delete : Kind → (namespace name : String) → Call
  create_adapter : ScalingAdapter → Call
  create_group : (generate_name : String) → RoleBasedGroup → Call
  create_pod_group : PodGroup → Call
  update_pod_group : PodGroup → Call
  update_group : RoleBasedGroup → Call
  patch_group_status : (namespace name : String) → RoleBasedGroupStatus → Call
  patch_adapter_owner : (namespace name : String) → ScalingAdapterSpec → OwnerReference → Call
  patch_adapter_spec : (namespace name : String) → ScalingAdapterSpec → Call
  patch_adapter_status :
      (namespace name : String) → ScalingAdapterSpec → ScalingAdapterStatus → Call
  -- A server-side apply, of an object or of its status.
  apply apply_status : Applied → Call

-- The calls made so far, the latest first.
abbrev pub Trace : Type 0
Trace = List Call

-- A computation that makes calls.
abbrev pub Io : Type 0 → Type 0
Io A = Trace → A × Trace

abbrev pub M : Type 0 → Type 0
M A = Io (Result A)

abbrev pub bind_result : {A B : Type 0} → Result A → (A → M B) → M B
bind_result (ok a) f = f a
bind_result (err e) f = λ t. (err e, t)
bind_result panic f = λ t. (panic, t)

infixl 5 ◌>>=◌ ◌>>◌
abbrev pub ◌>>=◌ : {A B : Type 0} → M A → (A → M B) → M B
m >>= f = λ t. let (r, u) = m t in bind_result r f u

abbrev pub ◌>>◌ : {A B : Type 0} → M A → M B → M B
m >> k = m >>= λ _. k

abbrev pub pure : {A : Type 0} → A → M A
pure a = λ t. (ok a, t)

abbrev pub lift : {A : Type 0} → Result A → M A
lift r = λ t. (r, t)

abbrev pub fail : {A : Type 0} → Error → M A
fail e = λ t. (err e, t)

-- The error as a value, for the code that looks at it.
abbrev pub attempt : {A : Type 0} → M A → M (Result A)
attempt m = λ t. let (r, u) = m t in (ok r, u)

-- `fmt.Errorf` round the error of a call: only that it is an error remains.
abbrev pub wrap_result : {A : Type 0} → Error → Result A → Result A
wrap_result e (ok a) = ok a
wrap_result e (err _) = err e
wrap_result e panic = panic

abbrev pub wrap : {A : Type 0} → Error → M A → M A
wrap e m = λ t. let (r, u) = m t in (wrap_result e r, u)

-- A pointer that is dereferenced.
abbrev pub deref : {A : Type 0} → Option A → Result A
deref none = panic
deref (some a) = ok a

pub record Client : Type 1 where
  pub get_group : Trace → String → String → Result RoleBasedGroup
  pub get_group_set : Trace → String → String → Result RoleBasedGroupSet
  pub get_adapter : Trace → String → String → Result ScalingAdapter
  pub get_stateful_set : Trace → String → String → Result StatefulSet
  pub get_deployment : Trace → String → String → Result Deployment
  pub get_leader_worker_set : Trace → String → String → Result LeaderWorkerSet
  pub get_service : Trace → String → String → Result Service
  pub get_config_map : Trace → String → String → Result ConfigMap
  pub get_pod_group : Trace → String → String → Result PodGroup
  pub get_profile : Trace → String → Result RuntimeProfile
  -- The conditions of a CRD, as pairs of type and status.
  pub get_crd : Trace → String → Result (List PodCondition)
  -- spec.selector.matchLabels of an object that is read by its API version and kind; an API version
  -- that does not parse and a selector that is missing are errors.
  pub get_selector : Trace → (api_version kind namespace name : String) → Result Labels
  pub list_stateful_sets : Trace → String → Labels → Result (List StatefulSet)
  pub list_deployments : Trace → String → Labels → Result (List Deployment)
  pub list_leader_worker_sets : Trace → String → Labels → Result (List LeaderWorkerSet)
  pub list_adapters : Trace → String → Labels → Result (List ScalingAdapter)
  pub list_groups : Trace → String → Labels → Result (List RoleBasedGroup)
  pub list_pods : Trace → String → Labels → Result (List Pod)
  pub list_revisions : Trace → String → Labels → Result (List ControllerRevision)
  -- The answer to a call that creates, updates, patches or deletes.
  pub write : Trace → Call → Result (Unit {0})
  -- metav1.IsControlledBy and metav1.GetControllerOf, on the owner references.
  pub is_controlled_by : List OwnerReference → String → Bool
  pub controller_uid : List OwnerReference → Option String
  -- intstr.GetScaledValueFromIntOrPercent
  pub scaled_value : IntOrString → ℤ → Bool → Result ℤ
  -- retry.RetryOnConflict and wait.PollUntilContextTimeout, on functions that keep variables.
  pub retry_on_conflict :
      (S : Type 0)
      → (S → Trace → (Result (Unit {0}) × S) × Trace)
      → S
      → Trace
      → (Result (Unit {0}) × S) × Trace
  pub poll_until :
      (S : Type 0)
      → (S → Trace → (Result Bool × S) × Trace)
      → S
      → Trace
      → (Result (Unit {0}) × S) × Trace

module _ (client : Client) where
  -- A call that changes something.
  unfoldable pub perform : Call → M (Unit {0})
  perform call = λ t. (client.write t call, call ∷ t)

-- A call that reads.
abbrev pub read : {A : Type 0} → Call → (Trace → Result A) → M A
read call answer = λ t. (answer t, call ∷ t)
