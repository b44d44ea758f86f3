-- ===== src/Rollout/States.antt =====
-- `getReplicaStates` of pkg/reconciler/sts_reconciler.go: the states of a StatefulSet's replicas, from
-- its pods and its highest revision. A slot that no pod has is `none`, for the empty pod.
pub mod Length
pub mod Pods
pub mod Calls
use Prim.Native.String.{◌++◌ as str_append}
use rolebasedgroup.Prelude.{
  ℕ, zero, suc, ◌+◌, ◌/◌, ◌%◌, String, Bool, true, false, Option, none, some, List, [], ◌∷◌, str_eq,
  ◌≡◌, refl, ltb, leb, ◌==◌, if◌then◌else◌, Result, ok, err, panic, other,
}
use rolebasedgroup.Prelude.Int.{ℤ, pos, negsuc}
use rolebasedgroup.Prelude.Decimal.{format_ℕ}
use rolebasedgroup.Api.Helper.{label}
use rolebasedgroup.Objects.{StatefulSet, Pod, ControllerRevision}
use rolebasedgroup.Client.{
  Client, pod, Call, list, Trace, Io, M, ◌>>=◌, ◌>>◌, pure, lift, fail, deref, read, bind_result,
}
use rolebasedgroup.Restart.{pod_running_and_ready}
use rolebasedgroup.Rollout.{ReplicaState}
use rolebasedgroup.Rollout.Parameters.{highest_revision}
use rolebasedgroup.Rollout.Parameters.Atoi.{atoi}

-- `fmt.Sprintf("%s-%d", sts.Name, idx)`
unfoldable pub nominated_name : String → ℕ → String
unfolding format_ℕ
nominated_name name n = str_append name (str_append "-" (format_ℕ n))

nominated_name_120 : nominated_name "llm-prefill" 120 ≡ "llm-prefill-120"
unfolding nominated_name
nominated_name_120 = refl

-- `make([]corev1.Pod, n)`
unfoldable pub empty_slots : ℕ → List (Option Pod)
empty_slots zero = []
empty_slots (suc n) = none ∷ empty_slots n

-- `sortedPods[idx] = pod`; behind the end of the slice it is a panic.
unfoldable pub set_slot : List (Option Pod) → ℕ → Pod → Result (List (Option Pod))
set_slot [] n p = panic
set_slot (s ∷ l) zero p = ok (some p ∷ l)
set_slot (s ∷ l) (suc n) p = elim (set_slot l n p) [
  | ok m ↦ ok (s ∷ m)
  | err e ↦ err e
  | panic ↦ panic
]

-- One round of the loop over the pods: a pod with no index, or with one that is too large, is passed
-- over; a negative index is a panic.
unfoldable pub place_pod : ℕ → Pod → List (Option Pod) → Result (List (Option Pod))
place_pod replicas p slots = elim (atoi (label p.meta.labels "apps.kubernetes.io/pod-index")) [
  | ok i ↦ elim i [
    | pos n ↦ if leb replicas n then ok slots else set_slot slots n p
    | negsuc n ↦ panic
  ]
  | err e ↦ ok slots
  | panic ↦ panic
]

unfoldable pub place_pods : ℕ → List Pod → List (Option Pod) → Result (List (Option Pod))
place_pods replicas [] slots = ok slots
place_pods replicas (p ∷ pods) slots = elim (place_pod replicas p slots) [
  | ok next ↦ place_pods replicas pods next
  | err e ↦ err e
  | panic ↦ panic
]

abbrev absent : ReplicaState
absent = record { updated = false; ready = false }

-- One round of the loop over the indices.
unfoldable pub state_of : String → String → ℕ → Option Pod → ReplicaState
state_of name revision n none = absent
state_of name revision n (some p) =
    if str_eq (nominated_name name n) p.meta.name
    then record {
      updated = str_eq (label p.meta.labels "controller-revision-hash") revision;
      ready = pod_running_and_ready p;
    }
    else absent

unfoldable pub states_from : String → String → ℕ → List (Option Pod) → List ReplicaState
states_from name revision n [] = []
states_from name revision n (s ∷ l) =
    state_of name revision n s ∷ states_from name revision (suc n) l

-- `make` of a negative length is a panic.
abbrev pub slice_length : ℤ → Result ℕ
slice_length (pos n) = ok n
slice_length (negsuc n) = panic

module _ (client : Client) where
  -- The end of `getReplicaStates`: a StatefulSet without a revision is an error.
  pub with_revision :
      StatefulSet → List (Option Pod) → Option ControllerRevision → Result (List ReplicaState)
  with_revision sts slots none = err (other "sts %s has no revision")
  with_revision sts slots (some r) = ok (states_from sts.meta.name r.meta.name 0 slots)

  -- `getReplicaStates`
  unfoldable pub get_replica_states : StatefulSet → M (List ReplicaState)
  unfolding with_revision
  get_replica_states sts = do
    replicas ← lift (deref sts.replicas)
    n ← lift (slice_length replicas)
    pods ←
        read (list pod sts.meta.namespace sts.meta.labels)
          (λ t. client.list_pods t sts.meta.namespace sts.meta.labels)
    slots ← lift (place_pods n pods (empty_slots n))
    revision ← highest_revision client sts
    lift (with_revision sts slots revision)
