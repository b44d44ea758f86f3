-- ===== src/Examples/Rolling.antt =====
-- The rolling update of pkg/reconciler/sts_reconciler.go, on three replicas.
use rolebasedgroup.Prelude.{
  ℕ, ◌+◌, ◌-◌, ◌≤◌, true, false, none, some, List, [], ◌∷◌, ◌≡◌, ◌⊎◌, refl, length, arith, ok,
}
use rolebasedgroup.Prelude.Int.{ℤ, pos, negsuc, pos_part, ◌≤ℤ◌, i32, ◌+ℤ◌, ◌-ℤ◌}
use rolebasedgroup.Api.{Labels, RolloutStrategy, from_int, RoleSpec}
use rolebasedgroup.Objects.{Pod, StatefulSet, ControllerRevision}
use rolebasedgroup.Client.{Client, M, list, pod, pure}
use rolebasedgroup.Rollout.{
  ReplicaState, unavailable_below, rolling_update_partition, calculate_continuous_ready_replicas,
  non_zero_value, partition_after, reduce_partition, calculate_role_unready_replicas,
}
use rolebasedgroup.Api.Helper.{label}
use rolebasedgroup.Rollout.Parameters.Atoi.{atoi}
use rolebasedgroup.Restart.{pod_running_and_ready}
use rolebasedgroup.Rollout.States.{
  get_replica_states, place_pods, place_pod, set_slot, empty_slots, states_from, state_of,
  nominated_name,
}
use rolebasedgroup.Rollout.States.Pods.{Shows, get_replica_states-Shows}
use rolebasedgroup.Rollout.Count.{disrupted}
use rolebasedgroup.Rollout.Partition.{
  rolling_update_partition-safe, rolling_update_partition-out_of_range,
}
use rolebasedgroup.Rollout.Parameters.{
  highest_revision, want_replicas, get_highest_revision, rolling_update_parameters,
}
use rolebasedgroup.Rollout.Parameters.Bounds.{
  want_replicas-lesser, rolling_update_parameters-partition,
}
use rolebasedgroup.Examples.Data.{server, prefill, prefill_set, meta_of}

abbrev old : ReplicaState
old = record { updated = false; ready = true }

abbrev new : ReplicaState
new = record { updated = true; ready = true }

abbrev states : List ReplicaState
states = old ∷ old ∷ new ∷ []

rolling_update_partition-safe_example :
    (u : ℕ) × (p : ℤ) × (unavailable_below
        (length states - calculate_continuous_ready_replicas states - 1)
        states
      ≡ some u)
    × (rolling_update_partition states (pos 3) (pos 1) (pos 2) ≡ some p)
    × (p ≤ℤ pos 2)
    × ((p ≡ pos 2)
        ⊎ (pos (length states - calculate_continuous_ready_replicas states - 1) ≤ℤ p)
          × (disrupted states (pos_part p) ≤ 1 - u))
rolling_update_partition-safe_example =
    rolling_update_partition-safe states 1 (pos 2) (omega arith) (omega arith)

none_current : calculate_continuous_ready_replicas (old ∷ []) ≡ 0
unfolding calculate_continuous_ready_replicas
none_current = refl

rolling_update_partition-out_of_range_example :
    rolling_update_partition (old ∷ []) (pos 1) (negsuc 0) (pos 1) ≡ none
rolling_update_partition-out_of_range_example =
    rolling_update_partition-out_of_range (old ∷ []) 0 (pos 1) (omega arith) (omega arith)
      (omega (arith, none_current))

want_replicas-lesser_example : want_replicas (pos 4) (pos 2) (pos 2) ≡ pos (4 + 1)
want_replicas-lesser_example = want_replicas-lesser 4 2 2 (omega arith) (omega arith)

abbrev revision_of : ℤ → ControllerRevision
revision_of n = record { meta = meta_of "llm-prefill-7d9f"; revision = n }

abbrev revisions : List ControllerRevision
revisions = revision_of (pos 1) ∷ revision_of (pos 3) ∷ revision_of (pos 2) ∷ []

abbrev strategy : RolloutStrategy
strategy = record {
  type = "RollingUpdate";
  rolling_update =
      some (record { max_unavailable = from_int (pos 1); max_surge = from_int (pos 0) });
}

abbrev read_states : StatefulSet → M (List ReplicaState)
read_states sts = pure (old ∷ new ∷ [])

-- A StatefulSet whose update is at partition 1 of 2, with a size that its annotation tells.
abbrev updating : StatefulSet
updating =
    let m = meta_of "llm-prefill" in
    record prefill_set {
      meta = record m { annotations = ("rolebasedgroup.workloads.x-k8s.io/role-size", "2") ∷ [] };
    }

abbrev updated_role : RoleSpec
updated_role = record prefill { rollout_strategy = some strategy }

rolling_update_parameters-partition_example : pos 0 ≤ℤ pos 1
unfolding rolling_update_parameters calculate_continuous_ready_replicas rolling_update_partition
    atoi label unavailable_below non_zero_value i32 ◌-ℤ◌ ◌+ℤ◌ partition_after reduce_partition
    want_replicas calculate_role_unready_replicas
rolling_update_parameters-partition_example =
    rolling_update_parameters-partition server read_states updated_role updating (pos 1) [] (pos 0)
      (pos 2) refl (omega arith) refl

-- A pod of the second replica, ready and of the latest revision.
abbrev pod_1 : Pod
pod_1 =
    let m = meta_of "llm-prefill-1" in
    record {
      meta = record m {
        labels =
            ("apps.kubernetes.io/pod-index", "1")
            ∷ ("controller-revision-hash", "llm-prefill-7d9f")
            ∷ [];
      };
      phase = "Running";
      conditions = record { type = "Ready"; status = "True" } ∷ [];
      init_container_statuses = [];
      container_statuses = [];
    }

abbrev pod_server : Client
pod_server = record server {
  list_pods = λ t ns l. ok (pod_1 ∷ []);
  list_revisions = λ t ns l. ok revisions;
}

abbrev absent : ReplicaState
absent = record { updated = false; ready = false }

abbrev labels : Labels
labels = prefill_set.meta.labels

get_replica_states-Shows_example :
    (pods : List Pod) × (x : ControllerRevision) × (pod_server.list_pods [] "default" labels
      ≡ ok pods)
    × ((highest_revision pod_server prefill_set (list pod "default" labels ∷ [])).0 ≡ ok (some x))
    × (prefill_set.replicas ≡ some (pos (length (absent ∷ new ∷ []))))
    × Shows prefill_set pods x.meta.name (absent ∷ new ∷ [])
unfolding get_replica_states place_pods place_pod set_slot empty_slots states_from state_of
    nominated_name highest_revision get_highest_revision atoi label pod_running_and_ready
get_replica_states-Shows_example =
    get_replica_states-Shows pod_server prefill_set [] (absent ∷ new ∷ []) refl
