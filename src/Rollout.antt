-- ===== src/Rollout.antt =====
-- pkg/reconciler/sts_reconciler.go, the rolling update of a StatefulSet: how far the partition
-- moves, from the states of the replicas.
pub mod Count
pub mod Rounds
pub mod Partition
pub mod Parameters
pub mod States
use mathlib.Core.List.{reverse}
use rolebasedgroup.Prelude.{
  ℕ, zero, suc, ◌+◌, ◌-◌, Bool, true, false, ◌&&◌, ◌||◌, not, Option, none, some, List, [], ◌∷◌,
  length, get_elem?, if◌then◌else◌,
}
use rolebasedgroup.Prelude.Int.{ℤ, pos, negsuc, pos_part, ◌+ℤ◌, ◌-ℤ◌, ltb_ℤ, min_ℤ, i32}

-- `replicaState`
pub record ReplicaState : Type 0 where
  pub updated : Bool
  pub ready : Bool

-- `utils.NonZeroValue`
unfoldable pub non_zero_value : ℤ → ℤ
non_zero_value value = if ltb_ℤ value (pos 0) then pos 0 else value

-- `calculateRoleUnreadyReplicas`: the rounds left, with the states from the current index on.
unready_from : ℕ → List ReplicaState → ℕ
unready_from zero states = 0
unready_from (suc n) [] = suc (unready_from n [])
unready_from (suc n) (s ∷ states) =
    (if not s.ready || not s.updated then 1 else 0) + unready_from n states

unfoldable pub calculate_role_unready_replicas : List ReplicaState → ℤ → ℤ
unfolding unready_from
calculate_role_unready_replicas states role_replicas =
    pos (unready_from (pos_part role_replicas) states)

-- `calculateContinuousReadyReplicas`: the loop runs from the last index down.
ready_from : List ReplicaState → ℕ
ready_from [] = 0
ready_from (s ∷ states) =
    let rest = ready_from states in if not s.ready || not s.updated then 0 else suc rest

unfoldable pub calculate_continuous_ready_replicas : List ReplicaState → ℕ
unfolding ready_from
calculate_continuous_ready_replicas states = ready_from (reverse states)

-- The replicas below an index that are not ready; `none` is an index out of range.
unfoldable pub unavailable_below : ℕ → List ReplicaState → Option ℕ
unavailable_below zero states = some 0
unavailable_below (suc n) [] = none
unavailable_below (suc n) (s ∷ states) = elim (unavailable_below n states) [
  | none ↦ none
  | some u ↦ some ((if s.ready then 0 else 1) + u)
]

-- The loop that reduces the partition, with the rounds left: the index is `base + rounds - 1`.
unfoldable pub reduce_partition : ℕ → ℕ → List ReplicaState → ℤ → Option ℤ
reduce_partition zero base states partition = some partition
reduce_partition (suc k) base states partition = elim (get_elem? states (base + k)) [
  | none ↦ none
  | some s ↦
      let rest = reduce_partition k base states (pos (base + k)) in
      if not s.ready || s.updated then rest else some partition
]

-- How many rounds a loop makes that counts from `from` down to `base`.
abbrev pub rounds_down : ℤ → ℤ → ℕ
rounds_down from base = pos_part (from +ℤ pos 1 -ℤ base)

-- The second half of `rollingUpdatePartition`, once the replicas that are not ready are counted.
unfoldable pub partition_after : List ReplicaState → ℤ → ℤ → ℤ → ℕ → Option ℤ
partition_after states sts_replicas step_partition current_partition unavailable =
    let partition = i32 (step_partition +ℤ pos unavailable) in
    let from = min_ℤ partition (i32 (sts_replicas -ℤ pos 1)) in
    elim (reduce_partition (rounds_down from step_partition) (pos_part step_partition) states
      partition) [ none ↦ none | some reduced ↦ some (min_ℤ reduced current_partition) ]

-- `rollingUpdatePartition`; `none` is an index out of range.
unfoldable pub rolling_update_partition : List ReplicaState → ℤ → ℤ → ℤ → Option ℤ
rolling_update_partition states sts_replicas rolling_step current_partition =
    let continuous = pos (calculate_continuous_ready_replicas states) in
    let step_partition = non_zero_value (i32 (i32 (sts_replicas -ℤ continuous) -ℤ rolling_step)) in
    elim (unavailable_below (pos_part step_partition) states) [
      | none ↦ none
      | some unavailable ↦
          partition_after states sts_replicas step_partition current_partition unavailable
    ]
