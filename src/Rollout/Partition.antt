-- ===== src/Rollout/Partition.antt =====
-- What `rollingUpdatePartition` of pkg/reconciler/sts_reconciler.go promises.
use rolebasedgroup.Prelude.{
  ℕ, suc, ◌+◌, ◌-◌, ◌≤◌, ◌<◌, none, some, List, ◌≡◌, ◌⊎◌, inl, inr, length, Bool-cases, arith,
}
use rolebasedgroup.Prelude.Int.{
  ℤ, pos, negsuc, pos_part, ◌-ℤ◌, ◌≤ℤ◌, leb_ℤ, min_ℤ, i32, i32-InRange,
}
use rolebasedgroup.Rollout.{
  ReplicaState, non_zero_value, calculate_continuous_ready_replicas, unavailable_below, rounds_down,
  partition_after, rolling_update_partition,
}
use rolebasedgroup.Rollout.Count.{
  disrupted, disrupted-le, disrupted_mono, disrupted-past, continuous-le-length,
  unavailable_below-some, unavailable_below-none,
}
use rolebasedgroup.Rollout.Rounds.{
  half_range, step_partition_lem, reduce_partition_lem, rounds_lem, partition_after_eq,
  rolling_update_partition_eq,
}

module _ (l : List ReplicaState) (step : ℕ) (current : ℤ) (small : length l < half_range)
    (step_small : step < half_range) where
  -- `rollingStepPartition`
  abbrev step_partition : ℕ
  step_partition = length l - calculate_continuous_ready_replicas l - step

  step_partition-le : step_partition ≤ length l
  step_partition-le = omega arith

  -- The partition before the loop gives up at most the step, less the replicas that are missing.
  disrupted_start : (u : ℕ) → disrupted l (step_partition + u) ≤ step - u
  disrupted_start u = omega (arith, disrupted-le l (step_partition + u))

  disrupted_at :
      (u i bound : ℕ)
      → disrupted l (step_partition + u) ≤ bound
      → (i ≡ suc (step_partition + u)) ⊎ (i ≡ length l)
      → disrupted l i ≤ bound
  disrupted_at u i bound h (inl e) = rw e (omega (arith, disrupted_mono l (step_partition + u)))
  disrupted_at u i bound h (inr e) = omega (arith, disrupted-past l i (omega arith))

  partition_after_lem :
      (u : ℕ)
      → u ≤ step_partition
      → (q : ℕ) × (partition_after l (pos (length l)) (pos step_partition) current u
          ≡ some (min_ℤ (pos q) current))
        × (step_partition ≤ q)
        × (disrupted l q ≤ step - u)
  partition_after_lem u bu =
      let (a, b, c) =
        rounds_lem (length l) step_partition (step_partition + u) step_partition-le (omega arith) in
      let start = disrupted_start u in
      let (q, e, low, high, d) =
        reduce_partition_lem
          (rounds_down (min_ℤ (pos (step_partition + u)) (pos (length l) -ℤ pos 1))
            (pos step_partition))
          step_partition l (step_partition + u) (step - u) a (omega arith) b start
          (disrupted_at u _ _ start c) in
      (
        q,
        partition_after_eq l (length l) step_partition u q current small (omega arith) (omega arith)
            e,
        low,
        d,
      )

  -- For fewer than 2 ^ 30 replicas and a step that is not negative and below 2 ^ 30 no index is out
  -- of range, and the new partition moves in one direction. Either it stays, or it is no lower than the step
  -- allows, and it gives up no more ready replicas of the old revision than the step, less the
  -- replicas below that are not ready.
  pub rolling_update_partition-safe :
      (u : ℕ) × (p : ℤ) × (unavailable_below step_partition l ≡ some u)
      × (rolling_update_partition l (pos (length l)) (pos step) current ≡ some p)
      × (p ≤ℤ current)
      × ((p ≡ current) ⊎ (pos step_partition ≤ℤ p) × (disrupted l (pos_part p) ≤ step - u))
  rolling_update_partition-safe =
      let (u, eu, bu) = unavailable_below-some step_partition l step_partition-le in
      let (q, e, low, d) = partition_after_lem u bu in
      let start =
        step_partition_lem (length l) (calculate_continuous_ready_replicas l) step small
          (continuous-le-length l) step_small in
      (
        u,
        min_ℤ (pos q) current,
        eu,
        rolling_update_partition_eq l (length l) step_partition u (pos step) current
            (min_ℤ (pos q) current) start eu e,
        min_le q,
        min_cases q u low d,
      )
    where
      min_le : (q : ℕ) → min_ℤ (pos q) current ≤ℤ current
      min_le q = ground arith

      min_cases :
          (q u : ℕ)
          → step_partition ≤ q
          → disrupted l q ≤ step - u
          → (min_ℤ (pos q) current ≡ current)
            ⊎ (pos step_partition ≤ℤ min_ℤ (pos q) current)
              × (disrupted l (pos_part (min_ℤ (pos q) current)) ≤ step - u)
      min_cases q u low d = elim (Bool-cases (leb_ℤ (pos q) current)) [
        | inl b ↦ inr (ground arith, rw b d)
        | inr b ↦ inl (rw b)
      ]

negative_start :
    (n c k : ℕ)
    → n < half_range
    → c ≤ n
    → k < half_range
    → non_zero_value (i32 (i32 (pos n -ℤ pos c) -ℤ negsuc k)) ≡ pos (n - c + suc k)
unfolding non_zero_value ◌-ℤ◌
negative_start n c k hn hc hk =
    ground (arith, i32-InRange (pos (n - c)), i32-InRange (pos (n - c + suc k)))

rolling_update_partition-none :
    (l : List ReplicaState) (n sp : ℕ) (step current : ℤ)
    → non_zero_value (i32 (i32 (pos n -ℤ pos (calculate_continuous_ready_replicas l)) -ℤ step))
      ≡ pos sp
    → unavailable_below sp l ≡ none
    → rolling_update_partition l (pos n) step current ≡ none
unfolding rolling_update_partition
rolling_update_partition-none l n sp step current e f = rw (e, f, rolling_update_partition)

-- For fewer than 2 ^ 30 replicas, with a negative step -(k + 1), k below 2 ^ 30, and at most k
-- replicas that are ready and updated at the end, an index runs past the states, which is a panic.
pub rolling_update_partition-out_of_range :
    (l : List ReplicaState) (k : ℕ) (current : ℤ)
    → length l < half_range
    → k < half_range
    → calculate_continuous_ready_replicas l ≤ k
    → rolling_update_partition l (pos (length l)) (negsuc k) current ≡ none
rolling_update_partition-out_of_range l k current small k_small few =
    let c = calculate_continuous_ready_replicas l in
    let most = continuous-le-length l in
    rolling_update_partition-none l (length l) (length l - c + suc k) (negsuc k) current
      (negative_start (length l) c k small most k_small)
      (unavailable_below-none (length l - c + suc k) l (omega arith))
