-- ===== src/Rollout/Parameters/Completed.antt =====
-- Case 3 of `rollingUpdateParameters` of pkg/reconciler/sts_reconciler.go.
use rolebasedgroup.Prelude.{true, false, some, List, ◌≡◌, refl, str_eq, ok, arith}
use rolebasedgroup.Prelude.Int.{ℤ, pos, eq_ℤ}
use rolebasedgroup.Api.{RollingUpdate, RolloutStrategy, RoleSpec}
use rolebasedgroup.Objects.{StatefulSet}
use rolebasedgroup.Client.{Client, Trace, M}
use rolebasedgroup.Rollout.{ReplicaState}
use rolebasedgroup.Rollout.Parameters.{
  from_partition, with_surge, with_replicas, rolling_update_parameters,
}

eq_ℤ_refl : (n : ℤ) → eq_ℤ n n ≡ true
eq_ℤ_refl n = ground arith

module _ (client : Client) (read_states : StatefulSet → M (List ReplicaState)) where
  -- For a StatefulSet whose update is over, with the role's replicas, the partition stays 0 and the
  -- replicas stay what they are, and no state of a replica is read.
  pub rolling_update_parameters-completed :
      (role : RoleSpec) (sts : StatefulSet) (strategy : RolloutStrategy) (u : RollingUpdate)
      (n surge : ℤ) (t : Trace)
      → role.replicas ≡ some n
      → role.rollout_strategy ≡ some strategy
      → strategy.rolling_update ≡ some u
      → client.scaled_value u.max_surge n true ≡ ok surge
      → str_eq sts.meta.uid "" ≡ false
      → sts.replicas ≡ some n
      → sts.partition ≡ some (pos 0)
      → rolling_update_parameters client read_states role (some sts) false t ≡ (ok (pos 0, n), t)
  unfolding rolling_update_parameters with_replicas with_surge from_partition
  rolling_update_parameters-completed role sts strategy u n surge t r s up scaled there m p =
      rw r (rw there (rw m (rw s (rw up (rw scaled (rw p (rw (eq_ℤ_refl n) refl)))))))
