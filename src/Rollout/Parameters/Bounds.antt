-- ===== src/Rollout/Parameters/Bounds.antt =====
-- What `rollingUpdateParameters` of pkg/reconciler/sts_reconciler.go returns: bounds of the number
-- of replicas and of the partition.
use rolebasedgroup.Prelude.{
  ℕ, ◌+◌, ◌-◌, ◌<◌, true, false, ◌&&◌, Option, none, some, List, ◌≡◌, inl, inr, refl, subst, str_eq,
  Bool-cases, leb, if◌then◌else◌, Result, ok, err, panic, arith,
}
use rolebasedgroup.Prelude.Int.{ℤ, pos, pos_part, ◌+ℤ◌, ◌-ℤ◌, ◌≤ℤ◌, eq_ℤ, min_ℤ, i32, i32-InRange}
use rolebasedgroup.Api.{RollingUpdate, RoleSpec}
use rolebasedgroup.Objects.{StatefulSet}
use rolebasedgroup.Client.{Client, Trace, M, lift, deref}
use rolebasedgroup.Client.Laws.{bind-ok}
use rolebasedgroup.Api.Helper.{label, role_size_annotation_key}
use rolebasedgroup.Rollout.Parameters.Atoi.{atoi}
use rolebasedgroup.Rollout.{
  ReplicaState, non_zero_value, rolling_update_partition, partition_after, reduce_partition,
  rounds_down, unavailable_below, calculate_continuous_ready_replicas,
}
use rolebasedgroup.Rollout.Parameters.{
  want_replicas, during_update, from_partition, with_surge, with_replicas,
  rolling_update_parameters, rolling_update_of,
}

i32_lem : (n : ℕ) → n < 2147483648 → i32 (pos n) ≡ pos n
i32_lem n h = i32-InRange (pos n) (h, omega arith)

sum_lem : (a b : ℕ) → a + b < 2147483648 → i32 (pos a +ℤ pos b) ≡ pos (a + b)
unfolding ◌+ℤ◌
sum_lem a b h = ground (arith, i32_lem (a + b) h)

rest_lem : (n : ℕ) → n < 2147483648 → non_zero_value (i32 (pos n -ℤ pos 1)) ≡ pos (n - 1)
unfolding non_zero_value ◌-ℤ◌ i32
rest_lem n h = ground arith

-- The lesser of two numbers.
abbrev pub lesser : ℕ → ℕ → ℕ
lesser a b = if leb a b then a else b

-- With a surge that is not negative, the number of replicas that is wanted is the role's and the
-- lesser of two: the surge, and the replicas that are not ready less one (none if all are ready), as
-- long as the role's number with the surge, and that of the replicas not ready, fit into an int32.
pub want_replicas-lesser :
    (role surge unready : ℕ)
    → role + surge < 2147483648
    → unready < 2147483648
    → want_replicas (pos role) (pos surge) (pos unready) ≡ pos (role + lesser surge (unready - 1))
unfolding want_replicas
want_replicas-lesser role surge unready h u = elim (Bool-cases (leb unready surge)) [
  | inl few ↦
      let least : lesser surge (unready - 1) ≡ unready - 1 = ground arith in
      rw (i32_lem surge (omega arith))
        (ground (arith, least, rest_lem unready u, sum_lem role (unready - 1) (ground arith)))
  | inr many ↦
      let least : lesser surge (unready - 1) ≡ surge = ground arith in
      rw (i32_lem surge (omega arith)) (ground (arith, least, sum_lem role surge h))
]

min_left : (a b : ℤ) → min_ℤ a b ≤ℤ a
min_left a b = ground arith

min_right : (a b : ℤ) → min_ℤ a b ≤ℤ b
min_right a b = ground arith

partition_after-current :
    (states : List ReplicaState) (n step current : ℤ) (unavailable : ℕ) (p : ℤ)
    → partition_after states n step current unavailable ≡ some p
    → p ≤ℤ current
unfolding partition_after
partition_after-current states n step current unavailable p h =
    go
      (reduce_partition
        (rounds_down (min_ℤ (i32 (step +ℤ pos unavailable)) (i32 (n -ℤ pos 1))) step)
        (pos_part step) states (i32 (step +ℤ pos unavailable)))
      refl
  where
    go :
        (o : Option ℤ)
        → reduce_partition
            (rounds_down (min_ℤ (i32 (step +ℤ pos unavailable)) (i32 (n -ℤ pos 1))) step)
            (pos_part step)
            states
            (i32 (step +ℤ pos unavailable))
          ≡ o
        → p ≤ℤ current
    go none e = absurd (ground arith)
    go (some r) e =
        let q : min_ℤ r current ≡ p = ground arith in ground (arith, min_right r current)

rolling_update_partition-current :
    (states : List ReplicaState) (n step current p : ℤ)
    → rolling_update_partition states n step current ≡ some p
    → p ≤ℤ current
unfolding rolling_update_partition
rolling_update_partition-current states n step current p h =
    go (unavailable_below (pos_part first) states) refl
  where
    first : ℤ
    first =
        non_zero_value (i32 (i32 (n -ℤ pos (calculate_continuous_ready_replicas states)) -ℤ step))

    go : (o : Option ℕ) → unavailable_below (pos_part first) states ≡ o → p ≤ℤ current
    go none e = absurd (ground arith)
    go (some k) e =
        partition_after-current states n first current k p (rw (e, rolling_update_partition) at h)

module _ (client : Client) (read_states : StatefulSet → M (List ReplicaState)) where
  during_update-partition :
      (role : RoleSpec) (u : RollingUpdate) (replicas sts_replicas surge partition original : ℤ)
      (states : List ReplicaState) (p n : ℤ)
      → during_update client read_states role u replicas sts_replicas surge partition original
          states
        ≡ ok (p, n)
      → p ≤ℤ partition
  unfolding during_update
  during_update-partition role u replicas sts_replicas surge partition original states p n h =
      elim (Bool-cases (eq_ℤ original replicas)) [
        | inr changed ↦
            let b = i32 (replicas +ℤ i32 surge) in
            let q : min_ℤ partition b ≡ p = ground arith in ground (arith, min_left partition b)
        | inl same ↦ scaled same (client.scaled_value u.max_unavailable replicas false) refl
      ]
    where
      step_of : ℤ → ℤ
      step_of unavailable = unavailable +ℤ (surge -ℤ (i32 (replicas +ℤ i32 surge) -ℤ sts_replicas))

      moved :
          (a : ℤ)
          → eq_ℤ original replicas ≡ true
          → client.scaled_value u.max_unavailable replicas false ≡ ok a
          → (o : Option ℤ)
          → rolling_update_partition states sts_replicas (i32 (step_of a)) partition ≡ o
          → p ≤ℤ partition
      moved a same e none q = absurd (ground arith)
      moved a same e (some x) q =
          let here : x ≡ p = ground arith in
          ground (
            arith,
            rolling_update_partition-current states sts_replicas (i32 (step_of a)) partition x q,
          )

      scaled :
          eq_ℤ original replicas ≡ true
          → (r : Result ℤ) → client.scaled_value u.max_unavailable replicas false ≡ r
          → p ≤ℤ partition
      scaled same (ok a) e =
          moved a same e (rolling_update_partition states sts_replicas (i32 (step_of a)) partition)
            refl
      scaled same (err x) e = absurd (ground arith)
      scaled same panic e = absurd (ground arith)

  from_partition-current :
      (role : RoleSpec) (u : RollingUpdate) (sts : StatefulSet) (replicas sts_replicas surge q : ℤ)
      (t : Trace) (p n : ℤ)
      → pos 0 ≤ℤ q
      → (from_partition client read_states role u sts replicas sts_replicas surge q t).0 ≡ ok (p, n)
      → p ≤ℤ q
  unfolding from_partition
  from_partition-current role u sts replicas sts_replicas surge q t p n low h =
      elim (Bool-cases (eq_ℤ q (pos 0) && eq_ℤ sts_replicas replicas)) [
        | inl complete ↦ ground arith
        | inr going ↦
            let (states, v, _, h1) = bind-ok (read_states sts) _ t (p, n) (rw going at h) in
            let (original, w, _, h2) =
              bind-ok (lift (atoi (label sts.meta.annotations role_size_annotation_key))) _ v (p, n)
                h1 in
            during_update-partition role u replicas sts_replicas surge q original states p n h2
      ]

  with_replicas-current :
      (role : RoleSpec) (sts : StatefulSet) (replicas q : ℤ) (t : Trace) (p n : ℤ)
      → sts.partition ≡ some q
      → pos 0 ≤ℤ q
      → (with_replicas client read_states role sts false replicas t).0 ≡ ok (p, n)
      → p ≤ℤ q
  unfolding with_replicas with_surge
  with_replicas-current role sts replicas q t p n e low h =
      elim (Bool-cases (str_eq sts.meta.uid "")) [
        | inl new ↦ ground arith
        | inr there ↦
            let (sts_replicas, t2, _, h2) =
              bind-ok (lift (deref sts.replicas)) _ t (p, n) (rw there at h) in
            let (u, t3, _, h3) =
              bind-ok (lift (rolling_update_of client read_states role)) _ t2 (p, n) h2 in
            let (surge, t4, _, h4) =
              bind-ok (lift (client.scaled_value u.max_surge replicas true)) _ t3 (p, n) h3 in
            let (r, t5, q5, h5) = bind-ok (lift (deref sts.partition)) _ t4 (p, n) h4 in
            let same : r ≡ q = ground arith in
            from_partition-current role u sts replicas sts_replicas (min_ℤ surge replicas) q t5 p n
              low
              (subst
                (λ x.
                  (from_partition client read_states role u sts replicas sts_replicas
                    (min_ℤ surge replicas) x t5).0
                  ≡ ok (p, n))
                same h5)
      ]

  -- For a StatefulSet that has a partition, not negative, and whose spec the role did not change, the
  -- partition that is returned, if any is, is at most the one that it has: it moves in one direction.
  pub rolling_update_parameters-partition :
      (role : RoleSpec) (sts : StatefulSet) (q : ℤ) (t : Trace) (p n : ℤ)
      → sts.partition ≡ some q
      → pos 0 ≤ℤ q
      → (rolling_update_parameters client read_states role (some sts) false t).0 ≡ ok (p, n)
      → p ≤ℤ q
  unfolding rolling_update_parameters
  rolling_update_parameters-partition role sts q t p n e low h =
      let (replicas, t1, _, h1) = bind-ok (lift (deref role.replicas)) _ t (p, n) h in
      with_replicas-current role sts replicas q t1 p n e low h1
