-- ===== src/Rollout/Parameters.antt =====
-- `validateRolloutStrategy`, `rollingUpdateParameters` and `getHighestRevision` of
-- pkg/reconciler/sts_reconciler.go, with `GetHighestRevision` of pkg/utils/revision_utils.go: the
-- partition and the number of replicas that a StatefulSet gets. What `intstr` makes of a number or
-- a percentage is the client record's `scaled_value`; its answers are Go ints.
pub mod Atoi
pub mod Bounds
pub mod Choices
pub mod Calls
pub mod Completed
use rolebasedgroup.Prelude.{
  bind_ok, String, Bool, true, false, ◌&&◌, not, Option, none, some, List, [], ◌∷◌, str_eq,
  if◌then◌else◌, Result, ok, err, panic, other,
}
use rolebasedgroup.Prelude.Int.{ℤ, pos, negsuc, ◌+ℤ◌, ◌-ℤ◌, leb_ℤ, ltb_ℤ, eq_ℤ, min_ℤ, i32}
use rolebasedgroup.Api.{
  IntOrString, from_int, from_string, RollingUpdate, RolloutStrategy, RoleSpec,
}
use rolebasedgroup.Api.Helper.{label, role_size_annotation_key}
use rolebasedgroup.Objects.{StatefulSet, ControllerRevision}
use rolebasedgroup.Client.{
  Client, revision, Call, list, Trace, Io, M, ◌>>=◌, ◌>>◌, pure, lift, fail, deref, read,
  bind_result,
}
use rolebasedgroup.Rollout.{
  ReplicaState, non_zero_value, calculate_role_unready_replicas, rolling_update_partition,
}
use rolebasedgroup.Rollout.Parameters.Atoi.{atoi}

abbrev pub default_strategy : RolloutStrategy
default_strategy = record {
  type = "RollingUpdate";
  rolling_update =
      some (record { max_unavailable = from_int (pos 1); max_surge = from_int (pos 0) });
}

-- The closure `wantReplicas`, from the variables `roleReplicas` and `maxSurge`. The conversions are
-- to int32.
unfoldable pub want_replicas : ℤ → ℤ → ℤ → ℤ
want_replicas role_replicas max_surge unready =
    if leb_ℤ unready (i32 max_surge)
    then i32 (role_replicas +ℤ non_zero_value (i32 (unready -ℤ pos 1)))
    else i32 (role_replicas +ℤ i32 max_surge)

-- `utils.GetHighestRevision`, with the variables of its loop.
highest_from : ℤ → Option ControllerRevision → List ControllerRevision → Option ControllerRevision
highest_from max best [] = best
highest_from max best (r ∷ l) =
    if leb_ℤ max r.revision then highest_from r.revision (some r) l else highest_from max best l

unfoldable pub get_highest_revision : List ControllerRevision → Option ControllerRevision
unfolding highest_from
get_highest_revision l = highest_from (pos 0) none l

module _ (client : Client) where
  -- `utils.ListRevisions`: those that the StatefulSet controls, and those that nothing controls.
  owned_revisions : String → List ControllerRevision → List ControllerRevision
  owned_revisions uid [] = []
  owned_revisions uid (r ∷ l) = elim (client.controller_uid r.meta.owner_references) [
    | none ↦ r ∷ owned_revisions uid l
    | some o ↦ if str_eq o uid then r ∷ owned_revisions uid l else owned_revisions uid l
  ]

  -- `getHighestRevision`; labels that make no selector are an error of the list.
  unfoldable pub highest_revision : StatefulSet → M (Option ControllerRevision)
  unfolding owned_revisions
  highest_revision sts = do
    l ←
        read (list revision sts.meta.namespace sts.meta.labels)
          (λ t. client.list_revisions t sts.meta.namespace sts.meta.labels)
    pure (get_highest_revision (owned_revisions sts.meta.uid l))

  -- `validateRolloutStrategy`
  unfoldable pub validate_rollout_strategy : Option RolloutStrategy → ℤ → Result RolloutStrategy
  validate_rollout_strategy none replicas = ok default_strategy
  validate_rollout_strategy (some s) replicas = elim s.rolling_update [
    | none ↦ ok default_strategy
    | some u ↦ bind_ok (client.scaled_value u.max_surge replicas true) λ surge.
        bind_ok (client.scaled_value u.max_unavailable replicas false) λ unavailable.
          if eq_ℤ unavailable (pos 0) && eq_ℤ surge (pos 0)
          then err (
              other
                "RollingUpdate is invalid: rolloutStrategy.rollingUpdate.maxUnavailable may not be 0 when maxSurge is 0")
          else ok s
  ]

  -- `rollingUpdateParameters`; how the states of the replicas are read, by `getReplicaStates`, is an
  -- argument. The result is the partition and the number of replicas.
  module _ (read_states : StatefulSet → M (List ReplicaState)) where
    abbrev rolling_update_of : RoleSpec → Result RollingUpdate
    rolling_update_of role = bind_ok (deref role.rollout_strategy) λ s. deref s.rolling_update

    -- Cases 4 and 5.
    during_update :
        RoleSpec → RollingUpdate → ℤ → ℤ → ℤ → ℤ → ℤ → List ReplicaState → Result (ℤ × ℤ)
    during_update role u role_replicas sts_replicas max_surge partition original states =
        let burst = i32 (role_replicas +ℤ i32 max_surge) in
        let unready = calculate_role_unready_replicas states role_replicas in
        let replicas = want_replicas role_replicas max_surge unready in
        if not (eq_ℤ original role_replicas)
        then ok (min_ℤ partition burst, replicas)
        else bind_ok (client.scaled_value u.max_unavailable role_replicas false) λ unavailable.
          let step = unavailable +ℤ (max_surge -ℤ (burst -ℤ sts_replicas)) in
          bind_ok (deref (rolling_update_partition states sts_replicas (i32 step) partition))
            λ p. ok (p, replicas)

    -- Case 3, and what is read for the cases behind it.
    from_partition : RoleSpec → RollingUpdate → StatefulSet → ℤ → ℤ → ℤ → ℤ → M (ℤ × ℤ)
    unfolding during_update
    from_partition role u sts role_replicas sts_replicas max_surge partition =
        let rest = read_states sts >>= λ states.
        lift (atoi (label sts.meta.annotations role_size_annotation_key)) >>= λ original.
        lift
          (during_update role u role_replicas sts_replicas max_surge partition original states) in
        if eq_ℤ partition (pos 0) && eq_ℤ sts_replicas role_replicas
        then pure (pos 0, role_replicas)
        else rest

    -- Case 2, and the partition for the cases behind it.
    with_surge : RoleSpec → RollingUpdate → StatefulSet → Bool → ℤ → ℤ → ℤ → M (ℤ × ℤ)
    unfolding from_partition
    with_surge role u sts sts_updated role_replicas sts_replicas max_surge =
        if sts_updated
        then pure
            (min_ℤ role_replicas sts_replicas, want_replicas role_replicas max_surge role_replicas)
        else lift (deref sts.partition) >>= λ partition.
            from_partition role u sts role_replicas sts_replicas max_surge partition

    -- Case 1, for an empty StatefulSet, and what is read for the cases behind it.
    with_replicas : RoleSpec → StatefulSet → Bool → ℤ → M (ℤ × ℤ)
    unfolding with_surge
    with_replicas role sts sts_updated role_replicas =
        if str_eq sts.meta.uid "" then pure (pos 0, role_replicas) else (do
          sts_replicas ← lift (deref sts.replicas)
          u ← lift (rolling_update_of role)
          surge ← lift (client.scaled_value u.max_surge role_replicas true)
          with_surge role u sts sts_updated role_replicas sts_replicas (min_ℤ surge role_replicas))

    -- `none` stands for a StatefulSet that is nil.
    unfoldable pub rolling_update_parameters : RoleSpec → Option StatefulSet → Bool → M (ℤ × ℤ)
    unfolding with_replicas
    rolling_update_parameters role none sts_updated =
        lift (deref role.replicas) >>= λ role_replicas. pure (pos 0, role_replicas)
    rolling_update_parameters role (some sts) sts_updated =
        lift (deref role.replicas) >>= with_replicas role sts sts_updated
