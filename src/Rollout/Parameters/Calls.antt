-- ===== src/Rollout/Parameters/Calls.antt =====
-- The calls that `rollingUpdateParameters` of pkg/reconciler/sts_reconciler.go makes: reads.
use rolebasedgroup.Prelude.{Bool, true, some, List, ◌&&◌, str_eq}
use rolebasedgroup.Prelude.Int.{ℤ, pos, eq_ℤ, min_ℤ}
use rolebasedgroup.Api.{RoleSpec, RollingUpdate}
use rolebasedgroup.Api.Helper.{label, role_size_annotation_key}
use rolebasedgroup.Objects.{StatefulSet}
use rolebasedgroup.Client.{Client, M, pure, lift, read, deref, list, revision}
use rolebasedgroup.Client.Only.{Only, Prepares, bind-Only, no_call, one_call, if-Only}
use rolebasedgroup.Rollout.{ReplicaState}
use rolebasedgroup.Rollout.Parameters.Atoi.{atoi}
use rolebasedgroup.Rollout.Parameters.{
  highest_revision, want_replicas, from_partition, with_surge, with_replicas,
  rolling_update_parameters, rolling_update_of,
}

pub highest_revision-Prepares :
    (client : Client) (sts : StatefulSet) → Only Prepares (highest_revision client sts)
unfolding highest_revision
highest_revision-Prepares client sts =
    bind-Only Prepares
      (read (list revision sts.meta.namespace sts.meta.labels)
        (λ t. client.list_revisions t sts.meta.namespace sts.meta.labels))
      _ (one_call Prepares (list revision sts.meta.namespace sts.meta.labels) tt)
      λ l. no_call Prepares

module _ (client : Client) (read_states : StatefulSet → M (List ReplicaState))
    (reads : (s : StatefulSet) → Only Prepares (read_states s)) (role : RoleSpec)
    (sts : StatefulSet) where
  from_partition-Prepares :
      (u : RollingUpdate) (role_replicas sts_replicas max_surge partition : ℤ)
      → Only Prepares (
          from_partition client read_states role u sts role_replicas sts_replicas max_surge
            partition)
  unfolding from_partition
  from_partition-Prepares u role_replicas sts_replicas max_surge partition =
      if-Only Prepares (eq_ℤ partition (pos 0) && eq_ℤ sts_replicas role_replicas)
        (pure (pos 0, role_replicas)) _ (no_call Prepares)
        (bind-Only Prepares (read_states sts) _ (reads sts) λ states.
          bind-Only Prepares (lift (atoi (label sts.meta.annotations role_size_annotation_key))) _
            (no_call Prepares) λ original. no_call Prepares)

  with_replicas-Prepares :
      (updated : Bool) (role_replicas : ℤ)
      → Only Prepares (with_replicas client read_states role sts updated role_replicas)
  unfolding with_replicas with_surge
  with_replicas-Prepares updated role_replicas =
      if-Only Prepares (str_eq sts.meta.uid "") (pure (pos 0, role_replicas)) _ (no_call Prepares) (
        bind-Only Prepares (lift (deref sts.replicas)) _ (no_call Prepares) λ n.
          bind-Only Prepares (lift (rolling_update_of client read_states role)) _ (no_call Prepares)
            λ u.
              bind-Only Prepares (lift (client.scaled_value u.max_surge role_replicas true)) _
                (no_call Prepares)
                λ surge.
                  if-Only Prepares updated
                    (pure (
                      min_ℤ role_replicas n,
                      want_replicas role_replicas (min_ℤ surge role_replicas) role_replicas,
                    ))
                    _ (no_call Prepares)
                    (bind-Only Prepares (lift (deref sts.partition)) _ (no_call Prepares)
                      (from_partition-Prepares u role_replicas n (min_ℤ surge role_replicas))))

  pub rolling_update_parameters-Prepares :
      (updated : Bool)
      → Only Prepares (rolling_update_parameters client read_states role (some sts) updated)
  unfolding rolling_update_parameters
  rolling_update_parameters-Prepares updated =
      bind-Only Prepares (lift (deref role.replicas)) _ (no_call Prepares)
        (with_replicas-Prepares updated)
