-- ===== src/Rollout/States/Calls.antt =====
-- The calls that `getReplicaStates` of pkg/reconciler/sts_reconciler.go makes: reads.
use rolebasedgroup.Objects.{StatefulSet}
use rolebasedgroup.Client.{Client, lift, read, deref, list, pod}
use rolebasedgroup.Client.Only.{Only, Prepares, bind-Only, no_call, one_call}
use rolebasedgroup.Rollout.Parameters.{highest_revision}
use rolebasedgroup.Rollout.Parameters.Calls.{highest_revision-Prepares}
use rolebasedgroup.Rollout.States.{slice_length, place_pods, empty_slots, get_replica_states}

pub get_replica_states-Prepares :
    (client : Client) (sts : StatefulSet) → Only Prepares (get_replica_states client sts)
unfolding get_replica_states
get_replica_states-Prepares client sts =
    bind-Only Prepares (lift (deref sts.replicas)) _ (no_call Prepares) λ replicas.
      bind-Only Prepares (lift (slice_length replicas)) _ (no_call Prepares) λ n.
        bind-Only Prepares
          (read (list pod sts.meta.namespace sts.meta.labels)
            (λ t. client.list_pods t sts.meta.namespace sts.meta.labels))
          _ (one_call Prepares (list pod sts.meta.namespace sts.meta.labels) tt)
          λ pods.
            bind-Only Prepares (lift (place_pods n pods (empty_slots n))) _ (no_call Prepares)
              λ slots.
                bind-Only Prepares (highest_revision client sts) _
                  (highest_revision-Prepares client sts) λ r. no_call Prepares
