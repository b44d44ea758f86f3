-- ===== src/Rollout/States/Length.antt =====
-- How many states `getReplicaStates` of pkg/reconciler/sts_reconciler.go returns.
use rolebasedgroup.Prelude.{
  ℕ, zero, suc, String, Option, none, some, List, [], ◌∷◌, length, leb, ◌≡◌, refl, sym, ap, ◌∙◌,
  subst, inl, inr, Bool-cases, Result, ok, err, panic, arith,
}
use rolebasedgroup.Prelude.Int.{ℤ, pos, negsuc}
use rolebasedgroup.Api.Helper.{label}
use rolebasedgroup.Objects.{ControllerRevision, StatefulSet, Pod}
use rolebasedgroup.Client.{Client, pod, list, Trace, lift, deref, read}
use rolebasedgroup.Client.Laws.{bind-ok}
use rolebasedgroup.Rollout.{ReplicaState}
use rolebasedgroup.Rollout.Parameters.{highest_revision}
use rolebasedgroup.Rollout.Parameters.Atoi.{atoi}
use rolebasedgroup.Rollout.States.{
  empty_slots, set_slot, place_pod, place_pods, states_from, slice_length, with_revision,
  get_replica_states,
}

length-empty_slots : (n : ℕ) → length (empty_slots n) ≡ n
unfolding empty_slots
length-empty_slots zero = refl
length-empty_slots (suc n) = ap suc (length-empty_slots n)

length-states_from :
    (name revision : String) (n : ℕ) (l : List (Option Pod))
    → length (states_from name revision n l) ≡ length l
unfolding states_from
length-states_from name revision n [] = refl
length-states_from name revision n (s ∷ l) = ap suc (length-states_from name revision (suc n) l)

length-set_slot :
    (l m : List (Option Pod)) (n : ℕ) (p : Pod) → set_slot l n p ≡ ok m → length m ≡ length l
unfolding set_slot
length-set_slot [] m n p h = absurd (cc)
length-set_slot (s ∷ l) m zero p h = ground arith
length-set_slot (s ∷ l) m (suc n) p h = go (λ k e. length-set_slot l k n p e) (set_slot l n p) refl
  where
    go :
        ((k : List (Option Pod)) → set_slot l n p ≡ ok k → length k ≡ length l)
        → (r : Result (List (Option Pod))) → set_slot l n p ≡ r
        → length m ≡ length (s ∷ l)
    go same (ok k) e = ground (arith, same k e)
    go same (err x) e = absurd (ground arith)
    go same panic e = absurd (ground arith)

length-place_pod :
    (replicas : ℕ) (p : Pod) (l m : List (Option Pod))
    → place_pod replicas p l ≡ ok m
    → length m ≡ length l
unfolding place_pod
length-place_pod replicas p l m h =
    go (atoi (label p.meta.labels "apps.kubernetes.io/pod-index")) refl
  where
    go :
        (r : Result ℤ)
        → atoi (label p.meta.labels "apps.kubernetes.io/pod-index") ≡ r
        → length m ≡ length l
    go (ok (pos n)) e = elim (Bool-cases (leb replicas n)) [
      | inl large ↦ ground arith
      | inr fits ↦
          let placed : set_slot l n p ≡ ok m = ground arith in length-set_slot l m n p placed
    ]
    go (ok (negsuc n)) e = absurd (ground arith)
    go (err x) e = ground arith
    go panic e = absurd (ground arith)

length-place_pods :
    (replicas : ℕ) (pods : List Pod) (l m : List (Option Pod))
    → place_pods replicas pods l ≡ ok m
    → length m ≡ length l
unfolding place_pods
length-place_pods replicas [] l m h = ground arith
length-place_pods replicas (p ∷ pods) l m h =
    go (λ k e. length-place_pods replicas pods k m e) (place_pod replicas p l) refl
  where
    go :
        ((k : List (Option Pod)) → place_pods replicas pods k ≡ ok m → length m ≡ length k)
        → (r : Result (List (Option Pod))) → place_pod replicas p l ≡ r
        → length m ≡ length l
    go rest (ok k) e =
        let behind : place_pods replicas pods k ≡ ok m = ground arith in
        rest k behind ∙ length-place_pod replicas p l k e
    go rest (err x) e = absurd (ground arith)
    go rest panic e = absurd (ground arith)

deref_lem : (o : Option ℤ) (z : ℤ) → deref o ≡ ok z → o ≡ some z
deref_lem none z h = absurd (ground arith)
deref_lem (some x) z h = ground arith

module _ (client : Client) where
  length-with_revision :
      (sts : StatefulSet) (slots : List (Option Pod)) (r : Option ControllerRevision)
      (states : List ReplicaState)
      → with_revision client sts slots r ≡ ok states
      → length states ≡ length slots
  unfolding with_revision
  length-with_revision sts slots none states h = absurd (ground arith)
  length-with_revision sts slots (some r) states h =
      let e : states_from sts.meta.name r.meta.name 0 slots ≡ states = ground arith in
      ap length (sym e) ∙ length-states_from sts.meta.name r.meta.name 0 slots

  slice_length-pos : (z : ℤ) (n : ℕ) → slice_length z ≡ ok n → z ≡ pos n
  slice_length-pos (pos m) n h = ground arith
  slice_length-pos (negsuc m) n h = absurd (ground arith)

  -- What the states are made of that are read.
  pub get_replica_states-parts :
      (sts : StatefulSet) (t : Trace) (states : List ReplicaState)
      → (get_replica_states client sts t).0 ≡ ok states
      → (n : ℕ) × (pods : List Pod) × (slots : List (Option Pod)) × (r : Option ControllerRevision)
        × (sts.replicas ≡ some (pos n))
        × (client.list_pods t sts.meta.namespace sts.meta.labels ≡ ok pods)
        × (place_pods n pods (empty_slots n) ≡ ok slots)
        × ((highest_revision client sts (list pod sts.meta.namespace sts.meta.labels ∷ t)).0 ≡ ok r)
        × (with_revision client sts slots r ≡ ok states)
  unfolding get_replica_states
  get_replica_states-parts sts t states h =
      let (z, t1, q1, h1) = bind-ok (lift (deref sts.replicas)) _ t states h in
      let (n, t2, q2, h2) = bind-ok (lift (slice_length z)) _ t1 states h1 in
      let (pods, t3, q3, h3) =
        bind-ok
          (read (list pod sts.meta.namespace sts.meta.labels)
            (λ t. client.list_pods t sts.meta.namespace sts.meta.labels))
          _ t2 states h2 in
      let (slots, t4, q4, h4) = bind-ok (lift (place_pods n pods (empty_slots n))) _ t3 states h3 in
      let (r, t5, q5, h5) = bind-ok (highest_revision client sts) _ t4 states h4 in
      let unchanged : t2 ≡ t = sym (ap (λ p. p.1) q1 ∙ ap (λ p. p.1) q2) in
      let behind_list : t4 ≡ list pod sts.meta.namespace sts.meta.labels ∷ t =
        sym (ap (λ p. p.1) q3 ∙ ap (λ p. p.1) q4)
        ∙ ap (λ x. list pod sts.meta.namespace sts.meta.labels ∷ x) unchanged in
      (
        n,
        pods,
        slots,
        r,
        deref_lem sts.replicas z (ap (λ p. p.0) q1)
            ∙ ap some (slice_length-pos z n (ap (λ p. p.0) q2)),
        subst (λ x. client.list_pods x sts.meta.namespace sts.meta.labels ≡ ok pods) unchanged
            (ap (λ p. p.0) q3),
        ap (λ p. p.0) q4,
        subst (λ x. (highest_revision client sts x).0 ≡ ok r) behind_list (ap (λ p. p.0) q5),
        h5,
      )

  -- The states that are read are as many as the replicas.
  pub length-get_replica_states :
      (sts : StatefulSet) (t : Trace) (states : List ReplicaState)
      → (get_replica_states client sts t).0 ≡ ok states
      → sts.replicas ≡ some (pos (length states))
  length-get_replica_states sts t states h =
      let (n, pods, slots, r, given, listed, placed, latest, made) =
        get_replica_states-parts sts t states h in
      given
      ∙ ap (λ k. some (pos k))
          (sym (
            length-with_revision sts slots r states made
            ∙ length-place_pods n pods (empty_slots n) slots placed
            ∙ length-empty_slots n))
