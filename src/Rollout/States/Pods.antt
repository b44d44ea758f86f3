-- ===== src/Rollout/States/Pods.antt =====
-- Which pods the states are of that `getReplicaStates` of pkg/reconciler/sts_reconciler.go returns.
use Prim.Native.String.{◌++◌ as str_append}
use rolebasedgroup.Prelude.{
  ◌&&◌, str_eq, ℕ, zero, suc, ◌+◌, ◌<◌, ◌==◌, String, Bool, true, false, Option, none, some, List,
  [], ◌∷◌, length, get_elem?, leb, ◌≡◌, refl, sym, ap, ap₂, ◌∙◌, inl, inr, Bool-cases,
  if◌then◌else◌, Result, ok, err, panic, arith,
}
use rolebasedgroup.Prelude.Decimal.{format_ℕ}
use rolebasedgroup.Restart.{pod_running_and_ready}
use rolebasedgroup.Prelude.Int.{ℤ, pos, negsuc, eq_ℤ}
use rolebasedgroup.Api.Helper.{label}
use rolebasedgroup.Objects.{ControllerRevision, StatefulSet, Pod}
use rolebasedgroup.Client.{Client, pod, list, Trace}
use rolebasedgroup.Rollout.{ReplicaState}
use rolebasedgroup.Rollout.Parameters.{highest_revision}
use rolebasedgroup.Rollout.Parameters.Atoi.{atoi}
use rolebasedgroup.Rollout.States.Length.{get_replica_states-parts, length-get_replica_states}
use rolebasedgroup.Rollout.States.{
  empty_slots, set_slot, place_pod, place_pods, nominated_name, state_of, states_from,
  with_revision, get_replica_states,
}

-- Whether the label of a pod says that it is the pod of an index.
abbrev has_index : ℕ → Pod → Bool
has_index i p = elim (atoi (label p.meta.labels "apps.kubernetes.io/pod-index")) [
  | ok z ↦ eq_ℤ z (pos i)
  | err e ↦ false
  | panic ↦ false
]

abbrev or_else : Option Pod → Option Pod → Option Pod
or_else none s = s
or_else (some p) s = some p

-- The last pod of a list that is the pod of an index.
abbrev last_at : ℕ → List Pod → Option Pod
last_at i [] = none
last_at i (p ∷ l) = or_else (last_at i l) (if has_index i p then some p else none)

or_else_lem :
    (o : Option Pod) (b : Bool) (p : Pod) (s : Option Pod)
    → or_else o (if b then some p else s) ≡ or_else (or_else o (if b then some p else none)) s
or_else_lem none true p s = refl
or_else_lem none false p s = refl
or_else_lem (some q) b p s = refl

empty_slots-get : (n i : ℕ) → i < n → get_elem? (empty_slots n) i ≡ some none
unfolding empty_slots
empty_slots-get zero i h = absurd (omega arith)
empty_slots-get (suc n) zero h = refl
empty_slots-get (suc n) (suc i) h = empty_slots-get n i (omega arith)

set_slot-get :
    (l m : List (Option Pod)) (n i : ℕ) (p : Pod) (s : Option Pod)
    → set_slot l n p ≡ ok m
    → get_elem? l i ≡ some s
    → get_elem? m i ≡ some (if n == i then some p else s)
unfolding set_slot
set_slot-get [] m n i p s h g = absurd (cc)
set_slot-get (x ∷ l) m zero zero p s h g =
    let e : (some p ∷ l) ≡ m = ground arith in ap (λ k. get_elem? k 0) (sym e)
set_slot-get (x ∷ l) m zero (suc i) p s h g =
    let e : (some p ∷ l) ≡ m = ground arith in
    ap (λ k. get_elem? k (suc i)) (sym e) ∙ g ∙ ground arith
set_slot-get (x ∷ l) m (suc n) i p s h g =
    go i g (λ k j e f. set_slot-get l k n j p s e f) (set_slot l n p) refl
  where
    go :
        (i : ℕ)
        → get_elem? (x ∷ l) i ≡ some s
        → ((k : List (Option Pod)) (j : ℕ)
            → set_slot l n p ≡ ok k
            → get_elem? l j ≡ some s
            → get_elem? k j ≡ some (if n == j then some p else s))
        → (r : Result (List (Option Pod))) → set_slot l n p ≡ r
        → get_elem? m i ≡ some (if suc n == i then some p else s)
    go zero g rest (ok k) e =
        let q : (x ∷ k) ≡ m = ground arith in ap (λ k. get_elem? k 0) (sym q) ∙ g ∙ ground arith
    go (suc i) g rest (ok k) e =
        let q : (x ∷ k) ≡ m = ground arith in
        ap (λ k. get_elem? k (suc i)) (sym q) ∙ rest k i e g ∙ ground arith
    go i g rest (err y) e = absurd (ground arith)
    go i g rest panic e = absurd (ground arith)

place_pod-get :
    (replicas i : ℕ) (p : Pod) (l m : List (Option Pod)) (s : Option Pod)
    → i < replicas
    → place_pod replicas p l ≡ ok m
    → get_elem? l i ≡ some s
    → get_elem? m i ≡ some (if has_index i p then some p else s)
unfolding place_pod
place_pod-get replicas i p l m s low h g =
    go (atoi (label p.meta.labels "apps.kubernetes.io/pod-index")) refl
  where
    go :
        (r : Result ℤ)
        → atoi (label p.meta.labels "apps.kubernetes.io/pod-index") ≡ r
        → get_elem? m i ≡ some (if has_index i p then some p else s)
    go (ok (pos n)) e = elim (Bool-cases (leb replicas n)) [
      | inl large ↦
          let same : l ≡ m = ground arith in
          ap (λ k. get_elem? k i) (sym same) ∙ g ∙ rw (e, has_index) (ground arith)
      | inr fits ↦
          let placed : set_slot l n p ≡ ok m = ground arith in
          set_slot-get l m n i p s placed g ∙ rw (e, has_index) (ground arith)
    ]
    go (ok (negsuc n)) e = absurd (ground arith)
    go (err x) e =
        let same : l ≡ m = ground arith in
        ap (λ k. get_elem? k i) (sym same) ∙ g ∙ rw (e, has_index) refl
    go panic e = absurd (ground arith)

place_pods-get :
    (replicas i : ℕ) (pods : List Pod) (l m : List (Option Pod)) (s : Option Pod)
    → i < replicas
    → place_pods replicas pods l ≡ ok m
    → get_elem? l i ≡ some s
    → get_elem? m i ≡ some (or_else (last_at i pods) s)
unfolding place_pods
place_pods-get replicas i [] l m s low h g =
    let same : l ≡ m = ground arith in ap (λ k. get_elem? k i) (sym same) ∙ g
place_pods-get replicas i (p ∷ pods) l m s low h g =
    go (λ k r e f. place_pods-get replicas i pods k m r low e f) (place_pod replicas p l) refl
  where
    go :
        ((k : List (Option Pod)) (r : Option Pod)
          → place_pods replicas pods k ≡ ok m
          → get_elem? k i ≡ some r
          → get_elem? m i ≡ some (or_else (last_at i pods) r))
        → (r : Result (List (Option Pod))) → place_pod replicas p l ≡ r
        → get_elem? m i ≡ some (or_else (last_at i (p ∷ pods)) s)
    go rest (ok k) e =
        let behind : place_pods replicas pods k ≡ ok m = ground arith in
        rest k (if has_index i p then some p else s) behind
          (place_pod-get replicas i p l k s low e g)
        ∙ ap some (or_else_lem (last_at i pods) (has_index i p) p s)
    go rest (err x) e = absurd (ground arith)
    go rest panic e = absurd (ground arith)

states_from-get :
    (name revision : String) (n i : ℕ) (l : List (Option Pod)) (s : Option Pod)
    → get_elem? l i ≡ some s
    → get_elem? (states_from name revision n l) i ≡ some (state_of name revision (n + i) s)
unfolding states_from
states_from-get name revision n i [] s h = absurd (cc)
states_from-get name revision n zero (x ∷ l) s h =
    let e : x ≡ s = ground arith in
    ap (λ y. some (state_of name revision n y)) e
    ∙ ap (λ k. some (state_of name revision k s)) (omega arith)
states_from-get name revision n (suc i) (x ∷ l) s h =
    states_from-get name revision (suc n) i l s h
    ∙ ap (λ k. some (state_of name revision k s)) (omega arith)

or_none : (o : Option Pod) → or_else o none ≡ o
or_none none = refl
or_none (some p) = refl

-- What a pod, or none, says of a replica: nothing if the pod has another name than the replica's;
-- else whether it runs and is ready, and whether it is of a revision.
abbrev pub shown : String → String → ℕ → Option Pod → ReplicaState
shown name revision i none = record { updated = false; ready = false }
shown name revision i (some p) =
    let named = str_eq (str_append name (str_append "-" (format_ℕ i))) p.meta.name in
    record {
      updated = named && str_eq (label p.meta.labels "controller-revision-hash") revision;
      ready = named && pod_running_and_ready p;
    }

state_of-shown :
    (name revision : String) (i : ℕ) (o : Option Pod)
    → state_of name revision i o ≡ shown name revision i o
unfolding state_of nominated_name
state_of-shown name revision i none = refl
state_of-shown name revision i (some p) =
    elim (Bool-cases (str_eq (str_append name (str_append "-" (format_ℕ i))) p.meta.name)) [
      | inl named ↦ rw named refl
      | inr other_name ↦ rw other_name refl
    ]

-- The state of each index is that of the last pod of the list that is the pod of the index.
abbrev pub Shows : StatefulSet → List Pod → String → List ReplicaState → Type 0
Shows sts pods revision states =
    (i : ℕ)
    → i < length states
    → get_elem? states i ≡ some (shown sts.meta.name revision i (last_at i pods))

module _ (client : Client) where
  with_revision-Shows :
      (sts : StatefulSet) (n : ℕ) (pods : List Pod) (slots : List (Option Pod))
      (r : Option ControllerRevision) (states : List ReplicaState)
      → length states ≡ n
      → place_pods n pods (empty_slots n) ≡ ok slots
      → with_revision client sts slots r ≡ ok states
      → (x : ControllerRevision) × (r ≡ some x) × Shows sts pods x.meta.name states
  unfolding with_revision
  with_revision-Shows sts n pods slots none states many placed h = absurd (ground arith)
  with_revision-Shows sts n pods slots (some x) states many placed h =
      let e : states_from sts.meta.name x.meta.name 0 slots ≡ states = ground arith in
      (
        x,
        refl,
        λ i low.
            ap (λ l. get_elem? l i) (sym e)
            ∙ states_from-get sts.meta.name x.meta.name 0 i slots (or_else (last_at i pods) none) (
                place_pods-get n i pods (empty_slots n) slots none (omega (arith, many)) placed
                  (empty_slots-get n i (omega (arith, many))))
            ∙ ap₂ (λ k o. some (state_of sts.meta.name x.meta.name k o)) (omega arith)
                (or_none (last_at i pods))
            ∙ ap some (state_of-shown sts.meta.name x.meta.name i (last_at i pods)),
      )

  -- The states that are read of a StatefulSet, if they are, are as many as its replicas, and each is
  -- that of the last pod that was listed with the label of its index, compared with the highest
  -- revision; of no such pod, or one with another name, the state is neither updated nor ready.
  pub get_replica_states-Shows :
      (sts : StatefulSet) (t : Trace) (states : List ReplicaState)
      → (get_replica_states client sts t).0 ≡ ok states
      → (pods : List Pod) × (x : ControllerRevision) × (client.list_pods t sts.meta.namespace
            sts.meta.labels
          ≡ ok pods)
        × ((highest_revision client sts (list pod sts.meta.namespace sts.meta.labels ∷ t)).0
            ≡ ok (some x))
        × (sts.replicas ≡ some (pos (length states)))
        × Shows sts pods x.meta.name states
  get_replica_states-Shows sts t states h =
      let (n, pods, slots, r, given, listed, placed, latest, made) =
        get_replica_states-parts client sts t states h in
      let given_states = length-get_replica_states client sts t states h in
      let many : length states ≡ n = ground (arith, given, given_states) in
      let (x, is, shows) = with_revision-Shows sts n pods slots r states many placed made in
      (pods, x, listed, latest ∙ ap ok is, given_states, shows)
