-- ===== src/Reconcile/Applies.antt =====
-- What `reconcileStatefulSet` of pkg/reconciler/sts_reconciler.go applies.
use rolebasedgroup.Prelude.{
  false, Option, none, some, ◌∷◌, ◌≡◌, refl, sym, ap, ◌∙◌, subst, str_eq, ok, arith,
}
use rolebasedgroup.Prelude.Int.{ℤ, pos, ◌≤ℤ◌}
use rolebasedgroup.Api.{RolloutStrategy, RoleSpec, RoleBasedGroup}
use rolebasedgroup.Api.Helper.{get_workload_name, get_common_annotations_from_role}
use rolebasedgroup.Objects.{StatefulSet, StatefulSetApply}
use rolebasedgroup.Client.{Client, Call, Trace, stateful_set, get, M, ◌>>=◌, lift, deref}
use rolebasedgroup.Client.Laws.{bind-run}
use rolebasedgroup.Client.Only.{
  Extends, Prepares, Only, Extends-trans, bind-Only, no_call, one_call,
}
use rolebasedgroup.Workload.{read_stateful_set}
use rolebasedgroup.Rollout.Parameters.{validate_rollout_strategy}
use rolebasedgroup.Library.{Library, read_or, found_or}
use rolebasedgroup.Template.{construct_pod_template}
use rolebasedgroup.Template.Calls.{construct_pod_template-Prepares}
use rolebasedgroup.Reconcile.{match_labels}
use rolebasedgroup.Reconcile.Selectors.{construct_stateful_set-selector}
use rolebasedgroup.Reconcile.RollOut.{Applied, parameters, roll_out-Applied}
use rolebasedgroup.Reconcile.StatefulSets.{
  empty_stateful_set, construct_stateful_set, roll_out, reconcile_stateful_set,
}

deref-ok : {A : Type 0} (o : Option A) {a : A} → deref o ≡ ok a → o ≡ some a
deref-ok none h = absurd (cc)
deref-ok (some b) h = ground arith

module _ (client : Client) (lib : Library) (rbg : RoleBasedGroup) where
  pub construct_stateful_set-Prepares :
      (role : RoleSpec) (old : StatefulSet)
      → Only Prepares (construct_stateful_set client lib rbg role old)
  unfolding construct_stateful_set
  construct_stateful_set-Prepares role old =
      let labels = match_labels old.meta old.selector rbg role in
      bind-Only Prepares (construct_pod_template client lib rbg role none labels role.template) _
        (construct_pod_template-Prepares client lib rbg role none labels role.template)
        λ p. bind-Only Prepares (lift (deref role.replicas)) _ (no_call Prepares) λ n.
          bind-Only Prepares (lift (get_common_annotations_from_role role)) _ (no_call Prepares)
            λ a. no_call Prepares

  -- What a reconciliation that found a StatefulSet does behind the trace: it constructs a
  -- configuration, gets the parameters of the rolling update, and applies once or not at all.
  abbrev pub Applies : RoleSpec → StatefulSet → (n q : ℤ) → (t v : Trace) → Type 0
  Applies role sts n q t v =
      (strategy : RolloutStrategy) × (config : StatefulSetApply) × (new : StatefulSet) × (p : ℤ)
      × (m : ℤ) × (u : Trace) × (w : Trace) × (validate_rollout_strategy client
            role.rollout_strategy n
          ≡ ok strategy)
      × (construct_stateful_set client lib rbg (record role { rollout_strategy = some strategy })
            sts (get stateful_set rbg.meta.namespace (get_workload_name rbg role) ∷ t)
          ≡ (ok config, u))
      × (config.selector ≡ sts.selector)
      × (lib.stateful_set_of config ≡ ok new)
      × (parameters client (record role { rollout_strategy = some strategy }) sts new u
          ≡ (ok (p, m), w))
      × Extends Prepares t w
      × Applied client lib rbg sts config new n q p m w v

  module _ (role : RoleSpec) (sts : StatefulSet) where
    abbrev here : Call
    here = get stateful_set rbg.meta.namespace (get_workload_name rbg role)

    -- A StatefulSet that is there is what the reconciliation finds.
    found_lem :
        (t : Trace)
        → client.get_stateful_set t rbg.meta.namespace (get_workload_name rbg role) ≡ ok sts
        → read_or empty_stateful_set (read_stateful_set client rbg role) t ≡ (ok sts, here ∷ t)
    unfolding read_or found_or
    found_lem t h = rw h refl

    -- From the read of the StatefulSet on, with the role's strategy.
    abbrev validated : RolloutStrategy → RoleSpec
    validated strategy = record role { rollout_strategy = some strategy }

    behind_validation : RolloutStrategy → ℤ → M (Unit {0})
    behind_validation strategy n =
        read_or empty_stateful_set (read_stateful_set client rbg role) >>= λ old.
        construct_stateful_set client lib rbg (validated strategy) old >>= λ config.
        roll_out client lib rbg (validated strategy) strategy n old config

    behind_validation-Applies :
        (strategy : RolloutStrategy) (n q : ℤ) (t v : Trace)
        → client.get_stateful_set t rbg.meta.namespace (get_workload_name rbg role) ≡ ok sts
        → str_eq sts.meta.uid "" ≡ false
        → sts.partition ≡ some q
        → pos 0 ≤ℤ q
        → validate_rollout_strategy client role.rollout_strategy n ≡ ok strategy
        → behind_validation strategy n t ≡ (ok tt, v)
        → Applies role sts n q t v
    unfolding behind_validation
    behind_validation-Applies strategy n q t v there exists part low valid h =
        let (config, u, e, h1) =
          bind-run (construct_stateful_set client lib rbg (validated strategy) sts) _ (here ∷ t) v
            tt (rw (found_lem t there) at h) in
        let (new, p, m, w, converted, params, grown, applied) =
          roll_out-Applied client lib rbg (validated strategy) strategy n q sts config u v part low
            h1 in
        let before : Extends Prepares (here ∷ t) u =
          subst (Extends Prepares (here ∷ t)) (ap (λ r. r.1) e)
            (construct_stateful_set-Prepares (validated strategy) sts (here ∷ t)) in
        (
          strategy,
          config,
          new,
          p,
          m,
          u,
          w,
          valid,
          e,
          construct_stateful_set-selector client lib rbg (validated strategy) (here ∷ t) sts config
              (ap (λ r. r.0) e) exists,
          converted,
          params,
          Extends-trans Prepares (one_call Prepares here tt t)
              (Extends-trans Prepares before grown),
          applied,
        )

    -- A reconciliation of a StatefulSet that exists and has a partition, not negative, if it succeeds,
    -- makes reads and the apply of the ConfigMap, and behind them at most one apply, of the
    -- StatefulSet. It makes none only if the StatefulSet equals what the role asks for and has the
    -- role's replicas. What it applies is the configuration that is constructed for the role, with its
    -- validated strategy, and for the StatefulSet that was read, whose selector it has; only the
    -- replicas and the update strategy are put into it. The replicas and the partition are the
    -- parameters of the rolling update, and the partition is at most the one there if the StatefulSet
    -- equals what the role asks for.
    pub reconcile_stateful_set-Applies :
        (q : ℤ) (t v : Trace)
        → client.get_stateful_set t rbg.meta.namespace (get_workload_name rbg role) ≡ ok sts
        → str_eq sts.meta.uid "" ≡ false
        → sts.partition ≡ some q
        → pos 0 ≤ℤ q
        → reconcile_stateful_set client lib rbg role t ≡ (ok tt, v)
        → (n : ℤ) × (role.replicas ≡ some n) × Applies role sts n q t v
    unfolding reconcile_stateful_set behind_validation
    reconcile_stateful_set-Applies q t v there exists part low h =
        let (n, t1, e1, h1) = bind-run (lift (deref role.replicas)) _ t v tt h in
        let (strategy, t2, e2, h2) =
          bind-run (lift (validate_rollout_strategy client role.rollout_strategy n)) _ t1 v tt h1 in
        (
          n,
          deref-ok role.replicas (ap (λ r. r.0) e1),
          behind_validation-Applies strategy n q t v there exists part low (ap (λ r. r.0) e2) (
              subst (λ x. behind_validation strategy n x ≡ (ok tt, v))
                (ap (λ r. r.1) (sym e2) ∙ ap (λ r. r.1) (sym e1)) h2),
        )
