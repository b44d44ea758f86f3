-- ===== src/Reconcile/RollOut.antt =====
-- What the end of `reconcileStatefulSet` of pkg/reconciler/sts_reconciler.go applies.
use rolebasedgroup.Prelude.{
  Bool, true, false, not, Option, none, some, ◌∷◌, ◌≡◌, ◌⊎◌, inl, inr, refl, sym, ap, ◌∙◌, subst,
  Error, Result, ok, err, panic, other, bind_ok-ok, arith,
}
use rolebasedgroup.Prelude.Int.{ℤ, pos, ◌≤ℤ◌, eq_ℤ-eq}
use rolebasedgroup.Api.{RolloutStrategy, RoleSpec, RoleBasedGroup}
use rolebasedgroup.Objects.{StatefulSet, StatefulSetApply, StatefulSetStrategy, stateful_set_config}
use rolebasedgroup.Client.{M, Client, Trace, apply, ◌>>=◌, lift, deref, wrap, wrap_result}
use rolebasedgroup.Client.Laws.{bind-run}
use rolebasedgroup.Client.Only.{Extends, Prepares}
use rolebasedgroup.Equality.{semantically_equal_stateful_set}
use rolebasedgroup.Rollout.Parameters.{rolling_update_parameters}
use rolebasedgroup.Rollout.Parameters.Bounds.{rolling_update_parameters-partition}
use rolebasedgroup.Rollout.Parameters.Calls.{rolling_update_parameters-Prepares}
use rolebasedgroup.Rollout.States.{get_replica_states}
use rolebasedgroup.Rollout.States.Calls.{get_replica_states-Prepares}
use rolebasedgroup.Library.Calls.{patch_object-applies}
use rolebasedgroup.Library.{Library}
use rolebasedgroup.Reconcile.StatefulSets.{skips, with_update, patch_stateful_set, roll_out}

skips-true :
    (equal : Bool) (partition : ℤ) (old : StatefulSet) (n : ℤ)
    → skips equal partition old n ≡ ok true
    → (equal ≡ true) × (old.replicas ≡ some n)
unfolding skips
skips-true false partition old n h = absurd (ground arith)
skips-true true partition old n h = of_fields old.partition old.replicas refl refl
  where
    of_fields :
        (p m : Option ℤ)
        → old.partition ≡ p
        → old.replicas ≡ m
        → (Path Bool true true) × (old.replicas ≡ some n)
    of_fields none m a b = absurd (ground arith)
    of_fields (some p) none a b = absurd (ground arith)
    of_fields (some p) (some m) a b = (refl, b ∙ ap some (eq_ℤ-eq m n (ground arith)))

-- The configuration that is applied is the one that was constructed, with the replicas and the
-- partition.
with_update-fields :
    (partition replicas : ℤ) (strategy : RolloutStrategy) (config c : StatefulSetApply)
    → with_update partition replicas strategy config ≡ ok c
    → (s : StatefulSetStrategy) × (s.partition ≡ partition)
      × (record config { replicas = replicas; update_strategy = some s } ≡ c)
unfolding with_update
with_update-fields partition replicas strategy config c h =
    let (u, e, q) = bind_ok-ok (deref strategy.rolling_update) _ h in
    (
      record { type = strategy.type; max_unavailable = u.max_unavailable; partition = partition },
      refl,
      ground arith,
    )

wrap_result-ok : {A : Type 0} (e : Error) (r : Result A) {a : A} → wrap_result e r ≡ ok a → r ≡ ok a
wrap_result-ok e (ok b) h = h
wrap_result-ok e (err x) h = absurd (cc)
wrap_result-ok e panic h = absurd (cc)

-- The parameters of the rolling update of a StatefulSet, for what the role asks for.
abbrev pub parameters : Client → RoleSpec → (old new : StatefulSet) → M (ℤ × ℤ)
parameters client role old new =
    rolling_update_parameters client (get_replica_states client) role (some old)
      (not (semantically_equal_stateful_set old new))

module _ (client : Client) (lib : Library) (rbg : RoleBasedGroup) where
  patch-applies :
      (strategy : RolloutStrategy) (p n : ℤ) (skipped : Bool) (config : StatefulSetApply)
      (w v : Trace)
      → patch_stateful_set client lib rbg strategy p n skipped config w ≡ (ok tt, v)
      → ((skipped ≡ true) × (v ≡ w))
        ⊎ ((c : StatefulSetApply) × (with_update p n strategy config ≡ ok c)
            × (v ≡ apply (stateful_set_config c) ∷ w))
  unfolding patch_stateful_set
  patch-applies strategy p n true config w v h = inl (refl, ap (λ r. r.1) (sym h))
  patch-applies strategy p n false config w v h =
      let (c, u, e, h1) = bind-run (lift (with_update p n strategy config)) _ w v tt h in
      inr (
        c,
        ap (λ r. r.0) e,
        patch_object-applies client lib (stateful_set_config c) u v h1
            ∙ ap (λ r. apply (stateful_set_config c) ∷ r.1) (sym e),
      )

  -- No apply, for a StatefulSet that is as it is wanted, or one, of the configuration with a
  -- partition and a number of replicas.
  abbrev pub Applied :
      StatefulSet → StatefulSetApply → StatefulSet → (n q p m : ℤ) → (w v : Trace) → Type 0
  Applied old config new n q p m w v =
      ((v ≡ w) × (semantically_equal_stateful_set old new ≡ true) × (old.replicas ≡ some n))
      ⊎ ((c : StatefulSetApply) × (s : StatefulSetStrategy) × (v
            ≡ apply (stateful_set_config c) ∷ w)
          × (record config { replicas = m; update_strategy = some s } ≡ c)
          × (s.partition ≡ p)
          × (semantically_equal_stateful_set old new ≡ true → p ≤ℤ q))

  module _ (role : RoleSpec) (strategy : RolloutStrategy) (n q : ℤ) (old : StatefulSet)
      (config : StatefulSetApply) where
    -- The end, with the parameters.
    patched :
        (new : StatefulSet) (p m : ℤ) (w v : Trace)
        → (semantically_equal_stateful_set old new ≡ true → p ≤ℤ q)
        → (lift (skips (semantically_equal_stateful_set old new) p old n) >>= λ skipped.
              patch_stateful_set client lib rbg strategy p m skipped config)
            w
          ≡ (ok tt, v)
        → Applied old config new n q p m w v
    patched new p m w v bound h =
        let (skipped, u, e, h1) =
          bind-run (lift (skips (semantically_equal_stateful_set old new) p old n)) _ w v tt h in
        let here : w ≡ u = ap (λ r. r.1) e in
        subst (λ x. Applied old config new n q p m x v) (sym here)
          (elim (patch-applies strategy p m skipped config u v h1) [
            | inl (yes_skip, same) ↦
                let (equal, count) =
                  skips-true (semantically_equal_stateful_set old new) p old n
                    (ap (λ r. r.0) e ∙ ap ok yes_skip) in
                inl (same, equal, count)
            | inr (c, made, written) ↦
                let (s, is, fields) = with_update-fields p m strategy config c made in
                inr (c, s, written, fields, is, bound)
          ])

    -- From the parameters on.
    rolled :
        (new : StatefulSet) (t v : Trace)
        → old.partition ≡ some q
        → pos 0 ≤ℤ q
        → (rolling_update_parameters client
                (get_replica_states client)
                role
                (some old)
                (not (semantically_equal_stateful_set old new))
              >>= λ p.
                  lift (skips (semantically_equal_stateful_set old new) p.0 old n) >>= λ skipped.
                  patch_stateful_set client lib rbg strategy p.0 p.1 skipped config)
            t
          ≡ (ok tt, v)
        → (p : ℤ) × (m : ℤ) × (w : Trace) × (parameters client role old new t ≡ (ok (p, m), w))
          × Extends Prepares t w
          × Applied old config new n q p m w v
    rolled new t v there low h =
        let ((p, m), w, e, h1) = bind-run (parameters client role old new) _ t v tt h in
        (
          p,
          m,
          w,
          e,
          subst (Extends Prepares t) (ap (λ r. r.1) e) (
              rolling_update_parameters-Prepares client (get_replica_states client)
                (get_replica_states-Prepares client) role old
                (not (semantically_equal_stateful_set old new)) t),
          patched new p m w v
              (λ equal.
                rolling_update_parameters-partition client (get_replica_states client) role old q t
                  p m there low
                  (subst
                    (λ b.
                      (rolling_update_parameters client (get_replica_states client) role (some old)
                        (not b) t).0
                      ≡ ok (p, m))
                    equal (ap (λ r. r.0) e)))
              h1,
        )

    pub roll_out-Applied :
        (t v : Trace)
        → old.partition ≡ some q
        → pos 0 ≤ℤ q
        → roll_out client lib rbg role strategy n old config t ≡ (ok tt, v)
        → (new : StatefulSet) × (p : ℤ) × (m : ℤ) × (w : Trace) × (lib.stateful_set_of config
            ≡ ok new)
          × (parameters client role old new t ≡ (ok (p, m), w))
          × Extends Prepares t w
          × Applied old config new n q p m w v
    unfolding roll_out
    roll_out-Applied t v there low h =
        let (_, t1, e1, h1) =
          bind-run (lift (lib.to_unstructured (stateful_set_config config))) _ t v tt h in
        let (new, t2, e2, h2) =
          bind-run
            (wrap (other "convert stsApplyConfig to sts error: %s")
              (lift (lib.stateful_set_of config)))
            _ t1 v tt h1 in
        let (p, m, w, params, grown, applied) = rolled new t2 v there low h2 in
        let same_trace : t2 ≡ t = ap (λ r. r.1) (sym e2) ∙ ap (λ r. r.1) (sym e1) in
        (
          new,
          p,
          m,
          w,
          wrap_result-ok (other "convert stsApplyConfig to sts error: %s")
              (lib.stateful_set_of config) (ap (λ r. r.0) e2),
          subst (λ x. parameters client role old new x ≡ (ok (p, m), w)) same_trace params,
          subst (λ x. Extends Prepares x w) same_trace grown,
          applied,
        )
