-- ===== src/PodGroup/Members.antt =====
-- How many members the PodGroup has that `Reconcile` of pkg/scheduler/podgroup_manager.go leaves.
use rolebasedgroup.Prelude.{
  true, some, ◌∷◌, ◌≡◌, inl, inr, refl, sym, ap, subst, ◌∙◌, Bool-cases, Result, ok, err, panic,
  is_not_found, arith,
}
use rolebasedgroup.Prelude.Int.{ℤ, eq_ℤ, eq_of_parts, i32}
use rolebasedgroup.Api.{OwnerReference, RoleBasedGroup}
use rolebasedgroup.Api.Helper.{get_group_size, enable_gang_scheduling}
use rolebasedgroup.Objects.{PodGroup}
use rolebasedgroup.Client.{
  Client, get, pod_group, create_pod_group, update_pod_group, Trace, M, lift, perform, attempt,
  ◌>>=◌,
}
use rolebasedgroup.Client.Laws.{bind-run}
use rolebasedgroup.Adapter.Scaling.{Tries, last, again, Retries}
use rolebasedgroup.PodGroup.{
  new_pod_group, try_update, update_min_member, create_or_update_pod_group, reconcile_pod_group,
  after_get, min_member, read_pod_group,
}

ok_lem : {a b : ℤ} → ok a ≡ ok b → a ≡ b
ok_lem {a} h = ap (λ r. elim r [ ok x ↦ x | err e ↦ a | panic ↦ a ]) h

module _ (client : Client) (controller_ref : RoleBasedGroup → OwnerReference) (rbg : RoleBasedGroup)
    (n : ℤ) where
  -- The PodGroup that was read has n members and nothing was written, or the last call creates or
  -- updates one to n members.
  pub data Members (t : Trace) : Trace → Type 0 where
    as_read :
        (g : PodGroup)
        → client.get_pod_group t rbg.meta.namespace rbg.meta.name ≡ ok g
        → g.min_member ≡ n
        → Members t (get pod_group rbg.meta.namespace rbg.meta.name ∷ t)
    created : (g : PodGroup) (u : Trace) → g.min_member ≡ n → Members t (create_pod_group g ∷ u)
    updated : (g : PodGroup) (u : Trace) → g.min_member ≡ n → Members t (update_pod_group g ∷ u)

  abbrev Wrote : Trace → Type 0
  Wrote v = (g : PodGroup) × (u : Trace) × (g.min_member ≡ n) × (v ≡ update_pod_group g ∷ u)

  try_update-writes :
      (s : Unit {0}) (t : Trace)
      → (try_update client controller_ref rbg n s t).0.0 ≡ ok tt
      → Wrote (try_update client controller_ref rbg n s t).1
  unfolding try_update perform
  try_update-writes s t h = go (client.get_pod_group t rbg.meta.namespace rbg.meta.name) refl
    where
      go :
          (r : Result PodGroup)
          → client.get_pod_group t rbg.meta.namespace rbg.meta.name ≡ r
          → Wrote (try_update client controller_ref rbg n s t).1
      go (ok g) e = (
        record g { min_member = n },
        get pod_group rbg.meta.namespace rbg.meta.name ∷ t,
        refl,
        rw e refl,
      )
      go (err x) e = absurd (ground arith)
      go panic e = absurd (ground arith)

  Tries-writes :
      (s : Unit {0}) (t : Trace) (r : (Result (Unit {0}) × Unit {0}) × Trace)
      → Tries (Unit {0}) (try_update client controller_ref rbg n) s t r
      → r.0.0 ≡ ok tt
      → Wrote r.1
  Tries-writes s t r (last _ _) h = try_update-writes s t h
  Tries-writes s t r (again _ s' _ t' e _ q c more) h = Tries-writes s' t' r more h

  eq_lem : (a b : ℤ) → eq_ℤ a b ≡ true → a ≡ b
  eq_lem a b h = eq_of_parts a b (ground arith)

  update-Members :
      Retries client
      → (t u v : Trace) → update_min_member client controller_ref rbg n u ≡ (ok tt, v)
      → Members t v
  unfolding update_min_member
  update-Members retries t u v h =
      let (g, w, q, e) =
        Tries-writes tt u
          (client.retry_on_conflict (Unit {0}) (try_update client controller_ref rbg n) tt u)
          (retries (Unit {0}) (try_update client controller_ref rbg n) tt u) (ap (λ p. p.0) h) in
      subst (Members t) (sym e ∙ ap (λ p. p.1) h) (updated g w q)

  new-min_member : (new_pod_group client controller_ref rbg n).min_member ≡ n
  unfolding new_pod_group
  new-min_member = refl

  after_get-Members :
      Retries client
      → (t v : Trace) (r : Result PodGroup)
      → client.get_pod_group t rbg.meta.namespace rbg.meta.name ≡ r
      → after_get client controller_ref rbg n r (get pod_group rbg.meta.namespace rbg.meta.name ∷ t)
        ≡ (ok tt, v)
      → Members t v
  unfolding after_get perform
  after_get-Members retries t v (ok g) e h = elim (Bool-cases (eq_ℤ g.min_member n)) [
    | inl same ↦
        subst (Members t) (ap (λ p. p.1) (rw same at h)) (as_read g e (eq_lem g.min_member n same))
    | inr differs ↦
        update-Members retries t (get pod_group rbg.meta.namespace rbg.meta.name ∷ t) v
          (rw differs at h)
  ]
  after_get-Members retries t v (err x) e h = elim (Bool-cases (is_not_found x)) [
    | inl missing ↦ subst (Members t) (ap (λ p. p.1) (rw missing at h)) (
        created (new_pod_group client controller_ref rbg n)
          (get pod_group rbg.meta.namespace rbg.meta.name ∷ t) new-min_member)
    | inr bad ↦ absurd (ground arith)
  ]
  after_get-Members retries t v panic e h = absurd (ground arith)

  -- For a group that is scheduled as a gang, whose size as an int32 is n, a reconciliation that
  -- succeeds found the PodGroup with n members and wrote nothing, or ends with the creation or the
  -- update of one to n members, if the library retries as it documents: its result is that of a last
  -- try, and it tries again only behind a conflict.
  pub reconcile_pod_group-Members :
      Retries client
      → (size : ℤ) (t v : Trace) → enable_gang_scheduling rbg ≡ true
      → get_group_size rbg ≡ some size
      → i32 size ≡ n
      → reconcile_pod_group client controller_ref rbg t ≡ (ok tt, v)
      → Members t v
  unfolding reconcile_pod_group create_or_update_pod_group
  reconcile_pod_group-Members retries size t v gang sized fits h =
      let (m, u, q, h1) =
        bind-run (lift (min_member client controller_ref rbg)) _ t v tt (rw gang at h) in
      let here : min_member client controller_ref rbg ≡ ok (i32 size) =
        rw (sized, min_member) refl in
      let m_n : m ≡ n = ok_lem (sym (ap (λ p. p.0) q) ∙ here) ∙ fits in
      after_get-Members retries t v (client.get_pod_group t rbg.meta.namespace rbg.meta.name) refl (
        subst (λ x. rest x t ≡ (ok tt, v)) m_n
          (subst (λ x. rest m x ≡ (ok tt, v)) (sym (ap (λ p. p.1) q)) h1))
    where
      rest : ℤ → M (Unit {0})
      rest x =
          attempt (read_pod_group client controller_ref rbg)
          >>= after_get client controller_ref rbg x
