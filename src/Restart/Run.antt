-- ===== src/Restart/Run.antt =====
-- The restart of a group, `restartRBG` of internal/controller/workloads/pod_controller.go, that
-- ends without an error.
use rolebasedgroup.Prelude.{
  Bool, true, false, List, [], ◌∷◌, ◌≡◌, refl, sym, ap, subst, ◌∙◌, if◌then◌else◌, Result, ok, err,
  panic, arith,
}
use rolebasedgroup.Api.{RoleSpec, RoleBasedGroup}
use rolebasedgroup.Client.{Client, Call, patch_group_status, Trace, lift, perform}
use rolebasedgroup.Client.Laws.{bind-run}
use rolebasedgroup.Dependency.Sort.{sort_roles}
use rolebasedgroup.Status.{restart_condition_true}
use rolebasedgroup.Status.Laws.{set_condition-restart}
use rolebasedgroup.Workload.{WorkloadKind, new_workload_reconciler}
use rolebasedgroup.Workload.Recreate.{recreate_workload}
use rolebasedgroup.Restart.{
  restart_condition, with_restart_condition, set_restart_condition, recreate_roles, restart_rbg,
}

ok_lem : {a b : RoleBasedGroup} → ok a ≡ ok b → a ≡ b
ok_lem {a} h = ap (λ r. elim r [ ok x ↦ x | err e ↦ a | panic ↦ a ]) h

module _ (client : Client) where
  -- The workloads of some roles are recreated, one after the other.
  pub data Recreated (rbg : RoleBasedGroup) : List RoleSpec → Trace → Trace → Type 0 where
    start : (t : Trace) → Recreated rbg [] t t
    step :
        (role : RoleSpec) (roles : List RoleSpec) (kind : WorkloadKind) (t u v : Trace)
        → new_workload_reconciler role.workload ≡ ok kind
        → recreate_workload client kind rbg role t ≡ (ok tt, u)
        → Recreated rbg roles u v
        → Recreated rbg (role ∷ roles) t v

  recreate_roles-Recreated :
      (rbg : RoleBasedGroup) (roles : List RoleSpec) (t u : Trace)
      → recreate_roles client rbg roles t ≡ (ok tt, u)
      → Recreated rbg roles t u
  unfolding recreate_roles
  recreate_roles-Recreated rbg [] t u h =
      subst (λ x. Recreated rbg [] t x) (ap (λ p. p.1) h) (start t)
  recreate_roles-Recreated rbg (role ∷ roles) t u h =
      let (kind, v, k, h1) = bind-run (lift (new_workload_reconciler role.workload)) _ t u tt h in
      let (_, w, q, h2) = bind-run (recreate_workload client kind rbg role) _ v u tt h1 in
      let same : t ≡ v = ap (λ p. p.1) k in
      step role roles kind t w u (ap (λ p. p.0) k)
        (ap (λ x. recreate_workload client kind rbg role x) same ∙ q)
        (recreate_roles-Recreated rbg roles w u h2)

  sort_lem :
      (rbg g : RoleBasedGroup)
      → g ≡ with_restart_condition client rbg false
      → sort_roles rbg.roles ≡ sort_roles g.roles
  unfolding with_restart_condition
  sort_lem rbg g e = ap (λ (x : RoleBasedGroup). sort_roles x.roles) (sym e)

  abbrev pub status_call : RoleBasedGroup → Bool → Call
  status_call rbg completed =
      patch_group_status rbg.meta.namespace rbg.meta.name
        (with_restart_condition client rbg completed).status

  set_restart_condition-calls :
      (rbg g : RoleBasedGroup) (completed : Bool) (t u : Trace)
      → set_restart_condition client rbg completed t ≡ (ok g, u)
      → (g ≡ with_restart_condition client rbg completed) × (u ≡ status_call rbg completed ∷ t)
  unfolding set_restart_condition perform
  set_restart_condition-calls rbg g completed t u h =
      go (client.write t (status_call rbg completed)) refl
    where
      go :
          (r : Result (Unit {0}))
          → client.write t (status_call rbg completed) ≡ r
          → (g ≡ with_restart_condition client rbg completed) × (u ≡ status_call rbg completed ∷ t)
      go (ok _) e = let q = rw e at h in (ok_lem (sym (ap (λ p. p.0) q)), sym (ap (λ p. p.1) q))
      go (err x) e = absurd (ground arith)
      go panic e = absurd (ground arith)

  shown :
      (rbg : RoleBasedGroup) (completed : Bool)
      → restart_condition_true (with_restart_condition client rbg completed).status.conditions
        ≡ (if completed then false else true)
  unfolding with_restart_condition restart_condition
  shown rbg true = set_condition-restart (restart_condition true) rbg.status.conditions
  shown rbg false = set_condition-restart (restart_condition false) rbg.status.conditions

  -- A restart that succeeds first writes a status in which the group restarts, then recreates the
  -- workload of every role, in the order of their dependencies, and at last writes a status in which
  -- it does not restart any more.
  pub restart_rbg-runs :
      (rbg : RoleBasedGroup) (t v : Trace)
      → restart_rbg client rbg t ≡ (ok tt, v)
      → (sorted : List RoleSpec) × (u : Trace) × (sort_roles rbg.roles ≡ ok sorted)
        × Recreated (with_restart_condition client rbg false) sorted (status_call rbg false ∷ t) u
        × (v ≡ status_call (with_restart_condition client rbg false) true ∷ u)
        × (restart_condition_true (with_restart_condition client rbg false).status.conditions
            ≡ true)
        × (restart_condition_true
              (with_restart_condition client
                (with_restart_condition client rbg false)
                true).status.conditions
            ≡ false)
  unfolding restart_rbg
  restart_rbg-runs rbg t v h =
      let (started, t1, q1, h1) = bind-run (set_restart_condition client rbg false) _ t v tt h in
      let (e1, e2) = set_restart_condition-calls rbg started false t t1 q1 in
      let (sorted, t2, q2, h2) = bind-run (lift (sort_roles started.roles)) _ t1 v tt h1 in
      let (_, t3, q3, h3) = bind-run (recreate_roles client started sorted) _ t2 v tt h2 in
      let (g, t4, q4, h4) = bind-run (set_restart_condition client started true) _ t3 v tt h3 in
      let (e3, e4) = set_restart_condition-calls started g true t3 t4 q4 in
      let run = recreate_roles-Recreated started sorted t2 t3 q3 in
      let same : t2 ≡ status_call rbg false ∷ t = sym (ap (λ p. p.1) q2) ∙ e2 in
      (
        sorted,
        t3,
        sort_lem rbg started e1 ∙ ap (λ p. p.0) q2,
        subst (λ x. Recreated x sorted (status_call rbg false ∷ t) t3) e1
            (subst (λ x. Recreated started sorted x t3) same run),
        sym (ap (λ p. p.1) h4) ∙ e4 ∙ ap (λ x. status_call x true ∷ t3) e1,
        shown rbg false,
        shown (with_restart_condition client rbg false) true,
      )
