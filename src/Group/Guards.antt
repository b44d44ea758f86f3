-- ===== src/Group/Guards.antt =====
-- What `Reconcile` of internal/controller/workloads/rolebasedgroup_controller.go does around its
-- loop over the roles.
use rolebasedgroup.Prelude.{
  Bool, false, List, [], ◌∷◌, map, ◌≡◌, refl, ap, ap₂, subst, if◌then◌else◌, Result, ok, err, panic,
  arith,
}
use rolebasedgroup.Api.{OwnerReference, RoleSpec, RoleStatus, RoleBasedGroup}
use rolebasedgroup.Client.{Client, Trace, pure}
use rolebasedgroup.Client.Laws.{bind-run}
use rolebasedgroup.Dependency.Sort.{role_names}
use rolebasedgroup.PodGroup.{reconcile_pod_group}
use rolebasedgroup.Workload.{WorkloadReconciler, WorkloadKind, new_workload_reconciler}
use rolebasedgroup.Workload.Named.{Named}
use rolebasedgroup.Group.{
  finished, RolesEnd, all_done, waiting, reconcile_role, reconcile_roles, finish, reconcile_watched,
  reconcile_scaling_adapter,
}
use rolebasedgroup.Group.Run.{
  Reconciled, start, step, Stops, Ends, at_end, at_role, reconcile_roles-ends, not_ready,
  check_failed, check_panics, role_failed, role_panics,
}

module _ (client : Client) (workload : WorkloadKind → WorkloadReconciler)
    (controller_ref : RoleBasedGroup → OwnerReference) where
  module _ (rbg : RoleBasedGroup) where
    -- A status that a role's reconciliation returns bears the role's name.
    reconcile_role-name :
        ((kind : WorkloadKind) → Named (workload kind))
        → (role : RoleSpec) (t : Trace) (s : RoleStatus × Bool)
        → (reconcile_role client workload rbg role t).0 ≡ ok s
        → s.0.name ≡ role.name
    unfolding reconcile_role
    reconcile_role-name named role t s h = of_kind (new_workload_reconciler role.workload) refl
      where
        read_adapter :
            (kind : WorkloadKind) (u : Trace) (p : Result (Unit {0}) × Trace)
            → new_workload_reconciler role.workload ≡ ok kind
            → (workload kind).reconcile rbg role t ≡ (ok tt, u)
            → reconcile_scaling_adapter client rbg role u ≡ p
            → s.0.name ≡ role.name
        read_adapter kind u (ok _, v) k q a = (named kind).named rbg role v s (rw (k, q, a) at h)
        read_adapter kind u (err e, v) k q a = absurd (ground arith)
        read_adapter kind u (panic, v) k q a = absurd (ground arith)

        reconciled :
            (kind : WorkloadKind) (p : Result (Unit {0}) × Trace)
            → new_workload_reconciler role.workload ≡ ok kind
            → (workload kind).reconcile rbg role t ≡ p
            → s.0.name ≡ role.name
        reconciled kind (ok _, u) k q =
            read_adapter kind u (reconcile_scaling_adapter client rbg role u) k q refl
        reconciled kind (err e, u) k q = absurd (ground arith)
        reconciled kind (panic, u) k q = absurd (ground arith)

        of_kind :
            (r : Result WorkloadKind)
            → new_workload_reconciler role.workload ≡ r
            → s.0.name ≡ role.name
        of_kind (ok kind) k = reconciled kind ((workload kind).reconcile rbg role t) k refl
        of_kind (err e) k = absurd (ground arith)
        of_kind panic k = absurd (ground arith)

    -- The statuses of roles that were reconciled bear the roles' names.
    Reconciled-names :
        ((kind : WorkloadKind) → Named (workload kind))
        → (roles : List RoleSpec) (statuses : List RoleStatus) (t u : Trace)
        → Reconciled client workload rbg roles statuses t u
        → map (λ s. s.name) statuses ≡ role_names roles
    Reconciled-names named roles statuses t u (start _) = refl
    Reconciled-names named roles statuses t u
          (step role rest status changed more _ a b _ q p go_on) =
        ap₂ (λ x l. x ∷ l) (reconcile_role-name named role a (status, changed) (ap (λ z. z.0) p))
          (Reconciled-names named rest more b u go_on)

    stop_lem :
        (role : RoleSpec) (t u : Trace) (r : Result RolesEnd) (statuses : List RoleStatus)
        (update : Bool)
        → Stops client workload rbg role t r u
        → ¬ (r ≡ ok (all_done statuses update))
    stop_lem role t u r statuses update (not_ready _ q) = ground arith
    stop_lem role t u r statuses update (check_failed e _ q) = ground arith
    stop_lem role t u r statuses update (check_panics _ q) = ground arith
    stop_lem role t u r statuses update (role_failed e _ _ q p) = ground arith
    stop_lem role t u r statuses update (role_panics _ _ q p) = ground arith

    -- A loop that gets to its end reconciled all roles.
    end_lem :
        (roles : List RoleSpec) (t u : Trace) (r : Result RolesEnd) (statuses : List RoleStatus)
        (update : Bool)
        → Ends client workload rbg [] roles t r u
        → r ≡ ok (all_done statuses update)
        → Reconciled client workload rbg roles statuses t u
    end_lem roles t u r statuses update (at_end _ new b _ _ all e go_on) h =
        let q : new ≡ statuses = ground arith in
        subst (λ l. Reconciled client workload rbg roles l t u) q go_on
    end_lem roles t u r statuses update (at_role done role left new _ x _ _ go_on s) h =
        absurd (stop_lem role x u r statuses update s h)

    -- Behind the watch of the PodGroups a reconciliation that finishes makes the calls for the
    -- PodGroup if they are watched, those of the loop over the roles, and those of the end, and no
    -- other. The loop has reconciled all roles, in the order given, each once its dependencies were
    -- found ready; and with reconcilers that name the statuses after the roles it has one status for
    -- each.
    abbrev pub Finishes : List RoleSpec → Bool → (t w : Trace) → Type 0
    Finishes sorted watched t w =
        (statuses : List RoleStatus) × (update : Bool) × (u : Trace) × (v : Trace) × ((if watched
              then reconcile_pod_group client controller_ref rbg
              else pure tt)
            t
          ≡ (ok tt, u))
        × Reconciled client workload rbg sorted statuses u v
        × (finish client workload rbg (all_done statuses update) v ≡ (ok finished, w))
        × (map (λ s. s.name) statuses ≡ role_names sorted)

    pub reconcile_watched-finished :
        ((kind : WorkloadKind) → Named (workload kind))
        → (sorted : List RoleSpec) (watched : Bool) (t w : Trace)
        → reconcile_watched client workload controller_ref rbg sorted watched t ≡ (ok finished, w)
        → Finishes sorted watched t w
    unfolding reconcile_watched finish
    reconcile_watched-finished named sorted watched t w h =
        let (_, u, e, h1) =
          bind-run (if watched then reconcile_pod_group client controller_ref rbg else pure tt) _ t
            w finished h in
        let (end, v, e1, h2) =
          bind-run (reconcile_roles client workload rbg sorted [] false) _ u w finished h1 in
        ended u v end e e1 h2
      where
        ended :
            (u v : Trace) (end : RolesEnd)
            → (if watched then reconcile_pod_group client controller_ref rbg else pure tt) t
              ≡ (ok tt, u)
            → reconcile_roles client workload rbg sorted [] false u ≡ (ok end, v)
            → finish client workload rbg end v ≡ (ok finished, w)
            → Finishes sorted watched t w
        ended u v waiting e e1 h2 = absurd (ground arith)
        ended u v (all_done statuses update) e e1 h2 =
            let ends = reconcile_roles-ends client workload rbg sorted [] false u in
            let go_on =
              end_lem sorted u v (ok (all_done statuses update)) statuses update (rw e1 at ends)
                refl in
            (statuses, update, u, v, e, go_on, h2, Reconciled-names named sorted statuses u v go_on)
