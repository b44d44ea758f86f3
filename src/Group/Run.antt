-- ===== src/Group/Run.antt =====
-- The loop over the roles of `Reconcile` in
-- internal/controller/workloads/rolebasedgroup_controller.go, as a run of steps: which roles it
-- reconciles, after which checks, and why it stops.
use mathlib.Core.List.{append_assoc, append-nil}
use rolebasedgroup.Prelude.{
  Bool, true, false, ◌||◌, List, [], ◌∷◌, ◌++◌, ◌≡◌, refl, sym, ◌∙◌, Result, ok, err, panic, Error,
}
use rolebasedgroup.Api.{RoleSpec, RoleStatus, RoleBasedGroup}
use rolebasedgroup.Client.{Client, Trace}
use rolebasedgroup.Workload.{WorkloadReconciler, WorkloadKind}
use rolebasedgroup.Group.{
  RolesEnd, all_done, waiting, check_dependency_ready, reconcile_role, reconcile_roles,
}

module _ (client : Client) (workload : WorkloadKind → WorkloadReconciler)
    (rbg : RoleBasedGroup) where
  -- Some roles are reconciled one after the other, each once its dependencies are found ready.
  pub data Reconciled : List RoleSpec → List RoleStatus → Trace → Trace → Type 0 where
    start : (t : Trace) → Reconciled [] [] t t
    step :
        (role : RoleSpec) (roles : List RoleSpec) (status : RoleStatus) (changed : Bool)
        (statuses : List RoleStatus) (t u v w : Trace)
        → check_dependency_ready client workload rbg role.dependencies t ≡ (ok true, u)
        → reconcile_role client workload rbg role u ≡ (ok (status, changed), v)
        → Reconciled roles statuses v w
        → Reconciled (role ∷ roles) (status ∷ statuses) t w

  -- What stops the loop at a role.
  pub data Stops (role : RoleSpec) (t : Trace) : Result RolesEnd → Trace → Type 0 where
    not_ready :
        (u : Trace)
        → check_dependency_ready client workload rbg role.dependencies t ≡ (ok false, u)
        → Stops role t (ok waiting) u
    check_failed :
        (e : Error) (u : Trace)
        → check_dependency_ready client workload rbg role.dependencies t ≡ (err e, u)
        → Stops role t (err e) u
    check_panics :
        (u : Trace)
        → check_dependency_ready client workload rbg role.dependencies t ≡ (panic, u)
        → Stops role t panic u
    role_failed :
        (e : Error) (u v : Trace)
        → check_dependency_ready client workload rbg role.dependencies t ≡ (ok true, u)
        → reconcile_role client workload rbg role u ≡ (err e, v)
        → Stops role t (err e) v
    role_panics :
        (u v : Trace)
        → check_dependency_ready client workload rbg role.dependencies t ≡ (ok true, u)
        → reconcile_role client workload rbg role u ≡ (panic, v)
        → Stops role t panic v

  -- How the loop ends: at the end of the list, or at a role that stops it.
  pub data Ends (statuses : List RoleStatus)
      : List RoleSpec → Trace → Result RolesEnd → Trace → Type 0 where
    at_end :
        (roles : List RoleSpec) (new : List RoleStatus) (update : Bool) (t u : Trace)
        (all : List RoleStatus)
        → all ≡ statuses ++ new
        → Reconciled roles new t u
        → Ends statuses roles t (ok (all_done all update)) u
    at_role :
        (done : List RoleSpec) (role : RoleSpec) (left : List RoleSpec) (new : List RoleStatus)
        (t u v : Trace) (r : Result RolesEnd)
        → Reconciled done new t u
        → Stops role u r v
        → Ends statuses (done ++ role ∷ left) t r v

  prepend :
      (role : RoleSpec) (roles : List RoleSpec) (status : RoleStatus) (changed : Bool)
      (statuses : List RoleStatus) (t u v : Trace) (r : Result RolesEnd) (w : Trace)
      → check_dependency_ready client workload rbg role.dependencies t ≡ (ok true, u)
      → reconcile_role client workload rbg role u ≡ (ok (status, changed), v)
      → Ends (statuses ++ status ∷ []) roles v r w
      → Ends statuses (role ∷ roles) t r w
  prepend role roles status changed statuses t u v r w q p (at_end _ new update _ _ all e run) =
      at_end (role ∷ roles) (status ∷ new) update t w all
        (e ∙ append_assoc statuses (status ∷ []) new)
        (step role roles status changed new t u v w q p run)
  prepend role roles status changed statuses t u v r w q p
        (at_role done stop left new _ x _ _ run s) =
      at_role (role ∷ done) stop left (status ∷ new) t x w r
        (step role done status changed new t u v x q p run) s

  abbrev End : List RoleStatus → List RoleSpec → Bool → Trace → Type 0
  End statuses roles update t =
      Ends statuses roles t (reconcile_roles client workload rbg roles statuses update t).0
        (reconcile_roles client workload rbg roles statuses update t).1

  -- Every run of the loop reconciles roles from the front of the list, one after the other, each
  -- once all its dependencies are found ready. It ends with the statuses of all roles, in their
  -- order, behind those it had, or at a role that stops it: one whose dependencies are not ready,
  -- where no call is made for that role or a later one, or one with an error or a panic.
  pub reconcile_roles-ends :
      (roles : List RoleSpec) (statuses : List RoleStatus) (update : Bool) (t : Trace)
      → End statuses roles update t
  unfolding reconcile_roles
  reconcile_roles-ends [] statuses update t =
      at_end [] [] update t t statuses (sym (append-nil statuses)) (start t)
  reconcile_roles-ends (role ∷ roles) statuses update t =
      checked (λ ss b v. reconcile_roles-ends roles ss b v)
        (check_dependency_ready client workload rbg role.dependencies t) refl
    where
      Rest : Type 0
      Rest = (ss : List RoleStatus) (b : Bool) (v : Trace) → End ss roles b v

      reconciled :
          Rest
          → (u : Trace) → (p : Result (RoleStatus × Bool) × Trace)
          → check_dependency_ready client workload rbg role.dependencies t ≡ (ok true, u)
          → reconcile_role client workload rbg role u ≡ p
          → End statuses (role ∷ roles) update t
      reconciled rest u (ok (status, changed), v) q p = rw q (
          rw p (
            prepend role roles status changed statuses t u v _ _ q p
              (rest (statuses ++ status ∷ []) (update || changed) v)))
      reconciled rest u (err e, v) q p =
          rw q (rw p (at_role [] role roles [] t t v _ (start t) (role_failed e u v q p)))
      reconciled rest u (panic, v) q p =
          rw q (rw p (at_role [] role roles [] t t v _ (start t) (role_panics u v q p)))

      checked :
          Rest
          → (p : Result Bool × Trace)
          → check_dependency_ready client workload rbg role.dependencies t ≡ p
          → End statuses (role ∷ roles) update t
      checked rest (ok true, u) q =
          reconciled rest u (reconcile_role client workload rbg role u) q refl
      checked rest (ok false, u) q =
          rw q (at_role [] role roles [] t t u _ (start t) (not_ready u q))
      checked rest (err e, u) q =
          rw q (at_role [] role roles [] t t u _ (start t) (check_failed e u q))
      checked rest (panic, u) q =
          rw q (at_role [] role roles [] t t u _ (start t) (check_panics u q))
