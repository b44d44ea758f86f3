-- ===== src/Group/Finished.antt =====
-- `Reconcile` of internal/controller/workloads/rolebasedgroup_controller.go from end to end, with the
-- sort of the roles and the reconcilers of pkg/reconciler.
use rolebasedgroup.Prelude.{
  ap, ap₂, arith, String, Bool, true, false, List, ◌∷◌, ◌++◌, ◌≡◌, ◌↔◌, refl, contains, Distinct,
  All, some, Result, ok, err, panic,
}
use rolebasedgroup.Api.{OwnerReference, RoleSpec, RoleBasedGroup}
use rolebasedgroup.Api.Helper.{find_role}
use rolebasedgroup.Client.{Client, Trace, get, role_based_group}
use rolebasedgroup.Dependency.Sort.{sort_roles, role_names}
use rolebasedgroup.Dependency.Sort.Laws.{sort_roles-topological}
use rolebasedgroup.Restart.{Request}
use rolebasedgroup.Workload.{WorkloadReconciler, WorkloadKind}
use rolebasedgroup.Library.{Library}
use rolebasedgroup.Reconcile.Interface.{workload_reconciler, workload_reconciler-Named}
use rolebasedgroup.Group.{
  finished, watch_pod_groups, reconcile_watched, keep_watched, with_sorted, reconcile_group,
  reconcile, after_get,
}
use rolebasedgroup.Group.Guards.{Finishes, reconcile_watched-finished}

-- The sorted list has every role of the group, none twice, and no other, each behind the roles that
-- it depends on.
abbrev Ordered : List RoleSpec → List RoleSpec → Type 0
Ordered roles sorted =
    Distinct (role_names sorted)
    × ((n : String)
        → (contains (role_names sorted) n ≡ true) ↔ (contains (role_names roles) n ≡ true))
    × ((pre : List RoleSpec) (r : RoleSpec) (post : List RoleSpec)
        → sorted ≡ pre ++ r ∷ post
        → (find_role roles r.name ≡ some r)
          × All (λ d. contains (role_names pre) d ≡ true) r.dependencies)

module _ (client : Client) (lib : Library) (controller_ref : RoleBasedGroup → OwnerReference)
    (rbg : RoleBasedGroup) where
  abbrev workloads : WorkloadKind → WorkloadReconciler
  workloads = workload_reconciler client lib

  -- All that a reconciliation does behind the read of the group, between two traces: the watch of
  -- the PodGroups, and then, with the roles in order, what `Finishes` says.
  abbrev pub AllReconciled : Bool → (t w : Trace) → Type 0
  AllReconciled watched t w =
      (sorted : List RoleSpec) × (now : Bool) × (u : Trace) × Ordered rbg.roles sorted
      × (watch_pod_groups client workloads watched rbg t ≡ (ok now, u))
      × Finishes client workloads controller_ref rbg sorted now u w

  keep_watched-finished :
      (old after : Bool) (r : Result Bool) (sorted : List RoleSpec) (t w : Trace)
      → keep_watched client workloads controller_ref old r rbg sorted t ≡ ((ok finished, after), w)
      → (now : Bool) × (r ≡ ok now)
        × (reconcile_watched client workloads controller_ref rbg sorted now t ≡ (ok finished, w))
  unfolding keep_watched
  keep_watched-finished old after (ok now) sorted t w h =
      (now, refl, ap₂ (λ r v. (r, v)) (ap (λ x. x.0.0) h) (ap (λ x. x.1) h))
  keep_watched-finished old after (err e) sorted t w h = absurd (ground (arith, ap (λ x. x.0.0) h))
  keep_watched-finished old after panic sorted t w h = absurd (ground (arith, ap (λ x. x.0.0) h))

  with_sorted-finished :
      (watched after : Bool) (r : Result (List RoleSpec)) (t w : Trace)
      → Distinct (role_names rbg.roles)
      → sort_roles rbg.roles ≡ r
      → with_sorted client workloads controller_ref watched rbg r t ≡ ((ok finished, after), w)
      → AllReconciled watched t w
  unfolding with_sorted
  with_sorted-finished watched after (ok sorted) t w d e h =
      let (r, u) = watch_pod_groups client workloads watched rbg t in
      let (now, is, run) = keep_watched-finished watched after r sorted u w h in
      (
        sorted,
        now,
        u,
        sort_roles-topological rbg.roles sorted d e,
        ap (λ x. (x, u)) is,
        reconcile_watched-finished client workloads controller_ref rbg
            (workload_reconciler-Named client lib) sorted now u w run,
      )
  with_sorted-finished watched after (err x) t w d e h = absurd (ground (arith, ap (λ x. x.0.0) h))
  with_sorted-finished watched after panic t w d e h = absurd (ground (arith, ap (λ x. x.0.0) h))

  -- A reconciliation of a group that exists and is not deleted, and whose role names are distinct,
  -- with the result that it finished, makes these calls and no other: the read of the group, the
  -- watch of the PodGroups, the calls for the PodGroup if they are watched, one run through the
  -- roles, and those of the end. The run reconciles every role of the group once, each behind all
  -- roles that it depends on and after those were found ready, and what the end gets is one status
  -- for each, of its name.
  pub reconcile-finished :
      (watched after : Bool) (req : Request) (t w : Trace)
      → client.get_group t req.namespace req.name ≡ ok rbg
      → rbg.meta.deleting ≡ false
      → Distinct (role_names rbg.roles)
      → reconcile client workloads controller_ref watched req t ≡ ((ok finished, after), w)
      → AllReconciled watched (get role_based_group req.namespace req.name ∷ t) w
  unfolding reconcile after_get reconcile_group
  reconcile-finished watched after req t w found there d h =
      with_sorted-finished watched after (sort_roles rbg.roles)
        (get role_based_group req.namespace req.name ∷ t) w d refl (simp there at (rw found at h))
