-- ===== src/Workload/Named.antt =====
-- What `ConstructRoleStatus` of the reconcilers of pkg/reconciler promises of the status's name.
use rolebasedgroup.Prelude.{
  String, Bool, Option, none, some, List, [], ◌∷◌, ◌≡◌, inl, inr, refl, ap, sym, ◌∙◌, str_eq,
  str_eq-eq, Bool-cases, Option-cases, Result, ok, err, panic, arith,
}
use rolebasedgroup.Prelude.Int.{ℤ}
use rolebasedgroup.Api.{RoleSpec, RoleStatus, RoleBasedGroup}
use rolebasedgroup.Api.Helper.{get_role_status, find_status}
use rolebasedgroup.Objects.{StatefulSet, Deployment, LeaderWorkerSet}
use rolebasedgroup.Client.{M, Client, Trace}
use rolebasedgroup.Workload.{
  WorkloadKind, stateful_sets, deployments, leader_worker_sets, WorkloadReconciler,
  role_status_from, construct_stateful_set_status, construct_deployment_status,
  construct_leader_worker_set_status, workload_key,
}

-- A status that is constructed for a role bears the role's name.
pub record Named (w : WorkloadReconciler) : Type 0 where
  pub named :
      (rbg : RoleBasedGroup) (role : RoleSpec) (t : Trace) (s : RoleStatus × Bool)
      → (w.construct_role_status rbg role t).0 ≡ ok s
      → s.0.name ≡ role.name

find_status-name :
    (l : List RoleStatus) (name : String) (s : RoleStatus)
    → find_status l name ≡ some s
    → s.name ≡ name
unfolding find_status
find_status-name [] name s h = absurd (cc)
find_status-name (x ∷ l) name s h = elim (Bool-cases (str_eq x.name name)) [
  | inl e ↦ let q : x ≡ s = ground arith in ap (λ r. r.name) (sym q) ∙ str_eq-eq x.name name e
  | inr e ↦ find_status-name l name s (rw e at h)
]

role_status_from-name :
    (rbg : RoleBasedGroup) (role : RoleSpec) (n m : ℤ)
    → (role_status_from rbg role n m).0.name ≡ role.name
unfolding role_status_from get_role_status
role_status_from-name rbg role n m = go (get_role_status rbg role.name) refl
  where
    go :
        (o : Option RoleStatus)
        → get_role_status rbg role.name ≡ o
        → (role_status_from rbg role n m).0.name ≡ role.name
    go none q = ground arith
    go (some s) q =
        let found : find_status rbg.status.role_statuses role.name ≡ some s = ground arith in
        let named = find_status-name rbg.status.role_statuses role.name s found in ground arith

-- The status of a workload that was read is constructed under the role's name.
module _ (client : Client) (rbg : RoleBasedGroup) (role : RoleSpec) (t : Trace)
    (s : RoleStatus × Bool) where
  from_lem :
      (n m : ℤ) (r : Result (RoleStatus × Bool))
      → r ≡ ok (role_status_from rbg role n m)
      → r ≡ ok s
      → s.0.name ≡ role.name
  from_lem n m r q h =
      let e : role_status_from rbg role n m ≡ s = ground arith in
      ap (λ p. p.0.name) (sym e) ∙ role_status_from-name rbg role n m

  construct_stateful_set_status-name :
      (construct_stateful_set_status client rbg role t).0 ≡ ok s → s.0.name ≡ role.name
  unfolding construct_stateful_set_status
  construct_stateful_set_status-name h =
      go (client.get_stateful_set t rbg.meta.namespace (workload_key client rbg role)) refl
    where
      go :
          (r : Result StatefulSet)
          → client.get_stateful_set t rbg.meta.namespace (workload_key client rbg role) ≡ r
          → s.0.name ≡ role.name
      go (ok w) q = elim (Option-cases w.replicas) [
        | inl e ↦ absurd (ground arith)
        | inr (n, e) ↦ from_lem n w.ready_replicas _ (ground arith) h
      ]
      go (err e) q = absurd (ground arith)
      go panic q = absurd (ground arith)

  construct_deployment_status-name :
      (construct_deployment_status client rbg role t).0 ≡ ok s → s.0.name ≡ role.name
  unfolding construct_deployment_status
  construct_deployment_status-name h =
      go (client.get_deployment t rbg.meta.namespace (workload_key client rbg role)) refl
    where
      go :
          (r : Result Deployment)
          → client.get_deployment t rbg.meta.namespace (workload_key client rbg role) ≡ r
          → s.0.name ≡ role.name
      go (ok w) q = elim (Option-cases w.replicas) [
        | inl e ↦ absurd (ground arith)
        | inr (n, e) ↦ from_lem n w.ready_replicas _ (ground arith) h
      ]
      go (err e) q = absurd (ground arith)
      go panic q = absurd (ground arith)

  construct_leader_worker_set_status-name :
      (construct_leader_worker_set_status client rbg role t).0 ≡ ok s → s.0.name ≡ role.name
  unfolding construct_leader_worker_set_status
  construct_leader_worker_set_status-name h =
      go (client.get_leader_worker_set t rbg.meta.namespace (workload_key client rbg role)) refl
    where
      go :
          (r : Result LeaderWorkerSet)
          → client.get_leader_worker_set t rbg.meta.namespace (workload_key client rbg role) ≡ r
          → s.0.name ≡ role.name
      go (ok w) q = from_lem w.status_replicas w.ready_replicas _ (ground arith) h
      go (err e) q = absurd (ground arith)
      go panic q = absurd (ground arith)

-- `ConstructRoleStatus` of the three reconcilers.
abbrev pub constructs : Client → WorkloadKind → RoleBasedGroup → RoleSpec → M (RoleStatus × Bool)
constructs client stateful_sets = construct_stateful_set_status client
constructs client deployments = construct_deployment_status client
constructs client leader_worker_sets = construct_leader_worker_set_status client

constructs-name :
    (client : Client) (kind : WorkloadKind) (rbg : RoleBasedGroup) (role : RoleSpec) (t : Trace)
    (s : RoleStatus × Bool)
    → (constructs client kind rbg role t).0 ≡ ok s
    → s.0.name ≡ role.name
constructs-name client stateful_sets rbg role t s h =
    construct_stateful_set_status-name client rbg role t s h
constructs-name client deployments rbg role t s h =
    construct_deployment_status-name client rbg role t s h
constructs-name client leader_worker_sets rbg role t s h =
    construct_leader_worker_set_status-name client rbg role t s h

-- A reconciler that constructs statuses as that of a kind of workload does, whatever the API server
-- answers, names each status that it returns after its role.
pub constructs-Named :
    (client : Client) (kind : WorkloadKind) (w : WorkloadReconciler)
    → w.construct_role_status ≡ constructs client kind
    → Named w
constructs-Named client kind w e = record {
  named = λ rbg role t s h.
      constructs-name client kind rbg role t s (ap (λ f. (f rbg role t).0) (sym e) ∙ h);
}
