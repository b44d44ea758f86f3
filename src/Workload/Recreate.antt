-- ===== src/Workload/Recreate.antt =====
-- `RecreateWorkload` of the three reconcilers of pkg/reconciler.
use rolebasedgroup.Prelude.{
  String, Bool, true, false, Option, none, some, str_eq, if◌then◌else◌, Error, Result, ok, err,
  panic, is_not_found,
}
use rolebasedgroup.Api.{ObjectMeta, RoleSpec, RoleBasedGroup}
use rolebasedgroup.Api.Helper.{get_workload_name}
use rolebasedgroup.Client.{
  Client, get, delete, Trace, M, ◌>>=◌, pure, fail, lift, attempt, read, perform, bind_result,
}
use rolebasedgroup.Workload.{WorkloadKind, deployments, stateful_sets, leader_worker_sets, kind_of}

abbrev meta_result : {A : Type 0} → (A → ObjectMeta) → Result A → Result ObjectMeta
meta_result f (ok a) = ok (f a)
meta_result f (err e) = err e
meta_result f panic = panic

-- A failed deletion of an object that is gone already is no error.
abbrev ignore_not_found : Result (Unit {0}) → Result (Unit {0})
ignore_not_found (ok _) = ok tt
ignore_not_found (err e) = if is_not_found e then ok tt else err e
ignore_not_found panic = panic

module _ (client : Client) where
  -- The metadata of the workload of a kind and name.
  unfoldable pub workload_meta : WorkloadKind → String → String → Trace → Result ObjectMeta
  workload_meta deployments ns n t = meta_result (λ w. w.meta) (client.get_deployment t ns n)
  workload_meta stateful_sets ns n t = meta_result (λ w. w.meta) (client.get_stateful_set t ns n)
  workload_meta leader_worker_sets ns n t =
      meta_result (λ w. w.meta) (client.get_leader_worker_set t ns n)

  module _ (kind : WorkloadKind) (ns name : String) where
    abbrev read_meta : M ObjectMeta
    read_meta = read (get (kind_of kind) ns name) (workload_meta kind ns name)

    -- The function that is polled, with the variable `retErr`.
    unfoldable pub poll_step : Option Error → Trace → (Result Bool × Option Error) × Trace
    poll_step ret_err t = let (r, u) = read_meta t in (step r, u)
      where
        step : Result ObjectMeta → Result Bool × Option Error
        step (ok _) = (ok true, none)
        step (err e) = if is_not_found e then (ok false, some e) else (err e, some e)
        step panic = (panic, none)

    -- A wait that failed returns `retErr`, which may be nil.
    unfoldable pub poll_result : Result (Unit {0}) → Option Error → Result (Unit {0})
    poll_result (ok _) s = ok tt
    poll_result (err _) none = ok tt
    poll_result (err _) (some e) = err e
    poll_result panic s = panic

    unfoldable pub wait_recreated : M (Unit {0})
    wait_recreated t =
        let (r, u) = client.poll_until (Option Error) poll_step none t in (poll_result r.0 r.1, u)

    unfoldable pub delete_and_wait : M (Unit {0})
    delete_and_wait t =
        let (r, u) = perform client (delete (kind_of kind) ns name) t in
        bind_result (ignore_not_found r) (λ _. wait_recreated) u

    after_get : Result ObjectMeta → M (Unit {0})
    after_get (ok _) = delete_and_wait
    after_get (err e) = if is_not_found e then pure tt else fail e
    after_get panic = lift panic

    -- The reconcilers of Deployments and LeaderWorkerSets look at the uid of what they read, which
    -- is empty for an object that is not found.
    after_get_uid : Result ObjectMeta → M (Unit {0})
    after_get_uid (ok m) = if str_eq m.uid "" then pure tt else delete_and_wait
    after_get_uid (err e) = if is_not_found e then pure tt else fail e
    after_get_uid panic = lift panic

  recreate : WorkloadKind → String → String → Result ObjectMeta → M (Unit {0})
  unfolding after_get after_get_uid
  recreate stateful_sets ns name r = after_get stateful_sets ns name r
  recreate deployments ns name r = after_get_uid deployments ns name r
  recreate leader_worker_sets ns name r = after_get_uid leader_worker_sets ns name r

  -- `RecreateWorkload`
  unfoldable pub recreate_workload : WorkloadKind → RoleBasedGroup → RoleSpec → M (Unit {0})
  unfolding recreate
  recreate_workload kind rbg role = do
    r ← attempt (read_meta kind rbg.meta.namespace (get_workload_name rbg role))
    recreate kind rbg.meta.namespace (get_workload_name rbg role) r
