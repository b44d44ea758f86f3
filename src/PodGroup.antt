-- ===== src/PodGroup.antt =====
-- pkg/scheduler/podgroup_manager.go: the PodGroup of a group that is scheduled as a gang.
pub mod Members
use rolebasedgroup.Prelude.{
  false, Option, none, some, [], ◌∷◌, if◌then◌else◌, Result, ok, err, panic, is_not_found,
}
use rolebasedgroup.Prelude.Int.{ℤ, eq_ℤ, i32}
use rolebasedgroup.Api.{OwnerReference, RoleBasedGroup, PodGroupPolicy}
use rolebasedgroup.Api.Helper.{get_group_size, enable_gang_scheduling}
use rolebasedgroup.Objects.{PodGroup}
use rolebasedgroup.Client.{
  Client, pod_group, get, delete, create_pod_group, update_pod_group, Trace, M, ◌>>=◌, pure, lift,
  fail, attempt, read, perform,
}

-- `metav1.NewControllerRef`, which gives the group as the controller, is an argument.
module _ (client : Client) (controller_ref : RoleBasedGroup → OwnerReference)
    (rbg : RoleBasedGroup) where
  timeout : Option PodGroupPolicy → Option ℤ
  timeout none = none
  timeout (some p) = elim p.kube_scheduling [ none ↦ none | some k ↦ k.schedule_timeout_seconds ]

  -- `int32(rbg.GetGroupSize())`
  abbrev min_member : Result ℤ
  min_member = elim (get_group_size rbg) [ none ↦ panic | some n ↦ ok (i32 n) ]

  new_pod_group : ℤ → PodGroup
  unfolding timeout
  new_pod_group n = record {
    meta = record {
      name = rbg.meta.name;
      namespace = rbg.meta.namespace;
      uid = "";
      labels = [];
      annotations = [];
      owner_references = controller_ref rbg ∷ [];
      deleting = false;
    };
    min_member = n;
    schedule_timeout_seconds = timeout rbg.pod_group_policy;
  }

  abbrev read_pod_group : M PodGroup
  read_pod_group =
      read (get pod_group rbg.meta.namespace rbg.meta.name)
        (λ t. client.get_pod_group t rbg.meta.namespace rbg.meta.name)

  -- One try of the update; it keeps no variable but the PodGroup that it reads.
  unfoldable pub try_update : ℤ → Unit {0} → Trace → (Result (Unit {0}) × Unit {0}) × Trace
  try_update n s t =
      let (r, u) =
        (read_pod_group >>= λ g. perform client (update_pod_group (record g { min_member = n })))
          t in
      ((r, tt), u)

  unfoldable pub update_min_member : ℤ → M (Unit {0})
  update_min_member n t =
      let (r, u) = client.retry_on_conflict (Unit {0}) (try_update n) tt t in (r.0, u)

  after_get : ℤ → Result PodGroup → M (Unit {0})
  unfolding new_pod_group
  after_get n (ok g) = if eq_ℤ g.min_member n then pure tt else update_min_member n
  after_get n (err e) =
      if is_not_found e then perform client (create_pod_group (new_pod_group n)) else fail e
  after_get n panic = lift panic

  -- `createOrUpdatePodGroup`
  unfoldable pub create_or_update_pod_group : M (Unit {0})
  unfolding after_get
  create_or_update_pod_group = do n ← lift min_member; r ← attempt read_pod_group; after_get n r

  after_get_delete : Result PodGroup → M (Unit {0})
  after_get_delete (ok g) = perform client (delete pod_group g.meta.namespace g.meta.name)
  after_get_delete (err e) = if is_not_found e then pure tt else fail e
  after_get_delete panic = lift panic

  -- `deletePodGroup`
  unfoldable pub delete_pod_group : M (Unit {0})
  unfolding after_get_delete
  delete_pod_group = attempt read_pod_group >>= after_get_delete

  -- `Reconcile`
  unfoldable pub reconcile_pod_group : M (Unit {0})
  reconcile_pod_group =
      if enable_gang_scheduling rbg then create_or_update_pod_group else delete_pod_group
