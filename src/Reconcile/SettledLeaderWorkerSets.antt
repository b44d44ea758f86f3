-- ===== src/Reconcile/SettledLeaderWorkerSets.antt =====
-- `Reconciler` of pkg/reconciler/lws_reconciler.go for a LeaderWorkerSet that is as it was applied.
use rolebasedgroup.Prelude.{
  String, true, false, Option, none, some, List, [], ◌∷◌, ◌≡◌, refl, ap, subst, str_eq, str_eq_refl,
  Distinct, ok, arith,
}
use rolebasedgroup.Prelude.Int.{ℤ}
use rolebasedgroup.Prelude.Maps.{keys}
use rolebasedgroup.Api.{PodTemplateSpec, RoleSpec, RoleBasedGroup}
use rolebasedgroup.Api.Helper.{
  get_workload_name, get_common_labels_from_role, get_common_annotations_from_role,
}
use rolebasedgroup.Objects.{LeaderWorkerSet, LeaderWorkerSetApply, leader_worker_set_config}
use rolebasedgroup.Client.{Client, Call, Trace, leader_worker_set, get, lift, deref}
use rolebasedgroup.Client.Only.{
  Extends, Extends-trans, Only, Prepares, bind-Only, no_call, one_call,
}
use rolebasedgroup.Equality.{lws_spec_equal, semantically_equal_leader_worker_set}
use rolebasedgroup.Library.{Library, read_or, found_or}
use rolebasedgroup.Template.{patch_pod_template}
use rolebasedgroup.Template.Calls.{construct_pod_template-Prepares}
use rolebasedgroup.Reconcile.Settled.{same_meta, same_template}
use rolebasedgroup.Reconcile.LeaderWorkerSets.{
  replicas_or_one, construct_member, construct_members, construct_leader_worker_set,
  apply_leader_worker_set, reconcile_leader_worker_set_role,
}

-- The maps of a template have no key twice.
abbrev DistinctTemplate : PodTemplateSpec → Type 0
DistinctTemplate p = Distinct (keys p.labels) × Distinct (keys p.annotations)

-- The first LeaderWorkerSet is there and has what the second one asks for, whose maps have no key
-- twice: the templates of its leader and its workers, and the size.
pub record StoredLeaderWorkerSet (leader : PodTemplateSpec) (size : ℤ) (old new : LeaderWorkerSet)
    : Type 0 where
  pub there : str_eq old.meta.uid "" ≡ false
  pub labels : old.meta.labels ≡ new.meta.labels
  pub annotations : old.meta.annotations ≡ new.meta.annotations
  pub replicas : old.replicas ≡ new.replicas
  pub old_leader : old.leader_template ≡ some leader
  pub new_leader : new.leader_template ≡ some leader
  pub workers : old.worker_template ≡ new.worker_template
  pub old_size : old.size ≡ some size
  pub new_size : new.size ≡ some size
  pub restart_policy : old.restart_policy ≡ new.restart_policy
  pub distinct_labels : Distinct (keys new.meta.labels)
  pub distinct_annotations : Distinct (keys new.meta.annotations)
  pub distinct_leader : DistinctTemplate leader
  pub distinct_workers : DistinctTemplate new.worker_template

lws_spec_equal-stored :
    (leader : PodTemplateSpec) (size : ℤ) (old new : LeaderWorkerSet)
    → StoredLeaderWorkerSet leader size old new
    → lws_spec_equal old new ≡ ok true
unfolding lws_spec_equal
lws_spec_equal-stored leader size old new s =
    let l = same_template leader leader refl s.distinct_leader.0 s.distinct_leader.1 in
    let w =
      same_template old.worker_template new.worker_template s.workers s.distinct_workers.0
        s.distinct_workers.1 in
    let p = str_eq_refl new.restart_policy in
    rw s.old_leader (
      rw s.new_leader (
        rw l (
          rw w (
            rw s.old_size
              (rw s.new_size (rw s.restart_policy (rw p (rw s.replicas (ground arith)))))))))

stored-equal :
    (leader : PodTemplateSpec) (size : ℤ) (old new : LeaderWorkerSet)
    → StoredLeaderWorkerSet leader size old new
    → semantically_equal_leader_worker_set old new ≡ ok true
unfolding semantically_equal_leader_worker_set
stored-equal leader size old new s =
    let m =
      same_meta old.meta new.meta s.labels s.annotations s.distinct_labels s.distinct_annotations in
    rw s.there (rw m (lws_spec_equal-stored leader size old new s))

module _ (client : Client) (lib : Library) (rbg : RoleBasedGroup) (role : RoleSpec) where
  construct_member-Prepares :
      (base : PodTemplateSpec) (objects : Option (List String)) (patch : Option String)
      → Only Prepares (construct_member client lib rbg role base objects patch)
  unfolding construct_member
  construct_member-Prepares base objects patch =
      bind-Only Prepares (lift (patch_pod_template lib base patch)) _ (no_call Prepares) λ p.
        construct_pod_template-Prepares client lib rbg role objects
          (get_common_labels_from_role rbg role) p

  construct_members-Prepares :
      (left : PodTemplateSpec) → Only Prepares (construct_members client lib rbg role left)
  unfolding construct_members
  construct_members-Prepares left =
      bind-Only Prepares
        (construct_member client lib rbg role role.template none
          role.leader_worker_set.patch_leader_template)
        _
        (construct_member-Prepares role.template none role.leader_worker_set.patch_leader_template)
        λ l.
          bind-Only Prepares
            (construct_member client lib rbg role left (some ("config" ∷ "env" ∷ []))
              role.leader_worker_set.patch_worker_template)
            _
            (construct_member-Prepares left (some ("config" ∷ "env" ∷ []))
              role.leader_worker_set.patch_worker_template)
            λ w.
              bind-Only Prepares (lift (deref role.leader_worker_set.size)) _ (no_call Prepares)
                λ n.
                  bind-Only Prepares
                    (lift (
                      get_common_annotations_from_role
                        (record role { replicas = some (replicas_or_one role.replicas) })))
                    _ (no_call Prepares) λ a. no_call Prepares

  construct_leader_worker_set-Prepares :
      Only Prepares (construct_leader_worker_set client lib rbg role)
  unfolding construct_leader_worker_set
  construct_leader_worker_set-Prepares t = construct_members-Prepares _ t

  abbrev lws_call : Call
  lws_call = get leader_worker_set rbg.meta.namespace (get_workload_name rbg role)

  -- A LeaderWorkerSet that is there and has what the configuration asks for, which is constructed
  -- now, is left alone: the reconciliation succeeds, and makes reads and the apply of the ConfigMap
  -- only. The maps of what is asked for have no key twice.
  pub reconcile_leader_worker_set_role-settles :
      (leader : PodTemplateSpec) (size : ℤ) (old new : LeaderWorkerSet)
      (config : LeaderWorkerSetApply) (t u : Trace)
      → construct_leader_worker_set client lib rbg role t ≡ (ok config, u)
      → lib.to_unstructured (leader_worker_set_config config) ≡ ok tt
      → lib.leader_worker_set_of config ≡ ok new
      → client.get_leader_worker_set u rbg.meta.namespace (get_workload_name rbg role) ≡ ok old
      → StoredLeaderWorkerSet leader size old new
      → (reconcile_leader_worker_set_role client lib rbg role t ≡ (ok tt, lws_call ∷ u))
        × Extends Prepares t (lws_call ∷ u)
  unfolding reconcile_leader_worker_set_role apply_leader_worker_set read_or found_or
  reconcile_leader_worker_set_role-settles leader size old new config t u made json converted found
        s =
      (
        rw made (rw json (rw converted (rw found (rw (stored-equal leader size old new s) refl)))),
        Extends-trans Prepares
            (subst (Extends Prepares t) (ap (λ r. r.1) made)
              (construct_leader_worker_set-Prepares t))
            (one_call Prepares lws_call tt u),
      )
