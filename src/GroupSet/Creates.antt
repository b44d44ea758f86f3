-- ===== src/GroupSet/Creates.antt =====
-- How many groups a set of internal/controller/workloads/rolebasedgroupset_controller.go creates.
use rolebasedgroup.Prelude.{
  ◌⊎◌, inl, inr, Bool-cases, ℕ, zero, suc, ◌+◌, some, List, [], ◌∷◌, length, ◌≡◌, refl, Result, ok,
  arith,
}
use rolebasedgroup.Prelude.Int.{leb_ℤ, ℤ, pos, ◌-ℤ◌, ◌≤ℤ◌}
use rolebasedgroup.Api.{OwnerReference, RoleBasedGroup, RoleBasedGroupSet}
use rolebasedgroup.Client.{Client, role_based_group, Call, list, Trace, perform}
use rolebasedgroup.Group.{finished}
use rolebasedgroup.GroupSet.{
  role_based_group_set_key, create_call, create_rbg, create_all, create_num, reconcile_set,
}

module _ (client : Client) (set_reference : RoleBasedGroupSet → Result OwnerReference) where
  -- The trace after a call that is made some times.
  pub repeated : ℕ → Call → Trace → Trace
  repeated zero c t = t
  repeated (suc n) c t = repeated n c (c ∷ t)

  module _ (set : RoleBasedGroupSet) (owner : OwnerReference)
      (controlled : set_reference set ≡ ok owner) where
    create_rbg-call :
        (t : Trace)
        → (create_rbg client set_reference set t).1 ≡ create_call client set_reference set owner ∷ t
    unfolding create_rbg perform
    create_rbg-call t = ground arith

    create_all-calls :
        (n : ℕ) (t : Trace)
        → create_all client set_reference n set t
          ≡ repeated n (create_call client set_reference set owner) t
    unfolding create_all repeated
    create_all-calls zero t = refl
    create_all-calls (suc n) t =
        rw (create_rbg-call t) (create_all-calls n (create_call client set_reference set owner ∷ t))

    create_num-cases :
        (replicas : ℤ) (n : ℕ)
        → (pos (create_num client set_reference replicas n + n) ≡ replicas)
          ⊎ (create_num client set_reference replicas n ≡ 0) × (replicas ≤ℤ pos n)
    unfolding create_num ◌-ℤ◌
    create_num-cases replicas n = elim (Bool-cases (leb_ℤ replicas (pos n))) [
      | inl enough ↦ inr (ground arith, ground arith)
      | inr few ↦ inl (ground arith)
    ]

    -- A set whose groups are listed and that asks for a number of them creates as many as are
    -- missing, whatever comes of each creation, so that the listed and the created ones are the number
    -- asked for; with enough groups it creates none.
    pub reconcile_set-creates :
        (replicas : ℤ) (groups : List RoleBasedGroup) (t : Trace)
        → set.replicas ≡ some replicas
        → client.list_groups t set.meta.namespace ((role_based_group_set_key, set.meta.name) ∷ [])
          ≡ ok groups
        → (n : ℕ) × (reconcile_set client set_reference set t ≡ (
          ok finished,
          repeated n (create_call client set_reference set owner) (
              list role_based_group set.meta.namespace
                ((role_based_group_set_key, set.meta.name) ∷ [])
              ∷ t),
        ))
          × ((pos (n + length groups) ≡ replicas) ⊎ (n ≡ 0) × (replicas ≤ℤ pos (length groups)))
    unfolding reconcile_set
    reconcile_set-creates replicas groups t asked listed =
        let n = create_num client set_reference replicas (length groups) in
        (
          n,
          ground (
            arith,
            create_all-calls n (
                list role_based_group set.meta.namespace
                  ((role_based_group_set_key, set.meta.name) ∷ [])
                ∷ t),
          ),
          create_num-cases replicas (length groups),
        )
