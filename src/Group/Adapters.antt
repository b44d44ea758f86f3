-- ===== src/Group/Adapters.antt =====
-- The scaling adapters of a group: `ReconcileScalingAdapter` and `CleanupOrphanedScalingAdapters` of
-- internal/controller/workloads/rolebasedgroup_controller.go.
use rolebasedgroup.Dependency.Sort.{role_names}
use rolebasedgroup.Prelude.{
  Bool, Option, none, some, map, not, ◌&&◌, str_eq, contains, sym, ap, String, true, false, List,
  [], ◌∷◌, ◌≡◌, ◌⊎◌, inl, inr, refl, other, ◌∙◌, if◌then◌else◌, Bool-cases, Error, not_found,
  is_not_found, Result, ok, err, panic, arith,
}
use rolebasedgroup.Api.{
  OwnerReference, AdapterScaleTargetRef, RoleSpec, RoleBasedGroup, ScalingAdapter,
}
use rolebasedgroup.Api.Helper.{
  owned_by, is_scaling_adapter_managed_by_rbg, is_scaling_adapter_enable,
  generate_scaling_adapter_name,
}
use rolebasedgroup.Client.{
  Client, scaling_adapter, Call, get, delete, create_adapter, Trace, perform, wrap, ◌>>◌,
}
use rolebasedgroup.Client.Deletions.{Calls, loop-Calls}
use rolebasedgroup.Group.{
  has_role, new_scaling_adapter, is_orphaned_adapter, delete_adapters, after_get_adapter,
  reconcile_scaling_adapter,
}

module _ (rbg : RoleBasedGroup) where
  -- An adapter with an owner reference of the group's uid, that targets the group by its name, and
  -- a role that no role of the group is named after.
  abbrev pub targets_missing_role : Option AdapterScaleTargetRef → Bool
  targets_missing_role none = false
  targets_missing_role (some target) =
      str_eq target.name rbg.meta.name && not (contains (role_names rbg.roles) target.role)

  abbrev pub is_orphan : ScalingAdapter → Bool
  is_orphan a =
      contains (map (λ o. o.uid) a.meta.owner_references) rbg.meta.uid
      && targets_missing_role a.spec.scale_target_ref

  has_role-contains :
      (roles : List RoleSpec) (name : String)
      → has_role roles name ≡ contains (role_names roles) name
  unfolding has_role contains
  has_role-contains [] name = refl
  has_role-contains (r ∷ roles) name =
      ap (λ b. if str_eq r.name name then true else b) (has_role-contains roles name)

  owned_by-contains :
      (l : List OwnerReference) (uid : String) → owned_by l uid ≡ contains (map (λ o. o.uid) l) uid
  unfolding owned_by contains
  owned_by-contains [] uid = refl
  owned_by-contains (o ∷ l) uid =
      ap (λ b. if str_eq o.uid uid then true else b) (owned_by-contains l uid)

  orphaned-is_orphan : (a : ScalingAdapter) → is_orphaned_adapter rbg a ≡ is_orphan a
  unfolding is_orphaned_adapter is_scaling_adapter_managed_by_rbg
  orphaned-is_orphan a = of_target a.spec.scale_target_ref refl
    where
      of_target :
          (o : Option AdapterScaleTargetRef)
          → a.spec.scale_target_ref ≡ o
          → is_orphaned_adapter rbg a ≡ is_orphan a
      of_target none e = ground (arith, e, owned_by-contains a.meta.owner_references rbg.meta.uid)
      of_target (some target) e = ground (
        arith,
        e,
        owned_by-contains a.meta.owner_references rbg.meta.uid,
        has_role-contains rbg.roles target.role,
      )

  abbrev pub delete_call : ScalingAdapter → Call
  delete_call a = delete scaling_adapter a.meta.namespace a.meta.name

  module _ (client : Client) where
    end_lem : (t : Trace) → delete_adapters client rbg [] t ≡ (ok tt, t)
    unfolding delete_adapters
    end_lem t = refl

    round_lem :
        (a : ScalingAdapter) (l : List ScalingAdapter) (t : Trace)
        → delete_adapters client rbg (a ∷ l) t
          ≡ (if is_orphan a
                then wrap
                    (other "delete scalingAdapter %s error: %s")
                    (perform client (delete_call a))
                  >> delete_adapters client rbg l
                else delete_adapters client rbg l)
              t
    unfolding delete_adapters
    round_lem a l t = rw (sym (orphaned-is_orphan a)) refl

    -- The clean-up deletes adapters that have an owner reference of the group's uid, that target the
    -- group by its name, and a role that no role of the group is named after, in the order of the
    -- list, and makes no other call. It has deleted them all, or it ends
    -- with an error or a panic.
    pub delete_adapters-deletes :
        (l : List ScalingAdapter) (t : Trace)
        → Calls is_orphan delete_call (delete_adapters client rbg l) l t
    delete_adapters-deletes =
        loop-Calls is_orphan delete_call client (other "delete scalingAdapter %s error: %s")
          (delete_adapters client rbg) end_lem round_lem

-- An API server that nobody else writes to, as far as adapters go: a read changes nothing, an object
-- that was created is read, one that was deleted is not found, and a read gives the object that it
-- asks for.
pub record Consistent (client : Client) : Type 0 where
  pub reads :
      (t : Trace) (ns name : String)
      → client.get_adapter (get scaling_adapter ns name ∷ t) ns name ≡ client.get_adapter t ns name
  pub created :
      (t : Trace) (a : ScalingAdapter)
      → client.write t (create_adapter a) ≡ ok tt
      → (b : ScalingAdapter) × (client.get_adapter
            (create_adapter a ∷ t)
            a.meta.namespace
            a.meta.name
          ≡ ok b)
  pub deleted :
      (t : Trace) (ns name : String)
      → client.write t (delete scaling_adapter ns name) ≡ ok tt
      → client.get_adapter (delete scaling_adapter ns name ∷ t) ns name ≡ err not_found
  pub asked :
      (t : Trace) (ns name : String) (a : ScalingAdapter)
      → client.get_adapter t ns name ≡ ok a
      → (a.meta.namespace ≡ ns) × (a.meta.name ≡ name)

module _ (client : Client) (rbg : RoleBasedGroup) (role : RoleSpec) where
  abbrev pub ns : String
  ns = rbg.meta.namespace

  abbrev pub name : String
  name = generate_scaling_adapter_name rbg.meta.name role.name

  abbrev pub read_call : Call
  read_call = get scaling_adapter ns name

  -- Whether the adapter exists is as the role wants it.
  abbrev pub Settled : Trace → Type 0
  Settled t =
      ((is_scaling_adapter_enable role ≡ true)
        × (a : ScalingAdapter) × (client.get_adapter t ns name ≡ ok a))
      ⊎ ((is_scaling_adapter_enable role ≡ false)
          × (e : Error) × (is_not_found e ≡ true)
          × (client.get_adapter t ns name ≡ err e))

  Settled-quiet :
      (t : Trace) → Settled t → reconcile_scaling_adapter client rbg role t ≡ (ok tt, read_call ∷ t)
  unfolding reconcile_scaling_adapter after_get_adapter
  Settled-quiet t (inl (on, a, e)) = ground arith
  Settled-quiet t (inr (off, e, missing, q)) = ground arith

  -- The reconciliation behind the read.
  after_settles :
      Consistent client
      → (t : Trace) → (r : Result ScalingAdapter) → client.get_adapter t ns name ≡ r
      → (after_get_adapter client rbg role r (read_call ∷ t)).0 ≡ ok tt
      → Settled (after_get_adapter client rbg role r (read_call ∷ t)).1
  unfolding after_get_adapter perform new_scaling_adapter
  after_settles c t (ok a) q h = elim (Bool-cases (is_scaling_adapter_enable role)) [
    | inl on ↦ rw on (inl (refl, a, c.reads t ns name ∙ q))
    | inr off ↦
        let (same_ns, same_name) = c.asked t ns name a q in
        rw (off, same_ns, same_name)
          (inr (
            refl,
            not_found,
            refl,
            c.deleted (read_call ∷ t) ns name (rw (off, same_ns, same_name) at h),
          ))
  ]
  after_settles c t (err e) q h = elim (Bool-cases (is_not_found e)) [
    | inr bad ↦ absurd (ground arith)
    | inl missing ↦ elim (Bool-cases (is_scaling_adapter_enable role)) [
      | inr off ↦ rw (missing, off) (inr (refl, e, missing, c.reads t ns name ∙ q))
      | inl on ↦
          let (b, found) =
            c.created (read_call ∷ t) (new_scaling_adapter rbg role) (rw (missing, on) at h) in
          rw (missing, on) (inl (refl, b, found))
    ]
  ]
  after_settles c t panic q h = absurd (cc)

  settles :
      Consistent client
      → (t : Trace) → (reconcile_scaling_adapter client rbg role t).0 ≡ ok tt
      → Settled (reconcile_scaling_adapter client rbg role t).1
  unfolding reconcile_scaling_adapter
  settles c t h = after_settles c t (client.get_adapter t ns name) refl h

  -- With a server that nobody else writes to, a reconciliation of a role's adapter that succeeds
  -- leaves the adapter there if the role enables it and not there if it does not, and the next
  -- reconciliation succeeds with a read alone.
  pub reconcile_scaling_adapter-settles :
      Consistent client
      → (t : Trace) → (reconcile_scaling_adapter client rbg role t).0 ≡ ok tt
      → Settled (reconcile_scaling_adapter client rbg role t).1
        × (reconcile_scaling_adapter client rbg role (reconcile_scaling_adapter client rbg role t).1
            ≡ (ok tt, read_call ∷ (reconcile_scaling_adapter client rbg role t).1))
  reconcile_scaling_adapter-settles c t h =
      let s = settles c t h in (s, Settled-quiet (reconcile_scaling_adapter client rbg role t).1 s)
