-- ===== src/Adapter/Calls.antt =====
-- The calls that `Reconcile` of
-- internal/controller/workloads/rolebasedgroupscalingadapter_controller.go makes.
use rolebasedgroup.Prelude.{
  String, [], ◌∷◌, true, false, not, Option, none, some, ◌≡◌, refl, str_eq, Result, ok, err, panic,
  is_not_found, is_conflict, Bool-cases, inl, inr, subst, ap,
}
use rolebasedgroup.Prelude.Int.{ℤ, eq_ℤ}
use rolebasedgroup.Api.{RoleSpec, RoleBasedGroup, AdapterScaleTargetRef, ScalingAdapter}
use rolebasedgroup.Api.Helper.{get_role, contains_rbg_owner, is_scaling_adapter_managed_by_rbg}
use rolebasedgroup.Client.{
  Client, Call, get, get_object, list, update_group, patch_adapter_spec, patch_adapter_status,
  Trace, perform, attempt, read, deref, lift, pure, fail, role_based_group, scaling_adapter,
}
use rolebasedgroup.Client.Only.{Extends, Extends-trans, Only, bind-Only, no_call, one_call, if-Only}
use rolebasedgroup.Restart.{Request}
use rolebasedgroup.Adapter.{
  bound, not_bound, done, set_role_replicas, spec_with_replicas, try_update, update_role_replicas,
  unbind, extract_selector, bind_adapter, scale_role, scale_bound, reconcile_role, with_role,
  with_group, reconcile_adapter, after_get, reconcile,
}
use rolebasedgroup.Adapter.Scaling.{Tries, last, again, Retries}

-- The calls that scale a role: reads, the update of the group, and the patches of the spec and the
-- status of the adapter. The patch of its owner references is none of them.
abbrev pub Scales : Call → Type 0
Scales (get kind namespace name) = Unit
Scales (get_object version kind namespace name) = Unit
Scales (list kind namespace labels) = Unit
Scales (update_group g) = Unit
Scales (patch_adapter_spec namespace name spec) = Unit
Scales (patch_adapter_status namespace name spec status) = Unit
Scales _ = ⊥

-- A retry makes the calls of its tries.
Tries-Extends :
    (S : Type 0) (f : S → Trace → (Result (Unit {0}) × S) × Trace)
    → ((s : S) (t : Trace) → Extends Scales t (f s t).1)
    → (s : S) (t : Trace) (r : (Result (Unit {0}) × S) × Trace) → Tries S f s t r
    → Extends Scales t r.1
Tries-Extends S f h s t r (last _ _) = h s t
Tries-Extends S f h s t r (again _ s' _ t' e _ q c more) =
    Extends-trans Scales (subst (Extends Scales t) (ap (λ x. x.1) q) (h s t))
      (Tries-Extends S f h s' t' r more)

module _ (client : Client) where
  perform-Scales : (c : Call) → Scales c → Only Scales (perform client c)
  unfolding perform
  perform-Scales c h t = one_call Scales c h t

  abbrev scaled : RoleBasedGroup → String → Option ℤ → Call
  scaled rbg name n = update_group (record rbg { roles = set_role_replicas rbg.roles name n })

  try_update-Scales :
      (name : String) (n : Option ℤ) (rbg : RoleBasedGroup) (t : Trace)
      → Extends Scales t (try_update client name n rbg t).1
  unfolding try_update perform
  try_update-Scales name n rbg t = settled (client.write t (scaled rbg name n)) refl
    where
      settled :
          (r : Result (Unit {0}))
          → client.write t (scaled rbg name n) ≡ r
          → Extends Scales t (try_update client name n rbg t).1
      settled (ok _) q = rw q (one_call Scales (scaled rbg name n) tt t)
      settled (err e) q = elim (Bool-cases (is_conflict e)) [
        | inl conflict ↦
            rw (q, conflict)
              (
                get role_based_group rbg.meta.namespace rbg.meta.name ∷ scaled rbg name n ∷ [],
                refl,
                (tt, (tt, tt)),
              )
        | inr final ↦ rw (q, final) (one_call Scales (scaled rbg name n) tt t)
      ]
      settled panic q = rw q (one_call Scales (scaled rbg name n) tt t)

  update_role_replicas-Scales :
      Retries client
      → (rbg : RoleBasedGroup) (name : String) (n : Option ℤ)
      → Only Scales (update_role_replicas client rbg name n)
  unfolding update_role_replicas
  update_role_replicas-Scales retries rbg name n t =
      Tries-Extends RoleBasedGroup (try_update client name n) (try_update-Scales name n) rbg t _
        (retries RoleBasedGroup (try_update client name n) rbg t)

  module _ (retries : Retries client) (adapter : ScalingAdapter) where
    abbrev unbinding : Call
    unbinding =
        patch_adapter_status adapter.meta.namespace adapter.meta.name adapter.spec
          (record (adapter.status) { phase = not_bound })

    unbind-Scales : Only Scales (unbind client adapter)
    unfolding unbind perform
    unbind-Scales t = elim (Bool-cases (str_eq adapter.status.phase not_bound)) [
      | inl same ↦ rw same (no_call Scales t)
      | inr other ↦ kept (client.write t unbinding) refl other
    ]
      where
        kept :
            (r : Result (Unit {0}))
            → client.write t unbinding ≡ r
            → str_eq adapter.status.phase not_bound ≡ false
            → Extends Scales t (unbind client adapter t).1
        kept (ok _) q other = rw (other, q) (one_call Scales unbinding tt t)
        kept (err e) q other = rw (other, q) (one_call Scales unbinding tt t)
        kept panic q other = rw (other, q) (one_call Scales unbinding tt t)

    module _ (rbg : RoleBasedGroup) (role : RoleSpec) where
      extract_selector-Scales : Only Scales (extract_selector client adapter rbg role)
      unfolding extract_selector
      extract_selector-Scales = bind-Only Scales _ _ (one_call Scales _ tt) λ labels. no_call Scales

      bind_adapter-Scales : Only Scales (bind_adapter client adapter rbg role)
      unfolding bind_adapter extract_selector
      bind_adapter-Scales =
          bind-Only Scales
            (perform client (
              patch_adapter_spec adapter.meta.namespace adapter.meta.name
                (spec_with_replicas adapter.spec role.replicas)))
            _ (perform-Scales _ tt)
            λ _.
              bind-Only Scales (extract_selector client adapter rbg role) _
                (extract_selector-Scales)
                λ selector. bind-Only Scales _ _ (perform-Scales _ tt) λ _. no_call Scales

      scale_bound-Scales : (m n : Option ℤ) → Only Scales (scale_bound client adapter rbg role m n)
      unfolding scale_bound scale_role
      scale_bound-Scales (some m) (some n) =
          if-Only Scales (eq_ℤ m n) (pure done) (scale_role client adapter rbg role m)
            (no_call Scales)
            (bind-Only Scales (update_role_replicas client rbg role.name (some m)) _
              (update_role_replicas-Scales retries rbg role.name (some m))
              λ _. bind-Only Scales _ _ (perform-Scales _ tt) λ _. no_call Scales)
      scale_bound-Scales none n = no_call Scales
      scale_bound-Scales (some m) none = no_call Scales

      reconcile_role-Scales :
          contains_rbg_owner adapter rbg ≡ true
          → Only Scales (reconcile_role client adapter rbg role)
      unfolding reconcile_role
      reconcile_role-Scales owns = rw owns (
          if-Only Scales (not (str_eq adapter.status.phase bound))
            (bind_adapter client adapter rbg role)
            (scale_bound client adapter rbg role adapter.spec.replicas role.replicas)
            bind_adapter-Scales (scale_bound-Scales adapter.spec.replicas role.replicas))

    with_role-Scales :
        (rbg : RoleBasedGroup) (r : Result RoleSpec)
        → contains_rbg_owner adapter rbg ≡ true
        → Only Scales (with_role client adapter rbg r)
    unfolding with_role
    with_role-Scales rbg (ok role) owns = reconcile_role-Scales rbg role owns
    with_role-Scales rbg (err e) owns = unbind-Scales
    with_role-Scales rbg panic owns = no_call Scales

    with_group-Scales :
        (target : AdapterScaleTargetRef) (r : Result RoleBasedGroup)
        → Only Scales (with_group client adapter target r)
    unfolding with_group is_scaling_adapter_managed_by_rbg contains_rbg_owner
    with_group-Scales target (ok rbg) = elim (Bool-cases (contains_rbg_owner adapter rbg)) [
      | inl owns ↦ rw owns (with_role-Scales rbg (get_role rbg target.role) owns)
      | inr not_owns ↦ rw not_owns (no_call Scales)
    ]
    with_group-Scales target (err e) = no_call Scales
    with_group-Scales target panic = no_call Scales

    reconcile_adapter-Scales : Only Scales (reconcile_adapter client adapter)
    unfolding reconcile_adapter
    reconcile_adapter-Scales = if-Only Scales adapter.meta.deleting (pure done) _ (no_call Scales) (
        bind-Only Scales (lift (deref adapter.spec.scale_target_ref)) _ (no_call Scales) λ target.
          bind-Only Scales
            (attempt (
              read (get role_based_group adapter.meta.namespace target.name)
                (λ t. client.get_group t adapter.meta.namespace target.name)))
            (with_group client adapter target)
            (one_call Scales (get role_based_group adapter.meta.namespace target.name) tt)
            (with_group-Scales target))

  after_get-Scales : Retries client → (r : Result ScalingAdapter) → Only Scales (after_get client r)
  unfolding after_get
  after_get-Scales retries (ok adapter) = reconcile_adapter-Scales retries adapter
  after_get-Scales retries (err e) =
      if-Only Scales (is_not_found e) (pure done) (fail e) (no_call Scales) (no_call Scales)
  after_get-Scales retries panic = no_call Scales

  -- Whatever the server answers, a reconciliation of a scaling adapter makes reads, updates of
  -- groups, and patches of the spec and the status of adapters only: it creates and deletes nothing,
  -- and never patches the owner references of an adapter. A retry on conflicts makes the calls of
  -- its tries.
  pub reconcile-Scales :
      Retries client → (req : Request) (t : Trace) → Extends Scales t (reconcile client req t).1
  unfolding reconcile
  reconcile-Scales retries req t =
      Extends-trans Scales (one_call Scales (get scaling_adapter req.namespace req.name) tt t)
        (after_get-Scales retries (client.get_adapter t req.namespace req.name) _)
