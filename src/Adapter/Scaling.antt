-- ===== src/Adapter/Scaling.antt =====
-- How a scaling adapter of
-- internal/controller/workloads/rolebasedgroupscalingadapter_controller.go scales a role: what is
-- written, and what a retry does.
use text.Mathlib.TextEquality.{eq_iff}
use rolebasedgroup.Prelude.{
  String, true, Option, none, some, List, [], ◌∷◌, ◌≡◌, refl, str_eq, if◌then◌else◌, Error, Result,
  ok, err, panic, is_conflict, arith,
}
use rolebasedgroup.Prelude.Int.{ℤ}
use rolebasedgroup.Api.{RoleSpec, RoleBasedGroup}
use rolebasedgroup.Api.Helper.{find_role}
use rolebasedgroup.Client.{Client, Call, update_group, Trace, perform}
use rolebasedgroup.Adapter.{set_role_replicas, try_update, update_role_replicas}

abbrev pub replicas_of : Option ℤ → Option RoleSpec → Option RoleSpec
replicas_of n none = none
replicas_of n (some r) = some (record r { replicas = n })

-- Setting the replicas of a role changes that role's replicas, and no other role that is found.
pub set_role_replicas-find :
    (roles : List RoleSpec) (name other : String) (n : Option ℤ)
    → find_role (set_role_replicas roles name n) other
      ≡ (if str_eq name other then replicas_of n (find_role roles other) else find_role roles other)
unfolding find_role set_role_replicas
set_role_replicas-find [] name other n = ground arith
set_role_replicas-find (r ∷ roles) name other n = ground (
  arith,
  eq_iff r.name name,
  eq_iff r.name other,
  eq_iff name other,
  set_role_replicas-find roles name other n,
)

-- `retry.RetryOnConflict` ends with a try, the first or one behind a conflict.
pub data Tries (S : Type 0) (f : S → Trace → (Result (Unit {0}) × S) × Trace)
    : S → Trace → (Result (Unit {0}) × S) × Trace → Type 0 where
  last : (s : S) (t : Trace) → Tries S f s t (f s t)
  again :
      (s s' : S) (t t' : Trace) (e : Error) (r : (Result (Unit {0}) × S) × Trace)
      → f s t ≡ ((err e, s'), t')
      → is_conflict e ≡ true
      → Tries S f s' t' r
      → Tries S f s t r

module _ (client : Client) where
  abbrev pub Retries : Type 1
  Retries =
      (S : Type 0) (f : S → Trace → (Result (Unit {0}) × S) × Trace) (s : S) (t : Trace)
      → Tries S f s t (client.retry_on_conflict S f s t)

  module _ (name : String) (n : Option ℤ) where
    -- A group whose role of the name has the replicas is written by the last call.
    abbrev Wrote : Trace → Type 0
    Wrote u =
        (g : RoleBasedGroup) × (v : Trace) × (u
          ≡ update_group (record g { roles = set_role_replicas g.roles name n }) ∷ v)

    try_update-writes :
        (rbg : RoleBasedGroup) (t : Trace)
        → (try_update client name n rbg t).0.0 ≡ ok tt
        → Wrote (try_update client name n rbg t).1
    unfolding try_update perform
    try_update-writes rbg t h =
        go
          (client.write t
            (update_group (record rbg { roles = set_role_replicas rbg.roles name n })))
          refl
      where
        update_call : Call
        update_call = update_group (record rbg { roles = set_role_replicas rbg.roles name n })

        failed :
            (e : Error)
            → client.write t update_call ≡ err e
            → (r : Result RoleBasedGroup)
            → client.get_group (update_call ∷ t) rbg.meta.namespace rbg.meta.name ≡ r
            → ⊥
        failed e q (ok g) p = ground arith
        failed e q (err e') p = ground arith
        failed e q panic p = ground arith

        go :
            (r : Result (Unit {0}))
            → client.write t
                (update_group (record rbg { roles = set_role_replicas rbg.roles name n }))
              ≡ r
            → Wrote (try_update client name n rbg t).1
        go (ok _) q = (rbg, t, ground arith)
        go (err e) q =
            absurd (
              failed e q (client.get_group (update_call ∷ t) rbg.meta.namespace rbg.meta.name) refl)
        go panic q = absurd (ground arith)

    Tries-writes :
        (rbg : RoleBasedGroup) (t : Trace) (r : (Result (Unit {0}) × RoleBasedGroup) × Trace)
        → Tries RoleBasedGroup (try_update client name n) rbg t r
        → r.0.0 ≡ ok tt
        → Wrote r.1
    Tries-writes rbg t r (last _ _) h = try_update-writes rbg t h
    Tries-writes rbg t r (again _ s' _ t' e _ q c more) h = Tries-writes s' t' r more h

    -- An update of a role's replicas that succeeds, through however many conflicts, ends with the
    -- update of a group to those replicas of that role, if the library retries as it documents: its
    -- result is that of a last try, and it tries again only behind a conflict.
    pub update_role_replicas-writes :
        Retries
        → (rbg : RoleBasedGroup) (t : Trace) → (update_role_replicas client rbg name n t).0 ≡ ok tt
        → Wrote (update_role_replicas client rbg name n t).1
    unfolding update_role_replicas
    update_role_replicas-writes retries rbg t h =
        Tries-writes rbg t
          (client.retry_on_conflict RoleBasedGroup (try_update client name n) rbg t)
          (retries RoleBasedGroup (try_update client name n) rbg t) h
