-- ===== src/Reconcile/SettledSets.antt =====
-- `Reconciler` of pkg/reconciler/sts_reconciler.go for a StatefulSet and a service that are as they
-- were applied, behind the rolling update.
use rolebasedgroup.Prelude.{
  true, false, some, ◌∷◌, ◌≡◌, refl, ap, ◌∙◌, subst, str_eq, str_eq_refl, Distinct, ok, arith,
}
use rolebasedgroup.Prelude.Int.{ℤ, pos}
use rolebasedgroup.Prelude.Maps.{keys}
use rolebasedgroup.Api.{Labels, RollingUpdate, RolloutStrategy, RoleSpec, RoleBasedGroup}
use rolebasedgroup.Api.Helper.{get_workload_name, get_common_annotations_from_role}
use rolebasedgroup.Objects.{
  StatefulSet, StatefulSetApply, Service, stateful_set_config, service_config,
}
use rolebasedgroup.Workload.{read_stateful_set}
use rolebasedgroup.Client.{
  M, bind_result, Client, Call, Trace, stateful_set, service, get, ◌>>=◌, lift, deref,
}
use rolebasedgroup.Client.Only.{Extends, Extends-trans, Prepares, one_call}
use rolebasedgroup.Equality.{semantically_equal_stateful_set}
use rolebasedgroup.Rollout.Parameters.{validate_rollout_strategy}
use rolebasedgroup.Rollout.Parameters.Completed.{rolling_update_parameters-completed}
use rolebasedgroup.Rollout.States.{get_replica_states}
use rolebasedgroup.Library.{Library, read_or, found_or}
use rolebasedgroup.Reconcile.Applies.{construct_stateful_set-Prepares}
use rolebasedgroup.Reconcile.Settled.{same_meta, same_template, same_map}
use rolebasedgroup.Reconcile.StatefulSets.{
  empty_stateful_set, skips, patch_stateful_set, construct_stateful_set, roll_out,
  reconcile_stateful_set,
}
use rolebasedgroup.Reconcile.Services.{
  semantically_equal_service, construct_service, apply_service, reconcile_headless_service,
  reconcile_stateful_set_role,
}

-- The first StatefulSet is there, has what the second one asks for and a number of replicas, and its
-- rolling update is over; the maps of the second one have no key twice.
pub record StoredSet (n : ℤ) (old new : StatefulSet) : Type 0 where
  pub there : str_eq old.meta.uid "" ≡ false
  pub labels : old.meta.labels ≡ new.meta.labels
  pub annotations : old.meta.annotations ≡ new.meta.annotations
  pub selector : old.selector ≡ new.selector
  pub service_name : old.service_name ≡ new.service_name
  pub template : old.template ≡ new.template
  pub replicas : old.replicas ≡ some n
  pub partition : old.partition ≡ some (pos 0)
  pub distinct_labels : Distinct (keys new.meta.labels)
  pub distinct_annotations : Distinct (keys new.meta.annotations)
  pub distinct_selector : Distinct (keys new.selector)
  pub distinct_template_labels : Distinct (keys new.template.labels)
  pub distinct_template_annotations : Distinct (keys new.template.annotations)

-- The first service has what the second one asks for, whose maps have no key twice.
pub record StoredService (old new : Service) : Type 0 where
  pub labels : old.meta.labels ≡ new.meta.labels
  pub annotations : old.meta.annotations ≡ new.meta.annotations
  pub selector : old.selector ≡ new.selector
  pub distinct_labels : Distinct (keys new.meta.labels)
  pub distinct_annotations : Distinct (keys new.meta.annotations)
  pub distinct_selector : Distinct (keys new.selector)

StoredSet-equal :
    (n : ℤ) (old new : StatefulSet)
    → StoredSet n old new
    → semantically_equal_stateful_set old new ≡ true
unfolding semantically_equal_stateful_set
StoredSet-equal n old new s =
    let m =
      same_meta old.meta new.meta s.labels s.annotations s.distinct_labels s.distinct_annotations in
    let t =
      same_template old.template new.template s.template s.distinct_template_labels
        s.distinct_template_annotations in
    let sel = same_map old.selector new.selector s.selector s.distinct_selector in
    let name : str_eq old.service_name new.service_name ≡ true =
      ap (λ x. str_eq x new.service_name) s.service_name ∙ str_eq_refl new.service_name in
    let there = s.there in ground arith

StoredService-equal :
    (old new : Service)
    → StoredService old new
    → semantically_equal_service (some old) (some new) ≡ true
unfolding semantically_equal_service
StoredService-equal old new s =
    let m =
      same_meta old.meta new.meta s.labels s.annotations s.distinct_labels s.distinct_annotations in
    let sel = same_map old.selector new.selector s.selector s.distinct_selector in ground arith

bind-step :
    {A B : Type 0} (m : M A) (f : A → M B) {a : A} {t u : Trace}
    → m t ≡ (ok a, u)
    → (m >>= f) t ≡ f a u
bind-step m f e = ap (λ r. bind_result r.0 f r.1) e

skips-settled :
    (n : ℤ) (old : StatefulSet)
    → old.partition ≡ some (pos 0)
    → old.replicas ≡ some n
    → skips true (pos 0) old n ≡ ok true
unfolding skips
skips-settled n old p r = rw p (rw r (ground arith))

module _ (client : Client) (lib : Library) (rbg : RoleBasedGroup) (role : RoleSpec) where
  abbrev set_call : Call
  set_call = get stateful_set rbg.meta.namespace (get_workload_name rbg role)

  abbrev service_call : Call
  service_call = get service rbg.meta.namespace (get_workload_name rbg role)

  abbrev validated : RolloutStrategy → RoleSpec
  validated strategy = record role { rollout_strategy = some strategy }

  roll_out-settles :
      (strategy : RolloutStrategy) (u : RollingUpdate) (n surge : ℤ) (old new : StatefulSet)
      (config : StatefulSetApply) (t : Trace)
      → role.replicas ≡ some n
      → strategy.rolling_update ≡ some u
      → client.scaled_value u.max_surge n true ≡ ok surge
      → lib.to_unstructured (stateful_set_config config) ≡ ok tt
      → lib.stateful_set_of config ≡ ok new
      → StoredSet n old new
      → roll_out client lib rbg (validated strategy) strategy n old config t ≡ (ok tt, t)
  unfolding roll_out patch_stateful_set
  roll_out-settles strategy u n surge old new config t r up scaled json converted s =
      let settled =
        rolling_update_parameters-completed client (get_replica_states client) (validated strategy)
          old strategy u n surge t r refl up scaled s.there s.replicas s.partition in
      rw json (
        rw converted (
          rw (StoredSet-equal n old new s)
            (rw settled (rw (skips-settled n old s.partition s.replicas) refl))))

  reconcile_stateful_set-settles :
      (strategy : RolloutStrategy) (u : RollingUpdate) (n surge : ℤ) (old new : StatefulSet)
      (config : StatefulSetApply) (t w : Trace)
      → role.replicas ≡ some n
      → validate_rollout_strategy client role.rollout_strategy n ≡ ok strategy
      → strategy.rolling_update ≡ some u
      → client.scaled_value u.max_surge n true ≡ ok surge
      → client.get_stateful_set t rbg.meta.namespace (get_workload_name rbg role) ≡ ok old
      → construct_stateful_set client lib rbg (validated strategy) old (set_call ∷ t)
        ≡ (ok config, w)
      → lib.to_unstructured (stateful_set_config config) ≡ ok tt
      → lib.stateful_set_of config ≡ ok new
      → StoredSet n old new
      → reconcile_stateful_set client lib rbg role t ≡ (ok tt, w)
  unfolding reconcile_stateful_set read_or found_or
  reconcile_stateful_set-settles strategy u n surge old new config t w r v up scaled found made json
        converted s =
      let read : read_or empty_stateful_set (read_stateful_set client rbg role) t
          ≡ (ok old, set_call ∷ t) =
        rw found refl in
      bind-step (lift (deref role.replicas)) _ (ap (λ o. (deref o, t)) r)
      ∙ bind-step (lift (validate_rollout_strategy client role.rollout_strategy n)) _
          (ap (λ x. (x, t)) v)
      ∙ bind-step (read_or empty_stateful_set (read_stateful_set client rbg role)) _ read
      ∙ bind-step (construct_stateful_set client lib rbg (validated strategy) old) _ made
      ∙ roll_out-settles strategy u n surge old new config w r up scaled json converted s

  headless_service-settles :
      (sts : StatefulSet) (old new : Service) (labels : Labels) (t : Trace)
      → get_common_annotations_from_role role ≡ ok labels
      → client.get_stateful_set t rbg.meta.namespace (get_workload_name rbg role) ≡ ok sts
      → client.get_service (set_call ∷ t) rbg.meta.namespace (get_workload_name rbg role) ≡ ok old
      → lib.to_unstructured (service_config (construct_service client lib rbg role sts labels))
        ≡ ok tt
      → lib.service_of (construct_service client lib rbg role sts labels) ≡ ok new
      → StoredService old new
      → reconcile_headless_service client lib rbg role t ≡ (ok tt, service_call ∷ set_call ∷ t)
  unfolding reconcile_headless_service apply_service read_or found_or
  headless_service-settles sts old new labels t a found there json converted s =
      rw found (rw a (rw json (rw converted (rw there (rw (StoredService-equal old new s) refl)))))

  -- A StatefulSet that is there, has what the configuration that is constructed for it now asks for,
  -- and has the role's replicas and a rolling update that is over, is left alone, and so is the
  -- service behind it that has what its configuration asks for: the reconciliation succeeds, and
  -- makes reads and the apply of the ConfigMap only. The maps of what is asked for have no key twice,
  -- the strategy is valid, and both objects are found where they are read.
  pub reconcile_stateful_set_role-settles :
      (strategy : RolloutStrategy) (u : RollingUpdate) (n surge : ℤ) (old new : StatefulSet)
      (config : StatefulSetApply) (labels : Labels) (old_service new_service : Service)
      (t w : Trace)
      → role.replicas ≡ some n
      → validate_rollout_strategy client role.rollout_strategy n ≡ ok strategy
      → strategy.rolling_update ≡ some u
      → client.scaled_value u.max_surge n true ≡ ok surge
      → client.get_stateful_set t rbg.meta.namespace (get_workload_name rbg role) ≡ ok old
      → construct_stateful_set client lib rbg (validated strategy) old (set_call ∷ t)
        ≡ (ok config, w)
      → lib.to_unstructured (stateful_set_config config) ≡ ok tt
      → lib.stateful_set_of config ≡ ok new
      → StoredSet n old new
      → get_common_annotations_from_role role ≡ ok labels
      → client.get_stateful_set w rbg.meta.namespace (get_workload_name rbg role) ≡ ok old
      → client.get_service (set_call ∷ w) rbg.meta.namespace (get_workload_name rbg role)
        ≡ ok old_service
      → lib.to_unstructured (service_config (construct_service client lib rbg role old labels))
        ≡ ok tt
      → lib.service_of (construct_service client lib rbg role old labels) ≡ ok new_service
      → StoredService old_service new_service
      → (reconcile_stateful_set_role client lib rbg role t ≡ (ok tt, service_call ∷ set_call ∷ w))
        × Extends Prepares t (service_call ∷ set_call ∷ w)
  unfolding reconcile_stateful_set_role
  reconcile_stateful_set_role-settles strategy u n surge old new config labels old_service
        new_service t w r v up scaled found made json converted s a again there service_json
        service_converted service_stored =
      (
        bind-step (reconcile_stateful_set client lib rbg role) _ (
              reconcile_stateful_set-settles strategy u n surge old new config t w r v up scaled
                found made json converted s)
            ∙ headless_service-settles old old_service new_service labels w a again there
                service_json service_converted service_stored,
        Extends-trans Prepares (one_call Prepares set_call tt t) (
            Extends-trans Prepares
              (subst (Extends Prepares (set_call ∷ t)) (ap (λ x. x.1) made) (
                construct_stateful_set-Prepares client lib rbg (validated strategy) old
                  (set_call ∷ t)))
              (Extends-trans Prepares (one_call Prepares set_call tt w)
                (one_call Prepares service_call tt (set_call ∷ w)))),
      )
