-- ===== src/Examples/Watches.antt =====
-- Two workers of the controller of the groups, rolebasedgroup_controller.go, that add the same watch,
-- and the events of a scaling adapter that wake its controller,
-- rolebasedgroupscalingadapter_controller.go.
use rolebasedgroup.Prelude.{[], ◌∷◌, ◌+◌, ◌≤◌, ◌↔◌, if◌then◌else◌, some, true, ◌≡◌, false, refl}
use rolebasedgroup.Prelude.Int.{pos}
use rolebasedgroup.Api.{ScalingAdapter}
use rolebasedgroup.Examples.Data.{adapter_of}
use rolebasedgroup.Setup.Workers.{times, owing, Reachable}
use rolebasedgroup.Setup.Workers.Owned.{Reachable-Owned}
use rolebasedgroup.Setup.{
  Watches, set_up, lws_crd, outside, unseen, stored, worker_step, has, store, owns, custom_kind,
  adapter_update, same_adapter_spec,
}

abbrev first : Watches
first = set_up false false

abbrev raced : Watches
raced = owns lws_crd (owns lws_crd (store lws_crd (store lws_crd first)))

-- Both workers look for the name before either stores it, and so both call `Owns`.
both_own : Reachable 2 first (outside ∷ outside ∷ []) raced
unfolding worker_step set_up has store owns
both_own = Reachable.next (outside ∷ []) [] (stored lws_crd) lws_crd true _ (
    Reachable.next [] (stored lws_crd ∷ []) (stored lws_crd) lws_crd true _ (
      Reachable.next (stored lws_crd ∷ []) [] (unseen lws_crd) lws_crd true _ (
        Reachable.next [] (unseen lws_crd ∷ []) (unseen lws_crd) lws_crd true _ (
          Reachable.next (unseen lws_crd ∷ []) [] outside lws_crd true first
            (Reachable.next [] (outside ∷ []) outside lws_crd true first Reachable.start)))))

owned_twice : times lws_crd raced.owned ≡ 2
unfolding set_up owns store custom_kind
owned_twice = refl

Reachable-Owned_example :
    ((has lws_crd raced ≡ true)
      ↔ (1 ≤ times lws_crd raced.owned + owing lws_crd (outside ∷ outside ∷ [])))
    × (times lws_crd raced.owned ≤ (if has lws_crd first then 1 else 2))
    × (times lws_crd raced.started ≡ (if has lws_crd first then 1 else 0))
Reachable-Owned_example =
    Reachable-Owned false false 2 (outside ∷ outside ∷ []) raced both_own lws_crd

-- A user who scales an adapter wakes its controller; a status that the controller writes does not.
abbrev adapter : ScalingAdapter
adapter = adapter_of "prefill" "Bound"

scaled_adapter_wakes :
    adapter_update
      (some adapter)
      (some (record adapter { spec = record adapter.spec { replicas = some (pos 5) } }))
    ≡ true
unfolding adapter_update same_adapter_spec
scaled_adapter_wakes = refl

status_does_not_wake :
    adapter_update
      (some adapter)
      (some (record adapter { status = record adapter.status { replicas = some (pos 5) } }))
    ≡ false
unfolding adapter_update same_adapter_spec
status_does_not_wake = refl
