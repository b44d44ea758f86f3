-- ===== src/Examples/Objects.antt =====
-- Statuses, adapters, pods and StatefulSets, compared and changed.
use rolebasedgroup.Prelude.{
  String, true, some, List, [], ◌∷◌, map, ◌≡◌, ◌↔◌, refl, All, contains, ok, str_eq, if◌then◌else◌,
}
use rolebasedgroup.Prelude.Int.{ℤ, pos}
use rolebasedgroup.Api.{Condition, RoleStatus, RoleBasedGroupStatus, RoleBasedGroup, Container}
use rolebasedgroup.Api.Helper.{find_role}
use rolebasedgroup.Client.{
  Call, update_group, patch_adapter_spec, patch_adapter_status, Trace, perform,
}
use rolebasedgroup.Status.{
  ready_type, restart_in_progress_type, set_condition, restart_condition_true, merge_statuses,
  updated_status,
}
use rolebasedgroup.Status.Laws.{
  condition_status, find_status, latest_status, set_condition-status, merge_statuses-find,
  updated_status-ready,
}
use rolebasedgroup.Adapter.{
  done, after_1, spec_with_replicas, set_role_replicas, try_update, update_role_replicas,
  bind_adapter, scale_bound,
}
use rolebasedgroup.Adapter.Scaling.{
  last, replicas_of, set_role_replicas-find, update_role_replicas-writes,
}
use rolebasedgroup.Adapter
use rolebasedgroup.Adapter.Calls.{Scales, reconcile-Scales}
use rolebasedgroup.Client.Only.{Extends}
use rolebasedgroup.Adapter.Phases.{bound_status, bind_adapter-settles}
use rolebasedgroup.Discovery.{merge_env, build_env, add_missing}
use rolebasedgroup.Discovery.Env.{find_env, last_env, or_else, merge_env-find}
use rolebasedgroup.Discovery.Sidecar.{Adds, add_missing-Adds}
use rolebasedgroup.Equality.{pod_spec_equal, sort_by}
use rolebasedgroup.Equality.Sound.{core, pod_spec_equal-core}
use rolebasedgroup.Equality.Stable.{pod_spec_equal_refl}
use rolebasedgroup.Examples.Data.{roles, prefill, group, adapter_of, group_server, engine, template}

abbrev restarting : Condition
restarting = record {
  type = restart_in_progress_type;
  status = "True";
  reason = "RBGRestart";
  message = "";
}

abbrev ready : Condition
ready = record { type = ready_type; status = "True"; reason = "AllRolesReady"; message = "" }

set_condition-status_example :
    condition_status ready_type (set_condition restarting (ready ∷ [])) ≡ (
      if str_eq restarting.type ready_type
      then some restarting.status
      else condition_status ready_type (ready ∷ []))
set_condition-status_example = set_condition-status restarting (ready ∷ []) ready_type

abbrev status_of : String → ℤ → RoleStatus
status_of name n = record { name = name; ready_replicas = n; replicas = pos 2 }

abbrev olds : List RoleStatus
olds = status_of "prefill" (pos 0) ∷ status_of "router" (pos 2) ∷ []

abbrev news : List RoleStatus
news = status_of "prefill" (pos 2) ∷ status_of "decode" (pos 1) ∷ []

merge_statuses-find_example :
    find_status "prefill" (merge_statuses news olds)
    ≡ latest_status "prefill" news (find_status "prefill" olds)
merge_statuses-find_example = merge_statuses-find news olds "prefill"

abbrev group_status : RoleBasedGroupStatus
group_status = record { conditions = restarting ∷ []; role_statuses = olds }

updated_status-ready_example :
    ((condition_status ready_type (updated_status group_status news).conditions ≡ some "True")
      ↔ All (λ s. s.ready_replicas ≡ s.replicas) news)
    × (restart_condition_true (updated_status group_status news).conditions
        ≡ restart_condition_true (restarting ∷ []))
updated_status-ready_example = updated_status-ready group_status news

set_role_replicas-find_example :
    find_role (set_role_replicas roles "prefill" (some (pos 5))) "decode" ≡ (
      if str_eq "prefill" "decode"
      then replicas_of (some (pos 5)) (find_role roles "decode")
      else find_role roles "decode")
set_role_replicas-find_example = set_role_replicas-find roles "prefill" "decode" (some (pos 5))

update_role_replicas-writes_example :
    (g : RoleBasedGroup) × (v : Trace) × ((update_role_replicas group_server group "prefill"
        (some (pos 5))
        []).1
      ≡ update_group (record g { roles = set_role_replicas g.roles "prefill" (some (pos 5)) }) ∷ v)
unfolding update_role_replicas try_update perform
update_role_replicas-writes_example =
    update_role_replicas-writes group_server "prefill" (some (pos 5)) (λ S f s t. last s t) group []
      refl

reconcile-Scales_example :
    Extends Scales []
      (Adapter.reconcile group_server (record { namespace = "default"; name = "llm-prefill" }) []).1
reconcile-Scales_example =
    reconcile-Scales group_server (λ S f s t. last s t)
      (record { namespace = "default"; name = "llm-prefill" }) []

bind_adapter-settles_example :
    (selector : String) × (read_call : Call) × ((bind_adapter group_server
        (adapter_of "prefill" "")
        group
        prefill
        []).1
      ≡ patch_adapter_status "default" "llm-prefill"
          (adapter_of "prefill" "").spec
          (bound_status group_server (adapter_of "prefill" "") group prefill selector)
        ∷ read_call
        ∷ patch_adapter_spec "default" "llm-prefill"
            (spec_with_replicas (adapter_of "prefill" "").spec (some (pos 2)))
        ∷ [])
    × ((v : Trace)
        → scale_bound group_server
            (adapter_of "prefill" "")
            group
            prefill
            (spec_with_replicas (adapter_of "prefill" "").spec (some (pos 2))).replicas
            (some (pos 2))
            v
          ≡ (ok done, v))
unfolding bind_adapter perform
bind_adapter-settles_example =
    bind_adapter-settles group_server (adapter_of "prefill" "") group prefill [] after_1 refl

merge_env-find_example :
    find_env (merge_env (build_env group prefill) engine.env) "ROLE_NAME"
    ≡ or_else (last_env (build_env group prefill) "ROLE_NAME") (last_env engine.env "ROLE_NAME")
merge_env-find_example = merge_env-find (build_env group prefill) engine.env "ROLE_NAME"

abbrev sidecar : Container
sidecar = record engine { name = "patio-runtime" }

add_missing-Adds_example :
    Adds (sidecar ∷ []) (engine ∷ []) (add_missing (sidecar ∷ []) (engine ∷ []))
unfolding contains
add_missing-Adds_example = add_missing-Adds (sidecar ∷ []) (engine ∷ []) (refl, tt)

template_equal : pod_spec_equal template template ≡ true
template_equal = pod_spec_equal_refl template

pod_spec_equal-core_example :
    map core (sort_by (λ c. c.name) template.containers)
    ≡ map core (sort_by (λ c. c.name) template.containers)
pod_spec_equal-core_example = pod_spec_equal-core template template template_equal
