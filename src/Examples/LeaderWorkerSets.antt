-- ===== src/Examples/LeaderWorkerSets.antt =====
-- The reconciler of pkg/reconciler/lws_reconciler.go on a LeaderWorkerSet that it applied before.
use rolebasedgroup.Prelude.{map, Result, ok, ◌∷◌, ◌≡◌, refl, [], contains, none, some}
use rolebasedgroup.Prelude.Int.{pos}
use rolebasedgroup.Prelude.Decimal.{format_ℤ}
use rolebasedgroup.Prelude.Maps.{map_get, map_put}
use rolebasedgroup.Api.Helper.{
  enable_gang_scheduling, find_role, get_common_annotations_from_role, get_common_labels_from_role,
  get_role, get_workload_name,
}
use rolebasedgroup.Client.{leader_worker_set, Client, Trace, get, perform}
use rolebasedgroup.Client.Only.{Extends, Prepares}
use rolebasedgroup.Discovery.{
  inject_runtime, inject_profile, override, override_all, add_missing, add_volumes, build_env,
  build_local_role_vars, inject_env, inject_runtimes, inject_sidecar, merge_env, mount_config,
  put_env, put_envs, sort_envs,
}
use rolebasedgroup.Discovery.Config.{
  build_cluster_config, build_instances, build_roles_info, get_role_names, instances_from,
  put_ports, role_instances,
}
use rolebasedgroup.Discovery.Inject.{
  config_map_apply, inject_config, reconcile_config_map, semantically_equal_config_map,
}
use rolebasedgroup.Equality.{drop_if, entries_in, filter_system_annotations, maps_equal}
use rolebasedgroup.Examples.Data.{engine, decode, group, template}
use rolebasedgroup.Examples.Library.{or_default, cluster, library}
use rolebasedgroup.Library.{controlled_meta, found_or, patch_object, read_or}
use rolebasedgroup.Objects.{LeaderWorkerSet, LeaderWorkerSetApply}
use rolebasedgroup.Reconcile.LeaderWorkerSets.{
  adds_any, left_by_leader, left_by_runtimes, template_left, construct_members,
  construct_leader_worker_set, construct_member, empty_leader_worker_set, lws_restart_policy,
  reconcile_leader_worker_set_role,
}
use rolebasedgroup.Reconcile.SettledLeaderWorkerSets.{reconcile_leader_worker_set_role-settles}
use rolebasedgroup.Api.{RoleSpec}
use rolebasedgroup.Template.{
  construct_pod_template, inject_objects, patch_pod_template, template_labels,
}

abbrev lws_role : RoleSpec
lws_role = record decode {
  workload = record { api_version = "leaderworkerset.x-k8s.io/v1"; kind = "LeaderWorkerSet" };
  leader_worker_set = record {
    size = some (pos 2);
    patch_leader_template = none;
    patch_worker_template = none;
  };
}

abbrev no_config : LeaderWorkerSetApply
no_config = record {
  meta = empty_leader_worker_set.meta;
  replicas = pos 0;
  leader_template = template;
  worker_template = template;
  size = pos 0;
  restart_policy = "";
  rolling_update = none;
}

abbrev applied : LeaderWorkerSetApply
applied = or_default (construct_leader_worker_set cluster library group lws_role []).0 no_config

abbrev asked : LeaderWorkerSet
asked = or_default (library.leader_worker_set_of applied) empty_leader_worker_set

abbrev running_lws : LeaderWorkerSet
running_lws = record asked {
  meta = record asked.meta { uid = "uid-4" };
  status_replicas = pos 2;
  ready_replicas = pos 2;
}

abbrev running : Client
running = record cluster { get_leader_worker_set = λ t ns n. ok running_lws }

abbrev constructed : Trace
constructed = (construct_leader_worker_set running library group lws_role []).1

reconcile_leader_worker_set_role-settles_example :
    (reconcile_leader_worker_set_role running library group lws_role []
      ≡ (ok tt, get leader_worker_set "default" "llm-decode" ∷ constructed))
    × Extends Prepares [] (get leader_worker_set "default" "llm-decode" ∷ constructed)
unfolding construct_leader_worker_set construct_members left_by_leader left_by_runtimes adds_any
    template_left construct_member patch_pod_template lws_restart_policy construct_pod_template
    inject_objects inject_config reconcile_config_map build_cluster_config build_roles_info
    role_instances build_instances read_or found_or semantically_equal_config_map config_map_apply
    controlled_meta get_workload_name patch_object perform inject_sidecar enable_gang_scheduling
    find_role get_role get_common_annotations_from_role get_common_labels_from_role get_role_names
    instances_from put_ports inject_runtimes build_env build_local_role_vars inject_env merge_env
    mount_config put_env put_envs sort_envs drop_if filter_system_annotations format_ℤ map_put
    template_labels contains maps_equal entries_in map_get
reconcile_leader_worker_set_role-settles_example =
    reconcile_leader_worker_set_role-settles running library group lws_role applied.leader_template
      (pos 2) running_lws asked applied [] constructed refl refl refl refl
      (record {
        there = refl;
        labels = refl;
        annotations = refl;
        replicas = refl;
        old_leader = refl;
        new_leader = refl;
        workers = refl;
        old_size = refl;
        new_size = refl;
        restart_policy = refl;
        distinct_labels = (refl, (refl, tt));
        distinct_annotations = (refl, tt);
        distinct_leader = ((refl, (refl, (refl, tt))), tt);
        distinct_workers = ((refl, (refl, (refl, tt))), tt);
      })

-- A profile with a container that the template has too, which the role's runtime gives an argument.
abbrev traced_role : RoleSpec
traced_role = record lws_role {
  engine_runtimes =
      record {
        profile_name = "patio";
        inject_containers = [];
        containers = record engine { args = "--trace" ∷ []; env = [] } ∷ [];
      }
      ∷ [];
}

abbrev profiled : Client
profiled = record cluster {
  get_profile = λ t n. ok (record { init_containers = []; containers = engine ∷ []; volumes = [] });
}

abbrev traced : Result LeaderWorkerSetApply
traced =
    (construct_leader_worker_set profiled library (record group { roles = traced_role ∷ [] })
      traced_role []).0

-- The argument for the leader's container gets into the workers' one.
worker_gets_the_argument :
    map (λ c. c.args) (or_default traced no_config).worker_template.containers
    ≡ ("--trace" ∷ []) ∷ []
unfolding construct_leader_worker_set construct_members left_by_leader left_by_runtimes adds_any
    template_left construct_member patch_pod_template lws_restart_policy construct_pod_template
    inject_objects inject_config reconcile_config_map build_cluster_config build_roles_info
    role_instances build_instances read_or found_or semantically_equal_config_map config_map_apply
    controlled_meta get_workload_name patch_object perform inject_sidecar enable_gang_scheduling
    find_role get_role get_common_annotations_from_role get_common_labels_from_role get_role_names
    instances_from put_ports inject_runtimes inject_runtime inject_profile override override_all
    add_missing add_volumes build_env build_local_role_vars inject_env merge_env mount_config
    put_env put_envs sort_envs drop_if filter_system_annotations format_ℤ map_put template_labels
    contains maps_equal entries_in map_get
worker_gets_the_argument = refl
