-- ===== src/Examples/Settles.antt =====
-- The reconcilers of pkg/reconciler on a Deployment, and on a StatefulSet with its service, that they
-- applied before.
use rolebasedgroup.Prelude.{ok, ◌∷◌, ◌≡◌, refl, [], contains, none, some}
use rolebasedgroup.Prelude.Int.{pos}
use rolebasedgroup.Prelude.Decimal.{format_ℤ}
use rolebasedgroup.Prelude.Maps.{map_get, map_put}
use rolebasedgroup.Api.Helper.{
  enable_gang_scheduling, find_role, get_common_annotations_from_role, get_common_labels_from_role,
  get_role, get_workload_name, role_size_annotation_key,
}
use rolebasedgroup.Client.{Client, Trace, deployment, get, perform, service, stateful_set}
use rolebasedgroup.Client.Only.{Extends, Prepares}
use rolebasedgroup.Discovery.{
  build_env, build_local_role_vars, inject_env, inject_runtimes, inject_sidecar, merge_env,
  mount_config, put_env, put_envs, sort_envs,
}
use rolebasedgroup.Discovery.Config.{
  build_cluster_config, build_instances, build_roles_info, get_role_names, instances_from,
  put_ports, role_instances,
}
use rolebasedgroup.Discovery.Inject.{
  config_map_apply, inject_config, reconcile_config_map, semantically_equal_config_map,
}
use rolebasedgroup.Equality.{drop_if, entries_in, filter_system_annotations, maps_equal}
use rolebasedgroup.Examples.Data.{decode, group, prefill, template}
use rolebasedgroup.Examples.Library.{or_default, cluster, library}
use rolebasedgroup.Library.{controlled_meta, found_or, patch_object, read_or}
use rolebasedgroup.Objects.{Deployment, DeploymentApply, Service, StatefulSet, StatefulSetApply}
use rolebasedgroup.Reconcile.{match_labels}
use rolebasedgroup.Reconcile.Deployments.{
  construct_deployment, empty_deployment, reconcile_deployment_role,
}
use rolebasedgroup.Api.{Labels, RoleSpec, from_int}
use rolebasedgroup.Rollout.Parameters.{default_strategy, validate_rollout_strategy}
use rolebasedgroup.Reconcile.StatefulSets.{construct_stateful_set, empty_stateful_set}
use rolebasedgroup.Reconcile.Services.{construct_service, reconcile_stateful_set_role}
use rolebasedgroup.Reconcile.SettledSets.{reconcile_stateful_set_role-settles}
use rolebasedgroup.Reconcile.Settled.{reconcile_deployment_role-settles}
use rolebasedgroup.Template.{construct_pod_template, inject_objects, template_labels}

abbrev no_config : DeploymentApply
no_config = record {
  meta = empty_deployment.meta;
  replicas = pos 0;
  template = template;
  selector = [];
  strategy = none;
}

-- What the first reconciliation applies, and the API server stores.
abbrev applied : DeploymentApply
applied =
    or_default (construct_deployment cluster library group decode empty_deployment []).0 no_config

abbrev asked : Deployment
asked = or_default (library.deployment_of applied) empty_deployment

abbrev deployed : Deployment
deployed = record asked { meta = record asked.meta { uid = "uid-2" }; ready_replicas = pos 2 }

abbrev later : Client
later = record cluster { get_deployment = λ t ns n. ok deployed }

abbrev after : Trace
after =
    (construct_deployment later library group decode deployed
      (get deployment "default" "llm-decode" ∷ [])).1

reconcile_deployment_role-settles_example :
    (reconcile_deployment_role later library group decode [] ≡ (ok tt, after))
    × Extends Prepares [] after
unfolding construct_deployment construct_pod_template inject_objects inject_config
    reconcile_config_map build_cluster_config build_roles_info role_instances build_instances
    read_or found_or semantically_equal_config_map config_map_apply controlled_meta
    get_workload_name patch_object perform inject_sidecar enable_gang_scheduling find_role get_role
    get_common_annotations_from_role get_common_labels_from_role get_role_names instances_from
    put_ports inject_runtimes build_env build_local_role_vars inject_env merge_env mount_config
    put_env put_envs sort_envs drop_if filter_system_annotations format_ℤ map_put match_labels
    template_labels contains maps_equal entries_in map_get
reconcile_deployment_role-settles_example =
    reconcile_deployment_role-settles later library group decode deployed asked applied [] after
      refl refl refl refl
      (record {
        labels = (refl, (refl, tt));
        annotations = (refl, tt);
        selector = (refl, (refl, tt));
        template_labels = (refl, (refl, (refl, tt)));
        template_annotations = tt;
      })
      (record {
        there = refl;
        labels = refl;
        annotations = refl;
        replicas = refl;
        selector = refl;
        template = refl;
      })

abbrev validated : RoleSpec
validated = record prefill { rollout_strategy = some default_strategy }

abbrev no_set_config : StatefulSetApply
no_set_config = record {
  meta = empty_deployment.meta;
  service_name = "";
  replicas = pos 0;
  template = template;
  pod_management_policy = "";
  selector = [];
  update_strategy = none;
}

abbrev applied_set : StatefulSetApply
applied_set =
    or_default (construct_stateful_set cluster library group validated empty_stateful_set []).0
      no_set_config

abbrev asked_set : StatefulSet
asked_set = or_default (library.stateful_set_of applied_set) empty_stateful_set

abbrev running_set : StatefulSet
running_set = record asked_set {
  meta = record asked_set.meta { uid = "uid-3" };
  partition = some (pos 0);
  ready_replicas = pos 2;
}

abbrev annotations : Labels
annotations = (role_size_annotation_key, "2") ∷ []

abbrev no_service : Service
no_service = record { meta = empty_deployment.meta; selector = [] }

abbrev asked_service : Service
asked_service =
    or_default
      (library.service_of (construct_service cluster library group prefill running_set annotations))
      no_service

abbrev running : Client
running = record cluster {
  get_stateful_set = λ t ns n. ok running_set;
  get_service = λ t ns n. ok asked_service;
}

abbrev constructed : Trace
constructed =
    (construct_stateful_set running library group validated running_set
      (get stateful_set "default" "llm-prefill" ∷ [])).1

reconcile_stateful_set_role-settles_example :
    (reconcile_stateful_set_role running library group prefill [] ≡ (
      ok tt,
      get service "default" "llm-prefill" ∷ get stateful_set "default" "llm-prefill" ∷ constructed,
    ))
    × Extends Prepares [] (
        get service "default" "llm-prefill"
        ∷ get stateful_set "default" "llm-prefill"
        ∷ constructed)
unfolding construct_stateful_set construct_pod_template inject_objects inject_config
    reconcile_config_map build_cluster_config build_roles_info role_instances build_instances
    read_or found_or semantically_equal_config_map config_map_apply controlled_meta
    get_workload_name patch_object perform inject_sidecar enable_gang_scheduling find_role get_role
    get_common_annotations_from_role get_common_labels_from_role get_role_names instances_from
    put_ports inject_runtimes build_env build_local_role_vars inject_env merge_env mount_config
    put_env put_envs sort_envs drop_if filter_system_annotations format_ℤ map_put match_labels
    template_labels contains maps_equal entries_in map_get construct_service
    validate_rollout_strategy
reconcile_stateful_set_role-settles_example =
    reconcile_stateful_set_role-settles running library group prefill default_strategy
      (record { max_unavailable = from_int (pos 1); max_surge = from_int (pos 0) }) (pos 2) (pos 0)
      running_set asked_set applied_set annotations asked_service asked_service [] constructed refl
      refl refl refl refl refl refl refl
      (record {
        there = refl;
        labels = refl;
        annotations = refl;
        selector = refl;
        service_name = refl;
        template = refl;
        replicas = refl;
        partition = refl;
        distinct_labels = (refl, (refl, tt));
        distinct_annotations = (refl, tt);
        distinct_selector = (refl, (refl, tt));
        distinct_template_labels = (refl, (refl, (refl, tt)));
        distinct_template_annotations = tt;
      })
      refl refl refl refl refl
      (record {
        labels = refl;
        annotations = refl;
        selector = refl;
        distinct_labels = (refl, (refl, tt));
        distinct_annotations = (refl, tt);
        distinct_selector = (refl, (refl, tt));
      })
