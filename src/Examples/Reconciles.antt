-- ===== src/Examples/Reconciles.antt =====
-- The reconcilers of pkg/reconciler and the config of pkg/discovery, on the group of two roles.
use rolebasedgroup.Api.{Labels, OwnerReference, RoleBasedGroup, RoleSpec}
use rolebasedgroup.Api.Helper.{
  enable_gang_scheduling, find_role, generate_scaling_adapter_name,
  get_common_annotations_from_role, get_common_labels_from_role, get_role, get_role_status,
  get_workload_name, is_scaling_adapter_enable, label, role_size_annotation_key, workload_string,
}
use rolebasedgroup.Client.{Trace, get, perform, role_based_group}
use rolebasedgroup.Dependency.{
  dependency_order, deps_of, enter, leave, sort_strings, visit, visit_all, visit_each,
}
use rolebasedgroup.Dependency.Sort.{all_known, fill_dependencies, pick_roles, put, sort_roles}
use rolebasedgroup.Discovery.{
  build_env, build_local_role_vars, inject_env, inject_runtimes, inject_sidecar, merge_env,
  mount_config, put_env, put_envs, sort_envs,
}
use rolebasedgroup.Discovery.Config.{
  ClusterConfig, RoleInstances, build_cluster_config, build_instances, build_roles_info,
  get_role_names, instances_from, put_ports, role_instances,
}
use rolebasedgroup.Discovery.Config.Roles.{Describes, build_cluster_config-Describes, names}
use rolebasedgroup.Discovery.Inject.{
  config_map_apply, inject_config, reconcile_config_map, semantically_equal_config_map,
}
use rolebasedgroup.Equality.{
  container_equal, env_vars_equal, volumes_equal, volume_mounts_equal, filter_system_envs,
  sorted_equal, pairwise, sort_by, pod_spec_equal, drop_if, entries_in, filter_system_annotations,
  filter_system_labels, maps_equal, meta_equal, pod_template_spec_equal,
  semantically_equal_stateful_set,
}
use rolebasedgroup.Equality.Maps.{SameMap, maps_equal_iff}
use rolebasedgroup.Events.{
  has_valid_owner_ref, check_owner_reference, matches_owner, workload_equal, WorkloadObject,
  a_stateful_set, workload_update,
}
use rolebasedgroup.Events.Missed.{Same, workload_update-Same}
use rolebasedgroup.Examples.Data.{group, owner, prefill, prefill_set, template}
use rolebasedgroup.Examples.Library.{or_default, cluster, library, library-PutsLabels}
use rolebasedgroup.Group.{
  Outcome, after_get_adapter, both, check_dependency_ready, cleanup_orphaned_scaling_adapters,
  delete_adapters, delete_roles, finish, new_scaling_adapter, reconcile, reconcile_group,
  reconcile_role, reconcile_roles, reconcile_scaling_adapter, reconcile_watched, watch_pod_groups,
}
use rolebasedgroup.Group.Finished.{AllReconciled, reconcile-finished}
use rolebasedgroup.Library.{controlled_meta, found_or, patch_object, read_or}
use rolebasedgroup.Objects.{StatefulSetApply}
use rolebasedgroup.Prelude.{
  String, Bool, Result, [], arith, contains, false, none, ok, refl, some, str_eq, true, ◌↔◌, ◌∷◌,
  ◌≡◌,
}
use rolebasedgroup.Prelude.Decimal.{format_ℤ}
use rolebasedgroup.Prelude.Int.{i32, pos, ℤ, ◌+ℤ◌, ◌-ℤ◌}
use rolebasedgroup.Prelude.Maps.{map_get, map_put}
use rolebasedgroup.Reconcile.{match_labels}
use rolebasedgroup.Reconcile.Applies.{Applies, reconcile_stateful_set-Applies}
use rolebasedgroup.Reconcile.Interface.{workload_reconciler}
use rolebasedgroup.Reconcile.Selectors.{Selects, construct_stateful_set-Selects}
use rolebasedgroup.Reconcile.Services.{
  apply_service, construct_service, reconcile_headless_service, reconcile_stateful_set_role,
  semantically_equal_service,
}
use rolebasedgroup.Reconcile.StatefulSets.{
  construct_stateful_set, patch_stateful_set, reconcile_stateful_set, roll_out, skips, with_update,
}
use rolebasedgroup.Restart.{Request}
use rolebasedgroup.Rollout.{non_zero_value}
use rolebasedgroup.Rollout.Parameters.{
  rolling_update_parameters, validate_rollout_strategy, want_replicas,
}
use rolebasedgroup.Rollout.Parameters.Atoi.{atoi}
use rolebasedgroup.Rollout.Parameters.Atoi.RoleSize.{role_size-roundtrip}
use rolebasedgroup.Status.{update_rbg_status, updated_status}
use rolebasedgroup.Template.{construct_pod_template, inject_objects, template_labels}
use rolebasedgroup.Workload.{
  check_crd_exists, check_stateful_set_ready, cleanup_deployments, cleanup_leader_worker_sets,
  cleanup_stateful_sets, construct_stateful_set_status, delete_orphans, new_workload_reconciler,
  role_status_from,
}

role_size-roundtrip_example :
    (annotations : Labels) × (get_common_annotations_from_role prefill ≡ ok annotations)
    × (atoi (label annotations role_size_annotation_key) ≡ ok (pos 2))
role_size-roundtrip_example = role_size-roundtrip prefill (pos 2) refl (omega arith) (omega arith)

build_cluster_config-Describes_example :
    (config : ClusterConfig) × (build_cluster_config group ≡ ok config)
    × (config.group.roles ≡ names group.roles)
    × ((name : String) (role : RoleSpec)
        → find_role group.roles name ≡ some role
        → (r : RoleInstances) × (map_get config.roles name ≡ some r) × Describes group role r)
unfolding contains
build_cluster_config-Describes_example =
    build_cluster_config-Describes group ((2, refl), ((2, refl), tt)) (refl, (refl, tt))

abbrev entries : Labels
entries = ("app", "llm") ∷ ("tier", "gpu") ∷ []

abbrev swapped : Labels
swapped = ("tier", "gpu") ∷ ("app", "llm") ∷ []

maps_equal_iff_example : (maps_equal entries swapped ≡ true) ↔ SameMap entries swapped
unfolding contains
maps_equal_iff_example = maps_equal_iff entries swapped (refl, (refl, tt)) (refl, (refl, tt))

abbrev no_config : StatefulSetApply
no_config = record {
  meta = prefill_set.meta;
  service_name = "";
  replicas = pos 0;
  template = template;
  pod_management_policy = "";
  selector = [];
  update_strategy = none;
}

abbrev prefill_config : StatefulSetApply
prefill_config =
    or_default (construct_stateful_set cluster library group prefill prefill_set []).0 no_config

construct_stateful_set-Selects_example :
    Selects prefill_config.selector prefill_config.template
    × (str_eq prefill_set.meta.uid "" ≡ false → prefill_config.selector ≡ prefill_set.selector)
unfolding construct_stateful_set construct_pod_template inject_objects inject_config
    reconcile_config_map build_cluster_config build_roles_info role_instances build_instances
    read_or found_or semantically_equal_config_map config_map_apply controlled_meta
    get_workload_name patch_object perform inject_sidecar enable_gang_scheduling find_role get_role
    get_common_annotations_from_role get_common_labels_from_role get_role_names instances_from
    put_ports inject_runtimes build_env build_local_role_vars inject_env merge_env mount_config
    put_env put_envs sort_envs drop_if filter_system_annotations format_ℤ map_put match_labels
    template_labels contains maps_equal entries_in map_get
construct_stateful_set-Selects_example =
    construct_stateful_set-Selects cluster library group prefill [] prefill_set prefill_config
      library-PutsLabels refl

reconcile_stateful_set-Applies_example :
    (n : ℤ) × (prefill.replicas ≡ some n)
    × Applies cluster library group prefill prefill_set n
        (pos 1)
        []
        (reconcile_stateful_set cluster library group prefill []).1
unfolding construct_stateful_set construct_pod_template inject_objects inject_config
    reconcile_config_map build_cluster_config build_roles_info role_instances build_instances
    read_or found_or semantically_equal_config_map config_map_apply controlled_meta
    get_workload_name patch_object perform inject_sidecar enable_gang_scheduling find_role get_role
    get_common_annotations_from_role get_common_labels_from_role get_role_names instances_from
    put_ports inject_runtimes build_env build_local_role_vars inject_env merge_env mount_config
    put_env put_envs sort_envs drop_if filter_system_annotations format_ℤ map_put match_labels
    template_labels contains maps_equal entries_in map_get reconcile_stateful_set
    validate_rollout_strategy roll_out skips with_update patch_stateful_set
    semantically_equal_stateful_set meta_equal filter_system_labels pod_template_spec_equal
    rolling_update_parameters want_replicas non_zero_value i32 ◌-ℤ◌ ◌+ℤ◌
reconcile_stateful_set-Applies_example =
    reconcile_stateful_set-Applies cluster library group prefill prefill_set (pos 1) []
      (reconcile_stateful_set cluster library group prefill []).1 refl refl refl (omega arith) refl

abbrev request : Request
request = record { namespace = "default"; name = "llm" }

abbrev controller_ref : RoleBasedGroup → OwnerReference
controller_ref rbg = owner

-- The result, the kept flag and the trace of a reconciliation of the group.
abbrev reconciled : (Result Outcome × Bool) × Trace
reconciled = reconcile cluster (workload_reconciler cluster library) controller_ref false request []

reconcile-finished_example :
    AllReconciled cluster library controller_ref group false
      (get role_based_group "default" "llm" ∷ [])
      reconciled.1
unfolding construct_stateful_set construct_pod_template inject_objects inject_config
    reconcile_config_map build_cluster_config build_roles_info role_instances build_instances
    read_or found_or semantically_equal_config_map config_map_apply controlled_meta
    get_workload_name patch_object perform inject_sidecar enable_gang_scheduling find_role get_role
    get_common_annotations_from_role get_common_labels_from_role get_role_names instances_from
    put_ports inject_runtimes build_env build_local_role_vars inject_env merge_env mount_config
    put_env put_envs sort_envs drop_if filter_system_annotations format_ℤ map_put match_labels
    template_labels contains maps_equal entries_in map_get reconcile_stateful_set
    validate_rollout_strategy roll_out skips with_update patch_stateful_set
    semantically_equal_stateful_set meta_equal filter_system_labels pod_template_spec_equal
    rolling_update_parameters want_replicas non_zero_value i32 ◌-ℤ◌ ◌+ℤ◌ reconcile sort_roles
    fill_dependencies put pick_roles all_known dependency_order visit_all visit visit_each enter
    leave sort_strings deps_of reconcile_group watch_pod_groups reconcile_watched reconcile_roles
    check_dependency_ready reconcile_role new_workload_reconciler workload_string
    reconcile_scaling_adapter after_get_adapter is_scaling_adapter_enable new_scaling_adapter
    generate_scaling_adapter_name finish delete_roles both cleanup_stateful_sets cleanup_deployments
    cleanup_leader_worker_sets check_crd_exists delete_orphans cleanup_orphaned_scaling_adapters
    delete_adapters workload_reconciler construct_stateful_set_status role_status_from
    get_role_status check_stateful_set_ready reconcile_stateful_set_role reconcile_headless_service
    construct_service apply_service semantically_equal_service update_rbg_status updated_status
reconcile-finished_example =
    reconcile-finished cluster library controller_ref group false reconciled.0.1 request []
      reconciled.1 refl refl (refl, (refl, tt)) refl

abbrev owned_set : WorkloadObject
owned_set = a_stateful_set prefill_set

workload_update-Same_example : Same owned_set owned_set
unfolding workload_update has_valid_owner_ref check_owner_reference matches_owner workload_equal
    semantically_equal_stateful_set meta_equal maps_equal filter_system_labels drop_if
    filter_system_annotations entries_in map_get pod_template_spec_equal pod_spec_equal sorted_equal
    pairwise sort_by container_equal env_vars_equal volumes_equal volume_mounts_equal
    filter_system_envs contains
workload_update-Same_example = workload_update-Same library owned_set owned_set refl refl refl
