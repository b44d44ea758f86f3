-- ===== src/Group/ScalingAdapters.antt =====
-- `ReconcileScalingAdapter` and `CleanupOrphanedScalingAdapters` of
-- internal/controller/workloads/rolebasedgroup_controller.go.
use rolebasedgroup.Prelude.{
  String, Bool, true, false, not, Option, none, some, List, [], ◌∷◌, str_eq, if◌then◌else◌, Result,
  ok, err, panic, is_not_found, other,
}
use rolebasedgroup.Api.{Labels, RoleSpec, RoleBasedGroup, AdapterScaleTargetRef, ScalingAdapter}
use rolebasedgroup.Api.Helper.{
  set_name_label_key, set_role_label_key, generate_scaling_adapter_name,
  is_scaling_adapter_managed_by_rbg, is_scaling_adapter_enable,
}
use rolebasedgroup.Client.{
  Client, scaling_adapter, get, list, delete, create_adapter, M, ◌>>=◌, ◌>>◌, pure, lift, fail,
  wrap, perform, read,
}

-- The loop that looks for the role of an adapter.
unfoldable pub has_role : List RoleSpec → String → Bool
has_role [] name = false
has_role (r ∷ roles) name = if str_eq r.name name then true else has_role roles name

-- The adapter that is created for a role.
unfoldable pub new_scaling_adapter : RoleBasedGroup → RoleSpec → ScalingAdapter
new_scaling_adapter rbg role = record {
  api_version = "";
  kind = "";
  meta = record {
    name = generate_scaling_adapter_name rbg.meta.name role.name;
    namespace = rbg.meta.namespace;
    uid = "";
    labels = (set_name_label_key, rbg.meta.name) ∷ (set_role_label_key, role.name) ∷ [];
    annotations = [];
    owner_references =
        record {
          api_version = rbg.api_version;
          kind = rbg.kind;
          name = rbg.meta.name;
          uid = rbg.meta.uid;
          controller = false;
        }
        ∷ [];
    deleting = false;
  };
  spec = record {
    replicas = none;
    scale_target_ref = some (record { name = rbg.meta.name; role = role.name });
  };
  status = record { phase = ""; replicas = none; selector = ""; scaled = false };
}

-- Whether `CleanupOrphanedScalingAdapters` deletes an adapter.
unfoldable pub is_orphaned_adapter : RoleBasedGroup → ScalingAdapter → Bool
is_orphaned_adapter rbg a =
    if is_scaling_adapter_managed_by_rbg a (some rbg)
    then without_role a.spec.scale_target_ref
    else false
  where
    without_role : Option AdapterScaleTargetRef → Bool
    without_role none = false
    without_role (some target) =
        if str_eq target.name rbg.meta.name then not (has_role rbg.roles target.role) else false

module _ (client : Client) where
  -- The loop of `CleanupOrphanedScalingAdapters`.
  unfoldable pub delete_adapters : RoleBasedGroup → List ScalingAdapter → M (Unit {0})
  delete_adapters rbg [] = pure tt
  delete_adapters rbg (a ∷ l) =
      let rest = delete_adapters rbg l in
      let deleted =
        wrap (other "delete scalingAdapter %s error: %s")
          (perform client (delete scaling_adapter a.meta.namespace a.meta.name))
        >> rest in
      if is_orphaned_adapter rbg a then deleted else rest

  -- `CleanupOrphanedScalingAdapters`
  unfoldable pub cleanup_orphaned_scaling_adapters : RoleBasedGroup → M (Unit {0})
  cleanup_orphaned_scaling_adapters rbg =
      let labels : Labels = (set_name_label_key, rbg.meta.name) ∷ [] in
      read (list scaling_adapter rbg.meta.namespace labels)
        (λ t. client.list_adapters t rbg.meta.namespace labels)
      >>= delete_adapters rbg

  module _ (rbg : RoleBasedGroup) (role : RoleSpec) where
    abbrev adapter_name : String
    adapter_name = generate_scaling_adapter_name rbg.meta.name role.name

    -- `ReconcileScalingAdapter`, with what was read of the adapter.
    unfoldable pub after_get_adapter : Result ScalingAdapter → M (Unit {0})
    after_get_adapter (ok a) =
        if not (is_scaling_adapter_enable role)
        then perform client (delete scaling_adapter a.meta.namespace a.meta.name)
        else pure tt
    after_get_adapter (err e) =
        if not (is_not_found e)
        then fail e
        else if not (is_scaling_adapter_enable role)
        then pure tt
        else perform client (create_adapter (new_scaling_adapter rbg role))
    after_get_adapter panic = lift panic

    -- `ReconcileScalingAdapter`
    unfoldable pub reconcile_scaling_adapter : M (Unit {0})
    reconcile_scaling_adapter t =
        after_get_adapter (client.get_adapter t rbg.meta.namespace adapter_name)
          (get scaling_adapter rbg.meta.namespace adapter_name ∷ t)
