-- ===== src/Reconcile/Services.antt =====
-- The headless service of a StatefulSet in pkg/reconciler/sts_reconciler.go:
-- `reconcileHeadlessService`, `constructServiceApplyConfiguration` and `SemanticallyEqualService`, and
-- `Reconciler` of the StatefulSets.
use rolebasedgroup.Prelude.{
  Bool, true, false, ◌&&◌, Option, none, some, [], ◌∷◌, if◌then◌else◌, other,
}
use rolebasedgroup.Api.{Labels, RoleSpec, RoleBasedGroup}
use rolebasedgroup.Api.Helper.{
  get_workload_name, get_common_labels_from_role, get_common_annotations_from_role,
  set_name_label_key, set_role_label_key,
}
use rolebasedgroup.Objects.{StatefulSet, Service, ServiceApply, service_config}
use rolebasedgroup.Client.{Client, service, get, M, ◌>>=◌, ◌>>◌, pure, lift, wrap, read}
use rolebasedgroup.Workload.{read_stateful_set}
use rolebasedgroup.Equality.{object_equal, maps_equal}
use rolebasedgroup.Discovery.Inject.{empty_meta}
use rolebasedgroup.Library.{Library, patch_spec, patch_object, read_or}
use rolebasedgroup.Reconcile.StatefulSets.{reconcile_stateful_set}

-- `SemanticallyEqualService`; `none` is nil.
unfoldable pub semantically_equal_service : Option Service → Option Service → Bool
semantically_equal_service none none = true
semantically_equal_service none (some new) = false
semantically_equal_service (some old) none = false
semantically_equal_service (some old) (some new) =
    object_equal old.meta new.meta && maps_equal old.selector new.selector

module _ (client : Client) (lib : Library) (rbg : RoleBasedGroup) (role : RoleSpec) where
  -- `constructServiceApplyConfiguration`: the StatefulSet owns the service.
  unfoldable pub construct_service : StatefulSet → Labels → ServiceApply
  construct_service sts annotations = record {
    meta = record {
      name = get_workload_name rbg role;
      namespace = rbg.meta.namespace;
      uid = "";
      labels = get_common_labels_from_role rbg role;
      annotations = annotations;
      owner_references =
          record {
            api_version = sts.api_version;
            kind = sts.kind;
            name = sts.meta.name;
            uid = sts.meta.uid;
            controller = false;
          }
          ∷ [];
      deleting = false;
    };
    cluster_ip = "None";
    selector = (set_name_label_key, rbg.meta.name) ∷ (set_role_label_key, role.name) ∷ [];
    publish_not_ready_addresses = true;
  }

  abbrev read_service : M Service
  read_service =
      read (get service rbg.meta.namespace (get_workload_name rbg role))
        (λ t. client.get_service t rbg.meta.namespace (get_workload_name rbg role))

  -- The end of `reconcileHeadlessService`.
  unfoldable pub apply_service : ServiceApply → M (Unit {0})
  apply_service config = do
    lift (lib.to_unstructured (service_config config))
    new ← wrap (other "convert svcApplyConfig to svc error: %s") (lift (lib.service_of config))
    old ← read_or (record { meta = empty_meta; selector = [] }) read_service
    let write = patch_object client lib (service_config config) patch_spec
    if semantically_equal_service (some old) (some new) then pure tt else write

  -- `reconcileHeadlessService`
  unfoldable pub reconcile_headless_service : M (Unit {0})
  reconcile_headless_service = do
    sts ←
        wrap (other "get sts error, skip reconcile svc. error:  %s")
          (read_stateful_set client rbg role)
    annotations ← lift (get_common_annotations_from_role role)
    apply_service (construct_service sts annotations)

  -- `Reconciler` of `StatefulSetReconciler`
  unfoldable pub reconcile_stateful_set_role : M (Unit {0})
  reconcile_stateful_set_role = do
    reconcile_stateful_set client lib rbg role
    reconcile_headless_service
