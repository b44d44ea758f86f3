-- ===== src/Reconcile.antt =====
-- pkg/reconciler: `Reconciler` of the three kinds of workload, with the configurations that they
-- construct and apply. Here is what they share.
pub mod StatefulSets
pub mod Services
pub mod Deployments
pub mod LeaderWorkerSets
pub mod Interface
pub mod Selectors
pub mod RollOut
pub mod Applies
pub mod Settled
pub mod SettledSets
pub mod SettledLeaderWorkerSets
use rolebasedgroup.Prelude.{String, none, [], str_eq, if◌then◌else◌}
use rolebasedgroup.Api.{Labels, ObjectMeta, PodTemplateSpec, RoleSpec, RoleBasedGroup}
use rolebasedgroup.Api.Helper.{get_common_labels_from_role}

-- The selector of a workload that exists is not changed.
unfoldable pub match_labels : ObjectMeta → Labels → RoleBasedGroup → RoleSpec → Labels
match_labels old selector rbg role =
    if str_eq old.uid "" then get_common_labels_from_role rbg role else selector

abbrev pub empty_template : PodTemplateSpec
empty_template = record {
  labels = [];
  annotations = [];
  init_containers = [];
  containers = [];
  volumes = [];
}
