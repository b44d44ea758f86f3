-- ===== src/Objects.antt =====
-- The objects of Kubernetes that the controllers read, and the configurations that they apply, with
-- the fields that the program uses or sets.
use rolebasedgroup.Prelude.{String, Bool, Option, List}
use rolebasedgroup.Prelude.Int.{ℤ}
use rolebasedgroup.Api.{
  Labels, ObjectMeta, Container, Volume, PodTemplateSpec, IntOrString, RollingUpdate,
  RolloutStrategy,
}

-- `partition` is that of spec.updateStrategy.rollingUpdate, none if a pointer on the way is nil.
pub record StatefulSet : Type 0 where
  pub api_version : String
  pub kind : String
  pub meta : ObjectMeta
  pub replicas : Option ℤ
  pub partition : Option ℤ
  pub selector : Labels
  pub service_name : String
  pub template : PodTemplateSpec
  pub ready_replicas : ℤ

pub record Deployment : Type 0 where
  pub meta : ObjectMeta
  pub replicas : Option ℤ
  pub selector : Labels
  pub template : PodTemplateSpec
  pub ready_replicas : ℤ

pub record LeaderWorkerSet : Type 0 where
  pub meta : ObjectMeta
  pub replicas : Option ℤ
  pub leader_template : Option PodTemplateSpec
  pub worker_template : PodTemplateSpec
  pub size : Option ℤ
  pub restart_policy : String
  pub status_replicas : ℤ
  pub ready_replicas : ℤ

pub record PodGroup : Type 0 where
  pub meta : ObjectMeta
  pub min_member : ℤ
  pub schedule_timeout_seconds : Option ℤ

pub record ContainerStatus : Type 0 where
  pub name : String
  pub restart_count : ℤ

pub record PodCondition : Type 0 where
  pub type : String
  pub status : String

pub record Pod : Type 0 where
  pub meta : ObjectMeta
  pub phase : String
  pub conditions : List PodCondition
  pub init_container_statuses : List ContainerStatus
  pub container_statuses : List ContainerStatus

pub record ControllerRevision : Type 0 where
  pub meta : ObjectMeta
  pub revision : ℤ

pub record RuntimeProfile : Type 0 where
  pub init_containers : List Container
  pub containers : List Container
  pub volumes : List Volume

pub record Service : Type 0 where
  pub meta : ObjectMeta
  pub selector : Labels

pub record ConfigMap : Type 0 where
  pub meta : ObjectMeta
  pub entries : Labels

-- The apply configurations. Of the metadata they have what the program sets, with no uid.
pub record StatefulSetStrategy : Type 0 where
  pub type : String
  pub max_unavailable : IntOrString
  pub partition : ℤ

pub record StatefulSetApply : Type 0 where
  pub meta : ObjectMeta
  pub service_name : String
  pub replicas : ℤ
  pub template : PodTemplateSpec
  pub pod_management_policy : String
  pub selector : Labels
  pub update_strategy : Option StatefulSetStrategy

pub record DeploymentApply : Type 0 where
  pub meta : ObjectMeta
  pub replicas : ℤ
  pub template : PodTemplateSpec
  pub selector : Labels
  pub strategy : Option RolloutStrategy

pub record LeaderWorkerSetApply : Type 0 where
  pub meta : ObjectMeta
  pub replicas : ℤ
  pub leader_template : PodTemplateSpec
  pub worker_template : PodTemplateSpec
  pub size : ℤ
  pub restart_policy : String
  pub rolling_update : Option RollingUpdate

pub record ServiceApply : Type 0 where
  pub meta : ObjectMeta
  pub cluster_ip : String
  pub selector : Labels
  pub publish_not_ready_addresses : Bool

pub record ConfigMapApply : Type 0 where
  pub meta : ObjectMeta
  pub entries : Labels

pub data Applied : Type 0 where
  stateful_set_config : StatefulSetApply → Applied
  deployment_config : DeploymentApply → Applied
  leader_worker_set_config : LeaderWorkerSetApply → Applied
  service_config : ServiceApply → Applied
  config_map_config : ConfigMapApply → Applied
