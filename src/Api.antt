-- ===== src/Api.antt =====
-- api/workloads/v1alpha1: the types of the API, and the Kubernetes objects that the program reads
-- and writes, with the fields that it uses. A pointer is an `Option`, an int32 an integer, a Go map
-- a list of its entries. Of a Kubernetes value that the code only compares (ports, resources, a
-- volume's source) the model keeps a text, equal for two values exactly if they are deeply equal.
pub mod Helper
use rolebasedgroup.Prelude.{ℕ, String, Bool, Option, List}
use rolebasedgroup.Prelude.Int.{ℤ}

abbrev pub Labels : Type 0
Labels = List (String × String)

pub record OwnerReference : Type 0 where
  pub api_version : String
  pub kind : String
  pub name : String
  pub uid : String
  pub controller : Bool

-- An object that was not found is left empty by the client: its uid is "".
pub record ObjectMeta : Type 0 where
  pub name : String
  pub namespace : String
  pub uid : String
  pub labels : Labels
  pub annotations : Labels
  pub owner_references : List OwnerReference
  pub deleting : Bool

pub record EnvVar : Type 0 where
  pub name : String
  pub value : String
  pub field_path : Option String

pub record VolumeMount : Type 0 where
  pub name : String
  pub mount_path : String
  pub read_only : Bool

pub record Volume : Type 0 where
  pub name : String
  pub source : String

pub record Container : Type 0 where
  pub name : String
  pub image : String
  pub command : List String
  pub args : List String
  pub ports : List String
  pub resources : String
  pub image_pull_policy : String
  pub env : List EnvVar
  pub volume_mounts : List VolumeMount

pub record PodTemplateSpec : Type 0 where
  pub labels : Labels
  pub annotations : Labels
  pub init_containers : List Container
  pub containers : List Container
  pub volumes : List Volume

pub data IntOrString : Type 0 where
  from_int : ℤ → IntOrString
  from_string : String → IntOrString

pub record RollingUpdate : Type 0 where
  pub max_unavailable : IntOrString
  pub max_surge : IntOrString

pub record RolloutStrategy : Type 0 where
  pub type : String
  pub rolling_update : Option RollingUpdate

pub record WorkloadSpec : Type 0 where
  pub api_version : String
  pub kind : String

pub record EngineRuntime : Type 0 where
  pub profile_name : String
  pub inject_containers : List String
  pub containers : List Container

-- A patch is the text of its raw extension, none if it is nil.
pub record LeaderWorkerTemplate : Type 0 where
  pub size : Option ℤ
  pub patch_leader_template : Option String
  pub patch_worker_template : Option String

pub record ScalingAdapterPolicy : Type 0 where
  pub enable : Bool

pub record ServicePort : Type 0 where
  pub name : String
  pub port : ℤ

pub record RoleSpec : Type 0 where
  pub name : String
  pub replicas : Option ℤ
  pub rollout_strategy : Option RolloutStrategy
  pub restart_policy : String
  pub dependencies : List String
  pub workload : WorkloadSpec
  pub template : PodTemplateSpec
  pub leader_worker_set : LeaderWorkerTemplate
  pub service_ports : List ServicePort
  pub engine_runtimes : List EngineRuntime
  pub scaling_adapter : Option ScalingAdapterPolicy

pub record KubeSchedulingPolicy : Type 0 where
  pub schedule_timeout_seconds : Option ℤ

pub record PodGroupPolicy : Type 0 where
  pub kube_scheduling : Option KubeSchedulingPolicy

-- A condition without its time.
pub record Condition : Type 0 where
  pub type : String
  pub status : String
  pub reason : String
  pub message : String

pub record RoleStatus : Type 0 where
  pub name : String
  pub ready_replicas : ℤ
  pub replicas : ℤ

pub record RoleBasedGroupStatus : Type 0 where
  pub conditions : List Condition
  pub role_statuses : List RoleStatus

pub record RoleBasedGroup : Type 0 where
  pub api_version : String
  pub kind : String
  pub meta : ObjectMeta
  pub roles : List RoleSpec
  pub pod_group_policy : Option PodGroupPolicy
  pub status : RoleBasedGroupStatus

pub record RoleBasedGroupSet : Type 0 where
  pub meta : ObjectMeta
  pub replicas : Option ℤ
  pub template_roles : List RoleSpec

pub record AdapterScaleTargetRef : Type 0 where
  pub name : String
  pub role : String

-- `phase` is "", "NotBound" or "Bound"; of the last scale time the model keeps whether it is set.
pub record ScalingAdapterSpec : Type 0 where
  pub replicas : Option ℤ
  pub scale_target_ref : Option AdapterScaleTargetRef

pub record ScalingAdapterStatus : Type 0 where
  pub phase : String
  pub replicas : Option ℤ
  pub selector : String
  pub scaled : Bool

pub record ScalingAdapter : Type 0 where
  pub api_version : String
  pub kind : String
  pub meta : ObjectMeta
  pub spec : ScalingAdapterSpec
  pub status : ScalingAdapterStatus
