-- ===== src/Discovery.antt =====
-- pkg/discovery: what is injected into the pods of a role. env_builder.go and `InjectEnv` of
-- injector.go (the variables), sidecar_builder.go (the engine runtimes), and the end of
-- `InjectConfig` of injector.go, which mounts the config.
pub mod Env
pub mod Sidecar
pub mod Config
pub mod Inject
pub mod Calls
use rolebasedgroup.Prelude.{
  String, Bool, true, false, ◌||◌, not, Option, none, some, List, [], ◌∷◌, ◌++◌, map, str_eq,
  str_le, contains, if◌then◌else◌, Error, Result, ok, err, panic, other,
}
use rolebasedgroup.Api.{
  EnvVar, VolumeMount, Volume, Container, PodTemplateSpec, EngineRuntime, RoleSpec, RoleBasedGroup,
}
use rolebasedgroup.Api.Helper.{get_role, get_workload_name}
use rolebasedgroup.Objects.{RuntimeProfile}
use rolebasedgroup.Client.{
  Client, profile, Call, get, Trace, Io, M, ◌>>=◌, ◌>>◌, pure, lift, fail, wrap, read, bind_result,
}

-- `existingEnv[e.Name] = e`; the map is kept in the order of its first writes.
unfoldable pub put_env : EnvVar → List EnvVar → List EnvVar
put_env e [] = e ∷ []
put_env e (x ∷ m) = if str_eq x.name e.name then e ∷ m else x ∷ put_env e m

unfoldable pub put_envs : List EnvVar → List EnvVar → List EnvVar
put_envs [] m = m
put_envs (e ∷ l) m = put_envs l (put_env e m)

-- `sort.Slice` by the names, which differ.
insert_env : EnvVar → List EnvVar → List EnvVar
insert_env e [] = e ∷ []
insert_env e (x ∷ l) = if str_le e.name x.name then e ∷ x ∷ l else x ∷ insert_env e l

unfoldable pub sort_envs : List EnvVar → List EnvVar
unfolding insert_env
sort_envs [] = []
sort_envs (e ∷ l) = insert_env e (sort_envs l)

-- `buildLocalRoleVars`
unfoldable pub build_local_role_vars : RoleBasedGroup → RoleSpec → List EnvVar
build_local_role_vars rbg role =
    record { name = "GROUP_NAME"; value = rbg.meta.name; field_path = none }
    ∷ record { name = "ROLE_NAME"; value = role.name; field_path = none }
    ∷ (if str_eq role.workload.kind "StatefulSet" || str_eq role.workload.kind "LeaderWorkerSet"
        then record {
          name = "ROLE_INDEX";
          value = "";
          field_path = some "metadata.labels['apps.kubernetes.io/pod-index']";
        }
          ∷ []
        else [])

-- `Build` of `EnvBuilder`
unfoldable pub build_env : RoleBasedGroup → RoleSpec → List EnvVar
build_env rbg role = sort_envs (put_envs (build_local_role_vars rbg role) [])

-- The body of the loop of `InjectEnv`: the map of a container's variables, overwritten, sorted.
unfoldable pub merge_env : List EnvVar → List EnvVar → List EnvVar
merge_env new existing = sort_envs (put_envs new (put_envs existing []))

-- `InjectEnv`
unfoldable pub inject_env : RoleBasedGroup → RoleSpec → PodTemplateSpec → PodTemplateSpec
inject_env rbg role pod =
    let merged = λ (c : Container). record c { env = merge_env (build_env rbg role) c.env } in
    record pod { containers = map merged pod.containers }

abbrev config_volume : String
config_volume = "rbg-cluster-config"

has_volume : List Volume → String → Bool
has_volume [] name = false
has_volume (v ∷ l) name = if str_eq v.name name then true else has_volume l name

has_mount : List VolumeMount → Bool
has_mount [] = false
has_mount (m ∷ l) =
    if (if str_eq m.name config_volume then str_eq m.mount_path "/etc/rbg" else false)
    then true
    else has_mount l

-- The end of `InjectConfig`: the volume and its mounts are added where they are missing. The source
-- of the volume, the ConfigMap of the role's name, is an argument.
unfoldable pub mount_config : String → PodTemplateSpec → PodTemplateSpec
unfolding has_volume has_mount
mount_config source pod =
    let with_mount = λ (c : Container). record c {
      volume_mounts =
          if has_mount c.volume_mounts
          then c.volume_mounts
          else c.volume_mounts
            ++ record { name = config_volume; mount_path = "/etc/rbg"; read_only = true } ∷ [];
    } in
    record pod {
      volumes =
          if has_volume pod.volumes config_volume
          then pod.volumes
          else pod.volumes ++ record { name = config_volume; source = source } ∷ [];
      containers = map with_mount pod.containers;
    }

abbrev pub container_names : List Container → List String
container_names l = map (λ c. c.name) l

-- The loops of `injectRuntime` that add what is missing, by its name.
unfoldable pub add_missing : List Container → List Container → List Container
add_missing [] old = old
add_missing (c ∷ l) old =
    add_missing l (if contains (container_names old) c.name then old else old ++ c ∷ [])

unfoldable pub add_volumes : List Volume → List Volume → List Volume
unfolding has_volume
add_volumes [] old = old
add_volumes (v ∷ l) old = add_volumes l (if has_volume old v.name then old else old ++ v ∷ [])

-- The first container of the name gets the variables and the arguments, behind its own.
unfoldable pub override : Container → List Container → List Container
override o [] = []
override o (c ∷ l) =
    if str_eq c.name o.name
    then record c { env = c.env ++ o.env; args = c.args ++ o.args } ∷ l
    else c ∷ override o l

unfoldable pub override_all : List String → List Container → List Container → List Container
override_all names [] l = l
override_all names (o ∷ os) l =
    override_all names os (if contains names o.name then override o l else l)

-- `injectRuntime`, with the profile that was read.
unfoldable pub inject_profile : RuntimeProfile → EngineRuntime → PodTemplateSpec → PodTemplateSpec
inject_profile p runtime pod = record pod {
  init_containers = add_missing p.init_containers pod.init_containers;
  containers =
      override_all (container_names p.init_containers ++ container_names p.containers)
        runtime.containers (add_missing p.containers pod.containers);
  volumes = add_volumes p.volumes pod.volumes;
}

module _ (client : Client) where
  -- `injectRuntime`
  unfoldable pub inject_runtime : EngineRuntime → PodTemplateSpec → M PodTemplateSpec
  inject_runtime runtime pod = do
    p ← wrap (other "get engine runtime %s, error: %s") (
        read (get profile "" runtime.profile_name) (λ t. client.get_profile t runtime.profile_name))
    pure (inject_profile p runtime pod)

  -- The loop of `Build` of `SidecarBuilder`.
  unfoldable pub inject_runtimes : List EngineRuntime → PodTemplateSpec → M PodTemplateSpec
  inject_runtimes [] pod = pure pod
  inject_runtimes (runtime ∷ l) pod =
      wrap (other "reconcile engine runtime %s, error: %s") (inject_runtime runtime pod)
      >>= inject_runtimes l

  -- `InjectSidecar`: the runtimes of the group's role of that name.
  unfoldable pub inject_sidecar : RoleBasedGroup → RoleSpec → PodTemplateSpec → M PodTemplateSpec
  inject_sidecar rbg role pod = do
    current ← lift (get_role rbg role.name)
    inject_runtimes current.engine_runtimes pod
