-- ===== src/Discovery/Config.antt =====
-- pkg/discovery/config_builder.go: the config of the cluster that the pods of a role get. Port names
-- are DNS labels, of ASCII, and so is the lower-casing.
pub mod Roles
use Prim.Native.Char.{Char, code}
use Prim.Native.String.{char_at, ◌++◌ as str_append}
use rolebasedgroup.Prelude.{
  ℕ, zero, suc, ◌-◌, String, ◌&&◌, List, [], ◌∷◌, map, length, str_eq, leb, ◌==◌, if◌then◌else◌,
  Result, ok, panic, bind_ok, ◌≡◌, refl,
}
use rolebasedgroup.Prelude.Int.{ℤ, pos, negsuc}
use rolebasedgroup.Prelude.Maps.{map_put}
use rolebasedgroup.Prelude.Decimal.{format_ℕ, format_ℤ}
use rolebasedgroup.Api.{ServicePort, RoleSpec, RoleBasedGroup}
use rolebasedgroup.Api.Helper.{get_workload_name}
use rolebasedgroup.Client.{deref}

pub record Instance : Type 0 where
  pub address : String
  pub ports : List (String × ℤ)

pub record RoleInstances : Type 0 where
  pub size : ℤ
  pub instances : List Instance

pub record GroupInfo : Type 0 where
  pub name : String
  pub size : ℤ
  pub roles : List String

abbrev pub RolesInfo : Type 0
RolesInfo = List (String × RoleInstances)

pub record ClusterConfig : Type 0 where
  pub group : GroupInfo
  pub roles : RolesInfo

underscored : Char → Char
underscored c = if code c == 45 then "_" else c

lower : Char → Char
lower c =
    if leb 65 (code c) && leb (code c) 90
    then char_at "abcdefghijklmnopqrstuvwxyz" (code c - 65)
    else c

map_chars : (Char → Char) → String → String
map_chars f String.[] = String.[]
map_chars f (String.◌∷◌ c s) = String.◌∷◌ (f c) (map_chars f s)

-- `generatePortKey`
unfoldable pub generate_port_key : ServicePort → String
unfolding underscored lower map_chars
generate_port_key port =
    if str_eq port.name ""
    then str_append "port" (format_ℤ port.port)
    else map_chars lower (map_chars underscored port.name)

port_key : generate_port_key (record { name = "HTTP-api"; port = pos 80 }) ≡ "http_api"
unfolding generate_port_key
port_key = refl

-- The loop over the ports of an instance.
unfoldable pub put_ports : List ServicePort → List (String × ℤ) → List (String × ℤ)
put_ports [] ports = ports
put_ports (p ∷ l) ports = put_ports l (map_put (generate_port_key p) p.port ports)

-- `fmt.Sprintf("%s-%d.%s", role.Name, i, serviceName)`
unfoldable pub instance_address : String → String → ℕ → String
instance_address role_name service_name i =
    str_append role_name (str_append "-" (str_append (format_ℕ i) (str_append "." service_name)))

-- The loop of `buildInstances`, with the rounds left and the index.
unfoldable pub instances_from : RoleSpec → String → ℕ → ℕ → List Instance
instances_from role service_name zero i = []
instances_from role service_name (suc n) i =
    record {
      address = instance_address role.name service_name i;
      ports = put_ports role.service_ports [];
    }
    ∷ instances_from role service_name n (suc i)

module _ (rbg : RoleBasedGroup) where
  -- `buildInstances`: `make` with a negative capacity is a panic.
  unfoldable pub build_instances : RoleSpec → ℤ → Result (List Instance)
  build_instances role (pos n) = ok (instances_from role (get_workload_name rbg role) n 0)
  build_instances role (negsuc n) = panic

  -- One round of the loop of `buildRolesInfo`.
  unfoldable pub role_instances : RoleSpec → Result RoleInstances
  role_instances role =
      bind_ok (deref role.replicas)
        λ n. bind_ok (build_instances role n) λ l. ok (record { size = n; instances = l })

  -- `buildRolesInfo`
  unfoldable pub build_roles_info : List RoleSpec → RolesInfo → Result RolesInfo
  build_roles_info [] info = ok info
  build_roles_info (role ∷ roles) info =
      bind_ok (role_instances role) λ r. build_roles_info roles (map_put role.name r info)

  -- `getRoleNames`
  unfoldable pub get_role_names : List String
  get_role_names = map (λ r. r.name) rbg.roles

  -- `Build`, but for the marshalling.
  unfoldable pub build_cluster_config : Result ClusterConfig
  build_cluster_config = bind_ok (build_roles_info rbg.roles []) λ info. ok (record {
    group = record { name = rbg.meta.name; size = pos (length rbg.roles); roles = get_role_names };
    roles = info;
  })
