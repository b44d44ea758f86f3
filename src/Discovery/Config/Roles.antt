-- ===== src/Discovery/Config/Roles.antt =====
-- What the config of pkg/discovery/config_builder.go tells of a role.
use Prim.Native.String.{◌++◌ as str_append}
use rolebasedgroup.Prelude.Decimal.{format_ℕ}
use rolebasedgroup.Prelude.{
  Bool, true, if◌then◌else◌, ℕ, zero, suc, ◌+◌, ◌<◌, String, false, Option, none, some, List, [],
  ◌∷◌, map, length, get_elem?, ◌≡◌, refl, sym, ap, ◌∙◌, inl, inr, str_eq, str_eq-eq, str_eq_refl,
  Bool-cases, All, contains, Distinct, ok, bind_ok-ok, subst, arith,
}
use rolebasedgroup.Prelude.Int.{ℤ, pos, negsuc}
use rolebasedgroup.Prelude.Maps.{map_get, map_put, map_get-put}
use rolebasedgroup.Api.{ServicePort, RoleSpec, RoleBasedGroup}
use rolebasedgroup.Api.Helper.{find_role, get_workload_name}
use rolebasedgroup.Discovery.Config.{
  Instance, generate_port_key, ClusterConfig, build_cluster_config, get_role_names, RoleInstances,
  RolesInfo, put_ports, instance_address, instances_from, build_instances, role_instances,
  build_roles_info,
}

abbrev pub names : List RoleSpec → List String
names l = map (λ r. r.name) l

abbrev HasReplicas : RoleSpec → Type 0
HasReplicas role = (n : ℕ) × (role.replicas ≡ some (pos n))

abbrev or_else : Option ℤ → Option ℤ → Option ℤ
or_else none o = o
or_else (some n) o = some n

-- The number of the last port of a list with a key.
abbrev pub last_port : List ServicePort → String → Option ℤ
last_port [] key = none
last_port (p ∷ l) key =
    or_else (last_port l key) (if str_eq (generate_port_key p) key then some p.port else none)

-- An instance of a role: its address is the role's name, a dash and its number, a dot, and the name
-- of the group, a dash and the role's name; and every key has the last port of the role with it.
abbrev pub IsInstance : RoleBasedGroup → RoleSpec → ℕ → Instance → Type 0
IsInstance rbg role i x =
    (x.address
      ≡ str_append role.name (
          str_append "-" (
            str_append (format_ℕ i)
              (str_append "." (str_append rbg.meta.name (str_append "-" role.name))))))
    × ((key : String) → map_get x.ports key ≡ last_port role.service_ports key)

-- As many instances as the role has replicas, in the order of their numbers.
abbrev pub Describes : RoleBasedGroup → RoleSpec → RoleInstances → Type 0
Describes rbg role r =
    (n : ℕ) × (role.replicas ≡ some (pos n))
    × (r.size ≡ pos n)
    × (length r.instances ≡ n)
    × ((i : ℕ)
        → i < n
        → (x : Instance) × (get_elem? r.instances i ≡ some x) × IsInstance rbg role i x)

or_else_lem :
    (o : Option ℤ) (b : Bool) (n : ℤ) (old : Option ℤ)
    → or_else o (if b then some n else old) ≡ or_else (or_else o (if b then some n else none)) old
or_else_lem none true n old = refl
or_else_lem none false n old = refl
or_else_lem (some m) b n old = refl

or_none : (o : Option ℤ) → or_else o none ≡ o
or_none none = refl
or_none (some n) = refl

put_ports-get :
    (l : List ServicePort) (ports : List (String × ℤ)) (key : String)
    → map_get (put_ports l ports) key ≡ or_else (last_port l key) (map_get ports key)
unfolding put_ports
put_ports-get [] ports key = refl
put_ports-get (p ∷ l) ports key =
    put_ports-get l (map_put (generate_port_key p) p.port ports) key
    ∙ ap (or_else (last_port l key)) (map_get-put (generate_port_key p) key p.port ports)
    ∙ or_else_lem (last_port l key) (str_eq (generate_port_key p) key) p.port (map_get ports key)

made-IsInstance :
    (rbg : RoleBasedGroup) (role : RoleSpec) (i : ℕ)
    → IsInstance rbg role i (record {
      address = instance_address role.name (get_workload_name rbg role) i;
      ports = put_ports role.service_ports [];
    })
unfolding instance_address get_workload_name map_get
made-IsInstance rbg role i = (
  refl,
  λ key. put_ports-get role.service_ports [] key ∙ or_none (last_port role.service_ports key),
)

length-instances_from :
    (role : RoleSpec) (svc : String) (n i : ℕ) → length (instances_from role svc n i) ≡ n
unfolding instances_from
length-instances_from role svc zero i = refl
length-instances_from role svc (suc n) i = omega (arith, length-instances_from role svc n (suc i))

get_elem?-instances_from :
    (role : RoleSpec) (svc : String) (n i k : ℕ)
    → k < n
    → get_elem? (instances_from role svc n i) k
      ≡ some (record {
        address = instance_address role.name svc (k + i);
        ports = put_ports role.service_ports [];
      })
unfolding instances_from
get_elem?-instances_from role svc zero i k h = elim h [ ]
get_elem?-instances_from role svc (suc n) i zero h = ground arith
get_elem?-instances_from role svc (suc n) i (suc k) h =
    get_elem?-instances_from role svc n (suc i) k (omega arith) ∙ ground arith

role_instances-Describes :
    (rbg : RoleBasedGroup) (role : RoleSpec) (r : RoleInstances)
    → role_instances rbg role ≡ ok r
    → Describes rbg role r
unfolding role_instances build_instances
role_instances-Describes rbg role r h = of_replicas role.replicas refl
  where
    svc : String
    svc = get_workload_name rbg role

    of_replicas : (o : Option ℤ) → role.replicas ≡ o → Describes rbg role r
    of_replicas none q = absurd (ground arith)
    of_replicas (some (negsuc n)) q = absurd (ground arith)
    of_replicas (some (pos n)) q =
        let e : record { size = pos n; instances = instances_from role svc n 0 } ≡ r =
          ground arith in
        (
          n,
          q,
          ap (λ x. x.size) (sym e),
          ap (λ x. length x.instances) (sym e) ∙ length-instances_from role svc n 0,
          λ i lt. (
            record {
              address = instance_address role.name svc i;
              ports = put_ports role.service_ports [];
            },
            ap (λ x. get_elem? x.instances i) (sym e)
                ∙ get_elem?-instances_from role svc n 0 i lt
                ∙ ground arith,
            made-IsInstance rbg role i,
          ),
        )

module _ (rbg : RoleBasedGroup) where
  -- A name that no role has keeps what was there.
  build_roles_info-other :
      (roles : List RoleSpec) (acc info : RolesInfo) (name : String)
      → build_roles_info rbg roles acc ≡ ok info
      → contains (names roles) name ≡ false
      → map_get info name ≡ map_get acc name
  unfolding build_roles_info contains
  build_roles_info-other [] acc info name h c = ground arith
  build_roles_info-other (role ∷ roles) acc info name h c =
      let (r, _, q) = bind_ok-ok (role_instances rbg role) _ h in
      build_roles_info-other roles (map_put role.name r acc) info name q (ground arith)
      ∙ ground (arith, map_get-put role.name name r acc)

  -- The entry of every role, if the loop ends with a value.
  build_roles_info-Describes :
      (roles : List RoleSpec) (acc info : RolesInfo) (name : String) (role : RoleSpec)
      → build_roles_info rbg roles acc ≡ ok info
      → Distinct (names roles)
      → find_role roles name ≡ some role
      → (r : RoleInstances) × (map_get info name ≡ some r) × Describes rbg role r
  unfolding build_roles_info find_role
  build_roles_info-Describes [] acc info name role h d f = absurd (cc)
  build_roles_info-Describes (first ∷ roles) acc info name role h d f =
      let (r, made, q) = bind_ok-ok (role_instances rbg first) _ h in
      elim (Bool-cases (str_eq first.name name)) [
        | inr differ ↦
            build_roles_info-Describes roles (map_put first.name r acc) info name role q d.1
              (rw differ at f)
        | inl same ↦
            let e : first ≡ role = ground arith in
            (
              r,
              ap (map_get info) (sym (str_eq-eq first.name name same))
                  ∙ build_roles_info-other roles (map_put first.name r acc) info first.name q d.0
                  ∙ map_get-put first.name first.name r acc
                  ∙ rw (str_eq_refl first.name) refl,
              subst (λ s. Describes rbg s r) e (role_instances-Describes rbg first r made),
            )
      ]

  build_roles_info-total :
      (roles : List RoleSpec) (acc : RolesInfo)
      → All HasReplicas roles
      → (info : RolesInfo) × (build_roles_info rbg roles acc ≡ ok info)
  unfolding build_roles_info role_instances build_instances get_workload_name instances_from
  build_roles_info-total [] acc h = (acc, refl)
  build_roles_info-total (role ∷ roles) acc ((n, q), h) =
      let l = instances_from role (get_workload_name rbg role) n 0 in
      let (info, e) =
        build_roles_info-total roles
          (map_put role.name (record { size = pos n; instances = l }) acc) h in
      (info, rw q e)

  -- For a group whose role names are distinct and whose roles have numbers of replicas, none negative,
  -- a config is built. It lists the roles in their order, and has an entry for each: as many
  -- instances as the role has replicas, in the order of their numbers. The address of an instance is
  -- made of the role's name, its number and the name of the role's workload; and each instance has
  -- under every key the last of the role's ports with that key, and none without one.
  pub build_cluster_config-Describes :
      All HasReplicas rbg.roles
      → Distinct (names rbg.roles)
      → (config : ClusterConfig) × (build_cluster_config rbg ≡ ok config)
        × (config.group.roles ≡ names rbg.roles)
        × ((name : String) (role : RoleSpec)
            → find_role rbg.roles name ≡ some role
            → (r : RoleInstances) × (map_get config.roles name ≡ some r) × Describes rbg role r)
  unfolding build_cluster_config get_role_names
  build_cluster_config-Describes h d =
      let (info, e) = build_roles_info-total rbg.roles [] h in
      (
        record {
          group = record {
            name = rbg.meta.name;
            size = pos (length rbg.roles);
            roles = names rbg.roles;
          };
          roles = info;
        },
        rw e refl,
        refl,
        λ name role. build_roles_info-Describes rbg.roles [] info name role e d,
      )
