-- ===== src/Dependency/Sort.antt =====
-- `SortRoles` of pkg/dependency/dependency.go: the roles of a group in the order in which they are
-- reconciled.
pub mod Fill
pub mod Laws
use rolebasedgroup.Prelude.{
  String, Bool, true, false, Option, none, some, List, [], ◌∷◌, map, contains, str_eq,
  if◌then◌else◌, Result, ok, err, panic, other,
}
use rolebasedgroup.Api.{RoleSpec}
use rolebasedgroup.Api.Helper.{find_role}
use rolebasedgroup.Dependency.{Visit, visited, cycle, exhausted, dependency_order}

abbrev pub role_names : List RoleSpec → List String
role_names roles = map (λ r. r.name) roles

-- `roleDependency[k] = v`
unfoldable pub put :
    List (String × List String) → String → List String → List (String × List String)
put [] k v = (k, v) ∷ []
put ((j, w) ∷ m) k v = if str_eq j k then (k, v) ∷ m else (j, w) ∷ put m k v

-- Every dependency is a role of the group.
unfoldable pub all_known : List String → List String → Bool
all_known names [] = true
all_known names (d ∷ ds) = if contains names d then all_known names ds else false

-- The loop that fills `roleDependency`.
unfoldable pub fill_dependencies :
    List String → List (String × List String) → List RoleSpec → Result (List (String × List String))
fill_dependencies names m [] = ok m
fill_dependencies names m (r ∷ roles) =
    let rest = fill_dependencies names (put m r.name r.dependencies) roles in
    if all_known names r.dependencies
    then rest
    else err (other "role [%s] with dependency role [%s] not found in rbg")

-- The loop over the order: of each name the first role.
unfoldable pub pick_roles : List RoleSpec → List String → List RoleSpec
pick_roles roles [] = []
pick_roles roles (n ∷ order) = elim (find_role roles n) [
  | some r ↦ r ∷ pick_roles roles order
  | none ↦ pick_roles roles order
]

sorted_from : List RoleSpec → Visit → Result (List RoleSpec)
sorted_from roles (visited w) = ok (pick_roles roles w.order)
sorted_from roles cycle = err (other "failed to sort roles by dependency order: cycle detected")
sorted_from roles exhausted = panic

sort_filled : List RoleSpec → Result (List (String × List String)) → Result (List RoleSpec)
unfolding sorted_from
sort_filled roles (ok m) = sorted_from roles (dependency_order m)
sort_filled roles (err e) = err e
sort_filled roles panic = panic

-- `SortRoles`
unfoldable pub sort_roles : List RoleSpec → Result (List RoleSpec)
unfolding sort_filled
sort_roles [] = ok []
sort_roles (r ∷ roles) =
    sort_filled (r ∷ roles) (fill_dependencies (role_names (r ∷ roles)) [] (r ∷ roles))
