-- ===== src/Examples/Sorting.antt =====
-- The order of roles, of pkg/dependency/dependency.go, on a group of two roles and on a cycle.
use rolebasedgroup.Prelude.{
  String, true, false, some, List, [], ◌∷◌, ◌++◌, ◌≡◌, ◌≢◌, ◌↔◌, refl, contains, Distinct, All, ok,
}
use rolebasedgroup.Api.{RoleSpec}
use rolebasedgroup.Api.Helper.{find_role}
use rolebasedgroup.Dependency.{
  Walk, Visit, visited, cycle, exhausted, dependency_order, deps_of, keys_of, visit, visit_all,
  visit_each, enter, leave, sort_strings,
}
use rolebasedgroup.Dependency.Cycle.{Cyclic}
use rolebasedgroup.Dependency.Order.{
  dependency_order-total, dependency_order-topological, dependency_order-cycle_iff,
}
use rolebasedgroup.Dependency.Sort.{
  role_names, all_known, sort_roles, fill_dependencies, put, pick_roles,
}
use rolebasedgroup.Dependency.Sort.Fill.{role_deps}
use rolebasedgroup.Dependency.Sort.Laws.{sort_roles-topological, sort_roles-ok_iff}
use rolebasedgroup.Examples.Data.{decode, prefill, roles}

abbrev chain : List (String × List String)
chain = ("a", "b" ∷ []) ∷ ("b", []) ∷ []

abbrev ring : List (String × List String)
ring = ("a", "b" ∷ []) ∷ ("b", "a" ∷ []) ∷ []

abbrev order : List String
order = "b" ∷ "a" ∷ []

dependency_order-total_example : dependency_order ring ≢ exhausted
dependency_order-total_example = dependency_order-total ring

walk_of : Visit → Walk
walk_of (visited w) = w
walk_of _ = record { completed = λ _. false; temp = λ _. false; order = []; path = [] }

chain_end : Walk
unfolding walk_of
chain_end = walk_of (dependency_order chain)

dependency_order-topological_example :
    Distinct chain_end.order
    × ((k : String) → contains (keys_of chain) k ≡ true → contains chain_end.order k ≡ true)
    × ((pre : List String) (r : String) (post : List String)
        → chain_end.order ≡ pre ++ r ∷ post
        → All (λ d. contains pre d ≡ true) (deps_of chain r))
unfolding chain_end walk_of dependency_order visit_all visit visit_each enter leave sort_strings
    deps_of
dependency_order-topological_example = dependency_order-topological chain chain_end refl

dependency_order-cycle_iff_example : (dependency_order ring ≡ cycle) ↔ Cyclic (deps_of ring)
dependency_order-cycle_iff_example = dependency_order-cycle_iff ring

sort_roles-topological_example :
    Distinct (role_names (prefill ∷ decode ∷ []))
    × ((n : String)
        → (contains (role_names (prefill ∷ decode ∷ [])) n ≡ true)
          ↔ (contains (role_names roles) n ≡ true))
    × ((pre : List RoleSpec) (r : RoleSpec) (post : List RoleSpec)
        → prefill ∷ decode ∷ [] ≡ pre ++ r ∷ post
        → (find_role roles r.name ≡ some r)
          × All (λ d. contains (role_names pre) d ≡ true) r.dependencies)
unfolding contains sort_roles fill_dependencies put pick_roles all_known find_role dependency_order
    visit_all visit visit_each enter leave sort_strings deps_of
sort_roles-topological_example =
    sort_roles-topological roles (prefill ∷ decode ∷ []) (refl, (refl, tt)) refl

sort_roles-ok_iff_example : ((ret : List RoleSpec) × (sort_roles roles ≡ ok ret)) ↔ (
    All (λ r. all_known (role_names roles) r.dependencies ≡ true) roles
    × ¬ Cyclic (role_deps roles))
unfolding contains
sort_roles-ok_iff_example = sort_roles-ok_iff roles (refl, (refl, tt))
