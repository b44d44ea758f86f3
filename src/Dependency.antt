-- ===== src/Dependency.antt =====
-- pkg/dependency/dependency.go, the search: roles in the order of their dependencies.
pub mod Frame
pub mod Topological
pub mod Fuel
pub mod Cycle
pub mod Order
pub mod Names
pub mod Sort
use rolebasedgroup.Prelude.{
  ℕ, zero, suc, ◌+◌, String, Bool, true, false, Option, none, some, List, [], ◌∷◌, ◌++◌, map,
  length, str_eq, str_le, contains, update, if◌then◌else◌,
}

-- The variables that the closure `visit` shares: the maps `completed` and `temp`, and the slices
-- `order` and `path`.
pub record Walk : Type 0 where
  pub completed : String → Bool
  pub temp : String → Bool
  pub order : List String
  pub path : List String

-- How a visit ends: with its variables, with the error "cycle detected", or out of fuel.
pub data Visit : Type 0 where
  visited : Walk → Visit
  cycle : Visit
  exhausted : Visit

-- `path[:len(path)-1]`
drop_last : List String → List String
drop_last [] = []
drop_last (x ∷ []) = []
drop_last (x ∷ y ∷ l) = x ∷ drop_last (y ∷ l)

-- Mark as temp visited.
unfoldable pub enter : String → Walk → Walk
enter role w = record w { temp = update w.temp role true; path = w.path ++ role ∷ [] }

-- Mark as permanently visited and add to order.
unfoldable pub leave : String → Walk → Walk
unfolding drop_last
leave role w = record w {
  temp = update w.temp role false;
  completed = update w.completed role true;
  order = w.order ++ role ∷ [];
  path = drop_last w.path;
}

abbrev pub and_then : Visit → (Walk → Visit) → Visit
and_then (visited w) f = f w
and_then cycle f = cycle
and_then exhausted f = exhausted

-- The loop over the dependencies of one role.
unfoldable pub visit_each : (String → Walk → Visit) → List String → Walk → Visit
visit_each step [] w = visited w
visit_each step (d ∷ ds) w = and_then (step d w) (visit_each step ds)

-- The closure `visit`, on fuel that bounds the depth of its recursion.
unfoldable pub visit : (String → List String) → ℕ → String → Walk → Visit
visit deps zero role w = exhausted
visit deps (suc fuel) role w =
    let inner =
      and_then (visit_each (visit deps fuel) (deps role) (enter role w))
        (λ u. visited (leave role u)) in
    if w.temp role then cycle else if w.completed role then visited w else inner

-- The loop over all roles.
unfoldable pub visit_all : (String → Walk → Visit) → List String → Walk → Visit
visit_all step [] w = visited w
visit_all step (k ∷ ks) w =
    and_then (if w.completed k then visited w else step k w) (visit_all step ks)

-- `sort.Strings`
insert_sorted : String → List String → List String
insert_sorted x [] = x ∷ []
insert_sorted x (y ∷ l) = if str_le x y then x ∷ y ∷ l else y ∷ insert_sorted x l

unfoldable pub sort_strings : List String → List String
unfolding insert_sorted
sort_strings [] = []
sort_strings (x ∷ l) = insert_sorted x (sort_strings l)

-- A read of the map `dependencies`: a missing key gives the nil slice.
unfoldable pub deps_of : List (String × List String) → String → List String
deps_of [] k = []
deps_of ((j, ds) ∷ m) k = if str_eq j k then ds else deps_of m k

abbrev pub keys_of : List (String × List String) → List String
keys_of m = map (λ e. e.0) m

abbrev pub fresh : Walk
fresh = record { completed = λ _. false; temp = λ _. false; order = []; path = [] }

-- `dependencyOrder`. The order is that of the final variables.
unfoldable pub dependency_order : List (String × List String) → Visit
dependency_order m = visit_all (visit (deps_of m) (length m + 2)) (sort_strings (keys_of m)) fresh
