-- ===== src/Dependency/Sort/Fill.antt =====
-- The map of dependencies that `SortRoles` of pkg/dependency/dependency.go fills.
use mathlib.Core.Option.{some-injective}
use text.Mathlib.TextEquality.{eq_iff}
use rolebasedgroup.Prelude.{
  String, true, false, ◌||◌, none, some, List, [], ◌∷◌, ◌≡◌, inl, inr, refl, sym, ap, subst, ◌∙◌,
  fun_ext, contains, str_eq, str_eq-eq, if◌then◌else◌, Bool-cases, All, Distinct, ok, arith,
}
use rolebasedgroup.Api.{RoleSpec}
use rolebasedgroup.Api.Helper.{find_role}
use rolebasedgroup.Dependency.{deps_of, keys_of}
use rolebasedgroup.Dependency.Sort.{role_names, put, all_known, fill_dependencies}

-- The dependencies that the role of a name declares.
unfoldable pub role_deps : List RoleSpec → String → List String
role_deps roles n = elim (find_role roles n) [ none ↦ [] | some r ↦ r.dependencies ]

deps_of-put :
    (m : List (String × List String)) (k : String) (v : List String) (j : String)
    → deps_of (put m k v) j ≡ (if str_eq k j then v else deps_of m j)
unfolding deps_of put
deps_of-put [] k v j = refl
deps_of-put ((i, w) ∷ m) k v j =
    ground (arith, eq_iff i k, eq_iff k j, eq_iff i j, deps_of-put m k v j)

keys_of-put :
    (m : List (String × List String)) (k : String) (v : List String) (j : String)
    → contains (keys_of (put m k v)) j ≡ (contains (keys_of m) j || str_eq k j)
unfolding contains put
keys_of-put [] k v j = ground arith
keys_of-put ((i, w) ∷ m) k v j =
    ground (arith, eq_iff i k, eq_iff k j, eq_iff i j, keys_of-put m k v j)

all_known-All :
    (names ds : List String) → all_known names ds ≡ true → All (λ d. contains names d ≡ true) ds
unfolding all_known
all_known-All names [] h = tt
all_known-All names (d ∷ ds) h = (ground arith, all_known-All names ds (ground arith))

find_role-absent :
    (roles : List RoleSpec) (n : String)
    → contains (role_names roles) n ≡ false
    → find_role roles n ≡ none
unfolding find_role contains
find_role-absent [] n h = refl
find_role-absent (r ∷ roles) n h = ground (arith, find_role-absent roles n)

pub find_role-present :
    (roles : List RoleSpec) (n : String)
    → contains (role_names roles) n ≡ true
    → (r : RoleSpec) × (find_role roles n ≡ some r) × (r.name ≡ n)
unfolding find_role contains
find_role-present [] n h = absurd (cc)
find_role-present (r ∷ roles) n h = elim (Bool-cases (str_eq r.name n)) [
  | inl e ↦ (r, rw e refl, str_eq-eq r.name n e)
  | inr e ↦ let (s, f, q) = find_role-present roles n (rw e at h) in (s, rw e f, q)
]

pub find_role-name :
    (roles : List RoleSpec) (n : String) (r : RoleSpec) → find_role roles n ≡ some r → r.name ≡ n
unfolding find_role
find_role-name [] n r e = absurd (cc)
find_role-name (s ∷ roles) n r e = elim (Bool-cases (str_eq s.name n)) [
  | inl q ↦
      str_eq-eq r.name n
        (subst (λ (t : RoleSpec). str_eq t.name n ≡ true) (some-injective s r (rw q at e)) q)
  | inr q ↦ find_role-name roles n r (rw q at e)
]

fill-cases :
    (names : List String) (m m' : List (String × List String)) (r : RoleSpec)
    (roles : List RoleSpec)
    → fill_dependencies names m (r ∷ roles) ≡ ok m'
    → (all_known names r.dependencies ≡ true)
      × (fill_dependencies names (put m r.name r.dependencies) roles ≡ ok m')
unfolding fill_dependencies
fill-cases names m m' r roles e = elim (Bool-cases (all_known names r.dependencies)) [
  | inl k ↦ (k, rw k at e)
  | inr k ↦ absurd (cc (rw k at e))
]

fill-nil :
    (names : List String) (m m' : List (String × List String))
    → fill_dependencies names m [] ≡ ok m'
    → m' ≡ m
unfolding fill_dependencies
fill-nil names m m' e = cc

find_role-same :
    (roles : List RoleSpec) (a b : String) → a ≡ b → find_role roles a ≡ find_role roles b
find_role-same roles a b e = ap (find_role roles) e

-- Where the names are distinct, the map that is filled has of each name what its role declares.
fill-deps :
    (names : List String) (m m' : List (String × List String)) (roles : List RoleSpec) (n : String)
    → Distinct (role_names roles)
    → fill_dependencies names m roles ≡ ok m'
    → deps_of m' n ≡ elim (find_role roles n) [ none ↦ deps_of m n | some r ↦ r.dependencies ]
unfolding find_role
fill-deps names m m' [] n d e = ap (λ t. deps_of t n) (fill-nil names m m' e)
fill-deps names m m' (r ∷ roles) n d e =
    let (known, rest) = fill-cases names m m' r roles e in
    ground (
      arith,
      fill-deps names (put m r.name r.dependencies) m' roles n d.1 rest,
      deps_of-put m r.name r.dependencies n,
      str_eq-eq r.name n,
      find_role-absent roles r.name d.0,
      find_role-same roles r.name n,
    )

fill-keys :
    (names : List String) (m m' : List (String × List String)) (roles : List RoleSpec) (n : String)
    → fill_dependencies names m roles ≡ ok m'
    → contains (keys_of m') n ≡ (contains (keys_of m) n || contains (role_names roles) n)
unfolding contains
fill-keys names m m' [] n e =
    ap (λ t. contains (keys_of t) n) (fill-nil names m m' e) ∙ ground arith
fill-keys names m m' (r ∷ roles) n e =
    let (known, rest) = fill-cases names m m' r roles e in
    ground (
      arith,
      fill-keys names (put m r.name r.dependencies) m' roles n rest,
      keys_of-put m r.name r.dependencies n,
    )

-- A map is closed if the dependencies of every name are role names.
abbrev pub Closed : List String → List (String × List String) → Type 0
Closed names m = (k : String) → All (λ d. contains names d ≡ true) (deps_of m k)

put-Closed :
    (names : List String) (m : List (String × List String)) (k : String) (v : List String)
    → Closed names m
    → All (λ d. contains names d ≡ true) v
    → Closed names (put m k v)
put-Closed names m k v h a j = elim (Bool-cases (str_eq k j)) [
  | inl e ↦ rw (deps_of-put m k v j, e) a
  | inr e ↦ rw (deps_of-put m k v j, e) (h j)
]

pub fill-Closed :
    (names : List String) (m m' : List (String × List String)) (roles : List RoleSpec)
    → Closed names m
    → fill_dependencies names m roles ≡ ok m'
    → Closed names m'
fill-Closed names m m' [] h e = subst (Closed names) (sym (fill-nil names m m' e)) h
fill-Closed names m m' (r ∷ roles) h e =
    let (known, rest) = fill-cases names m m' r roles e in
    fill-Closed names (put m r.name r.dependencies) m' roles
      (put-Closed names m r.name r.dependencies h (all_known-All names r.dependencies known)) rest

pub Closed-nil : (names : List String) → Closed names []
unfolding deps_of
Closed-nil names k = tt

pub fill-keys_nil :
    (names : List String) (m : List (String × List String)) (roles : List RoleSpec) (n : String)
    → fill_dependencies names [] roles ≡ ok m
    → contains (keys_of m) n ≡ contains (role_names roles) n
unfolding contains
fill-keys_nil names m roles n e = fill-keys names [] m roles n e

pub fill-role_deps :
    (names : List String) (m : List (String × List String)) (roles : List RoleSpec)
    → Distinct (role_names roles)
    → fill_dependencies names [] roles ≡ ok m
    → deps_of m ≡ role_deps roles
unfolding role_deps deps_of
fill-role_deps names m roles d e = fun_ext (λ n. fill-deps names [] m roles n d e)

pub role_deps-found :
    (roles : List RoleSpec) (r : RoleSpec)
    → find_role roles r.name ≡ some r
    → role_deps roles r.name ≡ r.dependencies
unfolding role_deps
role_deps-found roles r e = ground arith

pub fill-known :
    (names : List String) (m m' : List (String × List String)) (roles : List RoleSpec)
    → fill_dependencies names m roles ≡ ok m'
    → All (λ r. all_known names r.dependencies ≡ true) roles
fill-known names m m' [] e = tt
fill-known names m m' (r ∷ roles) e =
    let (known, rest) = fill-cases names m m' r roles e in
    (known, fill-known names (put m r.name r.dependencies) m' roles rest)

pub fill-succeeds :
    (names : List String) (m : List (String × List String)) (roles : List RoleSpec)
    → All (λ r. all_known names r.dependencies ≡ true) roles
    → (m' : List (String × List String)) × (fill_dependencies names m roles ≡ ok m')
unfolding fill_dependencies
fill-succeeds names m [] h = (m, refl)
fill-succeeds names m (r ∷ roles) h =
    rw h.0 (fill-succeeds names (put m r.name r.dependencies) roles h.1)
