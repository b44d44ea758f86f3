-- ===== src/Dependency/Sort/Laws.antt =====
-- What `SortRoles` of pkg/dependency/dependency.go promises.
use mathlib.Core.List.{map-append}
use rolebasedgroup.Prelude.{
  String, true, ◌+◌, some, List, [], ◌∷◌, ◌++◌, length, ◌≡◌, ◌↔◌, inl, inr, refl, sym, ap, ap₂,
  subst, ◌∙◌, contains, Option-cases, All-contains, All-of_contains, All, All-middle, Distinct,
  Result, ok, err, panic,
}
use rolebasedgroup.Api.{RoleSpec}
use rolebasedgroup.Api.Helper.{find_role}
use rolebasedgroup.Dependency.{
  Walk, Visit, visited, cycle, exhausted, deps_of, keys_of, sort_strings, fresh, visit_all,
  dependency_order,
}
use rolebasedgroup.Dependency.Cycle.{Cyclic}
use rolebasedgroup.Dependency.Names.{visit_all-names}
use rolebasedgroup.Dependency.Order.{
  contains-sort_strings, dependency_order-total, dependency_order-topological,
  dependency_order-cycle_iff, Visit-cases,
}
use rolebasedgroup.Dependency.Sort.{
  role_names, all_known, fill_dependencies, pick_roles, sorted_from, sort_filled, sort_roles,
}
use rolebasedgroup.Dependency.Sort.Fill.{
  role_deps, find_role-present, find_role-name, Closed, fill-Closed, Closed-nil, fill-keys_nil,
  fill-role_deps, role_deps-found, fill-known, fill-succeeds,
}

-- The roles that are picked have the names of the order.
pick_roles-names :
    (roles : List RoleSpec) (o : List String)
    → All (λ n. contains (role_names roles) n ≡ true) o
    → role_names (pick_roles roles o) ≡ o
unfolding pick_roles
pick_roles-names roles [] h = refl
pick_roles-names roles (n ∷ o) h =
    let (r, f, q) = find_role-present roles n h.0 in
    rw (f, pick_roles) (ap₂ (λ a l. a ∷ l) q (pick_roles-names roles o h.1))

-- Each is the first of its name.
pick_roles-found :
    (roles : List RoleSpec) (o : List String)
    → All (λ r. find_role roles r.name ≡ some r) (pick_roles roles o)
unfolding pick_roles
pick_roles-found roles [] = tt
pick_roles-found roles (n ∷ o) = elim (Option-cases (find_role roles n)) [
  | inl e ↦ rw (e, pick_roles) (pick_roles-found roles o)
  | inr (r, e) ↦
      rw (e, pick_roles)
        (ap (find_role roles) (find_role-name roles n r e) ∙ e, pick_roles-found roles o)
]

sort_roles_lem :
    (roles : List RoleSpec)
    → sort_roles roles ≡ sort_filled roles (fill_dependencies (role_names roles) [] roles)
unfolding sort_roles fill_dependencies dependency_order pick_roles visit_all sort_strings
sort_roles_lem [] = refl
sort_roles_lem (r ∷ roles) = refl

visited-ne-cycle : (u : Walk) → ¬ (visited u ≡ cycle)
visited-ne-cycle u e = cc

sorted_from-ok :
    (roles : List RoleSpec) (v : Visit) (ret : List RoleSpec)
    → sorted_from roles v ≡ ok ret
    → (u : Walk) × (v ≡ visited u) × (ret ≡ pick_roles roles u.order)
unfolding sorted_from
sorted_from-ok roles (visited u) ret e = (u, refl, cc)
sorted_from-ok roles cycle ret e = absurd (cc)
sorted_from-ok roles exhausted ret e = absurd (cc)

-- A sort that succeeds filled the map, ordered it and picked the roles.
sort_filled-ok :
    (roles : List RoleSpec) (f : Result (List (String × List String))) (ret : List RoleSpec)
    → sort_filled roles f ≡ ok ret
    → (m : List (String × List String)) × (u : Walk) × (f ≡ ok m)
      × (dependency_order m ≡ visited u)
      × (ret ≡ pick_roles roles u.order)
unfolding sort_filled
sort_filled-ok roles (ok m) ret e =
    let (u, v, p) = sorted_from-ok roles (dependency_order m) ret e in (m, u, refl, v, p)
sort_filled-ok roles (err e') ret e = absurd (cc)
sort_filled-ok roles panic ret e = absurd (cc)

order-names :
    (names : List String) (m : List (String × List String)) (u : Walk)
    → Closed names m
    → ((k : String) → contains (keys_of m) k ≡ true → contains names k ≡ true)
    → dependency_order m ≡ visited u
    → All (λ n. contains names n ≡ true) u.order
unfolding dependency_order
order-names names m u closed keys e =
    visit_all-names (deps_of m) (λ n. contains names n ≡ true) (λ r p. closed r) (length m + 2)
      (sort_strings (keys_of m)) fresh u
      (All-of_contains (λ n. contains names n ≡ true) (sort_strings (keys_of m))
        (λ n q. keys n (sym (contains-sort_strings (keys_of m) n) ∙ q)))
      tt e

sort_roles-ok_only :
    (roles : List RoleSpec)
    → Distinct (role_names roles)
    → (ret : List RoleSpec) × (sort_roles roles ≡ ok ret)
    → All (λ r. all_known (role_names roles) r.dependencies ≡ true) roles
      × ¬ Cyclic (role_deps roles)
sort_roles-ok_only roles d (ret, e) =
    let names = role_names roles in
    let (m, u, filled, ordered, picked) =
      sort_filled-ok roles (fill_dependencies names [] roles) ret
        (sym (sort_roles_lem roles) ∙ e) in
    (
      fill-known names [] m roles filled,
      subst (λ f. ¬ Cyclic f) (fill-role_deps names m roles d filled)
          (λ c. visited-ne-cycle u (sym ordered ∙ (dependency_order-cycle_iff m).1 c)),
    )

sort_roles-ok_if :
    (roles : List RoleSpec)
    → Distinct (role_names roles)
    → All (λ r. all_known (role_names roles) r.dependencies ≡ true) roles
      × ¬ Cyclic (role_deps roles)
    → (ret : List RoleSpec) × (sort_roles roles ≡ ok ret)
unfolding sort_filled sorted_from
sort_roles-ok_if roles d (known, acyclic) =
    let (m, filled) = fill-succeeds (role_names roles) [] roles known in
    let same = fill-role_deps (role_names roles) m roles d filled in
    elim (Visit-cases (dependency_order m)) [
      | inl e ↦ absurd (acyclic (subst Cyclic same ((dependency_order-cycle_iff m).0 e)))
      | inr (inl e) ↦ absurd (dependency_order-total m e)
      | inr (inr (u, e)) ↦ (
        pick_roles roles u.order,
        sort_roles_lem roles ∙ rw (filled, sort_filled) (rw (e, sorted_from)),
      )
    ]

-- Of a group whose role names are distinct, the sorted list names every role of the group, none
-- twice, and no other; each element is the role of its name, and all the roles that it depends on
-- stand before it.
pub sort_roles-topological :
    (roles ret : List RoleSpec)
    → Distinct (role_names roles)
    → sort_roles roles ≡ ok ret
    → Distinct (role_names ret)
      × ((n : String)
          → (contains (role_names ret) n ≡ true) ↔ (contains (role_names roles) n ≡ true))
      × ((pre : List RoleSpec) (r : RoleSpec) (post : List RoleSpec)
          → ret ≡ pre ++ r ∷ post
          → (find_role roles r.name ≡ some r)
            × All (λ d. contains (role_names pre) d ≡ true) r.dependencies)
sort_roles-topological roles ret d e =
    let names = role_names roles in
    let (m, u, filled, ordered, picked) =
      sort_filled-ok roles (fill_dependencies names [] roles) ret
        (sym (sort_roles_lem roles) ∙ e) in
    let (distinct, complete, before) = dependency_order-topological m u ordered in
    let known =
      order-names names m u (fill-Closed names [] m roles (Closed-nil names) filled)
        (λ k q. sym (fill-keys_nil names m roles k filled) ∙ q) ordered in
    let same : role_names ret ≡ u.order =
      ap role_names picked ∙ pick_roles-names roles u.order known in
    (
      subst Distinct (sym same) distinct,
      λ n. (
        λ q.
            All-contains (λ n. contains names n ≡ true) u.order n known
              (ap (λ l. contains l n) (sym same) ∙ q),
        λ q. ap (λ l. contains l n) same ∙ complete n (fill-keys_nil names m roles n filled ∙ q),
      ),
      λ pre r post split.
          let found =
            All-middle (λ (r : RoleSpec). find_role roles r.name ≡ some r) pre r post
              (subst (All (λ (r : RoleSpec). find_role roles r.name ≡ some r)) (sym picked ∙ split)
                (pick_roles-found roles u.order)) in
          (
            found,
            subst (All (λ d. contains (role_names pre) d ≡ true))
                (ap (λ f. f r.name) (fill-role_deps names m roles d filled)
                  ∙ role_deps-found roles r found)
                (before (role_names pre) r.name (role_names post) (
                  sym same
                  ∙ ap role_names split
                  ∙ map-append (λ (r : RoleSpec). r.name) pre (r ∷ post))),
          ),
    )

-- For a group whose role names are distinct the sort succeeds exactly if every dependency is a role
-- of the group and no role depends on itself, directly or through others.
pub sort_roles-ok_iff :
    (roles : List RoleSpec)
    → Distinct (role_names roles)
    → ((ret : List RoleSpec) × (sort_roles roles ≡ ok ret)) ↔ (
        All (λ r. all_known (role_names roles) r.dependencies ≡ true) roles
        × ¬ Cyclic (role_deps roles))
sort_roles-ok_iff roles d = (sort_roles-ok_only roles d, sort_roles-ok_if roles d)
