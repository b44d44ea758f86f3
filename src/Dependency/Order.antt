-- ===== src/Dependency/Order.antt =====
-- `dependencyOrder` of pkg/dependency/dependency.go as a whole.
use mathlib.Core.List.{append_assoc, append-nil}
use rolebasedgroup.Prelude.{
  ◌+◌, String, true, false, List, [], ◌∷◌, ◌++◌, ◌≡◌, ◌≢◌, ◌↔◌, ap, refl, sym, ◌∙◌, inl, inr, ◌⊎◌,
  contains, Bool-cases, arith, subst, length, All, All-contains, Distinct, Distinct-middle,
  contains-split, contains-append_left,
}
use rolebasedgroup.Dependency.{
  Walk, Visit, visited, cycle, exhausted, insert_sorted, sort_strings, deps_of, keys_of, fresh,
  dependency_order,
}
use rolebasedgroup.Dependency.Topological.{DepsBefore, IsOrdered, visit_all-IsOrdered}
use rolebasedgroup.Dependency.Fuel.{unmarked-le-length, visit_all-total}
use rolebasedgroup.Dependency.Cycle.{Reach, Cyclic, visit_all-cycle}

contains-insert_sorted :
    (x : String) (l : List String) (s : String)
    → contains (insert_sorted x l) s ≡ contains (x ∷ l) s
unfolding insert_sorted contains
contains-insert_sorted x [] s = refl
contains-insert_sorted x (y ∷ l) s = ground (arith, contains-insert_sorted x l s)

pub contains-sort_strings :
    (l : List String) (s : String) → contains (sort_strings l) s ≡ contains l s
unfolding sort_strings contains
contains-sort_strings [] s = refl
contains-sort_strings (x ∷ l) s =
    ground (arith, contains-insert_sorted x (sort_strings l) s, contains-sort_strings l s)

-- Only a key has dependencies.
deps_of-closed :
    (m : List (String × List String)) (k : String)
    → contains (keys_of m) k ≡ false
    → deps_of m k ≡ []
unfolding deps_of contains
deps_of-closed [] k h = refl
deps_of-closed ((j, ds) ∷ m) k h = ground (arith, deps_of-closed m k)

length-keys_of : (m : List (String × List String)) → length (keys_of m) ≡ length m
length-keys_of [] = refl
length-keys_of ((j, ds) ∷ m) = omega (arith, length-keys_of m)

-- The search ends, for every map of dependencies: the fuel that it is given is enough.
pub dependency_order-total : (m : List (String × List String)) → dependency_order m ≢ exhausted
unfolding dependency_order
dependency_order-total m =
    visit_all-total (deps_of m) (keys_of m) (deps_of-closed m) (length m + 2)
      (sort_strings (keys_of m)) fresh
      (omega (arith, unmarked-le-length (keys_of m) (λ _. false), length-keys_of m))

fresh-IsOrdered : (deps : String → List String) → IsOrdered deps fresh
unfolding contains
fresh-IsOrdered deps = record { completed_iff = λ x. refl; distinct = tt; before = tt }

order-IsOrdered :
    (m : List (String × List String)) (u : Walk)
    → dependency_order m ≡ visited u
    → IsOrdered (deps_of m) u × All (λ k. u.completed k ≡ true) (sort_strings (keys_of m))
unfolding dependency_order
order-IsOrdered m u e =
    let (h, c, kept) =
      visit_all-IsOrdered (deps_of m) (length m + 2) (sort_strings (keys_of m)) fresh u
        (fresh-IsOrdered (deps_of m)) e in
    (h, c)

-- In an order with dependencies first, those of a name stand before it.
DepsBefore-split :
    (deps : String → List String) (seen pre : List String) (r : String) (post : List String)
    → DepsBefore deps seen (pre ++ r ∷ post)
    → All (λ d. contains (seen ++ pre) d ≡ true) (deps r)
DepsBefore-split deps seen [] r post h =
    subst (λ l. All (λ d. contains l d ≡ true) (deps r)) (sym (append-nil seen)) h.0
DepsBefore-split deps seen (x ∷ pre) r post h =
    subst (λ l. All (λ d. contains l d ≡ true) (deps r)) (append_assoc seen (x ∷ []) pre)
      (DepsBefore-split deps (seen ++ x ∷ []) pre r post h.1)

-- The order that is returned holds every role once, and each behind all of its dependencies.
pub dependency_order-topological :
    (m : List (String × List String)) (u : Walk)
    → dependency_order m ≡ visited u
    → Distinct u.order
      × ((k : String) → contains (keys_of m) k ≡ true → contains u.order k ≡ true)
      × ((pre : List String) (r : String) (post : List String)
          → u.order ≡ pre ++ r ∷ post
          → All (λ d. contains pre d ≡ true) (deps_of m r))
dependency_order-topological m u e =
    let (h, c) = order-IsOrdered m u e in
    (
      h.distinct,
      λ k q.
          sym (h.completed_iff k)
          ∙ All-contains (λ k. u.completed k ≡ true) (sort_strings (keys_of m)) k c
              (contains-sort_strings (keys_of m) k ∙ q),
      λ pre r post q.
          DepsBefore-split (deps_of m) [] pre r post (subst (DepsBefore (deps_of m) []) q h.before),
    )

-- What a name of the order depends on stands before it.
Reach-before :
    (deps : String → List String) (o : List String)
    → ((pre : List String) (r : String) (post : List String)
        → o ≡ pre ++ r ∷ post
        → All (λ d. contains pre d ≡ true) (deps r))
    → {a b : String} → Reach deps a b
    → (pre post : List String) → o ≡ pre ++ a ∷ post
    → contains pre b ≡ true
Reach-before deps o h {a} {b} (Reach.edge e) pre post q =
    All-contains _ (deps a) b (h pre a post q) e
Reach-before deps o h {a} (Reach.further {b = b} {c = c} p e) pre post q =
    let (l, r, s) = contains-split pre b (Reach-before deps o h p pre post q) in
    let q' : o ≡ l ++ b ∷ (r ++ a ∷ post) =
      q ∙ (ap (λ t. t ++ a ∷ post) s ∙ append_assoc l (b ∷ r) (a ∷ post)) in
    rw s (contains-append_left l (b ∷ r) c (All-contains _ (deps b) c (h l b (r ++ a ∷ post) q') e))

-- Only a role that is listed can be the start of a chain of dependencies.
Reach-key :
    (m : List (String × List String)) {a b : String}
    → Reach (deps_of m) a b
    → contains (keys_of m) a ≡ false
    → ⊥
unfolding contains
Reach-key m {a} (Reach.edge e) k = cc (rw (deps_of-closed m a k) at e)
Reach-key m (Reach.further p e) k = Reach-key m p k

order-acyclic :
    (m : List (String × List String)) (u : Walk)
    → dependency_order m ≡ visited u
    → ¬ Cyclic (deps_of m)
order-acyclic m u e (c, p) =
    let (distinct, complete, before) = dependency_order-topological m u e in
    elim (Bool-cases (contains (keys_of m) c)) [
      | inl k ↦
          let (pre, post, q) = contains-split u.order c (complete c k) in
          cc (
            Reach-before (deps_of m) u.order before p pre post q,
            Distinct-middle pre c post (subst Distinct q distinct),
          )
      | inr k ↦ Reach-key m p k
    ]

pub Visit-cases : (v : Visit) → (v ≡ cycle) ⊎ (v ≡ exhausted) ⊎ (u : Walk) × (v ≡ visited u)
Visit-cases (visited u) = inr (inr (u, refl))
Visit-cases cycle = inl refl
Visit-cases exhausted = inr (inl refl)

order-Cyclic : (m : List (String × List String)) → dependency_order m ≡ cycle → Cyclic (deps_of m)
unfolding dependency_order
order-Cyclic m e =
    visit_all-cycle (deps_of m) (length m + 2) (sort_strings (keys_of m)) fresh (λ x. refl) e

-- A cycle is reported exactly when some role depends on itself, directly or through others.
pub dependency_order-cycle_iff :
    (m : List (String × List String)) → (dependency_order m ≡ cycle) ↔ Cyclic (deps_of m)
dependency_order-cycle_iff m = (reported, found)
  where
    reported : dependency_order m ≡ cycle → Cyclic (deps_of m)
    reported = order-Cyclic m

    found : Cyclic (deps_of m) → dependency_order m ≡ cycle
    found p = elim (Visit-cases (dependency_order m)) [
      | inl e ↦ e
      | inr (inl e) ↦ absurd (dependency_order-total m e)
      | inr (inr (u, e)) ↦ absurd (order-acyclic m u e p)
    ]
