-- ===== src/Dependency/Topological.antt =====
-- The order that pkg/dependency/dependency.go builds, with respect to the dependencies.
use mathlib.Core.List.{append_assoc, append-nil}
use rolebasedgroup.Prelude.{
  ℕ, zero, suc, String, true, false, List, [], ◌∷◌, ◌++◌, ◌≡◌, sym, subst, ◌∙◌, inl, inr,
  str_eq_refl, contains, contains-append, if◌then◌else◌, Bool-cases, All, All-map, Distinct,
  Distinct-snoc, arith,
}
use rolebasedgroup.Dependency.{Walk, Visit, visited, enter, leave, visit_each, visit, visit_all}
use rolebasedgroup.Dependency.Frame.{
  Extends, Extends-refl, Extends-trans, and_then-visited, visit-cases, visit-zero, visit-Extends,
  visit_each-Extends,
}

module _ (deps : String → List String) where
  -- Every dependency of `r` stands in `seen`.
  abbrev Ready : String → List String → Type 0
  Ready r seen = All (λ d. contains seen d ≡ true) (deps r)

  -- Every name of the list comes behind its dependencies, which may also stand in `seen`.
  abbrev pub DepsBefore : List String → List String → Type 0
  DepsBefore seen [] = Unit
  DepsBefore seen (r ∷ rs) = Ready r seen × DepsBefore (seen ++ r ∷ []) rs

  DepsBefore-snoc :
      (seen xs : List String) (r : String)
      → DepsBefore seen xs
      → Ready r (seen ++ xs)
      → DepsBefore seen (xs ++ r ∷ [])
  DepsBefore-snoc seen [] r h a = (subst (Ready r) (append-nil seen) a, tt)
  DepsBefore-snoc seen (x ∷ xs) r h a = (
    h.0,
    DepsBefore-snoc (seen ++ x ∷ []) xs r h.1
        (subst (Ready r) (sym (append_assoc seen (x ∷ []) xs)) a),
  )

  -- The order so far: it holds the completed roles, each once, behind its dependencies.
  pub record IsOrdered (w : Walk) : Type 0 where
    pub completed_iff : (x : String) → w.completed x ≡ contains w.order x
    pub distinct : Distinct w.order
    pub before : DepsBefore [] w.order

  enter-IsOrdered : (r : String) (w : Walk) → IsOrdered w → IsOrdered (enter r w)
  unfolding enter
  enter-IsOrdered r w h = record {
    completed_iff = h.completed_iff;
    distinct = h.distinct;
    before = h.before;
  }

  leave-IsOrdered :
      (r : String) (w : Walk)
      → IsOrdered w
      → w.completed r ≡ false
      → All (λ d. w.completed d ≡ true) (deps r)
      → IsOrdered (leave r w)
  unfolding leave contains
  leave-IsOrdered r w h c a = record {
    completed_iff = λ x. ground (arith, contains-append w.order (r ∷ []) x, h.completed_iff x);
    distinct = Distinct-snoc w.order r h.distinct (sym (h.completed_iff r) ∙ c);
    before = DepsBefore-snoc [] w.order r h.before (
        All-map (λ d. w.completed d ≡ true) (λ d. contains w.order d ≡ true) (deps r)
          (λ d q. sym (h.completed_iff d) ∙ q) a);
  }

  leave-completed : (r : String) (w : Walk) → (leave r w).completed r ≡ true
  unfolding leave
  leave-completed r w = rw (str_eq_refl r)

  -- While its dependencies are visited, a role is not completed.
  enter-completed :
      (r : String) (w v : Walk)
      → w.completed r ≡ false
      → Extends (enter r w) v
      → v.completed r ≡ false
  unfolding enter
  enter-completed r w v c h = h.temp_open r (rw (str_eq_refl r)) ∙ c

  abbrev StepOrders : (String → Walk → Visit) → Type 0
  StepOrders step =
      (d : String) (w u : Walk)
      → IsOrdered w
      → step d w ≡ visited u
      → IsOrdered u × (u.completed d ≡ true)

  visit_each-IsOrdered :
      (f : ℕ) (ds : List String) (w u : Walk)
      → StepOrders (visit deps f)
      → IsOrdered w
      → visit_each (visit deps f) ds w ≡ visited u
      → IsOrdered u × All (λ d. u.completed d ≡ true) ds
  unfolding visit_each
  visit_each-IsOrdered f [] w u step h e = (subst IsOrdered (cc) h, tt)
  visit_each-IsOrdered f (d ∷ ds) w u step h e =
      let (v, first, rest) = and_then-visited (visit deps f d w) (visit_each (visit deps f) ds) e in
      let (hv, c) = step d w v h first in
      let (hu, cs) = visit_each-IsOrdered f ds v u step hv rest in
      let kept = visit_each-Extends (visit deps f) (visit-Extends deps f) ds v u rest in
      (hu, (kept.completed_kept d c, cs))

  -- A visit that returns has completed its role, and keeps the order topological.
  visit-IsOrdered : (f : ℕ) → StepOrders (visit deps f)
  visit-IsOrdered zero r w u h e = absurd (visit-zero deps r w u e)
  visit-IsOrdered (suc f) r w u h e = elim (visit-cases deps f r w u e) [
    | inl (c, same) ↦ subst (λ t. IsOrdered t × (t.completed r ≡ true)) (sym same) (h, c)
    | inr (v, t, c, each, last) ↦
        let (hv, cs) =
          visit_each-IsOrdered f (deps r) (enter r w) v (visit-IsOrdered f) (enter-IsOrdered r w h)
            each in
        let kept =
          visit_each-Extends (visit deps f) (visit-Extends deps f) (deps r) (enter r w) v each in
        subst (λ t. IsOrdered t × (t.completed r ≡ true)) (sym last)
          (leave-IsOrdered r v hv (enter-completed r w v c kept) cs, leave-completed r v)
  ]

  pub visit_all-IsOrdered :
      (f : ℕ) (ks : List String) (w u : Walk)
      → IsOrdered w
      → visit_all (visit deps f) ks w ≡ visited u
      → IsOrdered u × All (λ k. u.completed k ≡ true) ks × Extends w u
  unfolding visit_all
  visit_all-IsOrdered f [] w u h e =
      (subst IsOrdered (cc) h, tt, subst (Extends w) (cc) (Extends-refl w))
  visit_all-IsOrdered f (k ∷ ks) w u h e =
      let (v, first, rest) =
        and_then-visited (if w.completed k then visited w else visit deps f k w)
          (visit_all (visit deps f) ks) e in
      let (hv, c, kept) = head v first in
      let (hu, cs, kept') = visit_all-IsOrdered f ks v u hv rest in
      (hu, (kept'.completed_kept k c, cs), Extends-trans kept kept')
    where
      head :
          (v : Walk)
          → (if w.completed k then visited w else visit deps f k w) ≡ visited v
          → IsOrdered v × (v.completed k ≡ true) × Extends w v
      head v e' = elim (Bool-cases (w.completed k)) [
        | inl c ↦
            subst (λ t. IsOrdered t × (t.completed k ≡ true) × Extends w t) (cc (rw c at e'))
              (h, c, Extends-refl w)
        | inr c ↦
            let e'' = rw c at e' in
            let (hv, d) = visit-IsOrdered f k w v h e'' in (hv, d, visit-Extends deps f k w v e'')
      ]
