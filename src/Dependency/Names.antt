-- ===== src/Dependency/Names.antt =====
-- The names that the search of pkg/dependency/dependency.go visits.
use rolebasedgroup.Prelude.{
  ℕ, zero, suc, String, List, [], ◌∷◌, ◌≡◌, inl, inr, subst, sym, All, All-append, Bool-cases,
}
use rolebasedgroup.Dependency.{Walk, visited, enter, leave, visit_each, visit, visit_all}
use rolebasedgroup.Dependency.Frame.{and_then-visited, visit-cases, visit-zero}

module _ (deps : String → List String) (P : String → Type 0)
    (closed : (r : String) → P r → All P (deps r)) where
  visit_each-names :
      (f : ℕ) (ds : List String) (w u : Walk)
      → ((d : String) (w u : Walk)
          → P d
          → All P w.order
          → visit deps f d w ≡ visited u
          → All P u.order)
      → All P ds
      → All P w.order
      → visit_each (visit deps f) ds w ≡ visited u
      → All P u.order
  unfolding visit_each
  visit_each-names f [] w u step ps h e =
      let same : w ≡ u = cc in subst (λ (t : Walk). All P t.order) same h
  visit_each-names f (d ∷ ds) w u step ps h e =
      let (v, first, rest) = and_then-visited (visit deps f d w) (visit_each (visit deps f) ds) e in
      visit_each-names f ds v u step ps.1 (step d w v ps.0 h first) rest

  enter_order : (r : String) (w : Walk) → All P w.order → All P (enter r w).order
  unfolding enter
  enter_order r w h = h

  leave_order : (r : String) (w : Walk) → P r → All P w.order → All P (leave r w).order
  unfolding leave
  leave_order r w p h = All-append P w.order (r ∷ []) h (p, tt)

  visit_names :
      (f : ℕ) (r : String) (w u : Walk)
      → P r
      → All P w.order
      → visit deps f r w ≡ visited u
      → All P u.order
  visit_names zero r w u p h e = absurd (visit-zero deps r w u e)
  visit_names (suc f) r w u p h e = elim (visit-cases deps f r w u e) [
    | inl (c, same) ↦ subst (λ t. All P t.order) (sym same) h
    | inr (v, t, c, each, last) ↦
        subst (λ t. All P t.order) (sym last)
          (leave_order r v p (
            visit_each-names f (deps r) (enter r w) v (visit_names f) (closed r p)
              (enter_order r w h) each))
  ]

  -- Every name of the order has a property that the roles have and their dependencies inherit.
  pub visit_all-names :
      (f : ℕ) (ks : List String) (w u : Walk)
      → All P ks
      → All P w.order
      → visit_all (visit deps f) ks w ≡ visited u
      → All P u.order
  unfolding visit_all
  visit_all-names f [] w u ps h e =
      let same : w ≡ u = cc in subst (λ (t : Walk). All P t.order) same h
  visit_all-names f (k ∷ ks) w u ps h e = elim (Bool-cases (w.completed k)) [
    | inl c ↦ visit_all-names f ks w u ps.1 h (rw c at e)
    | inr c ↦
        let (v, first, rest) =
          and_then-visited (visit deps f k w) (visit_all (visit deps f) ks) (rw c at e) in
        visit_all-names f ks v u ps.1 (visit_names f k w v ps.0 h first) rest
  ]
