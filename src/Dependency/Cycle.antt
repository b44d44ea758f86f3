-- ===== src/Dependency/Cycle.antt =====
-- The cycles that pkg/dependency/dependency.go reports.
use rolebasedgroup.Prelude.{
  ℕ, zero, suc, String, Bool, true, false, List, [], ◌∷◌, ◌≡◌, refl, ◌∙◌, inl, inr, contains,
  str_eq, str_eq-eq, str_eq_refl, Bool-cases, arith, subst, fun_ext,
}
use rolebasedgroup.Dependency.{
  Walk, Visit, visited, cycle, exhausted, enter, leave, and_then, visit_each, visit, visit_all,
}
use rolebasedgroup.Dependency.Frame.{visit-Extends}

-- `b` is a dependency of `a`, directly or through others.
pub data Reach (deps : String → List String) (a : String) : String → Type 0 where
  edge : {b : String} → contains (deps a) b ≡ true → Reach deps a b
  further : {b c : String} → Reach deps a b → contains (deps b) c ≡ true → Reach deps a c

abbrev pub Cyclic : (String → List String) → Type 0
Cyclic deps = (c : String) × Reach deps c c

module _ (deps : String → List String) where
  -- Every role on the path is one that `r` was reached from.
  abbrev OnPath : (String → Bool) → String → Type 0
  OnPath m r = (x : String) → m x ≡ true → Reach deps x r

  enter-OnPath :
      (w : Walk) (r d : String)
      → OnPath w.temp r
      → contains (deps r) d ≡ true
      → OnPath (enter r w).temp d
  unfolding enter
  enter-OnPath w r d on e x h = elim (Bool-cases (str_eq r x)) [
    | inl q ↦ subst (λ y. Reach deps y d) (str_eq-eq r x q) (edge e)
    | inr q ↦ further (on x (rw q at h)) e
  ]

  and_then-cycle :
      (v : Visit) (f : Walk → Visit)
      → (v ≡ cycle → Cyclic deps)
      → ((u : Walk) → v ≡ visited u → f u ≡ cycle → Cyclic deps)
      → and_then v f ≡ cycle
      → Cyclic deps
  and_then-cycle (visited u) f h k e = k u refl e
  and_then-cycle cycle f h k e = h refl
  and_then-cycle exhausted f h k e = absurd (cc)

  visit_each-cycle :
      (f : ℕ) (m : String → Bool) (ds : List String) (w : Walk)
      → ((d : String) (u : Walk)
          → contains ds d ≡ true
          → u.temp ≡ m
          → visit deps f d u ≡ cycle
          → Cyclic deps)
      → w.temp ≡ m
      → visit_each (visit deps f) ds w ≡ cycle
      → Cyclic deps
  unfolding visit_each contains
  visit_each-cycle f m [] w step h e = absurd (cc)
  visit_each-cycle f m (d ∷ ds) w step h e =
      and_then-cycle (visit deps f d w) (visit_each (visit deps f) ds)
        (step d w (rw (str_eq_refl d)) h)
        (λ u first rest.
          visit_each-cycle f m ds u (λ c v q. step c v (ground arith))
            (fun_ext (visit-Extends deps f d w u first).temp_same ∙ h) rest)
        e

  visit_cycle :
      (f : ℕ) (r : String) (w : Walk) → OnPath w.temp r → visit deps f r w ≡ cycle → Cyclic deps
  unfolding visit
  visit_cycle zero r w on e = absurd (cc)
  visit_cycle (suc f) r w on e = elim (Bool-cases (w.temp r)) [
    | inl t ↦ (r, on r t)
    | inr t ↦ elim (Bool-cases (w.completed r)) [
      | inl c ↦ absurd (cc (rw (t, c) at e))
      | inr c ↦
          and_then-cycle (visit_each (visit deps f) (deps r) (enter r w)) (λ u. visited (leave r u))
            (visit_each-cycle f (enter r w).temp (deps r) (enter r w)
              (λ d u q same. visit_cycle f d u (rw same (enter-OnPath w r d on q))) refl)
            (λ u first last. absurd (cc)) (rw (t, c) at e)
    ]
  ]

  pub visit_all-cycle :
      (f : ℕ) (l : List String) (w : Walk)
      → ((x : String) → w.temp x ≡ false)
      → visit_all (visit deps f) l w ≡ cycle
      → Cyclic deps
  unfolding visit_all
  visit_all-cycle f [] w free e = absurd (cc)
  visit_all-cycle f (k ∷ l) w free e = elim (Bool-cases (w.completed k)) [
    | inl c ↦ visit_all-cycle f l w free (rw c at e)
    | inr c ↦
        and_then-cycle (visit deps f k w) (visit_all (visit deps f) l)
          (visit_cycle f k w (λ x t. absurd (cc (free x))))
          (λ u first rest.
            visit_all-cycle f l u (λ x. (visit-Extends deps f k w u first).temp_same x ∙ free x)
              rest)
          (rw c at e)
  ]
