-- ===== src/Dependency/Fuel.antt =====
-- How deep the recursion of `visit` in pkg/dependency/dependency.go goes.
use rolebasedgroup.Prelude.{
  ℕ, zero, suc, ◌+◌, ◌≤◌, String, Bool, true, false, List, [], ◌∷◌, ◌≡◌, ◌≢◌, refl, ◌∙◌, inl, inr,
  length, contains, str_eq, str_eq-eq, update, if◌then◌else◌, Bool-cases, arith, fun_ext,
}
use rolebasedgroup.Dependency.{
  Walk, Visit, visited, cycle, exhausted, enter, leave, and_then, visit_each, visit, visit_all,
}
use rolebasedgroup.Dependency.Frame.{visit-Extends}

-- How many of the keys are not marked.
pub unmarked : List String → (String → Bool) → ℕ
unmarked [] m = 0
unmarked (k ∷ ks) m = if m k then unmarked ks m else suc (unmarked ks m)

pub unmarked-le-length : (ks : List String) (m : String → Bool) → unmarked ks m ≤ length ks
unfolding unmarked
unmarked-le-length [] m = omega arith
unmarked-le-length (k ∷ ks) m = ground (arith, unmarked-le-length ks m)

unmarked-update_le :
    (ks : List String) (m : String → Bool) (r : String)
    → unmarked ks (update m r true) ≤ unmarked ks m
unfolding unmarked
unmarked-update_le [] m r = omega arith
unmarked-update_le (k ∷ ks) m r = ground (arith, unmarked-update_le ks m r)

eq_marks : (m : String → Bool) (k r : String) → k ≡ r → m k ≡ m r
eq_marks m k r e = cc

-- Marking a key that was not marked leaves fewer.
unmarked-update_lt :
    (ks : List String) (m : String → Bool) (r : String)
    → contains ks r ≡ true
    → m r ≡ false
    → suc (unmarked ks (update m r true)) ≤ unmarked ks m
unfolding unmarked contains
unmarked-update_lt [] m r h u = absurd (cc)
unmarked-update_lt (k ∷ ks) m r h u = elim (Bool-cases (str_eq k r)) [
  | inl e ↦ ground (arith, unmarked-update_le ks m r, str_eq-eq k r, eq_marks m k r)
  | inr e ↦ ground (arith, unmarked-update_lt ks m r)
]

and_then-total :
    (v : Visit) (f : Walk → Visit)
    → v ≢ exhausted
    → ((u : Walk) → v ≡ visited u → f u ≢ exhausted)
    → and_then v f ≢ exhausted
and_then-total (visited u) f h k = k u refl
and_then-total cycle f h k = λ e. cc
and_then-total exhausted f h k = absurd (h refl)

visit_each-total :
    (step : String → Walk → Visit)
    → (m : String → Bool) → ((d : String) (w : Walk) → w.temp ≡ m → step d w ≢ exhausted)
    → ((d : String) (w u : Walk) → step d w ≡ visited u → u.temp ≡ w.temp)
    → (ds : List String) (w : Walk) → w.temp ≡ m
    → visit_each step ds w ≢ exhausted
unfolding visit_each
visit_each-total step m total same [] w h = λ e. cc
visit_each-total step m total same (d ∷ ds) w h =
    and_then-total (step d w) (visit_each step ds) (total d w h)
      (λ u e. visit_each-total step m total same ds u (same d w u e ∙ h))

visit_each-nil : (step : String → Walk → Visit) (w : Walk) → visit_each step [] w ≢ exhausted
unfolding visit_each
visit_each-nil step w = λ e. cc

and_then-exhausted :
    (v : Visit) (f : Walk → Walk) → and_then v (λ u. visited (f u)) ≡ exhausted → v ≡ exhausted
and_then-exhausted (visited u) f e = cc
and_then-exhausted cycle f e = cc
and_then-exhausted exhausted f e = refl

module _ (deps : String → List String) (ks : List String)
    (closed : (k : String) → contains ks k ≡ false → deps k ≡ []) where
  abbrev Enough : (String → Bool) → ℕ → Type 0
  Enough m fuel = unmarked ks m + 2 ≤ fuel

  visit_same : (f : ℕ) (d : String) (w u : Walk) → visit deps f d w ≡ visited u → u.temp ≡ w.temp
  visit_same f d w u e = fun_ext (visit-Extends deps f d w u e).temp_same

  -- The loop over the dependencies of a role that is marked now does not run out of fuel.
  inner-total :
      (f : ℕ) (r : String) (w : Walk)
      → Enough w.temp (suc f)
      → w.temp r ≡ false
      → ((d : String) (u : Walk) → Enough u.temp f → visit deps f d u ≢ exhausted)
      → visit_each (visit deps f) (deps r) (enter r w) ≢ exhausted
  unfolding enter
  inner-total f r w enough t ih = elim (Bool-cases (contains ks r)) [
    | inl key ↦
        visit_each-total (visit deps f) (update w.temp r true)
          (λ d u e. ih d u (rw e (omega (arith, unmarked-update_lt ks w.temp r key t))))
          (visit_same f) (deps r) (enter r w) refl
    | inr leaf ↦ rw (closed r leaf) (visit_each-nil (visit deps f) (enter r w))
  ]

  visit_total : (f : ℕ) (r : String) (w : Walk) → Enough w.temp f → visit deps f r w ≢ exhausted
  unfolding visit
  visit_total zero r w enough = absurd (omega arith)
  visit_total (suc f) r w enough = elim (Bool-cases (w.temp r)) [
    | inl t ↦ rw t (λ e. cc)
    | inr t ↦ elim (Bool-cases (w.completed r)) [
      | inl c ↦ rw (t, c) (λ e. cc)
      | inr c ↦
          rw (t, c)
            (λ e.
              inner-total f r w enough t (visit_total f)
                (and_then-exhausted (visit_each (visit deps f) (deps r) (enter r w)) (leave r) e))
    ]
  ]

  pub visit_all-total :
      (f : ℕ) (l : List String) (w : Walk)
      → Enough w.temp f
      → visit_all (visit deps f) l w ≢ exhausted
  unfolding visit_all
  visit_all-total f [] w enough = λ e. cc
  visit_all-total f (k ∷ l) w enough = elim (Bool-cases (w.completed k)) [
    | inl c ↦ rw c (visit_all-total f l w enough)
    | inr c ↦ rw c (
        and_then-total (visit deps f k w) (visit_all (visit deps f) l) (visit_total f k w enough)
          (λ u e. visit_all-total f l u (rw (visit_same f k w u e) enough)))
  ]
