-- ===== src/Dependency/Frame.antt =====
-- What every visit of pkg/dependency/dependency.go keeps of the shared variables.
use rolebasedgroup.Prelude.{
  ℕ, zero, suc, String, true, false, List, [], ◌∷◌, ◌≡◌, refl, sym, subst, ◌∙◌, ◌⊎◌, inl, inr,
  str_eq-eq, Bool-cases, arith,
}
use rolebasedgroup.Dependency.{
  Walk, Visit, visited, cycle, exhausted, enter, leave, and_then, visit_each, visit,
}

-- From the first to the second state of a visit: the marks in `temp` are as they were, completed
-- roles stay so, and a role that is being visited is not completed.
pub record Extends (w u : Walk) : Type 0 where
  pub temp_same : (x : String) → u.temp x ≡ w.temp x
  pub completed_kept : (x : String) → w.completed x ≡ true → u.completed x ≡ true
  pub temp_open : (x : String) → w.temp x ≡ true → u.completed x ≡ w.completed x

pub Extends-refl : (w : Walk) → Extends w w
Extends-refl w = record {
  temp_same = λ x. refl;
  completed_kept = λ x h. h;
  temp_open = λ x h. refl;
}

Extends-eq : {w u : Walk} → w ≡ u → Extends w u
Extends-eq {w} e = subst (Extends w) e (Extends-refl w)

pub Extends-trans : {w u v : Walk} → Extends w u → Extends u v → Extends w v
Extends-trans p q = record {
  temp_same = λ x. q.temp_same x ∙ p.temp_same x;
  completed_kept = λ x h. q.completed_kept x (p.completed_kept x h);
  temp_open = λ x h. q.temp_open x (p.temp_same x ∙ h) ∙ p.temp_open x h;
}

pub and_then-visited :
    (v : Visit) (f : Walk → Visit) {w : Walk}
    → and_then v f ≡ visited w
    → (u : Walk) × (v ≡ visited u) × (f u ≡ visited w)
and_then-visited (visited u) f e = (u, refl, e)
and_then-visited cycle f e = cc
and_then-visited exhausted f e = cc

abbrev StepExtends : (String → Walk → Visit) → Type 0
StepExtends step = (d : String) (w u : Walk) → step d w ≡ visited u → Extends w u

pub visit_each-Extends :
    (step : String → Walk → Visit)
    → StepExtends step
    → (ds : List String) (w u : Walk) → visit_each step ds w ≡ visited u
    → Extends w u
unfolding visit_each
visit_each-Extends step h [] w u e = Extends-eq e'
  where
    e' : w ≡ u
    e' = cc
visit_each-Extends step h (d ∷ ds) w u e =
    let (v, first, rest) = and_then-visited (step d w) (visit_each step ds) e in
    Extends-trans (h d w v first) (visit_each-Extends step h ds v u rest)

-- Leaving a role undoes what entering it did.
enter-leave-Extends :
    (r : String) (w u : Walk) → w.temp r ≡ false → Extends (enter r w) u → Extends w (leave r u)
unfolding enter leave
enter-leave-Extends r w u unmarked h = record {
  temp_same = λ x. ground (arith, str_eq-eq r x, h.temp_same x);
  completed_kept = λ x q. ground (arith, h.completed_kept x);
  temp_open = λ x q. ground (arith, h.temp_open x, h.temp_same x, str_eq-eq r x);
}

-- A visit that returns went through the dependencies, or had nothing to do.
pub visit-cases :
    (deps : String → List String) (f : ℕ) (r : String) (w u : Walk)
    → visit deps (suc f) r w ≡ visited u
    → (w.completed r ≡ true) × (u ≡ w)
      ⊎ (v : Walk) × (w.temp r ≡ false)
        × (w.completed r ≡ false)
        × (visit_each (visit deps f) (deps r) (enter r w) ≡ visited v)
        × (u ≡ leave r v)
unfolding visit
visit-cases deps f r w u e = elim (Bool-cases (w.temp r)) [
  | inl t ↦ absurd (cc (rw t at e))
  | inr t ↦ elim (Bool-cases (w.completed r)) [
    | inl c ↦ inl (c, cc (rw (t, c) at e))
    | inr c ↦
        let (v, each, last) =
          and_then-visited (visit_each (visit deps f) (deps r) (enter r w))
            (λ v. visited (leave r v)) (rw (t, c) at e) in
        inr (v, t, c, each, cc)
  ]
]

pub visit-zero :
    (deps : String → List String) (r : String) (w u : Walk) → ¬ (visit deps zero r w ≡ visited u)
unfolding visit
visit-zero deps r w u e = cc

-- A visit that returns keeps the shared variables so.
pub visit-Extends : (deps : String → List String) (f : ℕ) → StepExtends (visit deps f)
visit-Extends deps zero r w u e = absurd (visit-zero deps r w u e)
visit-Extends deps (suc f) r w u e = elim (visit-cases deps f r w u e) [
  | inl (c, same) ↦ Extends-eq (sym same)
  | inr (v, t, c, each, last) ↦ subst (Extends w) (sym last) (
      enter-leave-Extends r w v t
        (visit_each-Extends (visit deps f) (visit-Extends deps f) (deps r) (enter r w) v each))
]
