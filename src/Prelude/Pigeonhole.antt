-- ===== src/Prelude/Pigeonhole.antt =====
-- A list of distinct texts that all stand in another list is no longer than that.
use Prim.Native.Nat.{◌≤◌}
use Prim.Native.String.{String}
use mathlib.Core.Path.{◌≡◌, refl, sym, ap, ◌∙◌}
use mathlib.Core.Logic.{inl, inr}
use mathlib.Core.Bool.{true, false}
use mathlib.Core.List.{List, [], ◌∷◌, ◌++◌}
use native.Mathlib.Omega.{arith}
use rolebasedgroup.Prelude.Lists.{length, length-append}
use rolebasedgroup.Prelude.Tests.{Bool-cases}
use rolebasedgroup.Prelude.Text.{
  str_eq, str_eq-eq, str_eq_refl, contains, contains-append, contains-split, Distinct,
}

abbrev pub Within : List String → List String → Type 0
Within xs ys = (s : String) → contains xs s ≡ true → contains ys s ≡ true

without :
    (x s : String) (xs pre post : List String)
    → contains xs x ≡ false
    → contains xs s ≡ true
    → contains (pre ++ x ∷ post) s ≡ true
    → contains (pre ++ post) s ≡ true
unfolding contains
without x s xs pre post lacks has h = elim (Bool-cases (str_eq x s)) [
  | inl same ↦
      let e : contains xs x ≡ contains xs s = ap (contains xs) (str_eq-eq x s same) in
      absurd (ground arith)
  | inr differ ↦ ground (arith, contains-append pre (x ∷ post) s, contains-append pre post s)
]

pub length-le_of_Within : (xs ys : List String) → Distinct xs → Within xs ys → length xs ≤ length ys
unfolding contains
length-le_of_Within [] ys d h = omega arith
length-le_of_Within (x ∷ xs) ys d h =
    let (pre, post, q) = contains-split ys x (h x (rw (str_eq_refl x) refl)) in
    let fewer : length xs ≤ length (pre ++ post) =
      length-le_of_Within xs (pre ++ post) d.1 (λ s has.
        without x s xs pre post d.0 has (ap (λ l. contains l s) (sym q) ∙ h s (ground arith))) in
    omega (arith, ap length q, length-append pre (x ∷ post), length-append pre post)
