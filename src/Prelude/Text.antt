-- ===== src/Prelude/Text.antt =====
-- Texts as keys: equality, membership in a slice, and maps from texts as functions.
use Prim.Native.String.{String, compare}
use text.Mathlib.Text
use text.Mathlib.TextEquality.{eq_iff}
use mathlib.Core.Path.{◌≡◌, refl, ap, subst}
use mathlib.Core.Logic.{inl, inr}
use mathlib.Core.Bool.{Bool, true, false, ◌||◌}
use mathlib.Core.List.{List, [], ◌∷◌, ◌++◌}
use native.Mathlib.Omega.{arith}
use rolebasedgroup.Prelude.Lists.{All}
use rolebasedgroup.Prelude.Tests.{if◌then◌else◌, Bool-cases}

abbrev pub str_eq : String → String → Bool
str_eq s t = Text.◌==◌ s t

-- Go's `<=` on strings: by bytes.
abbrev pub str_le : String → String → Bool
str_le s t = Text.is_le (compare s t)

pub str_eq-eq : (s t : String) → str_eq s t ≡ true → s ≡ t
str_eq-eq s t h = (eq_iff s t).0 h

pub str_eq_refl : (s : String) → str_eq s s ≡ true
str_eq_refl s = (eq_iff s s).1 refl

-- `utils.ContainsString`: the loop over the slice.
unfoldable pub contains : List String → String → Bool
contains [] s = false
contains (v ∷ vs) s = if str_eq v s then true else contains vs s

-- A Go map as a function, `m[k] = v`.
module _ {ℓ} {V : Type ℓ} where
  abbrev pub update : (String → V) → String → V → String → V
  update m k v j = if str_eq k j then v else m j

pub contains-append :
    (xs ys : List String) (s : String) → contains (xs ++ ys) s ≡ (contains xs s || contains ys s)
unfolding contains
contains-append [] ys s = refl
contains-append (x ∷ xs) ys s = ground (arith, contains-append xs ys s)

pub contains-append_left :
    (xs ys : List String) (s : String) → contains xs s ≡ true → contains (xs ++ ys) s ≡ true
contains-append_left xs ys s h = ground (arith, contains-append xs ys s)

pub contains-append_right :
    (xs ys : List String) (s : String) → contains ys s ≡ true → contains (xs ++ ys) s ≡ true
contains-append_right xs ys s h = ground (arith, contains-append xs ys s)

-- An element that is found splits the list.
pub contains-split :
    (xs : List String) (s : String)
    → contains xs s ≡ true
    → (pre : List String) × (post : List String) × (xs ≡ pre ++ s ∷ post)
unfolding contains
contains-split [] s h = absurd (cc)
contains-split (x ∷ xs) s h = elim (Bool-cases (str_eq x s)) [
  | inl e ↦ ([], xs, ap (λ t. t ∷ xs) (str_eq-eq x s e))
  | inr e ↦
      let (pre, post, q) = contains-split xs s (rw e at h) in (x ∷ pre, post, ap (λ l. x ∷ l) q)
]

-- No element stands twice.
abbrev pub Distinct : List String → Type 0
Distinct [] = Unit
Distinct (x ∷ xs) = (contains xs x ≡ false) × Distinct xs

pub Distinct-snoc :
    (xs : List String) (s : String) → Distinct xs → contains xs s ≡ false → Distinct (xs ++ s ∷ [])
unfolding contains
Distinct-snoc [] s d h = ground arith
Distinct-snoc (x ∷ xs) s d h = (
  ground (arith, contains-append xs (s ∷ []) x, eq_iff s x, eq_iff x s),
  Distinct-snoc xs s d.1 (ground arith),
)

pub Distinct-middle :
    (pre : List String) (s : String) (post : List String)
    → Distinct (pre ++ s ∷ post)
    → contains pre s ≡ false
unfolding contains
Distinct-middle [] s post d = refl
Distinct-middle (x ∷ pre) s post d = ground (
  arith,
  contains-append pre (s ∷ post) x,
  eq_iff s x,
  eq_iff x s,
  Distinct-middle pre s post d.1,
)

pub All-contains :
    (P : String → Type 0) (l : List String) (s : String) → All P l → contains l s ≡ true → P s
unfolding contains
All-contains P [] s h c = absurd (cc)
All-contains P (x ∷ l) s h c = elim (Bool-cases (str_eq x s)) [
  | inl e ↦ subst P (str_eq-eq x s e) h.0
  | inr e ↦ All-contains P l s h.1 (rw e at c)
]

pub All-of_contains :
    (P : String → Type 0) (l : List String) → ((s : String) → contains l s ≡ true → P s) → All P l
unfolding contains
All-of_contains P [] h = tt
All-of_contains P (x ∷ l) h =
    (h x (rw (str_eq_refl x)), All-of_contains P l (λ s q. h s (ground arith)))
