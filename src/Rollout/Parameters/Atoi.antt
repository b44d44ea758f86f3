-- ===== src/Rollout/Parameters/Atoi.antt =====
-- `strconv.Atoi` of Go, as pkg/reconciler/sts_reconciler.go uses it: an optional sign, and one or
-- more digits whose number a 64-bit int holds.
pub mod RoleSize
use Prim.Native.Char.{code}
use Prim.Native.String.{[], ◌∷◌}
use rolebasedgroup.Prelude.{
  ℕ, zero, suc, ◌+◌, ◌-◌, ◌*◌, String, ◌||◌, ◌≡◌, refl, ltb, ◌==◌, if◌then◌else◌, Result, ok, err,
  other,
}
use rolebasedgroup.Prelude.Int.{ℤ, pos, negsuc}

syntax_error : Result ℤ
syntax_error = err (other "invalid syntax")

range_error : Result ℤ
range_error = err (other "value out of range")

-- The number that digits spell behind `n`.
digits : (ℕ → Result ℤ) → ℕ → String → Result ℤ
unfolding syntax_error
digits end n [] = end n
digits end n (c ∷ s) =
    let rest = digits end (n * 10 + (code c - 48)) s in
    if ltb (code c) 48 || ltb 57 (code c) then syntax_error else rest

signed : (ℕ → Result ℤ) → String → Result ℤ
unfolding syntax_error digits
signed end [] = syntax_error
signed end (c ∷ s) = digits end 0 (c ∷ s)

positive : ℕ → Result ℤ
unfolding range_error
positive n = if ltb n 9223372036854775808 then ok (pos n) else range_error

negative : ℕ → Result ℤ
unfolding range_error
negative zero = ok (pos 0)
negative (suc n) = if ltb n 9223372036854775808 then ok (negsuc n) else range_error

unfoldable pub atoi : String → Result ℤ
unfolding signed positive negative syntax_error
atoi [] = syntax_error
atoi (c ∷ s) =
    if code c == 45
    then signed negative s
    else if code c == 43
    then signed positive s
    else signed positive (c ∷ s)

atoi_negative : atoi "-12" ≡ ok (negsuc 11)
unfolding atoi
atoi_negative = refl

atoi_letters : atoi "3x" ≡ err (other "invalid syntax")
unfolding atoi
atoi_letters = refl
