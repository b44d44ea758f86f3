-- ===== src/Prelude/Decimal.antt =====
-- `%d` of Go's fmt, for integers.
use Prim.Native.String.{String, ◌++◌ as str_append}
use Prim.Native.Nat.{ℕ, zero, suc, ◌/◌, ◌%◌}
use mathlib.Core.Path.{◌≡◌, refl}
use rolebasedgroup.Prelude.Tests.{ltb, ◌==◌, if◌then◌else◌}
use rolebasedgroup.Prelude.Int.{ℤ, pos, negsuc}

unfoldable pub digit : ℕ → String
digit n =
    if n == 0
    then "0"
    else if n == 1
    then "1"
    else if n == 2
    then "2"
    else if n == 3
    then "3"
    else if n == 4
    then "4"
    else if n == 5
    then "5"
    else if n == 6
    then "6"
    else if n == 7
    then "7"
    else if n == 8
    then "8"
    else "9"

-- `%d`, on fuel: a number has fewer digits than it counts, and one.
unfoldable pub decimal : ℕ → ℕ → String
unfolding digit
decimal zero n = ""
decimal (suc fuel) n =
    let front = decimal fuel (n / 10) in
    if ltb n 10 then digit n else str_append front (digit (n % 10))

unfoldable pub format_ℕ : ℕ → String
unfolding decimal
format_ℕ n = decimal (suc n) n

unfoldable pub format_ℤ : ℤ → String
unfolding format_ℕ
format_ℤ (pos n) = format_ℕ n
format_ℤ (negsuc n) = str_append "-" (format_ℕ (suc n))

format_negative : format_ℤ (negsuc 119) ≡ "-120"
unfolding format_ℤ
format_negative = refl
