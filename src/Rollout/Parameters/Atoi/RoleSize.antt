-- ===== src/Rollout/Parameters/Atoi/RoleSize.antt =====
-- The annotation with a role's size: it is written by `GetCommonAnnotationsFromRole` of
-- api/workloads/v1alpha1/helper.go, and read with `strconv.Atoi` by `rollingUpdateParameters` of
-- pkg/reconciler/sts_reconciler.go.
use Prim.Native.Char.{Char, code}
use Prim.Native.String.{[], ◌∷◌, ◌++◌ as str_append}
use text.Mathlib.TextLemmas.{append_assoc, append-nil, cons-append, nil-append}
use mathlib.Core.List.{List}
use rolebasedgroup.Prelude.{
  ℕ, zero, suc, ◌+◌, ◌*◌, ◌/◌, ◌%◌, ◌<◌, ◌≤◌, String, some, ◌≡◌, refl, sym, ap, ◌∙◌, inl, inr, ltb,
  Bool-cases, Result, ok, arith,
}
use rolebasedgroup.Prelude.Int.{ℤ, pos, negsuc, pos_part, neg_part}
use rolebasedgroup.Prelude.Decimal.{digit, decimal, format_ℕ, format_ℤ}
use rolebasedgroup.Api.{Labels, RoleSpec}
use rolebasedgroup.Api.Helper.{label, role_size_annotation_key, get_common_annotations_from_role}
use rolebasedgroup.Rollout.Parameters.Atoi.{atoi, digits, signed, positive, negative}

-- A digit is one character, and is read as itself.
digit-char : (n : ℕ) → n < 10 → (c : Char) × (digit n ≡ c ∷ []) × (code c ≡ 48 + n)
unfolding digit
digit-char zero h = ("0", refl, refl)
digit-char (suc zero) h = ("1", refl, refl)
digit-char (suc (suc zero)) h = ("2", refl, refl)
digit-char (suc (suc (suc zero))) h = ("3", refl, refl)
digit-char (suc (suc (suc (suc zero)))) h = ("4", refl, refl)
digit-char (suc (suc (suc (suc (suc zero))))) h = ("5", refl, refl)
digit-char (suc (suc (suc (suc (suc (suc zero)))))) h = ("6", refl, refl)
digit-char (suc (suc (suc (suc (suc (suc (suc zero))))))) h = ("7", refl, refl)
digit-char (suc (suc (suc (suc (suc (suc (suc (suc zero)))))))) h = ("8", refl, refl)
digit-char (suc (suc (suc (suc (suc (suc (suc (suc (suc zero))))))))) h = ("9", refl, refl)
digit-char (suc (suc (suc (suc (suc (suc (suc (suc (suc (suc n)))))))))) h = absurd (omega arith)

digits-digit :
    (end : ℕ → Result ℤ) (k n : ℕ) (rest : String)
    → n < 10
    → digits end k (str_append (digit n) rest) ≡ digits end (k * 10 + n) rest
unfolding digits
digits-digit end k n rest h =
    let (c, e, v) = digit-char n h in
    ap (λ s. digits end k (str_append s rest)) e
    ∙ ap (digits end k) (cons-append c [] rest ∙ ap (λ s. c ∷ s) (nil-append rest))
    ∙ ground arith

digits-decimal :
    (end : ℕ → Result ℤ) (fuel n : ℕ) (rest : String)
    → n < fuel
    → digits end 0 (str_append (decimal fuel n) rest) ≡ digits end n rest
unfolding decimal
digits-decimal end zero n rest h = elim h [ ]
digits-decimal end (suc fuel) n rest h = elim (Bool-cases (ltb n 10)) [
  | inl small ↦
      rw small
        (digits-digit end 0 n rest (ground arith) ∙ ap (λ m. digits end m rest) (omega arith))
  | inr large ↦ rw large (
      ap (digits end 0) (append_assoc (decimal fuel (n / 10)) (digit (n % 10)) rest)
      ∙ digits-decimal end fuel (n / 10) (str_append (digit (n % 10)) rest) (ground arith)
      ∙ digits-digit end (n / 10) (n % 10) rest (omega arith)
      ∙ ap (λ m. digits end m rest) (omega arith))
]

-- Decimals begin with a digit.
decimal-char :
    (fuel n : ℕ) → n < fuel → (c : Char) × (s : String) × (decimal fuel n ≡ c ∷ s) × (48 ≤ code c)
unfolding decimal
decimal-char zero n h = elim h [ ]
decimal-char (suc fuel) n h = elim (Bool-cases (ltb n 10)) [
  | inl small ↦ let (c, e, v) = digit-char n (ground arith) in (c, [], rw small e, omega arith)
  | inr large ↦
      let (c, s, e, v) = decimal-char fuel (n / 10) (ground arith) in
      (
        c,
        str_append s (digit (n % 10)),
        rw large (ap (λ x. str_append x (digit (n % 10))) e ∙ cons-append c s (digit (n % 10))),
        v,
      )
]

signed-format_ℕ : (end : ℕ → Result ℤ) (n : ℕ) → signed end (format_ℕ n) ≡ end n
unfolding format_ℕ signed digits
signed-format_ℕ end n =
    let (c, s, e, _) = decimal-char (suc n) n (omega arith) in
    ap (signed end) e
    ∙ ap (digits end 0) (sym e ∙ sym (append-nil (decimal (suc n) n)))
    ∙ digits-decimal end (suc n) n [] (omega arith)

atoi-format_ℕ : (n : ℕ) → atoi (format_ℕ n) ≡ positive n
unfolding atoi format_ℕ
atoi-format_ℕ n =
    let (c, s, e, v) = decimal-char (suc n) n (omega arith) in
    ap atoi e ∙ ground arith ∙ ap (signed positive) (sym e) ∙ signed-format_ℕ positive n

minus-atoi : (s : String) → atoi (str_append "-" s) ≡ signed negative s
unfolding atoi
minus-atoi s =
    let c : Char = "-" in
    ap atoi (cons-append c [] s ∙ ap (λ r. c ∷ r) (nil-append s)) ∙ ground arith

negative-suc : (n : ℕ) → n < 9223372036854775808 → negative (suc n) ≡ ok (negsuc n)
unfolding negative
negative-suc n h = ground arith

positive_lem : (n : ℕ) → n < 9223372036854775808 → positive n ≡ ok (pos n)
unfolding positive
positive_lem n h = ground arith

-- A number that a 64-bit integer holds is read from its decimal as itself.
atoi-format_ℤ :
    (z : ℤ)
    → pos_part z < 9223372036854775808
    → neg_part z ≤ 9223372036854775808
    → atoi (format_ℤ z) ≡ ok z
unfolding format_ℤ
atoi-format_ℤ (pos n) h k = atoi-format_ℕ n ∙ positive_lem n h
atoi-format_ℤ (negsuc n) h k =
    minus-atoi (format_ℕ (suc n)) ∙ signed-format_ℕ negative (suc n) ∙ negative-suc n (omega arith)

-- The size of a role that was written into the annotations of its workload is read back as it was.
pub role_size-roundtrip :
    (role : RoleSpec) (z : ℤ)
    → role.replicas ≡ some z
    → pos_part z < 2147483648
    → neg_part z ≤ 2147483648
    → (annotations : Labels) × (get_common_annotations_from_role role ≡ ok annotations)
      × (atoi (label annotations role_size_annotation_key) ≡ ok z)
unfolding get_common_annotations_from_role label
role_size-roundtrip role z q h k = (
  List.◌∷◌ (role_size_annotation_key, format_ℤ z) List.[],
  rw q refl,
  atoi-format_ℤ z (omega arith) (omega arith),
)
