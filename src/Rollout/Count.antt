-- ===== src/Rollout/Count.antt =====
-- Counting replicas for the rolling update of pkg/reconciler/sts_reconciler.go.
use mathlib.Core.List.{reverse, reverse-cons}
use rolebasedgroup.Prelude.{
  ℕ, zero, suc, ◌+◌, ◌-◌, ◌≤◌, ◌<◌, Bool, true, ◌&&◌, ◌||◌, not, none, some, List, [], ◌∷◌, ◌++◌,
  ◌≡◌, refl, length, length-append, get_elem?, if◌then◌else◌, arith, ◌==◌,
}
use rolebasedgroup.Rollout.{
  ReplicaState, ready_from, calculate_continuous_ready_replicas, unavailable_below,
}

abbrev is_current : ReplicaState → Bool
is_current s = s.ready && s.updated

-- Ready replicas of the old revision: an update takes them down.
abbrev is_old_ready : ReplicaState → Bool
is_old_ready s = s.ready && not s.updated

count_old_ready : List ReplicaState → ℕ
count_old_ready [] = 0
count_old_ready (s ∷ l) = (if is_old_ready s then 1 else 0) + count_old_ready l

-- Those among the replicas from an index on: what a partition at that index gives up.
pub disrupted : List ReplicaState → ℕ → ℕ
unfolding count_old_ready
disrupted l zero = count_old_ready l
disrupted [] (suc n) = 0
disrupted (s ∷ l) (suc n) = disrupted l n

ready_from-snoc :
    (l : List ReplicaState) (s : ReplicaState)
    → ready_from (l ++ s ∷ []) ≡ (
        if ready_from l == length l
        then length l + (if is_current s then 1 else 0)
        else ready_from l)
unfolding ready_from
ready_from-snoc [] s = ground arith
ready_from-snoc (x ∷ l) s = ground (arith, ready_from-snoc l s)

ready_from-le : (l : List ReplicaState) → ready_from l ≤ length l
unfolding ready_from
ready_from-le [] = omega arith
ready_from-le (x ∷ l) = ground (arith, ready_from-le l)

length-reverse : (l : List ReplicaState) → length (reverse l) ≡ length l
length-reverse [] = refl
length-reverse (x ∷ l) =
    rw (reverse-cons x l) (omega (arith, length-append (reverse l) (x ∷ []), length-reverse l))

continuous-cons :
    (s : ReplicaState) (l : List ReplicaState)
    → calculate_continuous_ready_replicas (s ∷ l) ≡ (
        if calculate_continuous_ready_replicas l == length l
        then length l + (if is_current s then 1 else 0)
        else calculate_continuous_ready_replicas l)
unfolding calculate_continuous_ready_replicas
continuous-cons s l =
    rw (reverse-cons s l) (ground (arith, ready_from-snoc (reverse l) s, length-reverse l))

pub continuous-le-length :
    (l : List ReplicaState) → calculate_continuous_ready_replicas l ≤ length l
unfolding calculate_continuous_ready_replicas
continuous-le-length l = omega (arith, ready_from-le (reverse l), length-reverse l)

-- A partition gives up at most the replicas between it and the current ones at the end.
pub disrupted-le :
    (l : List ReplicaState) (p : ℕ)
    → disrupted l p ≤ length l - calculate_continuous_ready_replicas l - p
unfolding disrupted
disrupted-le [] zero = omega arith
disrupted-le [] (suc p) = omega arith
disrupted-le (s ∷ l) zero =
    ground (arith, disrupted-le l zero, continuous-cons s l, continuous-le-length l)
disrupted-le (s ∷ l) (suc p) =
    ground (arith, disrupted-le l p, continuous-cons s l, continuous-le-length l)

-- A replica that is not ready, or updated, adds nothing to what is given up.
pub disrupted-skip :
    (l : List ReplicaState) (i : ℕ) (s : ReplicaState)
    → get_elem? l i ≡ some s
    → (not s.ready || s.updated) ≡ true
    → disrupted l i ≡ disrupted l (suc i)
unfolding disrupted
disrupted-skip [] i s h q = absurd (cc)
disrupted-skip (x ∷ l) zero s h q = ground arith
disrupted-skip (x ∷ l) (suc i) s h q = disrupted-skip l i s h q

pub disrupted_mono : (l : List ReplicaState) (i : ℕ) → disrupted l (suc i) ≤ disrupted l i
unfolding disrupted
disrupted_mono [] zero = omega arith
disrupted_mono [] (suc i) = omega arith
disrupted_mono (x ∷ l) zero = omega arith
disrupted_mono (x ∷ l) (suc i) = disrupted_mono l i

pub disrupted-past : (l : List ReplicaState) (i : ℕ) → length l ≤ i → disrupted l i ≡ 0
unfolding disrupted
disrupted-past [] zero h = refl
disrupted-past [] (suc i) h = refl
disrupted-past (x ∷ l) zero h = absurd (omega arith)
disrupted-past (x ∷ l) (suc i) h = disrupted-past l i (omega arith)

-- The count below an index in range is taken, and is at most the index.
pub unavailable_below-some :
    (n : ℕ) (l : List ReplicaState)
    → n ≤ length l
    → (u : ℕ) × (unavailable_below n l ≡ some u) × (u ≤ n)
unfolding unavailable_below
unavailable_below-some zero l h = (0, refl, omega arith)
unavailable_below-some (suc n) [] h = absurd (omega arith)
unavailable_below-some (suc n) (s ∷ l) h =
    let (u, e, b) = unavailable_below-some n l (omega arith) in
    ((if s.ready then 0 else 1) + u, rw e refl, ground arith)

pub unavailable_below-none :
    (n : ℕ) (l : List ReplicaState) → length l < n → unavailable_below n l ≡ none
unfolding unavailable_below
unavailable_below-none zero l h = absurd (omega arith)
unavailable_below-none (suc n) [] h = refl
unavailable_below-none (suc n) (s ∷ l) h = rw (unavailable_below-none n l (omega arith)) refl
