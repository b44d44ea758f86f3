-- ===== src/Rollout/Rounds.antt =====
-- The arithmetic of `rollingUpdatePartition` of pkg/reconciler/sts_reconciler.go, without its
-- wrap-around, and the rounds of its loop.
use native.Mathlib.Nat.{add-suc}
use rolebasedgroup.Prelude.{
  ℕ, zero, suc, ◌+◌, ◌-◌, ◌≤◌, ◌<◌, true, false, ◌||◌, not, some, List, ◌≡◌, ◌⊎◌, inl, inr, refl,
  length, get_elem?, get_elem?_in_range, Bool-cases, arith, ◌∙◌,
}
use rolebasedgroup.Prelude.Int.{ℤ, pos, ◌+ℤ◌, ◌-ℤ◌, min_ℤ, i32, i32-InRange}
use rolebasedgroup.Rollout.{
  ReplicaState, non_zero_value, calculate_continuous_ready_replicas, unavailable_below,
  reduce_partition, rounds_down, partition_after, rolling_update_partition,
}
use rolebasedgroup.Rollout.Count.{disrupted, disrupted-skip}

-- Half of the range of int32: sums and differences of two such numbers do not wrap.
abbrev pub half_range : ℕ
half_range = 1073741824

i32-sub : (a b : ℕ) → a < half_range → b < half_range → i32 (pos a -ℤ pos b) ≡ pos a -ℤ pos b
unfolding ◌-ℤ◌
i32-sub a b ha hb = i32-InRange (pos a -ℤ pos b) (ground arith)

i32-add : (a b : ℕ) → a < half_range → b < half_range → i32 (pos a +ℤ pos b) ≡ pos (a + b)
unfolding ◌+ℤ◌
i32-add a b ha hb = i32-InRange (pos a +ℤ pos b) (ground arith) ∙ ground arith

sub_le : (a b : ℕ) → b ≤ a → pos a -ℤ pos b ≡ pos (a - b)
unfolding ◌-ℤ◌
sub_le a b h = ground arith

non_zero_sub : (a b : ℕ) → non_zero_value (pos a -ℤ pos b) ≡ pos (a - b)
unfolding non_zero_value ◌-ℤ◌
non_zero_sub a b = ground arith

pub step_partition_lem :
    (n c step : ℕ)
    → n < half_range
    → c ≤ n
    → step < half_range
    → non_zero_value (i32 (i32 (pos n -ℤ pos c) -ℤ pos step)) ≡ pos (n - c - step)
step_partition_lem n c step hn hc hs =
    rw (i32-sub n c hn (omega arith), sub_le n c hc, i32-sub (n - c) step (omega arith) hs)
      (non_zero_sub (n - c) step)

reduce_skip :
    (k base : ℕ) (l : List ReplicaState) (p : ℤ) (s : ReplicaState)
    → get_elem? l (base + k) ≡ some s
    → (not s.ready || s.updated) ≡ true
    → reduce_partition (suc k) base l p ≡ reduce_partition k base l (pos (base + k))
unfolding reduce_partition
reduce_skip k base l p s e h = ground arith

reduce_stop :
    (k base : ℕ) (l : List ReplicaState) (p : ℤ) (s : ReplicaState)
    → get_elem? l (base + k) ≡ some s
    → (not s.ready || s.updated) ≡ false
    → reduce_partition (suc k) base l p ≡ some p
unfolding reduce_partition
reduce_stop k base l p s e h = ground arith

-- The loop keeps the partition between `base` and where it was, and it gives up no ready replica of
-- the old revision.
pub reduce_partition_lem :
    (k base : ℕ) (l : List ReplicaState) (p bound : ℕ)
    → base + k ≤ length l
    → base ≤ p
    → base + k ≤ suc p
    → disrupted l p ≤ bound
    → disrupted l (base + k) ≤ bound
    → (q : ℕ) × (reduce_partition k base l (pos p) ≡ some (pos q))
      × (base ≤ q)
      × (q ≤ p)
      × (disrupted l q ≤ bound)
unfolding reduce_partition
reduce_partition_lem zero base l p bound fits low high dp dk = (p, refl, low, omega arith, dp)
reduce_partition_lem (suc k) base l p bound fits low high dp dk =
    let (s, e) = get_elem?_in_range l (base + k) (omega arith) in
    elim (Bool-cases (not s.ready || s.updated)) [
      | inl skip ↦
          let (q, r, a, b, c) =
            reduce_partition_lem k base l (base + k) bound (omega arith) (omega arith) (omega arith)
              (kept s e skip) (kept s e skip) in
          (q, reduce_skip k base l (pos p) s e skip ∙ r, a, omega arith, c)
      | inr stop ↦ (p, reduce_stop k base l (pos p) s e stop, low, omega arith, dp)
    ]
  where
    kept :
        (s : ReplicaState)
        → get_elem? l (base + k) ≡ some s
        → (not s.ready || s.updated) ≡ true
        → disrupted l (base + k) ≤ bound
    kept s e skip = rw (disrupted-skip l (base + k) s e skip) (rw (add-suc base k) at dk)

pub rounds_lem :
    (n sp part : ℕ)
    → sp ≤ n
    → sp ≤ part
    → let k = rounds_down (min_ℤ (pos part) (pos n -ℤ pos 1)) (pos sp) in
      (sp + k ≤ n) × (sp + k ≤ suc part) × ((sp + k ≡ suc part) ⊎ (sp + k ≡ n))
unfolding ◌+ℤ◌ ◌-ℤ◌
rounds_lem n sp part h g = ground arith

pub partition_after_eq :
    (l : List ReplicaState) (n sp u q : ℕ) (current : ℤ)
    → n < half_range
    → sp < half_range
    → u < half_range
    → reduce_partition
        (rounds_down (min_ℤ (pos (sp + u)) (pos n -ℤ pos 1)) (pos sp))
        sp
        l
        (pos (sp + u))
      ≡ some (pos q)
    → partition_after l (pos n) (pos sp) current u ≡ some (min_ℤ (pos q) current)
unfolding partition_after
partition_after_eq l n sp u q current hn hs hu e =
    rw (i32-add sp u hs hu, i32-sub n 1 hn (omega arith), e, partition_after)

pub rolling_update_partition_eq :
    (l : List ReplicaState) (n sp u : ℕ) (step current p : ℤ)
    → non_zero_value (i32 (i32 (pos n -ℤ pos (calculate_continuous_ready_replicas l)) -ℤ step))
      ≡ pos sp
    → unavailable_below sp l ≡ some u
    → partition_after l (pos n) (pos sp) current u ≡ some p
    → rolling_update_partition l (pos n) step current ≡ some p
unfolding rolling_update_partition
rolling_update_partition_eq l n sp u step current p e f g =
    rw (e, f, rolling_update_partition) (rw e g)
