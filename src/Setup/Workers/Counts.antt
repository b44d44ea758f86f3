-- ===== src/Setup/Workers/Counts.antt =====
-- How an access of a worker to the variables of
-- internal/controller/workloads/rolebasedgroup_controller.go changes what is counted.
use rolebasedgroup.Prelude.{
  ℕ, ◌+◌, ◌≤◌, Bool, true, false, List, ◌≡◌, if◌then◌else◌, arith, inl, inr, Bool-cases,
}
use rolebasedgroup.Client.{leader_worker_set, pod_group}
use rolebasedgroup.Setup.{
  Watches, Custom, lws_crd, pod_group_crd, has, store, owns, custom_kind, Phase, outside, unseen,
  stored, worker_step,
}
use rolebasedgroup.Setup.Workers.{times, is_stored, is_unseen, total, times-append}

-- What holds of a resource: whether its name was stored first (`h0`) and is stored now (`h`), how
-- often the resource is owned, how many workers own it next, and how many may store its name.
abbrev pub Counts : (h0 h : Bool) (owned k m n : ℕ) → Type 0
Counts h0 h owned k m n =
    (h ≡ false → (h0 ≡ false) × (owned + k ≡ 0))
    × (h ≡ true → 1 ≤ owned + k)
    × (owned + k + m ≤ (if h0 then 1 else n))

abbrev pub Holds : ℕ → (first : Watches) → List Phase → Watches → Custom → Type 0
Holds n first phases w c =
    Counts (has c first) (has c w) (times c w.owned) (total (is_stored c) phases)
      (total (is_unseen c) phases) n

-- The name of the resource is stored by a worker that may store it.
noted :
    (h0 h : Bool) (owned ka kb ma mb n : ℕ)
    → Counts h0 h owned (ka + (0 + kb)) (ma + (1 + mb)) n
    → Counts h0 true owned (ka + (1 + kb)) (ma + (0 + mb)) n
noted true h o ka kb ma mb n (a, b, e) = ((λ q. absurd (cc)), (λ _. omega arith), omega arith)
noted false h o ka kb ma mb n (a, b, e) = ((λ q. absurd (cc)), (λ _. omega arith), omega arith)

-- `Owns` is called by a worker that calls it next.
called :
    (h0 h : Bool) (owned owned' ka kb m n : ℕ)
    → owned' ≡ owned + 1
    → Counts h0 h owned (ka + (1 + kb)) m n
    → Counts h0 h owned' (ka + (0 + kb)) m n
called h0 h o o' ka kb m n q (a, b, e) = (
  (λ z. let (x, y) = a z in absurd (omega (arith, y))),
  (λ z. omega (arith, q)),
  omega (arith, q, e),
)

-- `Owns` of another resource does not count.
unchanged :
    (h0 h : Bool) (owned owned' k m n : ℕ)
    → owned' ≡ owned + 0
    → Counts h0 h owned k m n
    → Counts h0 h owned' k m n
unchanged h0 h o o' k m n q (a, b, e) = (
  (λ z. let (x, y) = a z in (x, omega (arith, q, y))),
  (λ z. let y = b z in omega (arith, q, y)),
  omega (arith, q, e),
)

-- A worker comes that did not find the name.
arrived :
    (h0 h : Bool) (owned k ma mb n : ℕ)
    → h ≡ false
    → ma + (1 + mb) ≤ n
    → Counts h0 h owned k (ma + (0 + mb)) n
    → Counts h0 h owned k (ma + (1 + mb)) n
arrived h0 h o k ma mb n q room (a, b, e) =
    let (x, y) = a q in (a, b, rw x (omega (arith, y, room)))

module _ (n : ℕ) (first : Watches) (pre post : List Phase) where
  abbrev before : (Phase → ℕ) → Phase → ℕ
  before f p = total f pre + (f p + total f post)

  -- `Holds` with the worker's phase apart.
  abbrev Apart : Phase → Watches → Custom → Type 0
  Apart p w c =
      Counts (has c first) (has c w) (times c w.owned) (before (is_stored c) p)
        (before (is_unseen c) p) n

  came :
      (d : Custom) (w : Watches) (c : Custom)
      → total (is_unseen c) pre + (1 + total (is_unseen c) post) ≤ n
      → has d w ≡ false
      → Apart outside w c
      → Apart (unseen d) w c
  came lws_crd w lws_crd room q h =
      arrived (has lws_crd first) _ (times lws_crd w.owned) _ _ _ n q room h
  came pod_group_crd w pod_group_crd room q h =
      arrived (has pod_group_crd first) _ (times pod_group_crd w.owned) _ _ _ n q room h
  came lws_crd w pod_group_crd room q h = h
  came pod_group_crd w lws_crd room q h = h

  pub step-Apart :
      (p : Phase) (d : Custom) (there : Bool) (w : Watches) (c : Custom)
      → total (is_unseen c) pre + (1 + total (is_unseen c) post) ≤ n
      → Apart p w c
      → Apart (worker_step d there p w).0 (worker_step d there p w).1 c
  unfolding worker_step has store owns custom_kind
  step-Apart outside d there w c room h = elim (Bool-cases (has d w)) [
    | inl q ↦ rw q h
    | inr q ↦ rw q (came d w c room q h)
  ]
  step-Apart (unseen lws_crd) d there w lws_crd room h =
      noted (has lws_crd first) (has lws_crd w) (times lws_crd w.owned) _ _ _ _ n h
  step-Apart (unseen lws_crd) d there w pod_group_crd room h = h
  step-Apart (unseen pod_group_crd) d true w lws_crd room h = h
  step-Apart (unseen pod_group_crd) d false w lws_crd room h = h
  step-Apart (unseen pod_group_crd) d true w pod_group_crd room h =
      noted (has pod_group_crd first) (has pod_group_crd w) (times pod_group_crd w.owned) _ _ _ _ n
        h
  step-Apart (unseen pod_group_crd) d false w pod_group_crd room (a, b, e) =
      (a, b, omega (arith, e))
  step-Apart (stored lws_crd) d there w lws_crd room h =
      called (has lws_crd first) (has lws_crd w) (times lws_crd w.owned) _ _ _ _ n
        (times-append lws_crd w.owned leader_worker_set) h
  step-Apart (stored pod_group_crd) d there w pod_group_crd room h =
      called (has pod_group_crd first) (has pod_group_crd w) (times pod_group_crd w.owned) _ _ _ _ n
        (times-append pod_group_crd w.owned pod_group) h
  step-Apart (stored lws_crd) d there w pod_group_crd room h =
      unchanged (has pod_group_crd first) (has pod_group_crd w) (times pod_group_crd w.owned) _ _ _
        n (times-append pod_group_crd w.owned leader_worker_set) h
  step-Apart (stored pod_group_crd) d there w lws_crd room h =
      unchanged (has lws_crd first) (has lws_crd w) (times lws_crd w.owned) _ _ _ n
        (times-append lws_crd w.owned pod_group) h
