-- ===== src/Setup/Workers/Owned.antt =====
-- What the workers of the controller in
-- internal/controller/workloads/rolebasedgroup_controller.go have owned, at any time.
use rolebasedgroup.Prelude.{
  ◌∙◌, ◌↔◌, ℕ, zero, suc, ◌+◌, ◌≤◌, Bool, true, false, List, ◌≡◌, refl, ap, length, if◌then◌else◌,
  arith, inl, inr, Bool-cases,
}
use rolebasedgroup.Setup.{
  Watches, set_up, Custom, lws_crd, pod_group_crd, has, store, owns, Phase, outside, unseen, stored,
  worker_step,
}
use rolebasedgroup.Setup.Workers.{
  times, is_stored, is_unseen, total, total-append, length-append, length-workers, total-le,
  workers, owing, Reachable, start, next,
}
use rolebasedgroup.Setup.Workers.Counts.{Counts, Holds, step-Apart}

step-started :
    (c : Custom) (there : Bool) (p : Phase) (w : Watches)
    → (worker_step c there p w).1.started ≡ w.started
unfolding worker_step store owns
step-started c there outside w = refl
step-started c there (unseen lws_crd) w = refl
step-started c true (unseen pod_group_crd) w = refl
step-started c false (unseen pod_group_crd) w = refl
step-started c there (stored d) w = refl

-- The phases stay as many as there are workers, and what `Complete` started with stays.
Reachable-length :
    (n : ℕ) (first : Watches) (phases : List Phase) (w : Watches)
    → Reachable n first phases w
    → (length phases ≡ n) × (w.started ≡ first.started)
Reachable-length n first phases w start = (length-workers n, refl)
Reachable-length n first phases w (next pre post p c there v r) =
    let (l, s) = Reachable-length n first _ v r in
    (
      omega
          (arith, l, length-append pre p post, length-append pre (worker_step c there p v).0 post),
      step-started c there p v ∙ s,
    )

set_up-owned :
    (lws pods : Bool) (c : Custom)
    → times c (set_up lws pods).owned ≡ (if has c (set_up lws pods) then 1 else 0)
unfolding set_up has
set_up-owned true true lws_crd = refl
set_up-owned true true pod_group_crd = refl
set_up-owned true false lws_crd = refl
set_up-owned true false pod_group_crd = refl
set_up-owned false true lws_crd = refl
set_up-owned false true pod_group_crd = refl
set_up-owned false false lws_crd = refl
set_up-owned false false pod_group_crd = refl

set_up-started :
    (lws pods : Bool) (c : Custom)
    → times c (set_up lws pods).started ≡ (if has c (set_up lws pods) then 1 else 0)
unfolding set_up
set_up-started lws pods c = set_up-owned lws pods c

fresh : (h : Bool) (owned n : ℕ) → owned ≡ (if h then 1 else 0) → Counts h h owned 0 0 n
fresh true o n q = ((λ z. absurd (cc)), (λ _. omega (arith, q)), omega (arith, q))
fresh false o n q = ((λ _. (refl, omega (arith, q))), (λ z. absurd (cc)), omega (arith, q))

workers-total :
    (c : Custom) (n : ℕ)
    → (total (is_stored c) (workers n) ≡ 0) × (total (is_unseen c) (workers n) ≡ 0)
workers-total c zero = (refl, refl)
workers-total c (suc n) = let (p, q) = workers-total c n in (omega (arith, p), omega (arith, q))

start-Holds :
    (lws pods : Bool) (n : ℕ) (c : Custom)
    → Holds n (set_up lws pods) (workers n) (set_up lws pods) c
start-Holds lws pods n c =
    let (p, q) = workers-total c n in
    rw p (rw q (fresh (has c (set_up lws pods)) _ n (set_up-owned lws pods c)))

Reachable-Holds :
    (lws pods : Bool) (n : ℕ) (phases : List Phase) (w : Watches)
    → Reachable n (set_up lws pods) phases w
    → (c : Custom) → Holds n (set_up lws pods) phases w c
Reachable-Holds lws pods n phases w start c = start-Holds lws pods n c
Reachable-Holds lws pods n phases w (next pre post p d there v r) c =
    let first : Watches = set_up lws pods in
    let room : total (is_unseen c) pre + (1 + total (is_unseen c) post) ≤ n = omega (
      arith,
      total-le c pre,
      total-le c post,
      length-append pre p post,
      (Reachable-length n first _ v r).0,
    ) in
    let q = (worker_step d there p v).0 in
    rw (total-append (is_stored c) pre q post) (
      rw (total-append (is_unseen c) pre q post) (
        step-Apart n first pre post p d there v c room (
          rw (total-append (is_stored c) pre p post, total-append (is_unseen c) pre p post) at
            (Reachable-Holds lws pods n _ v r c))))

-- Whatever `n` workers do at the same time behind a set-up, as long as each `Load`, `LoadOrStore` and
-- `Owns` is one step, the name of a resource is stored exactly if the resource is owned or a worker
-- calls `Owns` for it next. A resource that the set-up found is owned at most once, and is once among
-- what the controller was started with; another one is owned at most as often as there are workers,
-- and is not among what the controller was started with.
pub Reachable-Owned :
    (lws pods : Bool) (n : ℕ) (phases : List Phase) (w : Watches)
    → Reachable n (set_up lws pods) phases w
    → (c : Custom)
    → ((has c w ≡ true) ↔ (1 ≤ times c w.owned + owing c phases))
      × (times c w.owned ≤ (if has c (set_up lws pods) then 1 else n))
      × (times c w.started ≡ (if has c (set_up lws pods) then 1 else 0))
Reachable-Owned lws pods n phases w r c =
    let (none_yet, some_now, most) = Reachable-Holds lws pods n phases w r c in
    let (_, same_started) = Reachable-length n (set_up lws pods) phases w r in
    (
      (
        some_now,
        λ z. elim (Bool-cases (has c w)) [
          | inl q ↦ q
          | inr q ↦ absurd (omega (arith, z, (none_yet q).1))
        ],
      ),
      omega (arith, most),
      ap (times c) same_started ∙ set_up-started lws pods c,
    )
