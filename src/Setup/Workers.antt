-- ===== src/Setup/Workers.antt =====
-- The workers of the controller in internal/controller/workloads/rolebasedgroup_controller.go that
-- add watches at the same time: `dynamicWatchCustomCRD`, and `Reconcile` for the PodGroups.
pub mod Counts
pub mod Owned
use rolebasedgroup.Prelude.{
  ◌∙◌, ◌↔◌, ℕ, zero, suc, ◌+◌, ◌≤◌, Bool, true, false, List, [], ◌∷◌, ◌++◌, ◌≡◌, refl, ap, All,
  length, if◌then◌else◌, arith, inl, inr, Bool-cases,
}
use rolebasedgroup.Client.{Kind, leader_worker_set, pod_group}
use rolebasedgroup.Setup.{
  Watches, set_up, Custom, lws_crd, pod_group_crd, has, store, owns, custom_kind, Phase, outside,
  unseen, stored, worker_step,
}

abbrev pub same : Custom → Custom → ℕ
same lws_crd lws_crd = 1
same pod_group_crd pod_group_crd = 1
same _ _ = 0

abbrev pub of_kind : Custom → Kind → ℕ
of_kind lws_crd leader_worker_set = 1
of_kind pod_group_crd pod_group = 1
of_kind _ _ = 0

-- How often the resource is in a list of kinds.
abbrev pub times : Custom → List Kind → ℕ
times c [] = 0
times c (k ∷ l) = of_kind c k + times c l

-- How many workers will call `Owns` for the resource next, and how many may store its name.
abbrev pub is_stored : Custom → Phase → ℕ
is_stored c (stored d) = same c d
is_stored c _ = 0

abbrev pub is_unseen : Custom → Phase → ℕ
is_unseen c (unseen d) = same c d
is_unseen c _ = 0

abbrev pub total : (Phase → ℕ) → List Phase → ℕ
total f [] = 0
total f (p ∷ l) = f p + total f l

abbrev pub workers : ℕ → List Phase
workers zero = []
workers (suc n) = outside ∷ workers n

-- How many workers have stored the name of a resource and call `Owns` for it next.
abbrev pub owing : Custom → List Phase → ℕ
owing c phases = total (is_stored c) phases

-- What `n` workers may come to, one access at a time, in any order.
pub data Reachable (n : ℕ) (first : Watches) : List Phase → Watches → Type 0 where
  start : Reachable n first (workers n) first
  next :
      (pre post : List Phase) (p : Phase) (c : Custom) (there : Bool) (w : Watches)
      → Reachable n first (pre ++ p ∷ post) w
      → Reachable n first (pre ++ (worker_step c there p w).0 ∷ post) (worker_step c there p w).1

pub total-append :
    (f : Phase → ℕ) (l : List Phase) (p : Phase) (m : List Phase)
    → total f (l ++ p ∷ m) ≡ total f l + (f p + total f m)
total-append f [] p m = omega arith
total-append f (q ∷ l) p m = omega (arith, total-append f l p m)

pub length-append :
    (l : List Phase) (p : Phase) (m : List Phase) → length (l ++ p ∷ m) ≡ length l + (1 + length m)
length-append [] p m = omega arith
length-append (q ∷ l) p m = omega (arith, length-append l p m)

pub times-append :
    (c : Custom) (l : List Kind) (k : Kind) → times c (l ++ k ∷ []) ≡ times c l + of_kind c k
times-append c [] k = omega arith
times-append c (x ∷ l) k = omega (arith, times-append c l k)

same-le : (c d : Custom) → same c d ≤ 1
same-le lws_crd lws_crd = omega arith
same-le lws_crd pod_group_crd = omega arith
same-le pod_group_crd lws_crd = omega arith
same-le pod_group_crd pod_group_crd = omega arith

pub length-workers : (n : ℕ) → length (workers n) ≡ n
length-workers zero = refl
length-workers (suc n) = omega (arith, length-workers n)

is_unseen-le : (c : Custom) (p : Phase) → is_unseen c p ≤ 1
is_unseen-le c outside = omega arith
is_unseen-le c (unseen d) = same-le c d
is_unseen-le c (stored d) = omega arith

pub total-le : (c : Custom) (l : List Phase) → total (is_unseen c) l ≤ length l
total-le c [] = omega arith
total-le c (p ∷ l) = omega (arith, is_unseen-le c p, total-le c l)
