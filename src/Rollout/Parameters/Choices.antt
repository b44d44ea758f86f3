-- ===== src/Rollout/Parameters/Choices.antt =====
-- The strategy and the revision that pkg/reconciler/sts_reconciler.go goes by:
-- `validateRolloutStrategy` and `getHighestRevision`.
use rolebasedgroup.Prelude.{
  true, false, ◌&&◌, Option, none, some, List, [], ◌∷◌, All, ◌≡◌, ◌⊎◌, inl, inr, refl, ap, sym, ◌∙◌,
  Bool-cases, Result, ok, err, panic, arith,
}
use rolebasedgroup.Prelude.Int.{ℤ, pos, ◌≤ℤ◌, leb_ℤ, eq_ℤ}
use rolebasedgroup.Api.{RollingUpdate, RolloutStrategy}
use rolebasedgroup.Objects.{ControllerRevision}
use rolebasedgroup.Client.{Client}
use rolebasedgroup.Rollout.Parameters.{
  get_highest_revision, highest_from, validate_rollout_strategy, default_strategy,
}

highest_lem :
    (max : ℤ) (best : Option ControllerRevision) (l : List ControllerRevision)
    (r : ControllerRevision)
    → highest_from max best l ≡ some r
    → ((b : ControllerRevision) → best ≡ some b → b.revision ≡ max)
    → (max ≤ℤ r.revision) × All (λ x. x.revision ≤ℤ r.revision) l
unfolding highest_from
highest_lem max best [] r h e = (ground (arith, e r h), tt)
highest_lem max best (x ∷ l) r h e = elim (Bool-cases (leb_ℤ max x.revision)) [
  | inl le ↦
      let (a, b) = highest_lem x.revision (some x) l r (rw le at h) (λ b q. ground arith) in
      (ground arith, (ground arith, b))
  | inr gt ↦ let (a, b) = highest_lem max best l r (rw gt at h) e in (a, (ground arith, b))
]

-- The revision that is returned is at least every revision of the list.
get_highest_revision-highest :
    (l : List ControllerRevision) (r : ControllerRevision)
    → get_highest_revision l ≡ some r
    → All (λ x. x.revision ≤ℤ r.revision) l
unfolding get_highest_revision
get_highest_revision-highest l r h =
    (highest_lem (pos 0) none l r h (λ b e. absurd (ground arith))).1

module _ (client : Client) where
  -- The strategy that a role's is validated to is the default, or the role's own, where the surge
  -- and the replicas that may be unavailable are numbers that are not both 0.
  validate_rollout_strategy-moves :
      (strategy : Option RolloutStrategy) (replicas : ℤ) (s : RolloutStrategy)
      → validate_rollout_strategy client strategy replicas ≡ ok s
      → (s ≡ default_strategy)
        ⊎ (strategy ≡ some s)
          × (u : RollingUpdate) × (surge : ℤ) × (unavailable : ℤ) × (s.rolling_update ≡ some u)
          × (client.scaled_value u.max_surge replicas true ≡ ok surge)
          × (client.scaled_value u.max_unavailable replicas false ≡ ok unavailable)
          × ((eq_ℤ unavailable (pos 0) && eq_ℤ surge (pos 0)) ≡ false)
  unfolding validate_rollout_strategy
  validate_rollout_strategy-moves none replicas s h = inl (ground arith)
  validate_rollout_strategy-moves (some x) replicas s h = of_update (x.rolling_update) refl
    where
      Goal : Type 0
      Goal =
          (s ≡ default_strategy)
          ⊎ (some x ≡ some s)
            × (u : RollingUpdate) × (surge : ℤ) × (unavailable : ℤ) × (s.rolling_update ≡ some u)
            × (client.scaled_value u.max_surge replicas true ≡ ok surge)
            × (client.scaled_value u.max_unavailable replicas false ≡ ok unavailable)
            × ((eq_ℤ unavailable (pos 0) && eq_ℤ surge (pos 0)) ≡ false)

      both :
          (u : RollingUpdate)
          → x.rolling_update ≡ some u
          → (a b : Result ℤ) → client.scaled_value u.max_surge replicas true ≡ a
          → client.scaled_value u.max_unavailable replicas false ≡ b
          → Goal
      both u e (ok a) (ok b) q p = elim (Bool-cases (eq_ℤ b (pos 0) && eq_ℤ a (pos 0))) [
        | inl zeros ↦ absurd (ground arith)
        | inr some_move ↦
            let same : x ≡ s = ground arith in
            inr (ap some same, u, a, b, ap (λ z. z.rolling_update) (sym same) ∙ e, q, p, some_move)
      ]
      both u e (err _) b q p = absurd (ground arith)
      both u e panic b q p = absurd (ground arith)
      both u e (ok a) (err _) q p = absurd (ground arith)
      both u e (ok a) panic q p = absurd (ground arith)

      of_update : (o : Option RollingUpdate) → x.rolling_update ≡ o → Goal
      of_update none e = inl (ground arith)
      of_update (some u) e =
          both u e (client.scaled_value u.max_surge replicas true)
            (client.scaled_value u.max_unavailable replicas false) refl refl
