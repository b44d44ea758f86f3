-- ===== src/Client/Deletions.antt =====
-- Go loops over objects that call the API server for each object that is picked, and return the
-- first error: which calls they make.
use rolebasedgroup.Prelude.{
  Bool, List, [], ◌∷◌, ◌++◌, ◌≡◌, ◌⊎◌, inl, inr, refl, sym, ap, ◌∙◌, if◌then◌else◌, Bool-cases,
  Error, Result, ok, err, panic, arith,
}
use rolebasedgroup.Client.{Client, Call, Trace, M, ◌>>◌, wrap, perform}

moved :
    {A : Type 0} {l : List A} {r r' : Result (Unit {0})}
    → r ≡ r'
    → (l ≡ []) ⊎ ¬ (r' ≡ ok tt)
    → (l ≡ []) ⊎ ¬ (r ≡ ok tt)
moved e (inl all) = inl all
moved e (inr failed) = inr (λ h. failed (sym e ∙ h))

module _ {A : Type 0} (picked : A → Bool) (call : A → Call) where
  -- The objects that are picked, in the order of the list.
  pub selected : List A → List A
  selected [] = []
  selected (a ∷ l) = if picked a then a ∷ selected l else selected l

  -- The trace after the calls for some objects.
  pub after_calls : List A → Trace → Trace
  after_calls [] t = t
  after_calls (a ∷ l) t = after_calls l (call a ∷ t)

  -- The loop calls for objects that are picked, from the front, and for no other; it has called for
  -- all of them, or it does not end with a value.
  abbrev pub Calls : (M (Unit {0})) → List A → Trace → Type 0
  Calls run l t =
      (done : List A) × (left : List A) × (selected l ≡ done ++ left)
      × ((run t).1 ≡ after_calls done t)
      × ((left ≡ []) ⊎ ¬ ((run t).0 ≡ ok tt))

  module _ (client : Client) (e : Error) where
    -- One call: the rest goes on behind it, or it is the last and there is no value.
    call_cases :
        (a : A) (rest : M (Unit {0})) (t : Trace)
        → ((wrap e (perform client (call a)) >> rest) t ≡ rest (call a ∷ t))
          ⊎ (((wrap e (perform client (call a)) >> rest) t).1 ≡ call a ∷ t)
            × ¬ (((wrap e (perform client (call a)) >> rest) t).0 ≡ ok tt)
    unfolding perform
    call_cases a rest t = go (client.write t (call a)) refl
      where
        go :
            (r : Result (Unit {0}))
            → client.write t (call a) ≡ r
            → ((wrap e (perform client (call a)) >> rest) t ≡ rest (call a ∷ t))
              ⊎ (((wrap e (perform client (call a)) >> rest) t).1 ≡ call a ∷ t)
                × ¬ (((wrap e (perform client (call a)) >> rest) t).0 ≡ ok tt)
        go (ok _) q = inl (ground arith)
        go (err _) q = inr (ground arith, ground arith)
        go panic q = inr (ground arith, ground arith)

    module _ (loop : List A → M (Unit {0})) (at_end : (t : Trace) → loop [] t ≡ (ok tt, t))
        (round : (a : A) (l : List A) (t : Trace)
          → loop (a ∷ l) t
            ≡ (if picked a then wrap e (perform client (call a)) >> loop l else loop l) t) where
      pub loop-Calls : (l : List A) (t : Trace) → Calls (loop l) l t
      unfolding selected after_calls
      loop-Calls [] t = ([], [], refl, ap (λ p. p.1) (at_end t), inl refl)
      loop-Calls (a ∷ l) t = elim (Bool-cases (picked a)) [
        | inr keep ↦
            let (done, left, split, trace, all) = loop-Calls l t in
            let on : loop (a ∷ l) t ≡ loop l t = round a l t ∙ rw keep refl in
            (done, left, rw keep split, ap (λ p. p.1) on ∙ trace, moved (ap (λ p. p.0) on) all)
        | inl pick ↦
            let first : loop (a ∷ l) t ≡ (wrap e (perform client (call a)) >> loop l) t =
              round a l t ∙ rw pick refl in
            elim (call_cases a (loop l) t) [
              | inl on ↦
                  let (done, left, split, trace, all) = loop-Calls l (call a ∷ t) in
                  (
                    a ∷ done,
                    left,
                    rw pick (ap (λ r. a ∷ r) split),
                    ap (λ p. p.1) (first ∙ on) ∙ trace,
                    moved (ap (λ p. p.0) (first ∙ on)) all,
                  )
              | inr (trace, failed) ↦ (
                a ∷ [],
                selected l,
                rw pick refl,
                ap (λ p. p.1) first ∙ trace,
                inr (λ h. failed (sym (ap (λ p. p.0) first) ∙ h)),
              )
            ]
      ]
