-- ===== src/Execution/Budget/Expanded.antt =====
-- The evaluation of the budget against the exact cost, which has no cap, no memo table and no early
-- end, on plans whose references resolve and have no cycle.
use healix_core.Prelude.{
  Text, ℕ, zero, suc, ◌<◌, ◌≡◌, refl, sym, ap, subst, ◌∙◌, ◌⊎◌, inl, inr, true, false, List, [],
  ◌∷◌, Option, none, some, ok, err, arith, Bool-cases, Option-cases, All, text_eq, text_eq_sound,
  ◌>>=◌,
}
use healix_core.Execution.Budget.{
  ExecutionCost, cost, executions_exceeded, wait_exceeded, Steps, no_steps, step, Step, wait_step,
  validation_step, bare_group_step, plain_step, validation_group_step, repeat_step, reference_step,
  Branches, no_branches, branch, add_cost, multiply_cost, exceeds, Memo, remembered, Costed,
  own_wait, steps_cost, step_cost, branches_cost, workflow_cost, roots_cost, within_limits,
  validate_execution_budget,
}
use healix_core.Execution.Budget.Exact.{
  Over, Within, Agrees, plus, times, add_cost-Agrees, multiply_cost-Agrees, plus_zero, zero_plus,
  self-Agrees, plus_assoc, exceeds-Agrees,
}

within_limits_ok : (r : ExecutionCost) → Within r → within_limits r ≡ ok tt
unfolding within_limits
within_limits_ok r within = ground arith

within_limits_err :
    (r : ExecutionCost)
    → Over r
    → (within_limits r ≡ err executions_exceeded) ⊎ (within_limits r ≡ err wait_exceeded)
unfolding within_limits
within_limits_err r over = ground arith

module _ (workflows : Text → Option Steps) (resolutions : Text → Text → Option Text)
    (exact : Text → ExecutionCost) (rank : Text → ℕ) where
  -- What a reference costs besides its own execution.
  abbrev exact_reference : Option Text → ExecutionCost
  exact_reference none = cost 0 0
  exact_reference (some version_id) = exact version_id

  -- The exact cost of steps, where `exact` is the cost of each version.
  abbrev mutual
    pub exact_steps : Text → Steps → ExecutionCost
    exact_steps parent no_steps = cost 0 0
    exact_steps parent (step s rest) = plus (exact_step parent s) (exact_steps parent rest)

    pub exact_step : Text → Step → ExecutionCost
    exact_step parent plain_step = cost 1 0
    exact_step parent bare_group_step = cost 1 0
    exact_step parent (wait_step wait_ms) = cost 1 wait_ms
    exact_step parent (validation_step wait) = cost 1 (own_wait wait)
    exact_step parent (validation_group_step wait_ms branches) =
        plus (cost 1 wait_ms) (exact_branches parent branches)
    exact_step parent (repeat_step count children) =
        plus (cost 1 0) (times (exact_steps parent children) count)
    exact_step parent (reference_step id) =
        plus (cost 1 0) (exact_reference (resolutions parent id))

    pub exact_branches : Text → Branches → ExecutionCost
    exact_branches parent no_branches = cost 0 0
    exact_branches parent (branch steps rest) =
        plus (exact_steps parent steps) (exact_branches parent rest)

  -- Every reference resolves to a version that is there and ranks below `bound`.
  abbrev mutual
    pub StepsResolve : ℕ → Text → Steps → Type 0
    StepsResolve bound parent no_steps = Unit {0}
    StepsResolve bound parent (step s rest) =
        StepResolves bound parent s × StepsResolve bound parent rest

    pub StepResolves : ℕ → Text → Step → Type 0
    StepResolves bound parent (validation_group_step _ branches) =
        BranchesResolve bound parent branches
    StepResolves bound parent (repeat_step _ children) = StepsResolve bound parent children
    StepResolves bound parent (reference_step id) =
        (version_id : Text) × (steps : Steps) × (resolutions parent id ≡ some version_id)
        × (workflows version_id ≡ some steps)
        × (rank version_id < bound)
    StepResolves bound parent _ = Unit {0}

    pub BranchesResolve : ℕ → Text → Branches → Type 0
    BranchesResolve bound parent no_branches = Unit {0}
    BranchesResolve bound parent (branch steps rest) =
        StepsResolve bound parent steps × BranchesResolve bound parent rest

  -- The steps of every version cost what `exact` says, and refer to versions that rank lower.
  abbrev pub IsPlan : Type 0
  IsPlan =
      (version_id : Text) (steps : Steps)
      → workflows version_id ≡ some steps
      → (exact version_id ≡ exact_steps version_id steps)
        × StepsResolve (rank version_id) version_id steps

  abbrev GoodMemo : Memo → Type 0
  GoodMemo memo = All (λ e. Agrees (e.1) (exact (e.0))) memo

  abbrev Gives : Costed → ExecutionCost → Type 0
  Gives r c =
      (own : ExecutionCost) × (memo : Memo) × (r ≡ ok (own, memo)) × Agrees own c × GoodMemo memo

  remembered-Agrees :
      (memo : Memo) (version_id : Text) (c : ExecutionCost)
      → GoodMemo memo
      → remembered memo version_id ≡ some c
      → Agrees c (exact version_id)
  unfolding remembered
  remembered-Agrees [] version_id c good e = cc
  remembered-Agrees ((known, d) ∷ memo) version_id c (own, good) e =
      elim (Bool-cases (text_eq known version_id)) [
        | inl q ↦
            let same : known ≡ version_id = text_eq_sound known version_id q in
            let kept : d ≡ c = ground (arith, q, e) in
            subst (λ x. Agrees c (exact x)) same (subst (λ x. Agrees x (exact known)) kept own)
        | inr q ↦ remembered-Agrees memo version_id c good (ground (arith, q, e))
      ]

  module _ (below : Text → Memo → Costed) (bound : ℕ)
      (gives_below : (version_id : Text) (steps : Steps) (memo : Memo)
        → workflows version_id ≡ some steps
        → rank version_id < bound
        → GoodMemo memo
        → Gives (below version_id memo) (exact version_id))
      (parent : Text) where
    steps_cost-stop :
        (total own : ExecutionCost) (s : Step) (rest : Steps) (memo after : Memo)
        → step_cost workflows resolutions below parent s memo ≡ ok (own, after)
        → exceeds (add_cost total own) ≡ true
        → steps_cost workflows resolutions below parent total (step s rest) memo
          ≡ ok (add_cost total own, after)
    unfolding steps_cost
    steps_cost-stop total own s rest memo after e q = rw (e, q)

    steps_cost-next :
        (total own : ExecutionCost) (s : Step) (rest : Steps) (memo after : Memo)
        → step_cost workflows resolutions below parent s memo ≡ ok (own, after)
        → exceeds (add_cost total own) ≡ false
        → steps_cost workflows resolutions below parent total (step s rest) memo
          ≡ steps_cost workflows resolutions below parent (add_cost total own) rest after
    unfolding steps_cost
    steps_cost-next total own s rest memo after e q = rw (e, q)

    step_cost-reference :
        (id version_id : Text) (memo : Memo) (r : ExecutionCost) (after : Memo)
        → resolutions parent id ≡ some version_id
        → below version_id memo ≡ ok (r, after)
        → step_cost workflows resolutions below parent (reference_step id) memo
          ≡ ok (add_cost (cost 1 0) r, after)
    unfolding step_cost
    step_cost-reference id version_id memo r after found e = ground (arith, found, e)

    mutual
      unfolding steps_cost step_cost branches_cost

      steps_cost-Gives :
          (total c : ExecutionCost) (steps : Steps) (memo : Memo)
          → StepsResolve bound parent steps
          → Agrees total c
          → GoodMemo memo
          → Gives
              (steps_cost workflows resolutions below parent total steps memo)
              (plus c (exact_steps parent steps))
      steps_cost-Gives total c no_steps memo resolved agrees good =
          (total, memo, refl, subst (Agrees total) (sym (plus_zero c)) agrees, good)
      steps_cost-Gives total c (step s rest) memo (own, resolved) agrees good =
          let (r, after, e, a, g) = step_cost-Gives s memo own good in
          let both = add_cost-Agrees total c r (exact_step parent s) agrees a in
          let assoc = plus_assoc c (exact_step parent s) (exact_steps parent rest) in
          let more =
            steps_cost-Gives (add_cost total r) (plus c (exact_step parent s)) rest after resolved
              both g in
          elim (Bool-cases (exceeds (add_cost total r))) [
            | inl q ↦ (
              add_cost total r,
              after,
              steps_cost-stop total r s rest memo after e q,
              subst (Agrees (add_cost total r)) assoc (
                  exceeds-Agrees (add_cost total r) (plus c (exact_step parent s))
                    (exact_steps parent rest) q both),
              g,
            )
            | inr q ↦
                subst (λ x. Gives x (plus c (exact_steps parent (step s rest))))
                  (sym (steps_cost-next total r s rest memo after e q))
                  (subst
                    (Gives
                      (steps_cost workflows resolutions below parent (add_cost total r) rest after))
                    assoc more)
          ]

      step_cost-Gives :
          (s : Step) (memo : Memo)
          → StepResolves bound parent s
          → GoodMemo memo
          → Gives (step_cost workflows resolutions below parent s memo) (exact_step parent s)
      step_cost-Gives plain_step memo resolved good =
          (cost 1 0, memo, refl, self-Agrees (cost 1 0), good)
      step_cost-Gives bare_group_step memo resolved good =
          (cost 1 0, memo, refl, self-Agrees (cost 1 0), good)
      step_cost-Gives (wait_step wait_ms) memo resolved good =
          (cost 1 wait_ms, memo, refl, self-Agrees (cost 1 wait_ms), good)
      step_cost-Gives (validation_step wait) memo resolved good =
          (cost 1 (own_wait wait), memo, refl, self-Agrees (cost 1 (own_wait wait)), good)
      step_cost-Gives (validation_group_step wait_ms all) memo resolved good =
          branches_cost-Gives (cost 1 wait_ms) (cost 1 wait_ms) all memo resolved
            (self-Agrees (cost 1 wait_ms)) good
      step_cost-Gives (repeat_step count children) memo resolved good =
          let (r, after, e, a, g) =
            steps_cost-Gives (cost 0 0) (cost 0 0) children memo resolved (self-Agrees (cost 0 0))
              good in
          (
            add_cost (cost 1 0) (multiply_cost r count),
            after,
            rw e,
            add_cost-Agrees (cost 1 0) (cost 1 0) (multiply_cost r count)
                (times (exact_steps parent children) count) (self-Agrees (cost 1 0))
                (multiply_cost-Agrees r (exact_steps parent children) count
                  (subst (Agrees r) (zero_plus (exact_steps parent children)) a)),
            g,
          )
      step_cost-Gives (reference_step id) memo (version_id, steps, found, there, lower) good =
          let (r, after, e, a, g) = gives_below version_id steps memo there lower good in
          (
            add_cost (cost 1 0) r,
            after,
            step_cost-reference id version_id memo r after found e,
            subst (λ o. Agrees (add_cost (cost 1 0) r) (plus (cost 1 0) (exact_reference o)))
                (sym found)
                (add_cost-Agrees (cost 1 0) (cost 1 0) r (exact version_id) (self-Agrees (cost 1 0))
                  a),
            g,
          )

      branches_cost-Gives :
          (total c : ExecutionCost) (branches : Branches) (memo : Memo)
          → BranchesResolve bound parent branches
          → Agrees total c
          → GoodMemo memo
          → Gives
              (branches_cost workflows resolutions below parent total branches memo)
              (plus c (exact_branches parent branches))
      branches_cost-Gives total c no_branches memo resolved agrees good =
          (total, memo, refl, subst (Agrees total) (sym (plus_zero c)) agrees, good)
      branches_cost-Gives total c (branch steps rest) memo (own, resolved) agrees good =
          let (r, after, e, a, g) =
            steps_cost-Gives (cost 0 0) (cost 0 0) steps memo own (self-Agrees (cost 0 0)) good in
          let (last, final, e', a', g') =
            branches_cost-Gives (add_cost total r) (plus c (exact_steps parent steps)) rest after
              resolved
              (add_cost-Agrees total c r (exact_steps parent steps) agrees
                (subst (Agrees r) (zero_plus (exact_steps parent steps)) a))
              g in
          (
            last,
            final,
            rw (e, e'),
            subst (Agrees last)
                (plus_assoc c (exact_steps parent steps) (exact_branches parent rest)) a',
            g',
          )

  module _ (plan : IsPlan) where
    workflow_cost-Gives :
        (fuel : ℕ) (version_id : Text) (steps : Steps) (memo : Memo)
        → workflows version_id ≡ some steps
        → rank version_id < fuel
        → GoodMemo memo
        → Gives (workflow_cost workflows resolutions fuel version_id memo) (exact version_id)
    unfolding workflow_cost
    workflow_cost-Gives zero version_id steps memo there lower good = absurd (omega arith)
    workflow_cost-Gives (suc fuel) version_id steps memo there lower good =
        let (cost_is, resolved) = plan version_id steps there in
        elim (Option-cases (remembered memo version_id)) [
          | inr (c, q) ↦
              (c, memo, ground (arith, q), remembered-Agrees memo version_id c good q, good)
          | inl q ↦
              let (r, after, e, a, g) =
                steps_cost-Gives (workflow_cost workflows resolutions fuel) (rank version_id)
                  (λ v s m p l h. workflow_cost-Gives fuel v s m p (omega (arith, l, lower)) h)
                  version_id (cost 0 0) (cost 0 0) steps memo resolved (self-Agrees (cost 0 0))
                  good in
              let a' =
                subst (Agrees r) (zero_plus (exact_steps version_id steps) ∙ sym cost_is) a in
              (r, (version_id, r) ∷ after, ground (arith, q, there, e), a', (a', g))
        ]

    -- The exact cost of the roots.
    abbrev pub exact_roots : List Text → ExecutionCost
    exact_roots [] = cost 0 0
    exact_roots (root ∷ roots) = plus (exact root) (exact_roots roots)

    -- Every root is a version that is there and ranks below the fuel.
    abbrev pub RootsResolve : ℕ → List Text → Type 0
    RootsResolve fuel roots =
        All (λ root. (steps : Steps) × (workflows root ≡ some steps) × (rank root < fuel)) roots

    roots_cost-Agrees :
        (fuel : ℕ) (total c : ExecutionCost) (roots : List Text) (memo : Memo)
        → RootsResolve fuel roots
        → Agrees total c
        → GoodMemo memo
        → (r : ExecutionCost) × (roots_cost workflows resolutions fuel total roots memo ≡ ok r)
          × Agrees r (plus c (exact_roots roots))
    unfolding roots_cost
    roots_cost-Agrees fuel total c [] memo there agrees good =
        (total, refl, subst (Agrees total) (sym (plus_zero c)) agrees)
    roots_cost-Agrees fuel total c (root ∷ roots) memo ((steps, here, lower), there) agrees good =
        let (r, after, e, a, g) = workflow_cost-Gives fuel root steps memo here lower good in
        let (last, e', a') =
          roots_cost-Agrees fuel (add_cost total r) (plus c (exact root)) roots after there
            (add_cost-Agrees total c r (exact root) agrees a) g in
        (last, rw (e, e'), subst (Agrees last) (plus_assoc c (exact root) (exact_roots roots)) a')

    validated :
        (fuel : ℕ) (roots : List Text) (r : ExecutionCost)
        → roots_cost workflows resolutions fuel (cost 0 0) roots [] ≡ ok r
        → validate_execution_budget workflows resolutions fuel roots ≡ within_limits r
    unfolding validate_execution_budget
    validated fuel roots r e = ap (λ x. x >>= within_limits) e

    -- With fuel above the rank of every root, the budget of a plan is accepted exactly if the exact
    -- cost of its roots, every repetition and reference expanded, is within both limits; otherwise the
    -- error is one of the two limits'.
    pub validate_execution_budget_lem :
        (fuel : ℕ) (roots : List Text)
        → RootsResolve fuel roots
        → (Within (exact_roots roots)
            × (validate_execution_budget workflows resolutions fuel roots ≡ ok tt))
          ⊎ (Over (exact_roots roots)
              × ((validate_execution_budget workflows resolutions fuel roots
                    ≡ err executions_exceeded)
                  ⊎ (validate_execution_budget workflows resolutions fuel roots
                      ≡ err wait_exceeded)))
    validate_execution_budget_lem fuel roots there =
        let (r, e, a) =
          roots_cost-Agrees fuel (cost 0 0) (cost 0 0) roots [] there (self-Agrees (cost 0 0)) tt in
        elim (subst (Agrees r) (zero_plus (exact_roots roots)) a) [
          | inl (p, within) ↦
              inl (
                within,
                validated fuel roots r e ∙ within_limits_ok r (subst Within (sym p) within),
              )
          | inr (over, above) ↦ inr (
            above,
            elim (within_limits_err r over) [
              | inl q ↦ inl (validated fuel roots r e ∙ q)
              | inr q ↦ inr (validated fuel roots r e ∙ q)
            ],
          )
        ]
