-- ===== src/Examples/Budget.antt =====
-- The budget of a plan in which a version refers to another one, again and again.
use healix_core.Prelude.{
  Text, ℕ, ◌≡◌, refl, subst, ◌⊎◌, [], ◌∷◌, Option, none, some, ok, err, codes, text_eq, arith,
}
use healix_core.Execution.Budget.{
  ExecutionCost, cost, executions_exceeded, wait_exceeded, Steps, no_steps, step, wait_step,
  repeat_step, reference_step, validation_group_step, no_branches, branch, capped_add,
  capped_multiply, validate_execution_budget,
}
use healix_core.Execution.Budget.Exact.{Over, Within}
use healix_core.Execution.Budget.Expanded.{
  IsPlan, exact_steps, StepsResolve, validate_execution_budget_lem,
}

abbrev leaf_steps : Steps
leaf_steps =
    step (wait_step 500) (
      step (validation_group_step 1000 (branch (step (wait_step 1) no_steps) no_branches)) no_steps)

abbrev root_steps : ℕ → Steps
root_steps count = step (repeat_step count (step (reference_step (codes "s1")) no_steps)) no_steps

-- A version with an identity of one byte is a leaf, a longer one repeats the leaf.
abbrev workflows : ℕ → Text → Option Steps
workflows count [] = none
workflows count (_ ∷ []) = some leaf_steps
workflows count (_ ∷ _ ∷ _) = some (root_steps count)

abbrev resolutions : Text → Text → Option Text
resolutions parent id = some (codes "a")

abbrev exact : Text → ExecutionCost
exact [] = cost 0 0
exact (_ ∷ []) = cost 3 1501
exact (_ ∷ _ ∷ _) = cost 13 4503

abbrev rank : Text → ℕ
rank [] = 0
rank (_ ∷ []) = 0
rank (_ ∷ _ ∷ _) = 1

-- The claim of the plan about the steps of one version.
abbrev Fits : Text → Steps → Type 0
Fits version_id steps =
    (exact version_id ≡ exact_steps (workflows 3) resolutions exact rank version_id steps)
    × StepsResolve (workflows 3) resolutions exact rank (rank version_id) version_id steps

small_plan : IsPlan (workflows 3) resolutions exact rank
small_plan [] steps e = cc
small_plan (x ∷ []) steps e =
    let same : leaf_steps ≡ steps = cc in
    subst (Fits (x ∷ [])) same (refl, (tt, (((tt, tt), tt), tt)))
small_plan (x ∷ y ∷ rest) steps e =
    let same : root_steps 3 ≡ steps = cc in
    subst (Fits (x ∷ y ∷ rest)) same
      (refl, (((codes "a", leaf_steps, refl, refl, omega arith), tt), tt))

accepted :
    validate_execution_budget (workflows 3) resolutions 2 (codes "root" ∷ codes "a" ∷ []) ≡ ok tt
unfolding validate_execution_budget capped_add capped_multiply text_eq
accepted = refl

-- More than a million executions.
refused :
    validate_execution_budget (workflows 250001) resolutions 2 (codes "root" ∷ [])
    ≡ err executions_exceeded
unfolding validate_execution_budget capped_add capped_multiply
refused = refl

validate_execution_budget_lem_example :
    (Within (cost 16 6004)
      × (validate_execution_budget (workflows 3) resolutions 2 (codes "root" ∷ codes "a" ∷ [])
          ≡ ok tt))
    ⊎ (Over (cost 16 6004)
        × ((validate_execution_budget (workflows 3) resolutions 2 (codes "root" ∷ codes "a" ∷ [])
              ≡ err executions_exceeded)
            ⊎ (validate_execution_budget (workflows 3) resolutions 2 (codes "root" ∷ codes "a" ∷ [])
                ≡ err wait_exceeded)))
validate_execution_budget_lem_example =
    validate_execution_budget_lem (workflows 3) resolutions exact rank small_plan 2
      (codes "root" ∷ codes "a" ∷ [])
      ((root_steps 3, refl, omega arith), ((leaf_steps, refl, omega arith), tt))
