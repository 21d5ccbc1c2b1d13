-- ===== src/Execution/Budget.antt =====
-- domain/execution/budget.go: what the workflows of a plan cost when every repetition and reference
-- is expanded. Of a step stands here what its kind lets the budget read; the checks of the steps,
-- which run before, leave no number below zero. The maps of workflows and resolutions are functions,
-- the memo table is an association list; the visit counters, which nothing reads, are left out.
pub mod Capped
pub mod Exact
pub mod Expanded
use healix_core.Prelude.{
  Text, ℕ, zero, suc, ◌+◌, ◌-◌, ◌*◌, ◌/◌, ltb, leb, ◌==◌, Bool, ◌||◌, List, [], ◌∷◌, Option, none,
  some, text_eq, if◌then◌else◌, Result, ok, err, reject, ◌>>=◌, ◌>>◌,
}

pub record ExecutionCost : Type 0 where
  pub executions : ℕ
  pub wait_ms : ℕ

abbrev pub cost : ℕ → ℕ → ExecutionCost
cost executions wait_ms = record { executions = executions; wait_ms = wait_ms }

abbrev pub max_expanded_executions : ℕ
max_expanded_executions = 1000000

abbrev pub max_cumulative_wait_ms : ℕ
max_cumulative_wait_ms = 86400000

-- The names of the two maps of a plan: the steps of a version, and the version that a reference
-- step of a version stands for.
pub data BudgetError : Type 0 where
  workflow_missing reference_unresolved executions_exceeded wait_exceeded out_of_fuel : BudgetError

mutual
  pub data Steps : Type 0 where
    no_steps : Steps
    step : Step → Steps → Steps

  pub data Step : Type 0 where
    wait_step : ℕ → Step
    validation_step : Option ℕ → Step
    bare_group_step plain_step : Step
    validation_group_step : ℕ → Branches → Step
    repeat_step : ℕ → Steps → Step
    reference_step : Text → Step

  pub data Branches : Type 0 where
    no_branches : Branches
    branch : Steps → Branches → Branches

unfoldable pub capped_add : ℕ → ℕ → ℕ → ℕ
capped_add a b cap = if leb cap a || leb (cap - a) b then cap else a + b

unfoldable pub capped_multiply : ℕ → ℕ → ℕ → ℕ
capped_multiply a b cap =
    if a == 0 || b == 0 then 0 else if leb cap a || ltb (cap / a) b then cap else a * b

unfoldable pub add_cost : ExecutionCost → ExecutionCost → ExecutionCost
add_cost a b =
    cost (capped_add a.executions b.executions (max_expanded_executions + 1))
      (capped_add a.wait_ms b.wait_ms (max_cumulative_wait_ms + 1))

unfoldable pub multiply_cost : ExecutionCost → ℕ → ExecutionCost
multiply_cost c multiplier =
    cost (capped_multiply c.executions multiplier (max_expanded_executions + 1))
      (capped_multiply c.wait_ms multiplier (max_cumulative_wait_ms + 1))

abbrev pub exceeds : ExecutionCost → Bool
exceeds c = ltb max_expanded_executions c.executions || ltb max_cumulative_wait_ms c.wait_ms

abbrev pub Memo : Type 0
Memo = List (Text × ExecutionCost)

unfoldable pub remembered : Memo → Text → Option ExecutionCost
remembered [] version_id = none
remembered ((known, c) ∷ memo) version_id =
    if text_eq known version_id then some c else remembered memo version_id

-- What an evaluation gives: the cost, and the memo table after it.
abbrev pub Costed : Type 0
Costed = Result BudgetError (ExecutionCost × Memo)

abbrev pub own_wait : Option ℕ → ℕ
own_wait none = 0
own_wait (some wait_ms) = wait_ms

-- The two limits on the total.
unfoldable pub within_limits : ExecutionCost → Result BudgetError (Unit {0})
within_limits total = do
  reject (ltb max_expanded_executions total.executions) executions_exceeded
  reject (ltb max_cumulative_wait_ms total.wait_ms) wait_exceeded

module _ (workflows : Text → Option Steps) (resolutions : Text → Text → Option Text) where
  -- The three loops of `stepsCost`; `workflow_cost` is the cost of a referenced version.
  unfoldable mutual
    unfolding add_cost multiply_cost

    pub steps_cost : (Text → Memo → Costed) → Text → ExecutionCost → Steps → Memo → Costed
    steps_cost workflow_cost parent total no_steps memo = ok (total, memo)
    steps_cost workflow_cost parent total (step s rest) memo =
        step_cost workflow_cost parent s memo >>= λ own.
        let next = add_cost total (own.0) in
        if exceeds next then ok (next, own.1) else steps_cost workflow_cost parent next rest (own.1)

    pub step_cost : (Text → Memo → Costed) → Text → Step → Memo → Costed
    step_cost workflow_cost parent plain_step memo = ok (cost 1 0, memo)
    step_cost workflow_cost parent bare_group_step memo = ok (cost 1 0, memo)
    step_cost workflow_cost parent (wait_step wait_ms) memo = ok (cost 1 wait_ms, memo)
    step_cost workflow_cost parent (validation_step wait) memo = ok (cost 1 (own_wait wait), memo)
    step_cost workflow_cost parent (validation_group_step wait_ms branches) memo =
        branches_cost workflow_cost parent (cost 1 wait_ms) branches memo
    step_cost workflow_cost parent (repeat_step count children) memo =
        steps_cost workflow_cost parent (cost 0 0) children memo >>= λ below.
        ok (add_cost (cost 1 0) (multiply_cost (below.0) count), below.1)
    step_cost workflow_cost parent (reference_step id) memo = elim (resolutions parent id) [
      | none ↦ err reference_unresolved
      | some version_id ↦
          workflow_cost version_id memo >>= λ below. ok (add_cost (cost 1 0) (below.0), below.1)
    ]

    pub branches_cost : (Text → Memo → Costed) → Text → ExecutionCost → Branches → Memo → Costed
    branches_cost workflow_cost parent total no_branches memo = ok (total, memo)
    branches_cost workflow_cost parent total (branch steps rest) memo =
        steps_cost workflow_cost parent (cost 0 0) steps memo >>= λ below.
        branches_cost workflow_cost parent (add_cost total (below.0)) rest (below.1)

  -- `workflowCost`, on fuel for the depth of the references.
  unfoldable pub workflow_cost : ℕ → Text → Memo → Costed
  unfolding steps_cost remembered
  workflow_cost zero version_id memo = err out_of_fuel
  workflow_cost (suc fuel) version_id memo = elim (remembered memo version_id) [
    | some c ↦ ok (c, memo)
    | none ↦ elim (workflows version_id) [
      | none ↦ err workflow_missing
      | some steps ↦ steps_cost (workflow_cost fuel) version_id (cost 0 0) steps memo >>= λ below.
          ok (below.0, (version_id, below.0) ∷ below.1)
    ]
  ]

  unfoldable pub roots_cost :
      ℕ → ExecutionCost → List Text → Memo → Result BudgetError ExecutionCost
  unfolding workflow_cost add_cost
  roots_cost fuel total [] memo = ok total
  roots_cost fuel total (root ∷ roots) memo = workflow_cost fuel root memo >>= λ below.
      roots_cost fuel (add_cost total (below.0)) roots (below.1)

  unfoldable pub validate_execution_budget : ℕ → List Text → Result BudgetError (Unit {0})
  unfolding roots_cost within_limits
  validate_execution_budget fuel root_version_ids =
      roots_cost fuel (cost 0 0) root_version_ids [] >>= within_limits
