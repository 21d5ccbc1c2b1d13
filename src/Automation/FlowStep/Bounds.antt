-- ===== src/Automation/FlowStep/Bounds.antt =====
-- `validateWorkflowStepBounds` (domain/automation/assets.go). The stack is a list with its top
-- first. The fuel of the loop is one for each step and one more, since a frame that is
-- pushed has a step; `none` is a loop that ran out of it.
use healix_core.Prelude.{
  ℕ, zero, suc, ◌+◌, ◌-◌, max, List, [], ◌∷◌, Option, none, some, ltb, if◌then◌else◌, Result, ok,
  err,
}
use healix_core.Automation.FlowStep.{Step, step, Steps, no_more, more}
use healix_core.Automation.FlowStep.Group.{count}

pub data BoundsError : Type 0 where
  too_deep too_many : BoundsError

pub record Frame : Type 0 where
  pub steps : Steps
  pub depth : ℕ

abbrev pub max_depth : ℕ
max_depth = 64

abbrev pub max_count : ℕ
max_count = 10000

-- The frames of the children of `steps` on top of `stack`, the first step's on the top.
unfoldable pub push_children : Steps → ℕ → List Frame → List Frame
push_children no_more depth stack = stack
push_children (more (step s g no_more) steps) depth stack = push_children steps depth stack
push_children (more (step s g (more x xs)) steps) depth stack =
    record { steps = more x xs; depth = depth + 1 } ∷ push_children steps depth stack

unfoldable pub bounds_loop : ℕ → List Frame → ℕ → Option (Result BoundsError (Unit {0}))
unfolding push_children
bounds_loop fuel [] counted = some (ok tt)
bounds_loop zero (frame ∷ stack) counted = none
bounds_loop (suc fuel) (frame ∷ stack) counted =
    let rest =
      bounds_loop fuel (push_children frame.steps frame.depth stack)
        (counted + count frame.steps) in
    if ltb max_depth frame.depth
    then some (err too_deep)
    else if ltb (max_count - counted) (count frame.steps)
    then some (err too_many)
    else rest

-- The steps of a tree without the members of groups, and how deep they are nested.
unfoldable mutual
  pub size : Steps → ℕ
  size no_more = 0
  size (more x steps) = size_step x + size steps

  pub size_step : Step → ℕ
  size_step (step s g children) = suc (size children)

unfoldable mutual
  pub nesting : Steps → ℕ
  nesting no_more = 0
  nesting (more x steps) = max (nesting_step x) (nesting steps)

  pub nesting_step : Step → ℕ
  nesting_step (step s g children) = suc (nesting children)

unfoldable pub validate_bounds : Steps → Option (Result BoundsError (Unit {0}))
unfolding bounds_loop size
validate_bounds steps = bounds_loop (suc (size steps)) (record { steps = steps; depth = 1 } ∷ []) 0
