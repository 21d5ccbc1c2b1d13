-- ===== src/Automation/FlowStep/Limits.antt =====
-- What `validateWorkflowStepBounds` (domain/automation/assets.go) decides.
use healix_core.Prelude.{
  ℕ, zero, suc, ◌+◌, ◌-◌, ◌≤◌, ◌<◌, ◌≡◌, refl, ◌↔◌, ◌⊎◌, inl, inr, List, [], ◌∷◌, some, ltb, ok,
  err, arith, All, Bool-cases,
}
use healix_core.Automation.FlowStep.{Step, step, Steps, no_more, more}
use healix_core.Automation.FlowStep.Group.{count}
use healix_core.Automation.FlowStep.Bounds.{
  BoundsError, too_deep, too_many, Frame, max_depth, max_count, push_children, bounds_loop, size,
  size_step, nesting, validate_bounds,
}

-- The steps that the frames still hold, their pops, and the deepest of their levels.
abbrev total : List Frame → ℕ
total [] = 0
total (f ∷ stack) = size f.steps + total stack

-- One for each frame that is popped from here on.
unfoldable mutual
  pops : Steps → ℕ
  pops no_more = 0
  pops (more x steps) = pops_step x + pops steps

  pops_step : Step → ℕ
  pops_step (step s g no_more) = 0
  pops_step (step s g (more x xs)) = suc (pops (more x xs))

abbrev all_pops : List Frame → ℕ
all_pops [] = 0
all_pops (f ∷ stack) = suc (pops f.steps + all_pops stack)

-- The frame of a step list at `depth` reaches this deep.
abbrev Within : Frame → Type 0
Within f = (f.depth ≤ max_depth) × (f.depth + nesting f.steps ≤ max_depth + 1)

mutual
  unfolding pops size

  pops-le : (steps : Steps) → pops steps ≤ size steps
  pops-le no_more = omega arith
  pops-le (more x steps) = omega (arith, pops_step-le x, pops-le steps)

  pops_step-le : (x : Step) → pops_step x ≤ size_step x
  pops_step-le (step s g no_more) = omega arith
  pops_step-le (step s g (more x xs)) = omega (arith, pops-le (more x xs))

pops_children :
    (steps : Steps) (depth : ℕ) (stack : List Frame)
    → all_pops (push_children steps depth stack) ≡ pops steps + all_pops stack
unfolding push_children pops
pops_children no_more depth stack = omega arith
pops_children (more (step s g no_more) steps) depth stack =
    omega (arith, pops_children steps depth stack)
pops_children (more (step s g (more x xs)) steps) depth stack =
    omega (arith, pops_children steps depth stack)

total_children :
    (steps : Steps) (depth : ℕ) (stack : List Frame)
    → count steps + total (push_children steps depth stack) ≡ size steps + total stack
unfolding push_children size
total_children no_more depth stack = omega arith
total_children (more (step s g no_more) steps) depth stack =
    omega (arith, total_children steps depth stack)
total_children (more (step s g (more x xs)) steps) depth stack =
    omega (arith, total_children steps depth stack)

nesting_positive : (x : Step) (xs : Steps) → 1 ≤ nesting (more x xs)
unfolding nesting
nesting_positive (step s g children) xs = omega arith

count-le : (steps : Steps) → count steps ≤ size steps
unfolding size
count-le no_more = omega arith
count-le (more (step s g children) steps) = omega (arith, count-le steps)

Within-children :
    (steps : Steps) (depth : ℕ) (stack : List Frame)
    → depth ≤ max_depth
    → All Within (push_children steps depth stack)
      ↔ ((depth + nesting steps ≤ max_depth + 1) × All Within stack)
unfolding push_children nesting
Within-children no_more depth stack d = (λ h. (omega arith, h), λ h. h.1)
Within-children (more (step s g no_more) steps) depth stack d =
    let rest : _ = Within-children steps depth stack d in
    (λ h. (omega (arith, (rest.0 h).0), (rest.0 h).1), λ h. rest.1 (omega (arith, h.0), h.1))
Within-children (more (step s g (more x xs)) steps) depth stack d =
    let rest : _ = Within-children steps depth stack d in
    (
      λ h. (omega (arith, h.0.0, h.0.1, (rest.0 h.1).0), (rest.0 h.1).1),
      λ h. (
        (omega (arith, h.0, nesting_positive x xs), omega (arith, h.0, nesting_positive x xs)),
        rest.1 (omega (arith, h.0), h.1),
      ),
    )

-- With enough fuel the loop returns, and it accepts when every frame is within the depth and the steps within the count.
loop_decides :
    (fuel : ℕ) (stack : List Frame) (counted : ℕ)
    → all_pops stack ≤ fuel
    → counted ≤ max_count
    → ((bounds_loop fuel stack counted ≡ some (ok tt))
        × All Within stack
        × (counted + total stack ≤ max_count))
      ⊎ ((e : BoundsError) × (bounds_loop fuel stack counted ≡ some (err e))
          × (All Within stack → max_count < counted + total stack))
unfolding bounds_loop
loop_decides fuel [] counted p c = inl (refl, tt, omega (arith, c))
loop_decides zero (f ∷ stack) counted p c = ground (arith, p)
loop_decides (suc fuel) (f ∷ stack) counted p c = elim (Bool-cases (ltb max_depth f.depth)) [
  | inl e ↦ inr (too_deep, rw (e, bounds_loop), λ w. ground (arith, w.0.0))
  | inr e ↦ elim (Bool-cases (ltb (max_count - counted) (count f.steps))) [
    | inl e' ↦ inr (too_many, rw (e', e, bounds_loop), λ w. ground (arith, count-le f.steps))
    | inr e' ↦
        let shallow : f.depth ≤ max_depth = ground arith in
        let within : _ = Within-children f.steps f.depth stack shallow in
        let held : _ = total_children f.steps f.depth stack in
        elim (loop_decides fuel (push_children f.steps f.depth stack) (counted + count f.steps)
          (omega (arith, p, pops_children f.steps f.depth stack)) (ground arith)) [
            | inl (r, w, t) ↦ inl (
              rw (e', e, bounds_loop) r,
              ((shallow, (within.0 w).0), (within.0 w).1),
              omega (arith, t, held),
            )
            | inr (x, r, k) ↦
                inr (
                  x,
                  rw (e', e, bounds_loop) r,
                  λ w. omega (arith, k (within.1 (w.0.1, w.1)), held),
                )
          ]
  ]
]

-- The walk always returns, and it accepts a step tree when and only when it has at most 10000 steps,
-- the members of validation groups not counted, and they are nested at most 64 deep.
pub validate_bounds_lem :
    (steps : Steps)
    → ((validate_bounds steps ≡ some (ok tt))
        × (nesting steps ≤ max_depth)
        × (size steps ≤ max_count))
      ⊎ ((e : BoundsError) × (validate_bounds steps ≡ some (err e))
          × ((max_depth < nesting steps) ⊎ (max_count < size steps)))
unfolding validate_bounds
validate_bounds_lem steps =
    let root : Frame = record { steps = steps; depth = 1 } in
    elim (loop_decides (suc (size steps)) (root ∷ []) 0 (omega (arith, pops-le steps))
      (omega arith)) [
        | inl (r, w, t) ↦ inl (r, omega (arith, w.0.1), omega (arith, t))
        | inr (e, r, k) ↦ inr (
          e,
          r,
          elim (Bool-cases (ltb max_depth (nesting steps))) [
            | inl deep ↦ inl (ground arith)
            | inr shallow ↦ inr (omega (arith, k ((omega arith, ground arith), tt)))
          ],
        )
      ]
