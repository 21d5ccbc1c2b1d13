-- ===== src/Automation/FlowStep/Fresh.antt =====
-- The step identities of a tree in the order of the walk of `validateSteps`
-- (domain/automation/assets.go), and what it is that none comes up twice.
use healix_core.Prelude.{Text, ◌≡◌, refl, ◌↔◌, false, List, [], ◌∷◌, ◌++◌}
use healix_core.Fault.{contains}
use healix_core.Automation.FlowStep.{
  StepKind, ValidationGroup, no_group, group, Step, step, Steps, no_more, more, Branches, no_branch,
  branch,
}

-- None of `ids` is in `seen` or before itself in `ids`.
abbrev pub Fresh : List Text → List Text → Type 0
Fresh seen [] = Unit
Fresh seen (id ∷ ids) = (contains id seen ≡ false) × Fresh (id ∷ seen) ids

abbrev pub after : List Text → List Text → List Text
after seen [] = seen
after seen (id ∷ ids) = after (id ∷ seen) ids

pub after-append :
    (seen front back : List Text) → after seen (front ++ back) ≡ after (after seen front) back
after-append seen [] back = refl
after-append seen (id ∷ front) back = after-append (id ∷ seen) front back

pub Fresh-append :
    (seen front back : List Text)
    → Fresh seen (front ++ back) ↔ (Fresh seen front × Fresh (after seen front) back)
Fresh-append seen [] back = (λ h. (tt, h), λ h. h.1)
Fresh-append seen (id ∷ front) back =
    let rest : _ = Fresh-append (id ∷ seen) front back in
    (λ h. ((h.0, (rest.0 h.1).0), (rest.0 h.1).1), λ h. (h.0.0, rest.1 (h.0.1, h.1)))

-- The members of a branch; their own children are never read.
abbrev pub member_ids : Steps → List Text
member_ids no_more = []
member_ids (more (step s _ _) members) = s.id ∷ member_ids members

abbrev pub branch_member_ids : Branches → List Text
branch_member_ids no_branch = []
branch_member_ids (branch _ _ members branches) = member_ids members ++ branch_member_ids branches

abbrev pub group_ids : ValidationGroup → List Text
group_ids no_group = []
group_ids (group _ branches) = branch_member_ids branches

abbrev pub branch_ids : Branches → List Text
branch_ids no_branch = []
branch_ids (branch id _ _ branches) = id ∷ branch_ids branches

-- What stands below a step, by its kind.
abbrev pub ids_below : StepKind → List Text → ValidationGroup → List Text
ids_below StepKind.repeat children g = children
ids_below StepKind.validation_group children g = group_ids g
ids_below _ children g = []

unfoldable mutual
  pub step_ids : Step → List Text
  step_ids (step s g children) = s.id ∷ ids_below s.kind (steps_ids children) g

  pub steps_ids : Steps → List Text
  steps_ids no_more = []
  steps_ids (more s steps) = step_ids s ++ steps_ids steps
