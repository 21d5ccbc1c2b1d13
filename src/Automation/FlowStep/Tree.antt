-- ===== src/Automation/FlowStep/Tree.antt =====
-- `validateSteps` in `FlowFragmentAggregate.Validate` (domain/automation/assets.go): the walk over the
-- step tree. The identities that were seen are given and returned.
use healix_core.Prelude.{
  Text, Bool, true, false, not, ◌&&◌, ◌||◌, List, [], ◌∷◌, ◌++◌, is_blank, codes,
}
use healix_core.Fault.{
  Violation, field_required, field_invalid, field_duplicate, violation_if, report, contains,
}
use healix_core.Automation.FlowStep.{
  FlowFragmentStep, StepKind, ValidationGroup, Step, step, Steps, no_more, more, action_violations,
  wait_violations, repeat_violations, reference_violations, validation_violations,
}
use healix_core.Automation.FlowStep.Group.{group_violations}

abbrev pub is_action : StepKind → Bool
is_action StepKind.action = true
is_action _ = false

abbrev pub identity_tests : FlowFragmentStep → List Text → List (Bool × Violation)
identity_tests s seen =
    ((is_blank s.id || is_blank s.display_name, field_required (codes "steps.identity"))
      ∷ (contains s.id seen, field_duplicate (codes "steps.identity"))
      ∷ (not (is_action s.kind) && s.optional, field_invalid (codes "steps.optional"))
      ∷ [])

-- What is wrong with a step before its kind counts.
unfoldable pub identity_violations : FlowFragmentStep → List Text → List Violation
unfolding contains
identity_violations s seen = report (identity_tests s seen)

module _ (compiles : Text → Bool) where
  -- What the kind of a step says; `below` is what its children give, which count for a repeat alone.
  unfoldable pub kind_violations :
      StepKind
      → Bool
      → FlowFragmentStep
      → ValidationGroup
      → Steps
      → List Text
      → List Violation × List Text
      → List Violation × List Text
  unfolding action_violations wait_violations repeat_violations reference_violations
      validation_violations group_violations
  kind_violations StepKind.action root s g children seen below =
      (action_violations s g children, seen)
  kind_violations StepKind.wait root s g children seen below = (wait_violations s g children, seen)
  kind_violations StepKind.repeat root s g children seen below =
      (repeat_violations s g children ++ below.0, below.1)
  kind_violations StepKind.flow_fragment_ref root s g children seen below =
      (reference_violations s g children, seen)
  kind_violations StepKind.validation root s g children seen below = (
    violation_if (not root) (field_invalid (codes "steps.validation"))
        ++ validation_violations compiles s g children,
    seen,
  )
  kind_violations StepKind.validation_group root s g children seen below =
      let members : List Violation × List Text = group_violations compiles s g children seen in
      (
        violation_if (not root) (field_invalid (codes "steps.validationGroup")) ++ members.0,
        members.1,
      )
  kind_violations (StepKind.other_step _) root s g children seen below =
      (field_invalid (codes "steps.kind") ∷ [], seen)

  unfoldable mutual
    unfolding kind_violations identity_violations

    pub validate_step : Step → Bool → List Text → List Violation × List Text
    validate_step (step s g children) root seen =
        let below : List Violation × List Text = validate_steps children false (s.id ∷ seen) in
        let own : List Violation × List Text =
          kind_violations s.kind root s g children (s.id ∷ seen) below in
        (identity_violations s seen ++ own.0, own.1)

    pub validate_steps : Steps → Bool → List Text → List Violation × List Text
    validate_steps no_more root seen = ([], seen)
    validate_steps (more s steps) root seen =
        let here : List Violation × List Text = validate_step s root seen in
        let rest : List Violation × List Text = validate_steps steps root here.1 in
        (here.0 ++ rest.0, rest.1)
