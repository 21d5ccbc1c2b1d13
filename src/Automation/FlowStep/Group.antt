-- ===== src/Automation/FlowStep/Group.antt =====
-- `validateValidationGroupStep` (domain/automation/workflow_validation.go). The identities that
-- were seen are given and returned.
use healix_core.Prelude.{
  Text, ℕ, suc, ◌+◌, Bool, true, false, not, ◌&&◌, ◌||◌, List, [], ◌∷◌, ◌++◌, none, some, ltb, ◌==◌,
  is_zero, if◌then◌else◌, is_blank, is_empty, codes,
}
use healix_core.Fault.{Violation, field_required, field_invalid, field_duplicate, report, contains}
use healix_core.Automation.FlowStep.{
  FlowFragmentStep, StepKind, ValidationConfig, ValidationWait, ValidationGroup, no_group, group,
  step, Steps, no_more, more, Branches, no_branch, branch, is_none, is_nil, is_no_more,
  is_valid_assertion, is_valid_wait, has_other_configuration,
}

abbrev pub is_validation : StepKind → Bool
is_validation StepKind.validation = true
is_validation _ = false

-- `isZero` of a wait
abbrev pub is_zero_wait : ValidationWait → Bool
is_zero_wait w = is_zero w.max_wait_ms && is_zero w.stability_ms

abbrev pub member_tests :
    (Text → Bool)
    → ValidationConfig
    → FlowFragmentStep
    → ValidationGroup
    → Steps
    → List (Bool × Violation)
member_tests compiles v s g children =
    ((
      has_other_configuration s g children,
      field_invalid (codes "steps.validationGroup.branches.member"),
    )
      ∷ (
        is_blank s.element_target_id || is_blank s.element_target_version_id,
        field_required (codes "steps.validationGroup.branches.member.elementTarget"),
      )
      ∷ (
        not (is_valid_assertion compiles v.assertion),
        field_invalid (codes "steps.validationGroup.branches.member.assertion"),
      )
      ∷ (
        not (is_zero_wait v.wait),
        field_invalid (codes "steps.validationGroup.branches.member.wait"),
      )
      ∷ [])

-- What a member has wrong beside its identity.
unfoldable pub member_violations :
    (Text → Bool) → FlowFragmentStep → ValidationGroup → Steps → List Violation
unfolding is_valid_assertion
member_violations compiles s g children =
    if not (is_validation s.kind)
    then field_invalid (codes "steps.validationGroup.branches.member") ∷ []
    else elim s.validation [
      | none ↦ field_required (codes "steps.validationGroup.branches.member") ∷ []
      | some v ↦ report (member_tests compiles v s g children)
    ]

abbrev pub member_identity_tests : FlowFragmentStep → List Text → List (Bool × Violation)
member_identity_tests s seen =
    ((
      is_blank s.id || is_blank s.display_name,
      field_required (codes "steps.validationGroup.branches.member"),
    )
      ∷ (
        contains s.id seen && not (is_empty s.id),
        field_duplicate (codes "steps.validationGroup.branches.member"),
      )
      ∷ [])

unfoldable pub members_loop : (Text → Bool) → Steps → List Text → List Violation × List Text
unfolding member_violations contains
members_loop compiles no_more seen = ([], seen)
members_loop compiles (more (step s g children) members) seen =
    let rest : List Violation × List Text = members_loop compiles members (s.id ∷ seen) in
    (
      report (member_identity_tests s seen) ++ (member_violations compiles s g children ++ rest.0),
      rest.1,
    )

abbrev pub count : Steps → ℕ
count no_more = 0
count (more _ steps) = suc (count steps)

abbrev pub count_branches : Branches → ℕ
count_branches no_branch = 0
count_branches (branch _ _ _ branches) = suc (count_branches branches)

abbrev pub count_members : Branches → ℕ
count_members no_branch = 0
count_members (branch _ _ members branches) = count members + count_members branches

abbrev pub branch_tests : Text → Text → Steps → List Text → List (Bool × Violation)
branch_tests id name members branch_ids =
    ((is_blank id || is_blank name, field_required (codes "steps.validationGroup.branches"))
      ∷ (
        contains id branch_ids && not (is_empty id),
        field_duplicate (codes "steps.validationGroup.branches"),
      )
      ∷ (
        count members == 0 || ltb 10 (count members),
        field_invalid (codes "steps.validationGroup.branches"),
      )
      ∷ [])

unfoldable pub branches_loop :
    (Text → Bool) → Branches → List Text → List Text → List Violation × List Text
unfolding members_loop contains
branches_loop compiles no_branch branch_ids seen = ([], seen)
branches_loop compiles (branch id name members branches) branch_ids seen =
    let here : List Violation × List Text = members_loop compiles members seen in
    let rest : List Violation × List Text =
      branches_loop compiles branches (id ∷ branch_ids) here.1 in
    (report (branch_tests id name members branch_ids) ++ (here.0 ++ rest.0), rest.1)

-- The fields that the step of a group may not have.
abbrev pub has_step_configuration : FlowFragmentStep → Steps → Bool
has_step_configuration s children =
    not (is_none s.validation)
    || not (is_empty s.action)
    || not (is_none s.reference)
    || not (is_empty s.element_target_id)
    || not (is_empty s.element_target_version_id)
    || not (is_empty s.value)
    || not (is_nil s.values)
    || not (is_empty s.wait_kind)
    || not (is_zero s.wait_ms)
    || not (is_zero s.repeat_count)
    || not (is_no_more children)
    || s.optional

abbrev pub group_tests :
    FlowFragmentStep → Steps → ValidationWait → Branches → List (Bool × Violation)
group_tests s children wait branches =
    ((has_step_configuration s children, field_invalid (codes "steps.validationGroup"))
      ∷ (not (is_valid_wait wait), field_invalid (codes "steps.validationGroup.wait"))
      ∷ (
        count_branches branches == 0 || ltb 5 (count_branches branches),
        field_invalid (codes "steps.validationGroup.branches"),
      )
      ∷ [])

unfoldable pub group_violations :
    (Text → Bool)
    → FlowFragmentStep
    → ValidationGroup
    → Steps
    → List Text
    → List Violation × List Text
unfolding branches_loop is_valid_wait
group_violations compiles s no_group children seen =
    (field_required (codes "steps.validationGroup") ∷ [], seen)
group_violations compiles s (group wait branches) children seen =
    let rest : List Violation × List Text = branches_loop compiles branches [] seen in
    (
      report (group_tests s children wait branches)
          ++ (rest.0
              ++ report (
                  (
                    ltb 20 (count_members branches),
                    field_invalid (codes "steps.validationGroup.branches"),
                  )
                  ∷ [])),
      rest.1,
    )
