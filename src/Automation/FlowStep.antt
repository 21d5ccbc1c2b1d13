-- ===== src/Automation/FlowStep.antt =====
-- The steps of a flow fragment (domain/automation/assets.go and workflow_validation.go): the tree
-- and what `Validate` finds wrong with one step, apart from its children.
-- `compiles` is whether `regexp.Compile` takes an expression.
pub mod Group
pub mod Tree
pub mod Bounds
pub mod Limits
pub mod Shape
pub mod Fresh
pub mod Members
pub mod Accepted
use healix_core.Prelude.{
  Text, ℕ, ℤ, pos, lebℤ, ltbℤ, Bool, true, false, not, ◌&&◌, ◌||◌, List, [], ◌∷◌, ◌++◌, Option,
  none, some, ◌==◌, if◌then◌else◌, text_eq, is_blank, is_empty, codes, is_zero,
}
use healix_core.Fault.{Violation, field_required, field_invalid, report, contains}

pub data AssertionKind : Type 0 where
  exists not_exists visible not_visible : AssertionKind
  text_equals text_contains text_matches : AssertionKind
  value_equals value_contains value_matches value_not_empty : AssertionKind
  enabled disabled checked unchecked mixed selected unselected pressed unpressed : AssertionKind
  selected_text_equals selected_text_contains selected_value_equals selected_value_contains :
      AssertionKind
  selected_set_equals selected_set_contains attribute_equals attribute_contains : AssertionKind
  other_kind : Text → AssertionKind

pub record ValidationAssertion : Type 0 where
  pub kind : AssertionKind
  pub expected : Text
  pub expected_values : List Text
  pub attribute : Text
  pub ignore_case : Bool

pub record ValidationWait : Type 0 where
  pub max_wait_ms : ℤ
  pub stability_ms : ℤ

pub record ValidationConfig : Type 0 where
  pub assertion : ValidationAssertion
  pub wait : ValidationWait

pub record FlowFragmentReference : Type 0 where
  pub flow_fragment_id : Text
  pub workflow_version_id : Text
  pub latest_published : Bool

pub data StepKind : Type 0 where
  action wait repeat flow_fragment_ref validation validation_group : StepKind
  other_step : Text → StepKind

-- A step without its group and its children. Bindings, screenshots and editor hints are not read here.
pub record FlowFragmentStep : Type 0 where
  pub id : Text
  pub display_name : Text
  pub kind : StepKind
  pub action : Text
  pub element_target_id : Text
  pub element_target_version_id : Text
  pub value : Text
  pub values : List Text
  pub wait_kind : Text
  pub wait_ms : ℤ
  pub repeat_count : ℤ
  pub optional : Bool
  pub validation : Option ValidationConfig
  pub reference : Option FlowFragmentReference

mutual
  pub data Step : Type 0 where
    step : FlowFragmentStep → ValidationGroup → Steps → Step

  pub data Steps : Type 0 where
    no_more : Steps
    more : Step → Steps → Steps

  pub data ValidationGroup : Type 0 where
    no_group : ValidationGroup
    group : ValidationWait → Branches → ValidationGroup

  pub data Branches : Type 0 where
    no_branch : Branches
    branch : Text → Text → Steps → Branches → Branches

abbrev pub is_nil {ℓ} : {A : Type ℓ} → List A → Bool
is_nil [] = true
is_nil (_ ∷ _) = false

abbrev pub is_none {ℓ} : {A : Type ℓ} → Option A → Bool
is_none none = true
is_none (some _) = false

abbrev pub is_no_group : ValidationGroup → Bool
is_no_group no_group = true
is_no_group (group _ _) = false

abbrev pub is_no_more : Steps → Bool
is_no_more no_more = true
is_no_more (more _ _) = false

-- `strings.Contains(s, "${")`
unfoldable pub has_expression : Text → Bool
has_expression [] = false
has_expression (c ∷ []) = false
has_expression (c ∷ d ∷ rest) = c == 36 && d == 123 || has_expression (d ∷ rest)

unfoldable pub is_valid_assertion : (Text → Bool) → ValidationAssertion → Bool
unfolding has_expression
is_valid_assertion compiles a = elim a.kind [
  | text_equals ↦ is_nil a.expected_values && is_empty a.attribute
  | text_contains ↦ is_nil a.expected_values && is_empty a.attribute
  | value_equals ↦ is_nil a.expected_values && is_empty a.attribute
  | value_contains ↦ is_nil a.expected_values && is_empty a.attribute
  | selected_text_equals ↦ is_nil a.expected_values && is_empty a.attribute
  | selected_text_contains ↦ is_nil a.expected_values && is_empty a.attribute
  | selected_value_equals ↦ is_nil a.expected_values && is_empty a.attribute
  | selected_value_contains ↦ is_nil a.expected_values && is_empty a.attribute
  | text_matches ↦
      is_nil a.expected_values
      && is_empty a.attribute
      && not a.ignore_case
      && (has_expression a.expected || compiles a.expected)
  | value_matches ↦
      is_nil a.expected_values
      && is_empty a.attribute
      && not a.ignore_case
      && (has_expression a.expected || compiles a.expected)
  | selected_set_equals ↦ is_empty a.expected && is_empty a.attribute && not a.ignore_case
  | selected_set_contains ↦ is_empty a.expected && is_empty a.attribute && not a.ignore_case
  | attribute_equals ↦
      not (is_blank a.attribute) && is_nil a.expected_values && not (has_expression a.attribute)
  | attribute_contains ↦
      not (is_blank a.attribute) && is_nil a.expected_values && not (has_expression a.attribute)
  | other_kind _ ↦ false
  | _ ↦ is_empty a.expected && is_nil a.expected_values && is_empty a.attribute && not a.ignore_case
]

unfoldable pub is_valid_wait : ValidationWait → Bool
is_valid_wait w =
    not (ltbℤ w.max_wait_ms (pos 1000) || ltbℤ (pos 60000) w.max_wait_ms)
    && not (ltbℤ w.stability_ms (pos 200) || ltbℤ (pos 5000) w.stability_ms)
    && not (lebℤ w.max_wait_ms w.stability_ms)

unfoldable pub supported_action : Text → Bool
unfolding contains
supported_action a = contains a (
    codes "click"
    ∷ codes "input"
    ∷ codes "select"
    ∷ codes "hover"
    ∷ codes "navigate"
    ∷ codes "press"
    ∷ codes "noop"
    ∷ codes "extract"
    ∷ [])

unfoldable pub is_element_wait_kind : Text → Bool
is_element_wait_kind kind =
    text_eq kind (codes "element")
    || text_eq kind (codes "element_visible")
    || text_eq kind (codes "element_invisible")

abbrev pub no_target : FlowFragmentStep → Bool
no_target s = is_empty s.element_target_id && is_empty s.element_target_version_id

abbrev pub action_tests : FlowFragmentStep → ValidationGroup → Steps → List (Bool × Violation)
action_tests s g children =
    let navigates : Bool =
      text_eq s.action (codes "navigate") || text_eq s.action (codes "press") in
    ((not (is_none s.validation) || not (is_no_group g), field_invalid (codes "steps.action"))
      ∷ (
        not (is_none s.reference)
            || not (is_empty s.wait_kind)
            || not (is_zero s.wait_ms)
            || not (is_zero s.repeat_count)
            || not (is_no_more children),
        field_invalid (codes "steps.action"),
      )
      ∷ (not (supported_action s.action), field_invalid (codes "steps.action"))
      ∷ (
        not navigates && is_blank s.element_target_id,
        field_required (codes "steps.action.elementTargetId"),
      )
      ∷ (
        not (is_blank s.element_target_id) && is_blank s.element_target_version_id,
        field_required (codes "steps.action.elementTargetVersionId"),
      )
      ∷ (
        is_blank s.element_target_id && not (is_blank s.element_target_version_id),
        field_invalid (codes "steps.action.elementTargetVersionId"),
      )
      ∷ (
        (navigates || text_eq s.action (codes "extract")) && is_blank s.value,
        field_required (codes "steps.action.value"),
      )
      ∷ (
        text_eq s.action (codes "select") && is_blank s.value && is_nil s.values,
        field_required (codes "steps.action.values"),
      )
      ∷ [])

unfoldable pub action_violations : FlowFragmentStep → ValidationGroup → Steps → List Violation
unfolding supported_action
action_violations s g children = report (action_tests s g children)

-- The part of a wait that its kind decides.
unfoldable pub wait_kind_violations : FlowFragmentStep → List Violation
unfolding is_element_wait_kind
wait_kind_violations s =
    if is_empty s.wait_kind || text_eq s.wait_kind (codes "sleep")
    then report ((lebℤ s.wait_ms (pos 0), field_invalid (codes "steps.wait.waitMs")) ∷ [])
    else if is_element_wait_kind s.wait_kind
    then report (
        (is_blank s.element_target_id, field_required (codes "steps.wait.elementTargetId"))
        ∷ (
          is_blank s.element_target_version_id,
          field_required (codes "steps.wait.elementTargetVersionId"),
        )
        ∷ (ltbℤ s.wait_ms (pos 0), field_invalid (codes "steps.wait.waitMs"))
        ∷ [])
    else if text_eq s.wait_kind (codes "network_idle")
    then report ((ltbℤ s.wait_ms (pos 0), field_invalid (codes "steps.wait.waitMs")) ∷ [])
    else field_invalid (codes "steps.wait.waitKind") ∷ []

abbrev pub wait_tests : FlowFragmentStep → ValidationGroup → Steps → List (Bool × Violation)
wait_tests s g children =
    ((not (is_none s.validation) || not (is_no_group g), field_invalid (codes "steps.wait"))
      ∷ (
        not (is_empty s.action)
            || not (is_empty s.value)
            || not (is_nil s.values)
            || not (is_zero s.repeat_count)
            || not (is_none s.reference)
            || not (is_no_more children)
            || (not (is_element_wait_kind s.wait_kind) && not (no_target s)),
        field_invalid (codes "steps.wait"),
      )
      ∷ [])

unfoldable pub wait_violations : FlowFragmentStep → ValidationGroup → Steps → List Violation
unfolding is_element_wait_kind wait_kind_violations
wait_violations s g children = report (wait_tests s g children) ++ wait_kind_violations s

abbrev pub repeat_tests : FlowFragmentStep → ValidationGroup → Steps → List (Bool × Violation)
repeat_tests s g children =
    ((not (is_none s.validation) || not (is_no_group g), field_invalid (codes "steps.repeat"))
      ∷ (
        not (is_empty s.action)
            || not (no_target s)
            || not (is_empty s.value)
            || not (is_nil s.values)
            || not (is_empty s.wait_kind)
            || not (is_zero s.wait_ms)
            || not (is_none s.reference),
        field_invalid (codes "steps.repeat"),
      )
      ∷ (ltbℤ s.repeat_count (pos 1) || is_no_more children, field_required (codes "steps.repeat"))
      ∷ [])

unfoldable pub repeat_violations : FlowFragmentStep → ValidationGroup → Steps → List Violation
repeat_violations s g children = report (repeat_tests s g children)

unfoldable pub reference_target_violations : Option FlowFragmentReference → List Violation
reference_target_violations none = field_required (codes "steps.reference.flowFragmentId") ∷ []
reference_target_violations (some r) =
    if is_blank r.flow_fragment_id
    then field_required (codes "steps.reference.flowFragmentId") ∷ []
    else if r.latest_published && not (is_blank r.workflow_version_id)
    then field_invalid (codes "steps.reference.workflowVersionId") ∷ []
    else report (
        (
          not r.latest_published && is_blank r.workflow_version_id,
          field_required (codes "steps.reference.workflowVersionId"),
        )
        ∷ [])

abbrev pub reference_tests : FlowFragmentStep → ValidationGroup → Steps → List (Bool × Violation)
reference_tests s g children =
    ((not (is_none s.validation) || not (is_no_group g), field_invalid (codes "steps.reference"))
      ∷ (
        not (is_empty s.action)
            || not (no_target s)
            || not (is_empty s.value)
            || not (is_nil s.values)
            || not (is_empty s.wait_kind)
            || not (is_zero s.wait_ms)
            || not (is_zero s.repeat_count)
            || not (is_no_more children),
        field_invalid (codes "steps.reference"),
      )
      ∷ [])

unfoldable pub reference_violations : FlowFragmentStep → ValidationGroup → Steps → List Violation
unfolding reference_target_violations
reference_violations s g children =
    report (reference_tests s g children) ++ reference_target_violations s.reference

-- The fields that a validation may not have, as a root step and as the member of a group.
abbrev pub has_other_configuration : FlowFragmentStep → ValidationGroup → Steps → Bool
has_other_configuration s g children =
    not (is_no_group g)
    || not (is_empty s.action)
    || not (is_none s.reference)
    || not (is_empty s.value)
    || not (is_nil s.values)
    || not (is_empty s.wait_kind)
    || not (is_zero s.wait_ms)
    || not (is_zero s.repeat_count)
    || not (is_no_more children)
    || s.optional

abbrev pub validation_tests :
    (Text → Bool)
    → ValidationConfig
    → FlowFragmentStep
    → ValidationGroup
    → Steps
    → List (Bool × Violation)
validation_tests compiles v s g children =
    ((has_other_configuration s g children, field_invalid (codes "steps.validation"))
      ∷ (
        is_blank s.element_target_id || is_blank s.element_target_version_id,
        field_required (codes "steps.validation.elementTarget"),
      )
      ∷ (
        not (is_valid_assertion compiles v.assertion),
        field_invalid (codes "steps.validation.assertion"),
      )
      ∷ (not (is_valid_wait v.wait), field_invalid (codes "steps.validation.wait"))
      ∷ [])

-- `validateStandaloneValidationStep`
unfoldable pub validation_violations :
    (Text → Bool) → FlowFragmentStep → ValidationGroup → Steps → List Violation
unfolding is_valid_assertion is_valid_wait
validation_violations compiles s g children = elim s.validation [
  | none ↦ field_required (codes "steps.validation") ∷ []
  | some v ↦ report (validation_tests compiles v s g children)
]
