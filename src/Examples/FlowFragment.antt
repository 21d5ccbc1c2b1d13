-- ===== src/Examples/FlowFragment.antt =====
-- A flow fragment with a repeat and a validation group (domain/automation).
use healix_core.Prelude.{
  Text, ℕ, ◌≤◌, ◌<◌, ℤ, pos, ◌≡◌, refl, ◌↔◌, ◌⊎◌, Bool, true, false, [], ◌∷◌, Option, none, some,
  List, codes, Result, ok, err, All,
}
use healix_core.Automation.Asset.{Asset, Version, Aggregate}
use healix_core.Automation.Asset.Lifecycle.{here}
use healix_core.Automation.FlowStep.{
  FlowFragmentStep, StepKind, AssertionKind, ValidationConfig, no_group, group, Step, Steps, step,
  no_more, more, no_branch, branch,
}
use healix_core.Automation.FlowStep.Bounds.{
  BoundsError, max_depth, max_count, size, nesting, validate_bounds,
}
use healix_core.Automation.FlowStep.Limits.{validate_bounds_lem}
use healix_core.Automation.FlowStep.Tree.{validate_steps}
use healix_core.Automation.FlowStep.Fresh.{Fresh, steps_ids}
use healix_core.Automation.FlowStep.Accepted.{AreSteps, validate_steps_lem}
use healix_core.Automation.FlowFragment.{
  FlowFragmentContent, fragment_violations, new_flow_fragment,
}
use healix_core.Automation.FlowFragment.Accepted.{IsFragment, new_flow_fragment-Steps-IsFragment}

abbrev compiles_all : Text → Bool
compiles_all _ = true

abbrev plain_step : Text → StepKind → FlowFragmentStep
plain_step id kind = record {
  id = id;
  display_name = codes "step";
  kind = kind;
  action = [];
  element_target_id = [];
  element_target_version_id = [];
  value = [];
  values = [];
  wait_kind = [];
  wait_ms = pos 0;
  repeat_count = pos 0;
  optional = false;
  validation = none;
  reference = none;
}

abbrev sleep_step : Step
sleep_step =
    step (record (plain_step (codes "s2") StepKind.wait) { wait_ms = pos 100 }) no_group no_more

abbrev visible : ValidationConfig
visible = record {
  assertion = record {
    kind = AssertionKind.visible;
    expected = [];
    expected_values = [];
    attribute = [];
    ignore_case = false;
  };
  wait = record { max_wait_ms = pos 0; stability_ms = pos 0 };
}

abbrev member : Step
member =
    step
      (record (plain_step (codes "s4") StepKind.validation) {
        element_target_id = codes "e1";
        element_target_version_id = codes "v1";
        validation = some visible;
      })
      no_group no_more

abbrev flow_steps : Steps
flow_steps =
    more
      (step (record (plain_step (codes "s1") StepKind.repeat) { repeat_count = pos 2 }) no_group
        (more sleep_step no_more))
      (more
        (step (plain_step (codes "s3") StepKind.validation_group)
          (group (record { max_wait_ms = pos 1000; stability_ms = pos 200 })
            (branch (codes "b1") (codes "all") (more member no_more) no_branch))
          no_more)
        no_more)

flow_steps_accepted : (validate_steps compiles_all flow_steps true []).0 ≡ []
unfolding validate_steps healix_core.Prelude.is_blank healix_core.Prelude.text_eq
flow_steps_accepted = refl

validate_steps_lem_example :
    ((validate_steps compiles_all flow_steps true []).0 ≡ [])
    ↔ (AreSteps compiles_all true flow_steps × Fresh [] (steps_ids flow_steps))
validate_steps_lem_example = validate_steps_lem compiles_all flow_steps

validate_bounds_lem_example :
    ((validate_bounds flow_steps ≡ some (ok tt))
      × (nesting flow_steps ≤ max_depth)
      × (size flow_steps ≤ max_count))
    ⊎ ((e : BoundsError) × (validate_bounds flow_steps ≡ some (err e))
        × ((max_depth < nesting flow_steps) ⊎ (max_count < size flow_steps)))
validate_bounds_lem_example = validate_bounds_lem flow_steps

abbrev flow_asset : Asset
flow_asset = record {
  id = codes "f1";
  display_name = codes "Flow";
  properties = [];
  folder_id = [];
  current_version_id = [];
  created_at = pos 5;
  updated_at = pos 5;
  deleted_at = pos 0;
  revision = 0;
}

abbrev flow_version : Version FlowFragmentContent
flow_version = record {
  id = codes "v1";
  owner_id = [];
  version_number = 0;
  content = record { steps = flow_steps; parameters = [] };
  created_at = pos 5;
  deleted_at = pos 0;
}

abbrev flow : Aggregate FlowFragmentContent
flow = record {
  asset = record flow_asset { revision = 1; current_version_id = codes "v1" };
  current = record flow_version { owner_id = codes "f1"; version_number = 1 };
  versions = record flow_version { owner_id = codes "f1"; version_number = 1 } ∷ [];
}

flow_created : new_flow_fragment compiles_all flow_asset flow_version ≡ ok flow
unfolding new_flow_fragment fragment_violations healix_core.Prelude.is_blank
    healix_core.Prelude.text_eq healix_core.Automation.Asset.contains_number
flow_created = refl

new_flow_fragment-Steps-IsFragment_example :
    All (λ v. IsFragment compiles_all v.content) flow.versions
new_flow_fragment-Steps-IsFragment_example =
    new_flow_fragment-Steps-IsFragment compiles_all flow_asset flow_version flow flow flow_created
      here
