-- ===== src/Examples/Automation.antt =====
-- An element target that is published, deleted and restored (domain/automation).
use healix_core.Prelude.{
  Text, ℕ, ◌≤◌, pos, ◌≡◌, refl, ◌↔◌, Bool, true, [], ◌∷◌, some, List, codes, ok, arith, All, ◌>>=◌,
  is_blank, text_eq,
}
use healix_core.Fault.{Violation}
use healix_core.Fingerprint.{SelectorType, FrameworkInfo, stack_loop, stack_violations}
use healix_core.Fingerprint.Accepted.{IsSupported, DistinctKinds, stack_violations-nil}
use healix_core.Automation.Revision.{
  max_revision, max_int, next_revision, next_version_number, validate_transition_time,
}
use healix_core.Automation.Asset.{
  Asset, Version, Aggregate, validate, new_aggregate, delete, restore, publish_version,
  contains_number,
}
use healix_core.Automation.Asset.History.{IsWellFormed, new_aggregate-IsWellFormed}
use healix_core.Automation.Asset.Publish.{Publishable, publication, publish_version_lem}
use healix_core.Automation.Asset.Restore.{restore-delete}
use healix_core.Automation.Asset.Lifecycle.{
  Steps, here, next, publishes, new_aggregate-Steps-IsWellFormed, new_aggregate-Steps-Extends,
  new_aggregate-Steps-revision, Extends,
}
use healix_core.Automation.ElementTarget.{
  ElementContent, VersionSource, element_violations, new_element_target, validate_element,
}
use healix_core.Automation.ElementTarget.Accepted.{
  IsElement, IsElementTarget, validate_element_lem, new_element_target-Steps-IsElement,
}

abbrev any_confidence : ℕ → Bool
any_confidence _ = true

abbrev react : FrameworkInfo ℕ
react = record {
  kind = codes "react";
  version = codes "18";
  confidence = 1;
  evidence = codes "global_marker";
}

abbrev button_content : ElementContent ℕ
button_content = record {
  page_url = codes "https://x.test";
  origin = codes "https://x.test";
  selectors = record { type = SelectorType.css; value = codes "#go"; priority = pos 0 } ∷ [];
  fingerprint = record {
    tag = codes "button";
    attributes = some [];
    sibling_index = pos 0;
    framework = react ∷ [];
  };
  source = VersionSource.manual;
}

abbrev button_asset : Asset
button_asset = record {
  id = codes "e1";
  display_name = codes "Go";
  properties = [];
  folder_id = [];
  current_version_id = [];
  created_at = pos 5;
  updated_at = pos 5;
  deleted_at = pos 0;
  revision = 0;
}

abbrev first_version : Version (ElementContent ℕ)
first_version = record {
  id = codes "v1";
  owner_id = [];
  version_number = 0;
  content = button_content;
  created_at = pos 5;
  deleted_at = pos 0;
}

abbrev checks :
    Text → Text → List (Text × Text) → Text → Version (ElementContent ℕ) → List Violation
checks = element_violations any_confidence

abbrev button : Aggregate (ElementContent ℕ)
button = record {
  asset = record button_asset { revision = 1; current_version_id = codes "v1" };
  current = record first_version { owner_id = codes "e1"; version_number = 1 };
  versions = record first_version { owner_id = codes "e1"; version_number = 1 } ∷ [];
}

button_created : new_aggregate checks button_asset first_version ≡ ok button
unfolding new_aggregate element_violations validate is_blank text_eq stack_loop contains_number
button_created = refl

button_created_target : new_element_target any_confidence button_asset first_version ≡ ok button
unfolding new_element_target element_violations is_blank text_eq stack_loop contains_number
button_created_target = refl

button-IsWellFormed : IsWellFormed checks button
button-IsWellFormed =
    (new_aggregate-IsWellFormed checks button_asset first_version button_created).1

abbrev second_button : Aggregate (ElementContent ℕ)
second_button = publication checks button (codes "v2") button_content (pos 9)

publish_version_lem_example :
    (publish_version checks button (codes "v2") button_content (pos 9) ≡ ok second_button) ↔ (
      Publishable checks button (codes "v2") button_content (pos 9)
      × (second_button ≡ second_button))
publish_version_lem_example =
    publish_version_lem checks button second_button (codes "v2") button_content (pos 9)
      button-IsWellFormed

button_published :
    publish_version checks button (codes "v2") button_content (pos 9) ≡ ok second_button
unfolding publish_version element_violations is_blank text_eq stack_loop validate_transition_time
    next_revision next_version_number
button_published = refl

abbrev published_steps : Steps checks button 1 second_button
published_steps = next here (publishes (codes "v2") button_content (pos 9) button_published)

new_aggregate-Steps-IsWellFormed_example : IsWellFormed checks second_button
new_aggregate-Steps-IsWellFormed_example =
    new_aggregate-Steps-IsWellFormed checks button_asset first_version button second_button
      button_created published_steps

new_aggregate-Steps-Extends_example : Extends checks button second_button
new_aggregate-Steps-Extends_example =
    new_aggregate-Steps-Extends checks button_asset first_version button button second_button
      button_created here published_steps

new_aggregate-Steps-revision_example :
    (second_button.asset.revision ≡ 2)
    × (2 ≤ max_revision)
    × All (λ v. (1 ≤ v.version_number) × (v.version_number ≤ max_int)) second_button.versions
new_aggregate-Steps-revision_example =
    new_aggregate-Steps-revision checks button_asset first_version button second_button
      button_created published_steps

restore-delete_example :
    (delete checks button (pos 6) >>= λ b. restore checks b (pos 7))
    ≡ ok (record button { asset = record button.asset { updated_at = pos 7; revision = 3 } })
restore-delete_example =
    restore-delete checks button (pos 6) (pos 7) button-IsWellFormed refl (refl, refl) refl
      (omega arith)

validate_element_lem_example :
    (validate_element any_confidence button ≡ ok tt) ↔ IsElementTarget any_confidence button
validate_element_lem_example = validate_element_lem any_confidence button

new_element_target-Steps-IsElement_example :
    All (λ v. IsElement any_confidence v.content) second_button.versions
new_element_target-Steps-IsElement_example =
    new_element_target-Steps-IsElement any_confidence button_asset first_version button
      second_button button_created_target published_steps

stack_violations-nil_example :
    (stack_violations any_confidence (react ∷ []) (codes "frameworks") ≡ [])
    ↔ (All (IsSupported any_confidence) (react ∷ []) × DistinctKinds any_confidence (react ∷ []))
stack_violations-nil_example = stack_violations-nil any_confidence (react ∷ []) (codes "frameworks")
