-- ===== src/Automation/ElementTarget.antt =====
-- Element targets (domain/automation/assets.go, lifecycle.go, versioning.go): the aggregate whose
-- versions hold selectors and a fingerprint.
pub mod Accepted
use healix_core.Prelude.{
  Text, ℤ, pos, ltbℤ, Bool, true, false, not, ◌||◌, List, [], ◌∷◌, ◌++◌, Option, none, some,
  text_eq, is_blank, codes, Result, ◌==◌,
}
use healix_core.Fault.{
  Violation, field_required, field_invalid, field_mismatch, violation_if, collect,
}
use healix_core.Fingerprint.{Selector, FrameworkInfo, selector_violations, stack_violations}
use healix_core.Automation.Revision.{AutomationError}
use healix_core.Automation.Asset.{
  Asset, Version, Aggregate, has_invalid_key, validate, validate_loaded_history, new_aggregate,
  update_metadata, set_deleted, publish_version, validate_publication_base, next_version,
}

-- `attributes` is none for a nil map. The other parts of a fingerprint are never checked.
pub record Fingerprint (W : Type 0) : Type 0 where
  pub tag : Text
  pub attributes : Option (List (Text × Text))
  pub sibling_index : ℤ
  pub framework : List (FrameworkInfo W)

pub data VersionSource : Type 0 where
  manual sampling auto_heal : VersionSource
  other_source : Text → VersionSource

pub record ElementContent (W : Type 0) : Type 0 where
  pub page_url : Text
  pub origin : Text
  pub selectors : List Selector
  pub fingerprint : Fingerprint W
  pub source : VersionSource

abbrev pub is_none {ℓ} : {A : Type ℓ} → Option A → Bool
is_none none = true
is_none (some _) = false

abbrev pub is_nil {ℓ} : {A : Type ℓ} → List A → Bool
is_nil [] = true
is_nil (_ ∷ _) = false

abbrev pub is_unsupported : VersionSource → Bool
is_unsupported (other_source _) = true
is_unsupported _ = false

-- The error of a stack counts, not the number of its violations.
abbrev pub is_invalid : List Violation → Bool
is_invalid violations = not (is_nil violations)

abbrev pub ElementAggregate : Type 0 → Type 0
ElementAggregate W = Aggregate (ElementContent W)

module _ {W : Type 0} (in_unit : W → Bool) where
  abbrev pub element_checks :
      Text → Text → List (Text × Text) → Text → Version (ElementContent W) → List (List Violation)
  element_checks id display_name properties current_version_id current =
      ((violation_if (is_blank id) (field_required (codes "id")))
        ∷ (violation_if (is_blank display_name) (field_required (codes "displayName")))
        ∷ (violation_if (has_invalid_key properties) (field_invalid (codes "properties")))
        ∷ (violation_if (is_blank current.id) (field_required (codes "currentVersionId")))
        ∷ (violation_if (not (text_eq current_version_id current.id))
            (field_mismatch (codes "currentVersionId")))
        ∷ (violation_if (not (text_eq current.owner_id id))
            (field_mismatch (codes "current.elementTargetId")))
        ∷ (violation_if (current.version_number == 0)
            (field_invalid (codes "current.versionNumber")))
        ∷ (violation_if (is_nil current.content.selectors)
            (field_required (codes "current.selectors")))
        ∷ (selector_violations (codes "current.selectors") 0 current.content.selectors)
        ∷ (violation_if (is_blank current.content.fingerprint.tag)
            (field_required (codes "current.fingerprint.tag")))
        ∷ (violation_if (is_none current.content.fingerprint.attributes)
            (field_required (codes "current.fingerprint.attributes")))
        ∷ (violation_if (ltbℤ current.content.fingerprint.sibling_index (pos 0))
            (field_invalid (codes "current.fingerprint.siblingIndex")))
        ∷ (violation_if
            (is_invalid
              (stack_violations in_unit current.content.fingerprint.framework (codes "frameworks")))
            (field_invalid (codes "current.fingerprint.framework")))
        ∷ (violation_if (is_unsupported current.content.source)
            (field_invalid (codes "current.source")))
        ∷ [])

  unfoldable pub element_violations :
      Text → Text → List (Text × Text) → Text → Version (ElementContent W) → List Violation
  unfolding has_invalid_key selector_violations
  element_violations id display_name properties current_version_id current =
      collect (element_checks id display_name properties current_version_id current)

  unfoldable pub validate_element : ElementAggregate W → Result AutomationError (Unit {0})
  unfolding validate
  validate_element a = validate element_violations a

  -- `ElementTargetVersion.ValidateFor`: a version of the history, as if it were the current one.
  unfoldable pub validate_for :
      Version (ElementContent W) → Asset → Result AutomationError (Unit {0})
  unfolding validate_element
  validate_for v target =
      validate_element
        (record { asset = record target { current_version_id = v.id }; current = v; versions = [] })

  abbrev pub validate_element_history : ElementAggregate W → Result AutomationError (Unit {0})
  validate_element_history a = validate_loaded_history element_violations a

  unfoldable pub new_element_target :
      Asset → Version (ElementContent W) → Result AutomationError (ElementAggregate W)
  unfolding new_aggregate
  new_element_target asset initial = new_aggregate element_violations asset initial

  unfoldable pub update_element_metadata :
      ElementAggregate W
      → Text
      → Text
      → List (Text × Text)
      → ℤ
      → Result AutomationError (ElementAggregate W)
  unfolding update_metadata
  update_element_metadata a display_name folder_id properties at =
      update_metadata element_violations a display_name folder_id properties at

  unfoldable pub set_element_deleted :
      Bool → ElementAggregate W → ℤ → Result AutomationError (ElementAggregate W)
  unfolding set_deleted
  set_element_deleted deleted a at = set_deleted element_violations deleted a at

  unfoldable pub publish_element :
      ElementAggregate W → Text → ElementContent W → ℤ → Result AutomationError (ElementAggregate W)
  unfolding publish_version
  publish_element a version_id content at =
      publish_version element_violations a version_id content at
