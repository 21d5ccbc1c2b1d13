-- ===== src/Automation/FlowFragment.antt =====
-- Flow fragments (domain/automation/assets.go, lifecycle.go, versioning.go): the aggregate whose
-- versions hold steps and parameters. `compiles` is whether `regexp.Compile` takes an expression.
pub mod Accepted
use healix_core.Prelude.{
  Text, ℕ, suc, ℤ, Bool, true, false, not, ◌&&◌, ◌||◌, List, [], ◌∷◌, ◌++◌, map, Option, none, some,
  text_eq, is_blank, codes, if◌then◌else◌, Result, ok, err, ◌==◌, ltb, require, reject, ◌>>=◌, ◌>>◌,
}
use healix_core.Fault.{
  Violation, field_required, field_invalid, field_mismatch, field_duplicate, violation_if, collect,
  report, contains,
}
use healix_core.Fingerprint.{at_index}
use healix_core.Parameter.{Value, ValueType, is_valid_value}
use healix_core.Automation.Revision.{AutomationError}
use healix_core.Automation.Asset.{
  Asset, Version, Aggregate, has_invalid_key, validate, validate_loaded_history, new_aggregate,
  update_metadata, set_deleted, publish_version,
}
use healix_core.Automation.FlowStep.{Steps, is_no_more, is_nil}
use healix_core.Automation.FlowStep.Bounds.{BoundsError, validate_bounds}
use healix_core.Automation.FlowStep.Tree.{validate_steps}

pub record ParameterDefinition : Type 0 where
  pub name : Text
  pub display_name : Text
  pub type : ValueType
  pub required : Bool
  pub default : Option Value
  pub options : List Text

pub record FlowFragmentContent : Type 0 where
  pub steps : Steps
  pub parameters : List ParameterDefinition

-- A value's own error, or what is wrong with a definition.
pub data DefinitionError : Type 0 where
  value_invalid : DefinitionError
  definition_invalid : Violation → DefinitionError

abbrev invalid : Violation → DefinitionError
invalid v = definition_invalid v

unfoldable pub options_loop : List Text → List Text → Result DefinitionError (Unit {0})
unfolding contains
options_loop seen [] = ok tt
options_loop seen (option ∷ options) = do
  reject (is_blank option) (invalid (field_invalid (codes "definition.options")))
  reject (contains option seen) (invalid (field_duplicate (codes "definition.options")))
  options_loop (option ∷ seen) options

unfoldable pub validate_options : ValueType → List Text → Result DefinitionError (Unit {0})
unfolding options_loop
validate_options ValueType.single_select options = do
  reject (is_nil options) (invalid (field_required (codes "definition.options")))
  options_loop [] options
validate_options ValueType.multi_select options = do
  reject (is_nil options) (invalid (field_required (codes "definition.options")))
  options_loop [] options
validate_options (ValueType.other_type _) options =
    err (invalid (field_invalid (codes "definition.type")))
validate_options _ options =
    require (is_nil options) (invalid (field_invalid (codes "definition.options")))

abbrev same_type : ValueType → ValueType → Bool
same_type ValueType.text ValueType.text = true
same_type ValueType.number ValueType.number = true
same_type ValueType.boolean ValueType.boolean = true
same_type ValueType.single_select ValueType.single_select = true
same_type ValueType.multi_select ValueType.multi_select = true
same_type (ValueType.other_type a) (ValueType.other_type b) = text_eq a b
same_type _ _ = false

unfoldable pub selected_loop : List Text → List Text → List Text → Result DefinitionError (Unit {0})
unfolding contains
selected_loop options seen [] = ok tt
selected_loop options seen (selected ∷ rest) = do
  require (contains selected options) (invalid (field_invalid (codes "value")))
  reject (contains selected seen) (invalid (field_duplicate (codes "value")))
  selected_loop options (selected ∷ seen) rest

abbrev pub validate_selection : ValueType → List Text → Value → Result DefinitionError (Unit {0})
validate_selection ValueType.single_select options v =
    require (contains v.text options) (invalid (field_invalid (codes "value")))
validate_selection ValueType.multi_select options v = selected_loop options [] v.multi
validate_selection _ options v = ok tt

unfoldable pub validate_value : ParameterDefinition → Value → Result DefinitionError (Unit {0})
unfolding is_valid_value selected_loop contains
validate_value p v = do
  require (is_valid_value v) value_invalid
  require (same_type v.kind p.type) (invalid (field_invalid (codes "definition.type")))
  validate_selection p.type p.options v

abbrev pub validate_default : ParameterDefinition → Option Value → Result DefinitionError (Unit {0})
validate_default p none = require p.required (invalid (field_required (codes "definition.default")))
validate_default p (some v) = do
  reject p.required (invalid (field_invalid (codes "definition.default")))
  validate_value p v

unfoldable pub validate_definition : ParameterDefinition → Result DefinitionError (Unit {0})
unfolding validate_options validate_value
validate_definition p = do
  reject (is_blank p.name || is_blank p.display_name)
      (invalid (field_required (codes "definition.name")))
  validate_options p.type p.options
  validate_default p p.default

abbrev pub is_err {ℓ κ} : {E : Type κ} {A : Type ℓ} → Result E A → Bool
is_err (ok _) = false
is_err (err _) = true

-- Both kinds of a failure are the same violation.
unfoldable pub parameters_loop : ℕ → List ParameterDefinition → List Violation
unfolding validate_definition
parameters_loop index [] = []
parameters_loop index (p ∷ parameters) =
    violation_if (is_err (validate_definition p))
      (field_invalid (at_index (codes "definition.parameters") index))
    ++ parameters_loop (suc index) parameters

-- `<` of Go's strings
unfoldable pub text_ltb : Text → Text → Bool
text_ltb [] [] = false
text_ltb [] (b ∷ bs) = true
text_ltb (a ∷ as') [] = false
text_ltb (a ∷ as') (b ∷ bs) =
    let rest = text_ltb as' bs in if ltb a b then true else if ltb b a then false else rest

-- `sort.Strings`
unfoldable pub insert_text : Text → List Text → List Text
unfolding text_ltb
insert_text x [] = x ∷ []
insert_text x (y ∷ rest) =
    let deeper = insert_text x rest in if text_ltb y x then y ∷ deeper else x ∷ y ∷ rest

unfoldable pub sort_texts : List Text → List Text
unfolding insert_text
sort_texts [] = []
sort_texts (x ∷ rest) = insert_text x (sort_texts rest)

-- A name that is the one before it in the sorted names.
unfoldable pub repeated_names : List Text → List Violation
repeated_names [] = []
repeated_names (x ∷ []) = []
repeated_names (x ∷ y ∷ rest) =
    violation_if (text_eq y x) (field_duplicate (codes "definition.parameters"))
    ++ repeated_names (y ∷ rest)

abbrev pub accepts_bounds : Option (Result BoundsError (Unit {0})) → Bool
accepts_bounds (some (ok _)) = true
accepts_bounds _ = false

module _ (compiles : Text → Bool) where
  abbrev pub fragment_checks :
      Text → Text → List (Text × Text) → Text → Version FlowFragmentContent → List (List Violation)
  fragment_checks id display_name properties current_version_id current =
      violation_if (is_blank id) (field_required (codes "id"))
      ∷ violation_if (is_blank display_name) (field_required (codes "displayName"))
      ∷ violation_if (has_invalid_key properties) (field_invalid (codes "properties"))
      ∷ violation_if (not (text_eq current.owner_id id) || is_blank current.id)
          (field_mismatch (codes "current"))
      ∷ violation_if (not (text_eq current_version_id current.id))
          (field_mismatch (codes "currentVersionId"))
      ∷ violation_if (current.version_number == 0) (field_invalid (codes "current.versionNumber"))
      ∷ violation_if (is_no_more current.content.steps) (field_required (codes "steps"))
      ∷ (validate_steps compiles current.content.steps true []).0
      ∷ parameters_loop 0 current.content.parameters
      ∷ repeated_names (sort_texts (map (λ p. p.name) current.content.parameters))
      ∷ []

  unfoldable pub fragment_violations :
      Text → Text → List (Text × Text) → Text → Version FlowFragmentContent → List Violation
  unfolding has_invalid_key validate_bounds validate_steps parameters_loop repeated_names sort_texts
  fragment_violations id display_name properties current_version_id current =
      if accepts_bounds (validate_bounds current.content.steps)
      then collect (fragment_checks id display_name properties current_version_id current)
      else field_invalid (codes "steps") ∷ []

  unfoldable pub validate_fragment :
      Aggregate FlowFragmentContent → Result AutomationError (Unit {0})
  unfolding validate
  validate_fragment a = validate fragment_violations a

  -- `FlowFragmentVersion.ValidateFor`
  unfoldable pub validate_for :
      Version FlowFragmentContent → Asset → Result AutomationError (Unit {0})
  unfolding validate_fragment
  validate_for v workflow =
      validate_fragment (record {
        asset = record workflow { current_version_id = v.id };
        current = v;
        versions = [];
      })

  unfoldable pub new_flow_fragment :
      Asset → Version FlowFragmentContent → Result AutomationError (Aggregate FlowFragmentContent)
  unfolding new_aggregate
  new_flow_fragment asset initial = new_aggregate fragment_violations asset initial

  unfoldable pub validate_fragment_history :
      Aggregate FlowFragmentContent → Result AutomationError (Unit {0})
  unfolding validate_loaded_history
  validate_fragment_history a = validate_loaded_history fragment_violations a

  unfoldable pub update_fragment_metadata :
      Aggregate FlowFragmentContent
      → Text
      → Text
      → List (Text × Text)
      → ℤ
      → Result AutomationError (Aggregate FlowFragmentContent)
  unfolding update_metadata
  update_fragment_metadata a display_name folder_id properties at =
      update_metadata fragment_violations a display_name folder_id properties at

  unfoldable pub set_fragment_deleted :
      Bool
      → Aggregate FlowFragmentContent
      → ℤ
      → Result AutomationError (Aggregate FlowFragmentContent)
  unfolding set_deleted
  set_fragment_deleted deleted a at = set_deleted fragment_violations deleted a at

  unfoldable pub publish_fragment :
      Aggregate FlowFragmentContent
      → Text
      → FlowFragmentContent
      → ℤ
      → Result AutomationError (Aggregate FlowFragmentContent)
  unfolding publish_version
  publish_fragment a version_id content at =
      publish_version fragment_violations a version_id content at
