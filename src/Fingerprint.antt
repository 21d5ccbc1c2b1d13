-- ===== src/Fingerprint.antt =====
-- domain/fingerprint: selectors, framework stacks and the identity of an element.
-- A stack is the text of its kinds and versions; its confidences are of a type `W`, with the test
-- that one is a number from zero through one, so of Go's floating point no more is read here.
pub mod Accepted
use healix_core.Prelude.{
  Text, ℕ, zero, suc, ◌+◌, ◌/◌, ◌%◌, ◌-◌, ℤ, pos, lebℤ, ltbℤ, Bool, true, false, not, ◌&&◌, ◌||◌,
  List, [], ◌∷◌, ◌++◌, Option, none, some, ◌==◌, ltb, if◌then◌else◌, text_eq, is_blank, is_empty,
  codes,
}
use healix_core.Fault.{
  Violation, field_required, field_invalid, field_duplicate, violation_if, collect, contains,
}

-- `fmt.Sprint` of a number; the fuel bounds the digits.
unfoldable pub digits : ℕ → ℕ → Text
digits zero n = []
digits (suc fuel) n =
    let rest = digits fuel (n / 10) in
    if ltb n 10 then (48 + n) ∷ [] else rest ++ (48 + n % 10) ∷ []

abbrev pub decimal : ℕ → Text
decimal n = digits (suc n) n

-- `joinField`
abbrev pub join_field : Text → Text → Text
join_field prefix field = if is_empty prefix then field else prefix ++ codes "." ++ field

-- `prefix.index`
abbrev pub at_index : Text → ℕ → Text
at_index prefix index = prefix ++ codes "." ++ decimal index

pub data SelectorType : Type 0 where
  role testid css xpath text : SelectorType
  other_selector : Text → SelectorType

pub record Selector : Type 0 where
  pub type : SelectorType
  pub value : Text
  pub priority : ℤ

abbrev is_supported : SelectorType → Bool
is_supported (other_selector _) = false
is_supported _ = true

unfoldable pub is_valid_selector : Selector → Bool
is_valid_selector s = not (not (is_supported s.type) || is_blank s.value || ltbℤ s.priority (pos 0))

unfoldable pub selector_violations : Text → ℕ → List Selector → List Violation
unfolding is_valid_selector
selector_violations prefix index [] = []
selector_violations prefix index (s ∷ selectors) = collect (
    (violation_if (not (is_valid_selector s)) (field_invalid (at_index prefix index)))
    ∷ (selector_violations prefix (suc index) selectors)
    ∷ [])

pub record FrameworkInfo (W : Type 0) : Type 0 where
  pub kind : Text
  pub version : Text
  pub confidence : W
  pub evidence : Text

unfoldable pub is_framework_kind : Text → Bool
unfolding contains
is_framework_kind kind = contains kind (
    codes "react"
    ∷ codes "vue"
    ∷ codes "angular"
    ∷ codes "svelte"
    ∷ codes "solid"
    ∷ codes "preact"
    ∷ codes "unknown"
    ∷ [])

unfoldable pub is_evidence_kind : Text → Bool
unfolding contains
is_evidence_kind evidence = contains evidence (
    []
    ∷ codes "script_link"
    ∷ codes "global_marker"
    ∷ codes "root_marker"
    ∷ codes "hydration_marker"
    ∷ [])

-- `strings.ContainsAny(s, "\r\n")`
unfoldable pub has_line_break : Text → Bool
has_line_break [] = false
has_line_break (c ∷ rest) = c == 13 || c == 10 || has_line_break rest

module _ {W : Type 0} (in_unit : W → Bool) where
  unfoldable pub info_violations : FrameworkInfo W → Text → List Violation
  unfolding is_framework_kind is_evidence_kind has_line_break
  info_violations f prefix = collect (
      (violation_if (not (is_framework_kind f.kind))
        (field_invalid (join_field prefix (codes "kind"))))
      ∷ (violation_if (not (in_unit f.confidence))
          (field_invalid (join_field prefix (codes "confidence"))))
      ∷ (violation_if (not (is_blank f.version) && has_line_break f.version)
          (field_invalid (join_field prefix (codes "version"))))
      ∷ (violation_if (not (is_evidence_kind f.evidence))
          (field_invalid (join_field prefix (codes "evidence"))))
      ∷ [])

  unfoldable pub stack_loop : Text → ℕ → List Text → List (FrameworkInfo W) → List Violation
  unfolding info_violations
  stack_loop prefix index seen [] = []
  stack_loop prefix index seen (info ∷ stack) = collect (
      (info_violations info (at_index prefix index))
      ∷ (violation_if (contains info.kind seen)
          (field_duplicate (join_field (at_index prefix index) (codes "kind"))))
      ∷ (stack_loop prefix (suc index) (info.kind ∷ seen) stack)
      ∷ [])

  abbrev pub stack_violations : List (FrameworkInfo W) → Text → List Violation
  stack_violations stack prefix = stack_loop prefix 0 [] stack
