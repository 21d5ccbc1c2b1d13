-- ===== src/Automation/FlowStep/Shape.antt =====
-- What a step of each kind is (domain/automation/assets.go and workflow_validation.go).
use healix_core.Prelude.{
  Text, pos, lebℤ, ltbℤ, Bool, true, false, not, ◌||◌, ◌≡◌, ◌↔◌, ◌⊎◌, inl, inr, List, [], ◌∷◌,
  Option, none, some, text_eq, is_blank, is_empty, codes, is_zero, arith, Option-cases, subst, sym,
}
use healix_core.Fault.{Violation, report, report-nil, nil_append}
use healix_core.Automation.FlowStep.{
  FlowFragmentStep, FlowFragmentReference, ValidationConfig, ValidationWait, ValidationGroup,
  has_other_configuration, wait_tests, repeat_tests, reference_tests, validation_tests, Steps,
  is_none, is_nil, is_no_group, is_no_more, action_tests, action_violations, supported_action,
  wait_violations, wait_kind_violations, is_element_wait_kind, repeat_violations,
  reference_violations, reference_target_violations, validation_violations, is_valid_assertion,
  is_valid_wait, no_target,
}

-- A configuration that is not set.
abbrev pub Unset : Bool → Type 0
Unset b = b ≡ true

abbrev pub NoValidation : FlowFragmentStep → ValidationGroup → Type 0
NoValidation s g = Unset (is_none s.validation) × Unset (is_no_group g)

-- An action has no other configuration, and what its action needs: a target unless it navigates or
-- presses, a value to navigate to, to press or to extract, and something to select.
-- A target comes with its version, and only with it.
pub record IsAction (s : FlowFragmentStep) (g : ValidationGroup) (children : Steps) : Type 0 where
  pub no_validation : NoValidation s g
  pub no_reference : Unset (is_none s.reference)
  pub no_wait : Unset (is_empty s.wait_kind) × Unset (is_zero s.wait_ms)
  pub no_repeat : Unset (is_zero s.repeat_count) × Unset (is_no_more children)
  pub supported : supported_action s.action ≡ true
  pub has_target :
      (is_blank s.element_target_id ≡ false)
      ⊎ ((text_eq s.action (codes "navigate") ≡ true) ⊎ (text_eq s.action (codes "press") ≡ true))
  pub exact_target : is_blank s.element_target_id ≡ is_blank s.element_target_version_id
  pub has_value :
      (is_blank s.value ≡ false)
      ⊎ ((text_eq s.action (codes "navigate") ≡ false)
          × (text_eq s.action (codes "press") ≡ false)
          × (text_eq s.action (codes "extract") ≡ false))
  pub has_choice :
      (text_eq s.action (codes "select") ≡ false)
      ⊎ ((is_blank s.value ≡ false) ⊎ (is_nil s.values ≡ false))

pub action_violations-nil :
    (s : FlowFragmentStep) (g : ValidationGroup) (children : Steps)
    → (action_violations s g children ≡ []) ↔ IsAction s g children
unfolding action_violations
action_violations-nil s g children =
    let table : _ = report-nil (action_tests s g children) in
    (
      λ h.
          let (a, (b, (c, (d, (e, (f, (v, (w, _)))))))) = table.0 h in
          record {
            no_validation = ground arith;
            no_reference = ground arith;
            no_wait = ground arith;
            no_repeat = ground arith;
            supported = ground arith;
            has_target = ground arith;
            exact_target = ground arith;
            has_value = ground arith;
            has_choice = ground arith;
          },
      λ h. table.1 (
        ground arith,
        (
          ground arith,
          (
            ground arith,
            (ground arith, (ground arith, (ground arith, (ground arith, (ground arith, tt))))),
          ),
        ),
      ),
    )

-- A wait has no other configuration. A fixed one lasts, an element wait has a target with its version
-- and no negative timeout, nor has the wait for an idle network; only an element wait has a target.
abbrev pub WaitsFor : FlowFragmentStep → Type 0
WaitsFor s =
    (((is_empty s.wait_kind ≡ true) ⊎ (text_eq s.wait_kind (codes "sleep") ≡ true))
      × (lebℤ s.wait_ms (pos 0) ≡ false))
    ⊎ (((is_empty s.wait_kind ≡ false)
          × (text_eq s.wait_kind (codes "sleep") ≡ false)
          × (is_element_wait_kind s.wait_kind ≡ true)
          × (is_blank s.element_target_id ≡ false)
          × (is_blank s.element_target_version_id ≡ false)
          × (ltbℤ s.wait_ms (pos 0) ≡ false))
        ⊎ ((is_empty s.wait_kind ≡ false)
            × (text_eq s.wait_kind (codes "sleep") ≡ false)
            × (is_element_wait_kind s.wait_kind ≡ false)
            × (text_eq s.wait_kind (codes "network_idle") ≡ true)
            × (ltbℤ s.wait_ms (pos 0) ≡ false)))

pub record IsWait (s : FlowFragmentStep) (g : ValidationGroup) (children : Steps) : Type 0 where
  pub no_validation : NoValidation s g
  pub no_action : Unset (is_empty s.action) × Unset (is_empty s.value) × Unset (is_nil s.values)
  pub no_reference : Unset (is_none s.reference)
  pub no_repeat : Unset (is_zero s.repeat_count) × Unset (is_no_more children)
  pub no_stray_target : (is_element_wait_kind s.wait_kind ≡ true) ⊎ Unset (no_target s)
  pub waits_for : WaitsFor s

wait_kind_violations-nil : (s : FlowFragmentStep) → (wait_kind_violations s ≡ []) ↔ WaitsFor s
unfolding wait_kind_violations
wait_kind_violations-nil s = ground arith

pub wait_violations-nil :
    (s : FlowFragmentStep) (g : ValidationGroup) (children : Steps)
    → (wait_violations s g children ≡ []) ↔ IsWait s g children
unfolding wait_violations
wait_violations-nil s g children =
    let (split, join) = nil_append (report (wait_tests s g children)) (wait_kind_violations s) in
    let table : _ = report-nil (wait_tests s g children) in
    let kind : _ = wait_kind_violations-nil s in
    (
      λ h.
          let (a, (b, _)) = table.0 (split h).0 in
          record {
            no_validation = ground arith;
            no_action = ground arith;
            no_reference = ground arith;
            no_repeat = ground arith;
            no_stray_target = ground arith;
            waits_for = kind.0 (split h).1;
          },
      λ h. join (table.1 (ground arith, (ground arith, tt)), kind.1 h.waits_for),
    )

-- A repeat has no other configuration, a positive count and something to repeat.
pub record IsRepeat (s : FlowFragmentStep) (g : ValidationGroup) (children : Steps) : Type 0 where
  pub no_validation : NoValidation s g
  pub no_action : Unset (is_empty s.action) × Unset (is_empty s.value) × Unset (is_nil s.values)
  pub without_target : Unset (no_target s)
  pub no_wait : Unset (is_empty s.wait_kind) × Unset (is_zero s.wait_ms)
  pub no_reference : Unset (is_none s.reference)
  pub repeats : ltbℤ s.repeat_count (pos 1) ≡ false
  pub has_child : is_no_more children ≡ false

pub repeat_violations-nil :
    (s : FlowFragmentStep) (g : ValidationGroup) (children : Steps)
    → (repeat_violations s g children ≡ []) ↔ IsRepeat s g children
unfolding repeat_violations
repeat_violations-nil s g children =
    let table : _ = report-nil (repeat_tests s g children) in
    (
      λ h.
          let (a, (b, (c, _))) = table.0 h in
          record {
            no_validation = ground arith;
            no_action = ground arith;
            without_target = ground arith;
            no_wait = ground arith;
            no_reference = ground arith;
            repeats = ground arith;
            has_child = ground arith;
          },
      λ h. table.1 (ground arith, (ground arith, (ground arith, tt))),
    )

-- A reference names a fragment, and a version unless it takes the latest one.
abbrev pub Targets : Option FlowFragmentReference → Type 0
Targets none = true ≡ false
Targets (some r) =
    (is_blank r.flow_fragment_id ≡ false) × (is_blank r.workflow_version_id ≡ r.latest_published)

pub record IsReference (s : FlowFragmentStep) (g : ValidationGroup) (children : Steps)
    : Type 0 where
  pub no_validation : NoValidation s g
  pub no_action : Unset (is_empty s.action) × Unset (is_empty s.value) × Unset (is_nil s.values)
  pub without_target : Unset (no_target s)
  pub no_wait : Unset (is_empty s.wait_kind) × Unset (is_zero s.wait_ms)
  pub no_repeat : Unset (is_zero s.repeat_count) × Unset (is_no_more children)
  pub targets : Targets s.reference

reference_target_violations-nil :
    (r : Option FlowFragmentReference) → (reference_target_violations r ≡ []) ↔ Targets r
unfolding reference_target_violations
reference_target_violations-nil none = (λ h. cc, λ h. cc)
reference_target_violations-nil (some r) = ground arith

pub reference_violations-nil :
    (s : FlowFragmentStep) (g : ValidationGroup) (children : Steps)
    → (reference_violations s g children ≡ []) ↔ IsReference s g children
unfolding reference_violations
reference_violations-nil s g children =
    let (split, join) =
      nil_append (report (reference_tests s g children))
        (reference_target_violations s.reference) in
    let table : _ = report-nil (reference_tests s g children) in
    let target : _ = reference_target_violations-nil s.reference in
    (
      λ h.
          let (a, (b, _)) = table.0 (split h).0 in
          record {
            no_validation = ground arith;
            no_action = ground arith;
            without_target = ground arith;
            no_wait = ground arith;
            no_repeat = ground arith;
            targets = target.0 (split h).1;
          },
      λ h. join (table.1 (ground arith, (ground arith, tt)), target.1 h.targets),
    )

-- A validation has an exact target, a valid assertion and what `Waits` says of its wait, and no
-- other configuration.
abbrev pub Asserts : (Text → Bool) → (ValidationWait → Bool) → Option ValidationConfig → Type 0
Asserts compiles waits none = true ≡ false
Asserts compiles waits (some v) =
    (is_valid_assertion compiles v.assertion ≡ true) × (waits v.wait ≡ true)

pub record IsValidation (compiles : Text → Bool) (waits : ValidationWait → Bool)
    (s : FlowFragmentStep) (g : ValidationGroup) (children : Steps) : Type 0 where
  pub no_group : Unset (is_no_group g)
  pub no_action : Unset (is_empty s.action) × Unset (is_empty s.value) × Unset (is_nil s.values)
  pub no_reference : Unset (is_none s.reference)
  pub no_wait : Unset (is_empty s.wait_kind) × Unset (is_zero s.wait_ms)
  pub no_repeat : Unset (is_zero s.repeat_count) × Unset (is_no_more children)
  pub not_optional : s.optional ≡ false
  pub exact_target :
      (is_blank s.element_target_id ≡ false) × (is_blank s.element_target_version_id ≡ false)
  pub asserts : Asserts compiles waits s.validation

-- What the four tests of a validation come to, whatever they report.
pub validation_tests-IsValidation :
    (compiles : Text → Bool) (waits : ValidationWait → Bool) (s : FlowFragmentStep)
    (g : ValidationGroup) (children : Steps) (v : ValidationConfig)
    → s.validation ≡ some v
    → ((has_other_configuration s g children ≡ false)
        × ((is_blank s.element_target_id || is_blank s.element_target_version_id) ≡ false)
        × (not (is_valid_assertion compiles v.assertion) ≡ false)
        × (not (waits v.wait) ≡ false))
      ↔ IsValidation compiles waits s g children
validation_tests-IsValidation compiles waits s g children v e = (
  λ h.
      let (a, b, c, d) = h in
      record {
        no_group = ground arith;
        no_action = ground arith;
        no_reference = ground arith;
        no_wait = ground arith;
        no_repeat = ground arith;
        not_optional = ground arith;
        exact_target = ground arith;
        asserts = subst (Asserts compiles waits) (sym e) (ground arith, ground arith);
      },
  λ h.
      let asserts : Asserts compiles waits (some v) = subst (Asserts compiles waits) e h.asserts in
      (ground arith, ground arith, ground arith, ground arith),
)

pub validation_violations-nil :
    (compiles : Text → Bool) (s : FlowFragmentStep) (g : ValidationGroup) (children : Steps)
    → (validation_violations compiles s g children ≡ [])
      ↔ IsValidation compiles is_valid_wait s g children
unfolding validation_violations
validation_violations-nil compiles s g children = elim (Option-cases s.validation) [
  | inl e ↦ (
    λ h. let q : ◌≡◌ {A = List Violation} (_ ∷ _) [] = rw (e, validation_violations) at h in cc q,
    λ h. let q : true ≡ false = subst (Asserts compiles is_valid_wait) e h.asserts in cc q,
  )
  | inr (v, e) ↦
      let table : _ = report-nil (validation_tests compiles v s g children) in
      let tests : _ = validation_tests-IsValidation compiles is_valid_wait s g children v e in
      (
        λ h.
            let (a, (b, (c, (d, _)))) = table.0 (rw (e, validation_violations) at h) in
            tests.0 (a, b, c, d),
        λ h.
            let (a, b, c, d) = tests.1 h in
            rw (e, validation_violations) (table.1 (a, (b, (c, (d, tt))))),
      )
]
