-- ===== src/Automation/FlowFragment/Accepted.antt =====
-- What the versions of a flow fragment (domain/automation/assets.go) hold.
use healix_core.Prelude.{
  Text, ℕ, suc, ◌≤◌, Bool, true, false, ◌≡◌, refl, ap, sym, ◌∙◌, ◌↔◌, inl, inr, List, [], ◌∷◌, All,
  ok, codes, Bool-cases,
}
use healix_core.Fault.{
  Violation, field_invalid, field_required, violation_if, violation_if-nil, nil_append, collect-nil,
}
use healix_core.Fingerprint.{at_index}
use healix_core.Automation.Asset.{Asset, Version, Aggregate, violations_of}
use healix_core.Automation.Asset.Lifecycle.{Steps, new_aggregate-Steps-All}
use healix_core.Automation.FlowStep.{is_no_more}
use healix_core.Automation.FlowStep.Bounds.{max_depth, max_count, size, nesting, validate_bounds}
use healix_core.Automation.FlowStep.Limits.{validate_bounds_lem}
use healix_core.Automation.FlowStep.Fresh.{Fresh, steps_ids}
use healix_core.Automation.FlowStep.Accepted.{AreSteps, validate_steps_lem}
use healix_core.Automation.FlowFragment.{
  ParameterDefinition, FlowFragmentContent, is_err, accepts_bounds, validate_definition,
  parameters_loop, fragment_checks, fragment_violations, new_flow_fragment,
}

accepted_bounds :
    (steps : _)
    → accepts_bounds (validate_bounds steps) ≡ true
    → (nesting steps ≤ max_depth) × (size steps ≤ max_count)
accepted_bounds steps h = elim (validate_bounds_lem steps) [
  | inl (r, n, s) ↦ (n, s)
  | inr (e, r, _) ↦ let q : false ≡ true = sym (ap accepts_bounds r) ∙ h in cc q
]

parameters_loop-nil :
    (index : ℕ) (parameters : List ParameterDefinition)
    → (parameters_loop index parameters ≡ [])
      ↔ All (λ p. is_err (validate_definition p) ≡ false) parameters
unfolding parameters_loop
parameters_loop-nil index [] = (λ _. tt, λ _. refl)
parameters_loop-nil index (p ∷ parameters) =
    let v : Violation = field_invalid (at_index (codes "definition.parameters") index) in
    let (split, join) =
      nil_append (violation_if (is_err (validate_definition p)) v)
        (parameters_loop (suc index) parameters) in
    let own : _ = violation_if-nil (is_err (validate_definition p)) v in
    let rest : _ = parameters_loop-nil (suc index) parameters in
    (λ h. (own.0 (split h).0, rest.0 (split h).1), λ h. join (own.1 h.0, rest.1 h.1))

module _ (compiles : Text → Bool) where
  pub record IsFragment (c : FlowFragmentContent) : Type 0 where
    pub has_step : is_no_more c.steps ≡ false
    pub nested : nesting c.steps ≤ max_depth
    pub sized : size c.steps ≤ max_count
    pub shaped : AreSteps compiles true c.steps
    pub identities : Fresh [] (steps_ids c.steps)
    pub parameters : All (λ p. is_err (validate_definition p) ≡ false) c.parameters

  fragment_violations-IsFragment :
      (a : Aggregate FlowFragmentContent)
      → violations_of (fragment_violations compiles) a ≡ []
      → IsFragment a.current.content
  unfolding fragment_violations
  fragment_violations-IsFragment a h =
      elim (Bool-cases (accepts_bounds (validate_bounds a.current.content.steps))) [
        | inr e ↦
            let q : ◌≡◌ {A = List Violation} (_ ∷ _) [] = rw (e, fragment_violations) at h in cc q
        | inl e ↦
            let checks : List (List Violation) =
              fragment_checks compiles a.asset.id a.asset.display_name a.asset.properties
                a.asset.current_version_id a.current in
            let (_, (_, (_, (_, (_, (_, (some_step, (walk, (parameters, _))))))))) =
              (collect-nil checks).0 (rw (e, fragment_violations) at h) in
            let (shaped, identities) =
              (validate_steps_lem compiles a.current.content.steps).0 walk in
            let (nested, sized) = accepted_bounds a.current.content.steps e in
            record {
              has_step =
                  (violation_if-nil (is_no_more a.current.content.steps)
                      (field_required (codes "steps"))).0
                    some_step;
              nested = nested;
              sized = sized;
              shaped = shaped;
              identities = identities;
              parameters = (parameters_loop-nil 0 a.current.content.parameters).0 parameters;
            }
      ]

  -- After `new_flow_fragment` and any number of operations that succeeded, every version of the
  -- history, the earlier ones included, has at least one step and at most 10000, nested at most 64
  -- deep, each of them what its kind asks for, no identity of a step twice, and
  -- only parameters whose definition is accepted.
  pub new_flow_fragment-Steps-IsFragment :
      (asset : Asset) (initial : Version FlowFragmentContent) {n : ℕ}
      (a b : Aggregate FlowFragmentContent)
      → new_flow_fragment compiles asset initial ≡ ok a
      → Steps (fragment_violations compiles) a n b
      → All (λ v. IsFragment v.content) b.versions
  unfolding new_flow_fragment
  new_flow_fragment-Steps-IsFragment asset initial a b h steps =
      new_aggregate-Steps-All (fragment_violations compiles) (λ v. IsFragment v.content)
        fragment_violations-IsFragment asset initial a b h steps
