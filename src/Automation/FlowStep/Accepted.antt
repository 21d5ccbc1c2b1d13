-- ===== src/Automation/FlowStep/Accepted.antt =====
-- The step trees that `validateSteps` (domain/automation/assets.go) accepts.
use healix_core.Prelude.{
  Text, Bool, true, false, not, ◌≡◌, refl, ap, sym, ◌∙◌, subst, ◌↔◌, ◌⊎◌, List, [], ◌∷◌, ◌++◌,
  codes, arith,
}
use healix_core.Fault.{Violation, field_invalid, violation_if, report-nil, nil_append, contains}
use healix_core.Automation.FlowStep.{
  FlowFragmentStep, StepKind, ValidationGroup, Step, step, Steps, no_more, more, is_valid_wait,
  validation_violations, repeat_violations,
}
use healix_core.Automation.FlowStep.Group.{group_violations}
use healix_core.Automation.FlowStep.Tree.{
  is_action, identity_tests, identity_violations, kind_violations, validate_step, validate_steps,
}
use healix_core.Automation.FlowStep.Shape.{
  IsAction, action_violations-nil, IsWait, wait_violations-nil, IsRepeat, repeat_violations-nil,
  IsReference, reference_violations-nil, IsValidation, validation_violations-nil,
}
use healix_core.Automation.FlowStep.Fresh.{
  Fresh, after, after-append, Fresh-append, ids_below, step_ids, steps_ids,
}
use healix_core.Automation.FlowStep.Members.{
  IsNamed, IsGroup, group_violations-nil, group_violations-seen,
}

module _ (compiles : Text → Bool) where
  -- A step is what its kind asks for. `below` is what its children are. Validations and groups
  -- stand at the root alone.
  abbrev pub IsOfKind :
      StepKind → Bool → FlowFragmentStep → ValidationGroup → Steps → Type 0 → Type 0
  IsOfKind StepKind.action root s g children below = IsAction s g children
  IsOfKind StepKind.wait root s g children below = IsWait s g children
  IsOfKind StepKind.repeat root s g children below = IsRepeat s g children × below
  IsOfKind StepKind.flow_fragment_ref root s g children below = IsReference s g children
  IsOfKind StepKind.validation root s g children below =
      (root ≡ true) × IsValidation compiles is_valid_wait s g children
  IsOfKind StepKind.validation_group root s g children below =
      (root ≡ true) × IsGroup compiles s g children
  IsOfKind (StepKind.other_step _) root s g children below = true ≡ false

  unfoldable mutual
    pub IsStep : Bool → Step → Type 0
    IsStep root (step s g children) =
        IsNamed s.id s.display_name
        × ((is_action s.kind ≡ true) ⊎ (s.optional ≡ false))
        × IsOfKind s.kind root s g children (AreSteps false children)

    pub AreSteps : Bool → Steps → Type 0
    AreSteps root no_more = Unit
    AreSteps root (more s steps) = IsStep root s × AreSteps root steps

  identity_violations-nil :
      (s : FlowFragmentStep) (seen : List Text)
      → (identity_violations s seen ≡ []) ↔ (
          IsNamed s.id s.display_name
          × ((is_action s.kind ≡ true) ⊎ (s.optional ≡ false))
          × (contains s.id seen ≡ false))
  unfolding identity_violations
  identity_violations-nil s seen =
      let table : _ = report-nil (identity_tests s seen) in
      (
        λ h. let (a, (b, (c, _))) = table.0 h in ((ground arith, ground arith), ground arith, b),
        λ h. let ((a, b), c, d) = h in table.1 (ground arith, (d, (ground arith, tt))),
      )

  at_root :
      (root : Bool) (v : Violation) (rest : List Violation)
      → (violation_if (not root) v ++ rest ≡ []) ↔ ((root ≡ true) × (rest ≡ []))
  at_root true v rest = (λ h. (refl, h), λ h. h.1)
  at_root false v rest = (λ h. cc, λ h. let q : false ≡ true = h.0 in cc q)

  -- What a kind says, by what the children say: `Below`, and that their identities `ids` are fresh.
  kind_violations-nil :
      (k : StepKind) (root : Bool) (s : FlowFragmentStep) (g : ValidationGroup) (children : Steps)
      (seen ids : List Text) (below : List Violation × List Text) (Below : Type 0)
      → (below.0 ≡ []) ↔ (Below × Fresh seen ids)
      → ((kind_violations compiles k root s g children seen below).0 ≡ [])
        ↔ (IsOfKind k root s g children Below × Fresh seen (ids_below k ids g))
  unfolding kind_violations
  kind_violations-nil StepKind.action root s g children seen ids below Below e =
      let own : _ = action_violations-nil s g children in (λ h. (own.0 h, tt), λ h. own.1 h.0)
  kind_violations-nil StepKind.wait root s g children seen ids below Below e =
      let own : _ = wait_violations-nil s g children in (λ h. (own.0 h, tt), λ h. own.1 h.0)
  kind_violations-nil StepKind.repeat root s g children seen ids below Below e =
      let own : _ = repeat_violations-nil s g children in
      let (split, join) = nil_append (repeat_violations s g children) below.0 in
      (
        λ h. let (b, f) = e.0 (split h).1 in ((own.0 (split h).0, b), f),
        λ h. join (own.1 h.0.0, e.1 (h.0.1, h.1)),
      )
  kind_violations-nil StepKind.flow_fragment_ref root s g children seen ids below Below e =
      let own : _ = reference_violations-nil s g children in (λ h. (own.0 h, tt), λ h. own.1 h.0)
  kind_violations-nil StepKind.validation root s g children seen ids below Below e =
      let own : _ = validation_violations-nil compiles s g children in
      let root_only : _ =
        at_root root (field_invalid (codes "steps.validation"))
          (validation_violations compiles s g children) in
      (
        λ h. (((root_only.0 h).0, own.0 (root_only.0 h).1), tt),
        λ h. root_only.1 (h.0.0, own.1 h.0.1),
      )
  kind_violations-nil StepKind.validation_group root s g children seen ids below Below e =
      let own : _ = group_violations-nil compiles s g children seen in
      let root_only : _ =
        at_root root (field_invalid (codes "steps.validationGroup"))
          (group_violations compiles s g children seen).0 in
      (
        λ h. let (m, f) = own.0 (root_only.0 h).1 in (((root_only.0 h).0, m), f),
        λ h. root_only.1 (h.0.0, own.1 (h.0.1, h.1)),
      )
  kind_violations-nil (StepKind.other_step _) root s g children seen ids below Below e =
      (λ h. cc, λ h. let q : true ≡ false = h.0 in cc q)

  kind_violations-seen :
      (k : StepKind) (root : Bool) (s : FlowFragmentStep) (g : ValidationGroup) (children : Steps)
      (seen ids : List Text) (below : List Violation × List Text)
      → below.1 ≡ after seen ids
      → (kind_violations compiles k root s g children seen below).1 ≡ after seen (ids_below k ids g)
  unfolding kind_violations
  kind_violations-seen StepKind.action root s g children seen ids below e = refl
  kind_violations-seen StepKind.wait root s g children seen ids below e = refl
  kind_violations-seen StepKind.repeat root s g children seen ids below e = e
  kind_violations-seen StepKind.flow_fragment_ref root s g children seen ids below e = refl
  kind_violations-seen StepKind.validation root s g children seen ids below e = refl
  kind_violations-seen StepKind.validation_group root s g children seen ids below e =
      group_violations-seen compiles s g children seen
  kind_violations-seen (StepKind.other_step _) root s g children seen ids below e = refl

  mutual
    unfolding validate_step steps_ids

    validate_step-seen :
        (x : Step) (root : Bool) (seen : List Text)
        → (validate_step compiles x root seen).1 ≡ after seen (step_ids x)
    validate_step-seen (step s g children) root seen =
        kind_violations-seen s.kind root s g children (s.id ∷ seen) (steps_ids children)
          (validate_steps compiles children false (s.id ∷ seen))
          (validate_steps-seen children false (s.id ∷ seen))

    validate_steps-seen :
        (xs : Steps) (root : Bool) (seen : List Text)
        → (validate_steps compiles xs root seen).1 ≡ after seen (steps_ids xs)
    validate_steps-seen no_more root seen = refl
    validate_steps-seen (more x xs) root seen =
        validate_steps-seen xs root (validate_step compiles x root seen).1
        ∙ ap (λ l. after l (steps_ids xs)) (validate_step-seen x root seen)
        ∙ sym (after-append seen (step_ids x) (steps_ids xs))

  mutual
    unfolding validate_step steps_ids IsStep

    validate_step-nil :
        (x : Step) (root : Bool) (seen : List Text)
        → ((validate_step compiles x root seen).0 ≡ []) ↔ (IsStep root x × Fresh seen (step_ids x))
    validate_step-nil (step s g children) root seen =
        let below : List Violation × List Text =
          validate_steps compiles children false (s.id ∷ seen) in
        let own : _ = identity_violations-nil s seen in
        let kind : _ =
          kind_violations-nil s.kind root s g children (s.id ∷ seen) (steps_ids children) below
            (AreSteps false children) (validate_steps-nil children false (s.id ∷ seen)) in
        let (split, join) =
          nil_append (identity_violations s seen)
            (kind_violations compiles s.kind root s g children (s.id ∷ seen) below).0 in
        (
          λ h.
              let (named, optional, new) = own.0 (split h).0 in
              let (k, f) = kind.0 (split h).1 in ((named, optional, k), (new, f)),
          λ h.
              let ((named, optional, k), (new, f)) = h in
              join (own.1 (named, optional, new), kind.1 (k, f)),
        )

    validate_steps-nil :
        (xs : Steps) (root : Bool) (seen : List Text)
        → ((validate_steps compiles xs root seen).0 ≡ [])
          ↔ (AreSteps root xs × Fresh seen (steps_ids xs))
    validate_steps-nil no_more root seen = (λ _. (tt, tt), λ _. refl)
    validate_steps-nil (more x xs) root seen =
        let here : List Violation × List Text = validate_step compiles x root seen in
        let (split, join) = nil_append here.0 (validate_steps compiles xs root here.1).0 in
        let own : _ = validate_step-nil x root seen in
        let rest : _ = validate_steps-nil xs root here.1 in
        let shift : here.1 ≡ after seen (step_ids x) = validate_step-seen x root seen in
        let fresh : _ = Fresh-append seen (step_ids x) (steps_ids xs) in
        (
          λ h.
              let (o, f) = own.0 (split h).0 in
              let (r, f') = rest.0 (split h).1 in
              ((o, r), fresh.1 (f, subst (λ l. Fresh l (steps_ids xs)) shift f')),
          λ h.
              let ((o, r), f) = h in
              let (f', f'') = fresh.0 f in
              join (own.1 (o, f'), rest.1 (r, subst (λ l. Fresh l (steps_ids xs)) (sym shift) f'')),
        )

  -- The walk finds nothing wrong with a step tree when and only when each step has an identity and a
  -- name, is what its kind asks for, is an action if it is optional, and, if it is a validation
  -- or a group, stands at the root; and no identity of a step, the members of groups included,
  -- comes up twice.
  pub validate_steps_lem :
      (steps : Steps)
      → ((validate_steps compiles steps true []).0 ≡ [])
        ↔ (AreSteps true steps × Fresh [] (steps_ids steps))
  validate_steps_lem steps = validate_steps-nil steps true []
