-- ===== src/Automation/FlowStep/Members.antt =====
-- The validation groups that `validateValidationGroupStep` (domain/automation/workflow_validation.go) accepts.
use healix_core.Prelude.{
  Text, ◌≤◌, Bool, true, false, ◌≡◌, refl, ap, sym, ◌∙◌, subst, ◌↔◌, inl, inr, List, [], ◌∷◌, ◌++◌,
  is_blank, is_empty, codes, arith, Bool-cases, Option-cases, ltb,
}
use healix_core.Fault.{Violation, field_invalid, report, report-nil, nil_append, contains}
use healix_core.Automation.FlowStep.{
  FlowFragmentStep, ValidationGroup, no_group, group, step, Steps, no_more, more, Branches,
  no_branch, branch, is_valid_wait,
}
use healix_core.Automation.FlowStep.Group.{
  is_validation, is_zero_wait, member_tests, member_violations, member_identity_tests, members_loop,
  branch_tests, branches_loop, group_tests, group_violations, count, count_branches, count_members,
  has_step_configuration,
}
use healix_core.Automation.FlowStep.Shape.{IsValidation, Asserts, validation_tests-IsValidation}
use healix_core.Automation.FlowStep.Fresh.{
  Fresh, after, after-append, Fresh-append, member_ids, branch_member_ids, group_ids, branch_ids,
}

abbrev pub IsNamed : Text → Text → Type 0
IsNamed id name = (is_blank id ≡ false) × (is_blank name ≡ false)

not_empty : (id : Text) → is_blank id ≡ false → is_empty id ≡ false
unfolding is_blank
not_empty [] b = cc
not_empty (c ∷ id) b = refl

module _ (compiles : Text → Bool) where
  -- A member of a group is a validation without a wait of its own.
  abbrev pub IsMember : FlowFragmentStep → ValidationGroup → Steps → Type 0
  IsMember s g children =
      (is_validation s.kind ≡ true) × IsValidation compiles is_zero_wait s g children

  abbrev pub AreMembers : Steps → Type 0
  AreMembers no_more = Unit
  AreMembers (more (step s g children) members) =
      IsNamed s.id s.display_name × IsMember s g children × AreMembers members

  abbrev pub AreBranches : Branches → Type 0
  AreBranches no_branch = Unit
  AreBranches (branch id name members branches) =
      IsNamed id name
      × ((1 ≤ count members) × (count members ≤ 10))
      × AreMembers members
      × AreBranches branches

  -- A group has one to five named branches, their identities different, each of one to ten validations and
  -- twenty at most together, one wait for all of them, and no other configuration.
  abbrev pub IsGroup : FlowFragmentStep → ValidationGroup → Steps → Type 0
  IsGroup s no_group children = true ≡ false
  IsGroup s (group wait branches) children =
      (has_step_configuration s children ≡ false)
      × (is_valid_wait wait ≡ true)
      × ((1 ≤ count_branches branches) × (count_branches branches ≤ 5))
      × (count_members branches ≤ 20)
      × Fresh [] (branch_ids branches)
      × AreBranches branches

  member_violations-nil :
      (s : FlowFragmentStep) (g : ValidationGroup) (children : Steps)
      → (member_violations compiles s g children ≡ []) ↔ IsMember s g children
  unfolding member_violations
  member_violations-nil s g children = elim (Bool-cases (is_validation s.kind)) [
    | inl k ↦ elim (Option-cases s.validation) [
      | inl e ↦ (
        λ h.
            let q : ◌≡◌ {A = List Violation} (_ ∷ _) [] = rw (e, k, member_violations) at h in cc q,
        λ h. let q : true ≡ false = subst (Asserts compiles is_zero_wait) e h.1.asserts in cc q,
      )
      | inr (v, e) ↦
          let table : _ = report-nil (member_tests compiles v s g children) in
          let tests : _ = validation_tests-IsValidation compiles is_zero_wait s g children v e in
          (
            λ h.
                let (a, (b, (c, (d, _)))) = table.0 (rw (e, k, member_violations) at h) in
                (k, tests.0 (a, b, c, d)),
            λ h.
                let (a, b, c, d) = tests.1 h.1 in
                rw (e, k, member_violations) (table.1 (a, (b, (c, (d, tt))))),
          )
    ]
    | inr k ↦ (
      λ h. let q : ◌≡◌ {A = List Violation} (_ ∷ _) [] = rw (k, member_violations) at h in cc q,
      λ h. let q : true ≡ false = sym h.0 ∙ k in cc q,
    )
  ]

  members_loop-nil :
      (members : Steps) (seen : List Text)
      → ((members_loop compiles members seen).0 ≡ [])
        ↔ (AreMembers members × Fresh seen (member_ids members))
  unfolding members_loop
  members_loop-nil no_more seen = (λ _. (tt, tt), λ _. refl)
  members_loop-nil (more (step s g children) members) seen =
      let later : List Violation = (members_loop compiles members (s.id ∷ seen)).0 in
      let (split, join) =
        nil_append (report (member_identity_tests s seen))
          (member_violations compiles s g children ++ later) in
      let (split', join') = nil_append (member_violations compiles s g children) later in
      let table : _ = report-nil (member_identity_tests s seen) in
      let own : _ = member_violations-nil s g children in
      let rest : _ = members_loop-nil members (s.id ∷ seen) in
      (
        λ h.
            let (a, (b, _)) = table.0 (split h).0 in
            let blank : is_blank s.id ≡ false = ground arith in
            let named : is_blank s.display_name ≡ false = ground arith in
            let fresh : contains s.id seen ≡ false = ground (arith, not_empty s.id blank) in
            let (o, l) = split' (split h).1 in
            let (all, f) = rest.0 l in (((blank, named), own.0 o, all), (fresh, f)),
        λ h.
            let (((blank, named), o, all), (fresh, f)) = h in
            join (table.1 (ground arith, (ground arith, tt)), join' (own.1 o, rest.1 (all, f))),
      )

  members_loop-seen :
      (members : Steps) (seen : List Text)
      → (members_loop compiles members seen).1 ≡ after seen (member_ids members)
  unfolding members_loop
  members_loop-seen no_more seen = refl
  members_loop-seen (more (step s g children) members) seen =
      members_loop-seen members (s.id ∷ seen)

  branches_loop-seen :
      (branches : Branches) (ids seen : List Text)
      → (branches_loop compiles branches ids seen).1 ≡ after seen (branch_member_ids branches)
  unfolding branches_loop
  branches_loop-seen no_branch ids seen = refl
  branches_loop-seen (branch id name members branches) ids seen =
      branches_loop-seen branches (id ∷ ids) (members_loop compiles members seen).1
      ∙ ap (λ x. after x (branch_member_ids branches)) (members_loop-seen members seen)
      ∙ sym (after-append seen (member_ids members) (branch_member_ids branches))

  branches_loop-nil :
      (branches : Branches) (ids seen : List Text)
      → ((branches_loop compiles branches ids seen).0 ≡ []) ↔ (
          AreBranches branches
          × Fresh ids (branch_ids branches)
          × Fresh seen (branch_member_ids branches))
  unfolding branches_loop
  branches_loop-nil no_branch ids seen = (λ _. (tt, tt, tt), λ _. refl)
  branches_loop-nil (branch id name members branches) ids seen =
      let here : List Violation = (members_loop compiles members seen).0 in
      let mid : List Text = (members_loop compiles members seen).1 in
      let later : List Violation = (branches_loop compiles branches (id ∷ ids) mid).0 in
      let (split, join) = nil_append (report (branch_tests id name members ids)) (here ++ later) in
      let (split', join') = nil_append here later in
      let table : _ = report-nil (branch_tests id name members ids) in
      let own : _ = members_loop-nil members seen in
      let rest : _ = branches_loop-nil branches (id ∷ ids) mid in
      let shift : mid ≡ after seen (member_ids members) = members_loop-seen members seen in
      let fresh_append : _ = Fresh-append seen (member_ids members) (branch_member_ids branches) in
      (
        λ h.
            let (a, (b, (c, _))) = table.0 (split h).0 in
            let blank : is_blank id ≡ false = ground arith in
            let named : is_blank name ≡ false = ground arith in
            let new : contains id ids ≡ false = ground (arith, not_empty id blank) in
            let (o, l) = split' (split h).1 in
            let (m, f) = own.0 o in
            let (all, distinct, f') = rest.0 l in
            (
              ((blank, named), (ground arith, ground arith), m, all),
              (new, distinct),
              fresh_append.1 (f, subst (λ x. Fresh x (branch_member_ids branches)) shift f'),
            ),
        λ h.
            let (((blank, named), (low, high), m, all), (new, distinct), fresh) = h in
            let (f, f') = fresh_append.0 fresh in
            join (
              table.1 (ground arith, (ground arith, (ground arith, tt))),
              join' (
                own.1 (m, f),
                rest.1 (
                  all,
                  distinct,
                  subst (λ x. Fresh x (branch_member_ids branches)) (sym shift) f',
                ),
              ),
            ),
      )

  pub group_violations-nil :
      (s : FlowFragmentStep) (g : ValidationGroup) (children : Steps) (seen : List Text)
      → ((group_violations compiles s g children seen).0 ≡ [])
        ↔ (IsGroup s g children × Fresh seen (group_ids g))
  unfolding group_violations
  group_violations-nil s no_group children seen = (λ h. cc, λ h. let q : true ≡ false = h.0 in cc q)
  group_violations-nil s (group wait branches) children seen =
      let members : List Violation = (branches_loop compiles branches [] seen).0 in
      let total : List (Bool × Violation) =
        (ltb 20 (count_members branches), field_invalid (codes "steps.validationGroup.branches"))
        ∷ [] in
      let (split, join) =
        nil_append (report (group_tests s children wait branches)) (members ++ report total) in
      let (split', join') = nil_append members (report total) in
      let table : _ = report-nil (group_tests s children wait branches) in
      let limit : _ = report-nil total in
      let rest : _ = branches_loop-nil branches [] seen in
      (
        λ h.
            let (a, (b, (c, _))) = table.0 (split h).0 in
            let (m, t) = split' (split h).1 in
            let (few, _) = limit.0 t in
            let (all, distinct, fresh) = rest.0 m in
            ((a, ground arith, (ground arith, ground arith), ground arith, distinct, all), fresh),
        λ h.
            let ((a, b, (low, high), few, distinct, all), fresh) = h in
            join (
              table.1 (a, (ground arith, (ground arith, tt))),
              join' (rest.1 (all, distinct, fresh), limit.1 (ground arith, tt)),
            ),
      )

  pub group_violations-seen :
      (s : FlowFragmentStep) (g : ValidationGroup) (children : Steps) (seen : List Text)
      → (group_violations compiles s g children seen).1 ≡ after seen (group_ids g)
  unfolding group_violations
  group_violations-seen s no_group children seen = refl
  group_violations-seen s (group wait branches) children seen = branches_loop-seen branches [] seen
