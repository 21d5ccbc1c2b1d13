-- ===== src/Scheduling/Command/Reorder.antt =====
-- When the reordering of a queue is answered: the members of the command and of the result.
use healix_core.Prelude.{
  Text, ◌≡◌, refl, ◌≢◌, ◌↔◌, ap, true, false, List, [], ◌∷◌, some, inl, inr, subst, ok, All, arith,
  Result-cases, is_blank, length, text_eq_iff,
}
use healix_core.Fault.{contains_iff_absent}
use healix_core.Scheduling.Port.{Answer-cases, answers, Call}
use healix_core.Scheduling.Command.{
  representable_revision, ReorderQueueCommand, ReorderQueueResult, validate_reorder, members_loop,
  same_members, validate_reorder_result, reorder_queue,
}
use healix_core.Scheduling.Command.Answers.{Succeeds, Succeeds-iff}

-- No text stands twice.
abbrev pub Different : List Text → Type 0
Different [] = Unit {0}
Different (id ∷ ids) = All (λ other. id ≢ other) ids × Different ids

abbrev Fresh : List Text → List Text → Type 0
Fresh seen ids = All (λ id. All (λ k. k ≢ id) seen) ids

Fresh-cons_iff :
    (id : Text) (seen ids : List Text)
    → Fresh (id ∷ seen) ids ↔ (All (λ other. id ≢ other) ids × Fresh seen ids)
Fresh-cons_iff id seen [] = (λ _. (tt, tt), λ _. tt)
Fresh-cons_iff id seen (other ∷ ids) =
    let ih = Fresh-cons_iff id seen ids in
    (
      λ (own, rest). ((own.0, (ih.0 rest).0), (own.1, (ih.0 rest).1)),
      λ (out, kept). ((out.0, kept.0), ih.1 (out.1, kept.1)),
    )

Fresh-nil : (ids : List Text) → Fresh [] ids
Fresh-nil [] = tt
Fresh-nil (_ ∷ ids) = (tt, Fresh-nil ids)

members_loop_iff :
    (seen ids : List Text)
    → (members_loop seen ids ≡ ok tt)
      ↔ (All (λ id. is_blank id ≡ false) ids × Fresh seen ids × Different ids)
unfolding members_loop
members_loop_iff seen [] = (λ _. (tt, tt, tt), λ _. refl)
members_loop_iff seen (id ∷ ids) = ground (
  arith,
  members_loop_iff (id ∷ seen) ids,
  Fresh-cons_iff id seen ids,
  contains_iff_absent id seen,
)

-- What the reordering of a queue demands: identifiers, a revision that has a successor, and
-- members that are not blank and stand once.
abbrev pub IsReorderCommand : ReorderQueueCommand → Type 0
IsReorderCommand c =
    (is_blank c.command_id ≡ false)
    × (is_blank c.scope_id ≡ false)
    × (representable_revision c.expected_revision ≡ true)
    × (c.instance_ids ≢ [])
    × All (λ id. is_blank id ≡ false) c.instance_ids
    × Different c.instance_ids

validate_reorder_iff : (c : ReorderQueueCommand) → (validate_reorder c ≡ ok tt) ↔ IsReorderCommand c
unfolding validate_reorder
validate_reorder_iff c =
    ground (arith, members_loop_iff [] c.instance_ids, Fresh-nil c.instance_ids)

same_members_iff : (left right : List Text) → (same_members left right ≡ true) ↔ (left ≡ right)
unfolding same_members
same_members_iff [] [] = (λ _. refl, λ _. refl)
same_members_iff [] (b ∷ right) = (λ h. cc, λ h. cc)
same_members_iff (a ∷ left) [] = (λ h. cc, λ h. cc)
same_members_iff (a ∷ left) (b ∷ right) =
    ground (arith, text_eq_iff a b, same_members_iff left right)

-- The result is of the command: its scope, the next revision, and its members in their order.
abbrev pub IsReordered : ReorderQueueCommand → ReorderQueueResult → Type 0
IsReordered c r =
    (r.scope_id ≡ c.scope_id)
    × Succeeds c.expected_revision r.revision
    × (r.instance_ids ≡ c.instance_ids)

validate_reorder_result_iff :
    (c : ReorderQueueCommand) (r : ReorderQueueResult)
    → representable_revision c.expected_revision ≡ true
    → (validate_reorder_result c r ≡ ok tt) ↔ IsReordered c r
unfolding validate_reorder_result
validate_reorder_result_iff c r fits = ground (
  arith,
  text_eq_iff r.scope_id c.scope_id,
  Succeeds-iff c.expected_revision r.revision fits,
  same_members_iff r.instance_ids c.instance_ids,
  λ (e : r.instance_ids ≡ c.instance_ids). ap length e,
)

module _ {H : Type 0} (store : ReorderQueueCommand → Call H ReorderQueueResult) where
  answered_of :
      (c : ReorderQueueCommand) (r r' : ReorderQueueResult) (h h' last : H)
      → validate_reorder c ≡ ok tt
      → validate_reorder_result c r' ≡ ok tt
      → store c h ≡ answers r' h'
      → (r' ≡ r) × (h' ≡ last)
      → IsReorderCommand c × (store c h ≡ answers r last) × IsReordered c r
  answered_of c r r' h h' last v w a (same, end) =
      let valid = (validate_reorder_iff c).0 v in
      (valid, cc, subst (IsReordered c) same ((validate_reorder_result_iff c r' (valid.2)).0 w))

  -- A queue is reordered with a result exactly if the command is well formed, the store answered
  -- that result, and the result is of the command's scope, at the revision after the expected
  -- one, with the command's members in the command's order.
  pub reorder_queue_iff :
      (c : ReorderQueueCommand) (r : ReorderQueueResult) (h last : H)
      → (reorder_queue (some store) c h ≡ (ok r, last))
        ↔ (IsReorderCommand c × (store c h ≡ answers r last) × IsReordered c r)
  unfolding reorder_queue
  reorder_queue_iff c r h last = (
    λ e. elim (Result-cases (validate_reorder c)) [
      | inr (f, v) ↦ ground (arith, v, e)
      | inl (_, v) ↦ elim (Answer-cases (store c h)) [
        | inr (f, h', a) ↦ ground (arith, v, a, e)
        | inl (r', h', a) ↦ elim (Result-cases (validate_reorder_result c r')) [
          | inr (f, w) ↦ ground (arith, v, a, w, e)
          | inl (_, w) ↦ answered_of c r r' h h' last v w a (ground (arith, v, a, w, e))
        ]
      ]
    ],
    λ (valid, kept, result). ground (
      arith,
      kept,
      (validate_reorder_iff c).1 valid,
      (validate_reorder_result_iff c r (valid.2)).1 result,
    ),
  )
