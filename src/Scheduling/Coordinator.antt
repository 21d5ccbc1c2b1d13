-- ===== src/Scheduling/Coordinator.antt =====
-- application/scheduling/coordinator.go: `ProcessNext` over the ports of a host with states `H`.
-- A port that is nil is `none`. The errors are the list of what is joined.
pub mod Outcome
use healix_core.Prelude.{
  Text, ℤ, Bool, true, false, not, ◌&&◌, ◌||◌, List, [], ◌∷◌, ◌++◌, Option, none, some, text_eq,
  is_empty, if◌then◌else◌, Result, ok, err,
}
use healix_core.Execution.Coordinate.{is_invalid_id}
use healix_core.Execution.Snapshot.{InstanceSnapshot, WorkerFence, validate_fence}
use healix_core.Execution.Status.{InstanceStatus}
use healix_core.Scheduling.Decision.{
  EntryState, ExecutionTransition, Decision, DecideError, decide_advance,
}
use healix_core.Scheduling.Port.{
  SchedulingError, dependency_required, claim_invalid, stale_worker_fence, undecided, classify,
  Answer, answers, fails, Call,
}

pub record Claim : Type 0 where
  pub snapshot : InstanceSnapshot
  pub fence : WorkerFence

pub record ApplyDecisionResult : Type 0 where
  pub fence : WorkerFence
  pub applied : Bool

pub record ClaimSource (H : Type 0) : Type 0 where
  pub claim_next : Text → ℤ → Call H (Option Claim)
  pub release : Claim → Call H (Unit {0})

pub record Coordinator (H : Type 0) : Type 0 where
  pub claims : Option (ClaimSource H)
  pub states : Option (Claim → Call H (List EntryState))
  pub writer : Option (Claim → Decision → ℤ → Call H ApplyDecisionResult)

abbrev pub same_fence : WorkerFence → WorkerFence → Bool
same_fence a b = text_eq a.instance_id b.instance_id && text_eq a.claim_token b.claim_token

abbrev is_refused : {E : Type 0} {A : Type 0} → Result E A → Bool
is_refused (ok _) = false
is_refused (err _) = true

unfoldable pub is_invalid_claim : Claim → Bool
is_invalid_claim c =
    is_refused (validate_fence c.fence)
    || not (text_eq c.fence.instance_id c.snapshot.instance_id)
    || is_empty c.snapshot.digest

abbrev pub is_nil {ℓ} : {A : Type ℓ} → List A → Bool
is_nil [] = true
is_nil (_ ∷ _) = false

abbrev pub is_none {ℓ} : {A : Type ℓ} → Option A → Bool
is_none none = true
is_none (some _) = false

-- A decision that asks for nothing is not written.
unfoldable pub is_idle : Decision → Bool
is_idle d = is_invalid_id d.next_entry_id && is_nil d.transitions && is_none d.final_status

unfoldable pub accept_write : WorkerFence → ApplyDecisionResult → List SchedulingError
accept_write fence r =
    if not r.applied || not (same_fence r.fence fence) then stale_worker_fence ∷ [] else []

module _ {H : Type 0} where
  unfoldable pub write_decision :
      (Claim → Decision → ℤ → Call H ApplyDecisionResult)
      → Claim
      → ℤ
      → Decision
      → H
      → List SchedulingError × H
  write_decision apply_decision c at d h =
      if is_idle d then ([], h) else elim (apply_decision c d at h) [
        | fails e h' ↦ (classify e ∷ [], h')
        | answers r h' ↦ (accept_write c.fence r, h')
      ]

  -- `ProcessNext` between the claim and its release.
  unfoldable pub process_claim :
      (Claim → Call H (List EntryState))
      → (Claim → Decision → ℤ → Call H ApplyDecisionResult)
      → Claim
      → ℤ
      → H
      → List SchedulingError × H
  process_claim load_entry_states apply_decision c at h =
      if is_invalid_claim c then (claim_invalid ∷ [], h) else elim (load_entry_states c h) [
        | fails e h' ↦ (classify e ∷ [], h')
        | answers states h' ↦ elim (decide_advance c.snapshot states) [
          | err e ↦ (undecided e ∷ [], h')
          | ok d ↦ write_decision apply_decision c at d h'
        ]
      ]

  -- The deferred release, whose failure is joined to the errors so far.
  unfoldable pub release_claim :
      ClaimSource H → Claim → List SchedulingError × H → List SchedulingError × H
  release_claim source c (errors, h) = elim (source.release c h) [
    | answers _ h' ↦ (errors, h')
    | fails e h' ↦ (errors ++ classify e ∷ [], h')
  ]

  abbrev pub claimed : List SchedulingError × H → Bool × List SchedulingError × H
  claimed (errors, h) = (true, errors, h)

  -- `ProcessNext` with its ports: whether a claim was taken, the errors, and the host.
  unfoldable pub process_with :
      Option (ClaimSource H)
      → Option (Claim → Call H (List EntryState))
      → Option (Claim → Decision → ℤ → Call H ApplyDecisionResult)
      → Text
      → ℤ
      → H
      → Bool × List SchedulingError × H
  process_with (some source) (some load_entry_states) (some apply_decision) worker_id at h =
      elim (source.claim_next worker_id at h) [
        | fails e h' ↦ (false, classify e ∷ [], h')
        | answers none h' ↦ (false, [], h')
        | answers (some c) h' ↦
            claimed
              (release_claim source c (process_claim load_entry_states apply_decision c at h'))
      ]
  process_with _ _ _ worker_id at h = (false, dependency_required ∷ [], h)

  unfoldable pub process_next : Coordinator H → Text → ℤ → H → Bool × List SchedulingError × H
  unfolding process_with
  process_next coordinator worker_id at h =
      process_with coordinator.claims coordinator.states coordinator.writer worker_id at h
