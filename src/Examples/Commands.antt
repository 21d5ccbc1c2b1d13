-- ===== src/Examples/Commands.antt =====
-- A worker's turn and the commands of application/scheduling, over a host that counts its calls.
use healix_core.Prelude.{
  Text, ℕ, ◌+◌, ℤ, pos, ◌≡◌, refl, ◌↔◌, ◌⊎◌, ◌≢◌, true, List, [], ◌∷◌, none, some, ok, codes,
  is_blank, is_trimmed, text_eq, take, arith,
}
use healix_core.Fault.{contains}
use healix_core.Execution.Coordinate.{is_invalid_id}
use healix_core.Execution.Status.{
  InstanceStatus, is_terminal_entry_status, validate_entry_status_transition,
}
use healix_core.Execution.Snapshot.{WorkerFence, validate_fence}
use healix_core.Execution.Instance.{
  moved, validate_instance, validate_instance_lifecycle_shape, snapshot_identity_valid,
  is_supported_instance_snapshot_schema,
}
use healix_core.Scheduling.Decision.{
  EntryState, Decision, decide_advance, index_states, order_states, advance_ordered, scan_entry,
  is_known_status, stop_for,
}
use healix_core.Scheduling.Port.{answers, Call}
use healix_core.Scheduling.Coordinator.{
  Claim, ClaimSource, ApplyDecisionResult, process_next, process_claim, write_decision,
  release_claim, is_idle, accept_write, is_invalid_claim,
}
use healix_core.Scheduling.Coordinator.Outcome.{coordinator, Advanced, process_next_iff}
use healix_core.Scheduling.Command.{
  AbortInstanceCommand, abort_instance, validate_abort, unsignaled, CancelInstanceCommand,
  InstanceCommandResult, InstanceCommandStore, Signaler, answered, cancel_instance, validate_cancel,
  representable_revision, next_int64, validate_instance_result, signal_if_required, settle,
  ReorderQueueCommand, ReorderQueueResult, reorder_queue, validate_reorder, validate_reorder_result,
  members_loop, same_members,
}
use healix_core.Scheduling.Command.Answers.{
  Cancels, Aborts, abort_instance_iff, cancel_instance_iff,
}
use healix_core.Scheduling.Command.Reorder.{IsReorderCommand, IsReordered, reorder_queue_iff}
use healix_core.Scheduling.Digest.{
  cancel_instance_request_digest, reorder_queue_request_digest, finish_digest,
  cancel_instance_request, reorder_queue_request, written, write_digest_string, write_digest_uint64,
  put_big_endian, uint64,
}
use healix_core.Scheduling.Digest.Request.{
  reorder, cancel, request_digest, request_bytes, request_digest_injective,
}
use healix_core.Examples.Instance.{running_instance}
use healix_core.Examples.Scheduling.{snapshot, shuffled_states}

abbrev fence : WorkerFence
fence = record { instance_id = codes "run"; claim_token = codes "token" }

abbrev claim : Claim
claim = record { snapshot = snapshot; fence = fence }

-- The host hands out one claim, and every call counts.
abbrev source : ClaimSource ℕ
source = record {
  claim_next = λ worker_id at h. answers (some claim) (h + 1);
  release = λ c h. answers tt (h + 1);
}

abbrev load_entry_states : Claim → Call ℕ (List EntryState)
load_entry_states c h = answers shuffled_states (h + 1)

abbrev apply_decision : Claim → Decision → ℤ → Call ℕ ApplyDecisionResult
apply_decision c d at h = answers (record { fence = c.fence; applied = true }) (h + 1)

advances :
    process_next (coordinator source load_entry_states apply_decision) (codes "w") (pos 9) 0
    ≡ (true, [], 4)
unfolding process_next process_claim write_decision release_claim is_idle accept_write
    is_invalid_claim validate_fence is_invalid_id is_blank is_trimmed decide_advance index_states
    order_states advance_ordered scan_entry is_known_status is_terminal_entry_status stop_for
    validate_entry_status_transition
advances = refl

process_next_iff_example :
    (process_next (coordinator source load_entry_states apply_decision) (codes "w") (pos 9) 0
      ≡ (true, [], 4))
    ↔ Advanced source load_entry_states apply_decision (codes "w") (pos 9) 0 4
process_next_iff_example =
    process_next_iff source load_entry_states apply_decision (codes "w") (pos 9) 0 4

abbrev cancel_command : CancelInstanceCommand
cancel_command = record {
  command_id = codes "k1";
  instance_id = codes "i1";
  expected_status = InstanceStatus.running;
  expected_revision = pos 3;
  at = pos 9;
}

abbrev cancel_result : InstanceCommandResult
cancel_result = record {
  run = moved running_instance InstanceStatus.canceled (pos 9);
  revision = pos 4;
  was_applied = true;
  signal_required = true;
}

abbrev abort_command : AbortInstanceCommand
abort_command = record {
  command_id = codes "k3";
  instance_id = codes "i1";
  expected_revision = pos 3;
  at = pos 9;
  fence = record { instance_id = codes "i1"; claim_token = codes "token" };
}

abbrev abort_result : InstanceCommandResult
abort_result = record cancel_result { run = moved running_instance InstanceStatus.aborted (pos 9) }

abbrev store : InstanceCommandStore ℕ
store = record {
  cancel = λ c h. answers cancel_result (h + 1);
  abort = λ c h. answers abort_result (h + 1);
}

abbrev signaler : Signaler ℕ
signaler id h = answers tt (h + 1)

cancels :
    cancel_instance (some store) (some signaler) cancel_command 0 ≡ (answered cancel_result, 2)
unfolding cancel_instance validate_cancel representable_revision settle validate_instance_result
    next_int64 validate_instance validate_instance_lifecycle_shape snapshot_identity_valid
    is_supported_instance_snapshot_schema signal_if_required is_invalid_id is_trimmed is_blank
    text_eq
cancels = refl

cancel_instance_iff_example :
    (cancel_instance (some store) (some signaler) cancel_command 0 ≡ (answered cancel_result, 2))
    ↔ Cancels store (some signaler) cancel_command cancel_result 0 2
cancel_instance_iff_example =
    cancel_instance_iff store (some signaler) cancel_command cancel_result 0 2

-- Without a signaler the result comes with an error that asks for another try.
aborts_unsignaled : abort_instance (some store) none abort_command 0 ≡ (unsignaled abort_result, 1)
unfolding abort_instance validate_abort validate_fence representable_revision settle
    validate_instance_result next_int64 validate_instance validate_instance_lifecycle_shape
    snapshot_identity_valid is_supported_instance_snapshot_schema signal_if_required is_invalid_id
    is_trimmed is_blank text_eq
aborts_unsignaled = refl

abort_instance_iff_example :
    (abort_instance (some store) (some signaler) abort_command 0 ≡ (answered abort_result, 2))
    ↔ Aborts store (some signaler) abort_command abort_result 0 2
abort_instance_iff_example = abort_instance_iff store (some signaler) abort_command abort_result 0 2

abbrev reorder_command : ReorderQueueCommand
reorder_command = record {
  command_id = codes "k2";
  scope_id = codes "queue";
  expected_revision = pos 0;
  instance_ids = codes "b" ∷ codes "a" ∷ [];
}

abbrev reorder_result : ReorderQueueResult
reorder_result = record {
  scope_id = codes "queue";
  revision = pos 1;
  instance_ids = codes "b" ∷ codes "a" ∷ [];
  was_applied = true;
}

abbrev reorder_store : ReorderQueueCommand → Call ℕ ReorderQueueResult
reorder_store c h = answers reorder_result (h + 1)

reorder_queue_iff_example :
    (reorder_queue (some reorder_store) reorder_command 0 ≡ (ok reorder_result, 1)) ↔ (
      IsReorderCommand reorder_command
      × (reorder_store reorder_command 0 ≡ answers reorder_result 1)
      × IsReordered reorder_command reorder_result)
reorder_queue_iff_example = reorder_queue_iff reorder_store reorder_command reorder_result 0 1

reorders : reorder_queue (some reorder_store) reorder_command 0 ≡ (ok reorder_result, 1)
unfolding reorder_queue validate_reorder validate_reorder_result members_loop contains
    representable_revision next_int64 same_members is_blank text_eq
reorders = refl

-- A hash that only keeps the first byte has collisions, as any has.
abbrev first_byte : Text → Text
first_byte s = take 1 s

abbrev same_text : Text → Text
same_text s = s

same_text_injective : (a b : Text) → same_text a ≡ same_text b → a ≡ b
same_text_injective a b e = e

one_digest :
    request_digest first_byte same_text same_text_injective (cancel cancel_command)
    ≡ request_digest first_byte same_text same_text_injective (reorder reorder_command)
unfolding cancel_instance_request_digest reorder_queue_request_digest finish_digest
    cancel_instance_request reorder_queue_request written write_digest_string write_digest_uint64
    put_big_endian uint64
one_digest = refl

request_digest_injective_example :
    (cancel cancel_command ≡ reorder reorder_command)
    ⊎ ((request_bytes (cancel cancel_command) ≢ request_bytes (reorder reorder_command))
        × (first_byte (request_bytes (cancel cancel_command))
            ≡ first_byte (request_bytes (reorder reorder_command))))
request_digest_injective_example =
    request_digest_injective first_byte same_text same_text_injective (cancel cancel_command)
      (reorder reorder_command) (omega arith, omega arith, omega arith, omega arith, tt)
      (omega arith, omega arith, omega arith, omega arith, (omega arith, (omega arith, tt)))
      one_digest
