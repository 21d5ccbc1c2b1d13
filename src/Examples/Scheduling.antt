-- ===== src/Examples/Scheduling.antt =====
-- A run of three entries under application/scheduling: a decision, a stop, and the theorems there.
use healix_core.Prelude.{
  Text, ℕ, ◌*◌, ◌≤◌, ◌≡◌, refl, ◌↔◌, ◌⊎◌, List, [], ◌∷◌, none, some, ok, err, codes, length, arith,
  is_empty, false, text_eq,
}
use healix_core.Execution.Status.{
  EntryStatus, InstanceStatus, is_terminal_entry_status, can_transition_to,
  validate_entry_status_transition,
}
use healix_core.Execution.Snapshot.{stop_on_failure, Entry, InstanceSnapshot}
use healix_core.Scheduling.Decision.{
  SkipCause, EntryState, Decision, entry_states_invalid, validate_serial_shape, advance_ordered,
  decide_advance, skip_transition, start_transition, unset_status, stop_for, is_known_status,
  index_states, order_states, scan_entry,
}
use healix_core.Scheduling.Decision.Shape.{Frontier, Stopped, validate_serial_shape_iff}
use healix_core.Scheduling.Decision.Advance.{Advances, advance_ordered-Advances}
use healix_core.Scheduling.Decision.Advance
use healix_core.Scheduling.Decision.Progress.{Step, decide, Runs, begin, next}
use healix_core.Scheduling.Decision.Liveness.{running_count, IsOver, run_ends}
use healix_core.Scheduling.Decision.Order.{IsOrdering, decide_advance_iff}

abbrev entry : Text → ℕ → Entry
entry id n = record {
  id = id;
  test_task_item_id = codes "item";
  sequence_number = n;
  flow_fragment_id = codes "flow";
  workflow_version_id = codes "v1";
}

abbrev state : Text → EntryStatus → SkipCause → EntryState
state id status cause = record { entry_id = id; status = status; skip_cause = cause }

abbrev plan_entries : List Entry
plan_entries = entry (codes "a") 1 ∷ entry (codes "b") 2 ∷ entry (codes "c") 3 ∷ []

abbrev pub waiting_states : List EntryState
waiting_states =
    state (codes "a") EntryStatus.pending SkipCause.no_cause
    ∷ state (codes "b") EntryStatus.pending SkipCause.no_cause
    ∷ state (codes "c") EntryStatus.pending SkipCause.no_cause
    ∷ []

abbrev started_states : List EntryState
started_states =
    state (codes "a") EntryStatus.running SkipCause.no_cause
    ∷ state (codes "b") EntryStatus.pending SkipCause.no_cause
    ∷ state (codes "c") EntryStatus.pending SkipCause.no_cause
    ∷ []

abbrev failed_states : List EntryState
failed_states =
    state (codes "a") EntryStatus.succeeded SkipCause.no_cause
    ∷ state (codes "b") EntryStatus.failed SkipCause.no_cause
    ∷ state (codes "c") EntryStatus.pending SkipCause.no_cause
    ∷ []

-- The same states as a host may hand them over.
abbrev pub shuffled_states : List EntryState
shuffled_states =
    state (codes "c") EntryStatus.pending SkipCause.no_cause
    ∷ state (codes "a") EntryStatus.succeeded SkipCause.no_cause
    ∷ state (codes "b") EntryStatus.failed SkipCause.no_cause
    ∷ []

abbrev pub snapshot : InstanceSnapshot
snapshot = record {
  instance_id = codes "run";
  execution_flow_id = codes "task";
  test_task_version_id = codes "v1";
  schema_version = 2;
  digest = codes "sha256:0";
  plan = record {
    instance_id = codes "run";
    failure_policy = stop_on_failure;
    entries = plan_entries;
  };
}

abbrev stop_decision : Decision
stop_decision = record {
  next_entry_id = [];
  transitions = skip_transition (entry (codes "c") 3) SkipCause.prior_failure ∷ [];
  final_status = some InstanceStatus.failed;
}

failed_entry_stops : decide_advance snapshot shuffled_states ≡ ok stop_decision
unfolding decide_advance index_states order_states advance_ordered is_terminal_entry_status
    validate_entry_status_transition text_eq stop_for is_known_status scan_entry
failed_entry_stops = refl

skipped_first_refused :
    validate_serial_shape
      (state (codes "a") EntryStatus.skipped SkipCause.prior_abort ∷ [])
      stop_on_failure
    ≡ err entry_states_invalid
unfolding validate_serial_shape is_terminal_entry_status is_known_status stop_for scan_entry
skipped_first_refused = refl

failed_states_accepted :
    validate_serial_shape failed_states stop_on_failure
    ≡ ok (some 1, SkipCause.prior_failure, InstanceStatus.failed)
unfolding validate_serial_shape is_terminal_entry_status is_known_status stop_for scan_entry
failed_states_accepted = refl

validate_serial_shape_iff_example :
    ((validate_serial_shape failed_states stop_on_failure
        ≡ ok (none, SkipCause.no_cause, unset_status))
      ↔ Frontier stop_on_failure failed_states)
    × ((k : ℕ) (c : SkipCause) (f : InstanceStatus)
        → (validate_serial_shape failed_states stop_on_failure ≡ ok (some k, c, f))
          ↔ Stopped stop_on_failure c f k failed_states)
validate_serial_shape_iff_example = validate_serial_shape_iff stop_on_failure failed_states

advance_ordered-Advances_example :
    (d : Decision) × (advance_ordered stop_on_failure plan_entries failed_states ≡ ok d)
    × Advances stop_on_failure plan_entries failed_states d
advance_ordered-Advances_example =
    advance_ordered-Advances stop_on_failure plan_entries failed_states refl failed_states_accepted

decide_advance_iff_example : (decide_advance snapshot shuffled_states ≡ ok stop_decision) ↔ (
    (is_empty snapshot.digest ≡ false)
    × ((ordered : List EntryState) × IsOrdering snapshot shuffled_states ordered
        × (advance_ordered stop_on_failure plan_entries ordered ≡ ok stop_decision)))
decide_advance_iff_example = decide_advance_iff snapshot shuffled_states stop_decision

abbrev start_decision : Decision
start_decision = record {
  next_entry_id = codes "a";
  transitions = start_transition (entry (codes "a") 1) ∷ [];
  final_status = none;
}

starts_first : advance_ordered stop_on_failure plan_entries waiting_states ≡ ok start_decision
unfolding advance_ordered is_terminal_entry_status validate_entry_status_transition is_known_status
    stop_for scan_entry
starts_first = refl

one_step : Runs stop_on_failure plan_entries waiting_states 1 started_states
unfolding can_transition_to
one_step = next begin (decide starts_first (λ e. cc) (Advance.write refl refl refl Advance.done))

run_ends_example :
    (1 ≤ 2 * length plan_entries)
    × (running_count started_states ≤ 1)
    × (((t : List EntryState) × Step stop_on_failure plan_entries started_states t)
        ⊎ IsOver stop_on_failure plan_entries started_states)
run_ends_example =
    run_ends stop_on_failure plan_entries waiting_states started_states 1
      ((λ e. ground arith, (λ e. ground arith, tt)), ((λ e. ground arith, tt), (tt, tt))) refl
      ((refl, refl), ((refl, refl), ((refl, refl), tt))) one_step
