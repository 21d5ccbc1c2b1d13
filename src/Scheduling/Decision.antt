-- ===== src/Scheduling/Decision.antt =====
-- application/scheduling/decision.go: the pure decision of what an instance does next. The Go
-- maps are association lists; `stopIndex` is `none` for -1, and the unset `SkipCause` and
-- `InstanceStatus` are the empty strings, as in the source.
pub mod Shape
pub mod Advance
pub mod Progress
pub mod Liveness
pub mod Order
use healix_core.Prelude.{
  Text, ℕ, suc, Bool, true, false, not, ◌&&◌, ◌||◌, List, [], ◌∷◌, Option, none, some, length,
  text_eq, is_empty, drop, ◌==◌, if◌then◌else◌, Result, ok, err, require, reject, ◌>>=◌, ◌>>◌,
}
use healix_core.Execution.Status.{
  EntryStatus, InstanceStatus, is_terminal_entry_status, validate_entry_status_transition,
  is_pending, is_running, is_skipped, is_failed,
}
use healix_core.Execution.Snapshot.{
  FailurePolicy, stop_on_failure, Entry, PlanSnapshot, InstanceSnapshot,
}

pub data SkipCause : Type 0 where
  no_cause prior_failure prior_cancellation prior_abort : SkipCause
  other : Text → SkipCause

pub record EntryState : Type 0 where
  pub entry_id : Text
  pub status : EntryStatus
  pub skip_cause : SkipCause

pub record ExecutionTransition : Type 0 where
  pub entry_id : Text
  pub from : EntryStatus
  pub to : EntryStatus
  pub cause : SkipCause

pub record Decision : Type 0 where
  pub next_entry_id : Text
  pub transitions : List ExecutionTransition
  pub final_status : Option InstanceStatus

pub data DecideError : Type 0 where
  entry_states_invalid status_transition_invalid : DecideError

abbrev pub no_decision : Decision
no_decision = record { next_entry_id = []; transitions = []; final_status = none }

-- `cause == ""`
abbrev pub is_no_cause : SkipCause → Bool
is_no_cause SkipCause.no_cause = true
is_no_cause (SkipCause.other t) = is_empty t
is_no_cause _ = false

-- `left == right` on the strings
abbrev pub same_cause : SkipCause → SkipCause → Bool
same_cause SkipCause.no_cause c = is_no_cause c
same_cause SkipCause.prior_failure SkipCause.prior_failure = true
same_cause SkipCause.prior_cancellation SkipCause.prior_cancellation = true
same_cause SkipCause.prior_abort SkipCause.prior_abort = true
same_cause (SkipCause.other t) SkipCause.no_cause = is_empty t
same_cause (SkipCause.other t) (SkipCause.other u) = text_eq t u
same_cause _ _ = false

unfoldable pub is_known_status : EntryStatus → Bool
is_known_status status = is_pending status || is_running status || is_terminal_entry_status status

abbrev pub unset_status : InstanceStatus
unset_status = InstanceStatus.other []

unfoldable pub stop_for : EntryStatus → FailurePolicy → SkipCause × InstanceStatus
stop_for EntryStatus.failed stop_on_failure = (SkipCause.prior_failure, InstanceStatus.failed)
stop_for EntryStatus.canceled policy = (SkipCause.prior_cancellation, InstanceStatus.canceled)
stop_for EntryStatus.aborted policy = (SkipCause.prior_abort, InstanceStatus.aborted)
stop_for _ policy = (SkipCause.no_cause, unset_status)

-- The variables of the loop in `validateSerialShape`; `index` is the `i` of the next round.
pub record Scan : Type 0 where
  pub index : ℕ
  pub frontier_seen : Bool
  pub stop_index : Option ℕ
  pub expected_cause : SkipCause
  pub final_status : InstanceStatus

abbrev pub first_scan : Scan
first_scan = record {
  index = 0;
  frontier_seen = false;
  stop_index = none;
  expected_cause = SkipCause.no_cause;
  final_status = unset_status;
}

abbrev advance_scan : Scan → Scan
advance_scan s = record s { index = suc s.index }

-- `state.SkipCause` is set exactly on a skipped entry
abbrev cause_matches : EntryState → Bool
cause_matches st =
    if is_skipped st.status then not (is_no_cause st.skip_cause) else is_no_cause st.skip_cause

-- A round after the stop index is known.
scan_stopped : Scan → EntryState → Result DecideError Scan
scan_stopped s st = if is_pending st.status then ok (advance_scan s) else do
  require (is_skipped st.status) entry_states_invalid
  require (same_cause st.skip_cause s.expected_cause) entry_states_invalid
  ok (advance_scan s)

-- `expectedCause, finalStatus = stopFor(...)`, and the index if there is a cause
note_stop : Scan → SkipCause × InstanceStatus → Scan
note_stop s (cause, final) = record s {
  index = suc s.index;
  stop_index = if is_no_cause cause then s.stop_index else some s.index;
  expected_cause = cause;
  final_status = final;
}

-- A round before it is.
scan_open : FailurePolicy → Scan → EntryState → Result DecideError Scan
unfolding note_stop
scan_open policy s st =
    if is_skipped st.status
    then err entry_states_invalid
    else if is_pending st.status
    then ok (record s { index = suc s.index; frontier_seen = true })
    else if is_running st.status
    then (do
      reject s.frontier_seen entry_states_invalid
      ok (record s { index = suc s.index; frontier_seen = true }))
    else do
      reject s.frontier_seen entry_states_invalid
      ok (note_stop s (stop_for st.status policy))

-- The body of the loop.
unfoldable pub scan_entry : FailurePolicy → Scan → EntryState → Result DecideError Scan
unfolding scan_stopped scan_open
scan_entry policy s st = do
  require (is_known_status st.status) entry_states_invalid
  require (cause_matches st) entry_states_invalid
  elim s.stop_index [ none ↦ scan_open policy s st | some _ ↦ scan_stopped s st ]

unfoldable pub scan_entries : FailurePolicy → Scan → List EntryState → Result DecideError Scan
scan_entries policy s [] = ok s
scan_entries policy s (st ∷ rest) = scan_entry policy s st >>= λ s'. scan_entries policy s' rest

unfoldable pub validate_serial_shape :
    List EntryState → FailurePolicy → Result DecideError (Option ℕ × SkipCause × InstanceStatus)
unfolding scan_entries
validate_serial_shape states policy = scan_entries policy first_scan states >>= λ s.
    ok (s.stop_index, s.expected_cause, s.final_status)

-- `byID[id]`
unfoldable pub find_state : Text → List EntryState → Option EntryState
find_state id [] = none
find_state id (st ∷ rest) = if text_eq st.entry_id id then some st else find_state id rest

-- `delete(byID, id)`; a key stands in the map once
unfoldable pub delete_state : Text → List EntryState → List EntryState
delete_state id [] = []
delete_state id (st ∷ rest) = if text_eq st.entry_id id then rest else st ∷ delete_state id rest

-- The loop that fills `byID` and refuses a repeated entry.
unfoldable pub index_states :
    List EntryState → List EntryState → Result DecideError (List EntryState)
unfolding find_state
index_states by_id [] = ok by_id
index_states by_id (st ∷ rest) = elim (find_state st.entry_id by_id) [
  | none ↦ index_states (st ∷ by_id) rest
  | some _ ↦ err entry_states_invalid
]

-- The loop over the plan's entries: their states in plan order, and what is left of `byID`.
unfoldable pub order_states :
    List Entry → List EntryState → Result DecideError (List EntryState × List EntryState)
unfolding find_state delete_state
order_states [] by_id = ok ([], by_id)
order_states (e ∷ entries) by_id = elim (find_state e.id by_id) [
  | none ↦ err entry_states_invalid
  | some st ↦
      order_states entries (delete_state e.id by_id) >>= λ (ordered, left). ok (st ∷ ordered, left)
]

-- `err` of the transition check, under the code that the caller gives it
abbrev checked_transition : DecideError → ExecutionTransition → Result DecideError (Unit {0})
checked_transition e t = elim (validate_entry_status_transition t.from t.to) [
  | ok _ ↦ ok tt
  | err _ ↦ err e
]

abbrev pub skip_transition : Entry → SkipCause → ExecutionTransition
skip_transition e cause = record {
  entry_id = e.id;
  from = EntryStatus.pending;
  to = EntryStatus.skipped;
  cause = cause;
}

abbrev pub start_transition : Entry → ExecutionTransition
start_transition e = record {
  entry_id = e.id;
  from = EntryStatus.pending;
  to = EntryStatus.running;
  cause = SkipCause.no_cause;
}

-- The loop of `stopAfter` from an index on: `entries[i:]` and `states[i:]`.
unfoldable pub skip_pending :
    SkipCause → List Entry → List EntryState → Result DecideError (List ExecutionTransition)
skip_pending cause [] states = ok []
skip_pending cause (e ∷ entries) [] = ok []
skip_pending cause (e ∷ entries) (st ∷ states) =
    let rest = skip_pending cause entries states in
    if is_pending st.status
    then (do
      checked_transition entry_states_invalid (skip_transition e cause)
      ts ← rest
      ok (skip_transition e cause ∷ ts))
    else rest

unfoldable pub stop_after :
    List Entry → List EntryState → ℕ → SkipCause → InstanceStatus → Result DecideError Decision
unfolding skip_pending
stop_after entries states index cause status =
    skip_pending cause (drop (suc index) entries) (drop (suc index) states) >>= λ ts.
    ok (record { next_entry_id = []; transitions = ts; final_status = some status })

-- The last loop of `DecideAdvance`, over the entries in order.
unfoldable pub next_entry : Bool → List Entry → List EntryState → Result DecideError Decision
next_entry failed (e ∷ entries) (st ∷ states) =
    let rest = next_entry (failed || is_failed st.status) entries states in
    if is_running st.status
    then ok no_decision
    else if is_pending st.status
    then (do
      checked_transition DecideError.status_transition_invalid (start_transition e)
      ok (record {
        next_entry_id = e.id;
        transitions = start_transition e ∷ [];
        final_status = none;
      }))
    else rest
next_entry failed _ _ = ok (record {
  next_entry_id = [];
  transitions = [];
  final_status = some (if failed then InstanceStatus.failed else InstanceStatus.succeeded);
})

-- `DecideAdvance` once the states stand in plan order.
unfoldable pub advance_ordered :
    FailurePolicy → List Entry → List EntryState → Result DecideError Decision
unfolding validate_serial_shape stop_after next_entry
advance_ordered policy entries ordered =
    validate_serial_shape ordered policy >>= λ (stop_index, cause, final). elim stop_index [
      | some index ↦ stop_after entries ordered index cause final
      | none ↦ next_entry false entries ordered
    ]

unfoldable pub decide_advance : InstanceSnapshot → List EntryState → Result DecideError Decision
decide_advance snapshot states = do
  let entries = snapshot.plan.entries
  reject (is_empty snapshot.digest) entry_states_invalid
  require (length states == length entries) entry_states_invalid
  by_id ← index_states [] states
  (ordered, left) ← order_states entries by_id
  require (length left == 0) entry_states_invalid
  advance_ordered snapshot.plan.failure_policy entries ordered
