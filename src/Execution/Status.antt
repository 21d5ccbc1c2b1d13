-- ===== src/Execution/Status.antt =====
-- domain/execution/status.go and the status types of domain/execution/instance.go. A status is a
-- Go string: `other` stands for every value that is none of the constants.
use healix_core.Prelude.{Text, Bool, true, false, ◌||◌, ◌&&◌, Result, ok, err}

pub data EntryStatus : Type 0 where
  pending running succeeded failed canceled aborted skipped : EntryStatus
  other : Text → EntryStatus

pub data InstanceStatus : Type 0 where
  queued running succeeded failed canceled aborted : InstanceStatus
  other : Text → InstanceStatus

pub data StatusFault : Type 0 where
  status_transition_invalid instance_status_transition_invalid : StatusFault

unfoldable pub is_terminal_entry_status : EntryStatus → Bool
is_terminal_entry_status EntryStatus.succeeded = true
is_terminal_entry_status EntryStatus.failed = true
is_terminal_entry_status EntryStatus.canceled = true
is_terminal_entry_status EntryStatus.aborted = true
is_terminal_entry_status EntryStatus.skipped = true
is_terminal_entry_status _ = false

-- `from == x` for each constant
abbrev pub is_pending : EntryStatus → Bool
is_pending EntryStatus.pending = true
is_pending _ = false

abbrev pub is_running : EntryStatus → Bool
is_running EntryStatus.running = true
is_running _ = false

abbrev pub is_skipped : EntryStatus → Bool
is_skipped EntryStatus.skipped = true
is_skipped _ = false

abbrev pub is_succeeded : EntryStatus → Bool
is_succeeded EntryStatus.succeeded = true
is_succeeded _ = false

abbrev pub is_failed : EntryStatus → Bool
is_failed EntryStatus.failed = true
is_failed _ = false

abbrev pub is_canceled : EntryStatus → Bool
is_canceled EntryStatus.canceled = true
is_canceled _ = false

abbrev pub is_aborted : EntryStatus → Bool
is_aborted EntryStatus.aborted = true
is_aborted _ = false

abbrev allowed_result : Bool → Result StatusFault (Unit {0})
allowed_result true = ok tt
allowed_result false = err status_transition_invalid

unfoldable pub can_transition_to : EntryStatus → EntryStatus → Result StatusFault (Unit {0})
can_transition_to from to = allowed_result (
    (is_pending from && (is_running to || is_failed to || is_canceled to || is_skipped to))
    || (is_running from && (is_succeeded to || is_failed to || is_canceled to || is_aborted to)))

unfoldable pub validate_entry_status_transition :
    EntryStatus → EntryStatus → Result StatusFault (Unit {0})
unfolding can_transition_to
validate_entry_status_transition from to = can_transition_to from to
