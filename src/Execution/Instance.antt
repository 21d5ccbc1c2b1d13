-- ===== src/Execution/Instance.antt =====
-- domain/execution/instance.go: the instance, its lifecycle shape and its transitions. Times and
-- the queue position are Go's `int64` and `int`; the code only compares and copies them.
pub mod Lifecycle
use healix_core.Prelude.{
  Text, ℤ, pos, lebℤ, ltbℤ, is_zero, ℕ, Bool, true, false, not, ◌&&◌, ◌||◌, [], ◌==◌, if◌then◌else◌,
  text_eq, is_empty, is_blank, length, take, codes, Result, ok, err, require, reject, ◌>>=◌, ◌>>◌,
}
use healix_core.Execution.Status.{InstanceStatus}
use healix_core.Execution.Coordinate.{is_invalid_id}
use healix_core.Execution.Snapshot.{InstanceSnapshot}

pub record Instance : Type 0 where
  pub id : Text
  pub execution_flow_id : Text
  pub test_task_version_id : Text
  pub snapshot_schema_version : ℕ
  pub snapshot_digest : Text
  pub status : InstanceStatus
  pub environment_id : Text
  pub queue_position : ℤ
  pub created_at : ℤ
  pub queued_at : ℤ
  pub started_at : ℤ
  pub finished_at : ℤ
  pub sealed_snapshot_digest : Text

pub data InstanceError : Type 0 where
  instance_status_transition_invalid create_instance_snapshot_invalid : InstanceError
  identity_mismatch not_newly_queued shape_times_invalid status_unknown : InstanceError
  shape_status_mismatch identity_incomplete snapshot_identity_invalid : InstanceError
  not_monotonic persisted_identity_mismatch persisted_lifecycle_invalid : InstanceError
  source_lifecycle_invalid result_lifecycle_invalid : InstanceError

abbrev pub is_queued : InstanceStatus → Bool
is_queued InstanceStatus.queued = true
is_queued _ = false

abbrev pub is_running : InstanceStatus → Bool
is_running InstanceStatus.running = true
is_running _ = false

abbrev is_canceled : InstanceStatus → Bool
is_canceled InstanceStatus.canceled = true
is_canceled _ = false

abbrev is_settled : InstanceStatus → Bool
is_settled InstanceStatus.succeeded = true
is_settled InstanceStatus.failed = true
is_settled InstanceStatus.aborted = true
is_settled _ = false

unfoldable pub validate_instance_status_transition :
    InstanceStatus → InstanceStatus → Result InstanceError (Unit {0})
validate_instance_status_transition from to =
    require
      ((is_queued from && (is_running to || is_canceled to))
        || (is_running from && (is_settled to || is_canceled to)))
      instance_status_transition_invalid

-- The `switch` of `validateInstanceLifecycleShape`.
shape_valid : Instance → InstanceStatus → Result InstanceError Bool
shape_valid i InstanceStatus.queued = ok (is_zero i.started_at && is_zero i.finished_at)
shape_valid i InstanceStatus.running = ok (lebℤ i.queued_at i.started_at && is_zero i.finished_at)
shape_valid i InstanceStatus.canceled = ok (
    lebℤ i.queued_at i.finished_at
    && (is_zero i.started_at || (lebℤ i.queued_at i.started_at && lebℤ i.started_at i.finished_at)))
shape_valid i (InstanceStatus.other _) = err status_unknown
shape_valid i _ = ok (lebℤ i.queued_at i.started_at && lebℤ i.started_at i.finished_at)

unfoldable pub validate_instance_lifecycle_shape : Instance → Result InstanceError (Unit {0})
unfolding shape_valid
validate_instance_lifecycle_shape i = do
  reject
      (lebℤ i.created_at (pos 0) || ltbℤ i.queued_at i.created_at || ltbℤ i.queue_position (pos 0))
      shape_times_invalid
  valid ← shape_valid i i.status
  require valid shape_status_mismatch

unfoldable pub is_supported_instance_snapshot_schema : ℕ → Bool
is_supported_instance_snapshot_schema version = version == 1 || version == 2

abbrev pub sha256_digest_length : ℕ
sha256_digest_length = 71

-- The seal that `ValidateInstance` and `Transition` check alike.
unfoldable pub snapshot_identity_valid : Instance → Bool
snapshot_identity_valid i =
    is_supported_instance_snapshot_schema i.snapshot_schema_version
    && length i.snapshot_digest == sha256_digest_length
    && text_eq (take 7 i.snapshot_digest) (codes "sha256:")
    && text_eq i.snapshot_digest i.sealed_snapshot_digest

-- `snapshot.digest == "" || instance.ID != snapshot.InstanceID() || ...`
identity_differs : Instance → InstanceSnapshot → Bool
identity_differs i s =
    is_empty s.digest
    || not (text_eq i.id s.instance_id)
    || not (text_eq i.execution_flow_id s.execution_flow_id)
    || not (text_eq i.test_task_version_id s.test_task_version_id)

unfoldable pub new_instance : Instance → InstanceSnapshot → Result InstanceError Instance
unfolding identity_differs
new_instance i s = do
  reject (identity_differs i s) identity_mismatch
  reject
      (not (is_queued i.status)
        || lebℤ i.created_at (pos 0)
        || not (lebℤ i.queued_at i.created_at && lebℤ i.created_at i.queued_at)
        || not (is_zero i.started_at)
        || not (is_zero i.finished_at)
        || ltbℤ i.queue_position (pos 0))
      not_newly_queued
  ok (record i {
    snapshot_schema_version = s.schema_version;
    snapshot_digest = s.digest;
    sealed_snapshot_digest = s.digest;
  })

-- `NewInstance`: the uncoded failure becomes the snapshot code
unfoldable pub classified_new_instance : Instance → InstanceSnapshot → Result InstanceError Instance
unfolding new_instance
classified_new_instance i s = elim (new_instance i s) [
  | ok sealed ↦ ok sealed
  | err _ ↦ err create_instance_snapshot_invalid
]

unfoldable pub hydrate_instance : Instance → InstanceSnapshot → Result InstanceError Instance
unfolding identity_differs
hydrate_instance i s = do
  reject
      (identity_differs i s
        || not (i.snapshot_schema_version == s.schema_version)
        || not (text_eq i.snapshot_digest s.digest))
      persisted_identity_mismatch
  reject (is_blank i.test_task_version_id) persisted_lifecycle_invalid
  elim (validate_instance_lifecycle_shape i) [
    | ok _ ↦ ok (record i { sealed_snapshot_digest = s.digest })
    | err _ ↦ err persisted_lifecycle_invalid
  ]

unfoldable pub validate_instance : Instance → Result InstanceError (Unit {0})
validate_instance i = do
  reject
      (is_invalid_id i.id
        || is_blank i.execution_flow_id
        || is_blank i.test_task_version_id
        || is_blank i.environment_id)
      identity_incomplete
  require (snapshot_identity_valid i) snapshot_identity_invalid
  validate_instance_lifecycle_shape i

-- The later of the times that the transition may not precede.
abbrev pub prior_time : Instance → ℤ
prior_time i = if ltbℤ i.queued_at i.started_at then i.started_at else i.queued_at

abbrev pub moved : Instance → InstanceStatus → ℤ → Instance
moved i to at =
    if is_running to
    then record i { status = to; started_at = at }
    else record i { status = to; finished_at = at }

unfoldable pub transition : Instance → InstanceStatus → ℤ → Result InstanceError Instance
transition i to at = do
  require (snapshot_identity_valid i && not (is_blank i.test_task_version_id))
      snapshot_identity_invalid
  elim (validate_instance_lifecycle_shape i) [ ok _ ↦ ok tt | err _ ↦ err source_lifecycle_invalid ]
  validate_instance_status_transition i.status to
  reject (ltbℤ at (prior_time i)) not_monotonic
  elim (validate_instance_lifecycle_shape (moved i to at)) [
    | ok _ ↦ ok (moved i to at)
    | err _ ↦ err result_lifecycle_invalid
  ]
