-- ===== src/Scheduling/Digest.antt =====
-- The digests of commands: `writeDigestUint64` and `writeDigestString` of
-- application/scheduling/create_instance_service.go, and the request digests of
-- application/scheduling/instance_command_services.go. `sha256` and `hex` are Go's libraries'.
pub mod Frame
pub mod Request
use healix_core.Prelude.{
  Text, ℕ, suc, zero, ◌+◌, ◌-◌, ◌/◌, ◌%◌, ◌^◌, ℤ, pos, negsuc, List, [], ◌∷◌, ◌++◌, length, codes,
}
use healix_core.Execution.Snapshot.{WorkerFence}
use healix_core.Execution.Status.{InstanceStatus}
use healix_core.Scheduling.Command.{
  CancelInstanceCommand, AbortInstanceCommand, ReorderQueueCommand,
}

-- `binary.BigEndian.PutUint64`, for `width` bytes
unfoldable pub put_big_endian : ℕ → ℕ → Text
put_big_endian zero value = []
put_big_endian (suc width) value = put_big_endian width (value / 256) ++ value % 256 ∷ []

-- `uint64(value)` of an `int64` or an `int`
unfoldable pub uint64 : ℤ → ℕ
uint64 (pos n) = n % 2 ^ 64
uint64 (negsuc n) = 2 ^ 64 - 1 - n % 2 ^ 64

-- What a write appends to the bytes that are hashed.
unfoldable pub write_digest_uint64 : ℕ → Text
write_digest_uint64 value = put_big_endian 8 value

unfoldable pub write_digest_string : Text → Text
write_digest_string value = write_digest_uint64 (uint64 (pos (length value))) ++ value

unfoldable pub status_text : InstanceStatus → Text
status_text InstanceStatus.queued = codes "QUEUED"
status_text InstanceStatus.running = codes "RUNNING"
status_text InstanceStatus.succeeded = codes "SUCCEEDED"
status_text InstanceStatus.failed = codes "FAILED"
status_text InstanceStatus.canceled = codes "CANCELED"
status_text InstanceStatus.aborted = codes "ABORTED"
status_text (InstanceStatus.other text) = text

abbrev pub cancel_instance_request_digest_v1 : Text
cancel_instance_request_digest_v1 = codes "cancel-instance-request-v1"

abbrev pub abort_instance_request_digest_v1 : Text
abort_instance_request_digest_v1 = codes "abort-instance-request-v1"

abbrev pub reorder_queue_request_digest_v1 : Text
reorder_queue_request_digest_v1 = codes "reorder-queue-request-v1"

-- What a hash that has been written to holds.
unfoldable pub written : List Text → Text
written [] = []
written (value ∷ values) = value ++ written values

-- The bytes that each request digest hashes.
unfoldable pub cancel_instance_request : CancelInstanceCommand → Text
cancel_instance_request c = written (
    write_digest_string cancel_instance_request_digest_v1
    ∷ write_digest_string c.command_id
    ∷ write_digest_string c.instance_id
    ∷ write_digest_string (status_text c.expected_status)
    ∷ write_digest_uint64 (uint64 c.expected_revision)
    ∷ write_digest_uint64 (uint64 c.at)
    ∷ [])

unfoldable pub abort_instance_request : AbortInstanceCommand → Text
abort_instance_request c = written (
    write_digest_string abort_instance_request_digest_v1
    ∷ write_digest_string c.command_id
    ∷ write_digest_string c.instance_id
    ∷ write_digest_uint64 (uint64 c.expected_revision)
    ∷ write_digest_uint64 (uint64 c.at)
    ∷ write_digest_string c.fence.instance_id
    ∷ write_digest_string c.fence.claim_token
    ∷ [])

unfoldable pub write_members : List Text → List Text
write_members [] = []
write_members (id ∷ ids) = write_digest_string id ∷ write_members ids

unfoldable pub reorder_queue_request : ReorderQueueCommand → Text
reorder_queue_request c = written (
    write_digest_string reorder_queue_request_digest_v1
    ∷ write_digest_string c.command_id
    ∷ write_digest_string c.scope_id
    ∷ write_digest_uint64 (uint64 c.expected_revision)
    ∷ write_digest_uint64 (uint64 (pos (length c.instance_ids)))
    ∷ write_members c.instance_ids)

module _ (sha256 hex : Text → Text) where
  unfoldable pub finish_digest : Text → Text
  finish_digest written = codes "sha256:" ++ hex (sha256 written)

  unfoldable pub cancel_instance_request_digest : CancelInstanceCommand → Text
  cancel_instance_request_digest c = finish_digest (cancel_instance_request c)

  unfoldable pub abort_instance_request_digest : AbortInstanceCommand → Text
  abort_instance_request_digest c = finish_digest (abort_instance_request c)

  unfoldable pub reorder_queue_request_digest : ReorderQueueCommand → Text
  reorder_queue_request_digest c = finish_digest (reorder_queue_request c)
