-- ===== src/Examples/Instance.antt =====
-- An instance from its making to its end (domain/execution/instance.go).
use healix_core.Prelude.{Text, pos, ◌≤◌, ◌≡◌, refl, ◌↔◌, [], ok, err, codes, is_blank, text_eq}
use healix_core.Execution.Status.{InstanceStatus}
use healix_core.Execution.Snapshot.{InstanceSnapshot, stop_on_failure}
use healix_core.Execution.Instance.{
  Instance, not_monotonic, validate_instance_lifecycle_shape, validate_instance_status_transition,
  snapshot_identity_valid, is_supported_instance_snapshot_schema, transition, moved, new_instance,
}
use healix_core.Execution.Instance.Lifecycle.{
  CanMove, transition_iff, begin, move, new_instance-Moves,
}

abbrev digest : Text
digest = codes "sha256:0123456789abcdef0123456789abcdef0123456789abcdef0123456789abcdef"

abbrev sealed_snapshot : InstanceSnapshot
sealed_snapshot = record {
  instance_id = codes "i1";
  execution_flow_id = codes "flow";
  test_task_version_id = codes "v1";
  schema_version = 2;
  digest = digest;
  plan = record { instance_id = codes "i1"; failure_policy = stop_on_failure; entries = [] };
}

abbrev draft : Instance
draft = record {
  id = codes "i1";
  execution_flow_id = codes "flow";
  test_task_version_id = codes "v1";
  snapshot_schema_version = 0;
  snapshot_digest = [];
  status = InstanceStatus.queued;
  environment_id = codes "env";
  queue_position = pos 0;
  created_at = pos 5;
  queued_at = pos 5;
  started_at = pos 0;
  finished_at = pos 0;
  sealed_snapshot_digest = [];
}

abbrev queued_instance : Instance
queued_instance = record draft {
  snapshot_schema_version = 2;
  snapshot_digest = digest;
  sealed_snapshot_digest = digest;
}

made : new_instance draft sealed_snapshot ≡ ok queued_instance
unfolding new_instance text_eq
made = refl

abbrev pub running_instance : Instance
running_instance = moved queued_instance InstanceStatus.running (pos 7)

starts : transition queued_instance InstanceStatus.running (pos 7) ≡ ok running_instance
unfolding transition snapshot_identity_valid is_supported_instance_snapshot_schema
    validate_instance_lifecycle_shape validate_instance_status_transition text_eq is_blank
starts = refl

-- An end before the start is refused.
refused : transition running_instance InstanceStatus.failed (pos 6) ≡ err not_monotonic
unfolding transition snapshot_identity_valid is_supported_instance_snapshot_schema
    validate_instance_lifecycle_shape validate_instance_status_transition text_eq is_blank
refused = refl

transition_iff_example :
    (transition queued_instance InstanceStatus.running (pos 7) ≡ ok running_instance) ↔ (
      CanMove queued_instance InstanceStatus.running (pos 7)
      × (running_instance ≡ moved queued_instance InstanceStatus.running (pos 7)))
transition_iff_example =
    transition_iff queued_instance InstanceStatus.running (pos 7) running_instance

new_instance-Moves_example :
    (1 ≤ 2)
    × (running_instance.id ≡ sealed_snapshot.instance_id)
    × (running_instance.snapshot_digest ≡ sealed_snapshot.digest)
    × (running_instance.sealed_snapshot_digest ≡ sealed_snapshot.digest)
    × (running_instance.created_at ≡ queued_instance.created_at)
    × (running_instance.queued_at ≡ queued_instance.created_at)
    × (validate_instance_lifecycle_shape running_instance ≡ ok tt)
new_instance-Moves_example =
    new_instance-Moves draft queued_instance running_instance sealed_snapshot 1 made
      (move InstanceStatus.running (pos 7) begin starts)
