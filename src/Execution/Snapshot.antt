-- ===== src/Execution/Snapshot.antt =====
-- The parts of `InstanceSnapshot`, `PlanSnapshot` and `WorkerFence` (domain/execution) that the
-- scheduler and the instance read. Digests and identities are opaque texts; the getters return
-- deep copies, which an immutable value needs none of.
use healix_core.Prelude.{Text, ℕ, List, ◌||◌, is_empty, Result, reject}
use healix_core.Execution.Coordinate.{is_invalid_id}

pub data FailurePolicy : Type 0 where
  stop_on_failure continue_on_failure : FailurePolicy
  other : Text → FailurePolicy

pub record Entry : Type 0 where
  pub id : Text
  pub test_task_item_id : Text
  pub sequence_number : ℕ
  pub flow_fragment_id : Text
  pub workflow_version_id : Text

pub record PlanSnapshot : Type 0 where
  pub instance_id : Text
  pub failure_policy : FailurePolicy
  pub entries : List Entry

pub record InstanceSnapshot : Type 0 where
  pub instance_id : Text
  pub execution_flow_id : Text
  pub test_task_version_id : Text
  pub schema_version : ℕ
  pub digest : Text
  pub plan : PlanSnapshot

pub record WorkerFence : Type 0 where
  pub instance_id : Text
  pub claim_token : Text

pub data FenceFault : Type 0 where
  worker_fence_invalid worker_fence_stale : FenceFault

unfoldable pub validate_fence : WorkerFence → Result FenceFault (Unit {0})
validate_fence f =
    reject (is_invalid_id f.instance_id || is_empty f.claim_token) worker_fence_invalid
