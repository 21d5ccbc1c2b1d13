-- ===== src/Scheduling/Command.antt =====
-- application/scheduling/instance_command_services.go: the commands that cancel and abort an
-- instance and reorder a queue, over the store and the signaler of a host with states `H`. A
-- port that is nil is `none`.
pub mod Answers
pub mod Reorder
use healix_core.Prelude.{
  Text, ℕ, suc, ◌+◌, ◌^◌, ◌-◌, ℤ, pos, negsuc, lebℤ, Bool, true, false, not, ◌&&◌, ◌||◌, List, [],
  ◌∷◌, Option, none, some, length, ◌==◌, text_eq, is_blank, if◌then◌else◌, Result, ok, err, require,
  reject, ◌>>=◌, ◌>>◌,
}
use healix_core.Fault.{contains}
use healix_core.Execution.Coordinate.{is_invalid_id}
use healix_core.Execution.Snapshot.{WorkerFence, validate_fence}
use healix_core.Execution.Status.{InstanceStatus}
use healix_core.Execution.Instance.{Instance, InstanceError, validate_instance}
use healix_core.Scheduling.Port.{
  SchedulingError, dependency_required, classify, answers, fails, Call,
}

-- The revisions and the times are `int64`; what is below zero is refused before it is computed with.
abbrev pub max_int64 : ℕ
max_int64 = 2 ^ 63 - 1

abbrev pub max_expected_revision : ℕ
max_expected_revision = max_int64 - 1

unfoldable pub representable_revision : ℤ → Bool
representable_revision revision = lebℤ (pos 0) revision && lebℤ revision (pos max_expected_revision)

-- `revision + 1` in `int64`
unfoldable pub next_int64 : ℤ → ℤ
next_int64 (pos n) = if n == max_int64 then negsuc max_int64 else pos (n + 1)
next_int64 (negsuc n) = if n == 0 then pos 0 else negsuc (n - 1)

abbrev pub int64_eq : ℤ → ℤ → Bool
int64_eq a b = lebℤ a b && lebℤ b a

pub record CancelInstanceCommand : Type 0 where
  pub command_id : Text
  pub instance_id : Text
  pub expected_status : InstanceStatus
  pub expected_revision : ℤ
  pub at : ℤ

pub record AbortInstanceCommand : Type 0 where
  pub command_id : Text
  pub instance_id : Text
  pub expected_revision : ℤ
  pub at : ℤ
  pub fence : WorkerFence

pub record ReorderQueueCommand : Type 0 where
  pub command_id : Text
  pub scope_id : Text
  pub expected_revision : ℤ
  pub instance_ids : List Text

pub record InstanceCommandResult : Type 0 where
  pub run : Instance
  pub revision : ℤ
  pub was_applied : Bool
  pub signal_required : Bool

pub record ReorderQueueResult : Type 0 where
  pub scope_id : Text
  pub revision : ℤ
  pub instance_ids : List Text
  pub was_applied : Bool

pub data CommandError : Type 0 where
  cancel_invalid abort_invalid reorder_invalid queue_membership_conflict
        adapter_contract_violation :
      CommandError
  scheduling : SchedulingError → CommandError

abbrev pub is_queued : InstanceStatus → Bool
is_queued InstanceStatus.queued = true
is_queued _ = false

abbrev pub is_running : InstanceStatus → Bool
is_running InstanceStatus.running = true
is_running _ = false

-- `status == want` for the statuses that a command leads to.
abbrev pub is_canceled : InstanceStatus → Bool
is_canceled InstanceStatus.canceled = true
is_canceled _ = false

abbrev pub is_aborted : InstanceStatus → Bool
is_aborted InstanceStatus.aborted = true
is_aborted _ = false

unfoldable pub validate_cancel : CancelInstanceCommand → Result CommandError (Unit {0})
validate_cancel c =
    reject
      (is_blank c.command_id
        || is_invalid_id c.instance_id
        || not (representable_revision c.expected_revision)
        || lebℤ c.at (pos 0)
        || (not (is_queued c.expected_status) && not (is_running c.expected_status)))
      cancel_invalid

abbrev pub is_refused : {E A : Type 0} → Result E A → Bool
is_refused (ok _) = false
is_refused (err _) = true

unfoldable pub validate_abort : AbortInstanceCommand → Result CommandError (Unit {0})
validate_abort c = do
  reject
      (is_blank c.command_id
        || is_invalid_id c.instance_id
        || not (representable_revision c.expected_revision)
        || lebℤ c.at (pos 0)
        || not (text_eq c.fence.instance_id c.instance_id))
      abort_invalid
  reject (is_refused (validate_fence c.fence)) abort_invalid

-- The loop over the members of a queue.
unfoldable pub members_loop : List Text → List Text → Result CommandError (Unit {0})
members_loop seen [] = ok tt
members_loop seen (id ∷ ids) = do
  reject (is_blank id) reorder_invalid
  reject (contains id seen) queue_membership_conflict
  members_loop (id ∷ seen) ids

abbrev pub is_nil {ℓ} : {A : Type ℓ} → List A → Bool
is_nil [] = true
is_nil (_ ∷ _) = false

unfoldable pub validate_reorder : ReorderQueueCommand → Result CommandError (Unit {0})
validate_reorder c = do
  reject
      (is_blank c.command_id
        || is_blank c.scope_id
        || not (representable_revision c.expected_revision)
        || is_nil c.instance_ids)
      reorder_invalid
  members_loop [] c.instance_ids

-- `validateInstanceResult`; `is_wanted` is whether the status is the one that the command leads to.
unfoldable pub validate_instance_result :
    Text → (InstanceStatus → Bool) → ℤ → InstanceCommandResult → Result CommandError (Unit {0})
validate_instance_result instance_id is_wanted expected_revision r = do
  require (text_eq r.run.id instance_id) adapter_contract_violation
  require (is_wanted r.run.status) adapter_contract_violation
  require (int64_eq r.revision (next_int64 expected_revision)) adapter_contract_violation
  reject (is_refused (validate_instance r.run)) adapter_contract_violation

-- What a service returns: an error and no result, a result, or a result whose signal must be
-- tried again.
pub data CommandReply : Type 0 where
  refused : CommandError → CommandReply
  answered unsignaled : InstanceCommandResult → CommandReply

pub record InstanceCommandStore (H : Type 0) : Type 0 where
  pub cancel : CancelInstanceCommand → Call H InstanceCommandResult
  pub abort : AbortInstanceCommand → Call H InstanceCommandResult

-- `SignalInstanceCancellation` of an instance
abbrev pub Signaler : Type 0 → Type 0
Signaler H = Text → Call H (Unit {0})

unfoldable pub same_members : List Text → List Text → Bool
same_members [] [] = true
same_members (a ∷ left) (b ∷ right) = text_eq a b && same_members left right
same_members _ _ = false

-- The checks of a reordered queue: the same scope, the next revision, the members in their order.
unfoldable pub validate_reorder_result :
    ReorderQueueCommand → ReorderQueueResult → Result CommandError (Unit {0})
validate_reorder_result c r = do
  reject
      (not (text_eq r.scope_id c.scope_id)
        || not (int64_eq r.revision (next_int64 c.expected_revision))
        || not (length r.instance_ids == length c.instance_ids))
      adapter_contract_violation
  require (same_members r.instance_ids c.instance_ids) adapter_contract_violation

abbrev pub checked_cancel :
    CancelInstanceCommand → InstanceCommandResult → Result CommandError (Unit {0})
checked_cancel c r = do
  validate_instance_result c.instance_id is_canceled c.expected_revision r
  require (if is_running c.expected_status then r.signal_required else not r.signal_required)
      adapter_contract_violation

abbrev pub checked_abort :
    AbortInstanceCommand → InstanceCommandResult → Result CommandError (Unit {0})
checked_abort c r = do
  validate_instance_result c.instance_id is_aborted c.expected_revision r
  require r.signal_required adapter_contract_violation

module _ {H : Type 0} where
  unfoldable pub signal_if_required :
      Option (Signaler H) → InstanceCommandResult → H → CommandReply × H
  signal_if_required signaler r h =
      if not r.signal_required then (answered r, h) else elim signaler [
        | none ↦ (unsignaled r, h)
        | some signal ↦ elim (signal r.run.id h) [
          | answers _ h' ↦ (answered r, h')
          | fails _ h' ↦ (unsignaled r, h')
        ]
      ]

  -- A store's answer once it is checked: the result, and then its signal.
  unfoldable pub settle :
      Result CommandError (Unit {0})
      → Option (Signaler H)
      → InstanceCommandResult
      → H
      → CommandReply × H
  settle (err e) signaler r h = (refused e, h)
  settle (ok _) signaler r h = signal_if_required signaler r h

  -- The steps that both services take: the checks of the command, the store's call, the checks of
  -- its answer, and the signal.
  unfoldable pub serve :
      Result CommandError (Unit {0})
      → Option (InstanceCommandStore H)
      → (InstanceCommandStore H → Call H InstanceCommandResult)
      → (InstanceCommandResult → Result CommandError (Unit {0}))
      → Option (Signaler H)
      → H
      → CommandReply × H
  unfolding settle
  serve (err e) store call check signaler h = (refused e, h)
  serve (ok _) none call check signaler h = (refused (scheduling dependency_required), h)
  serve (ok _) (some s) call check signaler h = elim (call s h) [
    | fails e h' ↦ (refused (scheduling (classify e)), h')
    | answers r h' ↦ settle (check r) signaler r h'
  ]

  unfoldable pub cancel_instance :
      Option (InstanceCommandStore H)
      → Option (Signaler H)
      → CancelInstanceCommand
      → H
      → CommandReply × H
  unfolding serve
  cancel_instance store signaler c h =
      serve (validate_cancel c) store (λ s. s.cancel c) (checked_cancel c) signaler h

  unfoldable pub abort_instance :
      Option (InstanceCommandStore H)
      → Option (Signaler H)
      → AbortInstanceCommand
      → H
      → CommandReply × H
  unfolding serve
  abort_instance store signaler c h =
      serve (validate_abort c) store (λ s. s.abort c) (checked_abort c) signaler h

  unfoldable pub reorder_queue :
      Option (ReorderQueueCommand → Call H ReorderQueueResult)
      → ReorderQueueCommand
      → H
      → Result CommandError ReorderQueueResult × H
  reorder_queue store c h = elim (validate_reorder c) [
    | err e ↦ (err e, h)
    | ok _ ↦ elim store [
      | none ↦ (err (scheduling dependency_required), h)
      | some reorder ↦ elim (reorder c h) [
        | fails e h' ↦ (err (scheduling (classify e)), h')
        | answers r h' ↦ (validate_reorder_result c r >> ok r, h')
      ]
    ]
  ]
