-- ===== src/Scheduling/Command/Answers.antt =====
-- When the commands of application/scheduling/instance_command_services.go are answered.
use healix_core.Prelude.{
  Text, ℕ, ◌+◌, ◌≤◌, ℤ, pos, negsuc, lebℤ, ◌≡◌, refl, subst, ◌↔◌, ◌⊎◌, inl, inr, Bool, true, false,
  Option, none, some, arith, Bool-cases, Result, ok, err, text_eq_iff, is_blank,
}
use healix_core.Execution.Coordinate.{is_invalid_id}
use healix_core.Execution.Status.{InstanceStatus}
use healix_core.Execution.Instance.{validate_instance}
use healix_core.Scheduling.Port.{Answer-cases, Call, answers}
use healix_core.Execution.Snapshot.{validate_fence}
use healix_core.Scheduling.Command.{
  AbortInstanceCommand, InstanceCommandStore, CommandError, serve, settle, validate_abort,
  checked_abort, abort_instance, is_aborted, max_expected_revision, representable_revision,
  next_int64, int64_eq, CancelInstanceCommand, InstanceCommandResult, validate_cancel, is_queued,
  is_running, is_canceled, is_refused, validate_instance_result, answered, Signaler,
  signal_if_required, checked_cancel, cancel_instance,
}

-- The revision that a valid command expects has a successor.
abbrev pub Succeeds : ℤ → ℤ → Type 0
Succeeds expected revision =
    (n : ℕ) × (n ≤ max_expected_revision) × (expected ≡ pos n) × (revision ≡ pos (n + 1))

pub Succeeds-iff :
    (expected revision : ℤ)
    → representable_revision expected ≡ true
    → (int64_eq revision (next_int64 expected) ≡ true) ↔ Succeeds expected revision
unfolding representable_revision next_int64
Succeeds-iff (pos n) (pos m) h =
    (λ e. (n, ground arith, refl, ground arith), λ s. ground (arith, s.2, s.3))
Succeeds-iff (pos n) (negsuc m) h = (λ e. absurd (ground arith), λ s. cc)
Succeeds-iff (negsuc n) revision h = absurd (ground arith)

is_refused_iff : {E : Type 0} (r : Result E (Unit {0})) → (is_refused r ≡ false) ↔ (r ≡ ok tt)
is_refused_iff (ok _) = (λ _. refl, λ _. refl)
is_refused_iff (err e) = (λ h. cc, λ h. cc)

-- What an instance command demands: an identifier, an instance, a revision that has a successor,
-- a time after zero.
abbrev pub IsTimely : Text → Text → ℤ → ℤ → Type 0
IsTimely command_id instance_id expected_revision at =
    (is_blank command_id ≡ false)
    × (is_invalid_id instance_id ≡ false)
    × (representable_revision expected_revision ≡ true)
    × (lebℤ at (pos 0) ≡ false)

abbrev pub IsCancelCommand : CancelInstanceCommand → Type 0
IsCancelCommand c =
    IsTimely c.command_id c.instance_id c.expected_revision c.at
    × ((is_queued c.expected_status ≡ true) ⊎ (is_running c.expected_status ≡ true))

validate_cancel_iff : (c : CancelInstanceCommand) → (validate_cancel c ≡ ok tt) ↔ IsCancelCommand c
unfolding validate_cancel
validate_cancel_iff c = ground arith

abbrev pub IsAbortCommand : AbortInstanceCommand → Type 0
IsAbortCommand c =
    IsTimely c.command_id c.instance_id c.expected_revision c.at
    × (c.fence.instance_id ≡ c.instance_id)
    × (validate_fence c.fence ≡ ok tt)

validate_abort_iff : (c : AbortInstanceCommand) → (validate_abort c ≡ ok tt) ↔ IsAbortCommand c
unfolding validate_abort
validate_abort_iff c =
    ground (
      arith,
      text_eq_iff c.fence.instance_id c.instance_id,
      is_refused_iff (validate_fence c.fence),
    )

-- What is demanded of the result of a command: its instance, in the status it leads to, at the
-- next revision.
abbrev pub IsResult : Text → (InstanceStatus → Bool) → ℤ → InstanceCommandResult → Type 0
IsResult instance_id is_wanted expected_revision r =
    (r.run.id ≡ instance_id)
    × (is_wanted r.run.status ≡ true)
    × (validate_instance r.run ≡ ok tt)
    × Succeeds expected_revision r.revision

validate_instance_result_iff :
    (instance_id : Text) (is_wanted : InstanceStatus → Bool) (expected_revision : ℤ)
    (r : InstanceCommandResult)
    → representable_revision expected_revision ≡ true
    → (validate_instance_result instance_id is_wanted expected_revision r ≡ ok tt)
      ↔ IsResult instance_id is_wanted expected_revision r
unfolding validate_instance_result
validate_instance_result_iff instance_id is_wanted expected_revision r fits = ground (
  arith,
  text_eq_iff r.run.id instance_id,
  is_refused_iff (validate_instance r.run),
  Succeeds-iff expected_revision r.revision fits,
)

module _ {H : Type 0} where
  -- The signal that a result asks for was given.
  abbrev pub Signaled : Option (Signaler H) → InstanceCommandResult → H → H → Type 0
  Signaled none r h last = (r.signal_required ≡ false) × (last ≡ h)
  Signaled (some signal) r h last =
      ((r.signal_required ≡ false) × (last ≡ h))
      ⊎ ((r.signal_required ≡ true) × (signal r.run.id h ≡ answers tt last))

  signal-answered :
      (signaler : Option (Signaler H)) (r r' : InstanceCommandResult) (h last : H)
      → signal_if_required signaler r h ≡ (answered r', last)
      → (r ≡ r') × Signaled signaler r h last
  unfolding signal_if_required
  signal-answered none r r' h last e = (ground arith, ground arith)
  signal-answered (some signal) r r' h last e = elim (Bool-cases r.signal_required) [
    | inl q ↦ elim (Answer-cases (signal r.run.id h)) [
      | inl (a, h', s) ↦ ground (arith, s, q, e)
      | inr (f, h', s) ↦ ground (arith, s, q, e)
    ]
    | inr q ↦ ground (arith, q, e)
  ]

  Signaled-signal :
      (signaler : Option (Signaler H)) (r : InstanceCommandResult) (h last : H)
      → Signaled signaler r h last
      → signal_if_required signaler r h ≡ (answered r, last)
  unfolding signal_if_required
  Signaled-signal none r h last s = ground arith
  Signaled-signal (some signal) r h last (inl s) = ground arith
  Signaled-signal (some signal) r h last (inr s) = ground arith

checked_cancel_iff :
    (c : CancelInstanceCommand) (r : InstanceCommandResult)
    → representable_revision c.expected_revision ≡ true
    → (checked_cancel c r ≡ ok tt) ↔ (
        IsResult c.instance_id is_canceled c.expected_revision r
        × (r.signal_required ≡ is_running c.expected_status))
checked_cancel_iff c r fits = ground (
  arith,
  validate_instance_result_iff c.instance_id is_canceled c.expected_revision r fits,
  Bool-cases r.signal_required,
  Bool-cases (is_running c.expected_status),
)

checked_abort_iff :
    (c : AbortInstanceCommand) (r : InstanceCommandResult)
    → representable_revision c.expected_revision ≡ true
    → (checked_abort c r ≡ ok tt)
      ↔ (IsResult c.instance_id is_aborted c.expected_revision r × (r.signal_required ≡ true))
checked_abort_iff c r fits =
    ground (arith, validate_instance_result_iff c.instance_id is_aborted c.expected_revision r fits)

module _ {H : Type 0} (store : InstanceCommandStore H) (signaler : Option (Signaler H)) where
  settle-answered :
      (check : Result CommandError (Unit {0})) (r r' : InstanceCommandResult) (h last : H)
      → settle check signaler r h ≡ (answered r', last)
      → (check ≡ ok tt) × (r ≡ r') × Signaled signaler r h last
  unfolding settle
  settle-answered (err e) r r' h last q = cc
  settle-answered (ok _) r r' h last q =
      let (same, signaled) = signal-answered signaler r r' h last q in (refl, same, signaled)

  -- What a service that answered has been through, after the checks of the command.
  abbrev Served :
      (InstanceCommandStore H → Call H InstanceCommandResult)
      → (InstanceCommandResult → Result CommandError (Unit {0}))
      → InstanceCommandResult
      → H
      → H
      → Type 0
  Served call check r h last =
      (stored : H) × (call store h ≡ answers r stored)
      × (check r ≡ ok tt)
      × Signaled signaler r stored last

  module _ (call : InstanceCommandStore H → Call H InstanceCommandResult)
      (check : InstanceCommandResult → Result CommandError (Unit {0})) where
    serve-Served :
        (valid : Result CommandError (Unit {0})) (r : InstanceCommandResult) (h last : H)
        → serve valid (some store) call check signaler h ≡ (answered r, last)
        → (valid ≡ ok tt) × Served call check r h last
    unfolding serve
    serve-Served (err e) r h last q = cc
    serve-Served (ok _) r h last q = elim (Answer-cases (call store h)) [
      | inr (f, h', a) ↦ ground (arith, a, q)
      | inl (r', h', a) ↦
          let (checked, same, signaled) =
            settle-answered (check r') r' r h' last (ground (arith, a, q)) in
          (refl, subst (λ x. Served call check x h last) same (h', a, checked, signaled))
    ]

    Served-serve :
        (valid : Result CommandError (Unit {0})) (r : InstanceCommandResult) (h last : H)
        → valid ≡ ok tt
        → Served call check r h last
        → serve valid (some store) call check signaler h ≡ (answered r, last)
    unfolding serve settle
    Served-serve valid r h last v (stored, kept, checked, signaled) =
        ground (arith, v, kept, checked, Signaled-signal signaler r stored last signaled)

  -- What a cancellation that is answered has been through.
  abbrev pub Cancels : CancelInstanceCommand → InstanceCommandResult → H → H → Type 0
  Cancels c r h last =
      IsCancelCommand c
      × ((stored : H) × (store.cancel c h ≡ answers r stored)
          × (IsResult c.instance_id is_canceled c.expected_revision r
              × (r.signal_required ≡ is_running c.expected_status))
          × Signaled signaler r stored last)

  -- What an abortion that is answered has been through.
  abbrev pub Aborts : AbortInstanceCommand → InstanceCommandResult → H → H → Type 0
  Aborts c r h last =
      IsAbortCommand c
      × ((stored : H) × (store.abort c h ≡ answers r stored)
          × (IsResult c.instance_id is_aborted c.expected_revision r × (r.signal_required ≡ true))
          × Signaled signaler r stored last)

  -- A cancellation is answered with a result exactly if the command is well formed, the store
  -- answered that result, the result is of the command's instance, canceled and well formed, at
  -- the revision after the expected one, it asks for a signal exactly if a running instance was
  -- expected, and the signal it asks for, where there is a signaler, was given.
  pub cancel_instance_iff :
      (c : CancelInstanceCommand) (r : InstanceCommandResult) (h last : H)
      → (cancel_instance (some store) signaler c h ≡ (answered r, last)) ↔ Cancels c r h last
  unfolding cancel_instance
  cancel_instance_iff c r h last = (
    λ e.
        let (v, (stored, kept, checked, signaled)) =
          serve-Served (λ s. s.cancel c) (checked_cancel c) (validate_cancel c) r h last e in
        let valid = (validate_cancel_iff c).0 v in
        (valid, (stored, kept, (checked_cancel_iff c r (valid.0.2)).0 checked, signaled)),
    λ (valid, (stored, kept, result, signaled)).
        Served-serve (λ s. s.cancel c) (checked_cancel c) (validate_cancel c) r h last
          ((validate_cancel_iff c).1 valid)
          (stored, kept, (checked_cancel_iff c r (valid.0.2)).1 result, signaled),
  )

  -- An abortion is answered with a result exactly if the command is well formed and its fence valid
  -- and of the instance, the store answered that result, the result is of the command's instance,
  -- aborted and well formed, at the revision after the expected one and asks for a signal, and
  -- there is a signaler that gave it.
  pub abort_instance_iff :
      (c : AbortInstanceCommand) (r : InstanceCommandResult) (h last : H)
      → (abort_instance (some store) signaler c h ≡ (answered r, last)) ↔ Aborts c r h last
  unfolding abort_instance
  abort_instance_iff c r h last = (
    λ e.
        let (v, (stored, kept, checked, signaled)) =
          serve-Served (λ s. s.abort c) (checked_abort c) (validate_abort c) r h last e in
        let valid = (validate_abort_iff c).0 v in
        (valid, (stored, kept, (checked_abort_iff c r (valid.0.2)).0 checked, signaled)),
    λ (valid, (stored, kept, result, signaled)).
        Served-serve (λ s. s.abort c) (checked_abort c) (validate_abort c) r h last
          ((validate_abort_iff c).1 valid)
          (stored, kept, (checked_abort_iff c r (valid.0.2)).1 result, signaled),
  )
