-- ===== src/Execution/Instance/Lifecycle.antt =====
-- When an instance may move (domain/execution/instance.go), and what that keeps.
use healix_core.Prelude.{
  ℤ, ltbℤ, ℕ, true, false, ◌≡◌, ◌↔◌, refl, is_blank, lebℤ_trans, ltbℤ-lebℤ, lebℤ_total,
  lebℤ_antisymm, ◌∙◌, ap, sym, subst, ◌+◌, ◌≤◌, ◌<◌, suc, text_eq_sound, ok, Result-cases, arith,
}
use healix_core.Execution.Status.{InstanceStatus}
use healix_core.Execution.Snapshot.{InstanceSnapshot}
use healix_core.Execution.Instance.{
  Instance, validate_instance_lifecycle_shape, validate_instance_status_transition,
  snapshot_identity_valid, transition, prior_time, moved, new_instance,
}

module _ (i : Instance) (to : InstanceStatus) (at : ℤ) where
  -- Moving a well-shaped instance along a legal transition, not before its last time, gives a
  -- well-shaped instance again.
  moved_shape :
      validate_instance_lifecycle_shape i ≡ ok tt
      → validate_instance_status_transition i.status to ≡ ok tt
      → ltbℤ at (prior_time i) ≡ false
      → validate_instance_lifecycle_shape (moved i to at) ≡ ok tt
  unfolding validate_instance_lifecycle_shape validate_instance_status_transition
  moved_shape h t m = ground (
    arith,
    ltbℤ-lebℤ at i.queued_at,
    ltbℤ-lebℤ at i.started_at,
    ltbℤ-lebℤ i.queued_at i.started_at,
    lebℤ_total i.started_at i.queued_at,
    lebℤ_trans i.queued_at i.started_at at,
  )

  abbrev pub CanMove : Type 0
  CanMove =
      (snapshot_identity_valid i ≡ true)
      × (is_blank i.test_task_version_id ≡ false)
      × (validate_instance_lifecycle_shape i ≡ ok tt)
      × (validate_instance_status_transition i.status to ≡ ok tt)
      × (ltbℤ at (prior_time i) ≡ false)

  transition_moves : CanMove → transition i to at ≡ ok (moved i to at)
  unfolding transition
  transition_moves (s, b, h, t, m) = rw (s, b, h, t, m) (rw (moved_shape h t m))

  transition-CanMove :
      (next : Instance) → transition i to at ≡ ok next → CanMove × (next ≡ moved i to at)
  unfolding transition
  transition-CanMove next h = ground (
    arith,
    Result-cases (validate_instance_lifecycle_shape i),
    Result-cases (validate_instance_status_transition i.status to),
    Result-cases (validate_instance_lifecycle_shape (moved i to at)),
  )

  -- `Transition` succeeds exactly on an instance whose snapshot seal and lifecycle shape are
  -- valid, along a legal change of status and at a time not before its queueing and its start; the
  -- result is then the instance with the new status and that time, so the last check of its shape
  -- never fails.
  pub transition_iff :
      (next : Instance) → (transition i to at ≡ ok next) ↔ (CanMove × (next ≡ moved i to at))
  transition_iff next = (transition-CanMove next, λ (c, e). transition_moves c ∙ ap ok (sym e))

-- The instances after a number of transitions.
pub data Moves (start : Instance) : ℕ → Instance → Type 0 where
  begin : Moves start 0 start
  move :
      {n : ℕ} {j next : Instance} (to : InstanceStatus) (at : ℤ)
      → Moves start n j
      → transition j to at ≡ ok next
      → Moves start (suc n) next

abbrev stages : InstanceStatus → ℕ
stages InstanceStatus.queued = 2
stages InstanceStatus.running = 1
stages _ = 0

stages-transition :
    (from to : InstanceStatus)
    → validate_instance_status_transition from to ≡ ok tt
    → stages to < stages from
unfolding validate_instance_status_transition
stages-transition from to h = ground arith

-- What no transition changes.
abbrev pub SameIdentity : Instance → Instance → Type 0
SameIdentity i j =
    (j.id ≡ i.id)
    × (j.snapshot_digest ≡ i.snapshot_digest)
    × (j.sealed_snapshot_digest ≡ i.sealed_snapshot_digest)
    × (j.created_at ≡ i.created_at)
    × (j.queued_at ≡ i.queued_at)

moved-SameIdentity :
    (i j : Instance) (to : InstanceStatus) (at : ℤ)
    → SameIdentity i j
    → SameIdentity i (moved j to at)
moved-SameIdentity i j to at h = ground arith

moved-status : (i : Instance) (to : InstanceStatus) (at : ℤ) → (moved i to at).status ≡ to
moved-status i to at = ground arith

Moves-kept :
    {i j : Instance} {n : ℕ}
    → validate_instance_lifecycle_shape i ≡ ok tt
    → Moves i n j
    → SameIdentity i j
      × (validate_instance_lifecycle_shape j ≡ ok tt)
      × (n + stages j.status ≤ stages i.status)
Moves-kept h begin = ((refl, refl, refl, refl, refl), h, omega arith)
Moves-kept {i} h (move {n = n} {j = j} {next = next} to at m e) =
    let (s, g, b) = Moves-kept h m in
    let (c, q) = transition-CanMove j to at next e in
    subst
      (λ (x : Instance).
        SameIdentity i x
        × (validate_instance_lifecycle_shape x ≡ ok tt)
        × (suc n + stages x.status ≤ stages i.status))
      (sym q)
      (
        moved-SameIdentity i j to at s,
        moved_shape j to at g c.3 c.4,
        rw (moved-status j to at) (omega (arith, stages-transition j.status to c.3)),
      )

new_instance_shape :
    (draft i : Instance) (s : InstanceSnapshot)
    → new_instance draft s ≡ ok i
    → (validate_instance_lifecycle_shape i ≡ ok tt)
      × (i.status ≡ InstanceStatus.queued)
      × (i.id ≡ s.instance_id)
      × (i.snapshot_digest ≡ s.digest)
      × (i.sealed_snapshot_digest ≡ s.digest)
      × (i.queued_at ≡ i.created_at)
unfolding new_instance validate_instance_lifecycle_shape
new_instance_shape draft i s h = ground (
  arith,
  text_eq_sound draft.id s.instance_id,
  ltbℤ-lebℤ draft.queued_at draft.created_at,
  lebℤ_antisymm draft.queued_at draft.created_at,
)

-- An instance made by `NewInstance` takes at most two transitions. After any of them, and before,
-- its identity is that of the snapshot, its digest and its seal are the snapshot's digest, its times
-- of creation and of queueing are its time of creation as it was made, and its lifecycle shape is
-- valid.
pub new_instance-Moves :
    (draft i j : Instance) (s : InstanceSnapshot) (n : ℕ)
    → new_instance draft s ≡ ok i
    → Moves i n j
    → (n ≤ 2)
      × (j.id ≡ s.instance_id)
      × (j.snapshot_digest ≡ s.digest)
      × (j.sealed_snapshot_digest ≡ s.digest)
      × (j.created_at ≡ i.created_at)
      × (j.queued_at ≡ i.created_at)
      × (validate_instance_lifecycle_shape j ≡ ok tt)
new_instance-Moves draft i j s n h m =
    let (shape, queued, id, digest, seal, at) = new_instance_shape draft i s h in
    let (same, kept, bound) = Moves-kept shape m in
    (
      omega (arith, subst (λ x. n + stages j.status ≤ stages x) queued bound),
      same.0 ∙ id,
      same.1 ∙ digest,
      same.2 ∙ seal,
      same.3,
      same.4 ∙ at,
      kept,
    )
