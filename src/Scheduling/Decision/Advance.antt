-- ===== src/Scheduling/Decision/Advance.antt =====
-- What a decision of application/scheduling/decision.go does to a run: the writes that it asks of
-- the host, and the run once they are applied.
use healix_core.Prelude.{
  ℕ, suc, Bool, true, false, ◌||◌, ◌≡◌, refl, ◌⊎◌, inl, inr, List, [], ◌∷◌, Option, none, some, All,
  length, drop, ok, arith, ◌∙◌,
}
use mathlib.Core.Bool.{or_assoc}
use healix_core.Execution.Status.{
  InstanceStatus, is_terminal_entry_status, can_transition_to, is_failed,
  validate_entry_status_transition,
}
use healix_core.Execution.Snapshot.{FailurePolicy, Entry}
use healix_core.Scheduling.Decision.{
  SkipCause, EntryState, ExecutionTransition, Decision, same_cause, no_decision, skip_transition,
  start_transition, skip_pending, stop_after, next_entry, advance_ordered, validate_serial_shape,
  unset_status,
}
use healix_core.Scheduling.Decision.Shape.{
  IsRunning, IsPassed, Stops, IsLeftBehind, Frontier, idle, busy, Stopped, ended,
  validate_serial_shape_cases,
}

-- The writes of a decision applied to the states in plan order. Each is addressed to the entry at
-- that place, starts from the status that stands there, and is a legal transition.
pub data Writes
    : List Entry → List EntryState → List ExecutionTransition → List EntryState → Type 0 where
  done : {entries : List Entry} {states : List EntryState} → Writes entries states [] states
  keep :
      {e : Entry} {st : EntryState} {entries : List Entry} {states after : List EntryState}
      {ts : List ExecutionTransition}
      → Writes entries states ts after
      → Writes (e ∷ entries) (st ∷ states) ts (st ∷ after)
  write :
      {e : Entry} {st : EntryState} {entries : List Entry} {states after : List EntryState}
      {t : ExecutionTransition} {ts : List ExecutionTransition}
      → t.entry_id ≡ e.id
      → t.from ≡ st.status
      → can_transition_to t.from t.to ≡ ok tt
      → Writes entries states ts after
      → Writes
          (e ∷ entries)
          (st ∷ states)
          (t ∷ ts)
          (record st { status = t.to; skip_cause = t.cause } ∷ after)

abbrev pub IsDone : EntryState → Type 0
IsDone st = is_terminal_entry_status st.status ≡ true

-- Some entry runs.
pub data HasRunning : List EntryState → Type 0 where
  here : {st : EntryState} {rest : List EntryState} → IsRunning st → HasRunning (st ∷ rest)
  there : {st : EntryState} {rest : List EntryState} → HasRunning rest → HasRunning (st ∷ rest)

abbrev pub any_failed : List EntryState → Bool
any_failed [] = false
any_failed (st ∷ rest) = is_failed st.status || any_failed rest

abbrev pub final_of : Bool → InstanceStatus
final_of true = InstanceStatus.failed
final_of false = InstanceStatus.succeeded

-- The status of a run whose entries have all ended: that of the entry which stopped it, and else
-- failed or succeeded as some entry failed or none did.
abbrev pub FinalFor : FailurePolicy → List EntryState → InstanceStatus → Type 0
FinalFor policy after f =
    (Frontier policy after × (f ≡ final_of (any_failed after)))
    ⊎ ((k : ℕ) × (c : SkipCause) × Stopped policy c f k after)

-- After the writes either an entry runs and the run is open, or all entries have ended and the
-- decision names the run's final status.
abbrev pub Concludes : FailurePolicy → Decision → List EntryState → Type 0
Concludes policy d after =
    ((d.final_status ≡ none) × Frontier policy after × HasRunning after)
    ⊎ ((f : InstanceStatus) × (d.final_status ≡ some f)
        × All IsDone after
        × FinalFor policy after f)

abbrev pub Advances : FailurePolicy → List Entry → List EntryState → Decision → Type 0
Advances policy entries states d =
    (after : List EntryState) × Writes entries states d.transitions after × Concludes policy d after

module _ (policy : FailurePolicy) where
  -- The same for the part of a run behind entries of which some failed or none did.
  abbrev Continues : Bool → List Entry → List EntryState → Decision → Type 0
  Continues failed entries states d =
      (after : List EntryState) × Writes entries states d.transitions after
      × Frontier policy after
      × (((d.final_status ≡ none) × HasRunning after)
          ⊎ ((d.final_status ≡ some (final_of (failed || any_failed after))) × All IsDone after))

  passed-status :
      (failed : Bool) (e : Entry) (entries : List Entry) (st : EntryState)
      (states : List EntryState)
      → IsPassed policy st
      → (next_entry failed (e ∷ entries) (st ∷ states)
          ≡ next_entry (failed || is_failed st.status) entries states)
        × IsDone st
  unfolding next_entry is_terminal_entry_status
  passed-status failed e entries st states p = ground arith

  passed-Continues :
      (failed : Bool) {e : Entry} {entries : List Entry} {st : EntryState}
      {states : List EntryState} (d : Decision)
      → IsPassed policy st
      → IsDone st
      → Continues (failed || is_failed st.status) entries states d
      → Continues failed (e ∷ entries) (st ∷ states) d
  passed-Continues failed d p t (after, w, q, inl (n, r)) =
      (_, keep w, Frontier.passed p q, inl (n, there r))
  passed-Continues failed {st = st} d p t (after, w, q, inr (n, r)) = (
    _,
    keep w,
    Frontier.passed p q,
    inr (rw (← or_assoc failed (is_failed st.status) (any_failed after)) n, (t, r)),
  )

  next_entry-Continues :
      (failed : Bool) (entries : List Entry) (states : List EntryState)
      → length entries ≡ length states
      → Frontier policy states
      → (d : Decision) × (next_entry failed entries states ≡ ok d)
        × Continues failed entries states d
  unfolding next_entry validate_entry_status_transition can_transition_to is_terminal_entry_status
  next_entry-Continues failed [] [] n p = (
    record { next_entry_id = []; transitions = []; final_status = some (final_of failed) },
    ground arith,
    ([], done, p, inr (ground arith, tt)),
  )
  next_entry-Continues failed (e ∷ entries) [] n p = absurd (omega arith)
  next_entry-Continues failed [] (st ∷ states) n p = absurd (omega arith)
  next_entry-Continues failed (e ∷ entries) (st ∷ states) n (idle p) = (
    record { next_entry_id = e.id; transitions = start_transition e ∷ []; final_status = none },
    ground arith,
    (_, write refl (ground arith) refl done, busy (refl, refl) p.1, inl (refl, here (refl, refl))),
  )
  next_entry-Continues failed (e ∷ entries) (st ∷ states) n (busy r p) =
      (no_decision, ground arith, (_, done, busy r p, inl (refl, here r)))
  next_entry-Continues failed (e ∷ entries) (st ∷ states) n (Frontier.passed p q) =
      let (d, e', c) =
        next_entry-Continues (failed || is_failed st.status) entries states (omega arith) q in
      let (s, t) = passed-status failed e entries st states p in
      (d, s ∙ e', passed-Continues failed d p t c)

  -- What `stopAfter` does to the entries behind the stop.
  skip_pending-Writes :
      (cause : SkipCause) (entries : List Entry) (states : List EntryState)
      → same_cause cause cause ≡ true
      → length entries ≡ length states
      → All (IsLeftBehind cause) states
      → (ts : List ExecutionTransition) × (skip_pending cause entries states ≡ ok ts)
        × ((after : List EntryState) × Writes entries states ts after
            × All (IsLeftBehind cause) after
            × All IsDone after)
  unfolding skip_pending validate_entry_status_transition can_transition_to is_terminal_entry_status
  skip_pending-Writes cause [] [] s n p = ([], refl, ([], done, tt, tt))
  skip_pending-Writes cause (e ∷ entries) [] s n p = absurd (omega arith)
  skip_pending-Writes cause [] (st ∷ states) s n p = absurd (omega arith)
  skip_pending-Writes cause (e ∷ entries) (st ∷ states) s n (inl q, p) =
      let (ts, r, (after, w, l, t)) = skip_pending-Writes cause entries states s (omega arith) p in
      (
        skip_transition e cause ∷ ts,
        ground (arith, r),
        (_, write refl (ground arith) refl w, (inr (refl, s), l), (refl, t)),
      )
  skip_pending-Writes cause (e ∷ entries) (st ∷ states) s n (inr q, p) =
      let (ts, r, (after, w, l, t)) = skip_pending-Writes cause entries states s (omega arith) p in
      (ts, ground (arith, r), (_, keep w, (inr q, l), (ground arith, t)))

  Stops-same :
      (c : SkipCause) (f : InstanceStatus) (st : EntryState)
      → Stops policy c f st.status
      → (same_cause c c ≡ true) × IsDone st
  unfolding is_terminal_entry_status
  Stops-same c f st h = ground arith

  stop_after-Writes :
      (k : ℕ) (c : SkipCause) (f : InstanceStatus) (entries : List Entry) (states : List EntryState)
      → length entries ≡ length states
      → Stopped policy c f k states
      → (ts : List ExecutionTransition) × (skip_pending c
            (drop (suc k) entries)
            (drop (suc k) states)
          ≡ ok ts)
        × ((after : List EntryState) × Writes entries states ts after
            × Stopped policy c f k after
            × All IsDone after)
  stop_after-Writes k c f [] [] n p = elim p [ ]
  stop_after-Writes k c f (e ∷ entries) [] n p = elim p [ ]
  stop_after-Writes k c f [] (st ∷ states) n p = absurd (omega arith)
  stop_after-Writes k c f (e ∷ entries) (st ∷ states) n (ended p m q) =
      let (s, t) = Stops-same c f st p in
      let (ts, r, (after, w, l, u)) = skip_pending-Writes c entries states s (omega arith) q in
      (ts, r, (_, keep w, ended p m l, (t, u)))
  stop_after-Writes k c f (e ∷ entries) (st ∷ states) n (Stopped.passed {index = j} p q) =
      let (ts, r, (after, w, l, u)) = stop_after-Writes j c f entries states (omega arith) q in
      (ts, r, (_, keep w, Stopped.passed p l, ((passed-status true e entries st states p).1, u)))

  -- Every run that `validateSerialShape` accepts has a decision, whose transitions are legal
  -- writes to the entries they name; once these are applied the run is accepted again, and either
  -- one of its entries runs and no final status is given, or every entry has ended and the final
  -- status given is the one that the entries call for.
  pub advance_ordered-Advances :
      (entries : List Entry) (states : List EntryState)
      → length entries ≡ length states
      → {o : Option ℕ × SkipCause × InstanceStatus} → validate_serial_shape states policy ≡ ok o
      → (d : Decision) × (advance_ordered policy entries states ≡ ok d)
        × Advances policy entries states d
  unfolding advance_ordered stop_after
  advance_ordered-Advances entries states n {o} h =
      cases (validate_serial_shape_cases policy states h)
    where
      open_run :
          (d : Decision) {after : List EntryState}
          → Frontier policy after
          → ((d.final_status ≡ none) × HasRunning after)
            ⊎ ((d.final_status ≡ some (final_of (any_failed after))) × All IsDone after)
          → Concludes policy d after
      open_run d q (inl (n, r)) = inl (n, q, r)
      open_run d {after = after} q (inr (n, t)) =
          inr (final_of (any_failed after), n, t, inl (q, refl))

      cases :
          ((o ≡ (none, SkipCause.no_cause, unset_status)) × Frontier policy states)
            ⊎ ((k : ℕ) × (o.0 ≡ some k) × Stopped policy o.1 o.2 k states)
          → (d : Decision) × (advance_ordered policy entries states ≡ ok d)
            × Advances policy entries states d
      cases (inl (e, p)) =
          let (d, r, (after, w, q, c)) = next_entry-Continues false entries states n p in
          (d, rw h (rw e r), (after, w, open_run d q c))
      cases (inr (k, e, p)) =
          let (ts, r, (after, w, q, u)) = stop_after-Writes k o.1 o.2 entries states n p in
          (
            record { next_entry_id = []; transitions = ts; final_status = some o.2 },
            rw h (rw e (rw r)),
            (after, w, inr (o.2, refl, u, inr (k, o.1, q))),
          )
