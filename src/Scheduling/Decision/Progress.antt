-- ===== src/Scheduling/Decision/Progress.antt =====
-- A run as a sequence of steps: the scheduler applies a decision of
-- application/scheduling/decision.go, or the entry that runs comes to an end.
use healix_core.Prelude.{
  Text, ℕ, suc, ◌+◌, ◌≤◌, ◌<◌, ◌≡◌, refl, ◌≢◌, ◌⊎◌, inl, inr, List, [], ◌∷◌, Option, All, length,
  ok, arith, ap, subst, sym,
}
use healix_core.Execution.Status.{EntryStatus, InstanceStatus, can_transition_to}
use healix_core.Execution.Snapshot.{FailurePolicy, Entry}
use healix_core.Scheduling.Decision.{
  SkipCause, EntryState, ExecutionTransition, Decision, advance_ordered, validate_serial_shape,
}
use healix_core.Scheduling.Decision.Shape.{
  IsRunning, Frontier, Stopped, validate_serial_shape-Frontier, validate_serial_shape-Stopped,
}
use healix_core.Scheduling.Decision.Advance.{Writes, done, keep, write, Concludes}

-- How many steps an entry can still take.
abbrev pub weight : EntryStatus → ℕ
weight EntryStatus.pending = 2
weight EntryStatus.running = 1
weight _ = 0

abbrev pub work : List EntryState → ℕ
work [] = 0
work (st ∷ rest) = weight st.status + work rest

weight-falls : (from to : EntryStatus) → can_transition_to from to ≡ ok tt → weight to < weight from
unfolding can_transition_to
weight-falls from to h = ground arith

-- Applied writes use up at least one step each.
pub Writes-work :
    {entries : List Entry} {states after : List EntryState} {ts : List ExecutionTransition}
    → Writes entries states ts after
    → work after + length ts ≤ work states
Writes-work done = omega arith
Writes-work (keep w) = omega (arith, Writes-work w)
Writes-work (write {st = st} {t = t} i f c w) =
    omega (arith, Writes-work w, subst (λ s. weight t.to < weight s) f (weight-falls t.from t.to c))

-- Entries of one plan have identities of their own.
abbrev pub Distinct : List Entry → Type 0
Distinct [] = Unit {0}
Distinct (e ∷ rest) = All (λ f. f.id ≢ e.id) rest × Distinct rest

pub Writes-nothing :
    {entries : List Entry} {states after : List EntryState} {ts : List ExecutionTransition}
    → Writes entries states ts after
    → ts ≡ []
    → after ≡ states
Writes-nothing done e = refl
Writes-nothing (keep {st = st} w) e = ap (λ l. st ∷ l) (Writes-nothing w e)
Writes-nothing (write i f c w) e = cc

-- The first write goes to some entry of the list.
Writes-elsewhere :
    {entries : List Entry} {states after : List EntryState} {ts : List ExecutionTransition}
    (id : Text) (t : ExecutionTransition) (rest : List ExecutionTransition)
    → Writes entries states ts after
    → ts ≡ t ∷ rest
    → All (λ f. f.id ≢ id) entries
    → t.entry_id ≢ id
Writes-elsewhere id t rest done e fresh = cc
Writes-elsewhere id t rest (keep w) e fresh = Writes-elsewhere id t rest w e fresh.1
Writes-elsewhere id t rest (write {e = x} {t = u} i f c w) e fresh = λ h. fresh.0 (cc (i, h, e))

-- Applied to a plan whose entries are distinct, a set of writes has one result.
pub Writes-unique :
    {entries : List Entry} {states a b : List EntryState} {ts : List ExecutionTransition}
    → Distinct entries
    → Writes entries states ts a
    → Writes entries states ts b
    → a ≡ b
Writes-unique d done v = sym (Writes-nothing v refl)
Writes-unique d (keep {st = st} w) (keep v) = ap (λ l. st ∷ l) (Writes-unique d.1 w v)
Writes-unique d (keep {st = st} w) done = ap (λ l. st ∷ l) (Writes-nothing w refl)
Writes-unique d (keep {e = e} w) (write {t = t} {ts = ts} i f c v) =
    absurd (Writes-elsewhere e.id t ts w refl d.0 i)
Writes-unique d (write {e = e} {t = t} {ts = ts} i f c w) (keep v) =
    absurd (Writes-elsewhere e.id t ts v refl d.0 i)
Writes-unique d (write {st = st} {t = t} i f c w) (write j g k v) =
    ap (λ l. record st { status = t.to; skip_cause = t.cause } ∷ l) (Writes-unique d.1 w v)

-- The running entry comes to an end.
pub data Finishes : List EntryState → List EntryState → Type 0 where
  here :
      {st : EntryState} {rest : List EntryState} (to : EntryStatus)
      → IsRunning st
      → can_transition_to EntryStatus.running to ≡ ok tt
      → Finishes (st ∷ rest) (record st { status = to } ∷ rest)
  there :
      {st : EntryState} {rest after : List EntryState}
      → Finishes rest after
      → Finishes (st ∷ rest) (st ∷ after)

abbrev pub IsSerial : FailurePolicy → List EntryState → Type 0
IsSerial policy states =
    Frontier policy states
    ⊎ ((k : ℕ) × (c : SkipCause) × (f : InstanceStatus) × Stopped policy c f k states)

pub data Step (policy : FailurePolicy) (entries : List Entry)
    : List EntryState → List EntryState → Type 0 where
  decide :
      {states after : List EntryState} {d : Decision}
      → advance_ordered policy entries states ≡ ok d
      → d.transitions ≢ []
      → Writes entries states d.transitions after
      → Step policy entries states after
  finish :
      {states after : List EntryState} → Finishes states after → Step policy entries states after

-- The states after a number of steps.
pub data Runs (policy : FailurePolicy) (entries : List Entry) (start : List EntryState)
    : ℕ → List EntryState → Type 0 where
  begin : Runs policy entries start 0 start
  next :
      {n : ℕ} {states after : List EntryState}
      → Runs policy entries start n states
      → Step policy entries states after
      → Runs policy entries start (suc n) after

pub IsSerial-accepted :
    (policy : FailurePolicy) (states : List EntryState)
    → IsSerial policy states
    → (o : Option ℕ × SkipCause × InstanceStatus) × (validate_serial_shape states policy ≡ ok o)
IsSerial-accepted policy states (inl p) = (_, validate_serial_shape-Frontier policy states p)
IsSerial-accepted policy states (inr (k, c, f, p)) =
    (_, validate_serial_shape-Stopped policy states k c f p)

pub Concludes-IsSerial :
    (policy : FailurePolicy) (d : Decision) (after : List EntryState)
    → Concludes policy d after
    → IsSerial policy after
Concludes-IsSerial policy d after (inl (n, p, r)) = inl p
Concludes-IsSerial policy d after (inr (f, e, t, inl (p, r))) = inl p
Concludes-IsSerial policy d after (inr (f, e, t, inr (k, c, p))) = inr (k, c, f, p)

pub Writes-length :
    {entries : List Entry} {states after : List EntryState} {ts : List ExecutionTransition}
    → Writes entries states ts after
    → length after ≡ length states
Writes-length done = refl
Writes-length (keep w) = ap suc (Writes-length w)
Writes-length (write i f c w) = ap suc (Writes-length w)

pub Finishes-length : {s t : List EntryState} → Finishes s t → length t ≡ length s
Finishes-length (Finishes.here to r c) = refl
Finishes-length (Finishes.there f) = ap suc (Finishes-length f)

pub Finishes-work : {s t : List EntryState} → Finishes s t → work t < work s
Finishes-work (Finishes.here to r c) =
    omega
      (arith, subst (λ x. weight to < weight x) (sym r.0) (weight-falls EntryStatus.running to c))
Finishes-work (Finishes.there f) = omega (arith, Finishes-work f)
