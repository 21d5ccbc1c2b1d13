-- ===== src/Scheduling/Decision/Liveness.antt =====
-- Every run under the decisions of application/scheduling/decision.go stays serial, is never
-- stuck, and ends.
use healix_core.Prelude.{
  ℕ, suc, ◌+◌, ◌*◌, ◌≤◌, ◌<◌, ◌≡◌, refl, ◌≢◌, ◌⊎◌, inl, inr, List, [], ◌∷◌, some, All, length, ok,
  arith, sym, ◌∙◌, subst, ok_injective, if◌then◌else◌, false,
}
use healix_core.Execution.Status.{EntryStatus, InstanceStatus, can_transition_to, is_running}
use healix_core.Execution.Snapshot.{FailurePolicy, stop_on_failure, continue_on_failure, Entry}
use healix_core.Scheduling.Decision.{
  SkipCause, EntryState, Decision, ExecutionTransition, advance_ordered,
}
use healix_core.Scheduling.Decision.Shape.{
  IsPending, IsLeftBehind, Stops, Frontier, idle, busy, Stopped, ended,
}
use healix_core.Scheduling.Decision.Advance.{
  Writes, IsDone, HasRunning, Concludes, FinalFor, Advances, advance_ordered-Advances,
}
use healix_core.Scheduling.Decision.Advance
use healix_core.Scheduling.Decision.Progress.{
  work, Distinct, Writes-work, Writes-unique, Finishes, IsSerial, Step, decide, finish, Runs, begin,
  next, IsSerial-accepted, Concludes-IsSerial, Writes-length, Finishes-length, Finishes-work,
  Writes-nothing,
}

-- An entry that ended by a legal transition passed, or stopped the run.
ends_cases :
    (policy : FailurePolicy) (to : EntryStatus)
    → can_transition_to EntryStatus.running to ≡ ok tt
    → ((to ≡ EntryStatus.succeeded) ⊎ ((to ≡ EntryStatus.failed) × (policy ≢ stop_on_failure)))
      ⊎ ((c : SkipCause) × (f : InstanceStatus) × Stops policy c f to)
unfolding can_transition_to
ends_cases policy EntryStatus.succeeded h = inl (inl refl)
ends_cases policy EntryStatus.canceled h = inr (_, _, inr (inl (refl, refl, refl)))
ends_cases policy EntryStatus.aborted h = inr (_, _, inr (inr (refl, refl, refl)))
ends_cases stop_on_failure EntryStatus.failed h = inr (_, _, inl (refl, refl, refl, refl))
ends_cases continue_on_failure EntryStatus.failed h = inl (inr (refl, λ e. cc))
ends_cases (FailurePolicy.other t) EntryStatus.failed h = inl (inr (refl, λ e. cc))
ends_cases policy EntryStatus.pending h = cc
ends_cases policy EntryStatus.running h = cc
ends_cases policy EntryStatus.skipped h = cc
ends_cases policy (EntryStatus.other t) h = cc

waits-left :
    (c : SkipCause) (states : List EntryState) → All IsPending states → All (IsLeftBehind c) states
waits-left c [] p = tt
waits-left c (st ∷ rest) p = (inl p.0, waits-left c rest p.1)

not-finishing :
    (P : EntryState → Type 0)
    → ((st : EntryState) → P st → st.status ≢ EntryStatus.running)
    → {s t : List EntryState} → All P s
    → Finishes s t
    → ⊥
not-finishing P n p (Finishes.here {st = st} to r c) = n st p.0 r.0
not-finishing P n p (Finishes.there f) = not-finishing P n p.1 f

module _ (policy : FailurePolicy) where
  Frontier-Finishes : {s t : List EntryState} → Frontier policy s → Finishes s t → IsSerial policy t
  Frontier-Finishes (idle p) f = absurd (not-finishing IsPending (λ st q e. cc (q.0, e)) p f)
  Frontier-Finishes (busy r p) (Finishes.here {st = st} {rest = rest} to q c) =
      elim (ends_cases policy to c) [
        | inl g ↦ inl (Frontier.passed (g, r.1) (idle p))
        | inr (x, y, g) ↦ inr (0, x, y, ended g r.1 (waits-left x rest p))
      ]
  Frontier-Finishes (busy r p) (Finishes.there f) =
      absurd (not-finishing IsPending (λ st q e. cc (q.0, e)) p f)
  Frontier-Finishes (Frontier.passed p q) (Finishes.here to r c) = ground arith
  Frontier-Finishes (Frontier.passed p q) (Finishes.there f) = elim (Frontier-Finishes q f) [
    | inl g ↦ inl (Frontier.passed p g)
    | inr (k, x, y, g) ↦ inr (suc k, x, y, Stopped.passed p g)
  ]

  not-Stopped-Finishes :
      {c : SkipCause} {f : InstanceStatus} {k : ℕ} {s t : List EntryState}
      → Stopped policy c f k s
      → Finishes s t
      → ⊥
  not-Stopped-Finishes (ended p n q) (Finishes.here to r c) = ground arith
  not-Stopped-Finishes {c = c} (ended p n q) (Finishes.there f) =
      not-finishing (IsLeftBehind c) (λ st u e. ground arith) q f
  not-Stopped-Finishes (Stopped.passed p q) (Finishes.here to r c) = ground arith
  not-Stopped-Finishes (Stopped.passed p q) (Finishes.there f) = not-Stopped-Finishes q f

abbrev pub running_count : List EntryState → ℕ
running_count [] = 0
running_count (st ∷ rest) =
    if is_running st.status then suc (running_count rest) else running_count rest

none_running :
    (P : EntryState → Type 0)
    → ((st : EntryState) → P st → is_running st.status ≡ false)
    → (states : List EntryState) → All P states
    → running_count states ≡ 0
none_running P n [] p = refl
none_running P n (st ∷ rest) p = rw (n st p.0) (none_running P n rest p.1)

running_count-Frontier :
    (policy : FailurePolicy) {s : List EntryState} → Frontier policy s → running_count s ≤ 1
running_count-Frontier policy {s} (idle p) =
    omega (arith, none_running IsPending (λ st q. ground arith) s p)
running_count-Frontier policy (busy {rest = rest} r p) =
    ground (arith, none_running IsPending (λ st q. ground arith) rest p)
running_count-Frontier policy (Frontier.passed p q) =
    ground (arith, running_count-Frontier policy q)

running_count-Stopped :
    (policy : FailurePolicy) {c : SkipCause} {f : InstanceStatus} {k : ℕ} {s : List EntryState}
    → Stopped policy c f k s
    → running_count s ≡ 0
running_count-Stopped policy {c} (ended {rest = rest} p n q) =
    ground (arith, none_running (IsLeftBehind c) (λ st u. ground arith) rest q)
running_count-Stopped policy (Stopped.passed p q) = ground (arith, running_count-Stopped policy q)

running_count-IsSerial :
    (policy : FailurePolicy) (s : List EntryState) → IsSerial policy s → running_count s ≤ 1
running_count-IsSerial policy s (inl p) = running_count-Frontier policy p
running_count-IsSerial policy s (inr (k, c, f, p)) = omega (arith, running_count-Stopped policy p)

module _ (policy : FailurePolicy) (entries : List Entry) where
  advance_ordered-IsSerial :
      (s t : List EntryState) (d : Decision)
      → Distinct entries
      → length entries ≡ length s
      → IsSerial policy s
      → advance_ordered policy entries s ≡ ok d
      → Writes entries s d.transitions t
      → IsSerial policy t
  advance_ordered-IsSerial s t d u n p e w =
      let (o, h) = IsSerial-accepted policy s p in
      let (d', e', (after, w', c)) = advance_ordered-Advances policy entries s n h in
      let q : d' ≡ d = ok_injective (sym e' ∙ e) in
      let v : Writes entries s d.transitions after =
        subst (λ (x : Decision). Writes entries s x.transitions after) q w' in
      subst (IsSerial policy) (Writes-unique u v w) (Concludes-IsSerial policy d' after c)

  Step-IsSerial :
      {s t : List EntryState}
      → Distinct entries
      → length entries ≡ length s
      → IsSerial policy s
      → Step policy entries s t
      → IsSerial policy t × (length entries ≡ length t) × (work t < work s)
  Step-IsSerial {s} {t} u n p (decide {d = d} e m w) = (
    advance_ordered-IsSerial s t d u n p e w,
    omega (arith, Writes-length w),
    fewer d.transitions m (Writes-work w),
  )
    where
      fewer : {a b : ℕ} (ts : List ExecutionTransition) → ts ≢ [] → a + length ts ≤ b → a < b
      fewer [] m h = absurd (m refl)
      fewer (x ∷ ts) m h = omega arith
  Step-IsSerial u n p (finish f) = (finished p f, omega (arith, Finishes-length f), Finishes-work f)
    where
      finished : {s t : List EntryState} → IsSerial policy s → Finishes s t → IsSerial policy t
      finished (inl q) f = Frontier-Finishes policy q f
      finished (inr (k, c, g, q)) f = absurd (not-Stopped-Finishes policy q f)

  -- A run that has ended: the decision asks for no write and names the final status.
  abbrev pub IsOver : List EntryState → Type 0
  IsOver s =
      (d : Decision) × (advance_ordered policy entries s ≡ ok d)
      × (d.transitions ≡ [])
      × ((f : InstanceStatus) × (d.final_status ≡ some f) × All IsDone s × FinalFor policy s f)

  HasRunning-Finishes : {s : List EntryState} → HasRunning s → (t : List EntryState) × Finishes s t
  unfolding can_transition_to
  HasRunning-Finishes (Advance.here r) = (_, Finishes.here EntryStatus.succeeded r refl)
  HasRunning-Finishes (Advance.there h) =
      let (t, f) = HasRunning-Finishes h in (_, Finishes.there f)

  not_stuck :
      (s : List EntryState)
      → length entries ≡ length s
      → IsSerial policy s
      → ((t : List EntryState) × Step policy entries s t) ⊎ IsOver s
  not_stuck s n p =
      let (o, h) = IsSerial-accepted policy s p in
      let (d, e, (after, w, c)) = advance_ordered-Advances policy entries s n h in
      choose d e after w c d.transitions refl
    where
      choose :
          (d : Decision)
          → advance_ordered policy entries s ≡ ok d
          → (after : List EntryState) → Writes entries s d.transitions after
          → Concludes policy d after
          → (ts : List ExecutionTransition) → d.transitions ≡ ts
          → ((t : List EntryState) × Step policy entries s t) ⊎ IsOver s
      choose d e after w c (t ∷ ts) q = inl (after, decide e (λ r. cc) w)
      choose d e after w (inl (m, g, r)) [] q =
          let (t, f) = HasRunning-Finishes (subst HasRunning (Writes-nothing w q) r) in
          inl (t, finish f)
      choose d e after w (inr (f, m, g, r)) [] q = inr (
        d,
        e,
        q,
        (
          f,
          m,
          subst (All IsDone) (Writes-nothing w q) g,
          subst (λ x. FinalFor policy x f) (Writes-nothing w q) r,
        ),
      )

  Runs-IsSerial :
      {start s : List EntryState} {n : ℕ}
      → Distinct entries
      → length entries ≡ length start
      → IsSerial policy start
      → Runs policy entries start n s
      → IsSerial policy s × (length entries ≡ length s) × (n + work s ≤ work start)
  Runs-IsSerial u l p begin = (p, l, omega arith)
  Runs-IsSerial u l p (next r st) =
      let (q, m, b) = Runs-IsSerial u l p r in
      let (q', m', b') = Step-IsSerial u m q st in (q', m', omega arith)

work-pending : (states : List EntryState) → All IsPending states → work states ≡ 2 * length states
work-pending [] p = omega arith
work-pending (st ∷ rest) p = ground (arith, work-pending rest p.1)

-- From entries of their own identities that all wait, every run of decisions and of endings of
-- the running entry takes at most two steps for each entry, runs at most one entry at a time, and
-- has a further step unless every entry has ended and the decision is the final status that the
-- entries call for, with no write.
pub run_ends :
    (policy : FailurePolicy) (entries : List Entry) (start s : List EntryState) (n : ℕ)
    → Distinct entries
    → length entries ≡ length start
    → All IsPending start
    → Runs policy entries start n s
    → (n ≤ 2 * length entries)
      × (running_count s ≤ 1)
      × (((t : List EntryState) × Step policy entries s t) ⊎ IsOver policy entries s)
run_ends policy entries start s n u l p r =
    let (q, m, b) = Runs-IsSerial policy entries u l (inl (idle p)) r in
    (
      omega (arith, work-pending start p),
      running_count-IsSerial policy s q,
      not_stuck policy entries s m q,
    )
