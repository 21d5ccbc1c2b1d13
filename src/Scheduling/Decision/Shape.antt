-- ===== src/Scheduling/Decision/Shape.antt =====
-- The shapes of a serial run that `validateSerialShape` (application/scheduling/decision.go)
-- accepts, stated without the loop, and the proof that the loop decides them.
use healix_core.Prelude.{
  ℕ, suc, ◌+◌, true, false, ◌≡◌, refl, ◌≢◌, ◌⊎◌, inl, inr, ◌↔◌, List, [], ◌∷◌, Option, none, some,
  All, ok, >>=-eq-ok, arith, text_eq_sound, length, ◌∙◌, ap, subst, subst₂, ok_injective,
}
use healix_core.Execution.Status.{EntryStatus, InstanceStatus, is_terminal_entry_status}
use healix_core.Execution.Snapshot.{FailurePolicy, stop_on_failure}
use healix_core.Scheduling.Decision.{
  SkipCause, EntryState, is_no_cause, same_cause, unset_status, Scan, first_scan, is_known_status,
  stop_for, scan_entry, scan_entries, validate_serial_shape,
}

abbrev pub IsPending : EntryState → Type 0
IsPending st = (st.status ≡ EntryStatus.pending) × (is_no_cause st.skip_cause ≡ true)

abbrev pub IsRunning : EntryState → Type 0
IsRunning st = (st.status ≡ EntryStatus.running) × (is_no_cause st.skip_cause ≡ true)

-- The entry ended and the run goes on: it succeeded, or it failed and the policy tolerates that.
abbrev pub IsPassed : FailurePolicy → EntryState → Type 0
IsPassed policy st =
    ((st.status ≡ EntryStatus.succeeded)
      ⊎ ((st.status ≡ EntryStatus.failed) × (policy ≢ stop_on_failure)))
    × (is_no_cause st.skip_cause ≡ true)

-- The status ends the run, with the cause for the entries after it and the run's own status.
abbrev pub Stops : FailurePolicy → SkipCause → InstanceStatus → EntryStatus → Type 0
Stops policy cause final status =
    ((status ≡ EntryStatus.failed)
      × (policy ≡ stop_on_failure)
      × (cause ≡ SkipCause.prior_failure)
      × (final ≡ InstanceStatus.failed))
    ⊎ ((status ≡ EntryStatus.canceled)
        × (cause ≡ SkipCause.prior_cancellation)
        × (final ≡ InstanceStatus.canceled))
    ⊎ ((status ≡ EntryStatus.aborted)
        × (cause ≡ SkipCause.prior_abort)
        × (final ≡ InstanceStatus.aborted))

-- After a stop an entry still waits, or was skipped for that very cause.
abbrev pub IsLeftBehind : SkipCause → EntryState → Type 0
IsLeftBehind cause st =
    IsPending st ⊎ ((st.status ≡ EntryStatus.skipped) × (same_cause st.skip_cause cause ≡ true))

-- Entries that passed, then one that may run, then entries that wait.
pub data Frontier (policy : FailurePolicy) : List EntryState → Type 0 where
  idle : {rest : List EntryState} → All IsPending rest → Frontier policy rest
  busy :
      {st : EntryState} {rest : List EntryState}
      → IsRunning st
      → All IsPending rest
      → Frontier policy (st ∷ rest)
  passed :
      {st : EntryState} {rest : List EntryState}
      → IsPassed policy st
      → Frontier policy rest
      → Frontier policy (st ∷ rest)

-- Entries that passed, then at `index` the one that ended the run, then those left behind.
pub data Stopped (policy : FailurePolicy) (cause : SkipCause) (final : InstanceStatus)
    : ℕ → List EntryState → Type 0 where
  ended :
      {st : EntryState} {rest : List EntryState}
      → Stops policy cause final st.status
      → is_no_cause st.skip_cause ≡ true
      → All (IsLeftBehind cause) rest
      → Stopped policy cause final 0 (st ∷ rest)
  passed :
      {index : ℕ} {st : EntryState} {rest : List EntryState}
      → IsPassed policy st
      → Stopped policy cause final index rest
      → Stopped policy cause final (suc index) (st ∷ rest)

-- The three modes of the loop.
abbrev going : ℕ → Scan
going i = record first_scan { index = i }

abbrev waiting : ℕ → Scan
waiting i = record first_scan { index = i; frontier_seen = true }

abbrev halted : ℕ → ℕ → SkipCause → InstanceStatus → Scan
halted i k c f = record {
  index = i;
  frontier_seen = false;
  stop_index = some k;
  expected_cause = c;
  final_status = f;
}

-- The result of the loop, in the variables that the source returns.
abbrev Ends : Scan → Option ℕ → SkipCause → InstanceStatus → Type 0
Ends s index c f = (s.stop_index ≡ index) × (s.expected_cause ≡ c) × (s.final_status ≡ f)

no_cause-same :
    (a c : SkipCause) → same_cause a c ≡ true → is_no_cause c ≡ false → is_no_cause a ≡ false
no_cause-same (SkipCause.other t) (SkipCause.other u) h n = rw (← text_eq_sound t u h) at n
no_cause-same SkipCause.no_cause c h n = ground arith
no_cause-same (SkipCause.other t) c h n = ground arith
no_cause-same _ c h n = refl

module _ (policy : FailurePolicy) where
  step-waiting :
      (i : ℕ) (st : EntryState) (s : Scan)
      → scan_entry policy (waiting i) st ≡ ok s
      → IsPending st × (s ≡ waiting (suc i))
  unfolding scan_entry is_known_status is_terminal_entry_status stop_for
  step-waiting i st s h = ground arith

  step-halted :
      (i k : ℕ) (c : SkipCause) (f : InstanceStatus) (st : EntryState) (s : Scan)
      → scan_entry policy (halted i k c f) st ≡ ok s
      → IsLeftBehind c st × (s ≡ halted (suc i) k c f)
  unfolding scan_entry is_known_status is_terminal_entry_status stop_for
  step-halted i k c f st s h = ground arith

  abbrev Going : ℕ → EntryState → Scan → Type 0
  Going i st s =
      ((IsPending st ⊎ IsRunning st) × (s ≡ waiting (suc i)))
      ⊎ (IsPassed policy st × (s ≡ going (suc i)))
      ⊎ (Stops policy s.expected_cause s.final_status st.status
          × (is_no_cause st.skip_cause ≡ true)
          × (s ≡ halted (suc i) i s.expected_cause s.final_status))

  step-going :
      (i : ℕ) (st : EntryState) (s : Scan) → scan_entry policy (going i) st ≡ ok s → Going i st s
  unfolding scan_entry is_known_status is_terminal_entry_status stop_for
  step-going i st s h = ground arith

  sound-waiting :
      (i : ℕ) (states : List EntryState) (s : Scan)
      → scan_entries policy (waiting i) states ≡ ok s
      → All IsPending states × Ends s none SkipCause.no_cause unset_status
  unfolding scan_entries
  sound-waiting i [] s h = ground arith
  sound-waiting i (st ∷ rest) s h =
      let (t, e, h') = >>=-eq-ok (scan_entry policy (waiting i) st) _ h in
      let (p, q) = step-waiting i st t e in
      let (all, r) = sound-waiting (suc i) rest s (rw q at h') in ((p, all), r)

  sound-halted :
      (i k : ℕ) (c : SkipCause) (f : InstanceStatus) (states : List EntryState) (s : Scan)
      → scan_entries policy (halted i k c f) states ≡ ok s
      → All (IsLeftBehind c) states × Ends s (some k) c f
  unfolding scan_entries
  sound-halted i k c f [] s h = ground arith
  sound-halted i k c f (st ∷ rest) s h =
      let (t, e, h') = >>=-eq-ok (scan_entry policy (halted i k c f) st) _ h in
      let (p, q) = step-halted i k c f st t e in
      let (all, r) = sound-halted (suc i) k c f rest s (rw q at h') in ((p, all), r)

  abbrev Verdict : ℕ → List EntryState → Scan → Type 0
  Verdict i states s =
      (Frontier policy states × Ends s none SkipCause.no_cause unset_status)
      ⊎ ((k : ℕ) × (c : SkipCause) × (f : InstanceStatus) × Stopped policy c f k states
          × Ends s (some (i + k)) c f)

  sound-going :
      (i : ℕ) (states : List EntryState) (s : Scan)
      → scan_entries policy (going i) states ≡ ok s
      → Verdict i states s
  unfolding scan_entries
  sound-going i [] s h = inl (idle tt, ground arith)
  sound-going i (st ∷ rest) s h =
      let (t, e, h') = >>=-eq-ok (scan_entry policy (going i) st) _ h in
      first i st rest s t h' (sound-going (suc i) rest s) (step-going i st t e)
    where
      first :
          (i : ℕ) (st : EntryState) (rest : List EntryState) (s t : Scan)
          → scan_entries policy t rest ≡ ok s
          → (scan_entries policy (going (suc i)) rest ≡ ok s → Verdict (suc i) rest s)
          → Going i st t
          → Verdict i (st ∷ rest) s
      first i st rest s t h rec (inl (inl p, q)) =
          let (all, r) = sound-waiting (suc i) rest s (rw q at h) in inl (idle (p, all), r)
      first i st rest s t h rec (inl (inr p, q)) =
          let (all, r) = sound-waiting (suc i) rest s (rw q at h) in inl (busy p all, r)
      first i st rest s t h rec (inr (inl (p, q))) = later (rec (rw q at h))
        where
          later : Verdict (suc i) rest s → Verdict i (st ∷ rest) s
          later (inl (f, r)) = inl (Frontier.passed p f, r)
          later (inr (k, c, f, d, r)) =
              inr (suc k, c, f, Stopped.passed p d, (ground (arith, r.0), r.1, r.2))
      first i st rest s t h rec (inr (inr (p, n, q))) =
          let (all, r) =
            sound-halted (suc i) i t.expected_cause t.final_status rest s (rw q at h) in
          inr (0, t.expected_cause, t.final_status, ended p n all, (ground (arith, r), r.1, r.2))

  step-pending :
      (i : ℕ) (st : EntryState)
      → IsPending st
      → scan_entry policy (going i) st ≡ ok (waiting (suc i))
  unfolding scan_entry is_known_status is_terminal_entry_status stop_for
  step-pending i st p = ground arith

  step-running :
      (i : ℕ) (st : EntryState)
      → IsRunning st
      → scan_entry policy (going i) st ≡ ok (waiting (suc i))
  unfolding scan_entry is_known_status is_terminal_entry_status stop_for
  step-running i st p = ground arith

  step-pending_again :
      (i : ℕ) (st : EntryState)
      → IsPending st
      → scan_entry policy (waiting i) st ≡ ok (waiting (suc i))
  unfolding scan_entry is_known_status is_terminal_entry_status stop_for
  step-pending_again i st p = ground arith

  step-passed :
      (i : ℕ) (st : EntryState)
      → IsPassed policy st
      → scan_entry policy (going i) st ≡ ok (going (suc i))
  unfolding scan_entry is_known_status is_terminal_entry_status stop_for
  step-passed i st p = ground arith

  step-Stops :
      (i : ℕ) (st : EntryState) (c : SkipCause) (f : InstanceStatus)
      → Stops policy c f st.status
      → is_no_cause st.skip_cause ≡ true
      → scan_entry policy (going i) st ≡ ok (halted (suc i) i c f)
  unfolding scan_entry is_known_status is_terminal_entry_status stop_for
  step-Stops i st c f p n = ground arith

  step-left :
      (i k : ℕ) (st : EntryState) (c : SkipCause) (f : InstanceStatus)
      → IsLeftBehind c st
      → is_no_cause c ≡ false
      → scan_entry policy (halted i k c f) st ≡ ok (halted (suc i) k c f)
  unfolding scan_entry is_known_status is_terminal_entry_status stop_for
  step-left i k st c f p n = ground (arith, no_cause-same st.skip_cause c)

  Stops-cause :
      (c : SkipCause) (f : InstanceStatus) (status : EntryStatus)
      → Stops policy c f status
      → is_no_cause c ≡ false
  Stops-cause c f status h = ground arith

  complete-waiting :
      (i : ℕ) (states : List EntryState)
      → All IsPending states
      → scan_entries policy (waiting i) states ≡ ok (waiting (length states + i))
  unfolding scan_entries
  complete-waiting i [] p = ground arith
  complete-waiting i (st ∷ rest) p =
      rw (step-pending_again i st p.0)
        (complete-waiting (suc i) rest p.1 ∙ ap (λ n. ok (waiting n)) (omega arith))

  complete-halted :
      (i k : ℕ) (c : SkipCause) (f : InstanceStatus) (states : List EntryState)
      → is_no_cause c ≡ false
      → All (IsLeftBehind c) states
      → scan_entries policy (halted i k c f) states ≡ ok (halted (length states + i) k c f)
  unfolding scan_entries
  complete-halted i k c f [] n p = ground arith
  complete-halted i k c f (st ∷ rest) n p =
      rw (step-left i k st c f p.0 n)
        (complete-halted (suc i) k c f rest n p.1 ∙ ap (λ m. ok (halted m k c f)) (omega arith))

  complete-Frontier :
      (i : ℕ) (states : List EntryState)
      → Frontier policy states
      → (s : Scan) × (scan_entries policy (going i) states ≡ ok s)
        × Ends s none SkipCause.no_cause unset_status
  unfolding scan_entries
  complete-Frontier i [] (idle p) = (going i, refl, (refl, refl, refl))
  complete-Frontier i (st ∷ rest) (idle p) = (
    waiting (length rest + suc i),
    rw (step-pending i st p.0) (complete-waiting (suc i) rest p.1),
    (refl, refl, refl),
  )
  complete-Frontier i (st ∷ rest) (busy r p) = (
    waiting (length rest + suc i),
    rw (step-running i st r) (complete-waiting (suc i) rest p),
    (refl, refl, refl),
  )
  complete-Frontier i (st ∷ rest) (passed p q) =
      let (s, e, r) = complete-Frontier (suc i) rest q in (s, rw (step-passed i st p) e, r)

  complete-Stopped :
      (i k : ℕ) (c : SkipCause) (f : InstanceStatus) (states : List EntryState)
      → Stopped policy c f k states
      → (s : Scan) × (scan_entries policy (going i) states ≡ ok s) × Ends s (some (i + k)) c f
  unfolding scan_entries
  complete-Stopped i k c f [] h = elim h [ ]
  complete-Stopped i k c f (st ∷ rest) (ended p n q) = (
    halted (length rest + suc i) i c f,
    rw (step-Stops i st c f p n)
        (complete-halted (suc i) i c f rest (Stops-cause c f st.status p) q),
    (ground arith, refl, refl),
  )
  complete-Stopped i k c f (st ∷ rest) (passed p q) =
      let (s, e, r) = complete-Stopped (suc i) _ c f rest q in
      (s, rw (step-passed i st p) e, (ground (arith, r.0), r.1, r.2))

-- Whatever the loop accepts has one of the two shapes, with what it reports.
pub validate_serial_shape_cases :
    (policy : FailurePolicy) (states : List EntryState) {o : Option ℕ × SkipCause × InstanceStatus}
    → validate_serial_shape states policy ≡ ok o
    → ((o ≡ (none, SkipCause.no_cause, unset_status)) × Frontier policy states)
      ⊎ ((k : ℕ) × (o.0 ≡ some k) × Stopped policy o.1 o.2 k states)
unfolding validate_serial_shape
validate_serial_shape_cases policy states {o} h =
    let (s, e, h') = >>=-eq-ok (scan_entries policy (going 0) states) _ h in
    go s (ok_injective h') (sound-going policy 0 states s e)
  where
    go :
        (s : Scan)
        → (s.stop_index, s.expected_cause, s.final_status) ≡ o
        → Verdict policy 0 states s
        → ((o ≡ (none, SkipCause.no_cause, unset_status)) × Frontier policy states)
          ⊎ ((k : ℕ) × (o.0 ≡ some k) × Stopped policy o.1 o.2 k states)
    go s e (inl (p, r)) = inl (cc, p)
    go s e (inr (k, c, f, p, r)) =
        inr (k, ground arith, subst₂ (λ x y. Stopped policy x y k states) (cc) (cc) p)

pub validate_serial_shape-Frontier :
    (policy : FailurePolicy) (states : List EntryState)
    → Frontier policy states
    → validate_serial_shape states policy ≡ ok (none, SkipCause.no_cause, unset_status)
unfolding validate_serial_shape
validate_serial_shape-Frontier policy states h =
    let (s, e, r) = complete-Frontier policy 0 states h in rw e (ground (arith, r))

pub validate_serial_shape-Stopped :
    (policy : FailurePolicy) (states : List EntryState) (k : ℕ) (c : SkipCause) (f : InstanceStatus)
    → Stopped policy c f k states
    → validate_serial_shape states policy ≡ ok (some k, c, f)
unfolding validate_serial_shape
validate_serial_shape-Stopped policy states k c f h =
    let (s, e, r) = complete-Stopped policy 0 k c f states h in rw e (ground (arith, r))

-- `validateSerialShape` accepts without a stop index exactly the runs that passed entries, run at
-- most one and let the rest wait; and it reports a stop at an index, with its cause and the run's
-- final status, exactly for the runs that passed the entries before, ended there in that way and
-- left every later entry waiting or skipped for that cause.
pub validate_serial_shape_iff :
    (policy : FailurePolicy) (states : List EntryState)
    → ((validate_serial_shape states policy ≡ ok (none, SkipCause.no_cause, unset_status))
        ↔ Frontier policy states)
      × ((k : ℕ) (c : SkipCause) (f : InstanceStatus)
          → (validate_serial_shape states policy ≡ ok (some k, c, f)) ↔ Stopped policy c f k states)
validate_serial_shape_iff policy states = (
  (
    λ h. open_shape (validate_serial_shape_cases policy states h),
    validate_serial_shape-Frontier policy states,
  ),
  λ k c f. (
    λ h. stop_shape k (validate_serial_shape_cases policy states h),
    validate_serial_shape-Stopped policy states k c f,
  ),
)
  where
    open_shape :
        ((◌≡◌ {A = Option ℕ × SkipCause × InstanceStatus}
              (none, SkipCause.no_cause, unset_status)
              (none, SkipCause.no_cause, unset_status))
            × Frontier policy states)
          ⊎ ((k : ℕ) × (◌≡◌ {A = Option ℕ} none (some k))
              × Stopped policy SkipCause.no_cause unset_status k states)
        → Frontier policy states
    open_shape (inl (_, p)) = p
    open_shape (inr (k, e, p)) = cc

    stop_shape :
        (k : ℕ) {c : SkipCause} {f : InstanceStatus}
        → ((◌≡◌ {A = Option ℕ × SkipCause × InstanceStatus}
              (some k, c, f)
              (none, SkipCause.no_cause, unset_status))
            × Frontier policy states)
          ⊎ ((j : ℕ) × (◌≡◌ {A = Option ℕ} (some k) (some j)) × Stopped policy c f j states)
        → Stopped policy c f k states
    stop_shape k (inl (e, p)) = cc (ap (λ o. o.0) e)
    stop_shape k {c} {f} (inr (j, e, p)) = subst (λ m. Stopped policy c f m states) (cc e) p
