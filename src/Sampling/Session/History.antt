-- ===== src/Sampling/Session/History.antt =====
-- A recording session (domain/sampling/session.go) over any sequence of its operations.
use healix_core.Prelude.{
  Text, ◌≡◌, refl, ap, sym, subst, inl, inr, Bool, true, false, List, [], ◌∷◌, ◌++◌, Option, none,
  some, text_eq, text_eq_refl, text_eq_sound, is_blank, ◌||◌, Result, ok, arith, ◌∙◌, Bool-cases,
  Option-cases,
}
use mathlib.Core.List.{append_assoc, append-nil}
use healix_core.Sampling.Session.{
  Status, ElementTargetSpec, Capture, RecordedAction, CaptureResult, Session, SessionError,
  Rejection, lookup, is_created, is_recording, is_paused, new_session, start, pause, resume, end,
  interrupt,
}
use healix_core.Sampling.Session.Record.{record_capture}
use healix_core.Sampling.Session.Effect.{Keeps, Call, record_capture-Call}
use healix_core.Sampling.Session.Invariant.{
  WellFormed, Usable, Moved, Moved-WellFormed, start-WellFormed, record_capture-WellFormed,
}

module _ {B : Type 0} (parse : Text → Option (Text × Text))
    (valid : ElementTargetSpec B → Bool) where
  -- One operation, whatever it returns.
  pub data Step (s : Session B) : Session B → Type 0 where
    starts : (drawn : Option Text) → Step s (start drawn s).0
    pauses : Step s (pause s).0
    resumes : Step s (resume s).0
    ends : Step s (end s).0
    interrupts : Step s (interrupt s)
    records :
        (node_drawn action_drawn : Option Text) (c : Capture B)
        {p : Session B × Result SessionError CaptureResult}
        → Usable parse valid node_drawn
        → record_capture parse valid node_drawn action_drawn s c ≡ some p
        → Step s p.0

  pub data Runs (s : Session B) : Session B → Type 0 where
    begin : Runs s s
    next : {t u : Session B} → Runs s t → Step t u → Runs s u

  pause-Moved : (s : Session B) → Moved s (pause s).0
  unfolding pause
  pause-Moved s = elim (Bool-cases (is_recording s.status)) [
    | inl e ↦ inr (Status.paused, refl, rw e)
    | inr e ↦ inl (rw e)
  ]

  resume-Moved : (s : Session B) → Moved s (resume s).0
  unfolding resume
  resume-Moved s = elim (Bool-cases (is_paused s.status)) [
    | inl e ↦ inr (Status.recording, refl, rw e)
    | inr e ↦ inl (rw e)
  ]

  end-Moved : (s : Session B) → Moved s (end s).0
  unfolding end
  end-Moved s = elim (Bool-cases (is_recording s.status || is_paused s.status)) [
    | inl e ↦ inr (Status.ended, refl, rw e)
    | inr e ↦ inl (rw e)
  ]

  interrupt-Moved : (s : Session B) → Moved s (interrupt s)
  unfolding interrupt
  interrupt-Moved s =
      elim (Bool-cases (is_created s.status || is_recording s.status || is_paused s.status)) [
        | inl e ↦ inr (Status.interrupted, refl, rw e)
        | inr e ↦ inl (rw e)
      ]

  Step-WellFormed : {s t : Session B} → WellFormed s → Step s t → WellFormed t
  Step-WellFormed {s} w (starts drawn) = start-WellFormed drawn s w
  Step-WellFormed {s} w pauses = Moved-WellFormed s _ w (pause-Moved s)
  Step-WellFormed {s} w resumes = Moved-WellFormed s _ w (resume-Moved s)
  Step-WellFormed {s} w ends = Moved-WellFormed s _ w (end-Moved s)
  Step-WellFormed {s} w interrupts = Moved-WellFormed s _ w (interrupt-Moved s)
  Step-WellFormed {s} w (records node_drawn action_drawn c {p} h e) =
      let (s', r, q, w') = record_capture-WellFormed parse valid node_drawn action_drawn s c w h in
      let x : p ≡ (s', r) = cc (e, q) in subst (λ y. WellFormed y.0) (sym x) w'

  -- The actions of the one session are the first of the other.
  abbrev pub Extends : Session B → Session B → Type 0
  Extends s t = (later : List RecordedAction) × (t.actions ≡ s.actions ++ later)

  -- The results of the one session are found in the other.
  abbrev Remembers : Session B → Session B → Type 0
  Remembers s t =
      (key : Text) (q : CaptureResult)
      → lookup key s.by_capture_id ≡ some q
      → lookup key t.by_capture_id ≡ some q

  Moved-same : (s t : Session B) → Moved s t → Keeps parse valid s t
  Moved-same s t (inl e) = (ap (λ x. x.actions) e, ap (λ x. x.by_capture_id) e)
  Moved-same s t (inr (x, h, e)) = (ap (λ x. x.actions) e, ap (λ x. x.by_capture_id) e)

  Keeps-history : (s t : Session B) → Keeps parse valid s t → Extends s t × Remembers s t
  Keeps-history s t (a, m) =
      (([], a ∙ sym (append-nil s.actions)), λ key q h. ap (lookup key) m ∙ h)

  lookup_past :
      (key k : Text) (q r : CaptureResult) (m : List (Text × CaptureResult))
      → lookup k m ≡ none
      → lookup key m ≡ some q
      → lookup key ((k, r) ∷ m) ≡ some q
  unfolding lookup
  lookup_past key k q r m n h = elim (Bool-cases (text_eq k key)) [
    | inl e ↦
        let x : ◌≡◌ {A = Option CaptureResult} none (some q) =
          sym n ∙ ap (λ y. lookup y m) (text_eq_sound k key e) ∙ h in
        cc x
    | inr e ↦ rw (e, lookup) h
  ]

  Call-history :
      (s : Session B) (c : Capture B) (p : Session B × Result SessionError CaptureResult)
      → Call parse valid s c p
      → Extends s p.0 × Remembers s p.0
  Call-history s c p (inl (e, _)) =
      Keeps-history s p.0 (ap (λ x. x.actions) e, ap (λ x. x.by_capture_id) e)
  Call-history s c p (inr (inl (q, e, _, _))) =
      Keeps-history s p.0 (ap (λ x. x.0.actions) e, ap (λ x. x.0.by_capture_id) e)
  Call-history s c p (inr (inr (_, n, inl (k, _)))) = Keeps-history s p.0 k
  Call-history s c p (inr (inr (_, n, inr (a, r, _, e, m)))) = (
    (a ∷ [], e),
    λ key q h. ap (lookup key) m ∙ lookup_past key c.capture_id q r s.by_capture_id n h,
  )

  start-history :
      (drawn : Option Text) (s : Session B)
      → Extends s (start drawn s).0 × Remembers s (start drawn s).0
  unfolding start
  start-history none s = elim (Bool-cases (is_created s.status)) [
    | inl e ↦ rw e (Keeps-history s s (refl, refl))
    | inr e ↦ rw e (Keeps-history s s (refl, refl))
  ]
  start-history (some u) s = elim (Bool-cases (is_created s.status)) [
    | inl e ↦ rw e ((_, refl), λ key q h. h)
    | inr e ↦ rw e (Keeps-history s s (refl, refl))
  ]

  Step-history : {s t : Session B} → Step s t → Extends s t × Remembers s t
  Step-history {s} (starts drawn) = start-history drawn s
  Step-history {s} pauses = Keeps-history s (pause s).0 (Moved-same s (pause s).0 (pause-Moved s))
  Step-history {s} resumes =
      Keeps-history s (resume s).0 (Moved-same s (resume s).0 (resume-Moved s))
  Step-history {s} ends = Keeps-history s (end s).0 (Moved-same s (end s).0 (end-Moved s))
  Step-history {s} interrupts =
      Keeps-history s (interrupt s) (Moved-same s (interrupt s) (interrupt-Moved s))
  Step-history {s} (records node_drawn action_drawn c {p} h e) =
      Call-history s c p (record_capture-Call parse valid node_drawn action_drawn s c p e)

  Runs-WellFormed : {s t : Session B} → WellFormed s → Runs s t → WellFormed t
  Runs-WellFormed w begin = w
  Runs-WellFormed w (next r step) = Step-WellFormed (Runs-WellFormed w r) step

  Runs-history : {s t : Session B} → Runs s t → Extends s t × Remembers s t
  Runs-history {s} begin = Keeps-history s s (refl, refl)
  Runs-history {s} (next {t = t} {u = u} r step) =
      let ((a, e), m) = Runs-history r in
      let ((b, f), k) = Step-history step in
      (
        (a ++ b, f ∙ ap (λ x. x ++ b) e ∙ append_assoc s.actions a b),
        λ key q h. k key q (m key q h),
      )

  fresh :
      (check : Text → Option Rejection) (drawn : Option Text) (workflow_id start_url : Text)
      (s : Session B)
      → new_session check drawn workflow_id start_url ≡ ok s
      → (s.actions ≡ []) × (s.by_identity ≡ []) × (s.by_uuid ≡ []) × (s.by_capture_id ≡ [])
  unfolding new_session
  fresh check drawn workflow_id start_url s h =
      ground (arith, Option-cases (check start_url), Option-cases drawn)

  new_session-WellFormed :
      (check : Text → Option Rejection) (drawn : Option Text) (workflow_id start_url : Text)
      (s : Session B)
      → new_session check drawn workflow_id start_url ≡ ok s
      → WellFormed s
  unfolding new_session
  new_session-WellFormed check drawn workflow_id start_url s h =
      let (a, b, c, d) = fresh check drawn workflow_id start_url s h in
      rw (a, b, c, d) (tt, tt, tt, tt, inr refl)

  -- A session made by `NewSession`, after any operations, has actions numbered from one without a
  -- gap, identity maps that point to its nodes and results that tell of its actions; its first
  -- actions are those that it had at each earlier time. `Record` returns then on every capture
  -- and never indexes out of range, provided that each node identity drawn has twelve characters
  -- besides its dashes.
  pub new_session-Runs :
      (check : Text → Option Rejection) (drawn : Option Text) (workflow_id start_url : Text)
      (s t u : Session B) (node_drawn action_drawn : Option Text) (c : Capture B)
      → new_session check drawn workflow_id start_url ≡ ok s
      → Runs s t
      → Runs t u
      → Usable parse valid node_drawn
      → WellFormed u
        × Extends t u
        × ((p : Session B × Result SessionError CaptureResult) × (record_capture parse valid
                node_drawn action_drawn u c
              ≡ some p))
  new_session-Runs check drawn workflow_id start_url s t u node_drawn action_drawn c h r q usable =
      let w =
        Runs-WellFormed
          (Runs-WellFormed (new_session-WellFormed check drawn workflow_id start_url s h) r) q in
      let (s', x, e, _) =
        record_capture-WellFormed parse valid node_drawn action_drawn u c w usable in
      (w, (Runs-history q).0, ((s', x), e))

  recorded :
      (node_drawn action_drawn : Option Text) (s s' : Session B) (c : Capture B) (r : CaptureResult)
      → record_capture parse valid node_drawn action_drawn s c ≡ some (s', ok r)
      → (is_blank c.capture_id ≡ false) × (lookup c.capture_id s'.by_capture_id ≡ some r)
  unfolding lookup
  recorded node_drawn action_drawn s s' c r h =
      look (record_capture-Call parse valid node_drawn action_drawn s c (s', ok r) h)
    where
      look :
          Call parse valid s c (s', ok r)
          → (is_blank c.capture_id ≡ false) × (lookup c.capture_id s'.by_capture_id ≡ some r)
      look (inl (_, (e, q))) = cc
      look (inr (inl (q, e, b, l))) =
          let x : s ≡ s' = cc e in
          let y : q ≡ r = cc e in
          (
            b,
            subst (λ (z : Session B). lookup c.capture_id z.by_capture_id ≡ some r) x
                (l ∙ ap some y),
          )
      look (inr (inr (b, n, inl (_, (e, q))))) = cc
      look (inr (inr (b, n, inr (a, q, x, e, m)))) =
          let y : q ≡ r = cc x in (b, rw m (rw (text_eq_refl c.capture_id) (ap some y)))

  -- A capture that `Record` accepted is answered from then on, whatever happened to the session in
  -- between, by the same result, as long as the session records; the session stays as it is, and
  -- nothing but the identity of the capture counts.
  pub record_capture-replays :
      (node_drawn action_drawn again_node again_action : Option Text) (s s' t : Session B)
      (c d : Capture B) (r : CaptureResult)
      → record_capture parse valid node_drawn action_drawn s c ≡ some (s', ok r)
      → Runs s' t
      → is_recording t.status ≡ true
      → d.capture_id ≡ c.capture_id
      → record_capture parse valid again_node again_action t d ≡ some (t, ok r)
  unfolding record_capture
  record_capture-replays node_drawn action_drawn again_node again_action s s' t c d r h q e same =
      let (b, l) = recorded node_drawn action_drawn s s' c r h in
      let m = (Runs-history q).1 c.capture_id r l in rw (e, record_capture) (rw (same) (rw (b, m)))
