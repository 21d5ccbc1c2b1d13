-- ===== src/Sampling/Session/Effect.antt =====
-- What one call of `Session.Record` (domain/sampling/session.go) does to the actions and results.
use healix_core.Prelude.{
  Text, ℕ, ◌≡◌, refl, ap, sym, subst, ◌⊎◌, inl, inr, Bool, false, List, [], ◌∷◌, ◌++◌, Option, none,
  some, is_blank, Result, ok, err, arith, Bool-cases, Option-cases, get_elem?,
}
use healix_core.Sampling.Session.{
  ElementTargetSpec, Capture, RecordedAction, CaptureResult, Session, SessionError, internal_error,
  session_state_invalid, capture_invalid, lookup, is_recording, shape_violations,
}
use healix_core.Sampling.Session.Record.{
  find_node, create_node, update_node, target_node, append_action, capture_result, node_action,
  press_action, record_press, record_on, is_press, write_capture, replayed, record_capture,
}
use healix_core.Prelude.{List-cases}

module _ {B : Type 0} (parse : Text → Option (Text × Text))
    (valid : ElementTargetSpec B → Bool) where
  abbrev pub Keeps : Session B → Session B → Type 0
  Keeps s s' = (s'.actions ≡ s.actions) × (s'.by_capture_id ≡ s.by_capture_id)

  -- A capture that was written: one more action, and its result under its identity.
  abbrev pub Wrote : Session B → Capture B → Session B → Result SessionError CaptureResult → Type 0
  Wrote s c s' r =
      (a : RecordedAction) × (q : CaptureResult) × (r ≡ ok q)
      × (s'.actions ≡ s.actions ++ a ∷ [])
      × (s'.by_capture_id ≡ (c.capture_id, q) ∷ s.by_capture_id)

  abbrev pub Refused : Result SessionError CaptureResult → Type 0
  Refused r = (e : SessionError) × (r ≡ err e)

  target_node-Keeps :
      (drawn : Option Text) (s s' : Session B) (c : Capture B) {r : Result SessionError (ℕ × Bool)}
      → target_node parse valid drawn s c ≡ some (s', r)
      → Keeps s s'
  unfolding target_node create_node update_node
  target_node-Keeps drawn s s' c h =
      ground (arith, Option-cases (find_node s c), Option-cases drawn)

  -- What a call of `Record` does to the actions and the results.
  abbrev pub Effect : Session B → Capture B → Session B × Result SessionError CaptureResult → Type 0
  Effect s c p = (Keeps s p.0 × Refused p.1) ⊎ Wrote s c p.0 p.1

  settle :
      (s : Session B) (c : Capture B) {o : Option (Session B × Result SessionError CaptureResult)}
      (p p' : Session B × Result SessionError CaptureResult)
      → o ≡ some p
      → o ≡ some p'
      → Effect s c p
      → Effect s c p'
  settle s c p p' h k e = let q : p ≡ p' = cc (h, k) in subst (Effect s c) q e

  wrote :
      (s s' : Session B) (c : Capture B) (a : RecordedAction) (b : Bool)
      → Keeps s s'
      → Effect s c (append_action parse valid s' c a b)
  wrote s s' c a b (k, l) = inr (
    a,
    capture_result parse valid s' c a b,
    refl,
    ap (λ x. x ++ a ∷ []) k,
    ap (λ m. (c.capture_id, capture_result parse valid s' c a b) ∷ m) l,
  )

  record_on-Effect :
      (drawn : Option Text) (s t : Session B) (c : Capture B) (i : ℕ) (b : Bool)
      (p : Session B × Result SessionError CaptureResult)
      → Keeps s t
      → record_on parse valid drawn t c i b ≡ some p
      → Effect s c p
  unfolding record_on
  record_on-Effect none s t c i b p k h =
      settle s c (t, err internal_error) p refl h (inl (k, (internal_error, refl)))
  record_on-Effect (some u) s t c i b p k h = elim (Option-cases (get_elem? t.nodes i)) [
    | inl g ↦
        let q : ◌≡◌ {A = Option (Session B × Result SessionError CaptureResult)} none (some p) =
          rw (g, record_on) at h in
        cc q
    | inr (node, g) ↦
        settle s c (append_action parse valid t c (node_action parse valid t c u node) b) p refl
          (rw (g, record_on) at h) (wrote s t c (node_action parse valid t c u node) b k)
  ]

  record_press-Effect :
      (drawn : Option Text) (s : Session B) (c : Capture B)
      → Effect s c (record_press parse valid drawn s c)
  unfolding record_press
  record_press-Effect none s c = inl ((refl, refl), (internal_error, refl))
  record_press-Effect (some u) s c = wrote s s c (press_action parse valid s c u) false (refl, refl)

  write_capture-Effect :
      (node_drawn action_drawn : Option Text) (s : Session B) (c : Capture B)
      (p : Session B × Result SessionError CaptureResult)
      → write_capture parse valid node_drawn action_drawn s c ≡ some p
      → Effect s c p
  unfolding write_capture
  write_capture-Effect node_drawn action_drawn s c p h =
      elim (Bool-cases (is_press parse valid c.kind)) [
        | inl e ↦
            settle s c (record_press parse valid action_drawn s c) p refl
              (rw (e, write_capture) at h) (record_press-Effect action_drawn s c)
        | inr e ↦ elim (Option-cases (target_node parse valid node_drawn s c)) [
          | inl n ↦
              let q : ◌≡◌ {A = Option (Session B × Result SessionError CaptureResult)} none
                  (some p) =
                rw n at (rw (e, write_capture) at h) in
              cc q
          | inr ((t, r), n) ↦ targeted t r n (rw n at (rw (e, write_capture) at h))
        ]
      ]
    where
      targeted :
          (t : Session B) (r : Result SessionError (ℕ × Bool))
          → target_node parse valid node_drawn s c ≡ some (t, r)
          → elim r [
            | err e ↦ some (t, err e)
            | ok (i, b) ↦ record_on parse valid action_drawn t c i b
          ]
            ≡ some p
          → Effect s c p
      targeted t (err e) n k =
          settle s c (t, err e) p refl k (inl (target_node-Keeps node_drawn s t c n, (e, refl)))
      targeted t (ok (i, b)) n k =
          record_on-Effect action_drawn s t c i b p (target_node-Keeps node_drawn s t c n) k

  shaped : (c : Capture B) → shape_violations c ≡ [] → is_blank c.capture_id ≡ false
  unfolding shape_violations
  shaped c h = elim (Bool-cases (is_blank c.capture_id)) [
    | inl e ↦ let q : ◌≡◌ {A = List _} (_ ∷ _) [] = rw (e, shape_violations) at h in cc q
    | inr e ↦ e
  ]

  -- The three ways of a call: it is refused, it is a replay, or it goes on to write.
  abbrev pub Call : Session B → Capture B → Session B × Result SessionError CaptureResult → Type 0
  Call s c p =
      ((p.0 ≡ s) × Refused p.1)
      ⊎ (((q : CaptureResult) × (p ≡ (s, ok q))
            × (is_blank c.capture_id ≡ false)
            × (lookup c.capture_id s.by_capture_id ≡ some q))
          ⊎ ((is_blank c.capture_id ≡ false)
              × (lookup c.capture_id s.by_capture_id ≡ none)
              × Effect s c p))

  replayed-some :
      (s : Session B) (c : Capture B) (q : CaptureResult)
      → replayed parse valid s c ≡ some q
      → (is_blank c.capture_id ≡ false) × (lookup c.capture_id s.by_capture_id ≡ some q)
  replayed-some s c q h = ground arith

  replayed-none :
      (s : Session B) (c : Capture B)
      → replayed parse valid s c ≡ none
      → is_blank c.capture_id ≡ false
      → lookup c.capture_id s.by_capture_id ≡ none
  replayed-none s c h e = ground arith

  unchanged :
      (s : Session B) (c : Capture B) (e : SessionError)
      (p : Session B × Result SessionError CaptureResult)
      → (s, err e) ≡ p
      → Call s c p
  unchanged s c e p q = inl (ap (λ x. x.0) (sym q), (e, ap (λ x. x.1) (sym q)))

  pub record_capture-Call :
      (node_drawn action_drawn : Option Text) (s : Session B) (c : Capture B)
      (p : Session B × Result SessionError CaptureResult)
      → record_capture parse valid node_drawn action_drawn s c ≡ some p
      → Call s c p
  unfolding record_capture
  record_capture-Call node_drawn action_drawn s c p h = elim (Bool-cases (is_recording s.status)) [
    | inr e ↦ unchanged s c session_state_invalid p (cc (rw (e, record_capture) at h))
    | inl e ↦ elim (Option-cases (replayed parse valid s c)) [
      | inr (previous, n) ↦
          let q : (s, ok previous) ≡ p = cc (rw n at (rw (e, record_capture) at h)) in
          let (x, y) = replayed-some s c previous n in inr (inl (previous, sym q, x, y))
      | inl n ↦ elim (List-cases (shape_violations c)) [
        | inl v ↦ inr (
            inr (
              shaped c v,
              replayed-none s c n (shaped c v),
              write_capture-Effect node_drawn action_drawn s c p
                  (rw v at (rw n at (rw (e, record_capture) at h))),
            ))
        | inr (x, rest, v) ↦
            unchanged s c (capture_invalid (x ∷ rest)) p
              (cc (rw v at (rw n at (rw (e, record_capture) at h))))
      ]
    ]
  ]
