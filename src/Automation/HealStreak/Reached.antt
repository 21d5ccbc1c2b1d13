-- ===== src/Automation/HealStreak/Reached.antt =====
-- The states that a healing streak (domain/automation/healing.go) reaches from the empty one.
use healix_core.Prelude.{
  ℕ, ◌<◌, ltb, ◌≡◌, refl, ap, sym, subst, ◌∙◌, ◌⊎◌, inl, inr, true, false, List, [], ◌∷◌, ok, err,
  arith, is_blank,
}
use healix_core.Automation.HealStreak.{
  ContributingHealFact, HealObservation, HealStreakDisposition, await_approval, rejected,
  HealStreak, streak_state_invalid, empty_streak, are_valid_facts, is_valid_active,
  is_valid_disposition, is_valid_streak, is_valid_observation, facts_loop, is_valid_fact,
}
use healix_core.Automation.HealStreak.Observe.{
  with_observation, replay_loop, replayed, observe, observe_active, observe_current, advance,
  reject_streak,
}
use healix_core.Automation.HealStreak.Advanced.{
  IsBarren, Advanced, kept, started, ended, went_stale, contributed, Observed, observe-eq-ok,
}
use healix_core.Automation.HealStreak.Sound.{
  IsCoherent, IsCoherent-valid, new_heal_streak-IsCoherent, new_heal_terminal-IsCoherent,
  Advanced-IsCoherent,
}

-- The observations that were accepted, the latest first, and the streak that they left.
pub data Runs : List HealObservation → HealStreak → Type 0 where
  none_yet : Runs [] empty_streak
  observes :
      {os : List HealObservation} {s t : HealStreak}
      → Runs os s
      → (o : HealObservation) → observe s o ≡ ok t
      → Runs (o ∷ os) t
  rejects :
      {os : List HealObservation} {s t : HealStreak}
      → Runs os s
      → (n : ℕ) → reject_streak s n ≡ ok t
      → Runs os t

-- What `reject_streak` lets through.
pub reject-eq-ok :
    (s t : HealStreak) (n : ℕ)
    → reject_streak s n ≡ ok t
    → (is_valid_streak s ≡ true)
      × (s.disposition ≡ await_approval)
      × (s.last_sequence < n)
      × (t ≡ record s { last_sequence = n; is_observing = false; disposition = rejected })
unfolding reject_streak
reject-eq-ok s t n h = (ground arith, ground arith, ground arith, ground arith)

rejected-shaped :
    (d : HealStreakDisposition) (s : HealStreak) (n : ℕ)
    → d ≡ await_approval
    → s.disposition ≡ d
    → is_valid_disposition d s ≡ true
    → s.last_sequence < n
    → are_valid_facts s.contributions ≡ true
    → is_valid_disposition rejected
        (record s { last_sequence = n; is_observing = false; disposition = rejected })
      ≡ true
unfolding is_valid_disposition is_valid_active
rejected-shaped await_approval s n e e' h l facts = ground arith
rejected-shaped _ s n e e' h l facts = cc

rejected-IsCoherent :
    (s : HealStreak) (n : ℕ)
    → IsCoherent s
    → s.disposition ≡ await_approval
    → s.last_sequence < n
    → IsCoherent (record s { last_sequence = n; is_observing = false; disposition = rejected })
rejected-IsCoherent s n c d l = record {
  provenance = c.provenance;
  provenance_last = omega (arith, c.provenance_last, l);
  in_use = refl;
  shaped = rejected-shaped s.disposition s n d refl c.shaped l c.contributions;
  contributions = c.contributions;
  contributions_last = omega (arith, c.contributions_last, l);
  among = c.among;
}

Observed-IsCoherent :
    (s t : HealStreak) (o : HealObservation) → IsCoherent s → Observed s o t → IsCoherent t
Observed-IsCoherent s t o c w = elim w.effect [
  | inl (_, e) ↦ subst IsCoherent (sym e) c
  | inr (new, later, a) ↦ Advanced-IsCoherent s o w.valid_observation c new later t a
]

-- The empty streak after an observation that brings nothing: it has consumed the observation and
-- has no disposition.
pub record IsStuck (os : List HealObservation) (s : HealStreak) : Type 0 where
  pub first : HealObservation
  pub only : os ≡ first ∷ []
  pub current : first.base_is_current ≡ true
  pub barren : IsBarren first
  pub left : s ≡ with_observation empty_streak first.fact

stuck-invalid :
    (c : ContributingHealFact) → is_valid_streak (with_observation empty_streak c) ≡ false
unfolding is_valid_streak
stuck-invalid c = ground arith

IsStuck-invalid :
    {os : List HealObservation} {s : HealStreak} → IsStuck os s → is_valid_streak s ≡ false
IsStuck-invalid p = ap is_valid_streak p.left ∙ stuck-invalid p.first.fact

first-Observed :
    (t : HealStreak) (o : HealObservation)
    → Observed empty_streak o t
    → IsCoherent t ⊎ IsStuck (o ∷ []) t
unfolding replay_loop
first-Observed t o w = elim w.effect [
  | inl (r, _) ↦ absurd (no_replay r)
  | inr (_, _, a) ↦ first_case a
]
  where
    no_replay : replay_loop o.fact [] ≡ replayed → ⊥
    no_replay r = cc

    first_case : Advanced empty_streak o t → IsCoherent t ⊎ IsStuck (o ∷ []) t
    first_case (kept (inl b) e) = cc
    first_case (kept (inr (inl b)) e) = cc
    first_case (kept (inr (inr (current, barren))) e) =
        inr (record { first = o; only = refl; current = current; barren = barren; left = e })
    first_case (started n e) =
        inl (subst IsCoherent (sym e) (new_heal_streak-IsCoherent o w.valid_observation n))
    first_case (ended d i e) =
        inl (subst IsCoherent (sym e) (new_heal_terminal-IsCoherent o d i w.valid_observation))
    first_case (went_stale b e) = cc
    first_case (contributed b _ _ e) = cc

pub data Reached (os : List HealObservation) (s : HealStreak) : Type 0 where
  unused : os ≡ [] → s ≡ empty_streak → Reached os s
  coherent : IsCoherent s → Reached os s
  stuck : IsStuck os s → Reached os s

observed-Reached :
    {os : List HealObservation} (s t : HealStreak) (o : HealObservation)
    → Reached os s
    → observe s o ≡ ok t
    → Reached (o ∷ os) t
observed-Reached s t o (unused a e) h =
    elim (first-Observed t o
      (observe-eq-ok empty_streak o t (subst (λ x. observe x o ≡ ok t) e h))) [
        | inl c ↦ coherent c
        | inr p ↦ stuck (subst (λ l. IsStuck (o ∷ l) t) (sym a) p)
      ]
observed-Reached s t o (coherent c) h =
    coherent (Observed-IsCoherent s t o c (observe-eq-ok s o t h))
observed-Reached s t o (stuck p) h =
    let q : true ≡ false = sym (observe-eq-ok s o t h).valid ∙ IsStuck-invalid p in cc q

rejected-Reached :
    {os : List HealObservation} (s t : HealStreak) (n : ℕ)
    → Reached os s
    → reject_streak s n ≡ ok t
    → Reached os t
rejected-Reached s t n r h =
    let (valid, waits, later, made) = reject-eq-ok s t n h in by_state r valid waits later made
  where
    by_state :
        {os : List HealObservation}
        → Reached os s
        → is_valid_streak s ≡ true
        → s.disposition ≡ await_approval
        → s.last_sequence < n
        → t ≡ record s { last_sequence = n; is_observing = false; disposition = rejected }
        → Reached os t
    by_state (unused a e) valid waits later made = cc (ap (λ x. x.disposition) e)
    by_state (coherent c) valid waits later made =
        coherent (subst IsCoherent (sym made) (rejected-IsCoherent s n c waits later))
    by_state (stuck p) valid waits later made =
        let q : true ≡ false = sym valid ∙ IsStuck-invalid p in cc q

pub Runs-Reached : {os : List HealObservation} {s : HealStreak} → Runs os s → Reached os s
Runs-Reached none_yet = unused refl refl
Runs-Reached (observes {s = s} {t = t} r o h) = observed-Reached s t o (Runs-Reached r) h
Runs-Reached (rejects {s = s} {t = t} r n h) = rejected-Reached s t n (Runs-Reached r) h

-- What `observe` and `reject_streak` say of a streak that is not valid.
abbrev pub Refuses : HealStreak → Type 0
Refuses s =
    ((o : HealObservation) → observe s o ≡ err streak_state_invalid)
    × ((n : ℕ) → reject_streak s n ≡ err streak_state_invalid)

invalid-Refuses : (s : HealStreak) → is_valid_streak s ≡ false → Refuses s
unfolding observe reject_streak
invalid-Refuses s h = (λ o. ground arith, λ n. ground arith)

empty-valid : is_valid_streak empty_streak ≡ true
unfolding is_valid_streak facts_loop is_blank
empty-valid = refl

-- The streak after any accepted observations and rejections of the empty one is valid, or the
-- only observation so far was one on the current base that failed or brought no candidate;
-- then every later observation and rejection is refused.
pub Runs-valid :
    {os : List HealObservation} {s : HealStreak}
    → Runs os s
    → (is_valid_streak s ≡ true) ⊎ (IsStuck os s × Refuses s)
Runs-valid {s = s} r = elim (Runs-Reached r) [
  | unused _ e ↦ inl (ap is_valid_streak e ∙ empty-valid)
  | coherent c ↦ inl (IsCoherent-valid s c)
  | stuck p ↦ inr (p, invalid-Refuses s (IsStuck-invalid p))
]

positive_first :
    (o : HealObservation) → is_valid_observation o ≡ true → ltb 0 o.fact.sequence ≡ true
unfolding is_valid_observation is_valid_fact
positive_first o v = ground arith

barren_left :
    (o : HealObservation)
    → o.base_is_current ≡ true
    → IsBarren o
    → observe_active empty_streak o ≡ with_observation empty_streak o.fact
unfolding observe_active observe_current
barren_left o c b = ground arith

barren_first :
    (o : HealObservation)
    → is_valid_observation o ≡ true
    → o.base_is_current ≡ true
    → IsBarren o
    → observe empty_streak o ≡ ok (with_observation empty_streak o.fact)
unfolding observe replay_loop advance
barren_first o v c b = rw (empty-valid, v, positive_first o v, barren_left o c b)

-- A valid observation on the current base that failed or brought no candidate, as the first of an
-- empty streak, is accepted, and the streak that it leaves refuses every later observation and rejection.
pub observe-empty_Refuses :
    (o : HealObservation)
    → is_valid_observation o ≡ true
    → o.base_is_current ≡ true
    → IsBarren o
    → (s : HealStreak) × (observe empty_streak o ≡ ok s) × Refuses s
observe-empty_Refuses o v c b = (
  with_observation empty_streak o.fact,
  barren_first o v c b,
  invalid-Refuses (with_observation empty_streak o.fact) (stuck-invalid o.fact),
)
