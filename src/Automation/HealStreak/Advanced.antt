-- ===== src/Automation/HealStreak/Advanced.antt =====
-- What an accepted observation makes of a streak (`HealStreak.Observe` of
-- domain/automation/healing.go), as cases.
use healix_core.Prelude.{
  Text, ◌<◌, ◌≡◌, refl, subst, ◌⊎◌, inl, inr, Bool, true, false, ok, arith, Bool-cases,
  text_eq_sound, if◌then◌else◌,
}
use healix_core.Automation.HealStreak.{
  HealObservation, HealOutcome, original_recovered, failed, succeeded, other_outcome,
  HealDecisionBand, no_band, unknown, applied, below_cap, other_band, band_eq,
  HealStreakDisposition, no_disposition, observing, auto_publish, await_approval, reset, stale,
  rejected, other_disposition, HealStreak, is_valid_streak, is_valid_observation,
  consumed_provenance, is_no_disposition,
}
use healix_core.Automation.HealStreak.Observe.{
  new_heal_streak, new_heal_terminal, with_observation, with_disposition, is_candidate, restarts,
  same_base, matches, contribute, observe_current, observe_active, advance, replay_loop, replayed,
  fresh, conflicting, Replay, observe,
}

pub band_eq_sound : (a b : HealDecisionBand) → band_eq a b ≡ true → a ≡ b
band_eq_sound no_band no_band h = refl
band_eq_sound unknown unknown h = refl
band_eq_sound applied applied h = refl
band_eq_sound below_cap below_cap h = refl
band_eq_sound (other_band a) (other_band b) h = ground (arith, text_eq_sound a b)
band_eq_sound _ _ h = ground arith

-- The observation is a success with a candidate, on the current base.
pub record IsCandidate (o : HealObservation) : Type 0 where
  pub success : o.outcome ≡ succeeded
  pub banded : band_eq o.band unknown ≡ false
  pub current : o.base_is_current ≡ true

pub record Matches (s : HealStreak) (o : HealObservation) : Type 0 where
  pub same_target : s.element_target_id ≡ o.element_target_id
  pub same_version : s.base_node_version_id ≡ o.base_node_version_id
  pub same_candidate : s.candidate_hash ≡ o.candidate_hash
  pub same_band : s.band ≡ o.band

-- Nothing can come of the observation: it failed, or it brought no candidate.
abbrev pub IsBarren : HealObservation → Type 0
IsBarren o = (o.outcome ≡ failed) ⊎ ((o.outcome ≡ succeeded) × (band_eq o.band unknown ≡ true))

pub data Advanced (s : HealStreak) (o : HealObservation) (t : HealStreak) : Type 0 where
  kept :
      (s.is_observing ≡ true)
        ⊎ (is_no_disposition s.disposition ≡ false)
        ⊎ ((o.base_is_current ≡ true) × IsBarren o)
      → t ≡ with_observation s o.fact
      → Advanced s o t
  started : IsCandidate o → t ≡ new_heal_streak o → Advanced s o t
  ended :
      (d : HealStreakDisposition)
      → (d ≡ reset) ⊎ (d ≡ stale)
      → t ≡ new_heal_terminal o d
      → Advanced s o t
  went_stale :
      s.is_observing ≡ true
      → t ≡ with_disposition (with_observation s o.fact) stale
      → Advanced s o t
  contributed :
      s.is_observing ≡ true → IsCandidate o → Matches s o → t ≡ contribute s o → Advanced s o t

is_candidate-IsCandidate : (o : HealObservation) → is_candidate o ≡ true → IsCandidate o
is_candidate-IsCandidate o h = record {
  success = ground arith;
  banded = ground arith;
  current = ground arith;
}

matches-Matches : (s : HealStreak) (o : HealObservation) → matches s o ≡ true → Matches s o
unfolding matches same_base
matches-Matches s o h = record {
  same_target = ground (arith, text_eq_sound s.element_target_id o.element_target_id);
  same_version = ground (arith, text_eq_sound s.base_node_version_id o.base_node_version_id);
  same_candidate = ground (arith, text_eq_sound s.candidate_hash o.candidate_hash);
  same_band = band_eq_sound s.band o.band (ground arith);
}

other_outcome-invalid :
    (o : HealObservation) (x : Text)
    → o.outcome ≡ other_outcome x
    → is_valid_observation o ≡ true
    → ⊥
unfolding is_valid_observation
other_outcome-invalid o x e v = ground arith

module _ (s : HealStreak) (o : HealObservation) where
  succeeds :
      (current : o.base_is_current ≡ true)
      → o.outcome ≡ succeeded
      → Advanced s o (observe_current succeeded s o)
  unfolding observe_current
  succeeds current e = elim (Bool-cases (band_eq o.band unknown)) [
    | inl b ↦ kept (inr (inr (current, inr (e, b)))) (rw b)
    | inr b ↦
        let candidate : IsCandidate o = record { success = e; banded = b; current = current } in
        elim (Bool-cases s.is_observing) [
          | inr idle ↦ started candidate (ground arith)
          | inl busy ↦ elim (Bool-cases (matches s o)) [
            | inl m ↦ contributed busy candidate (matches-Matches s o m) (ground arith)
            | inr m ↦ started candidate (ground arith)
          ]
        ]
  ]

  current-cases :
      (outcome : HealOutcome)
      → o.base_is_current ≡ true
      → o.outcome ≡ outcome
      → is_valid_observation o ≡ true
      → Advanced s o (observe_current outcome s o)
  unfolding observe_current
  current-cases failed current e v = kept (inr (inr (current, inl e))) refl
  current-cases original_recovered current e v = ended reset (inl refl) refl
  current-cases succeeded current e v = succeeds current e
  current-cases (other_outcome x) current e v = absurd (other_outcome-invalid o x e v)

  active-cases : is_valid_observation o ≡ true → Advanced s o (observe_active s o)
  unfolding observe_active
  active-cases v = elim (Bool-cases s.is_observing) [
    | inl busy ↦ elim (Bool-cases (same_base s o)) [
      | inr other ↦ kept (inl busy) (ground arith)
      | inl same ↦ elim (Bool-cases o.base_is_current) [
        | inr old ↦ went_stale busy (ground arith)
        | inl current ↦
            let e : observe_current o.outcome s o ≡ observe_active s o = ground arith in
            subst (Advanced s o) e (current-cases o.outcome current refl v)
      ]
    ]
    | inr idle ↦ elim (Bool-cases o.base_is_current) [
      | inr old ↦ ended stale (inr refl) (ground arith)
      | inl current ↦
          let e : observe_current o.outcome s o ≡ observe_active s o = ground arith in
          subst (Advanced s o) e (current-cases o.outcome current refl v)
    ]
  ]

  restart-cases :
      is_no_disposition s.disposition ≡ false
      → (b : Bool) → (b ≡ true → IsCandidate o)
      → Advanced s o (if b then new_heal_streak o else with_observation s o.fact)
  restart-cases d true c = started (c refl) refl
  restart-cases d false c = kept (inr (inl d)) refl

  restarts-IsCandidate : restarts s o ≡ true → IsCandidate o
  unfolding restarts
  restarts-IsCandidate h = is_candidate-IsCandidate o (ground arith)

  -- Every accepted observation that is no replay is one of the cases.
  pub advance-cases :
      (d : HealStreakDisposition)
      → s.disposition ≡ d
      → is_valid_observation o ≡ true
      → Advanced s o (advance d s o)
  unfolding advance
  advance-cases auto_publish e v = kept (inr (inl (ground arith))) refl
  advance-cases await_approval e v = kept (inr (inl (ground arith))) refl
  advance-cases stale e v = restart-cases (ground arith) (restarts s o) restarts-IsCandidate
  advance-cases rejected e v = restart-cases (ground arith) (restarts s o) restarts-IsCandidate
  advance-cases reset e v =
      restart-cases (ground arith) (is_candidate o) (is_candidate-IsCandidate o)
  advance-cases no_disposition e v = active-cases v
  advance-cases observing e v = active-cases v
  advance-cases (other_disposition x) e v = active-cases v

  -- What the checks of `observe` let through.
  pub record Observed (t : HealStreak) : Type 0 where
    pub valid : is_valid_streak s ≡ true
    pub valid_observation : is_valid_observation o ≡ true
    pub effect :
        ((replay_loop o.fact (consumed_provenance s) ≡ replayed) × (t ≡ s))
        ⊎ ((replay_loop o.fact (consumed_provenance s) ≡ fresh)
            × (s.last_sequence < o.fact.sequence)
            × Advanced s o t)

  pub observe-eq-ok : (t : HealStreak) → observe s o ≡ ok t → Observed t
  unfolding observe
  observe-eq-ok t h =
      let valid : is_valid_streak s ≡ true = ground arith in
      let seen : is_valid_observation o ≡ true = ground arith in
      record {
        valid = valid;
        valid_observation = seen;
        effect = effect valid seen (replay_loop o.fact (consumed_provenance s)) refl;
      }
    where
      effect :
          is_valid_streak s ≡ true
          → is_valid_observation o ≡ true
          → (r : Replay) → replay_loop o.fact (consumed_provenance s) ≡ r
          → ((r ≡ replayed) × (t ≡ s))
            ⊎ ((r ≡ fresh) × (s.last_sequence < o.fact.sequence) × Advanced s o t)
      effect p q replayed e = inl (refl, ground arith)
      effect p q conflicting e = absurd (ground arith)
      effect p q fresh e = inr (
        refl,
        ground arith,
        subst (Advanced s o) (ground arith) (advance-cases s.disposition refl q),
      )
