-- ===== src/Automation/HealStreak/Observe.antt =====
-- What an observation and a rejection make of a healing streak (domain/automation/healing.go).
use healix_core.Prelude.{
  ℕ, Bool, true, false, not, ◌&&◌, ◌||◌, List, [], ◌∷◌, ◌++◌, ltb, leb, ◌==◌, if◌then◌else◌,
  text_eq, Result, ok, err, require, reject, ◌>>◌, length,
}
use healix_core.Automation.HealStreak.{
  ContributingHealFact, HealError, HealObservation, HealOutcome, HealStreak, HealStreakDisposition,
  applied, auto_publish, await_approval, band_eq, clashes, consumed_provenance, failed,
  is_await_approval, is_valid_observation, is_valid_streak, no_band, observation_invalid, observing,
  original_recovered, provenance_conflict, rejected, reset, sequence_conflict, stale,
  streak_rejection_invalid, streak_state_invalid, succeeded, unknown,
}

abbrev pub new_heal_streak : HealObservation → HealStreak
new_heal_streak o = record {
  element_target_id = o.element_target_id;
  base_node_version_id = o.base_node_version_id;
  candidate_hash = o.candidate_hash;
  band = o.band;
  contributions = o.fact ∷ [];
  consumed_observations = o.fact ∷ [];
  last_sequence = o.fact.sequence;
  is_observing = true;
  disposition = observing;
}

abbrev pub new_heal_terminal : HealObservation → HealStreakDisposition → HealStreak
new_heal_terminal o disposition = record {
  element_target_id = o.element_target_id;
  base_node_version_id = o.base_node_version_id;
  candidate_hash = [];
  band = no_band;
  contributions = [];
  consumed_observations = o.fact ∷ [];
  last_sequence = o.fact.sequence;
  is_observing = false;
  disposition = disposition;
}

abbrev pub with_observation : HealStreak → ContributingHealFact → HealStreak
with_observation s c = record s {
  consumed_observations = consumed_provenance s ++ c ∷ [];
  last_sequence = c.sequence;
}

abbrev pub with_disposition : HealStreak → HealStreakDisposition → HealStreak
with_disposition s disposition = record s { is_observing = false; disposition = disposition }

abbrev pub is_succeeded : HealOutcome → Bool
is_succeeded succeeded = true
is_succeeded _ = false

-- A success on the current base, with a candidate.
abbrev pub is_candidate : HealObservation → Bool
is_candidate o = is_succeeded o.outcome && not (band_eq o.band unknown) && o.base_is_current

-- Whether an observation starts a new streak on another base of the same element target.
unfoldable pub restarts : HealStreak → HealObservation → Bool
restarts s o =
    is_candidate o
    && text_eq o.element_target_id s.element_target_id
    && not (text_eq o.base_node_version_id s.base_node_version_id)

unfoldable pub same_base : HealStreak → HealObservation → Bool
same_base s o =
    text_eq s.element_target_id o.element_target_id
    && text_eq s.base_node_version_id o.base_node_version_id

unfoldable pub matches : HealStreak → HealObservation → Bool
matches s o = same_base s o && text_eq s.candidate_hash o.candidate_hash && band_eq s.band o.band

-- One more contribution; the third ends the streak.
unfoldable pub contribute : HealStreak → HealObservation → HealStreak
contribute s o =
    let next : HealStreak = record (with_observation s o.fact) {
      contributions = s.contributions ++ o.fact ∷ [];
    } in
    if leb 3 (length next.contributions)
    then record next {
      is_observing = false;
      disposition = if band_eq next.band applied then auto_publish else await_approval;
    }
    else next

-- `Observe` on a streak that is empty or observing, by the outcome.
unfoldable pub observe_current : HealOutcome → HealStreak → HealObservation → HealStreak
observe_current failed s o = with_observation s o.fact
observe_current original_recovered s o = new_heal_terminal o reset
observe_current _ s o =
    if band_eq o.band unknown
    then with_observation s o.fact
    else if not s.is_observing || not (matches s o)
    then new_heal_streak o
    else contribute s o

unfoldable pub observe_active : HealStreak → HealObservation → HealStreak
observe_active s o =
    if s.is_observing && not (same_base s o)
    then with_observation s o.fact
    else if not o.base_is_current
    then (if s.is_observing
        then with_disposition (with_observation s o.fact) stale
        else new_heal_terminal o stale)
    else observe_current o.outcome s o

-- `Observe` after its checks, by the disposition.
unfoldable pub advance : HealStreakDisposition → HealStreak → HealObservation → HealStreak
advance auto_publish s o = with_observation s o.fact
advance await_approval s o = with_observation s o.fact
advance stale s o = if restarts s o then new_heal_streak o else with_observation s o.fact
advance rejected s o = if restarts s o then new_heal_streak o else with_observation s o.fact
advance reset s o = if is_candidate o then new_heal_streak o else with_observation s o.fact
advance _ s o = observe_active s o

pub data Replay : Type 0 where
  replayed conflicting fresh : Replay

unfoldable pub fact_eq : ContributingHealFact → ContributingHealFact → Bool
fact_eq a b =
    text_eq a.fact_id b.fact_id
    && text_eq a.commit_id b.commit_id
    && text_eq a.instance_id b.instance_id
    && text_eq a.entry_id b.entry_id
    && text_eq a.step_execution_id b.step_execution_id
    && a.sequence == b.sequence

unfoldable pub replay_loop : ContributingHealFact → List ContributingHealFact → Replay
replay_loop c [] = fresh
replay_loop c (existing ∷ facts) =
    if fact_eq existing c
    then replayed
    else if clashes existing c
    then conflicting
    else replay_loop c facts

unfoldable pub observe : HealStreak → HealObservation → Result HealError HealStreak
observe s o = do
  require (is_valid_streak s) streak_state_invalid
  require (is_valid_observation o) observation_invalid
  elim (replay_loop o.fact (consumed_provenance s)) [
    | replayed ↦ ok s
    | conflicting ↦ err provenance_conflict
    | fresh ↦
        require (ltb s.last_sequence o.fact.sequence) sequence_conflict
        >> ok (advance s.disposition s o)
  ]

-- `Reject`, at the sequence of the rejection.
unfoldable pub reject_streak : HealStreak → ℕ → Result HealError HealStreak
reject_streak s sequence = do
  require (is_valid_streak s) streak_state_invalid
  require (is_await_approval s.disposition) streak_rejection_invalid
  reject (sequence == 0 || leb sequence s.last_sequence) sequence_conflict
  ok (record s { last_sequence = sequence; is_observing = false; disposition = rejected })
