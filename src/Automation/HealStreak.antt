-- ===== src/Automation/HealStreak.antt =====
-- The healing of domain/automation/healing.go: the streak that collects the healing facts of one
-- base version of an element target, and the version that is current.
pub mod Observe
pub mod Facts
pub mod Advanced
pub mod Sound
pub mod Reached
pub mod Mature
pub mod Again
use healix_core.Prelude.{
  Text, ℕ, ℤ, is_zero, Bool, true, false, not, ◌&&◌, ◌||◌, List, [], ◌∷◌, ◌++◌, Option, none, some,
  ltb, leb, ◌==◌, if◌then◌else◌, text_eq, is_blank, is_empty, Result, ok, err, require, reject,
  ◌>>=◌, ◌>>◌, length,
}
use healix_core.Automation.Revision.{
  AutomationError, VersionMeta, validate_persisted, next_revision,
}

-- The version with the greatest number that is neither deleted nor without an identity; of two
-- with one number, the first.
unfoldable pub current_loop : Option VersionMeta → List VersionMeta → Option VersionMeta
current_loop current [] = current
current_loop current (v ∷ versions) =
    current_loop
      (if not (is_zero v.deleted_at) || is_empty v.id then current else elim current [
        | none ↦ some v
        | some c ↦ if ltb c.version_number v.version_number then some v else some c
      ])
      versions

abbrev pub id_of : Option VersionMeta → Text × Bool
id_of none = ([], false)
id_of (some v) = (v.id, true)

unfoldable pub resolve_current_version : List VersionMeta → Text × Bool
unfolding current_loop
resolve_current_version versions = id_of (current_loop none versions)

pub data HealOutcome : Type 0 where
  original_recovered failed succeeded : HealOutcome
  other_outcome : Text → HealOutcome

-- `no_band` is the empty string of a streak or an observation without a candidate.
pub data HealDecisionBand : Type 0 where
  no_band unknown applied below_cap : HealDecisionBand
  other_band : Text → HealDecisionBand

abbrev pub band_eq : HealDecisionBand → HealDecisionBand → Bool
band_eq no_band no_band = true
band_eq unknown unknown = true
band_eq applied applied = true
band_eq below_cap below_cap = true
band_eq (other_band a) (other_band b) = text_eq a b
band_eq _ _ = false

pub data HealStreakDisposition : Type 0 where
  no_disposition observing auto_publish await_approval reset stale rejected : HealStreakDisposition
  other_disposition : Text → HealStreakDisposition

pub record ContributingHealFact : Type 0 where
  pub fact_id : Text
  pub commit_id : Text
  pub instance_id : Text
  pub entry_id : Text
  pub step_execution_id : Text
  pub sequence : ℕ

pub record HealObservation : Type 0 where
  pub fact : ContributingHealFact
  pub element_target_id : Text
  pub base_node_version_id : Text
  pub candidate_hash : Text
  pub band : HealDecisionBand
  pub outcome : HealOutcome
  pub base_is_current : Bool

pub record HealStreak : Type 0 where
  pub element_target_id : Text
  pub base_node_version_id : Text
  pub candidate_hash : Text
  pub band : HealDecisionBand
  pub contributions : List ContributingHealFact
  pub consumed_observations : List ContributingHealFact
  pub last_sequence : ℕ
  pub is_observing : Bool
  pub disposition : HealStreakDisposition

pub data HealError : Type 0 where
  streak_state_invalid observation_invalid provenance_conflict sequence_conflict : HealError
  streak_rejection_invalid : HealError

abbrev pub empty_streak : HealStreak
empty_streak = record {
  element_target_id = [];
  base_node_version_id = [];
  candidate_hash = [];
  band = no_band;
  contributions = [];
  consumed_observations = [];
  last_sequence = 0;
  is_observing = false;
  disposition = no_disposition;
}

-- `ValidateHealDecisionBand`
unfoldable pub is_valid_band : Text → HealDecisionBand → Bool
is_valid_band candidate_hash band =
    if is_blank candidate_hash
    then band_eq band unknown
    else band_eq band applied || band_eq band below_cap

unfoldable pub is_valid_fact : ContributingHealFact → Bool
is_valid_fact c = not (
    is_blank c.fact_id
    || is_blank c.commit_id
    || is_blank c.instance_id
    || is_blank c.entry_id
    || is_blank c.step_execution_id
    || c.sequence == 0)

-- One of the identities by which a fact is known is the other's.
unfoldable pub clashes : ContributingHealFact → ContributingHealFact → Bool
clashes a b =
    text_eq a.fact_id b.fact_id
    || text_eq a.commit_id b.commit_id
    || text_eq a.instance_id b.instance_id
    || a.sequence == b.sequence

unfoldable pub clashes_any : List ContributingHealFact → ContributingHealFact → Bool
clashes_any [] c = false
clashes_any (a ∷ earlier) c = clashes a c || clashes_any earlier c

-- The sequence of the fact before, which is 0 at the first.
abbrev pub last_of : ℕ → List ContributingHealFact → ℕ
last_of before [] = before
last_of before (c ∷ facts) = last_of c.sequence facts

-- `validateHealContributions`; a fact with a sequence has one above 0, so the first passes.
unfoldable pub facts_loop : ℕ → List ContributingHealFact → List ContributingHealFact → Bool
facts_loop before earlier [] = true
facts_loop before earlier (c ∷ facts) =
    is_valid_fact c
    && ltb before c.sequence
    && not (clashes_any earlier c)
    && facts_loop c.sequence (earlier ++ c ∷ []) facts

abbrev pub are_valid_facts : List ContributingHealFact → Bool
are_valid_facts facts = facts_loop 0 [] facts

abbrev pub provenance_of :
    List ContributingHealFact → List ContributingHealFact → List ContributingHealFact
provenance_of [] contributions = contributions
provenance_of (c ∷ consumed) contributions = c ∷ consumed

abbrev pub consumed_provenance : HealStreak → List ContributingHealFact
consumed_provenance s = provenance_of s.consumed_observations s.contributions

abbrev pub is_nil {ℓ} : {A : Type ℓ} → List A → Bool
is_nil [] = true
is_nil (_ ∷ _) = false

abbrev pub is_no_disposition : HealStreakDisposition → Bool
is_no_disposition no_disposition = true
is_no_disposition _ = false

abbrev pub is_observing_disposition : HealStreakDisposition → Bool
is_observing_disposition observing = true
is_observing_disposition _ = false

abbrev pub is_await_approval : HealStreakDisposition → Bool
is_await_approval await_approval = true
is_await_approval _ = false

-- The part of `validate` for a streak that is neither empty nor reset, stale or rejected.
unfoldable pub is_valid_active : HealStreak → Bool
is_valid_active s =
    not
      (is_blank s.element_target_id || is_blank s.base_node_version_id || is_blank s.candidate_hash)
    && (band_eq s.band applied || band_eq s.band below_cap)
    && (if s.is_observing
        then is_observing_disposition s.disposition && ltb (length s.contributions) 3
        else elim s.disposition [
          | auto_publish ↦ band_eq s.band applied && length s.contributions == 3
          | await_approval ↦ band_eq s.band below_cap && length s.contributions == 3
          | _ ↦ false
        ])
    && not (s.last_sequence == 0)
    && are_valid_facts s.contributions

-- The part for a streak that was reset or is stale.
abbrev pub is_valid_terminal : HealStreak → Bool
is_valid_terminal s = not (
    s.is_observing
    || is_blank s.element_target_id
    || is_blank s.base_node_version_id
    || s.last_sequence == 0)

unfoldable pub is_valid_disposition : HealStreakDisposition → HealStreak → Bool
is_valid_disposition reset s = is_valid_terminal s
is_valid_disposition stale s = is_valid_terminal s
is_valid_disposition rejected s =
    is_valid_terminal s && not (is_blank s.candidate_hash) && are_valid_facts s.contributions
is_valid_disposition _ s = is_valid_active s

abbrev pub is_empty_state : HealStreak → Bool
is_empty_state s =
    is_blank s.element_target_id
    && is_blank s.base_node_version_id
    && is_blank s.candidate_hash
    && band_eq s.band no_band
    && is_nil s.consumed_observations
    && s.last_sequence == 0

-- `HealStreak.validate`; the sequence of the last of no facts is 0.
unfoldable pub is_valid_streak : HealStreak → Bool
is_valid_streak s =
    are_valid_facts (consumed_provenance s)
    && leb (last_of 0 (consumed_provenance s)) s.last_sequence
    && (if not s.is_observing && is_no_disposition s.disposition && is_nil s.contributions
        then is_empty_state s
        else is_valid_disposition s.disposition s)

unfoldable pub is_valid_observation : HealObservation → Bool
is_valid_observation o =
    is_valid_fact o.fact
    && not (is_blank o.element_target_id || is_blank o.base_node_version_id)
    && elim o.outcome [
      | succeeded ↦ is_valid_band o.candidate_hash o.band
      | original_recovered ↦
          is_blank o.candidate_hash && (band_eq o.band no_band || band_eq o.band unknown)
      | failed ↦ is_blank o.candidate_hash && (band_eq o.band no_band || band_eq o.band unknown)
      | other_outcome _ ↦ false
    ]
