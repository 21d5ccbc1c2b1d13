-- ===== src/Examples/HealStreak.antt =====
-- A healing streak that three instances bring to its publication (domain/automation).
use healix_core.Prelude.{
  Text, ℕ, ◌≡◌, refl, ◌⊎◌, inl, true, false, [], ◌∷◌, codes, ok, is_blank, text_eq, List,
}
use healix_core.Automation.HealStreak.{
  ContributingHealFact, HealObservation, HealOutcome, applied, unknown, HealStreakDisposition,
  HealStreak, empty_streak, is_valid_observation, is_valid_streak, is_valid_fact, is_valid_band,
  clashes, clashes_any, facts_loop, is_valid_active, is_valid_disposition,
}
use healix_core.Automation.HealStreak.Observe.{
  observe, new_heal_streak, contribute, replay_loop, advance, observe_active, observe_current,
  matches, same_base, fact_eq,
}
use healix_core.Automation.HealStreak.Reached.{
  Runs, none_yet, observes, IsStuck, Refuses, Runs-valid, observe-empty_Refuses,
}
use healix_core.Automation.HealStreak.Mature.{IsMature, Runs-IsMature}
use healix_core.Automation.HealStreak.Again.{observe-observe}

abbrev fact_of : Text → ℕ → ContributingHealFact
fact_of name n = record {
  fact_id = name;
  commit_id = name;
  instance_id = name;
  entry_id = codes "e";
  step_execution_id = codes "s";
  sequence = n;
}

abbrev success : Text → ℕ → HealObservation
success name n = record {
  fact = fact_of name n;
  element_target_id = codes "t";
  base_node_version_id = codes "v1";
  candidate_hash = codes "h";
  band = applied;
  outcome = HealOutcome.succeeded;
  base_is_current = true;
}

abbrev failure : HealObservation
failure = record (success (codes "a") 1) {
  candidate_hash = [];
  band = unknown;
  outcome = HealOutcome.failed;
}

abbrev one : HealStreak
one = new_heal_streak (success (codes "a") 1)

abbrev two : HealStreak
two = record one {
  contributions = fact_of (codes "a") 1 ∷ fact_of (codes "b") 2 ∷ [];
  consumed_observations = fact_of (codes "a") 1 ∷ fact_of (codes "b") 2 ∷ [];
  last_sequence = 2;
}

abbrev three : HealStreak
three = record two {
  contributions = fact_of (codes "a") 1 ∷ fact_of (codes "b") 2 ∷ fact_of (codes "c") 3 ∷ [];
  consumed_observations =
      fact_of (codes "a") 1 ∷ fact_of (codes "b") 2 ∷ fact_of (codes "c") 3 ∷ [];
  last_sequence = 3;
  is_observing = false;
  disposition = HealStreakDisposition.auto_publish;
}

first_observed : observe empty_streak (success (codes "a") 1) ≡ ok one
unfolding observe is_valid_streak is_valid_observation is_valid_fact is_valid_band replay_loop
    advance observe_active observe_current facts_loop is_blank
first_observed = refl

second_observed : observe one (success (codes "b") 2) ≡ ok two
unfolding observe is_valid_streak is_valid_observation is_valid_fact is_valid_band replay_loop
    advance observe_active observe_current facts_loop is_blank clashes_any clashes text_eq
    is_valid_disposition is_valid_active fact_eq same_base matches contribute
second_observed = refl

third_observed : observe two (success (codes "c") 3) ≡ ok three
unfolding observe is_valid_streak is_valid_observation is_valid_fact is_valid_band replay_loop
    advance observe_active observe_current facts_loop is_blank clashes_any clashes text_eq
    is_valid_disposition is_valid_active fact_eq same_base matches contribute
third_observed = refl

abbrev three_runs : List HealObservation
three_runs = success (codes "c") 3 ∷ success (codes "b") 2 ∷ success (codes "a") 1 ∷ []

abbrev all_three : Runs three_runs three
all_three =
    observes
      (observes (observes none_yet (success (codes "a") 1) first_observed) (success (codes "b") 2)
        second_observed)
      (success (codes "c") 3) third_observed

Runs-valid_example : (is_valid_streak three ≡ true) ⊎ (IsStuck three_runs three × Refuses three)
Runs-valid_example = Runs-valid all_three

Runs-IsMature_example : IsMature three_runs three applied
Runs-IsMature_example = Runs-IsMature applied all_three (inl (refl, refl))

one_valid : is_valid_streak one ≡ true
unfolding is_valid_streak facts_loop is_valid_fact clashes_any is_valid_disposition is_valid_active
    is_blank
one_valid = refl

observe-observe_example : observe one (success (codes "a") 1) ≡ ok one
observe-observe_example =
    observe-observe empty_streak one (success (codes "a") 1) first_observed one_valid

failure_valid : is_valid_observation failure ≡ true
unfolding is_valid_observation is_valid_fact is_blank
failure_valid = refl

observe-empty_Refuses_example : (s : HealStreak) × (observe empty_streak failure ≡ ok s) × Refuses s
observe-empty_Refuses_example = observe-empty_Refuses failure failure_valid refl (inl refl)
