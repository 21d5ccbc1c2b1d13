-- ===== src/Automation/HealStreak/Sound.antt =====
-- What `HealStreak.Observe` (domain/automation/healing.go) keeps of a streak that is in use.
use healix_core.Prelude.{
  ℕ, ◌<◌, ◌≤◌, leb, ◌≡◌, refl, sym, subst, ◌⊎◌, inl, inr, Bool, true, false, not, ◌&&◌, List, [],
  ◌∷◌, ◌++◌, arith, Bool-cases, All, All-append, length, length-append, if◌then◌else◌,
}
use healix_core.Automation.HealStreak.{
  ContributingHealFact, HealObservation, succeeded, HealDecisionBand, unknown, applied, band_eq,
  HealStreakDisposition, observing, auto_publish, await_approval, reset, stale, HealStreak,
  is_valid_fact, clashes_any, last_of, facts_loop, are_valid_facts, consumed_provenance, is_nil,
  is_no_disposition, is_observing_disposition, is_valid_active, is_valid_terminal,
  is_valid_disposition, is_valid_streak, is_valid_band, is_valid_observation,
}
use healix_core.Automation.HealStreak.Observe.{
  new_heal_streak, new_heal_terminal, with_observation, contribute, replay_loop, fresh,
}
use healix_core.Automation.HealStreak.Facts.{
  Has, Has-append, Has-last, last_of-append, provenance_of-append, are_valid_facts-append,
  fresh-no_clash, no_clash-All,
}
use healix_core.Automation.HealStreak.Advanced.{
  IsCandidate, Advanced, kept, started, ended, went_stale, contributed,
}

-- What a streak that is not empty keeps.
pub record IsCoherent (s : HealStreak) : Type 0 where
  pub provenance : are_valid_facts (consumed_provenance s) ≡ true
  pub provenance_last : last_of 0 (consumed_provenance s) ≤ s.last_sequence
  pub in_use :
      (not s.is_observing && is_no_disposition s.disposition && is_nil s.contributions) ≡ false
  pub shaped : is_valid_disposition s.disposition s ≡ true
  pub contributions : are_valid_facts s.contributions ≡ true
  pub contributions_last : last_of 0 s.contributions ≤ s.last_sequence
  pub among : All (λ c. Has c (consumed_provenance s)) s.contributions

pub IsCoherent-valid : (s : HealStreak) → IsCoherent s → is_valid_streak s ≡ true
unfolding is_valid_streak
IsCoherent-valid s c = ground (arith, c.provenance, c.provenance_last, c.in_use, c.shaped)

Has-more :
    (facts consumed : List ContributingHealFact) (c : ContributingHealFact)
    → All (λ x. Has x consumed) facts
    → All (λ x. Has x (consumed ++ c ∷ [])) facts
Has-more [] consumed c a = tt
Has-more (x ∷ facts) consumed c (h, a) =
    (Has-append x consumed (c ∷ []) h, Has-more facts consumed c a)

is_valid_disposition-later :
    (d : HealStreakDisposition) (s : HealStreak) (consumed : List ContributingHealFact) (n : ℕ)
    → is_valid_disposition d s ≡ true
    → 0 < n
    → is_valid_disposition d (record s { consumed_observations = consumed; last_sequence = n })
      ≡ true
unfolding is_valid_disposition is_valid_active
is_valid_disposition-later reset s consumed n h p = ground arith
is_valid_disposition-later _ s consumed n h p = ground arith

pub valid_fact : (o : HealObservation) → is_valid_observation o ≡ true → is_valid_fact o.fact ≡ true
unfolding is_valid_observation
valid_fact o h = ground arith

positive_fact : (c : ContributingHealFact) → is_valid_fact c ≡ true → 0 < c.sequence
unfolding is_valid_fact
positive_fact c h = ground arith

pub are_valid_facts-one :
    (c : ContributingHealFact) → is_valid_fact c ≡ true → are_valid_facts (c ∷ []) ≡ true
unfolding facts_loop clashes_any
are_valid_facts-one c h = ground (arith, positive_fact c h)

new_heal_streak-shaped :
    (o : HealObservation)
    → is_valid_observation o ≡ true
    → o.outcome ≡ succeeded
    → band_eq o.band unknown ≡ false
    → are_valid_facts (o.fact ∷ []) ≡ true
    → is_valid_disposition observing (new_heal_streak o) ≡ true
unfolding is_valid_disposition is_valid_active is_valid_observation is_valid_band
new_heal_streak-shaped o v e b one = ground (arith, positive_fact o.fact)

new_heal_terminal-shaped :
    (o : HealObservation) (d : HealStreakDisposition)
    → (d ≡ reset) ⊎ (d ≡ stale)
    → is_valid_observation o ≡ true
    → (is_no_disposition d ≡ false) × (is_valid_disposition d (new_heal_terminal o d) ≡ true)
unfolding is_valid_disposition is_valid_observation
new_heal_terminal-shaped o reset e v = ground (arith, positive_fact o.fact)
new_heal_terminal-shaped o stale e v = ground (arith, positive_fact o.fact)
new_heal_terminal-shaped o _ (inl e) v = cc
new_heal_terminal-shaped o _ (inr e) v = cc

pub new_heal_streak-IsCoherent :
    (o : HealObservation)
    → is_valid_observation o ≡ true
    → IsCandidate o
    → IsCoherent (new_heal_streak o)
new_heal_streak-IsCoherent o v c =
    let valid : is_valid_fact o.fact ≡ true = valid_fact o v in
    let one : are_valid_facts (o.fact ∷ []) ≡ true = are_valid_facts-one o.fact valid in
    record {
      provenance = one;
      provenance_last = omega arith;
      in_use = refl;
      shaped = new_heal_streak-shaped o v c.success c.banded one;
      contributions = one;
      contributions_last = omega arith;
      among = (inl refl, tt);
    }

pub new_heal_terminal-IsCoherent :
    (o : HealObservation) (d : HealStreakDisposition)
    → (d ≡ reset) ⊎ (d ≡ stale)
    → is_valid_observation o ≡ true
    → IsCoherent (new_heal_terminal o d)
unfolding facts_loop
new_heal_terminal-IsCoherent o d e v =
    let (in_use, shaped) = new_heal_terminal-shaped o d e v in
    let valid : is_valid_fact o.fact ≡ true = valid_fact o v in
    record {
      provenance = are_valid_facts-one o.fact valid;
      provenance_last = omega arith;
      in_use = ground arith;
      shaped = shaped;
      contributions = refl;
      contributions_last = omega arith;
      among = tt;
    }

observing_only :
    (d : HealStreakDisposition) (s : HealStreak)
    → is_valid_disposition d s ≡ true
    → s.disposition ≡ d
    → s.is_observing ≡ true
    → is_valid_active s ≡ true
unfolding is_valid_disposition
observing_only reset s h e b = ground arith
observing_only _ s h e b = ground arith

went_stale-shaped :
    (s : HealStreak) (consumed : List ContributingHealFact) (n : ℕ)
    → is_valid_active s ≡ true
    → 0 < n
    → is_valid_terminal (record s {
      consumed_observations = consumed;
      last_sequence = n;
      is_observing = false;
      disposition = stale;
    })
      ≡ true
unfolding is_valid_active
went_stale-shaped s consumed n h p = ground arith

-- The disposition of a streak with one more contribution.
abbrev grown : HealStreak → ContributingHealFact → Bool → HealStreakDisposition → HealStreak
grown s c b d = record (with_observation s c) {
  contributions = s.contributions ++ c ∷ [];
  is_observing = b;
  disposition = d;
}

is_nil-append :
    (facts : List ContributingHealFact) (c : ContributingHealFact)
    → is_nil (facts ++ c ∷ []) ≡ false
is_nil-append [] c = refl
is_nil-append (x ∷ facts) c = refl

abbrev matured : HealDecisionBand → HealStreakDisposition
matured band = if band_eq band applied then auto_publish else await_approval

is_valid_disposition-observing :
    (d : HealStreakDisposition) (x : HealStreak)
    → is_observing_disposition d ≡ true
    → is_valid_active x ≡ true
    → is_valid_disposition d x ≡ true
unfolding is_valid_disposition
is_valid_disposition-observing observing x e h = h
is_valid_disposition-observing _ x e h = ground arith

is_valid_disposition-matured :
    (b : Bool) (x : HealStreak)
    → is_valid_active x ≡ true
    → is_valid_disposition (if b then auto_publish else await_approval) x ≡ true
unfolding is_valid_disposition
is_valid_disposition-matured true x h = h
is_valid_disposition-matured false x h = h

contribute-shaped :
    (s : HealStreak) (c : ContributingHealFact)
    → is_valid_active s ≡ true
    → s.is_observing ≡ true
    → 0 < c.sequence
    → are_valid_facts (s.contributions ++ c ∷ []) ≡ true
    → ((leb 3 (length (s.contributions ++ c ∷ [])) ≡ false)
        × (is_valid_disposition s.disposition (grown s c s.is_observing s.disposition) ≡ true))
      ⊎ ((leb 3 (length (s.contributions ++ c ∷ [])) ≡ true)
          × (is_valid_disposition (matured s.band) (grown s c false (matured s.band)) ≡ true))
unfolding is_valid_active
contribute-shaped s c h b p facts = elim (Bool-cases (leb 3 (length (s.contributions ++ c ∷ [])))) [
  | inr small ↦ inl (
    small,
    is_valid_disposition-observing s.disposition (grown s c s.is_observing s.disposition)
        (ground arith) (ground (arith, length-append s.contributions (c ∷ []))),
  )
  | inl big ↦ inr (
    big,
    is_valid_disposition-matured (band_eq s.band applied) (grown s c false (matured s.band))
        (ground (arith, length-append s.contributions (c ∷ []))),
  )
]

module _ (s : HealStreak) (o : HealObservation) (v : is_valid_observation o ≡ true)
    (c : IsCoherent s) (new : replay_loop o.fact (consumed_provenance s) ≡ fresh)
    (later : s.last_sequence < o.fact.sequence) where
  with_observation-IsCoherent : IsCoherent (with_observation s o.fact)
  with_observation-IsCoherent =
      let valid : is_valid_fact o.fact ≡ true = valid_fact o v in
      let p : consumed_provenance (with_observation s o.fact)
          ≡ consumed_provenance s ++ o.fact ∷ [] =
        provenance_of-append (consumed_provenance s) s.contributions o.fact in
      record {
        provenance =
            subst (λ l. are_valid_facts l ≡ true) (sym p)
              (are_valid_facts-append (consumed_provenance s) o.fact c.provenance valid
                (omega (arith, c.provenance_last))
                (fresh-no_clash o.fact (consumed_provenance s) new));
        provenance_last =
            subst (λ l. last_of 0 l ≤ o.fact.sequence) (sym p)
              (omega (arith, last_of-append 0 (consumed_provenance s) o.fact));
        in_use = c.in_use;
        shaped =
            is_valid_disposition-later s.disposition s (consumed_provenance s ++ o.fact ∷ [])
              o.fact.sequence c.shaped (positive_fact o.fact valid);
        contributions = c.contributions;
        contributions_last = omega (arith, c.contributions_last);
        among =
            subst (λ l. All (λ x. Has x l) s.contributions) (sym p)
              (Has-more s.contributions (consumed_provenance s) o.fact c.among);
      }

  contributions_grow : are_valid_facts (s.contributions ++ o.fact ∷ []) ≡ true
  contributions_grow =
      are_valid_facts-append s.contributions o.fact c.contributions (valid_fact o v)
        (omega (arith, c.contributions_last))
        (no_clash-All o.fact s.contributions (consumed_provenance s)
          (fresh-no_clash o.fact (consumed_provenance s) new) c.among)

  grown-IsCoherent :
      (b : Bool) (d : HealStreakDisposition)
      → is_valid_disposition d (grown s o.fact b d) ≡ true
      → IsCoherent (grown s o.fact b d)
  grown-IsCoherent b d shaped =
      let valid : is_valid_fact o.fact ≡ true = valid_fact o v in
      let p : consumed_provenance (grown s o.fact b d) ≡ consumed_provenance s ++ o.fact ∷ [] =
        provenance_of-append (consumed_provenance s) (s.contributions ++ o.fact ∷ []) o.fact in
      record {
        provenance =
            subst (λ l. are_valid_facts l ≡ true) (sym p)
              (subst (λ l. are_valid_facts l ≡ true)
                (provenance_of-append (consumed_provenance s) s.contributions o.fact)
                with_observation-IsCoherent.provenance);
        provenance_last =
            subst (λ l. last_of 0 l ≤ o.fact.sequence) (sym p)
              (omega (arith, last_of-append 0 (consumed_provenance s) o.fact));
        in_use = ground (arith, is_nil-append s.contributions o.fact);
        shaped = shaped;
        contributions = contributions_grow;
        contributions_last = omega (arith, last_of-append 0 s.contributions o.fact);
        among =
            subst (λ l. All (λ x. Has x l) (s.contributions ++ o.fact ∷ [])) (sym p)
              (All-append (λ x. Has x (consumed_provenance s ++ o.fact ∷ [])) s.contributions
                (o.fact ∷ []) (Has-more s.contributions (consumed_provenance s) o.fact c.among)
                (Has-last o.fact (consumed_provenance s), tt));
      }

  contribute-IsCoherent : s.is_observing ≡ true → IsCoherent (contribute s o)
  unfolding contribute
  contribute-IsCoherent busy =
      let active : is_valid_active s ≡ true = observing_only s.disposition s c.shaped refl busy in
      elim (contribute-shaped s o.fact active busy (positive_fact o.fact (valid_fact o v))
        contributions_grow) [
          | inl (small, shaped) ↦
              let e : grown s o.fact s.is_observing s.disposition ≡ contribute s o = ground arith in
              subst IsCoherent e (grown-IsCoherent s.is_observing s.disposition shaped)
          | inr (big, shaped) ↦
              let e : grown s o.fact false (matured s.band) ≡ contribute s o = ground arith in
              subst IsCoherent e (grown-IsCoherent false (matured s.band) shaped)
        ]

  pub Advanced-IsCoherent : (t : HealStreak) → Advanced s o t → IsCoherent t
  unfolding is_valid_disposition
  Advanced-IsCoherent t (kept _ e) = subst IsCoherent (sym e) with_observation-IsCoherent
  Advanced-IsCoherent t (started n e) = subst IsCoherent (sym e) (new_heal_streak-IsCoherent o v n)
  Advanced-IsCoherent t (ended d i e) =
      subst IsCoherent (sym e) (new_heal_terminal-IsCoherent o d i v)
  Advanced-IsCoherent t (went_stale busy e) =
      let w : IsCoherent (with_observation s o.fact) = with_observation-IsCoherent in
      subst IsCoherent (sym e) (record {
        provenance = w.provenance;
        provenance_last = w.provenance_last;
        in_use = refl;
        shaped =
            went_stale-shaped s (consumed_provenance s ++ o.fact ∷ []) o.fact.sequence
              (observing_only s.disposition s c.shaped refl busy)
              (positive_fact o.fact (valid_fact o v));
        contributions = w.contributions;
        contributions_last = w.contributions_last;
        among = w.among;
      })
  Advanced-IsCoherent t (contributed busy _ _ e) =
      subst IsCoherent (sym e) (contribute-IsCoherent busy)
