-- ===== src/Automation/HealStreak/Mature.antt =====
-- What stands behind a healing streak that is published or waits for an approval
-- (domain/automation/healing.go).
use healix_core.Prelude.{
  ℕ, leb, ◌≡◌, refl, ap, sym, subst, ◌⊎◌, inl, inr, Bool, true, false, List, [], ◌∷◌, ◌++◌, arith,
  Bool-cases, All, All-append, length, if◌then◌else◌,
}
use healix_core.Automation.HealStreak.{
  ContributingHealFact, HealObservation, succeeded, HealDecisionBand, applied, below_cap, band_eq,
  HealStreakDisposition, auto_publish, await_approval, no_disposition, stale, rejected, HealStreak,
  clashes, clashes_any, facts_loop, consumed_provenance, is_valid_active, is_valid_disposition,
}
use healix_core.Automation.HealStreak.Observe.{contribute}
use healix_core.Automation.HealStreak.Advanced.{
  IsCandidate, Matches, Advanced, kept, started, ended, went_stale, contributed, observe-eq-ok,
  band_eq_sound,
}
use healix_core.Automation.HealStreak.Reached.{
  Runs, none_yet, observes, rejects, reject-eq-ok, unused, coherent, stuck, Runs-Reached,
}

-- No two facts have a fact, a commit, an instance or a sequence in common.
abbrev pub Apart : List ContributingHealFact → Type 0
Apart [] = Unit
Apart (c ∷ facts) = All (λ x. clashes c x ≡ false) facts × Apart facts

clashes_any-last :
    (earlier : List ContributingHealFact) (c x : ContributingHealFact)
    → clashes_any (earlier ++ c ∷ []) x ≡ false
    → (clashes_any earlier x ≡ false) × (clashes c x ≡ false)
unfolding clashes_any
clashes_any-last [] c x h = (refl, ground arith)
clashes_any-last (e ∷ earlier) c x h = ground (arith, clashes_any-last earlier c x)

clear_split :
    (earlier facts : List ContributingHealFact) (c : ContributingHealFact)
    → All (λ x. clashes_any (earlier ++ c ∷ []) x ≡ false) facts
    → All (λ x. clashes_any earlier x ≡ false) facts × All (λ x. clashes c x ≡ false) facts
clear_split earlier [] c a = (tt, tt)
clear_split earlier (x ∷ facts) c (h, a) =
    let (l, r) = clear_split earlier facts c a in
    let (p, q) = clashes_any-last earlier c x h in ((p, l), (q, r))

facts_loop-Apart :
    (before : ℕ) (earlier facts : List ContributingHealFact)
    → facts_loop before earlier facts ≡ true
    → All (λ x. clashes_any earlier x ≡ false) facts × Apart facts
unfolding facts_loop
facts_loop-Apart before earlier [] h = (tt, tt)
facts_loop-Apart before earlier (c ∷ facts) h =
    let (clear, apart) = facts_loop-Apart c.sequence (earlier ++ c ∷ []) facts (ground arith) in
    let (l, r) = clear_split earlier facts c clear in ((ground arith, l), (r, apart))

-- The observation is the success behind a contribution of the streak: it had the streak's
-- candidate, target, base and band, and the base was current.
pub record Backs (s : HealStreak) (c : ContributingHealFact) (o : HealObservation) : Type 0 where
  pub own_fact : o.fact ≡ c
  pub success : o.outcome ≡ succeeded
  pub current : o.base_is_current ≡ true
  pub same : Matches s o

abbrev pub Backed : List HealObservation → HealStreak → ContributingHealFact → Type 0
Backed [] s c = ⊥
Backed (o ∷ os) s c = Backs s c o ⊎ Backed os s c

abbrev AllBacked : List HealObservation → HealStreak → Type 0
AllBacked os s = All (Backed os s) s.contributions

Backed-more :
    (os : List HealObservation) (o : HealObservation) (s : HealStreak)
    (facts : List ContributingHealFact)
    → All (Backed os s) facts
    → All (Backed (o ∷ os) s) facts
Backed-more os o s [] a = tt
Backed-more os o s (c ∷ facts) (h, a) = (inr h, Backed-more os o s facts a)

-- The same streak but for what `Backed` does not read.
abbrev changed :
    HealStreak
    → List ContributingHealFact
    → List ContributingHealFact
    → ℕ
    → Bool
    → HealStreakDisposition
    → HealStreak
changed s contributions consumed n b d = record s {
  contributions = contributions;
  consumed_observations = consumed;
  last_sequence = n;
  is_observing = b;
  disposition = d;
}

Backed-changed :
    (os : List HealObservation) (s : HealStreak) (l l' : List ContributingHealFact) (n : ℕ)
    (b : Bool) (d : HealStreakDisposition) (c : ContributingHealFact)
    → Backed os s c
    → Backed os (changed s l l' n b d) c
Backed-changed [] s l l' n b d c h = absurd h
Backed-changed (o ∷ os) s l l' n b d c (inl k) = inl (record {
  own_fact = k.own_fact;
  success = k.success;
  current = k.current;
  same = record {
    same_target = k.same.same_target;
    same_version = k.same.same_version;
    same_candidate = k.same.same_candidate;
    same_band = k.same.same_band;
  };
})
Backed-changed (o ∷ os) s l l' n b d c (inr h) = inr (Backed-changed os s l l' n b d c h)

All-changed :
    (os : List HealObservation) (s : HealStreak) (l l' : List ContributingHealFact) (n : ℕ)
    (b : Bool) (d : HealStreakDisposition) (facts : List ContributingHealFact)
    → All (Backed os s) facts
    → All (Backed os (changed s l l' n b d)) facts
All-changed os s l l' n b d [] a = tt
All-changed os s l l' n b d (c ∷ facts) (h, a) =
    (Backed-changed os s l l' n b d c h, All-changed os s l l' n b d facts a)

module _ (os : List HealObservation) (s : HealStreak) (o : HealObservation)
    (backed : AllBacked os s) where
  contribute-AllBacked : IsCandidate o → Matches s o → AllBacked (o ∷ os) (contribute s o)
  unfolding contribute
  contribute-AllBacked n m =
      let grown : List ContributingHealFact = s.contributions ++ o.fact ∷ [] in
      let consumed : List ContributingHealFact = consumed_provenance s ++ o.fact ∷ [] in
      let all : All (Backed (o ∷ os) s) grown =
        All-append (Backed (o ∷ os) s) s.contributions (o.fact ∷ [])
          (Backed-more os o s s.contributions backed)
          (
            inl (record { own_fact = refl; success = n.success; current = n.current; same = m }),
            tt,
          ) in
      elim (Bool-cases (leb 3 (length grown))) [
        | inr small ↦
            let e : changed s grown consumed o.fact.sequence s.is_observing s.disposition
                ≡ contribute s o =
              ground arith in
            subst (AllBacked (o ∷ os)) e (
              All-changed (o ∷ os) s grown consumed o.fact.sequence s.is_observing s.disposition
                grown all)
        | inl big ↦
            let d : HealStreakDisposition =
              if band_eq s.band applied then auto_publish else await_approval in
            let e : changed s grown consumed o.fact.sequence false d ≡ contribute s o =
              ground arith in
            subst (AllBacked (o ∷ os)) e
              (All-changed (o ∷ os) s grown consumed o.fact.sequence false d grown all)
      ]

  left_alone :
      (l : List ContributingHealFact) (n : ℕ) (b : Bool) (d : HealStreakDisposition)
      → AllBacked (o ∷ os) (changed s s.contributions l n b d)
  left_alone l n b d =
      All-changed (o ∷ os) s s.contributions l n b d s.contributions
        (Backed-more os o s s.contributions backed)

  Advanced-AllBacked : (t : HealStreak) → Advanced s o t → AllBacked (o ∷ os) t
  Advanced-AllBacked t (kept _ e) = subst (AllBacked (o ∷ os)) (sym e) (
      left_alone (consumed_provenance s ++ o.fact ∷ []) o.fact.sequence s.is_observing
        s.disposition)
  Advanced-AllBacked t (started n e) = subst (AllBacked (o ∷ os)) (sym e) (
    inl (record {
      own_fact = refl;
      success = n.success;
      current = n.current;
      same = record {
        same_target = refl;
        same_version = refl;
        same_candidate = refl;
        same_band = refl;
      };
    }),
    tt,
  )
  Advanced-AllBacked t (ended d i e) = subst (AllBacked (o ∷ os)) (sym e) tt
  Advanced-AllBacked t (went_stale busy e) =
      subst (AllBacked (o ∷ os)) (sym e)
        (left_alone (consumed_provenance s ++ o.fact ∷ []) o.fact.sequence false stale)
  Advanced-AllBacked t (contributed busy n m e) =
      subst (AllBacked (o ∷ os)) (sym e) (contribute-AllBacked n m)

Runs-AllBacked : {os : List HealObservation} {s : HealStreak} → Runs os s → AllBacked os s
Runs-AllBacked none_yet = tt
Runs-AllBacked (observes {os = os} {s = s} {t = t} r o h) = elim (observe-eq-ok s o t h).effect [
  | inl (_, e) ↦
      subst (AllBacked (o ∷ os)) (sym e) (Backed-more os o s s.contributions (Runs-AllBacked r))
  | inr (_, _, a) ↦ Advanced-AllBacked os s o (Runs-AllBacked r) t a
]
Runs-AllBacked (rejects {os = os} {s = s} {t = t} r n h) =
    let (_, _, _, made) = reject-eq-ok s t n h in
    subst (AllBacked os) (sym made) (
      All-changed os s s.contributions s.consumed_observations n false rejected s.contributions
        (Runs-AllBacked r))

pub record IsMature (os : List HealObservation) (s : HealStreak) (band : HealDecisionBand)
    : Type 0 where
  pub three : length s.contributions ≡ 3
  pub banded : s.band ≡ band
  pub apart : Apart s.contributions
  pub backed : All (Backed os s) s.contributions

-- The disposition of a mature streak, and the band that its observations had.
abbrev pub Ends : HealStreak → HealDecisionBand → Type 0
Ends s band =
    ((s.disposition ≡ auto_publish) × (band ≡ applied))
    ⊎ ((s.disposition ≡ await_approval) × (band ≡ below_cap))

Ends-active :
    (d : HealStreakDisposition) (s : HealStreak) (band : HealDecisionBand)
    → s.disposition ≡ d
    → Ends s band
    → is_valid_disposition d s ≡ true
    → (length s.contributions ≡ 3) × (band_eq s.band band ≡ true)
unfolding is_valid_disposition is_valid_active
Ends-active auto_publish s band e x h = ground arith
Ends-active _ s band e x h = ground arith

idle-no_end :
    (s : HealStreak) (band : HealDecisionBand) → s.disposition ≡ no_disposition → Ends s band → ⊥
idle-no_end s band e (inl x) = cc
idle-no_end s band e (inr x) = cc

-- A streak that is to be published, or waits for an approval, has three contributions that have no
-- fact, commit, instance or sequence in common; each is the fact of an accepted observation
-- that succeeded on the current base with the streak's candidate, target and base and the band APPLIED, or
-- BELOW_CAP if it waits for an approval.
pub Runs-IsMature :
    {os : List HealObservation} {s : HealStreak} (band : HealDecisionBand)
    → Runs os s
    → Ends s band
    → IsMature os s band
Runs-IsMature {os = os} {s = s} band r x = elim (Runs-Reached r) [
  | unused _ e ↦ absurd (idle-no_end s band (ap (λ x. x.disposition) e) x)
  | stuck p ↦ absurd (idle-no_end s band (ap (λ x. x.disposition) p.left) x)
  | coherent c ↦
      let (three, banded) = Ends-active s.disposition s band refl x c.shaped in
      record {
        three = three;
        banded = band_eq_sound s.band band banded;
        apart = (facts_loop-Apart 0 [] s.contributions c.contributions).1;
        backed = Runs-AllBacked r;
      }
]
