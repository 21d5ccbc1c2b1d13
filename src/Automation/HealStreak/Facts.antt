-- ===== src/Automation/HealStreak/Facts.antt =====
-- Lists of healing facts (`validateHealContributions` of domain/automation/healing.go).
use healix_core.Prelude.{
  ℕ, ◌<◌, ◌≡◌, refl, sym, subst, ◌⊎◌, inl, inr, true, false, List, [], ◌∷◌, ◌++◌, All, arith,
  text_eq_refl,
}
use mathlib.Core.List.{append_assoc, append-nil}
use healix_core.Automation.HealStreak.{
  ContributingHealFact, is_valid_fact, clashes, clashes_any, last_of, facts_loop, provenance_of,
}
use healix_core.Automation.HealStreak.Observe.{replayed, fresh, fact_eq, replay_loop}

abbrev pub Has : ContributingHealFact → List ContributingHealFact → Type 0
Has c [] = ⊥
Has c (x ∷ facts) = (x ≡ c) ⊎ Has c facts

pub Has-append :
    (c : ContributingHealFact) (facts more : List ContributingHealFact)
    → Has c facts
    → Has c (facts ++ more)
Has-append c [] more h = absurd h
Has-append c (x ∷ facts) more (inl e) = inl e
Has-append c (x ∷ facts) more (inr h) = inr (Has-append c facts more h)

pub Has-last :
    (c : ContributingHealFact) (facts : List ContributingHealFact) → Has c (facts ++ c ∷ [])
Has-last c [] = inl refl
Has-last c (x ∷ facts) = inr (Has-last c facts)

pub last_of-append :
    (before : ℕ) (facts : List ContributingHealFact) (c : ContributingHealFact)
    → last_of before (facts ++ c ∷ []) ≡ c.sequence
last_of-append before [] c = refl
last_of-append before (x ∷ facts) c = last_of-append x.sequence facts c

pub provenance_of-append :
    (facts contributions : List ContributingHealFact) (c : ContributingHealFact)
    → provenance_of (facts ++ c ∷ []) contributions ≡ facts ++ c ∷ []
provenance_of-append [] contributions c = refl
provenance_of-append (x ∷ facts) contributions c = refl

facts_loop-append :
    (before : ℕ) (earlier facts : List ContributingHealFact) (c : ContributingHealFact)
    → facts_loop before earlier facts ≡ true
    → is_valid_fact c ≡ true
    → last_of before facts < c.sequence
    → clashes_any (earlier ++ facts) c ≡ false
    → facts_loop before earlier (facts ++ c ∷ []) ≡ true
unfolding facts_loop
facts_loop-append before earlier [] c h v l n =
    let clear : clashes_any earlier c ≡ false =
      subst (λ l. clashes_any l c ≡ false) (append-nil earlier) n in
    ground arith
facts_loop-append before earlier (x ∷ facts) c h v l n = ground (
  arith,
  facts_loop-append x.sequence (earlier ++ x ∷ []) facts c (ground arith) v l
      (subst (λ l. clashes_any l c ≡ false) (sym (append_assoc earlier (x ∷ []) facts)) n),
)

-- A new fact at the end of a valid list leaves it valid.
pub are_valid_facts-append :
    (facts : List ContributingHealFact) (c : ContributingHealFact)
    → facts_loop 0 [] facts ≡ true
    → is_valid_fact c ≡ true
    → last_of 0 facts < c.sequence
    → clashes_any facts c ≡ false
    → facts_loop 0 [] (facts ++ c ∷ []) ≡ true
are_valid_facts-append facts c h v l n = facts_loop-append 0 [] facts c h v l n

pub fresh-no_clash :
    (c : ContributingHealFact) (facts : List ContributingHealFact)
    → replay_loop c facts ≡ fresh
    → clashes_any facts c ≡ false
unfolding replay_loop clashes_any
fresh-no_clash c [] h = refl
fresh-no_clash c (x ∷ facts) h = ground (arith, fresh-no_clash c facts)

no_clash-Has :
    (c x : ContributingHealFact) (facts : List ContributingHealFact)
    → clashes_any facts c ≡ false
    → Has x facts
    → clashes x c ≡ false
unfolding clashes_any
no_clash-Has c x [] n h = absurd h
no_clash-Has c x (y ∷ facts) n (inl e) = subst (λ z. clashes z c ≡ false) e (ground arith)
no_clash-Has c x (y ∷ facts) n (inr h) = no_clash-Has c x facts (ground arith) h

pub no_clash-All :
    (c : ContributingHealFact) (some_facts facts : List ContributingHealFact)
    → clashes_any facts c ≡ false
    → All (λ x. Has x facts) some_facts
    → clashes_any some_facts c ≡ false
unfolding clashes_any
no_clash-All c [] facts n a = refl
no_clash-All c (x ∷ some_facts) facts n (h, a) =
    ground (arith, no_clash-Has c x facts n h, no_clash-All c some_facts facts n a)

fact_eq_refl : (c : ContributingHealFact) → fact_eq c c ≡ true
unfolding fact_eq
fact_eq_refl c =
    rw
      (
        text_eq_refl c.fact_id,
        text_eq_refl c.commit_id,
        text_eq_refl c.instance_id,
        text_eq_refl c.entry_id,
        text_eq_refl c.step_execution_id,
      )
      (ground arith)

-- After a fact that was fresh, the same fact is a replay.
pub replay_loop-append :
    (c : ContributingHealFact) (facts : List ContributingHealFact)
    → replay_loop c facts ≡ fresh
    → replay_loop c (facts ++ c ∷ []) ≡ replayed
unfolding replay_loop
replay_loop-append c [] h = ground (arith, fact_eq_refl c)
replay_loop-append c (x ∷ facts) h = ground (arith, replay_loop-append c facts)
