-- ===== src/Automation/HealStreak/Again.antt =====
-- Observations of a healing streak (domain/automation/healing.go) that come again.
use healix_core.Prelude.{
  ◌≡◌, refl, ap, sym, subst, ◌∙◌, inl, inr, true, List, [], ◌∷◌, ◌++◌, ok, arith,
}
use healix_core.Automation.HealStreak.{
  ContributingHealFact, HealObservation, HealStreak, consumed_provenance, provenance_of,
  is_valid_streak,
}
use healix_core.Automation.HealStreak.Observe.{contribute, replay_loop, replayed, fresh, observe}
use healix_core.Automation.HealStreak.Facts.{replay_loop-append, provenance_of-append}
use healix_core.Automation.HealStreak.Advanced.{
  Advanced, kept, started, ended, went_stale, contributed, Observed, observe-eq-ok,
}

contribute-consumed :
    (s : HealStreak) (o : HealObservation)
    → consumed_provenance (contribute s o) ≡ consumed_provenance s ++ o.fact ∷ []
unfolding contribute
contribute-consumed s o =
    let e : (contribute s o).consumed_observations ≡ consumed_provenance s ++ o.fact ∷ [] =
      ground arith in
    ap (λ l. provenance_of l (contribute s o).contributions) e
    ∙ provenance_of-append (consumed_provenance s) (contribute s o).contributions o.fact

-- What the observation left has it among what was consumed.
Advanced-replayed :
    (s t : HealStreak) (o : HealObservation)
    → replay_loop o.fact (consumed_provenance s) ≡ fresh
    → Advanced s o t
    → replay_loop o.fact (consumed_provenance t) ≡ replayed
unfolding replay_loop
Advanced-replayed s t o new a =
    subst (λ l. replay_loop o.fact l ≡ replayed) (sym (consumed a)) (found a)
  where
    facts : Advanced s o t → List ContributingHealFact
    facts (started _ _) = []
    facts (ended _ _ _) = []
    facts _ = consumed_provenance s

    consumed : (a : Advanced s o t) → consumed_provenance t ≡ facts a ++ o.fact ∷ []
    consumed (started _ e) = ap consumed_provenance e
    consumed (ended _ _ e) = ap consumed_provenance e
    consumed (kept _ e) =
        ap consumed_provenance e
        ∙ provenance_of-append (consumed_provenance s) s.contributions o.fact
    consumed (went_stale _ e) =
        ap consumed_provenance e
        ∙ provenance_of-append (consumed_provenance s) s.contributions o.fact
    consumed (contributed _ _ _ e) = ap consumed_provenance e ∙ contribute-consumed s o

    found : (a : Advanced s o t) → replay_loop o.fact (facts a ++ o.fact ∷ []) ≡ replayed
    found (started _ _) = replay_loop-append o.fact [] refl
    found (ended _ _ _) = replay_loop-append o.fact [] refl
    found _ = replay_loop-append o.fact (consumed_provenance s) new

-- An observation that comes again right after it was accepted is answered by the same streak, if
-- that is valid.
pub observe-observe :
    (s t : HealStreak) (o : HealObservation)
    → observe s o ≡ ok t
    → is_valid_streak t ≡ true
    → observe t o ≡ ok t
unfolding observe
observe-observe s t o h v =
    let w : Observed s o t = observe-eq-ok s o t h in
    let again : replay_loop o.fact (consumed_provenance t) ≡ replayed = elim w.effect [
      | inl (r, e) ↦ subst (λ x. replay_loop o.fact (consumed_provenance x) ≡ replayed) (sym e) r
      | inr (new, _, a) ↦ Advanced-replayed s t o new a
    ] in
    rw (v, w.valid_observation, again)
