-- ===== src/Scheduling/Coordinator/Outcome.antt =====
-- When the processing of a claim succeeds, and on which host it ends.
use healix_core.Prelude.{
  Text, ℤ, ◌≡◌, refl, ◌≢◌, ◌↔◌, ◌⊎◌, inl, inr, true, false, List, [], ◌∷◌, ◌++◌, none, some, ok,
  arith, subst, Bool-cases, Result-cases, text_eq_iff, is_empty,
}
use healix_core.Execution.Snapshot.{WorkerFence, validate_fence}
use healix_core.Scheduling.Decision.{EntryState, Decision, decide_advance}
use healix_core.Scheduling.Port.{SchedulingError, classify, Answer-cases, answers, Call}
use healix_core.Scheduling.Coordinator.{
  Coordinator, process_next, Claim, ApplyDecisionResult, ClaimSource, claimed, same_fence,
  is_invalid_claim, is_idle, accept_write, write_decision, process_claim, release_claim,
  process_with,
}

-- A claim whose fence is valid and of the claimed instance, with a digest.
abbrev pub IsClaim : Claim → Type 0
IsClaim c =
    (validate_fence c.fence ≡ ok tt)
    × (c.fence.instance_id ≡ c.snapshot.instance_id)
    × (is_empty c.snapshot.digest ≡ false)

is_invalid_claim_iff : (c : Claim) → (is_invalid_claim c ≡ false) ↔ IsClaim c
unfolding is_invalid_claim
is_invalid_claim_iff c = ground (
  arith,
  text_eq_iff c.fence.instance_id c.snapshot.instance_id,
  Result-cases (validate_fence c.fence),
)

same_fence_iff :
    (a b : WorkerFence)
    → (same_fence a b ≡ true) ↔ ((a.instance_id ≡ b.instance_id) × (a.claim_token ≡ b.claim_token))
same_fence_iff a b =
    ground (arith, text_eq_iff a.instance_id b.instance_id, text_eq_iff a.claim_token b.claim_token)

accept_write_iff :
    (fence : WorkerFence) (r : ApplyDecisionResult)
    → (accept_write fence r ≡ []) ↔ (
        (r.applied ≡ true)
        × (r.fence.instance_id ≡ fence.instance_id)
        × (r.fence.claim_token ≡ fence.claim_token))
unfolding accept_write
accept_write_iff fence r = ground (arith, same_fence_iff r.fence fence)

module _ {H : Type 0} where
  -- A decision that asks for something was applied under the fence of the claim; one that asks
  -- for nothing was not written.
  abbrev pub Written :
      (Claim → Decision → ℤ → Call H ApplyDecisionResult) → Claim → ℤ → Decision → H → H → Type 0
  Written apply_decision c at d h last =
      ((is_idle d ≡ true) × (last ≡ h))
      ⊎ ((is_idle d ≡ false)
          × ((r : ApplyDecisionResult) × (apply_decision c d at h ≡ answers r last)
              × (r.applied ≡ true)
              × (r.fence.instance_id ≡ c.fence.instance_id)
              × (r.fence.claim_token ≡ c.fence.claim_token)))

  write_decision-Written :
      (apply_decision : Claim → Decision → ℤ → Call H ApplyDecisionResult) (c : Claim) (at : ℤ)
      (d : Decision) (h last : H)
      → (write_decision apply_decision c at d h ≡ ([], last)) ↔ Written apply_decision c at d h last
  unfolding write_decision
  write_decision-Written apply_decision c at d h last = elim (Bool-cases (is_idle d)) [
    | inl q ↦ ground (arith, q)
    | inr q ↦ elim (Answer-cases (apply_decision c d at h)) [
      | inr (f, h', a) ↦ (λ e. ground (arith, q, a, e), λ w. ground (arith, q, a, w))
      | inl (r, h', a) ↦ (
        λ e. ground (arith, q, a, e, accept_write_iff c.fence r),
        λ w. ground (arith, q, a, w, accept_write_iff c.fence r),
      )
    ]
  ]

module _ {H : Type 0} (load_entry_states : Claim → Call H (List EntryState))
    (apply_decision : Claim → Decision → ℤ → Call H ApplyDecisionResult) where
  -- A claim that was processed: its states were loaded, decided on and written.
  abbrev pub Processed : Claim → ℤ → H → H → Type 0
  Processed c at h last =
      IsClaim c
      × ((states : List EntryState) × (loaded : H) × (d : Decision) × (load_entry_states c h
            ≡ answers states loaded)
          × (decide_advance c.snapshot states ≡ ok d)
          × Written apply_decision c at d loaded last)

  process_claim-Processed :
      (c : Claim) (at : ℤ) (h last : H)
      → process_claim load_entry_states apply_decision c at h ≡ ([], last)
      → Processed c at h last
  unfolding process_claim
  process_claim-Processed c at h last e = elim (Bool-cases (is_invalid_claim c)) [
    | inl q ↦ ground (arith, q, e)
    | inr q ↦ elim (Answer-cases (load_entry_states c h)) [
      | inr (f, h', a) ↦ ground (arith, q, a, e)
      | inl (states, h', a) ↦ elim (Result-cases (decide_advance c.snapshot states)) [
        | inr (f, b) ↦ ground (arith, q, a, b, e)
        | inl (d, b) ↦ (
          (is_invalid_claim_iff c).0 q,
          (
            states,
            h',
            d,
            a,
            b,
            (write_decision-Written apply_decision c at d h' last).0 (ground (arith, q, a, b, e)),
          ),
        )
      ]
    ]
  ]

  Processed-process_claim :
      (c : Claim) (at : ℤ) (h last : H)
      → Processed c at h last
      → process_claim load_entry_states apply_decision c at h ≡ ([], last)
  unfolding process_claim
  Processed-process_claim c at h last (valid, (states, loaded, d, a, b, written)) = ground (
    arith,
    (is_invalid_claim_iff c).1 valid,
    a,
    b,
    (write_decision-Written apply_decision c at d loaded last).1 written,
  )

append-nil-last : {A : Type 0} (xs : List A) (x : A) → (xs ++ x ∷ []) ≢ []
append-nil-last [] x h = cc
append-nil-last (y ∷ xs) x h = cc

claimed_ok :
    {H : Type 0} (x : List SchedulingError × H) (last : H)
    → claimed x ≡ (true, [], last)
    → x ≡ ([], last)
claimed_ok (errors, h) last e = ground (arith, e)

module _ {H : Type 0} (source : ClaimSource H)
    (load_entry_states : Claim → Call H (List EntryState))
    (apply_decision : Claim → Decision → ℤ → Call H ApplyDecisionResult) where
  abbrev pub coordinator : Coordinator H
  coordinator = record {
    claims = some source;
    states = some load_entry_states;
    writer = some apply_decision;
  }

  release_claim-nil :
      (c : Claim) (x : List SchedulingError × H) (last : H)
      → release_claim source c x ≡ ([], last)
      → (x.0 ≡ []) × (source.release c (x.1) ≡ answers tt last)
  unfolding release_claim
  release_claim-nil c (errors, h) last e = elim (Answer-cases (source.release c h)) [
    | inl (_, h', a) ↦ ground (arith, a, e)
    | inr (f, h', a) ↦ absurd (append-nil-last errors (classify f) (ground (arith, a, e)))
  ]

  -- A claim that was taken, processed and released.
  abbrev pub Advanced : Text → ℤ → H → H → Type 0
  Advanced worker_id at h last =
      (c : Claim) × (taken : H) × (processed : H) × (source.claim_next worker_id at h
        ≡ answers (some c) taken)
      × Processed load_entry_states apply_decision c at taken processed
      × (source.release c processed ≡ answers tt last)

  claimed-Advanced :
      (worker_id : Text) (at : ℤ) (h taken last : H) (c : Claim) (x : List SchedulingError × H)
      → source.claim_next worker_id at h ≡ answers (some c) taken
      → process_claim load_entry_states apply_decision c at taken ≡ x
      → release_claim source c x ≡ ([], last)
      → Advanced worker_id at h last
  claimed-Advanced worker_id at h taken last c (errors, processed) claimed own e =
      let (none_left, released) = release_claim-nil c (errors, processed) last e in
      let own' =
        subst (λ l. process_claim load_entry_states apply_decision c at taken ≡ (l, processed))
          none_left own in
      (
        c,
        taken,
        processed,
        claimed,
        process_claim-Processed load_entry_states apply_decision c at taken processed own',
        released,
      )

  process_next-Advanced :
      (worker_id : Text) (at : ℤ) (h last : H)
      → process_next coordinator worker_id at h ≡ (true, [], last)
      → Advanced worker_id at h last
  unfolding process_next process_with
  process_next-Advanced worker_id at h last e =
      elim (Answer-cases (source.claim_next worker_id at h)) [
        | inr (f, h', a) ↦ ground (arith, a, e)
        | inl (none, h', a) ↦ ground (arith, a, e)
        | inl (some c, h', a) ↦
            let x = process_claim load_entry_states apply_decision c at h' in
            claimed-Advanced worker_id at h h' last c x a refl
              (claimed_ok (release_claim source c x) last (ground (arith, a, e)))
      ]

  Advanced-process_next :
      (worker_id : Text) (at : ℤ) (h last : H)
      → Advanced worker_id at h last
      → process_next coordinator worker_id at h ≡ (true, [], last)
  unfolding process_next process_with release_claim
  Advanced-process_next worker_id at h last (c, taken, processed, claimed, own, released) = ground (
    arith,
    claimed,
    Processed-process_claim load_entry_states apply_decision c at taken processed own,
    released,
  )

  -- A call of `ProcessNext` that takes a claim returns no error exactly if the claim's fence is
  -- valid, of the claimed instance and its digest is there; its entry states load and are decided
  -- on; a decision that asks for something is applied under the claim's own fence, one that asks
  -- for nothing is not written; and the claim is released. The host is the one after the release.
  pub process_next_iff :
      (worker_id : Text) (at : ℤ) (h last : H)
      → (process_next coordinator worker_id at h ≡ (true, [], last)) ↔ Advanced worker_id at h last
  process_next_iff worker_id at h last =
      (process_next-Advanced worker_id at h last, Advanced-process_next worker_id at h last)
