-- ===== src/Node/Retry/Attempts.antt =====
-- The calls that `RetryWithAttempts` (domain/node/errors.go) makes.
use healix_core.Prelude.{
  ℕ, zero, suc, ◌+◌, ◌≤◌, ◌≡◌, refl, ap, subst, sym, ◌∙◌, ◌⊎◌, inl, inr, true, false, ◌==◌, arith,
  Bool-cases, ◌<◌, ℤ, pos, negsuc,
}
use healix_core.Node.Retry.{
  Error, nil, RetryPolicy, normalized, is_nil, is_exclusive_transient_driver_fault, retry_loop,
  retry_with_attempts,
}

module _ {S : Type 0} (operation : S → S × Error) where
  -- Calls that fail one after the other in a way that is worth another attempt.
  pub data Failures : ℕ → S → S → Type 0 where
    none_yet : {s : S} → Failures 0 s s
    fails :
        {n : ℕ} {s t : S}
        → is_nil (operation s).1 ≡ false
        → is_exclusive_transient_driver_fault (operation s).1 ≡ true
        → Failures n (operation s).0 t
        → Failures (suc n) s t

  -- Why the loop goes no further: success, a failure of another kind, or the last attempt.
  abbrev pub Stops : ℕ → ℕ → Error → Type 0
  Stops attempts n e =
      (is_nil e ≡ true) ⊎ ((is_exclusive_transient_driver_fault e ≡ false) ⊎ (n ≡ attempts))

  -- What the loop gives: the answer of the call after `k` failures.
  abbrev Answers : ℕ → ℕ → S → S × ℕ × Error → Type 0
  Answers attempts attempt s r =
      (k : ℕ) × (t : S) × Failures k s t
      × (r ≡ ((operation t).0, attempt + k, (operation t).1))
      × (attempt + k ≤ attempts)
      × Stops attempts (attempt + k) (operation t).1

  nil_only : (e : Error) → is_nil e ≡ true → nil ≡ e
  nil_only nil h = refl
  nil_only (Error.faulted c) h = cc
  nil_only (Error.joined c) h = cc
  nil_only (Error.wrapped c) h = cc
  nil_only (Error.plain c) h = cc

  stopped_now :
      (attempts attempt : ℕ) (s : S) {r : S × ℕ × Error}
      → r ≡ ((operation s).0, attempt, (operation s).1)
      → attempt ≤ attempts
      → Stops attempts attempt (operation s).1
      → Answers attempts attempt s r
  stopped_now attempts attempt s q l st = (
    0,
    s,
    none_yet,
    q ∙ ap (λ n. ((operation s).0, n, (operation s).1)) (omega arith),
    omega arith,
    subst (λ n. Stops attempts n (operation s).1) (omega arith) st,
  )

  last_round : (a b : ℕ) → suc 0 + a ≡ suc b → (a == b) ≡ true
  last_round a b h = ground arith

  more_rounds : (a b l : ℕ) → suc (suc l) + a ≡ suc b → (a == b) ≡ false
  more_rounds a b l h = ground arith

  -- One round; the last part is what happens after a driver fault.
  round :
      (attempts left attempt : ℕ) (s : S)
      → attempt ≤ attempts
      → (is_nil (operation s).1 ≡ false
          → is_exclusive_transient_driver_fault (operation s).1 ≡ true
          → Answers attempts attempt s (retry_loop operation attempts (suc left) attempt s))
      → Answers attempts attempt s (retry_loop operation attempts (suc left) attempt s)
  unfolding retry_loop
  round attempts left attempt s l again = elim (Bool-cases (is_nil (operation s).1)) [
    | inl e ↦
        stopped_now attempts attempt s
          (rw e (ap (λ x. ((operation s).0, attempt, x)) (nil_only (operation s).1 e))) l (inl e)
    | inr e ↦ elim (Bool-cases (is_exclusive_transient_driver_fault (operation s).1)) [
      | inr x ↦ stopped_now attempts attempt s (rw e (rw x)) l (inr (inl x))
      | inl x ↦ again e x
    ]
  ]

  retry_loop-Answers :
      (attempts left attempt : ℕ) (s : S)
      → suc left + attempt ≡ suc attempts
      → Answers attempts attempt s (retry_loop operation attempts (suc left) attempt s)
  unfolding retry_loop
  retry_loop-Answers attempts zero attempt s h = round attempts zero attempt s (omega arith) (λ e x.
      stopped_now attempts attempt s (rw e (rw x (rw (last_round attempt attempts h))))
        (omega arith) (inr (inr (omega arith))))
  retry_loop-Answers attempts (suc left) attempt s h =
      let (k, t, f, r, b, st) =
        retry_loop-Answers attempts left (suc attempt) (operation s).0 (omega arith) in
      round attempts (suc left) attempt s (omega arith) (λ e x. (
        suc k,
        t,
        fails e x f,
        rw e (
            rw x (
              rw (more_rounds attempt attempts left h)
                (r ∙ ap (λ n. ((operation t).0, n, (operation t).1)) (omega arith)))),
        omega arith,
        subst (λ n. Stops attempts n (operation t).1) (omega arith) st,
      ))

  normalized-suc : (policy : RetryPolicy) → (n : ℕ) × (normalized policy ≡ suc n)
  unfolding normalized
  normalized-suc policy = positive policy.attempts
    where
      positive : (a : ℤ) → (n : ℕ) × (normalized (record { attempts = a }) ≡ suc n)
      positive (pos zero) = (0, refl)
      positive (pos (suc n)) = (n, refl)
      positive (negsuc n) = (0, refl)

  all_rounds : (m n : ℕ) (s : S) → m ≡ suc n → Answers m 1 s (retry_loop operation m m 1 s)
  all_rounds m n s e =
      subst (λ x. Answers x 1 s (retry_loop operation x x 1 s)) (sym e)
        (retry_loop-Answers (suc n) n 1 s (omega arith))

  -- `RetryWithAttempts` calls the operation once more after `k` calls that failed by driver faults
  -- alone, which are fewer than the attempts of the policy, and returns the answer and the number
  -- of that call; it stopped there since the call succeeded, or failed for another reason, or was
  -- the last one.
  pub retry_with_attempts-Failures :
      (policy : RetryPolicy) (s : S)
      → (k : ℕ) × (t : S) × Failures k s t
        × (retry_with_attempts operation policy s ≡ ((operation t).0, suc k, (operation t).1))
        × (k < normalized policy)
        × Stops (normalized policy) (suc k) (operation t).1
  unfolding retry_with_attempts
  retry_with_attempts-Failures policy s =
      let (n, e) = normalized-suc policy in
      let (k, t, f, r, b, st) = all_rounds (normalized policy) n s e in
      (
        k,
        t,
        f,
        r ∙ ap (λ m. ((operation t).0, m, (operation t).1)) (omega arith),
        omega arith,
        subst (λ m. Stops (normalized policy) m (operation t).1) (omega arith) st,
      )
