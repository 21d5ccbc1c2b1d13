-- ===== src/Examples/Retry.antt =====
-- An operation that fails twice by the driver and then succeeds (domain/node/errors.go).
use healix_core.Prelude.{ℕ, zero, suc, ◌<◌, ◌≡◌, refl, false, pos}
use healix_core.Node.Retry.{
  transient_driver, element_not_found, Error, nil, faulted, joined, wrapped, child, no_child,
  RetryPolicy, normalized, is_exclusive_transient_driver_fault, retry_loop, retry_with_attempts,
}
use healix_core.Node.Retry.Attempts.{Failures, Stops, retry_with_attempts-Failures}

-- The state counts the failures that are left.
abbrev flaky : ℕ → ℕ × Error
flaky zero = (zero, nil)
flaky (suc n) = (n, wrapped (joined (child (faulted transient_driver) no_child)))

abbrev three_attempts : RetryPolicy
three_attempts = record { attempts = pos 3 }

succeeds_third : retry_with_attempts flaky three_attempts 2 ≡ (0, 3, nil)
unfolding retry_with_attempts retry_loop normalized is_exclusive_transient_driver_fault
succeeds_third = refl

-- A driver fault beside another one is no reason for another attempt.
mixed :
    is_exclusive_transient_driver_fault
      (joined (child (faulted transient_driver) (child (faulted element_not_found) no_child)))
    ≡ false
unfolding is_exclusive_transient_driver_fault
mixed = refl

retry_with_attempts-Failures_example :
    (k : ℕ) × (t : ℕ) × Failures flaky k 2 t
    × (retry_with_attempts flaky three_attempts 2 ≡ ((flaky t).0, suc k, (flaky t).1))
    × (k < normalized three_attempts)
    × Stops flaky (normalized three_attempts) (suc k) (flaky t).1
retry_with_attempts-Failures_example = retry_with_attempts-Failures flaky three_attempts 2
