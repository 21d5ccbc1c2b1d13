-- ===== src/Node/Retry.antt =====
-- domain/node/errors.go: which failures are worth another attempt, and the loop that makes it.
pub mod Attempts
use healix_core.Prelude.{
  Text, ℤ, pos, ltbℤ, ℕ, zero, suc, ◌-◌, Bool, true, false, not, ◌&&◌, ◌==◌, if◌then◌else◌,
}

pub data Code : Type 0 where
  transient_driver element_not_found : Code
  other : Text → Code

-- A Go `error`, nil included. A fault hides its cause from these functions; `plain` is an error
-- that unwraps to nothing, with what `fault.IsCode` answers for it.
mutual
  pub data Error : Type 0 where
    nil : Error
    faulted : Code → Error
    joined : Errors → Error
    wrapped : Error → Error
    plain : (Code → Bool) → Error

  pub data Errors : Type 0 where
    no_child : Errors
    child : Error → Errors → Errors

abbrev pub is_transient_code : Code → Bool
is_transient_code transient_driver = true
is_transient_code _ = false

abbrev pub is_not_found_code : Code → Bool
is_not_found_code element_not_found = true
is_not_found_code _ = false

abbrev has_child : Errors → Bool
has_child no_child = false
has_child (child _ _) = true

unfoldable mutual
  pub is_exclusive_element_not_found : Error → Bool
  is_exclusive_element_not_found nil = false
  is_exclusive_element_not_found (faulted code) = is_not_found_code code
  is_exclusive_element_not_found (joined children) =
      has_child children && all_element_not_found children
  is_exclusive_element_not_found (wrapped e) = is_exclusive_element_not_found e
  is_exclusive_element_not_found (plain is) = is element_not_found

  pub all_element_not_found : Errors → Bool
  all_element_not_found no_child = true
  all_element_not_found (child e rest) =
      is_exclusive_element_not_found e && all_element_not_found rest

unfoldable mutual
  pub is_exclusive_transient_driver_fault : Error → Bool
  is_exclusive_transient_driver_fault nil = false
  is_exclusive_transient_driver_fault (faulted code) = is_transient_code code
  is_exclusive_transient_driver_fault (joined children) =
      has_child children && all_transient_driver_fault children
  is_exclusive_transient_driver_fault (wrapped e) = is_exclusive_transient_driver_fault e
  is_exclusive_transient_driver_fault (plain is) = is transient_driver

  pub all_transient_driver_fault : Errors → Bool
  all_transient_driver_fault no_child = true
  all_transient_driver_fault (child e rest) =
      is_exclusive_transient_driver_fault e && all_transient_driver_fault rest

abbrev pub is_nil : Error → Bool
is_nil nil = true
is_nil _ = false

pub record RetryPolicy : Type 0 where
  pub attempts : ℤ

unfoldable pub normalized : RetryPolicy → ℕ
normalized p = elim p.attempts [ pos zero ↦ 1 | pos (suc n) ↦ suc n | _ ↦ 1 ]

-- The operation is a closure: each call takes the state of the host and gives the next one.
module _ {S : Type 0} (operation : S → S × Error) where
  -- The loop with `left` more rounds, the next of them being number `attempt`.
  unfoldable pub retry_loop : ℕ → ℕ → ℕ → S → S × ℕ × Error
  retry_loop attempts zero attempt s = (s, attempts, nil)
  retry_loop attempts (suc left) attempt s =
      let (s', e) = operation s in
      let rest = retry_loop attempts left (suc attempt) s' in
      if is_nil e
      then (s', attempt, nil)
      else if not (is_exclusive_transient_driver_fault e)
      then (s', attempt, e)
      else if attempt == attempts
      then (s', attempt, e)
      else rest

  unfoldable pub retry_with_attempts : RetryPolicy → S → S × ℕ × Error
  unfolding retry_loop
  retry_with_attempts policy s = retry_loop (normalized policy) (normalized policy) 1 s

  unfoldable pub retry : RetryPolicy → S → S × Error
  retry policy s = let (s', _, e) = retry_with_attempts policy s in (s', e)
