-- ===== src/Examples/InvocationPath.antt =====
-- Invocation paths: one with two steps, one whose length has a sign, and one whose length is too large.
use healix_core.Prelude.{◌≡◌, ◌≢◌, refl, codes, is_blank, is_trimmed}
use healix_core.Execution.Coordinate.{is_invalid_id}
use healix_core.Execution.InvocationPath.{
  accepted, noncanonical_segment, panicked, out_of_fuel, validate_invocation_path,
}
use healix_core.Execution.InvocationPath.Returns.{validate_invocation_path-returns}

two_steps : validate_invocation_path (codes "entry/4:open/2:go") ≡ accepted
unfolding validate_invocation_path is_invalid_id is_blank is_trimmed
two_steps = refl

too_short : validate_invocation_path (codes "entry/4:go") ≡ noncanonical_segment
unfolding validate_invocation_path is_invalid_id is_blank is_trimmed
too_short = refl

-- A sign and a leading zero are accepted.
signed_length : validate_invocation_path (codes "entry/+02:go") ≡ accepted
unfolding validate_invocation_path is_invalid_id is_blank is_trimmed
signed_length = refl

-- The end of the step overflows, so that the slice has a negative bound.
largest_length : validate_invocation_path (codes "entry/9223372036854775807:go") ≡ panicked
unfolding validate_invocation_path is_invalid_id is_blank is_trimmed
largest_length = refl

validate_invocation_path-returns_example :
    validate_invocation_path (codes "entry/4:open/2:go") ≢ out_of_fuel
validate_invocation_path-returns_example =
    validate_invocation_path-returns (codes "entry/4:open/2:go")
