-- ===== src/Execution/InvocationPath.antt =====
-- domain/execution/coordinate.go: invocation paths, an entry with the steps below it, each written
-- as its length, a colon and its identity. `panicked` is a run-time panic; the loop runs on fuel.
pub mod Returns
use healix_core.Prelude.{
  Text, ℕ, zero, suc, ◌+◌, ◌-◌, ◌^◌, ℤ, pos, negsuc, Bool, not, ◌||◌, List, [], ◌∷◌, Option, none,
  some, ltb, ◌==◌, length, take, drop, is_empty, if◌then◌else◌,
}
use healix_core.Parameter.{read_sign, span_digits, read_number}
use healix_core.Execution.Coordinate.{is_invalid_id}

pub data PathOutcome : Type 0 where
  accepted identity_invalid invalid_segment noncanonical_segment panicked out_of_fuel : PathOutcome

abbrev max_int : ℕ
max_int = 2 ^ 63 - 1

-- What stands before and after the first `byte`, where there is one (`strings.IndexByte`).
unfoldable pub split_byte : ℕ → Text → Option (Text × Text)
split_byte byte [] = none
split_byte byte (c ∷ rest) = if c == byte then some ([], rest) else elim (split_byte byte rest) [
  | none ↦ none
  | some (before, after) ↦ some (c ∷ before, after)
]

-- `strconv.Atoi` of a text that must be 1 or more: a sign, digits, and no more than an `int` holds.
unfoldable pub segment_length : Text → Option ℕ
unfolding span_digits read_number
segment_length digits =
    let sign : Bool × Text = read_sign digits in
    let spanned : Text × Text = span_digits (sign.1) in
    let value : ℕ = read_number 0 (spanned.0) in
    if is_empty (spanned.0)
      || not (is_empty (spanned.1))
      || sign.0
      || value == 0
      || ltb max_int value
    then none
    else some value

-- What follows a step: the end, or a slash and the next segment, at the position given.
abbrev pub next_segment : (ℕ → Text → PathOutcome) → ℕ → Text → PathOutcome
next_segment loop position [] = accepted
next_segment loop position (c ∷ rest) =
    if c == 47 then loop (position + 1) rest else noncanonical_segment

-- A step of a length that its segment gives, `after` the colon at `step_start`. The sum of the two is
-- an `int`: where it is too large it is negative, passes the check and ends in a slice out of range.
unfoldable pub read_step : (ℕ → Text → PathOutcome) → ℕ → ℕ → Text → PathOutcome
read_step loop step_start size after =
    if ltb max_int (step_start + size)
    then panicked
    else if ltb (length after) size
    then noncanonical_segment
    else if is_invalid_id (take size after)
    then identity_invalid
    else next_segment loop (step_start + size) (drop size after)

-- The loop from `position` on, where `remaining` is left.
unfoldable pub segments_loop : ℕ → ℕ → Text → PathOutcome
unfolding split_byte segment_length read_step
segments_loop zero position remaining = out_of_fuel
segments_loop (suc fuel) position remaining = elim (split_byte 58 remaining) [
  | none ↦ invalid_segment
  | some (digits, after) ↦
      if is_empty digits then invalid_segment else elim (segment_length digits) [
        | none ↦ noncanonical_segment
        | some size ↦ read_step (segments_loop fuel) (position + length digits + 1) size after
      ]
]

-- `validateInvocationPath`
unfoldable pub validate_invocation_path : Text → PathOutcome
unfolding segments_loop split_byte
validate_invocation_path value =
    if is_invalid_id value then identity_invalid else elim (split_byte 47 value) [
      | none ↦ accepted
      | some (root, rest) ↦
          if is_invalid_id root
          then identity_invalid
          else segments_loop (length value) (length root + 1) rest
    ]
