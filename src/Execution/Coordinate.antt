-- ===== src/Execution/Coordinate.antt =====
-- domain/execution/coordinate.go: the identities of instances, entries and steps.
use healix_core.Prelude.{
  Text, ℕ, ◌*◌, Bool, true, false, ◌||◌, not, is_blank, is_trimmed, ltb, length, Result, ok, err,
  reject, ◌>>◌,
}

abbrev pub max_string_bytes : ℕ
max_string_bytes = 64 * 1024

pub data CoordinateError : Type 0 where
  invalid surrounding_space : CoordinateError

unfoldable pub validate_execution_identity : Text → Result CoordinateError Text
validate_execution_identity value = do
  reject (is_blank value || ltb max_string_bytes (length value)) invalid
  reject (not (is_trimmed value)) surrounding_space
  ok value

-- `id.Validate() != nil`
unfoldable pub is_invalid_id : Text → Bool
unfolding validate_execution_identity
is_invalid_id value = elim (validate_execution_identity value) [ ok _ ↦ false | err _ ↦ true ]
