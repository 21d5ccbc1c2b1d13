-- ===== src/Automation/Revision.antt =====
-- domain/automation/revision.go, the time check of lifecycle.go and the version numbers of
-- healing.go. `Revision` is a `uint64`.
use healix_core.Prelude.{
  Text, ℕ, ◌+◌, ◌-◌, ◌^◌, ℤ, pos, lebℤ, ltbℤ, List, [], ◌∷◌, ltb, ◌==◌, if◌then◌else◌, codes,
  Result, ok, err, reject, ◌>>=◌, ◌>>◌,
}
use healix_core.Fault.{Violation, field_invalid}

pub data AutomationError : Type 0 where
  content_invalid : List Violation → AutomationError
  history_invalid transition_invalid : Violation → AutomationError
  aggregate_deleted persisted_revision_invalid revision_exhausted : AutomationError
  persisted_version_number_invalid version_number_exhausted : AutomationError

abbrev pub max_revision : ℕ
max_revision = 2 ^ 64 - 1

unfoldable pub validate_persisted : ℕ → Result AutomationError (Unit {0})
validate_persisted revision = reject (revision == 0) persisted_revision_invalid

unfoldable pub next_revision : ℕ → Result AutomationError ℕ
unfolding validate_persisted
next_revision revision = do
  validate_persisted revision
  reject (revision == max_revision) revision_exhausted
  ok (revision + 1)

unfoldable pub validate_transition_time : ℤ → ℤ → Result AutomationError (Unit {0})
validate_transition_time at updated_at = do
  reject (lebℤ at (pos 0)) (transition_invalid (field_invalid (codes "at")))
  reject (ltbℤ at updated_at) (transition_invalid (field_invalid (codes "at")))

-- A number below one is 0 here: the code tells such numbers from the others and no more.
pub record VersionMeta : Type 0 where
  pub id : Text
  pub version_number : ℕ
  pub deleted_at : ℤ

abbrev pub max_int : ℕ
max_int = 2 ^ 63 - 1

unfoldable pub maximum_loop : ℕ → List VersionMeta → Result AutomationError ℕ
maximum_loop maximum [] = ok maximum
maximum_loop maximum (version ∷ existing) =
    let rest =
      maximum_loop (if ltb maximum version.version_number then version.version_number else maximum)
        existing in
    if version.version_number == 0 then err persisted_version_number_invalid else rest

unfoldable pub next_version_number : List VersionMeta → Result AutomationError ℕ
unfolding maximum_loop
next_version_number existing = do
  maximum ← maximum_loop 0 existing
  reject (maximum == max_int) version_number_exhausted
  ok (maximum + 1)
