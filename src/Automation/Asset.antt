-- ===== src/Automation/Asset.antt =====
-- The aggregates of domain/automation/versioning.go and lifecycle.go: a stable asset and its
-- immutable versions. Element targets and flow fragments run through the same code, with the
-- content of a version and its check as the difference, which are parameters here.
pub mod Identity
pub mod History
pub mod Publish
pub mod Restore
pub mod Lifecycle
use healix_core.Prelude.{
  Text, ℕ, suc, ℤ, pos, lebℤ, ltbℤ, is_zero, Bool, true, false, not, ◌&&◌, ◌||◌, List, [], ◌∷◌,
  ◌++◌, map, Option, none, some, ◌==◌, ltb, leb, if◌then◌else◌, text_eq, is_blank, is_empty, codes,
  Result, ok, err, require, reject, ◌>>=◌, ◌>>◌,
}
use healix_core.Fault.{
  Violation, field_required, field_invalid, field_mismatch, field_duplicate, contains,
}
use healix_core.Automation.Revision.{
  AutomationError, content_invalid, history_invalid, transition_invalid, aggregate_deleted,
  next_revision, validate_transition_time, VersionMeta, next_version_number,
}

-- Properties are read by their keys alone.
pub record Asset : Type 0 where
  pub id : Text
  pub display_name : Text
  pub properties : List (Text × Text)
  pub folder_id : Text
  pub current_version_id : Text
  pub created_at : ℤ
  pub updated_at : ℤ
  pub deleted_at : ℤ
  pub revision : ℕ

pub record Version (C : Type 0) : Type 0 where
  pub id : Text
  pub owner_id : Text
  pub version_number : ℕ
  pub content : C
  pub created_at : ℤ
  pub deleted_at : ℤ

pub record Aggregate (C : Type 0) : Type 0 where
  pub asset : Asset
  pub current : Version C
  pub versions : List (Version C)

unfoldable pub has_invalid_key : List (Text × Text) → Bool
has_invalid_key [] = false
has_invalid_key ((key, _) ∷ rest) = is_blank key || has_invalid_key rest

unfoldable pub contains_number : ℕ → List ℕ → Bool
contains_number n [] = false
contains_number n (m ∷ rest) = m == n || contains_number n rest

-- `sort.Ints`
unfoldable pub insert_int : ℕ → List ℕ → List ℕ
insert_int n [] = n ∷ []
insert_int n (m ∷ rest) = if leb n m then n ∷ m ∷ rest else m ∷ insert_int n rest

unfoldable pub sort_ints : List ℕ → List ℕ
unfolding insert_int
sort_ints [] = []
sort_ints (n ∷ rest) = insert_int n (sort_ints rest)

unfoldable pub is_contiguous : ℕ → List ℕ → Bool
is_contiguous index [] = true
is_contiguous index (n ∷ rest) = n == suc index && is_contiguous (suc index) rest

abbrev reject_violation : Option Violation → Result AutomationError (Unit {0})
reject_violation none = ok tt
reject_violation (some violation) = err (history_invalid violation)

module _ {C : Type 0} where
  -- The loop that looks for an invalid or a repeated identity.
  unfoldable pub identity_loop : List Text → List ℕ → List (Version C) → Option Violation
  identity_loop seen_ids seen_numbers [] = none
  identity_loop seen_ids seen_numbers (v ∷ versions) =
      let rest = identity_loop (v.id ∷ seen_ids) (v.version_number ∷ seen_numbers) versions in
      if is_blank v.id || v.version_number == 0
      then some (field_invalid (codes "versions"))
      else if contains v.id seen_ids || contains_number v.version_number seen_numbers
      then some (field_duplicate (codes "versions"))
      else rest

  unfoldable pub validate_version_identity : List (Version C) → Option Violation
  unfolding identity_loop sort_ints is_contiguous
  validate_version_identity versions = elim (identity_loop [] [] versions) [
    | some violation ↦ some violation
    | none ↦
        if is_contiguous 0 (sort_ints (map (λ v. v.version_number) versions))
        then none
        else some (field_invalid (codes "versions"))
  ]

  -- The loop over a history without a current version.
  unfoldable pub deleted_loop : Text → List (Version C) → Result AutomationError (Unit {0})
  deleted_loop id [] = ok tt
  deleted_loop id (v ∷ versions) = do
    require (text_eq v.owner_id id) (history_invalid (field_mismatch (codes "versions")))
    reject (is_zero v.deleted_at) (history_invalid (field_required (codes "currentVersionId")))
    deleted_loop id versions

  -- The loop over a history with one; `found` is whether it came up so far.
  unfoldable pub owned_loop : Text → Text → Bool → List (Version C) → Result AutomationError Bool
  owned_loop id current_id found [] = ok found
  owned_loop id current_id found (v ∷ versions) = do
    require (text_eq v.owner_id id) (history_invalid (field_mismatch (codes "versions")))
    owned_loop id current_id (found || text_eq v.id current_id) versions

  unfoldable pub contains_version : Text → List (Version C) → Bool
  contains_version id [] = false
  contains_version id (v ∷ versions) = text_eq v.id id || contains_version id versions

  -- `validateNewVersionIdentity`
  unfoldable pub validate_new_version_identity :
      Text → ℤ → Text → List (Version C) → Result AutomationError (Unit {0})
  unfolding contains_version
  validate_new_version_identity version_id at current_id existing = do
    reject (is_blank version_id) (history_invalid (field_required (codes "versionId")))
    reject (lebℤ at (pos 0)) (history_invalid (field_invalid (codes "publishedAt")))
    reject (text_eq version_id current_id) (history_invalid (field_invalid (codes "versionId")))
    reject (contains_version version_id existing)
        (history_invalid (field_duplicate (codes "versionId")))

  abbrev meta : Version C → VersionMeta
  meta v = record { id = v.id; version_number = v.version_number; deleted_at = v.deleted_at }

  -- The number after those of the history and of the current version.
  unfoldable pub next_version : Aggregate C → Result AutomationError ℕ
  unfolding contains_version
  next_version a = next_version_number (
      if contains_version a.current.id a.versions
      then map meta a.versions
      else map meta a.versions ++ meta a.current ∷ [])

-- `check` is what `Validate` finds wrong with an asset and its current version.
module _ {C : Type 0}
    (check : Text → Text → List (Text × Text) → Text → Version C → List Violation) where
  abbrev pub violations_of : Aggregate C → List Violation
  violations_of a =
      check a.asset.id a.asset.display_name a.asset.properties a.asset.current_version_id a.current

  unfoldable pub validate : Aggregate C → Result AutomationError (Unit {0})
  validate a = elim (violations_of a) [ [] ↦ ok tt | v ∷ rest ↦ err (content_invalid (v ∷ rest)) ]

  unfoldable pub validate_loaded_history : Aggregate C → Result AutomationError (Unit {0})
  unfolding validate validate_version_identity deleted_loop owned_loop
  validate_loaded_history a =
      if is_empty a.asset.current_version_id
      then (do
        require (is_empty a.current.id)
            (history_invalid (field_mismatch (codes "currentVersionId")))
        deleted_loop a.asset.id a.versions
        reject_violation (validate_version_identity a.versions))
      else do
        validate a
        reject_violation (validate_version_identity a.versions)
        found ← owned_loop a.asset.id a.current.id false a.versions
        require found (history_invalid (field_mismatch (codes "currentVersionId")))

  unfoldable pub new_aggregate : Asset → Version C → Result AutomationError (Aggregate C)
  unfolding validate_loaded_history
  new_aggregate asset initial = do
    let first : Version C = record initial { owner_id = asset.id; version_number = 1 }
    let a : Aggregate C = record {
      asset = record asset { revision = 1; current_version_id = initial.id };
      current = first;
      versions = first ∷ [];
    }
    reject
        (lebℤ asset.created_at (pos 0)
          || not (lebℤ asset.updated_at asset.created_at && lebℤ asset.created_at asset.updated_at)
          || not (
              lebℤ initial.created_at asset.created_at && lebℤ asset.created_at initial.created_at))
        (transition_invalid (field_invalid (codes "createdAt")))
    validate_loaded_history a
    ok a

  unfoldable pub update_metadata :
      Aggregate C → Text → Text → List (Text × Text) → ℤ → Result AutomationError (Aggregate C)
  unfolding validate_loaded_history
  update_metadata a display_name folder_id properties at = do
    require (is_zero a.asset.deleted_at) aggregate_deleted
    validate_transition_time at a.asset.updated_at
    revision ← next_revision a.asset.revision
    let n : Aggregate C = record a {
      asset = record a.asset {
        display_name = display_name;
        folder_id = folder_id;
        properties = properties;
        updated_at = at;
        revision = revision;
      };
    }
    validate_loaded_history n
    ok n

  unfoldable pub set_deleted : Bool → Aggregate C → ℤ → Result AutomationError (Aggregate C)
  unfolding validate_loaded_history
  set_deleted deleted a at = do
    reject (if deleted then not (is_zero a.asset.deleted_at) else is_zero a.asset.deleted_at)
        (transition_invalid (field_invalid (codes "deletedAt")))
    validate_transition_time at a.asset.updated_at
    revision ← next_revision a.asset.revision
    let n : Aggregate C = record a {
      asset = record a.asset {
        deleted_at = if deleted then at else pos 0;
        updated_at = at;
        revision = revision;
      };
    }
    validate_loaded_history n
    ok n

  abbrev pub delete : Aggregate C → ℤ → Result AutomationError (Aggregate C)
  delete a at = set_deleted true a at

  abbrev pub restore : Aggregate C → ℤ → Result AutomationError (Aggregate C)
  restore a at = set_deleted false a at

  unfoldable pub validate_publication_base :
      Aggregate C → Text → ℤ → Result AutomationError (Unit {0})
  unfolding validate validate_new_version_identity
  validate_publication_base a version_id at = do
    validate a
    require (text_eq a.asset.current_version_id a.current.id)
        (history_invalid (field_mismatch (codes "currentVersionId")))
    require (is_zero a.asset.deleted_at) aggregate_deleted
    validate_transition_time at a.asset.updated_at
    validate_new_version_identity version_id at a.current.id a.versions

  -- The version that is published, and the aggregate with it.
  abbrev pub new_version : Aggregate C → Text → C → ℤ → ℕ → Version C
  new_version a version_id content at number = record {
    id = version_id;
    owner_id = a.asset.id;
    version_number = number;
    content = content;
    created_at = at;
    deleted_at = pos 0;
  }

  abbrev pub published : Aggregate C → Version C → ℤ → ℕ → Aggregate C
  published a version at revision = record {
    asset = record a.asset {
      current_version_id = version.id;
      updated_at = at;
      revision = revision;
    };
    current = version;
    versions = a.versions ++ version ∷ [];
  }

  unfoldable pub publish_version : Aggregate C → Text → C → ℤ → Result AutomationError (Aggregate C)
  unfolding validate validate_publication_base next_version
  publish_version a version_id content at = do
    validate_publication_base a version_id at
    revision ← next_revision a.asset.revision
    number ← next_version a
    let n : Aggregate C = published a (new_version a version_id content at number) at revision
    validate n
    ok n
