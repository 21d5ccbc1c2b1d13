-- ===== src/Automation/Asset/Restore.antt =====
-- `UpdateMetadata`, `Delete` and `Restore` of domain/automation/lifecycle.go.
use healix_core.Prelude.{
  Text, ℕ, ◌+◌, ◌≤◌, ◌<◌, ℤ, pos, ◌≡◌, refl, ap, ap₂, sym, ◌∙◌, subst, Bool, true, false, not, List,
  [], arith, Result, ok, lebℤ, is_zero, >>=-eq-ok, reject-eq-ok, require-eq-ok, codes, ok_injective,
  if◌then◌else◌, ◌>>=◌, ◌>>◌,
}
use healix_core.Fault.{Violation, field_invalid}
use healix_core.Automation.Revision.{
  AutomationError, max_revision, next_revision, validate_transition_time, aggregate_deleted,
  transition_invalid,
}
use healix_core.Automation.Asset.{
  Asset, Version, Aggregate, violations_of, validate_loaded_history, update_metadata, set_deleted,
  delete, restore,
}
use healix_core.Automation.Asset.Identity.{Owned}
use healix_core.Automation.Asset.History.{
  IsHistory, IsWellFormed, pointer_set, loaded-eq-ok, ok-loaded,
}
use healix_core.Automation.Asset.Publish.{
  Timely, validate_transition_time_iff, next_revision-eq-ok, ok-next_revision,
}

flips : (deleted zero : Bool) → zero ≡ deleted → (if deleted then not zero else zero) ≡ false
flips deleted zero h = ground arith

zero_time : (z : ℤ) → is_zero z ≡ true → z ≡ pos 0
zero_time (pos n) h = ap pos (ground arith)
zero_time (ℤ.negsuc n) h = cc

positive_time : (z : ℤ) → lebℤ z (pos 0) ≡ false → is_zero z ≡ false
positive_time z h = ground arith

later_time :
    (at later updated_at : ℤ) → Timely at updated_at → lebℤ at later ≡ true → Timely later at
later_time at later updated_at (p, q) h = (ground arith, ground arith)

module _ {C : Type 0}
    (check : Text → Text → List (Text × Text) → Text → Version C → List Violation) where
  abbrev pub updated : Aggregate C → Text → Text → List (Text × Text) → ℤ → Aggregate C
  updated a display_name folder_id properties at = record a {
    asset = record a.asset {
      display_name = display_name;
      folder_id = folder_id;
      properties = properties;
      updated_at = at;
      revision = a.asset.revision + 1;
    };
  }

  abbrev pub marked : Bool → Aggregate C → ℤ → Aggregate C
  marked deleted a at = record a {
    asset = record a.asset {
      deleted_at = if deleted then at else pos 0;
      updated_at = at;
      revision = a.asset.revision + 1;
    };
  }

  -- A change of the fields that the history does not speak of.
  pub same-IsHistory :
      (a : Aggregate C) (asset : Asset)
      → asset.id ≡ a.asset.id
      → asset.current_version_id ≡ a.asset.current_version_id
      → IsHistory check a
      → IsHistory check (record a { asset = asset })
  same-IsHistory a asset i p h = record {
    earlier = h.earlier;
    current_is_last = h.current_is_last;
    pointer = p ∙ h.pointer;
    distinct = h.distinct;
    numbered = h.numbered;
    owned = subst (λ x. Owned x a.versions) (sym i) h.owned;
  }

  -- The end that every change of an asset shares: the next revision, and the check.
  abbrev commit : Aggregate C → (ℕ → Asset) → Result AutomationError (Aggregate C)
  commit a asset = do
    revision ← next_revision a.asset.revision
    validate_loaded_history check (record a { asset = asset revision })
    ok (record a { asset = asset revision })

  commit-eq-ok :
      (a b : Aggregate C) (asset : ℕ → Asset)
      → ((r : ℕ) → (asset r).id ≡ a.asset.id)
      → ((r : ℕ) → (asset r).current_version_id ≡ a.asset.current_version_id)
      → ((r : ℕ) → (asset r).revision ≡ r)
      → IsWellFormed check a
      → commit a asset ≡ ok b
      → (record a { asset = asset (a.asset.revision + 1) } ≡ b) × IsWellFormed check b
  commit-eq-ok a b asset i p v w h =
      let (r, stepped, rest) =
        >>=-eq-ok (next_revision a.asset.revision)
          (λ r.
            validate_loaded_history check (record a { asset = asset r })
            >> ok (record a { asset = asset r }))
          h in
      let next : Aggregate C = record a { asset = asset r } in
      let (_, loaded, made) = >>=-eq-ok (validate_loaded_history check next) (λ _. ok next) rest in
      let (r_next, _, r_max) = next_revision-eq-ok a.asset.revision stepped in
      let history : IsHistory check next = same-IsHistory a (asset r) (i r) (p r) w.history in
      let positive : 1 ≤ (asset r).revision = omega (arith, v r, r_next) in
      let bound : (asset r).revision ≤ max_revision =
        omega (arith, v r, r_next, r_max, w.revision_bound) in
      let well_formed : IsWellFormed check next = record {
        history = history;
        checked = loaded-eq-ok check next (pointer_set check next history) loaded;
        revision_positive = positive;
        revision_bound = bound;
        version_bound = w.version_bound;
      } in
      (
        ap (λ x. record a { asset = asset x }) (sym r_next) ∙ ok_injective made,
        subst (IsWellFormed check) (ok_injective made) well_formed,
      )

  pub update_metadata-eq-ok :
      (a b : Aggregate C) (display_name folder_id : Text) (properties : List (Text × Text)) (at : ℤ)
      → IsWellFormed check a
      → update_metadata check a display_name folder_id properties at ≡ ok b
      → (updated a display_name folder_id properties at ≡ b) × IsWellFormed check b
  unfolding update_metadata
  update_metadata-eq-ok a b display_name folder_id properties at w h =
      let asset : ℕ → Asset =
        λ r. record (updated a display_name folder_id properties at).asset { revision = r } in
      let (_, rest) = require-eq-ok (is_zero a.asset.deleted_at) aggregate_deleted h in
      let (_, _, rest') =
        >>=-eq-ok (validate_transition_time at a.asset.updated_at) (λ _. commit a asset) rest in
      commit-eq-ok a b asset (λ _. refl) (λ _. refl) (λ _. refl) w rest'

  abbrev no_change : Bool → Aggregate C → Bool
  no_change deleted a =
      if deleted then not (is_zero a.asset.deleted_at) else is_zero a.asset.deleted_at

  pub set_deleted-eq-ok :
      (deleted : Bool) (a b : Aggregate C) (at : ℤ)
      → IsWellFormed check a
      → set_deleted check deleted a at ≡ ok b
      → (marked deleted a at ≡ b) × IsWellFormed check b
  unfolding set_deleted
  set_deleted-eq-ok deleted a b at w h =
      let asset : ℕ → Asset = λ r. record (marked deleted a at).asset { revision = r } in
      let (_, rest) =
        reject-eq-ok (no_change deleted a) (transition_invalid (field_invalid (codes "deletedAt")))
          h in
      let (_, _, rest') =
        >>=-eq-ok (validate_transition_time at a.asset.updated_at) (λ _. commit a asset) rest in
      commit-eq-ok a b asset (λ _. refl) (λ _. refl) (λ _. refl) w rest'

  ok-set_deleted :
      (deleted : Bool) (a : Aggregate C) (at : ℤ)
      → IsHistory check a
      → violations_of check a ≡ []
      → is_zero a.asset.deleted_at ≡ deleted
      → Timely at a.asset.updated_at
      → 1 ≤ a.asset.revision
      → a.asset.revision < max_revision
      → set_deleted check deleted a at ≡ ok (marked deleted a at)
  unfolding set_deleted
  ok-set_deleted deleted a at h valid state timely r_low r_high =
      let changes : no_change deleted a ≡ false =
        flips deleted (is_zero a.asset.deleted_at) state in
      let next : Aggregate C = marked deleted a at in
      rw (
        changes,
        (validate_transition_time_iff at a.asset.updated_at).1 timely,
        ok-next_revision a.asset.revision r_low (omega (arith, r_high)),
        ok-loaded check next (same-IsHistory a next.asset refl refl h) valid,
        set_deleted,
      )

  -- An aggregate that is deleted and then restored, each time no earlier than the one before,
  -- is as it was, except for the time of its last update and its revision, which is 2 higher.
  -- Both calls succeed on a well-formed aggregate that is not deleted, with two revisions left.
  pub restore-delete :
      (a : Aggregate C) (at later : ℤ)
      → IsWellFormed check a
      → is_zero a.asset.deleted_at ≡ true
      → Timely at a.asset.updated_at
      → lebℤ at later ≡ true
      → a.asset.revision + 1 < max_revision
      → (delete check a at >>= λ b. restore check b later)
        ≡ ok (record a {
          asset = record a.asset { updated_at = later; revision = a.asset.revision + 2 };
        })
  restore-delete a at later w live timely le r =
      let b : Aggregate C = marked true a at in
      let deleted : set_deleted check true a at ≡ ok b =
        ok-set_deleted true a at w.history w.checked live timely w.revision_positive
          (omega (arith, r)) in
      let restored : set_deleted check false b later ≡ ok (marked false b later) =
        ok-set_deleted false b later (same-IsHistory a b.asset refl refl w.history) w.checked
          (positive_time at timely.0) (later_time at later a.asset.updated_at timely le)
          (omega arith) r in
      rw (deleted, restored)
        (ap₂
          (λ d r. ok (record a {
            asset = record a.asset { updated_at = later; deleted_at = d; revision = r };
          }))
          (sym (zero_time a.asset.deleted_at live)) (omega arith))
