-- ===== src/Automation/Asset/Lifecycle.antt =====
-- The operations of one asset (domain/automation/lifecycle.go and versioning.go) in sequence.
use healix_core.Prelude.{
  Text, ℕ, suc, ◌+◌, ◌≤◌, ℤ, ◌≡◌, refl, ap, sym, ◌∙◌, subst, List, [], ◌∷◌, ◌++◌, ok, arith, length,
  All, All-append, true, false,
}
use mathlib.Core.List.{append_assoc, append-nil}
use healix_core.Fault.{Violation}
use healix_core.Automation.Revision.{max_revision, max_int}
use healix_core.Automation.Asset.{
  Asset, Version, Aggregate, new_aggregate, update_metadata, delete, restore, publish_version,
  violations_of,
}
use healix_core.Automation.Asset.Identity.{Numbered}
use healix_core.Automation.Asset.History.{IsWellFormed, new_aggregate-IsWellFormed, first_aggregate}
use healix_core.Automation.Asset.Publish.{
  publish_version_lem, publication-IsWellFormed, publication,
}
use healix_core.Automation.Asset.Restore.{updated, marked, update_metadata-eq-ok, set_deleted-eq-ok}

Numbered-bound :
    {C : Type 0} (k : ℕ) (versions : List (Version C))
    → Numbered k versions
    → k + length versions ≤ max_int
    → All (λ v. (1 ≤ v.version_number) × (v.version_number ≤ max_int)) versions
Numbered-bound k [] n b = tt
Numbered-bound k (v ∷ versions) (e, n) b =
    ((omega (arith, e), omega (arith, e, b)), Numbered-bound (suc k) versions n (omega (arith, b)))

module _ {C : Type 0}
    (check : Text → Text → List (Text × Text) → Text → Version C → List Violation) where
  -- One operation that succeeds.
  pub data Step (a b : Aggregate C) : Type 0 where
    updates :
        (display_name folder_id : Text) (properties : List (Text × Text)) (at : ℤ)
        → update_metadata check a display_name folder_id properties at ≡ ok b
        → Step a b
    deletes : (at : ℤ) → delete check a at ≡ ok b → Step a b
    restores : (at : ℤ) → restore check a at ≡ ok b → Step a b
    publishes :
        (version_id : Text) (content : C) (at : ℤ)
        → publish_version check a version_id content at ≡ ok b
        → Step a b

  pub data Steps (a : Aggregate C) : ℕ → Aggregate C → Type 0 where
    here : Steps a 0 a
    next : {n : ℕ} {b c : Aggregate C} → Steps a n b → Step b c → Steps a (suc n) c

  -- What the operations leave of an aggregate: its identity, and its versions in their order.
  pub record Extends (a b : Aggregate C) : Type 0 where
    pub added : List (Version C)
    pub versions_kept : b.versions ≡ a.versions ++ added
    pub id_kept : b.asset.id ≡ a.asset.id
    pub created_kept : b.asset.created_at ≡ a.asset.created_at

  unchanged :
      (a b : Aggregate C)
      → b.versions ≡ a.versions
      → b.asset.id ≡ a.asset.id
      → b.asset.created_at ≡ a.asset.created_at
      → Extends a b
  unchanged a b v i c = record {
    added = [];
    versions_kept = v ∙ sym (append-nil a.versions);
    id_kept = i;
    created_kept = c;
  }

  Extends-trans : (a b c : Aggregate C) → Extends a b → Extends b c → Extends a c
  Extends-trans a b c x y = record {
    added = x.added ++ y.added;
    versions_kept =
        y.versions_kept
        ∙ ap (λ l. l ++ y.added) x.versions_kept
        ∙ append_assoc a.versions x.added y.added;
    id_kept = y.id_kept ∙ x.id_kept;
    created_kept = y.created_kept ∙ x.created_kept;
  }

  Step-lem :
      (a b : Aggregate C)
      → IsWellFormed check a
      → Step a b
      → IsWellFormed check b × Extends a b × (b.asset.revision ≡ a.asset.revision + 1)
  Step-lem a b w (updates name folder properties at h) =
      let (e, v) = update_metadata-eq-ok check a b name folder properties at w h in
      (
        v,
        subst (Extends a) e
            (unchanged a (updated check a name folder properties at) refl refl refl),
        ap (λ x. x.asset.revision) (sym e),
      )
  Step-lem a b w (deletes at h) =
      let (e, v) = set_deleted-eq-ok check true a b at w h in
      (
        v,
        subst (Extends a) e (unchanged a (marked check true a at) refl refl refl),
        ap (λ x. x.asset.revision) (sym e),
      )
  Step-lem a b w (restores at h) =
      let (e, v) = set_deleted-eq-ok check false a b at w h in
      (
        v,
        subst (Extends a) e (unchanged a (marked check false a at) refl refl refl),
        ap (λ x. x.asset.revision) (sym e),
      )
  Step-lem a b w (publishes version_id content at h) =
      let (p, e) = (publish_version_lem check a b version_id content at w).0 h in
      (
        subst (IsWellFormed check) (sym e)
            (publication-IsWellFormed check a version_id content at w p),
        subst (Extends a) (sym e) (record {
          added = (publication check a version_id content at).current ∷ [];
          versions_kept = refl;
          id_kept = refl;
          created_kept = refl;
        }),
        ap (λ x. x.asset.revision) e,
      )

  Steps-lem :
      (a : Aggregate C) {n : ℕ} (b : Aggregate C)
      → IsWellFormed check a
      → Steps a n b
      → IsWellFormed check b × Extends a b × (b.asset.revision ≡ a.asset.revision + n)
  Steps-lem a b w here = (w, unchanged a a refl refl refl, omega arith)
  Steps-lem a b w (next {b = c} steps step) =
      let (v, x, r) = Steps-lem a c w steps in
      let (v', x', r') = Step-lem c b v step in (v', Extends-trans a c b x x', omega (arith, r, r'))

  -- After `new_aggregate` and any number of operations that succeeded, the aggregate is well
  -- formed: its versions are the asset's and numbered from one in their order, their identities
  -- are not blank and differ, the last one is the current one and the one that the asset points
  -- to, and nothing is wrong with it.
  pub new_aggregate-Steps-IsWellFormed :
      (asset : Asset) (initial : Version C) {n : ℕ} (a b : Aggregate C)
      → new_aggregate check asset initial ≡ ok a
      → Steps a n b
      → IsWellFormed check b
  new_aggregate-Steps-IsWellFormed asset initial a b h steps =
      (Steps-lem a b (new_aggregate-IsWellFormed check asset initial h).1 steps).0

  -- What operations that succeeded make of an aggregate that was created and has since changed by
  -- any operations: the versions published before stay as they were, as the first ones and in their order, and the
  -- identity and the time of creation stay.
  pub new_aggregate-Steps-Extends :
      (asset : Asset) (initial : Version C) {n m : ℕ} (a b c : Aggregate C)
      → new_aggregate check asset initial ≡ ok a
      → Steps a n b
      → Steps b m c
      → Extends b c
  new_aggregate-Steps-Extends asset initial a b c h steps later =
      (Steps-lem b c (new_aggregate-Steps-IsWellFormed asset initial a b h steps) later).1

  -- The revision after `new_aggregate` and `n` operations that succeeded is `n + 1`, at most the
  -- largest `uint64`, and every version number is between 1 and the largest `int`.
  pub new_aggregate-Steps-revision :
      (asset : Asset) (initial : Version C) {n : ℕ} (a b : Aggregate C)
      → new_aggregate check asset initial ≡ ok a
      → Steps a n b
      → (b.asset.revision ≡ n + 1)
        × (n + 1 ≤ max_revision)
        × All (λ v. (1 ≤ v.version_number) × (v.version_number ≤ max_int)) b.versions
  new_aggregate-Steps-revision asset initial a b h steps =
      let (made, w) = new_aggregate-IsWellFormed check asset initial h in
      let (v, _, r) = Steps-lem a b w steps in
      let first : a.asset.revision ≡ 1 = ap (λ x. x.asset.revision) (sym made) in
      (
        omega (arith, r, first),
        omega (arith, r, first, v.revision_bound),
        Numbered-bound 0 b.versions v.history.numbered (omega (arith, v.version_bound)),
      )

  Step-All :
      (P : Version C → Type 0)
      (checked : (a : Aggregate C) → violations_of check a ≡ [] → P a.current) (a b : Aggregate C)
      → IsWellFormed check a
      → Step a b
      → All P a.versions
      → All P b.versions
  Step-All P checked a b w (updates name folder properties at h) all =
      subst (λ x. All P x.versions)
        (update_metadata-eq-ok check a b name folder properties at w h).0 all
  Step-All P checked a b w (deletes at h) all =
      subst (λ x. All P x.versions) (set_deleted-eq-ok check true a b at w h).0 all
  Step-All P checked a b w (restores at h) all =
      subst (λ x. All P x.versions) (set_deleted-eq-ok check false a b at w h).0 all
  Step-All P checked a b w (publishes version_id content at h) all =
      let (p, e) = (publish_version_lem check a b version_id content at w).0 h in
      let next : Aggregate C = publication check a version_id content at in
      let v : IsWellFormed check next =
        publication-IsWellFormed check a version_id content at w p in
      subst (λ x. All P x.versions) (sym e)
        (All-append P a.versions (next.current ∷ []) all (checked next v.checked, tt))

  Steps-All :
      (P : Version C → Type 0)
      (checked : (a : Aggregate C) → violations_of check a ≡ [] → P a.current) (a : Aggregate C)
      {n : ℕ} (b : Aggregate C)
      → IsWellFormed check a
      → Steps a n b
      → All P a.versions
      → All P b.versions
  Steps-All P checked a b w here all = all
  Steps-All P checked a b w (next {b = c} steps step) all =
      Step-All P checked c b (Steps-lem a c w steps).0 step (Steps-All P checked a c w steps all)

  -- What the check of a current version guarantees holds of every version in the history.
  pub new_aggregate-Steps-All :
      (P : Version C → Type 0)
      (checked : (a : Aggregate C) → violations_of check a ≡ [] → P a.current) (asset : Asset)
      (initial : Version C) {n : ℕ} (a b : Aggregate C)
      → new_aggregate check asset initial ≡ ok a
      → Steps a n b
      → All P b.versions
  new_aggregate-Steps-All P checked asset initial a b h steps =
      let (made, w) = new_aggregate-IsWellFormed check asset initial h in
      let first : All P a.versions =
        subst (λ x. All P x.versions) made
          (
            checked (first_aggregate check asset initial)
                (subst (λ x. violations_of check x ≡ []) (sym made) w.checked),
            tt,
          ) in
      Steps-All P checked a b w steps first
