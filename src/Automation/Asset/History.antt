-- ===== src/Automation/Asset/History.antt =====
-- The aggregates that domain/automation's lifecycle.go and versioning.go make, and which of them
-- `ValidateLoadedHistory` accepts.
use healix_core.Prelude.{
  Text, ◌≤◌, ◌≡◌, refl, ap, ◌∙◌, subst, true, false, List, [], ◌∷◌, ◌++◌, Option, none, some,
  is_blank, is_empty, arith, length, Bool-cases, inl, inr, Result, ok, err, >>=-eq-ok, reject-eq-ok,
  ok_injective, List-cases,
}
use healix_core.Fault.{Violation}
use healix_core.Automation.Revision.{AutomationError, max_revision, max_int}
use healix_core.Automation.Asset.{
  Asset, Version, Aggregate, deleted_loop, identity_loop, contains_version,
  validate_version_identity, violations_of, validate, validate_loaded_history, new_aggregate,
  reject_violation,
}
use healix_core.Automation.Asset.Identity.{
  Distinct, Numbered, Owned, validate_version_identity-Numbered, owned_loop-Owned,
  contains_version-last,
}

-- An identity in the history of a single version that was accepted.
single_identity :
    {C : Type 0} (v : Version C) → validate_version_identity (v ∷ []) ≡ none → is_blank v.id ≡ false
unfolding validate_version_identity identity_loop
single_identity v h = ground arith

module _ {C : Type 0}
    (check : Text → Text → List (Text × Text) → Text → Version C → List Violation) where
  -- The history of an aggregate, without its revision: the current version is the last one, and
  -- the versions are the asset's, numbered from one, each with an identity of its own.
  pub record IsHistory (a : Aggregate C) : Type 0 where
    pub earlier : List (Version C)
    pub current_is_last : a.versions ≡ earlier ++ a.current ∷ []
    pub pointer : a.asset.current_version_id ≡ a.current.id
    pub distinct : Distinct a.versions
    pub numbered : Numbered 0 a.versions
    pub owned : Owned a.asset.id a.versions

  pub record IsWellFormed (a : Aggregate C) : Type 0 where
    pub history : IsHistory a
    pub checked : violations_of check a ≡ []
    pub revision_positive : 1 ≤ a.asset.revision
    pub revision_bound : a.asset.revision ≤ max_revision
    pub version_bound : length a.versions ≤ max_int

  Distinct-last :
      (front : List (Version C)) (v : Version C)
      → Distinct (front ++ v ∷ [])
      → is_blank v.id ≡ false
  Distinct-last [] v (b, _, _) = b
  Distinct-last (w ∷ front) v (_, _, d) = Distinct-last front v d

  not_empty : (id : Text) → is_blank id ≡ false → is_empty id ≡ false
  unfolding is_blank
  not_empty [] b = cc
  not_empty (c ∷ id) b = refl

  pub pointer_set : (a : Aggregate C) → IsHistory a → is_empty a.asset.current_version_id ≡ false
  pointer_set a h =
      ap is_empty h.pointer
      ∙ not_empty a.current.id
          (Distinct-last h.earlier a.current (subst Distinct h.current_is_last h.distinct))

  pub contains_current :
      (a : Aggregate C) → IsHistory a → contains_version a.current.id a.versions ≡ true
  contains_current a h =
      ap (contains_version a.current.id) h.current_is_last
      ∙ contains_version-last h.earlier a.current

  pub validate-eq-ok : (a : Aggregate C) → validate check a ≡ ok tt → violations_of check a ≡ []
  unfolding validate
  validate-eq-ok a e = elim (List-cases (violations_of check a)) [
    | inl none_found ↦ none_found
    | inr (v, rest, found) ↦
        let q : ◌≡◌ {A = Result AutomationError (Unit {0})} (err _) (ok tt) =
          rw (found, validate) at e in
        cc q
  ]

  pub ok-validate : (a : Aggregate C) → violations_of check a ≡ [] → validate check a ≡ ok tt
  unfolding validate
  ok-validate a e = rw (e, validate)

  pub loaded-eq-ok :
      (a : Aggregate C)
      → is_empty a.asset.current_version_id ≡ false
      → validate_loaded_history check a ≡ ok tt
      → violations_of check a ≡ []
  unfolding validate_loaded_history
  loaded-eq-ok a p h =
      let (_, valid, _) = >>=-eq-ok (validate check a) _ (rw (p, validate_loaded_history) at h) in
      validate-eq-ok a valid

  pub ok-loaded :
      (a : Aggregate C)
      → IsHistory a
      → violations_of check a ≡ []
      → validate_loaded_history check a ≡ ok tt
  unfolding validate_loaded_history
  ok-loaded a h e = rw (
    pointer_set a h,
    ok-validate a e,
    validate_version_identity-Numbered a.versions h.distinct h.numbered,
    owned_loop-Owned a.asset.id a.current.id false a.versions h.owned,
    contains_current a h,
    validate_loaded_history,
  )

  reject_violation-eq-ok : (o : Option Violation) → reject_violation o ≡ ok tt → o ≡ none
  reject_violation-eq-ok none h = refl
  reject_violation-eq-ok (some v) h = cc

  abbrev pub first_version : Asset → Version C → Version C
  first_version asset initial = record initial { owner_id = asset.id; version_number = 1 }

  abbrev pub first_aggregate : Asset → Version C → Aggregate C
  first_aggregate asset initial = record {
    asset = record asset { revision = 1; current_version_id = initial.id };
    current = first_version asset initial;
    versions = first_version asset initial ∷ [];
  }

  first_identity :
      (asset : Asset) (initial : Version C)
      → validate_loaded_history check (first_aggregate asset initial) ≡ ok tt
      → is_blank initial.id ≡ false
  unfolding validate_loaded_history
  first_identity asset initial h = elim (Bool-cases (is_empty initial.id)) [
    | inl e ↦
        let (_, _, identity) =
          >>=-eq-ok (deleted_loop asset.id (first_version asset initial ∷ []))
            (λ _. reject_violation (validate_version_identity (first_version asset initial ∷ [])))
            (rw (e, validate_loaded_history) at h) in
        single_identity (first_version asset initial) (reject_violation-eq-ok _ identity)
    | inr e ↦
        let (_, _, rest) =
          >>=-eq-ok (validate check (first_aggregate asset initial)) _
            (rw (e, validate_loaded_history) at h) in
        let (_, identity, _) =
          >>=-eq-ok
            (reject_violation (validate_version_identity (first_version asset initial ∷ []))) _
            rest in
        single_identity (first_version asset initial) (reject_violation-eq-ok _ identity)
  ]

  first-IsHistory :
      (asset : Asset) (initial : Version C)
      → is_blank initial.id ≡ false
      → IsHistory (first_aggregate asset initial)
  first-IsHistory asset initial b = record {
    earlier = [];
    current_is_last = refl;
    pointer = refl;
    distinct = (b, tt, tt);
    numbered = (refl, tt);
    owned = (refl, tt);
  }

  -- What was created is well formed.
  pub new_aggregate-IsWellFormed :
      (asset : Asset) (initial : Version C) {a : Aggregate C}
      → new_aggregate check asset initial ≡ ok a
      → (first_aggregate asset initial ≡ a) × IsWellFormed a
  unfolding new_aggregate
  new_aggregate-IsWellFormed asset initial {a} h =
      let (_, checked) = reject-eq-ok _ _ h in
      let (_, loaded, made) =
        >>=-eq-ok (validate_loaded_history check (first_aggregate asset initial)) _ checked in
      let b : is_blank initial.id ≡ false = first_identity asset initial loaded in
      let history : IsHistory (first_aggregate asset initial) = first-IsHistory asset initial b in
      let well_formed : IsWellFormed (first_aggregate asset initial) = record {
        history = history;
        checked =
            loaded-eq-ok (first_aggregate asset initial)
              (pointer_set (first_aggregate asset initial) history) loaded;
        revision_positive = omega arith;
        revision_bound = omega arith;
        version_bound = omega arith;
      } in
      (ok_injective made, subst IsWellFormed (ok_injective made) well_formed)
