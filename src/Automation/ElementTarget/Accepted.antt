-- ===== src/Automation/ElementTarget/Accepted.antt =====
-- The element targets that `ElementTargetAggregate.Validate` (domain/automation/assets.go) accepts.
use healix_core.Prelude.{
  Text, pos, ltbℤ, Bool, true, false, not, ◌≡◌, refl, ◌↔◌, List, [], ◌∷◌, All, text_eq, text_eq_iff,
  is_blank, codes, ok, ◌≤◌, ℕ, ◌==◌, arith,
}
use healix_core.Fault.{
  Violation, field_required, field_invalid, field_mismatch, violation_if-nil, collect-nil,
}
use healix_core.Fingerprint.{is_valid_selector, stack_violations}
use healix_core.Fingerprint.Accepted.{
  IsSupported, DistinctKinds, selector_violations-nil, stack_violations-nil,
}
use healix_core.Automation.Asset.{Asset, Version, has_invalid_key, violations_of}
use healix_core.Automation.Asset.History.{validate-eq-ok, ok-validate}
use healix_core.Automation.Asset.Lifecycle.{Steps, new_aggregate-Steps-All}
use healix_core.Automation.ElementTarget.{
  ElementContent, is_none, is_nil, is_unsupported, is_invalid, element_violations, element_checks,
  ElementAggregate, validate_element, new_element_target,
}

has_invalid_key_iff :
    (properties : List (Text × Text))
    → (has_invalid_key properties ≡ false) ↔ All (λ p. is_blank p.0 ≡ false) properties
unfolding has_invalid_key
has_invalid_key_iff [] = (λ _. tt, λ _. refl)
has_invalid_key_iff ((key, value) ∷ rest) = (
  λ h. (ground arith, (has_invalid_key_iff rest).0 (ground arith)),
  λ h. ground (arith, h.0, (has_invalid_key_iff rest).1 h.1),
)

not-text_eq : (a b : Text) → (not (text_eq a b) ≡ false) ↔ (a ≡ b)
not-text_eq a b = ground (arith, text_eq_iff a b)

positive : (n : ℕ) → ((n == 0) ≡ false) ↔ (1 ≤ n)
positive n = ground arith

module _ {W : Type 0} (in_unit : W → Bool) where
  -- What a version of an element target holds: where it is found, and who made it.
  pub record IsElement (c : ElementContent W) : Type 0 where
    pub has_selector : is_nil c.selectors ≡ false
    pub selectors_valid : All (λ s. is_valid_selector s ≡ true) c.selectors
    pub tagged : is_blank c.fingerprint.tag ≡ false
    pub attributed : is_none c.fingerprint.attributes ≡ false
    pub sibling : ltbℤ c.fingerprint.sibling_index (pos 0) ≡ false
    pub frameworks : All (IsSupported in_unit) c.fingerprint.framework
    pub kinds_differ : DistinctKinds in_unit c.fingerprint.framework
    pub source_known : is_unsupported c.source ≡ false

  pub record IsElementTarget (a : ElementAggregate W) : Type 0 where
    pub has_id : is_blank a.asset.id ≡ false
    pub has_name : is_blank a.asset.display_name ≡ false
    pub keys : All (λ p. is_blank p.0 ≡ false) a.asset.properties
    pub version_id : is_blank a.current.id ≡ false
    pub points : a.asset.current_version_id ≡ a.current.id
    pub owned : a.current.owner_id ≡ a.asset.id
    pub numbered : 1 ≤ a.current.version_number
    pub element : IsElement a.current.content

  is_invalid-nil :
      (violations : List Violation) → (is_invalid violations ≡ false) ↔ (violations ≡ [])
  is_invalid-nil [] = (λ _. refl, λ _. refl)
  is_invalid-nil (v ∷ rest) = (λ h. cc, λ h. cc)

  element_violations-nil :
      (a : ElementAggregate W)
      → (violations_of (element_violations in_unit) a ≡ []) ↔ IsElementTarget a
  unfolding element_violations
  element_violations-nil a =
      let id : _ = violation_if-nil (is_blank a.asset.id) (field_required (codes "id")) in
      let name : _ =
        violation_if-nil (is_blank a.asset.display_name) (field_required (codes "displayName")) in
      let keys : _ =
        violation_if-nil (has_invalid_key a.asset.properties)
          (field_invalid (codes "properties")) in
      let version : _ =
        violation_if-nil (is_blank a.current.id) (field_required (codes "currentVersionId")) in
      let points : _ =
        violation_if-nil (not (text_eq a.asset.current_version_id a.current.id))
          (field_mismatch (codes "currentVersionId")) in
      let owner : _ =
        violation_if-nil (not (text_eq a.current.owner_id a.asset.id))
          (field_mismatch (codes "current.elementTargetId")) in
      let number : _ =
        violation_if-nil (a.current.version_number == 0)
          (field_invalid (codes "current.versionNumber")) in
      let some_selector : _ =
        violation_if-nil (is_nil a.current.content.selectors)
          (field_required (codes "current.selectors")) in
      let selectors : _ =
        selector_violations-nil (codes "current.selectors") 0 a.current.content.selectors in
      let tag : _ =
        violation_if-nil (is_blank a.current.content.fingerprint.tag)
          (field_required (codes "current.fingerprint.tag")) in
      let attributes : _ =
        violation_if-nil (is_none a.current.content.fingerprint.attributes)
          (field_required (codes "current.fingerprint.attributes")) in
      let sibling : _ =
        violation_if-nil (ltbℤ a.current.content.fingerprint.sibling_index (pos 0))
          (field_invalid (codes "current.fingerprint.siblingIndex")) in
      let stack : List Violation =
        stack_violations in_unit a.current.content.fingerprint.framework (codes "frameworks") in
      let framework : _ =
        violation_if-nil (is_invalid stack)
          (field_invalid (codes "current.fingerprint.framework")) in
      let accepted : _ =
        stack_violations-nil in_unit a.current.content.fingerprint.framework (codes "frameworks") in
      let source : _ =
        violation_if-nil (is_unsupported a.current.content.source)
          (field_invalid (codes "current.source")) in
      let all : _ = collect-nil (
        element_checks in_unit a.asset.id a.asset.display_name a.asset.properties
          a.asset.current_version_id a.current) in
      (
        λ h.
            let (i, (n, (k, (v, (p, (o, (u, (m, (s, (t, (b, (c, (f, (r, _)))))))))))))) = all.0 h in
            let (supported, differ) = accepted.0 ((is_invalid-nil stack).0 (framework.0 f)) in
            record {
              has_id = id.0 i;
              has_name = name.0 n;
              keys = (has_invalid_key_iff a.asset.properties).0 (keys.0 k);
              version_id = version.0 v;
              points = (not-text_eq a.asset.current_version_id a.current.id).0 (points.0 p);
              owned = (not-text_eq a.current.owner_id a.asset.id).0 (owner.0 o);
              numbered = (positive a.current.version_number).0 (number.0 u);
              element = record {
                has_selector = some_selector.0 m;
                selectors_valid = selectors.0 s;
                tagged = tag.0 t;
                attributed = attributes.0 b;
                sibling = sibling.0 c;
                frameworks = supported;
                kinds_differ = differ;
                source_known = source.0 r;
              };
            },
        λ h. all.1 (
          id.1 h.has_id,
          (
            name.1 h.has_name,
            (
              keys.1 ((has_invalid_key_iff a.asset.properties).1 h.keys),
              (
                version.1 h.version_id,
                (
                  points.1 ((not-text_eq a.asset.current_version_id a.current.id).1 h.points),
                  (
                    owner.1 ((not-text_eq a.current.owner_id a.asset.id).1 h.owned),
                    (
                      number.1 ((positive a.current.version_number).1 h.numbered),
                      (
                        some_selector.1 h.element.has_selector,
                        (
                          selectors.1 h.element.selectors_valid,
                          (
                            tag.1 h.element.tagged,
                            (
                              attributes.1 h.element.attributed,
                              (
                                sibling.1 h.element.sibling,
                                (
                                  framework.1 (
                                      (is_invalid-nil stack).1 (
                                        accepted.1 (h.element.frameworks, h.element.kinds_differ))),
                                  (source.1 h.element.source_known, tt),
                                ),
                              ),
                            ),
                          ),
                        ),
                      ),
                    ),
                  ),
                ),
              ),
            ),
          ),
        ),
      )

  -- `Validate` accepts an element target when and only when its identity and its name are not blank,
  -- nor a key of its properties, it points to its current version, which has an identity, is the
  -- target's and has a number of at least one, and that version has a selector, only valid selectors,
  -- a tag, attributes, a sibling index of at least 0, a known source, and frameworks that
  -- are supported and of different kinds.
  pub validate_element_lem :
      (a : ElementAggregate W) → (validate_element in_unit a ≡ ok tt) ↔ IsElementTarget a
  unfolding validate_element
  validate_element_lem a = (
    λ h. (element_violations-nil a).0 (validate-eq-ok (element_violations in_unit) a h),
    λ h. ok-validate (element_violations in_unit) a ((element_violations-nil a).1 h),
  )

  -- After `new_element_target` and any number of operations that succeeded, every version of the
  -- history, the earlier ones included, has a selector, only valid selectors, a tag,
  -- attributes, a sibling index of at least 0, a known source, and supported frameworks of different kinds.
  pub new_element_target-Steps-IsElement :
      (asset : Asset) (initial : Version (ElementContent W)) {n : ℕ} (a b : ElementAggregate W)
      → new_element_target in_unit asset initial ≡ ok a
      → Steps (element_violations in_unit) a n b
      → All (λ v. IsElement v.content) b.versions
  unfolding new_element_target
  new_element_target-Steps-IsElement asset initial a b h steps =
      new_aggregate-Steps-All (element_violations in_unit) (λ v. IsElement v.content)
        (λ x e. ((element_violations-nil x).0 e).element) asset initial a b h steps
