-- ===== src/Automation/Asset/Publish.antt =====
-- `PublishVersion` (domain/automation/versioning.go) on a well-formed aggregate.
use healix_core.Prelude.{
  Text, ℕ, ◌+◌, ◌≤◌, ℤ, pos, ◌≡◌, refl, ap, sym, ◌∙◌, subst, true, false, List, [], ◌∷◌, map,
  is_blank, text_eq, text_eq_iff, arith, length, length-append, All-append, Bool-cases, inl, inr,
  ok, ◌==◌, lebℤ, ltbℤ, is_zero, ◌↔◌, ◌≢◌, >>=-eq-ok, reject-eq-ok, require-eq-ok, ok_injective,
  reject, ◌>>◌,
}
use healix_core.Fault.{Violation}
use healix_core.Automation.Revision.{
  max_revision, max_int, next_revision, next_version_number, validate_persisted,
  validate_transition_time, version_number_exhausted, maximum_loop,
}
use healix_core.Automation.Asset.{
  Version, Aggregate, contains_version, next_version, violations_of, validate,
  validate_new_version_identity, validate_publication_base, meta, new_version, published,
  publish_version,
}
use healix_core.Automation.Asset.Identity.{
  Unused, Distinct-append, Numbered-append, contains_version-Unused, Unused-contains_version,
  maximum_loop-Numbered,
}
use healix_core.Automation.Asset.History.{
  IsHistory, IsWellFormed, contains_current, validate-eq-ok, ok-validate,
}

abbrev pub Timely : ℤ → ℤ → Type 0
Timely at updated_at = (lebℤ at (pos 0) ≡ false) × (ltbℤ at updated_at ≡ false)

pub validate_transition_time_iff :
    (at updated_at : ℤ) → (validate_transition_time at updated_at ≡ ok tt) ↔ Timely at updated_at
unfolding validate_transition_time
validate_transition_time_iff at updated_at = ground arith

pub next_revision-eq-ok :
    (r : ℕ) {s : ℕ} → next_revision r ≡ ok s → (s ≡ r + 1) × (1 ≤ r) × (r ≢ max_revision)
unfolding next_revision validate_persisted
next_revision-eq-ok r h = ground arith

pub ok-next_revision : (r : ℕ) → 1 ≤ r → r ≢ max_revision → next_revision r ≡ ok (r + 1)
unfolding next_revision validate_persisted
ok-next_revision r p n = ground arith

module _ {C : Type 0}
    (check : Text → Text → List (Text × Text) → Text → Version C → List Violation) where
  next_version-IsWellFormed :
      (a : Aggregate C)
      → IsWellFormed check a
      → next_version a ≡ (
          reject (length a.versions == max_int) version_number_exhausted
          >> ok (length a.versions + 1))
  unfolding next_version next_version_number
  next_version-IsWellFormed a w =
      let maximum : maximum_loop 0 (map meta a.versions) ≡ ok (length a.versions) =
        maximum_loop-Numbered 0 a.versions w.history.numbered ∙ ap ok (omega arith) in
      rw (contains_current check a w.history, maximum, next_version, next_version_number)

  abbrev pub publication : Aggregate C → Text → C → ℤ → Aggregate C
  publication a version_id content at =
      published check a (new_version check a version_id content at (length a.versions + 1)) at
        (a.asset.revision + 1)

  abbrev pub Publishable : Aggregate C → Text → C → ℤ → Type 0
  Publishable a version_id content at =
      (is_zero a.asset.deleted_at ≡ true)
      × Timely at a.asset.updated_at
      × (is_blank version_id ≡ false)
      × Unused version_id a.versions
      × (a.asset.revision ≢ max_revision)
      × (length a.versions ≢ max_int)
      × (violations_of check (publication a version_id content at) ≡ [])

  Unused-current :
      (a : Aggregate C) (version_id : Text)
      → IsHistory check a
      → Unused version_id a.versions
      → text_eq version_id a.current.id ≡ false
  Unused-current a version_id h u = elim (Bool-cases (text_eq version_id a.current.id)) [
    | inl e ↦
        let same : version_id ≡ a.current.id = (text_eq_iff version_id a.current.id).0 e in
        cc (
          Unused-contains_version version_id a.versions u,
          ap (λ x. contains_version x a.versions) same,
          contains_current check a h,
        )
    | inr e ↦ e
  ]

  ok-new_version_identity :
      (a : Aggregate C) (version_id : Text) (at : ℤ)
      → IsHistory check a
      → lebℤ at (pos 0) ≡ false
      → is_blank version_id ≡ false
      → Unused version_id a.versions
      → validate_new_version_identity version_id at a.current.id a.versions ≡ ok tt
  unfolding validate_new_version_identity
  ok-new_version_identity a version_id at h t b u = rw (
    t,
    b,
    Unused-current a version_id h u,
    Unused-contains_version version_id a.versions u,
    validate_new_version_identity,
  )

  new_version_identity-eq-ok :
      (version_id : Text) (at : ℤ) (current_id : Text) (versions : List (Version C))
      → validate_new_version_identity version_id at current_id versions ≡ ok tt
      → (is_blank version_id ≡ false) × Unused version_id versions
  unfolding validate_new_version_identity
  new_version_identity-eq-ok version_id at current_id versions h =
      (ground arith, contains_version-Unused version_id versions (ground arith))

  publication_base-eq-ok :
      (a : Aggregate C) (version_id : Text) (at : ℤ)
      → validate_publication_base check a version_id at ≡ ok tt
      → (is_zero a.asset.deleted_at ≡ true)
        × Timely at a.asset.updated_at
        × (is_blank version_id ≡ false)
        × Unused version_id a.versions
  unfolding validate_publication_base
  publication_base-eq-ok a version_id at h =
      let (_, _, rest) = >>=-eq-ok (validate check a) _ h in
      let (_, rest') = require-eq-ok _ _ rest in
      let (live, rest'') = require-eq-ok _ _ rest' in
      let (_, timed, last) = >>=-eq-ok (validate_transition_time at a.asset.updated_at) _ rest'' in
      let (blank, unused) = new_version_identity-eq-ok version_id at a.current.id a.versions last in
      (live, (validate_transition_time_iff at a.asset.updated_at).0 timed, blank, unused)

  ok-publication_base :
      (a : Aggregate C) (version_id : Text) (at : ℤ)
      → IsWellFormed check a
      → is_zero a.asset.deleted_at ≡ true
      → Timely at a.asset.updated_at
      → is_blank version_id ≡ false
      → Unused version_id a.versions
      → validate_publication_base check a version_id at ≡ ok tt
  unfolding validate_publication_base
  ok-publication_base a version_id at w live t b u = rw (
    ok-validate check a w.checked,
    (text_eq_iff a.asset.current_version_id a.current.id).1 w.history.pointer,
    live,
    (validate_transition_time_iff at a.asset.updated_at).1 t,
    ok-new_version_identity a version_id at w.history t.0 b u,
    validate_publication_base,
  )

  published_is :
      (a b : Aggregate C) (version_id : Text) (content : C) (at : ℤ)
      → IsWellFormed check a
      → publish_version check a version_id content at ≡ ok b
      → Publishable a version_id content at × (b ≡ publication a version_id content at)
  unfolding publish_version
  published_is a b version_id content at w h =
      let (_, base, rest) = >>=-eq-ok (validate_publication_base check a version_id at) _ h in
      let (revision, r, rest') = >>=-eq-ok (next_revision a.asset.revision) _ rest in
      let (number, n, rest'') = >>=-eq-ok (next_version a) _ rest' in
      let (_, valid, made) =
        >>=-eq-ok
          (validate check
            (published check a (new_version check a version_id content at number) at revision))
          _ rest'' in
      let (r_next, _, r_max) = next_revision-eq-ok a.asset.revision r in
      let (n_max, n_next) =
        reject-eq-ok (length a.versions == max_int) version_number_exhausted
          (sym (next_version-IsWellFormed a w) ∙ n) in
      let (live, timely, blank, unused) = publication_base-eq-ok a version_id at base in
      let same : published check a (new_version check a version_id content at number) at revision
          ≡ publication a version_id content at =
        cc (r_next, ok_injective n_next) in
      (
        (
          live,
          timely,
          blank,
          unused,
          r_max,
          ground (arith, n_max),
          subst (λ x. violations_of check x ≡ []) same
              (validate-eq-ok check
                (published check a (new_version check a version_id content at number) at revision)
                valid),
        ),
        sym (ok_injective made) ∙ same,
      )

  publishes :
      (a : Aggregate C) (version_id : Text) (content : C) (at : ℤ)
      → IsWellFormed check a
      → Publishable a version_id content at
      → publish_version check a version_id content at ≡ ok (publication a version_id content at)
  unfolding publish_version
  publishes a version_id content at w (live, timely, blank, unused, r_max, n_max, valid) =
      let small : (length a.versions == max_int) ≡ false = ground arith in
      rw (
        ok-publication_base a version_id at w live timely blank unused,
        ok-next_revision a.asset.revision w.revision_positive r_max,
        next_version-IsWellFormed a w,
        small,
        ok-validate check (publication a version_id content at) valid,
        publish_version,
      )

  -- The aggregate after a publication is well formed.
  pub publication-IsWellFormed :
      (a : Aggregate C) (version_id : Text) (content : C) (at : ℤ)
      → IsWellFormed check a
      → Publishable a version_id content at
      → IsWellFormed check (publication a version_id content at)
  publication-IsWellFormed a version_id content at w
        (live, timely, blank, unused, r_max, n_max, valid) =
      let version : Version C = new_version check a version_id content at (length a.versions + 1) in
      record {
        history = record {
          earlier = a.versions;
          current_is_last = refl;
          pointer = refl;
          distinct = Distinct-append a.versions version w.history.distinct blank unused;
          numbered = Numbered-append 0 a.versions version w.history.numbered (omega arith);
          owned =
              All-append (λ v. v.owner_id ≡ a.asset.id) a.versions (version ∷ []) w.history.owned
                (refl, tt);
        };
        checked = valid;
        revision_positive = omega arith;
        revision_bound = omega (arith, w.revision_bound, r_max);
        version_bound =
            omega (arith, length-append a.versions (version ∷ []), w.version_bound, n_max);
      }

  -- On a well-formed aggregate, a publication succeeds when and only when the aggregate is not
  -- deleted, its time is positive and no earlier than the last update, the version identity is
  -- not blank and not in the history, neither the revision nor the version number is exhausted,
  -- and nothing is wrong with the content; what it then gives is the aggregate with the new version
  -- after its versions and as the current one, with the next number and revision.
  pub publish_version_lem :
      (a b : Aggregate C) (version_id : Text) (content : C) (at : ℤ)
      → IsWellFormed check a
      → (publish_version check a version_id content at ≡ ok b)
        ↔ (Publishable a version_id content at × (b ≡ publication a version_id content at))
  publish_version_lem a b version_id content at w = (
    published_is a b version_id content at w,
    λ p. publishes a version_id content at w p.0 ∙ ap ok (sym p.1),
  )
