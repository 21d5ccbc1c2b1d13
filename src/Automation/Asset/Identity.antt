-- ===== src/Automation/Asset/Identity.antt =====
-- Histories of domain/automation/versioning.go that publishing makes: versions of one owner,
-- numbered by their position, with identities of their own.
use healix_core.Prelude.{
  Text, ℕ, suc, ◌+◌, ◌≤◌, ◌≡◌, refl, ap, sym, ◌∙◌, ◌≢◌, Bool, true, false, List, [], ◌∷◌, ◌++◌, map,
  none, is_blank, text_eq, text_eq_iff, text_eq_sound, arith, length, All, All-append, ok, ◌||◌,
}
use healix_core.Fault.{contains}
use healix_core.Automation.Revision.{maximum_loop}
use healix_core.Automation.Asset.{
  Version, contains_number, insert_int, sort_ints, is_contiguous, identity_loop,
  validate_version_identity, owned_loop, contains_version, meta,
}

contains_number-below :
    (n k : ℕ) (seen : List ℕ) → All (λ m. m ≤ k) seen → n ≡ suc k → contains_number n seen ≡ false
unfolding contains_number
contains_number-below n k [] a e = refl
contains_number-below n k (m ∷ seen) (le, a) e = ground (arith, contains_number-below n k seen a e)

All-weaken : (k : ℕ) (seen : List ℕ) → All (λ m. m ≤ k) seen → All (λ m. m ≤ suc k) seen
All-weaken k [] a = tt
All-weaken k (m ∷ seen) (le, a) = (omega (arith, le), All-weaken k seen a)

module _ {C : Type 0} where
  -- `v.id` is none of the identities of `versions`.
  abbrev pub Unused : Text → List (Version C) → Type 0
  Unused id versions = All (λ w. w.id ≢ id) versions

  abbrev pub Distinct : List (Version C) → Type 0
  Distinct [] = Unit
  Distinct (v ∷ versions) = (is_blank v.id ≡ false) × Unused v.id versions × Distinct versions

  -- The numbers after `k`, in order.
  abbrev pub Numbered : ℕ → List (Version C) → Type 0
  Numbered k [] = Unit
  Numbered k (v ∷ versions) = (v.version_number ≡ suc k) × Numbered (suc k) versions

  abbrev pub Owned : Text → List (Version C) → Type 0
  Owned owner versions = All (λ v. v.owner_id ≡ owner) versions

  pub Distinct-append :
      (versions : List (Version C)) (v : Version C)
      → Distinct versions
      → is_blank v.id ≡ false
      → Unused v.id versions
      → Distinct (versions ++ v ∷ [])
  Distinct-append [] v d b u = (b, tt, tt)
  Distinct-append (w ∷ versions) v (b', u', d) b (u, us) = (
    b',
    All-append (λ x. x.id ≢ w.id) versions (v ∷ []) u' ((λ e. u (sym e)), tt),
    Distinct-append versions v d b us,
  )

  pub Numbered-append :
      (k : ℕ) (versions : List (Version C)) (v : Version C)
      → Numbered k versions
      → v.version_number ≡ suc (k + length versions)
      → Numbered k (versions ++ v ∷ [])
  Numbered-append k [] v n e = (omega (arith, e), tt)
  Numbered-append k (w ∷ versions) v (n, ns) e =
      (n, Numbered-append (suc k) versions v ns (omega (arith, e)))

  pub contains_version-Unused :
      (id : Text) (versions : List (Version C))
      → contains_version id versions ≡ false
      → Unused id versions
  unfolding contains_version
  contains_version-Unused id [] h = tt
  contains_version-Unused id (v ∷ versions) h =
      (ground (arith, text_eq_iff v.id id), contains_version-Unused id versions (ground arith))

  pub Unused-contains_version :
      (id : Text) (versions : List (Version C))
      → Unused id versions
      → contains_version id versions ≡ false
  unfolding contains_version
  Unused-contains_version id [] u = refl
  Unused-contains_version id (v ∷ versions) (u, us) =
      ground (arith, text_eq_sound v.id id, Unused-contains_version id versions us)

  pub contains_version-last :
      (front : List (Version C)) (v : Version C) → contains_version v.id (front ++ v ∷ []) ≡ true
  unfolding contains_version
  contains_version-last [] v = ground (arith, text_eq_iff v.id v.id)
  contains_version-last (w ∷ front) v = ground (arith, contains_version-last front v)

  pub maximum_loop-Numbered :
      (k : ℕ) (versions : List (Version C))
      → Numbered k versions
      → maximum_loop k (map meta versions) ≡ ok (k + length versions)
  unfolding maximum_loop
  maximum_loop-Numbered k [] n = ap ok (omega arith)
  maximum_loop-Numbered k (v ∷ versions) (n, ns) =
      ground (arith, maximum_loop-Numbered (suc k) versions ns)

  All-unseen :
      (id : Text) (seen : List Text) (versions : List (Version C))
      → Unused id versions
      → All (λ w. contains w.id seen ≡ false) versions
      → All (λ w. contains w.id (id ∷ seen) ≡ false) versions
  unfolding contains
  All-unseen id seen [] u a = tt
  All-unseen id seen (w ∷ versions) (u, us) (h, a) =
      (ground (arith, text_eq_sound id w.id), All-unseen id seen versions us a)

  identity_loop-Numbered :
      (k : ℕ) (seen_ids : List Text) (seen_numbers : List ℕ) (versions : List (Version C))
      → Distinct versions
      → Numbered k versions
      → All (λ w. contains w.id seen_ids ≡ false) versions
      → All (λ m. m ≤ k) seen_numbers
      → identity_loop seen_ids seen_numbers versions ≡ none
  unfolding identity_loop
  identity_loop-Numbered k seen_ids seen_numbers [] d n a b = refl
  identity_loop-Numbered k seen_ids seen_numbers (v ∷ versions) (f, u, d) (n, ns) (c, a) b =
      let numbers : All (λ m. m ≤ suc k) (v.version_number ∷ seen_numbers) =
        (omega (arith, n), All-weaken k seen_numbers b) in
      let unseen : All (λ w. contains w.id (v.id ∷ seen_ids) ≡ false) versions =
        All-unseen v.id seen_ids versions u a in
      let rest : identity_loop (v.id ∷ seen_ids) (v.version_number ∷ seen_numbers) versions ≡ none =
        identity_loop-Numbered (suc k) (v.id ∷ seen_ids) (v.version_number ∷ seen_numbers) versions
          d ns unseen numbers in
      let new : contains_number v.version_number seen_numbers ≡ false =
        contains_number-below v.version_number k seen_numbers b n in
      ground (arith, rest, new, f, c, n)

  insert-Numbered :
      (n k : ℕ) (versions : List (Version C))
      → n ≤ suc k
      → Numbered k versions
      → insert_int n (map (λ v. v.version_number) versions)
        ≡ n ∷ map (λ v. v.version_number) versions
  unfolding insert_int
  insert-Numbered n k [] le ns = refl
  insert-Numbered n k (v ∷ versions) le (e, ns) = ground arith

  sort_ints-Numbered :
      (k : ℕ) (versions : List (Version C))
      → Numbered k versions
      → sort_ints (map (λ v. v.version_number) versions) ≡ map (λ v. v.version_number) versions
  unfolding sort_ints
  sort_ints-Numbered k [] n = refl
  sort_ints-Numbered k (v ∷ versions) (e, ns) =
      ap (insert_int v.version_number) (sort_ints-Numbered (suc k) versions ns)
      ∙ insert-Numbered v.version_number (suc k) versions (omega (arith, e)) ns

  is_contiguous-Numbered :
      (k : ℕ) (versions : List (Version C))
      → Numbered k versions
      → is_contiguous k (map (λ v. v.version_number) versions) ≡ true
  unfolding is_contiguous
  is_contiguous-Numbered k [] n = refl
  is_contiguous-Numbered k (v ∷ versions) (e, ns) =
      ground (arith, is_contiguous-Numbered (suc k) versions ns)

  Unseen-at_first : (versions : List (Version C)) → All (λ w. contains w.id [] ≡ false) versions
  unfolding contains
  Unseen-at_first [] = tt
  Unseen-at_first (v ∷ versions) = (refl, Unseen-at_first versions)

  pub validate_version_identity-Numbered :
      (versions : List (Version C))
      → Distinct versions
      → Numbered 0 versions
      → validate_version_identity versions ≡ none
  unfolding validate_version_identity
  validate_version_identity-Numbered versions d n = rw (
    identity_loop-Numbered 0 [] [] versions d n (Unseen-at_first versions) tt,
    sort_ints-Numbered 0 versions n,
    is_contiguous-Numbered 0 versions n,
    validate_version_identity,
  )

  pub owned_loop-Owned :
      (owner current_id : Text) (found : Bool) (versions : List (Version C))
      → Owned owner versions
      → owned_loop owner current_id found versions
        ≡ ok (found || contains_version current_id versions)
  unfolding owned_loop contains_version
  owned_loop-Owned owner current_id found [] o = ground arith
  owned_loop-Owned owner current_id found (v ∷ versions) (e, o) = ground (
    arith,
    text_eq_iff v.owner_id owner,
    owned_loop-Owned owner current_id (found || text_eq v.id current_id) versions o,
  )
