-- ===== src/Fingerprint/Accepted.antt =====
-- The selectors and framework stacks that domain/fingerprint accepts.
use healix_core.Prelude.{
  Text, ℕ, suc, ◌≡◌, refl, ◌≢◌, ◌↔◌, Bool, true, false, not, List, [], ◌∷◌, All, is_blank, codes,
  text_eq_iff, text_eq_sound, arith, ◌⊎◌, ap,
}
use healix_core.Fault.{
  Violation, violation_if, violation_if-nil, collect-nil, contains, field_invalid, field_duplicate,
}
use healix_core.Fingerprint.{
  Selector, is_valid_selector, selector_violations, FrameworkInfo, is_framework_kind,
  is_evidence_kind, has_line_break, info_violations, stack_loop, stack_violations, at_index,
  join_field,
}

pub selector_violations-nil :
    (prefix : Text) (index : ℕ) (selectors : List Selector)
    → (selector_violations prefix index selectors ≡ [])
      ↔ All (λ s. is_valid_selector s ≡ true) selectors
unfolding selector_violations
selector_violations-nil prefix index [] = (λ _. tt, λ _. refl)
selector_violations-nil prefix index (s ∷ selectors) =
    let found : List (List Violation) =
      violation_if (not (is_valid_selector s)) (field_invalid (at_index prefix index))
      ∷ selector_violations prefix (suc index) selectors
      ∷ [] in
    let here : _ =
      violation_if-nil (not (is_valid_selector s)) (field_invalid (at_index prefix index)) in
    let rest : _ = selector_violations-nil prefix (suc index) selectors in
    (
      λ h.
          let (own, (later, _)) = (collect-nil found).0 h in
          (not_false (is_valid_selector s) (here.0 own), rest.0 later),
      λ h. (collect-nil found).1 (here.1 (ap not h.0), (rest.1 h.1, tt)),
    )
  where
    not_false : (b : Bool) → not b ≡ false → b ≡ true
    not_false b h = ground arith

absent-cons :
    (key kind : Text) (seen : List Text)
    → (contains key (kind ∷ seen) ≡ false) ↔ ((key ≢ kind) × (contains key seen ≡ false))
unfolding contains
absent-cons key kind seen = (
  λ h. (ground (arith, text_eq_iff kind key), ground arith),
  λ h. ground (arith, h.0, h.1, text_eq_sound kind key),
)

module _ {W : Type 0} (in_unit : W → Bool) where
  abbrev pub IsSupported : FrameworkInfo W → Type 0
  IsSupported f =
      (is_framework_kind f.kind ≡ true)
      × (in_unit f.confidence ≡ true)
      × ((is_blank f.version ≡ true) ⊎ (has_line_break f.version ≡ false))
      × (is_evidence_kind f.evidence ≡ true)

  abbrev pub DistinctKinds : List (FrameworkInfo W) → Type 0
  DistinctKinds [] = Unit
  DistinctKinds (f ∷ stack) = All (λ g. g.kind ≢ f.kind) stack × DistinctKinds stack

  info_violations-nil :
      (f : FrameworkInfo W) (prefix : Text)
      → (info_violations in_unit f prefix ≡ []) ↔ IsSupported f
  unfolding info_violations
  info_violations-nil f prefix = ground arith

  abbrev Unseen : List Text → List (FrameworkInfo W) → Type 0
  Unseen seen stack = All (λ f. contains f.kind seen ≡ false) stack

  Unseen-cons :
      (kind : Text) (seen : List Text) (stack : List (FrameworkInfo W))
      → Unseen (kind ∷ seen) stack ↔ (All (λ g. g.kind ≢ kind) stack × Unseen seen stack)
  unfolding contains
  Unseen-cons kind seen [] = (λ _. (tt, tt), λ _. tt)
  Unseen-cons kind seen (g ∷ stack) =
      let here : _ = absent-cons g.kind kind seen in
      let rest : _ = Unseen-cons kind seen stack in
      (
        λ h. (((here.0 h.0).0, (rest.0 h.1).0), ((here.0 h.0).1, (rest.0 h.1).1)),
        λ h. (here.1 (h.0.0, h.1.0), rest.1 (h.0.1, h.1.1)),
      )

  stack_loop-nil :
      (prefix : Text) (index : ℕ) (seen : List Text) (stack : List (FrameworkInfo W))
      → (stack_loop in_unit prefix index seen stack ≡ [])
        ↔ (All IsSupported stack × DistinctKinds stack × Unseen seen stack)
  unfolding stack_loop
  stack_loop-nil prefix index seen [] = (λ _. (tt, tt, tt), λ _. refl)
  stack_loop-nil prefix index seen (info ∷ stack) =
      let element : Text = at_index prefix index in
      let later : List Violation = stack_loop in_unit prefix (suc index) (info.kind ∷ seen) stack in
      let repeated : Violation = field_duplicate (join_field element (codes "kind")) in
      let found : List (List Violation) =
        info_violations in_unit info element
        ∷ violation_if (contains info.kind seen) repeated
        ∷ later
        ∷ [] in
      let new : _ = violation_if-nil (contains info.kind seen) repeated in
      let supported : _ = info_violations-nil info element in
      let rest : _ = stack_loop-nil prefix (suc index) (info.kind ∷ seen) stack in
      let unseen : _ = Unseen-cons info.kind seen stack in
      (
        λ h.
            let (own, (fresh, (l, _))) = (collect-nil found).0 h in
            let (all, distinct, u) = rest.0 l in
            ((supported.0 own, all), ((unseen.0 u).0, distinct), (new.0 fresh, (unseen.0 u).1)),
        λ h.
            let ((s, all), (apart, distinct), (fresh, u)) = h in
            (collect-nil found).1
              (supported.1 s, (new.1 fresh, (rest.1 (all, distinct, unseen.1 (apart, u)), tt))),
      )

  Unseen-at_first : (stack : List (FrameworkInfo W)) → Unseen [] stack
  unfolding contains
  Unseen-at_first [] = tt
  Unseen-at_first (f ∷ stack) = (refl, Unseen-at_first stack)

  -- A framework stack is accepted when and only when each of its entries has a supported kind and
  -- evidence, a confidence in range and a version that is blank or on one line, and no
  -- two entries have the same kind.
  pub stack_violations-nil :
      (stack : List (FrameworkInfo W)) (prefix : Text)
      → (stack_violations in_unit stack prefix ≡ []) ↔ (All IsSupported stack × DistinctKinds stack)
  stack_violations-nil stack prefix =
      let loop : _ = stack_loop-nil prefix 0 [] stack in
      (λ h. let (s, d, _) = loop.0 h in (s, d), λ h. loop.1 (h.0, h.1, Unseen-at_first stack))
