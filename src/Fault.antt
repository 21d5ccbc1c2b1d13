-- ===== src/Fault.antt =====
-- domain/fault: the violations that an aggregate collects, without their message, and the tests
-- that collect them.
use healix_core.Prelude.{
  Text, Bool, true, false, List, [], ◌∷◌, text_eq, ◌||◌, ◌++◌, ◌≡◌, refl, ◌≢◌, ◌↔◌, All,
  text_eq_sound, text_eq_iff, arith,
}

pub data Violation : Type 0 where
  field_required field_invalid field_mismatch field_duplicate : Text → Violation

-- `if fails { violations = append(violations, v) }`
abbrev pub violation_if : Bool → Violation → List Violation
violation_if true v = v ∷ []
violation_if false v = []

-- The violations of the checks of a function, in their order.
abbrev pub collect : List (List Violation) → List Violation
collect [] = []
collect (violations ∷ rest) = violations ++ collect rest

-- A table of the tests of a function with what each reports.
abbrev pub report : List (Bool × Violation) → List Violation
report [] = []
report ((fails, v) ∷ tests) = violation_if fails v ++ report tests

-- A set of texts is the list of what was put in.
unfoldable pub contains : Text → List Text → Bool
contains key [] = false
contains key (k ∷ rest) = text_eq k key || contains key rest

pub nil_append {ℓ} : {A : Type ℓ} (xs ys : List A) → (xs ++ ys ≡ []) ↔ ((xs ≡ []) × (ys ≡ []))
nil_append [] ys = (λ h. (refl, h), λ h. h.1)
nil_append (x ∷ xs) ys = (λ h. cc, λ h. let q : x ∷ xs ≡ [] = h.0 in cc)

pub violation_if-nil : (b : Bool) (v : Violation) → (violation_if b v ≡ []) ↔ (b ≡ false)
violation_if-nil true v = (λ h. cc, λ h. cc)
violation_if-nil false v = (λ h. refl, λ h. refl)

pub collect-nil :
    (checks : List (List Violation)) → (collect checks ≡ []) ↔ All (λ found. found ≡ []) checks
collect-nil [] = (λ _. tt, λ _. refl)
collect-nil (found ∷ checks) =
    let (split, join) = nil_append found (collect checks) in
    let (split_rest, join_rest) = collect-nil checks in
    (λ h. ((split h).0, split_rest (split h).1), λ h. join (h.0, join_rest h.1))

pub report-nil :
    (tests : List (Bool × Violation)) → (report tests ≡ []) ↔ All (λ test. test.0 ≡ false) tests
report-nil [] = (λ _. tt, λ _. refl)
report-nil ((fails, v) ∷ tests) =
    let (split, join) = nil_append (violation_if fails v) (report tests) in
    let own : _ = violation_if-nil fails v in
    let rest : _ = report-nil tests in
    (λ h. (own.0 (split h).0, rest.0 (split h).1), λ h. join (own.1 h.0, rest.1 h.1))

pub contains_iff_absent :
    (key : Text) (keys : List Text) → (contains key keys ≡ false) ↔ All (λ k. k ≢ key) keys
unfolding contains
contains_iff_absent key [] = (λ _. tt, λ _. refl)
contains_iff_absent key (k ∷ keys) = (
  λ h. (ground (arith, text_eq_iff k key), (contains_iff_absent key keys).0 (ground arith)),
  λ h. ground (arith, h.0, text_eq_sound k key, (contains_iff_absent key keys).1 h.1),
)
