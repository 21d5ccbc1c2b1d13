-- ===== src/Execution/Budget/Capped.antt =====
-- The capped arithmetic of the budget tells which costs are within the limits, and computes
-- those exactly.
use healix_core.Prelude.{ℕ, zero, suc, subst, ◌+◌, ◌*◌, ◌≤◌, ◌<◌, ◌≡◌, ◌⊎◌, inl, inr, arith}
use native.Mathlib.Nat.{div-lt_iff_lt-mul, mul-le-mul_left, mul_comm}
use healix_core.Execution.Budget.{capped_add, capped_multiply}

-- A capped number stands for an exact one: they are equal and at most `limit`, or both above it.
abbrev pub Stands : ℕ → ℕ → ℕ → Type 0
Stands limit r c = ((r ≡ c) × (c ≤ limit)) ⊎ ((limit < r) × (limit < c))

pub Stands-add :
    (limit r c s d : ℕ)
    → Stands limit r c
    → Stands limit s d
    → Stands limit (capped_add r s (limit + 1)) (c + d)
unfolding capped_add
Stands-add limit r c s d p q = ground arith

le-mul_suc : (a b : ℕ) → a ≤ a * suc b
le-mul_suc a b = omega (arith, mul-le-mul_left {m = 1} {n = suc b} a (omega arith))

Stands-capped_multiply : (limit a n : ℕ) → Stands limit (capped_multiply a n (limit + 1)) (a * n)
unfolding capped_multiply
Stands-capped_multiply limit zero n = inl (ground arith, omega arith)
Stands-capped_multiply limit (suc a) zero = inl (ground arith, omega arith)
Stands-capped_multiply limit (suc a) (suc n) = ground (
  arith,
  le-mul_suc (suc a) n,
  mul_comm (suc n) (suc a),
  div-lt_iff_lt-mul {k = suc a} {x = limit + 1} {y = suc n} (omega arith),
)

pub Stands-multiply :
    (limit r c n : ℕ) → Stands limit r c → Stands limit (capped_multiply r n (limit + 1)) (c * n)
unfolding capped_multiply
Stands-multiply limit r c n (inl (same, within)) =
    subst (λ x. Stands limit (capped_multiply r n (limit + 1)) (x * n)) same
      (Stands-capped_multiply limit r n)
Stands-multiply limit r c zero (inr _) = inl (ground arith, omega arith)
Stands-multiply limit r c (suc n) (inr (over, above)) = ground (arith, le-mul_suc c n)

pub capped_add-over :
    (limit r s : ℕ) → (limit < r) ⊎ (limit < s) → limit < capped_add r s (limit + 1)
unfolding capped_add
capped_add-over limit r s h = ground arith

pub capped_multiply-over :
    (limit r n : ℕ) → limit < r → limit < capped_multiply r (suc n) (limit + 1)
unfolding capped_multiply
capped_multiply-over limit r n h = ground (arith, le-mul_suc r n)

pub mul_suc-over : (limit c n : ℕ) → limit < c → limit < c * suc n
mul_suc-over limit c n h = omega (arith, le-mul_suc c n)

pub capped_multiply_zero : (limit r c : ℕ) → capped_multiply r 0 (limit + 1) ≡ c * 0
unfolding capped_multiply
capped_multiply_zero limit r c = ground arith
