-- ===== src/Execution/Budget/Exact.antt =====
-- When a capped cost stands for an exact one, and that the arithmetic of costs keeps to it.
use healix_core.Prelude.{
  ℕ, zero, suc, ◌+◌, ◌*◌, ◌≤◌, ◌<◌, ◌≡◌, refl, sym, ap, subst, ◌∙◌, ◌⊎◌, inl, inr, true, arith,
  Bool-cases,
}
use healix_core.Execution.Budget.{
  ExecutionCost, cost, max_expanded_executions, max_cumulative_wait_ms, add_cost, multiply_cost,
  exceeds,
}
use healix_core.Execution.Budget.Capped.{
  Stands, Stands-add, Stands-multiply, capped_add-over, capped_multiply-over, mul_suc-over,
  capped_multiply_zero,
}

abbrev pub Over : ExecutionCost → Type 0
Over c = (max_expanded_executions < c.executions) ⊎ (max_cumulative_wait_ms < c.wait_ms)

abbrev pub Within : ExecutionCost → Type 0
Within c = (c.executions ≤ max_expanded_executions) × (c.wait_ms ≤ max_cumulative_wait_ms)

-- A computed cost stands for an exact one: it is that cost, or both are over a limit.
abbrev pub Agrees : ExecutionCost → ExecutionCost → Type 0
Agrees r c = ((r ≡ c) × Within c) ⊎ (Over r × Over c)

abbrev pub plus : ExecutionCost → ExecutionCost → ExecutionCost
plus c d = cost (c.executions + d.executions) (c.wait_ms + d.wait_ms)

abbrev pub times : ExecutionCost → ℕ → ExecutionCost
times c n = cost (c.executions * n) (c.wait_ms * n)

Stands-both :
    (r c : ExecutionCost)
    → Stands max_expanded_executions r.executions c.executions
    → Stands max_cumulative_wait_ms r.wait_ms c.wait_ms
    → Agrees r c
Stands-both r c (inl (p, small)) (inl (q, short)) =
    inl (λ i. record { executions = p i; wait_ms = q i }, (small, short))
Stands-both r c (inr (p, q)) _ = inr (inl p, inl q)
Stands-both r c (inl _) (inr (p, q)) = inr (inr p, inr q)

add_cost-Over : (r s : ExecutionCost) → Over r ⊎ Over s → Over (add_cost r s)
unfolding add_cost
add_cost-Over r s (inl (inl h)) = inl (capped_add-over _ r.executions s.executions (inl h))
add_cost-Over r s (inl (inr h)) = inr (capped_add-over _ r.wait_ms s.wait_ms (inl h))
add_cost-Over r s (inr (inl h)) = inl (capped_add-over _ r.executions s.executions (inr h))
add_cost-Over r s (inr (inr h)) = inr (capped_add-over _ r.wait_ms s.wait_ms (inr h))

pub plus-Over : (c d : ExecutionCost) → Over c ⊎ Over d → Over (plus c d)
plus-Over c d h = ground arith

pub add_cost-Agrees :
    (r c s d : ExecutionCost) → Agrees r c → Agrees s d → Agrees (add_cost r s) (plus c d)
unfolding add_cost
add_cost-Agrees r c s d (inl (p, small)) (inl (q, short)) =
    subst (λ x. Agrees (add_cost x s) (plus c d)) (sym p)
      (subst (λ y. Agrees (add_cost c y) (plus c d)) (sym q)
        (Stands-both (add_cost c d) (plus c d)
          (Stands-add _ c.executions c.executions d.executions d.executions (inl (refl, small.0))
            (inl (refl, short.0)))
          (Stands-add _ c.wait_ms c.wait_ms d.wait_ms d.wait_ms (inl (refl, small.1))
            (inl (refl, short.1)))))
add_cost-Agrees r c s d (inr (p, q)) _ = inr (add_cost-Over r s (inl p), plus-Over c d (inl q))
add_cost-Agrees r c s d (inl _) (inr (p, q)) =
    inr (add_cost-Over r s (inr p), plus-Over c d (inr q))

pub multiply_cost-Agrees :
    (r c : ExecutionCost) (n : ℕ) → Agrees r c → Agrees (multiply_cost r n) (times c n)
unfolding multiply_cost
multiply_cost-Agrees r c n (inl (p, small)) =
    subst (λ x. Agrees (multiply_cost x n) (times c n)) (sym p)
      (Stands-both (multiply_cost c n) (times c n)
        (Stands-multiply _ c.executions c.executions n (inl (refl, small.0)))
        (Stands-multiply _ c.wait_ms c.wait_ms n (inl (refl, small.1))))
multiply_cost-Agrees r c zero (inr _) = inl (
  (λ i. record {
    executions = capped_multiply_zero max_expanded_executions r.executions c.executions i;
    wait_ms = capped_multiply_zero max_cumulative_wait_ms r.wait_ms c.wait_ms i;
  }),
  (omega arith, omega arith),
)
multiply_cost-Agrees r c (suc n) (inr (p, q)) = inr (over_r p, over_c q)
  where
    over_r : Over r → Over (multiply_cost r (suc n))
    over_r (inl h) = inl (capped_multiply-over _ r.executions n h)
    over_r (inr h) = inr (capped_multiply-over _ r.wait_ms n h)

    over_c : Over c → Over (times c (suc n))
    over_c (inl h) = inl (mul_suc-over _ c.executions n h)
    over_c (inr h) = inr (mul_suc-over _ c.wait_ms n h)

pub plus_zero : (c : ExecutionCost) → plus c (cost 0 0) ≡ c
plus_zero c = λ i. record { executions = nat_zero c.executions i; wait_ms = nat_zero c.wait_ms i }
  where
    nat_zero : (n : ℕ) → n + 0 ≡ n
    nat_zero n = omega arith

pub plus_assoc : (c d e : ExecutionCost) → plus (plus c d) e ≡ plus c (plus d e)
plus_assoc c d e = λ i. record {
  executions = nat_assoc c.executions d.executions e.executions i;
  wait_ms = nat_assoc c.wait_ms d.wait_ms e.wait_ms i;
}
  where
    nat_assoc : (m n k : ℕ) → m + n + k ≡ m + (n + k)
    nat_assoc m n k = omega arith

-- What is above a limit stays so with what comes after it.
pub exceeds-Agrees : (r c d : ExecutionCost) → exceeds r ≡ true → Agrees r c → Agrees r (plus c d)
exceeds-Agrees r c d h (inl (p, small)) =
    absurd (let q : exceeds c ≡ true = ap exceeds (sym p) ∙ h in ground arith)
exceeds-Agrees r c d h (inr (p, q)) = inr (p, plus-Over c d (inl q))

pub zero_plus : (c : ExecutionCost) → plus (cost 0 0) c ≡ c
zero_plus c = λ i. record { executions = nat_zero c.executions i; wait_ms = nat_zero c.wait_ms i }
  where
    nat_zero : (n : ℕ) → 0 + n ≡ n
    nat_zero n = omega arith

pub self-Agrees : (c : ExecutionCost) → Agrees c c
self-Agrees c = elim (Bool-cases (exceeds c)) [
  | inl q ↦ ground (arith, q)
  | inr q ↦ inl (refl, ground (arith, q))
]
