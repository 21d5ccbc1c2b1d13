-- ===== src/Interpolation/Termination.antt =====
-- The loops of domain/interpolation/variables.go end: a round takes at least three bytes.
use healix_core.Prelude.{
  Text, ℕ, zero, suc, ◌<◌, ◌≡◌, ap, ◌∙◌, inl, inr, List, [], ◌∷◌, ◌++◌, Option, some, length,
  Result, ok, err, arith, Result-cases, Option-cases,
}
use healix_core.Interpolation.{
  ExpandError, expression_invalid, resolver_required, expansion_too_large, max_expansion_bytes,
  index_open, validate_name, names_loop, names, write, expand_name, expand_loop, expand,
}
use healix_core.Interpolation.Scan.{View, plain, unclosed, piece, view}
use healix_core.Interpolation.Template.{
  length-expression, names_loop-expression, names_loop-refused, names-names_loop,
}
use healix_core.Interpolation.Expansion.{expand_loop-expression, expand_loop-refused}

abbrev Returns : {A : Type 0} → Option A → Type 0
Returns {A} o = (a : A) × (o ≡ some a)

names_loop-Returns :
    (fuel : ℕ) (acc : List Text) (s : Text) → length s < fuel → Returns (names_loop fuel acc s)
unfolding names_loop
names_loop-Returns zero acc s l = absurd (omega arith)
names_loop-Returns (suc fuel) acc s l = look (λ acc' s'. names_loop-Returns fuel acc' s') (view s)
  where
    look :
        ((acc' : List Text) (s' : Text) → length s' < fuel → Returns (names_loop fuel acc' s'))
        → View s
        → Returns (names_loop (suc fuel) acc s)
    look rec (plain n) = (ok acc, rw (n, names_loop))
    look rec (unclosed i n m) = (err expression_invalid, rw (n, names_loop) (rw m))
    look rec (piece lit name rest e o c) = elim (Result-cases (validate_name name)) [
      | inl (u, v) ↦
          let (r, q) =
            rec (acc ++ name ∷ []) rest
              (omega (arith, length-expression lit name rest, ap length e)) in
          (
            r,
            ap (names_loop (suc fuel) acc) e
                ∙ names_loop-expression fuel acc lit name rest o c v
                ∙ q,
          )
      | inr (x, v) ↦ (
        err x,
        ap (names_loop (suc fuel) acc) e ∙ names_loop-refused fuel acc lit name rest o x c v,
      )
    ]

expand_loop-Returns :
    (variable : Text → Option Text) (fuel : ℕ) (state : ℕ × Text) (s : Text)
    → length s < fuel
    → Returns (expand_loop fuel variable state s)
unfolding expand_loop
expand_loop-Returns variable zero state s l = absurd (omega arith)
expand_loop-Returns variable (suc fuel) state s l =
    look (λ state' s'. expand_loop-Returns variable fuel state' s') (view s)
  where
    look :
        ((state' : ℕ × Text) (s' : Text)
          → length s' < fuel
          → Returns (expand_loop fuel variable state' s'))
        → View s
        → Returns (expand_loop (suc fuel) variable state s)
    look rec (plain n) = elim (Option-cases (write s state)) [
      | inl w ↦ (err expansion_too_large, rw (n, expand_loop) (rw w))
      | inr (x, w) ↦ (ok x.1, rw (n, expand_loop) (rw w))
    ]
    look rec (unclosed i n m) = (err expression_invalid, rw (n, expand_loop) (rw m))
    look rec (piece lit name rest e o c) =
        elim (Result-cases (expand_name variable state name lit)) [
          | inl (t, v) ↦
              let (r, q) =
                rec t rest (omega (arith, length-expression lit name rest, ap length e)) in
              (
                r,
                ap (expand_loop (suc fuel) variable state) e
                    ∙ expand_loop-expression variable fuel state lit name rest o c v
                    ∙ q,
              )
          | inr (x, v) ↦ (
            err x,
            ap (expand_loop (suc fuel) variable state) e
                ∙ expand_loop-refused variable fuel state lit name rest o x c v,
          )
        ]

expand-Returns :
    (value : Text) (resolver : Option (Text → Option Text)) → Returns (expand value resolver)
unfolding expand
expand-Returns value resolver = elim (Option-cases (index_open value)) [
  | inl n ↦ (ok value, rw (n, expand))
  | inr (i, n) ↦ elim (Option-cases resolver) [
    | inl m ↦ (err resolver_required, rw (n, m, expand))
    | inr (variable, m) ↦
        let (r, q) =
          expand_loop-Returns variable (suc (length value)) (max_expansion_bytes, []) value
            (omega arith) in
        (r, rw (n, m, expand) q)
  ]
]

-- `Names` and `Expand` return on every text and with every resolver, present or not: the fuel
-- given, one more than the length of the text, is enough for their loops.
pub interpolation_returns :
    (value : Text) (resolver : Option (Text → Option Text))
    → ((r : Result ExpandError (List Text)) × (names value ≡ some r))
      × ((r : Result ExpandError Text) × (expand value resolver ≡ some r))
interpolation_returns value resolver =
    let (r, q) = names_loop-Returns (suc (length value)) [] value (omega arith) in
    ((r, names-names_loop value ∙ q), expand-Returns value resolver)
