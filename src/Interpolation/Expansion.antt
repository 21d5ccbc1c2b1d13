-- ===== src/Interpolation/Expansion.antt =====
-- What `Expand` (domain/interpolation/variables.go) returns: the template with its variables put
-- in, within the budget.
use healix_core.Prelude.{
  Text, ℕ, zero, suc, ◌+◌, ◌-◌, ◌≤◌, ◌<◌, ◌≡◌, ◌≢◌, refl, ap, sym, subst, ◌⊎◌, inl, inr, ◌↔◌, List,
  [], ◌∷◌, ◌++◌, Option, none, some, All, length, Result, ok, err, arith, ◌∙◌, length-append,
  Result-cases, Option-cases,
}
use mathlib.Core.List.{append_assoc}
use healix_core.Interpolation.{
  ExpandError, expression_invalid, expansion_too_large, max_expansion_bytes, index_open,
  index_close, validate_name, write, write_both, expand_name, expand_loop, expand,
}
use healix_core.Interpolation.Scan.{
  expression, index_open-append, index_close-expression, valid_unreserved, slice_front,
  slice_expression, slice_name, slice_rest, View, plain, unclosed, piece, view,
}
use healix_core.Interpolation.Template.{
  Piece, Template, IsPiece, IsTemplate, render_pieces, render, length-expression,
}

-- The text with each variable in its place, if all are defined.
abbrev pub substitute : (Text → Option Text) → List Piece → Text → Option Text
substitute variable [] ending = some ending
substitute variable (p ∷ rest) ending =
    let tail = substitute variable rest ending in
    elim (variable p.name) [
      | none ↦ none
      | some v ↦ elim tail [ none ↦ none | some u ↦ some (p.literal ++ v ++ u) ]
    ]

write_fits :
    (chunk out : Text) (remaining : ℕ)
    → length chunk ≤ remaining
    → write chunk (remaining, out) ≡ some (remaining - length chunk, out ++ chunk)
unfolding write
write_fits chunk out remaining h = ground arith

write_fitted :
    (chunk out : Text) (remaining : ℕ) (final : Text)
    → elim (write chunk (remaining, out)) [
      | none ↦ some (err expansion_too_large)
      | some s ↦ some (ok s.1)
    ]
      ≡ some (ok final)
    → (length chunk ≤ remaining) × (final ≡ out ++ chunk)
unfolding write
write_fitted chunk out remaining final h = ground arith

regroup : (a b c d : Text) → ((a ++ b) ++ c) ++ d ≡ a ++ ((b ++ c) ++ d)
regroup a b c d = simp append_assoc

substitute_split :
    (variable : Text → Option Text) (p : Piece) (rest : List Piece) (ending u : Text)
    → substitute variable (p ∷ rest) ending ≡ some u
    → (v : Text) × (t : Text) × (variable p.name ≡ some v)
      × (substitute variable rest ending ≡ some t)
      × (u ≡ (p.literal ++ v) ++ t)
substitute_split variable p rest ending u h = elim (Option-cases (variable p.name)) [
  | inl n ↦ ground arith
  | inr (v, n) ↦ elim (Option-cases (substitute variable rest ending)) [
    | inl m ↦ ground arith
    | inr (t, m) ↦ (v, t, n, m, ground arith)
  ]
]

substitute_joined :
    (variable : Text → Option Text) (p : Piece) (rest : List Piece) (ending u v : Text)
    → variable p.name ≡ some v
    → substitute variable rest ending ≡ some u
    → substitute variable (p ∷ rest) ending ≡ some ((p.literal ++ v) ++ u)
substitute_joined variable p rest ending u v d y = ground arith

module _ (variable : Text → Option Text) where
  -- An expression that is put in: the variable's value, and the budget that it leaves.
  expand_name_fits :
      (name lit v out : Text) (remaining : ℕ)
      → validate_name name ≡ ok tt
      → variable name ≡ some v
      → length lit + length v ≤ remaining
      → expand_name variable (remaining, out) name lit
        ≡ ok (remaining - length lit - length v, (out ++ lit) ++ v)
  unfolding expand_name write_both write
  expand_name_fits name lit v out remaining h d l = ground arith

  expand_name_ok :
      (name lit out : Text) (remaining : ℕ) {s : ℕ × Text}
      → expand_name variable (remaining, out) name lit ≡ ok s
      → (v : Text) × (validate_name name ≡ ok tt)
        × (variable name ≡ some v)
        × (length lit + length v ≤ remaining)
        × (s ≡ (remaining - length lit - length v, (out ++ lit) ++ v))
  unfolding expand_name write_both write
  expand_name_ok name lit out remaining h = elim (Option-cases (variable name)) [
    | inl n ↦ ground arith
    | inr (v, n) ↦ (v, ground arith, n, ground arith, ground arith)
  ]

  module _ (fuel : ℕ) (state : ℕ × Text) (lit name rest : Text) (o : index_open lit ≡ none) where
    abbrev pub Closes : Type 0
    Closes = index_close (expression name rest) ≡ some (suc (suc (length name)))

    pub expand_loop-expression :
        {s : ℕ × Text}
        → Closes
        → expand_name variable state name lit ≡ ok s
        → expand_loop (suc fuel) variable state (lit ++ expression name rest)
          ≡ expand_loop fuel variable s rest
    unfolding expand_loop
    expand_loop-expression c e =
        rw (index_open-append lit (name ++ b'}' ∷ rest) o, expand_loop)
          (rw (slice_expression lit name rest, c)
            (rw (slice_name lit name rest, slice_front lit name rest, e)
              (rw (slice_rest lit name rest))))

    pub expand_loop-refused :
        (x : ExpandError)
        → Closes
        → expand_name variable state name lit ≡ err x
        → expand_loop (suc fuel) variable state (lit ++ expression name rest) ≡ some (err x)
    unfolding expand_loop
    expand_loop-refused x c e =
        rw (index_open-append lit (name ++ b'}' ∷ rest) o, expand_loop)
          (rw (slice_expression lit name rest, c)
            (rw (slice_name lit name rest, slice_front lit name rest, e)))

  expand_loop-substitute :
      (fuel remaining : ℕ) (out : Text) (pieces : List Piece) (ending u : Text)
      → All IsPiece pieces
      → index_open ending ≡ none
      → length (render_pieces pieces ending) < fuel
      → substitute variable pieces ending ≡ some u
      → length u ≤ remaining
      → expand_loop fuel variable (remaining, out) (render_pieces pieces ending)
        ≡ some (ok (out ++ u))
  unfolding expand_loop
  expand_loop-substitute zero remaining out pieces ending u w e l h b = absurd (omega arith)
  expand_loop-substitute (suc fuel) remaining out [] ending u w e l h b =
      rw (e, expand_loop) (ground (arith, write_fits ending out remaining))
  expand_loop-substitute (suc fuel) remaining out (p ∷ rest) ending u w e l h b =
      let (v, t, d, r, q) = substitute_split variable p rest ending u h in
      let n : length u ≡ length p.literal + length v + length t =
        ap length q
        ∙ length-append (p.literal ++ v) t
        ∙ ap (λ k. k + length t) (length-append p.literal v) in
      expand_loop-expression fuel (remaining, out) p.literal p.name (render_pieces rest ending)
        w.0.0
        (index_close-expression p.name (render_pieces rest ending) (valid_unreserved p.name w.0.1))
        (expand_name_fits p.name p.literal v out remaining w.0.1 d (omega arith))
      ∙ expand_loop-substitute fuel (remaining - length p.literal - length v)
          ((out ++ p.literal) ++ v) rest ending t w.1 e
          (omega (arith, length-expression p.literal p.name (render_pieces rest ending))) r
          (omega arith)
      ∙ ap (λ x. some (ok x)) (regroup out p.literal v t ∙ ap (λ x. out ++ x) (sym q))

  -- A text that the loop reads through, and what it puts out.
  abbrev Expands : ℕ → Text → Text → Text → Type 0
  Expands remaining out s final =
      (t : Template) × IsTemplate t
      × (render t ≡ s)
      × ((u : Text) × (substitute variable t.pieces t.ending ≡ some u)
          × (length u ≤ remaining)
          × (final ≡ out ++ u))

  expand_loop-Expands :
      (fuel remaining : ℕ) (out s final : Text)
      → expand_loop fuel variable (remaining, out) s ≡ some (ok final)
      → Expands remaining out s final
  unfolding expand_loop
  expand_loop-Expands zero remaining out s final h = cc
  expand_loop-Expands (suc fuel) remaining out s final h =
      look (λ r o s'. expand_loop-Expands fuel r o s' final) (view s)
    where
      look :
          ((r : ℕ) (o s' : Text)
            → expand_loop fuel variable (r, o) s' ≡ some (ok final)
            → Expands r o s' final)
          → View s
          → Expands remaining out s final
      look rec (plain n) =
          let (b, q) = write_fitted s out remaining final (rw (n, expand_loop) at h) in
          (record { pieces = []; ending = s }, (tt, n), refl, (s, refl, b, q))
      look rec (unclosed i n m) =
          let q : ◌≡◌ {A = Option (Result ExpandError Text)} (some (err expression_invalid))
              (some (ok final)) =
            rw (n, m, expand_loop) at h in
          cc
      look rec (piece lit name rest e o c) =
          elim (Result-cases (expand_name variable (remaining, out) name lit)) [
            | inl (s', x) ↦
                let (v, g, d, l, q) = expand_name_ok name lit out remaining x in
                let (t, w, r, (u, y, b, z)) =
                  rec (remaining - length lit - length v) ((out ++ lit) ++ v) rest (
                    subst (λ k. expand_loop fuel variable k rest ≡ some (ok final)) q
                      (sym (expand_loop-expression fuel (remaining, out) lit name rest o c x)
                        ∙ subst
                            (λ k.
                              expand_loop (suc fuel) variable (remaining, out) k ≡ some (ok final))
                            e h)) in
                (
                  record {
                    pieces = record { literal = lit; name = name } ∷ t.pieces;
                    ending = t.ending;
                  },
                  (((o, g), w.0), w.1),
                  ap (λ k. lit ++ expression name k) r ∙ sym e,
                  (
                    (lit ++ v) ++ u,
                    substitute_joined variable (record { literal = lit; name = name }) t.pieces
                        t.ending u v d y,
                    omega (arith, length-append (lit ++ v) u, length-append lit v),
                    z ∙ regroup out lit v u,
                  ),
                )
            | inr (x, n) ↦
                let q : ◌≡◌ {A = Option (Result ExpandError Text)} (some (err x))
                    (some (ok final)) =
                  sym (expand_loop-refused fuel (remaining, out) lit name rest o x c n)
                  ∙ subst
                      (λ k. expand_loop (suc fuel) variable (remaining, out) k ≡ some (ok final)) e
                      h in
                cc
          ]

-- With a resolver, `Expand` returns a text without expressions as it is. Any other text it expands
-- exactly if it is a template whose variables are all defined and whose expansion has at most 2^20
-- bytes, and it returns that expansion.
pub expand_iff :
    (value out : Text) (variable : Text → Option Text)
    → (expand value (some variable) ≡ some (ok out)) ↔ (
        ((index_open value ≡ none) × (out ≡ value))
        ⊎ ((index_open value ≢ none)
            × ((t : Template) × IsTemplate t
                × (render t ≡ value)
                × (substitute variable t.pieces t.ending ≡ some out)
                × (length out ≤ max_expansion_bytes))))
unfolding expand
expand_iff value out variable = (into, back)
  where
    into :
        expand value (some variable) ≡ some (ok out)
        → ((index_open value ≡ none) × (out ≡ value))
          ⊎ ((index_open value ≢ none)
              × ((t : Template) × IsTemplate t
                  × (render t ≡ value)
                  × (substitute variable t.pieces t.ending ≡ some out)
                  × (length out ≤ max_expansion_bytes)))
    into h = elim (Option-cases (index_open value)) [
      | inl n ↦
          let q : ◌≡◌ {A = Option (Result ExpandError Text)} (some (ok value)) (some (ok out)) =
            rw (n, expand) at h in
          inl (n, cc q)
      | inr (i, n) ↦
          let (t, w, r, (u, y, b, z)) =
            expand_loop-Expands variable (suc (length value)) max_expansion_bytes [] value out
              (rw (n, expand) at h) in
          inr (
            (λ e. cc (e, n)),
            (
              t,
              w,
              r,
              subst (λ k. substitute variable t.pieces t.ending ≡ some k) (sym z) y,
              subst (λ (k : Text). length k ≤ max_expansion_bytes) (sym z) b,
            ),
          )
    ]

    back :
        ((index_open value ≡ none) × (out ≡ value))
          ⊎ ((index_open value ≢ none)
              × ((t : Template) × IsTemplate t
                  × (render t ≡ value)
                  × (substitute variable t.pieces t.ending ≡ some out)
                  × (length out ≤ max_expansion_bytes)))
        → expand value (some variable) ≡ some (ok out)
    back (inl (n, e)) = rw (n, expand) (ap (λ x. some (ok x)) (sym e))
    back (inr (n, (t, (w, x), r, y, b))) = elim (Option-cases (index_open value)) [
      | inl m ↦ absurd (n m)
      | inr (i, m) ↦
          rw (m, expand)
            (subst
              (λ x.
                expand_loop (suc (length x)) variable (max_expansion_bytes, []) x ≡ some (ok out))
              r
              (expand_loop-substitute variable (suc (length (render t))) max_expansion_bytes []
                t.pieces t.ending out w x (omega arith) y b))
    ]
