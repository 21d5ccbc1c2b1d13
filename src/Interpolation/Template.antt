-- ===== src/Interpolation/Template.antt =====
-- The grammar that `Names` and `Expand` (domain/interpolation/variables.go) share: a template is
-- text with expressions in it. `render` writes one, and the loops read it back.
use healix_core.Prelude.{
  Text, ℕ, suc, ◌<◌, ◌≡◌, refl, ap, sym, List, [], ◌∷◌, ◌++◌, map, Option, none, some, All, length,
  Result, ok, err, arith, ◌∙◌, length-append, zero, subst, inl, inr, Result-cases, Option-cases,
  ◌↔◌,
}
use mathlib.Core.List.{append_assoc, append-nil}
use healix_core.Interpolation.{
  ExpandError, expression_invalid, index_open, index_close, validate_name, names_loop, names,
}
use healix_core.Interpolation.Scan.{
  expression, index_open-append, index_close-expression, valid_unreserved, slice_expression,
  slice_name, slice_rest, View, plain, unclosed, piece, view,
}

-- The literal text in front of an expression, and its name.
pub record Piece : Type 0 where
  pub literal : Text
  pub name : Text

pub record Template : Type 0 where
  pub pieces : List Piece
  pub ending : Text

abbrev pub render_pieces : List Piece → Text → Text
render_pieces [] ending = ending
render_pieces (p ∷ rest) ending = p.literal ++ expression p.name (render_pieces rest ending)

abbrev pub render : Template → Text
render t = render_pieces t.pieces t.ending

-- The literals hold no `${`, and the names are valid.
abbrev pub IsPiece : Piece → Type 0
IsPiece p = (index_open p.literal ≡ none) × (validate_name p.name ≡ ok tt)

abbrev pub IsTemplate : Template → Type 0
IsTemplate t = All IsPiece t.pieces × (index_open t.ending ≡ none)

pub length-expression : (lit name rest : Text) → length rest < length (lit ++ expression name rest)
length-expression lit name rest =
    omega (arith, length-append lit (expression name rest), length-append name (b'}' ∷ rest))

-- A round of `Names` over an expression, its name given: a valid name and a refused one.
module _ (fuel : ℕ) (acc : List Text) (lit name rest : Text) (o : index_open lit ≡ none) where
  abbrev pub Closes : Type 0
  Closes = index_close (expression name rest) ≡ some (suc (suc (length name)))

  pub names_loop-expression :
      Closes
      → validate_name name ≡ ok tt
      → names_loop (suc fuel) acc (lit ++ expression name rest)
        ≡ names_loop fuel (acc ++ name ∷ []) rest
  unfolding names_loop
  names_loop-expression c v =
      rw (index_open-append lit (name ++ b'}' ∷ rest) o, names_loop)
        (rw (slice_expression lit name rest, c)
          (rw (slice_name lit name rest, v)
            (rw (slice_name lit name rest, slice_rest lit name rest))))

  pub names_loop-refused :
      (e : ExpandError)
      → Closes
      → validate_name name ≡ err e
      → names_loop (suc fuel) acc (lit ++ expression name rest) ≡ some (err e)
  unfolding names_loop
  names_loop-refused e c v =
      rw (index_open-append lit (name ++ b'}' ∷ rest) o, names_loop)
        (rw (slice_expression lit name rest, c) (rw (slice_name lit name rest, v)))

names_loop-render :
    (fuel : ℕ) (acc : List Text) (pieces : List Piece) (ending : Text)
    → All IsPiece pieces
    → index_open ending ≡ none
    → length (render_pieces pieces ending) < fuel
    → names_loop fuel acc (render_pieces pieces ending)
      ≡ some (ok (acc ++ map (λ p. p.name) pieces))
unfolding names_loop
names_loop-render zero acc pieces ending w e l = absurd (omega arith)
names_loop-render (suc fuel) acc [] ending w e l = rw (e, names_loop) (rw append-nil)
names_loop-render (suc fuel) acc (p ∷ rest) ending w e l =
    names_loop-expression fuel acc p.literal p.name (render_pieces rest ending) w.0.0
      (index_close-expression p.name (render_pieces rest ending) (valid_unreserved p.name w.0.1))
      w.0.1
    ∙ names_loop-render fuel (acc ++ p.name ∷ []) rest ending w.1 e
        (omega (arith, length-expression p.literal p.name (render_pieces rest ending)))
    ∙ ap (λ x. some (ok x)) (append_assoc acc (p.name ∷ []) (map (λ q. q.name) rest))

-- A text that a loop reads through is a template with the names found.
abbrev Reads : List Text → Text → List Text → Type 0
Reads acc s ns =
    (t : Template) × IsTemplate t × (render t ≡ s) × (ns ≡ acc ++ map (λ p. p.name) t.pieces)

names_loop-Reads :
    (fuel : ℕ) (acc : List Text) (s : Text) (ns : List Text)
    → names_loop fuel acc s ≡ some (ok ns)
    → Reads acc s ns
unfolding names_loop
names_loop-Reads zero acc s ns h = cc
names_loop-Reads (suc fuel) acc s ns h = look (λ acc' s'. names_loop-Reads fuel acc' s' ns) (view s)
  where
    look :
        ((acc' : List Text) (s' : Text) → names_loop fuel acc' s' ≡ some (ok ns) → Reads acc' s' ns)
        → View s
        → Reads acc s ns
    look rec (plain n) =
        let q : ◌≡◌ {A = Option (Result ExpandError (List Text))} (some (ok acc)) (some (ok ns)) =
          rw (n, names_loop) at h in
        (record { pieces = []; ending = s }, (tt, n), refl, (cc q) ∙ sym (append-nil acc))
    look rec (unclosed i n m) =
        let q : ◌≡◌ {A = Option (Result ExpandError (List Text))} (some (err expression_invalid))
            (some (ok ns)) =
          rw (n, m, names_loop) at h in
        cc
    look rec (piece lit name rest e o c) = elim (Result-cases (validate_name name)) [
      | inl (u, v) ↦
          let r = rec (acc ++ name ∷ []) rest (
            sym (names_loop-expression fuel acc lit name rest o c v)
            ∙ subst (λ x. names_loop (suc fuel) acc x ≡ some (ok ns)) e h) in
          (
            record {
              pieces = record { literal = lit; name = name } ∷ r.0.pieces;
              ending = r.0.ending;
            },
            (((o, v), r.1.0), r.1.1),
            ap (λ x. lit ++ expression name x) r.2 ∙ sym e,
            r.3 ∙ append_assoc acc (name ∷ []) (map (λ p. p.name) r.0.pieces),
          )
      | inr (x, v) ↦
          let q : ◌≡◌ {A = Option (Result ExpandError (List Text))} (some (err x)) (some (ok ns)) =
            sym (names_loop-refused fuel acc lit name rest o x c v)
            ∙ subst (λ y. names_loop (suc fuel) acc y ≡ some (ok ns)) e h in
          cc
    ]

pub names-names_loop : (value : Text) → names value ≡ names_loop (suc (length value)) [] value
unfolding names names_loop
names-names_loop value = elim (Option-cases (index_open value)) [
  | inl n ↦ rw (n, names) (rw (n, names_loop))
  | inr (i, n) ↦ rw (n, names)
]

names_loop-template :
    (t : Template)
    → IsTemplate t
    → names_loop (suc (length (render t))) [] (render t) ≡ some (ok (map (λ p. p.name) t.pieces))
names_loop-template t (w, e) =
    names_loop-render (suc (length (render t))) [] t.pieces t.ending w e (omega arith)

-- `Names` accepts exactly the texts that are templates: literal text without `${`, and
-- expressions `${name}` whose name is not empty, is trimmed and has none of the reserved bytes.
-- It returns the names in order.
pub names_iff :
    (value : Text) (ns : List Text)
    → (names value ≡ some (ok ns))
      ↔ ((t : Template) × IsTemplate t × (render t ≡ value) × (ns ≡ map (λ p. p.name) t.pieces))
names_iff value ns = (
  λ h. names_loop-Reads (suc (length value)) [] value ns (sym (names-names_loop value) ∙ h),
  λ (t, w, e, q).
      names-names_loop value
      ∙ subst (λ v. names_loop (suc (length v)) [] v ≡ some (ok (map (λ p. p.name) t.pieces))) e
          (names_loop-template t w)
      ∙ ap (λ l. some (ok l)) (sym q),
)
