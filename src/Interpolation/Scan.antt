-- ===== src/Interpolation/Scan.antt =====
-- The searches and slices of domain/interpolation/variables.go on a template that is given in
-- parts.
use healix_core.Prelude.{
  Text, ℕ, suc, ◌+◌, ◌≡◌, refl, ap, false, List, [], ◌∷◌, ◌++◌, Option, none, some, length, take,
  drop, take-length-append, ok, arith, ◌∙◌, ap₂, Bool-cases, Option-cases, inl, inr, ◌==◌, ◌&&◌,
  drop-length-append,
}
use healix_core.Interpolation.{index_open, index_close, slice, contains_reserved, validate_name}

-- The text of one expression in front of a rest.
abbrev pub expression : Text → Text → Text
expression name rest = b'$' ∷ b'{' ∷ (name ++ b'}' ∷ rest)

pub drop-append_add {ℓ} :
    {A : Type ℓ} (xs ys : List A) (n : ℕ) → drop (length xs + n) (xs ++ ys) ≡ drop n ys
drop-append_add [] ys n = ap (λ k. drop k ys) (omega arith)
drop-append_add (x ∷ xs) ys n =
    ap (λ k. drop k (x ∷ xs ++ ys)) (suc_add (length xs) n) ∙ drop-append_add xs ys n
  where
    suc_add : (a b : ℕ) → suc a + b ≡ suc (a + b)
    suc_add a b = omega arith

pub index_open-append :
    (lit rest : Text)
    → index_open lit ≡ none
    → index_open (lit ++ b'$' ∷ b'{' ∷ rest) ≡ some (length lit)
unfolding index_open
index_open-append [] rest h = refl
index_open-append (a ∷ []) rest h = ground arith
index_open-append (a ∷ b ∷ lit) rest h = ground (arith, index_open-append (b ∷ lit) rest)

close_in_name :
    (name rest : Text)
    → contains_reserved name ≡ false
    → index_close (name ++ b'}' ∷ rest) ≡ some (length name)
unfolding index_close contains_reserved
close_in_name [] rest h = refl
close_in_name (c ∷ name) rest h = ground (arith, close_in_name name rest)

pub index_close-expression :
    (name rest : Text)
    → contains_reserved name ≡ false
    → index_close (expression name rest) ≡ some (suc (suc (length name)))
unfolding index_close
index_close-expression name rest h = ground (arith, close_in_name name rest)

pub valid_unreserved : (name : Text) → validate_name name ≡ ok tt → contains_reserved name ≡ false
unfolding validate_name
valid_unreserved name h = ground arith

-- The three slices of a round.
module _ (lit name rest : Text) where
  pub slice_front : take (length lit) (lit ++ expression name rest) ≡ lit
  slice_front = take-length-append lit (expression name rest)

  pub slice_expression : drop (length lit) (lit ++ expression name rest) ≡ expression name rest
  slice_expression =
      ap (λ k. drop k (lit ++ expression name rest)) (omega arith)
      ∙ drop-append_add lit (expression name rest) 0

  pub slice_name :
      slice (length lit + 2) (length lit + suc (suc (length name))) (lit ++ expression name rest)
      ≡ name
  slice_name =
      ap₂ take (omega arith) (drop-append_add lit (expression name rest) 2)
      ∙ take-length-append name (b'}' ∷ rest)

  pub slice_rest :
      drop (length lit + suc (suc (length name)) + 1) (lit ++ expression name rest) ≡ rest
  slice_rest =
      let n : ℕ = length name in
      let past : length lit + suc (suc n) + 1 ≡ length lit + suc (suc (suc n)) = omega arith in
      let close : suc n ≡ n + 1 = omega arith in
      ap (λ k. drop k (lit ++ expression name rest)) past
      ∙ drop-append_add lit (expression name rest) (suc (suc (suc n)))
      ∙ ap (λ k. drop k (name ++ b'}' ∷ rest)) close
      ∙ drop-append_add name (b'}' ∷ rest) 1

-- What a successful search says of the text.
pub index_open_split :
    (s : Text) (i : ℕ)
    → index_open s ≡ some i
    → (lit : Text) × (r : Text) × (s ≡ lit ++ b'$' ∷ b'{' ∷ r)
      × (length lit ≡ i)
      × (index_open lit ≡ none)
unfolding index_open
index_open_split [] i h = cc
index_open_split (a ∷ []) i h = ground arith
index_open_split (a ∷ b ∷ rest) i h = elim (Bool-cases (a == b'$' && b == b'{')) [
  | inl e ↦ ([], rest, ground arith, ground arith, refl)
  | inr e ↦ elim (Option-cases (index_open (b ∷ rest))) [
    | inl n ↦ let q : ◌≡◌ {A = Option ℕ} none (some i) = rw (e, n) at h in cc
    | inr (j, n) ↦
        let (lit, r, s, l, o) = index_open_split (b ∷ rest) j n in
        let q : ◌≡◌ {A = Option ℕ} (some (suc j)) (some i) = rw (e, n) at h in
        (a ∷ lit, r, ap (λ x. a ∷ x) s, ap suc l ∙ (cc q), still lit r s o e)
  ]
]
  where
    still :
        (lit r : Text)
        → b ∷ rest ≡ lit ++ b'$' ∷ b'{' ∷ r
        → index_open lit ≡ none
        → (a == b'$' && b == b'{') ≡ false
        → index_open (a ∷ lit) ≡ none
    still [] r s o e = ground arith
    still (c ∷ lit) r s o e = ground arith

index_close_name :
    (r : Text) (e : ℕ)
    → index_close r ≡ some e
    → (name : Text) × (rest : Text) × (r ≡ name ++ b'}' ∷ rest) × (length name ≡ e)
unfolding index_close
index_close_name [] e h = cc
index_close_name (a ∷ r) e h = elim (Bool-cases (a == b'}')) [
  | inl c ↦ ([], r, ground arith, ground arith)
  | inr c ↦ elim (Option-cases (index_close r)) [
    | inl n ↦ let q : ◌≡◌ {A = Option ℕ} none (some e) = rw (c, n) at h in cc
    | inr (j, n) ↦
        let (name, rest, s, l) = index_close_name r j n in
        let q : ◌≡◌ {A = Option ℕ} (some (suc j)) (some e) = rw (c, n) at h in
        (a ∷ name, rest, ap (λ x. a ∷ x) s, ap suc l ∙ (cc q))
  ]
]

-- The three ways in which a round of a loop finds the text.
pub data View (s : Text) : Type 0 where
  plain : index_open s ≡ none → View s
  unclosed : (i : ℕ) → index_open s ≡ some i → index_close (drop i s) ≡ none → View s
  piece :
      (lit name rest : Text)
      → s ≡ lit ++ expression name rest
      → index_open lit ≡ none
      → index_close (expression name rest) ≡ some (suc (suc (length name)))
      → View s

opened :
    (s lit r : Text) (i : ℕ)
    → index_open s ≡ some i
    → s ≡ lit ++ b'$' ∷ b'{' ∷ r
    → length lit ≡ i
    → index_open lit ≡ none
    → View s
unfolding index_close
opened s lit r i h e l o = elim (Option-cases (index_close r)) [
  | inl n ↦ unclosed i h (rw (← l) (rw e (rw (dropped) (rw (n, index_close)))))
  | inr (j, n) ↦
      let (name, rest, q, m) = index_close_name r j n in
      piece lit name rest (rw (← q) e) o (rw (← q) (rw (n, m, index_close)))
]
  where
    dropped : drop (length lit) (lit ++ b'$' ∷ b'{' ∷ r) ≡ b'$' ∷ b'{' ∷ r
    dropped = drop-length-append lit (b'$' ∷ b'{' ∷ r)

pub view : (s : Text) → View s
view s = elim (Option-cases (index_open s)) [
  | inl n ↦ plain n
  | inr (i, n) ↦ let (lit, r, e, l, o) = index_open_split s i n in opened s lit r i n e l o
]
