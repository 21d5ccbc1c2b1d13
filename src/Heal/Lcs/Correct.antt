-- ===== src/Heal/Lcs/Correct.antt =====
-- The table of domain/heal/lcs.go holds, after each row, the longest common subsequences of the
-- rows read with each prefix of the columns.
use healix_core.Prelude.{
  Text, ℕ, zero, suc, ◌+◌, ◌≡◌, ◌≢◌, refl, ap, sym, subst, inl, inr, true, false, List, [], ◌∷◌,
  some, length, get_elem?, ltb, text_eq, text_eq_sound, text_eq_refl, if◌then◌else◌, arith, tests,
  ◌∙◌, Bool-cases,
}
use healix_core.Heal.Lcs.{
  column_loop, row_loop, clear, lcs_length_with_buffer, longer_first, zeros, lcs_length,
}
use healix_core.Heal.Lcs.Spec.{
  IsLcs, IsLcs-same, IsLcs-left, IsLcs-above, IsLcs-nil, IsLcs-swap, rev_onto, IsLcs-rev_onto,
}

-- The cells of the table to the right of the columns `front`, which are in reverse as are `rows`.
abbrev Cells : List Text → List Text → List Text → List ℕ → Type 0
Cells rows front [] [] = Unit {0}
Cells rows front [] (_ ∷ _) = ⊥
Cells rows front (_ ∷ _) [] = ⊥
Cells rows front (c ∷ columns) (n ∷ dp) =
    IsLcs rows (c ∷ front) n × Cells rows (c ∷ front) columns dp

-- One assignment of the inner loop.
abbrev cell : Text → Text → ℕ → ℕ → ℕ → ℕ
cell row column diagonal left above =
    if text_eq row column then diagonal + 1 else if ltb above left then left else above

cell-IsLcs :
    (row column : Text) (rows front : List Text) (diagonal left above : ℕ)
    → IsLcs rows front diagonal
    → IsLcs (row ∷ rows) front left
    → IsLcs rows (column ∷ front) above
    → IsLcs (row ∷ rows) (column ∷ front) (cell row column diagonal left above)
cell-IsLcs row column rows front diagonal left above d l a =
    elim (Bool-cases (text_eq row column)) [
      | inl e ↦ rw e (
          subst (λ c. IsLcs (row ∷ rows) (c ∷ front) (diagonal + 1)) (text_eq_sound row column e)
            (IsLcs-same row rows front diagonal d))
      | inr e ↦ rw e (elim (Bool-cases (ltb above left)) [
        | inl b ↦ rw b (IsLcs-left row column rows front left above (apart e) l a (omega tests))
        | inr b ↦ rw b (IsLcs-above row column rows front left above (apart e) l a (ground arith))
      ])
    ]
  where
    apart : text_eq row column ≡ false → row ≢ column
    apart e q = let t : true ≡ false = sym (text_eq_refl row) ∙ ap (text_eq row) q ∙ e in cc t

column_loop-Cells :
    (row : Text) (rows front columns : List Text) (left diagonal : ℕ) (dp : List ℕ)
    → IsLcs (row ∷ rows) front left
    → IsLcs rows front diagonal
    → Cells rows front columns dp
    → (dp' : List ℕ) × (column_loop row left diagonal columns dp ≡ some dp')
      × Cells (row ∷ rows) front columns dp'
      × (length dp' ≡ length dp)
unfolding column_loop
column_loop-Cells row rows front [] left diagonal [] l d h = ([], refl, tt, refl)
column_loop-Cells row rows front [] left diagonal (_ ∷ _) l d h = absurd h
column_loop-Cells row rows front (c ∷ columns) left diagonal [] l d h = absurd h
column_loop-Cells row rows front (c ∷ columns) left diagonal (above ∷ dp) l d (a, h) =
    let k = cell-IsLcs row c rows front diagonal left above d l a in
    let (dp', e, h', n) =
      column_loop-Cells row rows (c ∷ front) columns (cell row c diagonal left above) above dp k a
        h in
    (cell row c diagonal left above ∷ dp', rw (e, column_loop), (k, h'), ap suc n)

row_loop-Cells :
    (rows before columns : List Text) (dp : List ℕ)
    → Cells before [] columns dp
    → (dp' : List ℕ) × (row_loop rows columns (0 ∷ dp) ≡ some (0 ∷ dp'))
      × Cells (rev_onto rows before) [] columns dp'
      × (length dp' ≡ length dp)
unfolding row_loop
row_loop-Cells [] before columns dp h = (dp, refl, h, refl)
row_loop-Cells (row ∷ rows) before columns dp h =
    let (dp', e, h', n) =
      column_loop-Cells row before [] columns 0 0 dp (empty (row ∷ before)) (empty before) h in
    let (dp'', e', h'', n') = row_loop-Cells rows (row ∷ before) columns dp' h' in
    (dp'', rw (e, row_loop) e', h'', n' ∙ n)
  where
    empty : (a : List Text) → IsLcs a [] 0
    empty a = IsLcs-swap [] a 0 (IsLcs-nil a)

-- A cleared table is right where no row is read yet.
clear-Cells :
    (front columns : List Text) (dp : List ℕ)
    → length dp ≡ length columns
    → Cells [] front columns (clear dp)
clear-Cells front [] [] e = tt
clear-Cells front [] (_ ∷ _) e = absurd (omega (arith, e))
clear-Cells front (c ∷ columns) [] e = absurd (omega (arith, e))
clear-Cells front (c ∷ columns) (_ ∷ dp) e =
    (IsLcs-nil (c ∷ front), clear-Cells (c ∷ front) columns dp (omega (arith, e)))

-- The last cell, where the first is that of the columns `front`.
last-Cells :
    (rows front columns : List Text) (n : ℕ) (dp : List ℕ)
    → IsLcs rows front n
    → Cells rows front columns dp
    → (m : ℕ) × (get_elem? (n ∷ dp) (length columns) ≡ some m)
      × IsLcs rows (rev_onto columns front) m
last-Cells rows front [] n dp h k = (n, refl, h)
last-Cells rows front (c ∷ columns) n [] h k = absurd k
last-Cells rows front (c ∷ columns) n (m ∷ dp) h (k, l) =
    last-Cells rows (c ∷ front) columns m dp k l

length-clear : (dp : List ℕ) → length (clear dp) ≡ length dp
length-clear [] = refl
length-clear (_ ∷ dp) = ap suc (length-clear dp)

-- On a table of the right size, whatever it holds, the call does not panic, returns the length of
-- a longest common subsequence and leaves a table of that size.
pub lcs_length_with_buffer-IsLcs :
    (rows columns : List Text) (dp : List ℕ)
    → length dp ≡ length columns + 1
    → (n : ℕ) × (dp' : List ℕ) × (lcs_length_with_buffer rows columns dp ≡ some (n, dp'))
      × IsLcs rows columns n
      × (length dp' ≡ length dp)
unfolding lcs_length_with_buffer
lcs_length_with_buffer-IsLcs rows columns [] e = absurd (omega (arith, e))
lcs_length_with_buffer-IsLcs rows columns (first ∷ dp) e =
    let (dp', r, h, n) =
      row_loop-Cells rows [] columns (clear dp) (clear-Cells [] columns dp (omega (arith, e))) in
    let (m, g, l) =
      last-Cells (rev_onto rows []) [] columns 0 dp'
        (IsLcs-swap [] (rev_onto rows []) 0 (IsLcs-nil (rev_onto rows []))) h in
    (
      m,
      0 ∷ dp',
      rw (r, lcs_length_with_buffer) (rw g),
      IsLcs-rev_onto rows columns m l,
      ap suc (n ∙ length-clear dp),
    )

pub length-zeros : (n : ℕ) → length (zeros n) ≡ n
length-zeros zero = refl
length-zeros (suc n) = ap suc (length-zeros n)

-- Which of the two paths is the longer one does not matter.
pub longer_first-IsLcs :
    (a b : List Text) (n : ℕ) → IsLcs (longer_first a b).0 (longer_first a b).1 n → IsLcs a b n
longer_first-IsLcs a b n h = elim (Bool-cases (ltb (length a) (length b))) [
  | inl e ↦ IsLcs-swap b a n (rw e at h)
  | inr e ↦ rw e at h
]

-- `lcsLength` never indexes out of range, and what it returns is the length of a common
-- subsequence of the two paths that no common subsequence exceeds.
pub lcs_length-IsLcs : (a b : List Text) → (n : ℕ) × (lcs_length a b ≡ some n) × IsLcs a b n
unfolding lcs_length
lcs_length-IsLcs a b =
    let (n, dp, e, h, _) =
      lcs_length_with_buffer-IsLcs (longer_first a b).0 (longer_first a b).1
        (zeros (length (longer_first a b).1 + 1))
        (length-zeros (length (longer_first a b).1 + 1)) in
    (n, rw (e, lcs_length), longer_first-IsLcs a b n h)
