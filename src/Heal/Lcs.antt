-- ===== src/Heal/Lcs.antt =====
-- domain/heal/lcs.go: the longest common subsequence of two tag paths by one row of a table, and
-- the candidates that it keeps. `none` is a run-time panic, an index out of range.
pub mod Spec
pub mod Correct
pub mod Narrow
use healix_core.Prelude.{
  Text, ℕ, zero, suc, ◌+◌, Bool, List, [], ◌∷◌, ◌++◌, Option, none, some, text_eq, ltb, leb,
  if◌then◌else◌, length, take, drop, get_elem?, map,
}

infixl 5 ◌>>=◌
abbrev ◌>>=◌ {ℓ κ} : {A : Type ℓ} {B : Type κ} → Option A → (A → Option B) → Option B
none >>= f = none
some a >>= f = f a

-- The inner loop at column `j`: `left` is dp[j] and the table is dp[j+1:].
unfoldable pub column_loop : Text → ℕ → ℕ → List Text → List ℕ → Option (List ℕ)
column_loop row left diagonal [] dp = some dp
column_loop row left diagonal (column ∷ columns) [] = none
column_loop row left diagonal (column ∷ columns) (above ∷ dp) =
    let cell =
      if text_eq row column then diagonal + 1 else if ltb above left then left else above in
    let next = column_loop row cell above columns dp in
    elim next [ none ↦ none | some rest ↦ some (cell ∷ rest) ]

-- The outer loop; dp[0] stays as it is.
unfoldable pub row_loop : List Text → List Text → List ℕ → Option (List ℕ)
row_loop [] columns dp = some dp
row_loop (row ∷ rows) [] [] = row_loop rows [] []
row_loop (row ∷ rows) (_ ∷ _) [] = none
row_loop (row ∷ rows) columns (first ∷ dp) = elim (column_loop row first 0 columns dp) [
  | none ↦ none
  | some dp' ↦ row_loop rows columns (first ∷ dp')
]

abbrev pub clear : List ℕ → List ℕ
clear = map (λ _. 0)

-- The length, and the buffer as the call leaves it.
unfoldable pub lcs_length_with_buffer : List Text → List Text → List ℕ → Option (ℕ × List ℕ)
unfolding row_loop column_loop
lcs_length_with_buffer rows columns dp = do
  dp' ← row_loop rows columns (clear dp)
  result ← get_elem? dp' (length columns)
  some (result, dp')

-- `if len(columns) > len(rows) { rows, columns = columns, rows }`
abbrev pub longer_first : List Text → List Text → List Text × List Text
longer_first rows columns =
    if ltb (length rows) (length columns) then (columns, rows) else (rows, columns)

-- `make([]int, n)`
abbrev pub zeros : ℕ → List ℕ
zeros zero = []
zeros (suc n) = 0 ∷ zeros n

unfoldable pub lcs_length : List Text → List Text → Option ℕ
lcs_length a b =
    let (rows, columns) = longer_first a b in
    do (result, _) ← lcs_length_with_buffer rows columns (zeros (length columns + 1)); some result

-- `workspace[:n]`, and the rest of the buffer that the call does not see
abbrev pub split_buffer : ℕ → List ℕ → Option (List ℕ × List ℕ)
split_buffer n workspace =
    if leb n (length workspace) then some (take n workspace, drop n workspace) else none

-- The second loop.
unfoldable pub keep_loop : {C : Type 0} → ℕ → List ℕ → List C → List C
keep_loop max_dist (d ∷ ds) (c ∷ candidates) =
    let rest = keep_loop max_dist ds candidates in if leb max_dist d then c ∷ rest else rest
keep_loop max_dist _ _ = []

-- `if b > a { a = b }`
abbrev pub raised : ℕ → ℕ → ℕ
raised a b = if ltb a b then b else a

-- `candidateLength`
abbrev pub shorter : List Text → List Text → ℕ
shorter target path = if ltb (length target) (length path) then length target else length path

-- Candidates are read through their `Fingerprint.Path` alone.
module _ {C : Type 0} (path : C → List Text) where
  unfoldable pub shortest_path_loop : List Text → ℕ → List C → ℕ
  shortest_path_loop target longest [] = longest
  shortest_path_loop target longest (c ∷ candidates) =
      shortest_path_loop target (raised longest (shorter target (path c))) candidates

  unfoldable pub shortest_path_length : List Text → List C → ℕ
  unfolding shortest_path_loop
  shortest_path_length target candidates = shortest_path_loop target 0 candidates + 1

  -- The first loop of `narrowByPathLCS`: the distances, and their maximum.
  unfoldable pub distances_loop : List Text → List ℕ → ℕ → List C → Option (List ℕ × ℕ)
  distances_loop target workspace max_dist [] = some ([], max_dist)
  distances_loop target workspace max_dist (c ∷ candidates) =
      let (rows, columns) = longer_first target (path c) in
      do
        (own, rest) ← split_buffer (length columns + 1) workspace
        (d, own') ← lcs_length_with_buffer rows columns own
        (ds, m) ← distances_loop target (own' ++ rest) (raised max_dist d) candidates
        some (d ∷ ds, m)

  unfoldable pub narrow_by_path_lcs : List Text → List C → Option (List C)
  narrow_by_path_lcs target [] = some []
  narrow_by_path_lcs target (c ∷ candidates) = do
    (ds, m) ←
        distances_loop target (zeros (shortest_path_length target (c ∷ candidates))) 0
          (c ∷ candidates)
    some (keep_loop m ds (c ∷ candidates))
