-- ===== src/Examples/Heal.antt =====
-- Tag paths and the candidates near a target (domain/heal/lcs.go).
use healix_core.Prelude.{Text, ℕ, ◌≡◌, refl, List, [], ◌∷◌, some, codes, text_eq, leb}
use healix_core.Heal.Lcs.{
  column_loop, row_loop, lcs_length_with_buffer, lcs_length, shortest_path_loop,
  shortest_path_length, distances_loop, keep_loop, narrow_by_path_lcs,
}
use healix_core.Heal.Lcs.Spec.{IsLcs}
use healix_core.Heal.Lcs.Correct.{lcs_length-IsLcs}
use healix_core.Heal.Lcs.Narrow.{filter, all, narrow_by_path_lcs-filter}

abbrev form_path : List Text
form_path = codes "html" ∷ codes "body" ∷ codes "form" ∷ codes "input" ∷ []

abbrev moved_path : List Text
moved_path = codes "html" ∷ codes "body" ∷ codes "main" ∷ codes "form" ∷ codes "input" ∷ []

abbrev other_path : List Text
other_path = codes "html" ∷ codes "nav" ∷ codes "input" ∷ []

finds_length : lcs_length form_path moved_path ≡ some 4
unfolding lcs_length lcs_length_with_buffer row_loop column_loop text_eq
finds_length = refl

keeps_the_moved :
    narrow_by_path_lcs (λ p. p) form_path (other_path ∷ moved_path ∷ []) ≡ some (moved_path ∷ [])
unfolding narrow_by_path_lcs distances_loop keep_loop shortest_path_length shortest_path_loop
    lcs_length_with_buffer row_loop column_loop text_eq
keeps_the_moved = refl

lcs_length-IsLcs_example :
    (n : ℕ) × (lcs_length form_path moved_path ≡ some n) × IsLcs form_path moved_path n
lcs_length-IsLcs_example = lcs_length-IsLcs form_path moved_path

narrow_by_path_lcs-filter_example :
    (size : List Text → ℕ) × ((c : List Text) → IsLcs form_path c (size c))
    × (narrow_by_path_lcs (λ p. p) form_path (other_path ∷ moved_path ∷ [])
        ≡ some (
            filter
              (λ c. all (λ c'. leb (size c') (size c)) (other_path ∷ moved_path ∷ []))
              (other_path ∷ moved_path ∷ [])))
narrow_by_path_lcs-filter_example =
    narrow_by_path_lcs-filter (λ p. p) form_path (other_path ∷ moved_path ∷ [])
