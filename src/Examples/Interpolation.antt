-- ===== src/Examples/Interpolation.antt =====
-- Templates and their expansion (domain/interpolation/variables.go).
use healix_core.Prelude.{
  Text, ◌≤◌, ◌≡◌, ◌≢◌, refl, ◌↔◌, ◌⊎◌, List, [], ◌∷◌, map, Option, none, some, Result, ok, err,
  codes, length, text_eq, is_trimmed, if◌then◌else◌,
}
use healix_core.Interpolation.{
  ExpandError, expression_invalid, max_expansion_bytes, index_open, index_close, contains_reserved,
  validate_name, names_loop, names, write, write_both, expand_name, expand_loop, expand,
}
use healix_core.Interpolation.Template.{Template, IsTemplate, render, names_iff}
use healix_core.Interpolation.Expansion.{substitute, expand_iff}
use healix_core.Interpolation.Termination.{interpolation_returns}

abbrev host : Text → Option Text
host name = if text_eq name (codes "host") then some (codes "example.org") else none

reads_names : names (codes "a${host}b${id}") ≡ some (ok (codes "host" ∷ codes "id" ∷ []))
unfolding names names_loop index_open index_close validate_name contains_reserved is_trimmed
reads_names = refl

expands : expand (codes "http://${host}/x") (some host) ≡ some (ok (codes "http://example.org/x"))
unfolding expand expand_loop expand_name write_both write index_open index_close validate_name
    contains_reserved is_trimmed text_eq
expands = refl

refuses_space : expand (codes "${ host}") (some host) ≡ some (err expression_invalid)
unfolding expand expand_loop expand_name write_both write index_open index_close validate_name
    contains_reserved is_trimmed
refuses_space = refl

names_iff_example : (names (codes "a${host}") ≡ some (ok (codes "host" ∷ []))) ↔ (
    (t : Template) × IsTemplate t
    × (render t ≡ codes "a${host}")
    × (codes "host" ∷ [] ≡ map (λ p. p.name) t.pieces))
names_iff_example = names_iff (codes "a${host}") (codes "host" ∷ [])

expand_iff_example : (expand (codes "${host}!") (some host) ≡ some (ok (codes "example.org!"))) ↔ (
    ((index_open (codes "${host}!") ≡ none) × (codes "example.org!" ≡ codes "${host}!"))
    ⊎ ((index_open (codes "${host}!") ≢ none)
        × ((t : Template) × IsTemplate t
            × (render t ≡ codes "${host}!")
            × (substitute host t.pieces t.ending ≡ some (codes "example.org!"))
            × (length (codes "example.org!") ≤ max_expansion_bytes))))
expand_iff_example = expand_iff (codes "${host}!") (codes "example.org!") host

interpolation_returns_example :
    ((r : Result ExpandError (List Text)) × (names (codes "${host}${") ≡ some r))
    × ((r : Result ExpandError Text) × (expand (codes "${host}${") (some host) ≡ some r))
interpolation_returns_example = interpolation_returns (codes "${host}${") (some host)
