-- ===== src/Interpolation.antt =====
-- domain/interpolation/variables.go: `${name}` expressions in a template of bytes. The two loops
-- run on fuel; `none` means that it ran out.
pub mod Scan
pub mod Template
pub mod Expansion
pub mod Termination
use healix_core.Prelude.{
  Text, ℕ, zero, suc, ◌+◌, ◌-◌, ◌^◌, Bool, true, false, not, ◌&&◌, ◌||◌, List, [], ◌∷◌, ◌++◌,
  Option, none, some, ltb, ◌==◌, if◌then◌else◌, length, take, drop, is_empty, is_trimmed, Result,
  ok, err, reject, ◌>>=◌, ◌>>◌,
}

pub data ExpandError : Type 0 where
  resolver_required expression_invalid variable_undefined expansion_too_large : ExpandError

abbrev pub max_expansion_bytes : ℕ
max_expansion_bytes = 2 ^ 20

abbrev shift : Option ℕ → Option ℕ
shift none = none
shift (some i) = some (suc i)

abbrev pub begins_with_brace : Text → Bool
begins_with_brace [] = false
begins_with_brace (b ∷ _) = b == b'{'

-- `strings.Index(s, "${")`, with `none` for -1
unfoldable pub index_open : Text → Option ℕ
index_open [] = none
index_open (a ∷ rest) =
    if a == b'$' && begins_with_brace rest then some 0 else shift (index_open rest)

-- `strings.Index(s, "}")`
unfoldable pub index_close : Text → Option ℕ
index_close [] = none
index_close (a ∷ rest) = if a == b'}' then some 0 else shift (index_close rest)

-- `s[i:j]`
abbrev pub slice : ℕ → ℕ → Text → Text
slice i j s = take (j - i) (drop i s)

-- One of the bytes of "\t\r\n {}$".
abbrev pub is_reserved : ℕ → Bool
is_reserved c = c == 9 || c == 13 || c == 10 || c == 32 || c == b'{' || c == b'}' || c == b'$'

unfoldable pub contains_reserved : Text → Bool
contains_reserved [] = false
contains_reserved (c ∷ rest) = is_reserved c || contains_reserved rest

unfoldable pub validate_name : Text → Result ExpandError (Unit {0})
validate_name name =
    reject (is_empty name || not (is_trimmed name) || contains_reserved name) expression_invalid

-- The loop of `Names`; `names` holds what was appended so far.
unfoldable pub names_loop : ℕ → List Text → Text → Option (Result ExpandError (List Text))
names_loop zero names rest = none
names_loop (suc fuel) names rest = elim (index_open rest) [
  | none ↦ some (ok names)
  | some start ↦ elim (index_close (drop start rest)) [
    | none ↦ some (err expression_invalid)
    | some end ↦
        let name = slice (start + 2) (start + end) rest in
        let next = names_loop fuel (names ++ name ∷ []) (drop (start + end + 1) rest) in
        elim (validate_name name) [ err e ↦ some (err e) | ok _ ↦ next ]
  ]
]

unfoldable pub names : Text → Option (Result ExpandError (List Text))
names value = elim (index_open value) [
  | none ↦ some (ok [])
  | some _ ↦ names_loop (suc (length value)) [] value
]

-- `write(chunk)`: what is left of the budget, and the output; `none` where the budget is short.
unfoldable pub write : Text → ℕ × Text → Option (ℕ × Text)
write chunk (remaining, out) =
    if ltb remaining (length chunk) then none else some (remaining - length chunk, out ++ chunk)

-- `!write(a) || !write(b)`
unfoldable pub write_both : Text → Text → ℕ × Text → Option (ℕ × Text)
write_both a b state = elim (write a state) [ none ↦ none | some state' ↦ write b state' ]

abbrev or_fail {ℓ} : {A : Type ℓ} → Option A → ExpandError → Result ExpandError A
or_fail none e = err e
or_fail (some a) e = ok a

-- One expression of `Expand`: its name, and the text in front of it.
unfoldable pub expand_name :
    (Text → Option Text) → ℕ × Text → Text → Text → Result ExpandError (ℕ × Text)
expand_name variable state name front = do
  validate_name name
  resolved ← or_fail (variable name) variable_undefined
  or_fail (write_both front resolved state) expansion_too_large

-- The loop of `Expand`.
unfoldable pub expand_loop :
    ℕ → (Text → Option Text) → ℕ × Text → Text → Option (Result ExpandError Text)
expand_loop zero variable state rest = none
expand_loop (suc fuel) variable state rest = elim (index_open rest) [
  | none ↦ elim (write rest state) [
    | none ↦ some (err expansion_too_large)
    | some s ↦ some (ok s.1)
  ]
  | some start ↦ elim (index_close (drop start rest)) [
    | none ↦ some (err expression_invalid)
    | some end ↦
        elim (expand_name variable state (slice (start + 2) (start + end) rest) (take start rest)) [
          | err e ↦ some (err e)
          | ok state' ↦ expand_loop fuel variable state' (drop (start + end + 1) rest)
        ]
  ]
]

-- The resolver is a port of the host; a nil interface is `none`.
unfoldable pub expand : Text → Option (Text → Option Text) → Option (Result ExpandError Text)
expand value resolver = elim (index_open value) [
  | none ↦ some (ok value)
  | some _ ↦ elim resolver [
    | none ↦ some (err resolver_required)
    | some variable ↦ expand_loop (suc (length value)) variable (max_expansion_bytes, []) value
  ]
]
