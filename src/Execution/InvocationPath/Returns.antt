-- ===== src/Execution/InvocationPath/Returns.antt =====
-- The validation of an invocation path returns within its fuel.
use healix_core.Prelude.{
  Text, ℕ, zero, suc, ◌+◌, ◌≤◌, ◌<◌, ◌≡◌, ◌≢◌, ap, Bool-cases, Option-cases, [], ◌∷◌, some, ◌==◌,
  length, drop, is_empty, arith, inl, inr,
}
use healix_core.Execution.InvocationPath.{
  PathOutcome, out_of_fuel, next_segment, split_byte, segment_length, read_step, segments_loop,
  validate_invocation_path,
}

length-split_byte :
    (byte : ℕ) (text before after : Text)
    → split_byte byte text ≡ some (before, after)
    → length after < length text
unfolding split_byte
length-split_byte byte [] before after e = cc
length-split_byte byte (c ∷ rest) before after e = elim (Bool-cases (c == byte)) [
  | inl q ↦ let same : rest ≡ after = ground (arith, q, e) in omega (arith, ap length same)
  | inr q ↦ elim (Option-cases (split_byte byte rest)) [
    | inl s ↦ ground (arith, q, s, e)
    | inr ((front, back), s) ↦
        let same : back ≡ after = ground (arith, q, s, e) in
        omega (arith, ap length same, length-split_byte byte rest front back s)
  ]
]

length-drop : (n : ℕ) (text : Text) → length (drop n text) ≤ length text
length-drop zero text = omega arith
length-drop (suc n) [] = omega arith
length-drop (suc n) (c ∷ rest) = omega (arith, length-drop n rest)

next_segment-returns :
    (loop : ℕ → Text → PathOutcome) (position : ℕ) (left after : Text)
    → length left ≤ length after
    → ((p : ℕ) (rest : Text) → length rest < length after → loop p rest ≢ out_of_fuel)
    → next_segment loop position left ≢ out_of_fuel
next_segment-returns loop position [] after h returns e = cc
next_segment-returns loop position (c ∷ rest) after h returns e = elim (Bool-cases (c == 47)) [
  | inl q ↦ returns (position + 1) rest (omega arith) (ground (arith, q, e))
  | inr q ↦ ground (arith, q, e)
]

read_step-returns :
    (loop : ℕ → Text → PathOutcome) (start size : ℕ) (after : Text)
    → ((position : ℕ) (rest : Text) → length rest < length after → loop position rest ≢ out_of_fuel)
    → read_step loop start size after ≢ out_of_fuel
unfolding read_step
read_step-returns loop start size after returns e = ground (
  arith,
  e,
  next_segment-returns loop (start + size) (drop size after) after (length-drop size after) returns,
)

segments_loop-returns :
    (fuel position : ℕ) (remaining : Text)
    → length remaining < fuel
    → segments_loop fuel position remaining ≢ out_of_fuel
unfolding segments_loop
segments_loop-returns zero position remaining h e = absurd (omega arith)
segments_loop-returns (suc fuel) position remaining h e =
    elim (Option-cases (split_byte 58 remaining)) [
      | inl s ↦ ground (arith, s, e)
      | inr ((digits, after), s) ↦ elim (Bool-cases (is_empty digits)) [
        | inl q ↦ ground (arith, s, q, e)
        | inr q ↦ elim (Option-cases (segment_length digits)) [
          | inl n ↦ ground (arith, s, q, n, e)
          | inr (size, n) ↦
              let shorter = length-split_byte 58 remaining digits after s in
              read_step-returns (segments_loop fuel) (position + length digits + 1) size after
                (λ p rest l. segments_loop-returns fuel p rest (omega (arith, l, shorter)))
                (ground (arith, s, q, n, e))
        ]
      ]
    ]

-- The validation of an invocation path returns: it accepts, refuses or panics within its fuel.
pub validate_invocation_path-returns : (value : Text) → validate_invocation_path value ≢ out_of_fuel
unfolding validate_invocation_path
validate_invocation_path-returns value e = elim (Option-cases (split_byte 47 value)) [
  | inl s ↦ ground (arith, s, e)
  | inr ((root, rest), s) ↦ ground (
    arith,
    s,
    e,
    segments_loop-returns (length value) (length root + 1) rest
        (length-split_byte 47 value root rest s),
  )
]
