-- ===== src/Scheduling/Digest/Frame.antt =====
-- What is written to a digest is read back in one way: numbers by their width, texts by the
-- length before them.
use healix_core.Prelude.{
  Text, ℕ, zero, suc, ◌/◌, ◌%◌, ◌^◌, ◌<◌, ℤ, pos, negsuc, ◌≡◌, refl, ap, sym, ◌∙◌, List, [], ◌∷◌,
  ◌++◌, length, length-append, arith, All,
}
use healix_core.Scheduling.Digest.{
  put_big_endian, uint64, write_digest_uint64, write_digest_string, write_members, written,
}

pub append-split :
    (a b : Text) {c d : Text} → length a ≡ length b → a ++ c ≡ b ++ d → (a ≡ b) × (c ≡ d)
append-split [] [] l e = (refl, e)
append-split [] (y ∷ b) l e = absurd (omega arith)
append-split (x ∷ a) [] l e = absurd (omega arith)
append-split (x ∷ a) (y ∷ b) l e =
    let (same, rest) =
      append-split a b (omega arith) (ap (λ w. elim w [ [] ↦ [] | _ ∷ t ↦ t ]) e) in
    (cc, rest)

-- A number that `width` bytes hold.
abbrev Fits : ℕ → ℕ → Type 0
Fits zero value = value ≡ 0
Fits (suc width) value = Fits width (value / 256)

length-put_big_endian : (width value : ℕ) → length (put_big_endian width value) ≡ width
unfolding put_big_endian
length-put_big_endian zero value = refl
length-put_big_endian (suc width) value =
    length-append (put_big_endian width (value / 256)) (value % 256 ∷ [])
    ∙ omega (arith, length-put_big_endian width (value / 256))

put_big_endian_injective :
    (width n m : ℕ)
    → Fits width n
    → Fits width m
    → put_big_endian width n ≡ put_big_endian width m
    → n ≡ m
unfolding put_big_endian
put_big_endian_injective zero n m p q e = omega arith
put_big_endian_injective (suc width) n m p q e =
    let (same, last) =
      append-split (put_big_endian width (n / 256)) (put_big_endian width (m / 256))
        (length-put_big_endian width (n / 256) ∙ sym (length-put_big_endian width (m / 256))) e in
    let quotient = put_big_endian_injective width (n / 256) (m / 256) p q same in
    let low : n % 256 ≡ m % 256 = cc in omega arith

uint64-Fits : (n : ℕ) → n < 2 ^ 64 → Fits 8 n
uint64-Fits n h = omega arith

pub write_digest_uint64-split :
    (n m : ℕ) {a b : Text}
    → n < 2 ^ 64
    → m < 2 ^ 64
    → write_digest_uint64 n ++ a ≡ write_digest_uint64 m ++ b
    → (n ≡ m) × (a ≡ b)
unfolding write_digest_uint64
write_digest_uint64-split n m p q e =
    let (same, rest) =
      append-split (put_big_endian 8 n) (put_big_endian 8 m)
        (length-put_big_endian 8 n ∙ sym (length-put_big_endian 8 m)) e in
    (put_big_endian_injective 8 n m (uint64-Fits n p) (uint64-Fits m q) same, rest)

uint64-pos : (n : ℕ) → n < 2 ^ 64 → uint64 (pos n) ≡ n
unfolding uint64
uint64-pos n h = omega arith

uint64-below : (z : ℤ) → uint64 z < 2 ^ 64
unfolding uint64
uint64-below (pos n) = omega arith
uint64-below (negsuc n) = omega arith

-- An `int64`
abbrev pub IsInt64 : ℤ → Type 0
IsInt64 (pos n) = n < 2 ^ 63
IsInt64 (negsuc n) = n < 2 ^ 63

uint64_injective : (a b : ℤ) → IsInt64 a → IsInt64 b → uint64 a ≡ uint64 b → a ≡ b
unfolding uint64
uint64_injective (pos n) (pos m) p q e = ap pos (omega arith)
uint64_injective (pos n) (negsuc m) p q e = absurd (omega arith)
uint64_injective (negsuc n) (pos m) p q e = absurd (omega arith)
uint64_injective (negsuc n) (negsuc m) p q e = ap negsuc (omega arith)

pub write_int64-split :
    (x y : ℤ) {a b : Text}
    → IsInt64 x
    → IsInt64 y
    → write_digest_uint64 (uint64 x) ++ a ≡ write_digest_uint64 (uint64 y) ++ b
    → (x ≡ y) × (a ≡ b)
write_int64-split x y p q e =
    let (same, rest) =
      write_digest_uint64-split (uint64 x) (uint64 y) (uint64-below x) (uint64-below y) e in
    (uint64_injective x y p q same, rest)

-- A text whose length is an `int`
abbrev pub IsString : Text → Type 0
IsString s = length s < 2 ^ 63

abbrev pub to_nat : ℤ → ℕ
to_nat (pos n) = n
to_nat (negsuc n) = n

append_assoc : (a b c : Text) → a ++ b ++ c ≡ a ++ (b ++ c)
append_assoc [] b c = refl
append_assoc (x ∷ a) b c = ap (λ w. x ∷ w) (append_assoc a b c)

pub write_digest_string-split :
    (s t : Text) {a b : Text}
    → IsString s
    → IsString t
    → write_digest_string s ++ a ≡ write_digest_string t ++ b
    → (s ≡ t) × (a ≡ b)
unfolding write_digest_string
write_digest_string-split s t {a = a} {b = b} p q e =
    let framed =
      sym (append_assoc (write_digest_uint64 (uint64 (pos (length s)))) s a)
      ∙ e
      ∙ append_assoc (write_digest_uint64 (uint64 (pos (length t)))) t b in
    let (lengths, rest) =
      write_int64-split (pos (length s)) (pos (length t)) {a = s ++ a} {b = t ++ b} p q framed in
    append-split s t (ap to_nat lengths) rest

pub write_members-split :
    (ids others : List Text)
    → All IsString ids
    → All IsString others
    → length ids ≡ length others
    → written (write_members ids) ≡ written (write_members others)
    → ids ≡ others
unfolding write_members written
write_members-split [] [] p q l e = refl
write_members-split [] (y ∷ others) p q l e = absurd (omega arith)
write_members-split (x ∷ ids) [] p q l e = absurd (omega arith)
write_members-split (x ∷ ids) (y ∷ others) p q l e =
    let (same, more) = write_digest_string-split x y (p.0) (q.0) e in
    let rest = write_members-split ids others (p.1) (q.1) (omega arith) more in cc
