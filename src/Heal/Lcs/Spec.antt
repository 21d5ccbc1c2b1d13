-- ===== src/Heal/Lcs/Spec.antt =====
-- Common subsequences of two tag paths, and the length of a longest one: what
-- domain/heal/lcs.go computes.
use healix_core.Prelude.{
  Text, ℕ, ◌+◌, ◌≤◌, ◌≡◌, ◌≢◌, refl, ap, sym, subst, ◌⊎◌, inl, inr, List, [], ◌∷◌, length, arith,
  ◌∙◌,
}

-- `s` is a subsequence of the path: each tag of the path is left out or taken.
abbrev pub Subsequence : List Text → List Text → Type 0
Subsequence s [] = s ≡ []
Subsequence s (x ∷ xs) = Subsequence s xs ⊎ ((s' : List Text) × (s ≡ x ∷ s') × Subsequence s' xs)

-- `n` is the length of a longest common subsequence of `a` and `b`.
abbrev pub IsLcs : List Text → List Text → ℕ → Type 0
IsLcs a b n =
    ((s : List Text) × Subsequence s a × Subsequence s b × (length s ≡ n))
    × ((s : List Text) → Subsequence s a → Subsequence s b → length s ≤ n)

pub Subsequence-nil : (xs : List Text) → Subsequence [] xs
Subsequence-nil [] = refl
Subsequence-nil (x ∷ xs) = inl (Subsequence-nil xs)

pub Subsequence-tail : (x : Text) (s xs : List Text) → Subsequence (x ∷ s) xs → Subsequence s xs
Subsequence-tail x s [] h = cc
Subsequence-tail x s (y ∷ xs) (inl h) = inl (Subsequence-tail x s xs h)
Subsequence-tail x s (y ∷ xs) (inr (s', e, h)) = inl (subst (λ k. Subsequence k xs) (cc) h)

-- The first tags agree.
pub IsLcs-same : (x : Text) (a b : List Text) (n : ℕ) → IsLcs a b n → IsLcs (x ∷ a) (x ∷ b) (n + 1)
IsLcs-same x a b n ((s, p, q, l), most) =
    ((x ∷ s, inr (s, refl, p), inr (s, refl, q), omega arith), bound)
  where
    bound : (t : List Text) → Subsequence t (x ∷ a) → Subsequence t (x ∷ b) → length t ≤ n + 1
    bound t (inl h) (inl k) = omega (arith, most t h k)
    bound t (inl h) (inr (t', e, k)) =
        omega (
          arith,
          most t' (Subsequence-tail x t' a (subst (λ r. Subsequence r a) e h)) k,
          ap length e,
        )
    bound t (inr (t', e, h)) (inl k) =
        omega (
          arith,
          most t' h (Subsequence-tail x t' b (subst (λ r. Subsequence r b) e k)),
          ap length e,
        )
    bound t (inr (t', e, h)) (inr (u, d, k)) =
        omega (arith, most t' h (subst (λ r. Subsequence r b) (cc) k), ap length e)

-- The first tags differ: the better of the two paths that leave one of them out.
pub IsLcs-left :
    (x y : Text) (a b : List Text) (n m : ℕ)
    → x ≢ y
    → IsLcs (x ∷ a) b n
    → IsLcs a (y ∷ b) m
    → m ≤ n
    → IsLcs (x ∷ a) (y ∷ b) n
IsLcs-left x y a b n m ne ((s, p, q, l), most) (_, most') le = ((s, p, inl q, l), bound)
  where
    bound : (t : List Text) → Subsequence t (x ∷ a) → Subsequence t (y ∷ b) → length t ≤ n
    bound t h (inl k) = most t h k
    bound t (inl h) k = omega (arith, most' t h k)
    bound t (inr (t', e, h)) (inr (u, d, k)) = absurd (ne (cc))

pub IsLcs-swap : (a b : List Text) (n : ℕ) → IsLcs a b n → IsLcs b a n
IsLcs-swap a b n ((s, p, q, l), most) = ((s, q, p, l), λ t h k. most t k h)

pub IsLcs-above :
    (x y : Text) (a b : List Text) (n m : ℕ)
    → x ≢ y
    → IsLcs (x ∷ a) b n
    → IsLcs a (y ∷ b) m
    → n ≤ m
    → IsLcs (x ∷ a) (y ∷ b) m
IsLcs-above x y a b n m ne k l le = IsLcs-swap (y ∷ b) (x ∷ a) m (
    IsLcs-left y x b a m n (λ e. ne (sym e)) (IsLcs-swap a (y ∷ b) m l) (IsLcs-swap (x ∷ a) b n k)
      le)

pub IsLcs-nil : (b : List Text) → IsLcs [] b 0
IsLcs-nil b = (([], refl, Subsequence-nil b, refl), λ t h k. omega (arith, ap length h))

pub IsLcs-unique : (a b : List Text) (n m : ℕ) → IsLcs a b n → IsLcs a b m → n ≡ m
IsLcs-unique a b n m ((s, p, q, l), most) ((t, h, k, r), most') =
    omega (arith, most t h k, most' s p q)

-- The loops read the paths from the front, and so build them up in reverse.
abbrev pub rev_onto : List Text → List Text → List Text
rev_onto [] acc = acc
rev_onto (x ∷ xs) acc = rev_onto xs (x ∷ acc)

length-rev_onto : (s t : List Text) → length (rev_onto s t) ≡ length s + length t
length-rev_onto [] t = omega arith
length-rev_onto (x ∷ s) t = length-rev_onto s (x ∷ t) ∙ omega arith

rev_onto-rev_onto : (xs acc : List Text) → rev_onto (rev_onto xs acc) [] ≡ rev_onto acc xs
rev_onto-rev_onto [] acc = refl
rev_onto-rev_onto (x ∷ xs) acc = rev_onto-rev_onto xs (x ∷ acc)

Subsequence-rev_onto :
    (xs s acc t : List Text)
    → Subsequence s xs
    → Subsequence t acc
    → Subsequence (rev_onto s t) (rev_onto xs acc)
Subsequence-rev_onto [] s acc t h k = subst (λ r. Subsequence (rev_onto r t) acc) (sym h) k
Subsequence-rev_onto (x ∷ xs) s acc t (inl h) k = Subsequence-rev_onto xs s (x ∷ acc) t h (inl k)
Subsequence-rev_onto (x ∷ xs) s acc t (inr (s', e, h)) k =
    subst (λ r. Subsequence (rev_onto r t) (rev_onto xs (x ∷ acc))) (sym e)
      (Subsequence-rev_onto xs s' (x ∷ acc) (x ∷ t) h (inr (t, refl, k)))

pub IsLcs-rev_onto :
    (a b : List Text) (n : ℕ) → IsLcs (rev_onto a []) (rev_onto b []) n → IsLcs a b n
IsLcs-rev_onto a b n ((s, p, q, l), most) = (
  (rev_onto s [], turned a s p, turned b s q, omega (arith, length-rev_onto s [])),
  λ t h k. omega (
    arith,
    most (rev_onto t []) (Subsequence-rev_onto a t [] [] h refl)
        (Subsequence-rev_onto b t [] [] k refl),
    length-rev_onto t [],
  ),
)
  where
    turned : (c s : List Text) → Subsequence s (rev_onto c []) → Subsequence (rev_onto s []) c
    turned c s h =
        subst (λ r. Subsequence (rev_onto s []) r) (rev_onto-rev_onto c [])
          (Subsequence-rev_onto (rev_onto c []) s [] [] h refl)
