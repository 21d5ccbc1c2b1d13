-- ===== src/Prelude/Int.antt =====
-- Signed machine integers as ℤ: the tests of Go's `int` and `int64`. `negsuc n` is -(n + 1).
use Prim.Native.Nat.{ℕ}
use mathlib.Core.Bool.{Bool, true, false, not}
use mathlib.Core.Path.{◌≡◌}
use native.Mathlib.Omega.{arith}
use healix_core.Prelude.Tests.{ltb, leb, ◌==◌}

pub data ℤ : Type 0 where
  pos : ℕ → ℤ
  negsuc : ℕ → ℤ

abbrev pub lebℤ : ℤ → ℤ → Bool
lebℤ (pos a) (pos b) = leb a b
lebℤ (pos a) (negsuc b) = false
lebℤ (negsuc a) (pos b) = true
lebℤ (negsuc a) (negsuc b) = leb b a

abbrev pub ltbℤ : ℤ → ℤ → Bool
ltbℤ (pos a) (pos b) = ltb a b
ltbℤ (pos a) (negsuc b) = false
ltbℤ (negsuc a) (pos b) = true
ltbℤ (negsuc a) (negsuc b) = ltb b a

abbrev pub is_zero : ℤ → Bool
is_zero (pos n) = n == 0
is_zero (negsuc n) = false

pub lebℤ_trans : (a b c : ℤ) → lebℤ a b ≡ true → lebℤ b c ≡ true → lebℤ a c ≡ true
lebℤ_trans a b c p q = ground arith

pub ltbℤ-lebℤ : (a b : ℤ) → ltbℤ a b ≡ not (lebℤ b a)
ltbℤ-lebℤ a b = ground arith

pub lebℤ_total : (a b : ℤ) → lebℤ a b ≡ false → lebℤ b a ≡ true
lebℤ_total a b h = ground arith

pub lebℤ_refl : (a : ℤ) → lebℤ a a ≡ true
lebℤ_refl a = ground arith

pub zero-lebℤ : (a b : ℤ) → is_zero a ≡ true → lebℤ b a ≡ true → lebℤ b (pos 0) ≡ true
zero-lebℤ a b p q = ground arith

pub lebℤ_antisymm : (a b : ℤ) → lebℤ a b ≡ true → lebℤ b a ≡ true → a ≡ b
lebℤ_antisymm a b p q = ground arith
