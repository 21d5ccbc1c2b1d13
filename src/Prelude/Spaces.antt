-- ===== src/Prelude/Spaces.antt =====
-- Go's `strings.TrimSpace` and `len` on byte strings: the white space of `unicode.IsSpace` in its
-- UTF-8 form (U+0009-000D, 0020, 0085, 00A0, 1680, 2000-200A, 2028, 2029, 202F, 205F, 3000).
use Prim.Native.Nat.{ℕ, zero, suc}
use mathlib.Core.Bool.{Bool, ◌&&◌, ◌||◌}
use mathlib.Core.List.{[], ◌∷◌, reverse}
use healix_core.Prelude.Tests.{◌==◌, leb, if◌then◌else◌}
use healix_core.Prelude.Lists.{Text, length, drop, text_eq, is_empty}

unfoldable pub ascii_space : ℕ → Bool
ascii_space a = (leb 9 a && leb a 13) || a == 32

two_space : ℕ → ℕ → Bool
two_space a b = a == 0xC2 && (b == 0x85 || b == 0xA0)

three_space : ℕ → ℕ → ℕ → Bool
three_space a b c =
    (a == 0xE1 && b == 0x9A && c == 0x80)
    || (a == 0xE2
        && ((b == 0x80 && ((leb 0x80 c && leb c 0x8A) || c == 0xA8 || c == 0xA9 || c == 0xAF))
            || (b == 0x81 && c == 0x9F)))
    || (a == 0xE3 && b == 0x80 && c == 0x80)

-- The bytes of the white space rune that the text begins with; 0 where there is none.
lead_width : Text → ℕ
unfolding ascii_space two_space three_space
lead_width [] = 0
lead_width (a ∷ []) = if ascii_space a then 1 else 0
lead_width (a ∷ b ∷ []) = if ascii_space a then 1 else if two_space a b then 2 else 0
lead_width (a ∷ b ∷ c ∷ _) =
    if ascii_space a then 1 else if two_space a b then 2 else if three_space a b c then 3 else 0

-- The same for the end of a text that is given reversed.
last_width : Text → ℕ
unfolding ascii_space two_space three_space
last_width [] = 0
last_width (c ∷ []) = if ascii_space c then 1 else 0
last_width (c ∷ b ∷ []) = if ascii_space c then 1 else if two_space b c then 2 else 0
last_width (c ∷ b ∷ a ∷ _) =
    if ascii_space c then 1 else if two_space b c then 2 else if three_space a b c then 3 else 0

-- Drops runes while the width is not 0; each round drops a byte or more.
trim_while : (Text → ℕ) → ℕ → Text → Text
trim_while width zero s = s
trim_while width (suc fuel) s =
    let rest = trim_while width fuel (drop (width s) s) in if width s == 0 then s else rest

unfoldable pub trim_space : Text → Text
unfolding trim_while lead_width last_width
trim_space s =
    let front = trim_while lead_width (length s) s in
    reverse (trim_while last_width (length front) (reverse front))

-- `strings.TrimSpace(s) == ""`
unfoldable pub is_blank : Text → Bool
unfolding trim_space
is_blank s = is_empty (trim_space s)

-- `strings.TrimSpace(s) == s`
unfoldable pub is_trimmed : Text → Bool
unfolding trim_space text_eq
is_trimmed s = text_eq (trim_space s) s
