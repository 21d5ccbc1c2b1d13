-- ===== src/Prelude/Fallible.antt =====
-- A Go result `(value, error)`, of which the callers read one half: a value, or an error.
use mathlib.Core.Path.{◌≡◌, refl}
use mathlib.Core.Logic.{◌⊎◌, inl, inr}
use mathlib.Core.Bool.{Bool, true, false}

pub data Result {ℓ κ} (E : Type κ) (A : Type ℓ) : Type (ℓ ⊔ κ) where
  ok : A → Result E A
  err : E → Result E A

infixl 5 ◌>>=◌ ◌>>◌
abbrev pub ◌>>=◌ {ℓ κ ι} :
    {E : Type κ} {A : Type ℓ} {B : Type ι} → Result E A → (A → Result E B) → Result E B
ok a >>= f = f a
err e >>= f = err e

abbrev pub ◌>>◌ {ℓ κ} : {E : Type κ} {B : Type ℓ} → Result E (Unit {0}) → Result E B → Result E B
m >> k = m >>= λ _. k

-- `if !holds { return err }`
abbrev pub require {κ} : {E : Type κ} → Bool → E → Result E (Unit {0})
require true e = ok tt
require false e = err e

-- `if fails { return err }`
abbrev pub reject {κ} : {E : Type κ} → Bool → E → Result E (Unit {0})
reject true e = err e
reject false e = ok tt

-- Both calls of a chain that succeeded have done so.
pub >>=-eq-ok {ℓ κ ι} :
    {E : Type κ} {A : Type ℓ} {B : Type ι} (first : Result E A) (next : A → Result E B) {last : B}
    → (first >>= next) ≡ ok last
    → (mid : A) × (first ≡ ok mid) × (next mid ≡ ok last)
>>=-eq-ok (err _) next e = cc
>>=-eq-ok (ok mid) next e = (mid, refl, e)

pub Result-cases {ℓ κ} :
    {E : Type κ} {A : Type ℓ} (r : Result E A) → ((a : A) × (r ≡ ok a)) ⊎ ((e : E) × (r ≡ err e))
Result-cases (ok a) = inl (a, refl)
Result-cases (err e) = inr (e, refl)

pub ok_injective {ℓ κ} :
    {E : Type κ} {A : Type ℓ} {a b : A} → ◌≡◌ {A = Result E A} (ok a) (ok b) → a ≡ b
ok_injective h = cc

module _ {ℓ κ} {E : Type κ} {A : Type ℓ} where
  pub require-eq-ok :
      (b : Bool) (e : E) {k : Result E A} {a : A}
      → (require b e >> k) ≡ ok a
      → (b ≡ true) × (k ≡ ok a)
  require-eq-ok true e h = (refl, h)
  require-eq-ok false e h = cc

  pub reject-eq-ok :
      (b : Bool) (e : E) {k : Result E A} {a : A}
      → (reject b e >> k) ≡ ok a
      → (b ≡ false) × (k ≡ ok a)
  reject-eq-ok true e h = cc
  reject-eq-ok false e h = (refl, h)
