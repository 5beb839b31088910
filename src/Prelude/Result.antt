-- ===== src/Prelude/Result.antt =====
-- The outcome of code that may throw.
use mathlib.Core.Path.{◌≡◌}

infixl 5 ◌>>=◌
-- `throw` ends the call with an exception that nothing in the library catches.
pub data Result {ℓ} (A : Type ℓ) : Type ℓ where
  ok : A → Result A
  throw : Result A

abbrev pub ◌>>=◌ {ℓ κ} : {A : Type ℓ} {B : Type κ} → Result A → (A → Result B) → Result B
ok a >>= f = f a
throw >>= f = throw

-- A step that succeeds hands its value on.
pub >>=-ok {ℓ κ} :
    {A : Type ℓ} {B : Type κ} (m : Result A) (f : A → Result B) {a : A} {r : Result B}
    → m ≡ ok a
    → f a ≡ r
    → (m >>= f) ≡ r
>>=-ok m f e e' = rw e e'
