-- ===== src/Common/Except.antt =====
-- Results of code that may throw and changes no state.
use mathlib.Core.Logic.{◌⊎◌, inl, inr}
use mathlib.Core.Path.{◌≡◌, refl}
use ali_middleware.Common.Run.{Exception}

pub data Except (A : Type 0) : Type 0 where
  success : A → Except A
  failure : Exception → Except A

infixl 5 ◌>>=◌
abbrev pub ◌>>=◌ : {A B : Type 0} → Except A → (A → Except B) → Except B
success a >>= f = f a
failure e >>= f = failure e

-- Inversion of a successful bind.
pub >>=-eq-success :
    {A B : Type 0} (m : Except A) (f : A → Except B) {b : B}
    → (m >>= f) ≡ success b
    → (a : A) × (m ≡ success a) × (f a ≡ success b)
>>=-eq-success (success a) f h = (a, refl, h)
>>=-eq-success (failure e) f h = cc

pub Except-cases :
    {A : Type 0} (m : Except A) → ((a : A) × (m ≡ success a)) ⊎ ((e : Exception) × (m ≡ failure e))
Except-cases (success a) = inl (a, refl)
Except-cases (failure e) = inr (e, refl)
