-- ===== src/Common/Run.antt =====
-- Runs of code that changes a state: a result with the new state, a C++ exception with the state at
-- the throw, undefined behaviour (`fault`), or a loop that used up its fuel.
use Prim.Native.String.{String}
use mathlib.Core.Path.{◌≡◌, refl}
use mathlib.Core.Bool.{Bool, true, false}

pub data Exception : Type 0 where
  invalid_argument logic_error runtime_error : String → Exception

pub data Run (S A : Type 0) : Type 0 where
  ok : A → S → Run S A
  thrown : Exception → S → Run S A
  fault : Run S A
  out_of_fuel : Run S A

abbrev pub Cmd : Type 0 → Type 0 → Type 0
Cmd S A = S → Run S A

abbrev pub pure : {S A : Type 0} → A → Cmd S A
pure a s = ok a s

abbrev pub throw : {S A : Type 0} → Exception → Cmd S A
throw e s = thrown e s

abbrev pub modify : {S : Type 0} → (S → S) → Cmd S (Unit {0})
modify f s = ok tt (f s)

abbrev pub gets : {S A : Type 0} → (S → A) → Cmd S A
gets f s = ok (f s) s

module _ {S A B : Type 0} where
  abbrev pub and_then : Run S A → (A → Cmd S B) → Run S B
  and_then (ok a s) k = k a s
  and_then (thrown e s) k = thrown e s
  and_then fault k = fault
  and_then out_of_fuel k = out_of_fuel

  infixl 5 ◌>>=◌
  abbrev pub ◌>>=◌ : Cmd S A → (A → Cmd S B) → Cmd S B
  m >>= k = λ s. and_then (m s) k

module _ {S A B : Type 0} where
  infixl 5 ◌>>◌
  abbrev pub ◌>>◌ : Cmd S A → Cmd S B → Cmd S B
  m >> k = λ s. and_then (m s) (λ _. k)

-- `if (test) body`
abbrev pub when : {S : Type 0} → Bool → Cmd S (Unit {0}) → Cmd S (Unit {0})
when true m = m
when false m = pure tt

-- The run ends with a result, and the postcondition holds of it.
abbrev pub Returns : {S A : Type 0} → (A → S → Type 0) → Run S A → Type 0
Returns P (ok a s) = P a s
Returns P (thrown e s) = ⊥
Returns P fault = ⊥
Returns P out_of_fuel = ⊥

-- `m; n; k` read either way.
pub and_then_assoc :
    {S A B C : Type 0} (r : Run S A) (n : Cmd S B) (k : Cmd S C)
    → and_then r (λ _. n >> k) ≡ and_then (and_then r (λ _. n)) (λ _. k)
and_then_assoc (ok a s) n k = refl
and_then_assoc (thrown e s) n k = refl
and_then_assoc fault n k = refl
and_then_assoc out_of_fuel n k = refl

module _ {S A B C : Type 0} (k : B → Cmd S C) where
  pub and_then-and_then :
      (r : Run S A) (f : A → Cmd S B) (g : A → Cmd S C)
      → ((a : A) (s : S) → g a s ≡ and_then (f a s) k)
      → and_then r g ≡ and_then (and_then r f) k
  and_then-and_then (ok a s) f g e = e a s
  and_then-and_then (thrown x s) f g e = refl
  and_then-and_then fault f g e = refl
  and_then-and_then out_of_fuel f g e = refl
