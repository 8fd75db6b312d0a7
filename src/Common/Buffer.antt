-- ===== src/Common/Buffer.antt =====
-- Zero-initialised char buffers that a read fills from the front, and C strings in them.
use Prim.Native.Nat.{ℕ, zero, suc, ◌-◌, ◌≤◌, ◌<◌}
use mathlib.Core.Path.{◌≡◌, refl, ap, ◌∙◌}
use mathlib.Core.Logic.{◌⊎◌, inl, inr}
use mathlib.Core.Bool.{true, false}
use mathlib.Core.Option.{Option, none, some}
use mathlib.Core.List.{[], ◌∷◌, ◌++◌, append-nil}
use native.Mathlib.Omega.{arith}
use ali_middleware.Common.Lists.{length}
use ali_middleware.Common.Tests.{◌==◌, if◌then◌else◌, Bool-cases}
use ali_middleware.Common.Text.{Text, contains}

abbrev pub zeros : ℕ → Text
zeros zero = []
zeros (suc n) = 0 ∷ zeros n

-- `char buf[size]{0}` behind a read of `data`, which is at most `size` bytes long.
abbrev pub filled : ℕ → Text → Text
filled size data_in = data_in ++ zeros (size - length data_in)

-- The C string at the buffer's begin; none where nothing in the buffer ends it.
abbrev pub c_string : Text → Option Text
c_string [] = none
c_string (c ∷ s) =
    let rest = c_string s in
    if c == 0 then some [] else elim rest [ none ↦ none | some t ↦ some (c ∷ t) ]

c_string-append : (s t : Text) → contains 0 s ≡ false → c_string (s ++ 0 ∷ t) ≡ some s
c_string-append [] t e = refl
c_string-append (c ∷ s) t e = elim (Bool-cases (c == 0)) [
  | inl here ↦ cc (rw here at e)
  | inr other ↦ rw (other, c_string-append s t (rw other at e)) refl
]

-- Data that has no zero byte and is shorter than the buffer is read back.
pub c_string-filled :
    (size : ℕ) (s : Text)
    → length s < size
    → contains 0 s ≡ false
    → c_string (filled size s) ≡ some s
c_string-filled size s lt e =
    let k = size - length s - 1 in
    let n : size - length s ≡ suc k = omega arith in
    ap (λ m. c_string (s ++ zeros m)) n ∙ c_string-append s (zeros k) e

unended : (s : Text) → contains 0 s ≡ false → c_string s ≡ none
unended [] e = refl
unended (c ∷ s) e = elim (Bool-cases (c == 0)) [
  | inl here ↦ cc (rw here at e)
  | inr other ↦ rw (other, unended s (rw other at e)) refl
]

-- Data without a zero byte that fills the buffer is not ended by it.
pub c_string-full :
    (size : ℕ) (s : Text) → length s ≡ size → contains 0 s ≡ false → c_string (filled size s) ≡ none
c_string-full size s full e =
    let n : size - length s ≡ 0 = omega (arith, full) in
    ap (λ m. c_string (s ++ zeros m)) n ∙ ap c_string (append-nil s) ∙ unended s e

ended : (s t : Text) → contains 0 s ≡ true → (u : Text) × (c_string (s ++ t) ≡ some u)
ended [] t e = cc
ended (c ∷ s) t e = elim (Bool-cases (c == 0)) [
  | inl here ↦ ([], rw here refl)
  | inr other ↦ let (u, eq) = ended s t (rw other at e) in (c ∷ u, rw (other, eq) refl)
]

-- What a read of at most the buffer's size leaves there: a C string, unless it fills the buffer and
-- has no zero byte.
pub c_string-cases :
    (size : ℕ) (s : Text)
    → length s ≤ size
    → ((t : Text) × (c_string (filled size s) ≡ some t))
      ⊎ ((length s ≡ size) × (contains 0 s ≡ false))
c_string-cases size s le = elim (Bool-cases (contains 0 s)) [
  | inl zero_byte ↦ inl (ended s (zeros (size - length s)) zero_byte)
  | inr text ↦ elim (Bool-cases (length s == size)) [
    | inl full ↦ inr (ground arith, text)
    | inr room ↦ inl (s, c_string-filled size s (ground arith) text)
  ]
]
