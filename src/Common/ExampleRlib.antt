-- ===== src/Common/ExampleRlib.antt =====
-- Functions with the laws that the model asks of rlib::string, for concrete runs.
use Prim.Native.Nat.{ℕ, zero, suc, ◌+◌, ◌*◌, ◌/◌, ◌%◌, ◌-◌, ◌<◌, ◌^◌}
use mathlib.Core.Path.{◌≡◌, refl, sym, ap, ◌∙◌}
use mathlib.Core.Logic.{◌≢◌, ◌⊎◌, inl, inr}
use mathlib.Core.Bool.{true, false}
use mathlib.Core.Option.{Option, none, some}
use ali_middleware.Common.Lists.{length}
use mathlib.Core.List.{List, [], ◌∷◌, ◌++◌, append-nil}
use native.Mathlib.Omega.{arith}
use ali_middleware.Common.Run.{runtime_error}
use ali_middleware.Common.Tests.{◌==◌, ltb, if◌then◌else◌, Bool-cases}
use ali_middleware.Common.Text.{Text, contains, contains-append}
use ali_middleware.Common.Except.{Except, success, failure}
use ali_middleware.Common.Rlib.{Rlib, IsParts, join_spec}

abbrev keep : Text → List Text → List Text
keep [] ws = ws
keep (c ∷ w) ws = (c ∷ w) ∷ ws

-- The bytes up to the first divider, and the parts behind it.
abbrev cut : ℕ → Text → Text × List Text
cut d [] = ([], [])
cut d (c ∷ s) =
    let rest = cut d s in if c == d then ([], keep rest.0 rest.1) else (c ∷ rest.0, rest.1)

abbrev pub split : Text → ℕ → List Text
split s d = keep (cut d s).0 (cut d s).1

cut-append :
    (d : ℕ) (s t : Text) → contains d s ≡ false → cut d (s ++ t) ≡ (s ++ (cut d t).0, (cut d t).1)
cut-append d [] t e = refl
cut-append d (c ∷ s) t e = elim (Bool-cases (c == d)) [
  | inl here ↦ cc (rw here at e)
  | inr other ↦ rw (other, cut-append d s t (rw other at e)) refl
]

cut-divider : (d : ℕ) (t : Text) → cut d (d ∷ t) ≡ ([], split t d)
cut-divider d t = rw (let e : (d == d) ≡ true = ground arith in e) refl

pub split-parts :
    (d : ℕ) (s : Text) (ss : List Text)
    → IsParts d (s ∷ ss)
    → split (join_spec d (s ∷ ss)) d ≡ s ∷ ss
split-parts d [] ss (ne, _, _) = absurd (ne refl)
split-parts d (c ∷ s) [] (ne, free, _) =
    let e : cut d (c ∷ s) ≡ (c ∷ s, []) =
      ap (cut d) (sym (append-nil (c ∷ s)))
      ∙ cut-append d (c ∷ s) [] free
      ∙ ap (λ (t : Text). (t, [])) (append-nil (c ∷ s)) in
    ap (λ (r : Text × List Text). keep r.0 r.1) e
split-parts d (c ∷ s) (t ∷ ss) (ne, free, rest) =
    let r =
      cut-append d (c ∷ s) (d ∷ join_spec d (t ∷ ss)) free
      ∙ ap (λ (r : Text × List Text). (c ∷ s ++ r.0, r.1)) (cut-divider d (join_spec d (t ∷ ss)))
      ∙ ap (λ (u : Text). (u, split (join_spec d (t ∷ ss)) d)) (append-nil (c ∷ s)) in
    ap (λ (r : Text × List Text). keep r.0 r.1) r ∙ ap (λ l. (c ∷ s) ∷ l) (split-parts d t ss rest)

-- Is `s` at the beginning of `t`, and what stands behind it?
abbrev strip : Text → Text → Option Text
strip [] t = some t
strip (c ∷ s) [] = none
strip (c ∷ s) (d ∷ t) = if c == d then strip s t else none

-- Replacement with fuel for the bytes of the text.
abbrev replace_on : ℕ → Text → Text → Text → Text
replace_on zero from to s = s
replace_on (suc k) from to [] = []
replace_on (suc k) from to (c ∷ s) =
    let here = replace_on k from to s in
    elim (strip from (c ∷ s)) [ none ↦ c ∷ here | some t ↦ to ++ replace_on k from to t ]

abbrev pub replace : Text → Text → Text → Text
replace s from to = replace_on (length s) from to s

-- Splitting at a text, by a byte that no text has.
abbrev pub split_at : Text → Text → List Text
split_at s d = split (replace s d (256 ∷ [])) 256

abbrev pub join : Text → List Text → Text
join d [] = []
join d (s ∷ []) = s
join d (s ∷ t ∷ ss) = s ++ (d ++ join d (t ∷ ss))

pub join-parts : (d : ℕ) (s : Text) (ss : List Text) → join (d ∷ []) (s ∷ ss) ≡ join_spec d (s ∷ ss)
join-parts d s [] = refl
join-parts d s (t ∷ ss) = ap (λ (u : Text). s ++ d ∷ u) (join-parts d t ss)

-- Decimal digits, most significant first.
abbrev value : ℕ → Text → ℕ
value n [] = n
value n (c ∷ s) = value (n * 10 + (c - 48)) s

abbrev pub as_uint16 : Text → Except ℕ
as_uint16 s =
    if ltb (value 0 s) 65536 then success (value 0 s) else failure (runtime_error "bad conversion")

pub as_uint16-lt : (s : Text) (n : ℕ) → as_uint16 s ≡ success n → n < 2 ^ 16
as_uint16-lt s n e = elim (Bool-cases (ltb (value 0 s) 65536)) [
  | inl lt ↦
      let same : success (value 0 s) ≡ success n = rw lt at e in
      let same' : value 0 s ≡ n = cc in
      let bound : value 0 s < 65536 = ground arith in rw same' at bound
  | inr ge ↦ cc (rw ge at e)
]

-- The digits of a number, with fuel above it.
abbrev digits : ℕ → ℕ → Text
digits zero n = []
digits (suc f) n = (if ltb n 10 then [] else digits f (n / 10)) ++ (48 + n % 10) ∷ []

abbrev pub decimal : ℕ → Text
decimal n = digits (suc n) n

value-append : (n : ℕ) (s t : Text) → value n (s ++ t) ≡ value (value n s) t
value-append n [] t = refl
value-append n (c ∷ s) t = value-append (n * 10 + (c - 48)) s t

value-digits : (f n : ℕ) → n < f → value 0 (digits f n) ≡ n
value-digits zero n lt = absurd (omega arith)
value-digits (suc f) n lt = elim (Bool-cases (ltb n 10)) [
  | inl small ↦ rw small (ground arith)
  | inr big ↦ rw big (
      value-append 0 (digits f (n / 10)) ((48 + n % 10) ∷ [])
      ∙ (let high : value 0 (digits f (n / 10)) ≡ n / 10 = value-digits f (n / 10) (ground arith) in
          rw high (omega arith)))
]

contains-digits : (f n c : ℕ) → (c < 48) ⊎ (57 < c) → contains c (digits f n) ≡ false
contains-digits zero n c h = refl
contains-digits (suc f) n c h =
    let last : contains c ((48 + n % 10) ∷ []) ≡ false = ground arith in
    elim (Bool-cases (ltb n 10)) [
      | inl small ↦ rw small last
      | inr big ↦
          rw big (contains-append c (digits f (n / 10)) _ (contains-digits f (n / 10) c h) last)
    ]

append-ne-nil : (s : Text) (c : ℕ) → s ++ c ∷ [] ≢ []
append-ne-nil [] c e = cc
append-ne-nil (b ∷ s) c e = cc

pub decimal-ne-nil : (n : ℕ) → decimal n ≢ []
decimal-ne-nil n = append-ne-nil (if ltb n 10 then [] else digits n (n / 10)) (48 + n % 10)

pub contains-decimal : (n c : ℕ) → (c < 48) ⊎ (57 < c) → contains c (decimal n) ≡ false
contains-decimal n c h = contains-digits (suc n) n c h

pub as_uint16-decimal : (n : ℕ) → n < 2 ^ 16 → as_uint16 (decimal n) ≡ success n
as_uint16-decimal n lt =
    let v : value 0 (decimal n) ≡ n = value-digits (suc n) n (omega arith) in
    let fits : ltb n 65536 ≡ true = ground arith in
    ap (λ m. if ltb m 65536 then success m else failure (runtime_error "bad conversion")) v
    ∙ rw fits refl

abbrev pub example_rlib : Rlib
example_rlib = record {
  split = split;
  split_at = split_at;
  join = join;
  replace = replace;
  split-nil = λ d. omega arith;
  join-parts = join-parts;
  as_uint16 = as_uint16;
  decimal = decimal;
  decimal-ne-nil = decimal-ne-nil;
  contains-decimal = contains-decimal;
  as_uint16-decimal = as_uint16-decimal;
  split-parts = split-parts;
  as_uint16-lt = as_uint16-lt;
}
