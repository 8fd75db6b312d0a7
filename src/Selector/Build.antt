-- ===== src/Selector/Build.antt =====
-- What the constructor of `provider_selector` (src/provider_selector.hpp) sets up.
use ali_middleware.Common.{
  All, ℕ, zero, suc, ◌+◌, ◌≤◌, ◌<◌, ◌≡◌, refl, sym, ◌∙◌, ap, inl, inr, false, none, some, List, [],
  ◌∷◌, arith, length, get_elem?, ◌==◌, if◌then◌else◌, Bool-cases, Option-cases,
}
use ali_middleware.Common.Except.{Except, success, >>=-eq-success}
use ali_middleware.Common.Rlib.{Rlib}
use ali_middleware.Common.Text.{Text, is_empty}
use ali_middleware.Selector.{
  ProviderInfo, Selector, weight, repeated, fill_queue, load_providers, add_provider,
  check_nonempty, new_provider, new_selector,
}

-- How often an index stands in the queue.
abbrev pub count : ℕ → List ℕ → ℕ
count j [] = 0
count j (i ∷ is) = if i == j then suc (count j is) else count j is

abbrev pub InRange : ℕ → ℕ → List ℕ → Type 0
InRange a b = All (λ i. (a ≤ i) × (i < b))

-- The queue gives each provider from index `i` on its weight, and names no other.
abbrev pub Weighs : ℕ → List ProviderInfo → List ℕ → Type 0
Weighs i ps q =
    (j : ℕ) (p : ProviderInfo)
    → get_elem? ps j ≡ some p
    → weight p.hostname ≡ some (count (i + j) q)

count-repeated_self : (n i : ℕ) (q : List ℕ) → count i (repeated n i q) ≡ n + count i q
count-repeated_self zero i q = omega arith
count-repeated_self (suc n) i q = ground (arith, count-repeated_self n i q)

count-repeated_ne :
    (n i j : ℕ) (q : List ℕ) → (i == j) ≡ false → count j (repeated n i q) ≡ count j q
count-repeated_ne zero i j q ne = refl
count-repeated_ne (suc n) i j q ne = ground (arith, count-repeated_ne n i j q)

count_outside : (a b j : ℕ) (q : List ℕ) → InRange a b q → j < a → count j q ≡ 0
count_outside a b j [] r lt = refl
count_outside a b j (i ∷ q) r lt = ground (arith, count_outside a b j q)

InRange-repeated :
    (n i a b : ℕ) (q : List ℕ) → a ≤ i → i < b → InRange a b q → InRange a b (repeated n i q)
InRange-repeated zero i a b q lo hi r = r
InRange-repeated (suc n) i a b q lo hi r = ((lo, hi), InRange-repeated n i a b q lo hi r)

InRange-mono : (a a' b : ℕ) (q : List ℕ) → a' ≤ a → InRange a b q → InRange a' b q
InRange-mono a a' b [] le r = tt
InRange-mono a a' b (i ∷ q) le ((lo, hi), r) = ((omega arith, hi), InRange-mono a a' b q le r)

length-repeated : (n i : ℕ) (q : List ℕ) → length (repeated n i q) ≡ n + length q
length-repeated zero i q = omega arith
length-repeated (suc n) i q = omega (arith, length-repeated n i q)

weight-pos : (host : Text) (n : ℕ) → weight host ≡ some n → 0 < n
unfolding weight
weight-pos host n e = ground arith

Weighs-cons :
    (i n : ℕ) (p : ProviderInfo) (ps : List ProviderInfo) (q : List ℕ)
    → weight p.hostname ≡ some n
    → InRange (suc i) (suc i + length ps) q
    → Weighs (suc i) ps q
    → Weighs i (p ∷ ps) (repeated n i q)
Weighs-cons i n p ps q w r rest zero p' at =
    let same : p ≡ p' = cc in
    let here : count (i + 0) (repeated n i q) ≡ n =
      ap (λ k. count k (repeated n i q)) (omega arith)
      ∙ count-repeated_self n i q
      ∙ omega (arith, count_outside (suc i) (suc i + length ps) i q r (omega arith)) in
    ap (λ (x : ProviderInfo). weight x.hostname) (sym same) ∙ w ∙ ap some (sym here)
Weighs-cons i n p ps q w r rest (suc j) p' at =
    let there : count (i + suc j) (repeated n i q) ≡ count (suc i + j) q =
      count-repeated_ne n i (i + suc j) q (ground arith) ∙ ap (λ k. count k q) (omega arith) in
    rest j p' at ∙ ap some (sym there)

-- A queue over the providers: its entries name them, and each as often as its weight says.
abbrev pub IsQueue : ℕ → List ProviderInfo → List ℕ → Type 0
IsQueue i ps q = InRange i (i + length ps) q × Weighs i ps q × (length ps ≤ length q)

IsQueue-cons :
    (i n : ℕ) (p : ProviderInfo) (ps : List ProviderInfo) (q : List ℕ)
    → weight p.hostname ≡ some n
    → IsQueue (suc i) ps q
    → IsQueue i (p ∷ ps) (repeated n i q)
IsQueue-cons i n p ps q w (r, rest, size) =
    let b = suc i + length ps in
    let pos = weight-pos p.hostname n w in
    (
      rw (let eq : i + suc (length ps) ≡ b = omega arith in eq) (
          InRange-repeated n i i b q (omega arith) (omega arith)
            (InRange-mono (suc i) i b q (omega arith) r)),
      Weighs-cons i n p ps q w r rest,
      omega (arith, length-repeated n i q),
    )

fill_queue-IsQueue :
    (i : ℕ) (ps : List ProviderInfo) (q : List ℕ) → fill_queue i ps ≡ success q → IsQueue i ps q
unfolding fill_queue
fill_queue-IsQueue i [] q e = let nil : q ≡ [] = cc in rw nil (tt, λ j p at. cc, omega arith)
fill_queue-IsQueue i (p ∷ ps) q e = elim (Option-cases (weight p.hostname)) [
  | inl none_w ↦ cc (rw (none_w, fill_queue) at e)
  | inr (n, some_w) ↦
      let (rest, e₁, e₂) =
        >>=-eq-success (fill_queue (suc i) ps) _ (rw (some_w, fill_queue) at e) in
      let same : q ≡ repeated n i rest = cc (e₂) in
      rw same (IsQueue-cons i n p ps rest some_w (fill_queue-IsQueue (suc i) ps rest e₁))
]

-- Nobody has raised a provider's pool latency.
abbrev pub IsIdle : List ProviderInfo → Type 0
IsIdle = All (λ p. p.connpool_latency ≡ 1)

-- A selector as the constructor makes it.
pub record IsFresh (s : Selector) : Type 0 where
  pub queue : IsQueue 0 s.providers s.robin_queue
  pub some_provider : 0 < length s.providers
  pub idle : IsIdle s.providers
  pub curr : s.curr ≡ none

pub names_of : (s : Selector) → IsFresh s → InRange 0 (length s.providers) s.robin_queue
names_of s fresh =
    rw (let z : length s.providers ≡ 0 + length s.providers = omega arith in z) fresh.queue.0

module _ (rlib : Rlib) (connect : Text → ℕ → Except (Unit {0})) where
  add_provider-idle :
      (parts : List Text) (p : ProviderInfo)
      → add_provider rlib connect parts ≡ success p
      → p.connpool_latency ≡ 1
  unfolding add_provider new_provider
  add_provider-idle [] p e = cc
  add_provider-idle (a ∷ []) p e = cc
  add_provider-idle (a ∷ b ∷ []) p e =
      let (n, e₁, e₂) = >>=-eq-success (rlib.as_uint16 b) _ e in
      let (u, e₃, e₄) = >>=-eq-success (connect a n) _ e₂ in
      let same : new_provider a n ≡ p = cc (e₄) in
      ap (λ (x : ProviderInfo). x.connpool_latency) (sym same)
  add_provider-idle (a ∷ b ∷ c ∷ rest) p e = cc

  load_providers-IsIdle :
      (addrs : List Text) (ps : List ProviderInfo)
      → load_providers rlib connect addrs ≡ success ps
      → IsIdle ps
  unfolding load_providers
  load_providers-IsIdle [] ps e = let nil : ps ≡ [] = cc in rw nil tt
  load_providers-IsIdle (addr ∷ addrs) ps e = elim (Bool-cases (is_empty addr)) [
    | inl skip ↦ load_providers-IsIdle addrs ps (rw skip at e)
    | inr use_it ↦
        let (p, e₁, e₂) =
          >>=-eq-success (add_provider rlib connect (rlib.split addr b':')) _ (rw use_it at e) in
        let (rest, e₃, e₄) = >>=-eq-success (load_providers rlib connect addrs) _ e₂ in
        let same : ps ≡ p ∷ rest = cc (e₄) in
        rw same (add_provider-idle _ p e₁, load_providers-IsIdle addrs rest e₃)
  ]

  check_nonempty-length :
      (ps qs : List ProviderInfo) → check_nonempty ps ≡ success qs → (qs ≡ ps) × (0 < length ps)
  unfolding check_nonempty
  check_nonempty-length [] qs e = cc
  check_nonempty-length (p ∷ ps) qs e = (cc, omega arith)

  -- A constructor that does not throw has found a provider, knows every provider's weight, and puts
  -- each into the queue as often as that weight says, and nothing else; no latency is raised yet.
  pub new_selector-IsFresh :
      (addrs : List Text) (s : Selector) → new_selector rlib connect addrs ≡ success s → IsFresh s
  unfolding new_selector
  new_selector-IsFresh addrs s e =
      let (ps, e₁, e₂) = >>=-eq-success (load_providers rlib connect addrs) _ e in
      let (qs, e₃, e₄) = >>=-eq-success (check_nonempty ps) _ e₂ in
      let (q, e₅, e₆) = >>=-eq-success (fill_queue 0 qs) _ e₄ in
      let (same, size) = check_nonempty-length ps qs e₃ in
      let made : s ≡ record { providers = qs; robin_queue = q; curr = none } = cc (e₆) in
      rw (made, same)
        (record {
          queue = fill_queue-IsQueue 0 ps q (rw same at e₅);
          some_provider = size;
          idle = load_providers-IsIdle addrs ps e₁;
          curr = refl;
        })
