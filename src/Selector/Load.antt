-- ===== src/Selector/Load.antt =====
-- What the constructor of `provider_selector` (src/provider_selector.hpp) makes of addresses that it
-- can read: the providers in their order and the queue, or the exception for an unknown host.
use ali_middleware.Common.{
  ℕ, suc, ◌≡◌, refl, inl, inr, Bool, true, false, Option, none, some, ◌&&◌, List, [], ◌∷◌,
  if◌then◌else◌, Bool-cases, Option-cases,
}
use ali_middleware.Common.Except.{Except, success, failure}
use ali_middleware.Common.Rlib.{Rlib}
use ali_middleware.Common.Text.{Text, is_empty}
use ali_middleware.Selector.{
  ProviderInfo, Selector, weight, repeated, fill_queue, load_providers, add_provider,
  check_nonempty, new_provider, new_selector, unknown_provider,
}

abbrev is_known : Option ℕ → Bool
is_known none = false
is_known (some n) = true

-- Every provider's host has a weight.
abbrev pub knows_all : List ProviderInfo → Bool
knows_all [] = true
knows_all (p ∷ ps) = is_known (weight p.hostname) && knows_all ps

abbrev times : Option ℕ → ℕ
times none = 0
times (some n) = n

-- The queue where every provider is known.
abbrev pub queue_spec : ℕ → List ProviderInfo → List ℕ
queue_spec i [] = []
queue_spec i (p ∷ ps) = repeated (times (weight p.hostname)) i (queue_spec (suc i) ps)

pub fill_queue-queue_spec :
    (i : ℕ) (ps : List ProviderInfo)
    → fill_queue i ps
      ≡ (if knows_all ps then success (queue_spec i ps) else failure unknown_provider)
unfolding fill_queue
fill_queue-queue_spec i [] = refl
fill_queue-queue_spec i (p ∷ ps) = elim (Option-cases (weight p.hostname)) [
  | inl none_w ↦ rw (none_w, fill_queue) refl
  | inr (n, some_w) ↦
      let ih = fill_queue-queue_spec (suc i) ps in
      elim (Bool-cases (knows_all ps)) [
        | inl known ↦ rw (some_w, fill_queue) (rw (known, rw known at ih) refl)
        | inr other ↦ rw (some_w, fill_queue) (rw (other, rw other at ih) refl)
      ]
]

abbrev pub selector_of : List ProviderInfo → Selector
selector_of ps = record { providers = ps; robin_queue = queue_spec 0 ps; curr = none }

module _ (rlib : Rlib) (connect : Text → ℕ → Except (Unit {0})) where
  pub add_provider-pair :
      (addr port : Text) (p : ℕ)
      → rlib.as_uint16 port ≡ success p
      → connect addr p ≡ success tt
      → add_provider rlib connect (addr ∷ port ∷ []) ≡ success (new_provider addr p)
  unfolding add_provider
  add_provider-pair addr port p e up = rw (e, up) refl

  pub load_providers-cons :
      (addr : Text) (addrs : List Text) (p : ProviderInfo) (ps : List ProviderInfo)
      → is_empty addr ≡ false
      → add_provider rlib connect (rlib.split addr b':') ≡ success p
      → load_providers rlib connect addrs ≡ success ps
      → load_providers rlib connect (addr ∷ addrs) ≡ success (p ∷ ps)
  unfolding load_providers
  load_providers-cons addr addrs p ps e added rest = rw (e, added, rest) refl

  pub load_providers-nil : load_providers rlib connect [] ≡ success []
  unfolding load_providers
  load_providers-nil = refl

  pub new_selector-loaded :
      (addrs : List Text) (p : ProviderInfo) (ps : List ProviderInfo)
      → load_providers rlib connect addrs ≡ success (p ∷ ps)
      → new_selector rlib connect addrs
        ≡ (if knows_all (p ∷ ps) then success (selector_of (p ∷ ps)) else failure unknown_provider)
  unfolding new_selector check_nonempty
  new_selector-loaded addrs p ps e =
      let q = fill_queue-queue_spec 0 (p ∷ ps) in
      elim (Bool-cases (knows_all (p ∷ ps))) [
        | inl known ↦ rw (e, q, known) refl
        | inr other ↦ rw (e, q, other) refl
      ]
