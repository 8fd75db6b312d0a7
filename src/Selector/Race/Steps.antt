-- ===== src/Selector/Race/Steps.antt =====
-- The steps of `query_once` (src/provider_selector.hpp) by what `curr` stands at.
use ali_middleware.Common.{
  ℕ, zero, suc, true, false, ◌≡◌, refl, none, some, length, get_elem?, ltb, ◌==◌,
}
use ali_middleware.Common.Run.{ok, fault}
use ali_middleware.Selector.{
  ProviderInfo, Selector, provider_at, set_pool_latency, cooled, start_at,
}
use ali_middleware.Selector.Race.{
  enter, test, to_begin, load, take, taken, cool, advance, advanced, returned, set_curr, store_next,
  step,
}

pub step-enter :
    (s : Selector) (c k : ℕ)
    → start_at s.curr ≡ c
    → length s.robin_queue ≡ k
    → step enter s ≡ ok (test k 1) (set_curr c s)
unfolding step
step-enter s c k e l = rw (e, l) refl

module _ (s : Selector) where
  pub step-test :
      (k l : ℕ)
      → (start_at s.curr == length s.robin_queue) ≡ false
      → step (test (suc k) l) s ≡ ok (load k) s
  unfolding step
  step-test k l more = rw more refl

  pub step-test-end :
      (k l : ℕ)
      → (start_at s.curr == length s.robin_queue) ≡ true
      → step (test (suc k) l) s ≡ ok (to_begin k) s
  unfolding step
  step-test-end k l end = rw end refl

  pub step-load-end : (k : ℕ) → provider_at s (start_at s.curr) ≡ none → step (load k) s ≡ fault
  unfolding step
  step-load-end k e = rw (e, step) refl

  pub step-cool-end : (l : ℕ) → provider_at s (start_at s.curr) ≡ none → step (cool l) s ≡ fault
  unfolding step
  step-cool-end l e = rw (e, step) refl

  pub step-taken :
      (old i : ℕ)
      → get_elem? s.robin_queue old ≡ some i
      → step (taken old) s ≡ ok (returned (some i)) (set_curr (suc old) s)
  unfolding step store_next
  step-taken old i e = rw (e, step, store_next) refl

  pub step-advanced :
      (old i : ℕ)
      → get_elem? s.robin_queue old ≡ some i
      → step (advanced old) s ≡ ok (returned none) (set_curr (suc old) s)
  unfolding step store_next
  step-advanced old i e = rw (e, step, store_next) refl

  pub step-test-zero : (l : ℕ) → step (test zero l) s ≡ ok (cool l) s
  unfolding step
  step-test-zero l = refl

  pub step-begin : (k : ℕ) → step (to_begin k) s ≡ ok (load k) (set_curr 0 s)
  unfolding step
  step-begin k = refl

  pub step-advance : step advance s ≡ ok (advanced (start_at s.curr)) s
  unfolding step
  step-advance = refl

  pub step-take : step take s ≡ ok (taken (start_at s.curr)) s
  unfolding step
  step-take = refl

  module _ (i : ℕ) (p : ProviderInfo) (at : provider_at s (start_at s.curr) ≡ some (i, p)) where
    pub step-load : (k : ℕ) → ltb p.connpool_latency 10000 ≡ true → step (load k) s ≡ ok take s
    unfolding step
    step-load k idle = rw (at, step) (rw idle refl)

    pub step-load-busy :
        (k : ℕ)
        → ltb p.connpool_latency 10000 ≡ false
        → step (load k) s ≡ ok (test k p.connpool_latency) s
    unfolding step
    step-load-busy k busy = rw (at, step) (rw busy refl)

    pub step-cool :
        (l : ℕ)
        → step (cool l) s
          ≡ ok advance (record s { providers = set_pool_latency i (cooled l) s.providers })
    unfolding step
    step-cool l = rw (at, step) refl
