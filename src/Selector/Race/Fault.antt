-- ===== src/Selector/Race/Fault.antt =====
-- Two threads of a consumer agent in `query_once` (src/provider_selector.hpp) at once.
use ali_middleware.Common.{
  ℕ, suc, true, false, ◌<◌, ◌≡◌, ◌∙◌, ap, refl, sym, Option, none, some, List, [], ◌∷◌, length,
  get_elem?, ltb, ◌==◌, arith,
}
use ali_middleware.Common.Run.{ok, fault, and_then}
use ali_middleware.Selector.{ProviderInfo, Selector, provider_at, start_at}
use ali_middleware.Selector.Query.{provider_at-eq}
use ali_middleware.Selector.Race.Steps.{
  step-enter, step-test, step-load, step-load-end, step-take, step-taken,
}
use ali_middleware.Selector.Race.{
  Pc, enter, load, returned, set_curr, step, Thread, thread_a, thread_b, interleave,
}

-- Both test `curr` before the first moves it on.
abbrev pub clash : List Thread
clash = thread_a ∷ thread_b ∷ thread_a ∷ thread_b ∷ thread_a ∷ thread_a ∷ thread_a ∷ thread_b ∷ []

get_elem?-length {ℓ} : {A : Type ℓ} (xs : List A) → get_elem? xs (length xs) ≡ none
get_elem?-length [] = refl
get_elem?-length (x ∷ xs) = get_elem?-length xs

module _ (order : List Thread) (a b : Pc) (s : Selector) where
  a_step :
      (a' : Pc) (s' : Selector)
      → step a s ≡ ok a' s'
      → interleave (thread_a ∷ order) a b s ≡ interleave order a' b s'
  unfolding interleave
  a_step a' s' e = ap (λ r. and_then r (λ x. interleave order x b)) e

  b_step :
      (b' : Pc) (s' : Selector)
      → step b s ≡ ok b' s'
      → interleave (thread_b ∷ order) a b s ≡ interleave order a b' s'
  unfolding interleave
  b_step b' s' e = ap (λ r. and_then r (λ x. interleave order a x)) e

  b_fault : step b s ≡ fault → interleave (thread_b ∷ order) a b s ≡ fault
  unfolding interleave
  b_fault e = ap (λ r. and_then r (λ x. interleave order a x)) e

-- When `curr` stands at the last place of the queue, on an idle provider, two calls of query_once can
-- run so that the second dereferences end(): it has tested `curr` before the first moves it there.
pub clash-fault :
    (ps : List ProviderInfo) (queue : List ℕ) (curr : Option ℕ) (i : ℕ) (p : ProviderInfo)
    → suc (start_at curr) ≡ length queue
    → get_elem? queue (start_at curr) ≡ some i
    → get_elem? ps i ≡ some p
    → p.connpool_latency < 10000
    → interleave clash enter enter (record { providers = ps; robin_queue = queue; curr = curr })
      ≡ fault
unfolding start_at provider_at
clash-fault ps queue curr i p last e e' idle =
    let c = start_at curr in
    let s₀ : Selector = record { providers = ps; robin_queue = queue; curr = curr } in
    let s : Selector = record { providers = ps; robin_queue = queue; curr = some c } in
    let more : (c == length queue) ≡ false = ground arith in
    let at = provider_at-eq s c i p e e' in
    let lat : ltb p.connpool_latency 10000 ≡ true = ground arith in
    let begun = λ (t : Option ℕ) (e : start_at t ≡ c).
      step-enter (record { providers = ps; robin_queue = queue; curr = t }) c (suc c) e
        (sym last) in
    let end : get_elem? queue (suc c) ≡ none = ap (get_elem? queue) last ∙ get_elem?-length queue in
    a_step _ _ _ s₀ _ _ (begun curr refl)
    ∙ b_step _ _ _ s _ _ (begun (some c) refl)
    ∙ a_step _ _ _ s _ _ (step-test s c 1 more)
    ∙ b_step _ _ _ s _ _ (step-test s c 1 more)
    ∙ a_step _ _ _ s _ _ (step-load s i p at c lat)
    ∙ a_step _ _ _ s _ _ (step-take s)
    ∙ a_step _ _ _ s _ _ (step-taken s c i e)
    ∙ b_fault [] (returned (some i)) (load c) (set_curr (suc c) s)
        (step-load-end (set_curr (suc c) s) c (rw (end, provider_at) refl))
