-- ===== src/Selector/Race/Alone.antt =====
-- Calls of `query_once` (src/provider_selector.hpp) that do not overlap, step by step.
use ali_middleware.Common.{
  ℕ, zero, suc, ◌+◌, ◌*◌, ◌≡◌, ◌∙◌, ap, sym, refl, inl, inr, Bool-cases, Option-cases, Option, none,
  some, length, get_elem?, ltb, ◌==◌, arith, if_true, if_false,
}
use ali_middleware.Common.Run.{ok, fault, and_then}
use ali_middleware.Selector.{
  ProviderInfo, Selector, provider_at, cooled, set_pool_latency, start_at, give_up, query_loop,
  query_once,
}
use ali_middleware.Selector.Query.{wrap, provider_at-eq, query_loop-round}
use ali_middleware.Selector.Race.Steps.{
  step-enter, step-test, step-test-end, step-test-zero, step-begin, step-load, step-load-busy,
  step-load-end, step-take, step-taken, step-cool, step-cool-end, step-advance, step-advanced,
}
use ali_middleware.Selector.Race.{
  Pc, enter, test, to_begin, load, take, taken, cool, advance, advanced, returned, set_curr, run,
  ended, step,
}

run-returned : (n : ℕ) (x : Option ℕ) (s : Selector) → run n (returned x) s ≡ ok (returned x) s
unfolding run step
run-returned zero x s = refl
run-returned (suc n) x s = run-returned n x s

run-step :
    (n : ℕ) (pc pc' : Pc) (s s' : Selector)
    → step pc s ≡ ok pc' s'
    → run (suc n) pc s ≡ run n pc' s'
unfolding run
run-step n pc pc' s s' e = ap (λ r. and_then r (run n)) e

run-fault : (n : ℕ) (pc : Pc) (s : Selector) → step pc s ≡ fault → run (suc n) pc s ≡ fault
unfolding run
run-fault n pc s e = ap (λ r. and_then r (run n)) e

provider_at-entry :
    (s : Selector) (c i : ℕ) (p : ProviderInfo)
    → provider_at s c ≡ some (i, p)
    → get_elem? s.robin_queue c ≡ some i
unfolding provider_at
provider_at-entry s c i p at = elim (Option-cases (get_elem? s.robin_queue c)) [
  | inl out ↦ let e : provider_at s c ≡ none = rw (out, provider_at) refl in absurd (cc)
  | inr (j, e) ↦ elim (Option-cases (get_elem? s.providers j)) [
    | inl out ↦
        let e' : provider_at s c ≡ none = rw (e, provider_at) (rw (out, provider_at) refl) in
        absurd (cc)
    | inr (q, e') ↦
        let e'' = provider_at-eq s c j q e e' in let same : j ≡ i = cc in e ∙ ap some same
  ]
]

-- Behind the loop.
run-give_up :
    (m c l : ℕ) (s : Selector)
    → run (suc (suc (suc (suc m)))) (test zero l) (set_curr c s) ≡ ended (query_loop zero c l s)
unfolding ended query_loop give_up start_at provider_at
run-give_up m c l s =
    let t = set_curr c s in
    elim (Option-cases (provider_at s c)) [
      | inl out ↦
          run-step _ _ (cool l) t t (step-test-zero t l)
          ∙ run-fault _ _ t (step-cool-end t l out)
          ∙ rw (out, give_up) refl
      | inr ((i, p), at) ↦
          let cooled_s : Selector = record t {
            providers = set_pool_latency i (cooled l) s.providers;
          } in
          run-step _ _ (cool l) t t (step-test-zero t l)
          ∙ run-step _ _ advance t cooled_s (step-cool t i p at l)
          ∙ run-step _ _ (advanced c) cooled_s cooled_s (step-advance cooled_s)
          ∙ run-step _ _ (returned none) cooled_s (set_curr (suc c) cooled_s)
              (step-advanced cooled_s c i (provider_at-entry s c i p at))
          ∙ run-returned m none (set_curr (suc c) cooled_s)
          ∙ rw (at, give_up) refl
    ]

pub query_loop-end :
    (k c l : ℕ) (s : Selector) → provider_at s (wrap s c) ≡ none → query_loop (suc k) c l s ≡ fault
unfolding query_loop
query_loop-end k c l s out = rw (out, query_loop) refl

-- What the rest of the loop does, at `here`.
abbrev Rest : (k here : ℕ) → Selector → Type 0
Rest k here s =
    (l m : ℕ) → run (3 * k + 4 + m) (test k l) (set_curr here s) ≡ ended (query_loop k here l s)

run-load :
    (k m c l : ℕ) (s : Selector)
    → Rest k (wrap s c) s
    → run (3 * k + 5 + m) (load k) (set_curr (wrap s c) s) ≡ ended (query_loop (suc k) c l s)
unfolding ended start_at provider_at
run-load k m c l s rest =
    let t = set_curr (wrap s c) s in
    let first : 3 * k + 5 + m ≡ suc (3 * k + 4 + m) = omega arith in
    let three : 3 * k + 5 + m ≡ suc (suc (suc (3 * k + 2 + m))) = omega arith in
    elim (Option-cases (provider_at s (wrap s c))) [
      | inl out ↦
          ap (λ n. run n (load k) t) first
          ∙ run-fault _ _ t (step-load-end t k out)
          ∙ ap ended (sym (query_loop-end k c l s out))
      | inr ((i, p), at) ↦
          let round = query_loop-round k c l s i p at in
          elim (Bool-cases (ltb p.connpool_latency 10000)) [
            | inl idle ↦
                ap (λ n. run n (load k) t) three
                ∙ run-step _ _ take t t (step-load t i p at k idle)
                ∙ run-step _ _ (taken (wrap s c)) t t (step-take t)
                ∙ run-step _ _ (returned (some i)) t (set_curr (suc (wrap s c)) t)
                    (step-taken t (wrap s c) i (provider_at-entry s (wrap s c) i p at))
                ∙ run-returned _ (some i) (set_curr (suc (wrap s c)) t)
                ∙ ap ended (sym (round ∙ if_true _ _ _ idle))
            | inr busy ↦
                ap (λ n. run n (load k) t) first
                ∙ run-step _ _ (test k p.connpool_latency) t t (step-load-busy t i p at k busy)
                ∙ rest p.connpool_latency m
                ∙ ap ended (sym (round ∙ if_false _ _ _ busy))
          ]
    ]

run-loop : (k c : ℕ) (s : Selector) → Rest k c s
unfolding start_at
run-loop zero c s l m =
    ap (λ n. run n (test zero l) (set_curr c s)) (omega arith) ∙ run-give_up m c l s
run-loop (suc k) c s l m =
    let t = set_curr c s in
    let rest = run-loop k (wrap s c) s in
    elim (Bool-cases (c == length s.robin_queue)) [
      | inl end ↦
          let two : 3 * suc k + 4 + m ≡ suc (suc (3 * k + 5 + m)) = omega arith in
          ap (λ n. run n (test (suc k) l) t) two
          ∙ run-step _ _ (to_begin k) t t (step-test-end t k l end)
          ∙ run-step _ _ (load k) t (set_curr 0 s) (step-begin t k)
          ∙ ap (λ h. run (3 * k + 5 + m) (load k) (set_curr h s)) (sym (if_true _ _ _ end))
          ∙ run-load k m c l s rest
      | inr more ↦
          let one : 3 * suc k + 4 + m ≡ suc (3 * k + 5 + suc m) = omega arith in
          ap (λ n. run n (test (suc k) l) t) one
          ∙ run-step _ _ (load k) t t (step-test t k l more)
          ∙ ap (λ h. run (3 * k + 5 + suc m) (load k) (set_curr h s)) (sym (if_false _ _ _ more))
          ∙ run-load k (suc m) c l s rest
    ]

-- As many steps as a call takes at most.
abbrev pub enough : Selector → ℕ
enough s = 3 * length s.robin_queue + 5

pub run-query_once : (m : ℕ) (s : Selector) → run (enough s + m) enter s ≡ ended (query_once s)
unfolding query_once
run-query_once m s =
    let size : enough s + m ≡ suc (3 * length s.robin_queue + 4 + m) = omega arith in
    ap (λ n. run n enter s) size
    ∙ run-step _ enter (test (length s.robin_queue) 1) s (set_curr (start_at s.curr) s)
        (step-enter s _ _ refl refl)
    ∙ run-loop (length s.robin_queue) (start_at s.curr) s 1 m
