-- ===== src/Selector/Query.antt =====
-- `query_once` of src/provider_selector.hpp: the round robin, and what it does at a busy provider.
use ali_middleware.Common.{
  All, ℕ, zero, suc, ◌-◌, ◌≤◌, ◌<◌, ◌≡◌, refl, sym, ◌∙◌, ap, inl, inr, false, Option, Option-cases,
  none, some, List, [], ◌∷◌, ◌++◌, arith, Bool-cases, length, get_elem?, ltb, ◌==◌, if◌then◌else◌,
}
use ali_middleware.Common.Run.{ok}
use ali_middleware.Selector.{
  ProviderInfo, Selector, provider_at, set_pool_latency, cooled, give_up, query_loop, query_once,
  start_at,
}
use ali_middleware.Selector.Build.{InRange, IsFresh, names_of}

-- What `query_once` keeps: the queue names providers, and is not empty.
pub record IsWell (s : Selector) : Type 0 where
  pub names : InRange 0 (length s.providers) s.robin_queue
  pub some_entry : 0 < length s.robin_queue
  pub curr : start_at s.curr ≤ length s.robin_queue

get_elem?-All {ℓ} :
    {A : Type ℓ} (P : A → Type 0) (xs : List A) (i : ℕ)
    → All P xs
    → i < length xs
    → (x : A) × (get_elem? xs i ≡ some x) × P x
get_elem?-All P [] i a lt = absurd (omega arith)
get_elem?-All P (x ∷ xs) zero a lt = (x, refl, a.0)
get_elem?-All P (x ∷ xs) (suc i) a lt = get_elem?-All P xs i a.1 (omega arith)

pub get_elem?-some {ℓ} :
    {A : Type ℓ} (xs : List A) (i : ℕ) → i < length xs → (x : A) × (get_elem? xs i ≡ some x)
get_elem?-some [] i lt = absurd (omega arith)
get_elem?-some (x ∷ xs) zero lt = (x, refl)
get_elem?-some (x ∷ xs) (suc i) lt = get_elem?-some xs i (omega arith)

pub get_elem?-append :
    (xs : List ℕ) (y : ℕ) (ys : List ℕ) → get_elem? (xs ++ y ∷ ys) (length xs) ≡ some y
get_elem?-append [] y ys = refl
get_elem?-append (x ∷ xs) y ys = get_elem?-append xs y ys

length-set_pool_latency :
    (i l : ℕ) (ps : List ProviderInfo) → length (set_pool_latency i l ps) ≡ length ps
length-set_pool_latency i l [] = refl
length-set_pool_latency zero l (p ∷ ps) = refl
length-set_pool_latency (suc i) l (p ∷ ps) = omega (arith, length-set_pool_latency i l ps)

-- An iterator at end() goes back to begin().
abbrev pub wrap : Selector → ℕ → ℕ
wrap s c = if c == length s.robin_queue then 0 else c

-- Where the next query looks.
abbrev pub place : Selector → ℕ
place s = wrap s (start_at s.curr)

pub provider_at-eq :
    (s : Selector) (c i : ℕ) (p : ProviderInfo)
    → get_elem? s.robin_queue c ≡ some i
    → get_elem? s.providers i ≡ some p
    → provider_at s c ≡ some (i, p)
unfolding provider_at
provider_at-eq s c i p e e' = rw (e, provider_at) (rw (e', provider_at) refl)

pub provider_at-inv :
    (s : Selector) (c i : ℕ) (p : ProviderInfo)
    → provider_at s c ≡ some (i, p)
    → (get_elem? s.robin_queue c ≡ some i) × (get_elem? s.providers i ≡ some p)
unfolding provider_at
provider_at-inv s c i p e = elim (Option-cases (get_elem? s.robin_queue c)) [
  | inl none_there ↦ let fails = rw (none_there, provider_at) at e in absurd (cc)
  | inr (j, at) ↦ elim (Option-cases (get_elem? s.providers j)) [
    | inl none_there ↦
        let fails = rw (none_there, provider_at) at (rw (at, provider_at) at e) in absurd (cc)
    | inr (q, at') ↦
        let found = rw (at', provider_at) at (rw (at, provider_at) at e) in
        let same_place : j ≡ i = cc in
        let same : q ≡ p = cc in
        (at ∙ ap some same_place, ap (get_elem? s.providers) (sym same_place) ∙ at' ∙ ap some same)
  ]
]

-- One round of the loop, at a provider.
pub query_loop-round :
    (k c l : ℕ) (s : Selector) (i : ℕ) (p : ProviderInfo)
    → provider_at s (wrap s c) ≡ some (i, p)
    → query_loop (suc k) c l s ≡ (
        if ltb p.connpool_latency 10000
        then ok (some i) (record s { curr = some (suc (wrap s c)) })
        else query_loop k (wrap s c) p.connpool_latency s)
unfolding query_loop
query_loop-round k c l s i p e = rw (e, query_loop) refl

pub wrap-lt : (s : Selector) (c : ℕ) → c < length s.robin_queue → wrap s c ≡ c
wrap-lt s c lt = ground arith

-- The answer and the state after it, without the loop.
abbrev pub answer : ℕ → ProviderInfo → Option ℕ
answer i p = if ltb p.connpool_latency 10000 then some i else none

abbrev pub moved : Selector → ℕ → ProviderInfo → Selector
moved s i p =
    if ltb p.connpool_latency 10000 then record s { curr = some (suc (place s)) } else record s {
      providers =
          set_pool_latency i
            (if ltb 51427 p.connpool_latency then p.connpool_latency - 51427 else 1) s.providers;
      curr = some (suc (place s));
    }

-- The rounds after the first test the same provider again, and give up on it.
busy_loop :
    (k c : ℕ) (s : Selector) (i : ℕ) (p : ProviderInfo)
    → c < length s.robin_queue
    → provider_at s c ≡ some (i, p)
    → ltb p.connpool_latency 10000 ≡ false
    → query_loop k c p.connpool_latency s
      ≡ ok none (record s {
        providers = set_pool_latency i (cooled p.connpool_latency) s.providers;
        curr = some (suc c);
      })
unfolding query_loop give_up
busy_loop zero c s i p lt e busy = rw (e, give_up) refl
busy_loop (suc k) c s i p lt e busy =
    let w = wrap-lt s c lt in
    query_loop-round k c p.connpool_latency s i p (ap (provider_at s) w ∙ e)
    ∙ ap
        (λ b.
          if b
          then ok (some i) (record s { curr = some (suc (wrap s c)) })
          else query_loop k (wrap s c) p.connpool_latency s)
        busy
    ∙ ap (λ n. query_loop k n p.connpool_latency s) w
    ∙ busy_loop k c s i p lt e busy

pub query_once-eq :
    (s : Selector) (i : ℕ) (p : ProviderInfo)
    → 0 < length s.robin_queue
    → place s < length s.robin_queue
    → provider_at s (place s) ≡ some (i, p)
    → query_once s ≡ ok (answer i p) (moved s i p)
unfolding query_once cooled
query_once-eq s i p pos lt e =
    let size : length s.robin_queue ≡ suc (length s.robin_queue - 1) = omega arith in
    let k = length s.robin_queue - 1 in
    ap (λ n. query_loop n (start_at s.curr) 1 s) size
    ∙ query_loop-round k (start_at s.curr) 1 s i p e
    ∙ (elim (Bool-cases (ltb p.connpool_latency 10000)) [
      | inl idle ↦ rw idle refl
      | inr busy ↦ rw busy (busy_loop k (place s) s i p lt e busy)
    ])

module _ (s : Selector) (well : IsWell s) where
  -- `*curr` is a provider at every place of the queue.
  provider_at-some :
      (c : ℕ)
      → c < length s.robin_queue
      → (i : ℕ) × (p : ProviderInfo) × (provider_at s c ≡ some (i, p)) × (i < length s.providers)
  provider_at-some c lt =
      let (i, e, (_, in_range)) = get_elem?-All _ s.robin_queue c well.names lt in
      let (p, e') = get_elem?-some s.providers i in_range in
      (i, p, provider_at-eq s c i p e e', in_range)

  place-lt : place s < length s.robin_queue
  place-lt = ground (arith, well.curr, well.some_entry)

  pub moved-IsWell : (i : ℕ) (p : ProviderInfo) → IsWell (moved s i p)
  unfolding start_at
  moved-IsWell i p = elim (Bool-cases (ltb p.connpool_latency 10000)) [
    | inl idle ↦ rw idle (record {
      names = well.names;
      some_entry = well.some_entry;
      curr = omega (arith, place-lt);
    })
    | inr busy ↦ rw busy (record {
      names =
          rw
            (length-set_pool_latency i
              (if ltb 51427 p.connpool_latency then p.connpool_latency - 51427 else 1) s.providers)
            well.names;
      some_entry = well.some_entry;
      curr = omega (arith, place-lt);
    })
  ]

  -- A query reads no provider but the one at its place: below 10000 us of pool latency it is the
  -- answer, otherwise the answer is null, whatever the latencies of the others, and its latency goes
  -- down by 51427, or to 1 from 51427 or less. The iterator moves on by one either way, and the queue
  -- stays usable.
  pub query_once-IsWell :
      (i : ℕ) × (p : ProviderInfo) × (provider_at s (place s) ≡ some (i, p))
      × (query_once s ≡ ok (answer i p) (moved s i p))
      × IsWell (moved s i p)
  query_once-IsWell =
      let (i, p, e, _) = provider_at-some (place s) place-lt in
      (i, p, e, query_once-eq s i p well.some_entry place-lt e, moved-IsWell i p)

-- What the constructor returns can be queried.
pub IsFresh-IsWell : (s : Selector) → IsFresh s → IsWell s
unfolding start_at
IsFresh-IsWell s fresh = record {
  names = names_of s fresh;
  some_entry = omega (arith, fresh.queue.2, fresh.some_provider);
  curr = rw fresh.curr (omega arith);
}
