-- ===== src/Selector/Rounds.antt =====
-- Sequences of `query_once` (src/provider_selector.hpp) while no provider is busy: the round robin.
use ali_middleware.Common.{
  All-get_elem?, ℕ, zero, suc, ◌+◌, ◌*◌, ◌≡◌, refl, sym, ◌∙◌, ap, inl, inr, Option, Option-cases,
  some, List, [], ◌∷◌, ◌++◌, map, append-nil, append_assoc, arith, length, length-append, get_elem?,
}
use ali_middleware.Common.Except.{Except, success}
use ali_middleware.Common.Rlib.{Rlib}
use ali_middleware.Common.Run.{Cmd, ok, pure, ◌>>=◌}
use ali_middleware.Common.Text.{Text}
use ali_middleware.Selector.{
  ProviderInfo, Selector, weight, provider_at, query_once, start_at, new_selector,
}
use ali_middleware.Selector.Build.{InRange, count, IsIdle, names_of, new_selector-IsFresh}
use ali_middleware.Selector.Query.{
  wrap-lt, wrap, place, provider_at-eq, query_once-eq, get_elem?-some, get_elem?-append,
}

-- `n` queries, one after the other.
abbrev pub queries : ℕ → Cmd Selector (List (Option ℕ))
queries zero = pure []
queries (suc n) = do r ← query_once; rs ← queries n; pure (r ∷ rs)

-- `n` times the list.
abbrev pub copies : ℕ → List ℕ → List ℕ
copies zero q = []
copies (suc n) q = q ++ copies n q

count-append : (j : ℕ) (xs ys : List ℕ) → count j (xs ++ ys) ≡ count j xs + count j ys
count-append j [] ys = omega arith
count-append j (x ∷ xs) ys = ground (arith, count-append j xs ys)

pub count-copies : (j n : ℕ) (q : List ℕ) → count j (copies n q) ≡ n * count j q
count-copies j zero q = omega arith
count-copies j (suc n) q = count-append j q (copies n q) ∙ grind (arith, count-copies j n q)

pub length-copies : (n : ℕ) (q : List ℕ) → length (copies n q) ≡ n * length q
length-copies zero q = omega arith
length-copies (suc n) q = length-append q (copies n q) ∙ grind (arith, length-copies n q)

run-next :
    (s s' s'' : Selector) (n : ℕ) (r : Option ℕ) (rs : List (Option ℕ))
    → query_once s ≡ ok r s'
    → queries n s' ≡ ok rs s''
    → queries (suc n) s ≡ ok (r ∷ rs) s''
run-next s s' s'' n r rs e e' = rw (e, e') refl

-- Selectors that differ in the iterator alone.
module _ (s : Selector) (idle : IsIdle s.providers)
    (names : InRange 0 (length s.providers) s.robin_queue) where
  abbrev at_curr : Option ℕ → Selector
  at_curr c = record s { curr = c }

  query_once-next :
      (xs ys : List ℕ) (y : ℕ) (c : Option ℕ)
      → s.robin_queue ≡ xs ++ y ∷ ys
      → wrap s (start_at c) ≡ wrap s (length xs)
      → query_once (at_curr c) ≡ ok (some y) (at_curr (some (suc (length xs))))
  query_once-next xs ys y c e w =
      let size : length s.robin_queue ≡ length xs + suc (length ys) =
        ap length e ∙ length-append xs (y ∷ ys) in
      let here : place (at_curr c) ≡ length xs = w ∙ wrap-lt s (length xs) (omega arith) in
      let entry : get_elem? s.robin_queue (length xs) ≡ some y = rw e (get_elem?-append xs y ys) in
      let range = All-get_elem? _ s.robin_queue (length xs) y names entry in
      let (p, e') = get_elem?-some s.providers y range.1 in
      let quiet : p.connpool_latency ≡ 1 = All-get_elem? _ s.providers y p idle e' in
      let at : provider_at (at_curr c) (place (at_curr c)) ≡ some (y, p) =
        provider_at-eq (at_curr c) _ y p (ap (get_elem? s.robin_queue) here ∙ entry) e' in
      query_once-eq (at_curr c) y p (omega arith) (omega arith) at
      ∙ rw quiet (ap (λ n. ok (some y) (at_curr (some (suc n)))) here)

  -- From the queue's begin the answers are `zs`.
  abbrev Answers : List ℕ → Type 0
  Answers zs =
      (c : Option ℕ)
      → wrap s (start_at c) ≡ 0
      → (c' : Option ℕ) × (queries (length zs) (at_curr c) ≡ ok (map some zs) (at_curr c'))

  Answers-rest :
      (zs : List ℕ)
      → Answers zs
      → (ys xs : List ℕ) (c : Option ℕ) → s.robin_queue ≡ xs ++ ys
      → wrap s (start_at c) ≡ wrap s (length xs)
      → (c' : Option ℕ) × (queries (length (ys ++ zs)) (at_curr c)
          ≡ ok (map some (ys ++ zs)) (at_curr c'))
  unfolding start_at
  Answers-rest zs rest [] xs c e w =
      let size : length s.robin_queue ≡ length xs = ap length (e ∙ append-nil xs) in
      rest c (w ∙ ground arith)
  Answers-rest zs rest (y ∷ ys) xs c e w =
      let c₁ = some (suc (length xs)) in
      let size : length (xs ++ y ∷ []) ≡ suc (length xs) =
        length-append xs (y ∷ []) ∙ omega arith in
      let (c', e') =
        Answers-rest zs rest ys (xs ++ y ∷ []) c₁ (e ∙ sym (append_assoc xs (y ∷ []) ys))
          (ap (wrap s) (sym size)) in
      (
        c',
        run-next (at_curr c) (at_curr c₁) (at_curr c') _ (some y) _ (query_once-next xs ys y c e w)
            e',
      )

  pub Answers-copies : (n : ℕ) → Answers (copies n s.robin_queue)
  Answers-copies zero c w = (c, refl)
  Answers-copies (suc n) c w =
      Answers-rest (copies n s.robin_queue) (Answers-copies n) s.robin_queue [] c refl
        (w ∙ ground arith)

module _ (rlib : Rlib) (connect : Text → ℕ → Except (Unit {0})) where
  -- While no pool latency is raised, `n` times as many queries as the queue is long, on a selector as
  -- the constructor returns it, all answer with a provider, and every provider is the answer `n` times
  -- its weight.
  pub fair_share :
      (addrs : List Text) (s : Selector)
      → new_selector rlib connect addrs ≡ success s
      → (n : ℕ)
      → (picks : List ℕ) × (s' : Selector) × (queries (n * length s.robin_queue) s
          ≡ ok (map some picks) s')
        × ((j : ℕ) (p : ProviderInfo)
            → get_elem? s.providers j ≡ some p
            → (w : ℕ) × (weight p.hostname ≡ some w) × (count j picks ≡ n * w))
  unfolding start_at
  fair_share addrs s made n =
      let fresh = new_selector-IsFresh rlib connect addrs s made in
      let names = names_of s fresh in
      let picks = copies n s.robin_queue in
      let (c', e) = Answers-copies s fresh.idle names n s.curr (rw fresh.curr (ground arith)) in
      (
        picks,
        record s { curr = c' },
        ap (λ k. queries k s) (sym (length-copies n s.robin_queue)) ∙ e,
        λ j p at. (
          count j s.robin_queue,
          fresh.queue.1 j p at ∙ ap (λ k. some (count k s.robin_queue)) (omega arith),
          count-copies j n s.robin_queue,
        ),
      )

-- What stands at an iterator of a selector without a raised latency is idle.
pub provider_at-idle :
    (s : Selector) (c i : ℕ) (p : ProviderInfo)
    → IsIdle s.providers
    → provider_at s c ≡ some (i, p)
    → p.connpool_latency ≡ 1
unfolding provider_at
provider_at-idle s c i p idle e = elim (Option-cases (get_elem? s.robin_queue c)) [
  | inl nothing ↦ cc (rw (nothing, provider_at) at e)
  | inr (j, there) ↦ elim (Option-cases (get_elem? s.providers j)) [
    | inl nothing ↦ cc (rw (there, provider_at, nothing) at e)
    | inr (q, found) ↦
        let same : q ≡ p = cc (rw (there, provider_at, found) at e) in
        rw (sym same) (All-get_elem? _ s.providers j q idle found)
  ]
]
