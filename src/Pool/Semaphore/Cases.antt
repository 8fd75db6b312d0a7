-- ===== src/Pool/Semaphore/Cases.antt =====
-- The ways in which a request to a pool of lib/pool.hpp, or to a semaphore, can end.
use ali_middleware.Common.{
  ℕ, suc, ◌-◌, ◌^◌, ◌≤◌, ◌<◌, ◌≡◌, ◌≢◌, refl, sym, ◌∙◌, ap, inl, inr, Bool, true, false, Bool-cases,
  List, [], ◌∷◌, ◌++◌, arith, ltb, lt→ltb, ◌==◌, length, if_true, if_false,
}
use ali_middleware.TraceableList.{Ptr, null}
use ali_middleware.Common.Run.{ok}
use ali_middleware.TraceableList.Chain.{Cell}
use ali_middleware.Pool.{Objects, Construct, do_try_borrow_one}
use ali_middleware.Pool.Holds.{Holds}
use ali_middleware.Pool.Mark.{addrs}
use ali_middleware.Pool.Refine.{do_try_borrow_one-Outcome}
use ali_middleware.Pool.Borrow.{View, borrow_spec}
use ali_middleware.Pool.Semaphore.{borrow, release, take_or_give}

-- The three ways in which a borrow ends.
pub data Borrowed (max_size : ℕ) (new : Ptr) (objects free : List Ptr) (r : Ptr) (v : View)
    : Type 0 where
  reused :
      (rest : List Ptr)
      → free ≡ r ∷ rest
      → v.objects ≡ objects
      → v.free ≡ rest
      → Borrowed max_size new objects free r v
  grown :
      free ≡ []
      → length objects < max_size
      → r ≡ new
      → v.objects ≡ objects ++ new ∷ []
      → v.free ≡ []
      → Borrowed max_size new objects free r v
  refused :
      free ≡ []
      → max_size ≤ length objects
      → r ≡ null
      → v.objects ≡ objects
      → v.free ≡ []
      → Borrowed max_size new objects free r v

abbrev pair : Ptr → View → Ptr × View
pair r v = (r, v)

pub borrow_spec-Borrowed :
    (max_size : ℕ) (new : Ptr) (objects free : List Ptr) (r : Ptr) (v : View)
    → (r, v) ≡ borrow_spec max_size new objects free
    → Borrowed max_size new objects free r v
unfolding borrow_spec
borrow_spec-Borrowed max_size new objects (p ∷ free) r v e =
    reused free (ap (λ a. a ∷ free) (sym (ap (λ t. t.0) e))) (ap (λ t. t.1.objects) e)
      (ap (λ t. t.1.free) e)
borrow_spec-Borrowed max_size new objects [] r v e =
    elim (Bool-cases (ltb (length objects) max_size)) [
      | inl room ↦
          let e' = e ∙ if_true _ _ _ room in
          grown refl (ground arith) (ap (λ t. t.0) e') (ap (λ t. t.1.objects) e')
            (ap (λ t. t.1.free) e')
      | inr full ↦
          let e' = e ∙ if_false _ _ _ full in
          refused refl (ground arith) (ap (λ t. t.0) e') (ap (λ t. t.1.objects) e')
            (ap (λ t. t.1.free) e')
    ]

pub not_null : (r new : Ptr) → r ≡ new → new ≢ null → (r == null) ≡ false
not_null r new e ne = elim (Bool-cases (r == null)) [
  | inl z ↦ absurd (ne (ground arith))
  | inr other ↦ other
]

abbrev pub reply : Bool → ℕ → Bool × ℕ
reply r n = (r, n)

pub take-room :
    (max_size n : ℕ) → n < max_size → take_or_give max_size borrow n ≡ reply true (suc n)
take-room max_size n lt = if_true (ltb n max_size) _ _ (lt→ltb n max_size lt)

pub take-full : (max_size n : ℕ) → max_size ≤ n → take_or_give max_size borrow n ≡ reply false n
take-full max_size n le =
    let full : ltb n max_size ≡ false = ground arith in if_false (ltb n max_size) _ _ full

pub give-lent :
    (max_size k n : ℕ) → k < n → take_or_give max_size (release k) n ≡ reply true (n - 1)
give-lent max_size k n lt = if_true (ltb k n) _ _ (lt→ltb k n lt)

pub give-nothing : (max_size k n : ℕ) → n ≤ k → take_or_give max_size (release k) n ≡ reply false n
give-nothing max_size k n le =
    let out : ltb k n ≡ false = ground arith in if_false (ltb k n) _ _ out

borrow_spec-cons :
    (max_size : ℕ) (new : Ptr) (objects : List Ptr) (p : Ptr) (rest : List Ptr)
    → borrow_spec max_size new objects (p ∷ rest)
      ≡ pair p (record { objects = objects; free = rest })
unfolding borrow_spec
borrow_spec-cons max_size new objects p rest = refl

-- While an object is free, a borrow gets the first one.
pub free-borrowed :
    {T : Type 0} (max_size : ℕ)
    → max_size < 2 ^ 64
    → (c : Construct T) (o : Objects T) (cs : List (Cell T Bool)) (p : Ptr) (rest : List Ptr)
    → Holds max_size o cs
    → o.free_list ≡ p ∷ rest
    → (o' : Objects T) × (do_try_borrow_one max_size c o ≡ ok p o')
free-borrowed max_size fits c o cs p rest hold e =
    elim (do_try_borrow_one-Outcome max_size o cs hold fits c) [
      | inl ref ↦
          let first : ref.result ≡ p =
            ap (λ t. t.0)
              (ref.agrees
                ∙ ap (λ f. borrow_spec max_size o.buffer.brk (addrs cs) f) e
                ∙ borrow_spec-cons max_size o.buffer.brk (addrs cs) p rest) in
          (ref.after, ref.returned ∙ ap (λ r. ok r ref.after) first)
      | inr raise ↦ cc (sym e ∙ raise.none_free)
    ]
