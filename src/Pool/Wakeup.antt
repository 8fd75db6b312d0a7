-- ===== src/Pool/Wakeup.antt =====
-- Which releases reach a waiting coroutine of `fixed_object_pool_coro` in lib/pool.hpp.
use ali_middleware.Common.{
  ℕ, ◌+◌, ◌-◌, ◌≤◌, ◌<◌, ◌^◌, ◌≡◌, refl, sym, ◌∙◌, ap, ◌⊎◌, inl, inr, Bool, true, false, none, some,
  List, [], ◌∷◌, ◌++◌, Option, arith, length, length-append, Bool-cases,
}
use ali_middleware.Common.Run.{Exception, ok, thrown}
use ali_middleware.TraceableList.{Ptr, null, Node, new_node}
use ali_middleware.TraceableList.Chain.{Cell, has, first, last, IsList, Chain-split}
use ali_middleware.Event.{DeadlineTimer, Event, notify_one, waiters}
use ali_middleware.Pool.{Objects, Construct, do_try_borrow_one}
use ali_middleware.Pool.Coro.{IsLent, Coro, notify, released}
use ali_middleware.Pool.Holds.{Holds, Flags, elem, split-has, Flags-split}
use ali_middleware.Pool.Mark.{addrs}
use ali_middleware.Pool.Borrow.{borrow_spec}
use ali_middleware.Pool.Refine.{do_try_borrow_one-Outcome}

abbrev pub tail : List Ptr → List Ptr
tail [] = []
tail (p ∷ ps) = ps

pub length-tail : (ps : List Ptr) → length (tail ps) ≡ length ps - 1
length-tail [] = refl
length-tail (p ∷ ps) = omega arith

-- Borrowing takes the first object off the free list, if there is one.
borrow_spec-free :
    (max_size new : ℕ) (objects free : List Ptr)
    → (borrow_spec max_size new objects free).1.free ≡ tail free
unfolding borrow_spec
borrow_spec-free max_size new objects (p ∷ free) = refl
borrow_spec-free max_size new objects [] = ground arith

module _ {T : Type 0} (max_size : ℕ) (fits : max_size < 2 ^ 64) (o : Objects T)
    (cs : List (Cell T Bool)) (hold : Holds max_size o cs) where
  -- A try keeps the invariant, and takes the first object off the free list.
  pub try-free :
      (c : Construct T) (r : Ptr) (o' : Objects T)
      → do_try_borrow_one max_size c o ≡ ok r o'
      → (cs' : List (Cell T Bool)) × Holds max_size o' cs' × (o'.free_list ≡ tail o.free_list)
  try-free c r o' e = elim (do_try_borrow_one-Outcome max_size o cs hold fits c) [
    | inl ref ↦
        let same : ref.after ≡ o' = cc (e, ref.returned) in
        (
          ref.cells,
          rw same at ref.hold,
          ap (λ q. q.free_list) (sym same)
              ∙ ap (λ t. t.1.free) ref.agrees
              ∙ borrow_spec-free max_size o.buffer.brk (addrs cs) o.free_list,
        )
    | inr raise ↦ cc (e, raise.unchanged)
  ]

  -- A try that throws changes nothing, and then nothing is free.
  pub try-thrown :
      (c : Construct T) (x : Exception) (o' : Objects T)
      → do_try_borrow_one max_size c o ≡ thrown x o'
      → (o' ≡ o) × (o.free_list ≡ [])
  try-thrown c x o' e = elim (do_try_borrow_one-Outcome max_size o cs hold fits c) [
    | inl ref ↦ cc (e, ref.returned)
    | inr raise ↦ (cc (e, raise.unchanged), raise.none_free)
  ]

  -- An object that is marked busy is one of the pool's and is not free.
  pub lent : (p : Ptr) → IsLent o p → (has p cs ≡ true) × (elem p o.free_list ≡ false)
  lent p (n, e, busy) = elim (Bool-cases (has p cs)) [
    | inl i ↦
        let (xs, c, ys, eq, at) = split-has p cs i in
        let is : IsList o.buffer (xs ++ c ∷ ys) = rw eq at hold.list in
        let flags : Flags o.free_list (xs ++ c ∷ ys) = rw eq at hold.flags in
        let node = (Chain-split xs (c ∷ ys) o.buffer.cell null null is.chain).1.1 in
        let flag = (Flags-split o.free_list xs (c ∷ ys) flags).1.0 in
        let known : o.buffer.cell p
            ≡ some (new_node c.value (last null xs) (first null ys) c.extra_info) =
          rw at node in
        let same : n ≡ new_node c.value (last null xs) (first null ys) c.extra_info =
          cc (e, known) in
        (i, rw at (sym flag ∙ sym (ap (λ (m : Node T Bool). m.extra_info) same) ∙ busy))
    | inr out ↦ cc (e, hold.list.owned p out)
  ]

module _ (boost : DeadlineTimer) (T : Type 0) (max_size : ℕ) (fits : max_size < 2 ^ 64) where
  abbrev pub waiting : Coro boost T max_size → List ℕ
  waiting s = waiters boost s.event

  -- No wakeup is lost: where a coroutine waits, each free object has a woken coroutine on its way.
  abbrev pub IsServed : Coro boost T max_size → Type 0
  IsServed s = (waiting s ≡ []) ⊎ (length s.objects.free_list ≤ length s.woken)

  abbrev pub Sound : Coro boost T max_size → Type 0
  Sound s = (cs : List (Cell T Bool)) × Holds max_size s.objects cs

  pub length-remove :
      (h : ℕ) (ws xs ys : List ℕ) → ws ≡ xs ++ h ∷ ys → length ws ≡ length (xs ++ ys) + 1
  length-remove h ws xs ys e =
      omega (arith, ap length e, length-append xs (h ∷ ys), length-append xs ys)

  -- A release adds one free object, and wakes one coroutine if any waits.
  pub released-IsServed :
      (s : Coro boost T max_size) (o : Objects T) (ws : List ℕ)
      → waiting s ≡ ws
      → length o.free_list ≡ length s.objects.free_list + 1
      → IsServed s
      → IsServed (released boost T max_size o s)
  unfolding released notify notify_one
  released-IsServed s o [] e more served =
      let (got, left) = boost.cancel_one-none s.event.timer e in rw (got, notify) (inl left)
  released-IsServed s o (h ∷ hs) e more served =
      let (got, left) = boost.cancel_one-some s.event.timer h hs e in
      rw (got, notify) (inr (ground (arith, length-append s.woken (h ∷ []))))

  notify-objects :
      (h : Option ℕ) (ev : Event boost) (o : Objects T) (late woken : List ℕ)
      → ((notify boost T max_size h ev o late woken).objects ≡ o)
        × ((notify boost T max_size h ev o late woken).late ≡ late)
  unfolding notify
  notify-objects none ev o late woken = (refl, refl)
  notify-objects (some h) ev o late woken = (refl, refl)

  pub released-objects :
      (s : Coro boost T max_size) (o : Objects T)
      → ((released boost T max_size o s).objects ≡ o)
        × ((released boost T max_size o s).late ≡ s.late)
  unfolding released
  released-objects s o = notify-objects _ _ o s.late s.woken

  -- A release where nobody waits wakes nobody.
  pub released-nobody :
      (s : Coro boost T max_size) (o : Objects T)
      → waiting s ≡ []
      → (waiting (released boost T max_size o s) ≡ [])
        × ((released boost T max_size o s).woken ≡ s.woken)
  unfolding released notify notify_one
  released-nobody s o e =
      let (got, left) = boost.cancel_one-none s.event.timer e in rw (got, notify) (left, refl)
