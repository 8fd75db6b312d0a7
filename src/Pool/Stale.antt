-- ===== src/Pool/Stale.antt =====
-- How `new_obj_ready` of `fixed_object_pool` (lib/pool.hpp) can be false while an object is free.
use ali_middleware.Common.{
  ℕ, ◌^◌, ◌<◌, ◌≡◌, refl, sym, ◌∙◌, ap, ◌≢◌, Bool, true, false, List, [], ◌∷◌, ◌++◌, arith,
}
use ali_middleware.Common.Run.{ok}
use ali_middleware.TraceableList.{Ptr, null, new_node}
use ali_middleware.TraceableList.Chain.{Cell, has, first, last, IsList, Chain-split, not-has-null}
use ali_middleware.Pool.{Objects, Construct, borrow_at, borrow_again, do_try_borrow_one, give_back}
use ali_middleware.Pool.Coro.{IsLent}
use ali_middleware.Pool.Threaded.{
  Threaded, borrows, fails, blocks, releases, notifies_none, Reach, here, next,
}
use ali_middleware.Pool.Holds.{Holds, Flags, elem, split-has, Flags-split}
use ali_middleware.Pool.Borrow.{take-Holds}
use ali_middleware.Pool.Release.{give_back-Holds, borrow-null_iff, elem-addrs}
use ali_middleware.Pool.Wakeup.{try-free, lent, tail}
use ali_middleware.Pool.Ready.{IsReady}

module _ {T : Type 0} (max_size : ℕ) (o : Objects T) (cs : List (Cell T Bool))
    (hold : Holds max_size o cs) where
  -- An object of the pool that is not free is marked busy.
  IsLent-of : (p : Ptr) → has p cs ≡ true → elem p o.free_list ≡ false → IsLent o p
  IsLent-of p i out =
      let (xs, c, ys, eq, at) = split-has p cs i in
      let is : IsList o.buffer (xs ++ c ∷ ys) = rw eq at hold.list in
      let flags : Flags o.free_list (xs ++ c ∷ ys) = rw eq at hold.flags in
      let node = (Chain-split xs (c ∷ ys) o.buffer.cell null null is.chain).1.1 in
      let flag = (Flags-split o.free_list xs (c ∷ ys) flags).1.0 in
      (
        new_node c.value (last null xs) (first null ys) c.extra_info,
        rw at node,
        flag ∙ ap (λ a. elem a o.free_list) (sym at) ∙ out,
      )

  -- Where objects are free, the first one is handed out.
  pub try-first :
      (c : Construct T) (p : Ptr) (rest : List Ptr)
      → o.free_list ≡ p ∷ rest
      → (o' : Objects T) × (do_try_borrow_one max_size c o ≡ ok p o') × (o'.free_list ≡ rest)
  unfolding do_try_borrow_one borrow_again
  try-first c p rest free =
      let (o', cs', e, hold', free', _, _) =
        take-Holds max_size o cs hold c (borrow_again 1 max_size c) p rest free in
      (o', ap (λ fs. borrow_at max_size c (borrow_again 1 max_size c) fs o) free ∙ e, free')

  -- Giving back one object leaves another one lent.
  give_back-lent :
      (p q : Ptr)
      → IsLent o p
      → IsLent o q
      → p ≢ q
      → max_size < 2 ^ 64
      → (o' : Objects T) × (cs' : List (Cell T Bool)) × (give_back p o ≡ ok tt o')
        × Holds max_size o' cs'
        × (o'.free_list ≡ p ∷ o.free_list)
        × (has q cs' ≡ true)
        × (elem q o'.free_list ≡ false)
  give_back-lent p q lent_p lent_q ne fits =
      let (i, out) = lent max_size fits o cs hold p lent_p in
      let (j, out') = lent max_size fits o cs hold q lent_q in
      let (o', cs', e, hold', free, same, _) = give_back-Holds max_size o cs hold p i out in
      (
        o',
        cs',
        e,
        hold',
        free,
        sym (elem-addrs q cs') ∙ ap (elem q) same ∙ elem-addrs q cs ∙ j,
        ap (elem q) free ∙ ground (arith, ne),
      )

module _ (T : Type 0) (max_size : ℕ) (fits : max_size < 2 ^ 64) where
  -- From a pool whose objects are all lent, where nobody waits, there is a run after which a thread
  -- is blocked in `borrow_one`, no notification is on its way and `new_obj_ready` is false, although
  -- an object is free: two objects came back before the thread tested the flag, and one of them was
  -- borrowed again, which reset it.
  pub stale_flag :
      (s : Threaded T max_size) (p q h : ℕ) (c : Construct T)
      → IsReady T max_size fits s
      → s.checking ≡ []
      → s.waiting ≡ []
      → s.notifying ≡ []
      → p ≢ q
      → ((o : Objects T) × (do_try_borrow_one max_size c s.objects ≡ ok null o)
          × IsLent o p
          × IsLent o q)
      → (u : Threaded T max_size) × Reach T max_size s u
        × (u.waiting ≡ h ∷ [])
        × (u.checking ≡ [])
        × (u.notifying ≡ [])
        × (u.new_obj_ready ≡ false)
        × (u.objects.free_list ≡ p ∷ [])
  stale_flag s p q h c v none_checks none_waits none_notifies ne (o, e, lent_p, lent_q) =
      let (cs, hold) = v.sound in
      let (cs₀, hold₀, free) = try-free max_size fits s.objects cs hold c null o e in
      let (empty, _) = (borrow-null_iff max_size s.objects cs hold c fits).0 (o, e) in
      let none_free : o.free_list ≡ [] = free ∙ ap tail empty in
      let (o₁, cs₁, e₁, hold₁, free₁, i₁, out₁) =
        give_back-lent max_size o cs₀ hold₀ p q lent_p lent_q ne fits in
      let lent_q' = IsLent-of max_size o₁ cs₁ hold₁ q i₁ out₁ in
      let (o₂, cs₂, e₂, hold₂, free₂, _, _) = give_back-Holds max_size o₁ cs₁ hold₁ q i₁ out₁ in
      let free_pq : o₂.free_list ≡ q ∷ p ∷ [] =
        free₂ ∙ ap (λ t. q ∷ t) (free₁ ∙ ap (λ t. p ∷ t) none_free) in
      let (o₃, e₃, free₃) = try-first max_size o₂ cs₂ hold₂ c q (p ∷ []) free_pq in
      let q_ne : q ≢ null = λ z.
        cc
          (ap (λ a. has a cs₁) z, i₁, not-has-null cs₁ o₁.buffer.cell null null hold₁.list.chain) in
      let u : Threaded T max_size = record s {
        objects = o₃;
        new_obj_ready = false;
        checking = [];
        waiting = h ∷ s.waiting;
        notifying = [];
      } in
      (
        u,
        next
            (next
              (next
                (next
                  (next (next (next here (fails h c o e refl)) (releases 0 p o₁ lent_p e₁ refl))
                    (releases 1 q o₂ lent_q' e₂ refl))
                  (notifies_none 1 [] (0 ∷ s.notifying) refl none_waits refl))
                (notifies_none 0 [] [] (ap (λ t. 0 ∷ t) none_notifies) none_waits refl))
              (borrows c q o₃ e₃ q_ne refl))
            (blocks h [] [] (ap (λ t. h ∷ t) none_checks) refl refl),
        ap (λ t. h ∷ t) none_waits,
        refl,
        refl,
        refl,
        free₃,
      )
