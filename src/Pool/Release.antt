-- ===== src/Pool/Release.antt =====
-- `release_one` of lib/pool.hpp against borrowing, and what `fill_full` sets up.
use ali_middleware.Common.{
  ℕ, zero, suc, ◌≤◌, ◌<◌, ◌^◌, ◌≡◌, refl, ◌≢◌, ◌↔◌, ◌⊎◌, inl, inr, sym, ◌∙◌, ap, subst, Bool, true,
  false, List, [], ◌∷◌, arith, ltb, length,
}
use mathlib.Core.Path.{subst₂}
use ali_middleware.Common.Run.{ok, ◌>>◌}
use ali_middleware.TraceableList.{Ptr, null}
use ali_middleware.TraceableList.Chain.{Cell, has, not-has-null, not-has-Below}
use ali_middleware.Pool.{
  Objects, Construct, built, borrow_at, borrow_again, do_try_borrow_one, give_back, fill_full,
  no_objects,
}
use ali_middleware.Common.Except.{success}
use ali_middleware.Pool.Fill.{all_built, Filled, fill_full-Filled}
use ali_middleware.Pool.Holds.{Holds, elem, Nodup, Owned-has}
use ali_middleware.Pool.Mark.{addrs, mark-Holds}
use ali_middleware.Pool.Borrow.{View, borrow_spec, take-Holds}
use ali_middleware.Pool.Refine.{view, length-addrs, do_try_borrow_one-Outcome}

-- An object that the specification hands out is not free afterwards, and was free or did not exist.
borrow_spec-exclusive :
    (max_size new : ℕ) (objects free : List Ptr) (r : Ptr) (v : View)
    → (r, v) ≡ borrow_spec max_size new objects free
    → Nodup free
    → elem new objects ≡ false
    → r ≢ null
    → (elem r v.free ≡ false) × ((elem r free ≡ true) ⊎ (elem r objects ≡ false))
unfolding borrow_spec
borrow_spec-exclusive max_size new objects (p ∷ free) r v eq nodup fresh ne = ground (arith)
borrow_spec-exclusive max_size new objects [] r v eq nodup fresh ne = ground (arith)

-- It answers null only where no object is free and there is no room for another.
borrow_spec-null :
    (max_size new : ℕ) (objects free : List Ptr)
    → new ≢ null
    → elem null free ≡ false
    → (borrow_spec max_size new objects free).0 ≡ null
    → (free ≡ []) × (ltb (length objects) max_size ≡ false)
unfolding borrow_spec
borrow_spec-null max_size new objects (p ∷ free) ne out e = ground (arith)
borrow_spec-null max_size new objects [] ne out e = ground arith

borrow_spec-full :
    (max_size new : ℕ) (objects free : List Ptr)
    → free ≡ []
    → max_size ≤ length objects
    → (borrow_spec max_size new objects free).0 ≡ null
unfolding borrow_spec
borrow_spec-full max_size new objects [] e full = ground arith
borrow_spec-full max_size new objects (p ∷ free) e full = cc

module _ {T : Type 0} where
  pub elem-addrs : (a : Ptr) (cs : List (Cell T Bool)) → elem a (addrs cs) ≡ has a cs
  elem-addrs a [] = refl
  elem-addrs a (c ∷ cs) = ground (arith, elem-addrs a cs)

  module _ (max_size : ℕ) (o : Objects T) (cs : List (Cell T Bool))
      (hold : Holds max_size o cs) where
    -- An object that is handed out is not free any more; before, it was free or did not exist, so
    -- nobody held it.
    pub borrow_exclusive :
        (c : Construct T) (r : Ptr) (o' : Objects T)
        → max_size < 2 ^ 64
        → do_try_borrow_one max_size c o ≡ ok r o'
        → r ≢ null
        → (elem r o'.free_list ≡ false) × ((elem r o.free_list ≡ true) ⊎ (has r cs ≡ false))
    borrow_exclusive c r o' fits e ne = elim (do_try_borrow_one-Outcome max_size o cs hold fits c) [
      | inl ref ↦
          let same_r : ref.result ≡ r = cc (e, ref.returned) in
          let same_o : ref.after ≡ o' = cc (e, ref.returned) in
          let (gone, before) =
            borrow_spec-exclusive max_size o.buffer.brk (addrs cs) o.free_list ref.result
              (view ref.after ref.cells) ref.agrees hold.nodup
              (elem-addrs o.buffer.brk cs ∙ not-has-Below o.buffer.brk cs hold.list.below)
              (λ z. ne (sym same_r ∙ z)) in
          subst₂
            (λ a q.
              (elem a q.free_list ≡ false) × ((elem a o.free_list ≡ true) ⊎ (has a cs ≡ false)))
            same_r same_o (gone, rw (elem-addrs) at before)
      | inr raise ↦ cc raise.unchanged
    ]

    pub free_ne_null : elem null o.free_list ≡ false
    free_ne_null =
        Owned-has cs o.free_list null hold.owned
          (not-has-null cs o.buffer.cell null null hold.list.chain)

    -- Null is the answer exactly where every object is handed out and the pool has its full size.
    pub borrow-null_iff :
        (c : Construct T)
        → max_size < 2 ^ 64
        → ((o' : Objects T) × (do_try_borrow_one max_size c o ≡ ok null o'))
          ↔ ((o.free_list ≡ []) × (length cs ≡ max_size))
    borrow-null_iff c fits = (
      λ (o', e). elim (do_try_borrow_one-Outcome max_size o cs hold fits c) [
        | inl ref ↦
            let (empty, full) =
              borrow_spec-null max_size o.buffer.brk (addrs cs) o.free_list hold.list.brk
                free_ne_null (ap (λ t. t.0) (sym ref.agrees) ∙ cc (e, ref.returned)) in
            (empty, ground (arith, length-addrs cs, hold.within))
        | inr raise ↦ cc (e, raise.unchanged)
      ],
      λ (empty, full). elim (do_try_borrow_one-Outcome max_size o cs hold fits c) [
        | inl ref ↦ (
          ref.after,
          ref.returned
              ∙ ap (λ t. ok t ref.after)
                  (ap (λ t. t.0) ref.agrees
                    ∙ borrow_spec-full max_size o.buffer.brk (addrs cs) o.free_list empty
                        (omega (arith, length-addrs cs))),
        )
        | inr raise ↦ absurd (omega (arith, raise.room))
      ],
    )

    -- Giving back an object of the pool that is not free puts it in front of the free ones, with its
    -- flag set; the pool has the objects that it had.
    pub give_back-Holds :
        (p : Ptr)
        → has p cs ≡ true
        → elem p o.free_list ≡ false
        → (o' : Objects T) × (cs' : List (Cell T Bool)) × (give_back p o ≡ ok tt o')
          × Holds max_size o' cs'
          × (o'.free_list ≡ p ∷ o.free_list)
          × (addrs cs' ≡ addrs cs)
          × (o'.buffer.brk ≡ o.buffer.brk)
    unfolding give_back
    give_back-Holds p i out =
        mark-Holds (record o { free_list = p ∷ o.free_list }) o.free_list p true max_size cs i
          hold.list hold.flags (i, hold.owned) (out, hold.nodup) hold.within (ground arith)
          (λ a ne. ground arith)

    -- What comes back is what the next borrower gets: the pool then has the free list it had before.
    pub borrow-give_back :
        (p : Ptr) (c : Construct T)
        → max_size < 2 ^ 64
        → has p cs ≡ true
        → elem p o.free_list ≡ false
        → (o' : Objects T) × (cs' : List (Cell T Bool)) × ((give_back p
                >> do_try_borrow_one max_size c)
              o
            ≡ ok p o')
          × Holds max_size o' cs'
          × (o'.free_list ≡ o.free_list)
          × (addrs cs' ≡ addrs cs)
    unfolding do_try_borrow_one borrow_again
    borrow-give_back p c fits i out =
        let (o₁, cs₁, e₁, hold₁, free₁, same₁, _) = give_back-Holds p i out in
        let (o₂, cs₂, e₂, hold₂, free₂, same₂, _) =
          take-Holds max_size o₁ cs₁ hold₁ c (borrow_again 1 max_size c) p o.free_list free₁ in
        (
          o₂,
          cs₂,
          rw e₁ (ap (λ fs. borrow_at max_size c (borrow_again 1 max_size c) fs o₁) free₁ ∙ e₂),
          hold₂,
          free₂,
          same₂ ∙ same₁,
        )

  all_built-built : (k : ℕ) (v : ℕ → T) → all_built k (λ i. built (v i)) ≡ success tt
  all_built-built zero v = refl
  all_built-built (suc k) v = all_built-built k v

  -- `fill_full` on a new pool, where every object can be built: all `max_size` objects exist and all
  -- are free.
  pub fill_full-Holds :
      (max_size : ℕ) (v : ℕ → T)
      → max_size < 2 ^ 64
      → (o' : Objects T) × (cs' : List (Cell T Bool)) × (fill_full max_size
            (λ i. built (v i))
            no_objects
          ≡ ok tt o')
        × Holds max_size o' cs'
        × (length cs' ≡ max_size)
        × (length o'.free_list ≡ max_size)
  unfolding no_objects
  fill_full-Holds max_size v fits =
      let c = λ (i : ℕ). built (v i) in
      let (o', cs', e, hold, size, free) =
        subst (λ x. Filled max_size max_size no_objects [] x (fill_full max_size c no_objects))
          (all_built-built max_size v) (fill_full-Filled max_size c fits) in
      (o', cs', e, hold, omega (arith, size), omega (arith, free))
