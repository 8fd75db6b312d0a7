-- ===== src/TraceableList/Range.antt =====
-- The loops of lib/traceable_list.hpp: `pop_some` and the destructor.
use ali_middleware.Common.{
  ℕ, zero, suc, ◌+◌, ◌<◌, ◌≡◌, refl, ◌∙◌, ap, true, false, Option, none, List, [], ◌∷◌, ◌++◌, arith,
  ◌==◌, if◌then◌else◌, length, length-append,
}
use ali_middleware.Common.Run.{ok}
use ali_middleware.TraceableList.{
  Ptr, null, Node, TraceableList, write, pop_some_loop, pop_some, destroy_loop, destroy, begin, end,
  post_increment, increment,
}
use ali_middleware.TraceableList.Chain.{
  Cell, has, first, Chain, Distinct, IsList, Chain-split, Chain-frame, Distinct-split, has-append,
}
use ali_middleware.TraceableList.Links.{load-ok, delete-ok}
use ali_middleware.TraceableList.Walk.{increment-next}
use ali_middleware.TraceableList.Pop.{pop_one-IsList}

module _ {T E : Type 0} where
  -- The end of a range is not the address of a cell in it.
  range_end :
      (c : Cell T E) (ys zs : List (Cell T E)) (h : Ptr → Option (Node T E)) (before : Ptr)
      → Chain h before null (c ∷ ys ++ zs)
      → Distinct (c ∷ ys ++ zs)
      → (c.addr == first null zs) ≡ false
  range_end c ys [] h before l d = ground (arith, l.0)
  range_end c ys (z ∷ zs) h before l d = ground (arith, has-append c.addr ys (z ∷ zs), d.0)

  pop_some_loop-IsList :
      (k : ℕ) (s : TraceableList T E) (xs ys zs : List (Cell T E)) (t u : Ptr)
      → IsList s (xs ++ (ys ++ zs))
      → length ys < k
      → (s' : TraceableList T E) × (pop_some_loop k
            (record { ptr = first null (ys ++ zs); impl_tail = t })
            (record { ptr = first null zs; impl_tail = u })
            s
          ≡ ok tt s')
        × IsList s' (xs ++ zs)
  unfolding pop_some_loop post_increment
  pop_some_loop-IsList zero s xs ys zs t u is fuel = absurd (omega arith)
  pop_some_loop-IsList (suc k) s xs [] zs t u is fuel =
      let same : (first null zs == first null zs) ≡ true = ground arith in (s, rw same, is)
  pop_some_loop-IsList (suc k) s xs (y ∷ ys) zs t u is fuel =
      let (l, r) = Chain-split xs (y ∷ ys ++ zs) s.cell null null is.chain in
      let more = range_end y ys zs s.cell _ r (Distinct-split xs (y ∷ ys ++ zs) is.distinct).1 in
      let (s₁, e₁, u₁) = pop_one-IsList s xs y (ys ++ zs) y.addr null refl is in
      let (s₂, e₂, is₂) = pop_some_loop-IsList k s₁ xs ys zs t u u₁.0 (omega arith) in
      (s₂, rw (more, increment-next s xs y (ys ++ zs) is t, e₁) e₂, is₂)

  freed :
      (xs ys zs : List (Cell T E)) (a : Ptr)
      → Distinct (xs ++ (ys ++ zs))
      → has a ys ≡ true
      → has a (xs ++ zs) ≡ false
  freed xs ys zs a d i =
      let (_, dr, apart) = Distinct-split xs (ys ++ zs) d in
      let (_, _, apart') = Distinct-split ys zs dr in
      ground (arith, has-append a xs zs, has-append a ys zs, apart a, apart' a)

  -- `pop_some` from an iterator to a later one, or to end(), takes out exactly the cells between the
  -- two and frees them; its loop ends.
  pub pop_some-IsList :
      (s : TraceableList T E) (xs ys zs : List (Cell T E)) (t u : Ptr)
      → IsList s (xs ++ (ys ++ zs))
      → (s' : TraceableList T E) × (pop_some
            (record { ptr = first null (ys ++ zs); impl_tail = t })
            (record { ptr = first null zs; impl_tail = u })
            s
          ≡ ok tt s')
        × IsList s' (xs ++ zs)
        × ((a : Ptr) → has a ys ≡ true → s'.cell a ≡ none)
  unfolding pop_some
  pop_some-IsList s xs ys zs t u is =
      let (s', e, is') =
        pop_some_loop-IsList (s.m_size + 1) s xs ys zs t u is
          (omega (arith, is.m_size, length-append xs (ys ++ zs), length-append ys zs)) in
      (s', e, is', λ a i. is'.owned a (freed xs ys zs a is.distinct i))

  destroy_loop-frees :
      (k : ℕ) (cs : List (Cell T E)) (s : TraceableList T E) (before t : Ptr)
      → Chain s.cell before null cs
      → Distinct cs
      → length cs < k
      → (g : Ptr → Option (Node T E)) × (destroy_loop k
            (record { ptr = first null cs; impl_tail = t })
            s
          ≡ ok tt (record s { cell = g }))
        × ((a : Ptr) → g a ≡ (if has a cs then none else s.cell a))
  unfolding destroy_loop post_increment increment end
  destroy_loop-frees zero cs s before t l d fuel = absurd (omega arith)
  destroy_loop-frees (suc k) [] s before t l d fuel = (s.cell, refl, λ a. refl)
  destroy_loop-frees (suc k) (c ∷ cs) s before t (ne, e, l) (out, d) fuel =
      let more : (c.addr == null) ≡ false = ground (arith, ne) in
      let h = write s.cell c.addr none in
      let (g, e', frees) =
        destroy_loop-frees k cs (record s { cell = h }) c.addr t
          (Chain-frame cs s.cell h c.addr null l (λ a i. ground arith)) d (omega arith) in
      (
        g,
        rw (more, load-ok s c.addr _ ne e, delete-ok s c.addr _ ne e) e',
        λ a. ground (arith, frees a),
      )

  -- The destructor frees every node of the list, once each: no node is left, none is freed twice.
  pub destroy-frees :
      (s : TraceableList T E) (cs : List (Cell T E))
      → IsList s cs
      → (s' : TraceableList T E) × (destroy s ≡ ok tt s') × ((a : Ptr) → s'.cell a ≡ none)
  unfolding destroy begin
  destroy-frees s cs is =
      let (g, e, frees) =
        destroy_loop-frees (s.m_size + 1) cs s null s.tail is.chain is.distinct
          (omega (arith, is.m_size)) in
      (
        record s { cell = g },
        ap (λ p. destroy_loop (s.m_size + 1) (record { ptr = p; impl_tail = s.tail }) s) is.head
            ∙ e,
        λ a. ground (arith, frees a, is.owned a),
      )
