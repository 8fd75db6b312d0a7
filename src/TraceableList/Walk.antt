-- ===== src/TraceableList/Walk.antt =====
-- The iterator of lib/traceable_list.hpp: its steps both ways, and its construction from a pointer to
-- the data.
use ali_middleware.Common.{
  ◌≡◌, refl, ◌∙◌, false, some, List, [], ◌∷◌, ◌++◌, arith, ◌==◌, length-append, append_assoc, ap,
}
use ali_middleware.Common.Run.{ok, fault}
use ali_middleware.TraceableList.{
  Ptr, null, new_node, TraceableList, iterator, write, load, store, end, of_data, deref, increment,
  decrement, get_extra_info, set_extra_info,
}
use ali_middleware.TraceableList.Chain.{
  Cell, has, first, last, IsList, last-append, Chain-split, Chain-append, Chain-frame,
  not-has-middle, not-has-split, has-append, Distinct-split, Distinct-append, Below-split,
  Below-append, first-append,
}
use ali_middleware.TraceableList.Links.{load-ok}

module _ {T E : Type 0} (s : TraceableList T E) (xs : List (Cell T E)) (c : Cell T E)
    (ys : List (Cell T E)) (is : IsList s (xs ++ c ∷ ys)) where
  -- The node of a cell, wherever in the list the cell stands.
  node-ok : load c.addr s ≡ ok (new_node c.value (last null xs) (first null ys) c.extra_info) s
  node-ok =
      let (l, (ne, e, r)) = Chain-split xs (c ∷ ys) s.cell null null is.chain in
      load-ok s c.addr _ ne e

  -- `++` goes to the next cell, behind the last one to end().
  pub increment-next :
      (t : Ptr)
      → increment (record { ptr = c.addr; impl_tail = t }) s
        ≡ ok (record { ptr = first null ys; impl_tail = t }) s
  unfolding increment
  increment-next t = rw node-ok

  -- `--` goes to the cell before.
  pub decrement-prev :
      (t : Ptr)
      → decrement (record { ptr = c.addr; impl_tail = t }) s
        ≡ ok (record { ptr = last null xs; impl_tail = t }) s
  unfolding decrement
  decrement-prev t =
      let (l, (ne, e, r)) = Chain-split xs (c ∷ ys) s.cell null null is.chain in
      let named : (c.addr == null) ≡ false = ground (arith, ne) in rw (named, node-ok)

  -- `*` reads the cell's value.
  pub deref-value : (t : Ptr) → deref (record { ptr = c.addr; impl_tail = t }) s ≡ ok c.value s
  unfolding deref
  deref-value t = rw node-ok

  -- The iterator of a pointer to the data: the magic number is sound at every cell.
  pub of_data-ok : of_data c.addr s ≡ ok (iterator c.addr) s
  unfolding of_data
  of_data-ok = rw node-ok

  pub get_extra_info-ok :
      (t : Ptr) → get_extra_info (record { ptr = c.addr; impl_tail = t }) s ≡ ok c.extra_info s
  unfolding get_extra_info
  get_extra_info-ok t = rw node-ok

  -- A write of the flag changes that flag alone.
  pub set_extra_info-IsList :
      (t : Ptr) (e : E)
      → (s' : TraceableList T E) × (set_extra_info (record { ptr = c.addr; impl_tail = t }) e s
          ≡ ok tt s')
        × IsList s' (xs ++ record c { extra_info = e } ∷ ys)
        × (s'.brk ≡ s.brk)
  unfolding set_extra_info store
  set_extra_info-IsList t e =
      let (l, (ne, at, r)) = Chain-split xs (c ∷ ys) s.cell null null is.chain in
      let c' = record c { extra_info = e } in
      let h = write s.cell c.addr (some (new_node c.value (last null xs) (first null ys) e)) in
      let (outl, _) = not-has-middle xs c ys is.distinct in
      let (dl, (outr, dr), apart) = Distinct-split xs (c ∷ ys) is.distinct in
      (
        record s { cell = h },
        rw node-ok,
        record {
          chain =
              Chain-append xs (c' ∷ ys) h null null
                (Chain-frame xs s.cell h null c.addr l (λ a i. ground arith))
                (ne, ground arith, Chain-frame ys s.cell h c.addr null r (λ a i. ground arith));
          distinct = Distinct-append xs (c' ∷ ys) dl (outr, dr) (λ a i. apart a i);
          head = is.head ∙ rw (first-append null xs (c ∷ ys), first-append null xs (c' ∷ ys));
          tail = is.tail ∙ rw (last-append null xs (c ∷ ys), last-append null xs (c' ∷ ys));
          m_size = omega (arith, is.m_size, length-append xs (c ∷ ys), length-append xs (c' ∷ ys));
          bounded =
              omega (arith, is.bounded, length-append xs (c ∷ ys), length-append xs (c' ∷ ys));
          below =
              let (bl, br) = Below-split s.brk xs (c ∷ ys) is.below in
              Below-append s.brk xs (c' ∷ ys) bl br;
          brk = is.brk;
          owned = λ a o.
              let (o₁, o₂, o₃) = not-has-split a xs c' ys o in
              ground (arith, is.owned a, has-append a xs (c ∷ ys));
        },
        refl,
      )

module _ {T E : Type 0} (s : TraceableList T E) where
  -- begin() names the first cell, and `--end()` the last.
  pub decrement-end :
      (cs : List (Cell T E)) (c : Cell T E)
      → IsList s (cs ++ c ∷ [])
      → (end s ≡ ok (record { ptr = null; impl_tail = s.tail }) s)
        × (decrement (record { ptr = null; impl_tail = s.tail }) s
            ≡ ok (record { ptr = c.addr; impl_tail = s.tail }) s)
  unfolding end decrement
  decrement-end cs c is =
      let (l, (ne, e, r)) = Chain-split cs (c ∷ []) s.cell null null is.chain in
      let at : s.tail ≡ c.addr = is.tail ∙ last-append null cs (c ∷ []) in
      let named : (s.tail == null) ≡ false = ground (arith, ne, at) in
      (refl, rw named (ap (λ p. ok (record { ptr = p; impl_tail = s.tail }) s) at))

  -- A pointer to freed or foreign memory makes no iterator.
  pub of_data-dangling :
      (cs : List (Cell T E)) (p : Ptr) → IsList s cs → has p cs ≡ false → of_data p s ≡ fault
  unfolding of_data load
  of_data-dangling cs p is out = ground (arith, is.owned p out)

  -- `--` undoes `++`, wherever `++` does not leave the list.
  pub decrement-increment :
      (xs : List (Cell T E)) (c d : Cell T E) (ys : List (Cell T E)) (t : Ptr)
      → IsList s (xs ++ c ∷ d ∷ ys)
      → (increment (record { ptr = c.addr; impl_tail = t }) s
          ≡ ok (record { ptr = d.addr; impl_tail = t }) s)
        × (decrement (record { ptr = d.addr; impl_tail = t }) s
            ≡ ok (record { ptr = c.addr; impl_tail = t }) s)
  decrement-increment xs c d ys t is =
      let is' : IsList s ((xs ++ c ∷ []) ++ d ∷ ys) = rw (append_assoc) is in
      (
        increment-next s xs c (d ∷ ys) is t,
        decrement-prev s (xs ++ c ∷ []) d ys is' t
            ∙ ap (λ p. ok (record { ptr = p; impl_tail = t }) s) (last-append null xs (c ∷ [])),
      )
