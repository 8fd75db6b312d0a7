-- ===== src/TraceableList/Pop.antt =====
-- `pop_one`, `pop_front` and `pop_back` of lib/traceable_list.hpp.
use ali_middleware.Common.{
  ◌+◌, ◌-◌, ◌%◌, ◌^◌, ◌≡◌, refl, ◌∙◌, ◌≢◌, inl, inr, false, not, Option, none, some, List, [], ◌∷◌,
  ◌++◌, arith, ◌==◌, if◌then◌else◌, length-append, Bool-cases,
}
use ali_middleware.Common.Run.{ok, thrown, fault, when, modify, invalid_argument}
use ali_middleware.TraceableList.{
  Ptr, null, Node, TraceableList, Iterator, write, unlink, pop_one, pop_front, pop_back, begin, end,
  decrement, nothing_to_pop, load, set_next, set_prev,
}
use ali_middleware.TraceableList.Chain.{
  Cell, has, first, last, Chain, SameOutside, IsList, first-append, last-append, Chain-split,
  Chain-append, Chain-frame, Distinct-split, Distinct-append, Below-split, Below-append, has-append,
  has-last, first-ne-null,
}
use ali_middleware.TraceableList.Links.{
  load-ok, delete-ok, relink_left, relink_right, head-ok, popped_head,
}

module _ {T E : Type 0} where
  tail-ok :
      (s : TraceableList T E) (p q : Ptr)
      → when (s.tail == p) (modify (λ (r : TraceableList T E). record r { tail = q })) s
        ≡ ok tt (record s { tail = if s.tail == p then q else s.tail })
  tail-ok s p q = elim (Bool-cases (s.tail == p)) [ inl e ↦ rw e | inr e ↦ rw e ]

  popped_tail :
      (c : Cell T E) (ys : List (Cell T E)) (q : Ptr)
      → has c.addr ys ≡ false
      → (if last c.addr ys == c.addr then q else last c.addr ys) ≡ last q ys
  popped_tail c [] q out = ground arith
  popped_tail c (y ∷ ys) q out = ground (arith, has-last y ys)

  -- The run of `unlink`, given the node and the two relinked heaps.
  unlink-ok :
      (s : TraceableList T E) (p : Ptr) (n m : Node T E) (g₁ g₂ : Ptr → Option (Node T E))
      → p ≢ null
      → s.cell p ≡ some n
      → when (not (n.prev == null)) (set_next n.prev n.next) s ≡ ok tt (record s { cell = g₁ })
      → when (not (n.next == null)) (set_prev n.next n.prev) (record s { cell = g₁ })
        ≡ ok tt (record s { cell = g₂ })
      → g₂ p ≡ some m
      → unlink p s
        ≡ ok tt (record s {
          cell = write g₂ p none;
          head = if s.head == p then n.next else s.head;
          tail = if s.tail == p then n.prev else s.tail;
          m_size = (s.m_size + 2 ^ 64 - 1) % 2 ^ 64;
        })
  unfolding unlink
  unlink-ok s p n m g₁ g₂ ne e e₁ e₂ e₃ =
      let s₂ = record s { cell = g₂ } in
      let s₃ = record s₂ { head = if s.head == p then n.next else s.head } in
      rw (load-ok s p n ne e, e₁, e₂, head-ok s₂ p n.next, tail-ok s₃ p n.prev)
        (delete-ok _ p m ne e₃)

  module _ (s : TraceableList T E) (xs : List (Cell T E)) (c : Cell T E)
      (ys : List (Cell T E)) where
    -- What taking the cell out achieves: the others are left, and its node is freed.
    abbrev pub Unlinked : TraceableList T E → Type 0
    Unlinked s' = IsList s' (xs ++ ys) × (s'.brk ≡ s.brk) × (s'.cell c.addr ≡ none)

    -- The state that `unlink` leaves, over the relinked heap.
    abbrev unlinked : (Ptr → Option (Node T E)) → TraceableList T E
    unlinked g = record s {
      cell = write g c.addr none;
      head = if s.head == c.addr then first null ys else s.head;
      tail = if s.tail == c.addr then last null xs else s.tail;
      m_size = (s.m_size + 2 ^ 64 - 1) % 2 ^ 64;
    }

    unlinked-IsList :
        (g : Ptr → Option (Node T E))
        → IsList s (xs ++ c ∷ ys)
        → Chain g null (first null ys) xs
        → Chain g (last null xs) null ys
        → SameOutside (xs ++ ys) s.cell g
        → IsList (unlinked g) (xs ++ ys)
    unlinked-IsList g is l r same =
        let (dl, (out, dr), apart) = Distinct-split xs (c ∷ ys) is.distinct in
        let (bl, (_, br)) = Below-split s.brk xs (c ∷ ys) is.below in
        let out' : has c.addr xs ≡ false = ground (arith, apart c.addr) in
        let h = write g c.addr none in
        record {
          chain =
              Chain-append xs ys h null null
                (Chain-frame xs g h null (first null ys) l (λ a i. ground arith))
                (Chain-frame ys g h (last null xs) null r (λ a i. ground arith));
          distinct = Distinct-append xs ys dl dr (λ a i. ground (arith, apart a));
          head =
              rw (is.head, first-append null xs (c ∷ ys), first-append null xs ys)
                (popped_head c xs (first null ys) out');
          tail =
              rw (is.tail, last-append null xs (c ∷ ys), last-append null xs ys)
                (popped_tail c ys (last null xs) out);
          m_size =
              omega (arith, is.m_size, is.bounded, length-append xs (c ∷ ys), length-append xs ys);
          bounded = omega (arith, is.bounded, length-append xs (c ∷ ys), length-append xs ys);
          below = Below-append s.brk xs ys bl br;
          brk = is.brk;
          owned = λ a o.
              ground (arith, has-append a xs ys, has-append a xs (c ∷ ys), same a, is.owned a);
        }

    unlink-IsList :
        IsList s (xs ++ c ∷ ys)
        → (s' : TraceableList T E) × (unlink c.addr s ≡ ok tt s') × Unlinked s'
    unfolding unlink
    unlink-IsList is =
        let (l, (ne, e, r)) = Chain-split xs (c ∷ ys) s.cell null null is.chain in
        let (dl, (out, dr), apart) = Distinct-split xs (c ∷ ys) is.distinct in
        let out' : has c.addr xs ≡ false = ground (arith, apart c.addr) in
        let (g₁, e₁, l₁, same₁) = relink_left s (first null ys) xs c.addr l dl in
        let r₁ = Chain-frame ys s.cell g₁ c.addr null r (λ a i. ground (arith, same₁ a, apart a)) in
        let (g₂, e₂, r₂, same₂) =
          relink_right (record s { cell = g₁ }) (last null xs) ys c.addr r₁ dr in
        let l₂ =
          Chain-frame xs g₁ g₂ null (first null ys) l₁ (λ a i. ground (arith, same₂ a, apart a)) in
        let at₂ : g₂ c.addr ≡ s.cell c.addr = same₂ c.addr out ∙ same₁ c.addr out' in
        (
          unlinked g₂,
          unlink-ok s c.addr _ _ g₁ g₂ ne e e₁ e₂ (at₂ ∙ e),
          (
            unlinked-IsList g₂ is l₂ r₂
                (λ a o. ground (arith, has-append a xs ys, same₁ a, same₂ a)),
            refl,
            ground arith,
          ),
        )

    -- `pop_one` at an iterator to a cell of the list takes that cell out, frees its node, and leaves
    -- the other cells at their addresses and in their order.
    pub pop_one-IsList :
        (p t : Ptr)
        → p ≡ c.addr
        → IsList s (xs ++ c ∷ ys)
        → (s' : TraceableList T E) × (pop_one (record { ptr = p; impl_tail = t }) s ≡ ok tt s')
          × Unlinked s'
    unfolding pop_one
    pop_one-IsList p t at is =
        let (l, (ne, e, r)) = Chain-split xs (c ∷ ys) s.cell null null is.chain in
        let some_head : (s.head == null) ≡ false =
          ground (arith, is.head, first-ne-null xs c ys s.cell null null is.chain) in
        let named : (c.addr == null) ≡ false = ground (arith, ne) in
        rw (some_head, at, named) (unlink-IsList is)

  -- `pop_front` takes the first cell out.
  pub pop_front-IsList :
      (s : TraceableList T E) (c : Cell T E) (cs : List (Cell T E))
      → IsList s (c ∷ cs)
      → (s' : TraceableList T E) × (pop_front s ≡ ok tt s') × Unlinked s [] c cs s'
  unfolding pop_front begin
  pop_front-IsList s c cs is = pop_one-IsList s [] c cs s.head s.tail is.head is

  -- `pop_back` takes the last cell out.
  pub pop_back-IsList :
      (s : TraceableList T E) (cs : List (Cell T E)) (c : Cell T E)
      → IsList s (cs ++ c ∷ [])
      → (s' : TraceableList T E) × (pop_back s ≡ ok tt s') × Unlinked s cs c [] s'
  unfolding pop_back end decrement
  pop_back-IsList s cs c is =
      let (l, (ne, e, r)) = Chain-split cs (c ∷ []) s.cell null null is.chain in
      let at : s.tail ≡ c.addr = is.tail ∙ last-append null cs (c ∷ []) in
      let named : (s.tail == null) ≡ false = ground (arith, ne, at) in
      rw named (pop_one-IsList s cs c [] s.tail s.tail at is)

  -- What the empty list answers: `pop_one` and `pop_front` throw, but `pop_back` reads through null.
  pub pop-empty :
      (s : TraceableList T E) (it : Iterator)
      → IsList s []
      → (pop_one it s ≡ thrown (invalid_argument nothing_to_pop) s)
        × (pop_front s ≡ thrown (invalid_argument nothing_to_pop) s)
        × (pop_back s ≡ fault)
  unfolding pop_one pop_front pop_back begin end decrement load
  pop-empty s it is = (rw is.head, rw is.head, rw is.tail)
