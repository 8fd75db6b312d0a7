-- ===== src/TraceableList/Links.antt =====
-- The writes of lib/traceable_list.hpp that relink one end of a chain.
use ali_middleware.Common.{
  ◌≡◌, refl, ◌≢◌, inl, inr, not, Option, none, some, List, [], ◌∷◌, ◌++◌, arith, ◌==◌,
  if◌then◌else◌, Bool-cases, false,
}
use ali_middleware.Common.Run.{Run, ok, when, modify}
use ali_middleware.TraceableList.{
  Ptr, null, Node, new_node, TraceableList, write, load, store, set_next, set_prev, delete,
}
use ali_middleware.TraceableList.Chain.{
  Cell, has, first, last, Distinct, Chain, SameOutside, last-append, Chain-split, Chain-append,
  Chain-frame, Distinct-split, last_cases, has-append,
}

module _ {T E : Type 0} (s : TraceableList T E) where
  pub load-ok : (p : Ptr) (n : Node T E) → p ≢ null → s.cell p ≡ some n → load p s ≡ ok n s
  unfolding load
  load-ok p n ne e = let miss : (p == null) ≡ false = ground arith in rw (miss, e)

  pub set_next-ok :
      (p q : Ptr) (n : Node T E)
      → p ≢ null
      → s.cell p ≡ some n
      → set_next p q s ≡ ok tt (record s { cell = write s.cell p (some (record n { next = q })) })
  unfolding set_next store
  set_next-ok p q n ne e = rw (load-ok p n ne e)

  pub set_prev-ok :
      (p q : Ptr) (n : Node T E)
      → p ≢ null
      → s.cell p ≡ some n
      → set_prev p q s ≡ ok tt (record s { cell = write s.cell p (some (record n { prev = q })) })
  unfolding set_prev store
  set_prev-ok p q n ne e = rw (load-ok p n ne e)

  pub delete-ok :
      (p : Ptr) (n : Node T E)
      → p ≢ null
      → s.cell p ≡ some n
      → delete p s ≡ ok tt (record s { cell = write s.cell p none })
  unfolding delete store
  delete-ok p n ne e = rw (load-ok p n ne e)

  -- The command changes the heap alone, and what it leaves is a chain between these ends.
  abbrev pub Relinks : Ptr → Ptr → List (Cell T E) → Run (TraceableList T E) (Unit {0}) → Type 0
  Relinks before stop xs run =
      (g : Ptr → Option (Node T E)) × (run ≡ ok tt (record s { cell = g }))
      × Chain g before stop xs
      × SameOutside xs s.cell g

  pub relink_last :
      (q : Ptr) (ws : List (Cell T E)) (w : Cell T E) (stop : Ptr)
      → Chain s.cell null stop (ws ++ w ∷ [])
      → Distinct (ws ++ w ∷ [])
      → Relinks null q (ws ++ w ∷ []) (set_next w.addr q s)
  relink_last q ws w stop c d =
      let (l, r) = Chain-split ws (w ∷ []) s.cell null stop c in
      let (dl, dr, apart) = Distinct-split ws (w ∷ []) d in
      let n = new_node w.value (last null ws) q w.extra_info in
      let g = write s.cell w.addr (some n) in
      (
        g,
        set_next-ok w.addr q _ r.0 r.1,
        Chain-append ws (w ∷ []) g null q
            (Chain-frame ws s.cell g null w.addr l (λ a i. ground (arith, apart a)))
            (r.0, ground arith, tt),
        λ a out. ground (arith, has-append a ws (w ∷ [])),
      )

  -- `if (left) left->next = q`, where `left` is the last node of the chain.
  pub relink_left :
      (q : Ptr) (xs : List (Cell T E)) (stop : Ptr)
      → Chain s.cell null stop xs
      → Distinct xs
      → Relinks null q xs (when (not (last null xs == null)) (set_next (last null xs) q) s)
  relink_left q xs stop c d = elim (last_cases xs) [
    | inl e ↦ rw e (s.cell, refl, tt, λ a out. refl)
    | inr (ws, w, e) ↦
        let (l, r) = Chain-split ws (w ∷ []) s.cell null stop (rw e at c) in
        let named : (w.addr == null) ≡ false = ground (arith, r.0) in
        rw (e, last-append null ws (w ∷ []), named)
          (relink_last q ws w stop (rw e at c) (rw e at d))
  ]

  -- `if (right) right->prev = p`, where `right` is the first node of the chain.
  pub relink_right :
      (p : Ptr) (ys : List (Cell T E)) (before : Ptr)
      → Chain s.cell before null ys
      → Distinct ys
      → Relinks p null ys (when (not (first null ys == null)) (set_prev (first null ys) p) s)
  relink_right p [] before c d = (s.cell, refl, tt, λ a out. refl)
  relink_right p (y ∷ ys) before (ne, e, c) (out, d) =
      let n = new_node y.value p (first null ys) y.extra_info in
      let g = write s.cell y.addr (some n) in
      let named : (y.addr == null) ≡ false = ground (arith, ne) in
      rw named (
        g,
        set_prev-ok y.addr p _ ne e,
        (ne, ground arith, Chain-frame ys s.cell g y.addr null c (ground arith)),
        ground arith,
      )

module _ {T E : Type 0} where
  -- `if (head == p) head = q`
  pub head-ok :
      (s : TraceableList T E) (p q : Ptr)
      → when (s.head == p) (modify (λ (r : TraceableList T E). record r { head = q })) s
        ≡ ok tt (record s { head = if s.head == p then q else s.head })
  head-ok s p q = elim (Bool-cases (s.head == p)) [ inl e ↦ rw e | inr e ↦ rw e ]

  pub popped_head :
      (c : Cell T E) (xs : List (Cell T E)) (q : Ptr)
      → has c.addr xs ≡ false
      → (if first c.addr xs == c.addr then q else first c.addr xs) ≡ first q xs
  popped_head c [] q out = ground arith
  popped_head c (x ∷ xs) q out = ground arith
