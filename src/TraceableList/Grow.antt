-- ===== src/TraceableList/Grow.antt =====
-- The two halves of `push_one` of lib/traceable_list.hpp, in a list that has cells.
use ali_middleware.Common.{
  suc, ◌+◌, ◌%◌, ◌^◌, ◌<◌, ◌≡◌, refl, ◌∙◌, ap, ◌≢◌, false, not, Option, some, List, [], ◌∷◌, ◌++◌,
  arith, ◌==◌, if◌then◌else◌, length, length-append, append-nil,
}
use ali_middleware.Common.Run.{ok, when}
use ali_middleware.TraceableList.{
  Ptr, null, Node, new_node, TraceableList, write, push_last, push_before, set_next, set_prev,
}
use ali_middleware.TraceableList.Chain.{
  Cell, first, last, Chain, SameOutside, IsList, first-append, last-append, Chain-split,
  Chain-append, Chain-frame, Distinct-split, Distinct-append, Below-split, Below-append, Below-mono,
  not-has-Below, not-has-drop, not-has-split, not-has-middle,
}
use ali_middleware.TraceableList.Links.{
  load-ok, set_prev-ok, relink_last, relink_left, relink_right, head-ok, popped_head,
}

module _ {T E : Type 0} where
  -- The cell that a push at address `p` adds.
  abbrev pub pushed : Ptr → T → E → Cell T E
  pushed p v e = record { addr = p; value = v; extra_info = e }

  module _ (s : TraceableList T E) (xs ys : List (Cell T E)) (v : T) (e : E) where
    abbrev pub grown : (Ptr → Option (Node T E)) → Ptr → Ptr → TraceableList T E
    grown g hd tl = record {
      cell = g;
      brk = suc s.brk;
      head = hd;
      tail = tl;
      m_size = (s.m_size + 1) % 2 ^ 64;
    }

    pub grown-IsList :
        (g : Ptr → Option (Node T E)) (hd tl : Ptr)
        → IsList s (xs ++ ys)
        → length (xs ++ ys) + 1 < 2 ^ 64
        → Chain g null s.brk xs
        → g s.brk ≡ some (new_node v (last null xs) (first null ys) e)
        → Chain g s.brk null ys
        → SameOutside (xs ++ pushed s.brk v e ∷ ys) s.cell g
        → hd ≡ first s.brk xs
        → tl ≡ last s.brk ys
        → IsList (grown g hd tl) (xs ++ pushed s.brk v e ∷ ys)
    grown-IsList g hd tl is room l m r same h t =
        let n = pushed s.brk v e in
        let (dl, dr, apart) = Distinct-split xs ys is.distinct in
        let (bl, br) = Below-split s.brk xs ys is.below in
        let outl = not-has-Below s.brk xs bl in
        let outr = not-has-Below s.brk ys br in
        record {
          chain = Chain-append xs (n ∷ ys) g null null l (is.brk, m, r);
          distinct = Distinct-append xs (n ∷ ys) dl (outr, dr) (λ a i. ground (arith, apart a));
          head = rw (h, first-append null xs (n ∷ ys));
          tail = rw (t, last-append null xs (n ∷ ys));
          m_size = omega (arith, is.m_size, length-append xs ys, length-append xs (n ∷ ys));
          bounded = omega (arith, length-append xs ys, length-append xs (n ∷ ys));
          below =
              Below-append (suc s.brk) xs (n ∷ ys)
                (Below-mono s.brk (suc s.brk) xs (omega arith) bl)
                (omega arith, Below-mono s.brk (suc s.brk) ys (omega arith) br);
          brk = omega arith;
          owned = λ a o. same a o ∙ is.owned a (not-has-drop a xs n ys o);
        }

    -- The node at the new address, in the heap where nothing else has changed.
    abbrev pub fresh : Ptr → Ptr → Ptr → Option (Node T E)
    fresh p q = write s.cell s.brk (some (new_node v p q e))

  -- The run of `push_before`, given the two nodes and the relinked heaps.
  push_before-ok :
      (t : TraceableList T E) (p right : Ptr) (n m : Node T E) (g₁ g₂ : Ptr → Option (Node T E))
      → right ≢ null
      → p ≢ null
      → t.cell right ≡ some n
      → t.cell p ≡ some m
      → when
          (not (n.prev == null))
          (set_next n.prev p)
          (record t { cell = write t.cell p (some (record m { prev = n.prev })) })
        ≡ ok tt (record t { cell = g₁ })
      → set_prev right p (record t { cell = g₁ }) ≡ ok tt (record t { cell = g₂ })
      → push_before p right t
        ≡ ok tt (record t { cell = g₂; head = if t.head == right then p else t.head })
  unfolding push_before
  push_before-ok t p right n m g₁ g₂ ne ne' e e' e₁ e₂ =
      rw (load-ok t right n ne e, set_prev-ok t p n.prev m ne' e', e₁, e₂)
        (head-ok (record t { cell = g₂ }) right p)

  push_last-ok :
      (t : TraceableList T E) (p : Ptr) (n : Node T E) (g : Ptr → Option (Node T E))
      → p ≢ null
      → set_next t.tail p t ≡ ok tt (record t { cell = g })
      → g p ≡ some n
      → push_last p t
        ≡ ok tt (record t { cell = write g p (some (record n { prev = t.tail })); tail = p })
  unfolding push_last
  push_last-ok t p n g ne e₁ e₂ = rw (e₁, set_prev-ok (record t { cell = g }) p t.tail n ne e₂)

  module _ (s : TraceableList T E) (v : T) (e : E) where
    pub push_before-IsList :
        (xs : List (Cell T E)) (c : Cell T E) (ys : List (Cell T E))
        → IsList s (xs ++ c ∷ ys)
        → length (xs ++ c ∷ ys) + 1 < 2 ^ 64
        → (s' : TraceableList T E) × (push_before s.brk c.addr
              (grown s xs (c ∷ ys) v e (fresh s xs (c ∷ ys) v e null c.addr) s.head s.tail)
            ≡ ok tt s')
          × IsList s' (xs ++ pushed s.brk v e ∷ c ∷ ys)
          × (s'.brk ≡ suc s.brk)
    push_before-IsList xs c ys is room =
        let (l, (ne, at, r)) = Chain-split xs (c ∷ ys) s.cell null null is.chain in
        let (dl, dr, apart) = Distinct-split xs (c ∷ ys) is.distinct in
        let (bl, br) = Below-split s.brk xs (c ∷ ys) is.below in
        let outl = not-has-Below s.brk xs bl in
        let outr = not-has-Below s.brk (c ∷ ys) br in
        let h = fresh s xs (c ∷ ys) v e null c.addr in
        let t = grown s xs (c ∷ ys) v e h s.head s.tail in
        let h₁ = write h s.brk (some (new_node v (last null xs) c.addr e)) in
        let t₁ = record t { cell = h₁ } in
        let (g₁, e₁, l₁, same₁) =
          relink_left t₁ s.brk xs c.addr
            (Chain-frame xs s.cell h₁ null c.addr l (λ a i. ground arith)) dl in
        let (g₂, e₂, r₂, same₂) =
          relink_right (record t { cell = g₁ }) s.brk (c ∷ ys) (last null xs)
            (Chain-frame (c ∷ ys) s.cell g₁ (last null xs) null (ne, at, r)
              (λ a i. ground (arith, same₁ a, apart a)))
            dr in
        let named : (c.addr == null) ≡ false = ground (arith, ne) in
        let hd = if s.head == c.addr then s.brk else s.head in
        (
          grown s xs (c ∷ ys) v e g₂ hd s.tail,
          push_before-ok t s.brk c.addr
              (new_node c.value (last null xs) (first null ys) c.extra_info)
              (new_node v null c.addr e) g₁ g₂ ne is.brk (ground (arith, at, outr)) (ground arith)
              e₁ (rw named at e₂),
          grown-IsList s xs (c ∷ ys) v e g₂ hd s.tail is room
              (Chain-frame xs g₁ g₂ null s.brk l₁ (λ a i. ground (arith, same₂ a, apart a)))
              (same₂ s.brk outr ∙ same₁ s.brk outl ∙ ground arith) r₂
              (λ a o.
                let (o₁, o₂, o₃) = not-has-split a xs (pushed s.brk v e) (c ∷ ys) o in
                same₂ a o₃ ∙ same₁ a o₁ ∙ ground (arith, o₂))
              (rw (is.head, first-append null xs (c ∷ ys))
                (popped_head c xs s.brk (not-has-middle xs c ys is.distinct).0))
              (is.tail ∙ last-append null xs (c ∷ ys)),
          refl,
        )

    pub push_last-IsList :
        (ws : List (Cell T E)) (w : Cell T E)
        → IsList s (ws ++ w ∷ [])
        → length (ws ++ w ∷ []) + 1 < 2 ^ 64
        → (s' : TraceableList T E) × (push_last s.brk (
              grown s (ws ++ w ∷ []) [] v e (fresh s (ws ++ w ∷ []) [] v e null null) s.head s.tail)
            ≡ ok tt s')
          × IsList s' ((ws ++ w ∷ []) ++ pushed s.brk v e ∷ [])
          × (s'.brk ≡ suc s.brk)
    push_last-IsList ws w is room =
        let xs = ws ++ w ∷ [] in
        let out = not-has-Below s.brk xs is.below in
        let h = fresh s xs [] v e null null in
        let t = grown s xs [] v e h s.head s.tail in
        let (g₁, e₁, l₁, same₁) =
          relink_last t s.brk ws w null
            (Chain-frame xs s.cell h null null is.chain (λ a i. ground arith)) is.distinct in
        let at : s.tail ≡ w.addr = is.tail ∙ last-append null ws (w ∷ []) in
        let m : g₁ s.brk ≡ some (new_node v null null e) = same₁ s.brk out ∙ ground arith in
        let g₂ = write g₁ s.brk (some (new_node v s.tail null e)) in
        (
          grown s xs [] v e g₂ s.head s.brk,
          push_last-ok t s.brk _ g₁ is.brk (ap (λ a. set_next a s.brk t) at ∙ e₁) m,
          grown-IsList s xs [] v e g₂ s.head s.brk (rw (append-nil xs) is) (rw (append-nil xs) room)
              (Chain-frame xs g₁ g₂ null s.brk l₁ (λ a i. ground arith)) (ground (arith, is.tail))
              tt
              (λ a o.
                let (o₁, o₂, o₃) = not-has-split a xs (pushed s.brk v e) [] o in
                ground (arith, same₁ a o₁, o₂))
              (rw (is.head, first-append null ws (w ∷ []), first-append s.brk ws (w ∷ []))) refl,
          refl,
        )
