-- ===== src/TraceableList/Push.antt =====
-- `push_one`, `push_back` and `push_front` of lib/traceable_list.hpp.
use ali_middleware.Common.{
  suc, ◌+◌, ◌^◌, ◌<◌, ◌≡◌, refl, inl, inr, true, false, List, [], ◌∷◌, ◌++◌, arith, ◌==◌, length,
  append-nil,
}
use ali_middleware.Common.Run.{ok}
use ali_middleware.TraceableList.{
  Ptr, null, TraceableList, alloc, push_one, push_back, push_front, begin, end,
}
use ali_middleware.TraceableList.Chain.{Cell, first, IsList, Chain-split, last_cases, first-ne-null}
use ali_middleware.TraceableList.Grow.{
  pushed, grown, grown-IsList, fresh, push_before-IsList, push_last-IsList,
}

module _ {T E : Type 0} where
  module _ (s : TraceableList T E) (v : T) (e : E) where
    -- What a push into the list of `xs` and `ys` at the address `p` achieves.
    abbrev pub Pushes : List (Cell T E) → List (Cell T E) → Ptr → Ptr → Type 0
    Pushes xs ys p t =
        (s' : TraceableList T E) × (push_one (record { ptr = p; impl_tail = t }) v e s ≡ ok tt s')
        × IsList s' (xs ++ pushed s.brk v e ∷ ys)
        × (s'.brk ≡ suc s.brk)

    push_first-IsList : (t : Ptr) → IsList s [] → Pushes [] [] null t
    unfolding push_one alloc
    push_first-IsList t is =
        let g = fresh s [] [] v e null null in
        let no_head : (s.head == null) ≡ true = ground (arith, is.head) in
        (
          grown s [] [] v e g s.brk s.brk,
          rw no_head,
          grown-IsList s [] [] v e g s.brk s.brk is (omega arith) tt (ground arith) tt
              (λ a o. ground arith) refl refl,
          refl,
        )

    push_behind-IsList :
        (ws : List (Cell T E)) (w : Cell T E) (t : Ptr)
        → IsList s (ws ++ w ∷ [])
        → length (ws ++ w ∷ []) + 1 < 2 ^ 64
        → Pushes (ws ++ w ∷ []) [] null t
    unfolding push_one alloc
    push_behind-IsList ws w t is room =
        let some_head : (s.head == null) ≡ false =
          ground (arith, is.head, first-ne-null ws w [] s.cell null null is.chain) in
        rw some_head (push_last-IsList s v e ws w is room)

    push_end-IsList :
        (xs : List (Cell T E)) (t : Ptr)
        → IsList s xs
        → length xs + 1 < 2 ^ 64
        → Pushes xs [] null t
    push_end-IsList xs t is room = elim (last_cases xs) [
      | inl e ↦ rw e (push_first-IsList t (rw e at is))
      | inr (ws, w, e) ↦ rw e (push_behind-IsList ws w t (rw e at is) (rw e at room))
    ]

    push_at-IsList :
        (xs : List (Cell T E)) (c : Cell T E) (ys : List (Cell T E)) (t : Ptr)
        → IsList s (xs ++ c ∷ ys)
        → length (xs ++ c ∷ ys) + 1 < 2 ^ 64
        → Pushes xs (c ∷ ys) c.addr t
    unfolding push_one alloc
    push_at-IsList xs c ys t is room =
        let ne = (Chain-split xs (c ∷ ys) s.cell null null is.chain).1.0 in
        let some_head : (s.head == null) ≡ false =
          ground (arith, is.head, first-ne-null xs c ys s.cell null null is.chain) in
        let named : (c.addr == null) ≡ false = ground (arith, ne) in
        rw (some_head, named) (push_before-IsList s v e xs c ys is room)

    -- `push_one` in front of the cell that the iterator names, behind the last one at end(): the new
    -- cell stands there, and every other keeps its address, its value, its flag and its order.
    pub push_one-IsList :
        (xs ys : List (Cell T E)) (p t : Ptr)
        → p ≡ first null ys
        → IsList s (xs ++ ys)
        → length (xs ++ ys) + 1 < 2 ^ 64
        → Pushes xs ys p t
    push_one-IsList xs [] p t at is room =
        rw at (push_end-IsList xs t (rw (append-nil xs) at is) (rw (append-nil xs) at room))
    push_one-IsList xs (c ∷ ys) p t at is room = rw at (push_at-IsList xs c ys t is room)

    -- `push_back` adds a cell at the end.
    pub push_back-IsList :
        (cs : List (Cell T E))
        → IsList s cs
        → length cs + 1 < 2 ^ 64
        → (s' : TraceableList T E) × (push_back v e s ≡ ok tt s')
          × IsList s' (cs ++ pushed s.brk v e ∷ [])
          × (s'.brk ≡ suc s.brk)
    unfolding push_back end
    push_back-IsList cs is room = push_end-IsList cs s.tail is room

    -- `push_front` adds a cell at the front.
    pub push_front-IsList :
        (cs : List (Cell T E))
        → IsList s cs
        → length cs + 1 < 2 ^ 64
        → (s' : TraceableList T E) × (push_front v e s ≡ ok tt s')
          × IsList s' (pushed s.brk v e ∷ cs)
          × (s'.brk ≡ suc s.brk)
    unfolding push_front begin
    push_front-IsList cs is room = push_one-IsList [] cs s.head s.tail is.head is room
