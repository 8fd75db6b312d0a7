-- ===== src/TraceableList/Chain.antt =====
-- What the nodes behind a list object of lib/traceable_list.hpp stand for: a sequence of cells, each
-- linked both ways.
use ali_middleware.Common.{
  ◌^◌, ◌<◌, ◌≤◌, ◌≡◌, refl, ◌≢◌, ◌⊎◌, inl, inr, Bool, true, false, ◌||◌, Option, none, some, List,
  [], ◌∷◌, ◌++◌, arith, ◌==◌, length,
}
use ali_middleware.TraceableList.{Ptr, null, Node, new_node, TraceableList, empty}

-- The node at `addr` with what it holds.
pub record Cell (T E : Type 0) : Type 0 where
  pub addr : Ptr
  pub value : T
  pub extra_info : E

module _ {T E : Type 0} where
  abbrev pub has : Ptr → List (Cell T E) → Bool
  has a [] = false
  has a (c ∷ cs) = (a == c.addr) || has a cs

  -- The address of the first cell, `stop` if there is none.
  abbrev pub first : Ptr → List (Cell T E) → Ptr
  first stop [] = stop
  first stop (c ∷ cs) = c.addr

  -- The address of the last cell, `before` if there is none.
  abbrev pub last : Ptr → List (Cell T E) → Ptr
  last before [] = before
  last before (c ∷ cs) = last c.addr cs

  abbrev pub Distinct : List (Cell T E) → Type 0
  Distinct [] = Unit
  Distinct (c ∷ cs) = (has c.addr cs ≡ false) × Distinct cs

  abbrev pub Below : Ptr → List (Cell T E) → Type 0
  Below n [] = Unit
  Below n (c ∷ cs) = (c.addr < n) × Below n cs

  -- The cells are nodes of the heap with sound magic numbers, the first one's `prev` is `before`
  -- and the last one's `next` is `stop`.
  abbrev pub Chain : (Ptr → Option (Node T E)) → Ptr → Ptr → List (Cell T E) → Type 0
  Chain h before stop [] = Unit
  Chain h before stop (c ∷ cs) =
      (c.addr ≢ null)
      × (h c.addr ≡ some (new_node c.value before (first stop cs) c.extra_info))
      × Chain h c.addr stop cs

  abbrev pub SameOutside : List (Cell T E) → (h g : Ptr → Option (Node T E)) → Type 0
  SameOutside cs h g = (a : Ptr) → has a cs ≡ false → g a ≡ h a

  -- The representation invariant: the object holds exactly the cells `cs`, in this order, and the
  -- heap holds no other node.
  pub record IsList (s : TraceableList T E) (cs : List (Cell T E)) : Type 0 where
    pub chain : Chain s.cell null null cs
    pub distinct : Distinct cs
    pub head : s.head ≡ first null cs
    pub tail : s.tail ≡ last null cs
    pub m_size : s.m_size ≡ length cs
    pub bounded : length cs < 2 ^ 64
    pub below : Below s.brk cs
    pub brk : s.brk ≢ null
    pub owned : (a : Ptr) → has a cs ≡ false → s.cell a ≡ none

  pub empty-IsList : IsList empty []
  unfolding empty
  empty-IsList = record {
    chain = tt;
    distinct = tt;
    head = refl;
    tail = refl;
    m_size = refl;
    bounded = omega arith;
    below = tt;
    brk = omega arith;
    owned = λ a out. refl;
  }

  pub has-append : (a : Ptr) (xs ys : List (Cell T E)) → has a (xs ++ ys) ≡ (has a xs || has a ys)
  has-append a [] ys = refl
  has-append a (x ∷ xs) ys = ground (arith, has-append a xs ys)

  pub first-append :
      (stop : Ptr) (xs ys : List (Cell T E)) → first stop (xs ++ ys) ≡ first (first stop ys) xs
  first-append stop [] ys = refl
  first-append stop (x ∷ xs) ys = refl

  pub last-append :
      (before : Ptr) (xs ys : List (Cell T E)) → last before (xs ++ ys) ≡ last (last before xs) ys
  last-append before [] ys = refl
  last-append before (x ∷ xs) ys = last-append x.addr xs ys

  pub Chain-split :
      (xs ys : List (Cell T E)) (h : Ptr → Option (Node T E)) (before stop : Ptr)
      → Chain h before stop (xs ++ ys)
      → Chain h before (first stop ys) xs × Chain h (last before xs) stop ys
  Chain-split [] ys h before stop c = (tt, c)
  Chain-split (x ∷ xs) ys h before stop (ne, e, c) =
      let (l, r) = Chain-split xs ys h x.addr stop c in
      ((ne, rw (← first-append stop xs ys) e, l), r)

  pub Chain-append :
      (xs ys : List (Cell T E)) (h : Ptr → Option (Node T E)) (before stop : Ptr)
      → Chain h before (first stop ys) xs
      → Chain h (last before xs) stop ys
      → Chain h before stop (xs ++ ys)
  Chain-append [] ys h before stop l r = r
  Chain-append (x ∷ xs) ys h before stop (ne, e, l) r =
      (ne, rw (first-append stop xs ys) e, Chain-append xs ys h x.addr stop l r)

  -- A chain survives any change that spares its own addresses.
  pub Chain-frame :
      (xs : List (Cell T E)) (h g : Ptr → Option (Node T E)) (before stop : Ptr)
      → Chain h before stop xs
      → ((a : Ptr) → has a xs ≡ true → g a ≡ h a)
      → Chain g before stop xs
  Chain-frame [] h g before stop c same = tt
  Chain-frame (x ∷ xs) h g before stop (ne, e, c) same = (
    ne,
    ground (arith, same x.addr),
    Chain-frame xs h g x.addr stop c (λ a i. same a (ground arith)),
  )

  pub Distinct-split :
      (xs ys : List (Cell T E))
      → Distinct (xs ++ ys)
      → Distinct xs × Distinct ys × ((a : Ptr) → has a xs ≡ true → has a ys ≡ false)
  Distinct-split [] ys d = (tt, d, λ a i. cc)
  Distinct-split (x ∷ xs) ys (out, d) =
      let (l, r, apart) = Distinct-split xs ys d in
      (
        (ground (arith, has-append x.addr xs ys), l),
        r,
        λ a i. ground (arith, has-append x.addr xs ys, apart a),
      )

  pub Distinct-append :
      (xs ys : List (Cell T E))
      → Distinct xs
      → Distinct ys
      → ((a : Ptr) → has a xs ≡ true → has a ys ≡ false)
      → Distinct (xs ++ ys)
  Distinct-append [] ys l r apart = r
  Distinct-append (x ∷ xs) ys (out, l) r apart = (
    ground (arith, has-append x.addr xs ys, apart x.addr),
    Distinct-append xs ys l r (λ a i. apart a (ground arith)),
  )

  pub Below-split :
      (n : Ptr) (xs ys : List (Cell T E)) → Below n (xs ++ ys) → Below n xs × Below n ys
  Below-split n [] ys b = (tt, b)
  Below-split n (x ∷ xs) ys (lt, b) = let (l, r) = Below-split n xs ys b in ((lt, l), r)

  pub Below-append :
      (n : Ptr) (xs ys : List (Cell T E)) → Below n xs → Below n ys → Below n (xs ++ ys)
  Below-append n [] ys l r = r
  Below-append n (x ∷ xs) ys (lt, l) r = (lt, Below-append n xs ys l r)

  pub Below-mono : (n m : Ptr) (xs : List (Cell T E)) → n ≤ m → Below n xs → Below m xs
  Below-mono n m [] le b = tt
  Below-mono n m (x ∷ xs) le (lt, b) = (omega arith, Below-mono n m xs le b)

  -- The address that `new` returns next is not in use.
  pub not-has-Below : (n : Ptr) (xs : List (Cell T E)) → Below n xs → has n xs ≡ false
  not-has-Below n [] b = refl
  not-has-Below n (x ∷ xs) (lt, b) = ground (arith, not-has-Below n xs b)

  pub not-has-null :
      (xs : List (Cell T E)) (h : Ptr → Option (Node T E)) (before stop : Ptr)
      → Chain h before stop xs
      → has null xs ≡ false
  not-has-null [] h before stop c = refl
  not-has-null (x ∷ xs) h before stop (ne, e, c) = ground (arith, not-has-null xs h x.addr stop c)

  -- A list is empty or ends in a cell.
  pub last_cases :
      (xs : List (Cell T E))
      → (xs ≡ []) ⊎ ((ws : List (Cell T E)) × (w : Cell T E) × (xs ≡ ws ++ w ∷ []))
  last_cases [] = inl refl
  last_cases (x ∷ xs) = elim (last_cases xs) [
    | inl e ↦ inr ([], x, rw e)
    | inr (ws, w, e) ↦ inr (x ∷ ws, w, rw e)
  ]

  pub has-last : (c : Cell T E) (cs : List (Cell T E)) → has (last c.addr cs) (c ∷ cs) ≡ true
  has-last c [] = ground arith
  has-last c (d ∷ cs) = ground (arith, has-last d cs)

  pub first-ne-null :
      (xs : List (Cell T E)) (c : Cell T E) (ys : List (Cell T E)) (h : Ptr → Option (Node T E))
      (before stop : Ptr)
      → Chain h before stop (xs ++ c ∷ ys)
      → first null (xs ++ c ∷ ys) ≢ null
  first-ne-null [] c ys h before stop l = l.0
  first-ne-null (x ∷ xs) c ys h before stop l = l.0

  pub not-has-drop :
      (a : Ptr) (xs : List (Cell T E)) (c : Cell T E) (ys : List (Cell T E))
      → has a (xs ++ c ∷ ys) ≡ false
      → has a (xs ++ ys) ≡ false
  not-has-drop a xs c ys out = ground (arith, has-append a xs ys, has-append a xs (c ∷ ys))

  pub not-has-split :
      (a : Ptr) (xs : List (Cell T E)) (c : Cell T E) (ys : List (Cell T E))
      → has a (xs ++ c ∷ ys) ≡ false
      → (has a xs ≡ false) × ((a == c.addr) ≡ false) × (has a ys ≡ false)
  not-has-split a xs c ys out = ground (arith, has-append a xs (c ∷ ys))

  pub not-has-middle :
      (xs : List (Cell T E)) (c : Cell T E) (ys : List (Cell T E))
      → Distinct (xs ++ c ∷ ys)
      → (has c.addr xs ≡ false) × (has c.addr ys ≡ false)
  not-has-middle xs c ys d =
      let (dl, (out, dr), apart) = Distinct-split xs (c ∷ ys) d in
      (ground (arith, apart c.addr), out)
