-- ===== src/Pool/Holds.antt =====
-- The invariant of the objects of lib/pool.hpp.
use ali_middleware.Common.{
  ℕ, ◌≤◌, ◌≡◌, refl, inl, inr, Bool, true, false, ◌||◌, List, [], ◌∷◌, ◌++◌, arith, ◌==◌, length,
  Bool-cases,
}
use ali_middleware.TraceableList.{Ptr}
use ali_middleware.TraceableList.Chain.{Cell, IsList, has, empty-IsList}
use ali_middleware.Pool.{Objects, no_objects}

abbrev pub elem : Ptr → List Ptr → Bool
elem a [] = false
elem a (p ∷ ps) = (a == p) || elem a ps

abbrev pub Nodup : List Ptr → Type 0
Nodup [] = Unit
Nodup (p ∷ ps) = (elem p ps ≡ false) × Nodup ps

module _ {T : Type 0} where
  -- Each cell's flag says whether the cell is on the free list.
  abbrev pub Flags : List Ptr → List (Cell T Bool) → Type 0
  Flags fs [] = Unit
  Flags fs (c ∷ cs) = (c.extra_info ≡ elem c.addr fs) × Flags fs cs

  -- Every pointer of the list is the address of a cell.
  abbrev pub Owned : List (Cell T Bool) → List Ptr → Type 0
  Owned cs [] = Unit
  Owned cs (p ∷ ps) = (has p cs ≡ true) × Owned cs ps

  -- The buffer holds the cells `cs`, at most `max_size`; the free list names some of them, none
  -- twice, and the flags agree with it.
  pub record Holds (max_size : ℕ) (o : Objects T) (cs : List (Cell T Bool)) : Type 0 where
    pub list : IsList o.buffer cs
    pub flags : Flags o.free_list cs
    pub owned : Owned cs o.free_list
    pub nodup : Nodup o.free_list
    pub within : length cs ≤ max_size

  pub no_objects-Holds : (max_size : ℕ) → Holds max_size no_objects []
  unfolding no_objects
  no_objects-Holds max_size = record {
    list = empty-IsList;
    flags = tt;
    owned = tt;
    nodup = tt;
    within = omega arith;
  }

  pub Flags-append :
      (fs : List Ptr) (xs ys : List (Cell T Bool)) → Flags fs xs → Flags fs ys → Flags fs (xs ++ ys)
  Flags-append fs [] ys l r = r
  Flags-append fs (x ∷ xs) ys (e, l) r = (e, Flags-append fs xs ys l r)

  pub Flags-split :
      (fs : List Ptr) (xs ys : List (Cell T Bool)) → Flags fs (xs ++ ys) → Flags fs xs × Flags fs ys
  Flags-split fs [] ys f = (tt, f)
  Flags-split fs (x ∷ xs) ys (e, f) = let (l, r) = Flags-split fs xs ys f in ((e, l), r)

  -- The flags fit another free list that agrees on the cells' addresses.
  pub Flags-agree :
      (fs gs : List Ptr) (cs : List (Cell T Bool))
      → Flags fs cs
      → ((a : Ptr) → has a cs ≡ true → elem a gs ≡ elem a fs)
      → Flags gs cs
  Flags-agree fs gs [] f same = tt
  Flags-agree fs gs (c ∷ cs) (e, f) same =
      (ground (arith, same c.addr), Flags-agree fs gs cs f (λ a i. same a (ground arith)))

  pub Owned-mono :
      (cs ds : List (Cell T Bool)) (ps : List Ptr)
      → ((a : Ptr) → has a cs ≡ true → has a ds ≡ true)
      → Owned cs ps
      → Owned ds ps
  Owned-mono cs ds [] incl o = tt
  Owned-mono cs ds (p ∷ ps) incl (i, o) = (incl p i, Owned-mono cs ds ps incl o)

  -- What is on the free list is in the buffer.
  pub Owned-has :
      (cs : List (Cell T Bool)) (ps : List Ptr) (a : Ptr)
      → Owned cs ps
      → has a cs ≡ false
      → elem a ps ≡ false
  Owned-has cs [] a o out = refl
  Owned-has cs (p ∷ ps) a (i, o) out = ground (arith, Owned-has cs ps a o out)

  -- Where a cell stands.
  pub split-has :
      (a : Ptr) (cs : List (Cell T Bool))
      → has a cs ≡ true
      → (xs : List (Cell T Bool)) × (c : Cell T Bool) × (ys : List (Cell T Bool)) × (cs
          ≡ xs ++ c ∷ ys)
        × (a ≡ c.addr)
  split-has a [] i = cc
  split-has a (c ∷ cs) i = elim (Bool-cases (a == c.addr)) [
    | inl e ↦ ([], c, cs, refl, ground arith)
    | inr e ↦ let (xs, d, ys, eq, at) = split-has a cs (ground arith) in (c ∷ xs, d, ys, rw eq, at)
  ]
