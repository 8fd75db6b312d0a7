-- ===== src/Pool/Mark.antt =====
-- The flag that lib/pool.hpp keeps beside each object.
use ali_middleware.Common.{
  ℕ, ◌≤◌, ◌≡◌, refl, sym, ap, Bool, true, false, List, [], ◌∷◌, ◌++◌, arith, ◌==◌, length,
  length-append,
}
use ali_middleware.Common.Run.{ok}
use ali_middleware.TraceableList.{Ptr}
use ali_middleware.TraceableList.Chain.{Cell, IsList, has, has-append, not-has-middle}
use ali_middleware.TraceableList.Walk.{of_data-ok, set_extra_info-IsList}
use ali_middleware.Pool.{Objects, lift, mark}
use ali_middleware.Pool.Holds.{
  elem, Nodup, Flags, Owned, Holds, Flags-append, Flags-split, Flags-agree, Owned-mono, split-has,
}

module _ {T : Type 0} where
  -- The addresses of the cells, oldest object first.
  abbrev pub addrs : List (Cell T Bool) → List Ptr
  addrs [] = []
  addrs (c ∷ cs) = c.addr ∷ addrs cs

  pub addrs-append : (xs ys : List (Cell T Bool)) → addrs (xs ++ ys) ≡ addrs xs ++ addrs ys
  addrs-append [] ys = refl
  addrs-append (x ∷ xs) ys = ap (λ t. x.addr ∷ t) (addrs-append xs ys)

  module _ (o : Objects T) (fs : List Ptr) (p : Ptr) (b : Bool) where
    -- What a run of `mark` achieves where the free list has become `o.free_list` before it.
    abbrev pub Marks : ℕ → List (Cell T Bool) → Type 0
    Marks max_size cs =
        (o' : Objects T) × (cs' : List (Cell T Bool)) × (mark p b o ≡ ok tt o')
        × Holds max_size o' cs'
        × (o'.free_list ≡ o.free_list)
        × (addrs cs' ≡ addrs cs)
        × (o'.buffer.brk ≡ o.buffer.brk)

    mark-split :
        (max_size : ℕ) (xs : List (Cell T Bool)) (c : Cell T Bool) (ys : List (Cell T Bool))
        → p ≡ c.addr
        → IsList o.buffer (xs ++ c ∷ ys)
        → Flags fs (xs ++ c ∷ ys)
        → Owned (xs ++ c ∷ ys) o.free_list
        → Nodup o.free_list
        → length (xs ++ c ∷ ys) ≤ max_size
        → elem p o.free_list ≡ b
        → ((a : Ptr) → (a == p) ≡ false → elem a o.free_list ≡ elem a fs)
        → Marks max_size (xs ++ c ∷ ys)
    unfolding mark lift
    mark-split max_size xs c ys at is flags owned nodup within now same =
        let c' = record c { extra_info = b } in
        let (buf, e, is', brk) = set_extra_info-IsList o.buffer xs c ys is 0 b in
        let (fl, (_, fr)) = Flags-split fs xs (c ∷ ys) flags in
        let (outl, outr) = not-has-middle xs c ys is.distinct in
        let gs = o.free_list in
        (
          record o { buffer = buf },
          xs ++ c' ∷ ys,
          rw (at, of_data-ok o.buffer xs c ys is, e),
          record {
            list = is';
            flags =
                Flags-append gs xs (c' ∷ ys) (Flags-agree fs gs xs fl λ a i. same a (ground arith))
                  (rw at at (sym now), Flags-agree fs gs ys fr λ a i. same a (ground arith));
            owned =
                Owned-mono (xs ++ c ∷ ys) (xs ++ c' ∷ ys) gs
                  (λ a i. ground (arith, has-append a xs (c ∷ ys), has-append a xs (c' ∷ ys)))
                  owned;
            nodup = nodup;
            within = omega (arith, length-append xs (c ∷ ys), length-append xs (c' ∷ ys));
          },
          refl,
          rw (addrs-append xs (c ∷ ys), addrs-append xs (c' ∷ ys)),
          brk,
        )

    pub mark-Holds :
        (max_size : ℕ) (cs : List (Cell T Bool))
        → has p cs ≡ true
        → IsList o.buffer cs
        → Flags fs cs
        → Owned cs o.free_list
        → Nodup o.free_list
        → length cs ≤ max_size
        → elem p o.free_list ≡ b
        → ((a : Ptr) → (a == p) ≡ false → elem a o.free_list ≡ elem a fs)
        → Marks max_size cs
    mark-Holds max_size cs i is flags owned nodup within now same =
        let (xs, c, ys, eq, at) = split-has p cs i in
        rw eq (
          mark-split max_size xs c ys at (rw eq at is) (rw eq at flags) (rw eq at owned) nodup
            (rw eq at within) now same)
