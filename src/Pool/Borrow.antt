-- ===== src/Pool/Borrow.antt =====
-- `do_try_borrow_one` and `fill_full` of lib/pool.hpp against a specification that knows only which
-- objects there are and which of them are free.
use ali_middleware.Common.{
  ℕ, suc, ◌<◌, ◌^◌, ◌≡◌, refl, sym, ap, Bool, true, false, ◌||◌, List, [], ◌∷◌, ◌++◌, arith, ◌==◌,
  ltb, if◌then◌else◌, length, length-append, Bool-cases, inl, inr,
}
use ali_middleware.Common.Run.{Cmd, ok, ◌>>◌}
use ali_middleware.TraceableList.{Ptr, null}
use ali_middleware.TraceableList.Chain.{Cell, has, has-append, not-has-Below}
use ali_middleware.TraceableList.Grow.{pushed}
use ali_middleware.TraceableList.Push.{push_back-IsList}
use ali_middleware.TraceableList.Walk.{decrement-end, deref-value}
use ali_middleware.Pool.{
  Objects, Construct, built, lift, construct, new_obj_to_buffer, free_last, borrow_at,
}
use ali_middleware.Pool.Holds.{
  elem, Nodup, Flags, Owned, Holds, Flags-append, Flags-agree, Owned-mono, Owned-has,
}
use ali_middleware.Pool.Mark.{addrs, mark-Holds}

pub elem-append : (a : Ptr) (ps qs : List Ptr) → elem a (ps ++ qs) ≡ (elem a ps || elem a qs)
elem-append a [] qs = refl
elem-append a (p ∷ ps) qs = ground (arith, elem-append a ps qs)

elem-snoc_ne :
    (a : Ptr) (ps : List Ptr) (q : Ptr) → (a == q) ≡ false → elem a (ps ++ q ∷ []) ≡ elem a ps
elem-snoc_ne a ps q ne = ground (arith, elem-append a ps (q ∷ []))

pub elem-snoc_self : (ps : List Ptr) (q : Ptr) → elem q (ps ++ q ∷ []) ≡ true
elem-snoc_self ps q = ground (arith, elem-append q ps (q ∷ []))

Nodup-snoc : (ps : List Ptr) (q : Ptr) → Nodup ps → elem q ps ≡ false → Nodup (ps ++ q ∷ [])
Nodup-snoc [] q n out = (refl, tt)
Nodup-snoc (p ∷ ps) q (o, n) out =
    (ground (arith, elem-append p ps (q ∷ [])), Nodup-snoc ps q n (ground arith))

-- The pool as its clients know it: the objects that it has made, and those that are free.
pub record View : Type 0 where
  pub objects : List Ptr
  pub free : List Ptr

-- What borrowing does to it: the first free object, else a new one while there is room, else null.
unfoldable pub borrow_spec : ℕ → Ptr → List Ptr → List Ptr → Ptr × View
borrow_spec max_size new objects (p ∷ free) = (p, record { objects = objects; free = free })
borrow_spec max_size new objects [] =
    if ltb (length objects) max_size
    then (new, record { objects = objects ++ new ∷ []; free = [] })
    else (null, record { objects = objects; free = [] })

module _ {T : Type 0} where
  has-ne :
      (a b : Ptr) (cs : List (Cell T Bool)) → has a cs ≡ true → has b cs ≡ false → (a == b) ≡ false
  has-ne a b cs i out = elim (Bool-cases (a == b)) [
    | inl e ↦ let same : a ≡ b = ground arith in cc (ap (λ t. has t cs) same)
    | inr e ↦ e
  ]

  has-snoc :
      (a : Ptr) (cs : List (Cell T Bool)) (c : Cell T Bool)
      → has a cs ≡ true
      → has a (cs ++ c ∷ []) ≡ true
  has-snoc a cs c i = ground (arith, has-append a cs (c ∷ []))

  has-snoc_self : (cs : List (Cell T Bool)) (c : Cell T Bool) → has c.addr (cs ++ c ∷ []) ≡ true
  has-snoc_self cs c = ground (arith, has-append c.addr cs (c ∷ []))

  Owned-snoc :
      (cs : List (Cell T Bool)) (ps : List Ptr) (p : Ptr)
      → Owned cs ps
      → has p cs ≡ true
      → Owned cs (ps ++ p ∷ [])
  Owned-snoc cs [] p o i = (i, tt)
  Owned-snoc cs (q ∷ ps) p (j, o) i = (j, Owned-snoc cs ps p o i)

  -- One round of growth: an object is built at the end of the buffer, and is free.
  abbrev pub Grows : ℕ → Objects T → List (Cell T Bool) → T → Type 0
  Grows max_size o cs v =
      (o' : Objects T) × ((new_obj_to_buffer (built v) >> free_last) o ≡ ok tt o')
      × Holds max_size o' (cs ++ pushed o.buffer.brk v true ∷ [])
      × (o'.free_list ≡ o.free_list ++ o.buffer.brk ∷ [])
      × (o'.buffer.brk ≡ suc o.buffer.brk)

  module _ (max_size : ℕ) (o : Objects T) (cs : List (Cell T Bool))
      (hold : Holds max_size o cs) where
    pub grow-Holds : (v : T) → length cs < max_size → max_size < 2 ^ 64 → Grows max_size o cs v
    unfolding new_obj_to_buffer construct free_last lift
    grow-Holds v room fits =
        let new = o.buffer.brk in
        let n = pushed new v true in
        let fs = o.free_list in
        let out = not-has-Below new cs hold.list.below in
        let (buf, e, is, brk) = push_back-IsList o.buffer v true cs hold.list (omega arith) in
        let (e₁, e₂) = decrement-end buf cs n is in
        (
          record { buffer = buf; free_list = fs ++ new ∷ [] },
          rw (e, e₁, e₂, deref-value buf cs n [] is buf.tail),
          record {
            list = is;
            flags =
                Flags-append (fs ++ new ∷ []) cs (n ∷ [])
                  (Flags-agree fs (fs ++ new ∷ []) cs hold.flags
                    λ a i. elem-snoc_ne a fs new (has-ne a new cs i out))
                  (sym (elem-snoc_self fs new), tt);
            owned =
                Owned-snoc (cs ++ n ∷ []) fs new
                  (Owned-mono cs (cs ++ n ∷ []) fs (λ a i. has-snoc a cs n i) hold.owned)
                  (has-snoc_self cs n);
            nodup = Nodup-snoc fs new hold.nodup (Owned-has cs fs new hold.owned out);
            within = omega (arith, length-append cs (n ∷ []));
          },
          refl,
          brk,
        )

    -- The first free object is taken off the list and marked busy.
    pub take-Holds :
        (c : Construct T) (again : Cmd (Objects T) Ptr) (p : Ptr) (rest : List Ptr)
        → o.free_list ≡ p ∷ rest
        → (o' : Objects T) × (cs' : List (Cell T Bool)) × (borrow_at max_size c again (p ∷ rest) o
            ≡ ok p o')
          × Holds max_size o' cs'
          × (o'.free_list ≡ rest)
          × (addrs cs' ≡ addrs cs)
          × (o'.buffer.brk ≡ o.buffer.brk)
    unfolding borrow_at
    take-Holds c again p rest eq =
        let owned : Owned cs (p ∷ rest) = rw eq at hold.owned in
        let nodup : Nodup (p ∷ rest) = rw eq at hold.nodup in
        let flags : Flags (p ∷ rest) cs = rw eq at hold.flags in
        let (o', cs', e, hold', free, same, brk) =
          mark-Holds (record o { free_list = rest }) (p ∷ rest) p false max_size cs owned.0
            hold.list flags owned.1 nodup.1 hold.within nodup.0 (λ a ne. ground arith) in
        (o', cs', rw e, hold', free, same, brk)
