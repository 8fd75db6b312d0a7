-- ===== src/Pool/Refine.antt =====
-- `do_try_borrow_one` of lib/pool.hpp refines `borrow_spec`.
use ali_middleware.Common.{
  ℕ, suc, ◌≤◌, ◌<◌, ◌^◌, ◌≡◌, refl, ◌⊎◌, inl, inr, ◌∙◌, ap, Bool, true, false, List, [], ◌∷◌, arith,
  ltb, lt→ltb, ltb→lt, length, Bool-cases,
}
use ali_middleware.Common.Run.{Cmd, Run, Exception, ok, thrown, ◌>>◌, and_then_assoc}
use ali_middleware.TraceableList.{Ptr, null, size}
use ali_middleware.TraceableList.Chain.{Cell}
use ali_middleware.Pool.{
  Objects, Construct, built, raised, lift, construct, new_obj_to_buffer, free_last, borrow_at,
  borrow_again, do_try_borrow_one,
}
use ali_middleware.Pool.Holds.{Holds}
use ali_middleware.Pool.Mark.{addrs, addrs-append}
use ali_middleware.Pool.Borrow.{View, borrow_spec, grow-Holds, take-Holds}

module _ {T : Type 0} where
  pub length-addrs : (cs : List (Cell T Bool)) → length (addrs cs) ≡ length cs
  length-addrs [] = refl
  length-addrs (c ∷ cs) = ap suc (length-addrs cs)

  abbrev pub view : Objects T → List (Cell T Bool) → View
  view o cs = record { objects = addrs cs; free = o.free_list }

  -- The run returns what the specification says, and the invariant holds again.
  pub record Refines (max_size : ℕ) (o : Objects T) (spec : Ptr × View) (run : Run (Objects T) Ptr)
      : Type 0 where
    pub result : Ptr
    pub after : Objects T
    pub cells : List (Cell T Bool)
    pub returned : run ≡ ok result after
    pub hold : Holds max_size after cells
    pub agrees : (result, view after cells) ≡ spec
    pub brk : o.buffer.brk ≤ after.buffer.brk

  -- No object could be built.
  pub record Raises (max_size : ℕ) (o : Objects T) (cs : List (Cell T Bool)) (c : Construct T)
      (run : Run (Objects T) Ptr) : Type 0 where
    pub exception : Exception
    pub raises : c ≡ raised exception
    pub unchanged : run ≡ thrown exception o
    pub none_free : o.free_list ≡ []
    pub room : length cs < max_size

  module _ (max_size : ℕ) (o : Objects T) (cs : List (Cell T Bool)) (hold : Holds max_size o cs)
      (fits : max_size < 2 ^ 64) where
    take-Refines :
        (c : Construct T) (again : Cmd (Objects T) Ptr) (p : Ptr) (rest : List Ptr)
        → o.free_list ≡ p ∷ rest
        → Refines max_size o
            (borrow_spec max_size o.buffer.brk (addrs cs) (p ∷ rest))
            (borrow_at max_size c again (p ∷ rest) o)
    unfolding borrow_spec
    take-Refines c again p rest eq =
        let (o', cs', e, hold', free, same, brk) =
          take-Holds max_size o cs hold c again p rest eq in
        record {
          result = p;
          after = o';
          cells = cs';
          returned = e;
          hold = hold';
          agrees = λ i. (p, record { objects = same i; free = free i });
          brk = omega arith;
        }

    grow-Refines :
        (v : T)
        → o.free_list ≡ []
        → length cs < max_size
        → Refines max_size o
            (borrow_spec max_size o.buffer.brk (addrs cs) [])
            ((new_obj_to_buffer (built v) >> (free_last >> borrow_again 1 max_size (built v))) o)
    unfolding borrow_spec borrow_again
    grow-Refines v eq room =
        let new = o.buffer.brk in
        let (o₁, e₁, hold₁, free₁, brk₁) = grow-Holds max_size o cs hold v room fits in
        let free : o₁.free_list ≡ new ∷ [] = free₁ ∙ rw eq in
        let again = borrow_again 0 max_size (built v) in
        let (o₂, cs₂, e₂, hold₂, free₂, same, brk₂) =
          take-Holds max_size o₁ _ hold₁ (built v) again new [] free in
        let last : borrow_at max_size (built v) again o₁.free_list o₁ ≡ ok new o₂ =
          ap (λ fs. borrow_at max_size (built v) again fs o₁) free ∙ e₂ in
        let test : ltb (length (addrs cs)) max_size ≡ true =
          rw (length-addrs cs) (lt→ltb (length cs) max_size room) in
        record {
          result = new;
          after = o₂;
          cells = cs₂;
          returned = and_then_assoc (new_obj_to_buffer (built v) o) free_last _ ∙ rw e₁ last;
          hold = hold₂;
          agrees =
              rw test
                (λ i. (new, record { objects = (same ∙ addrs-append cs _) i; free = free₂ i }));
          brk = omega (arith, brk₁, brk₂);
        }

    room-Refines :
        (c : Construct T)
        → o.free_list ≡ []
        → length cs < max_size
        → (let run = (new_obj_to_buffer c >> (free_last >> borrow_again 1 max_size c)) o in
            Refines max_size o (borrow_spec max_size o.buffer.brk (addrs cs) []) run
            ⊎ Raises max_size o cs c run)
    unfolding new_obj_to_buffer construct
    room-Refines (built v) eq room = inl (grow-Refines v eq room)
    room-Refines (raised e) eq room =
        inr (record { exception = e; raises = refl; unchanged = refl; none_free = eq; room = room })

    -- Nothing is free: the pool grows, or is full, or the constructor throws.
    none-Refines :
        (c : Construct T)
        → o.free_list ≡ []
        → Refines max_size o
            (borrow_spec max_size o.buffer.brk (addrs cs) [])
            (borrow_at max_size c (borrow_again 1 max_size c) [] o)
          ⊎ Raises max_size o cs c (borrow_at max_size c (borrow_again 1 max_size c) [] o)
    unfolding borrow_at lift size borrow_spec
    none-Refines c eq = elim (Bool-cases (ltb (length cs) max_size)) [
      | inl room ↦
          let test : ltb o.buffer.m_size max_size ≡ true =
            ap (λ n. ltb n max_size) hold.list.m_size ∙ room in
          rw test (room-Refines c eq (ltb→lt (length cs) max_size room))
      | inr full ↦
          let test : ltb o.buffer.m_size max_size ≡ false =
            ap (λ n. ltb n max_size) hold.list.m_size ∙ full in
          let spec : ltb (length (addrs cs)) max_size ≡ false = rw (length-addrs cs) full in
          rw (test, spec)
            (inl (record {
              result = null;
              after = o;
              cells = cs;
              returned = refl;
              hold = hold;
              agrees = λ i. (null, record { objects = addrs cs; free = eq i });
              brk = omega arith;
            }))
    ]

    -- Where the constructor throws, the pool is as it was.
    abbrev pub Outcome : Construct T → Type 0
    Outcome c =
        Refines max_size o (borrow_spec max_size o.buffer.brk (addrs cs) o.free_list)
          (do_try_borrow_one max_size c o)
        ⊎ Raises max_size o cs c (do_try_borrow_one max_size c o)

    free_cases :
        (c : Construct T) (fs : List Ptr)
        → o.free_list ≡ fs
        → Refines max_size o
            (borrow_spec max_size o.buffer.brk (addrs cs) fs)
            (borrow_at max_size c (borrow_again 1 max_size c) fs o)
          ⊎ Raises max_size o cs c (borrow_at max_size c (borrow_again 1 max_size c) fs o)
    free_cases c (p ∷ rest) eq = inl (take-Refines c (borrow_again 1 max_size c) p rest eq)
    free_cases c [] eq = none-Refines c eq

    -- `do_try_borrow_one` ends. It returns the object that the specification names, and leaves the
    -- pool as that says, with its invariant; or nothing was free, there was room, and the constructor
    -- threw: then the exception goes out and the pool is unchanged.
    pub do_try_borrow_one-Outcome : (c : Construct T) → Outcome c
    unfolding do_try_borrow_one borrow_again
    do_try_borrow_one-Outcome c = free_cases c o.free_list refl
