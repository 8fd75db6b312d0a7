-- ===== src/Pool/Sample.antt =====
-- Pools of lib/pool.hpp with two objects, for the examples.
use ali_middleware.Common.{
  ℕ, ◌^◌, ◌<◌, ◌≤◌, refl, Bool, true, false, some, none, List, [], ◌∷◌, arith, ◌==◌, if◌then◌else◌,
}
use ali_middleware.TraceableList.{Ptr, new_node}
use ali_middleware.TraceableList.Chain.{Cell, IsList}
use ali_middleware.Pool.{Objects}
use ali_middleware.Pool.Holds.{Holds}

abbrev pub cells : Bool → Bool → List (Cell ℕ Bool)
cells a b =
    record { addr = 1; value = 10; extra_info = a }
    ∷ record { addr = 2; value = 20; extra_info = b }
    ∷ []

abbrev pub two : Bool → Bool → List Ptr → Objects ℕ
two a b free = record {
  buffer = record {
    cell = λ p.
        if p == 1
        then some (new_node 10 0 2 a)
        else if p == 2
        then some (new_node 20 1 0 b)
        else none;
    brk = 3;
    head = 1;
    tail = 2;
    m_size = 2;
  };
  free_list = free;
}

pub two-IsList : (a b : Bool) (free : List Ptr) → IsList (two a b free).buffer (cells a b)
two-IsList a b free = record {
  chain = (omega arith, refl, (omega arith, refl, tt));
  distinct = (refl, (refl, tt));
  head = refl;
  tail = refl;
  m_size = refl;
  bounded = omega arith;
  below = omega arith;
  brk = omega arith;
  owned = λ a out. ground arith;
}

-- Both objects are lent.
abbrev pub lent_out : Objects ℕ
lent_out = two false false []

pub lent_out-Holds : (max_size : ℕ) → 2 ≤ max_size → Holds max_size lent_out (cells false false)
lent_out-Holds max_size room = record {
  list = two-IsList false false [];
  flags = (refl, (refl, tt));
  owned = tt;
  nodup = tt;
  within = omega arith;
}

-- The second one is free.
abbrev pub one_free : Objects ℕ
one_free = two false true (2 ∷ [])

pub one_free-Holds : Holds 2 one_free (cells false true)
one_free-Holds = record {
  list = two-IsList false true (2 ∷ []);
  flags = (refl, (refl, tt));
  owned = (refl, tt);
  nodup = (refl, tt);
  within = omega arith;
}

pub small : 2 < 2 ^ 64
small = omega arith
