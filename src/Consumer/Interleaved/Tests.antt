-- ===== src/Consumer/Interleaved/Tests.antt =====
-- Two calls of src/provider_selector.hpp over one pool: the first has read its answer, or a part of it.
use ali_middleware.Common.{arith, false, All, ℕ, ◌≡◌, refl, true, false, [], ◌∷◌, ◌++◌}
use ali_middleware.Common.Run.{ok}
use ali_middleware.Common.Text.{Text, codes}
use ali_middleware.TraceableList.{Ptr}
use ali_middleware.Pool.{Objects, built, do_try_borrow_one}
use ali_middleware.Pool.Holds.{elem, Nodup}
use ali_middleware.Pool.Sample.{cells, one_free, one_free-Holds, small}
use ali_middleware.Pool.Semaphore.Cases.{free-borrowed}
use ali_middleware.Consumer.Interleaved.{
  idle, holds, awaits, read, silent, Calls, set_wire, borrows, writes, serves, reads, Reach,
  started, then_step,
}
use ali_middleware.Consumer.Interleaved.Answers.{
  IsFresh, IsAnswered, Reach-IsApart, Reach-IsAnswered,
}
use ali_middleware.Consumer.Interleaved.Holders.{holders}
use ali_middleware.Consumer.Interleaved.Leftover.{reads_leftover}

-- The provider agent answers with the text in brackets.
abbrev serve : Text → Text
serve t = codes "[" ++ (t ++ codes "]")

abbrev start : Calls ℕ
start = record {
  objects = one_free;
  phases = idle ∷ idle ∷ [];
  wire = λ q. silent;
  broken = λ q. false;
}

start-IsFresh : IsFresh 2 start
start-IsFresh = record {
  cells = cells false true;
  hold = one_free-Holds;
  idle = (refl, (refl, tt));
  wire = λ q. refl;
  sound = λ q. refl;
}

lent : (o : Objects ℕ) × (do_try_borrow_one 2 (built 10) one_free ≡ ok 2 o)
lent = free-borrowed 2 small (built 10) one_free (cells false true) 2 [] one_free-Holds refl

abbrev after_borrow : Calls ℕ
after_borrow = record start { objects = lent.0; phases = holds 2 ∷ idle ∷ [] }

abbrev after_write : Calls ℕ
after_write = record after_borrow {
  phases = awaits 2 (codes "x") ∷ idle ∷ [];
  wire = set_wire 2 (record { asked = codes "x" ∷ []; sent = [] }) start.wire;
}

abbrev after_serve : Calls ℕ
after_serve = record after_write {
  wire = set_wire 2 (record { asked = []; sent = serve (codes "x") }) after_write.wire;
}

abbrev after_read : Calls ℕ
after_read = record after_borrow {
  phases = read 2 (codes "x") (codes "[x]") ∷ idle ∷ [];
  wire = set_wire 2 silent after_serve.wire;
}

abbrev to_read : Reach 2 (built 10) serve start after_read
to_read =
    then_step after_serve after_read
      (then_step after_write after_serve
        (then_step after_borrow after_write
          (then_step start after_borrow started (borrows [] (idle ∷ []) 2 lent.0 refl lent.1 refl))
          (writes [] (idle ∷ []) 2 (codes "x") refl))
        (serves 2 (codes "x") [] refl))
      (reads [] (idle ∷ []) 2 (codes "x") (codes "[x]") [] refl refl (omega arith) (omega arith))

Reach-IsApart_example :
    Nodup (holders after_read.phases)
    × ((q : Ptr)
        → elem q (holders after_read.phases) ≡ true
        → elem q after_read.objects.free_list ≡ false)
Reach-IsApart_example =
    Reach-IsApart 2 serve small (built 10) start after_read start-IsFresh to_read

Reach-IsAnswered_example :
    All (IsAnswered serve after_read.wire after_read.broken) after_read.phases
Reach-IsAnswered_example =
    Reach-IsAnswered 2 serve small (built 10) start after_read start-IsFresh to_read
      (((((tt, tt), tt), tt), refl))

-- The first read brings "[x" and the second one "]".
reads_leftover_example :
    (s : Calls ℕ) × Reach 2 (built 10) serve start s
    × (s.phases ≡ idle ∷ read 2 (codes "y") (codes "]") ∷ [])
    × ((s.wire 2).asked ≡ codes "y" ∷ [])
reads_leftover_example =
    reads_leftover 2 serve small (built 10) one_free (cells false true) 2 [] one_free-Holds refl
      refl (codes "x") (codes "y") (codes "[x") (codes "]") refl (omega arith) (omega arith)
      (omega arith) (omega arith)
