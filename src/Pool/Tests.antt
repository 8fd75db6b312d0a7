-- ===== src/Pool/Tests.antt =====
-- The pools of lib/pool.hpp at two objects.
use ali_middleware.Common.{
  ℕ, ◌≡◌, refl, inl, false, Option, some, none, List, [], ◌∷◌, ◌++◌, arith, length,
}
use ali_middleware.Common.Run.{ok}
use ali_middleware.TraceableList.{null, new_node, size}
use ali_middleware.Event
use ali_middleware.Event.{DeadlineTimer, Event, waiters}
use ali_middleware.Pool.{built, lift, borrow_at, borrow_again, do_try_borrow_one, no_objects}
use ali_middleware.Pool.Holds.{Holds, no_objects-Holds}
use ali_middleware.Pool.Refine.{Outcome, do_try_borrow_one-Outcome}
use ali_middleware.Pool.Coro.{Coro, IsLent}
use ali_middleware.Pool.Coro
use ali_middleware.Pool.Served.{Between, Turns-Between, lost_wakeup}
use ali_middleware.Pool.Threaded.{Threaded}
use ali_middleware.Pool.Threaded
use ali_middleware.Pool.Ready.{IsReady, Reach-IsReady}
use ali_middleware.Pool.Semaphore.{Ask, borrow, release, Users, asks, semaphore}
use ali_middleware.Pool.Semaphore.Replies.{IsUsers, asks-semaphore}
use ali_middleware.Pool.Sample.{cells, lent_out, lent_out-Holds, small}
use ali_middleware.Pool.Stale.{stale_flag}

-- A timer that keeps its waits in a queue.
abbrev Queue : Type 0
Queue = List ℕ

abbrev pop : Queue → Option ℕ × Queue
pop [] = (none, [])
pop (h ∷ hs) = (some h, hs)

pop-none : (q : Queue) → q ≡ [] → ((pop q).0 ≡ none) × ((pop q).1 ≡ [])
pop-none [] e = (refl, refl)
pop-none (h ∷ hs) e = cc

pop-some : (q : Queue) (h : ℕ) (hs : List ℕ) → q ≡ h ∷ hs → ((pop q).0 ≡ some h) × ((pop q).1 ≡ hs)
pop-some [] h hs e = cc
pop-some (x ∷ q) h hs e = (cc, cc)

abbrev fifo : DeadlineTimer
fifo = record {
  Timer = Queue;
  unset = [];
  expires_at_infinity = λ q. q;
  async_wait = λ h q. q ++ h ∷ [];
  cancel_one = pop;
  cancel = λ q. (q, []);
  pending = λ q. q;
  pending-expires = refl;
  pending-wait = λ h q. refl;
  cancel_one-none = pop-none;
  cancel_one-some = pop-some;
  cancel-all = λ q. (refl, refl);
}

lent₃ : Holds 3 lent_out (cells false false)
lent₃ = lent_out-Holds 3 (omega arith)

lent₂ : Holds 2 lent_out (cells false false)
lent₂ = lent_out-Holds 2 (omega arith)

-- A third object is built.
do_try_borrow_one-Outcome_example :
    Outcome 3 lent_out (cells false false) lent₃ (omega arith) (built 30)
do_try_borrow_one-Outcome_example =
    do_try_borrow_one-Outcome 3 lent_out (cells false false) lent₃ (omega arith) (built 30)

full : do_try_borrow_one 2 (built 30) lent_out ≡ ok null lent_out
unfolding do_try_borrow_one borrow_again borrow_at lift size
full = refl

IsLent-1 : IsLent lent_out 1
IsLent-1 = (new_node 10 0 2 false, refl, refl)

IsLent-2 : IsLent lent_out 2
IsLent-2 = (new_node 20 1 0 false, refl, refl)

-- Nobody waits.
abbrev calm : Coro fifo ℕ 2
calm = record { objects = lent_out; event = record { timer = [] }; late = []; woken = [] }

calm-Between : Between fifo ℕ 2 small calm
calm-Between = record { sound = (cells false false, lent₂); served = inl refl; none_late = refl }

-- A coroutine fails to borrow and waits.
abbrev crowded : Coro fifo ℕ 2
crowded = record calm { event = record { timer = 5 ∷ [] } }

crowding : Coro.Turns fifo ℕ 2 calm crowded
unfolding Event.wait
crowding = Coro.turn Coro.start (
    Coro.two (record calm { late = 5 ∷ [] }) (Coro.fails 5 (built 30) lent_out full refl)
      (Coro.waits 5 [] [] refl refl) refl)

Turns-Between_example : Between fifo ℕ 2 small crowded
Turns-Between_example = Turns-Between fifo ℕ 2 small calm crowded calm-Between crowding

lost_wakeup_example :
    (u : Coro fifo ℕ 2) × Coro.Reach fifo ℕ 2 calm u
    × (waiters fifo u.event ≡ 5 ∷ [])
    × (u.objects.free_list ≡ 1 ∷ [])
    × (u.woken ≡ [])
    × (u.late ≡ [])
lost_wakeup_example =
    lost_wakeup fifo ℕ 2 small calm 1 5 (built 30) calm-Between refl refl (lent_out, full, IsLent-1)

abbrev still : Threaded ℕ 2
still = record {
  objects = lent_out;
  new_obj_ready = false;
  checking = [];
  waiting = [];
  notifying = [];
  failed = [];
}

still-IsReady : IsReady ℕ 2 small still
still-IsReady = record { sound = (cells false false, lent₂); ready = λ z. cc; none_failed = refl }

-- A thread fails to borrow and is blocked.
abbrev blocked : Threaded ℕ 2
blocked = record still { waiting = 5 ∷ [] }

blocking : Threaded.Reach ℕ 2 still blocked
blocking =
    Threaded.next (Threaded.next Threaded.here (Threaded.fails 5 (built 30) lent_out full refl))
      (Threaded.blocks 5 [] [] refl refl refl)

Reach-IsReady_example : IsReady ℕ 2 small blocked
Reach-IsReady_example = Reach-IsReady ℕ 2 small still blocked still-IsReady blocking

stale_flag_example :
    (u : Threaded ℕ 2) × Threaded.Reach ℕ 2 still u
    × (u.waiting ≡ 5 ∷ [])
    × (u.checking ≡ [])
    × (u.notifying ≡ [])
    × (u.new_obj_ready ≡ false)
    × (u.objects.free_list ≡ 1 ∷ [])
stale_flag_example =
    stale_flag ℕ 2 small still 1 2 5 (built 30) still-IsReady refl refl refl (omega arith)
      (lent_out, full, IsLent-1, IsLent-2)

abbrev requests : List Ask
requests = borrow ∷ borrow ∷ borrow ∷ release 0 ∷ borrow ∷ []

abbrev nobody : Users ℕ
nobody = record { objects = no_objects; held = [] }

nobody-IsUsers : IsUsers 2 nobody
unfolding no_objects
nobody-IsUsers = record {
  cells = [];
  hold = no_objects-Holds 2;
  lent = record { nodup = tt; owned = tt; taken = tt; total = refl };
}

-- Three borrows of a pool for two objects, and one more behind a release.
asks-semaphore_example :
    (u' : Users ℕ) × (asks 2 (built 10) requests nobody ≡ ok (semaphore 2 requests 0).0 u')
    × (length u'.held ≡ (semaphore 2 requests 0).1)
    × IsUsers 2 u'
asks-semaphore_example = asks-semaphore 2 small 10 requests nobody nobody-IsUsers
