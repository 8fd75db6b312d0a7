-- ===== src/Pool/Coro.antt =====
-- `fixed_object_pool_coro` of lib/pool.hpp: coroutines that borrow, wait and release.
use ali_middleware.Common.{ℕ, ◌≡◌, ◌≢◌, false, none, some, List, [], ◌∷◌, ◌++◌, Option}
use ali_middleware.Common.Run.{Exception, ok, thrown}
use ali_middleware.TraceableList.{Ptr, null, Node}
use ali_middleware.Event.{DeadlineTimer, Event, wait, notify_one}
use ali_middleware.Pool.{Objects, Construct, do_try_borrow_one, give_back}

-- `p` points to an object of the pool that is marked as busy.
abbrev pub IsLent : {T : Type 0} → Objects T → Ptr → Type 0
IsLent {T} o p = (n : Node T _) × (o.buffer.cell p ≡ some n) × (n.extra_info ≡ false)

module _ (boost : DeadlineTimer) (T : Type 0) (max_size : ℕ) where
  -- `late` are the coroutines that found nothing and have not begun to wait, `woken` those whose
  -- wait was ended and that have not run since.
  pub record Coro : Type 0 where
    pub objects : Objects T
    pub event : Event boost
    pub late : List ℕ
    pub woken : List ℕ

  -- `release_one`, behind `give_back`: the notification.
  unfoldable pub notify : Option ℕ → Event boost → Objects T → List ℕ → List ℕ → Coro
  notify none ev o late woken = record { objects = o; event = ev; late = late; woken = woken }
  notify (some h) ev o late woken = record {
    objects = o;
    event = ev;
    late = late;
    woken = woken ++ h ∷ [];
  }

  unfoldable pub released : Objects T → Coro → Coro
  released o s = let (h, ev) = notify_one boost s.event in notify h ev o s.late s.woken

  -- One step of one coroutine, where each call under the mutex and each start of a wait is one step:
  -- the coroutines run on several threads.
  pub data Step (s u : Coro) : Type 0 where
    -- `borrow_one` finds an object at once.
    borrows :
        (c : Construct T) (r : Ptr) (o : Objects T)
        → do_try_borrow_one max_size c s.objects ≡ ok r o
        → r ≢ null
        → u ≡ record s { objects = o }
        → Step s u
    -- The constructor of a new object throws out of `borrow_one`.
    raises :
        (c : Construct T) (e : Exception) (o : Objects T)
        → do_try_borrow_one max_size c s.objects ≡ thrown e o
        → u ≡ record s { objects = o }
        → Step s u
    -- It finds none.
    fails :
        (h : ℕ) (c : Construct T) (o : Objects T)
        → do_try_borrow_one max_size c s.objects ≡ ok null o
        → u ≡ record s { objects = o; late = h ∷ s.late }
        → Step s u
    -- `borrow_avail_event.async_wait(yield[ec])`
    waits :
        (h : ℕ) (xs ys : List ℕ)
        → s.late ≡ xs ++ h ∷ ys
        → u ≡ record s { event = wait boost h s.event; late = xs ++ ys }
        → Step s u
    -- A woken coroutine tries again and finds an object.
    resumes :
        (h : ℕ) (xs ys : List ℕ) (c : Construct T) (r : Ptr) (o : Objects T)
        → s.woken ≡ xs ++ h ∷ ys
        → do_try_borrow_one max_size c s.objects ≡ ok r o
        → r ≢ null
        → u ≡ record s { objects = o; woken = xs ++ ys }
        → Step s u
    -- A woken coroutine tries again and the constructor throws.
    raises_woken :
        (h : ℕ) (xs ys : List ℕ) (c : Construct T) (e : Exception) (o : Objects T)
        → s.woken ≡ xs ++ h ∷ ys
        → do_try_borrow_one max_size c s.objects ≡ thrown e o
        → u ≡ record s { objects = o; woken = xs ++ ys }
        → Step s u
    -- "Fake asio::event awake detected!", `goto gt_borrow_one_wait_again`
    fake_awake :
        (h : ℕ) (xs ys : List ℕ) (c : Construct T) (o : Objects T)
        → s.woken ≡ xs ++ h ∷ ys
        → do_try_borrow_one max_size c s.objects ≡ ok null o
        → u ≡ record s { objects = o; late = h ∷ s.late; woken = xs ++ ys }
        → Step s u
    -- `release_one` of an object that its caller holds.
    releases :
        (p : Ptr) (o : Objects T)
        → IsLent s.objects p
        → give_back p s.objects ≡ ok tt o
        → u ≡ released o s
        → Step s u

  -- Steps in a row.
  pub data Reach (s : Coro) : Coro → Type 0 where
    here : Reach s s
    next : {t u : Coro} → Reach s t → Step t u → Reach s u

  -- What one coroutine does until it suspends, where a single thread runs them all: nobody else runs
  -- between its failed attempt and the start of its wait.
  pub data Turn (s u : Coro) : Type 0 where
    one : Step s u → u.late ≡ [] → Turn s u
    two : (m : Coro) → Step s m → Step m u → u.late ≡ [] → Turn s u

  pub data Turns (s : Coro) : Coro → Type 0 where
    start : Turns s s
    turn : {t u : Coro} → Turns s t → Turn t u → Turns s u
