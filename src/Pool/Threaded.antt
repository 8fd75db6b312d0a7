-- ===== src/Pool/Threaded.antt =====
-- `fixed_object_pool` of lib/pool.hpp: threads that borrow, wait on the condition variable, and
-- release.
use ali_middleware.Common.{ℕ, ◌≡◌, ◌≢◌, Bool, true, false, List, [], ◌∷◌, ◌++◌}
use ali_middleware.Common.Run.{Exception, ok, thrown}
use ali_middleware.TraceableList.{Ptr, null}
use ali_middleware.Pool.{Objects, Construct, do_try_borrow_one, give_back}
use ali_middleware.Pool.Coro.{IsLent}

module _ (T : Type 0) (max_size : ℕ) where
  -- `checking` are the threads in `borrow_cv.wait` that are about to lock the mutex and test the
  -- predicate, `waiting` those that it has blocked, `notifying` those that have released an object
  -- and not yet called `notify_one`, `failed` those that threw "unknown par error.".
  pub record Threaded : Type 0 where
    pub objects : Objects T
    pub new_obj_ready : Bool
    pub checking : List ℕ
    pub waiting : List ℕ
    pub notifying : List ℕ
    pub failed : List ℕ

  -- One step of one thread. What stands under one lock is one step.
  pub data Step (s u : Threaded) : Type 0 where
    -- `borrow_one` finds an object at once; where one is handed out, `new_obj_ready` is reset.
    borrows :
        (c : Construct T) (r : Ptr) (o : Objects T)
        → do_try_borrow_one max_size c s.objects ≡ ok r o
        → r ≢ null
        → u ≡ record s { objects = o; new_obj_ready = false }
        → Step s u
    -- The constructor of a new object throws out of `borrow_one`.
    raises :
        (c : Construct T) (e : Exception) (o : Objects T)
        → do_try_borrow_one max_size c s.objects ≡ thrown e o
        → u ≡ record s { objects = o }
        → Step s u
    -- It finds none, and goes to wait.
    fails :
        (h : ℕ) (c : Construct T) (o : Objects T)
        → do_try_borrow_one max_size c s.objects ≡ ok null o
        → u ≡ record s { objects = o; checking = h ∷ s.checking }
        → Step s u
    -- The predicate is false: the thread is blocked.
    blocks :
        (h : ℕ) (xs ys : List ℕ)
        → s.checking ≡ xs ++ h ∷ ys
        → s.new_obj_ready ≡ false
        → u ≡ record s { checking = xs ++ ys; waiting = h ∷ s.waiting }
        → Step s u
    -- The predicate is true: the second `do_try_borrow_one`, with an object, ...
    obtains :
        (h : ℕ) (xs ys : List ℕ) (c : Construct T) (r : Ptr) (o : Objects T)
        → s.checking ≡ xs ++ h ∷ ys
        → s.new_obj_ready ≡ true
        → do_try_borrow_one max_size c s.objects ≡ ok r o
        → r ≢ null
        → u ≡ record s { objects = o; new_obj_ready = false; checking = xs ++ ys }
        → Step s u
    -- ... with none, ...
    gives_up :
        (h : ℕ) (xs ys : List ℕ) (c : Construct T) (o : Objects T)
        → s.checking ≡ xs ++ h ∷ ys
        → s.new_obj_ready ≡ true
        → do_try_borrow_one max_size c s.objects ≡ ok null o
        → u ≡ record s { objects = o; checking = xs ++ ys; failed = h ∷ s.failed }
        → Step s u
    -- ... or with an exception of the constructor.
    breaks :
        (h : ℕ) (xs ys : List ℕ) (c : Construct T) (e : Exception) (o : Objects T)
        → s.checking ≡ xs ++ h ∷ ys
        → s.new_obj_ready ≡ true
        → do_try_borrow_one max_size c s.objects ≡ thrown e o
        → u ≡ record s { objects = o; checking = xs ++ ys }
        → Step s u
    -- `release_one` under its lock.
    releases :
        (h : ℕ) (p : Ptr) (o : Objects T)
        → IsLent s.objects p
        → give_back p s.objects ≡ ok tt o
        → u ≡ record s { objects = o; new_obj_ready = true; notifying = h ∷ s.notifying }
        → Step s u
    -- `notify_one` where nobody is blocked, and where one is.
    notifies_none :
        (h : ℕ) (xs ys : List ℕ)
        → s.notifying ≡ xs ++ h ∷ ys
        → s.waiting ≡ []
        → u ≡ record s { notifying = xs ++ ys }
        → Step s u
    notifies_one :
        (h w : ℕ) (xs ys vs ws : List ℕ)
        → s.notifying ≡ xs ++ h ∷ ys
        → s.waiting ≡ vs ++ w ∷ ws
        → u ≡ record s { notifying = xs ++ ys; waiting = vs ++ ws; checking = w ∷ s.checking }
        → Step s u
    -- A thread may wake with no notification.
    wakes :
        (w : ℕ) (vs ws : List ℕ)
        → s.waiting ≡ vs ++ w ∷ ws
        → u ≡ record s { waiting = vs ++ ws; checking = w ∷ s.checking }
        → Step s u

  pub data Reach (s : Threaded) : Threaded → Type 0 where
    here : Reach s s
    next : {t u : Threaded} → Reach s t → Step t u → Reach s u
