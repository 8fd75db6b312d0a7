-- ===== src/Pool/Ready.antt =====
-- What `new_obj_ready` of `fixed_object_pool` (lib/pool.hpp) says of the free list, and what it does
-- not.
use ali_middleware.Common.{ℕ, ◌^◌, ◌<◌, ◌≡◌, ap, ◌≢◌, Bool, true, List, []}
use ali_middleware.TraceableList.{null}
use ali_middleware.TraceableList.Chain.{Cell}
use ali_middleware.Pool.{Objects}
use ali_middleware.Pool.Threaded.{
  Threaded, Step, borrows, raises, fails, blocks, obtains, gives_up, breaks, releases,
  notifies_none, notifies_one, wakes, Reach, here, next,
}
use ali_middleware.Pool.Holds.{Holds}
use ali_middleware.Pool.Release.{give_back-Holds, borrow-null_iff}
use ali_middleware.Pool.Wakeup.{try-free, try-thrown, lent}

module _ (T : Type 0) (max_size : ℕ) (fits : max_size < 2 ^ 64) where
  abbrev S : Type 0
  S = Threaded T max_size

  pub record IsReady (s : S) : Type 0 where
    pub sound : (cs : List (Cell T Bool)) × Holds max_size s.objects cs
    pub ready : s.new_obj_ready ≡ true → s.objects.free_list ≢ []
    pub none_failed : s.failed ≡ []

  Step-IsReady : (s u : S) → IsReady s → Step T max_size s u → IsReady u
  Step-IsReady s u v (borrows c r o e ne eq) =
      let (cs', hold', _) = try-free max_size fits s.objects v.sound.0 v.sound.1 c r o e in
      rw eq (record { sound = (cs', hold'); ready = λ z. cc; none_failed = v.none_failed })
  Step-IsReady s u v (raises c x o e eq) =
      let (same, _) = try-thrown max_size fits s.objects v.sound.0 v.sound.1 c x o e in
      rw (eq, same) (record { sound = v.sound; ready = v.ready; none_failed = v.none_failed })
  Step-IsReady s u v (fails h c o e eq) =
      let (cs', hold', free) = try-free max_size fits s.objects v.sound.0 v.sound.1 c null o e in
      let (empty, _) = (borrow-null_iff max_size s.objects v.sound.0 v.sound.1 c fits).0 (o, e) in
      rw eq (record {
        sound = (cs', hold');
        ready = λ z. absurd (v.ready z empty);
        none_failed = v.none_failed;
      })
  Step-IsReady s u v (blocks h xs ys at low eq) =
      rw eq (record { sound = v.sound; ready = v.ready; none_failed = v.none_failed })
  Step-IsReady s u v (obtains h xs ys c r o at high e ne eq) =
      let (cs', hold', _) = try-free max_size fits s.objects v.sound.0 v.sound.1 c r o e in
      rw eq (record { sound = (cs', hold'); ready = λ z. cc; none_failed = v.none_failed })
  Step-IsReady s u v (gives_up h xs ys c o at high e eq) =
      let (empty, _) = (borrow-null_iff max_size s.objects v.sound.0 v.sound.1 c fits).0 (o, e) in
      absurd (v.ready high empty)
  Step-IsReady s u v (breaks h xs ys c x o at high e eq) =
      let (_, empty) = try-thrown max_size fits s.objects v.sound.0 v.sound.1 c x o e in
      absurd (v.ready high empty)
  Step-IsReady s u v (releases h p o is_lent e eq) =
      let (i, out) = lent max_size fits s.objects v.sound.0 v.sound.1 p is_lent in
      let (o', cs', e', hold', free, _, _) =
        give_back-Holds max_size s.objects v.sound.0 v.sound.1 p i out in
      let same : o' ≡ o = cc (e, e') in
      rw eq (record {
        sound = (cs', rw same at hold');
        ready = λ z empty. cc (free, ap (λ (q : Objects T). q.free_list) same, empty);
        none_failed = v.none_failed;
      })
  Step-IsReady s u v (notifies_none h xs ys at none eq) =
      rw eq (record { sound = v.sound; ready = v.ready; none_failed = v.none_failed })
  Step-IsReady s u v (notifies_one h w xs ys vs ws at some_w eq) =
      rw eq (record { sound = v.sound; ready = v.ready; none_failed = v.none_failed })
  Step-IsReady s u v (wakes w vs ws at eq) =
      rw eq (record { sound = v.sound; ready = v.ready; none_failed = v.none_failed })

  -- Whatever the threads do, the pool keeps its invariant, `new_obj_ready` is set only while an
  -- object is free, and no thread ever throws "unknown par error.".
  pub Reach-IsReady : (s u : S) → IsReady s → Reach T max_size s u → IsReady u
  Reach-IsReady s u v here = v
  Reach-IsReady s u v (next {t} r st) = Step-IsReady t u (Reach-IsReady s t v r) st
