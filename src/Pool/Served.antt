-- ===== src/Pool/Served.antt =====
-- Where one thread runs the coroutines of `fixed_object_pool_coro` (lib/pool.hpp), no release is
-- lost; where several do, one can be.
use ali_middleware.Common.{
  ℕ, ◌+◌, ◌<◌, ◌^◌, ◌≡◌, refl, sym, ◌∙◌, ap, ◌⊎◌, inl, inr, Bool, List, [], ◌∷◌, ◌++◌, arith,
  length,
}
use ali_middleware.TraceableList.{null}
use ali_middleware.TraceableList.Chain.{Cell}
use ali_middleware.Event.{DeadlineTimer, wait}
use ali_middleware.Pool.{Objects, Construct, do_try_borrow_one}
use ali_middleware.Common.Run.{ok}
use ali_middleware.Pool.Coro.{
  IsLent, Coro, released, Step, borrows, fails, waits, resumes, fake_awake, releases, raises,
  raises_woken, Reach, here, next, Turn, one, two, Turns, start, turn,
}
use ali_middleware.Pool.Holds.{Holds}
use ali_middleware.Pool.Wakeup.{
  try-free, try-thrown, lent, length-tail, tail, IsServed, Sound, length-remove, released-IsServed,
  waiting, released-objects, released-nobody,
}
use ali_middleware.Pool.Release.{give_back-Holds, borrow-null_iff}

module _ (boost : DeadlineTimer) (T : Type 0) (max_size : ℕ) (fits : max_size < 2 ^ 64) where
  abbrev S : Type 0
  S = Coro boost T max_size

  -- Nobody is between a failed attempt and its wait, or nothing is free.
  abbrev IsQuiet : S → Type 0
  IsQuiet s = (s.late ≡ []) ⊎ (s.objects.free_list ≡ [])

  quiet_wait :
      (s : S) (h : ℕ) (xs ys : List ℕ)
      → s.late ≡ xs ++ h ∷ ys
      → IsQuiet s
      → s.objects.free_list ≡ []
  quiet_wait s h [] ys e q = ground arith
  quiet_wait s h (x ∷ xs) ys e q = ground arith

  Step-IsServed :
      (s u : S)
      → Sound boost T max_size fits s
      → IsServed boost T max_size fits s
      → IsQuiet s
      → Step boost T max_size s u
      → Sound boost T max_size fits u × IsServed boost T max_size fits u
  Step-IsServed s u (cs, hold) served quiet (borrows c r o e ne eq) =
      let (cs', hold', free) = try-free max_size fits s.objects cs hold c r o e in
      rw eq ((cs', hold'), ground (arith, free, length-tail s.objects.free_list))
  Step-IsServed s u (cs, hold) served quiet (raises c x o e eq) =
      let (same, none_free) = try-thrown max_size fits s.objects cs hold c x o e in
      rw (eq, same) ((cs, hold), served)
  Step-IsServed s u (cs, hold) served quiet (fails h c o e eq) =
      let (cs', hold', free) = try-free max_size fits s.objects cs hold c _ o e in
      rw eq ((cs', hold'), ground (arith, free, length-tail s.objects.free_list))
  Step-IsServed s u (cs, hold) served quiet (waits h xs ys late eq) =
      rw eq ((cs, hold), inr (ground (arith, quiet_wait s h xs ys late quiet)))
  Step-IsServed s u (cs, hold) served quiet (resumes h xs ys c r o woken e ne eq) =
      let (cs', hold', free) = try-free max_size fits s.objects cs hold c r o e in
      rw eq (
        (cs', hold'),
        ground (
          arith,
          ap length free,
          length-tail s.objects.free_list,
          length-remove boost T max_size fits h s.woken xs ys woken,
        ),
      )
  Step-IsServed s u (cs, hold) served quiet (raises_woken h xs ys c x o woken e eq) =
      let (same, none_free) = try-thrown max_size fits s.objects cs hold c x o e in
      rw (eq, same) ((cs, hold), inr (ground (arith, none_free)))
  Step-IsServed s u (cs, hold) served quiet (fake_awake h xs ys c o woken e eq) =
      let (cs', hold', free) = try-free max_size fits s.objects cs hold c _ o e in
      rw eq (
        (cs', hold'),
        ground (
          arith,
          ap length free,
          length-tail s.objects.free_list,
          length-remove boost T max_size fits h s.woken xs ys woken,
        ),
      )
  Step-IsServed s u (cs, hold) served quiet (releases p o is_lent e eq) =
      let (i, out) = lent max_size fits s.objects cs hold p is_lent in
      let (o', cs', e', hold', free, _, _) = give_back-Holds max_size s.objects cs hold p i out in
      let same : o' ≡ o = cc (e, e') in
      let more : length o.free_list ≡ length s.objects.free_list + 1 =
        ap (λ (q : Objects T). length q.free_list) (sym same) ∙ ground (arith, free) in
      rw eq (
        (cs', rw (released-objects boost T max_size fits s o).0 (rw same at hold')),
        released-IsServed boost T max_size fits s o (waiting boost T max_size fits s) refl more
            served,
      )

  -- After any step from a state without late coroutines, nobody is late or nothing is free.
  nil_split : (xs : List ℕ) (h : ℕ) (ys : List ℕ) → [] ≡ xs ++ h ∷ ys → ⊥
  nil_split [] h ys e = cc
  nil_split (x ∷ xs) h ys e = cc

  null-free :
      (o : Objects T) (cs : List (Cell T Bool)) (c : Construct T) (o' : Objects T)
      → Holds max_size o cs
      → do_try_borrow_one max_size c o ≡ ok null o'
      → o'.free_list ≡ []
  null-free o cs c o' hold e =
      let (cs', hold', free) = try-free max_size fits o cs hold c null o' e in
      let (empty, _) = (borrow-null_iff max_size o cs hold c fits).0 (o', e) in free ∙ ap tail empty

  Step-IsQuiet :
      (s m : S)
      → Sound boost T max_size fits s
      → s.late ≡ []
      → Step boost T max_size s m
      → IsQuiet m
  Step-IsQuiet s m sound none_late (borrows c r o e ne eq) = rw eq (inl none_late)
  Step-IsQuiet s m sound none_late (raises c x o e eq) = rw eq (inl none_late)
  Step-IsQuiet s m (cs, hold) none_late (fails h c o e eq) =
      rw eq (inr (null-free s.objects cs c o hold e))
  Step-IsQuiet s m sound none_late (waits h xs ys late eq) =
      absurd (nil_split xs h ys (sym none_late ∙ late))
  Step-IsQuiet s m sound none_late (resumes h xs ys c r o woken e ne eq) = rw eq (inl none_late)
  Step-IsQuiet s m sound none_late (raises_woken h xs ys c x o woken e eq) = rw eq (inl none_late)
  Step-IsQuiet s m (cs, hold) none_late (fake_awake h xs ys c o woken e eq) =
      rw eq (inr (null-free s.objects cs c o hold e))
  Step-IsQuiet s m sound none_late (releases p o is_lent e eq) =
      rw eq (inl ((released-objects boost T max_size fits s o).1 ∙ none_late))

  -- What holds between the turns of a single thread.
  pub record Between (s : S) : Type 0 where
    pub sound : Sound boost T max_size fits s
    pub served : IsServed boost T max_size fits s
    pub none_late : s.late ≡ []

  Turn-Between : (s u : S) → Between s → Turn boost T max_size s u → Between u
  Turn-Between s u b (one st late) =
      let (sound, served) = Step-IsServed s u b.sound b.served (inl b.none_late) st in
      record { sound = sound; served = served; none_late = late }
  Turn-Between s u b (two m st st' late) =
      let quiet = Step-IsQuiet s m b.sound b.none_late st in
      let (sound, served) = Step-IsServed s m b.sound b.served (inl b.none_late) st in
      let (sound', served') = Step-IsServed m u sound served quiet st' in
      record { sound = sound'; served = served'; none_late = late }

  -- Where one thread runs all coroutines, the pool keeps its invariant and no release is lost: after
  -- any number of turns, as long as a coroutine waits, there are at most as many free objects as
  -- coroutines that have been woken and are about to try again.
  pub Turns-Between : (s u : S) → Between s → Turns boost T max_size s u → Between u
  Turns-Between s u b start = b
  Turns-Between s u b (turn {t} ts tn) = Turn-Between t u (Turns-Between s t b ts) tn

  -- Where several threads run the coroutines, a release can be lost. From a pool whose objects are all
  -- lent, where nobody waits or is woken, there is a run in which a release comes after a coroutine's
  -- failed attempt and before the start of its wait: the coroutine then waits while the object is free
  -- and nobody is woken.
  pub lost_wakeup :
      (s : S) (p h : ℕ) (c : Construct T)
      → Between s
      → waiting boost T max_size fits s ≡ []
      → s.woken ≡ []
      → ((o : Objects T) × (do_try_borrow_one max_size c s.objects ≡ ok null o) × IsLent o p)
      → (u : S) × Reach boost T max_size s u
        × (waiting boost T max_size fits u ≡ h ∷ [])
        × (u.objects.free_list ≡ p ∷ [])
        × (u.woken ≡ [])
        × (u.late ≡ [])
  unfolding wait
  lost_wakeup s p h c b none_waits none_woken (o, e, is_lent) =
      let (cs, hold) = b.sound in
      let (cs₁, hold₁, _) = try-free max_size fits s.objects cs hold c null o e in
      let (i, out) = lent max_size fits o cs₁ hold₁ p is_lent in
      let (o₂, cs₂, e₂, hold₂, free₂, _, _) = give_back-Holds max_size o cs₁ hold₁ p i out in
      let s₁ : S = record s { objects = o; late = h ∷ s.late } in
      let s₂ : S = released boost T max_size o₂ s₁ in
      let (same, late) = released-objects boost T max_size fits s₁ o₂ in
      let (nobody, woken) = released-nobody boost T max_size fits s₁ o₂ none_waits in
      let s₃ : S = record s₂ { event = wait boost h s₂.event; late = [] } in
      (
        s₃,
        next (next (next here (fails h c o e refl)) (releases p o₂ is_lent e₂ refl))
            (waits h [] [] (late ∙ ap (λ t. h ∷ t) b.none_late) refl),
        boost.pending-wait h s₂.event.timer ∙ ap (λ t. t ++ h ∷ []) nobody,
        ap (λ (q : Objects T). q.free_list) same
            ∙ free₂
            ∙ ap (λ t. p ∷ t) (null-free s.objects cs c o hold e),
        woken ∙ none_woken,
        refl,
      )
