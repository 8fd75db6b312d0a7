-- ===== src/Pool/Fill.antt =====
-- `fill_full` of lib/pool.hpp with a constructor that can throw.
use ali_middleware.Common.{
  ℕ, zero, suc, ◌+◌, ◌≤◌, ◌<◌, ◌^◌, ◌≡◌, refl, ◌⊎◌, inl, inr, ◌∙◌, ap, Bool, true, List, [], ◌∷◌,
  ◌++◌, arith, length, length-append,
}
use ali_middleware.Common.Except.{Except, success, failure}
use ali_middleware.Common.Run.{Run, Exception, ok, thrown, ◌>>◌, and_then_assoc}
use ali_middleware.TraceableList.Chain.{Cell}
use ali_middleware.TraceableList.Grow.{pushed}
use ali_middleware.Pool.{
  Objects, Construct, built, raised, construct, new_obj_to_buffer, free_last, fill_loop, fill_full,
  no_objects,
}
use ali_middleware.Pool.Holds.{Holds, no_objects-Holds}
use ali_middleware.Pool.Borrow.{grow-Holds}

module _ {T : Type 0} where
  -- The first exception of the constructor in the loop's order, if it throws.
  abbrev pub all_built : ℕ → (ℕ → Construct T) → Except (Unit {0})
  all_built zero c = success tt
  all_built (suc k) c = elim (c k) [ built v ↦ all_built k c | raised e ↦ failure e ]

  -- A run that adds `k` free objects to those of `o`, or throws.
  abbrev pub Filled :
      (k max_size : ℕ)
      → Objects T
      → List (Cell T Bool)
      → Except (Unit {0})
      → Run (Objects T) (Unit {0})
      → Type 0
  Filled k max_size o cs (failure e) r = (o' : Objects T) × (r ≡ thrown e o')
  Filled k max_size o cs (success u) r =
      (o' : Objects T) × (cs' : List (Cell T Bool)) × (r ≡ ok tt o')
      × Holds max_size o' cs'
      × (length cs' ≡ length cs + k)
      × (length o'.free_list ≡ length o.free_list + k)

  Construct-cases :
      (c : Construct T) → ((v : T) × (c ≡ built v)) ⊎ ((e : Exception) × (c ≡ raised e))
  Construct-cases (built v) = inl (v, refl)
  Construct-cases (raised e) = inr (e, refl)

  Filled-suc :
      (k max_size : ℕ) (o o₁ : Objects T) (cs cs₁ : List (Cell T Bool)) (x : Except (Unit {0}))
      (r : Run (Objects T) (Unit {0}))
      → length cs₁ ≡ length cs + 1
      → length o₁.free_list ≡ length o.free_list + 1
      → Filled k max_size o₁ cs₁ x r
      → Filled (suc k) max_size o cs x r
  Filled-suc k max_size o o₁ cs cs₁ (failure e) r size free h = h
  Filled-suc k max_size o o₁ cs cs₁ (success u) r size free (o', cs', e, hold, size', free') =
      (o', cs', e, hold, omega arith, omega arith)

  fill_loop-zero : (c : ℕ → Construct T) (o : Objects T) → fill_loop zero c o ≡ ok tt o
  unfolding fill_loop
  fill_loop-zero c o = refl

  fill_loop-raised :
      (k : ℕ) (c : ℕ → Construct T) (o : Objects T) (e : Exception)
      → c k ≡ raised e
      → fill_loop (suc k) c o ≡ thrown e o
  unfolding fill_loop new_obj_to_buffer construct
  fill_loop-raised k c o e f = rw f refl

  fill_loop-built :
      (k : ℕ) (c : ℕ → Construct T) (o o₁ : Objects T) (v : T)
      → c k ≡ built v
      → (new_obj_to_buffer (built v) >> free_last) o ≡ ok tt o₁
      → fill_loop (suc k) c o ≡ fill_loop k c o₁
  unfolding fill_loop
  fill_loop-built k c o o₁ v f e =
      rw f (and_then_assoc (new_obj_to_buffer (built v) o) free_last (fill_loop k c) ∙ rw e refl)

  fill_loop-Filled :
      (k max_size : ℕ) (c : ℕ → Construct T) (o : Objects T) (cs : List (Cell T Bool))
      → Holds max_size o cs
      → max_size < 2 ^ 64
      → length cs + k ≤ max_size
      → Filled k max_size o cs (all_built k c) (fill_loop k c o)
  fill_loop-Filled zero max_size c o cs hold fits room =
      (o, cs, fill_loop-zero c o, hold, omega arith, omega arith)
  fill_loop-Filled (suc k) max_size c o cs hold fits room = elim (Construct-cases (c k)) [
    | inr (e, f) ↦ rw (f, all_built) (o, fill_loop-raised k c o e f)
    | inl (v, f) ↦
        let (o₁, e₁, hold₁, free₁, _) = grow-Holds max_size o cs hold v (omega arith) fits in
        let n = pushed o.buffer.brk v true in
        let grown : length (cs ++ n ∷ []) ≡ length cs + 1 = length-append cs (n ∷ []) in
        let freed : length o₁.free_list ≡ length o.free_list + 1 =
          ap length free₁ ∙ length-append o.free_list (o.buffer.brk ∷ []) in
        let rest = fill_loop-Filled k max_size c o₁ (cs ++ n ∷ []) hold₁ fits (omega arith) in
        let more =
          Filled-suc k max_size o o₁ cs (cs ++ n ∷ []) (all_built k c) (fill_loop k c o₁) grown
            freed rest in
        rw (fill_loop-built k c o o₁ v f e₁) (rw (f, all_built) more)
  ]

  -- `fill_full` on a new pool throws the first exception of the constructor, if it throws one; else
  -- all objects exist and all are free.
  pub fill_full-Filled :
      (max_size : ℕ) (c : ℕ → Construct T)
      → max_size < 2 ^ 64
      → Filled max_size max_size no_objects []
          (all_built max_size c)
          (fill_full max_size c no_objects)
  unfolding fill_full
  fill_full-Filled max_size c fits =
      fill_loop-Filled max_size max_size c no_objects [] (no_objects-Holds max_size) fits
        (omega arith)
