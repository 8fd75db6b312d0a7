-- ===== src/Pool.antt =====
-- lib/pool.hpp: the objects that both pools manage, a buffer of nodes and a list of free ones. The
-- two classes share this part word for word, but for the flag `new_obj_ready`.
pub mod Fill
pub mod Holds
pub mod Borrow
pub mod Coro
pub mod Mark
pub mod Ready
pub mod Refine
pub mod Release
pub mod Sample
pub mod Semaphore
pub mod Served
pub mod Stale
mod Tests
pub mod Threaded
pub mod Wakeup
use ali_middleware.Common.{ℕ, zero, suc, ◌++◌, Bool, true, false, List, [], ◌∷◌, ltb, if◌then◌else◌}
use ali_middleware.Common.Run.{
  Run, ok, thrown, fault, out_of_fuel, Cmd, Exception, pure, throw, modify, gets, ◌>>=◌, ◌>>◌,
}
use ali_middleware.TraceableList.{
  Ptr, null, TraceableList, empty, of_data, set_extra_info, end, decrement, deref, push_back, size,
}

-- What the constructor of `obj_t` does with the bound arguments: it builds an object or throws, as
-- `pooled_conn` does where it cannot connect.
pub data Construct (T : Type 0) : Type 0 where
  built : T → Construct T
  raised : Exception → Construct T

pub record Objects (T : Type 0) : Type 0 where
  pub buffer : TraceableList T Bool
  pub free_list : List Ptr

module _ {T : Type 0} where
  pub lift : {A : Type 0} → Objects T → Run (TraceableList T Bool) A → Run (Objects T) A
  lift o (ok a b) = ok a (record o { buffer = b })
  lift o (thrown e b) = thrown e (record o { buffer = b })
  lift o fault = fault
  lift o out_of_fuel = out_of_fuel

  abbrev pub on_buffer : {A : Type 0} → Cmd (TraceableList T Bool) A → Cmd (Objects T) A
  on_buffer m o = lift o (m o.buffer)

  pub construct : Construct T → Cmd (Objects T) T
  construct (built v) = pure v
  construct (raised e) = throw e

  pub new_obj_to_buffer : Construct T → Cmd (Objects T) (Unit {0})
  new_obj_to_buffer c = do v ← construct c; on_buffer (push_back v true)

  -- `free_list.push_back(&*--buffer.end())`
  pub free_last : Cmd (Objects T) (Unit {0})
  free_last = do
    it ← on_buffer end
    last ← on_buffer (decrement it)
    on_buffer (deref last)
    modify (λ o. record o { free_list = o.free_list ++ last.ptr ∷ [] })

  -- The flag of an object, by a pointer to its data.
  pub mark : Ptr → Bool → Cmd (Objects T) (Unit {0})
  mark p free = do it ← on_buffer (of_data p); on_buffer (set_extra_info it free)

  -- The two tests of `do_try_borrow_one` at the label, and what it does before the jump back.
  pub borrow_at : ℕ → Construct T → Cmd (Objects T) Ptr → List Ptr → Cmd (Objects T) Ptr
  borrow_at max_size c again (p ∷ rest) = do
    modify (λ o. record o { free_list = rest })
    mark p false
    pure p
  borrow_at max_size c again [] = do
    n ← on_buffer size
    if ltb n max_size then (do new_obj_to_buffer c; free_last; again) else pure null

  -- The jump is taken once at most, so two rounds are enough.
  pub borrow_again : ℕ → ℕ → Construct T → Cmd (Objects T) Ptr
  borrow_again zero max_size c = λ _. out_of_fuel
  borrow_again (suc k) max_size c =
      gets (λ o. o.free_list) >>= borrow_at max_size c (borrow_again k max_size c)

  -- `do_try_borrow_one`: null where the pool is full and nothing is free.
  pub do_try_borrow_one : ℕ → Construct T → Cmd (Objects T) Ptr
  do_try_borrow_one = borrow_again 2

  -- `release_one`, up to the notification.
  pub give_back : Ptr → Cmd (Objects T) (Unit {0})
  give_back p = do modify (λ o. record o { free_list = p ∷ o.free_list }); mark p true

  -- The loop of `fill_full`, with the constructor's answer to each round.
  pub fill_loop : ℕ → (ℕ → Construct T) → Cmd (Objects T) (Unit {0})
  fill_loop zero c = pure tt
  fill_loop (suc k) c = do new_obj_to_buffer (c k); free_last; fill_loop k c

  pub fill_full : ℕ → (ℕ → Construct T) → Cmd (Objects T) (Unit {0})
  fill_full max_size c = fill_loop max_size c

pub no_objects : {T : Type 0} → Objects T
no_objects = record { buffer = empty; free_list = [] }
