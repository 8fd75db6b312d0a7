-- ===== src/Selector/Race.antt =====
-- `query_once` of src/provider_selector.hpp as the accesses that threads can interleave: `curr` is a
-- static variable with no lock, and a consumer agent with `--threads` above 1 calls it from each
-- thread. The accesses are taken in one order that all threads see, which the language does not even
-- promise for a race.
pub mod Alone
pub mod Fault
pub mod Steps
use ali_middleware.Common.{
  ℕ, zero, suc, Option, none, some, List, [], ◌∷◌, length, get_elem?, ltb, ◌==◌, if◌then◌else◌,
}
use ali_middleware.Common.Run.{Run, Cmd, ok, thrown, fault, out_of_fuel, pure, ◌>>=◌}
use ali_middleware.Selector.{Selector, provider_at, set_pool_latency, cooled, start_at}

-- Where a thread stands in the call, with the rounds that are left and the latency that was read last.
pub data Pc : Type 0 where
  enter : Pc
  test : (rounds latency : ℕ) → Pc
  to_begin : (rounds : ℕ) → Pc
  load : (rounds : ℕ) → Pc
  take : Pc
  taken : (old : ℕ) → Pc
  cool : (latency : ℕ) → Pc
  advance : Pc
  advanced : (old : ℕ) → Pc
  returned : Option ℕ → Pc

abbrev pub set_curr : ℕ → Selector → Selector
set_curr c s = record s { curr = some c }

-- What `curr++` and `++curr` write behind the read, and the answer by the entry at the old place. From
-- end() there is no next place.
pub store_next : ℕ → (ℕ → Option ℕ) → Cmd Selector Pc
store_next old answer s = elim (get_elem? s.robin_queue old) [
  | none ↦ fault
  | some i ↦ ok (returned (answer i)) (set_curr (suc old) s)
]

-- One access to `curr`, and what the thread does up to the next. `enter` is the initialisation of the
-- static variable, which only one thread does.
pub step : Pc → Cmd Selector Pc
step enter s = ok (test (length s.robin_queue) 1) (set_curr (start_at s.curr) s)
step (test zero l) s = ok (cool l) s
step (test (suc k) l) s =
    ok (if start_at s.curr == length s.robin_queue then to_begin k else load k) s
step (to_begin k) s = ok (load k) (set_curr 0 s)
step (load k) s = elim (provider_at s (start_at s.curr)) [
  | none ↦ fault
  | some (i, p) ↦ ok (if ltb p.connpool_latency 10000 then take else test k p.connpool_latency) s
]
step take s = ok (taken (start_at s.curr)) s
step (taken old) s = store_next old some s
step (cool l) s = elim (provider_at s (start_at s.curr)) [
  | none ↦ fault
  | some (i, p) ↦ ok advance (record s { providers = set_pool_latency i (cooled l) s.providers })
]
step advance s = ok (advanced (start_at s.curr)) s
step (advanced old) s = store_next old (λ _. none) s
step (returned x) s = ok (returned x) s

pub data Thread : Type 0 where
  thread_a thread_b : Thread

-- Two threads in a call each, by the order of their steps.
pub interleave : List Thread → Pc → Pc → Cmd Selector (Pc × Pc)
interleave [] a b = pure (a, b)
interleave (thread_a ∷ order) a b = step a >>= λ a'. interleave order a' b
interleave (thread_b ∷ order) a b = step b >>= λ b'. interleave order a b'

-- So many steps of one thread.
pub run : ℕ → Pc → Cmd Selector Pc
run zero pc = pure pc
run (suc n) pc = step pc >>= run n

-- The end of a call, in the thread's terms.
pub ended : Run Selector (Option ℕ) → Run Selector Pc
ended (ok x s) = ok (returned x) s
ended (thrown e s) = thrown e s
ended fault = fault
ended out_of_fuel = out_of_fuel
