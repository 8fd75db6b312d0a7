-- ===== src/Consumer/Listen.antt =====
-- src/consumer_agent.cc, listen and do_listen: the threads that run the event loop, and the sessions
-- that the acceptor spawns.
use ali_middleware.Common.{
  ℕ, zero, suc, ◌+◌, ◌-◌, ◌%◌, ◌^◌, ◌<◌, ◌≡◌, refl, inl, inr, Bool-cases, ◌&&◌, ◌∙◌, ap, String,
  true, false, Option, none, some, List, [], ◌∷◌, ◌++◌, append_laws, arith, ltb, if◌then◌else◌,
}
use ali_middleware.Common.Run.{
  Run, Cmd, Exception, runtime_error, logic_error, ok, thrown, pure, throw, modify, ◌>>◌,
}

-- The errors of the acceptor's four calls. `set_option` is not given `ec`, so it throws by itself, and
-- the test behind it sees what `open` has left.
pub record Setup : Type 0 where
  pub open_ec : Option String
  pub set_option_error : Option String
  pub bind_ec : Option String
  pub listen_ec : Option String

-- What one `async_accept` gives: a connection, by a number, or an error, which is logged.
pub data Accept : Type 0 where
  accepted : ℕ → Accept
  accept_failed : String → Accept

-- The state is the connections whose sessions were spawned.
abbrev pub Listening : Type 0 → Type 0
Listening A = Cmd (List ℕ) A

pub on_boost_fatal : Option String → Listening (Unit {0})
on_boost_fatal none = pure tt
on_boost_fatal (some message) = throw (runtime_error message)

-- The endless loop, over what the accepts give.
pub accept_all : List Accept → Listening (Unit {0})
accept_all [] = pure tt
accept_all (accepted conn ∷ rest) = modify (λ w. w ++ conn ∷ []) >> accept_all rest
accept_all (accept_failed message ∷ rest) = accept_all rest

unfoldable pub do_listen : Setup → List Accept → Listening (Unit {0})
do_listen setup accepts = do
  on_boost_fatal setup.open_ec
  on_boost_fatal setup.set_option_error
  on_boost_fatal setup.bind_ec
  on_boost_fatal setup.listen_ec
  accept_all accepts

-- `(size_t) threads - 1`, of an int that is kept as its 32 bits.
pub reserved : ℕ → ℕ
reserved threads =
    let wide = (if ltb threads (2 ^ 31) then threads else threads + 2 ^ 64 - 2 ^ 32) in
    (wide + 2 ^ 64 - 1) % 2 ^ 64

-- The rounds of `for (auto i = threads - 1; i > 0; --i)`, for a positive int.
pub spawn_threads : ℕ → Cmd ℕ (Unit {0})
spawn_threads zero = pure tt
spawn_threads (suc i) = modify (λ n. n + 1) >> spawn_threads i

-- What `std::vector<std::thread>` can hold at most, at 8 bytes for each.
abbrev pub max_size : ℕ
max_size = 2 ^ 60 - 1

abbrev pub too_many : Exception
too_many = logic_error "vector::reserve"

-- `listen`, behind the spawn of `do_listen`: the state counts the threads that run the event loop.
pub run_threads : ℕ → Cmd ℕ (Unit {0})
run_threads threads =
    if ltb max_size (reserved threads)
    then throw too_many
    else spawn_threads (threads - 1) >> modify (λ n. n + 1)

-- The connections among the results.
abbrev pub connections : List Accept → List ℕ
connections [] = []
connections (accepted conn ∷ rest) = conn ∷ connections rest
connections (accept_failed message ∷ rest) = connections rest

accept_all-connections :
    (accepts : List Accept) (w : List ℕ) → accept_all accepts w ≡ ok tt (w ++ connections accepts)
unfolding accept_all
accept_all-connections [] w = simp (append_laws)
accept_all-connections (accepted conn ∷ rest) w = simp (accept_all-connections rest, append_laws)
accept_all-connections (accept_failed message ∷ rest) w = accept_all-connections rest w

spawn_threads-count : (i n : ℕ) → spawn_threads i n ≡ ok tt (n + i)
unfolding spawn_threads
spawn_threads-count zero n = ap (ok tt) (omega arith)
spawn_threads-count (suc i) n = spawn_threads-count i (n + 1) ∙ ap (ok tt) (omega arith)

reserved-fits :
    (threads : ℕ)
    → (ltb 0 threads && ltb threads (2 ^ 31)) ≡ true
    → ltb max_size (reserved threads) ≡ false
unfolding reserved
reserved-fits threads fits = ground arith

reserved-too_many :
    (threads : ℕ)
    → threads < 2 ^ 32
    → (ltb 0 threads && ltb threads (2 ^ 31)) ≡ false
    → ltb max_size (reserved threads) ≡ true
unfolding reserved
reserved-too_many threads lt bad = ground arith

-- An int from 1 on is the number of threads that run the event loop, the caller's among them. For 0 or
-- a negative int, the reservation throws and nothing runs.
pub run_threads-bounds :
    (threads : ℕ)
    → threads < 2 ^ 32
    → run_threads threads 0
      ≡ (if ltb 0 threads && ltb threads (2 ^ 31) then ok tt threads else thrown too_many 0)
unfolding run_threads
run_threads-bounds threads lt = elim (Bool-cases (ltb 0 threads && ltb threads (2 ^ 31))) [
  | inl fits ↦
      rw (fits, reserved-fits threads fits, spawn_threads-count (threads - 1) 0)
        (ap (ok tt) (ground arith))
  | inr bad ↦ rw (bad, reserved-too_many threads lt bad) refl
]

-- The first of the errors in their order.
abbrev pub first_error : Option String → Option String → Option String
first_error none e = e
first_error (some message) e = some message

abbrev pub setup_error : Setup → Option String
setup_error s =
    first_error s.open_ec (first_error s.set_option_error (first_error s.bind_ec s.listen_ec))

abbrev pub listened : Option String → List Accept → Run (List ℕ) (Unit {0})
listened none accepts = ok tt (connections accepts)
listened (some message) accepts = thrown (runtime_error message) []

setup-listened :
    (o b l r : Option String) (accepts : List Accept)
    → do_listen
        (record { open_ec = o; set_option_error = b; bind_ec = l; listen_ec = r })
        accepts
        []
      ≡ listened (first_error o (first_error b (first_error l r))) accepts
unfolding do_listen on_boost_fatal
setup-listened (some m) b l r accepts = refl
setup-listened none (some m) l r accepts = refl
setup-listened none none (some m) r accepts = refl
setup-listened none none none (some m) accepts = refl
setup-listened none none none none accepts = accept_all-connections accepts []

-- The acceptor spawns a session for each connection that it accepts, in their order, whatever errors
-- come between them; but the first error of its setup is thrown before it accepts any.
pub do_listen-listened :
    (setup : Setup) (accepts : List Accept)
    → do_listen setup accepts [] ≡ listened (setup_error setup) accepts
do_listen-listened setup accepts =
    setup-listened setup.open_ec setup.set_option_error setup.bind_ec setup.listen_ec accepts
