-- ===== src/ConnPool.antt =====
-- lib/boost_asio_quick_connect.hpp, lib/conn_pool.hpp and the pool that the constructor of
-- provider_info (src/provider_selector.hpp) fills: connections to one provider agent.
pub mod Connect
pub mod Fill
mod Tests
use ali_middleware.Common.{ℕ, Option, none, some}
use ali_middleware.Common.Except.{Except, success, failure, ◌>>=◌}
use ali_middleware.Common.Rlib.{Rlib}
use ali_middleware.Common.Run.{Run, ok, thrown, fault, out_of_fuel, logic_error}
use ali_middleware.Common.Text.{Text}
use ali_middleware.Pool.{Construct, built, raised, Objects, no_objects, fill_full}

-- boost's `resolve` of a host and a service, and `connect` to what it gives; both throw.
pub record Tcp (Endpoints Socket : Type 0) : Type 0 where
  pub resolve : Text → Text → Except Endpoints
  pub connect : Endpoints → Except Socket

module _ {Endpoints Socket : Type 0} (rlib : Rlib) where
  pub quick_connect : Tcp Endpoints Socket → Text → ℕ → Except Socket
  quick_connect net addr port = do
    endpoints ← net.resolve addr (rlib.decimal port)
    net.connect endpoints

  -- Its errors are logged alone: the socket may come back with no connection. What `async_resolve`
  -- gives with an error is empty.
  pub async_quick_connect : Endpoints → Tcp Endpoints Socket → Text → ℕ → Option Socket
  async_quick_connect empty net addr port =
      let res : Endpoints = elim (net.resolve addr (rlib.decimal port)) [
        | success endpoints ↦ endpoints
        | failure e ↦ empty
      ] in
      elim (net.connect res) [ success sock ↦ some sock | failure e ↦ none ]

  -- The constructor of `pooled_conn`, whose only member is the socket.
  pub pooled_conn : Tcp Endpoints Socket → Text → ℕ → Construct Socket
  pooled_conn net addr port = elim (quick_connect net addr port) [
    | success s ↦ built s
    | failure e ↦ raised e
  ]

  -- The pool of a new `provider_info`; `net k` is the network when `k` more connections are to come.
  pub fill_pool :
      (pool_size : ℕ) → (ℕ → Tcp Endpoints Socket) → Text → ℕ → Run (Objects Socket) (Unit {0})
  fill_pool pool_size net addr port =
      fill_full pool_size (λ k. pooled_conn (net k) addr port) no_objects
