-- ===== src/ConnPool/Fill.antt =====
-- What filling a pool of connections comes to (lib/conn_pool.hpp, lib/pool.hpp).
use ali_middleware.Common.{ℕ, zero, suc, ◌^◌, ◌<◌, ◌≡◌, refl, inl, inr, []}
use ali_middleware.Common.Except.{Except, Except-cases, success, failure}
use ali_middleware.Common.Rlib.{Rlib}
use ali_middleware.Common.Text.{Text}
use ali_middleware.Pool.{no_objects}
use ali_middleware.Pool.Fill.{all_built, Filled, fill_full-Filled}
use ali_middleware.ConnPool.{Tcp, quick_connect, pooled_conn, fill_pool}

module _ {Endpoints Socket : Type 0} (rlib : Rlib) where
  -- The first error of so many connections in a row, if one fails.
  abbrev pub connected : ℕ → (ℕ → Tcp Endpoints Socket) → Text → ℕ → Except (Unit {0})
  connected zero net addr port = success tt
  connected (suc k) net addr port = elim (quick_connect rlib (net k) addr port) [
    | success s ↦ connected k net addr port
    | failure e ↦ failure e
  ]

  all_built-connected :
      (k : ℕ) (net : ℕ → Tcp Endpoints Socket) (addr : Text) (port : ℕ)
      → all_built k (λ i. pooled_conn rlib (net i) addr port) ≡ connected k net addr port
  unfolding pooled_conn
  all_built-connected zero net addr port = refl
  all_built-connected (suc k) net addr port =
      elim (Except-cases (quick_connect rlib (net k) addr port)) [
        | inl (s, f) ↦
            rw (f, all_built, connected, pooled_conn) (all_built-connected k net addr port)
        | inr (e, f) ↦ rw (f, all_built, connected, pooled_conn) refl
      ]

  -- The constructor of provider_info throws the first error of the connections that fill its pool, if
  -- one fails; else the pool holds as many connections as it can, all of them idle. The pool's size is
  -- below 2^64.
  pub fill_pool-connected :
      (pool_size : ℕ) (net : ℕ → Tcp Endpoints Socket) (addr : Text) (port : ℕ)
      → pool_size < 2 ^ 64
      → Filled pool_size pool_size no_objects []
          (connected pool_size net addr port)
          (fill_pool rlib pool_size net addr port)
  unfolding fill_pool
  fill_pool-connected pool_size net addr port fits =
      rw (all_built-connected pool_size net addr port) at
        (fill_full-Filled pool_size (λ k. pooled_conn rlib (net k) addr port) fits)
