-- ===== src/ConnPool/Tests.antt =====
-- A pool of connections (lib/conn_pool.hpp) whose last connection fails.
use ali_middleware.Common.{ℕ, [], ◌==◌, if◌then◌else◌, arith}
use ali_middleware.Common.Except.{success, failure}
use ali_middleware.Common.ExampleRlib.{example_rlib}
use ali_middleware.Common.Run.{runtime_error}
use ali_middleware.Common.Text.{Text, codes}
use ali_middleware.Pool.{no_objects}
use ali_middleware.Pool.Fill.{Filled}
use ali_middleware.ConnPool.{Tcp, fill_pool}
use ali_middleware.ConnPool.Fill.{connected, fill_pool-connected}

-- Sockets are numbers.
abbrev net : ℕ → Tcp Text ℕ
net k = record {
  resolve = λ addr service. success service;
  connect = λ endpoints. if k == 0 then failure (runtime_error "Connection refused") else success k;
}

fill_pool-connected_example :
    Filled 2 2 no_objects []
      (connected example_rlib 2 net (codes "provider-small") 30000)
      (fill_pool example_rlib 2 net (codes "provider-small") 30000)
fill_pool-connected_example =
    fill_pool-connected example_rlib 2 net (codes "provider-small") 30000 (omega arith)
