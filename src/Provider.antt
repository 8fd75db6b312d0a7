-- ===== src/Provider.antt =====
-- src/provider_agent.cc: the registration of a provider agent, and session_consumer, its loop over the
-- requests that arrive on one connection from a consumer agent.
mod Tests
pub mod Broken
pub mod Http
pub mod Link
pub mod Listen
pub mod Registration
pub mod Serve
use ali_middleware.Common.{
  ℕ, String, Bool, Option, none, some, List, [], ◌∷◌, ◌++◌, get_elem?, ◌==◌, if◌then◌else◌,
}
use ali_middleware.Common.Buffer.{filled, c_string}
use ali_middleware.Common.Except.{Except, success, failure}
use ali_middleware.Common.Rlib.{Rlib}
use ali_middleware.Common.Run.{
  Run, Cmd, Exception, runtime_error, ok, thrown, fault, out_of_fuel, pure, throw, modify, ◌>>=◌,
  ◌>>◌,
}
use ali_middleware.Common.Text.{Text, codes}
use ali_middleware.EtcdService.{EtcdClient, append}

-- What a read gives: 2048 bytes at most, the peer's close, or another error with its message.
pub data Read : Type 0 where
  got : Text → Read
  eof : Read
  read_failed : String → Read

-- The status and the value of a dubbo call, as `dubbo.async_request` returns or throws.
pub record RequestResult : Type 0 where
  pub status : ℕ
  pub value : Text

-- What the world does in one round of the loop.
pub record Round : Type 0 where
  pub read : Read
  pub dubbo : Text → Text → Text → Text → Except RequestResult

-- The state is what was written to the connection, in order.
abbrev pub Session : Type 0 → Type 0
Session A = Cmd (List Text) A

-- The bytes in the buffer; eof is no error here.
pub read_some : Read → Session Text
read_some (got bytes) = pure bytes
read_some eof = pure []
read_some (read_failed message) = throw (runtime_error message)

-- `rlib::string(req_buffer).split('\n')`
pub req_args : Rlib → Text → Session (List Text)
req_args rlib bytes = elim (c_string (filled 2048 bytes)) [
  | none ↦ λ w. fault
  | some s ↦ pure (rlib.split s b'\n')
]

-- `req_args[i]`, which is not checked.
pub arg_at : List Text → ℕ → Session Text
arg_at args i = elim (get_elem? args i) [ none ↦ λ w. fault | some a ↦ pure a ]

pub returned : Except RequestResult → Session RequestResult
returned (success r) = pure r
returned (failure e) = throw e

pub serve_one : Rlib → Round → Session (Unit {0})
serve_one rlib round = do
  bytes ← read_some round.read
  args ← req_args rlib bytes
  a0 ← arg_at args 0
  a1 ← arg_at args 1
  a2 ← arg_at args 2
  a3 ← arg_at args 3
  result ← returned (round.dubbo a0 a1 a2 a3)
  if result.status == 20
      then modify (λ w. w ++ result.value ∷ [])
      else throw (runtime_error "dubbo not ok.")

-- The loop, over the rounds that happen; behind them it waits for a read.
pub serve_all : Rlib → List Round → Session (Unit {0})
serve_all rlib [] = pure tt
serve_all rlib (r ∷ rs) = serve_one rlib r >> serve_all rlib rs

pub data SessionState : Type 0 where
  waits_for_read shut_down : SessionState

-- Behind the catch; `shutdown_ec` is what the socket's shutdown reports.
pub finish_session : Option String → Run (List Text) (Unit {0}) → Run (List Text) SessionState
finish_session shutdown_ec (ok u w) = ok waits_for_read w
finish_session none (thrown e w) = ok shut_down w
finish_session (some message) (thrown e w) = thrown (runtime_error message) w
finish_session shutdown_ec fault = fault
finish_session shutdown_ec out_of_fuel = out_of_fuel

pub session_consumer : Rlib → Option String → List Round → Session SessionState
session_consumer rlib shutdown_ec rounds w = finish_session shutdown_ec (serve_all rlib rounds w)

-- `"{}:{}"_format(my_addr, listen_port)`
unfoldable pub server_addr : Rlib → Text → ℕ → Text
server_addr rlib my_addr listen_port = my_addr ++ (b':' ∷ rlib.decimal listen_port)

-- The constructor of the agent, as far as others see it: the registration.
unfoldable pub new_agent : (etcd : EtcdClient) → Rlib → Text → ℕ → Cmd etcd.Store (Unit {0})
new_agent etcd rlib my_addr listen_port =
    append etcd (codes "server") (server_addr rlib my_addr listen_port)
