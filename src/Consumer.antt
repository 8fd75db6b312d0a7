-- ===== src/Consumer.antt =====
-- src/provider_selector.hpp, provider_info::async_request and src/consumer_agent.cc, handle_request:
-- what the consumer agent does with one HTTP request.
mod Tests
pub mod Expected
pub mod Idle
pub mod Interleaved
pub mod Listen
pub mod Overrun
pub mod Reply
pub mod Session
pub mod Startup
use ali_middleware.Common.{
  ℕ, zero, suc, ◌%◌, ◌^◌, Bool, true, false, not, Option, none, some, List, [], ◌∷◌, ◌++◌, ◌==◌,
  if◌then◌else◌,
}
use ali_middleware.Common.Buffer.{filled, c_string}
use ali_middleware.Common.Except.{Except, success, failure}
use ali_middleware.Common.Rlib.{Rlib}
use ali_middleware.Common.Run.{
  Run, Cmd, ok, thrown, fault, out_of_fuel, pure, modify, gets, ◌>>=◌, ◌>>◌,
}
use ali_middleware.Common.Text.{Text, codes}
use ali_middleware.Payload.{DubboRpcArgs, http_payload_to_dubbo_parameters}
use ali_middleware.Selector.{ProviderInfo, Selector, query_once}

pub data Status : Type 0 where
  status_ok bad_request internal_server_error : Status

-- The parts of boost's response that the code sets; version 11 and "Server" are the same in all.
pub record Response : Type 0 where
  pub result : Status
  pub body : Text
  pub keep_alive : Bool

pub record Request : Type 0 where
  pub is_post : Bool
  pub body : Text
  pub keep_alive : Bool

-- What the network does to one call: the errors of the write and of the read, the bytes read (2048 at
-- most), and the microseconds from the write's end to the read's.
pub record Network : Type 0 where
  pub write_ec : Bool
  pub read_ec : Bool
  pub received : Text
  pub elapsed : ℕ

-- What the call does outside, in order.
pub data Io : Type 0 where
  borrowed released : Io
  sent : Text → Io

pub record Agent : Type 0 where
  pub selector : Selector
  pub log : List Io

abbrev pub resp_500 : Response
resp_500 = record { result = internal_server_error; body = codes "server error"; keep_alive = true }

abbrev pub resp_400 : Response
resp_400 = record { result = bad_request; body = codes "bad request"; keep_alive = false }

abbrev pub act : Io → Cmd Agent (Unit {0})
act io = modify (λ s. record s { log = s.log ++ io ∷ [] })

abbrev pub set_latency : ℕ → ℕ → List ProviderInfo → List ProviderInfo
set_latency i l [] = []
set_latency zero l (p ∷ ps) = record p { latency = l } ∷ ps
set_latency (suc i) l (p ∷ ps) = p ∷ set_latency i l ps

-- `"\n"_rs.join(dubbo_args.begin(), dubbo_args.end())`
unfoldable pub request_text : Rlib → DubboRpcArgs → Text
request_text rlib a =
    rlib.join (codes "\n") (a.interface ∷ a.method ∷ a.parameter_types_string ∷ a.parameter ∷ [])

-- `latency`, an unsigned 32-bit number, is stored from a signed 64-bit one.
pub store_latency : ℕ → ℕ → Cmd Agent (Unit {0})
store_latency i elapsed = modify (λ a. record a {
  selector = record a.selector {
    providers = set_latency i (elapsed % 2 ^ 32) a.selector.providers;
  };
})

-- From the read on.
pub receive : ℕ → Network → Cmd Agent Response
receive i net = elim (c_string (filled 2048 net.received)) [
  | none ↦ λ s. fault
  | some body ↦
      if net.read_ec
      then pure resp_500
      else store_latency i net.elapsed
        >> pure (record { result = status_ok; body = body; keep_alive = true })
]

-- Between the borrowing and the release.
pub exchange : Rlib → ℕ → Network → Text → Cmd Agent Response
exchange rlib i net payload = elim (http_payload_to_dubbo_parameters rlib payload) [
  | failure e ↦ pure resp_500
  | success a ↦
      act (sent (request_text rlib a)) >> (if net.write_ec then pure resp_500 else receive i net)
]

-- `async_request` of the provider `i`; `rlib_defer` releases behind whatever ends the block.
pub async_request : Rlib → ℕ → Network → Text → Cmd Agent Response
async_request rlib i net payload = do
  act borrowed
  res ← exchange rlib i net payload
  act released
  pure res

-- What `handle_request` does to the answer.
pub finish : Bool → Response → Response
finish req_keep_alive res = elim res.result [
  | internal_server_error ↦ record res { keep_alive = false }
  | status_ok ↦ record res { keep_alive = req_keep_alive }
  | bad_request ↦ record res { keep_alive = req_keep_alive }
]

pub on_selector : {A : Type 0} → Agent → Run Selector A → Run Agent A
on_selector a (ok x s) = ok x (record a { selector = s })
on_selector a (thrown e s) = thrown e (record a { selector = s })
on_selector a fault = fault
on_selector a out_of_fuel = out_of_fuel

-- With the provider that was picked, if one was.
pub answered : Rlib → Network → Request → Option ℕ → Cmd Agent Response
answered rlib net req none = pure resp_400
answered rlib net req (some i) = do
  res ← async_request rlib i net req.body
  pure (finish req.keep_alive res)

pub handle_request : Rlib → Network → Request → Cmd Agent Response
handle_request rlib net req = if not req.is_post then pure resp_400 else (do
  provider ← (λ a. on_selector a (query_once a.selector))
  answered rlib net req provider)
