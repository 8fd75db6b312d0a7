-- ===== src/Provider/Link/Bytes.antt =====
-- One request from the consumer agent's connection to the bytes that the dubbo server sends
-- (src/provider_selector.hpp, src/provider_agent.cc, lib/dubbo_client.hpp).
use ali_middleware.Common.{ℕ, String, List, ◌++◌, ◌≡◌, ap, none}
use ali_middleware.Common.Except.{Except, success, failure}
use ali_middleware.Common.Rlib.{Rlib}
use ali_middleware.Common.Run.{Run, logic_error, ok, thrown, fault, out_of_fuel}
use ali_middleware.Common.Text.{Text}
use ali_middleware.Payload.{DubboRpcArgs}
use ali_middleware.Consumer.{Response}
use ali_middleware.Dubbo.{
  DubboHeader, header_bytes, Io, Client, Server, RequestResultT, async_request,
}
use ali_middleware.Dubbo.Response.{client, IsResponse, async_request-response}
use ali_middleware.Provider.{RequestResult}
use ali_middleware.Provider.Http.{call}
use ali_middleware.Provider.Link.{DubboCall, Link}

-- What the session looks at. The client never faults.
abbrev pub looked_at : Run Client RequestResultT → Except RequestResult
looked_at (ok r s) = success (record { status = r.status; value = r.value })
looked_at (thrown e s) = failure e
looked_at fault = failure (logic_error "fault")
looked_at out_of_fuel = failure (logic_error "out of fuel")

module _ (rlib : Rlib) (as_int : Text → Except ℕ) where
  -- The session's dubbo client, over this connection to its server.
  abbrev pub dubbo_over : Server → Client → DubboCall
  dubbo_over server c a0 a1 a2 a3 = looked_at (async_request rlib as_int server a0 a1 a2 a3 c)

  abbrev pub quiet : String → Server
  quiet ec = record { borrow_error = none; header_ec = none; payload_ec = none; read_ec = ec }

  module _ (ec : String) (h : DubboHeader) (body value : Text) (n id : ℕ) (rest : Text)
      (log : List Io) (response : IsResponse rlib as_int h body value n) where
    abbrev pub dubbo : DubboCall
    dubbo = dubbo_over (quiet ec) (client id (header_bytes h ++ (body ++ rest)) log)

    pub call-response :
        (a : DubboRpcArgs) → call dubbo a ≡ success (record { status = h.status; value = value })
    call-response a =
        ap looked_at
          (async_request-response rlib as_int ec a.interface a.method a.parameter_types_string
            a.parameter h body value n id rest log response).0
