-- ===== src/Dubbo/Tests.antt =====
-- The dubbo client of lib/dubbo_client.hpp in one call.
use ali_middleware.Common.{refl, subst, sym, ◌+◌, ◌%◌, ◌^◌, ◌≡◌, arith, none, [], ◌∷◌, ◌++◌, length}
use ali_middleware.Common.ExampleRlib.{example_rlib, as_uint16}
use ali_middleware.Common.Run.{ok}
use ali_middleware.Common.Text.{Text, codes}
use ali_middleware.Dubbo.{
  le_bytes, header_bytes, header_of, request_payload, request_header, borrowed, released, wrote,
  Client, Server, async_request, sync_request, new_client,
}
use ali_middleware.Dubbo.Sample.{body, header, header-IsResponse}
use ali_middleware.Dubbo.Bytes.{be_bytes, request_header-bytes}
use ali_middleware.Dubbo.Call.{Leaves, Ends}
use ali_middleware.Dubbo.Ids.{Requests, here, next, Requests-Sends}
use ali_middleware.Dubbo.Response.{client, expected_result, async_request-response}

request_header-bytes_example :
    (header_bytes (request_header 26837031 (codes "null"))
      ≡ 218 ∷ 187 ∷ 198 ∷ 0 ∷ (le_bytes 8 26837031 ++ be_bytes 4 (length (codes "null") % 2 ^ 32)))
    × (header_of (header_bytes (request_header 26837031 (codes "null")))
        ≡ request_header 26837031 (codes "null"))
request_header-bytes_example = request_header-bytes 26837031 (codes "null") (omega arith)

abbrev start : Client
start = client 7 (header_bytes header ++ (body ++ [])) []

abbrev quiet : Server
quiet = record { borrow_error = none; header_ec = none; payload_ec = none; read_ec = "End of file" }

abbrev payload : Text
payload = request_payload (codes "I") (codes "hash") (codes "S") (codes "x")

async_request-response_example :
    (async_request example_rlib as_uint16 quiet
        (codes "I")
        (codes "hash")
        (codes "S")
        (codes "x")
        start
      ≡ ok (expected_result example_rlib as_uint16 header (codes "42") 1) (
          client ((7 + 1) % 2 ^ 64) [] (
            ((([] ++ borrowed ∷ []) ++ wrote (header_bytes (request_header 7 payload)) ∷ [])
              ++ wrote payload ∷ [])
            ++ released ∷ [])))
    × (sync_request example_rlib as_uint16 quiet
          (codes "I")
          (codes "hash")
          (codes "S")
          (codes "x")
          start
        ≡ ok (expected_result example_rlib as_uint16 header (codes "42") 1) (
            client
              ((7 + 1) % 2 ^ 64)
              []
              (([] ++ wrote (header_bytes (request_header 7 payload)) ∷ []) ++ wrote payload ∷ [])))
async_request-response_example =
    async_request-response example_rlib as_uint16 "End of file" (codes "I") (codes "hash")
      (codes "S") (codes "x") header body (codes "42") 1 7 [] [] header-IsResponse

abbrev bytes : Text
bytes = header_bytes header ++ (body ++ [])

-- A new client behind one request.
abbrev after_one : Client
after_one = client ((26838055 + 1) % 2 ^ 64) [] (
    ((([] ++ borrowed ∷ []) ++ wrote (header_bytes (request_header 26838055 payload)) ∷ [])
      ++ wrote payload ∷ [])
    ++ released ∷ [])

one_request : Requests example_rlib as_uint16 new_client 1 after_one
unfolding new_client
one_request =
    let e =
      (async_request-response example_rlib as_uint16 "End of file" (codes "I") (codes "hash")
        (codes "S") (codes "x") header body (codes "42") 1 26838055 [] [] header-IsResponse).0 in
    next 0 new_client after_one quiet bytes (codes "I") (codes "hash") (codes "S") (codes "x") here
      (subst (Leaves (λ v. v ≡ after_one)) (sym e) refl)

abbrev next_client : Client
next_client = record after_one { incoming = bytes }

Requests-Sends_example : Ends none ((26838055 + 1) % 2 ^ 64) payload next_client (
    async_request example_rlib as_uint16 quiet
      (codes "I")
      (codes "hash")
      (codes "S")
      (codes "x")
      next_client)
Requests-Sends_example =
    Requests-Sends example_rlib as_uint16 1 after_one one_request quiet bytes (codes "I")
      (codes "hash") (codes "S") (codes "x")
