-- ===== src/Consumer/Session.antt =====
-- src/consumer_agent.cc, do_session: the loop over the HTTP requests of one connection.
pub mod Orderly
use ali_middleware.Common.{Bool, not, List, [], ◌∷◌, ◌++◌, if◌then◌else◌}
use ali_middleware.Common.Rlib.{Rlib}
use ali_middleware.Common.Run.{Run, Cmd, ok, thrown, fault, out_of_fuel, pure, modify, ◌>>=◌, ◌>>◌}
use ali_middleware.Consumer.{Response, Request, Network, Agent, handle_request}

-- What `http::async_read` gives. With a request comes what the network does to the call made for it.
pub data HttpRead : Type 0 where
  got_request : Request → Network → HttpRead
  end_of_stream read_failed : HttpRead

-- The session waits for a request, has shut its connection down, or has returned at a read's error.
pub data SessionEnd : Type 0 where
  reading shut_down dropped : SessionEnd

-- The agent, and the responses given to `http::async_write`, whose error nothing looks at.
pub record HttpSession : Type 0 where
  pub agent : Agent
  pub responses : List Response

pub on_agent : {A : Type 0} → HttpSession → Run Agent A → Run HttpSession A
on_agent s (ok x a) = ok x (record s { agent = a })
on_agent s (thrown e a) = thrown e (record s { agent = a })
on_agent s fault = fault
on_agent s out_of_fuel = out_of_fuel

pub write_response : Response → Cmd HttpSession (Unit {0})
write_response res = modify (λ s. record s { responses = s.responses ++ res ∷ [] })

-- The loop, over what the reads give; behind them it waits for the next.
pub do_session : Rlib → List HttpRead → Cmd HttpSession SessionEnd
do_session rlib [] = pure reading
do_session rlib (end_of_stream ∷ reads) = pure shut_down
do_session rlib (read_failed ∷ reads) = pure dropped
do_session rlib (got_request req net ∷ reads) =
    let next = do_session rlib reads in
    (do
      response ← (λ s. on_agent s (handle_request rlib net req s.agent))
      write_response response
      if not response.keep_alive then pure shut_down else next)
