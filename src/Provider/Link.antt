-- ===== src/Provider/Link.antt =====
-- One connection between the agents: provider_info::async_request (src/provider_selector.hpp) of the
-- consumer agent, which borrows it from its pool, and the session of the provider agent that serves it
-- (src/provider_agent.cc, session_consumer). The provider agent's shutdown of a connection succeeds, a
-- read brings what was written at once, and no value of dubbo fills the buffer.
pub mod Answers
pub mod Bytes
pub mod Failed
mod Tests
use ali_middleware.Common.{ℕ, Bool, true, false, none, List, [], ◌∷◌, ◌≡◌, ◌≢◌, ◌<◌, length}
use ali_middleware.Common.Except.{Except, success, failure}
use ali_middleware.Common.Rlib.{Rlib}
use ali_middleware.Common.Run.{Run, Exception, ok}
use ali_middleware.Common.Text.{Text}
use ali_middleware.Payload.{DubboRpcArgs, http_payload_to_dubbo_parameters}
use ali_middleware.Consumer.{Response, Network, Agent, request_text, async_request}
use ali_middleware.Provider.{
  RequestResult, got, Session, SessionState, waits_for_read, shut_down, session_consumer,
}

abbrev pub DubboCall : Type 0
DubboCall = Text → Text → Text → Text → Except RequestResult

-- The consumer agent, and where the session at the other end stands.
pub record Link : Type 0 where
  pub agent : Agent
  pub peer : SessionState

abbrev pub heard : Text → ℕ → Network
heard v elapsed = record { write_ec = false; read_ec = false; received = v; elapsed = elapsed }

-- The read ends in an error, and the write may.
abbrev pub closed : Bool → ℕ → Network
closed write_ec elapsed = record {
  write_ec = write_ec;
  read_ec = true;
  received = [];
  elapsed = elapsed;
}

module _ (rlib : Rlib) (i : ℕ) where
  -- The session with this one message.
  abbrev pub session : DubboCall → DubboRpcArgs → Run (List Text) SessionState
  session dubbo a =
      session_consumer rlib none (record { read = got (request_text rlib a); dubbo = dubbo } ∷ [])
        []

  abbrev Asks : Network → Text → Link → Response → SessionState → Link → Type 0
  Asks net payload l res peer l' =
      (a' : Agent) × (async_request rlib i net payload l.agent ≡ ok res a')
      × (l' ≡ record { agent = a'; peer = peer })

  -- One request for the provider `i` over this connection, with what dubbo would do for it.
  pub data Call (dubbo : DubboCall) (payload : Text) (l : Link) (res : Response) (l' : Link)
      : Type 0 where
    -- The payload has no arguments, and nothing is sent.
    unsent :
        (x : Exception)
        → http_payload_to_dubbo_parameters rlib payload ≡ failure x
        → Asks (heard [] 0) payload l res l.peer l'
        → Call dubbo payload l res l'
    -- The session writes a value and goes on.
    answers :
        (a : DubboRpcArgs) (v : Text) (elapsed : ℕ)
        → http_payload_to_dubbo_parameters rlib payload ≡ success a
        → l.peer ≡ waits_for_read
        → session dubbo a ≡ ok waits_for_read (v ∷ [])
        → v ≢ []
        → length v < 2048
        → Asks (heard v elapsed) payload l res waits_for_read l'
        → Call dubbo payload l res l'
    -- The session ends, and with it the connection.
    drops :
        (a : DubboRpcArgs) (w : List Text) (elapsed : ℕ)
        → http_payload_to_dubbo_parameters rlib payload ≡ success a
        → l.peer ≡ waits_for_read
        → session dubbo a ≡ ok shut_down w
        → Asks (closed false elapsed) payload l res shut_down l'
        → Call dubbo payload l res l'
    -- The session had ended before.
    refused :
        (a : DubboRpcArgs) (write_ec : Bool) (elapsed : ℕ)
        → http_payload_to_dubbo_parameters rlib payload ≡ success a
        → l.peer ≡ shut_down
        → Asks (closed write_ec elapsed) payload l res shut_down l'
        → Call dubbo payload l res l'

  -- Requests in a row, with their responses.
  pub data Calls : Link → List Response → Link → Type 0 where
    done : (l : Link) → Calls l [] l
    next :
        (dubbo : DubboCall) (payload : Text) (l l' l'' : Link) (res : Response) (rs : List Response)
        → Call dubbo payload l res l'
        → Calls l' rs l''
        → Calls l (res ∷ rs) l''
