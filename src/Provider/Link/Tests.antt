-- ===== src/Provider/Link/Tests.antt =====
-- A connection between the agents (src/provider_selector.hpp, src/provider_agent.cc) with two requests.
use ali_middleware.Common.{ℕ, [], ◌∷◌, ◌++◌, some, false}
use ali_middleware.Common.Except.{success}
use ali_middleware.Common.ExampleRlib.{as_uint16, example_rlib}
use ali_middleware.Common.Text.{Text, codes}
use ali_middleware.Payload.{http_payload_to_dubbo_parameters}
use ali_middleware.Payload.Sample.{sample_body}
use ali_middleware.Selector.{ProviderInfo}
use ali_middleware.Dubbo.Sample.{body, header, header-IsResponse}
use ali_middleware.Consumer.{Response, Network, Agent, borrowed, released}
use ali_middleware.Consumer.Reply.{reply}
use ali_middleware.Provider.{SessionState, waits_for_read, shut_down}
use ali_middleware.Provider.Link.{DubboCall, Link, closed}
use ali_middleware.Provider.Link.Bytes.{dubbo}

abbrev small : ProviderInfo
small = record {
  hostname = codes "provider-small";
  port = 30000;
  latency = 50000;
  connpool_latency = 1;
}

abbrev agent : Agent
agent = record {
  selector = record { providers = small ∷ []; robin_queue = 0 ∷ []; curr = some 1 };
  log = [];
}

abbrev link : Link
link = record { agent = agent; peer = waits_for_read }

-- A dubbo server that answers with the last argument, with this status.
abbrev echo : ℕ → DubboCall
echo status a0 a1 a2 a3 = success (record { status = status; value = a3 })

-- The answer and the connection behind one request.
abbrev res : Network → Link → Response
res net l =
    (reply example_rlib 0 net (http_payload_to_dubbo_parameters example_rlib sample_body)
      l.agent.selector).0

abbrev behind : Network → Link → SessionState → Link
behind net l peer =
    let r =
      reply example_rlib 0 net (http_payload_to_dubbo_parameters example_rlib sample_body)
        l.agent.selector in
    record {
      agent = record {
        selector = r.2;
        log = ((l.agent.log ++ borrowed ∷ []) ++ r.1) ++ released ∷ [];
      };
      peer = peer;
    }

abbrev dropped : Link
dropped = behind (closed false 700) link shut_down

-- The dubbo server answers 42.
abbrev forty_two : DubboCall
forty_two =
    dubbo example_rlib as_uint16 "End of file" header body (codes "42") 1 7 [] [] header-IsResponse
