-- ===== src/Consumer/Tests.antt =====
-- The consumer agent's answers (src/consumer_agent.cc, src/provider_selector.hpp) to one request.
use ali_middleware.Common.{
  ℕ, zero, suc, ◌⊎◌, ◌↔◌, ◌≡◌, refl, arith, true, false, if◌then◌else◌, ltb, ◌&&◌, ◌^◌, List, [],
  ◌∷◌, ◌++◌, some, get_elem?, length,
}
use ali_middleware.Common.Except.{success}
use ali_middleware.Common.ExampleRlib.{example_rlib}
use ali_middleware.Common.Run.{ok, thrown, fault}
use ali_middleware.Common.Text.{Text, codes}
use ali_middleware.Payload.{DubboRpcArgs, http_payload_to_dubbo_parameters}
use ali_middleware.Selector.{ProviderInfo, start_at}
use ali_middleware.Selector.Query.{IsWell, place}
use ali_middleware.Consumer.{
  Response, bad_request, Network, Request, Agent, async_request, handle_request,
}
use ali_middleware.Consumer.Session.{HttpRead, got_request, end_of_stream, HttpSession}
use ali_middleware.Consumer.Session.Orderly.{Outcome, do_session-IsOrderly}
use ali_middleware.Consumer.Listen.{run_threads, too_many, run_threads-bounds}
use ali_middleware.Consumer.Idle.{agent_over, IsCalm, started, Reach-Serves}
use ali_middleware.Consumer.Overrun.{IsOverrun, async_request-fault_iff}
use ali_middleware.Selector.Sample.{connect, addrs, two, new_selector-two}
use ali_middleware.Consumer.Expected.{expected, handle_request-expected}

abbrev net : Network
net = record { write_ec = false; read_ec = false; received = codes "42"; elapsed = 700 }

abbrev small : ProviderInfo
small = record {
  hostname = codes "provider-small";
  port = 30000;
  latency = 50000;
  connpool_latency = 1;
}

abbrev agent : Agent
agent = record {
  selector = record { providers = small ∷ []; robin_queue = 0 ∷ []; curr = some 1 };
  log = [];
}

agent-IsWell : IsWell agent.selector
unfolding start_at
agent-IsWell = record {
  names = ((omega arith, omega arith), tt);
  some_entry = omega arith;
  curr = omega arith;
}

abbrev body : Text
body = codes "interface=I&method=hash&parameterTypesString=S&parameter=x"

-- An answer that fills the buffer.
abbrev many : ℕ → Text
many zero = []
many (suc n) = b'x' ∷ many n

abbrev long : Network
long = record { write_ec = false; read_ec = false; received = many 2048; elapsed = 700 }

async_request-fault_iff_example :
    ((async_request example_rlib 0 long body agent ≡ fault) ↔ (
      (long.write_ec ≡ false)
      × IsOverrun (many 2048)
      × ((a : DubboRpcArgs) × (http_payload_to_dubbo_parameters example_rlib body ≡ success a))))
    × ((async_request example_rlib 0 long body agent ≡ fault)
        ⊎ ((res : Response) × (s' : Agent) × (async_request example_rlib 0 long body agent
              ≡ ok res s')))
async_request-fault_iff_example =
    async_request-fault_iff example_rlib 0 body long agent (omega arith)

abbrev post : Request
post = record { is_post = true; body = body; keep_alive = true }

-- The next request behind one that a new agent has handled.
Reach-Serves_example :
    (res : Response) × (a : Agent) × (handle_request example_rlib net post (agent_over two)
      ≡ ok res a)
    × IsCalm a
    × ((res.result ≡ bad_request) ↔ (post.is_post ≡ false))
Reach-Serves_example =
    Reach-Serves example_rlib connect addrs two new_selector-two (agent_over two) started post net
      (omega arith, refl)

handle_request-expected_example :
    (i : ℕ) × (p : ProviderInfo) × (before : List ProviderInfo) × (behind : List ProviderInfo)
    × (get_elem? agent.selector.robin_queue (place agent.selector) ≡ some i)
    × (agent.selector.providers ≡ before ++ p ∷ behind)
    × (length before ≡ i)
    × (handle_request example_rlib net post agent
        ≡ expected example_rlib net post agent before p behind)
handle_request-expected_example =
    handle_request-expected example_rlib net (omega arith) refl post agent agent-IsWell

abbrev reads : List HttpRead
reads = got_request post net ∷ got_request post net ∷ end_of_stream ∷ []

abbrev session : HttpSession
session = record { agent = agent; responses = [] }

do_session-IsOrderly_example : Outcome example_rlib reads session
do_session-IsOrderly_example =
    do_session-IsOrderly example_rlib reads session
      ((omega arith, refl), ((omega arith, refl), (tt, tt))) agent-IsWell

run_threads-bounds_example :
    run_threads 4 0 ≡ (if ltb 0 4 && ltb 4 (2 ^ 31) then ok tt 4 else thrown too_many 0)
run_threads-bounds_example = run_threads-bounds 4 (omega arith)
