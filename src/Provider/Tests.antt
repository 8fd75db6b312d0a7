-- ===== src/Provider/Tests.antt =====
-- A session of the provider agent (src/provider_agent.cc) that answers one request.
use ali_middleware.Common.{
  All, ℕ, List, Option, map, true, if◌then◌else◌, ◌≡◌, ◌≢◌, refl, arith, none, [], ◌∷◌, ◌++◌,
}
use ali_middleware.Common.Except.{Except, success}
use ali_middleware.Common.ExampleRlib.{example_rlib}
use ali_middleware.Common.Run.{ok, thrown, fault}
use ali_middleware.Common.Text.{Text, codes}
use ali_middleware.Payload.{DubboRpcArgs}
use ali_middleware.Payload.Sample.{sample_body, sample_args, sample_args-parsed}
use ali_middleware.Consumer.{request_text}
use ali_middleware.Provider.Http.{handle_request, post, outcomes, call, handle_request-serve_one}
use ali_middleware.Consumer.Startup.{new_consumer}
use ali_middleware.EtcdService.{get_list, sync_get}
use ali_middleware.EtcdService.OneKey.{one_key}
use ali_middleware.EtcdService.Register.{Keeps}
use ali_middleware.Selector.{unknown_provider}
use ali_middleware.Selector.Load.{knows_all}
use ali_middleware.Provider.Registration.{
  Endpoint, IsEndpoint, provider_of, register_all, address, agent_of, new_agent-new_consumer,
}
use ali_middleware.Provider.{
  got, eof, RequestResult, Round, waits_for_read, session_consumer, serve_one,
}
use ali_middleware.Provider.Broken.{closed, session_consumer-IsBroken}
use ali_middleware.Provider.Serve.{IsSendable, AllAnswered, session_consumer-answers}

abbrev args : DubboRpcArgs
args = sample_args

-- A dubbo server that answers with the last argument.
abbrev echo : Text → Text → Text → Text → Except RequestResult
echo a0 a1 a2 a3 = success (record { status = 20; value = a3 })

abbrev request : Round
request = record { read = got (request_text example_rlib args); dubbo = echo }

abbrev close : Round
close = record { read = eof; dubbo = echo }

cons_ne : (c : _) (s : Text) → c ∷ s ≢ []
cons_ne c s e = cc

args-IsSendable : IsSendable args
args-IsSendable = (
  (cons_ne _ _, refl, (cons_ne _ _, refl, (cons_ne _ _, refl, (cons_ne _ _, refl, tt)))),
  refl,
  omega arith,
)

request-AllAnswered : AllAnswered example_rlib (request ∷ []) (codes "x" ∷ [])
request-AllAnswered =
    (record { args = args; sendable = args-IsSendable; read = refl; dubbo = refl }, tt)

session_consumer-answers_example :
    session_consumer example_rlib none (request ∷ []) [] ≡ ok waits_for_read (codes "x" ∷ [])
session_consumer-answers_example =
    session_consumer-answers example_rlib none (request ∷ []) (codes "x" ∷ []) request-AllAnswered

session_consumer-IsBroken_example :
    session_consumer example_rlib none ((request ∷ []) ++ close ∷ []) [] ≡ fault
session_consumer-IsBroken_example =
    session_consumer-IsBroken example_rlib none (request ∷ []) [] (codes "x" ∷ []) close
      request-AllAnswered (closed refl)

abbrev agents : List Endpoint
agents =
    record { my_addr = codes "provider-small"; listen_port = 30000 }
    ∷ record { my_addr = codes "provider-large"; listen_port = 30002 }
    ∷ []

agents-IsEndpoint : All IsEndpoint agents
agents-IsEndpoint =
    ((cons_ne _ _, refl, refl, omega arith), ((cons_ne _ _, refl, refl, omega arith), tt))

abbrev connect : Text → ℕ → Except (Unit {0})
connect addr port = success tt

nothing_kept : Keeps one_key example_rlib (codes "server") [] none
unfolding sync_get
nothing_kept = refl

new_agent-new_consumer_example :
    let ps = map provider_of agents in
    (s' : Option Text) × (register_all one_key example_rlib agents none ≡ ok tt s')
    × (get_list one_key example_rlib (codes "server") s'
        ≡ ok (map (address example_rlib) agents) s')
    × (new_consumer one_key example_rlib connect s'
        ≡ (if knows_all ps then ok (agent_of ps) s' else thrown unknown_provider s'))
new_agent-new_consumer_example =
    new_agent-new_consumer example_rlib connect (λ addr port. refl) one_key (λ key value s. refl)
      (record { my_addr = codes "provider-small"; listen_port = 30000 })
      (record { my_addr = codes "provider-large"; listen_port = 30002 } ∷ []) none agents-IsEndpoint
      nothing_kept

handle_request-serve_one_example :
    (handle_request example_rlib echo (post sample_body true)
      ≡ (outcomes true [] (call echo args)).0)
    × (serve_one example_rlib
          (record { read = got (request_text example_rlib args); dubbo = echo })
          []
        ≡ (outcomes true [] (call echo args)).1)
handle_request-serve_one_example =
    handle_request-serve_one example_rlib echo args true [] sample_body sample_args-parsed
      args-IsSendable
