-- ===== src/Provider/Listen.antt =====
-- src/provider_agent.cc, listen_consumer: the sessions that the provider agent's acceptor spawns. Its
-- event loop runs on one thread.
use ali_middleware.Common.{List, [], ◌≡◌, ◌∙◌, ap, refl}
use ali_middleware.Common.Run.{◌>>◌}
use ali_middleware.Consumer.Listen.{
  Setup, Accept, Listening, on_boost_fatal, accept_all, do_listen, setup_error, listened,
  do_listen-listened,
}

-- The macro and the loop have the consumer agent's text.
pub listen_consumer : Setup → List Accept → Listening (Unit {0})
listen_consumer setup accepts = do
  on_boost_fatal setup.open_ec
  on_boost_fatal setup.set_option_error
  on_boost_fatal setup.bind_ec
  on_boost_fatal setup.listen_ec
  accept_all accepts

listen_consumer-do_listen :
    (setup : Setup) (accepts : List Accept)
    → listen_consumer setup accepts ≡ do_listen setup accepts
unfolding listen_consumer do_listen
listen_consumer-do_listen setup accepts = refl

-- Both acceptors spawn a session for each connection that they accept, in their order, whatever errors
-- come between them; but the first error of the setup is thrown before any is accepted.
pub listen_consumer-listened :
    (setup : Setup) (accepts : List Accept)
    → (listen_consumer setup accepts [] ≡ listened (setup_error setup) accepts)
      × (do_listen setup accepts [] ≡ listened (setup_error setup) accepts)
listen_consumer-listened setup accepts =
    let e = do_listen-listened setup accepts in
    (ap (λ m. m []) (listen_consumer-do_listen setup accepts) ∙ e, e)
