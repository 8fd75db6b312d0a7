-- ===== src/Consumer/Idle.antt =====
-- The consumer agent from its start on (src/consumer_agent.cc, src/provider_selector.hpp): whether a
-- provider can ever be found busy.
use ali_middleware.Common.{
  ℕ, zero, suc, ◌%◌, ◌^◌, ◌≡◌, refl, sym, ◌∙◌, ap, subst, inl, inr, ◌↔◌, Bool, true, false, not,
  Bool-cases, if_true, if_false, List, [], ◌∷◌, ltb,
}
use ali_middleware.Common.Except.{Except, success, failure}
use ali_middleware.Common.Rlib.{Rlib}
use ali_middleware.Common.Run.{ok}
use ali_middleware.Common.Text.{Text}
use ali_middleware.Payload.{DubboRpcArgs, http_payload_to_dubbo_parameters}
use ali_middleware.Selector.{ProviderInfo, Selector, new_selector}
use ali_middleware.Selector.Build.{IsIdle, new_selector-IsFresh}
use ali_middleware.Selector.Query.{IsWell, IsFresh-IsWell, moved, moved-IsWell}
use ali_middleware.Selector.Rounds.{provider_at-idle}
use ali_middleware.Consumer.{
  bad_request, Response, Request, Network, Agent, resp_400, set_latency, finish, handle_request,
}
use ali_middleware.Consumer.Reply.{reply, after, handle_request-reply}
use ali_middleware.Consumer.Session.Orderly.{IsReadable, reply-IsWell}

IsIdle-set_latency : (i l : ℕ) (ps : List ProviderInfo) → IsIdle ps → IsIdle (set_latency i l ps)
IsIdle-set_latency i l [] h = h
IsIdle-set_latency zero l (p ∷ ps) h = h
IsIdle-set_latency (suc i) l (p ∷ ps) (h, hs) = (h, IsIdle-set_latency i l ps hs)

reply-IsIdle :
    (rlib : Rlib) (i : ℕ) (net : Network) (e : Except DubboRpcArgs) (s : Selector)
    → IsIdle s.providers
    → IsIdle (reply rlib i net e s).2.providers
reply-IsIdle rlib i net (failure e) s idle = idle
reply-IsIdle rlib i net (success a) s idle = elim (Bool-cases net.write_ec) [
  | inl w ↦ rw w idle
  | inr w ↦ elim (Bool-cases net.read_ec) [
    | inl r ↦ rw (w, r) idle
    | inr r ↦ rw (w, r) (IsIdle-set_latency i (net.elapsed % 2 ^ 32) s.providers idle)
  ]
]

-- The answer is something else than 400.
abbrev IsServed : Response → Type 0
IsServed res = res.result ≡ bad_request → ⊥

finish-IsServed :
    (rlib : Rlib) (i : ℕ) (net : Network) (e : Except DubboRpcArgs) (s : Selector)
    (keep_alive : Bool)
    → IsServed (finish keep_alive (reply rlib i net e s).0)
unfolding finish
finish-IsServed rlib i net (failure e) s k = λ h. cc
finish-IsServed rlib i net (success a) s k = elim (Bool-cases net.write_ec) [
  | inl w ↦ rw w (λ h. cc)
  | inr w ↦ elim (Bool-cases net.read_ec) [
    | inl r ↦ rw (w, r) (λ h. cc)
    | inr r ↦ rw (w, r) (λ h. cc)
  ]
]

moved-IsIdle :
    (s : Selector) (i : ℕ) (p : ProviderInfo)
    → ltb p.connpool_latency 10000 ≡ true
    → IsIdle s.providers
    → IsIdle (moved s i p).providers
moved-IsIdle s i p free idle = rw free idle

-- The selector can be queried, and no latency of a connection pool is raised.
pub record IsCalm (a : Agent) : Type 0 where
  pub well : IsWell a.selector
  pub idle : IsIdle a.selector.providers

abbrev pub agent_over : Selector → Agent
agent_over s = record { selector = s; log = [] }

module _ (rlib : Rlib) where
  -- A request that is answered without raising a latency, 400 just when it is no POST.
  abbrev pub Serves : Request → Network → Agent → Type 0
  Serves req net a =
      (res : Response) × (a' : Agent) × (handle_request rlib net req a ≡ ok res a')
      × IsCalm a'
      × ((res.result ≡ bad_request) ↔ (req.is_post ≡ false))

  handle_request-Serves :
      (req : Request) (net : Network) (a : Agent) → IsReadable net → IsCalm a → Serves req net a
  handle_request-Serves req net a (short, text) calm =
      let (i, p, at, e, answers) = handle_request-reply rlib net short text req a calm.well in
      let free : ltb p.connpool_latency 10000 ≡ true =
        ap (λ n. ltb n 10000) (provider_at-idle a.selector _ i p calm.idle at) in
      let moved_a : Agent = record a { selector = moved a.selector i p } in
      let parsed = http_payload_to_dubbo_parameters rlib req.body in
      elim (Bool-cases req.is_post) [
        | inr other ↦ (resp_400, a, e ∙ if_true _ _ _ (ap not other), calm, (λ h. other, λ h. refl))
        | inl post ↦ (
          finish req.keep_alive (reply rlib i net parsed moved_a.selector).0,
          after rlib net i req.body moved_a,
          e ∙ if_false _ _ _ (ap not post) ∙ if_true _ _ _ free ∙ answers moved_a,
          record {
            well =
                reply-IsWell rlib i net parsed moved_a.selector
                  (moved-IsWell a.selector calm.well i p);
            idle =
                reply-IsIdle rlib i net parsed moved_a.selector
                  (moved-IsIdle a.selector i p free calm.idle);
          },
          (
            λ h. absurd (finish-IsServed rlib i net parsed moved_a.selector req.keep_alive h),
            λ h. cc (sym post ∙ h),
          ),
        )
      ]

  -- The agents that requests lead to, each with a readable answer of its provider.
  pub data Reach (a₀ : Agent) : Agent → Type 0 where
    started : Reach a₀ a₀
    handled :
        (a a' : Agent) (req : Request) (net : Network) (res : Response)
        → Reach a₀ a
        → IsReadable net
        → handle_request rlib net req a ≡ ok res a'
        → Reach a₀ a'

  Reach-IsCalm : (a₀ a : Agent) → IsCalm a₀ → Reach a₀ a → IsCalm a
  Reach-IsCalm a₀ a calm started = calm
  Reach-IsCalm a₀ a calm (handled b a' req net res before readable e) =
      let (res', b', e', calm', _) =
        handle_request-Serves req net b readable (Reach-IsCalm a₀ b calm before) in
      let same : b' ≡ a' = cc (sym e' ∙ e) in subst IsCalm same calm'

  -- From an agent as the constructor leaves it, however many requests it has handled, as long as the
  -- answers of the providers are text that fits the buffer: no provider's pool latency has been
  -- raised, so none is busy, and the next request is answered 400 exactly when it is no POST.
  pub Reach-Serves :
      (connect : Text → ℕ → Except (Unit {0})) (addrs : List Text) (s : Selector)
      → new_selector rlib connect addrs ≡ success s
      → (a : Agent) → Reach (agent_over s) a
      → (req : Request) (net : Network) → IsReadable net
      → Serves req net a
  Reach-Serves connect addrs s made a reach req net readable =
      let fresh = new_selector-IsFresh rlib connect addrs s made in
      let calm : IsCalm (agent_over s) = record {
        well = IsFresh-IsWell s fresh;
        idle = fresh.idle;
      } in
      handle_request-Serves req net a readable (Reach-IsCalm (agent_over s) a calm reach)
