-- ===== src/Provider/Link/Answers.antt =====
-- What requests over one connection between the agents are answered (src/provider_selector.hpp,
-- src/provider_agent.cc).
use ali_middleware.Common.{
  ℕ, true, false, Bool-cases, inl, inr, List, [], ◌∷◌, ◌≡◌, ◌<◌, ◌∙◌, ap, subst, refl, sym, length,
  ◌==◌, if◌then◌else◌, none,
}
use ali_middleware.Common.Except.{Except, Except-cases, success, failure}
use ali_middleware.Common.Rlib.{Rlib}
use ali_middleware.Common.Run.{Run, Exception, ok, and_then}
use ali_middleware.Common.Text.{Text, contains}
use ali_middleware.Payload.{DubboRpcArgs, http_payload_to_dubbo_parameters}
use ali_middleware.Consumer.{status_ok, Response, Network, Agent, resp_500, async_request}
use ali_middleware.Consumer.Reply.{delivered, reply, async_request-reply}
use ali_middleware.Provider.{
  RequestResult, SessionState, waits_for_read, shut_down, serve_all, finish_session,
  session_consumer,
}
use ali_middleware.Provider.Http.{call, handle_request-serve_one}
use ali_middleware.Provider.Serve.{IsSendable}
use ali_middleware.Provider.Link.{DubboCall, Link, session}

-- The answer of a call, and where its session stands behind it.
abbrev pub outcome : Except RequestResult → Response × SessionState
outcome (failure e) = (resp_500, shut_down)
outcome (success r) =
    if r.status == 20
    then (record { result = status_ok; body = r.value; keep_alive = true }, waits_for_read)
    else (resp_500, shut_down)

abbrev pub expected : DubboCall → Except DubboRpcArgs → SessionState → Response × SessionState
expected dubbo (failure x) peer = (resp_500, peer)
expected dubbo (success a) shut_down = (resp_500, shut_down)
expected dubbo (success a) waits_for_read = outcome (call dubbo a)

-- What the session comes to, by the dubbo call.
abbrev pub ends : Except RequestResult → Run (List Text) SessionState
ends (failure e) = ok shut_down []
ends (success r) = if r.status == 20 then ok waits_for_read (r.value ∷ []) else ok shut_down []

-- The response, and where the session stands behind it.
abbrev pub shown : Response → Link → Response × SessionState
shown res l = (res, l.peer)

module _ (rlib : Rlib) (i : ℕ) where
  pub session-ends :
      (dubbo : DubboCall) (payload : Text) (a : DubboRpcArgs)
      → http_payload_to_dubbo_parameters rlib payload ≡ success a
      → IsSendable a
      → session rlib i dubbo a ≡ ends (call dubbo a)
  unfolding session_consumer serve_all finish_session
  session-ends dubbo payload a e s =
      let one = (handle_request-serve_one rlib dubbo a true [] payload e s).1 in
      ap (λ r. finish_session none (and_then r (λ _ w. ok tt w))) one
      ∙ (elim (Except-cases (call dubbo a)) [
        | inr (x, f) ↦ rw f refl
        | inl (r, f) ↦ elim (Bool-cases (r.status == 20)) [
          | inl t ↦ rw f (rw t refl)
          | inr t ↦ rw f (rw t refl)
        ]
      ])

  -- A payload's arguments fit one message, and its value is text.
  abbrev pub Fits : DubboCall → Text → Type 0
  Fits dubbo payload =
      (a : DubboRpcArgs)
      → http_payload_to_dubbo_parameters rlib payload ≡ success a
      → IsSendable a × ((r : RequestResult) → call dubbo a ≡ success r → contains 0 r.value ≡ false)

  pub Fits-one :
      (dubbo : DubboCall) (payload : Text) (a : DubboRpcArgs)
      → http_payload_to_dubbo_parameters rlib payload ≡ success a
      → IsSendable a
      → ((r : RequestResult) → call dubbo a ≡ success r → contains 0 r.value ≡ false)
      → Fits dubbo payload
  Fits-one dubbo payload a e sendable text a' e' =
      let same : a ≡ a' = cc (e, e') in
      subst
        (λ b.
          IsSendable b
          × ((r : RequestResult) → call dubbo b ≡ success r → contains 0 r.value ≡ false))
        same (sendable, text)

  module _ (payload : Text) (l : Link) (res : Response) (a' : Agent) (l' : Link)
      (peer : SessionState) (net : Network)
      (asks : async_request rlib i net payload l.agent ≡ ok res a')
      (behind : l' ≡ record { agent = a'; peer = peer }) (short : length net.received < 2048)
      (text : contains 0 net.received ≡ false) where
    asked-reply : shown res l' ≡ (
      (reply rlib i net (http_payload_to_dubbo_parameters rlib payload) l.agent.selector).0,
      peer,
    )
    asked-reply =
        let e = sym (async_request-reply rlib net short text i payload l.agent) ∙ asks in
        let same : (reply rlib i net (http_payload_to_dubbo_parameters rlib payload)
              l.agent.selector).0
            ≡ res =
          cc (e) in
        rw behind (ap (λ r. (r, peer)) (sym same))

    pub asked-delivered :
        (a : DubboRpcArgs)
        → http_payload_to_dubbo_parameters rlib payload ≡ success a
        → shown res l' ≡ (delivered net, peer)
    asked-delivered a e = asked-reply ∙ rw e refl

    pub asked-unsent :
        (x : Exception)
        → http_payload_to_dubbo_parameters rlib payload ≡ failure x
        → shown res l' ≡ (resp_500, peer)
    asked-unsent x e = asked-reply ∙ rw e refl
