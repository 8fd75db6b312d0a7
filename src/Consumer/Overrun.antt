-- ===== src/Consumer/Overrun.antt =====
-- The buffer of provider_info::async_request (src/provider_selector.hpp) and the answers that it cannot
-- hold.
use ali_middleware.Common.{
  ℕ, ◌%◌, ◌^◌, ◌≤◌, ◌≡◌, refl, sym, ◌∙◌, ap, subst, inl, inr, ◌⊎◌, ◌↔◌, Bool, true, false,
  Bool-cases, [], ◌∷◌, ◌++◌, none, some, length,
}
use ali_middleware.Common.Buffer.{filled, c_string, c_string-cases, c_string-full}
use ali_middleware.Common.Except.{Except-cases, success, failure}
use ali_middleware.Common.Rlib.{Rlib}
use ali_middleware.Common.Run.{Run, ok, fault, Exception}
use ali_middleware.Common.Text.{Text, contains}
use ali_middleware.Payload.{DubboRpcArgs, http_payload_to_dubbo_parameters}
use ali_middleware.Consumer.{
  status_ok, Response, Network, borrowed, released, sent, Agent, resp_500, receive, exchange,
  store_latency, set_latency, request_text, async_request,
}

-- The provider's answer fills the buffer and has no zero byte.
abbrev pub IsOverrun : Text → Type 0
IsOverrun received = (length received ≡ 2048) × (contains 0 received ≡ false)

module _ (rlib : Rlib) (i : ℕ) (payload : Text) where
  abbrev network : (write_ec read_ec : Bool) (received : Text) (elapsed : ℕ) → Network
  network w r received t = record { write_ec = w; read_ec = r; received = received; elapsed = t }

  abbrev told : DubboRpcArgs → Agent → Agent
  told a s = record s { log = s.log ++ sent (request_text rlib a) ∷ [] }

  -- A run that ends with an answer.
  abbrev Answers : Run Agent Response → Type 0
  Answers run = (res : Response) × (a : Agent) × (run ≡ ok res a)

  receive-some :
      (w r : Bool) (received t : Text) (elapsed : ℕ) (s : Agent)
      → c_string (filled 2048 received) ≡ some t
      → Answers (receive i (network w r received elapsed) s)
  unfolding receive store_latency
  receive-some w true received t elapsed s e = (resp_500, s, rw (e, receive) refl)
  receive-some w false received t elapsed s e = (
    record { result = status_ok; body = t; keep_alive = true },
    record s {
      selector = record s.selector {
        providers = set_latency i (elapsed % 2 ^ 32) s.selector.providers;
      };
    },
    rw (e, receive) refl,
  )

  receive-none :
      (net : Network) (s : Agent)
      → c_string (filled 2048 net.received) ≡ none
      → receive i net s ≡ fault
  unfolding receive
  receive-none net s e = rw (e, receive) refl

  exchange-failure :
      (net : Network) (x : Exception) (s : Agent)
      → http_payload_to_dubbo_parameters rlib payload ≡ failure x
      → Answers (exchange rlib i net payload s)
  unfolding exchange
  exchange-failure net x s e = (resp_500, s, rw (e, exchange) refl)

  exchange-unsent :
      (r : Bool) (received : Text) (elapsed : ℕ) (a : DubboRpcArgs) (s : Agent)
      → http_payload_to_dubbo_parameters rlib payload ≡ success a
      → Answers (exchange rlib i (network true r received elapsed) payload s)
  unfolding exchange
  exchange-unsent r received elapsed a s e = (resp_500, told a s, rw (e, exchange) refl)

  exchange-received :
      (r : Bool) (received t : Text) (elapsed : ℕ) (a : DubboRpcArgs) (s : Agent)
      → http_payload_to_dubbo_parameters rlib payload ≡ success a
      → c_string (filled 2048 received) ≡ some t
      → Answers (exchange rlib i (network false r received elapsed) payload s)
  unfolding exchange
  exchange-received r received t elapsed a s e c =
      let (res, a', eq) = receive-some false r received t elapsed (told a s) c in
      (res, a', rw (e, exchange) eq)

  exchange-overrun :
      (r : Bool) (received : Text) (elapsed : ℕ) (a : DubboRpcArgs) (s : Agent)
      → http_payload_to_dubbo_parameters rlib payload ≡ success a
      → c_string (filled 2048 received) ≡ none
      → exchange rlib i (network false r received elapsed) payload s ≡ fault
  unfolding exchange
  exchange-overrun r received elapsed a s e c =
      rw (e, exchange) (receive-none (network false r received elapsed) (told a s) c)

  -- Nothing else than the overrun keeps an exchange from its answer.
  exchange-cases :
      (net : Network) (s : Agent)
      → length net.received ≤ 2048
      → Answers (exchange rlib i net payload s)
        ⊎ ((net.write_ec ≡ false)
            × IsOverrun net.received
            × ((a : DubboRpcArgs) × (http_payload_to_dubbo_parameters rlib payload ≡ success a)))
  exchange-cases net s le = elim (Except-cases (http_payload_to_dubbo_parameters rlib payload)) [
    | inr (x, e) ↦ inl (exchange-failure net x s e)
    | inl (a, e) ↦ elim (Bool-cases net.write_ec) [
      | inl w ↦
          let unsent = exchange-unsent net.read_ec net.received net.elapsed a s e in
          inl (
            subst
              (λ b.
                Answers
                  (exchange rlib i (network b net.read_ec net.received net.elapsed) payload s))
              (sym w) unsent)
      | inr w ↦ elim (c_string-cases 2048 net.received le) [
        | inl (t, c) ↦
            let received = exchange-received net.read_ec net.received t net.elapsed a s e c in
            inl (
              subst
                (λ b.
                  Answers
                    (exchange rlib i (network b net.read_ec net.received net.elapsed) payload s))
                (sym w) received)
        | inr over ↦ inr (w, over, (a, e))
      ]
    ]
  ]

  async_request-Answers :
      (net : Network) (s : Agent)
      → Answers (exchange rlib i net payload (record s { log = s.log ++ borrowed ∷ [] }))
      → Answers (async_request rlib i net payload s)
  unfolding async_request
  async_request-Answers net s (res, a, e) =
      (res, record a { log = a.log ++ released ∷ [] }, rw e refl)

  async_request-overrun :
      (net : Network) (a : DubboRpcArgs) (s : Agent)
      → net.write_ec ≡ false
      → http_payload_to_dubbo_parameters rlib payload ≡ success a
      → c_string (filled 2048 net.received) ≡ none
      → async_request rlib i net payload s ≡ fault
  unfolding async_request
  async_request-overrun net a s w e c =
      let s₁ = record s { log = s.log ++ borrowed ∷ [] } in
      let faults : exchange rlib i net payload s₁ ≡ fault =
        ap (λ b. exchange rlib i (network b net.read_ec net.received net.elapsed) payload s₁) w
        ∙ exchange-overrun net.read_ec net.received net.elapsed a s₁ e c in
      rw faults refl

  -- Of a read of at most 2048 bytes, a call has undefined behaviour, a C string read on behind the
  -- buffer, exactly when the payload has its arguments, the write had no error, and 2048 bytes have
  -- come with no zero byte among them, whether or not the read reported an error; in every other case
  -- it returns an answer.
  pub async_request-fault_iff :
      (net : Network) (s : Agent)
      → length net.received ≤ 2048
      → ((async_request rlib i net payload s ≡ fault) ↔ (
          (net.write_ec ≡ false)
          × IsOverrun net.received
          × ((a : DubboRpcArgs) × (http_payload_to_dubbo_parameters rlib payload ≡ success a))))
        × ((async_request rlib i net payload s ≡ fault)
            ⊎ ((res : Response) × (s' : Agent) × (async_request rlib i net payload s ≡ ok res s')))
  async_request-fault_iff net s le =
      let s₁ = record s { log = s.log ++ borrowed ∷ [] } in
      let from_cause : (net.write_ec ≡ false)
            × IsOverrun net.received
            × ((a : DubboRpcArgs) × (http_payload_to_dubbo_parameters rlib payload ≡ success a))
          → async_request rlib i net payload s ≡ fault =
        λ (w, (full, text), (a, e)).
          async_request-overrun net a s w e (c_string-full 2048 net.received full text) in
      elim (exchange-cases net s₁ le) [
        | inl answers ↦
            let (res, s', eq) = async_request-Answers net s answers in
            ((λ bad. cc (sym eq ∙ bad), from_cause), inr (res, s', eq))
        | inr cause ↦ ((λ bad. cause, from_cause), inl (from_cause cause))
      ]
