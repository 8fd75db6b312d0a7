-- ===== src/Consumer/Reply.antt =====
-- The answers of provider_info::async_request (src/provider_selector.hpp) and of handle_request
-- (src/consumer_agent.cc), on every path.
use ali_middleware.Common.{
  ℕ, ◌%◌, ◌^◌, ◌<◌, ◌≡◌, refl, ap, inl, inr, Bool, true, false, not, Bool-cases, some, List, [],
  ◌∷◌, ◌++◌, append-nil, sym, ltb, length, if◌then◌else◌,
}
use ali_middleware.Common.Buffer.{filled, c_string, c_string-filled}
use ali_middleware.Common.Except.{Except-cases, Except, success, failure}
use ali_middleware.Common.Rlib.{Rlib}
use ali_middleware.Common.Run.{Exception, ok}
use ali_middleware.Common.Text.{Text, contains}
use ali_middleware.Payload.{DubboRpcArgs, http_payload_to_dubbo_parameters}
use ali_middleware.Selector.{provider_at, Selector, ProviderInfo, query_once}
use ali_middleware.Selector.Query.{IsWell, query_once-IsWell, place, answer, moved}
use ali_middleware.Consumer.{
  status_ok, Response, Request, Network, Io, borrowed, released, sent, Agent, resp_500, resp_400,
  set_latency, request_text, store_latency, receive, exchange, async_request, finish, on_selector,
  answered, handle_request,
}

-- The answer to a payload that was sent.
abbrev pub delivered : Network → Response
delivered net =
    if net.write_ec
    then resp_500
    else if net.read_ec
    then resp_500
    else record { result = status_ok; body = net.received; keep_alive = true }

-- The answer, what is sent, and the selector behind it.
abbrev pub reply :
    Rlib → ℕ → Network → Except DubboRpcArgs → Selector → Response × List Io × Selector
reply rlib i net (failure e) s = (resp_500, [], s)
reply rlib i net (success a) s = (
  delivered net,
  sent (request_text rlib a) ∷ [],
  if net.write_ec
      then s
      else if net.read_ec
      then s
      else record s { providers = set_latency i (net.elapsed % 2 ^ 32) s.providers },
)

abbrev network : (write_ec read_ec : Bool) (received : Text) (elapsed : ℕ) → Network
network w r received t = record { write_ec = w; read_ec = r; received = received; elapsed = t }

exchange-success :
    (rlib : Rlib) (i : ℕ) (w r : Bool) (bytes : Text) (t : ℕ) (payload : Text) (a : DubboRpcArgs)
    (s : Agent)
    → http_payload_to_dubbo_parameters rlib payload ≡ success a
    → c_string (filled 2048 bytes) ≡ some bytes
    → let q = reply rlib i (network w r bytes t) (success a) s.selector in
      exchange rlib i (network w r bytes t) payload s
      ≡ ok q.0 (record { selector = q.2; log = s.log ++ q.1 })
unfolding exchange receive store_latency
exchange-success rlib i true r bytes t payload a s e c = rw (e, exchange) refl
exchange-success rlib i false true bytes t payload a s e c = rw (e, exchange) (rw (c, receive) refl)
exchange-success rlib i false false bytes t payload a s e c =
    rw (e, exchange) (rw (c, receive) refl)

exchange-failure :
    (rlib : Rlib) (i : ℕ) (net : Network) (payload : Text) (x : Exception) (s : Agent)
    → http_payload_to_dubbo_parameters rlib payload ≡ failure x
    → exchange rlib i net payload s ≡ ok resp_500 (record s { log = s.log ++ [] })
unfolding exchange
exchange-failure rlib i net payload x s e =
    rw (e, exchange) (ap (λ l. ok resp_500 (record s { log = l })) (sym (append-nil s.log)))

abbrev request : (is_post : Bool) (body : Text) (keep_alive : Bool) → Request
request is_post body keep_alive = record { is_post = is_post; body = body; keep_alive = keep_alive }

handled :
    (rlib : Rlib) (net : Network) (is_post : Bool) (body : Text) (keep_alive : Bool) (s : Agent)
    (i : ℕ) (p : ProviderInfo)
    → query_once s.selector ≡ ok (answer i p) (moved s.selector i p)
    → let req = request is_post body keep_alive in
      handle_request rlib net req s ≡ (
        if not req.is_post
        then ok resp_400 s
        else if ltb p.connpool_latency 10000
        then answered rlib net req (some i) (record s { selector = moved s.selector i p })
        else ok resp_400 (record s { selector = moved s.selector i p }))
unfolding handle_request on_selector answered
handled rlib net false body keep_alive s i p e = refl
handled rlib net true body keep_alive s i p e = elim (Bool-cases (ltb p.connpool_latency 10000)) [
  | inl idle ↦ rw (e, handle_request) (rw idle refl)
  | inr busy ↦ rw (e, handle_request) (rw busy refl)
]

-- The agent behind a request that went to the provider `i`.
abbrev pub after : Rlib → Network → ℕ → Text → Agent → Agent
after rlib net i payload s =
    let r = reply rlib i net (http_payload_to_dubbo_parameters rlib payload) s.selector in
    record { selector = r.2; log = ((s.log ++ borrowed ∷ []) ++ r.1) ++ released ∷ [] }

module _ (rlib : Rlib) (net : Network) (short : length net.received < 2048)
    (text : contains 0 net.received ≡ false) where
  exchange-reply :
      (i : ℕ) (payload : Text) (s : Agent)
      → let r = reply rlib i net (http_payload_to_dubbo_parameters rlib payload) s.selector in
        exchange rlib i net payload s ≡ ok r.0 (record { selector = r.2; log = s.log ++ r.1 })
  exchange-reply i payload s = elim (Except-cases (http_payload_to_dubbo_parameters rlib payload)) [
    | inr (x, e) ↦ rw e (exchange-failure rlib i net payload x s e)
    | inl (a, e) ↦ rw e (
        exchange-success rlib i net.write_ec net.read_ec net.received net.elapsed payload a s e
          (c_string-filled 2048 net.received short text))
  ]

  -- Where the provider's answer is text and fits the buffer, a request answers 500 for a payload that
  -- lacks an argument, or an error of the write or of the read, and otherwise passes on the bytes
  -- received; it sends the joined arguments at most once; the connection is borrowed first and
  -- released last on every path, and the latency is stored on success alone.
  pub async_request-reply :
      (i : ℕ) (payload : Text) (s : Agent)
      → let r = reply rlib i net (http_payload_to_dubbo_parameters rlib payload) s.selector in
        async_request rlib i net payload s
        ≡ ok r.0
            (record { selector = r.2; log = ((s.log ++ borrowed ∷ []) ++ r.1) ++ released ∷ [] })
  unfolding async_request
  async_request-reply i payload s =
      rw (exchange-reply i payload (record s { log = s.log ++ borrowed ∷ [] })) refl

  answered-idle :
      (i : ℕ) (req : Request) (s : Agent)
      → answered rlib net req (some i) s
        ≡ ok
            (finish req.keep_alive
              (reply rlib i net (http_payload_to_dubbo_parameters rlib req.body) s.selector).0)
            (after rlib net i req.body s)
  unfolding answered
  answered-idle i req s = rw (async_request-reply i req.body s) refl

  -- With a selector that can be queried, an HTTP request that is no POST is answered 400 at once. A
  -- POST goes to the provider that the round robin names, with that call's answer, keep-alive turned
  -- off behind a 500 and otherwise as asked for; where that provider is busy, it is answered 400 and
  -- nothing is sent.
  pub handle_request-reply :
      (req : Request) (s : Agent)
      → IsWell s.selector
      → (i : ℕ) × (p : ProviderInfo) × (provider_at s.selector (place s.selector) ≡ some (i, p))
        × (handle_request rlib net req s ≡ (
            if not req.is_post
            then ok resp_400 s
            else if ltb p.connpool_latency 10000
            then answered rlib net req (some i) (record s { selector = moved s.selector i p })
            else ok resp_400 (record s { selector = moved s.selector i p })))
        × ((t : Agent)
            → answered rlib net req (some i) t
              ≡ ok
                  (finish req.keep_alive
                    (reply rlib i net
                      (http_payload_to_dubbo_parameters rlib req.body)
                      t.selector).0)
                  (after rlib net i req.body t))
  handle_request-reply req s well =
      let (i, p, at, e, _) = query_once-IsWell s.selector well in
      (i, p, at, handled rlib net req.is_post req.body req.keep_alive s i p e, answered-idle i req)
