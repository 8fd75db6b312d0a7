-- ===== src/Provider/Http.antt =====
-- src/provider_agent.cc, handle_request: the provider agent's older protocol, over HTTP. Its parser is
-- that of http_payload_to_dubbo_parameters (src/provider_selector.hpp), word for word.
use ali_middleware.Common.{
  ◌≡◌, refl, Bool, true, not, Bool-cases, inl, inr, List, [], ◌∷◌, ◌++◌, ◌==◌, if◌then◌else◌,
}
use ali_middleware.Common.Except.{Except-cases, Except, success, failure, ◌>>=◌}
use ali_middleware.Common.Rlib.{Rlib}
use ali_middleware.Common.Run.{Run, ok, thrown, runtime_error}
use ali_middleware.Common.Text.{Text, codes}
use ali_middleware.Payload.{DubboRpcArgs, http_payload_to_dubbo_parameters}
use ali_middleware.Consumer.{
  status_ok, bad_request, internal_server_error, Response, Request, request_text,
}
use ali_middleware.Provider.{RequestResult, got, serve_one, read_some, arg_at, returned}
use ali_middleware.Provider.Serve.{IsSendable, req_args-request}

-- The answer to a request that asked for this keep-alive, by the status of the dubbo call.
pub answer_of : Bool → RequestResult → Response
answer_of keep_alive result =
    if result.status == 20
    then record { result = status_ok; body = result.value; keep_alive = keep_alive }
    else record {
      result = internal_server_error;
      body = codes "Dubbo error.";
      keep_alive = keep_alive;
    }

-- The response has the request's version.
pub handle_request :
    Rlib → (Text → Text → Text → Text → Except RequestResult) → Request → Except Response
handle_request rlib dubbo req =
    if not req.is_post
    then success
        (record { result = bad_request; body = codes "bad request"; keep_alive = req.keep_alive })
    else (do
      a ← http_payload_to_dubbo_parameters rlib req.body
      result ← dubbo a.interface a.method a.parameter_types_string a.parameter
      success (answer_of req.keep_alive result))

-- What the two protocols make of a dubbo call: the answer over HTTP, and what the session does.
abbrev pub outcomes :
    Bool → List Text → Except RequestResult → Except Response × Run (List Text) (Unit {0})
outcomes keep_alive w (failure e) = (failure e, thrown e w)
outcomes keep_alive w (success r) =
    if r.status == 20
    then (
      success (record { result = status_ok; body = r.value; keep_alive = keep_alive }),
      ok tt (w ++ r.value ∷ []),
    )
    else (
      success (record {
        result = internal_server_error;
        body = codes "Dubbo error.";
        keep_alive = keep_alive;
      }),
      thrown (runtime_error "dubbo not ok.") w,
    )

abbrev pub post : Text → Bool → Request
post body keep_alive = record { is_post = true; body = body; keep_alive = keep_alive }

abbrev DubboCall : Type 0
DubboCall = Text → Text → Text → Text → Except RequestResult

abbrev pub call : DubboCall → DubboRpcArgs → Except RequestResult
call dubbo a = dubbo a.interface a.method a.parameter_types_string a.parameter

module _ (rlib : Rlib) (dubbo : DubboCall) (a : DubboRpcArgs) (keep_alive : Bool)
    (w : List Text) where
  handle_request-outcomes :
      (payload : Text)
      → http_payload_to_dubbo_parameters rlib payload ≡ success a
      → handle_request rlib dubbo (post payload keep_alive)
        ≡ (outcomes keep_alive w (call dubbo a)).0
  unfolding handle_request answer_of
  handle_request-outcomes payload e = elim (Except-cases (call dubbo a)) [
    | inr (x, f) ↦ rw (e, f) refl
    | inl (r, f) ↦ elim (Bool-cases (r.status == 20)) [
      | inl t ↦ rw (e, f) (rw t refl)
      | inr t ↦ rw (e, f) (rw t refl)
    ]
  ]

  serve_one-outcomes :
      IsSendable a
      → serve_one rlib (record { read = got (request_text rlib a); dubbo = dubbo }) w
        ≡ (outcomes keep_alive w (call dubbo a)).1
  unfolding serve_one read_some arg_at returned
  serve_one-outcomes s = elim (Except-cases (call dubbo a)) [
    | inr (x, f) ↦ rw (req_args-request rlib a w s) (rw f refl)
    | inl (r, f) ↦ elim (Bool-cases (r.status == 20)) [
      | inl t ↦ rw (req_args-request rlib a w s) (rw f (rw t refl))
      | inr t ↦ rw (req_args-request rlib a w s) (rw f (rw t refl))
    ]
  ]

  -- For a payload with the arguments `a`, all of which one message can carry, the HTTP request and the
  -- message that a consumer agent sends for it call dubbo with the same arguments, and end alike: both
  -- answer the value of a call whose status is 20; else HTTP answers 500 and the session throws; and
  -- both pass on what the call throws.
  pub handle_request-serve_one :
      (payload : Text)
      → http_payload_to_dubbo_parameters rlib payload ≡ success a
      → IsSendable a
      → (handle_request rlib dubbo (post payload keep_alive)
          ≡ (outcomes keep_alive w (call dubbo a)).0)
        × (serve_one rlib (record { read = got (request_text rlib a); dubbo = dubbo }) w
            ≡ (outcomes keep_alive w (call dubbo a)).1)
  handle_request-serve_one payload e s = (handle_request-outcomes payload e, serve_one-outcomes s)
