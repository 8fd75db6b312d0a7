-- ===== src/Provider/Serve.antt =====
-- What session_consumer (src/provider_agent.cc) does with the requests that async_request of
-- src/provider_selector.hpp sends.
use ali_middleware.Common.{
  String, ◌<◌, ◌≡◌, refl, sym, ◌∙◌, ap, false, Option, List, [], ◌∷◌, ◌++◌, append-nil,
  append_assoc, append_laws, length,
}
use ali_middleware.Common.Buffer.{c_string-filled}
use ali_middleware.Common.Except.{Except, success}
use ali_middleware.Common.Rlib.{Rlib, IsParts, join_spec}
use ali_middleware.Common.Run.{ok}
use ali_middleware.Common.Text.{Text, contains}
use ali_middleware.Payload.{DubboRpcArgs}
use ali_middleware.Consumer.{request_text}
use ali_middleware.Provider.{
  got, RequestResult, Round, read_some, req_args, arg_at, returned, serve_one, serve_all,
  waits_for_read, finish_session, session_consumer,
}

abbrev pub four : DubboRpcArgs → List Text
four a = a.interface ∷ a.method ∷ a.parameter_types_string ∷ a.parameter ∷ []

-- Arguments that one message can carry: none is empty or has a newline or a zero byte, and the message
-- is shorter than the buffer.
abbrev pub IsSendable : DubboRpcArgs → Type 0
IsSendable a =
    IsParts b'\n' (four a)
    × (contains 0 (join_spec b'\n' (four a)) ≡ false)
    × (length (join_spec b'\n' (four a)) < 2048)

module _ (rlib : Rlib) where
  pub req_args-request :
      (a : DubboRpcArgs) (w : List Text)
      → IsSendable a
      → req_args rlib (request_text rlib a) w ≡ ok (four a) w
  unfolding req_args request_text
  req_args-request a w (parts, text, short) =
      let rest = a.method ∷ a.parameter_types_string ∷ a.parameter ∷ [] in
      ap (λ t. req_args rlib t w) (rlib.join-parts b'\n' a.interface rest)
      ∙ rw (c_string-filled 2048 (join_spec b'\n' (four a)) short text, req_args)
          (ap (λ l. ok l w) (rlib.split-parts b'\n' a.interface rest parts))

  -- One round that answers `value`.
  pub record IsAnswered (r : Round) (value : Text) : Type 0 where
    pub args : DubboRpcArgs
    pub sendable : IsSendable args
    pub read : r.read ≡ got (request_text rlib args)
    pub dubbo :
        r.dubbo args.interface args.method args.parameter_types_string args.parameter
        ≡ success (record { status = 20; value = value })

  serve_one-sent :
      (dubbo : Text → Text → Text → Text → Except RequestResult) (a : DubboRpcArgs) (value : Text)
      (w : List Text)
      → IsSendable a
      → dubbo a.interface a.method a.parameter_types_string a.parameter
        ≡ success (record { status = 20; value = value })
      → serve_one rlib (record { read = got (request_text rlib a); dubbo = dubbo }) w
        ≡ ok tt (w ++ value ∷ [])
  unfolding serve_one read_some arg_at returned
  serve_one-sent dubbo a value w s d = rw (req_args-request a w s) (rw d refl)

  serve_one-answer :
      (r : Round) (value : Text) (w : List Text)
      → IsAnswered r value
      → serve_one rlib r w ≡ ok tt (w ++ value ∷ [])
  serve_one-answer r value w h =
      ap (λ x. serve_one rlib (record { read = x; dubbo = r.dubbo }) w) h.read
      ∙ serve_one-sent r.dubbo h.args value w h.sendable h.dubbo

  abbrev pub AllAnswered : List Round → List Text → Type 0
  AllAnswered [] [] = Unit
  AllAnswered [] (v ∷ vs) = ⊥
  AllAnswered (r ∷ rs) [] = ⊥
  AllAnswered (r ∷ rs) (v ∷ vs) = IsAnswered r v × AllAnswered rs vs

  pub serve_all-answers :
      (rs rest : List Round) (vs w : List Text)
      → AllAnswered rs vs
      → serve_all rlib (rs ++ rest) w ≡ serve_all rlib rest (w ++ vs)
  unfolding serve_all
  serve_all-answers [] rest [] w h = simp (append_laws)
  serve_all-answers [] rest (v ∷ vs) w h = absurd h
  serve_all-answers (r ∷ rs) rest [] w h = absurd h
  serve_all-answers (r ∷ rs) rest (v ∷ vs) w (h, hs) = rw (serve_one-answer r v w h) (
      serve_all-answers rs rest vs (w ++ v ∷ []) hs
      ∙ ap (serve_all rlib rest) (append_assoc w (v ∷ []) vs))

  -- A session whose rounds each bring one message of arguments that fit it, and dubbo answers them,
  -- calls dubbo with just those arguments, writes the values in order and goes on waiting.
  pub session_consumer-answers :
      (ec : Option String) (rs : List Round) (vs : List Text)
      → AllAnswered rs vs
      → session_consumer rlib ec rs [] ≡ ok waits_for_read vs
  unfolding session_consumer finish_session serve_all
  session_consumer-answers ec rs vs h =
      let e =
        ap (λ l. serve_all rlib l []) (sym (append-nil rs)) ∙ serve_all-answers rs [] vs [] h in
      rw e refl
