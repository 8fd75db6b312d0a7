-- ===== src/Dubbo/Framing.antt =====
-- The frames that arrive on a connection of lib/dubbo_client.hpp: what a request makes of any of them,
-- and how much of the connection's bytes it takes.
use ali_middleware.Common.{
  ℕ, ◌+◌, ◌*◌, ◌%◌, ◌^◌, ◌≡◌, refl, ◌∙◌, ap, inl, inr, String, Bool, Bool-cases, none, List, [],
  ◌∷◌, ◌++◌, append_laws, length, ltb, ◌==◌, if◌then◌else◌,
}
use ali_middleware.Common.Except.{Except, success, failure}
use ali_middleware.Common.Rlib.{Rlib}
use ali_middleware.Common.Text.{Text}
use ali_middleware.Dubbo.{
  DubboHeader, header_bytes, swap32, request_payload, request_header, Io, borrowed, released, wrote,
  Client, Server, RequestResultT, check_write, too_long, wrong_magic, result_of, raised,
  read_result, talk, take_request_id, borrow_conn, releasing, async_request,
}
use ali_middleware.Dubbo.Bytes.{IsInRange, header_of-header_bytes}
use ali_middleware.Dubbo.Response.{client, read_all-append, length-header_bytes}

-- A header, whatever its members, before as many bytes as it announces.
pub record IsFrame (h : DubboHeader) (body : Text) : Type 0 where
  pub in_range : IsInRange h
  pub announced : swap32 h.data_length ≡ length body

abbrev pub is_long : Text → Bool
is_long body = ltb (1024 * 1024 * 1024) (length body)

abbrev pub quiet : String → Server
quiet ec = record { borrow_error = none; header_ec = none; payload_ec = none; read_ec = ec }

-- What a request tells the world under this id.
abbrev pub logged : ℕ → Text → List Io
logged id payload =
    borrowed ∷ wrote (header_bytes (request_header id payload)) ∷ wrote payload ∷ released ∷ []

-- The bytes that a request leaves for the next one.
abbrev pub left_over : Text → Text → Text
left_over body rest = if is_long body then body ++ rest else rest

log₁-released :
    (log : List Io) (id : ℕ) (payload : Text)
    → (((log ++ borrowed ∷ []) ++ wrote (header_bytes (request_header id payload)) ∷ [])
          ++ wrote payload ∷ [])
        ++ released ∷ []
      ≡ log ++ logged id payload
log₁-released log id payload = simp (append_laws)

releasing-raised :
    {A : Type 0} (m : Except A) (s : Client)
    → releasing (raised m s) ≡ raised m (record s { log = s.log ++ released ∷ [] })
unfolding releasing raised
releasing-raised (success a) s = refl
releasing-raised (failure e) s = refl

module _ (rlib : Rlib) (as_int : Text → Except ℕ) where
  -- What a frame means.
  abbrev pub outcome : DubboHeader → Text → Except RequestResultT
  outcome h body =
      if is_long body
      then failure too_long
      else if h.magic == 48090
      then result_of as_int h.status (rlib.split body b'\n')
      else failure wrong_magic

  read_result-raised :
      (ec : String) (h : DubboHeader) (body rest : Text) (id : ℕ) (log : List Io)
      → IsFrame h body
      → read_result rlib as_int ec h (client id (body ++ rest) log)
        ≡ raised (outcome h body) (client id (left_over body rest) log)
  unfolding read_result raised
  read_result-raised ec h body rest id log f = elim (Bool-cases (is_long body)) [
    | inl long ↦ rw (f.announced, long, read_result) refl
    | inr short ↦
        let read = read_all-append ec (length body) id body rest log refl in
        elim (Bool-cases (h.magic == 48090)) [
          | inl right ↦ rw (f.announced, short, read_result, read, right) refl
          | inr wrong ↦ rw (f.announced, short, read_result, read, wrong) refl
        ]
  ]

  module _ (ec : String) (service_name method_name method_arg_type method_arg : Text)
      (h : DubboHeader) (body rest : Text) (id : ℕ) (log : List Io) where
    -- When the pool lends a connection, the writes have no error and a header arrives with the bytes that it announces behind it, the
    -- request throws when these are more than 1 GiB or the magic number is another one, and ends with
    -- the result or the exception of its lines otherwise. It has taken the header and the announced
    -- bytes from the connection, but only the header of a frame that is too long, and it has released
    -- the connection: the next request finds whatever it left.
    pub async_request-raised :
        IsFrame h body
        → async_request rlib as_int
            (quiet ec)
            service_name
            method_name
            method_arg_type
            method_arg
            (client id (header_bytes h ++ (body ++ rest)) log)
          ≡ raised (outcome h body) (
              client ((id + 1) % 2 ^ 64) (left_over body rest) (
                log
                ++ logged id (request_payload service_name method_name method_arg_type method_arg)))
    unfolding async_request borrow_conn take_request_id talk check_write
    async_request-raised f =
        let payload = request_payload service_name method_name method_arg_type method_arg in
        let log₁ =
          ((log ++ borrowed ∷ []) ++ wrote (header_bytes (request_header id payload)) ∷ [])
          ++ wrote payload ∷ [] in
        let id₁ = (id + 1) % 2 ^ 64 in
        rw (read_all-append ec 16 id₁ (header_bytes h) (body ++ rest) log₁ (length-header_bytes h))
          (rw (header_of-header_bytes h f.in_range) (
            rw (read_result-raised ec h body rest id₁ log₁ f) (
              releasing-raised (outcome h body) (client id₁ (left_over body rest) log₁)
              ∙ ap (λ l. raised (outcome h body) (client id₁ (left_over body rest) l))
                  (log₁-released log id payload))))
