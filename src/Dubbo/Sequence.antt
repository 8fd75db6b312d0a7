-- ===== src/Dubbo/Sequence.antt =====
-- Requests in a row over one connection of lib/dubbo_client.hpp, and the frames that answer them.
use ali_middleware.Common.{
  ℕ, ◌+◌, ◌*◌, ◌%◌, ◌^◌, ◌≤◌, ◌≡◌, refl, sym, ◌∙◌, ap, String, false, Option, none, some, List, [],
  ◌∷◌, ◌++◌, append-nil, append_assoc, append_laws, arith, length, All, if_false,
}
use ali_middleware.Common.Except.{Except, success, failure}
use ali_middleware.Common.Rlib.{Rlib}
use ali_middleware.Common.Run.{Run, ok, thrown, fault, out_of_fuel}
use ali_middleware.Common.Text.{Text}
use ali_middleware.Dubbo.{
  DubboHeader, header_bytes, request_payload, Io, Client, RequestResultT, raised, async_request,
}
use ali_middleware.Dubbo.Framing.{IsFrame, is_long, quiet, logged, outcome, async_request-raised}
use ali_middleware.Dubbo.Response.{client}

-- The arguments of one request.
pub record Call : Type 0 where
  pub service_name : Text
  pub method_name : Text
  pub method_arg_type : Text
  pub method_arg : Text

abbrev pub payload_of : Call → Text
payload_of c = request_payload c.service_name c.method_name c.method_arg_type c.method_arg

abbrev pub Frame : Type 0
Frame = DubboHeader × Text

-- The frames as the server sends them.
abbrev pub wire : List Frame → Text
wire [] = []
wire ((h, body) ∷ fs) = header_bytes h ++ (body ++ wire fs)

pub record IsShortFrame (f : Frame) : Type 0 where
  pub frame : IsFrame f.0 f.1
  pub short : length f.1 ≤ 1024 * 1024 * 1024

-- What the requests tell the world, under the ids from this one on.
abbrev pub all_logged : ℕ → List Call → List Io
all_logged id [] = []
all_logged id (c ∷ cs) = logged id (payload_of c) ++ all_logged ((id + 1) % 2 ^ 64) cs

abbrev pub id_behind : ℕ → List Call → ℕ
id_behind id [] = id
id_behind id (c ∷ cs) = id_behind ((id + 1) % 2 ^ 64) cs

-- A caller that catches what a request throws and makes the next one; none where one does not end.
abbrev pub noted : {A : Type 0} → Run Client A → Option (Except A × Client)
noted (ok a s) = some (success a, s)
noted (thrown e s) = some (failure e, s)
noted fault = none
noted out_of_fuel = none

abbrev pub Replies : Type 0
Replies = Option (List (Except RequestResultT) × Client)

abbrev pub with_reply : Except RequestResultT → Replies → Replies
with_reply r none = none
with_reply r (some (rs, s)) = some (r ∷ rs, s)

abbrev noted_one : {A : Type 0} → Except A → Client → Option (Except A × Client)
noted_one r s = some (r, s)

abbrev noted_all : List (Except RequestResultT) → Client → Replies
noted_all rs s = some (rs, s)

wire-append :
    (h : DubboHeader) (body : Text) (fs : List Frame) (rest : Text)
    → wire ((h, body) ∷ fs) ++ rest ≡ header_bytes h ++ (body ++ (wire fs ++ rest))
wire-append h body fs rest = simp (append_laws)

noted-raised : {A : Type 0} (m : Except A) (s : Client) → noted (raised m s) ≡ some (m, s)
unfolding raised
noted-raised (success a) s = refl
noted-raised (failure e) s = refl

module _ (rlib : Rlib) (as_int : Text → Except ℕ) (ec : String) where
  abbrev pub request : Call → Client → Run Client RequestResultT
  request c =
      async_request rlib as_int (quiet ec) c.service_name c.method_name c.method_arg_type
        c.method_arg

  abbrev pub replies : List Call → Client → Replies
  replies [] s = some ([], s)
  replies (c ∷ cs) s = elim (noted (request c s)) [
    | none ↦ none
    | some (r, s₁) ↦ with_reply r (replies cs s₁)
  ]

  abbrev pub outcomes : List Frame → List (Except RequestResultT)
  outcomes [] = []
  outcomes ((h, body) ∷ fs) = outcome rlib as_int h body ∷ outcomes fs

  abbrev pub answered_by : ℕ → List Io → Text → List Call → List Frame → Replies
  answered_by id log rest cs fs =
      some (outcomes fs, client (id_behind id cs) rest (log ++ all_logged id cs))

  request-noted :
      (c : Call) (h : DubboHeader) (body rest : Text) (id : ℕ) (log : List Io)
      → IsShortFrame (h, body)
      → noted (request c (client id (header_bytes h ++ (body ++ rest)) log))
        ≡ noted_one
            (outcome rlib as_int h body)
            (client ((id + 1) % 2 ^ 64) rest (log ++ logged id (payload_of c)))
  request-noted c h body rest id log f =
      let short : is_long body ≡ false = ground (arith, f.short) in
      ap noted (
        async_request-raised rlib as_int ec c.service_name c.method_name c.method_arg_type
          c.method_arg h body rest id log f.frame)
      ∙ noted-raised (outcome rlib as_int h body) _
      ∙ ap
          (λ b.
            noted_one (outcome rlib as_int h body)
              (client ((id + 1) % 2 ^ 64) b (log ++ logged id (payload_of c))))
          (if_false (is_long body) (body ++ rest) rest short)

  logged-nil :
      (id : ℕ) (log : List Io) (rest : Text)
      → replies [] (client id rest log) ≡ answered_by id log rest [] []
  logged-nil id log rest = ap (λ l. noted_all [] (client id rest l)) (sym (append-nil log))

  replies-cons :
      (c : Call) (cs : List Call) (s : Client) (r : Except RequestResultT) (s₁ : Client)
      → noted (request c s) ≡ noted_one r s₁
      → replies (c ∷ cs) s ≡ with_reply r (replies cs s₁)
  replies-cons c cs s r s₁ e = rw (e, replies) refl

  -- Where the pool lends the connection and the writes have no error: over a connection that brings
  -- one frame of at most 1 GiB for each request, whatever the members of
  -- its header and its lines, every request ends, by a result or by an exception, and the k-th one
  -- ends as the k-th frame says. Behind them the connection holds just the bytes behind the frames,
  -- each request took the next id, and wrote its header and its payload between a borrowing and a
  -- release.
  pub replies-answered_by :
      (cs : List Call) (fs : List Frame) (rest : Text) (id : ℕ) (log : List Io)
      → length cs ≡ length fs
      → All IsShortFrame fs
      → replies cs (client id (wire fs ++ rest) log) ≡ answered_by id log rest cs fs
  replies-answered_by [] [] rest id log e h = logged-nil id log rest
  replies-answered_by [] (f ∷ fs) rest id log e h = absurd (omega (arith, e))
  replies-answered_by (c ∷ cs) [] rest id log e h = absurd (omega (arith, e))
  replies-answered_by (c ∷ cs) ((head, body) ∷ fs) rest id log e (f, g) =
      let id₁ = (id + 1) % 2 ^ 64 in
      let log₁ = log ++ logged id (payload_of c) in
      ap (λ b. replies (c ∷ cs) (client id b log)) (wire-append head body fs rest)
      ∙ replies-cons c cs (client id (header_bytes head ++ (body ++ (wire fs ++ rest))) log) _
          (client id₁ (wire fs ++ rest) log₁) (request-noted c head body (wire fs ++ rest) id log f)
      ∙ ap (with_reply (outcome rlib as_int head body))
          (replies-answered_by cs fs rest id₁ log₁ (omega (arith, e)) g)
      ∙ ap (λ l. noted_all (outcomes ((head, body) ∷ fs)) (client (id_behind id₁ cs) rest l))
          (append_assoc log (logged id (payload_of c)) (all_logged id₁ cs))
