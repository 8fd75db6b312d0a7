-- ===== src/Dubbo/Response.antt =====
-- A response that lib/dubbo_client.hpp accepts, and what its two requests return for it.
use ali_middleware.Common.{
  ℕ, ◌+◌, ◌*◌, ◌%◌, ◌^◌, ◌≤◌, ◌≡◌, refl, sym, ◌∙◌, ap, String, true, false, none, List, [], ◌∷◌,
  ◌++◌, arith, length, length-append, ltb, ◌==◌,
}
use ali_middleware.Common.Except.{Except, success}
use ali_middleware.Common.Rlib.{Rlib}
use ali_middleware.Common.Run.{ok}
use ali_middleware.Common.Text.{Text}
use ali_middleware.Dubbo.{
  DubboHeader, header_bytes, swap32, request_payload, request_header, Io, borrowed, released, wrote,
  Client, Server, RequestResultT, first, behind, check_write, read_all, result_of, raised,
  read_result, talk, take_request_id, borrow_conn, releasing, async_request, sync_request,
}
use ali_middleware.Dubbo.Bytes.{IsInRange, header_of-header_bytes}

first-append : (xs ys : Text) → first (length xs) (xs ++ ys) ≡ xs
first-append [] ys = refl
first-append (x ∷ xs) ys = ap (λ l. x ∷ l) (first-append xs ys)

behind-append : (xs ys : Text) → behind (length xs) (xs ++ ys) ≡ ys
behind-append [] ys = refl
behind-append (x ∷ xs) ys = behind-append xs ys

abbrev pub client : ℕ → Text → List Io → Client
client id incoming log = record { curr_request_id = id; incoming = incoming; log = log }

pub read_all-append :
    (ec : String) (n id : ℕ) (xs ys : Text) (log : List Io)
    → length xs ≡ n
    → read_all ec n (client id (xs ++ ys) log) ≡ ok xs (client id ys log)
unfolding read_all
read_all-append ec n id xs ys log e =
    let enough : ltb (length (xs ++ ys)) n ≡ false = ground (arith, length-append xs ys) in
    let heads : first n (xs ++ ys) ≡ xs =
      ap (λ m. first m (xs ++ ys)) (sym e) ∙ first-append xs ys in
    let tails : behind n (xs ++ ys) ≡ ys =
      ap (λ m. behind m (xs ++ ys)) (sym e) ∙ behind-append xs ys in
    rw (enough, heads, tails) refl

pub length-header_bytes : (h : DubboHeader) → length (header_bytes h) ≡ 16
unfolding header_bytes
length-header_bytes h = refl

module _ (rlib : Rlib) (as_int : Text → Except ℕ) where
  -- A header with dubbo's magic number that announces the body, which is no longer than 1 GiB and has
  -- three lines, the first of them a number.
  pub record IsResponse (h : DubboHeader) (body value : Text) (n : ℕ) : Type 0 where
    pub in_range : IsInRange h
    pub magic : h.magic ≡ 48090
    pub announced : swap32 h.data_length ≡ length body
    pub short : length body ≤ 1024 * 1024 * 1024
    pub type_line : Text
    pub last_line : Text
    pub lines : rlib.split body b'\n' ≡ type_line ∷ value ∷ last_line ∷ []
    pub number : as_int type_line ≡ success n

  abbrev pub expected_result : DubboHeader → Text → ℕ → RequestResultT
  expected_result h value n = record { status = h.status; result_type = n; value = value }

  read_result-response :
      (ec : String) (h : DubboHeader) (body value : Text) (n id : ℕ) (rest : Text) (log : List Io)
      → IsResponse h body value n
      → read_result rlib as_int ec h (client id (body ++ rest) log)
        ≡ ok (expected_result h value n) (client id rest log)
  unfolding read_result result_of raised
  read_result-response ec h body value n id rest log r =
      let fits : ltb (1024 * 1024 * 1024) (swap32 h.data_length) ≡ false =
        ground (arith, r.announced, r.short) in
      let right : (h.magic == 48090) ≡ true = ground (arith, r.magic) in
      rw (fits, read_result)
        (rw (read_all-append ec (swap32 h.data_length) id body rest log (sym r.announced))
          (rw (right, r.lines) (rw (r.number, result_of) refl)))

  talk-response :
      (ec : String) (request h : DubboHeader) (payload body value : Text) (n id : ℕ) (rest : Text)
      (log : List Io)
      → IsResponse h body value n
      → talk rlib as_int
          (record { borrow_error = none; header_ec = none; payload_ec = none; read_ec = ec })
          request
          payload
          (client id (header_bytes h ++ (body ++ rest)) log)
        ≡ ok
            (expected_result h value n)
            (client id rest ((log ++ wrote (header_bytes request) ∷ []) ++ wrote payload ∷ []))
  unfolding talk check_write
  talk-response ec request h payload body value n id rest log r =
      rw (read_all-append ec 16 id (header_bytes h) (body ++ rest) _ (length-header_bytes h)) (
        rw (header_of-header_bytes h r.in_range)
          (read_result-response ec h body value n id rest _ r))

  -- When the pool lends a connection, the writes have no error and the server sends a response, async_request and sync_request
  -- return its status, type and value and have taken from the connection just the response;
  -- async_request has borrowed the connection before and released it behind.
  pub async_request-response :
      (ec : String) (service_name method_name method_arg_type method_arg : Text) (h : DubboHeader)
      (body value : Text) (n id : ℕ) (rest : Text) (log : List Io)
      → IsResponse h body value n
      → let payload = request_payload service_name method_name method_arg_type method_arg in
        let server : Server = record {
          borrow_error = none;
          header_ec = none;
          payload_ec = none;
          read_ec = ec;
        } in
        let start = client id (header_bytes h ++ (body ++ rest)) log in
        (async_request rlib as_int server service_name method_name method_arg_type method_arg start
          ≡ ok (expected_result h value n) (
              client ((id + 1) % 2 ^ 64) rest (
                (((log ++ borrowed ∷ []) ++ wrote (header_bytes (request_header id payload)) ∷ [])
                  ++ wrote payload ∷ [])
                ++ released ∷ [])))
        × (sync_request rlib as_int server service_name method_name method_arg_type method_arg start
            ≡ ok (expected_result h value n) (
                client ((id + 1) % 2 ^ 64) rest (
                  (log ++ wrote (header_bytes (request_header id payload)) ∷ [])
                  ++ wrote payload ∷ [])))
  unfolding async_request borrow_conn sync_request take_request_id releasing
  async_request-response ec service_name method_name method_arg_type method_arg h body value n id
        rest log r =
      let payload = request_payload service_name method_name method_arg_type method_arg in
      let talked =
        talk-response ec (request_header id payload) h payload body value n ((id + 1) % 2 ^ 64)
          rest in
      (ap releasing (talked (log ++ borrowed ∷ []) r), talked log r)
