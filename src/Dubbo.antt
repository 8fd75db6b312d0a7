-- ===== src/Dubbo.antt =====
-- lib/dubbo_client.hpp: the client that calls a dubbo server.
pub mod Bytes
pub mod Call
pub mod Framing
pub mod Ids
pub mod Layout
pub mod Response
pub mod Sample
pub mod Sequence
mod FrameTests
mod Tests
use ali_middleware.Common.{
  ℕ, zero, suc, ◌+◌, ◌*◌, ◌/◌, ◌%◌, ◌^◌, ◌≤◌, String, Bool, Option, none, some, List, [], ◌∷◌, ◌++◌,
  length, ltb, ◌==◌, if◌then◌else◌,
}
use ali_middleware.Common.Except.{Except, success, failure}
use ali_middleware.Common.Rlib.{Rlib}
use ali_middleware.Common.Run.{
  Run, Cmd, Exception, runtime_error, ok, thrown, fault, out_of_fuel, pure, throw, modify, gets,
  ◌>>=◌, ◌>>◌,
}
use ali_middleware.Common.Text.{Text, codes}

-- `dubbo_header`; `data_length` is what the member holds, in the server's byte order.
pub record DubboHeader : Type 0 where
  pub magic : ℕ
  pub serialization_id : ℕ
  pub is_event : ℕ
  pub need_return : ℕ
  pub is_request : ℕ
  pub status : ℕ
  pub request_id : ℕ
  pub data_length : ℕ

-- `k` bytes of a number, the lowest first, as the machine keeps it.
abbrev pub le_bytes : ℕ → ℕ → Text
le_bytes zero n = []
le_bytes (suc k) n = n % 256 ∷ le_bytes k (n / 256)

abbrev pub from_le : Text → ℕ
from_le [] = 0
from_le (b ∷ bs) = b + 256 * from_le bs

-- The bit-fields in the order of RDUBBO_OBEY_APACHEDOC, which the build defines, from the lowest bit.
abbrev pub flags_byte : DubboHeader → ℕ
flags_byte h = h.serialization_id + 32 * h.is_event + 64 * h.need_return + 128 * h.is_request

-- The 16 bytes of the packed header in memory, which are what is sent.
unfoldable pub header_bytes : DubboHeader → Text
header_bytes h =
    le_bytes 2 h.magic
    ++ flags_byte h ∷ h.status ∷ (le_bytes 8 h.request_id ++ le_bytes 4 h.data_length)

-- The byte at an offset.
abbrev pub byte_at : ℕ → Text → ℕ
byte_at i [] = 0
byte_at zero (b ∷ bs) = b
byte_at (suc i) (b ∷ bs) = byte_at i bs

-- The header that a read of its 16 bytes makes.
unfoldable pub header_of : Text → DubboHeader
header_of m =
    let at : ℕ → ℕ = λ i. byte_at i m in
    record {
      magic = from_le (at 0 ∷ at 1 ∷ []);
      serialization_id = at 2 % 32;
      is_event = at 2 / 32 % 2;
      need_return = at 2 / 64 % 2;
      is_request = at 2 / 128 % 2;
      status = at 3;
      request_id = from_le (at 4 ∷ at 5 ∷ at 6 ∷ at 7 ∷ at 8 ∷ at 9 ∷ at 10 ∷ at 11 ∷ []);
      data_length = from_le (at 12 ∷ at 13 ∷ at 14 ∷ at 15 ∷ []);
    }

abbrev pub reversed : Text → Text
reversed [] = []
reversed (b ∷ bs) = reversed bs ++ b ∷ []

-- `boost::endian::native_to_big` and `big_to_native` of a uint32_t on a little-endian machine.
pub swap32 : ℕ → ℕ
swap32 n = from_le (reversed (le_bytes 4 n))

abbrev quoted : Text → Text
quoted s = b'"' ∷ s ++ codes "\"\n"

-- The payload's template.
pub request_payload : (service_name method_name method_arg_type method_arg : Text) → Text
request_payload service_name method_name method_arg_type method_arg =
    codes "\"2.0.1\"\n"
    ++ quoted service_name
    ++ codes "null\n"
    ++ quoted method_name
    ++ quoted method_arg_type
    ++ quoted method_arg
    ++ codes "{\"path\":\""
    ++ service_name
    ++ codes "\"}\n"

pub request_header : ℕ → Text → DubboHeader
request_header id payload = record {
  magic = 48090;
  serialization_id = 6;
  is_event = 0;
  need_return = 1;
  is_request = 1;
  status = 0;
  request_id = id;
  data_length = swap32 (length payload % 2 ^ 32);
}

-- What the client does outside, in order.
pub data Io : Type 0 where
  borrowed released : Io
  wrote : Text → Io

-- `incoming` are the bytes that the server sends over the connection.
pub record Client : Type 0 where
  pub curr_request_id : ℕ
  pub incoming : Text
  pub log : List Io

-- The constructor: 0x1998427 is the first id.
pub new_client : Client
new_client = record { curr_request_id = 26838055; incoming = []; log = [] }

-- What the pool throws instead of a connection, if it does (an unfilled one connects while borrowing);
-- the errors of the two writes, if any, and the error of a read that the server's bytes do not fill.
pub record Server : Type 0 where
  pub borrow_error : Option Exception
  pub header_ec : Option String
  pub payload_ec : Option String
  pub read_ec : String

-- `request_result_t`; the type is kept as the 32 bits of an int.
pub record RequestResultT : Type 0 where
  pub status : ℕ
  pub result_type : ℕ
  pub value : Text

abbrev pub act : Io → Cmd Client (Unit {0})
act io = modify (λ s. record s { log = s.log ++ io ∷ [] })

abbrev pub first : ℕ → Text → Text
first zero s = []
first (suc n) [] = []
first (suc n) (c ∷ s) = c ∷ first n s

abbrev pub behind : ℕ → Text → Text
behind zero s = s
behind (suc n) [] = []
behind (suc n) (c ∷ s) = behind n s

pub check_write : Option String → Cmd Client (Unit {0})
check_write none = pure tt
check_write (some message) = throw (runtime_error message)

-- boost's async_read into a buffer of `n` bytes: all of them or an error.
pub read_all : String → ℕ → Cmd Client Text
read_all ec n s =
    if ltb (length s.incoming) n
    then thrown (runtime_error ec) (record s { incoming = [] })
    else ok (first n s.incoming) (record s { incoming = behind n s.incoming })

abbrev pub too_long : Exception
too_long =
    runtime_error "Dubbo server says the payload length is >1GiB. It's dangerous so I rejected."

abbrev pub wrong_magic : Exception
wrong_magic = runtime_error "dubbo_client.hpp:Dubbo returns wrong magic."

abbrev pub invalid_array : Exception
invalid_array = runtime_error "dubbo_client: Got invalid payload array"

-- The result, from the parts of the response's payload.
pub result_of : (Text → Except ℕ) → ℕ → List Text → Except RequestResultT
result_of as_int status (t ∷ v ∷ x ∷ []) = elim (as_int t) [
  | failure e ↦ failure e
  | success n ↦ success (record { status = status; result_type = n; value = v })
]
result_of as_int status _ = failure invalid_array

pub raised : {A : Type 0} → Except A → Cmd Client A
raised (success a) = pure a
raised (failure e) = throw e

-- From the response's header on.
pub read_result : Rlib → (Text → Except ℕ) → String → DubboHeader → Cmd Client RequestResultT
read_result rlib as_int ec header =
    if ltb (1024 * 1024 * 1024) (swap32 header.data_length) then throw too_long else (do
      payload ← read_all ec (swap32 header.data_length)
      if header.magic == 48090
          then raised (result_of as_int header.status (rlib.split payload b'\n'))
          else throw wrong_magic)

-- What both requests do over their connection.
pub talk : Rlib → (Text → Except ℕ) → Server → DubboHeader → Text → Cmd Client RequestResultT
talk rlib as_int server header payload = do
  act (wrote (header_bytes header))
  check_write server.header_ec
  act (wrote payload)
  check_write server.payload_ec
  response ← read_all server.read_ec 16
  read_result rlib as_int server.read_ec (header_of response)

-- `header.request_id = curr_request_id; ... curr_request_id += 1;`
pub take_request_id : Cmd Client ℕ
take_request_id s =
    ok s.curr_request_id (record s { curr_request_id = (s.curr_request_id + 1) % 2 ^ 64 })

-- `pconns->borrow_one`; what it throws comes before there is anything to release.
pub borrow_conn : Option Exception → Cmd Client (Unit {0})
borrow_conn none = act borrowed
borrow_conn (some e) = throw e

-- `rlib_defer`: the connection is released when the block is left, by a throw too.
pub releasing : {A : Type 0} → Run Client A → Run Client A
releasing (ok a s) = ok a (record s { log = s.log ++ released ∷ [] })
releasing (thrown e s) = thrown e (record s { log = s.log ++ released ∷ [] })
releasing fault = fault
releasing out_of_fuel = out_of_fuel

pub async_request :
    Rlib
    → (Text → Except ℕ)
    → Server
    → (service_name method_name method_arg_type method_arg : Text) → Cmd Client RequestResultT
async_request rlib as_int server service_name method_name method_arg_type method_arg = do
  let payload = request_payload service_name method_name method_arg_type method_arg
  id ← take_request_id
  borrow_conn server.borrow_error
  (λ s. releasing (talk rlib as_int server (request_header id payload) payload s))

-- Deprecated; over a connection of its own. boost throws a write's or a read's error itself, as a
-- std::runtime_error.
pub sync_request :
    Rlib
    → (Text → Except ℕ)
    → Server
    → (service_name method_name method_arg_type method_arg : Text) → Cmd Client RequestResultT
sync_request rlib as_int server service_name method_name method_arg_type method_arg = do
  let payload = request_payload service_name method_name method_arg_type method_arg
  id ← take_request_id
  talk rlib as_int server (request_header id payload) payload
