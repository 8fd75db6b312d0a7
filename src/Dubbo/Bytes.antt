-- ===== src/Dubbo/Bytes.antt =====
-- The bytes of the packed header of lib/dubbo_client.hpp.
use ali_middleware.Common.{
  ℕ, zero, suc, ◌+◌, ◌*◌, ◌/◌, ◌%◌, ◌^◌, ◌<◌, ◌≡◌, refl, ◌∙◌, ap, [], ◌∷◌, ◌++◌, arith, length,
}
use ali_middleware.Common.Text.{Text}
use ali_middleware.Dubbo.{
  DubboHeader, le_bytes, from_le, flags_byte, header_bytes, header_of, reversed, swap32,
  request_header,
}

abbrev pub limit : ℕ → ℕ
limit zero = 1
limit (suc k) = 256 * limit k

from_le-le_bytes : (k n : ℕ) → n < limit k → from_le (le_bytes k n) ≡ n
from_le-le_bytes zero n lt = omega arith
from_le-le_bytes (suc k) n lt =
    let rest = from_le-le_bytes k (n / 256) (omega arith) in omega (arith, rest)

-- Every member fits its width.
pub record IsInRange (h : DubboHeader) : Type 0 where
  pub magic : h.magic < 2 ^ 16
  pub serialization_id : h.serialization_id < 2 ^ 5
  pub is_event : h.is_event < 2
  pub need_return : h.need_return < 2
  pub is_request : h.is_request < 2
  pub status : h.status < 2 ^ 8
  pub request_id : h.request_id < 2 ^ 64
  pub data_length : h.data_length < 2 ^ 32

-- A header whose members fit their widths is read back from its sixteen bytes.
pub header_of-header_bytes : (h : DubboHeader) → IsInRange h → header_of (header_bytes h) ≡ h
unfolding header_of header_bytes
header_of-header_bytes h r =
    let ser : flags_byte h % 32 ≡ h.serialization_id = omega (arith, r.serialization_id) in
    let event : flags_byte h / 32 % 2 ≡ h.is_event =
      omega (arith, r.serialization_id, r.is_event) in
    let need : flags_byte h / 64 % 2 ≡ h.need_return =
      omega (arith, r.serialization_id, r.is_event, r.need_return) in
    let req : flags_byte h / 128 % 2 ≡ h.is_request =
      omega (arith, r.serialization_id, r.is_event, r.need_return, r.is_request) in
    λ i. record {
      magic = from_le-le_bytes 2 h.magic r.magic i;
      serialization_id = ser i;
      is_event = event i;
      need_return = need i;
      is_request = req i;
      status = h.status;
      request_id = from_le-le_bytes 8 h.request_id r.request_id i;
      data_length = from_le-le_bytes 4 h.data_length r.data_length i;
    }

-- The bytes of a number, the highest first.
abbrev pub be_bytes : ℕ → ℕ → Text
be_bytes k n = reversed (le_bytes k n)

abbrev pub IsBytes : Text → Type 0
IsBytes [] = Unit
IsBytes (b ∷ bs) = (b < 256) × IsBytes bs

pub le_bytes-from_le : (bs : Text) → IsBytes bs → le_bytes (length bs) (from_le bs) ≡ bs
le_bytes-from_le [] h = refl
le_bytes-from_le (b ∷ bs) (lt, h) =
    let low : (b + 256 * from_le bs) % 256 ≡ b = omega arith in
    let high : (b + 256 * from_le bs) / 256 ≡ from_le bs = omega arith in
    rw (low, high) (ap (λ l. b ∷ l) (le_bytes-from_le bs h))

pub mod_lt : (n : ℕ) → n % 256 < 256
mod_lt n = omega arith

pub from_le-lt : (bs : Text) → IsBytes bs → from_le bs < limit (length bs)
from_le-lt [] h = omega arith
from_le-lt (b ∷ bs) (lt, h) = omega (arith, from_le-lt bs h)

IsBytes-be : (n : ℕ) → IsBytes (be_bytes 4 n)
IsBytes-be n = (mod_lt _, (mod_lt _, (mod_lt _, (mod_lt _, tt))))

pub swap32-lt : (n : ℕ) → swap32 n < 2 ^ 32
unfolding swap32
swap32-lt n = from_le-lt (be_bytes 4 n) (IsBytes-be n)

pub le_bytes-swap32 : (n : ℕ) → le_bytes 4 (swap32 n) ≡ be_bytes 4 n
unfolding swap32
le_bytes-swap32 n = le_bytes-from_le (be_bytes 4 n) (IsBytes-be n)

-- Swapping the bytes twice gives the number back.
pub swap32-swap32 : (n : ℕ) → n < 2 ^ 32 → swap32 (swap32 n) ≡ n
unfolding swap32
swap32-swap32 n lt =
    ap (λ l. from_le (reversed l)) (le_bytes-from_le (be_bytes 4 n) (IsBytes-be n))
    ∙ from_le-le_bytes 4 n lt

-- The header of a request is sent as the dubbo protocol has it: the magic number's high byte first,
-- the byte of a two-way request in JSON, no status, the request id, and the payload's length modulo
-- 2^32 with the highest byte first. The receiver reads the members back from these bytes.
pub request_header-bytes :
    (id : ℕ) (payload : Text)
    → id < 2 ^ 64
    → (header_bytes (request_header id payload)
        ≡ 218 ∷ 187 ∷ 198 ∷ 0 ∷ (le_bytes 8 id ++ be_bytes 4 (length payload % 2 ^ 32)))
      × (header_of (header_bytes (request_header id payload)) ≡ request_header id payload)
unfolding request_header header_bytes
request_header-bytes id payload lt = (
  ap (λ l. 218 ∷ 187 ∷ 198 ∷ 0 ∷ (le_bytes 8 id ++ l)) (le_bytes-swap32 (length payload % 2 ^ 32)),
  header_of-header_bytes (request_header id payload) (record {
    magic = omega arith;
    serialization_id = omega arith;
    is_event = omega arith;
    need_return = omega arith;
    is_request = omega arith;
    status = omega arith;
    request_id = lt;
    data_length = swap32-lt _;
  }),
)
