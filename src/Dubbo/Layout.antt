-- ===== src/Dubbo/Layout.antt =====
-- The packed header of lib/dubbo_client.hpp and its sixteen bytes in memory: neither holds anything
-- that the other does not.
use ali_middleware.Common.{
  ℕ, zero, suc, ◌+◌, ◌*◌, ◌/◌, ◌%◌, ◌<◌, ◌≡◌, refl, sym, ◌∙◌, ap, [], ◌∷◌, ◌++◌, arith, length,
}
use mathlib.Core.Equiv.{IsEquiv, iso_to_equiv}
use native.Mathlib.Bridge.{le_prop}
use native.Mathlib.Nat.{ℕ_set}
use mathlib.Core.HLevel.{Σ_prop_path}
use ali_middleware.Common.Text.{Text}
use ali_middleware.Dubbo.{DubboHeader, le_bytes, header_bytes, byte_at, header_of}
use ali_middleware.Dubbo.Bytes.{
  IsInRange, header_of-header_bytes, IsBytes, le_bytes-from_le, from_le-lt, mod_lt,
}

-- The first `k` bytes of a memory that is given byte by byte.
abbrev listed : ℕ → (ℕ → ℕ) → Text
listed zero at = []
listed (suc k) at = at 0 ∷ listed k (λ i. at (suc i))

listed-byte_at : (m : Text) → listed (length m) (λ i. byte_at i m) ≡ m
listed-byte_at [] = refl
listed-byte_at (b ∷ m) = ap (λ l. b ∷ l) (listed-byte_at m)

byte_at-lt : (m : Text) (i : ℕ) → IsBytes m → byte_at i m < 256
byte_at-lt [] i h = omega arith
byte_at-lt (b ∷ m) zero (lt, h) = lt
byte_at-lt (b ∷ m) (suc i) (lt, h) = byte_at-lt m i h

-- The bit-fields of a byte make up the byte.
bit_fields :
    (b : ℕ) → b < 256 → b % 32 + 32 * (b / 32 % 2) + 64 * (b / 64 % 2) + 128 * (b / 128 % 2) ≡ b
bit_fields b lt = omega arith

IsBytes-le : (k n : ℕ) → IsBytes (le_bytes k n)
IsBytes-le zero n = tt
IsBytes-le (suc k) n = (mod_lt n, IsBytes-le k (n / 256))

IsBytes-append : (m l : Text) → IsBytes m → IsBytes l → IsBytes (m ++ l)
IsBytes-append [] l h g = g
IsBytes-append (b ∷ m) l (lt, h) g = (lt, IsBytes-append m l h g)

-- Sixteen bytes of memory.
pub record IsPacked (m : Text) : Type 0 where
  pub size : length m ≡ 16
  pub bytes : IsBytes m

pub header_bytes-IsPacked : (h : DubboHeader) → IsInRange h → IsPacked (header_bytes h)
unfolding header_bytes
header_bytes-IsPacked h r = record {
  size = refl;
  bytes = (
    mod_lt _,
    (
      mod_lt _,
      (
        omega (arith, r.serialization_id, r.is_event, r.need_return, r.is_request),
        (
          r.status,
          IsBytes-append (le_bytes 8 h.request_id) (le_bytes 4 h.data_length)
              (IsBytes-le 8 h.request_id) (IsBytes-le 4 h.data_length),
        ),
      ),
    ),
  );
}

module _ (m : Text) (p : IsPacked m) where
  abbrev at : ℕ → ℕ
  at i = byte_at i m

  pub header_of-IsInRange : IsInRange (header_of m)
  unfolding header_of
  header_of-IsInRange =
      let lt : (i : ℕ) → byte_at i m < 256 = λ i. byte_at-lt m i p.bytes in
      record {
        magic = from_le-lt (_ ∷ _ ∷ []) (lt 0, (lt 1, tt));
        serialization_id = omega arith;
        is_event = omega arith;
        need_return = omega arith;
        is_request = omega arith;
        status = lt 3;
        request_id =
            from_le-lt (_ ∷ _ ∷ _ ∷ _ ∷ _ ∷ _ ∷ _ ∷ _ ∷ [])
              (lt 4, (lt 5, (lt 6, (lt 7, (lt 8, (lt 9, (lt 10, (lt 11, tt))))))));
        data_length = from_le-lt (_ ∷ _ ∷ _ ∷ _ ∷ []) (lt 12, (lt 13, (lt 14, (lt 15, tt))));
      }

  header_bytes-listed : header_bytes (header_of m) ≡ listed 16 at
  unfolding header_of header_bytes
  header_bytes-listed =
      let lt : (i : ℕ) → byte_at i m < 256 = λ i. byte_at-lt m i p.bytes in
      λ i.
        le_bytes-from_le (at 0 ∷ at 1 ∷ []) (lt 0, (lt 1, tt)) i
        ++ bit_fields (at 2) (lt 2) i
          ∷ at 3
          ∷ (le_bytes-from_le (at 4 ∷ at 5 ∷ at 6 ∷ at 7 ∷ at 8 ∷ at 9 ∷ at 10 ∷ at 11 ∷ [])
                (lt 4, (lt 5, (lt 6, (lt 7, (lt 8, (lt 9, (lt 10, (lt 11, tt)))))))) i
              ++ le_bytes-from_le (at 12 ∷ at 13 ∷ at 14 ∷ at 15 ∷ [])
                  (lt 12, (lt 13, (lt 14, (lt 15, tt)))) i)

  header_bytes-header_of : header_bytes (header_of m) ≡ m
  header_bytes-header_of =
      header_bytes-listed ∙ ap (λ k. listed k at) (sym p.size) ∙ listed-byte_at m

IsInRange-prop : (h : DubboHeader) → IsProp (IsInRange h)
IsInRange-prop h = hlevel le_prop

IsBytes-prop : (m : Text) → IsProp (IsBytes m)
IsBytes-prop [] = hlevel
IsBytes-prop (b ∷ m) = hlevel (le_prop, IsBytes-prop m)

IsPacked-prop : (m : Text) → IsProp (IsPacked m)
IsPacked-prop m = hlevel (IsBytes-prop, ℕ_set)

-- The values that the struct can hold, and the memories of its size.
abbrev pub Header : Type 0
Header = (h : DubboHeader) × IsInRange h

abbrev pub Memory : Type 0
Memory = (m : Text) × IsPacked m

-- The struct as the sixteen bytes that are sent.
abbrev pub pack : Header → Memory
pack (h, r) = (header_bytes h, header_bytes-IsPacked h r)

-- A read of sixteen bytes over the struct.
abbrev unpack : Memory → Header
unpack (m, p) = (header_of m, header_of-IsInRange m p)

-- Sending the packed header and reading sixteen bytes over it are inverse to each other: the values
-- of the struct's members, each within its width, are equivalent to the sixteen-byte memories.
pub pack-IsEquiv : IsEquiv pack
pack-IsEquiv =
    (iso_to_equiv (record {
      fun = pack;
      inv = unpack;
      rinv = λ (m, p). Σ_prop_path IsPacked-prop (header_bytes-header_of m p);
      linv = λ (h, r). Σ_prop_path IsInRange-prop (header_of-header_bytes h r);
    })).1
