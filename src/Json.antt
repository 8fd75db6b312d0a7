-- ===== src/Json.antt =====
-- lib/json_serializer.hpp, class json_serializer: lists of keys and values as JSON objects.
pub mod Object
pub mod RoundTrip
mod Tests
use ali_middleware.Common.{ℕ, zero, suc, ◌-◌, List, [], ◌∷◌, ◌++◌, length, if◌then◌else◌}
use ali_middleware.Common.Except.{Except, success}
use ali_middleware.Common.Text.{Text, codes, is_empty}

-- `kv_list_t`
abbrev pub KvList : Type 0
KvList = List (Text × Text)

-- `"\"{}\":\"{}\",\n"_format(kv.first, kv.second)`
pub format_kv : Text × Text → Text
format_kv (k, v) = b'"' ∷ (k ++ (b'"' ∷ b':' ∷ b'"' ∷ (v ++ (b'"' ∷ b',' ∷ b'\n' ∷ []))))

-- The loop, behind what is there.
pub add_all : Text → KvList → Text
add_all result [] = result
add_all result (kv ∷ kvs) = add_all (result ++ format_kv kv) kvs

-- `result[i] = c`, within the text.
pub set_char : ℕ → ℕ → Text → Text
set_char i c [] = []
set_char zero c (b ∷ s) = c ∷ s
set_char (suc i) c (b ∷ s) = b ∷ set_char i c s

pub serialize : KvList → Text
serialize [] = codes "{}"
serialize (kv ∷ kvs) =
    let result = add_all (codes "{\n") (kv ∷ kvs) in
    set_char (length result - 1) b'}' (set_char (length result - 2) b'\n' result)

-- boost's `read_json` gives the object's children, each with its text; `get_value` of a text is it.
pub deserialize : (Text → Except KvList) → Text → Except KvList
deserialize read_json json = if is_empty json then success [] else read_json json
