-- ===== src/Json/RoundTrip.antt =====
-- `deserialize` behind `serialize` (lib/json_serializer.hpp), for any reader of JSON objects in the
-- place of boost's `read_json`.
use ali_middleware.Common.{
  All, ℕ, Bool, true, ◌&&◌, ◌||◌, not, ltb, ◌==◌, ◌≡◌, ◌∙◌, ap, refl, List, [], ◌∷◌,
}
use ali_middleware.Common.Except.{Except, success}
use ali_middleware.Common.Text.{Text, codes}
use ali_middleware.Json.{KvList, serialize, deserialize}
use ali_middleware.Json.Object.{Member, object_text, first_line, more_lines, serialize-object}

-- Printable ASCII but the quote and the backslash: what stands for itself in a JSON string.
abbrev pub plain_char : ℕ → Bool
plain_char c = (ltb 31 c && ltb c 127) && (not (c == b'"') && not (c == b'\\'))

abbrev pub is_plain : Text → Bool
is_plain [] = true
is_plain (c ∷ s) = plain_char c && is_plain s

-- Newlines and spaces.
abbrev pub is_blank : Text → Bool
is_blank [] = true
is_blank (c ∷ s) = ((c == b'\n') || (c == b' ')) && is_blank s

abbrev pub IsPlainMember : Member → Type 0
IsPlainMember m =
    (is_blank m.before ≡ true)
    × (is_plain m.key ≡ true)
    × (is_plain m.value ≡ true)
    × (is_blank m.after ≡ true)

abbrev pub pairs : List Member → KvList
pairs [] = []
pairs (m ∷ ms) = (m.key, m.value) ∷ pairs ms

-- A reader of JSON: objects whose values are strings are read to their members in order, duplicates
-- included. Only strings without escapes are asked for, and blanks around a member.
pub record ReadsJson (read_json : Text → Except KvList) : Type 0 where
  pub empty_object : read_json (codes "{}") ≡ success []
  pub object :
      (m : Member) (ms : List Member)
      → All IsPlainMember (m ∷ ms)
      → read_json (object_text m ms) ≡ success (pairs (m ∷ ms))

abbrev pub IsPlainKv : Text × Text → Type 0
IsPlainKv (k, v) = (is_plain k ≡ true) × (is_plain v ≡ true)

first_line-IsPlain :
    (kv : Text × Text) (kvs : KvList) → IsPlainKv kv → IsPlainMember (first_line kv kvs)
first_line-IsPlain (k, v) [] (pk, pv) = (refl, pk, pv, refl)
first_line-IsPlain (k, v) (kv ∷ kvs) (pk, pv) = (refl, pk, pv, refl)

more_lines-IsPlain : (kvs : KvList) → All IsPlainKv kvs → All IsPlainMember (more_lines kvs)
more_lines-IsPlain [] h = tt
more_lines-IsPlain (kv ∷ kvs) (h, hs) = (first_line-IsPlain kv kvs h, more_lines-IsPlain kvs hs)

pairs-lines :
    (kv : Text × Text) (kvs : KvList) → pairs (first_line kv kvs ∷ more_lines kvs) ≡ kv ∷ kvs
pairs-lines (k, v) [] = refl
pairs-lines (k, v) (kv ∷ kvs) = ap (λ l. (k, v) ∷ l) (pairs-lines kv kvs)

-- With any reader of JSON objects of strings in the place of read_json, deserialize gives back a list
-- of plain keys and values that serialize wrote, in its order and with its duplicates.
pub serialize-deserialize :
    (read_json : Text → Except KvList)
    → ReadsJson read_json
    → (kvs : KvList) → All IsPlainKv kvs
    → deserialize read_json (serialize kvs) ≡ success kvs
unfolding serialize deserialize
serialize-deserialize read_json reads [] h = reads.empty_object
serialize-deserialize read_json reads (kv ∷ kvs) (h, hs) =
    ap (deserialize read_json) (serialize-object kv kvs)
    ∙ reads.object (first_line kv kvs) (more_lines kvs)
        (first_line-IsPlain kv kvs h, more_lines-IsPlain kvs hs)
    ∙ ap success (pairs-lines kv kvs)
