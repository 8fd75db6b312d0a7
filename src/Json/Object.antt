-- ===== src/Json/Object.antt =====
-- The text that `serialize` of lib/json_serializer.hpp makes, as a JSON object.
use ali_middleware.Common.{
  ℕ, suc, ◌+◌, ◌-◌, ◌≡◌, ◌∙◌, ap, sym, refl, arith, List, [], ◌∷◌, ◌++◌, length, length-append,
  append-nil, append_assoc, append_laws,
}
use ali_middleware.Common.Text.{Text, codes}
use ali_middleware.Json.{KvList, format_kv, add_all, set_char, serialize}

-- A member of an object, with the whitespace before its key and behind its value.
pub record Member : Type 0 where
  pub before : Text
  pub key : Text
  pub value : Text
  pub after : Text

-- `s` behind the member's text.
abbrev pub member_text : Member → Text → Text
member_text m s =
    m.before ++ (b'"' ∷ (m.key ++ (b'"' ∷ b':' ∷ b'"' ∷ (m.value ++ (b'"' ∷ (m.after ++ s))))))

-- A member and the rest of the members, to the closing brace.
abbrev pub members_text : Member → List Member → Text
members_text m [] = member_text m (b'}' ∷ [])
members_text m (m' ∷ ms) = member_text m (b',' ∷ members_text m' ms)

abbrev pub object_text : Member → List Member → Text
object_text m ms = b'{' ∷ members_text m ms

-- One member to a line.
abbrev pub line : Text × Text → Member
line (k, v) = record { before = b'\n' ∷ []; key = k; value = v; after = [] }

abbrev pub last_line : Text × Text → Member
last_line (k, v) = record { before = b'\n' ∷ []; key = k; value = v; after = b'\n' ∷ [] }

-- The members of a list that is not empty.
abbrev pub first_line : Text × Text → KvList → Member
first_line kv [] = last_line kv
first_line kv (kv' ∷ kvs) = line kv

abbrev pub more_lines : KvList → List Member
more_lines [] = []
more_lines (kv ∷ kvs) = first_line kv kvs ∷ more_lines kvs

-- A key and a value as they are written, and `s` behind them.
quoted : Text × Text → Text → Text
quoted (k, v) s = b'"' ∷ (k ++ (b'"' ∷ b':' ∷ b'"' ∷ (v ++ (b'"' ∷ s))))

-- All of them, with a comma and a newline between two.
joined : Text × Text → KvList → Text → Text
joined kv [] s = quoted kv s
joined kv (kv' ∷ kvs) s = quoted kv (b',' ∷ b'\n' ∷ joined kv' kvs s)

quoted-append : (kv : Text × Text) (s t : Text) → quoted kv s ++ t ≡ quoted kv (s ++ t)
unfolding quoted
quoted-append (k, v) s t = simp (append_laws)

format_kv-append : (kv : Text × Text) (t : Text) → format_kv kv ++ t ≡ quoted kv (b',' ∷ b'\n' ∷ t)
unfolding format_kv quoted
format_kv-append (k, v) t = quoted-append (k, v) (b',' ∷ b'\n' ∷ []) t

add_all-joined :
    (r : Text) (kv : Text × Text) (kvs : KvList)
    → add_all r (kv ∷ kvs) ≡ r ++ joined kv kvs (b',' ∷ b'\n' ∷ [])
unfolding add_all joined
add_all-joined r kv [] = ap (λ t. r ++ t) (sym (append-nil (format_kv kv)) ∙ format_kv-append kv [])
add_all-joined r kv (kv' ∷ kvs) =
    add_all-joined (r ++ format_kv kv) kv' kvs
    ∙ append_assoc r (format_kv kv) _
    ∙ ap (λ t. r ++ t) (format_kv-append kv (joined kv' kvs (b',' ∷ b'\n' ∷ [])))

joined-append :
    (kv : Text × Text) (kvs : KvList) (s : Text) → joined kv kvs s ≡ joined kv kvs [] ++ s
unfolding joined
joined-append kv [] s = sym (quoted-append kv [] s)
joined-append kv (kv' ∷ kvs) s =
    ap (λ t. quoted kv (b',' ∷ b'\n' ∷ t)) (joined-append kv' kvs s)
    ∙ sym (quoted-append kv (b',' ∷ b'\n' ∷ joined kv' kvs []) s)

joined-members :
    (kv : Text × Text) (kvs : KvList)
    → b'\n' ∷ joined kv kvs (b'\n' ∷ b'}' ∷ []) ≡ members_text (first_line kv kvs) (more_lines kvs)
unfolding joined quoted
joined-members (k, v) [] = refl
joined-members (k, v) (kv' ∷ kvs) =
    ap (λ t. b'\n' ∷ quoted (k, v) (b',' ∷ t)) (joined-members kv' kvs)

set_char-at : (xs : Text) (b c : ℕ) (s : Text) → set_char (length xs) c (xs ++ b ∷ s) ≡ xs ++ c ∷ s
unfolding set_char
set_char-at [] b c s = refl
set_char-at (x ∷ xs) b c s = ap (λ t. x ∷ t) (set_char-at xs b c s)

set_char-next :
    (xs : Text) (b c d : ℕ) (s : Text)
    → set_char (suc (length xs)) d (xs ++ b ∷ c ∷ s) ≡ xs ++ b ∷ d ∷ s
unfolding set_char
set_char-next [] b c d s = refl
set_char-next (x ∷ xs) b c d s = ap (λ t. x ∷ t) (set_char-next xs b c d s)

set_char-last_two :
    (xs r : Text) (a b c d : ℕ)
    → r ≡ xs ++ a ∷ b ∷ []
    → set_char (length r - 1) d (set_char (length r - 2) c r) ≡ xs ++ c ∷ d ∷ []
set_char-last_two xs r a b c d e =
    let size : length r ≡ length xs + 2 = ap length e ∙ length-append xs (a ∷ b ∷ []) in
    let one : length r - 1 ≡ suc (length xs) = omega arith in
    let two : length r - 2 ≡ length xs = omega arith in
    ap (λ n. set_char n d (set_char (length r - 2) c r)) one
    ∙ ap (λ n. set_char (suc (length xs)) d (set_char n c r)) two
    ∙ ap (λ t. set_char (suc (length xs)) d (set_char (length xs) c t)) e
    ∙ ap (set_char (suc (length xs)) d) (set_char-at xs a c (b ∷ []))
    ∙ set_char-next xs c b d []

pub serialize-object :
    (kv : Text × Text) (kvs : KvList)
    → serialize (kv ∷ kvs) ≡ object_text (first_line kv kvs) (more_lines kvs)
unfolding serialize
serialize-object kv kvs =
    let start : Text = codes "{\n" in
    let whole : add_all start (kv ∷ kvs) ≡ (start ++ joined kv kvs []) ++ b',' ∷ b'\n' ∷ [] =
      add_all-joined start kv kvs
      ∙ ap (λ t. start ++ t) (joined-append kv kvs (b',' ∷ b'\n' ∷ []))
      ∙ simp (append_laws) in
    set_char-last_two (start ++ joined kv kvs []) (add_all start (kv ∷ kvs)) b',' b'\n' b'\n' b'}'
      whole
    ∙ append_assoc start (joined kv kvs []) (b'\n' ∷ b'}' ∷ [])
    ∙ ap (λ t. start ++ t) (sym (joined-append kv kvs (b'\n' ∷ b'}' ∷ [])))
    ∙ ap (λ t. b'{' ∷ t) (joined-members kv kvs)
