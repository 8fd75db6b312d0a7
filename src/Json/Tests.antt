-- ===== src/Json/Tests.antt =====
-- A reader of JSON objects that takes what stands in quotes, and a list that goes through
-- lib/json_serializer.hpp and back.
use ali_middleware.Common.{
  All, true, false, ◌==◌, ◌≡◌, ◌∙◌, ap, sym, refl, List, [], ◌∷◌, ◌++◌, Option, none, some,
  append_assoc, append-nil, arith, if◌then◌else◌,
}
use ali_middleware.Common.Except.{Except, success}
use ali_middleware.Common.Text.{Text, codes}
use ali_middleware.Json.{KvList, serialize, deserialize}
use ali_middleware.Json.Object.{Member, member_text, members_text}
use ali_middleware.Json.RoundTrip.{
  is_plain, is_blank, IsPlainMember, pairs, ReadsJson, serialize-deserialize,
}

-- The texts in quotes, from outside of one or behind the beginning of one.
scan : Option Text → Text → List Text
scan none [] = []
scan none (c ∷ s) = scan (if c == b'"' then some [] else none) s
scan (some acc) [] = []
scan (some acc) (c ∷ s) =
    let inside = scan (some (acc ++ c ∷ [])) s in
    let outside = acc ∷ scan none s in if c == b'"' then outside else inside

pair_up : List Text → KvList
pair_up [] = []
pair_up (k ∷ []) = []
pair_up (k ∷ v ∷ ts) = (k, v) ∷ pair_up ts

read_quotes : Text → Except KvList
read_quotes json = success (pair_up (scan none json))

scan-blank : (w s : Text) → is_blank w ≡ true → scan none (w ++ s) ≡ scan none s
unfolding scan
scan-blank [] s e = refl
scan-blank (c ∷ w) s e =
    let here : (c == b'"') ≡ false = ground (arith, e) in
    let rest : is_blank w ≡ true = ground (arith, e) in rw (here, scan) (scan-blank w s rest)

scan-plain :
    (k acc s : Text)
    → is_plain k ≡ true
    → scan (some acc) (k ++ (b'"' ∷ s)) ≡ (acc ++ k) ∷ scan none s
unfolding scan
scan-plain [] acc s e = ap (λ a. a ∷ scan none s) (sym (append-nil acc))
scan-plain (c ∷ k) acc s e =
    let here : (c == b'"') ≡ false = ground (arith, e) in
    let rest : is_plain k ≡ true = ground (arith, e) in
    rw here (
      scan-plain k (acc ++ c ∷ []) s rest ∙ ap (λ a. a ∷ scan none s) (append_assoc acc (c ∷ []) k))

scan-member :
    (m : Member) (s : Text)
    → IsPlainMember m
    → scan none (member_text m s) ≡ m.key ∷ m.value ∷ scan none s
unfolding scan
scan-member m s (before, key, value, after) =
    scan-blank m.before _ before
    ∙ scan-plain m.key [] _ key
    ∙ ap (λ t. m.key ∷ t) (scan-plain m.value [] _ value)
    ∙ ap (λ t. m.key ∷ m.value ∷ t) (scan-blank m.after s after)

scan-members :
    (m : Member) (ms : List Member)
    → All IsPlainMember (m ∷ ms)
    → pair_up (scan none (members_text m ms)) ≡ pairs (m ∷ ms)
unfolding scan pair_up
scan-members m [] (h, hs) = ap pair_up (scan-member m (b'}' ∷ []) h)
scan-members m (m' ∷ ms) (h, hs) =
    ap pair_up (scan-member m (b',' ∷ members_text m' ms) h)
    ∙ ap (λ l. (m.key, m.value) ∷ l) (scan-members m' ms hs)

read_quotes-ReadsJson : ReadsJson read_quotes
unfolding read_quotes scan pair_up
read_quotes-ReadsJson = record {
  empty_object = refl;
  object = λ m ms h. ap success (scan-members m ms h);
}

abbrev names : KvList
names = (codes "firstName", codes "Recolic") ∷ (codes "lastName", codes "Keghart") ∷ []

serialize-deserialize_example : deserialize read_quotes (serialize names) ≡ success names
serialize-deserialize_example =
    serialize-deserialize read_quotes read_quotes-ReadsJson names ((refl, refl), ((refl, refl), tt))
