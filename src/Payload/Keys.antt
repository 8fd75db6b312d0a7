-- ===== src/Payload/Keys.antt =====
-- What one entry of the body (src/provider_selector.hpp, http_payload_to_dubbo_parameters) does to
-- each of the four arguments.
use ali_middleware.Common.{
  suc, ◌≡◌, refl, ◌∙◌, inl, inr, true, false, Bool-cases, Option-cases, Option, none, some, List,
  [], ◌∷◌, if◌then◌else◌,
}
use ali_middleware.Common.Text.{Text, codes, text_eq, eq_of_text_eq}
use ali_middleware.Payload.{
  DubboRpcArgs, find, substr_to, substr_from, assign, take_kv_str, take_all,
}

pub data Key : Type 0 where
  interface method parameter_types_string parameter : Key

abbrev pub name : Key → Text
name interface = codes "interface"
name method = codes "method"
name parameter_types_string = codes "parameterTypesString"
name parameter = codes "parameter"

abbrev pub get : Key → DubboRpcArgs → Text
get interface args = args.interface
get method args = args.method
get parameter_types_string args = args.parameter_types_string
get parameter args = args.parameter

abbrev AssignsKey : Text → Text → DubboRpcArgs → Key → Type 0
AssignsKey key val args k =
    get k (assign key val args) ≡ (if text_eq key (name k) then val else get k args)

assign-name : (k j : Key) (val : Text) (args : DubboRpcArgs) → AssignsKey (name k) val args j
unfolding assign
assign-name interface j val args = elim j as (λ i. AssignsKey (name interface) val args i) [
  | interface ↦ refl
  | method ↦ refl
  | parameter_types_string ↦ refl
  | parameter ↦ refl
]
assign-name method j val args = elim j as (λ i. AssignsKey (name method) val args i) [
  | interface ↦ refl
  | method ↦ refl
  | parameter_types_string ↦ refl
  | parameter ↦ refl
]
assign-name parameter_types_string j val args =
    elim j as (λ i. AssignsKey (name parameter_types_string) val args i) [
      | interface ↦ refl
      | method ↦ refl
      | parameter_types_string ↦ refl
      | parameter ↦ refl
    ]
assign-name parameter j val args = elim j as (λ i. AssignsKey (name parameter) val args i) [
  | interface ↦ refl
  | method ↦ refl
  | parameter_types_string ↦ refl
  | parameter ↦ refl
]

assign-at :
    (key : Text) (k j : Key) (val : Text) (args : DubboRpcArgs)
    → text_eq key (name k) ≡ true
    → AssignsKey key val args j
assign-at key k j val args e = rw (eq_of_text_eq key (name k) e) (assign-name k j val args)

assign-other :
    (key : Text) (j : Key) (val : Text) (args : DubboRpcArgs)
    → ((k : Key) → text_eq key (name k) ≡ false)
    → AssignsKey key val args j
unfolding assign
assign-other key j val args ne =
    rw (ne interface, ne method, ne parameter_types_string, ne parameter, ne j) refl

-- `assign` changes the argument of its key and no other.
pub assign-get :
    (key : Text) (j : Key) (val : Text) (args : DubboRpcArgs) → AssignsKey key val args j
assign-get key j val args = elim (Bool-cases (text_eq key (name interface))) [
  | inl e ↦ assign-at key interface j val args e
  | inr n₁ ↦ elim (Bool-cases (text_eq key (name method))) [
    | inl e ↦ assign-at key method j val args e
    | inr n₂ ↦ elim (Bool-cases (text_eq key (name parameter_types_string))) [
      | inl e ↦ assign-at key parameter_types_string j val args e
      | inr n₃ ↦ elim (Bool-cases (text_eq key (name parameter))) [
        | inl e ↦ assign-at key parameter j val args e
        | inr n₄ ↦ assign-other key j val args (λ k. elim k as (λ i. text_eq key (name i) ≡ false) [
          | interface ↦ n₁
          | method ↦ n₂
          | parameter_types_string ↦ n₃
          | parameter ↦ n₄
        ])
      ]
    ]
  ]
]

-- The value that an entry gives a key.
abbrev pub value_in : Key → Text → Option Text
value_in k kv_str = elim (find b'=' kv_str) [
  | none ↦ none
  | some pos ↦
      if text_eq (substr_to pos kv_str) (name k) then some (substr_from (suc pos) kv_str) else none
]

-- The last value that the entries give a key.
abbrev pub last_value : Key → List Text → Option Text
last_value k [] = none
last_value k (kv_str ∷ rest) =
    let later = last_value k rest in elim later [ none ↦ value_in k kv_str | some v ↦ some v ]

abbrev pub or_else : Text → Option Text → Text
or_else d none = d
or_else d (some v) = v

take_kv_str-get :
    (kv_str : Text) (k : Key) (args : DubboRpcArgs)
    → get k (take_kv_str kv_str args) ≡ or_else (get k args) (value_in k kv_str)
unfolding take_kv_str
take_kv_str-get kv_str k args = elim (Option-cases (find b'=' kv_str)) [
  | inl e ↦ rw (e, take_kv_str, value_in) refl
  | inr (pos, e) ↦
      let a = assign-get (substr_to pos kv_str) k (substr_from (suc pos) kv_str) args in
      elim (Bool-cases (text_eq (substr_to pos kv_str) (name k))) [
        | inl same ↦ rw (e, take_kv_str, value_in) (rw same (rw same at a))
        | inr other ↦ rw (e, take_kv_str, value_in) (rw other (rw other at a))
      ]
]

-- Behind the loop, an argument has the last value that an entry gives its key, and is unchanged where
-- none does.
pub take_all-get :
    (entries : List Text) (k : Key) (args : DubboRpcArgs)
    → get k (take_all entries args) ≡ or_else (get k args) (last_value k entries)
unfolding take_all
take_all-get [] k args = refl
take_all-get (kv_str ∷ rest) k args =
    take_all-get rest k (take_kv_str kv_str args) ∙ (elim (Option-cases (last_value k rest)) [
      | inl e ↦ rw e (take_kv_str-get kv_str k args)
      | inr (v, e) ↦ rw e refl
    ])
