-- ===== src/Payload.antt =====
-- src/provider_selector.hpp, http_payload_to_dubbo_parameters: from the body of a request to the
-- arguments of a call. src/provider_agent.cc, handle_request has the same code once more.
pub mod Keys
pub mod Parse
pub mod Sample
mod Tests
use ali_middleware.Common.{ℕ, zero, suc, Option, none, some, List, [], ◌∷◌, ◌==◌, if◌then◌else◌}
use ali_middleware.Common.Except.{Except, success, failure}
use ali_middleware.Common.Rlib.{Rlib}
use ali_middleware.Common.Run.{Exception, runtime_error}
use ali_middleware.Common.Text.{Text, codes, text_eq, is_empty}

-- `dubbo_rpc_args`, by position.
pub record DubboRpcArgs : Type 0 where
  pub interface : Text
  pub method : Text
  pub parameter_types_string : Text
  pub parameter : Text

abbrev pub no_args : DubboRpcArgs
no_args = record { interface = []; method = []; parameter_types_string = []; parameter = [] }

abbrev pub not_provided : Exception
not_provided = runtime_error "Required http argument not provided."

-- std::string::find of a character, and substr up to a position and from one.
abbrev pub find : ℕ → Text → Option ℕ
find b [] = none
find b (c ∷ s) =
    let rest = find b s in
    if c == b then some 0 else elim rest [ none ↦ none | some n ↦ some (suc n) ]

abbrev pub substr_to : ℕ → Text → Text
substr_to zero s = []
substr_to (suc n) [] = []
substr_to (suc n) (c ∷ s) = c ∷ substr_to n s

abbrev pub substr_from : ℕ → Text → Text
substr_from zero s = s
substr_from (suc n) [] = []
substr_from (suc n) (c ∷ s) = substr_from n s

-- The chain of tests on the key; an unknown key is logged alone.
pub assign : Text → Text → DubboRpcArgs → DubboRpcArgs
assign key val args =
    if text_eq key (codes "interface")
    then record args { interface = val }
    else if text_eq key (codes "method")
    then record args { method = val }
    else if text_eq key (codes "parameterTypesString")
    then record args { parameter_types_string = val }
    else if text_eq key (codes "parameter")
    then record args { parameter = val }
    else args

-- One round of the loop; an entry without '=' is skipped.
pub take_kv_str : Text → DubboRpcArgs → DubboRpcArgs
take_kv_str kv_str args = elim (find b'=' kv_str) [
  | none ↦ args
  | some pos ↦ assign (substr_to pos kv_str) (substr_from (suc pos) kv_str) args
]

pub take_all : List Text → DubboRpcArgs → DubboRpcArgs
take_all [] args = args
take_all (kv_str ∷ rest) args = take_all rest (take_kv_str kv_str args)

pub unescape : Rlib → Text → Text
unescape rlib s = rlib.replace (rlib.replace s (codes "%2F") (codes "/")) (codes "%3B") (codes ";")

-- The loop over the four arguments.
pub check_all : List Text → DubboRpcArgs → Except DubboRpcArgs
check_all [] args = success args
check_all (s ∷ ss) args = if is_empty s then failure not_provided else check_all ss args

pub http_payload_to_dubbo_parameters : Rlib → Text → Except DubboRpcArgs
http_payload_to_dubbo_parameters rlib text =
    let args = take_all (rlib.split_at text (codes "&")) no_args in
    let types = unescape rlib args.parameter_types_string in
    check_all (args.interface ∷ args.method ∷ types ∷ args.parameter ∷ [])
      (record args { parameter_types_string = types })
