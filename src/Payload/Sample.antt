-- ===== src/Payload/Sample.antt =====
-- A request's body and its arguments (src/provider_selector.hpp), for the examples.
use ali_middleware.Common.{◌≡◌, refl}
use ali_middleware.Common.Except.{success}
use ali_middleware.Common.ExampleRlib.{example_rlib}
use ali_middleware.Common.Text.{Text, codes}
use ali_middleware.Payload.{
  DubboRpcArgs, http_payload_to_dubbo_parameters, take_all, take_kv_str, assign, unescape,
  check_all,
}

abbrev pub sample_body : Text
sample_body = codes "interface=I&method=hash&parameterTypesString=S&parameter=x"

abbrev pub sample_args : DubboRpcArgs
sample_args = record {
  interface = codes "I";
  method = codes "hash";
  parameter_types_string = codes "S";
  parameter = codes "x";
}

pub sample_args-parsed :
    http_payload_to_dubbo_parameters example_rlib sample_body ≡ success sample_args
unfolding http_payload_to_dubbo_parameters take_all take_kv_str assign unescape check_all
sample_args-parsed = refl
