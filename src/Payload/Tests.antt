-- ===== src/Payload/Tests.antt =====
-- http_payload_to_dubbo_parameters (src/provider_selector.hpp) on bodies.
use ali_middleware.Common.{◌≡◌, refl, if◌then◌else◌}
use ali_middleware.Common.Except.{success, failure}
use ali_middleware.Common.ExampleRlib.{example_rlib}
use ali_middleware.Common.Text.{Text, codes}
use ali_middleware.Payload.{
  not_provided, assign, take_kv_str, take_all, unescape, check_all,
  http_payload_to_dubbo_parameters,
}
use ali_middleware.Payload.Parse.{expected_args, lacks_one, http_payload_to_dubbo_parameters-last}

abbrev body : Text
body = codes "interface=I&method=h&junk&parameterTypesString=Lj%2FS%3B&parameter=x=y&method=hash"

parse_body :
    http_payload_to_dubbo_parameters example_rlib body
    ≡ success (record {
      interface = codes "I";
      method = codes "hash";
      parameter_types_string = codes "Lj/S;";
      parameter = codes "x=y";
    })
unfolding http_payload_to_dubbo_parameters take_all take_kv_str assign unescape check_all
parse_body = refl

parse_short :
    http_payload_to_dubbo_parameters example_rlib (codes "interface=I&method=&parameter=x")
    ≡ failure not_provided
unfolding http_payload_to_dubbo_parameters take_all take_kv_str assign unescape check_all
parse_short = refl

http_payload_to_dubbo_parameters-last_example :
    http_payload_to_dubbo_parameters example_rlib body ≡ (
      if lacks_one (expected_args example_rlib body)
      then failure not_provided
      else success (expected_args example_rlib body))
http_payload_to_dubbo_parameters-last_example =
    http_payload_to_dubbo_parameters-last example_rlib body
