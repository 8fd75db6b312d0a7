-- ===== src/Payload/Parse.antt =====
-- What http_payload_to_dubbo_parameters (src/provider_selector.hpp) returns, by key.
use ali_middleware.Common.{◌≡◌, Bool, [], ◌∷◌, ◌||◌, arith, if◌then◌else◌}
use ali_middleware.Common.Except.{success, failure}
use ali_middleware.Common.Rlib.{Rlib}
use ali_middleware.Common.Text.{Text, codes, is_empty}
use ali_middleware.Payload.{
  DubboRpcArgs, no_args, not_provided, unescape, check_all, take_all,
  http_payload_to_dubbo_parameters,
}
use ali_middleware.Payload.Keys.{
  Key, interface, method, parameter_types_string, parameter, last_value, or_else, take_all-get,
}

abbrev pub lacks_one : DubboRpcArgs → Bool
lacks_one args =
    is_empty args.interface
    || is_empty args.method
    || is_empty args.parameter_types_string
    || is_empty args.parameter

module _ (rlib : Rlib) (body : Text) where
  -- The last value that the body gives the key, and nothing where it gives none.
  abbrev pub value_of : Key → Text
  value_of k = or_else [] (last_value k (rlib.split_at body (codes "&")))

  abbrev pub expected_args : DubboRpcArgs
  expected_args = record {
    interface = value_of interface;
    method = value_of method;
    parameter_types_string =
        rlib.replace (rlib.replace (value_of parameter_types_string) (codes "%2F") (codes "/"))
          (codes "%3B") (codes ";");
    parameter = value_of parameter;
  }

  check_all-four :
      (a : DubboRpcArgs)
      → check_all (a.interface ∷ a.method ∷ a.parameter_types_string ∷ a.parameter ∷ []) a
        ≡ (if lacks_one a then failure not_provided else success a)
  unfolding check_all
  check_all-four a = ground arith

  take_all-expected : take_all (rlib.split_at body (codes "&")) no_args ≡ record {
    interface = value_of interface;
    method = value_of method;
    parameter_types_string = value_of parameter_types_string;
    parameter = value_of parameter;
  }
  take_all-expected =
      let q = rlib.split_at body (codes "&") in
      λ i. record {
        interface = take_all-get q interface no_args i;
        method = take_all-get q method no_args i;
        parameter_types_string = take_all-get q parameter_types_string no_args i;
        parameter = take_all-get q parameter no_args i;
      }

  -- Every argument is the last value that the body gives its key, with "%2F" replaced by "/", and
  -- then "%3B" by ";", in the types; where one of the four is missing or empty, and in no other case, the exception is thrown.
  pub http_payload_to_dubbo_parameters-last :
      http_payload_to_dubbo_parameters rlib body
      ≡ (if lacks_one expected_args then failure not_provided else success expected_args)
  unfolding http_payload_to_dubbo_parameters unescape
  http_payload_to_dubbo_parameters-last = rw take_all-expected (check_all-four expected_args)
