-- ===== src/Dubbo/Sample.antt =====
-- A response to the dubbo client of lib/dubbo_client.hpp, for the examples.
use ali_middleware.Common.{refl, arith}
use ali_middleware.Common.ExampleRlib.{example_rlib, as_uint16}
use ali_middleware.Common.Text.{Text, codes}
use ali_middleware.Dubbo.{DubboHeader, swap32}
use ali_middleware.Dubbo.Response.{IsResponse}

abbrev pub body : Text
body = codes "1\n42\nnull"

abbrev pub header : DubboHeader
header = record {
  magic = 48090;
  serialization_id = 6;
  is_event = 0;
  need_return = 0;
  is_request = 0;
  status = 20;
  request_id = 7;
  data_length = 150994944;
}

pub header-IsResponse : IsResponse example_rlib as_uint16 header body (codes "42") 1
unfolding swap32
header-IsResponse = record {
  in_range = record {
    magic = omega arith;
    serialization_id = omega arith;
    is_event = omega arith;
    need_return = omega arith;
    is_request = omega arith;
    status = omega arith;
    request_id = omega arith;
    data_length = omega arith;
  };
  magic = refl;
  announced = refl;
  short = omega arith;
  type_line = codes "1";
  last_line = codes "null";
  lines = refl;
  number = refl;
}
