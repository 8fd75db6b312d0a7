-- ===== src/Dubbo/FrameTests.antt =====
-- Requests in a row of lib/dubbo_client.hpp, one of them under another magic number.
use ali_middleware.Common.{refl, ◌+◌, ◌%◌, ◌^◌, ◌≡◌, arith, List, [], ◌∷◌, ◌++◌}
use ali_middleware.Common.Except.{failure}
use ali_middleware.Common.ExampleRlib.{example_rlib, as_uint16}
use ali_middleware.Common.Text.{codes}
use ali_middleware.Dubbo.{
  DubboHeader, header_bytes, swap32, request_payload, wrong_magic, raised, async_request,
}
use ali_middleware.Dubbo.Framing.{IsFrame, quiet, logged, outcome, left_over, async_request-raised}
use ali_middleware.Dubbo.Response.{client}
use ali_middleware.Dubbo.Sample.{body, header, header-IsResponse}
use ali_middleware.Dubbo.Sequence.{Call, Frame, wire, answered_by, replies, replies-answered_by}

abbrev other_magic : DubboHeader
other_magic = record header { magic = 1 }

good : IsFrame header body
unfolding swap32
good = record { in_range = header-IsResponse.in_range; announced = refl }

odd : IsFrame other_magic body
unfolding swap32
odd = record {
  in_range = record {
    magic = omega arith;
    serialization_id = omega arith;
    is_event = omega arith;
    need_return = omega arith;
    is_request = omega arith;
    status = omega arith;
    request_id = omega arith;
    data_length = omega arith;
  };
  announced = refl;
}

abbrev call : Call
call = record {
  service_name = codes "I";
  method_name = codes "hash";
  method_arg_type = codes "S";
  method_arg = codes "x";
}

async_request-raised_example :
    async_request example_rlib as_uint16
      (quiet "End of file")
      (codes "I")
      (codes "hash")
      (codes "S")
      (codes "x")
      (client 7 (header_bytes other_magic ++ (body ++ codes "next")) [])
    ≡ raised (outcome example_rlib as_uint16 other_magic body) (
        client
          ((7 + 1) % 2 ^ 64)
          (left_over body (codes "next"))
          ([] ++ logged 7 (request_payload (codes "I") (codes "hash") (codes "S") (codes "x"))))
async_request-raised_example =
    async_request-raised example_rlib as_uint16 "End of file" (codes "I") (codes "hash") (codes "S")
      (codes "x") other_magic body (codes "next") 7 [] odd

odd_outcome : outcome example_rlib as_uint16 other_magic body ≡ failure wrong_magic
odd_outcome = refl

abbrev frames : List Frame
frames = (other_magic, body) ∷ (header, body) ∷ []

replies-answered_by_example :
    replies example_rlib as_uint16 "End of file"
      (call ∷ call ∷ [])
      (client 7 (wire frames ++ codes "next") [])
    ≡ answered_by example_rlib as_uint16 "End of file" 7 [] (codes "next") (call ∷ call ∷ []) frames
replies-answered_by_example =
    replies-answered_by example_rlib as_uint16 "End of file" (call ∷ call ∷ []) frames
      (codes "next") 7 [] refl
      (
        record { frame = odd; short = omega arith },
        (record { frame = good; short = omega arith }, tt),
      )
