-- ===== src/Tests/Events.antt =====
-- Events on their way from a hook to user space, and samples as bytes.
use Prim.Native.String.{String}
use networkdoctor_prestudy.Base.{
  ℕ, get_or, ◌==◌, if◌then◌else◌, ◌≡◌, refl, arith, true, false, none, some, List, [], ◌∷◌,
}
use networkdoctor_prestudy.Kernel.{FlowKey}
use networkdoctor_prestudy.Kernel.Helpers.{slow_dns, nd_fill_event}
use networkdoctor_prestudy.Event.{event_bytes, read_event, sample, ok, err, decode_failed}
use networkdoctor_prestudy.Event.Lines.{read_event-nd_fill_event}
use networkdoctor_prestudy.Event.Layout.{
  Parts, raw_sample, IsLaidOut, read_event-raw_sample, read_event-short,
}

-- Tells two hosts by the last byte of their addresses.
abbrev by_network : List ℕ → String
by_network bytes =
    let host = get_or bytes 3 0 in
    if host == 2 then "10.0.0.2" else (if host == 1 then "10.0.0.1" else "elsewhere")

abbrev dns_flow : FlowKey
dns_flow = record {
  ifindex = 2;
  src_ip = 33554442;
  dst_ip = 16777226;
  src_port = 53;
  dst_port = 4000;
  proto = 17;
  direction = 1;
  pad = 0;
}

read_event-nd_fill_event_example :
    (read_event by_network false
        (sample (event_bytes (nd_fill_event slow_dns (some dns_flow) 2000 3 0 7)))
      ≡ ok (record {
        type = 6;
        pid = 0;
        ifindex = 2;
        src_ip = "10.0.0.2";
        dst_ip = "10.0.0.1";
        src_port = 53;
        dst_port = 4000;
        value_us = 2000;
        aux = 3;
      }))
    × (read_event by_network false (sample (event_bytes (nd_fill_event slow_dns none 2000 3 0 7)))
        ≡ ok (record {
          type = 6;
          pid = 0;
          ifindex = 0;
          src_ip = "elsewhere";
          dst_ip = "elsewhere";
          src_port = 0;
          dst_port = 0;
          value_us = 2000;
          aux = 3;
        }))
read_event-nd_fill_event_example =
    read_event-nd_fill_event by_network false slow_dns dns_flow 2000 3 0 7
      (record {
        ifindex = omega arith;
        src_ip = omega arith;
        dst_ip = omega arith;
        src_port = omega arith;
        dst_port = omega arith;
      })
      (omega arith) (omega arith) (omega arith) (omega arith)

-- A sample with a byte behind the struct.
abbrev parts : Parts
parts = record {
  type = 6 ∷ 0 ∷ 0 ∷ 0 ∷ [];
  pid = 1 ∷ 1 ∷ 0 ∷ 0 ∷ [];
  ts_ns = 9 ∷ 0 ∷ 0 ∷ 0 ∷ 0 ∷ 0 ∷ 0 ∷ 0 ∷ [];
  ifindex = 2 ∷ 0 ∷ 0 ∷ 0 ∷ [];
  src_ip = 10 ∷ 0 ∷ 0 ∷ 2 ∷ [];
  dst_ip = 10 ∷ 0 ∷ 0 ∷ 1 ∷ [];
  src_port = 53 ∷ 0 ∷ [];
  dst_port = 160 ∷ 15 ∷ [];
  value_us = 208 ∷ 7 ∷ 0 ∷ 0 ∷ 0 ∷ 0 ∷ 0 ∷ 0 ∷ [];
  aux = 3 ∷ 0 ∷ 0 ∷ 0 ∷ 0 ∷ 0 ∷ 0 ∷ 0 ∷ [];
  behind = 77 ∷ [];
}

parts-IsLaidOut : IsLaidOut parts
parts-IsLaidOut = record {
  type = refl;
  pid = refl;
  ts_ns = refl;
  ifindex = refl;
  src_ip = refl;
  dst_ip = refl;
  src_port = refl;
  dst_port = refl;
  value_us = refl;
  aux = refl;
  src_bytes = (omega arith, (omega arith, (omega arith, (omega arith, tt))));
  dst_bytes = (omega arith, (omega arith, (omega arith, (omega arith, tt))));
}

read_event-raw_sample_example :
    read_event by_network true (sample (raw_sample parts))
    ≡ ok (record {
      type = 6;
      pid = 257;
      ifindex = 2;
      src_ip = "10.0.0.2";
      dst_ip = "10.0.0.1";
      src_port = 53;
      dst_port = 4000;
      value_us = 2000;
      aux = 3;
    })
read_event-raw_sample_example = read_event-raw_sample by_network true parts parts-IsLaidOut

read_event-short_example :
    read_event by_network false (sample (6 ∷ 0 ∷ 0 ∷ 0 ∷ [])) ≡ err decode_failed
read_event-short_example = read_event-short by_network false (6 ∷ 0 ∷ 0 ∷ 0 ∷ []) (omega arith)
