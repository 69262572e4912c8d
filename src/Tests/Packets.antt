-- ===== src/Tests/Packets.antt =====
-- A DNS query and its response as bytes, and the table of queries that they leave.
use networkdoctor_prestudy.Base.{ℕ, ◌*◌, ◌<◌, ◌≡◌, refl, arith, true, some, List, [], ◌∷◌, leb}
use networkdoctor_prestudy.Platform.{NeverFull}
use networkdoctor_prestudy.Kernel.{DnsKey, DnsKey-discrete, DnsPending}
use networkdoctor_prestudy.Kernel.Packet.{DnsHeader, parse_frame}
use networkdoctor_prestudy.Kernel.Packet.Datagram.{
  Mac, Datagram, IsDatagram, print_datagram, dns_bytes,
}
use networkdoctor_prestudy.Kernel.Packet.Frames.{parse_frame-print}
use networkdoctor_prestudy.Kernel.Udp.Exchange.{Carries, GoesBack}
use networkdoctor_prestudy.Histogram.{nd_log2_bucket, log2_upper_bound}
use networkdoctor_prestudy.Histogram.Estimate.{log2_upper_bound_estimates}
use networkdoctor_prestudy.Tests.Maps.{maps, put-same, put-other}
use networkdoctor_prestudy.Tests.Hooks.{never_fails}

abbrev mac : ℕ → Mac
mac n = record { a = 2; b = 0; c = 0; d = 0; e = 0; f = n }

abbrev pub out_message : DnsHeader
out_message = record { txid = 7; flags = 256 }

abbrev pub back_message : DnsHeader
back_message = record { txid = 7; flags = 33152 }

abbrev pub counts : List ℕ
counts = 0 ∷ 1 ∷ 0 ∷ 0 ∷ 0 ∷ 0 ∷ 0 ∷ 0 ∷ []

-- From 10.0.0.1 to 10.0.0.2, with a word of options.
abbrev pub out : Datagram
out = record {
  dst = mac 2;
  src = mac 1;
  tos = 0;
  total_len = (0, 44);
  id = (0, 1);
  dont_fragment = true;
  ttl = 64;
  ip_check = (1, 2);
  saddr = 16777226;
  daddr = 33554442;
  options = 1 ∷ 1 ∷ 1 ∷ 1 ∷ [];
  option_words = 1;
  sport = 4000;
  dport = 53;
  udp_len = (0, 20);
  udp_check = (0, 0);
  payload = dns_bytes 7 256 counts;
}

abbrev pub back : Datagram
back = record out {
  saddr = 33554442;
  daddr = 16777226;
  options = [];
  option_words = 0;
  sport = 53;
  dport = 4000;
  payload = dns_bytes 7 33152 counts;
}

pub out-IsDatagram : IsDatagram out
out-IsDatagram = record {
  saddr = omega arith;
  daddr = omega arith;
  options = refl;
  option_words = omega arith;
  sport = omega arith;
  dport = omega arith;
}

back-IsDatagram : IsDatagram back
back-IsDatagram = record {
  saddr = omega arith;
  daddr = omega arith;
  options = refl;
  option_words = omega arith;
  sport = omega arith;
  dport = omega arith;
}

parse_frame-print_example :
    parse_frame (print_datagram out)
    ≡ some (
        some
          (record { saddr = 16777226; daddr = 33554442; sport = 4000; dport = 53; payload = 46 }))
parse_frame-print_example = parse_frame-print out out-IsDatagram

pub out-Carries : Carries out out_message counts
out-Carries = record {
  datagram = out-IsDatagram;
  payload = refl;
  long = omega arith;
  txid = omega arith;
  flags = omega arith;
}

pub back-Carries : Carries back back_message counts
back-Carries = record {
  datagram = back-IsDatagram;
  payload = refl;
  long = omega arith;
  txid = omega arith;
  flags = omega arith;
}

pub back-GoesBack : GoesBack out back
back-GoesBack = record { saddr = refl; daddr = refl; sport = refl; dport = refl }

pub never_full : NeverFull maps DnsKey DnsKey-discrete DnsPending
never_full = record {
  update_self = λ h k v. put-same DnsKey-discrete h k (some v);
  update_ne = λ h k j v ne. put-other DnsKey-discrete h k j (some v) ne;
  never_fails = never_fails DnsKey-discrete;
}

log2_upper_bound_estimates_example :
    (log2_upper_bound (nd_log2_bucket 9) < 2 * 9)
    × (leb 9 (log2_upper_bound (nd_log2_bucket 9)) ≡ true)
log2_upper_bound_estimates_example = log2_upper_bound_estimates 9 (omega arith)
