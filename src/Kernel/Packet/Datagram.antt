-- ===== src/Kernel/Packet/Datagram.antt =====
-- UDP datagrams in IPv4 on Ethernet as they stand on the wire, apart from any parser.
use networkdoctor_prestudy.Base.{
  ℕ, ◌+◌, ◌*◌, ◌/◌, ◌%◌, ◌^◌, ◌<◌, ◌≤◌, ◌≡◌, Bool, List, [], ◌∷◌, ◌++◌, length, if◌then◌else◌,
}
use networkdoctor_prestudy.Kernel.Packet.{UdpHeader}

pub record Mac : Type 0 where
  pub a : ℕ
  pub b : ℕ
  pub c : ℕ
  pub d : ℕ
  pub e : ℕ
  pub f : ℕ

-- A datagram. A 16-bit field that the program does not read is its two bytes; addresses are as the
-- machine loads them; the options are whole words.
pub record Datagram : Type 0 where
  pub dst : Mac
  pub src : Mac
  pub tos : ℕ
  pub total_len : ℕ × ℕ
  pub id : ℕ × ℕ
  pub dont_fragment : Bool
  pub ttl : ℕ
  pub ip_check : ℕ × ℕ
  pub saddr : ℕ
  pub daddr : ℕ
  pub options : List ℕ
  pub option_words : ℕ
  pub sport : ℕ
  pub dport : ℕ
  pub udp_len : ℕ × ℕ
  pub udp_check : ℕ × ℕ
  pub payload : List ℕ

pub record IsDatagram (g : Datagram) : Type 0 where
  pub saddr : g.saddr < 2 ^ 32
  pub daddr : g.daddr < 2 ^ 32
  pub options : length g.options ≡ 4 * g.option_words
  pub option_words : g.option_words ≤ 10
  pub sport : g.sport < 2 ^ 16
  pub dport : g.dport < 2 ^ 16

abbrev pub byte : ℕ → ℕ → ℕ
byte n w = n / w % 256

-- From the UDP header on.
abbrev pub udp_bytes : Datagram → List ℕ
udp_bytes g =
    byte g.sport 256
    ∷ byte g.sport 1
    ∷ byte g.dport 256
    ∷ byte g.dport 1
    ∷ g.udp_len.0
    ∷ g.udp_len.1
    ∷ g.udp_check.0
    ∷ g.udp_check.1
    ∷ g.payload

-- The Ethernet header and the fixed part of the IP header, 34 bytes.
abbrev pub fixed_bytes : Datagram → List ℕ
fixed_bytes g =
    g.dst.a
    ∷ g.dst.b
    ∷ g.dst.c
    ∷ g.dst.d
    ∷ g.dst.e
    ∷ g.dst.f
    ∷ g.src.a
    ∷ g.src.b
    ∷ g.src.c
    ∷ g.src.d
    ∷ g.src.e
    ∷ g.src.f
    ∷ 0x08
    ∷ 0x00
    ∷ (0x45 + g.option_words)
    ∷ g.tos
    ∷ g.total_len.0
    ∷ g.total_len.1
    ∷ g.id.0
    ∷ g.id.1
    ∷ (if g.dont_fragment then 0x40 else 0)
    ∷ 0
    ∷ g.ttl
    ∷ 17
    ∷ g.ip_check.0
    ∷ g.ip_check.1
    ∷ byte g.saddr 1
    ∷ byte g.saddr 256
    ∷ byte g.saddr 65536
    ∷ byte g.saddr 16777216
    ∷ byte g.daddr 1
    ∷ byte g.daddr 256
    ∷ byte g.daddr 65536
    ∷ byte g.daddr 16777216
    ∷ []

unfoldable pub print_datagram : Datagram → List ℕ
print_datagram g = fixed_bytes g ++ (g.options ++ udp_bytes g)

-- The bytes of a DNS message: its id, its flags, and at least the rest of its header.
abbrev pub dns_bytes : ℕ → ℕ → List ℕ → List ℕ
dns_bytes txid flags rest = byte txid 256 ∷ byte txid 1 ∷ byte flags 256 ∷ byte flags 1 ∷ rest

-- The header that the hook is to see.
abbrev pub header_of : Datagram → UdpHeader
header_of g = record {
  saddr = g.saddr;
  daddr = g.daddr;
  sport = g.sport;
  dport = g.dport;
  payload = 42 + 4 * g.option_words;
}
