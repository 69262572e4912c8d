-- ===== src/Kernel/Packet.antt =====
-- bpf/networkdoctor.bpf.c: how nd_parse_ipv4_udp reads a packet. The bytes from `data` up to
-- `data_end` are a list; a read outside them is the fault `none`, so that the parsers show
-- whether the code's own bounds checks suffice. A stop with TC_ACT_OK is `some none`.
pub mod Safety
pub mod Datagram
pub mod Frames
use networkdoctor_prestudy.Base.{
  ℕ, ◌+◌, ◌*◌, ◌/◌, ◌%◌, Bool, not, Option, none, some, List, ltb, ◌==◌, if◌then◌else◌, length,
  get_elem?,
}

infixl 5 ◌>>=◌
abbrev pub ◌>>=◌ {ℓ κ} : {A : Type ℓ} {B : Type κ} → Option A → (A → Option B) → Option B
none >>= f = none
some a >>= f = f a

-- One byte, a big-endian u16 (a load and bpf_ntohs), and a u32 as the machine loads it.
abbrev pub read_u8 : List ℕ → ℕ → Option ℕ
read_u8 packet off = get_elem? packet off

unfoldable pub read_be16 : List ℕ → ℕ → Option ℕ
read_be16 packet off = do
  hi ← read_u8 packet off
  lo ← read_u8 packet (off + 1)
  some (hi * 256 + lo)

unfoldable pub read_u32 : List ℕ → ℕ → Option ℕ
read_u32 packet off = do
  a ← read_u8 packet off
  b ← read_u8 packet (off + 1)
  c ← read_u8 packet (off + 2)
  d ← read_u8 packet (off + 3)
  some (a + b * 256 + c * 65536 + d * 16777216)

-- sizeof(struct ethhdr), sizeof(struct iphdr), sizeof(struct udphdr), ND_DNS_HDR_LEN.
abbrev pub eth_len : ℕ
eth_len = 14

abbrev pub ip_len : ℕ
ip_len = 20

abbrev pub udp_len : ℕ
udp_len = 8

abbrev pub nd_dns_hdr_len : ℕ
nd_dns_hdr_len = 12

abbrev pub eth_p_ip : ℕ
eth_p_ip = 0x0800

abbrev pub ipproto_udp : ℕ
ipproto_udp = 17

-- What the hook takes from the headers; `payload` is the offset behind the UDP header.
pub record UdpHeader : Type 0 where
  pub saddr : ℕ
  pub daddr : ℕ
  pub sport : ℕ
  pub dport : ℕ
  pub payload : ℕ

pub record DnsHeader : Type 0 where
  pub txid : ℕ
  pub flags : ℕ

-- From the UDP header on, at its offset.
unfoldable pub parse_udp : List ℕ → ℕ → Option (Option UdpHeader)
unfolding read_be16 read_u32
parse_udp packet udp = if ltb (length packet) (udp + udp_len) then some none else (do
  sport ← read_be16 packet udp
  dport ← read_be16 packet (udp + 2)
  saddr ← read_u32 packet (eth_len + 12)
  daddr ← read_u32 packet (eth_len + 16)
  some (
      some (record {
        saddr = saddr;
        daddr = daddr;
        sport = sport;
        dport = dport;
        payload = udp + udp_len;
      })))

-- From the IP header on. `frag & 0x3fff` is the remainder by 2 ^ 14; the header length is the low
-- half of the first byte, in words of four bytes.
unfoldable pub parse_ipv4 : List ℕ → Option (Option UdpHeader)
unfolding parse_udp read_be16
parse_ipv4 packet = if ltb (length packet) (eth_len + ip_len) then some none else (do
  protocol ← read_u8 packet (eth_len + 9)
  if not (protocol == ipproto_udp) then some none else (do
    frag ← read_be16 packet (eth_len + 6)
    if not (frag % 16384 == 0) then some none else (do
      version_ihl ← read_u8 packet eth_len
      let ihl_bytes = version_ihl % 16 * 4
      if ltb ihl_bytes ip_len then some none else parse_udp packet (eth_len + ihl_bytes))))

unfoldable pub parse_frame : List ℕ → Option (Option UdpHeader)
unfolding parse_ipv4 read_be16
parse_frame packet = if ltb (length packet) eth_len then some none else (do
  h_proto ← read_be16 packet 12
  if not (h_proto == eth_p_ip) then some none else parse_ipv4 packet)

-- The id and the flags of the DNS header at an offset.
unfoldable pub parse_dns : List ℕ → ℕ → Option (Option DnsHeader)
unfolding read_be16
parse_dns packet dns = if ltb (length packet) (dns + nd_dns_hdr_len) then some none else (do
  txid ← read_be16 packet dns
  flags ← read_be16 packet (dns + 2)
  some (some (record { txid = txid; flags = flags })))
