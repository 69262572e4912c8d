-- ===== src/Kernel/Packet/Safety.antt =====
-- The bounds checks of the packet parser suffice: no read leaves the packet.
use networkdoctor_prestudy.Base.{
  ◌&&◌, ℕ, ◌+◌, ◌*◌, ◌%◌, ◌≤◌, ◌<◌, ◌≡◌, refl, arith, Option, none, some, List, length, ltb, ◌==◌,
  not, get_elem?-lt, Bool, true, false, if◌then◌else◌,
}
use networkdoctor_prestudy.Platform.{BpfMaps}
use networkdoctor_prestudy.Kernel.{Objects, FlowKey}
use networkdoctor_prestudy.Kernel.Helpers.{Hook}
use networkdoctor_prestudy.Kernel.Udp.{
  dns_port, SkBuff, inspect_dns, nd_parse_ipv4_udp, udp_flow_key,
}
use networkdoctor_prestudy.Kernel.Packet.{
  ◌>>=◌, read_u8, read_be16, read_u32, UdpHeader, parse_udp, parse_ipv4, parse_frame, parse_dns,
}

-- The code goes on to a result: it does not fault.
abbrev pub Defined {ℓ} : {A : Type ℓ} → Option A → Type ℓ
Defined {A} o = (a : A) × (o ≡ some a)

Defined-some {ℓ} : {A : Type ℓ} (a : A) → Defined (some a)
Defined-some a = (a, refl)

Defined-if {ℓ} :
    {A : Type ℓ} (t : Bool) (a b : Option A)
    → Defined a
    → (t ≡ false → Defined b)
    → Defined (if t then a else b)
Defined-if true a b p q = p
Defined-if false a b p q = q refl

pub Defined-bind {ℓ κ} :
    {A : Type ℓ} {B : Type κ} (o : Option A) (f : A → Option B)
    → Defined o
    → ((a : A) → Defined (f a))
    → Defined (o >>= f)
Defined-bind none f p q = cc p.1
Defined-bind (some a) f p q = q a

read_u8-Defined : (packet : List ℕ) (off : ℕ) → off < length packet → Defined (read_u8 packet off)
read_u8-Defined packet off h = get_elem?-lt packet off h

read_be16-Defined :
    (packet : List ℕ) (off : ℕ) → off + 2 ≤ length packet → Defined (read_be16 packet off)
unfolding read_be16
read_be16-Defined packet off h =
    Defined-bind _ _ (read_u8-Defined packet off (omega arith))
      λ hi. Defined-bind _ _ (read_u8-Defined packet (off + 1) (omega arith)) λ lo. Defined-some _

read_u32-Defined :
    (packet : List ℕ) (off : ℕ) → off + 4 ≤ length packet → Defined (read_u32 packet off)
unfolding read_u32
read_u32-Defined packet off h = Defined-bind _ _ (read_u8-Defined packet off (omega arith)) λ a.
    Defined-bind _ _ (read_u8-Defined packet (off + 1) (omega arith)) λ b.
      Defined-bind _ _ (read_u8-Defined packet (off + 2) (omega arith))
        λ c. Defined-bind _ _ (read_u8-Defined packet (off + 3) (omega arith)) λ d. Defined-some _

ltb_false→le : (a b : ℕ) → ltb a b ≡ false → b ≤ a
ltb_false→le a b h = ground arith

parse_udp-Defined :
    (packet : List ℕ) (udp : ℕ) → 34 ≤ length packet → Defined (parse_udp packet udp)
unfolding parse_udp
parse_udp-Defined packet udp h =
    Defined-if (ltb (length packet) (udp + 8)) _ _ (Defined-some _) λ t.
      let room = ltb_false→le _ _ t in
      Defined-bind _ _ (read_be16-Defined packet udp (omega arith)) λ sport.
        Defined-bind _ _ (read_be16-Defined packet (udp + 2) (omega arith)) λ dport.
          Defined-bind _ _ (read_u32-Defined packet 26 (omega arith)) λ saddr.
            Defined-bind _ _ (read_u32-Defined packet 30 (omega arith)) λ daddr. Defined-some _

parse_ipv4-Defined : (packet : List ℕ) → Defined (parse_ipv4 packet)
unfolding parse_ipv4
parse_ipv4-Defined packet = Defined-if (ltb (length packet) 34) _ _ (Defined-some _) λ t.
    let room = ltb_false→le _ _ t in
    Defined-bind _ _ (read_u8-Defined packet 23 (omega arith)) λ protocol.
      Defined-if (not (protocol == 17)) _ _ (Defined-some _) λ _.
        Defined-bind _ _ (read_be16-Defined packet 20 (omega arith)) λ frag.
          Defined-if (not (frag % 16384 == 0)) _ _ (Defined-some _) λ _.
            Defined-bind _ _ (read_u8-Defined packet 14 (omega arith)) λ version_ihl.
              Defined-if (ltb (version_ihl % 16 * 4) 20) _ _ (Defined-some _)
                λ _. parse_udp-Defined packet (14 + version_ihl % 16 * 4) (omega arith)

parse_frame-Defined : (packet : List ℕ) → Defined (parse_frame packet)
unfolding parse_frame
parse_frame-Defined packet = Defined-if (ltb (length packet) 14) _ _ (Defined-some _) λ t.
    let room = ltb_false→le _ _ t in
    Defined-bind _ _ (read_be16-Defined packet 12 (omega arith)) λ h_proto.
      Defined-if (not (h_proto == 0x0800)) _ _ (Defined-some _) λ _. parse_ipv4-Defined packet

parse_dns-Defined : (packet : List ℕ) (dns : ℕ) → Defined (parse_dns packet dns)
unfolding parse_dns
parse_dns-Defined packet dns = Defined-if (ltb (length packet) (dns + 12)) _ _ (Defined-some _) λ t.
    let room = ltb_false→le _ _ t in
    Defined-bind _ _ (read_be16-Defined packet dns (omega arith)) λ txid.
      Defined-bind _ _ (read_be16-Defined packet (dns + 2) (omega arith)) λ flags. Defined-some _

module _ (m : BpfMaps) where
  inspect_dns-Defined :
      (h : Hook) (skb : SkBuff) (flow : FlowKey) (udp : UdpHeader) (o : Objects m)
      → Defined (inspect_dns m h skb flow udp o)
  unfolding inspect_dns
  inspect_dns-Defined h skb flow udp o =
      Defined-if (not (udp.sport == dns_port) && not (udp.dport == dns_port)) _ _ (Defined-some o)
        λ _.
          Defined-bind (parse_dns skb.packet udp.payload) _
            (parse_dns-Defined skb.packet udp.payload) λ dns. Defined-some _

  -- The hook comes to its end on every packet, however short or malformed, in either direction:
  -- none of its reads lies outside the packet.
  pub nd_parse_ipv4_udp-Defined :
      (h : Hook) (skb : SkBuff) (direction : ℕ) (o : Objects m)
      → Defined (nd_parse_ipv4_udp m h skb direction o)
  unfolding nd_parse_ipv4_udp
  nd_parse_ipv4_udp-Defined h skb direction o =
      Defined-bind (parse_frame skb.packet) _ (parse_frame-Defined skb.packet) (elim [
        | none ↦ Defined-some o
        | some udp ↦ inspect_dns-Defined h skb (udp_flow_key skb direction udp) udp _
      ])
