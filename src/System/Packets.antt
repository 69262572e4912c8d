-- ===== src/System/Packets.antt =====
-- What the TC hook does with a packet, by what the packet holds.
use networkdoctor_prestudy.Base.{
  ℕ, ◌≡◌, refl, ap, subst, not, ◌&&◌, Option, none, some, Option-cases, Bool-cases, inl, inr, ◌==◌,
  if◌then◌else◌,
}
use networkdoctor_prestudy.Platform.{BpfMaps}
use networkdoctor_prestudy.Kernel.{Objects}
use networkdoctor_prestudy.Kernel.Helpers.{Hook}
use networkdoctor_prestudy.Kernel.Packet.{UdpHeader, DnsHeader, parse_frame, parse_dns}
use networkdoctor_prestudy.Kernel.Udp.{
  SkBuff, dns_port, udp_flow_key, account_udp, account_dns, inspect_dns, nd_parse_ipv4_udp,
}
use networkdoctor_prestudy.System.Sound.Headers.{Yields}

abbrev pub flatten {ℓ} : {A : Type ℓ} → Option (Option A) → Option A
flatten none = none
flatten (some x) = x

-- The UDP header of a packet, if it has one that the hook reads.
abbrev pub datagram_of : SkBuff → Option UdpHeader
datagram_of skb = flatten (parse_frame skb.packet)

-- The header of the DNS message in a datagram to or from port 53, if it is whole.
abbrev pub message_of : SkBuff → UdpHeader → Option DnsHeader
message_of skb udp =
    if not (udp.sport == dns_port) && not (udp.dport == dns_port)
    then none
    else flatten (parse_dns skb.packet udp.payload)

module _ (m : BpfMaps) (h : Hook) (skb : SkBuff) (direction : ℕ) (o : Objects m) where
  abbrev pub counted : UdpHeader → Objects m
  counted udp = account_udp m h skb (udp_flow_key skb direction udp) o

  -- The three ways of a packet through the hook.
  pub data Handled : Objects m → Type 0 where
    passed : datagram_of skb ≡ none → Handled o
    no_message :
        (udp : UdpHeader)
        → datagram_of skb ≡ some udp
        → message_of skb udp ≡ none
        → Handled (counted udp)
    message :
        (udp : UdpHeader) (dns : DnsHeader)
        → datagram_of skb ≡ some udp
        → message_of skb udp ≡ some dns
        → Handled (account_dns m h skb (udp_flow_key skb direction udp) udp dns (counted udp))

  inspect_dns-Handled :
      (udp : UdpHeader)
      → datagram_of skb ≡ some udp
      → Yields Handled (inspect_dns m h skb (udp_flow_key skb direction udp) udp (counted udp))
  unfolding inspect_dns
  inspect_dns-Handled udp e =
      elim (Bool-cases (not (udp.sport == dns_port) && not (udp.dport == dns_port))) [
        | inl off ↦ rw (inspect_dns, off) (no_message udp e (rw off refl))
        | inr on ↦ elim (Option-cases (parse_dns skb.packet udp.payload)) [
          | inl out ↦ rw (inspect_dns, on, out) tt
          | inr (none, short) ↦ rw (inspect_dns, on, short) (no_message udp e (rw (on, short) refl))
          | inr (some dns, whole) ↦
              rw (inspect_dns, on, whole) (message udp dns e (rw (on, whole) refl))
        ]
      ]

  tc-Yields : Yields Handled (nd_parse_ipv4_udp m h skb direction o)
  unfolding nd_parse_ipv4_udp
  tc-Yields = elim (Option-cases (parse_frame skb.packet)) [
    | inl e ↦ rw (nd_parse_ipv4_udp, e) tt
    | inr (none, e) ↦ rw (nd_parse_ipv4_udp, e) (passed (rw e refl))
    | inr (some udp, e) ↦ rw (nd_parse_ipv4_udp, e) (inspect_dns-Handled udp (ap flatten e))
  ]

  pub tc-Handled : (o' : Objects m) → nd_parse_ipv4_udp m h skb direction o ≡ some o' → Handled o'
  tc-Handled o' e = subst (Yields Handled) e tc-Yields
