-- ===== src/System/Sound/Headers.antt =====
-- What nd_parse_ipv4_udp reads from a packet of bytes is in range.
use networkdoctor_prestudy.Base.{
  ℕ, zero, suc, ◌+◌, ◌*◌, ◌^◌, ◌<◌, ◌%◌, ◌≡◌, subst, arith, Bool, true, false, not, Option, none,
  some, List, [], ◌∷◌, All, if◌then◌else◌, ltb, ◌==◌, length,
}
use networkdoctor_prestudy.Kernel.Packet.{
  ◌>>=◌, read_u8, read_be16, read_u32, UdpHeader, parse_udp, parse_ipv4, parse_frame,
}
use networkdoctor_prestudy.Kernel.Udp.{SkBuff, udp_flow_key}
use networkdoctor_prestudy.System.{SkbInRange}
use networkdoctor_prestudy.System.Sound.{FlowInRange}

-- A result, if there is one, has the property.
abbrev pub Yields {ℓ} : {A : Type ℓ} → (A → Type 0) → Option A → Type 0
Yields P none = Unit
Yields P (some a) = P a

pub Yields-if {ℓ} :
    {A : Type ℓ} (P : A → Type 0) (t : Bool) (x y : Option A)
    → Yields P x
    → Yields P y
    → Yields P (if t then x else y)
Yields-if P true x y p q = p
Yields-if P false x y p q = q

Yields-bind {ℓ κ} :
    {A : Type ℓ} {B : Type κ} (Q : A → Type 0) (P : B → Type 0) (x : Option A) (f : A → Option B)
    → Yields Q x
    → ((a : A) → Q a → Yields P (f a))
    → Yields P (x >>= f)
Yields-bind Q P none f q h = tt
Yields-bind Q P (some a) f q h = h a q

abbrev Below : ℕ → Option ℕ → Type 0
Below n = Yields (λ v. v < n)

-- A stop is as good as a header in range.
record UdpInRange (udp : UdpHeader) : Type 0 where
  saddr : udp.saddr < 2 ^ 32
  daddr : udp.daddr < 2 ^ 32
  sport : udp.sport < 2 ^ 16
  dport : udp.dport < 2 ^ 16

abbrev HeaderInRange : Option (Option UdpHeader) → Type 0
HeaderInRange = Yields (Yields UdpInRange)

abbrev IsBytes : List ℕ → Type 0
IsBytes = All (λ b. b < 256)

read_u8-Below : (packet : List ℕ) (off : ℕ) → IsBytes packet → Below 256 (read_u8 packet off)
read_u8-Below [] off b = tt
read_u8-Below (x ∷ xs) zero b = b.0
read_u8-Below (x ∷ xs) (suc off) b = read_u8-Below xs off b.1

read_be16-Below :
    (packet : List ℕ) (off : ℕ) → IsBytes packet → Below (2 ^ 16) (read_be16 packet off)
unfolding read_be16
read_be16-Below packet off b =
    Yields-bind (λ v. v < 256) _ (read_u8 packet off) _ (read_u8-Below packet off b)
      λ hi p.
        Yields-bind (λ v. v < 256) _ (read_u8 packet (off + 1)) _ (read_u8-Below packet (off + 1) b)
          λ lo q. omega arith

read_u32-Below : (packet : List ℕ) (off : ℕ) → IsBytes packet → Below (2 ^ 32) (read_u32 packet off)
unfolding read_u32
read_u32-Below packet off b =
    Yields-bind (λ v. v < 256) _ (read_u8 packet off) _ (read_u8-Below packet off b)
      λ x p.
        Yields-bind (λ v. v < 256) _ (read_u8 packet (off + 1)) _ (read_u8-Below packet (off + 1) b)
          λ y q.
            Yields-bind (λ v. v < 256) _ (read_u8 packet (off + 2)) _
              (read_u8-Below packet (off + 2) b)
              λ z r.
                Yields-bind (λ v. v < 256) _ (read_u8 packet (off + 3)) _
                  (read_u8-Below packet (off + 3) b) λ w s. omega arith

parse_udp-InRange :
    (packet : List ℕ) (udp : ℕ) → IsBytes packet → HeaderInRange (parse_udp packet udp)
unfolding parse_udp
parse_udp-InRange packet udp b = Yields-if _ (ltb (length packet) (udp + 8)) _ _ tt (
    Yields-bind (λ v. v < 2 ^ 16) _ (read_be16 packet udp) _ (read_be16-Below packet udp b)
      λ sport p.
        Yields-bind (λ v. v < 2 ^ 16) _ (read_be16 packet (udp + 2)) _
          (read_be16-Below packet (udp + 2) b)
          λ dport q.
            Yields-bind (λ v. v < 2 ^ 32) _ (read_u32 packet 26) _ (read_u32-Below packet 26 b)
              λ saddr r.
                Yields-bind (λ v. v < 2 ^ 32) _ (read_u32 packet 30) _ (read_u32-Below packet 30 b)
                  λ daddr s. record { saddr = r; daddr = s; sport = p; dport = q })

-- A read whose value only decides on a stop.
pub Yields-any {ℓ κ} :
    {A : Type ℓ} {B : Type κ} (P : B → Type 0) (x : Option A) (f : A → Option B)
    → ((a : A) → Yields P (f a))
    → Yields P (x >>= f)
Yields-any P none f h = tt
Yields-any P (some a) f h = h a

parse_ipv4-InRange : (packet : List ℕ) → IsBytes packet → HeaderInRange (parse_ipv4 packet)
unfolding parse_ipv4
parse_ipv4-InRange packet b = Yields-if _ (ltb (length packet) 34) _ _ tt (
    Yields-any _ (read_u8 packet 23) _ λ protocol. Yields-if _ (not (protocol == 17)) _ _ tt (
      Yields-any _ (read_be16 packet 20) _ λ frag. Yields-if _ (not (frag % 16384 == 0)) _ _ tt (
        Yields-any _ (read_u8 packet 14) _ λ version_ihl.
          Yields-if _ (ltb (version_ihl % 16 * 4) 20) _ _ tt
            (parse_udp-InRange packet (14 + version_ihl % 16 * 4) b))))

parse_frame-InRange : (packet : List ℕ) → IsBytes packet → HeaderInRange (parse_frame packet)
unfolding parse_frame
parse_frame-InRange packet b = Yields-if _ (ltb (length packet) 14) _ _ tt (
    Yields-any _ (read_be16 packet 12) _
      λ h_proto. Yields-if _ (not (h_proto == 0x0800)) _ _ tt (parse_ipv4-InRange packet b))

-- The flow of a header that the hook reads from a packet is in range.
pub parsed_flow-InRange :
    (skb : SkBuff) (direction : ℕ) (udp : UdpHeader)
    → SkbInRange skb
    → parse_frame skb.packet ≡ some (some udp)
    → FlowInRange (udp_flow_key skb direction udp)
parsed_flow-InRange skb direction udp b e =
    let r : UdpInRange udp = subst HeaderInRange e (parse_frame-InRange skb.packet b.packet) in
    record {
      ifindex = b.ifindex;
      src_ip = r.saddr;
      dst_ip = r.daddr;
      src_port = r.sport;
      dst_port = r.dport;
    }
