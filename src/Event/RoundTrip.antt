-- ===== src/Event/RoundTrip.antt =====
-- What the hooks submit is what user space reads.
use Prim.Native.String.{String}
use native.Mathlib.Nat.{pow-suc}
use networkdoctor_prestudy.Base.{
  All, ℕ, zero, suc, ◌+◌, ◌*◌, ◌/◌, ◌^◌, ◌<◌, ◌≡◌, ap, arith, Bool, some, List, [], ◌∷◌, ◌++◌,
}
use mathlib.Core.List.{append-nil}
use mathlib.Core.Option.{some-injective}
use networkdoctor_prestudy.Kernel.{NdEvent}
use networkdoctor_prestudy.Kernel.Packet.{read_u32}
use networkdoctor_prestudy.Event.{
  le_bytes, read_le, event_bytes, read_nd_event, ipv4_string, to_event, read_event, sample, ok,
}

read_le-le_bytes :
    (w n : ℕ) (rest : List ℕ) → n < 256 ^ w → read_le w (le_bytes w n ++ rest) ≡ some (n, rest)
unfolding read_le le_bytes
read_le-le_bytes zero n rest h = ap (λ x. some (x, rest)) (omega arith)
read_le-le_bytes (suc w) n rest h =
    rw (read_le-le_bytes w (n / 256) rest (omega (arith, pow-suc 256 w)))
      (ap (λ x. some (x, rest)) (omega arith))

-- Each field in the range of its C type.
pub record InRange (e : NdEvent) : Type 0 where
  pub type : e.type < 2 ^ 32
  pub pid : e.pid < 2 ^ 32
  pub ts_ns : e.ts_ns < 2 ^ 64
  pub ifindex : e.ifindex < 2 ^ 32
  pub src_ip : e.src_ip < 2 ^ 32
  pub dst_ip : e.dst_ip < 2 ^ 32
  pub src_port : e.src_port < 2 ^ 16
  pub dst_port : e.dst_port < 2 ^ 16
  pub value_us : e.value_us < 2 ^ 64
  pub aux : e.aux < 2 ^ 64

last_field : (w n : ℕ) → n < 256 ^ w → read_le w (le_bytes w n) ≡ some (n, [])
last_field w n h = rw (← append-nil (le_bytes w n)) (read_le-le_bytes w n [] h)

read_nd_event-event_bytes : (e : NdEvent) → InRange e → read_nd_event (event_bytes e) ≡ some e
unfolding read_nd_event event_bytes
read_nd_event-event_bytes e h = rw (
  read_nd_event,
  read_le-le_bytes 4 e.type _ h.type,
  read_le-le_bytes 4 e.pid _ h.pid,
  read_le-le_bytes 8 e.ts_ns _ h.ts_ns,
  read_le-le_bytes 4 e.ifindex _ h.ifindex,
  read_le-le_bytes 4 e.src_ip _ h.src_ip,
  read_le-le_bytes 4 e.dst_ip _ h.dst_ip,
  read_le-le_bytes 2 e.src_port _ h.src_port,
  read_le-le_bytes 2 e.dst_port _ h.dst_port,
  read_le-le_bytes 8 e.value_us _ h.value_us,
  last_field 8 e.aux h.aux,
)

-- An event in the ranges of its C types, laid out in the ring buffer and read back, is the same
-- event, whether or not the context is done by then.
pub read_event-event_bytes :
    (ip_string : List ℕ → String) (ctx_done : Bool) (e : NdEvent)
    → InRange e
    → read_event ip_string ctx_done (sample (event_bytes e)) ≡ ok (to_event ip_string e)
unfolding read_event
read_event-event_bytes ip_string ctx_done e h = rw (read_event, read_nd_event-event_bytes e h)

-- An address that the hook loads from four bytes of a packet is printed from those bytes, in the
-- packet's order.
pub ipv4_string-read_u32 :
    (ip_string : List ℕ → String) (a b c d ip : ℕ)
    → All (λ x. x < 256) (a ∷ b ∷ c ∷ d ∷ [])
    → read_u32 (a ∷ b ∷ c ∷ d ∷ []) 0 ≡ some ip
    → ipv4_string ip_string ip ≡ ip_string (a ∷ b ∷ c ∷ d ∷ [])
unfolding read_u32 ipv4_string le_bytes
ipv4_string-read_u32 ip_string a b c d ip h e =
    let v : a + b * 256 + c * 65536 + d * 16777216 ≡ ip = some-injective _ _ e in
    ap ip_string (bytes_eq (omega arith) (omega arith) (omega arith) (omega arith))
  where
    bytes_eq :
        {x y z w : ℕ}
        → x ≡ a
        → y ≡ b
        → z ≡ c
        → w ≡ d
        → ◌≡◌ {A = List ℕ} (x ∷ y ∷ z ∷ w ∷ []) (a ∷ b ∷ c ∷ d ∷ [])
    bytes_eq p q r s = λ i. p i ∷ q i ∷ r i ∷ s i ∷ []
