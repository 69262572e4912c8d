-- ===== src/Event.antt =====
-- The events on their way to user space: struct nd_event of bpf/networkdoctor.bpf.c, as its bytes in
-- the ring buffer, and internal/bpf/events.go, which decodes them.
pub mod RoundTrip
pub mod Lines
pub mod Layout
use Prim.Native.String.{String}
use networkdoctor_prestudy.Base.{
  ℕ, zero, suc, ◌+◌, ◌*◌, ◌/◌, ◌%◌, Bool, ◌||◌, Option, none, some, List, [], ◌∷◌, ◌++◌,
  if◌then◌else◌,
}
use networkdoctor_prestudy.Kernel.{NdEvent}

infixl 5 ◌>>=◌
abbrev pub ◌>>=◌ {ℓ κ} : {A : Type ℓ} {B : Type κ} → Option A → (A → Option B) → Option B
none >>= f = none
some a >>= f = f a

-- The low `w` bytes of a number, the lowest first.
unfoldable pub le_bytes : ℕ → ℕ → List ℕ
le_bytes zero n = []
le_bytes (suc w) n = (n % 256) ∷ le_bytes w (n / 256)

-- encoding/binary's LittleEndian on the next `w` bytes; `none` where there are too few.
unfoldable pub read_le : ℕ → List ℕ → Option (ℕ × List ℕ)
read_le zero bytes = some (0, bytes)
read_le (suc w) [] = none
read_le (suc w) (b ∷ bytes) = do (high, rest) ← read_le w bytes; some (b + 256 * high, rest)

-- The layout of struct nd_event, which has no padding: 48 bytes.
unfoldable pub event_bytes : NdEvent → List ℕ
event_bytes e =
    le_bytes 4 e.type
    ++ (le_bytes 4 e.pid
        ++ (le_bytes 8 e.ts_ns
            ++ (le_bytes 4 e.ifindex
                ++ (le_bytes 4 e.src_ip
                    ++ (le_bytes 4 e.dst_ip
                        ++ (le_bytes 2 e.src_port
                            ++ (le_bytes 2 e.dst_port
                                ++ (le_bytes 8 e.value_us ++ le_bytes 8 e.aux))))))))

-- binary.Read into the generated struct, field by field.
unfoldable pub read_nd_event : List ℕ → Option NdEvent
read_nd_event raw = do
  (type, raw) ← read_le 4 raw
  (pid, raw) ← read_le 4 raw
  (ts_ns, raw) ← read_le 8 raw
  (ifindex, raw) ← read_le 4 raw
  (src_ip, raw) ← read_le 4 raw
  (dst_ip, raw) ← read_le 4 raw
  (src_port, raw) ← read_le 2 raw
  (dst_port, raw) ← read_le 2 raw
  (value_us, raw) ← read_le 8 raw
  (aux, raw) ← read_le 8 raw
  some (record {
    type = type;
    pid = pid;
    ts_ns = ts_ns;
    ifindex = ifindex;
    src_ip = src_ip;
    dst_ip = dst_ip;
    src_port = src_port;
    dst_port = dst_port;
    value_us = value_us;
    aux = aux;
  })

-- model.Event.
pub record Event : Type 0 where
  pub type : ℕ
  pub pid : ℕ
  pub ifindex : ℕ
  pub src_ip : String
  pub dst_ip : String
  pub src_port : ℕ
  pub dst_port : ℕ
  pub value_us : ℕ
  pub aux : ℕ

-- What Reader.Read of the ring buffer answers: a raw sample, or an error, of which errors.Is says
-- whether it is ringbuf.ErrClosed.
pub data ReadResult : Type 0 where
  sample : List ℕ → ReadResult
  failed : Bool → ReadResult

pub data EventError : Type 0 where
  event_reader_closed : EventError
  read_failed : EventError
  decode_failed : EventError

pub data EventResult : Type 0 where
  ok : Event → EventResult
  err : EventError → EventResult

-- `ip_string` is net.IP's String on the four bytes of an address.
module _ (ip_string : List ℕ → String) where
  unfoldable pub ipv4_string : ℕ → String
  unfolding le_bytes
  ipv4_string ip = ip_string (le_bytes 4 ip)

  unfoldable pub to_event : NdEvent → Event
  unfolding ipv4_string
  to_event evt = record {
    type = evt.type;
    pid = evt.pid;
    ifindex = evt.ifindex;
    src_ip = ipv4_string evt.src_ip;
    dst_ip = ipv4_string evt.dst_ip;
    src_port = evt.src_port;
    dst_port = evt.dst_port;
    value_us = evt.value_us;
    aux = evt.aux;
  }

  -- `ctx_done` is ctx.Err() != nil after the read.
  unfoldable pub read_event : Bool → ReadResult → EventResult
  read_event ctx_done (failed closed) =
      if ctx_done || closed then err event_reader_closed else err read_failed
  read_event ctx_done (sample raw) = elim (read_nd_event raw) [
    | none ↦ err decode_failed
    | some evt ↦ ok (to_event evt)
  ]
