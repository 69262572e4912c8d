-- ===== src/Event/Lines.antt =====
-- What a hook hands to nd_submit_event, as user space is to see it, described apart from the code that
-- writes and reads the bytes.
use Prim.Native.String.{String}
use networkdoctor_prestudy.Base.{
  ℕ, ◌%◌, ◌/◌, ◌^◌, ◌<◌, ◌≡◌, ap, ◌∙◌, arith, Bool, none, some, List, [], ◌∷◌,
}
use networkdoctor_prestudy.Kernel.{FlowKey, NdEvent}
use networkdoctor_prestudy.Kernel.Helpers.{EventType, event_number, nd_fill_event}
use networkdoctor_prestudy.Event.{
  Event, le_bytes, event_bytes, ipv4_string, to_event, read_event, sample, ok,
}
use networkdoctor_prestudy.Event.RoundTrip.{read_event-event_bytes}

-- The fields of a flow that an event carries, in the ranges of their C types.
pub record FlowInRange (flow : FlowKey) : Type 0 where
  pub ifindex : flow.ifindex < 2 ^ 32
  pub src_ip : flow.src_ip < 2 ^ 32
  pub dst_ip : flow.dst_ip < 2 ^ 32
  pub src_port : flow.src_port < 2 ^ 16
  pub dst_port : flow.dst_port < 2 ^ 16

event_number-lt : (type : EventType) → event_number type < 2 ^ 32
event_number-lt type = ground arith

module _ (ip_string : List ℕ → String) where
  -- An address in the order of its bytes in a packet.
  abbrev pub dotted : ℕ → String
  dotted ip = ip_string (ip % 256 ∷ ip / 256 % 256 ∷ ip / 65536 % 256 ∷ ip / 16777216 % 256 ∷ [])

  abbrev pub shown : NdEvent → Event
  shown e = record {
    type = e.type;
    pid = e.pid;
    ifindex = e.ifindex;
    src_ip = dotted e.src_ip;
    dst_ip = dotted e.dst_ip;
    src_port = e.src_port;
    dst_port = e.dst_port;
    value_us = e.value_us;
    aux = e.aux;
  }

  ipv4_string-dotted : (ip : ℕ) → ipv4_string ip_string ip ≡ dotted ip
  unfolding ipv4_string le_bytes
  ipv4_string-dotted ip = ap ip_string (four (omega arith) (omega arith) (omega arith))
    where
      four :
          {x y z x' y' z' w : ℕ}
          → x ≡ x'
          → y ≡ y'
          → z ≡ z'
          → ◌≡◌ {A = List ℕ} (w ∷ x ∷ y ∷ z ∷ []) (w ∷ x' ∷ y' ∷ z' ∷ [])
      four {w} p q r = λ i. w ∷ p i ∷ q i ∷ r i ∷ []

  pub to_event-shown : (e : NdEvent) → to_event ip_string e ≡ shown e
  unfolding to_event
  to_event-shown e = λ i. record {
    type = e.type;
    pid = e.pid;
    ifindex = e.ifindex;
    src_ip = ipv4_string-dotted e.src_ip i;
    dst_ip = ipv4_string-dotted e.dst_ip i;
    src_port = e.src_port;
    dst_port = e.dst_port;
    value_us = e.value_us;
    aux = e.aux;
  }

  -- An event that a hook fills in, with its arguments in the ranges of their C types, is read back,
  -- whether or not the context is done by then, with the number of its type, the pid, the value and the
  -- auxiliary value that the hook has given, and with the interface, the addresses and the ports of
  -- the flow, each address printed from its bytes in the order of the packet; without a flow, these
  -- are zero. The time of the event is not read back.
  pub read_event-nd_fill_event :
      (ctx_done : Bool) (type : EventType) (flow : FlowKey) (value_us aux pid ts : ℕ)
      → FlowInRange flow
      → value_us < 2 ^ 64
      → aux < 2 ^ 64
      → pid < 2 ^ 32
      → ts < 2 ^ 64
      → (read_event ip_string ctx_done
            (sample (event_bytes (nd_fill_event type (some flow) value_us aux pid ts)))
          ≡ ok (record {
            type = event_number type;
            pid = pid;
            ifindex = flow.ifindex;
            src_ip = dotted flow.src_ip;
            dst_ip = dotted flow.dst_ip;
            src_port = flow.src_port;
            dst_port = flow.dst_port;
            value_us = value_us;
            aux = aux;
          }))
        × (read_event ip_string ctx_done
              (sample (event_bytes (nd_fill_event type none value_us aux pid ts)))
            ≡ ok (record {
              type = event_number type;
              pid = pid;
              ifindex = 0;
              src_ip = ip_string (0 ∷ 0 ∷ 0 ∷ 0 ∷ []);
              dst_ip = ip_string (0 ∷ 0 ∷ 0 ∷ 0 ∷ []);
              src_port = 0;
              dst_port = 0;
              value_us = value_us;
              aux = aux;
            }))
  unfolding nd_fill_event
  read_event-nd_fill_event ctx_done type flow value_us aux pid ts f hv ha hp ht =
      let with_flow : NdEvent = nd_fill_event type (some flow) value_us aux pid ts in
      let without : NdEvent = nd_fill_event type none value_us aux pid ts in
      (
        read_event-event_bytes ip_string ctx_done with_flow (record {
          type = event_number-lt type;
          pid = hp;
          ts_ns = ht;
          ifindex = f.ifindex;
          src_ip = f.src_ip;
          dst_ip = f.dst_ip;
          src_port = f.src_port;
          dst_port = f.dst_port;
          value_us = hv;
          aux = ha;
        })
            ∙ ap ok (to_event-shown with_flow),
        read_event-event_bytes ip_string ctx_done without (record {
          type = event_number-lt type;
          pid = hp;
          ts_ns = ht;
          ifindex = omega arith;
          src_ip = omega arith;
          dst_ip = omega arith;
          src_port = omega arith;
          dst_port = omega arith;
          value_us = hv;
          aux = ha;
        })
            ∙ ap ok (to_event-shown without),
      )
