-- ===== src/Lib.antt =====
-- The verification library of the NetworkDoctor agent: a BPF program that counts TCP, UDP, DNS and
-- scheduler events in maps, and a Go agent that loads it, reads the maps for Prometheus, logs the
-- anomalies it reports and removes stale entries.
--
-- The parts, and the files that model them (paths from the repository's root):
--   Base       Boolean tests and lists over the native numbers, machine words.
--   Platform   what the program runs on, as records of operations with the documented laws: BPF maps
--              (bpf_map_*_elem and cilium/ebpf) and float64.
--   Histogram  nd_log2_bucket of bpf/networkdoctor.bpf.c and internal/metrics/histogram.go.
--   Kernel     bpf/networkdoctor.bpf.c: Kernel the structs and the maps (`Objects`), Kernel.Helpers and
--              Kernel.Update the nd_* helpers, Kernel.Tcp nd_inet_sock_set_state,
--              nd_tcp_rcv_established and nd_tcp_retransmit_skb, Kernel.Packet and Kernel.Udp
--              nd_parse_ipv4_udp with nd_tc_ingress and nd_tc_egress, Kernel.Sched the nd_sched_* hooks.
--              Kernel.Tcp.Bursts, Kernel.Tcp.Reports and Kernel.Udp.Flows follow one flow over courses of
--              hooks; Kernel.Packet.Datagram describes the bytes of a datagram apart from the parser.
--   Model      internal/model/types.go.
--   Snapshot   internal/bpf/reader.go: Snapshot and the sums over the CPUs.
--   Gc         internal/bpf/gc.go: GC, gcDNSPending, gcUDPFlows.
--   Config     internal/config/config.go, the Options in internal/app/app.go, internal/bpf/config.go.
--   Runtime    internal/bpf/runtime.go, attach.go, tc.go and util.go: Start and Close;
--              Runtime.Filters the filters that attachTC builds, Runtime.Held what a trace leaves
--              acquired, where a resource counts as closed once its Close has been called,
--              Runtime.Placed what the calls of a trace do to the filters of the interfaces, and
--              Runtime.Attached that for Start.
--   Event      internal/bpf/events.go: ReadEvent; Event.Lines describes the line of the log for an
--              event, and Event.Layout the bytes of a sample, both apart from the decoder.
--   Worker     internal/worker: RunEventWorker and RunGCWorker; Worker.Collections says of the
--              signals of a run what its collections are to leave and to log.
--   Collector  internal/metrics/collector.go: Describe and Collect.
--   App        internal/app/app.go, internal/metrics/server.go, cmd/networkdoctor-agent/main.go: Run
--              and Serve, from the flags to the exit status.
--   System     the hooks and the collections at work on the same maps, in any order and number
--              (`Step`, `Reach`); System.Gauges the states of sockets that a course of steps enters
--              and leaves; System.DnsTable and System.FlowTable the queries and the flows as tables that
--              users of them see, System.Courses the operations on such tables, of the connections
--              and the waiting tasks too, that a course stands for, read off its packets, sockets and
--              tasks, and what it adds to the counters that the scrape sums up.
--   Tests      the theorems at concrete inputs.
--
-- How they interact: the hooks and the agent share `Objects m`, the maps over a parameter `m` that
-- implements them; a hook is a function from Objects to Objects on one CPU, whose surroundings
-- (the CPU, the clock at each reading, the pid, the room in the ring buffer) are a `Hook`; Snapshot
-- and Gc read and delete in the same Objects; Event reads the bytes of an NdEvent; Runtime makes
-- its calls in a monad whose trace says what is held; App composes Runtime with the answers of the
-- web server (`Web`) and with the goroutine that can end the process.
--
-- Bounds and fuel: numbers are natural; a field of w bits wraps by `% 2 ^ w` where the code adds, and
-- int64 values are given by their bit patterns. nd_log2_bucket recurs on the 31 rounds of its
-- unrolled loop and the histogram's loops on the 31 or 32 buckets; no other recursion has fuel: it is
-- on the lists that the iterators, the reader or the ticker deliver.
--
-- Not modelled: the text of logs and errors, the help texts, what the registry, the mux, the HTTP
-- server, the signals and netlink do (their answers are parameters), the parsing of the command line
-- (the parsed flags are a parameter), the capacity and the eviction policy of LRU maps (an update may
-- fail or evict, which the laws allow), and interleavings inside a hook: a hook is one step. Of the
-- goroutines, the panic of the collector's is modelled in App, and the two loops on their own in
-- Worker. ntohs is that of a little-endian machine.
pub mod Base
pub mod Platform
pub mod Histogram
pub mod Model
pub mod Kernel
pub mod Snapshot
pub mod Gc
pub mod Config
pub mod Runtime
pub mod Event
pub mod Worker
pub mod Collector
pub mod App
pub mod System
pub mod Tests
