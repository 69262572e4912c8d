-- ===== src/Kernel/Udp/Dns.antt =====
-- A DNS query and its response.
use networkdoctor_prestudy.Base.{
  ℕ, ◌≡◌, refl, ap, ◌∙◌, arith, true, false, none, some, ltb, if◌then◌else◌, eq→==,
}
use networkdoctor_prestudy.Platform.{BpfMaps, MapLaws, NeverFails, lookup-delete_gone}
use networkdoctor_prestudy.Histogram.{nd_log2_bucket}
use networkdoctor_prestudy.Kernel.{Objects, FlowKey, DnsKey, DnsKey-discrete, DnsPending}
use networkdoctor_prestudy.Kernel.Helpers.{Hook}
use networkdoctor_prestudy.Kernel.Update.{
  nd_inc_u64_percpu_array, nd_inc_dns_counter, nd_submit_event_no_pid,
}
use networkdoctor_prestudy.Kernel.Packet.{UdpHeader, DnsHeader}
use networkdoctor_prestudy.Kernel.Udp.{
  SkBuff, dns_port, is_response, dns_rcode, micros_since, query_key, response_key, dns_query,
  count_rcode, settle, dns_response, account_dns,
}

-- The response comes back on the same interface with addresses, ports and id to match.
pub record Answers (skb : SkBuff) (udp : UdpHeader) (txid : ℕ) (skb' : SkBuff) (udp' : UdpHeader)
    (txid' : ℕ) : Type 0 where
  pub ifindex : skb'.ifindex ≡ skb.ifindex
  pub saddr : udp'.saddr ≡ udp.daddr
  pub daddr : udp'.daddr ≡ udp.saddr
  pub sport : udp'.sport ≡ udp.dport
  pub dport : udp'.dport ≡ udp.sport
  pub same_id : txid' ≡ txid

response_key-query_key :
    (skb skb' : SkBuff) (udp udp' : UdpHeader) (txid txid' : ℕ)
    → Answers skb udp txid skb' udp' txid'
    → response_key skb' udp' txid' ≡ query_key skb udp txid
response_key-query_key skb skb' udp udp' txid txid' a = ground arith

module _ (m : BpfMaps) where
  open m use {lookup, update, delete, PerCpu}

  -- The latency histogram after a sample, which is taken only if it is positive.
  abbrev pub sampled : Hook → ℕ → PerCpu ℕ → PerCpu ℕ
  sampled h latency_us hist =
      if ltb 0 latency_us
      then nd_inc_u64_percpu_array m hist h.cpu (nd_log2_bucket latency_us)
      else hist

  pub count_rcode-frame :
      (h : Hook) (flow : FlowKey) (rcode : ℕ) (o : Objects m)
      → let o' = count_rcode m h flow rcode o in
        (o'.nd_dns_pending ≡ o.nd_dns_pending)
        × (o'.nd_dns_latency_us_hist ≡ o.nd_dns_latency_us_hist)
  unfolding count_rcode nd_submit_event_no_pid nd_inc_dns_counter
  count_rcode-frame h flow rcode o = (ground arith, ground arith)

  settle_lem :
      (h : Hook) (flow : FlowKey) (key : DnsKey) (rcode : ℕ) (pending : DnsPending) (o : Objects m)
      → let o' = settle m h flow key rcode pending o in
        (o'.nd_dns_pending ≡ (delete o.nd_dns_pending key).0)
        × (o'.nd_dns_latency_us_hist
            ≡ sampled h (micros_since (h.ktime 0) pending.start_ns) o.nd_dns_latency_us_hist)
  unfolding settle nd_submit_event_no_pid nd_inc_dns_counter
  settle_lem h flow key rcode pending o = (ground arith, ground arith)

  -- A response under a pending key records the latency and settles the query.
  pub dns_response_lem :
      (h : Hook) (flow : FlowKey) (key : DnsKey) (rcode : ℕ) (pending : DnsPending) (o : Objects m)
      → lookup o.nd_dns_pending key ≡ some pending
      → let o' = dns_response m h flow key rcode o in
        (o'.nd_dns_pending ≡ (delete o.nd_dns_pending key).0)
        × (o'.nd_dns_latency_us_hist
            ≡ sampled h (micros_since (h.ktime 0) pending.start_ns) o.nd_dns_latency_us_hist)
  unfolding dns_response nd_inc_dns_counter
  dns_response_lem h flow key rcode pending o e =
      let counted = count_rcode m h flow rcode (nd_inc_dns_counter m h 1 o) in
      let (same_pending, same_hist) = count_rcode-frame h flow rcode (nd_inc_dns_counter m h 1 o) in
      let found : lookup counted.nd_dns_pending key ≡ some pending =
        ap (λ s. lookup s key) same_pending ∙ e in
      let (p, q) = settle_lem h flow key rcode pending counted in
      rw (dns_response, found)
        (
          p ∙ ap (λ s. (delete s key).0) same_pending,
          q ∙ ap (sampled h (micros_since (h.ktime 0) pending.start_ns)) same_hist,
        )

  pub account_dns-query :
      (h : Hook) (skb : SkBuff) (flow : FlowKey) (udp : UdpHeader) (dns : DnsHeader) (o : Objects m)
      → is_response dns.flags ≡ false
      → udp.dport ≡ dns_port
      → account_dns m h skb flow udp dns o ≡ dns_query m h (query_key skb udp dns.txid) o
  unfolding account_dns
  account_dns-query h skb flow udp dns o q port = rw (account_dns, q, eq→== udp.dport dns_port port)

  pub account_dns-response :
      (h : Hook) (skb : SkBuff) (flow : FlowKey) (udp : UdpHeader) (dns : DnsHeader) (o : Objects m)
      → is_response dns.flags ≡ true
      → udp.sport ≡ dns_port
      → account_dns m h skb flow udp dns o
        ≡ dns_response m h flow (response_key skb udp dns.txid) (dns_rcode dns.flags) o
  unfolding account_dns
  account_dns-response h skb flow udp dns o r port =
      rw (account_dns, r, eq→== udp.sport dns_port port)

  -- A query to port 53 and, in the next step, the response from port 53 that answers it, if the map
  -- takes the query and no delete fails: the latency histogram gets one sample, in the bucket of
  -- the whole microseconds between the two, unless that is 0 or the clock ran back, and then
  -- it stays as it was; and the query is no longer pending.
  pub query-response :
      MapLaws m
      → NeverFails m DnsKey DnsKey-discrete DnsPending
      → (h h' : Hook) (skb skb' : SkBuff) (flow flow' : FlowKey) (udp udp' : UdpHeader)
        (dns dns' : DnsHeader) (o : Objects m)
      → is_response dns.flags ≡ false
      → udp.dport ≡ dns_port
      → is_response dns'.flags ≡ true
      → Answers skb udp dns.txid skb' udp' dns'.txid
      → lookup (account_dns m h skb flow udp dns o).nd_dns_pending (query_key skb udp dns.txid)
        ≡ some (record { start_ns = h.ktime 0 })
      → let key = query_key skb udp dns.txid in
        let asked = account_dns m h skb flow udp dns o in
        let answered = account_dns m h' skb' flow' udp' dns' asked in
        (answered.nd_dns_latency_us_hist
          ≡ sampled h' (micros_since (h'.ktime 0) (h.ktime 0)) o.nd_dns_latency_us_hist)
        × (lookup answered.nd_dns_pending key ≡ none)
  query-response laws ok h h' skb skb' flow flow' udp udp' dns dns' o q port r a taken =
      let key = query_key skb udp dns.txid in
      let asked = account_dns m h skb flow udp dns o in
      let is_asked = account_dns-query h skb flow udp dns o q port in
      let same_key = response_key-query_key skb skb' udp udp' dns.txid dns'.txid a in
      let answer = account_dns-response h' skb' flow' udp' dns' asked r (a.sport ∙ port) in
      let (settled, latency) =
        dns_response_lem h' flow' (response_key skb' udp' dns'.txid) (dns_rcode dns'.flags)
          (record { start_ns = h.ktime 0 }) asked (rw same_key taken) in
      (
        ap (λ x. x.nd_dns_latency_us_hist) answer ∙ latency ∙ ap (sampled h' _) (hist is_asked),
        ap (λ x. lookup x.nd_dns_pending key) answer
            ∙ ap (λ s. lookup s key) settled
            ∙ rw same_key (
                lookup-delete_gone m DnsKey DnsKey-discrete DnsPending laws ok asked.nd_dns_pending
                  key),
      )
    where
      hist :
          {x : Objects m}
          → x ≡ dns_query m h (query_key skb udp dns.txid) o
          → x.nd_dns_latency_us_hist ≡ o.nd_dns_latency_us_hist
      hist e = ap (λ x. x.nd_dns_latency_us_hist) e ∙ unfold dns_query nd_inc_dns_counter in refl
