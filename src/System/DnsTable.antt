-- ===== src/System/DnsTable.antt =====
-- nd_dns_pending as its users see it: a table of the start times of the queries that are open. The
-- hooks and the collector are three operations on it.
use networkdoctor_prestudy.Base.{
  ℕ, ◌≡◌, ◌⊎◌, refl, ap, ◌∙◌, arith, true, false, Option, none, some, List, [], ◌∷◌, inl, inr,
  Option-cases,
}
use mathlib.Core.Option
use mathlib.Core.Path.{fun_ext}
use networkdoctor_prestudy.Platform.{BpfMaps, MapLaws, NeverFull, lookup-delete_gone}
use networkdoctor_prestudy.Kernel.{Objects, FlowKey, DnsKey, DnsKey-discrete, DnsPending}
use networkdoctor_prestudy.Kernel.Helpers.{Hook}
use networkdoctor_prestudy.Kernel.Update.{nd_inc_dns_counter}
use networkdoctor_prestudy.Kernel.Packet.{UdpHeader, DnsHeader}
use networkdoctor_prestudy.Kernel.Udp.{
  SkBuff, dns_port, is_response, dns_rcode, query_key, response_key, account_dns, dns_query,
  dns_response,
}
use networkdoctor_prestudy.Kernel.Udp.Dns.{
  account_dns-query, account_dns-response, dns_response_lem, count_rcode-frame,
}
use networkdoctor_prestudy.Gc.{gc_dns_pending}
use networkdoctor_prestudy.System.Table.{replays, set_at, set_at-eq}
use networkdoctor_prestudy.Gc.Expiry.{Lists, is_fresh, retain, gc_dns_pending_lem}

abbrev pub Table : Type 0
Table = DnsKey → Option ℕ

-- A query is asked at a time, or answered; or those that are older than a timeout are given up.
pub data Op : Type 0 where
  ask : DnsKey → ℕ → Op
  answer : DnsKey → Op
  expire : ℕ → ℕ → Op

abbrev pub apply : Op → Table → Table
apply (ask key now) t = set_at DnsKey-discrete t key (some now)
apply (answer key) t = set_at DnsKey-discrete t key none
apply (expire now timeout) t = λ k. retain (is_fresh now timeout) (t k)

abbrev pub replay : List Op → Table → Table
replay = replays apply

-- What the maps hold, as a table.
abbrev pub table : (m : BpfMaps) → Objects m → Table
table m o k = Option.map (λ (v : DnsPending). v.start_ns) (m.lookup o.nd_dns_pending k)

-- What a DNS message on port 53 does, and what a collection does, by the operation it stands for. The
-- iterator of a collection yields the bindings of the map.
pub data DnsStep (m : BpfMaps) (o : Objects m) : Op → Objects m → Type 0 where
  query :
      (h : Hook) (skb : SkBuff) (flow : FlowKey) (udp : UdpHeader) (dns : DnsHeader)
      → is_response dns.flags ≡ false
      → udp.dport ≡ dns_port
      → DnsStep m o
          (ask (query_key skb udp dns.txid) (h.ktime 0))
          (account_dns m h skb flow udp dns o)
  response :
      (h : Hook) (skb : SkBuff) (flow : FlowKey) (udp : UdpHeader) (dns : DnsHeader)
      → is_response dns.flags ≡ true
      → udp.sport ≡ dns_port
      → DnsStep m o (answer (response_key skb udp dns.txid)) (account_dns m h skb flow udp dns o)
  collection :
      (entries : List (DnsKey × DnsPending)) (now timeout : ℕ)
      → Lists m o.nd_dns_pending entries
      → DnsStep m o
          (expire now timeout)
          (record o { nd_dns_pending = (gc_dns_pending m entries now timeout o.nd_dns_pending).0 })

-- Any course of such steps, between which other hooks may run that do not touch the map.
pub data DnsCourse (m : BpfMaps) : Objects m → List Op → Objects m → Type 0 where
  finished : {o : Objects m} → DnsCourse m o [] o
  next :
      {op : Op} {ops : List Op} {o s t : Objects m}
      → DnsStep m o op s
      → DnsCourse m s ops t
      → DnsCourse m o (op ∷ ops) t
  elsewhere :
      {ops : List Op} {o s t : Objects m}
      → s.nd_dns_pending ≡ o.nd_dns_pending
      → DnsCourse m s ops t
      → DnsCourse m o ops t

retain-map :
    (now timeout : ℕ) (x : Option DnsPending)
    → Option.map
        (λ (v : DnsPending). v.start_ns)
        (retain (λ (v : DnsPending). is_fresh now timeout v.start_ns) x)
      ≡ retain (is_fresh now timeout) (Option.map (λ (v : DnsPending). v.start_ns) x)
retain-map now timeout none = refl
retain-map now timeout (some v) = ground arith

module _ (m : BpfMaps) (laws : MapLaws m)
    (full : NeverFull m DnsKey DnsKey-discrete DnsPending) where
  open m use {lookup, delete, update}

  abbrev start_of : Option DnsPending → Option ℕ
  start_of = Option.map (λ (v : DnsPending). v.start_ns)

  dns_query-table :
      (h : Hook) (key : DnsKey) (o : Objects m) (k : DnsKey)
      → table m (dns_query m h key o) k
        ≡ set_at DnsKey-discrete (table m o) key (some (h.ktime 0)) k
  unfolding dns_query nd_inc_dns_counter
  dns_query-table h key o =
      set_at-eq DnsKey-discrete (table m o) key (some (h.ktime 0)) (table m (dns_query m h key o))
        (ap (Option.map (λ (v : DnsPending). v.start_ns)) (full.update_self o.nd_dns_pending key _))
        (λ k ne.
          ap (Option.map (λ (v : DnsPending). v.start_ns))
            (full.update_ne o.nd_dns_pending key k _ ne))

  -- A response to no open query leaves the map, any other deletes the query.
  dns_response-pending :
      (h : Hook) (flow : FlowKey) (key : DnsKey) (rcode : ℕ) (o : Objects m)
      → let o' = dns_response m h flow key rcode o in
        ((lookup o.nd_dns_pending key ≡ none) × (o'.nd_dns_pending ≡ o.nd_dns_pending))
        ⊎ (o'.nd_dns_pending ≡ (delete o.nd_dns_pending key).0)
  unfolding dns_response nd_inc_dns_counter
  dns_response-pending h flow key rcode o =
      let (same, hist) = count_rcode-frame m h flow rcode (nd_inc_dns_counter m h 1 o) in
      elim (Option-cases (lookup o.nd_dns_pending key)) [
        | inl e ↦ let e' = ap (λ s. lookup s key) same ∙ e in rw (dns_response, e') (inl (e, same))
        | inr (pending, e) ↦ inr (dns_response_lem m h flow key rcode pending o e).0
      ]

  dns_response-table :
      (h : Hook) (flow : FlowKey) (key : DnsKey) (rcode : ℕ) (o : Objects m) (k : DnsKey)
      → table m (dns_response m h flow key rcode o) k
        ≡ set_at DnsKey-discrete (table m o) key none k
  dns_response-table h flow key rcode o =
      let o' = dns_response m h flow key rcode o in
      elim (dns_response-pending h flow key rcode o) [
        | inl (open_none, same) ↦
            set_at-eq DnsKey-discrete (table m o) key none (table m o')
              (ap (λ s. start_of (lookup s key)) same ∙ ap start_of open_none)
              (λ k ne. ap (λ s. start_of (lookup s k)) same)
        | inr gone ↦
            set_at-eq DnsKey-discrete (table m o) key none (table m o')
              (ap (λ s. start_of (lookup s key)) gone
                ∙ ap start_of (
                    lookup-delete_gone m DnsKey DnsKey-discrete DnsPending laws full.never_fails
                      o.nd_dns_pending key))
              (λ k ne.
                ap (λ s. start_of (lookup s k)) gone
                ∙ ap start_of (laws.lookup-delete_ne o.nd_dns_pending key k ne))
      ]

  pub DnsStep-apply :
      {op : Op} {o o' : Objects m}
      → DnsStep m o op o'
      → (k : DnsKey) → table m o' k ≡ apply op (table m o) k
  DnsStep-apply {o} (query h skb flow udp dns q port) k =
      ap (λ x. table m x k) (account_dns-query m h skb flow udp dns o q port)
      ∙ dns_query-table h (query_key skb udp dns.txid) o k
  DnsStep-apply {o} (response h skb flow udp dns r port) k =
      ap (λ x. table m x k) (account_dns-response m h skb flow udp dns o r port)
      ∙ dns_response-table h flow (response_key skb udp dns.txid) (dns_rcode dns.flags) o k
  DnsStep-apply {o} (collection entries now timeout ls) k =
      ap start_of
        ((gc_dns_pending_lem m laws full.never_fails entries now timeout o.nd_dns_pending ls).0 k)
      ∙ retain-map now timeout (lookup o.nd_dns_pending k)

  -- If the map is never full, any course of DNS messages and collections, with any other hooks that
  -- leave the map alone in between, takes the map from table to table as the operations that the
  -- messages and the collections stand for do, under every key.
  pub DnsCourse-replay :
      {ops : List Op} {o o' : Objects m}
      → DnsCourse m o ops o'
      → (k : DnsKey) → table m o' k ≡ replay ops (table m o) k
  DnsCourse-replay finished k = refl
  DnsCourse-replay (next {op} {ops} st course) k =
      DnsCourse-replay course k ∙ ap (λ t. replay ops t k) (fun_ext (DnsStep-apply st))
  DnsCourse-replay (elsewhere {ops} same course) k =
      DnsCourse-replay course k ∙ ap (λ s. replay ops (λ j. start_of (lookup s j)) k) same
