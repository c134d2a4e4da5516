-- ===== src/Querylog/Handler.antt =====
-- plugins/querylog/handler.go and hosts.go: what is recorded of a query that passes the chain.
pub mod Laws
mod Tests
use bramble_gate.Prelude.{
  ℕ, ◌+◌, length, ltb, Bool, true, false, ◌&&◌, ◌++◌, Option, none, some, List, [], ◌∷◌, map, any,
  if◌then◌else◌, GoString, codes, str_eq, is_empty, to_lower, trim_space, has_suffix, Ip,
}
use bramble_gate.Prelude.Options.{◌>>=◌}
use bramble_gate.Prelude.Int.{ℤ, pos, ◌-ℤ◌, ltb_ℤ, eq_ℤ}
use bramble_gate.Dns.{Library, Msg}
use bramble_gate.Vlanmatch
use bramble_gate.Querylog.Entry.{Entry, ClientInfo, zero_entry}
use bramble_gate.Querylog.Ring.{Ring, push}
use bramble_gate.Querylog.Stats.{StatsRollup, observe}

-- dns.RcodeSuccess and dns.RcodeNameError
abbrev rcode_success : ℤ
rcode_success = pos 0

abbrev rcode_name_error : ℤ
rcode_name_error = pos 3

-- `normalizeHostName`
unfoldable pub normalize_host_name : GoString → GoString
normalize_host_name name =
    let folded = to_lower (trim_space name) in
    if has_suffix folded (codes ".") then folded else folded ++ codes "."

-- `SetHostNames`: the set, before any call `none`.
unfoldable pub set_host_names : List GoString → Option (List GoString)
unfolding normalize_host_name
set_host_names names = some (map normalize_host_name names)

-- `isHostName`
unfoldable pub is_host_name : Option (List GoString) → GoString → Bool
unfolding normalize_host_name
is_host_name none qname = false
is_host_name (some set) qname = any (str_eq (normalize_host_name qname)) set

-- `classifyFallback`: the verdict and the source.
unfoldable pub classify_fallback : ℤ → ℤ → ℤ → GoString × GoString
classify_fallback rcode latency threshold =
    if eq_ℤ rcode rcode_name_error
    then (codes "nxdomain", codes "forward")
    else if ltb_ℤ latency threshold
    then (codes "cached", codes "cache")
    else (codes "forwarded", codes "forward")

-- `QueryLog`, its settings, with the package's set of host names.
pub record QueryLog : Type 0 where
  pub vlans : Vlanmatch.Table
  pub cache_latency_threshold : ℤ
  pub host_names : Option (List GoString)

-- `defaultCacheLatencyThreshold` and `cacheLatencyThreshold`
abbrev pub default_cache_latency_threshold : ℤ
default_cache_latency_threshold = pos 2_000_000

unfoldable pub latency_threshold : QueryLog → ℤ
latency_threshold q =
    if ltb_ℤ (pos 0) q.cache_latency_threshold
    then q.cache_latency_threshold
    else default_cache_latency_threshold

-- A request as request.Request reads it, with the parsed address and the two readings of the clock.
pub record Request : Type 0 where
  pub ip : GoString
  pub parsed_ip : Option Ip
  pub qname : GoString
  pub qtype : ℕ
  pub local_addr : GoString
  pub proto : GoString
  pub start : ℤ
  pub end : ℤ

-- What the plugins behind do: the entry that they may have changed, the message that they wrote, if
-- any, the code that they returned and whether with an error.
pub record Downstream (Rr : Type 0) : Type 0 where
  pub entry : Entry
  pub msg : Option (Msg Rr)
  pub rcode : ℤ
  pub failed : Bool

-- `Store`, as far as `Record` uses it: the entries in its write channel, newest last, the channel's
-- capacity, and the count of the entries dropped.
pub record Buffer : Type 0 where
  pub pending : List Entry
  pub capacity : ℕ
  pub dropped : ℕ

-- `Store.Record`; `none` is a nil store.
unfoldable pub store_record : Option Buffer → Entry → Option Buffer
store_record none e = none
store_record (some b) e = some (
    if ltb (length b.pending) b.capacity
    then record b { pending = b.pending ++ (e ∷ []) }
    else record b { dropped = b.dropped + 1 })

-- What a query is recorded in: the ring, the store, the counters, and the observer of clients.
pub record State : Type 0 where
  pub ring : Ring
  pub store : Option Buffer
  pub stats : StatsRollup
  pub clients : List ClientInfo

-- `entry` before the plugins behind run.
unfoldable pub first_entry : QueryLog → Request → Entry
first_entry q r = record zero_entry {
  timestamp = r.start;
  client = record { ip = r.ip; vlan = Vlanmatch.name_of (Vlanmatch.lookup q.vlans r.parsed_ip) };
  qname = r.qname;
  qtype = r.qtype;
  listener = r.local_addr;
  proto = r.proto;
}

-- Source and verdict, unless a plugin behind set the source.
unfoldable pub attributed : QueryLog → ℤ → Entry → Entry
attributed q rcode e =
    if is_empty e.source
    then (if eq_ℤ rcode rcode_success && is_host_name q.host_names e.qname
        then record e { verdict = codes "local"; source = codes "hosts" }
        else (let (verdict, source) = classify_fallback rcode e.latency (latency_threshold q) in
            record e { verdict = verdict; source = source }))
    else e

unfoldable pub with_outcome : Entry → Entry
with_outcome e = if is_empty e.cache_outcome then record e { cache_outcome = codes "none" } else e

-- `observeClient`
unfoldable pub observe_client : ClientInfo → List ClientInfo → List ClientInfo
observe_client c cs = if is_empty c.ip then cs else c ∷ cs

-- `plugin.ClientWrite` of coredns, and dns.TypeToString of a key, are parameters.
module _ {Rr : Type 0} (dns : Library Rr) (client_write : ℤ → Bool)
    (type_to_string : ℕ → GoString) where
  -- The code that the recorder holds.
  unfoldable pub recorded_rcode : Downstream Rr → ℤ
  recorded_rcode d = elim d.msg [
    | some m ↦ m.rcode
    | none ↦ if client_write d.rcode then pos 0 else d.rcode
  ]

  abbrev pub answer_type : List Rr → GoString → GoString
  answer_type [] old = old
  answer_type (rr ∷ rrs) old = type_to_string (dns.rr_type rr)

  -- What the reply's message adds.
  unfoldable pub with_message : Option (Msg Rr) → Entry → Entry
  with_message none e = e
  with_message (some m) e = record e {
    authenticated_data = m.authenticated_data;
    answer_type = answer_type m.answer e.answer_type;
  }

  -- `entry` as it is recorded.
  unfoldable pub final_entry : QueryLog → Request → Downstream Rr → Entry
  final_entry q r d =
      let rcode = recorded_rcode d in
      with_message d.msg (
        with_outcome
          (attributed q rcode (record d.entry { latency = r.end -ℤ r.start; rcode = rcode })))

  -- The recording of an entry; `none` is a panic.
  unfoldable pub record_entry : Entry → State → Option State
  record_entry e s = do
    ring ← push s.ring e
    stats ← observe s.stats e
    some (record {
      ring = ring;
      store = store_record s.store e;
      stats = stats;
      clients = observe_client e.client s.clients;
    })

  -- `QueryLog.ServeDNS`, given the plugins behind: the state, and what it returns.
  unfoldable pub serve_dns :
      QueryLog → Request → (Entry → Downstream Rr) → State → Option (State × ℤ × Bool)
  serve_dns q r next s =
      let d = next (first_entry q r) in
      elim (record_entry (final_entry q r d) s) [
        | none ↦ none
        | some t ↦ some (t, d.rcode, d.failed)
      ]
