-- ===== src/Vlancache/Handler.antt =====
-- plugins/vlancache/handler.go: `ServeDNS`, the fetch of an answer that is not cached, and what they
-- report to the query log. The singleflight group decides which caller leads a fetch.
pub mod Fetch
pub mod Laws
pub mod Outcome
mod Tests
use bramble_gate.Prelude.{
  ℕ, Bool, true, false, ◌&&◌, not, Option, none, some, List, [], ◌∷◌, if◌then◌else◌, is_nil,
  GoString, codes, Ip, IpNet, net_contains,
}
use bramble_gate.Prelude.Int.{ℤ, pos, ltb_ℤ}
use bramble_gate.Prelude.Results.{Result, ok, err}
use bramble_gate.Dns.{Library, Msg}
use bramble_gate.Vlanmatch
use bramble_gate.Querylog.Entry as Querylog
use bramble_gate.Vlancache.Entry.{Entry, new_entry, to_msg}
use bramble_gate.Vlancache.Key.{hash_direct, hash_scoped}
use bramble_gate.Vlancache.Policy.{
  ResponseType, server_error, Upstream, near_expiry, cacheable, ttl_for, scope_prefix,
}
use bramble_gate.Vlancache.Store.{
  Store, get_scoped, get_direct, set_scoped, set_direct, generation, if_current,
}

-- dns.RcodeSuccess and dns.RcodeServerFailure
abbrev pub rcode_success : ℤ
rcode_success = pos 0

abbrev pub rcode_server_failure : ℤ
rcode_server_failure = pos 2

-- The query log's entry in flight, if the request has one.
abbrev pub Log : Type 0
Log = Option Querylog.Entry

-- `attribute`
unfoldable pub attribute : GoString → Log → Log
attribute verdict none = none
attribute verdict (some e) = some (record e { source = codes "vlancache"; verdict = verdict })

-- `attributeCache`
unfoldable pub attribute_cache : GoString → Log → Log
attribute_cache outcome none = none
attribute_cache outcome (some e) = some (record e { cache_outcome = outcome })

-- The key of a flight: the bucket's alone, or with the address of one host behind it.
pub data FlightKey : Type 0 where
  bucket_key : ℕ → FlightKey
  host_key : ℕ → Option Ip → FlightKey

-- `VlanCache`, its settings: the store and the flights are passed along.
pub record VlanCache : Type 0 where
  pub vlans : Vlanmatch.Table
  pub fail_ttl : ℤ
  pub prefetch : Bool
  pub stale_ttl : ℤ

-- A request as request.Request reads it. `question_name` is r.Question[0].Name: coredns refuses a
-- message without a question before it calls a plugin.
pub record Request (Rr : Type 0) : Type 0 where
  pub ip : Option Ip
  pub qname : GoString
  pub qtype : ℕ
  pub do_bit : Bool
  pub question_name : GoString
  pub msg : Msg Rr

-- `hitKeys`, without the flight's key, which the direct key determines.
pub record HitKeys : Type 0 where
  pub direct_key : ℕ
  pub scoped_key : ℕ
  pub ip : Option Ip
  pub qname : GoString
  pub qtype : ℕ
  pub do_bit : Bool
  pub cd_bit : Bool

-- `fetchResult`
pub record FetchResult (Rr : Type 0) : Type 0 where
  pub msg : Msg Rr
  pub prefix : Option IpNet

-- errNoUpstreamResponse
pub data FetchError : Type 0 where
  no_upstream_response : FetchError

-- The arguments of a call of `fetch`.
pub record Call (Rr : Type 0) : Type 0 where
  pub key : FlightKey
  pub direct_key : ℕ
  pub scoped_key : ℕ
  pub ip : Option Ip
  pub question_name : GoString
  pub req : Msg Rr
  pub now : ℤ

-- What the next plugin did: the message that it wrote, if any, and whether it returned an error.
pub record Next (Rr : Type 0) : Type 0 where
  pub msg : Option (Msg Rr)
  pub failed : Bool

-- How the singleflight group runs a call. The leader asks the next plugin, and meanwhile other
-- goroutines change the store; any other caller shares the result of the leader's call.
pub data Flight (Rr : Type 0) : Type 0 where
  led : Next Rr → (Store Rr → Store Rr) → Flight Rr
  joined : Call Rr → Next Rr → Flight Rr

-- Where an answer is kept.
pub data Storage (Rr : Type 0) : Type 0 where
  keep_nothing : Storage Rr
  keep_direct : Entry Rr → Storage Rr
  keep_scoped : IpNet → Entry Rr → Storage Rr

-- What a request comes to: the store, the log, a refresh in the background, the message written,
-- and the results of `ServeDNS`.
pub record Served (Rr : Type 0) : Type 0 where
  pub store : Store Rr
  pub log : Log
  pub refresh : Option HitKeys
  pub written : Option (Msg Rr)
  pub rcode : ℤ
  pub failed : Bool

abbrev pub is_server_error : ResponseType → Bool
is_server_error server_error = true
is_server_error _ = false

module _ {Rr : Type 0} where
  -- `fetchResult.appliesTo`
  unfoldable pub applies_to : FetchResult Rr → Option Ip → Bool
  applies_to fr none = true
  applies_to fr (some ip) = elim fr.prefix [ none ↦ true | some p ↦ net_contains p ip ]

  -- `toClientReply`
  unfoldable pub to_client_reply : Msg Rr → Msg Rr → Bool → Bool → Msg Rr
  to_client_reply res req do_bit ad_bit = record res {
    id = req.id;
    question = if is_nil req.question then res.question else req.question;
    response = true;
    authenticated_data = if not do_bit && not ad_bit then false else res.authenticated_data;
  }

  -- `onHit`: the log, and whether an entry is refreshed in the background.
  unfoldable pub on_hit : VlanCache → Entry Rr → Bool → ℤ → HitKeys → Log → Log × Option HitKeys
  unfolding attribute_cache
  on_hit c e fresh now k log =
      if not fresh then (attribute_cache (codes "stale") log, some k) else (
        attribute_cache (codes "hit") log,
        if c.prefetch && near_expiry e now then some k else none,
      )

  -- The network for which the result of a fetch is valid, if not for all.
  abbrev pub prefix_of : Storage Rr → Option IpNet
  prefix_of keep_nothing = none
  prefix_of (keep_direct e) = none
  prefix_of (keep_scoped p e) = some p

  -- The arguments of a call for a request.
  abbrev pub call_of : HitKeys → Request Rr → ℤ → FlightKey → Call Rr
  call_of k r now key = record {
    key = key;
    direct_key = k.direct_key;
    scoped_key = k.scoped_key;
    ip = r.ip;
    question_name = r.question_name;
    req = r.msg;
    now = now;
  }

  -- `w.WriteMsg` and the two results after it.
  abbrev pub write : Bool → Msg Rr → Store Rr → Log → Option HitKeys → Served Rr
  write writes m s log k = record {
    store = s;
    log = log;
    refresh = k;
    written = some m;
    rcode = if writes then rcode_success else rcode_server_failure;
    failed = not writes;
  }

  -- An error of `fetch`
  abbrev pub fetch_failed : Store Rr → Log → Served Rr
  fetch_failed s log = record {
    store = s;
    log = log;
    refresh = none;
    written = none;
    rcode = rcode_server_failure;
    failed = true;
  }

module _ {Rr : Type 0} (dns : Library Rr) (up : Upstream Rr)
    (add : ℕ → Entry Rr → List (ℕ × Entry Rr) → List (ℕ × Entry Rr)) where
  -- The response of a fetch: the message written, or a server failure in its place.
  unfoldable pub response_of : Call Rr → Next Rr → Result FetchError (Msg Rr)
  response_of call next = elim next.msg [
    | some m ↦ ok m
    | none ↦
        if next.failed
        then ok (up.set_rcode call.req rcode_server_failure)
        else err no_upstream_response
  ]

  -- The tier for a cached entry.
  unfoldable pub tier_of : Call Rr → Msg Rr → ResponseType → Entry Rr → Storage Rr
  tier_of call res mt e = elim (scope_prefix dns up res call.ip) [
    | none ↦ keep_direct e
    | some p ↦ if not (is_server_error mt) then keep_scoped p e else keep_direct e
  ]

  -- The branches of `fetch` that decide what to store.
  unfoldable pub storage_of : VlanCache → Call Rr → Msg Rr → Storage Rr
  unfolding tier_of
  storage_of c call res =
      let mt = up.typify res call.now in
      let duration = ttl_for dns up c.fail_ttl res mt in
      if cacheable dns up res mt
      then (if ltb_ℤ (pos 0) duration
          then tier_of call res mt
              (new_entry dns (up.canonical_name call.question_name) res call.now duration)
          else keep_nothing)
      else keep_nothing

  -- The store through `ifCurrent`.
  unfoldable pub commit : ℕ → Call Rr → Storage Rr → Store Rr → Store Rr
  commit gen call keep_nothing s = s
  commit gen call (keep_direct e) s = if_current gen (λ t. set_direct add t call.direct_key e) s
  commit gen call (keep_scoped p e) s = if_current gen (λ t. set_scoped t call.scoped_key p e) s

  -- What the function given to the group returns.
  unfoldable pub result_of : VlanCache → Call Rr → Next Rr → Result FetchError (FetchResult Rr)
  result_of c call next = elim (response_of call next) [
    | err x ↦ err x
    | ok res ↦ ok (record { msg = res; prefix = prefix_of (storage_of c call res) })
  ]

  -- What it stores, in the generation that it read before it asked.
  unfoldable pub store_result : VlanCache → Call Rr → Next Rr → ℕ → Store Rr → Store Rr
  store_result c call next gen s = elim (response_of call next) [
    | err x ↦ s
    | ok res ↦ commit gen call (storage_of c call res) s
  ]

  -- `fetch`: the result, whether this caller led, and the store.
  unfoldable pub fetch :
      VlanCache
      → Call Rr
      → Flight Rr
      → Store Rr
      → Result FetchError (FetchResult Rr) × Bool × Store Rr
  fetch c call (led next others) s =
      (result_of c call next, true, store_result c call next (generation s) (others s))
  fetch c call (joined leader next) s = (result_of c leader next, false, s)

  -- The request that `refresh` makes, and its fetch.
  unfoldable pub refresh_request : HitKeys → Msg Rr
  refresh_request k =
      let req = record (up.set_question k.qname k.qtype) { checking_disabled = k.cd_bit } in
      if k.do_bit then up.set_edns0 req 4096 true else req

  unfoldable pub refresh : VlanCache → HitKeys → ℤ → Flight Rr → Store Rr → Store Rr
  unfolding refresh_request
  refresh c k now flight s =
      (fetch c
        (record {
          key = bucket_key k.direct_key;
          direct_key = k.direct_key;
          scoped_key = k.scoped_key;
          ip = k.ip;
          question_name = k.qname;
          req = refresh_request k;
          now = now;
        })
        flight s).2

  -- The keys of a request.
  unfoldable pub vlan_bucket : VlanCache → Option Ip → GoString
  vlan_bucket c ip = elim (Vlanmatch.lookup c.vlans ip) [ none ↦ [] | some b ↦ b ]

  unfoldable pub keys_of : VlanCache → Request Rr → HitKeys
  keys_of c r = record {
    direct_key = hash_direct (vlan_bucket c r.ip) r.qname r.qtype r.do_bit r.msg.checking_disabled;
    scoped_key = hash_scoped r.qname r.qtype r.do_bit r.msg.checking_disabled;
    ip = r.ip;
    qname = r.qname;
    qtype = r.qtype;
    do_bit = r.do_bit;
    cd_bit = r.msg.checking_disabled;
  }

  -- An entry found: `attribute`, `onHit` and `reply`.
  unfoldable pub serve_hit :
      VlanCache → Request Rr → HitKeys → ℤ → Bool → Store Rr → Log → Entry Rr → Bool → Served Rr
  unfolding on_hit attribute
  serve_hit c r k now writes s log e fresh =
      let (log', refreshed) = on_hit c e fresh now k (attribute (codes "cached") log) in
      write writes (to_msg dns e r.msg now r.do_bit r.msg.authenticated_data) s log' refreshed

  -- The reply from a fetch, with its attribution.
  unfoldable pub serve_fetched :
      Request Rr → Bool → Store Rr → Log → Result FetchError (FetchResult Rr) → Bool → Served Rr
  unfolding attribute attribute_cache
  serve_fetched r writes s log (err x) leader = fetch_failed s log
  serve_fetched r writes s log (ok fr) leader =
      write writes (to_client_reply fr.msg r.msg r.do_bit r.msg.authenticated_data) s
        (if leader
          then attribute_cache (codes "miss") log
          else attribute_cache (codes "coalesced") (attribute (codes "coalesced") log))
        none

  -- Neither tier has an entry: the fetch for the bucket, and the one for the host alone when the
  -- result does not apply to it.
  unfoldable pub fetch_applicable :
      VlanCache
      → Request Rr
      → HitKeys
      → ℤ
      → Flight Rr
      → Flight Rr
      → Store Rr
      → Result FetchError (FetchResult Rr) × Bool × Store Rr
  fetch_applicable c r k now first second s =
      let (res, leader, s1) = fetch c (call_of k r now (bucket_key k.direct_key)) first s in
      elim res [
        | err x ↦ (err x, leader, s1)
        | ok fr ↦
            if applies_to fr r.ip
            then (ok fr, leader, s1)
            else fetch c (call_of k r now (host_key k.direct_key r.ip)) second s1
      ]

  unfoldable pub serve_miss :
      VlanCache
      → Request Rr
      → HitKeys
      → ℤ
      → Bool
      → Flight Rr
      → Flight Rr
      → Store Rr
      → Log
      → Served Rr
  serve_miss c r k now writes first second s log =
      let (res, leader, s') = fetch_applicable c r k now first second s in
      serve_fetched r writes s' log res leader

  -- `VlanCache.ServeDNS`
  unfoldable pub serve_dns :
      VlanCache → Request Rr → ℤ → Bool → Flight Rr → Flight Rr → Store Rr → Log → Served Rr
  serve_dns c r now writes first second s log =
      let k = keys_of c r in
      elim (get_scoped s k.scoped_key r.ip now c.stale_ttl) [
        | some (e, fresh) ↦ serve_hit c r k now writes s log e fresh
        | none ↦ elim (get_direct s k.direct_key now c.stale_ttl) [
          | some (e, fresh) ↦ serve_hit c r k now writes s log e fresh
          | none ↦ serve_miss c r k now writes first second s log
        ]
      ]
