-- ===== src/Clientnames.antt =====
-- plugins/clientnames: the names of client addresses, from hosts, live discoveries and PTR queries.
pub mod Valid
pub mod Runs
pub mod Seen
pub mod Shown
pub mod Swept
pub mod Worked
mod Tests
use bramble_gate.Prelude.{
  ℕ, Bool, true, false, ◌&&◌, ◌||◌, not, Option, none, some, List, [], ◌∷◌, ◌++◌, map, any, select,
  length, ltb, if◌then◌else◌, GoString, codes, str_eq, same, string_discrete, is_empty, contains,
  trim_dot, lookup, insert, Ip, Ip-discrete, less_string, sort_by,
}
use bramble_gate.Prelude.Int.{ℤ}
use bramble_gate.Mdnsbridge.Selector as Discovery
use bramble_gate.Mdnsbridge.Table as Discoveries

-- `Source`
pub data Source : Type 0 where
  source_hosts : Source
  source_mdns : Source
  source_ptr : Source
  source_none : Source

abbrev pub is_none : Source → Bool
is_none source_none = true
is_none _ = false

abbrev pub is_ptr : Source → Bool
is_ptr source_ptr = true
is_ptr _ = false

-- `Entry`; `none` is the zero time.
pub record Entry : Type 0 where
  pub ip : GoString
  pub vlan : GoString
  pub hostname : GoString
  pub source : Source
  pub last_seen : ℤ
  pub resolved_at : Option ℤ

-- `Config`. A resolver is a dnsResolver, by the address that it asks.
pub record Config : Type 0 where
  pub hosts_index : List (GoString × GoString)
  pub mdns : Option Discoveries.Table
  pub resolvers : List (GoString × GoString)
  pub unmatched_resolver : Option GoString
  pub refresh_hostnames : GoString

-- `Table`, with the contents of its channel and without its clock.
pub record Table : Type 0 where
  pub entries : List (GoString × Entry)
  pub cfg : Config
  pub resolve_q : List GoString

-- `resolveQueueSize`
abbrev pub resolve_queue_size : ℕ
resolve_queue_size = 64

-- `NewTable`
unfoldable pub new_table : Config → Table
new_table cfg = record { entries = []; cfg = cfg; resolve_q = [] }

-- `SetConfig`
unfoldable pub set_config : Table → Config → Table
set_config t cfg = record t { cfg = cfg }

-- `resolverFor`
unfoldable pub resolver_for : Config → GoString → Option GoString
resolver_for cfg vlan =
    if is_empty vlan then cfg.unmatched_resolver else lookup string_discrete vlan cfg.resolvers

-- What a PTR query uses of miekg/dns: dns.ReverseAddr, and the answers of an exchange with an
-- upstream, each the target of a *dns.PTR, or `none` for a record of another type.
pub record Network : Type 0 where
  pub reverse_addr : GoString → Option GoString
  pub exchange : GoString → GoString → Option (List (Option GoString))

-- The loop of `dnsResolver.Lookup`
abbrev pub first_ptr : List (Option GoString) → GoString
first_ptr [] = []
first_ptr (none ∷ rrs) = first_ptr rrs
first_ptr (some target ∷ rrs) = trim_dot target

-- `dnsResolver.Lookup`; `none` is an error.
unfoldable pub lookup_ptr : Network → GoString → GoString → Option GoString
lookup_ptr net addr ip = elim (net.reverse_addr ip) [
  | none ↦ none
  | some name ↦ elim (net.exchange addr name) [
    | none ↦ none
    | some answer ↦ some (first_ptr answer)
  ]
]

-- The second critical section of `attemptPTR`
unfoldable pub store_ptr : Table → ℤ → GoString → GoString → Table
store_ptr t now ip host = elim (lookup string_discrete ip t.entries) [
  | none ↦ t
  | some e ↦ record t {
    entries =
        insert string_discrete ip
          (record e { hostname = host; source = source_ptr; resolved_at = some now }) t.entries;
  }
]

-- `attemptPTR`
unfoldable pub attempt_ptr : Network → Table → ℤ → GoString → Table
attempt_ptr net t now ip = elim (lookup string_discrete ip t.entries) [
  | none ↦ t
  | some e ↦ elim (resolver_for t.cfg e.vlan) [
    | none ↦ t
    | some resolver ↦ elim (lookup_ptr net resolver ip) [
      | none ↦ t
      | some host ↦ if is_empty host then t else store_ptr t now ip host
    ]
  ]
]

-- The case of `Run` that services the queue
unfoldable pub work : Network → Table → ℤ → Table
work net t now = elim (t.resolve_q) [
  | [] ↦ t
  | ip ∷ rest ↦ attempt_ptr net (record t { resolve_q = rest }) now ip
]

-- The mode of `Sweep`, and which entries it picks
abbrev pub sweep_mode : Config → GoString
sweep_mode cfg = if is_empty cfg.refresh_hostnames then codes "ipv4_only" else cfg.refresh_hostnames

unfoldable pub sweeps : GoString → GoString → Entry → Bool
sweeps mode ip e =
    if str_eq mode (codes "none")
    then false
    else if not (is_ptr e.source)
    then false
    else not (str_eq mode (codes "ipv4_only") && contains ip (codes ":"))

abbrev pub sweep_ips : Table → List GoString
sweep_ips t = map (λ p. p.0) (select (λ p. sweeps (sweep_mode t.cfg) p.0 p.1) t.entries)

-- The loop over the addresses; the clock gives the time at which each one's answer is stored.
abbrev pub attempt_all : Network → (GoString → ℤ) → Table → List GoString → Table
attempt_all net clock t [] = t
attempt_all net clock t (ip ∷ ips) = attempt_all net clock (attempt_ptr net t (clock ip) ip) ips

-- `Sweep`
unfoldable pub sweep : Network → (GoString → ℤ) → Table → Table × ℕ
sweep net clock t = (attempt_all net clock t (sweep_ips t), length (sweep_ips t))

-- net.ParseIP is a parameter.
module _ (parse_ip : GoString → Option Ip) where
  -- `containsIP`
  abbrev pub equals_ip : Option Ip → Ip → Bool
  equals_ip none target = false
  equals_ip (some got) target = same Ip-discrete got target

  unfoldable pub contains_ip : List GoString → GoString → Bool
  contains_ip list ip = elim (parse_ip ip) [
    | some target ↦ any (λ s. equals_ip (parse_ip s) target) list
    | none ↦ any (λ s. str_eq s ip) list
  ]

  -- `matchMDNS`
  unfoldable pub match_entries : List Discovery.Entry → GoString → Option GoString
  unfolding contains_ip
  match_entries [] ip = none
  match_entries (e ∷ es) ip =
      if (contains_ip e.ipv4 ip || contains_ip e.ipv6 ip) && not (is_empty (trim_dot e.host))
      then some (trim_dot e.host)
      else match_entries es ip

  abbrev pub match_mdns : Option Discoveries.Table → ℤ → GoString → Option GoString
  match_mdns none now ip = none
  match_mdns (some table) now ip = match_entries (Discoveries.snapshot table now) ip

  -- `resolveLive`
  abbrev pub live_name : Option GoString → Option GoString → GoString × Source
  live_name (some (c ∷ name)) discovered = (c ∷ name, source_hosts)
  live_name _ (some host) = (host, source_mdns)
  live_name _ none = ([], source_none)

  unfoldable pub resolve_live : Config → ℤ → GoString → GoString × Source
  resolve_live cfg now ip =
      live_name (lookup string_discrete ip cfg.hosts_index) (match_mdns cfg.mdns now ip)

  -- `Resolve`
  unfoldable pub resolve : Table → ℤ → GoString → GoString × Source
  resolve t now ip =
      let live = resolve_live t.cfg now ip in
      if not (is_none live.1) then live else (elim (lookup string_discrete ip t.entries) [
        | none ↦ ([], source_none)
        | some e ↦ if is_ptr e.source then (e.hostname, source_ptr) else ([], source_none)
      ])

  -- `Observe`
  abbrev pub enqueue : Table → GoString → Table
  enqueue t ip =
      if ltb (length t.resolve_q) resolve_queue_size
      then record t { resolve_q = t.resolve_q ++ (ip ∷ []) }
      else t

  abbrev pub first_sight : Table → ℤ → GoString → GoString → Table
  first_sight t now ip vlan = elim (resolver_for t.cfg vlan) [
    | none ↦ t
    | some _ ↦ if not (is_none (resolve_live t.cfg now ip).1) then t else enqueue t ip
  ]

  unfoldable pub observe : Table → ℤ → GoString → GoString → Table
  observe t now ip vlan = if is_empty ip then t else elim (lookup string_discrete ip t.entries) [
    | some e ↦ record t {
      entries = insert string_discrete ip (record e { last_seen = now; vlan = vlan }) t.entries;
    }
    | none ↦
        first_sight
          (record t {
            entries =
                insert string_discrete ip
                  (record {
                    ip = ip;
                    vlan = vlan;
                    hostname = [];
                    source = source_none;
                    last_seen = now;
                    resolved_at = none;
                  })
                  t.entries;
          })
          now ip vlan
  ]

  -- `Snapshot`
  abbrev pub shown : Config → ℤ → Entry → Entry
  shown cfg now e =
      let live = resolve_live cfg now e.ip in
      if not (is_none live.1) then record e { hostname = live.0; source = live.1 } else e

  unfoldable pub snapshot : Table → ℤ → List Entry
  snapshot t now = sort_by (λ a b. less_string a.ip b.ip) (map (λ p. shown t.cfg now p.1) t.entries)
