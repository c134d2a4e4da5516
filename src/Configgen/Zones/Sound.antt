-- ===== src/Configgen/Zones/Sound.antt =====
-- internal/configgen/configgen.go: what holds of the zone data that is rendered from records that
-- were accepted.
use bramble_gate.Prelude.{
  ◌≤◌, ◌≡◌, refl, inl, inr, Bool-cases, Option-cases, true, not, Option, none, List, [], ◌∷◌, ◌++◌,
  map, select, count, All, All-append, All_weaken, GoString, codes, is_empty, Ip, arith, subst,
}
use bramble_gate.Prelude.Distinct.{Distinct}
use bramble_gate.Prelude.Results.{ok}
use bramble_gate.Vlanmatch.{Vlan}
use bramble_gate.Model.Settings.{Settings, Listener, Record, is_mdns}
use bramble_gate.Configgen.Settings.{vlan_names}
use bramble_gate.Configgen.Records.{record_key, validate_records}
use bramble_gate.Configgen.Records.Accepted.{IsSound, validate_records-IsSound}
use bramble_gate.Configgen.Zones.Beside.{
  has_key, ProvidesValue, once_counted, static_counted, acme-IsJoinable,
}
use bramble_gate.Configgen.Zones.{
  SelfIps, ZoneData, DdrRecord, DdrParam, doh_path, normalized_acme_domain, ddr_record, ddr_records,
  owned_zones, acme_self_records, has_address_record, static_records, ddr_unresolved, render_zone,
}

-- The target of every DDR record is the one domain.
ddr_record-domain :
    (domain : GoString) (l : Listener) (alpn : GoString) (more : List DdrParam)
    → All (λ d. d.target ≡ domain) (ddr_record domain l alpn more)
ddr_record-domain domain l alpn more = elim (Bool-cases l.enabled) [
  | inl on ↦ rw on (refl, tt)
  | inr off ↦ rw off tt
]

ddr_records-domain : (s : Settings) → All (λ d. d.target ≡ normalized_acme_domain s) (ddr_records s)
unfolding ddr_records
ddr_records-domain s = elim (Bool-cases (is_empty (normalized_acme_domain s))) [
  | inl off ↦ rw off tt
  | inr on ↦ rw on (
      All-append _ (ddr_record _ s.listeners.dot (codes "dot") []) _
        (ddr_record-domain _ s.listeners.dot _ _)
        (All-append _ (ddr_record _ s.listeners.doh (codes "h2") doh_path) _
          (ddr_record-domain _ s.listeners.doh _ _)
          (All-append _ (ddr_record _ s.listeners.doq.listener (codes "doq") []) _
            (ddr_record-domain _ s.listeners.doq.listener _ _)
            (ddr_record-domain _ s.listeners.doh3.listener _ _))))
]

resolved :
    (domain : GoString) (ddr : List DdrRecord) (static : List Record)
    → ddr_unresolved ddr static ≡ none
    → All (λ d. d.target ≡ domain) ddr
    → All (λ d. has_address_record static d.target ≡ true) ddr
unfolding ddr_unresolved
resolved domain [] static h t = tt
resolved domain (d ∷ ddr) static h t =
    let met : has_address_record static d.target ≡ true = ground (arith, h) in
    (met, All_weaken _ _ ddr (λ e same_target. rw same_target (rw t.0 at met)) t.1)

static-ProvidesValue :
    (parse_ip : GoString → Option Ip) (vlans zones : List GoString) (rs : List Record)
    → All (IsSound parse_ip vlans zones) rs
    → All ProvidesValue (select (λ r. not (is_mdns r)) rs)
static-ProvidesValue parse_ip vlans zones [] h = tt
static-ProvidesValue parse_ip vlans zones (r ∷ rs) h = elim (h.0.kind) [
  | inl (live, v) ↦ rw live (static-ProvidesValue parse_ip vlans zones rs h.1)
  | inr (static, v) ↦ rw static (v.answerable, static-ProvidesValue parse_ip vlans zones rs h.1)
]

static_records-ProvidesValue :
    (parse_ip : GoString → Option Ip) (vlans zones : List GoString) (s : Settings)
    (rs : List Record) (ips : SelfIps)
    → All (IsSound parse_ip vlans zones) rs
    → All ProvidesValue (static_records s rs ips)
unfolding static_records
static_records-ProvidesValue parse_ip vlans zones s rs ips sound =
    All-append ProvidesValue (select (λ r. not (is_mdns r)) rs) (acme_self_records s rs ips)
      (static-ProvidesValue parse_ip vlans zones rs sound) (acme-IsJoinable s rs ips).answerable

-- Zone data in order: no two records have the same name and type as they are written, every record
-- has a value for some VLAN, and the target of every DDR record has an address.
pub record IsServable (z : ZoneData) : Type 0 where
  pub once : (name kind : GoString) → count (has_key name kind) z.records ≤ 1
  pub answerable : All ProvidesValue z.records
  pub ddr_resolves : All (λ d. has_address_record z.records d.target ≡ true) z.ddr

-- Zone data that is rendered from accepted records, with those made for the server's own name
-- whatever addresses were detected, is servable.
pub render_zone-IsServable :
    (parse_ip : GoString → Option Ip) (s : Settings) (rs : List Record) (vlans : List Vlan)
    (ips : SelfIps) {keys : List GoString} {z : ZoneData}
    → ((t : GoString) → parse_ip (t ++ codes ".") ≡ none)
    → validate_records parse_ip rs vlans (owned_zones s) ≡ ok keys
    → render_zone s rs ips ≡ ok z
    → IsServable z
unfolding render_zone
render_zone-IsServable parse_ip s rs vlans ips {keys} {z} no_dot valid e =
    let (sound, distinct) =
      validate_records-IsSound parse_ip rs vlans (owned_zones s) no_dot valid in
    elim (Option-cases (ddr_unresolved (ddr_records s) (static_records s rs ips))) [
      | inr (target, lost) ↦ let impossible : ⊥ = ground (arith, e, lost) in absurd impossible
      | inl found ↦ subst IsServable (ground (arith, e, found)) (servable sound distinct found)
    ]
  where
    servable :
        All (IsSound parse_ip (vlan_names vlans) (owned_zones s)) rs
        → Distinct (map record_key rs)
        → ddr_unresolved (ddr_records s) (static_records s rs ips) ≡ none
        → IsServable (record {
          default_ttl = 300;
          zones = owned_zones s;
          records = static_records s rs ips;
          ddr = ddr_records s;
        })
    servable sound distinct found = record {
      once = λ n k. static_counted s rs ips n k (once_counted n k rs distinct);
      answerable =
          static_records-ProvidesValue parse_ip (vlan_names vlans) (owned_zones s) s rs ips sound;
      ddr_resolves = resolved _ (ddr_records s) _ found (ddr_records-domain s);
    }
