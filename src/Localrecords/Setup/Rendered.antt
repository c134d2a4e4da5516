-- ===== src/Localrecords/Setup/Rendered.antt =====
-- internal/configgen and plugins/localrecords/setup.go: the plugin loads what configgen renders.
use bramble_gate.Prelude.{
  ℕ, ◌≡◌, refl, subst, inl, inr, Bool-cases, Option-cases, Bool, true, false, not, Option, none,
  some, List, [], ◌∷◌, ◌++◌, map, select, All, All-append, is_some, GoString, codes, is_empty, Ip,
  IpNet, arith, string_discrete,
}
use bramble_gate.Prelude.Int.{ℤ, pos, ◌≤ℤ◌}
use bramble_gate.Prelude.Results.{ok, >>=-eq-ok}
use bramble_gate.Localrecords.{
  DdrError, LocalRecords, Entry, records_of, SvcbValue, build_svcb_value, build_values,
}
use bramble_gate.Localrecords
use bramble_gate.Model.Settings.{Settings, Listener, Record, Host, is_mdns, type_a, type_aaaa}
use bramble_gate.Configgen.Records.Accepted.{IsSound, validate_records-IsSound}
use bramble_gate.Configgen.Settings.{vlan_names, Parsers, named_listeners}
use bramble_gate.Configgen.Validate.{render, validate}
use bramble_gate.Configgen.Validate.{ddr_unresolved as ddr_lost}
use bramble_gate.Model.Domain.{normalized_name}
use bramble_gate.Configgen.Validate.Sound.{HasPort, IsUsable, validate-IsChecked, checked-eq-ok}
use bramble_gate.Configgen.Zones.{
  DdrParam, SelfIps, ZoneData, itoa, doh_path, ddr_record, ddr_records, normalized_acme_domain,
  unless_declared, build_family_record, family_record, declared_has, acme_self_records,
  static_records, render_zone, owned_zones, ddr_unresolved,
}
use bramble_gate.Localrecords.Setup.Loads.{
  wire_param, HasType, IsKnown, known_type, Builds, IsLoaded, zone-IsLoaded,
}

module _ (canonical_name : GoString → GoString) (parse_port : GoString → Option ℕ) where
  -- strconv.ParseUint reads the text that strconv.Itoa makes of a port.
  abbrev pub ReadsPorts : Type 0
  ReadsPorts = (n : ℤ) → pos 1 ≤ℤ n → n ≤ℤ pos 65535 → is_some (parse_port (itoa n)) ≡ true

  built :
      (alpn port : GoString) (more : List Localrecords.DdrParam) (vs : List SvcbValue)
      → is_some (parse_port port) ≡ true
      → build_values parse_port more ≡ ok vs
      → (ws : List SvcbValue) × (build_values parse_port (
            record { key = codes "alpn"; value = alpn }
            ∷ record { key = codes "port"; value = port }
            ∷ more)
          ≡ ok ws)
  unfolding build_values build_svcb_value string_discrete
  built alpn port more vs reads e = elim (Option-cases (parse_port port)) [
    | inl bad ↦ let impossible : ⊥ = ground (arith, bad, reads) in absurd impossible
    | inr (n, good) ↦ rw (good, build_values, build_svcb_value) (rw e (_, refl))
  ]

  module _ (reads : ReadsPorts) where
    ddr_record-Builds :
        (domain : GoString) (l : Listener) (alpn : GoString) (more : List DdrParam)
        (vs : List SvcbValue)
        → HasPort l
        → build_values parse_port (map wire_param more) ≡ ok vs
        → All (Builds canonical_name parse_port) (ddr_record domain l alpn more)
    ddr_record-Builds domain l alpn more vs p e = elim (Bool-cases l.enabled) [
      | inr off ↦ rw off tt
      | inl on ↦ elim p [
        | inl off ↦ let impossible : ⊥ = cc in absurd impossible
        | inr (low, high) ↦
            rw on (built alpn (itoa l.port) (map wire_param more) vs (reads l.port low high) e, tt)
      ]
    ]

    ddr_records-Builds :
        (s : Settings)
        → All (λ p. HasPort p.1) (named_listeners s.listeners)
        → All (Builds canonical_name parse_port) (ddr_records s)
    unfolding ddr_records build_values build_svcb_value string_discrete
    ddr_records-Builds s (plain, (dot, (doh, (doq, (doh3, _))))) =
        elim (Bool-cases (is_empty (normalized_acme_domain s))) [
          | inl off ↦ rw off tt
          | inr on ↦ rw on (
              All-append _ (ddr_record _ s.listeners.dot (codes "dot") []) _
                (ddr_record-Builds _ s.listeners.dot _ [] [] dot refl)
                (All-append _ (ddr_record _ s.listeners.doh (codes "h2") doh_path) _
                  (ddr_record-Builds _ s.listeners.doh _ doh_path _ doh refl)
                  (All-append _ (ddr_record _ s.listeners.doq.listener (codes "doq") []) _
                    (ddr_record-Builds _ s.listeners.doq.listener _ [] [] doq refl)
                    (ddr_record-Builds _ s.listeners.doh3.listener _ doh_path _ doh3 refl))))
        ]

-- Every record of the zone data has a type that the plugin knows.
static-HasType :
    (parse_ip : GoString → Option Ip) (vlans zones : List GoString) (rs : List Record)
    → All (IsSound parse_ip vlans zones) rs
    → All HasType (select (λ r. not (is_mdns r)) rs)
static-HasType parse_ip vlans zones [] h = tt
static-HasType parse_ip vlans zones (r ∷ rs) h = elim (h.0.kind) [
  | inl (live, v) ↦ rw live (static-HasType parse_ip vlans zones rs h.1)
  | inr (static, v) ↦
      rw static (known_type r.kind v.known_type, static-HasType parse_ip vlans zones rs h.1)
]

own-HasType :
    (declared : List Record) (name kind : GoString) (ips : SelfIps) (family : Bool)
    → IsKnown kind
    → All HasType (unless_declared declared name kind (build_family_record name kind ips family))
unfolding build_family_record family_record
own-HasType declared name kind ips family k =
    go (build_family_record name kind ips family) (λ rec e. ground (arith, e))
  where
    go :
        (o : Option Record)
        → ((rec : Record) → o ≡ some rec → rec.kind ≡ kind)
        → All HasType (unless_declared declared name kind o)
    go none same_kind = tt
    go (some rec) same_kind =
        elim (Bool-cases (declared_has declared (normalized_name name) kind)) [
          | inl e ↦ rw e tt
          | inr e ↦ rw e (rw (same_kind rec refl) (known_type kind k), tt)
        ]

acme-HasType :
    (s : Settings) (declared : List Record) (ips : SelfIps)
    → All HasType (acme_self_records s declared ips)
unfolding acme_self_records string_discrete
acme-HasType s declared ips = elim (Bool-cases (is_empty (normalized_acme_domain s))) [
  | inl off ↦ rw off tt
  | inr on ↦ rw on (
      All-append HasType (unless_declared declared _ type_a _) _
        (own-HasType declared _ type_a ips true refl)
        (own-HasType declared _ type_aaaa ips false refl))
]

-- The zone data that `Render` makes of a configuration.
abbrev pub zone_of : Settings → List Record → SelfIps → ZoneData
zone_of s rs ips = record {
  default_ttl = 300;
  zones = owned_zones s;
  records = static_records s rs ips;
  ddr = ddr_records s;
}

-- What is known when `Render` succeeds.
pub render-parts :
    (net : Parsers) (parse_cidr : GoString → Option IpNet) (s : Settings) (rs : List Record)
    (hs : List Host) (ips : SelfIps) {z : ZoneData}
    → ((t : GoString) → net.parse_ip (t ++ codes ".") ≡ none)
    → render net parse_cidr s rs hs ips ≡ ok z
    → All (IsSound net.parse_ip (vlan_names s.vlans) (owned_zones s)) rs
      × IsUsable net s
      × (zone_of s rs ips ≡ z)
unfolding render render_zone
render-parts net parse_cidr s rs hs ips {z} no_dot h =
    let (done, valid, rendered) = >>=-eq-ok (validate net parse_cidr s rs hs) _ h in
    let c = validate-IsChecked net parse_cidr s rs hs valid in
    let (sound, distinct) =
      validate_records-IsSound net.parse_ip rs s.vlans (owned_zones s) no_dot c.records.1 in
    let e = checked-eq-ok ddr_lost _ rendered in
    elim (Option-cases (ddr_unresolved (ddr_records s) (static_records s rs ips))) [
      | inr (target, lost) ↦ let impossible : ⊥ = ground (arith, e, lost) in absurd impossible
      | inl found ↦ (sound, c.usable, ground (arith, e, found))
    ]

-- If strconv.ParseUint reads the text of every port and net.ParseIP no text that ends with a dot,
-- zone data that configgen renders is loaded by the plugin without an error: every record has a
-- type and every DDR record parameters that it reads. Each record of the zone data is then among
-- those that the plugin has under the record's canonical name, with the record's type, value, TTL
-- and overrides.
pub render-IsLoaded :
    (canonical_name : GoString → GoString) (parse_port : GoString → Option ℕ) (net : Parsers)
    (parse_cidr : GoString → Option IpNet) (s : Settings) (rs : List Record) (hs : List Host)
    (ips : SelfIps) {z : ZoneData} (lr : LocalRecords)
    → ReadsPorts canonical_name parse_port
    → ((t : GoString) → net.parse_ip (t ++ codes ".") ≡ none)
    → render net parse_cidr s rs hs ips ≡ ok z
    → IsLoaded canonical_name parse_port lr z
unfolding static_records
render-IsLoaded canonical_name parse_port net parse_cidr s rs hs ips lr reads no_dot h =
    let (sound, usable, same_zone) = render-parts net parse_cidr s rs hs ips no_dot h in
    subst (λ y. IsLoaded canonical_name parse_port lr y) same_zone
      (zone-IsLoaded canonical_name parse_port (zone_of s rs ips) lr
        (All-append HasType (select (λ r. not (is_mdns r)) rs) (acme_self_records s rs ips)
          (static-HasType net.parse_ip (vlan_names s.vlans) (owned_zones s) rs sound)
          (acme-HasType s rs ips))
        (ddr_records-Builds canonical_name parse_port reads s usable.ports))
