-- ===== src/Configgen/Zones.antt =====
-- internal/configgen/configgen.go: the zones that the server owns, the records that are made for its
-- own name, and the zone data.
pub mod Beside
pub mod Sound
use bramble_gate.Prelude.{
  ℕ, suc, zero, ◌+◌, ◌/◌, ◌%◌, Bool, true, false, ◌&&◌, ◌||◌, not, Option, none, some, List, [],
  ◌∷◌, ◌++◌, any, select, is_nil, ◌==◌, if◌then◌else◌, GoString, codes, str_eq, is_empty,
  trim_space, to_lower, lookup, string_discrete, sort_strings, Ip,
}
use bramble_gate.Prelude.Int.{ℤ, pos, negsuc}
use bramble_gate.Prelude.Results.{Result, ok, err, ◌>>=◌}
use bramble_gate.Model.Domain.{normalized_name}
use bramble_gate.Model.Settings.{
  Listener, Settings, Record, VlanOverride, is_mdns, type_a, type_aaaa,
}
use bramble_gate.Configgen.Settings.{owned_zone}

abbrev pub ddr_zone : GoString
ddr_zone = codes "resolver.arpa"

-- strconv.Itoa. A number of 64 bits has at most twenty digits.
unfoldable pub digits : ℕ → ℕ → GoString → GoString
digits zero n text = text
digits (suc fuel) n text =
    let rest = digits fuel (n / 10) ((b'0' + n % 10) ∷ text) in
    if n / 10 == 0 then (b'0' + n % 10) ∷ text else rest

unfoldable pub itoa : ℤ → GoString
unfolding digits
itoa (pos n) = digits 20 n []
itoa (negsuc n) = b'-' ∷ digits 20 (suc n) []

-- `normalizedACMEDomain`
unfoldable pub normalized_acme_domain : Settings → GoString
normalized_acme_domain s = if not s.acme.enabled then [] else to_lower (trim_space s.acme.domain)

-- `ddrParam` and `ddrRecord`
pub record DdrParam : Type 0 where
  pub key : GoString
  pub value : GoString

pub record DdrRecord : Type 0 where
  pub priority : ℕ
  pub target : GoString
  pub params : List DdrParam

abbrev pub param : GoString → GoString → DdrParam
param key value = record { key = key; value = value }

-- The record of one listener, if it is enabled.
abbrev pub ddr_record : GoString → Listener → GoString → List DdrParam → List DdrRecord
ddr_record domain l alpn more =
    if l.enabled
    then (record {
      priority = 1;
      target = domain;
      params = param (codes "alpn") alpn ∷ param (codes "port") (itoa l.port) ∷ more;
    }
        ∷ [])
    else []

abbrev pub doh_path : List DdrParam
doh_path = param (codes "dohpath") (codes "/dns-query{?dns}") ∷ []

-- `ddrRecords`
unfoldable pub ddr_records : Settings → List DdrRecord
ddr_records s =
    let domain = normalized_acme_domain s in
    if is_empty domain
    then []
    else ddr_record domain s.listeners.dot (codes "dot") []
      ++ (ddr_record domain s.listeners.doh (codes "h2") doh_path
          ++ (ddr_record domain s.listeners.doq.listener (codes "doq") []
              ++ ddr_record domain s.listeners.doh3.listener (codes "h3") doh_path))

-- `ownedZones` and `fallthroughZones`
unfoldable pub owned_zones : Settings → List GoString
owned_zones s =
    owned_zone
    ∷ ((if is_empty (normalized_acme_domain s) then [] else normalized_acme_domain s ∷ [])
        ++ (if is_nil (ddr_records s) then [] else ddr_zone ∷ []))

unfoldable pub fallthrough_zones : Settings → List GoString
fallthrough_zones s =
    if is_empty (normalized_acme_domain s) then [] else normalized_acme_domain s ∷ []

-- `selfip.VLANAddrs` and `selfip.Result`
pub record VlanAddrs : Type 0 where
  pub ipv4 : GoString
  pub ipv6 : GoString

pub record SelfIps : Type 0 where
  pub per_vlan : List (GoString × VlanAddrs)
  pub primary : VlanAddrs

-- `sortedVLANNames`
abbrev pub keys_of : List (GoString × VlanAddrs) → List GoString
keys_of [] = []
keys_of ((k, a) ∷ m) = k ∷ keys_of m

unfoldable pub sorted_vlan_names : List (GoString × VlanAddrs) → List GoString
sorted_vlan_names m = sort_strings (keys_of m)

-- `pick`
abbrev pub pick : Bool → VlanAddrs → GoString
pick true a = a.ipv4
pick false a = a.ipv6

-- `pick(ips.PerVLAN[vlan])`: a missing key gives the zero value.
abbrev pub pick_of : Bool → Option VlanAddrs → GoString
pick_of family none = []
pick_of family (some a) = pick family a

-- The loop of `buildFamilyRecord`.
unfoldable pub family_overrides :
    Bool → List (GoString × VlanAddrs) → List GoString → List VlanOverride
family_overrides family m [] = []
family_overrides family m (vlan ∷ vlans) =
    let v = pick_of family (lookup string_discrete vlan m) in
    let rest = family_overrides family m vlans in
    if is_empty v then rest else record { vlan = vlan; value = v; ttl = 0; nxdomain = false } ∷ rest

-- `buildFamilyRecord`
unfoldable pub family_record : GoString → GoString → SelfIps → Bool → Record
family_record name kind ips family = record {
  name = name;
  kind = kind;
  base = pick family ips.primary;
  ttl = 0;
  overrides = family_overrides family ips.per_vlan (sorted_vlan_names ips.per_vlan);
  selector = none;
}

unfoldable pub build_family_record : GoString → GoString → SelfIps → Bool → Option Record
build_family_record name kind ips family =
    let rec = family_record name kind ips family in
    if is_empty rec.base && is_nil rec.overrides then none else some rec

-- `declaredHas`
unfoldable pub declared_has : List Record → GoString → GoString → Bool
declared_has declared normalized kind =
    any (λ r. str_eq (normalized_name r.name) normalized && str_eq r.kind kind) declared

-- One of the two records of `acmeSelfRecords`.
abbrev pub unless_declared : List Record → GoString → GoString → Option Record → List Record
unless_declared declared name kind none = []
unless_declared declared name kind (some rec) =
    if declared_has declared (normalized_name name) kind then [] else rec ∷ []

-- `acmeSelfRecords`
unfoldable pub acme_self_records : Settings → List Record → SelfIps → List Record
acme_self_records s declared ips =
    let name = normalized_acme_domain s in
    if is_empty name
    then []
    else unless_declared declared name type_a (build_family_record name type_a ips true)
      ++ unless_declared declared name type_aaaa (build_family_record name type_aaaa ips false)

-- One round of the loop of `hasAddressRecord`.
unfoldable pub gives_address : GoString → Record → Bool
gives_address normalized r =
    (str_eq r.kind type_a || str_eq r.kind type_aaaa)
    && (str_eq (normalized_name r.name) normalized
        && (not (is_empty r.base) || any (λ o. not (is_empty o.value)) r.overrides))

-- `hasAddressRecord`
unfoldable pub has_address_record : List Record → GoString → Bool
has_address_record records name = any (gives_address (normalized_name name)) records

-- `zoneData`
pub record ZoneData : Type 0 where
  pub default_ttl : ℕ
  pub zones : List GoString
  pub records : List Record
  pub ddr : List DdrRecord

-- The records of the zone data, of `Render`.
unfoldable pub static_records : Settings → List Record → SelfIps → List Record
static_records s rs ips = select (λ r. not (is_mdns r)) rs ++ acme_self_records s rs ips

-- The check of `Render` that the name of a DDR record resolves.
unfoldable pub ddr_unresolved : List DdrRecord → List Record → Option GoString
ddr_unresolved [] static = none
ddr_unresolved (d ∷ ddr) static = if has_address_record static d.target then none else some d.target

-- `Render`, after `Validate`: the zone data, or the name that does not resolve.
unfoldable pub render_zone : Settings → List Record → SelfIps → Result GoString ZoneData
unfolding ddr_unresolved
render_zone s rs ips = elim (ddr_unresolved (ddr_records s) (static_records s rs ips)) [
  | some target ↦ err target
  | none ↦ ok (record {
    default_ttl = 300;
    zones = owned_zones s;
    records = static_records s rs ips;
    ddr = ddr_records s;
  })
]
