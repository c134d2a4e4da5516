-- ===== src/Configgen/Tests.antt =====
-- model/domain.go, internal/configgen: tests, and the theorems at concrete inputs.
use mathlib.Core.List.{reverse-append}
use bramble_gate.Prelude.{
  ◌≡◌, refl, true, false, Option, none, some, [], ◌∷◌, ◌++◌, map, All, GoString, codes, str_eq,
  string_discrete, is_some, if◌then◌else◌, Ip, v4, IpNet, contains, has_prefix, has_suffix,
  trim_space, trim_dot, to_lower, lookup, leq_string, insert_sorted, sort_strings,
}
use bramble_gate.Prelude.Int.{pos}
use bramble_gate.Prelude.Distinct.{Distinct}
use bramble_gate.Prelude.Results.{ok, err}
use bramble_gate.Model.Domain.{
  DomainError, split, check_labels, finish_name, parse_trimmed, parse_domain_name, normalized_name,
}
use bramble_gate.Model.Domain.Canonical.{IsCanonical, parse_domain_name-IsCanonical}
use bramble_gate.Model.Settings.{
  Settings, Listener, QuicListener, Record, Host, is_mdns, names, encrypted_listener_enabled,
}
use bramble_gate.Configgen.Settings.{
  Parsers, validate_listeners, port_errors, check_host_port, validate_upstream,
  is_trusted_ecs_upstream, is_loopback, is_private, is_link_local_unicast, ecs_error,
  validate_client_names, validate_log, validate_mdns, validate_acme, owned_zone,
}
use bramble_gate.Configgen.Hosts.{
  add_name, add_names, add_host, validate_hosts_from, validate_hosts,
}
use bramble_gate.Configgen.Hosts.Accepted.{Parses, all_names, validate_hosts-Distinct}
use bramble_gate.Configgen.Records.{
  RecordsError, in_any_zone, any_override_provides_value, validate_value, check_value,
  check_override, validate_overrides, check_static, record_key, check_record, validate_records_from,
  validate_records,
}
use bramble_gate.Configgen.Records.Accepted.{IsSound, validate_records-IsSound}
use bramble_gate.Configgen.Vlans.{validate_vlans, validate_from}
use bramble_gate.Configgen.Zones.{
  SelfIps, ZoneData, digits, itoa, normalized_acme_domain, ddr_records, owned_zones,
  sorted_vlan_names, family_overrides, family_record, build_family_record, declared_has,
  acme_self_records, gives_address, has_address_record, static_records, ddr_unresolved, render_zone,
}
use bramble_gate.Configgen.Zones.Sound.{IsServable}
use bramble_gate.Configgen.Validate.{validate, check_certificate, render}
use bramble_gate.Configgen.Validate.Sound.{IsUsable, render-IsUsable}
use bramble_gate.Localrecords.{LocalRecords}
use bramble_gate.Localrecords.Setup.{load_zone_data}
use bramble_gate.Localrecords.Setup.Loads.{wire_zone}
use bramble_gate.Localrecords.Setup.Configured.{Names}
use bramble_gate.Localrecords.Setup.Served.{IsEffective, render-IsEffective}

program : Unit {0}
unfolding string_discrete contains has_prefix has_suffix trim_space trim_dot to_lower lookup
    leq_string insert_sorted sort_strings split check_labels finish_name parse_trimmed
    parse_domain_name normalized_name is_mdns names encrypted_listener_enabled validate_listeners
    port_errors check_host_port validate_upstream is_trusted_ecs_upstream is_loopback is_private
    is_link_local_unicast ecs_error validate_client_names validate_log validate_mdns validate_acme
    add_name add_names add_host validate_hosts_from validate_hosts in_any_zone
    any_override_provides_value validate_value check_value check_override validate_overrides
    check_static check_record validate_records_from validate_records validate_vlans validate_from
    digits itoa normalized_acme_domain ddr_records owned_zones sorted_vlan_names family_overrides
    family_record build_family_record declared_has acme_self_records gives_address
    has_address_record static_records ddr_unresolved render_zone validate check_certificate render
program = tt

-- A reader of one address; it reads no text that ends with a dot.
abbrev parse_ip : GoString → Option Ip
parse_ip t =
    if has_suffix t (codes ".")
    then none
    else if str_eq t (codes "10.0.0.9")
    then some (v4 0x0a000009)
    else none

no_dot : (t : GoString) → parse_ip (t ++ codes ".") ≡ none
unfolding has_suffix has_prefix
no_dot t = rw (reverse-append t (codes ".")) refl

upper_name : parse_domain_name parse_ip (codes " NAS.Home.arpa. ") ≡ ok (codes "nas.home.arpa.")
unfolding program
upper_name = refl

doubled_dot : parse_domain_name parse_ip (codes "a..b") ≡ err DomainError.empty_label
unfolding program
doubled_dot = refl

address_name : parse_domain_name parse_ip (codes "10.0.0.9") ≡ err DomainError.is_address
unfolding program
address_name = refl

parse_domain_name-IsCanonical_example :
    IsCanonical (codes "nas.home.arpa.")
    × (normalized_name (codes " NAS.Home.arpa. ") ≡ codes "nas.home.arpa.")
    × (parse_domain_name parse_ip (codes "nas.home.arpa.") ≡ ok (codes "nas.home.arpa."))
parse_domain_name-IsCanonical_example =
    parse_domain_name-IsCanonical parse_ip (codes " NAS.Home.arpa. ") no_dot upper_name

abbrev pub nas_host : Host
nas_host = record {
  ip = codes "10.0.0.9";
  hostname = codes "nas";
  aliases = codes "files.lan" ∷ [];
}

accepted_hosts :
    validate_hosts parse_ip (nas_host ∷ []) ≡ ok (codes "files.lan." ∷ codes "nas." ∷ [])
unfolding program
accepted_hosts = refl

validate_hosts-Distinct_example :
    All (λ h. is_some (parse_ip h.ip) ≡ true) (nas_host ∷ [])
    × All (Parses parse_ip) (all_names (nas_host ∷ []))
    × Distinct (map normalized_name (all_names (nas_host ∷ [])))
validate_hosts-Distinct_example =
    validate_hosts-Distinct parse_ip no_dot (nas_host ∷ []) accepted_hosts

abbrev pub nas : Record
nas = record {
  name = codes "nas.home.arpa";
  kind = codes "A";
  base = codes "10.0.0.9";
  ttl = 0;
  overrides = [];
  selector = none;
}

accepted_records :
    validate_records parse_ip (nas ∷ []) [] (owned_zone ∷ []) ≡ ok (codes "nas.home.arpa./A" ∷ [])
unfolding program
accepted_records = refl

repeated_record :
    validate_records parse_ip (nas ∷ nas ∷ []) [] (owned_zone ∷ [])
    ≡ err (RecordsError.duplicate_record (codes "nas.home.arpa"))
unfolding program
repeated_record = refl

validate_records-IsSound_example :
    All (IsSound parse_ip [] (owned_zone ∷ [])) (nas ∷ []) × Distinct (map record_key (nas ∷ []))
validate_records-IsSound_example =
    validate_records-IsSound parse_ip (nas ∷ []) [] (owned_zone ∷ []) no_dot accepted_records

abbrev off : Listener
off = record { enabled = false; port = pos 0 }

abbrev quic_off : QuicListener
quic_off = record { listener = off; max_streams = pos 0; worker_pool_size = pos 0 }

abbrev parsers : Parsers
parsers = record {
  parse_ip = parse_ip;
  split_host_port = λ t. some (codes "10.0.0.9", codes "53");
  is_number = λ t. true;
}

abbrev parse_cidr : GoString → Option IpNet
parse_cidr t = none

abbrev pub settings : Settings
settings = record {
  vlans = [];
  upstream = record {
    address = codes "10.0.0.9:53";
    protocol = [];
    ecs = true;
    max_fails = none;
    health_check_seconds = 0;
    expire_seconds = 0;
    prefer_udp = false;
    max_concurrent = 0;
  };
  listeners = record {
    plain = record { enabled = true; port = pos 53 };
    dot = record { enabled = true; port = pos 853 };
    doh = off;
    doq = quic_off;
    doh3 = quic_off;
  };
  acme = record {
    enabled = true;
    domain = codes "dns.example";
    email = codes "a@b";
    dns_provider = codes "x";
    renew_before_days = pos 30;
    self_signed_fallback = false;
  };
  mdns = record { enabled = false; suffix = []; auto_publish = []; naming = [] };
  cache = record { serve_stale_disabled = false; prefetch_disabled = false };
  log = record { disabled = false; classes = [] };
  consolidate_disabled = false;
  bufsize_disabled = false;
  observability = record { health = true; ready = false; prometheus = false };
  querylog = record { enabled = false; capacity = pos 0 };
  client_names = record { ptr_upstream = []; refresh_hostnames = [] };
}

-- The server has an IPv4 address in no declared VLAN.
abbrev detected : SelfIps
detected = record { per_vlan = []; primary = record { ipv4 = codes "10.0.0.9"; ipv6 = [] } }

abbrev own_record : Record
own_record = record {
  name = codes "dns.example";
  kind = codes "A";
  base = codes "10.0.0.9";
  ttl = 0;
  overrides = [];
  selector = none;
}

abbrev zone : ZoneData
zone = record {
  default_ttl = 300;
  zones = owned_zone ∷ codes "dns.example" ∷ codes "resolver.arpa" ∷ [];
  records = nas ∷ own_record ∷ [];
  ddr =
      record {
        priority = 1;
        target = codes "dns.example";
        params =
            record { key = codes "alpn"; value = codes "dot" }
            ∷ record { key = codes "port"; value = codes "853" }
            ∷ [];
      }
      ∷ [];
}

rendered : render parsers parse_cidr settings (nas ∷ []) (nas_host ∷ []) detected ≡ ok zone
unfolding program
rendered = refl

render-IsUsable_example :
    IsUsable parsers settings
    × IsServable zone
    × Distinct (map normalized_name (all_names (nas_host ∷ [])))
render-IsUsable_example =
    render-IsUsable parsers parse_cidr settings (nas ∷ []) (nas_host ∷ []) detected no_dot rendered

abbrev unloaded : LocalRecords
unloaded = record { zones = []; fallthrough_zones = []; default_ttl = 60; vlans = []; records = [] }

lower_Names : Names (λ t. to_lower t) (λ _. some 853)
unfolding to_lower
lower_Names [] h = h
lower_Names (c ∷ t) h = refl

render-IsEffective_example :
    (next : LocalRecords) × (load_zone_data
        (λ t. to_lower t)
        (λ _. some 853)
        unloaded
        (wire_zone zone)
      ≡ ok next)
    × (next.default_ttl ≡ 300)
    × All (λ r. is_mdns r ≡ false → IsEffective (λ t. to_lower t) (λ _. some 853) next r) (nas ∷ [])
render-IsEffective_example =
    render-IsEffective (λ t. to_lower t) (λ _. some 853) parsers parse_cidr settings (nas ∷ [])
      (nas_host ∷ []) detected unloaded (λ n low high. refl) lower_Names no_dot rendered
