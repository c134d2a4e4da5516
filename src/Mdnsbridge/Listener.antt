-- ===== src/Mdnsbridge/Listener.antt =====
-- plugins/mdnsbridge/listener.go: what is browsed, and how the reports of the browses change the
-- table; also internal/mdnsquery/browser.go. The goroutines around them are sequences of reports.
pub mod Sightings
pub mod Reports
mod Tests
use bramble_gate.Prelude.{
  ℕ, Bool, true, false, ◌&&◌, ◌||◌, Option, none, some, List, [], ◌∷◌, any, is_nil, if◌then◌else◌,
  GoString, codes, str_eq, is_empty, to_lower, trim_dot, Ip,
}
use bramble_gate.Prelude.Int.{ℤ, pos}
use bramble_gate.Vlanmatch
use bramble_gate.Mdnssd.Browser as Mdnssd
use bramble_gate.Mdnsbridge.Selector.{Entry}
use bramble_gate.Mdnsbridge.Table as Discoveries

-- `mdnsquery.Entry`
pub record Found : Type 0 where
  pub host : GoString
  pub instance_label : GoString
  pub txt : List (GoString × GoString)
  pub ipv4 : List GoString
  pub ipv6 : List GoString
  pub ttl : ℤ

-- `toEntry`
unfoldable pub to_entry : Mdnssd.Entry → Found
to_entry e = record {
  host = e.host;
  instance_label = e.label;
  txt = e.txt;
  ipv4 = e.ipv4;
  ipv6 = e.ipv6;
  ttl = pos e.ttl;
}

-- `Listener`, as far as it says what is browsed
pub record Listener : Type 0 where
  pub services : List GoString
  pub iface_names : List GoString

-- `DefaultServiceTypes`
abbrev pub default_service_types : List GoString
default_service_types =
    codes "_http._tcp"
    ∷ codes "_https._tcp"
    ∷ codes "_ssh._tcp"
    ∷ codes "_smb._tcp"
    ∷ codes "_ipp._tcp"
    ∷ codes "_ipps._tcp"
    ∷ codes "_printer._tcp"
    ∷ codes "_airplay._tcp"
    ∷ codes "_raop._tcp"
    ∷ codes "_googlecast._tcp"
    ∷ codes "_sonos._tcp"
    ∷ codes "_hap._tcp"
    ∷ []

-- A list that is one word, whatever its case.
abbrev pub is_only : GoString → List GoString → Bool
is_only word [] = false
is_only word (s ∷ []) = str_eq (to_lower s) (to_lower word)
is_only word (s ∷ t ∷ ss) = false

-- `NewListener`
unfoldable pub new_listener : List GoString → List GoString → Listener
new_listener services iface_names = record {
  services = if is_only (codes "default") services then default_service_types else services;
  iface_names = iface_names;
}

-- `usesDynamicServices`
unfoldable pub uses_dynamic_services : Listener → Bool
uses_dynamic_services l = is_only (codes "all") l.services

-- `ifaceNamesForBrowse`
unfoldable pub iface_names_for_browse : Listener → List GoString
iface_names_for_browse l =
    if is_nil l.iface_names || is_only (codes "all") l.iface_names then [] else l.iface_names

-- The callback of `browseAllTypes`: the types started, and whether this one is started now.
unfoldable pub start_type : List GoString → GoString → List GoString × Bool
start_type started typ =
    if any (str_eq typ) started then (started, false) else (typ ∷ started, true)

-- The host of a report, as `ingest` and `remove` write it
abbrev pub host_of : Found → GoString
host_of e = to_lower (trim_dot e.host)

module _ (vlans : Vlanmatch.Table) (parse_ip : GoString → Option Ip) where
  -- `ingest`
  unfoldable pub ingest : Discoveries.Table → GoString → Found → ℤ → Discoveries.Table
  ingest t service e now =
      if is_empty (host_of e)
      then t
      else Discoveries.upsert vlans parse_ip t
          (record {
            name = [];
            host = host_of e;
            service = service;
            instance_label = e.instance_label;
            txt = e.txt;
            ipv4 = e.ipv4;
            ipv6 = e.ipv6;
            published = false;
            promoted = false;
            last_seen = pos 0;
            ttl = e.ttl;
            manual = false;
          })
          now

-- `remove`
unfoldable pub remove : Discoveries.Table → GoString → Found → Discoveries.Table
remove t service e = (Discoveries.remove t service e.instance_label (host_of e)).0
