-- ===== src/Mdnsbridge/Listener/Tests.antt =====
-- plugins/mdnsbridge/listener.go: tests, and the theorem at concrete inputs.
use bramble_gate.Prelude.{
  ◌≡◌, refl, true, false, some, List, Unique, Option, none, [], ◌∷◌, GoString, codes,
  string_discrete, to_lower, trim_dot, lookup, insert, delete, Ip, leq_string, insert_sorted,
  sort_strings,
}
use bramble_gate.Prelude.Int.{pos, ◌-ℤ◌}
use bramble_gate.Mdnsbridge.Selector.{match_any}
use bramble_gate.Mdnsbridge.Table as Discoveries
use bramble_gate.Mdnsbridge.Listener.{
  Found, new_listener, uses_dynamic_services, iface_names_for_browse, start_type, ingest, remove,
  default_service_types,
}
use bramble_gate.Mdnsbridge.Listener.Reports.{
  Event, added, expired_at, last_sighting, run_all, run_all-last_sighting,
}
use bramble_gate.Mdnsbridge.Listener.Sightings.{key_of, sighted}

program : Unit {0}
unfolding string_discrete to_lower trim_dot lookup insert delete leq_string insert_sorted
    sort_strings match_any Discoveries.entry_key Discoveries.trim_byte Discoveries.first_label
    Discoveries.unique_from Discoveries.merge_unique Discoveries.rederive Discoveries.announced
    Discoveries.upsert Discoveries.remove Discoveries.new_table Discoveries.expire
    Discoveries.expired ◌-ℤ◌ new_listener uses_dynamic_services iface_names_for_browse start_type
    ingest remove
program = tt

default_services : (new_listener (codes "Default" ∷ []) []).services ≡ default_service_types
unfolding program
default_services = refl

all_services : uses_dynamic_services (new_listener (codes "ALL" ∷ []) []) ≡ true
unfolding program
all_services = refl

all_interfaces : iface_names_for_browse (new_listener [] (codes "all" ∷ [])) ≡ []
unfolding program
all_interfaces = refl

started_once :
    start_type (codes "_http._tcp" ∷ []) (codes "_http._tcp") ≡ (codes "_http._tcp" ∷ [], false)
unfolding program
started_once = refl

abbrev parse_ip : GoString → Option Ip
parse_ip t = none

abbrev television : Found
television = record {
  host = codes "TV.local.";
  instance_label = codes "TV";
  txt = [];
  ipv4 = codes "10.1.0.2" ∷ [];
  ipv6 = [];
  ttl = pos 100;
}

abbrev empty : Discoveries.Table
empty =
    Discoveries.new_table
      (record { default_suffix = codes "home.arpa"; auto_publish = []; naming = []; promoted = [] })
      (pos 0)

abbrev service : GoString
service = codes "_http._tcp"

-- Announced, announced again without a lifetime, and still alive at a tick.
abbrev events : List Event
events =
    added service television (pos 1)
    ∷ added service (record television { ttl = pos 0 }) (pos 50)
    ∷ expired_at (pos 150)
    ∷ []

there :
    sighted (key_of service television) (run_all [] parse_ip empty events)
    ≡ some (record { at = pos 50; ttl = pos 100 })
unfolding program
there = refl

empty-Unique : Unique string_discrete empty.entries
unfolding Discoveries.new_table
empty-Unique = tt

run_all-last_sighting_example :
    sighted (key_of service television) (run_all [] parse_ip empty events)
    ≡ last_sighting empty.ttl
        (key_of service television)
        (sighted (key_of service television) empty)
        events
run_all-last_sighting_example =
    run_all-last_sighting [] parse_ip events empty (key_of service television) empty-Unique
