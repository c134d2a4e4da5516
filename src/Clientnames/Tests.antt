-- ===== src/Clientnames/Tests.antt =====
-- plugins/clientnames: tests, and the theorems at concrete inputs.
use bramble_gate.Prelude.{
  ◌≡◌, refl, List, true, false, arith, Option, none, some, [], ◌∷◌, map, All, GoString, codes,
  string_discrete, lookup, insert, count, any, if◌then◌else◌, str_eq, contains, has_prefix,
  trim_dot, leq_string, less_string, sort_by, Ip, v4, Ip-discrete,
}
use bramble_gate.Prelude.Int.{pos, ◌-ℤ◌}
use bramble_gate.Mdnsbridge.Table.{expired, live_entries, entry_less}
use bramble_gate.Mdnsbridge.Selector as Discovery
use bramble_gate.Mdnsbridge.Table as Discoveries
use bramble_gate.Clientnames.{
  Config, Table, Network, source_hosts, source_mdns, source_ptr, source_none, new_table, set_config,
  resolver_for, lookup_ptr, store_ptr, attempt_ptr, work, sweep, sweeps, contains_ip, match_entries,
  resolve_live, resolve, observe, snapshot,
}
use bramble_gate.Clientnames.Valid.{IsValid}
use bramble_gate.Clientnames.Runs.{Op, observed, worked, answered, swept, run_all, run_all-IsValid}
use bramble_gate.Clientnames.Seen.{observes}
use bramble_gate.Clientnames.Shown.{Agrees, times, snapshot-Agrees}
use bramble_gate.Clientnames.Swept.{swept_entry, is_picked, mode_of, sweep_lem}
use bramble_gate.Clientnames.Worked.{drain, observe-drain}

program : Unit {0}
unfolding string_discrete Ip-discrete lookup insert contains has_prefix trim_dot leq_string
    less_string sort_by ◌-ℤ◌ expired live_entries entry_less Discoveries.snapshot new_table
    set_config resolver_for lookup_ptr store_ptr attempt_ptr work sweep sweeps contains_ip
    match_entries resolve_live resolve observe snapshot
program = tt

abbrev parse_ip : GoString → Option Ip
parse_ip t =
    if str_eq t (codes "7")
    then some (v4 167772167)
    else if str_eq t (codes "8")
    then some (v4 167772168)
    else none

abbrev network : Network
network = record {
  reverse_addr = λ ip. some ip;
  exchange = λ addr name.
      if str_eq name (codes "9")
      then some (none ∷ some (codes "laptop.lan.") ∷ [])
      else if str_eq name (codes ":9")
      then some (some (codes "phone.") ∷ [])
      else none;
}

abbrev television : Discovery.Entry
television = record {
  name = codes "tv.home.arpa.";
  host = codes "tv.local.";
  service = codes "_http._tcp";
  instance_label = codes "TV";
  txt = [];
  ipv4 = codes "8" ∷ [];
  ipv6 = [];
  published = false;
  promoted = false;
  last_seen = pos 0;
  ttl = pos 100;
  manual = false;
}

abbrev television_table : Discoveries.Table
television_table = record {
  entries = (codes "k", television) ∷ [];
  cfg = record {
    default_suffix = codes "home.arpa";
    auto_publish = [];
    naming = [];
    promoted = [];
  };
  ttl = pos 100;
}

abbrev config : Config
config = record {
  hosts_index = (codes "7", codes "nas") ∷ [];
  mdns = some television_table;
  resolvers = (codes "t", codes "r") ∷ [];
  unmatched_resolver = none;
  refresh_hostnames = [];
}

abbrev ops : List Op
ops =
    observed (codes "9") (codes "t") (pos 1)
    ∷ observed (codes ":9") (codes "t") (pos 2)
    ∷ observed (codes "8") (codes "t") (pos 3)
    ∷ observed (codes "7") [] (pos 4)
    ∷ observed (codes "5") [] (pos 5)
    ∷ worked network (pos 6)
    ∷ worked network (pos 7)
    ∷ answered (codes "5") [] (pos 8)
    ∷ swept network (λ _. pos 9)
    ∷ []

abbrev table : Table
table = run_all parse_ip ops (new_table config)

-- A laptop that a PTR answer names, and a television that is observed only.
abbrev known : Table
known = record {
  entries =
      (
        codes "9",
        record {
          ip = codes "9";
          vlan = codes "t";
          hostname = codes "laptop";
          source = source_ptr;
          last_seen = pos 1;
          resolved_at = some (pos 2);
        },
      )
      ∷ (
        codes "8",
        record {
          ip = codes "8";
          vlan = codes "t";
          hostname = [];
          source = source_none;
          last_seen = pos 1;
          resolved_at = none;
        },
      )
      ∷ [];
  cfg = config;
  resolve_q = [];
}

test_hosts : resolve parse_ip known (pos 10) (codes "7") ≡ (codes "nas", source_hosts)
unfolding program
test_hosts = refl

test_mdns : resolve parse_ip known (pos 10) (codes "8") ≡ (codes "tv.local", source_mdns)
unfolding program
test_mdns = refl

test_mdns_expired : resolve parse_ip known (pos 101) (codes "8") ≡ ([], source_none)
unfolding program
test_mdns_expired = refl

test_ptr : resolve parse_ip known (pos 10) (codes "9") ≡ (codes "laptop", source_ptr)
unfolding program
test_ptr = refl

test_sweep_count : (sweep network (λ _. pos 9) known).1 ≡ 1
unfolding program
test_sweep_count = refl

test_swept :
    resolve parse_ip (sweep network (λ _. pos 9) known).0 (pos 10) (codes "9")
    ≡ (codes "laptop.lan", source_ptr)
unfolding program
test_swept = refl

test_live : Discoveries.snapshot television_table (pos 10) ≡ television ∷ []
unfolding program
test_live = refl

test_contains : contains_ip parse_ip (codes "8" ∷ []) (codes "8") ≡ true
unfolding program
test_contains = refl

test_match : match_entries parse_ip (television ∷ []) (codes "8") ≡ some (codes "tv.local")
unfolding program
test_match = refl

test_shown : map (λ e. e.source) (snapshot parse_ip known (pos 10)) ≡ source_mdns ∷ source_ptr ∷ []
unfolding program
test_shown = refl

test_queue : (observe parse_ip known (pos 3) (codes ":9") (codes "t")).resolve_q ≡ codes ":9" ∷ []
unfolding program
test_queue = refl

snapshot-Agrees_example :
    All (Agrees parse_ip table (pos 10)) (snapshot parse_ip table (pos 10))
    × ((ip : GoString)
        → times ip (snapshot parse_ip table (pos 10)) ≡ (if any (observes ip) ops then 1 else 0))
snapshot-Agrees_example = snapshot-Agrees parse_ip ops config (pos 10)

new_table-IsValid : IsValid (new_table config)
unfolding new_table
new_table-IsValid = record { unique = tt; own = tt; bounded = ground arith; queued = tt }

sweep_lem_example :
    ((sweep network (λ _. pos 11) table).1
      ≡ count (λ p. is_picked (mode_of table.cfg.refresh_hostnames) p.0 p.1) table.entries)
    × ((ip : GoString)
        → lookup string_discrete ip (sweep network (λ _. pos 11) table).0.entries
          ≡ swept_entry network table.cfg
              (λ _. pos 11)
              ip
              (lookup string_discrete ip table.entries))
sweep_lem_example =
    sweep_lem network (λ _. pos 11) table
      (run_all-IsValid parse_ip ops (new_table config) new_table-IsValid)

abbrev queued : Table
queued = record { entries = []; cfg = config; resolve_q = codes "3" ∷ [] }

observe-drain_example :
    resolve parse_ip
      (drain network (pos 5) 2 (observe parse_ip queued (pos 5) (codes "9") (codes "t")))
      (pos 5)
      (codes "9")
    ≡ (codes "laptop.lan", source_ptr)
unfolding program
observe-drain_example =
    observe-drain parse_ip network queued (pos 5) (codes "9") (codes "t") (codes "r")
      (codes "laptop.lan") refl refl (ground arith) refl refl refl refl
