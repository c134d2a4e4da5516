-- ===== src/Mdnsbridge/Table/Tests.antt =====
-- plugins/mdnsbridge/table.go: tests, and the theorems at concrete inputs.
use bramble_gate.Prelude.{
  arith, ◌≡◌, ◌≢◌, refl, true, false, Option, none, some, [], ◌∷◌, codes, string_discrete, lookup,
  insert, to_lower, trim_dot, GoString, Ip, leq_string, insert_sorted, sort_strings,
}
use bramble_gate.Prelude.Int.{pos, ◌-ℤ◌}
use bramble_gate.Mdnsbridge.Glob.{glob_match, glob, all_stars}
use bramble_gate.Mdnsbridge.Selector.{
  Entry, Selector, Config, selects, match_any, txt_matches, family_matches,
}
use bramble_gate.Mdnsbridge.Table.{
  Table, new_table, fqdn, entry_key, trim_byte, first_label, unique_from, merge_unique, expired,
  collect, rederive, upsert, set_published, resolve,
}
use bramble_gate.Mdnsbridge.Table.Runs.{
  announce, approve_name, sweep, run_all, IsConsistent, run_all-IsConsistent,
}
use bramble_gate.Mdnsbridge.Table.Order.{SameEntries, resolve-SameEntries}
use bramble_gate.Mdnsbridge.Table.Resolve.{IsResolved, stands_for, resolve-IsResolved}

program : Unit {0}
unfolding glob_match glob all_stars selects match_any txt_matches family_matches new_table fqdn
    entry_key trim_byte first_label leq_string insert_sorted sort_strings unique_from merge_unique
    expired collect rederive upsert set_published resolve string_discrete lookup insert to_lower
    trim_dot ◌-ℤ◌
program = tt

merge_sorted :
    merge_unique (codes "b" ∷ codes "a" ∷ []) (codes "a" ∷ [] ∷ []) ≡ codes "a" ∷ codes "b" ∷ []
unfolding program
merge_sorted = refl

label_clean : first_label (codes "Living_Room TV.local.") ≡ codes "living-room-tv"
unfolding program
label_clean = refl

abbrev printer : Entry
printer = record {
  name = [];
  host = codes "Printer.local.";
  service = codes "_http._tcp";
  instance_label = codes "Printer";
  txt = [];
  ipv4 = codes "10.1.0.9" ∷ [];
  ipv6 = [];
  published = false;
  promoted = false;
  last_seen = pos 0;
  ttl = pos 100;
  manual = false;
}

abbrev config : Config
config = record {
  default_suffix = codes "home.arpa";
  auto_publish = [];
  naming = [];
  promoted = [];
}

abbrev parse_ip : GoString → Option Ip
parse_ip s = none

abbrev approved : Table
approved =
    run_all [] parse_ip
      (announce printer (pos 5) ∷ approve_name (codes "printer.home.arpa") true ∷ [])
      (new_table config (pos 0))

live_answer :
    resolve [] parse_ip approved (codes "PRINTER.home.arpa.") (pos 105)
    ≡ some (codes "10.1.0.9" ∷ [], [])
unfolding program
live_answer = refl

expired_answer : resolve [] parse_ip approved (codes "printer.home.arpa.") (pos 106) ≡ none
unfolding program
expired_answer = refl

run_all-IsConsistent_example : IsConsistent [] parse_ip (
    run_all [] parse_ip
      (announce printer (pos 5)
        ∷ approve_name (codes "printer.home.arpa") true
        ∷ sweep (pos 50)
        ∷ [])
      (new_table config (pos 0)))
run_all-IsConsistent_example =
    run_all-IsConsistent [] parse_ip
      (announce printer (pos 5)
        ∷ approve_name (codes "printer.home.arpa") true
        ∷ sweep (pos 50)
        ∷ [])
      config (pos 0)

resolve-IsResolved_example :
    let promoted =
      lookup string_discrete (fqdn (codes "printer.home.arpa.")) approved.cfg.promoted in
    IsResolved [] parse_ip approved
      (pos 105)
      (stands_for [] parse_ip approved (fqdn (codes "printer.home.arpa.")) promoted)
      (codes "10.1.0.9")
      (resolve [] parse_ip approved (codes "printer.home.arpa.") (pos 105))
    × ((sel : Selector)
        → promoted ≡ some sel
        → resolve [] parse_ip approved (codes "printer.home.arpa.") (pos 105) ≢ none)
resolve-IsResolved_example =
    resolve-IsResolved [] parse_ip approved (codes "printer.home.arpa.") (pos 105)
      (codes "10.1.0.9") refl

-- Two devices of one name, in both orders.
abbrev served : Entry
served = record printer { name = codes "p.home.arpa."; published = true }

abbrev other : Entry
other = record served { service = codes "_ipp._tcp"; ipv4 = codes "10.1.0.2" ∷ [] }

abbrev ranged : Table
ranged = record {
  entries = (codes "a", served) ∷ (codes "b", other) ∷ [];
  cfg = config;
  ttl = pos 100;
}

both_orders :
    resolve [] parse_ip ranged (codes "p.home.arpa") (pos 1)
    ≡ some (codes "10.1.0.2" ∷ codes "10.1.0.9" ∷ [], [])
unfolding program
both_orders = refl

swapped : SameEntries ranged.entries ((codes "b", other) ∷ (codes "a", served) ∷ [])
swapped p = ground arith

resolve-SameEntries_example :
    resolve [] parse_ip ranged (codes "p.home.arpa") (pos 1)
    ≡ resolve [] parse_ip
        (record ranged { entries = (codes "b", other) ∷ (codes "a", served) ∷ [] })
        (codes "p.home.arpa")
        (pos 1)
resolve-SameEntries_example =
    resolve-SameEntries [] parse_ip ranged ((codes "b", other) ∷ (codes "a", served) ∷ [])
      (codes "p.home.arpa") (pos 1) swapped
