-- ===== src/Localrecords/Setup/Tests.antt =====
-- plugins/localrecords/setup.go: tests.
use bramble_gate.Prelude.{
  ℕ, ◌≡◌, refl, true, false, Option, none, some, List, [], ◌∷◌, ◌++◌, GoString, codes,
  string_discrete, lookup, insert, str_eq, if◌then◌else◌, map,
}
use bramble_gate.Prelude.Results.{Result, ok, err}
use bramble_gate.Localrecords.{
  LocalRecords, DdrError, build_svcb_value, build_values, records_of, override_answer, effective,
}
use bramble_gate.Localrecords.Setup.{
  SetupError, WireRecord, WireZone, to_upper, record_type, normalize_value, load_overrides,
  entry_of, append_record, load_records, load_ddr, load_zone_data,
}

program : Unit {0}
unfolding string_discrete lookup insert build_svcb_value build_values records_of override_answer
    effective to_upper record_type normalize_value load_overrides entry_of append_record
    load_records load_ddr load_zone_data
program = tt

abbrev dotted : GoString → GoString
dotted name = name ++ codes "."

abbrev one_port : GoString → Option ℕ
one_port text = if str_eq text (codes "853") then some 853 else none

abbrev alias : WireRecord
alias = record {
  name = codes "www";
  kind = codes "cname";
  base = codes "host";
  ttl = 60;
  vlan_overrides =
      record { vlan = codes "guest"; value = []; ttl = 0; nxdomain = true }
      ∷ record { vlan = codes "iot"; value = codes "hub"; ttl = 5; nxdomain = false }
      ∷ [];
}

abbrev empty : LocalRecords
empty = record { zones = []; fallthrough_zones = []; default_ttl = 30; vlans = []; records = [] }

abbrev load : WireZone → Result SetupError LocalRecords
load = load_zone_data dotted one_port empty

abbrev answers : GoString → Result SetupError LocalRecords → List (Option (GoString × ℕ))
answers vlan (err _) = []
answers vlan (ok lr) = map (λ rc. effective lr rc vlan) (records_of lr (codes "www."))

abbrev zone : WireZone
zone = record { default_ttl = 300; records = alias ∷ []; ddr = [] }

answer_of_base : answers [] (load zone) ≡ some (codes "host.", 60) ∷ []
unfolding program
answer_of_base = refl

answer_of_iot : answers (codes "iot") (load zone) ≡ some (codes "hub.", 5) ∷ []
unfolding program
answer_of_iot = refl

answer_of_guest : answers (codes "guest") (load zone) ≡ none ∷ []
unfolding program
answer_of_guest = refl

refused_type :
    load (record zone { records = record alias { kind = codes "TXT" } ∷ [] })
    ≡ err (SetupError.unsupported_type (codes "www") (codes "TXT"))
unfolding program
refused_type = refl

refused_port :
    load (record zone {
      ddr =
          record {
            priority = 1;
            target = codes "dns";
            params = record { key = codes "port"; value = codes "x" } ∷ [];
          }
          ∷ [];
    })
    ≡ err (SetupError.bad_ddr (DdrError.bad_port (codes "x")))
unfolding program
refused_port = refl
