-- ===== src/Localrecords/Setup.antt =====
-- plugins/localrecords/setup.go and zonedata.go: the zone data that configgen renders, as the plugin
-- reads it.
pub mod Loads
pub mod Rendered
pub mod Configured
pub mod Served
mod Tests
use bramble_gate.Prelude.{
  ℕ, ◌-◌, Bool, true, false, ◌&&◌, Option, none, some, List, [], ◌∷◌, ◌++◌, map, leb, ◌==◌,
  if◌then◌else◌, GoString, codes, str_eq, is_empty, string_discrete, lookup, insert,
}
use bramble_gate.Prelude.Results.{Result, ok, err, ◌>>=◌}
use bramble_gate.Dns.{type_a, type_aaaa, type_cname, type_svcb}
use bramble_gate.Localrecords.{
  DdrError, DdrParam, Entry, LocalRecords, Override, build_values, records_of,
}

pub record WireOverride : Type 0 where
  pub vlan : GoString
  pub value : GoString
  pub ttl : ℕ
  pub nxdomain : Bool

pub record WireRecord : Type 0 where
  pub name : GoString
  pub kind : GoString
  pub base : GoString
  pub ttl : ℕ
  pub vlan_overrides : List WireOverride

pub record WireDdr : Type 0 where
  pub priority : ℕ
  pub target : GoString
  pub params : List DdrParam

pub record WireZone : Type 0 where
  pub default_ttl : ℕ
  pub records : List WireRecord
  pub ddr : List WireDdr

-- The errors of `loadZoneData` for data that is read and is JSON.
pub data SetupError : Type 0 where
  unsupported_type : GoString → GoString → SetupError
  bad_ddr : DdrError → SetupError

-- strings.ToUpper
abbrev upper_byte : ℕ → ℕ
upper_byte c = if leb b'a' c && leb c b'z' then c - 32 else c

unfoldable pub to_upper : GoString → GoString
to_upper s = map upper_byte s

-- `recordType`
unfoldable pub record_type : GoString → Option ℕ
unfolding to_upper
record_type s =
    if str_eq (to_upper s) (codes "A")
    then some type_a
    else if str_eq (to_upper s) (codes "AAAA")
    then some type_aaaa
    else if str_eq (to_upper s) (codes "CNAME")
    then some type_cname
    else none

abbrev pub ddr_name : GoString
ddr_name = codes "_dns.resolver.arpa."

-- dns.CanonicalName and strconv.ParseUint for 16 bits are parameters.
module _ (canonical_name : GoString → GoString) (parse_port : GoString → Option ℕ) where
  -- `normalizeValue`
  unfoldable pub normalize_value : ℕ → GoString → GoString
  normalize_value rtype v =
      if is_empty v then [] else if rtype == type_cname then canonical_name v else v

  -- The loop over the overrides of one record.
  unfoldable pub load_overrides :
      ℕ → List WireOverride → List (GoString × Override) → List (GoString × Override)
  load_overrides rtype [] m = m
  load_overrides rtype (o ∷ os) m = load_overrides rtype os (
      insert string_discrete o.vlan
        (record { value = normalize_value rtype o.value; ttl = o.ttl; nxdomain = o.nxdomain }) m)

  unfoldable pub entry_of : ℕ → WireRecord → Entry
  entry_of rtype wr = record {
    rtype = rtype;
    def = normalize_value rtype wr.base;
    ttl = wr.ttl;
    overrides = load_overrides rtype wr.vlan_overrides [];
    ddr_priority = 0;
    ddr_target = [];
    ddr_params = [];
  }

  -- `lr.records[name] = append(lr.records[name], rc)`
  unfoldable pub append_record : LocalRecords → GoString → Entry → LocalRecords
  append_record lr name rc = record lr {
    records = insert string_discrete name (records_of lr name ++ (rc ∷ [])) lr.records;
  }

  -- The loop over the records.
  unfoldable pub load_records : List WireRecord → LocalRecords → Result SetupError LocalRecords
  load_records [] lr = ok lr
  load_records (wr ∷ wrs) lr = elim (record_type wr.kind) [
    | none ↦ err (unsupported_type wr.name wr.kind)
    | some rtype ↦ load_records wrs (append_record lr (canonical_name wr.name) (entry_of rtype wr))
  ]

  -- The loop over the DDR records, which checks the values that an answer will have.
  abbrev pub ddr_entry : WireDdr → Entry
  ddr_entry wd = record {
    rtype = type_svcb;
    def = [];
    ttl = 0;
    overrides = [];
    ddr_priority = wd.priority;
    ddr_target = canonical_name wd.target;
    ddr_params = wd.params;
  }

  unfoldable pub load_ddr : List WireDdr → LocalRecords → Result SetupError LocalRecords
  load_ddr [] lr = ok lr
  load_ddr (wd ∷ wds) lr = elim (build_values parse_port wd.params) [
    | err failure ↦ err (bad_ddr failure)
    | ok _ ↦ load_ddr wds (append_record lr ddr_name (ddr_entry wd))
  ]

  -- `loadZoneData`, of the data that was read
  unfoldable pub load_zone_data : LocalRecords → WireZone → Result SetupError LocalRecords
  load_zone_data lr z =
      let start = if z.default_ttl == 0 then lr else record lr { default_ttl = z.default_ttl } in
      load_records z.records start >>= load_ddr z.ddr
