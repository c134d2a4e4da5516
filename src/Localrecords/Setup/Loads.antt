-- ===== src/Localrecords/Setup/Loads.antt =====
-- plugins/localrecords/setup.go: zone data, as configgen's JSON writes it, that the plugin loads.
use bramble_gate.Prelude.{
  ℕ, ◌≡◌, refl, sym, subst, inl, inr, Bool-cases, Option-cases, true, Option, some, List, [], ◌∷◌,
  ◌++◌, map, any, All, All_weaken, is_some, lookup-insert, str_eq_refl, GoString, str_eq, str_eq→eq,
  arith, string_discrete, if◌then◌else◌, ◌==◌,
}
use bramble_gate.Prelude.Results.{ok}
use mathlib.Core.List.Memᴰ
use mathlib.Core.List.{Memᴰ}
use bramble_gate.Localrecords.{
  DdrError, LocalRecords, Entry, records_of, SvcbValue, build_svcb_value, build_values,
}
use bramble_gate.Localrecords
use bramble_gate.Localrecords.Setup.{
  WireOverride, WireRecord, WireDdr, WireZone, to_upper, record_type, load_records, load_ddr,
  load_zone_data, append_record, entry_of, ddr_entry, ddr_name,
}
use bramble_gate.Model.Settings.{Record, VlanOverride, type_a, type_aaaa, type_cname}
use bramble_gate.Configgen.Zones.{DdrParam, DdrRecord, ZoneData}

-- The JSON names on which both sides agree.
abbrev pub wire_param : DdrParam → Localrecords.DdrParam
wire_param p = record { key = p.key; value = p.value }

abbrev pub wire_override : VlanOverride → WireOverride
wire_override o = record { vlan = o.vlan; value = o.value; ttl = o.ttl; nxdomain = o.nxdomain }

abbrev pub wire_record : Record → WireRecord
wire_record r = record {
  name = r.name;
  kind = r.kind;
  base = r.base;
  ttl = r.ttl;
  vlan_overrides = map wire_override r.overrides;
}

abbrev pub wire_ddr : DdrRecord → WireDdr
wire_ddr d = record { priority = d.priority; target = d.target; params = map wire_param d.params }

abbrev pub wire_zone : ZoneData → WireZone
wire_zone z = record {
  default_ttl = z.default_ttl;
  records = map wire_record z.records;
  ddr = map wire_ddr z.ddr;
}

abbrev pub HasType : Record → Type 0
HasType r = is_some (record_type r.kind) ≡ true

abbrev pub IsKnown : GoString → Type 0
IsKnown kind = any (str_eq kind) (type_a ∷ type_aaaa ∷ type_cname ∷ []) ≡ true

pub known_type : (kind : GoString) → IsKnown kind → is_some (record_type kind) ≡ true
unfolding record_type to_upper string_discrete
known_type kind h = elim (Bool-cases (str_eq kind type_a)) [
  | inl e ↦ subst (λ k. is_some (record_type k) ≡ true) (sym (str_eq→eq kind type_a e)) refl
  | inr n ↦ elim (Bool-cases (str_eq kind type_aaaa)) [
    | inl e ↦ subst (λ k. is_some (record_type k) ≡ true) (sym (str_eq→eq kind type_aaaa e)) refl
    | inr m ↦ elim (Bool-cases (str_eq kind type_cname)) [
      | inl e ↦ subst (λ k. is_some (record_type k) ≡ true) (sym (str_eq→eq kind type_cname e)) refl
      | inr l ↦ absurd (ground (arith, n, m, l, h))
    ]
  ]
]

module _ (canonical_name : GoString → GoString) (parse_port : GoString → Option ℕ) where
  -- What was indexed stays.
  Keeps : LocalRecords → LocalRecords → Type 0
  Keeps lr next =
      (name : GoString) (e : Entry) → Memᴰ e (records_of lr name) → Memᴰ e (records_of next name)

  records_of-append_record :
      (lr : LocalRecords) (name n : GoString) (e : Entry)
      → records_of (append_record canonical_name parse_port lr name e) n
        ≡ (if str_eq name n then records_of lr name ++ (e ∷ []) else records_of lr n)
  unfolding append_record records_of
  records_of-append_record lr name n e =
      ground
        (arith, lookup-insert string_discrete name n (records_of lr name ++ (e ∷ [])) lr.records)

  append-Keeps :
      (lr : LocalRecords) (name : GoString) (e : Entry)
      → Keeps lr (append_record canonical_name parse_port lr name e)
  unfolding Keeps
  append-Keeps lr name e n found m =
      rw (records_of-append_record lr name n e) (elim (Bool-cases (str_eq name n)) [
        | inr apart ↦ rw apart m
        | inl same_name ↦ rw same_name (
            Memᴰ.append_left (e ∷ [])
              (subst (λ k. Memᴰ found (records_of lr k)) (sym (str_eq→eq name n same_name)) m))
      ])

  append-found :
      (lr : LocalRecords) (name : GoString) (e : Entry)
      → Memᴰ e (records_of (append_record canonical_name parse_port lr name e) name)
  append-found lr name e =
      rw (records_of-append_record lr name name e)
        (rw (str_eq_refl name) (Memᴰ.append_right (records_of lr name) (Memᴰ.head refl)))

  -- The record is among those of its canonical name, with its type.
  abbrev pub IsIndexed : LocalRecords → Record → Type 0
  IsIndexed lr r =
      (rtype : ℕ) × (record_type r.kind ≡ some rtype)
      × Memᴰ (entry_of canonical_name parse_port rtype (wire_record r))
          (records_of lr (canonical_name r.name))

  records-load :
      (rs : List Record) (lr : LocalRecords)
      → All HasType rs
      → (next : LocalRecords) × (load_records canonical_name parse_port (map wire_record rs) lr
          ≡ ok next)
        × Keeps lr next
        × All (IsIndexed next) rs
  unfolding load_records Keeps
  records-load [] lr h = (lr, refl, (λ name e m. m), tt)
  records-load (r ∷ rs) lr h = elim (Option-cases (record_type r.kind)) [
    | inl e ↦ let impossible : ⊥ = ground (arith, e, h.0) in absurd impossible
    | inr (rtype, e) ↦
        let name = canonical_name r.name in
        let rc = entry_of canonical_name parse_port rtype (wire_record r) in
        let (next, loads, keeps, indexed) =
          records-load rs (append_record canonical_name parse_port lr name rc) h.1 in
        rw (e, load_records)
          (
            next,
            loads,
            (λ n found m. keeps n found (append-Keeps lr name rc n found m)),
            ((rtype, refl, keeps name rc (append-found lr name rc)), indexed),
          )
  ]

  abbrev pub Builds : DdrRecord → Type 0
  Builds d = (vs : List SvcbValue) × (build_values parse_port (map wire_param d.params) ≡ ok vs)

  ddr-load :
      (ds : List DdrRecord) (lr : LocalRecords)
      → All Builds ds
      → (next : LocalRecords) × (load_ddr canonical_name parse_port (map wire_ddr ds) lr ≡ ok next)
        × Keeps lr next
  unfolding load_ddr Keeps
  ddr-load [] lr h = (lr, refl, (λ name e m. m))
  ddr-load (d ∷ ds) lr h =
      let rc = ddr_entry canonical_name parse_port (wire_ddr d) in
      let (next, loads, keeps) =
        ddr-load ds (append_record canonical_name parse_port lr ddr_name rc) h.1 in
      rw (h.0.1, load_ddr)
        (next, loads, (λ n found m. keeps n found (append-Keeps lr ddr_name rc n found m)))

  -- The plugin loads the zone data, and then has every record of it.
  abbrev pub IsLoaded : LocalRecords → ZoneData → Type 0
  IsLoaded lr z =
      (next : LocalRecords) × (load_zone_data canonical_name parse_port lr (wire_zone z) ≡ ok next)
      × All (IsIndexed next) z.records

  pub zone-IsLoaded :
      (z : ZoneData) (lr : LocalRecords) → All HasType z.records → All Builds z.ddr → IsLoaded lr z
  unfolding load_zone_data Keeps
  zone-IsLoaded z lr h b =
      let start = if z.default_ttl == 0 then lr else record lr { default_ttl = z.default_ttl } in
      let (mid, e, kept, indexed) = records-load z.records start h in
      let (next, loads, keeps) = ddr-load z.ddr mid b in
      (
        next,
        rw (e, load_zone_data) loads,
        All_weaken (IsIndexed mid) (IsIndexed next) z.records
            (λ r i. (i.0, i.1, keeps (canonical_name r.name) _ i.2)) indexed,
      )
