-- ===== src/Localrecords/Setup/Served.antt =====
-- internal/configgen and plugins/localrecords: the records of a configuration, as they are served.
use mathlib.Core.List.{Memᴰ}
use bramble_gate.Prelude.{
  ℕ, ◌≡◌, sym, subst, ◌∙◌, inl, inr, Option-cases, false, not, Option, none, some, List, [], ◌∷◌,
  ◌++◌, map, select, All, All_weaken, GoString, codes, Ip, IpNet, arith,
}
use bramble_gate.Prelude.Results.{ok, >>=-eq-ok, Result-cases}
use bramble_gate.Localrecords.{LocalRecords, records_of, effective, build_values}
use bramble_gate.Localrecords.Setup.{
  WireDdr, WireRecord, record_type, load_records, load_ddr, load_zone_data, append_record, entry_of,
  ddr_entry, ddr_name,
}
use bramble_gate.Model.Settings.{Settings, Record, Host, is_mdns}
use bramble_gate.Configgen.Records.Accepted.{IsSound, IsSensible}
use bramble_gate.Configgen.Settings.{Parsers, vlan_names}
use bramble_gate.Configgen.Validate.{render}
use bramble_gate.Configgen.Zones.{owned_zones, SelfIps, ZoneData, acme_self_records, static_records}
use bramble_gate.Localrecords.Setup.Loads.{wire_zone, wire_record, IsIndexed, IsLoaded}
use bramble_gate.Localrecords.Setup.Rendered.{ReadsPorts, render-parts, render-IsLoaded}
use bramble_gate.Localrecords.Setup.Configured.{
  Decides, Names, configured, override_for, served, loaded, effective-configured,
}

module _ (canonical_name : GoString → GoString) (parse_port : GoString → Option ℕ) where
  load_records-ttl :
      (wrs : List WireRecord) (lr : LocalRecords) {next : LocalRecords}
      → load_records canonical_name parse_port wrs lr ≡ ok next
      → next.default_ttl ≡ lr.default_ttl
  unfolding load_records append_record
  load_records-ttl [] lr e = cc
  load_records-ttl (wr ∷ wrs) lr {next = next} e = elim (Option-cases (record_type wr.kind)) [
    | inl bad ↦ let impossible : ⊥ = ground (arith, e, bad) in absurd impossible
    | inr (rtype, known) ↦
        load_records-ttl wrs
          (append_record canonical_name parse_port lr (canonical_name wr.name)
            (entry_of canonical_name parse_port rtype wr))
          {next = next} (ground (arith, e, known))
  ]

  load_ddr-ttl :
      (wds : List WireDdr) (lr : LocalRecords) {next : LocalRecords}
      → load_ddr canonical_name parse_port wds lr ≡ ok next
      → next.default_ttl ≡ lr.default_ttl
  unfolding load_ddr append_record
  load_ddr-ttl [] lr e = cc
  load_ddr-ttl (wd ∷ wds) lr {next = next} e =
      elim (Result-cases (build_values parse_port wd.params)) [
        | inl (failure, bad) ↦ let impossible : ⊥ = ground (arith, e, bad) in absurd impossible
        | inr (vs, built) ↦
            load_ddr-ttl wds
              (append_record canonical_name parse_port lr ddr_name
                (ddr_entry canonical_name parse_port wd))
              {next = next} (ground (arith, e, built))
      ]

  -- The plugin has the record under its canonical name, and answers every client from it as the
  -- configuration says.
  abbrev pub IsEffective : LocalRecords → Record → Type 0
  IsEffective lr r =
      (rtype : ℕ) × (record_type r.kind ≡ some rtype)
      × Memᴰ (loaded canonical_name parse_port rtype r) (records_of lr (canonical_name r.name))
      × ((vlan : GoString)
          → effective lr (loaded canonical_name parse_port rtype r) vlan
            ≡ configured (served canonical_name parse_port rtype) lr.default_ttl r
                (override_for vlan r))

  -- What every accepted record that is not live is read from.
  indexed-IsEffective :
      (parse_ip : GoString → Option Ip) (vlans zones : List GoString) (lr : LocalRecords)
      (rs : List Record)
      → Names canonical_name parse_port
      → All (IsSound parse_ip vlans zones) rs
      → All (IsIndexed canonical_name parse_port lr) (select (λ r. not (is_mdns r)) rs)
      → All (λ r. is_mdns r ≡ false → IsEffective lr r) rs
  indexed-IsEffective parse_ip vlans zones lr [] names sound indexed = tt
  indexed-IsEffective parse_ip vlans zones lr (r ∷ rs) names sound indexed = elim (sound.0.kind) [
    | inl (live, v) ↦
        let rest = rw live at indexed in
        ((λ static. absurd (cc)), indexed-IsEffective parse_ip vlans zones lr rs names sound.1 rest)
    | inr (static, v) ↦
        let ((rtype, known, found), rest) = rw static at indexed in
        let decides =
          All_weaken (IsSensible parse_ip vlans zones r) (Decides canonical_name parse_port r)
            r.overrides (λ o sensible. sensible.answers) v.sensible in
        (
          (λ _. (
            rtype,
            known,
            found,
            λ vlan.
                effective-configured canonical_name parse_port names lr rtype r vlan v.one_each
                  decides,
          )),
          indexed-IsEffective parse_ip vlans zones lr rs names sound.1 rest,
        )
  ]

All-left {ℓ κ} : {A : Type ℓ} (P : A → Type κ) (xs ys : List A) → All P (xs ++ ys) → All P xs
All-left P [] ys h = tt
All-left P (x ∷ xs) ys h = (h.0, All-left P xs ys h.1)

-- What the configuration says of a record is its effective answer in the plugin. If
-- strconv.ParseUint reads the text of
-- every port, net.ParseIP no text that ends with a dot, and the canonical form of a name that is not
-- empty is not empty: a configuration that is rendered is loaded without an error, and each of its
-- records that is not of type mdns is then indexed under the canonical form of its name as it is
-- written, white space included. Its effective answer for a client in a VLAN is nothing if the record's override for the VLAN denies the name, the override's
-- value, or else the record's, if there is another override, and the record's value, if it has one,
-- when there is none; with the TTL of the override, or else of the record, or else 300. The target
-- of a CNAME record is in its canonical form. Which of several records of a name a query gets is
-- not said here.
pub render-IsEffective :
    (canonical_name : GoString → GoString) (parse_port : GoString → Option ℕ) (net : Parsers)
    (parse_cidr : GoString → Option IpNet) (s : Settings) (rs : List Record) (hs : List Host)
    (ips : SelfIps) {z : ZoneData} (lr : LocalRecords)
    → ReadsPorts canonical_name parse_port
    → Names canonical_name parse_port
    → ((t : GoString) → net.parse_ip (t ++ codes ".") ≡ none)
    → render net parse_cidr s rs hs ips ≡ ok z
    → (next : LocalRecords) × (load_zone_data canonical_name parse_port lr (wire_zone z) ≡ ok next)
      × (next.default_ttl ≡ 300)
      × All (λ r. is_mdns r ≡ false → IsEffective canonical_name parse_port next r) rs
unfolding load_zone_data static_records
render-IsEffective canonical_name parse_port net parse_cidr s rs hs ips {z} lr reads names no_dot
      h =
    let (sound, usable, same_zone) = render-parts net parse_cidr s rs hs ips no_dot h in
    let (next, loads, indexed) =
      subst (λ y. IsLoaded canonical_name parse_port lr y) (sym same_zone)
        (render-IsLoaded canonical_name parse_port net parse_cidr s rs hs ips lr reads no_dot h) in
    let (mid, first, then) =
      >>=-eq-ok
        (load_records canonical_name parse_port (map wire_record (static_records s rs ips))
          (record lr { default_ttl = 300 }))
        _ loads in
    (
      next,
      subst (λ y. load_zone_data canonical_name parse_port lr (wire_zone y) ≡ ok next) same_zone
          loads,
      load_ddr-ttl canonical_name parse_port _ mid then
          ∙ load_records-ttl canonical_name parse_port _ (record lr { default_ttl = 300 }) first,
      indexed-IsEffective canonical_name parse_port net.parse_ip (vlan_names s.vlans)
          (owned_zones s) next rs names sound
          (All-left _ (select (λ r. not (is_mdns r)) rs) (acme_self_records s rs ips) indexed),
    )
