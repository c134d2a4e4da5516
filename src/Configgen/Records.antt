-- ===== src/Configgen/Records.antt =====
-- internal/configgen/validate.go: the check of the records.
pub mod Accepted
use bramble_gate.Prelude.{
  ℕ, Bool, true, false, ◌&&◌, ◌||◌, not, Option, none, some, List, [], ◌∷◌, ◌++◌, any, is_nil, ◌==◌,
  if◌then◌else◌, GoString, codes, str_eq, is_empty, trim_space, trim_dot, to_lower, has_suffix, Ip,
  v4, v6,
}
use bramble_gate.Prelude.Results.{Result, ok, err, ◌>>=◌}
use bramble_gate.Vlanmatch.{Vlan}
use bramble_gate.Model.Domain.{DomainError, parse_domain_name, normalized_name}
use bramble_gate.Model.Settings.{
  Selector, Record, VlanOverride, is_zero, is_mdns, type_a, type_aaaa, type_cname,
}
use bramble_gate.Configgen.Settings.{SettingsError, one_of, validate_selector, vlan_names}

-- The errors of `validateRecords`; those with a text name the record.
pub data RecordsError : Type 0 where
  missing_name : RecordsError
  bad_name : GoString → DomainError → RecordsError
  outside_zones : GoString → RecordsError
  duplicate_record : GoString → RecordsError
  empty_selector : GoString → RecordsError
  static_fields : GoString → RecordsError
  bad_selector : SettingsError → RecordsError
  unsupported_type : GoString → RecordsError
  needless_selector : GoString → RecordsError
  not_ipv4 : GoString → RecordsError
  not_ipv6 : GoString → RecordsError
  empty_target : RecordsError
  bad_target : GoString → DomainError → RecordsError
  unknown_vlan : GoString → GoString → RecordsError
  duplicate_override : GoString → GoString → RecordsError
  mixed_nxdomain : GoString → GoString → RecordsError
  idle_override : GoString → GoString → RecordsError
  nothing_inherited : GoString → GoString → RecordsError
  no_value : GoString → RecordsError

-- `inAnyZone`
unfoldable pub in_any_zone : GoString → List GoString → Bool
in_any_zone name [] = false
in_any_zone name (zone ∷ zones) =
    let z = to_lower (trim_dot zone) ++ codes "." in
    if str_eq name z || has_suffix name (codes "." ++ z) then true else in_any_zone name zones

-- `anyOverrideProvidesValue`
abbrev pub provides_value : VlanOverride → Bool
provides_value o = not o.nxdomain && not (is_empty o.value)

unfoldable pub any_override_provides_value : Record → Bool
any_override_provides_value r = any provides_value r.overrides

abbrev is_v4 : Ip → Bool
is_v4 (v4 a) = true
is_v4 (v6 a) = false

-- `validateMDNSRecord`
unfoldable pub check_selector :
    Record → List GoString → Option Selector → Result RecordsError (Unit {0})
check_selector r vlans none = err (empty_selector r.name)
check_selector r vlans (some s) =
    if is_zero s
    then err (empty_selector r.name)
    else if not (is_empty r.base) || (not (r.ttl == 0) || not (is_nil r.overrides))
    then err (static_fields r.name)
    else (elim (validate_selector vlans s) [
      | err failure ↦ err (bad_selector failure)
      | ok done ↦ ok tt
    ])

-- A record's key: its name and its type.
abbrev pub record_key : Record → GoString
record_key r = normalized_name r.name ++ (codes "/" ++ r.kind)

module _ (parse_ip : GoString → Option Ip) where
  -- `validateValue`
  unfoldable pub validate_value : GoString → GoString → Result RecordsError (Unit {0})
  validate_value kind value =
      if str_eq kind type_a
      then (elim (parse_ip value) [
        | none ↦ err (not_ipv4 value)
        | some ip ↦ if is_v4 ip then ok tt else err (not_ipv4 value)
      ])
      else if str_eq kind type_aaaa
      then (elim (parse_ip value) [
        | none ↦ err (not_ipv6 value)
        | some ip ↦ if is_v4 ip then err (not_ipv6 value) else ok tt
      ])
      else if str_eq kind type_cname
      then if is_empty (trim_space value)
        then err empty_target
        else (elim (parse_domain_name parse_ip value) [
          | err failure ↦ err (bad_target value failure)
          | ok canonical ↦ ok tt
        ])
      else ok tt

  -- The value of an override, if it is one to check.
  unfoldable pub check_value : Record → VlanOverride → Result RecordsError (Unit {0})
  check_value r o =
      if not o.nxdomain && not (is_empty o.value) then validate_value r.kind o.value else ok tt

  -- One round of the loop of `validateOverrides`, with the VLANs seen so far.
  unfoldable pub check_override :
      Record → List GoString → VlanOverride → List GoString → Result RecordsError (Unit {0})
  check_override r vlans o seen =
      if not (any (str_eq o.vlan) vlans)
      then err (unknown_vlan r.name o.vlan)
      else if any (str_eq o.vlan) seen
      then err (duplicate_override r.name o.vlan)
      else if o.nxdomain && (not (is_empty o.value) || not (o.ttl == 0))
      then err (mixed_nxdomain r.name o.vlan)
      else if not o.nxdomain && (is_empty o.value && o.ttl == 0)
      then err (idle_override r.name o.vlan)
      else (do
        _ ← check_value r o
        (if not o.nxdomain && (is_empty o.value && is_empty r.base)
            then err (nothing_inherited r.name o.vlan)
            else ok tt))

  unfoldable pub validate_overrides :
      Record → List GoString → List VlanOverride → List GoString → Result RecordsError (Unit {0})
  validate_overrides r vlans [] seen = ok tt
  validate_overrides r vlans (o ∷ os) seen = do
    _ ← check_override r vlans o seen
    validate_overrides r vlans os (o.vlan ∷ seen)

  -- The rest of a round of the loop of `validateRecords`, for a record that is not of type mdns.
  unfoldable pub check_static : Record → List GoString → Result RecordsError (Unit {0})
  check_static r vlans =
      if not (one_of r.kind (type_a ∷ type_aaaa ∷ type_cname ∷ []))
      then err (unsupported_type r.name)
      else (elim r.selector [
        | some s ↦ err (needless_selector r.name)
        | none ↦ (do
          _ ← (if is_empty r.base then ok tt else validate_value r.kind r.base)
          _ ← validate_overrides r vlans r.overrides []
          (if is_empty r.base && not (any_override_provides_value r)
              then err (no_value r.name)
              else ok tt))
      ])

  -- One round of the loop, with the keys seen so far: the keys seen then.
  unfoldable pub check_record :
      List GoString → List GoString → Record → List GoString → Result RecordsError (List GoString)
  check_record vlans zones r seen =
      if is_empty (trim_space r.name)
      then err missing_name
      else (elim (parse_domain_name parse_ip r.name) [
        | err failure ↦ err (bad_name r.name failure)
        | ok canonical ↦
            if not (in_any_zone (normalized_name r.name) zones)
            then err (outside_zones r.name)
            else if any (str_eq (record_key r)) seen
            then err (duplicate_record r.name)
            else (do
              _ ← (if is_mdns r then check_selector r vlans r.selector else check_static r vlans)
              ok (record_key r ∷ seen))
      ])

  unfoldable pub validate_records_from :
      List GoString
      → List GoString
      → List Record
      → List GoString
      → Result RecordsError (List GoString)
  validate_records_from vlans zones [] seen = ok seen
  validate_records_from vlans zones (r ∷ rs) seen = do
    seen' ← check_record vlans zones r seen
    validate_records_from vlans zones rs seen'

  -- `validateRecords`: the keys of the records when it returns nil.
  unfoldable pub validate_records :
      List Record → List Vlan → List GoString → Result RecordsError (List GoString)
  validate_records rs vlans zones = validate_records_from (vlan_names vlans) zones rs []
