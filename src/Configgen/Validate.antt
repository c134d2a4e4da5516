-- ===== src/Configgen/Validate.antt =====
-- internal/configgen: `Validate`, which puts the checks together, and `Render`, which renders what
-- they accept.
pub mod Sound
use bramble_gate.Prelude.{
  Bool, true, false, ◌&&◌, not, Option, none, some, List, [], ◌∷◌, if◌then◌else◌, GoString,
  is_empty, trim_space, Ip, IpNet,
}
use bramble_gate.Prelude.Results.{Result, ok, err, ◌>>=◌}
use bramble_gate.Model.Settings.{Settings, Record, Host, Acme, encrypted_listener_enabled}
use bramble_gate.Configgen.Vlans.{VlanError, OwnedCidr, validate_vlans}
use bramble_gate.Configgen.Settings.{
  SettingsError, Parsers, validate_listeners, validate_upstream, validate_acme, validate_mdns,
  validate_log, validate_client_names,
}
use bramble_gate.Configgen.Hosts.{HostsError, validate_hosts}
use bramble_gate.Configgen.Records.{RecordsError, validate_records}
use bramble_gate.Configgen.Corefile.{
  Options, build_corefile, render_hosts_file, hosts_shadow_warnings,
}
use bramble_gate.Configgen.Zones.{SelfIps, ZoneData, owned_zones, render_zone}

-- `Rendered`, with the zone data before it becomes JSON and a warning by what it names.
pub record Rendered : Type 0 where
  pub corefile : GoString
  pub zone_data : ZoneData
  pub hosts_data : GoString
  pub warnings : List (GoString × GoString)

pub data ConfigError : Type 0 where
  settings_error : SettingsError → ConfigError
  vlan_error : VlanError → ConfigError
  records_error : RecordsError → ConfigError
  hosts_error : HostsError → ConfigError
  missing_certificate_name : ConfigError
  no_certificate_source : ConfigError
  ddr_unresolved : GoString → ConfigError

-- `return err`, of a check whose errors are of another type.
abbrev pub checked :
    {Failure Value : Type 0}
    → (Failure → ConfigError)
    → Result Failure Value
    → Result ConfigError Value
checked wrap (err failure) = err (wrap failure)
checked wrap (ok value) = ok value

-- The check of `Validate` that encrypted listeners have a certificate.
unfoldable pub check_certificate : Bool → Acme → Result ConfigError (Unit {0})
check_certificate encrypted a =
    if not encrypted
    then ok tt
    else if a.enabled
    then ok tt
    else if not a.self_signed_fallback
    then err no_certificate_source
    else if is_empty (trim_space a.domain)
    then err missing_certificate_name
    else ok tt

module _ (net : Parsers) (parse_cidr : GoString → Option IpNet) where
  open net use {parse_ip}

  -- `Validate`
  unfoldable pub validate : Settings → List Record → List Host → Result ConfigError (Unit {0})
  validate s rs hs = do
    _ ← checked settings_error (validate_listeners s.listeners)
    _ ← checked settings_error (validate_upstream net s.upstream)
    _ ← checked vlan_error (validate_vlans parse_cidr s.vlans)
    _ ← check_certificate (encrypted_listener_enabled s) s.acme
    _ ← checked settings_error (validate_acme net s.acme)
    _ ← checked settings_error (validate_mdns net s.mdns s.vlans)
    _ ← checked settings_error (validate_log s.log.classes)
    _ ← checked records_error (validate_records parse_ip rs s.vlans (owned_zones s))
    _ ← checked settings_error (validate_client_names net s.client_names)
    _ ← checked hosts_error (validate_hosts parse_ip hs)
    ok tt

  -- `Render`, as far as the zone data
  unfoldable pub render : Settings → List Record → List Host → SelfIps → Result ConfigError ZoneData
  render s rs hs ips = do _ ← validate s rs hs; checked ddr_unresolved (render_zone s rs ips)

  -- `Render`
  unfoldable pub render_files :
      Settings → List Record → List Host → SelfIps → Options → Result ConfigError Rendered
  render_files s rs hs ips opts = do
    zone ← render s rs hs ips
    ok (record {
      corefile = build_corefile s opts;
      zone_data = zone;
      hosts_data = render_hosts_file hs;
      warnings = hosts_shadow_warnings hs rs;
    })
