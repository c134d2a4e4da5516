-- ===== src/Configgen/Settings.antt =====
-- internal/configgen/validate.go: the checks of the settings but for the VLANs, which are in Vlans.
use bramble_gate.Prelude.{
  ◌/◌, ◌^◌, Bool, ◌&&◌, ◌||◌, not, Option, none, some, List, [], ◌∷◌, ◌++◌, any, ◌==◌,
  if◌then◌else◌, GoString, codes, str_eq, is_empty, trim_space, trim_dot, to_lower, has_suffix, Ip,
  v4, v6,
}
use bramble_gate.Prelude.Int.{pos, ltb_ℤ, leb_ℤ, eq_ℤ}
use bramble_gate.Prelude.Results.{Result, ok, err, ◌>>=◌}
use bramble_gate.Vlanmatch.{Vlan}
use bramble_gate.Model.Domain.{DomainError, parse_domain_name}
use bramble_gate.Model.Settings.{
  ClientNames, UpstreamTarget, Listener, Listeners, Acme, Selector, NamingRule, Mdns,
}

-- The errors, with the values that tell them apart.
pub data SettingsError : Type 0 where
  port_out_of_range : GoString → SettingsError
  no_listener : SettingsError
  bad_streams : GoString → SettingsError
  bad_pool_size : GoString → SettingsError
  missing_address : SettingsError
  not_host_port : GoString → SettingsError
  missing_host : GoString → SettingsError
  bad_port : GoString → SettingsError
  unknown_protocol : GoString → SettingsError
  ecs_to_hostname : GoString → SettingsError
  ecs_to_public : GoString → SettingsError
  missing_domain : SettingsError
  bad_domain : DomainError → SettingsError
  missing_email : SettingsError
  missing_provider : SettingsError
  negative_days : SettingsError
  unknown_mode : GoString → SettingsError
  unknown_class : GoString → SettingsError
  unknown_vlan : GoString → SettingsError
  unknown_family : GoString → SettingsError
  bad_suffix : DomainError → SettingsError
  suffix_outside : GoString → SettingsError

-- What the checks use of the packages net and strconv: net.ParseIP, net.SplitHostPort, and whether
-- strconv.Atoi reads a number.
pub record Parsers : Type 0 where
  pub parse_ip : GoString → Option Ip
  pub split_host_port : GoString → Option (GoString × GoString)
  pub is_number : GoString → Bool

-- A value stands in the list of a switch.
abbrev pub one_of : GoString → List GoString → Bool
one_of s choices = any (str_eq s) choices

abbrev pub owned_zone : GoString
owned_zone = codes "home.arpa"

-- One round of the loop of `validateListeners`.
unfoldable pub port_error : GoString → Listener → Option SettingsError
port_error name l =
    if l.enabled && (leb_ℤ l.port (pos 0) || ltb_ℤ (pos 65535) l.port)
    then some (port_out_of_range name)
    else none

-- The loop: it ranges over a map, so in Go any of several errors may be the one returned.
unfoldable pub port_errors : List (GoString × Listener) → Option SettingsError
unfolding port_error
port_errors [] = none
port_errors ((name, l) ∷ ls) = elim (port_error name l) [
  | some failure ↦ some failure
  | none ↦ port_errors ls
]

abbrev pub named_listeners : Listeners → List (GoString × Listener)
named_listeners l =
    (codes "plain", l.plain)
    ∷ (codes "dot", l.dot)
    ∷ (codes "doh", l.doh)
    ∷ (codes "doq", l.doq.listener)
    ∷ (codes "doh3", l.doh3.listener)
    ∷ []

unfoldable pub validate_listeners : Listeners → Result SettingsError (Unit {0})
unfolding port_errors
validate_listeners l = elim (port_errors (named_listeners l)) [
  | some failure ↦ err failure
  | none ↦
      if not (any (λ p. p.1.enabled) (named_listeners l))
      then err no_listener
      else if ltb_ℤ l.doq.max_streams (pos 0)
      then err (bad_streams (codes "doq"))
      else if ltb_ℤ l.doq.worker_pool_size (pos 0)
      then err (bad_pool_size (codes "doq"))
      else if ltb_ℤ l.doh3.max_streams (pos 0)
      then err (bad_streams (codes "doh3"))
      else if not (eq_ℤ l.doh3.worker_pool_size (pos 0))
      then err (bad_pool_size (codes "doh3"))
      else ok tt
]

-- net.IP.IsLoopback, IsPrivate and IsLinkLocalUnicast
unfoldable pub is_loopback : Ip → Bool
is_loopback (v4 a) = a / 2 ^ 24 == 127
is_loopback (v6 a) = a == 1

unfoldable pub is_private : Ip → Bool
is_private (v4 a) = a / 2 ^ 24 == 10 || (a / 2 ^ 20 == 0xac1 || a / 2 ^ 16 == 0xc0a8)
is_private (v6 a) = a / 2 ^ 121 == 0x7e

unfoldable pub is_link_local_unicast : Ip → Bool
is_link_local_unicast (v4 a) = a / 2 ^ 16 == 0xa9fe
is_link_local_unicast (v6 a) = a / 2 ^ 118 == 0x3fa

-- `isTrustedECSUpstream`
unfoldable pub is_trusted_ecs_upstream : Ip → Bool
is_trusted_ecs_upstream ip = is_loopback ip || (is_private ip || is_link_local_unicast ip)

-- The end of `validateUpstream`, for an address of this host and an upstream that gets ECS.
unfoldable pub ecs_error : GoString → Option Ip → Result SettingsError (Unit {0})
ecs_error host none = err (ecs_to_hostname host)
ecs_error host (some ip) = if is_trusted_ecs_upstream ip then ok tt else err (ecs_to_public host)

-- `validateLog`
unfoldable pub validate_log : List GoString → Result SettingsError (Unit {0})
validate_log [] = ok tt
validate_log (c ∷ classes) =
    if one_of (to_lower (trim_space c))
      (codes "success" ∷ codes "denial" ∷ codes "error" ∷ codes "all" ∷ [])
    then validate_log classes
    else err (unknown_class c)

-- `validateSelector`, for the names of the declared VLANs
unfoldable pub validate_selector : List GoString → Selector → Result SettingsError (Unit {0})
validate_selector vlans s =
    if not (is_empty s.vlan) && not (any (str_eq s.vlan) vlans)
    then err (unknown_vlan s.vlan)
    else if one_of (to_lower s.family) ([] ∷ codes "ipv4" ∷ codes "ipv6" ∷ [])
    then ok tt
    else err (unknown_family s.family)

unfoldable pub validate_selectors : List GoString → List Selector → Result SettingsError (Unit {0})
validate_selectors vlans [] = ok tt
validate_selectors vlans (s ∷ ss) = do _ ← validate_selector vlans s; validate_selectors vlans ss

abbrev pub vlan_names : List Vlan → List GoString
vlan_names [] = []
vlan_names (v ∷ vs) = v.name ∷ vlan_names vs

module _ (net : Parsers) where
  open net use {parse_ip, split_host_port, is_number}

  -- The check of an address `host:port`, of `validateClientNames` and `validateUpstream`: the host.
  unfoldable pub check_host_port : GoString → Result SettingsError GoString
  check_host_port address = elim (split_host_port address) [
    | none ↦ err (not_host_port address)
    | some (host, port) ↦
        if is_empty host
        then err (missing_host address)
        else if not (is_number port)
        then err (bad_port address)
        else ok host
  ]

  -- `validateClientNames`
  unfoldable pub check_mode : GoString → Result SettingsError (Unit {0})
  check_mode mode =
      if one_of mode ([] ∷ codes "ipv4_only" ∷ codes "all" ∷ codes "none" ∷ [])
      then ok tt
      else err (unknown_mode mode)

  unfoldable pub validate_client_names : ClientNames → Result SettingsError (Unit {0})
  unfolding check_mode
  validate_client_names c =
      if is_empty c.ptr_upstream
      then check_mode c.refresh_hostnames
      else (do host ← check_host_port c.ptr_upstream; check_mode c.refresh_hostnames)

  -- `validateUpstream`
  unfoldable pub check_protocol : UpstreamTarget → GoString → Result SettingsError (Unit {0})
  check_protocol u host =
      if not (one_of u.protocol ([] ∷ codes "plain" ∷ codes "dot" ∷ codes "doh" ∷ []))
      then err (unknown_protocol u.protocol)
      else if u.ecs
      then ecs_error host (parse_ip host)
      else ok tt

  unfoldable pub validate_upstream : UpstreamTarget → Result SettingsError (Unit {0})
  unfolding check_protocol
  validate_upstream u =
      if is_empty (trim_space u.address)
      then err missing_address
      else (do host ← check_host_port u.address; check_protocol u host)

  -- `validateSuffix`
  unfoldable pub validate_suffix : GoString → Result SettingsError (Unit {0})
  validate_suffix suffix =
      if is_empty suffix then ok tt else (elim (parse_domain_name parse_ip suffix) [
        | err failure ↦ err (bad_suffix failure)
        | ok canonical ↦
            (let s = trim_dot (to_lower suffix) in
              if str_eq s owned_zone || has_suffix s (codes "." ++ owned_zone)
              then ok tt
              else err (suffix_outside suffix))
      ])

  unfoldable pub validate_naming : List GoString → List NamingRule → Result SettingsError (Unit {0})
  validate_naming vlans [] = ok tt
  validate_naming vlans (r ∷ rules) = do
    _ ← validate_selector vlans r.selector
    _ ← validate_suffix r.suffix
    validate_naming vlans rules

  -- `validateMDNS`
  unfoldable pub validate_mdns : Mdns → List Vlan → Result SettingsError (Unit {0})
  unfolding validate_naming
  validate_mdns m vlans = if not m.enabled then ok tt else (do
    _ ← validate_suffix m.suffix
    _ ← validate_selectors (vlan_names vlans) m.auto_publish
    validate_naming (vlan_names vlans) m.naming)

  -- `validateACME`
  unfoldable pub check_account : Acme → Result SettingsError (Unit {0})
  check_account a =
      if is_empty (trim_space a.email)
      then err missing_email
      else if is_empty (trim_space a.dns_provider)
      then err missing_provider
      else if ltb_ℤ a.renew_before_days (pos 0)
      then err negative_days
      else ok tt

  unfoldable pub validate_acme : Acme → Result SettingsError (Unit {0})
  unfolding check_account
  validate_acme a =
      if not a.enabled
      then ok tt
      else if is_empty (trim_space a.domain)
      then err missing_domain
      else (elim (parse_domain_name parse_ip a.domain) [
        | err failure ↦ err (bad_domain failure)
        | ok canonical ↦ check_account a
      ])
