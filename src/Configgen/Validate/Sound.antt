-- ===== src/Configgen/Validate/Sound.antt =====
-- internal/configgen: what holds of a configuration that is rendered.
use bramble_gate.Prelude.{
  ◌≡◌, ◌⊎◌, inl, inr, Bool-cases, Option-cases, true, false, ◌||◌, Option, none, some, List, [],
  ◌∷◌, ◌++◌, map, any, All, GoString, codes, is_empty, trim_space, Ip, v4, v6, IpNet, net4, net6,
  net_contains, ◌*◌, ◌^◌, arith,
}
use bramble_gate.Prelude.Int.{pos, ◌≤ℤ◌}
use bramble_gate.Prelude.Distinct.{Distinct}
use bramble_gate.Prelude.Results.{Result, ok, err, >>=-eq-ok}
use bramble_gate.Model.Domain.{normalized_name}
use bramble_gate.Model.Settings.{
  Settings, Record, Host, Listener, Listeners, UpstreamTarget, encrypted_listener_enabled,
}
use bramble_gate.Configgen.Vlans.{validate_vlans}
use bramble_gate.Configgen.Settings.{
  Parsers, port_error, port_errors, named_listeners, validate_listeners, check_host_port, ecs_error,
  is_trusted_ecs_upstream, is_loopback, is_private, is_link_local_unicast, validate_upstream,
  validate_acme, validate_mdns, validate_log, validate_client_names,
}
use bramble_gate.Configgen.Hosts.{validate_hosts}
use bramble_gate.Configgen.Hosts.Accepted.{all_names, validate_hosts-Distinct}
use bramble_gate.Configgen.Records.{validate_records}
use bramble_gate.Configgen.Zones.{SelfIps, ZoneData, owned_zones}
use bramble_gate.Configgen.Zones.Sound.{IsServable, render_zone-IsServable}
use bramble_gate.Configgen.Validate.{
  ConfigError, settings_error, vlan_error, records_error, hosts_error, ddr_unresolved, checked,
  check_certificate, validate, render,
}

pub checked-eq-ok :
    {Failure Value : Type 0} (wrap : Failure → ConfigError) (r : Result Failure Value)
    {value : Value}
    → checked wrap r ≡ ok value
    → r ≡ ok value
checked-eq-ok wrap (err failure) h = cc
checked-eq-ok wrap (ok v) h = cc

-- A listener that is off, or has a port.
abbrev pub HasPort : Listener → Type 0
HasPort l = (l.enabled ≡ false) ⊎ ((pos 1 ≤ℤ l.port) × (l.port ≤ℤ pos 65535))

port_error-HasPort : (name : GoString) (l : Listener) → port_error name l ≡ none → HasPort l
unfolding port_error
port_error-HasPort name l h = elim (Bool-cases l.enabled) [
  | inr off ↦ inl off
  | inl on ↦ inr (ground (arith, on), ground (arith, on))
]

port_errors-HasPort :
    (ls : List (GoString × Listener)) → port_errors ls ≡ none → All (λ p. HasPort p.1) ls
unfolding port_errors
port_errors-HasPort [] h = tt
port_errors-HasPort ((name, l) ∷ ls) h = elim (Option-cases (port_error name l)) [
  | inr (failure, bad) ↦ let impossible : ⊥ = ground (arith, h, bad) in absurd impossible
  | inl good ↦ (port_error-HasPort name l good, port_errors-HasPort ls (ground (arith, h, good)))
]

listeners_lem :
    (l : Listeners)
    → validate_listeners l ≡ ok tt
    → (any (λ p. p.1.enabled) (named_listeners l) ≡ true)
      × All (λ p. HasPort p.1) (named_listeners l)
unfolding validate_listeners
listeners_lem l h = elim (Option-cases (port_errors (named_listeners l))) [
  | inr (failure, bad) ↦ let impossible : ⊥ = ground (arith, h, bad) in absurd impossible
  | inl good ↦ (ground (arith, h, good), port_errors-HasPort (named_listeners l) good)
]

-- Where encrypted listeners get their certificate.
abbrev pub HasCertificate : Settings → Type 0
HasCertificate s =
    (encrypted_listener_enabled s ≡ false)
    ⊎ ((s.acme.enabled || s.acme.self_signed_fallback ≡ true)
        × (is_empty (trim_space s.acme.domain) ≡ false))

module _ (net : Parsers) where
  open net use {parse_ip, split_host_port}

  -- The networks whose addresses do not leave the site: loopback, private use and link-local.
  abbrev pub site_nets : List IpNet
  site_nets =
      net4 0x7f000000 8
      ∷ net4 0x0a000000 8
      ∷ net4 0xac100000 12
      ∷ net4 0xc0a80000 16
      ∷ net4 0xa9fe0000 16
      ∷ net6 1 128
      ∷ net6 (0xfc * 2 ^ 120) 7
      ∷ net6 (0xfe80 * 2 ^ 112) 10
      ∷ []

  abbrev pub IsOnSite : Ip → Type 0
  IsOnSite ip = any (λ n. net_contains n ip) site_nets ≡ true

  trusted-IsOnSite : (ip : Ip) → is_trusted_ecs_upstream ip ≡ true → IsOnSite ip
  unfolding is_trusted_ecs_upstream is_loopback is_private is_link_local_unicast net_contains
  trusted-IsOnSite (v4 a) h = ground arith
  trusted-IsOnSite (v6 a) h = ground arith

  -- An upstream that is told the addresses of clients is an address of the site.
  abbrev pub KeepsClients : UpstreamTarget → Type 0
  KeepsClients u =
      (u.ecs ≡ false)
      ⊎ ((host : GoString) × (port : GoString) × (ip : Ip) × (split_host_port u.address
            ≡ some (host, port))
          × (parse_ip host ≡ some ip)
          × IsOnSite ip)

  upstream_lem : (u : UpstreamTarget) → validate_upstream net u ≡ ok tt → KeepsClients u
  unfolding validate_upstream check_host_port ecs_error
  upstream_lem u h = elim (Option-cases (split_host_port u.address)) [
    | inl bad ↦ let impossible : ⊥ = ground (arith, h, bad) in absurd impossible
    | inr ((host, port), split) ↦ elim (Bool-cases u.ecs) [
      | inr off ↦ inl off
      | inl on ↦ elim (Option-cases (parse_ip host)) [
        | inl bad ↦ let impossible : ⊥ = ground (arith, h, split, on, bad) in absurd impossible
        | inr (ip, there) ↦ inr (
          host,
          port,
          ip,
          split,
          there,
          trusted-IsOnSite ip (ground (arith, h, split, on, there)),
        )
      ]
    ]
  ]

  certificate_lem :
      (s : Settings)
      → check_certificate (encrypted_listener_enabled s) s.acme ≡ ok tt
      → validate_acme net s.acme ≡ ok tt
      → HasCertificate s
  unfolding check_certificate validate_acme
  certificate_lem s h a = elim (Bool-cases (encrypted_listener_enabled s)) [
    | inr plain ↦ inl plain
    | inl on ↦ elim (Bool-cases s.acme.enabled) [
      | inl issued ↦ inr (ground (arith, issued), ground (arith, a, issued))
      | inr off ↦ inr (ground (arith, h, on, off), ground (arith, h, on, off))
    ]
  ]

  -- What the server relies on of its configuration: a listener is on, those that are on have a
  -- port, the encrypted ones have a certificate, and client addresses go to an
  -- upstream of the site only.
  pub record IsUsable (s : Settings) : Type 0 where
    pub listens : any (λ p. p.1.enabled) (named_listeners s.listeners) ≡ true
    pub ports : All (λ p. HasPort p.1) (named_listeners s.listeners)
    pub certificate : HasCertificate s
    pub keeps_clients : KeepsClients s.upstream

  module _ (parse_cidr : GoString → Option IpNet) where
    -- The parts of a successful check that the rendering relies on.
    pub record IsChecked (s : Settings) (rs : List Record) (hs : List Host) : Type 0 where
      pub usable : IsUsable s
      pub records :
          (keys : List GoString) × (validate_records parse_ip rs s.vlans (owned_zones s) ≡ ok keys)
      pub hosts : (seen : List GoString) × (validate_hosts parse_ip hs ≡ ok seen)

    pub validate-IsChecked :
        (s : Settings) (rs : List Record) (hs : List Host)
        → validate net parse_cidr s rs hs ≡ ok tt
        → IsChecked s rs hs
    unfolding validate
    validate-IsChecked s rs hs h =
        let (a, e1, r1) = >>=-eq-ok (checked settings_error (validate_listeners s.listeners)) _ h in
        let (b, e2, r2) =
          >>=-eq-ok (checked settings_error (validate_upstream net s.upstream)) _ r1 in
        let (c, e3, r3) = >>=-eq-ok (checked vlan_error (validate_vlans parse_cidr s.vlans)) _ r2 in
        let (d, e4, r4) =
          >>=-eq-ok (check_certificate (encrypted_listener_enabled s) s.acme) _ r3 in
        let (e, e5, r5) = >>=-eq-ok (checked settings_error (validate_acme net s.acme)) _ r4 in
        let (f, e6, r6) =
          >>=-eq-ok (checked settings_error (validate_mdns net s.mdns s.vlans)) _ r5 in
        let (g, e7, r7) = >>=-eq-ok (checked settings_error (validate_log s.log.classes)) _ r6 in
        let (keys, e8, r8) =
          >>=-eq-ok (checked records_error (validate_records parse_ip rs s.vlans (owned_zones s))) _
            r7 in
        let (k, e9, r9) =
          >>=-eq-ok (checked settings_error (validate_client_names net s.client_names)) _ r8 in
        let (seen, e10, r10) = >>=-eq-ok (checked hosts_error (validate_hosts parse_ip hs)) _ r9 in
        let (listens, ports) = listeners_lem s.listeners (checked-eq-ok settings_error _ e1) in
        record {
          usable = record {
            listens = listens;
            ports = ports;
            certificate = certificate_lem s e4 (checked-eq-ok settings_error _ e5);
            keeps_clients = upstream_lem s.upstream (checked-eq-ok settings_error _ e2);
          };
          records = (keys, checked-eq-ok records_error _ e8);
          hosts = (seen, checked-eq-ok hosts_error _ e10);
        }

    -- Given that net.ParseIP reads no text that ends with a dot, a configuration that is rendered
    -- is in order: a listener is on, every listener that is on has a port of 1 to 65535, encrypted
    -- listeners have a certificate from ACME or a self-signed one for a name that is not blank, and
    -- an upstream that is told the clients' addresses is an address of a loopback, private or
    -- link-local network. In the zone data no two records have the same name and type as they are
    -- written, every record has a value or an override with one, and the target of every DDR record
    -- has an address; and no two static hosts claim the same name.
    pub render-IsUsable :
        (s : Settings) (rs : List Record) (hs : List Host) (ips : SelfIps) {z : ZoneData}
        → ((t : GoString) → parse_ip (t ++ codes ".") ≡ none)
        → render net parse_cidr s rs hs ips ≡ ok z
        → IsUsable s × IsServable z × Distinct (map normalized_name (all_names hs))
    unfolding render
    render-IsUsable s rs hs ips no_dot h =
        let (done, valid, rendered) = >>=-eq-ok (validate net parse_cidr s rs hs) _ h in
        let c = validate-IsChecked s rs hs valid in
        (
          c.usable,
          render_zone-IsServable parse_ip s rs s.vlans ips no_dot c.records.1
              (checked-eq-ok ddr_unresolved _ rendered),
          (validate_hosts-Distinct parse_ip no_dot hs c.hosts.1).2,
        )
