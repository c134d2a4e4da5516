-- ===== src/Model/Settings.antt =====
-- model/settings.go, records.go, hosts.go and selector.go: the fields that the checks and the
-- rendering of the configuration read.
use bramble_gate.Prelude.{
  ℕ, Bool, ◌&&◌, ◌||◌, Option, List, ◌∷◌, is_nil, GoString, codes, str_eq, is_empty,
}
use bramble_gate.Prelude.Int.{ℤ}
use bramble_gate.Vlanmatch.{Vlan}

-- `ClientNames`
pub record ClientNames : Type 0 where
  pub ptr_upstream : GoString
  pub refresh_hostnames : GoString

-- `UpstreamTarget`
pub record UpstreamTarget : Type 0 where
  pub address : GoString
  pub protocol : GoString
  pub ecs : Bool
  pub max_fails : Option ℕ
  pub health_check_seconds : ℕ
  pub expire_seconds : ℕ
  pub prefer_udp : Bool
  pub max_concurrent : ℕ

pub record Listener : Type 0 where
  pub enabled : Bool
  pub port : ℤ

pub record QuicListener : Type 0 where
  pub listener : Listener
  pub max_streams : ℤ
  pub worker_pool_size : ℤ

pub record Listeners : Type 0 where
  pub plain : Listener
  pub dot : Listener
  pub doh : Listener
  pub doq : QuicListener
  pub doh3 : QuicListener

pub record Acme : Type 0 where
  pub enabled : Bool
  pub domain : GoString
  pub email : GoString
  pub dns_provider : GoString
  pub renew_before_days : ℤ
  pub self_signed_fallback : Bool

pub record Selector : Type 0 where
  pub service : GoString
  pub instance_label : GoString
  pub host : GoString
  pub txt : List (GoString × GoString)
  pub vlan : GoString
  pub family : GoString

-- `NamingRule`; `selector` is Match
pub record NamingRule : Type 0 where
  pub selector : Selector
  pub suffix : GoString

pub record Mdns : Type 0 where
  pub enabled : Bool
  pub suffix : GoString
  pub auto_publish : List Selector
  pub naming : List NamingRule

-- `Observability`, `QueryLog`, `CacheTuning`, `LogTuning` and `ErrorsTuning`, as far as they are
-- rendered.
pub record Observability : Type 0 where
  pub health : Bool
  pub ready : Bool
  pub prometheus : Bool

pub record QueryLog : Type 0 where
  pub enabled : Bool
  pub capacity : ℤ

pub record CacheTuning : Type 0 where
  pub serve_stale_disabled : Bool
  pub prefetch_disabled : Bool

pub record LogTuning : Type 0 where
  pub disabled : Bool
  pub classes : List GoString

pub record Settings : Type 0 where
  pub vlans : List Vlan
  pub upstream : UpstreamTarget
  pub listeners : Listeners
  pub acme : Acme
  pub mdns : Mdns
  pub cache : CacheTuning
  pub log : LogTuning
  pub consolidate_disabled : Bool
  pub bufsize_disabled : Bool
  pub observability : Observability
  pub querylog : QueryLog
  pub client_names : ClientNames

-- `Selector.IsZero`
unfoldable pub is_zero : Selector → Bool
is_zero s =
    is_empty s.service
    && (is_empty s.instance_label
        && (is_empty s.host && (is_nil s.txt && (is_empty s.vlan && is_empty s.family))))

-- `Settings.EncryptedListenerEnabled`
unfoldable pub encrypted_listener_enabled : Settings → Bool
encrypted_listener_enabled s =
    s.listeners.dot.enabled
    || (s.listeners.doh.enabled
        || (s.listeners.doq.listener.enabled || s.listeners.doh3.listener.enabled))

-- `VLANOverride`
pub record VlanOverride : Type 0 where
  pub vlan : GoString
  pub value : GoString
  pub ttl : ℕ
  pub nxdomain : Bool

-- `Record`; `base` is Default and `selector` is Match
pub record Record : Type 0 where
  pub name : GoString
  pub kind : GoString
  pub base : GoString
  pub ttl : ℕ
  pub overrides : List VlanOverride
  pub selector : Option Selector

abbrev pub type_a : GoString
type_a = codes "A"

abbrev pub type_aaaa : GoString
type_aaaa = codes "AAAA"

abbrev pub type_cname : GoString
type_cname = codes "CNAME"

abbrev pub type_mdns : GoString
type_mdns = codes "mdns"

-- `Record.IsMDNS`
unfoldable pub is_mdns : Record → Bool
is_mdns r = str_eq r.kind type_mdns

pub record Host : Type 0 where
  pub ip : GoString
  pub hostname : GoString
  pub aliases : List GoString

-- `Host.Names`
unfoldable pub names : Host → List GoString
names h = h.hostname ∷ h.aliases
