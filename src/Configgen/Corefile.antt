-- ===== src/Configgen/Corefile.antt =====
-- internal/configgen/corefile/block.go, and the Corefile of internal/configgen/configgen.go.
pub mod Counted
pub mod Once
mod Tests
use bramble_gate.Prelude.{
  ℕ, Bool, true, false, ◌&&◌, ◌||◌, not, Option, none, some, List, [], ◌∷◌, ◌++◌, map, is_nil, ltb,
  if◌then◌else◌, GoString, codes, str_eq, any,
}
use bramble_gate.Prelude.Int.{ℤ, pos, ltb_ℤ}
use bramble_gate.Model.Domain.{normalized_name}
use bramble_gate.Model.Settings.{
  Settings, UpstreamTarget, CacheTuning, QueryLog, LogTuning, Observability, Listener, QuicListener,
  Host, Record, names,
}
use bramble_gate.Configgen.Zones.{itoa, owned_zones, fallthrough_zones}

-- `Block`
pub record Block : Type 0 where
  pub addr : GoString
  pub lines : List GoString

-- `NewBlock`
abbrev pub new_block : GoString → Block
new_block addr = record { addr = addr; lines = [] }

-- `Directive`, of the formatted line
unfoldable pub directive : Block → GoString → Block
directive b line = record b { lines = b.lines ++ (line ∷ []) }

-- `DirectiveIf`
unfoldable pub directive_if : Block → Bool → GoString → Block
unfolding directive
directive_if b cond line = if cond then directive b line else b

-- `SubBlock`
unfoldable pub sub_block : Block → GoString → (Block → Block) → Block
sub_block b header inner = record b {
  lines =
      b.lines
      ++ ((header ++ codes " {")
          ∷ (map (λ l. b'\t' ∷ l) (inner (new_block [])).lines ++ (codes "}" ∷ [])));
}

-- `String`
abbrev line_texts : List GoString → GoString
line_texts [] = []
line_texts (l ∷ ls) = (b'\t' ∷ l) ++ (b'\n' ∷ line_texts ls)

unfoldable pub block_text : Block → GoString
block_text b = b.addr ++ (codes " {\n" ++ (line_texts b.lines ++ codes "}\n"))

-- strings.Join with a space
unfoldable pub join_words : List GoString → GoString
join_words [] = []
join_words (w ∷ []) = w
join_words (w ∷ v ∷ ws) = w ++ (b' ' ∷ join_words (v ∷ ws))

-- `Options`, as far as the Corefile goes, with the results of `ZoneDataPath` and `HostsDataPath`
pub record Options : Type 0 where
  pub zone_data_path : GoString
  pub hosts_data_path : GoString
  pub cert_file : GoString
  pub key_file : GoString

-- `writeObservability`
unfoldable pub write_observability : Block → Observability → Block
write_observability b o =
    let b1 = directive_if b o.health (codes "health :9090") in
    let b2 = directive_if b1 o.ready (codes "ready :9191") in
    directive_if b2 o.prometheus (codes "prometheus :9153")

-- `writeQueryLog`
unfoldable pub write_query_log : Block → QueryLog → Block
write_query_log b q =
    if not q.enabled
    then b
    else if not (ltb_ℤ (pos 0) q.capacity)
    then directive b (codes "querylog")
    else sub_block b (codes "querylog")
        (λ inner. directive inner (codes "capacity " ++ itoa q.capacity))

-- `writeCache`
unfoldable pub write_cache : Block → CacheTuning → Block
write_cache b c =
    if c.serve_stale_disabled && c.prefetch_disabled
    then directive b (codes "vlancache")
    else sub_block b (codes "vlancache") (λ inner.
      directive_if (directive_if inner (not c.prefetch_disabled) (codes "prefetch"))
        (not c.serve_stale_disabled) (codes "serve_stale 1h"))

-- `writeErrors`
unfoldable pub write_errors : Block → Bool → Block
write_errors b consolidate_disabled =
    if consolidate_disabled
    then directive b (codes "errors")
    else sub_block b (codes "errors")
        (λ inner. directive inner (codes "consolidate 5m \".* i/o timeout$\" warning"))

-- `writeLog`
unfoldable pub write_log : Block → LogTuning → Block
write_log b l =
    if l.disabled
    then b
    else if is_nil l.classes
    then directive b (codes "log")
    else sub_block b (codes "log")
        (λ inner. directive inner (codes "class " ++ join_words l.classes))

-- `forwardTarget`
unfoldable pub forward_target : UpstreamTarget → GoString
forward_target u =
    if str_eq u.protocol (codes "dot")
    then codes "tls://" ++ u.address
    else if str_eq u.protocol (codes "doh")
    then codes "https://" ++ u.address
    else u.address

-- `writeForward`
abbrev pub max_fails_line : Block → Option ℕ → Block
max_fails_line b none = b
max_fails_line b (some n) = directive b (codes "max_fails " ++ itoa (pos n))

abbrev pub is_unset : ℕ → Bool
is_unset n = not (ltb 0 n)

abbrev pub untuned : UpstreamTarget → Bool
untuned u =
    (elim (u.max_fails) [ none ↦ true | some _ ↦ false ])
    && (is_unset u.health_check_seconds
        && (is_unset u.expire_seconds && (not u.prefer_udp && is_unset u.max_concurrent)))

abbrev pub forward_tuning : UpstreamTarget → Block → Block
forward_tuning u inner =
    let b1 = max_fails_line inner u.max_fails in
    let b2 =
      directive_if b1 (ltb 0 u.health_check_seconds)
        (codes "health_check " ++ (itoa (pos u.health_check_seconds) ++ codes "s")) in
    let b3 =
      directive_if b2 (ltb 0 u.expire_seconds)
        (codes "expire " ++ (itoa (pos u.expire_seconds) ++ codes "s")) in
    let b4 = directive_if b3 u.prefer_udp (codes "prefer_udp") in
    directive_if b4 (ltb 0 u.max_concurrent)
      (codes "max_concurrent " ++ itoa (pos u.max_concurrent))

unfoldable pub write_forward : Block → UpstreamTarget → Block
write_forward b u =
    if untuned u
    then directive b (codes "forward . " ++ forward_target u)
    else sub_block b (codes "forward . " ++ forward_target u) (forward_tuning u)

-- The tls directive, the tuning of a QUIC listener and the timeouts, of `buildServerBlock`
unfoldable pub write_tls : Block → Bool → Options → Block
write_tls b tls opts =
    directive_if b tls (codes "tls " ++ (opts.cert_file ++ (b' ' ∷ opts.key_file)))

unfoldable pub write_quic : Block → Option QuicListener → GoString → Block
write_quic b none plugin = b
write_quic b (some q) plugin =
    if ltb_ℤ (pos 0) q.max_streams || ltb_ℤ (pos 0) q.worker_pool_size
    then sub_block b plugin (λ inner.
      directive_if
        (directive_if inner (ltb_ℤ (pos 0) q.max_streams)
          (codes "max_streams " ++ itoa q.max_streams))
        (ltb_ℤ (pos 0) q.worker_pool_size) (codes "worker_pool_size " ++ itoa q.worker_pool_size))
    else b

unfoldable pub write_timeouts : Block → Bool → Block
write_timeouts b tls =
    if tls then sub_block b (codes "timeouts") (λ inner. directive inner (codes "idle 3m")) else b

-- The stanzas of the hosts, mdnsbridge and localrecords plugins, of `buildServerBlock`
unfoldable pub write_zones : Block → Settings → Options → Block
write_zones b s opts =
    let b1 =
      sub_block b (codes "hosts " ++ (opts.hosts_data_path ++ codes " ."))
        (λ inner. directive inner (codes "fallthrough")) in
    let b2 = directive_if b1 s.mdns.enabled (codes "mdnsbridge") in
    sub_block b2 (codes "localrecords " ++ join_words (owned_zones s)) (λ inner.
      directive_if (directive inner (codes "zonedata " ++ opts.zone_data_path))
        (not (is_nil (fallthrough_zones s)))
        (codes "fallthrough " ++ join_words (fallthrough_zones s)))

-- `buildServerBlock`, before `String`
unfoldable pub server_block :
    GoString → Bool → Option QuicListener → GoString → Settings → Options → Bool → Block
server_block addr tls quic plugin s opts observability =
    let b1 = write_tls (new_block addr) tls opts in
    let b2 = write_quic b1 quic plugin in
    let b3 = write_timeouts b2 tls in
    let b4 = directive_if b3 (not s.bufsize_disabled) (codes "bufsize 1232") in
    let b5 = if observability then write_observability b4 s.observability else b4 in
    let b6 = write_query_log b5 s.querylog in
    let b7 = write_zones b6 s opts in
    let b8 = directive_if b7 s.upstream.ecs (codes "rewrite edns0 subnet set 32 128") in
    let b9 = write_forward b8 s.upstream in
    let b10 = write_cache b9 s.cache in
    let b11 = write_errors b10 s.consolidate_disabled in write_log b11 s.log

-- A listener of `buildCorefile`: whether it is enabled, and the arguments of its `nextBlock`.
pub record Socket : Type 0 where
  pub enabled : Bool
  pub address : GoString
  pub tls : Bool
  pub quic : Option QuicListener
  pub plugin : GoString

abbrev pub sockets : Settings → List Socket
sockets s =
    record {
      enabled = s.listeners.plain.enabled;
      address = codes ".:" ++ itoa s.listeners.plain.port;
      tls = false;
      quic = none;
      plugin = [];
    }
    ∷ record {
      enabled = s.listeners.dot.enabled;
      address = codes "tls://.:" ++ itoa s.listeners.dot.port;
      tls = true;
      quic = none;
      plugin = [];
    }
    ∷ record {
      enabled = s.listeners.doh.enabled;
      address = codes "https://.:" ++ itoa s.listeners.doh.port;
      tls = true;
      quic = none;
      plugin = [];
    }
    ∷ record {
      enabled = s.listeners.doq.listener.enabled;
      address = codes "quic://.:" ++ itoa s.listeners.doq.listener.port;
      tls = true;
      quic = some s.listeners.doq;
      plugin = codes "quic";
    }
    ∷ record {
      enabled = s.listeners.doh3.listener.enabled;
      address = codes "https3://.:" ++ itoa s.listeners.doh3.listener.port;
      tls = true;
      quic = some s.listeners.doh3;
      plugin = codes "https3";
    }
    ∷ []

-- The blocks of `buildCorefile`, with the flag that `nextBlock` clears.
unfoldable pub next_blocks : Settings → Options → Bool → List Socket → List Block
next_blocks s opts observability [] = []
next_blocks s opts observability (l ∷ ls) =
    let without = next_blocks s opts observability ls in
    let rest = next_blocks s opts false ls in
    if l.enabled
    then server_block l.address l.tls l.quic l.plugin s opts observability ∷ rest
    else without

abbrev pub texts : List Block → GoString
texts [] = []
texts (b ∷ bs) = block_text b ++ texts bs

-- `buildCorefile`
unfoldable pub build_corefile : Settings → Options → GoString
unfolding next_blocks
build_corefile s opts = texts (next_blocks s opts true (sockets s))

-- `renderHostsFile`; its heading has a dash of three bytes.
abbrev pub name_texts : List GoString → GoString
name_texts [] = []
name_texts (n ∷ ns) = (b' ' ∷ n) ++ name_texts ns

abbrev pub host_texts : List Host → GoString
host_texts [] = []
host_texts (h ∷ hs) = h.ip ++ (name_texts (names h) ++ (b'\n' ∷ host_texts hs))

unfoldable pub render_hosts_file : List Host → GoString
render_hosts_file hs =
    codes "# generated "
    ++ (226 ∷ 128 ∷ 148 ∷ codes " do not edit; see /config/hosts.yaml\n" ++ host_texts hs)

-- `hostsShadowWarnings`; a warning is the name and the address that it is made of.
abbrev pub shadowed_names : List GoString → GoString → List GoString → List (GoString × GoString)
shadowed_names declared ip [] = []
shadowed_names declared ip (n ∷ ns) =
    let rest = shadowed_names declared ip ns in
    if any (str_eq (normalized_name n)) declared then (n, ip) ∷ rest else rest

unfoldable pub hosts_shadow_warnings : List Host → List Record → List (GoString × GoString)
hosts_shadow_warnings [] rs = []
hosts_shadow_warnings (h ∷ hs) rs =
    shadowed_names (map (λ r. normalized_name r.name) rs) h.ip (names h)
    ++ hosts_shadow_warnings hs rs
