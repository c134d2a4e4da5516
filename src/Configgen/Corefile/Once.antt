-- ===== src/Configgen/Corefile/Once.antt =====
-- internal/configgen/configgen.go: the server blocks of a Corefile.
use bramble_gate.Prelude.{
  ℕ, ◌≡◌, refl, ap₂, ◌∙◌, ◌+◌, Bool, true, false, ◌&&◌, not, Option, List, [], ◌∷◌, ◌++◌, map,
  select, any, All, GoString, codes, has_prefix, arith, inl, inr, Bool-cases, if◌then◌else◌,
}
use bramble_gate.Model.Settings.{
  Settings, QuicListener, UpstreamTarget, CacheTuning, QueryLog, LogTuning, Observability,
}
use bramble_gate.Configgen.Corefile.{
  Block, Options, Socket, directive, directive_if, sub_block, write_observability, write_query_log,
  write_cache, write_errors, write_log, write_forward, write_tls, write_quic, write_timeouts,
  write_zones, server_block, next_blocks, sockets,
}
use bramble_gate.Configgen.Corefile.Counted.{Probe, is_enabled, named, is_quiet, named-server_block}

-- The writers keep the address of the block.
write_tls-addr : (b : Block) (tls : Bool) (opts : Options) → (write_tls b tls opts).addr ≡ b.addr
unfolding write_tls directive sub_block directive_if
write_tls-addr b tls opts = ground arith

write_quic-addr :
    (b : Block) (quic : Option QuicListener) (plugin : GoString)
    → (write_quic b quic plugin).addr ≡ b.addr
unfolding write_quic directive sub_block directive_if
write_quic-addr b quic plugin = ground arith

write_timeouts-addr : (b : Block) (tls : Bool) → (write_timeouts b tls).addr ≡ b.addr
unfolding write_timeouts directive sub_block directive_if
write_timeouts-addr b tls = ground arith

directive_if-addr : (b : Block) (cond : Bool) (l : GoString) → (directive_if b cond l).addr ≡ b.addr
unfolding directive_if directive sub_block
directive_if-addr b cond l = ground arith

write_observability-addr : (b : Block) (o : Observability) → (write_observability b o).addr ≡ b.addr
unfolding write_observability directive sub_block directive_if
write_observability-addr b o = ground arith

write_query_log-addr : (b : Block) (q : QueryLog) → (write_query_log b q).addr ≡ b.addr
unfolding write_query_log directive sub_block directive_if
write_query_log-addr b q = ground arith

write_zones-addr :
    (b : Block) (s : Settings) (opts : Options) → (write_zones b s opts).addr ≡ b.addr
unfolding write_zones directive sub_block directive_if
write_zones-addr b s opts = ground arith

write_forward-addr : (b : Block) (u : UpstreamTarget) → (write_forward b u).addr ≡ b.addr
unfolding write_forward directive sub_block directive_if
write_forward-addr b u = ground arith

write_cache-addr : (b : Block) (c : CacheTuning) → (write_cache b c).addr ≡ b.addr
unfolding write_cache directive sub_block directive_if
write_cache-addr b c = ground arith

write_errors-addr : (b : Block) (disabled : Bool) → (write_errors b disabled).addr ≡ b.addr
unfolding write_errors directive sub_block directive_if
write_errors-addr b disabled = ground arith

write_log-addr : (b : Block) (l : LogTuning) → (write_log b l).addr ≡ b.addr
unfolding write_log directive sub_block directive_if
write_log-addr b l = ground arith

server_block-addr :
    (addr : GoString) (tls : Bool) (quic : Option QuicListener) (plugin : GoString) (s : Settings)
    (opts : Options) (observability : Bool)
    → (server_block addr tls quic plugin s opts observability).addr ≡ addr
unfolding server_block
server_block-addr addr tls quic plugin s opts observability =
    write_log-addr _ s.log
    ∙ (write_errors-addr _ s.consolidate_disabled
        ∙ (write_cache-addr _ s.cache
            ∙ (write_forward-addr _ s.upstream
                ∙ (directive_if-addr _ s.upstream.ecs _
                    ∙ (write_zones-addr _ s opts
                        ∙ (write_query_log-addr _ s.querylog
                            ∙ (observed-addr observability _
                                ∙ (directive_if-addr _ (not s.bufsize_disabled) _
                                    ∙ (write_timeouts-addr _ tls
                                        ∙ (write_quic-addr _ quic plugin
                                            ∙ write_tls-addr _ tls opts))))))))))
  where
    observed-addr :
        (cond : Bool) (b : Block)
        → (if cond then write_observability b s.observability else b).addr ≡ b.addr
    observed-addr true b = write_observability-addr b s.observability
    observed-addr false b = refl

-- How many lines of the blocks are the directive.
abbrev pub total : Probe → List Block → ℕ
total p [] = 0
total p (b ∷ bs) = named p b + total p bs

abbrev QuietPlugin : Socket → Type 0
QuietPlugin l = is_quiet (l.plugin ++ codes " {") ≡ true

abbrev pub is_open : Socket → Bool
is_open l = l.enabled

total-next_blocks :
    (p : Probe) (s : Settings) (opts : Options) (observability : Bool) (ls : List Socket)
    → All QuietPlugin ls
    → total p (next_blocks s opts observability ls)
      ≡ (if observability && (any is_open ls && is_enabled p s.observability) then 1 else 0)
unfolding next_blocks
total-next_blocks p s opts observability [] q = ground arith
total-next_blocks p s opts observability (l ∷ ls) q = elim (Bool-cases l.enabled) [
  | inl e ↦
      rw (e, next_blocks)
        (ap₂ ◌+◌ (named-server_block p l.address l.tls l.quic l.plugin s opts observability q.0)
            (total-next_blocks p s opts false ls q.1)
          ∙ ground arith)
  | inr e ↦ rw (e, next_blocks) (total-next_blocks p s opts observability ls q.1)
]

addrs-next_blocks :
    (s : Settings) (opts : Options) (observability : Bool) (ls : List Socket)
    → map (λ b. b.addr) (next_blocks s opts observability ls)
      ≡ map (λ l. l.address) (select is_open ls)
unfolding next_blocks
addrs-next_blocks s opts observability [] = refl
addrs-next_blocks s opts observability (l ∷ ls) = elim (Bool-cases l.enabled) [
  | inl e ↦
      rw (e, next_blocks)
        (ap₂ ◌∷◌ (server_block-addr l.address l.tls l.quic l.plugin s opts observability)
          (addrs-next_blocks s opts false ls))
  | inr e ↦ rw (e, next_blocks) (addrs-next_blocks s opts observability ls)
]

-- The Corefile has one server block for each enabled listener, at its address and in the fixed
-- order of the listeners; and over all its blocks, each of the health, ready and prometheus
-- directives stands on one line if it is enabled and some listener is, and on no line otherwise.
pub next_blocks-once :
    (s : Settings) (opts : Options)
    → (map (λ b. b.addr) (next_blocks s opts true (sockets s))
        ≡ map (λ l. l.address) (select is_open (sockets s)))
      × ((p : Probe)
          → total p (next_blocks s opts true (sockets s))
            ≡ (if any is_open (sockets s) && is_enabled p s.observability then 1 else 0))
unfolding has_prefix
next_blocks-once s opts = (
  addrs-next_blocks s opts true (sockets s),
  λ p. total-next_blocks p s opts true (sockets s) (refl, (refl, (refl, (refl, (refl, tt))))),
)
