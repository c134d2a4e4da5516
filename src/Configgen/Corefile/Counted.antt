-- ===== src/Configgen/Corefile/Counted.antt =====
-- internal/configgen/configgen.go: how often the directives of a process-wide singleton stand in a
-- server block.
use bramble_gate.Prelude.{
  ℕ, ◌≡◌, refl, ap, ◌∙◌, inl, inr, ◌+◌, Bool, true, false, ◌&&◌, ◌||◌, not, Option, none, some,
  List, [], ◌∷◌, ◌++◌, map, is_nil, count, count-append, GoString, codes, has_prefix, arith,
  Bool-cases, if◌then◌else◌,
}
use bramble_gate.Prelude.Int.{pos, ltb_ℤ}
use bramble_gate.Model.Settings.{
  Settings, UpstreamTarget, CacheTuning, QueryLog, LogTuning, Observability, QuicListener,
}
use bramble_gate.Configgen.Corefile.{
  Block, Options, new_block, directive, directive_if, sub_block, write_observability,
  write_query_log, write_cache, write_errors, write_log, write_forward, write_tls, write_quic,
  write_timeouts, write_zones, server_block, untuned,
}

-- The three directives that CoreDNS takes in one server block of a process only.
pub data Probe : Type 0 where
  health : Probe
  ready : Probe
  prometheus : Probe

abbrev pub directive_name : Probe → GoString
directive_name health = codes "health "
directive_name ready = codes "ready "
directive_name prometheus = codes "prometheus "

abbrev pub is_enabled : Probe → Observability → Bool
is_enabled health o = o.health
is_enabled ready o = o.ready
is_enabled prometheus o = o.prometheus

abbrev pub is_named : Probe → GoString → Bool
is_named p l = has_prefix l (directive_name p)

-- How many lines of a block are the directive.
abbrev pub named : Probe → Block → ℕ
named p b = count (is_named p) b.lines

-- A line that is none of the three directives.
abbrev pub is_quiet : GoString → Bool
is_quiet l = not (is_named health l) && (not (is_named ready l) && not (is_named prometheus l))

quiet-named : (p : Probe) (l : GoString) → is_quiet l ≡ true → is_named p l ≡ false
quiet-named health l q = ground arith
quiet-named ready l q = ground arith
quiet-named prometheus l q = ground arith

named-directive :
    (p : Probe) (b : Block) (l : GoString) → is_quiet l ≡ true → named p (directive b l) ≡ named p b
unfolding directive
named-directive p b l q =
    count-append (is_named p) b.lines (l ∷ []) ∙ rw (quiet-named p l q) (ground arith)

named-directive_if :
    (p : Probe) (b : Block) (cond : Bool) (l : GoString)
    → is_quiet l ≡ true
    → named p (directive_if b cond l) ≡ named p b
unfolding directive_if
named-directive_if p b true l q = named-directive p b l q
named-directive_if p b false l q = refl

indented-named :
    (p : Probe) (ls : List GoString)
    → count (is_named p) (map (λ l. b'\t' ∷ l) ls ++ (codes "}" ∷ [])) ≡ 0
unfolding has_prefix
indented-named health [] = refl
indented-named ready [] = refl
indented-named prometheus [] = refl
indented-named health (l ∷ ls) = indented-named health ls
indented-named ready (l ∷ ls) = indented-named ready ls
indented-named prometheus (l ∷ ls) = indented-named prometheus ls

named-sub_block :
    (p : Probe) (b : Block) (header : GoString) (inner : Block → Block)
    → is_quiet (header ++ codes " {") ≡ true
    → named p (sub_block b header inner) ≡ named p b
unfolding sub_block
named-sub_block p b header inner q =
    count-append (is_named p) b.lines _
    ∙ rw (quiet-named p (header ++ codes " {") q)
        (rw (indented-named p (inner (new_block [])).lines) (ground arith))

-- The other writers of a block add none of them.
named-write_query_log :
    (p : Probe) (b : Block) (q : QueryLog) → named p (write_query_log b q) ≡ named p b
unfolding write_query_log has_prefix
named-write_query_log p b q = elim (Bool-cases (not q.enabled)) [
  | inl e ↦ rw (e, write_query_log) refl
  | inr e ↦
      rw (e, write_query_log)
        (elim (Bool-cases (not (ltb_ℤ (pos 0) q.capacity))) [
          | inl c ↦ rw c (named-directive p b _ refl)
          | inr c ↦ rw c (named-sub_block p b _ _ refl)
        ])
]

named-write_cache :
    (p : Probe) (b : Block) (c : CacheTuning) → named p (write_cache b c) ≡ named p b
unfolding write_cache has_prefix
named-write_cache p b c = elim (Bool-cases (c.serve_stale_disabled && c.prefetch_disabled)) [
  | inl e ↦ rw (e, write_cache) (named-directive p b _ refl)
  | inr e ↦ rw (e, write_cache) (named-sub_block p b _ _ refl)
]

named-write_errors :
    (p : Probe) (b : Block) (disabled : Bool) → named p (write_errors b disabled) ≡ named p b
unfolding write_errors has_prefix
named-write_errors p b true = named-directive p b _ refl
named-write_errors p b false = named-sub_block p b _ _ refl

named-write_log : (p : Probe) (b : Block) (l : LogTuning) → named p (write_log b l) ≡ named p b
unfolding write_log has_prefix
named-write_log p b l = elim (Bool-cases l.disabled) [
  | inl e ↦ rw (e, write_log) refl
  | inr e ↦
      rw (e, write_log)
        (elim (Bool-cases (is_nil l.classes)) [
          | inl c ↦ rw c (named-directive p b _ refl)
          | inr c ↦ rw c (named-sub_block p b _ _ refl)
        ])
]

named-write_forward :
    (p : Probe) (b : Block) (u : UpstreamTarget) → named p (write_forward b u) ≡ named p b
unfolding write_forward has_prefix
named-write_forward p b u = elim (Bool-cases (untuned u)) [
  | inl e ↦ rw (e, write_forward) (named-directive p b _ refl)
  | inr e ↦ rw (e, write_forward) (named-sub_block p b _ _ refl)
]

named-write_quic :
    (p : Probe) (b : Block) (quic : Option QuicListener) (plugin : GoString)
    → is_quiet (plugin ++ codes " {") ≡ true
    → named p (write_quic b quic plugin) ≡ named p b
unfolding write_quic
named-write_quic p b none plugin q = refl
named-write_quic p b (some l) plugin q =
    elim (Bool-cases (ltb_ℤ (pos 0) l.max_streams || ltb_ℤ (pos 0) l.worker_pool_size)) [
      | inl e ↦ rw (e, write_quic) (named-sub_block p b plugin _ q)
      | inr e ↦ rw (e, write_quic) refl
    ]

named-write_timeouts :
    (p : Probe) (b : Block) (tls : Bool) → named p (write_timeouts b tls) ≡ named p b
unfolding write_timeouts has_prefix
named-write_timeouts p b true = named-sub_block p b _ _ refl
named-write_timeouts p b false = refl

named-write_zones :
    (p : Probe) (b : Block) (s : Settings) (opts : Options)
    → named p (write_zones b s opts) ≡ named p b
unfolding write_zones has_prefix
named-write_zones p b s opts =
    named-sub_block p _ _ _ refl
    ∙ (named-directive_if p _ s.mdns.enabled _ refl ∙ named-sub_block p b _ _ refl)

named-write_tls :
    (p : Probe) (b : Block) (tls : Bool) (opts : Options)
    → named p (write_tls b tls opts) ≡ named p b
unfolding write_tls has_prefix
named-write_tls p b tls opts = named-directive_if p b tls _ refl

-- `writeObservability` adds each of them that is enabled, once.
count-directive_if :
    (test : GoString → Bool) (b : Block) (cond : Bool) (l : GoString)
    → count test (directive_if b cond l).lines
      ≡ count test b.lines + (if cond then (if test l then 1 else 0) else 0)
unfolding directive_if directive
count-directive_if test b true l = ground (arith, count-append test b.lines (l ∷ []))
count-directive_if test b false l = ground arith

pub named-write_observability :
    (p : Probe) (b : Block) (o : Observability)
    → named p (write_observability b o) ≡ named p b + (if is_enabled p o then 1 else 0)
unfolding write_observability has_prefix
named-write_observability p b o =
    let b1 = directive_if b o.health (codes "health :9090") in
    let b2 = directive_if b1 o.ready (codes "ready :9191") in
    count-directive_if (is_named p) b2 o.prometheus (codes "prometheus :9153")
    ∙ (ap
          (λ n.
            n
            + (if o.prometheus
                then (if is_named p (codes "prometheus :9153") then 1 else 0)
                else 0))
          (count-directive_if (is_named p) b1 o.ready (codes "ready :9191")
            ∙ ap
                (λ n.
                  n + (if o.ready then (if is_named p (codes "ready :9191") then 1 else 0) else 0))
                (count-directive_if (is_named p) b o.health (codes "health :9090")))
        ∙ sums p (named p b) o)
  where
    sums :
        (p : Probe) (n : ℕ) (o : Observability)
        → n
            + (if o.health then (if is_named p (codes "health :9090") then 1 else 0) else 0)
            + (if o.ready then (if is_named p (codes "ready :9191") then 1 else 0) else 0)
            + (if o.prometheus then (if is_named p (codes "prometheus :9153") then 1 else 0) else 0)
          ≡ n + (if is_enabled p o then 1 else 0)
    sums health n o = ground arith
    sums ready n o = ground arith
    sums prometheus n o = ground arith

abbrev observed : Block → Observability → Bool → Block
observed b o observability = if observability then write_observability b o else b

named-observed :
    (p : Probe) (b : Block) (o : Observability) (observability : Bool)
    → named p (observed b o observability)
      ≡ named p b + (if observability && is_enabled p o then 1 else 0)
named-observed p b o true = named-write_observability p b o
named-observed p b o false = ground arith

-- A server block has the directive once when it is the one for them and the directive is enabled.
pub named-server_block :
    (p : Probe) (addr : GoString) (tls : Bool) (quic : Option QuicListener) (plugin : GoString)
    (s : Settings) (opts : Options) (observability : Bool)
    → is_quiet (plugin ++ codes " {") ≡ true
    → named p (server_block addr tls quic plugin s opts observability)
      ≡ (if observability && is_enabled p s.observability then 1 else 0)
unfolding server_block has_prefix
named-server_block p addr tls quic plugin s opts observability q =
    named-write_log p _ s.log
    ∙ (named-write_errors p _ s.consolidate_disabled
        ∙ (named-write_cache p _ s.cache
            ∙ (named-write_forward p _ s.upstream
                ∙ (named-directive_if p _ s.upstream.ecs _ refl
                    ∙ (named-write_zones p _ s opts
                        ∙ (named-write_query_log p _ s.querylog
                            ∙ (named-observed p _ s.observability observability
                                ∙ (ap
                                      (λ n.
                                        n
                                        + (if observability && is_enabled p s.observability
                                            then 1
                                            else 0))
                                      (named-directive_if p _ (not s.bufsize_disabled) _ refl
                                        ∙ (named-write_timeouts p _ tls
                                            ∙ (named-write_quic p _ quic plugin q
                                                ∙ named-write_tls p (new_block addr) tls opts)))
                                    ∙ ground arith))))))))
