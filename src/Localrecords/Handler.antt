-- ===== src/Localrecords/Handler.antt =====
-- plugins/localrecords/handler.go: `ServeDNS`.
pub mod Laws
mod Tests
use bramble_gate.Prelude.{
  ℕ, Bool, true, false, ◌&&◌, not, Option, none, some, List, [], ◌∷◌, ◌++◌, any, is_nil,
  if◌then◌else◌, GoString, codes, str_eq, to_lower, Ip,
}
use bramble_gate.Prelude.Options.{◌>>=◌}
use bramble_gate.Prelude.Int.{ℤ, pos}
use bramble_gate.Dns.{Msg, type_a, type_aaaa}
use bramble_gate.Vlanmatch
use bramble_gate.Querylog.Entry as Querylog
use bramble_gate.Localrecords.{LocalRecords, Rr, svcb, soa}
use bramble_gate.Localrecords.Answers.{name_present, build_answers}

-- dns.RcodeSuccess and dns.RcodeNameError
abbrev pub rcode_success : ℤ
rcode_success = pos 0

abbrev pub rcode_name_error : ℤ
rcode_name_error = pos 3

-- The query log's entry in flight, if the request has one.
abbrev pub Log : Type 0
Log = Option Querylog.Entry

-- `attribute`
unfoldable pub claim : GoString → Log → Log
claim verdict none = none
claim verdict (some e) = some (record e { source = codes "localrecords"; verdict = verdict })

-- `isFallthroughZone`
unfoldable pub is_fallthrough_zone : LocalRecords → GoString → Bool
is_fallthrough_zone lr zone = any (λ z. str_eq z zone) lr.fallthrough_zones

-- `matchVLAN`
unfoldable pub match_vlan : LocalRecords → Option Ip → GoString
match_vlan lr ip = Vlanmatch.name_of (Vlanmatch.lookup lr.vlans ip)

-- `soa`
abbrev pub zone_soa : LocalRecords → GoString → Rr
zone_soa lr zone = soa zone lr.default_ttl

-- A request as request.Request reads it.
pub record Request : Type 0 where
  pub ip : Option Ip
  pub qname : GoString
  pub qtype : ℕ
  pub msg : Msg Rr

-- The next plugin is asked, or a message is written and a code returned.
pub data Served : Type 0 where
  passed_on : Log → Served
  answered : Msg Rr → Log → ℤ → Served

-- The target of an SVCB record.
abbrev pub svcb_target : Rr → Option GoString
svcb_target (svcb name ttl priority target values) = some target
svcb_target _ = none

-- net.ParseIP, strconv.ParseUint, the zones' `Matches` of coredns (an empty string is `none`), and
-- SetReply on a new message are parameters. As in `buildAnswers`, `none` says that the fuel ran out.
module _ (parse_ip : GoString → Option Ip) (parse_port : GoString → Option ℕ)
    (zone_of : List GoString → GoString → Option GoString) (set_reply : Msg Rr → Msg Rr) where
  -- The addresses of an SVCB target, unless it was seen.
  unfoldable pub glue_of : ℕ → LocalRecords → GoString → GoString → Option (List Rr)
  glue_of fuel lr vlan target = do
    v4 ← build_answers parse_ip parse_port fuel lr target type_a vlan
    v6 ← build_answers parse_ip parse_port fuel lr target type_aaaa vlan
    some (v4 ++ v6)

  -- `ddrGlue`
  unfoldable pub ddr_glue : ℕ → LocalRecords → GoString → List GoString → List Rr → Option (List Rr)
  ddr_glue fuel lr vlan seen [] = some []
  ddr_glue fuel lr vlan seen (rr ∷ rrs) = elim (svcb_target rr) [
    | none ↦ ddr_glue fuel lr vlan seen rrs
    | some target ↦
        let rest = ddr_glue fuel lr vlan (target ∷ seen) rrs in
        if any (str_eq target) seen
        then ddr_glue fuel lr vlan seen rrs
        else (glue_of fuel lr vlan target >>= λ glue. rest >>= λ more. some (glue ++ more))
  ]

  -- The replies of `ServeDNS` from an owned zone.
  unfoldable pub deny_name : LocalRecords → GoString → Request → Log → Served
  unfolding claim
  deny_name lr zone r log =
      answered
        (record (set_reply r.msg) {
          authoritative = true;
          rcode = rcode_name_error;
          ns = zone_soa lr zone ∷ [];
        })
        (claim (codes "nxdomain") log) rcode_name_error

  unfoldable pub deny_type : LocalRecords → GoString → Request → Log → Served
  unfolding claim
  deny_type lr zone r log =
      answered (record (set_reply r.msg) { authoritative = true; ns = zone_soa lr zone ∷ [] })
        (claim (codes "local") log) rcode_success

  unfoldable pub give : Request → Log → List Rr → List Rr → Served
  unfolding claim
  give r log answers extra =
      answered (record (set_reply r.msg) { authoritative = true; answer = answers; extra = extra })
        (claim (codes "local") log) rcode_success

  -- What `ServeDNS` does with the answers found.
  unfoldable pub serve_answers :
      ℕ → LocalRecords → GoString → GoString → GoString → Request → Log → List Rr → Option Served
  serve_answers fuel lr zone qname vlan r log answers =
      if is_nil answers
      then (if is_fallthrough_zone lr zone
          then some (passed_on log)
          else if not (name_present lr qname vlan)
          then some (deny_name lr zone r log)
          else some (deny_type lr zone r log))
      else elim (ddr_glue fuel lr vlan [] answers) [
        | none ↦ none
        | some extra ↦ some (give r log answers extra)
      ]

  -- `LocalRecords.ServeDNS`
  unfoldable pub serve_dns : ℕ → LocalRecords → Request → Log → Option Served
  serve_dns fuel lr r log =
      let qname = to_lower r.qname in
      let vlan = match_vlan lr r.ip in
      elim (zone_of lr.zones qname) [
        | none ↦ some (passed_on log)
        | some zone ↦ elim (build_answers parse_ip parse_port fuel lr qname r.qtype vlan) [
          | none ↦ none
          | some answers ↦ serve_answers fuel lr zone qname vlan r log answers
        ]
      ]
