-- ===== src/Mdnsbridge/Handler.antt =====
-- plugins/mdnsbridge/handler.go: `ServeDNS`, over the table of discoveries.
pub mod Laws
mod Tests
use bramble_gate.Prelude.{
  ℕ, Bool, true, false, Option, none, some, List, [], ◌∷◌, ◌++◌, ◌==◌, if◌then◌else◌, GoString,
  codes, Ip, v4, v6,
}
use bramble_gate.Prelude.Int.{ℤ, pos}
use bramble_gate.Dns.{Msg, type_a, type_aaaa}
use bramble_gate.Vlanmatch
use bramble_gate.Querylog.Entry as Querylog
use bramble_gate.Mdnsbridge.Table
use bramble_gate.Mdnsbridge.Table.{resolve}

-- dns.A and dns.AAAA with their name, their TTL and the address.
pub data Rr : Type 0 where
  a : GoString → ℕ → ℕ → Rr
  aaaa : GoString → ℕ → ℕ → Rr

-- `DefaultAnswerTTL`
abbrev pub default_answer_ttl : ℕ
default_answer_ttl = 60

-- The query log's entry in flight, if the request has one.
abbrev pub Log : Type 0
Log = Option Querylog.Entry

unfoldable pub claim_local : Log → Log
claim_local none = none
claim_local (some e) = some (record e { source = codes "mdnsbridge"; verdict = codes "local" })

-- A request as request.Request reads it.
pub record Request : Type 0 where
  pub qname : GoString
  pub qtype : ℕ
  pub msg : Msg Rr

-- The next plugin is asked, or a message is written.
pub data Served : Type 0 where
  passed_on : Log → Served
  answered : Msg Rr → Log → Served

-- The configured VLANs, net.ParseIP, and SetReply on a new message are parameters.
module _ (vlans : Vlanmatch.Table) (parse_ip : GoString → Option Ip)
    (set_reply : Msg Rr → Msg Rr) where
  -- The loops of `answersFor`.
  unfoldable pub a_records : GoString → List GoString → List Rr
  a_records qname [] = []
  a_records qname (s ∷ ss) = elim (parse_ip s) [
    | some (v4 x) ↦ a qname default_answer_ttl x ∷ a_records qname ss
    | some (v6 x) ↦ a_records qname ss
    | none ↦ a_records qname ss
  ]

  unfoldable pub aaaa_records : GoString → List GoString → List Rr
  aaaa_records qname [] = []
  aaaa_records qname (s ∷ ss) = elim (parse_ip s) [
    | some (v6 x) ↦ aaaa qname default_answer_ttl x ∷ aaaa_records qname ss
    | some (v4 x) ↦ aaaa_records qname ss
    | none ↦ aaaa_records qname ss
  ]

  -- `answersFor`
  unfoldable pub answers_for : GoString → ℕ → List GoString → List GoString → List Rr
  answers_for qname qtype ipv4 ipv6 =
      (if qtype == type_a then a_records qname ipv4 else [])
      ++ (if qtype == type_aaaa then aaaa_records qname ipv6 else [])

  -- `MDNSBridge.ServeDNS`
  unfoldable pub serve_dns : Table.Table → Request → ℤ → Log → Served
  unfolding claim_local
  serve_dns t r now log = elim (resolve vlans parse_ip t r.qname now) [
    | none ↦ passed_on log
    | some (ipv4, ipv6) ↦
        answered
          (record (set_reply r.msg) {
            authoritative = true;
            answer = answers_for r.qname r.qtype ipv4 ipv6;
          })
          (claim_local log)
  ]
