-- ===== src/Localrecords/Handler/Laws.antt =====
-- plugins/localrecords/handler.go: a query for an owned zone is answered here, and a denial of a
-- name is right for every type.
use bramble_gate.Prelude.{ℕ, ◌<◌, ◌≡◌, true, Option, some, List, [], GoString, to_lower, Ip}
use bramble_gate.Dns.{Msg}
use bramble_gate.Localrecords.{LocalRecords, Rr}
use bramble_gate.Localrecords.Answers.{build_answers}
use bramble_gate.Localrecords.Answers.Laws.{Alias}
use bramble_gate.Localrecords.Handler.{
  Log, Request, Served, passed_on, answered, is_fallthrough_zone, rcode_name_error,
}

module _ (parse_ip : GoString → Option Ip) (parse_port : GoString → Option ℕ)
    (zone_of : List GoString → GoString → Option GoString) (set_reply : Msg Rr → Msg Rr)
    (lr : LocalRecords) (vlan : GoString) (rank : GoString → ℕ) (fuel : ℕ)
    (falls : (name target : GoString) → Alias lr vlan name target → rank target < rank name)
    (enough : (name : GoString) → rank name < fuel) where
  -- What a reply from an owned zone may be.
  abbrev pub IsOwned : GoString → Request → Log → Served → Type 0
  IsOwned zone r log (passed_on log') =
      (is_fallthrough_zone lr zone ≡ true)
      × (build_answers parse_ip parse_port fuel lr (to_lower r.qname) r.qtype vlan ≡ some [])
      × (log' ≡ log)
  IsOwned zone r log (answered m log' rcode) =
      (m.authoritative ≡ true)
      × (build_answers parse_ip parse_port fuel lr (to_lower r.qname) r.qtype vlan ≡ some m.answer)
      × (rcode ≡ rcode_name_error
          → (qtype : ℕ)
          → build_answers parse_ip parse_port fuel lr (to_lower r.qname) qtype vlan ≡ some [])
