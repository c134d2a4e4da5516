-- ===== src/Localrecords/Handler/Tests.antt =====
-- plugins/localrecords/handler.go: the theorem on `ServeDNS` at a concrete request.
use bramble_gate.Prelude.{ℕ, true, false, Option, none, some, List, [], ◌∷◌, codes, GoString, Ip}
use bramble_gate.Prelude.Int.{pos}
use bramble_gate.Vlanmatch
use bramble_gate.Dns.{Msg, type_a}
use bramble_gate.Localrecords.{Entry, LocalRecords, Rr}
use bramble_gate.Localrecords.Handler.{Request}

abbrev printer : GoString
printer = codes "printer.lan."

abbrev address : Entry
address = record {
  rtype = type_a;
  def = codes "10.1.0.9";
  ttl = 0;
  overrides = [];
  ddr_priority = 0;
  ddr_target = [];
  ddr_params = [];
}

abbrev served : LocalRecords
served = record {
  zones = codes "lan." ∷ [];
  fallthrough_zones = [];
  default_ttl = 60;
  vlans = [];
  records = (printer, address ∷ []) ∷ [];
}

abbrev parse_ip : GoString → Option Ip
parse_ip s = some (Ip.v4 0x0a010009)

abbrev parse_port : GoString → Option ℕ
parse_port s = none

abbrev zone_of : List GoString → GoString → Option GoString
zone_of [] name = none
zone_of (z ∷ zs) name = some z

abbrev query : Msg Rr
query = record {
  id = 7;
  response = false;
  authoritative = false;
  truncated = false;
  recursion_available = false;
  authenticated_data = false;
  checking_disabled = false;
  rcode = pos 0;
  question = record { qname = printer; qtype = type_a } ∷ [];
  answer = [];
  ns = [];
  extra = [];
}

abbrev set_reply : Msg Rr → Msg Rr
set_reply m = record query { id = m.id; question = m.question; response = true }

abbrev request : Request
request = record { ip = none; qname = codes "Printer.lan."; qtype = type_a; msg = query }
