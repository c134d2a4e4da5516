-- ===== src/Mdnsbridge/Handler/Tests.antt =====
-- plugins/mdnsbridge/handler.go: the theorem at a concrete request.
use bramble_gate.Prelude.{false, none, [], ◌∷◌, codes}
use bramble_gate.Prelude.Int.{pos}
use bramble_gate.Dns.{Msg, type_a}
use bramble_gate.Mdnsbridge.Selector.{Selector}
use bramble_gate.Mdnsbridge.Table
use bramble_gate.Mdnsbridge.Table.{resolve}
use bramble_gate.Mdnsbridge.Handler.{Rr, Request, serve_dns}
use bramble_gate.Mdnsbridge.Handler.Laws.{IsServed, serve_dns-IsServed}

abbrev query : Msg Rr
query = record {
  id = 7;
  response = false;
  authoritative = false;
  truncated = false;
  recursion_available = false;
  authenticated_data = false;
  checking_disabled = false;
  rcode = pos 0;
  question = record { qname = codes "tv.lan."; qtype = type_a } ∷ [];
  answer = [];
  ns = [];
  extra = [];
}

abbrev anything : Selector
anything = record { service = []; instance_label = []; host = []; txt = []; vlan = []; family = [] }

-- A name bound to a device that is absent.
abbrev table : Table.Table
table = record {
  entries = [];
  cfg = record {
    default_suffix = codes "lan";
    auto_publish = [];
    naming = [];
    promoted = (codes "tv.lan.", anything) ∷ [];
  };
  ttl = pos 100;
}

abbrev request : Request
request = record { qname = codes "tv.lan."; qtype = type_a; msg = query }

serve_dns-IsServed_example :
    IsServed
      (λ s. none)
      request
      none
      (resolve [] (λ s. none) table (codes "tv.lan.") (pos 0))
      (serve_dns [] (λ s. none) (λ m. m) table request (pos 0) none)
serve_dns-IsServed_example = serve_dns-IsServed [] (λ s. none) (λ m. m) table request (pos 0) none
