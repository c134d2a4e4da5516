-- ===== src/Querylog/Entry.antt =====
-- plugins/querylog/entry.go: one observed DNS query.
use bramble_gate.Prelude.{ℕ, Bool, false, GoString, []}
use bramble_gate.Prelude.Int.{ℤ, pos}

-- `ClientInfo`; `vlan` is empty when the client's address matched no configured VLAN.
pub record ClientInfo : Type 0 where
  pub ip : GoString
  pub vlan : GoString

-- `Entry`. The timestamp counts nanoseconds from the Unix epoch; the latency is a time.Duration.
pub record Entry : Type 0 where
  pub timestamp : ℤ
  pub client : ClientInfo
  pub qname : GoString
  pub qtype : ℕ
  pub verdict : GoString
  pub source : GoString
  pub rcode : ℤ
  pub latency : ℤ
  pub cache_outcome : GoString
  pub listener : GoString
  pub proto : GoString
  pub authenticated_data : Bool
  pub answer_type : GoString

-- `Entry{}`
abbrev pub zero_entry : Entry
zero_entry = record {
  timestamp = pos 0;
  client = record { ip = []; vlan = [] };
  qname = [];
  qtype = 0;
  verdict = [];
  source = [];
  rcode = pos 0;
  latency = pos 0;
  cache_outcome = [];
  listener = [];
  proto = [];
  authenticated_data = false;
  answer_type = [];
}
