-- ===== src/Querylog/Handler/Tests.antt =====
-- plugins/querylog/handler.go: tests, and the theorem at a concrete input.
use bramble_gate.Prelude.{
  ℕ, ◌≡◌, refl, Bool, true, none, some, [], ◌∷◌, codes, string_discrete, to_lower, trim_space,
  has_suffix, Ip, ◌==◌, not,
}
use bramble_gate.Prelude.Int.{ℤ, pos, pos_part}
use bramble_gate.Dns.{Library}
use bramble_gate.Querylog.Entry.{Entry, zero_entry}
use bramble_gate.Querylog.Stats.{new_stats_rollup}
use bramble_gate.Querylog.Stats.Series.{width}
use bramble_gate.Querylog.Handler.{
  normalize_host_name, set_host_names, is_host_name, classify_fallback, QueryLog, Request,
  Downstream, State,
}

normalize_mixed : normalize_host_name (codes " NAS.lan") ≡ codes "nas.lan."
unfolding normalize_host_name to_lower trim_space has_suffix
normalize_mixed = refl

host_found : is_host_name (set_host_names (codes "NAS.lan" ∷ [])) (codes "nas.lan.") ≡ true
unfolding is_host_name set_host_names to_lower trim_space has_suffix string_discrete
host_found = refl

classify_fast :
    classify_fallback (pos 0) (pos 1_999_999) (pos 2_000_000) ≡ (codes "cached", codes "cache")
unfolding classify_fallback
classify_fast = refl

-- Resource records that are types alone.
abbrev dns : Library ℕ
dns = record {
  rr_name = λ r. [];
  rr_type = λ r. r;
  rr_ttl = λ r. 0;
  alias_target = λ r. none;
  copy_with = λ t r. r;
  set_reply = λ m. m;
}

abbrev client_write : ℤ → Bool
client_write r = not (pos_part r == 2)

abbrev settings : QueryLog
settings = record { vlans = []; cache_latency_threshold = pos 0; host_names = none }

abbrev request : Request
request = record {
  ip = codes "10.1.2.3";
  parsed_ip = some (Ip.v4 0x0a010203);
  qname = codes "example.org.";
  qtype = 1;
  local_addr = codes "10.1.2.1:53";
  proto = codes "udp";
  start = pos 1000;
  end = pos 2000;
}

-- The plugins behind fail without a message.
abbrev fails : Entry → Downstream ℕ
fails e = record { entry = e; msg = none; rcode = pos 2; failed = true }

abbrev state : State
state = record {
  ring = record { buf = zero_entry ∷ zero_entry ∷ []; head = 0; size = 0 };
  store = some (record { pending = []; capacity = 1; dropped = 0 });
  stats = new_stats_rollup width 144;
  clients = [];
}
