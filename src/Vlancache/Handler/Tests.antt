-- ===== src/Vlancache/Handler/Tests.antt =====
-- plugins/vlancache/handler.go: tests of `ServeDNS`, and its theorems at concrete inputs.
use bramble_gate.Prelude.{◌*◌, ◌≡◌, refl, true, false, Option, none, some, [], codes, Ip}
use bramble_gate.Prelude.Int.{pos}
use bramble_gate.Prelude.Results.{ok}
use bramble_gate.Querylog.Entry.{zero_entry}
use bramble_gate.Vlancache.Entry.{second}
use bramble_gate.Vlancache.Handler.{
  Log, bucket_key, host_key, VlanCache, Request, HitKeys, FetchResult, Call, Next, led, applies_to,
  keys_of, call_of, fetch, rcode_server_failure,
}
use bramble_gate.Vlancache.Handler.Outcome.{fetch-failure}
use bramble_gate.Vlancache.Examples.{Record, dns, up, add, query, answer, requester, empty}

abbrev config : VlanCache
config = record { vlans = []; fail_ttl = pos (5 * second); prefetch = true; stale_ttl = pos 0 }

abbrev request : Request Record
request = record {
  ip = some requester;
  qname = codes "printer.lan.";
  qtype = 1;
  do_bit = false;
  question_name = codes "printer.lan.";
  msg = query;
}

abbrev keys : HitKeys
keys = keys_of dns up add config request

abbrev log : Log
log = some zero_entry

-- The next plugin answers, and it answers nothing but an error.
abbrev answers : Next Record
answers = record { msg = some answer; failed = false }

abbrev fails : Next Record
fails = record { msg = none; failed = true }

-- A call from another network that led the bucket's fetch, and one of the requester's own.
abbrev stranger : Call Record
stranger = record (call_of keys request (pos 0) (bucket_key keys.direct_key)) {
  ip = some (Ip.v4 0x0a010901);
}

abbrev own : Call Record
own = call_of keys request (pos 0) (host_key keys.direct_key (some requester))

fetch-failure_example :
    let res = up.set_rcode query rcode_server_failure in
    let x = fetch dns up add config own (led fails (λ s. s)) empty in
    (fr : FetchResult Record) × (x.0 ≡ ok fr)
    × (fr.msg ≡ res)
    × ((ip : Option Ip) → applies_to fr ip ≡ true)
    × (x.2.scoped ≡ empty.scoped)
fetch-failure_example = fetch-failure dns up add config own (λ s. s) empty refl
