-- ===== src/Mdnssd/Browser/Tests.antt =====
-- mdnssd/browser.go: tests, and the theorems at concrete inputs.
use bramble_gate.Prelude.{
  ℕ, ◌≡◌, refl, true, false, none, List, [], ◌∷◌, GoString, codes, v4, trim_suffix, trim_dot,
  lookup, insert, delete, string_discrete, leq_string, insert_sorted, sort_strings, arith,
}
use bramble_gate.Prelude.Int.{pos, ◌-ℤ◌, ◌*ℤ◌, quot}
use bramble_gate.Dns.{Msg}
use bramble_gate.Mdnssd.Cache
use bramble_gate.Mdnssd.Cache.{
  CacheRecord, Records, elapsed, expired, advance, due_threshold, threshold_at, known_answers_for,
  known_answers, remaining,
}
use bramble_gate.Mdnssd.Cache.Ticks.{tick-tick}
use bramble_gate.Mdnssd.Response.{
  Wire, Body, ptr, srv, a, add_answer, parse_records, parse_answers, ptr_rr, build_query,
}
use bramble_gate.Mdnssd.Browser.{
  Entry, BrowserState, new_browser_state, split_service_question, instance_label, touch,
  ensure_entry, change_entry, ingest_srvs, ingest_txts, add_address, touch_host, resolvable_of,
  drop_entries, say_goodbye, keep_ptr, ingest_ptr, ingest_ptrs, ingest_addrs, ingest_all, ingest,
  refresh_query, tick, merge_unique_str,
}
use bramble_gate.Mdnssd.Browser.Valid.{IsValid}
use bramble_gate.Mdnssd.Browser.Runs.{
  Event, received, ticked_at, run_all, IsTicked, run_all-IsTicked,
}

program : Unit {0}
unfolding trim_suffix trim_dot lookup insert delete string_discrete leq_string insert_sorted
    sort_strings ◌-ℤ◌ ◌*ℤ◌ quot Cache.store Cache.remove Cache.tick elapsed expired advance
    due_threshold threshold_at known_answers_for known_answers remaining add_answer parse_records
    parse_answers ptr_rr build_query new_browser_state split_service_question instance_label touch
    ensure_entry change_entry ingest_srvs ingest_txts add_address touch_host resolvable_of
    drop_entries say_goodbye keep_ptr ingest_ptr ingest_ptrs ingest_addrs ingest_all ingest
    refresh_query tick merge_unique_str
program = tt

-- A record of a message: its name, its seconds and its data.
abbrev Rr : Type 0
Rr = (name : GoString) × (seconds : ℕ) × Body

abbrev wire : Wire Rr
wire = record {
  dns = record {
    rr_name = λ r. r.0;
    rr_type = λ r. 0;
    rr_ttl = λ r. r.1;
    alias_target = λ r. none;
    copy_with = λ t r. (r.0, t, r.2);
    set_reply = λ m. m;
  };
  body = λ r. r.2;
  new_ptr = λ name seconds target. (name, seconds, ptr target);
  ip_string = λ ip. codes "10.0.0.7";
}

abbrev question : GoString
question = codes "_ipp._tcp.local."

abbrev printer : GoString
printer = codes "P._ipp._tcp.local."

abbrev message : List Rr → Msg Rr
message answers = record {
  id = 0;
  response = true;
  authoritative = true;
  truncated = false;
  recursion_available = false;
  authenticated_data = false;
  checking_disabled = false;
  rcode = pos 0;
  question = [];
  answer = answers;
  ns = [];
  extra = [];
}

abbrev announcement : Msg Rr
announcement = message (
    (question, 100, ptr printer)
    ∷ (printer, 100, srv (codes "p.local.") 631)
    ∷ (codes "p.local.", 100, a (v4 7))
    ∷ [])

abbrev found : BrowserState Rr
found = (ingest wire announcement (codes "eth0") (pos 0) (new_browser_state question)).0

abbrev expected : Entry
expected = record {
  host = codes "p.local";
  label = codes "P";
  service = codes "_ipp._tcp";
  domain = codes "local";
  txt = [];
  ipv4 = codes "10.0.0.7" ∷ [];
  ipv6 = [];
  iface = codes "eth0";
  ttl = 100_000_000_000;
}

announced_once :
    (ingest wire announcement (codes "eth0") (pos 0) (new_browser_state question)).1 ≡ expected ∷ []
unfolding program
announced_once = refl

-- At 80 seconds of 100 the record is due, and the query does not offer it.
tick_due :
    (tick wire (pos 80_000_000_000) found).1
    ≡ record { qname = question; unicast = false; answers = [] } ∷ []
unfolding program
tick_due = refl

tick_expired : (tick wire (pos 100_000_000_000) found).2 ≡ expected ∷ []
unfolding program
tick_expired = refl

abbrev events : List (Event wire)
events = received announcement (codes "eth0") (pos 0) ∷ ticked_at (pos 85_000_000_000) ∷ []

run_all-IsTicked_example :
    IsValid (run_all wire events (new_browser_state question))
    × IsTicked wire (pos 90_000_000_000) (run_all wire events (new_browser_state question))
run_all-IsTicked_example = run_all-IsTicked wire events question (pos 90_000_000_000)

abbrev records : Records Rr
records =
    (
      printer,
      record {
        rr = none;
        question = question;
        ttl = 100_000_000_000;
        stored_at = pos 0;
        refreshes_sent = 1;
      },
    )
    ∷ []

tick-tick_example :
    Cache.tick (pos 91_000_000_000) (Cache.tick (pos 91_000_000_000) records).0
    ≡ ((Cache.tick (pos 91_000_000_000) records).0, [], [])
tick-tick_example =
    tick-tick (pos 91_000_000_000) (pos 91_000_000_000) records (omega arith) (omega arith, tt)
