-- ===== src/Mdnssd/Types/Tests.antt =====
-- mdnssd/browsetypes.go: the theorem at a concrete input.
use bramble_gate.Prelude.{ℕ, ◌≡◌, true, false, none, List, [], ◌∷◌, any, GoString, codes, str_eq}
use bramble_gate.Prelude.Distinct.{Distinct}
use bramble_gate.Prelude.Int.{pos}
use bramble_gate.Dns.{Msg}
use bramble_gate.Mdnssd.Response.{Wire, Body, ptr}
use bramble_gate.Mdnssd.Types.{new_type_browser_state}
use bramble_gate.Mdnssd.Types.Once.{
  Event, received, ticked_at, run_all, announced, run_all-Distinct,
}

-- A record of a message: its name, its seconds and its data.
abbrev Rr : Type 0
Rr = (name : GoString) × (seconds : ℕ) × Body

abbrev wire : Wire Rr
wire = record {
  dns = record {
    rr_name = λ r. r.0;
    rr_type = λ r. 0;
    rr_ttl = λ r. r.1;
    alias_target = λ r. none;
    copy_with = λ t r. (r.0, t, r.2);
    set_reply = λ m. m;
  };
  body = λ r. r.2;
  new_ptr = λ name seconds target. (name, seconds, ptr target);
  ip_string = λ ip. [];
}

abbrev announcement : Msg Rr
announcement = record {
  id = 0;
  response = true;
  authoritative = true;
  truncated = false;
  recursion_available = false;
  authenticated_data = false;
  checking_disabled = false;
  rcode = pos 0;
  question = [];
  answer =
      (codes "_services._dns-sd._udp.local.", 100, ptr (codes "_ipp._tcp.local."))
      ∷ (codes "_services._dns-sd._udp.local.", 100, ptr (codes "_ipp._tcp.local."))
      ∷ [];
  ns = [];
  extra = [];
}

abbrev events : List (Event wire)
events = received announcement (pos 0) ∷ ticked_at (pos 5) ∷ received announcement (pos 9) ∷ []

run_all-Distinct_example :
    Distinct (run_all wire events new_type_browser_state).1
    × ((s : GoString)
        → any (str_eq s) (run_all wire events new_type_browser_state).1
          ≡ any (str_eq s) (announced wire (new_type_browser_state {Rr = Rr}).question events))
run_all-Distinct_example = run_all-Distinct wire events
