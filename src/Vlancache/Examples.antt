-- ===== src/Vlancache/Examples.antt =====
-- Concrete messages, and the libraries' parameters at concrete functions, for the tests.
use mathlib.Core.List.Memᴰ
use bramble_gate.Prelude.{
  ℕ, ◌*◌, ◌≡◌, refl, inl, inr, true, false, not, none, some, List, [], ◌∷◌, select, mem-select,
  ℕ_discrete, same, lookup, arith, GoString, codes, Ip, IpNet, v4, net4, if◌then◌else◌, ◌==◌,
}
use bramble_gate.Prelude.Int.{pos, pos_part}
use bramble_gate.Dns.{Question, Msg, Library, IsLawful, type_a, type_opt}
use bramble_gate.Vlancache.Entry.{Entry, second}
use bramble_gate.Vlancache.Policy.{server_error, no_error, Subnet, Upstream}
use bramble_gate.Vlancache.Store.{Store, IsCacheAdd}

-- A resource record of these examples.
pub record Record : Type 0 where
  pub name : GoString
  pub rtype : ℕ
  pub ttl : ℕ

abbrev pub dns : Library Record
dns = record {
  rr_name = λ r. r.name;
  rr_type = λ r. r.rtype;
  rr_ttl = λ r. r.ttl;
  alias_target = λ r. none;
  copy_with = λ t r. record r { ttl = t };
  set_reply = λ m. record m { response = true };
}

pub dns-IsLawful : IsLawful dns
dns-IsLawful = record {
  copied_ttl = λ t r. refl;
  copied_name = λ t r. refl;
  copied_type = λ t r. refl;
}

abbrev pub question : Question
question = record { qname = codes "printer.lan."; qtype = type_a }

abbrev pub query : Msg Record
query = record {
  id = 7;
  response = false;
  authoritative = false;
  truncated = false;
  recursion_available = false;
  authenticated_data = false;
  checking_disabled = false;
  rcode = pos 0;
  question = question ∷ [];
  answer = [];
  ns = [];
  extra = [];
}

abbrev pub address : Record
address = record { name = codes "printer.lan."; rtype = type_a; ttl = 300 }

abbrev pub opt : Record
opt = record { name = codes "."; rtype = type_opt; ttl = 0 }

abbrev pub answer : Msg Record
answer = record query { id = 9; response = true; answer = address ∷ []; extra = opt ∷ [] }

abbrev pub narrow : Subnet
narrow = record { family = 1; source_scope = 24 }

abbrev pub requester : Ip
requester = v4 0x0a010203

-- An upstream that echoes a scope of 24 bits on the message with ID 9, and on no other.
abbrev pub up : Upstream Record
up = record {
  typify = λ m now. if pos_part m.rcode == 2 then server_error else no_error;
  minimal_ttl = λ m t maximum. pos (300 * second);
  minimal_default_ttl = 5 * second;
  maximum_default_ttl = 3600 * second;
  subnets = λ m. if m.id == 9 then narrow ∷ [] else [];
  canonical_name = λ s. s;
  set_rcode = λ m r. record m { rcode = r; response = true };
  set_question = λ n t. record query { question = record { qname = n; qtype = t } ∷ [] };
  set_edns0 = λ m size do_bit. record m { extra = opt ∷ m.extra };
}

-- `Cache.Add` without eviction.
abbrev pub add : ℕ → Entry Record → List (ℕ × Entry Record) → List (ℕ × Entry Record)
add k e m = (k, e) ∷ select (λ p. not (same ℕ_discrete p.0 k)) m

added_lookup :
    (k : ℕ) (e : Entry Record) (m : List (ℕ × Entry Record))
    → lookup ℕ_discrete k (add k e m) ≡ some e
unfolding lookup
added_lookup k e m = ground arith

pub add-IsCacheAdd : IsCacheAdd add
add-IsCacheAdd = record {
  added = added_lookup;
  elements =
      λ k e m p h. elim (Memᴰ.cases_cons h) [ inl q ↦ inl q | inr t ↦ inr (mem-select _ m t).0 ];
}

abbrev pub printer : Entry Record
printer = record {
  qname = codes "printer.lan.";
  rcode = pos 0;
  authenticated_data = false;
  recursion_available = true;
  answer = address ∷ [];
  ns = [];
  extra = [];
  orig_ttl = pos (300 * second);
  stored = pos 0;
}

abbrev pub camera : Entry Record
camera = record printer {
  qname = codes "camera.lan.";
  answer = record address { name = codes "camera.lan." } ∷ [];
}

abbrev pub lan : IpNet
lan = net4 0x0a010200 24

abbrev pub wide : IpNet
wide = net4 0x0a010000 16

abbrev pub empty : Store Record
empty = record { direct = []; scoped = []; epoch = 0 }

-- Both tiers hold an entry for key 3, and the scoped tier one for key 4.
abbrev pub filled : Store Record
filled = record {
  direct = (3, printer) ∷ (8, camera) ∷ [];
  scoped =
      (3, record { prefix = wide; e = camera } ∷ record { prefix = lan; e = printer } ∷ [])
      ∷ (4, record { prefix = lan; e = printer } ∷ [])
      ∷ [];
  epoch = 5;
}
