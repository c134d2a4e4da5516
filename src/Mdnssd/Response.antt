-- ===== src/Mdnssd/Response.antt =====
-- mdnssd/response.go and query.go: what is read of a message, and the queries that are sent.
pub mod Laws
mod Tests
use bramble_gate.Prelude.{
  ℕ, ◌+◌, ◌*◌, ◌/◌, Bool, true, false, Option, none, some, List, [], ◌∷◌, ◌++◌, if◌then◌else◌,
  GoString, string_discrete, insert, cut, Ip,
}
use bramble_gate.Prelude.Int.{ℤ, pos}
use bramble_gate.Dns.{Msg, Library}

-- time.Second
abbrev pub second : ℕ
second = 1_000_000_000

-- The type switch of `parseAnswers`: the records of miekg/dns that it reads, with their data.
pub data Body : Type 0 where
  ptr : GoString → Body
  srv : GoString → ℕ → Body
  txt : List GoString → Body
  a : Ip → Body
  aaaa : Ip → Body
  other : Body

-- What mdnssd uses of miekg/dns and net besides `Library`: the type switch, the literal
-- `&dns.PTR{…}` by its name, TTL and target, and net.IP.String.
pub record Wire (Rr : Type 0) : Type 0 where
  pub dns : Library Rr
  pub body : Rr → Body
  pub new_ptr : GoString → ℕ → GoString → Rr
  pub ip_string : Ip → GoString

-- `ptrRecord`; a duration is a number of nanoseconds.
pub record PtrRecord : Type 0 where
  pub name : GoString
  pub ptr : GoString
  pub ttl : ℕ

pub record SrvRecord : Type 0 where
  pub name : GoString
  pub target : GoString
  pub port : ℕ
  pub ttl : ℕ

pub record TxtRecord : Type 0 where
  pub name : GoString
  pub text : List (GoString × GoString)
  pub ttl : ℕ

-- `aRecord` and `aaaaRecord`
pub record AddrRecord : Type 0 where
  pub name : GoString
  pub ip : Ip
  pub ttl : ℕ

-- `parsedAnswers`
pub record ParsedAnswers : Type 0 where
  pub ptr : List PtrRecord
  pub srv : List SrvRecord
  pub txt : List TxtRecord
  pub a : List AddrRecord
  pub aaaa : List AddrRecord

-- `parseTXT`, onto the map so far: a later segment of a key overwrites an earlier one.
unfoldable pub parse_txt : List GoString → List (GoString × GoString) → List (GoString × GoString)
parse_txt [] text = text
parse_txt (s ∷ segments) text = elim (cut b'=' s) [
  | none ↦ parse_txt segments text
  | some (key, value) ↦ parse_txt segments (insert string_discrete key value text)
]

abbrev no_answers : ParsedAnswers
no_answers = record { ptr = []; srv = []; txt = []; a = []; aaaa = [] }

-- One round of the loop of `parseAnswers`, which puts a record before those that follow it.
unfoldable pub add_answer : GoString → ℕ → Body → ParsedAnswers → ParsedAnswers
add_answer name ttl (ptr target) out = record out {
  ptr = record { name = name; ptr = target; ttl = ttl } ∷ out.ptr;
}
add_answer name ttl (srv target port) out = record out {
  srv = record { name = name; target = target; port = port; ttl = ttl } ∷ out.srv;
}
add_answer name ttl (txt segments) out = record out {
  txt = record { name = name; text = parse_txt segments []; ttl = ttl } ∷ out.txt;
}
add_answer name ttl (a ip) out = record out {
  a = record { name = name; ip = ip; ttl = ttl } ∷ out.a;
}
add_answer name ttl (aaaa ip) out = record out {
  aaaa = record { name = name; ip = ip; ttl = ttl } ∷ out.aaaa;
}
add_answer name ttl other out = out

-- A query of `buildQuery`, by the fields that it sets. `unicast` is the QU bit of the class.
pub record Query (Rr : Type 0) : Type 0 where
  pub qname : GoString
  pub unicast : Bool
  pub answers : List Rr

module _ {Rr : Type 0} (wire : Wire Rr) where
  open wire use {dns, body, new_ptr}

  unfoldable pub parse_records : List Rr → ParsedAnswers
  parse_records [] = no_answers
  parse_records (rr ∷ rrs) =
      add_answer (dns.rr_name rr) (dns.rr_ttl rr * second) (body rr) (parse_records rrs)

  -- `parseAnswers`
  unfoldable pub parse_answers : Msg Rr → ParsedAnswers
  unfolding parse_records
  parse_answers msg = parse_records (msg.answer ++ (msg.ns ++ msg.extra))

  -- `ptrRecord.RR`
  unfoldable pub ptr_rr : PtrRecord → Rr
  ptr_rr p = new_ptr p.name (p.ttl / second) p.ptr

  -- `buildQuery`
  unfoldable pub build_query : GoString → List Rr → Bool → Query Rr
  build_query qname known unicast = record { qname = qname; unicast = unicast; answers = known }
