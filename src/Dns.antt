-- ===== src/Dns.antt =====
-- What the plugins use of github.com/miekg/dns: messages as records of the fields that the code
-- reads or writes, over an abstract resource record with the operations that the code calls.
use bramble_gate.Prelude.{ℕ, Bool, Option, List, GoString, ◌≡◌}
use bramble_gate.Prelude.Int.{ℤ}

pub record Question : Type 0 where
  pub qname : GoString
  pub qtype : ℕ

-- dns.Msg, with the header's fields among the others
pub record Msg (Rr : Type 0) : Type 0 where
  pub id : ℕ
  pub response : Bool
  pub authoritative : Bool
  pub truncated : Bool
  pub recursion_available : Bool
  pub authenticated_data : Bool
  pub checking_disabled : Bool
  pub rcode : ℤ
  pub question : List Question
  pub answer : List Rr
  pub ns : List Rr
  pub extra : List Rr

-- `Header()` of a resource record, a type switch to *dns.CNAME and *dns.DNAME, and a dns.Copy
-- whose header gets a TTL. `set_reply` is `new(dns.Msg).SetReply(req)`.
pub record Library (Rr : Type 0) : Type 0 where
  pub rr_name : Rr → GoString
  pub rr_type : Rr → ℕ
  pub rr_ttl : Rr → ℕ
  pub alias_target : Rr → Option GoString
  pub copy_with : ℕ → Rr → Rr
  pub set_reply : Msg Rr → Msg Rr

-- dns.Copy copies the whole record, and the TTL of the copy is the one assigned.
pub record IsLawful {Rr : Type 0} (dns : Library Rr) : Type 0 where
  pub copied_ttl : (t : ℕ) (r : Rr) → dns.rr_ttl (dns.copy_with t r) ≡ t
  pub copied_name : (t : ℕ) (r : Rr) → dns.rr_name (dns.copy_with t r) ≡ dns.rr_name r
  pub copied_type : (t : ℕ) (r : Rr) → dns.rr_type (dns.copy_with t r) ≡ dns.rr_type r

-- dns.TypeOPT and its neighbours
abbrev pub type_a : ℕ
type_a = 1

abbrev pub type_cname : ℕ
type_cname = 5

abbrev pub type_soa : ℕ
type_soa = 6

abbrev pub type_aaaa : ℕ
type_aaaa = 28

abbrev pub type_opt : ℕ
type_opt = 41

abbrev pub type_svcb : ℕ
type_svcb = 64
