-- ===== src/Vlancache/Entry.antt =====
-- plugins/vlancache/entry.go: one cached response.
pub mod Laws
mod Tests
use bramble_gate.Prelude.{
  ℕ, ◌+◌, ◌-◌, ◌/◌, ◌%◌, ◌^◌, Bool, true, false, ◌&&◌, ◌||◌, not, Option, none, some, List, map,
  select, any, ◌==◌, if◌then◌else◌, GoString, str_eq, to_lower,
}
use bramble_gate.Prelude.Int.{ℤ, ◌-ℤ◌, pos, negsuc, ltb_ℤ}
use bramble_gate.Dns.{Library, Msg, type_opt}

-- `entry`. The stored time counts nanoseconds; the TTL is a time.Duration.
pub record Entry (Rr : Type 0) : Type 0 where
  pub qname : GoString
  pub rcode : ℤ
  pub authenticated_data : Bool
  pub recursion_available : Bool
  pub answer : List Rr
  pub ns : List Rr
  pub extra : List Rr
  pub orig_ttl : ℤ
  pub stored : ℤ

-- time.Second
abbrev pub second : ℕ
second = 1_000_000_000

-- `entry.remaining`
unfoldable pub remaining : {Rr : Type 0} → Entry Rr → ℤ → ℤ
remaining e now = e.orig_ttl -ℤ (now -ℤ e.stored)

-- strings.EqualFold, on ASCII
abbrev pub equal_fold : GoString → GoString → Bool
equal_fold a b = str_eq (to_lower a) (to_lower b)

-- `uint32(d / time.Second)` of a duration: the division truncates towards zero, and a negative
-- number wraps around.
abbrev pub to_seconds : ℤ → ℕ
to_seconds (pos d) = d / second % 2 ^ 32
to_seconds (negsuc d) = (2 ^ 32 - (d + 1) / second % 2 ^ 32) % 2 ^ 32

-- The TTL that `toMsg` writes.
unfoldable pub reply_ttl : {Rr : Type 0} → Entry Rr → ℤ → ℕ
unfolding remaining
reply_ttl e now =
    let rem = if ltb_ℤ (remaining e now) (pos 0) then pos 0 else remaining e now in to_seconds rem

module _ {Rr : Type 0} (dns : Library Rr) where
  -- `stripOPT`
  unfoldable pub strip_opt : List Rr → List Rr
  strip_opt rrs = select (λ rr. not (dns.rr_type rr == type_opt)) rrs

  -- `newEntry`
  unfoldable pub new_entry : GoString → Msg Rr → ℤ → ℤ → Entry Rr
  unfolding strip_opt
  new_entry qname m now ttl = record {
    qname = qname;
    rcode = m.rcode;
    authenticated_data = m.authenticated_data;
    recursion_available = m.recursion_available;
    answer = strip_opt m.answer;
    ns = strip_opt m.ns;
    extra = strip_opt m.extra;
    orig_ttl = ttl;
    stored = now;
  }

  -- The target of a CNAME or a DNAME, if the record is one of these.
  abbrev pub target_is : GoString → Option GoString → Bool
  target_is name none = false
  target_is name (some t) = equal_fold t name

  -- `entry.dependsOn`
  unfoldable pub depends_on : Entry Rr → GoString → Bool
  depends_on e name =
      if str_eq e.qname name
      then true
      else any (λ rr. equal_fold (dns.rr_name rr) name || target_is name (dns.alias_target rr))
          e.answer

  -- `copyWithTTL`
  unfoldable pub copy_with_ttl : List Rr → ℕ → List Rr
  copy_with_ttl rrs ttl = map (dns.copy_with ttl) rrs

  -- `entry.toMsg`
  unfoldable pub to_msg : Entry Rr → Msg Rr → ℤ → Bool → Bool → Msg Rr
  unfolding copy_with_ttl reply_ttl
  to_msg e req now do_bit ad_bit = record (dns.set_reply req) {
    authoritative = true;
    rcode = e.rcode;
    recursion_available = e.recursion_available;
    authenticated_data = if not do_bit && not ad_bit then false else e.authenticated_data;
    answer = copy_with_ttl e.answer (reply_ttl e now);
    ns = copy_with_ttl e.ns (reply_ttl e now);
    extra = copy_with_ttl e.extra (reply_ttl e now);
  }
