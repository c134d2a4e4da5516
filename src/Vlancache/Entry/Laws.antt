-- ===== src/Vlancache/Entry/Laws.antt =====
-- plugins/vlancache/entry.go: what a reply made from a cached entry carries.
use bramble_gate.Prelude.{
  ℕ, ◌*◌, ◌≤◌, ◌≢◌, Bool, List, [], ◌∷◌, ◌++◌, All, All-append, arith, ◌==◌, Bool-cases, inl, inr,
  GoString,
}
use bramble_gate.Prelude.Int.{ℤ, ◌-ℤ◌, pos_part}
use bramble_gate.Dns.{Library, IsLawful, Msg, type_opt}
use bramble_gate.Vlancache.Entry.{
  Entry, second, remaining, strip_opt, new_entry, copy_with_ttl, reply_ttl, to_msg,
}

-- The TTL written is at most the lifetime left, and 0 on an expired entry.
pub reply_ttl-le :
    {Rr : Type 0} (e : Entry Rr) (now : ℤ) → reply_ttl e now * second ≤ pos_part (remaining e now)
unfolding reply_ttl
reply_ttl-le e now = ground arith

module _ {Rr : Type 0} (dns : Library Rr) (lawful : IsLawful dns) where
  -- A record that a client may get from the cache: no OPT, and a TTL of at most the lifetime left.
  abbrev pub Served : ℤ → Rr → Type 0
  Served lifetime r = (dns.rr_type r ≢ type_opt) × (dns.rr_ttl r * second ≤ pos_part lifetime)

  strip_opt-copied :
      (lifetime : ℤ) (ttl : ℕ) (rrs : List Rr)
      → ttl * second ≤ pos_part lifetime
      → All (Served lifetime) (copy_with_ttl dns (strip_opt dns rrs) ttl)
  unfolding copy_with_ttl strip_opt
  strip_opt-copied lifetime ttl [] h = tt
  strip_opt-copied lifetime ttl (r ∷ rrs) h = elim (Bool-cases (dns.rr_type r == type_opt)) [
    | inl e ↦ rw e (strip_opt-copied lifetime ttl rrs h)
    | inr e ↦ rw e (
      (rw (lawful.copied_type ttl r) (λ q. ground arith), rw (lawful.copied_ttl ttl r) h),
      strip_opt-copied lifetime ttl rrs h,
    )
  ]

  -- Every record of a reply from the cache, in all three sections, is no OPT record and carries a
  -- TTL, in whole seconds, of at most the lifetime left to the entry: 0 on an expired one.
  pub to_msg-Served :
      (qname : GoString) (m req : Msg Rr) (stored ttl now : ℤ) (do_bit ad_bit : Bool)
      → let e = new_entry dns qname m stored ttl in
        let reply = to_msg dns e req now do_bit ad_bit in
        All (Served (ttl -ℤ (now -ℤ stored))) (reply.answer ++ (reply.ns ++ reply.extra))
  unfolding to_msg new_entry remaining
  to_msg-Served qname m req stored ttl now do_bit ad_bit =
      All-append (Served (ttl -ℤ (now -ℤ stored))) (section m.answer)
        (section m.ns ++ section m.extra) (served m.answer)
        (All-append (Served (ttl -ℤ (now -ℤ stored))) (section m.ns) (section m.extra) (served m.ns)
          (served m.extra))
    where
      e : Entry Rr
      e = new_entry dns qname m stored ttl

      section : List Rr → List Rr
      section rrs = copy_with_ttl dns (strip_opt dns rrs) (reply_ttl e now)

      bound : reply_ttl e now * second ≤ pos_part (ttl -ℤ (now -ℤ stored))
      bound = reply_ttl-le e now

      served : (rrs : List Rr) → All (Served (ttl -ℤ (now -ℤ stored))) (section rrs)
      served rrs = strip_opt-copied (ttl -ℤ (now -ℤ stored)) (reply_ttl e now) rrs bound
