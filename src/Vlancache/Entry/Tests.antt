-- ===== src/Vlancache/Entry/Tests.antt =====
-- plugins/vlancache/entry.go: tests, and the theorems at concrete inputs.
use bramble_gate.Prelude.{◌*◌, ◌+◌, ◌≡◌, refl, false, [], ◌∷◌, ◌++◌, All, codes}
use bramble_gate.Prelude.Int.{pos, ◌-ℤ◌}
use bramble_gate.Vlancache.Entry.{second, reply_ttl, strip_opt, new_entry, to_msg}
use bramble_gate.Vlancache.Entry.Laws.{Served, to_msg-Served}
use bramble_gate.Vlancache.Examples.{dns, dns-IsLawful, query, answer, printer, address, opt}

-- 300 seconds less 100.5, in whole seconds, and nothing once expired.
ttl_halfway : reply_ttl printer (pos (100 * second + 500_000_000)) ≡ 199
unfolding reply_ttl ◌-ℤ◌
ttl_halfway = refl

ttl_expired : reply_ttl printer (pos (301 * second)) ≡ 0
unfolding reply_ttl ◌-ℤ◌
ttl_expired = refl

strip_opt_answer : strip_opt dns (address ∷ opt ∷ []) ≡ address ∷ []
unfolding strip_opt
strip_opt_answer = refl

to_msg-Served_example :
    let e = new_entry dns (codes "printer.lan.") answer (pos 0) (pos (300 * second)) in
    let reply = to_msg dns e query (pos (100 * second)) false false in
    All
      (Served dns dns-IsLawful (pos (300 * second) -ℤ (pos (100 * second) -ℤ pos 0)))
      (reply.answer ++ (reply.ns ++ reply.extra))
to_msg-Served_example =
    to_msg-Served dns dns-IsLawful (codes "printer.lan.") answer query (pos 0) (pos (300 * second))
      (pos (100 * second)) false false
