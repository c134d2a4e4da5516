-- ===== src/Configgen/Corefile/Tests.antt =====
-- internal/configgen: tests of the Corefile and of the hosts file, and the theorem at a concrete
-- input.
use bramble_gate.Prelude.{
  ◌≡◌, refl, true, false, some, [], ◌∷◌, map, select, any, ◌&&◌, if◌then◌else◌, codes,
  string_discrete, to_lower, trim_space, has_suffix,
}
use bramble_gate.Prelude.Int.{pos}
use bramble_gate.Model.Domain.{normalized_name}
use bramble_gate.Model.Settings.{names}
use bramble_gate.Configgen.Zones.{digits, itoa}
use bramble_gate.Configgen.Tests.{settings, nas_host, nas}
use bramble_gate.Configgen.Corefile.{
  Options, new_block, directive, directive_if, sub_block, block_text, join_words, write_query_log,
  write_cache, write_log, write_forward, next_blocks, sockets, forward_target, render_hosts_file,
  hosts_shadow_warnings,
}
use bramble_gate.Configgen.Corefile.Counted.{Probe, is_enabled}
use bramble_gate.Configgen.Corefile.Once.{total, is_open, next_blocks-once}

program : Unit {0}
unfolding string_discrete to_lower trim_space has_suffix normalized_name names digits itoa directive
    directive_if sub_block block_text join_words write_query_log write_cache write_log
    forward_target write_forward render_hosts_file hosts_shadow_warnings
program = tt

written_block :
    block_text
      (write_query_log (new_block (codes ".:53")) (record { enabled = true; capacity = pos 40 }))
    ≡ codes ".:53 {\n\tquerylog {\n\t\tcapacity 40\n\t}\n}\n"
unfolding program
written_block = refl

written_classes :
    (write_log
      (new_block [])
      (record { disabled = false; classes = codes "denial" ∷ codes "error" ∷ [] })).lines
    ≡ codes "log {" ∷ codes "\tclass denial error" ∷ codes "}" ∷ []
unfolding program
written_classes = refl

written_forward :
    (write_forward (new_block []) (record settings.upstream {
      protocol = codes "dot";
      max_fails = some 0;
      expire_seconds = 20;
    })).lines
    ≡ codes "forward . tls://10.0.0.9:53 {"
      ∷ codes "\tmax_fails 0"
      ∷ codes "\texpire 20s"
      ∷ codes "}"
      ∷ []
unfolding program
written_forward = refl

shadowed_name :
    hosts_shadow_warnings (nas_host ∷ []) (record nas { name = codes "NAS." } ∷ [])
    ≡ (codes "nas", codes "10.0.0.9") ∷ []
unfolding program
shadowed_name = refl

abbrev options : Options
options = record {
  zone_data_path = codes "/c/records.json";
  hosts_data_path = codes "/c/hosts.txt";
  cert_file = codes "/c/tls.crt";
  key_file = codes "/c/tls.key";
}

next_blocks-once_example :
    (map (λ b. b.addr) (next_blocks settings options true (sockets settings))
      ≡ map (λ l. l.address) (select is_open (sockets settings)))
    × ((p : Probe)
        → total p (next_blocks settings options true (sockets settings)) ≡ (
            if any is_open (sockets settings) && is_enabled p settings.observability then 1 else 0))
next_blocks-once_example = next_blocks-once settings options
