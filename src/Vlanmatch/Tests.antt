-- ===== src/Vlanmatch/Tests.antt =====
-- vlanmatch/table.go: tests, and the lookup's theorem at concrete inputs.
use bramble_gate.Prelude.{
  ◌≡◌, refl, ◌↔◌, Option, none, some, List, [], ◌∷◌, codes, str_eq, string_discrete, if◌then◌else◌,
  GoString, Ip, IpNet, v4, net4, net_contains,
}
use bramble_gate.Vlanmatch.{Vlan, parse_nets, new_table, lookup}
use bramble_gate.Vlanmatch.Laws.{FirstVlan, lookup_iff}

program : Unit {0}
unfolding parse_nets new_table lookup net_contains string_discrete
program = tt

-- net.ParseCIDR on two strings
abbrev parse : GoString → Option IpNet
parse c =
    if str_eq c (codes "10.0.0.0/8")
    then some (net4 0x0a000000 8)
    else if str_eq c (codes "10.1.0.0/16")
    then some (net4 0x0a010000 16)
    else none

abbrev vlans : List Vlan
vlans =
    record { name = codes "bad"; cidrs = codes "nonsense" ∷ [] }
    ∷ record { name = codes "iot"; cidrs = codes "10.1.0.0/16" ∷ [] }
    ∷ record { name = codes "lan"; cidrs = codes "10.0.0.0/8" ∷ [] }
    ∷ []

abbrev printer : Ip
printer = v4 0x0a010203

lookup-printer : lookup (new_table parse vlans) (some printer) ≡ some (codes "iot")
unfolding program
lookup-printer = refl

lookup_outside : lookup (new_table parse vlans) (some (v4 0x7f000001)) ≡ none
unfolding program
lookup_outside = refl

lookup_iff_example :
    (lookup (new_table parse vlans) (some printer) ≡ some (codes "iot"))
    ↔ FirstVlan parse printer (codes "iot") vlans
lookup_iff_example = lookup_iff parse printer vlans (codes "iot")
