-- ===== src/Configgen/Vlans/Tests.antt =====
-- internal/configgen/validate.go: tests of the VLAN check, and its theorems at concrete inputs.
use bramble_gate.Prelude.{
  ◌≡◌, refl, true, Option, none, some, List, [], ◌∷◌, codes, str_eq, string_discrete, trim_space,
  if◌then◌else◌, GoString, IpNet, v4, net4, net_contains,
}
use bramble_gate.Prelude.Results.{ok, err}
use bramble_gate.Vlanmatch.{Vlan, lookup, new_table}
use bramble_gate.Vlanmatch.Laws.{Covered, Covers}
use bramble_gate.Configgen.Vlans.{
  OwnedCidr, VlanError, nets_overlap, overlapping, add_cidr, add_cidrs, validate_from,
  validate_vlans,
}
use bramble_gate.Configgen.Vlans.Disjoint.{validated-lookup}

program : Unit {0}
unfolding nets_overlap overlapping add_cidr add_cidrs validate_from validate_vlans net_contains
    string_discrete trim_space
program = tt

abbrev parse : GoString → Option IpNet
parse c =
    if str_eq c (codes "10.2.0.0/16")
    then some (net4 0x0a020000 16)
    else if str_eq c (codes "10.1.0.0/16")
    then some (net4 0x0a010000 16)
    else if str_eq c (codes "10.1.2.0/24")
    then some (net4 0x0a010200 24)
    else none

abbrev iot : Vlan
iot = record { name = codes "iot"; cidrs = codes "10.1.0.0/16" ∷ [] }

abbrev lan : Vlan
lan = record { name = codes "lan"; cidrs = codes "10.2.0.0/16" ∷ [] }

abbrev nested : Vlan
nested = record { name = codes "nested"; cidrs = codes "10.1.2.0/24" ∷ [] }

abbrev accepted : List OwnedCidr
accepted =
    record { vlan = codes "lan"; cidr = codes "10.2.0.0/16"; net = net4 0x0a020000 16 }
    ∷ record { vlan = codes "iot"; cidr = codes "10.1.0.0/16"; net = net4 0x0a010000 16 }
    ∷ []

validate_two : validate_vlans parse (lan ∷ iot ∷ []) ≡ ok accepted
unfolding program
validate_two = refl

validate_nested :
    validate_vlans parse (iot ∷ nested ∷ [])
    ≡ err (
        VlanError.overlap
          (codes "nested")
          (codes "10.1.2.0/24")
          (codes "iot")
          (codes "10.1.0.0/16"))
unfolding program
validate_nested = refl

validate_twice :
    validate_vlans parse (iot ∷ iot ∷ []) ≡ err (VlanError.duplicate_name (codes "iot"))
unfolding program
validate_twice = refl

in_iot : net_contains (net4 0x0a010000 16) (v4 0x0a010203) ≡ true
unfolding net_contains
in_iot = refl

parsed_iot : parse (codes "10.1.0.0/16") ≡ some (net4 0x0a010000 16)
unfolding string_discrete
parsed_iot = refl

iot-Covers : Covers parse (v4 0x0a010203) (codes "iot") (lan ∷ iot ∷ [])
iot-Covers = Covers.tail lan (iot ∷ []) (
    Covers.head iot []
      (Covered.here (codes "10.1.0.0/16") [] (net4 0x0a010000 16) parsed_iot in_iot) refl)

validated-lookup_example :
    lookup (new_table parse (lan ∷ iot ∷ [])) (some (v4 0x0a010203)) ≡ some (codes "iot")
validated-lookup_example =
    validated-lookup (v4 0x0a010203) parse (lan ∷ iot ∷ []) (codes "iot") accepted validate_two
      iot-Covers
