-- ===== src/Vlanmatch.antt =====
-- vlanmatch/table.go: which declared VLAN an address belongs to.
pub mod Laws
mod Tests
use bramble_gate.Prelude.{
  Bool, true, false, Option, none, some, List, [], ◌∷◌, map, any, if◌then◌else◌, GoString, Ip,
  IpNet, net_contains,
}

-- `VLAN`
pub record Vlan : Type 0 where
  pub name : GoString
  pub cidrs : List GoString

-- `vlanNets`
pub record VlanNets : Type 0 where
  pub name : GoString
  pub nets : List IpNet

-- `Table`
abbrev pub Table : Type 0
Table = List VlanNets

-- `NewTable`, given net.ParseCIDR. A string that does not parse is skipped.
module _ (parse_cidr : GoString → Option IpNet) where
  unfoldable pub parse_nets : List GoString → List IpNet
  parse_nets [] = []
  parse_nets (c ∷ cs) = elim (parse_cidr c) [ none ↦ parse_nets cs | some n ↦ n ∷ parse_nets cs ]

  unfoldable pub new_table : List Vlan → Table
  new_table [] = []
  new_table (v ∷ vs) = record { name = v.name; nets = parse_nets v.cidrs } ∷ new_table vs

-- The loops of `Lookup`: the name of the first VLAN with a network that contains the address.
unfoldable pub lookup_ip : Table → Ip → Option GoString
lookup_ip [] ip = none
lookup_ip (v ∷ vs) ip = if any (λ n. net_contains n ip) v.nets then some v.name else lookup_ip vs ip

-- `Lookup`; a nil address matches nothing. `none` is the result `("", false)`.
unfoldable pub lookup : Table → Option Ip → Option GoString
unfolding lookup_ip
lookup t none = none
lookup t (some ip) = lookup_ip t ip

-- The name alone, `name, _ := t.Lookup(ip)`.
abbrev pub name_of : Option GoString → GoString
name_of none = []
name_of (some n) = n
