-- ===== src/Mdnsbridge/Selector.antt =====
-- plugins/mdnsbridge/selector.go and config.go: which discoveries a selector matches.
use bramble_gate.Prelude.{
  Bool, true, false, ◌&&◌, not, Option, none, some, List, [], ◌∷◌, ◌++◌, any, is_nil, if◌then◌else◌,
  GoString, codes, str_eq, string_discrete, is_empty, to_lower, trim_dot, lookup, Ip,
}
use bramble_gate.Prelude.Int.{ℤ}
use bramble_gate.Vlanmatch
use bramble_gate.Mdnsbridge.Glob.{glob_match}

-- `Entry` of table.go; times count nanoseconds, and a TTL of zero is unknown.
pub record Entry : Type 0 where
  pub name : GoString
  pub host : GoString
  pub service : GoString
  pub instance_label : GoString
  pub txt : List (GoString × GoString)
  pub ipv4 : List GoString
  pub ipv6 : List GoString
  pub published : Bool
  pub promoted : Bool
  pub last_seen : ℤ
  pub ttl : ℤ
  pub manual : Bool

-- `Selector`; an empty field constrains nothing.
pub record Selector : Type 0 where
  pub service : GoString
  pub instance_label : GoString
  pub host : GoString
  pub txt : List (GoString × GoString)
  pub vlan : GoString
  pub family : GoString

-- `Config`, with `NamingRule` a pair of a selector and a suffix.
pub record Config : Type 0 where
  pub default_suffix : GoString
  pub auto_publish : List Selector
  pub naming : List (Selector × GoString)
  pub promoted : List (GoString × Selector)

-- The result of `globMatch`, which always returns one.
abbrev pub globs : GoString → GoString → Bool
globs pattern s = elim (glob_match pattern s) [ none ↦ false | some b ↦ b ]

-- A field of a selector against the entry's.
abbrev pub field_matches : GoString → GoString → Bool
field_matches pattern s = if is_empty pattern then true else globs pattern s

-- The loop over the TXT conditions.
unfoldable pub txt_matches : List (GoString × GoString) → Entry → Bool
txt_matches [] e = true
txt_matches ((k, want) ∷ ts) e =
    let rest = txt_matches ts e in
    elim (lookup string_discrete k e.txt) [
      | none ↦ false
      | some got ↦ if globs want got then rest else false
    ]

-- The `switch` on the family.
unfoldable pub family_matches : GoString → Entry → Bool
family_matches family e =
    if str_eq (to_lower family) (codes "ipv4")
    then not (is_nil e.ipv4)
    else if str_eq (to_lower family) (codes "ipv6")
    then not (is_nil e.ipv6)
    else true

-- The configured VLANs, `vlanmatch.Current()`, and net.ParseIP are parameters.
module _ (vlans : Vlanmatch.Table) (parse_ip : GoString → Option Ip) where
  abbrev pub vlan_is : GoString → Option GoString → Bool
  vlan_is vlan none = false
  vlan_is vlan (some name) = str_eq name vlan

  -- `entryInVLAN`
  unfoldable pub entry_in_vlan : Entry → GoString → Bool
  entry_in_vlan e vlan =
      any (λ s. vlan_is vlan (Vlanmatch.lookup vlans (parse_ip s))) (e.ipv4 ++ e.ipv6)

  -- `Selector.Match`
  unfoldable pub selects : Selector → Entry → Bool
  selects s e =
      if not (field_matches s.service e.service)
      then false
      else if not (field_matches s.instance_label e.instance_label)
      then false
      else if not (if is_empty s.host then true else globs (trim_dot s.host) (trim_dot e.host))
      then false
      else if not (txt_matches s.txt e)
      then false
      else if not (family_matches s.family e)
      then false
      else if not (is_empty s.vlan) && not (entry_in_vlan e s.vlan)
      then false
      else true

  -- `SelectorSet.MatchAny`
  unfoldable pub match_any : List Selector → Entry → Bool
  match_any ss e = any (λ s. selects s e) ss

  -- `Config.suffixFor`
  abbrev pub first_suffix : GoString → List (Selector × GoString) → Entry → GoString
  first_suffix default [] e = default
  first_suffix default ((s, suffix) ∷ rules) e =
      if selects s e then suffix else first_suffix default rules e

  abbrev pub suffix_for : Config → Entry → GoString
  suffix_for c e = first_suffix c.default_suffix c.naming e

  -- `promotedMatch` of table.go
  abbrev pub promoted_match : Config → Entry → Bool
  promoted_match c e = any (λ p. selects p.1 e) c.promoted
