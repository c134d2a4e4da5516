-- ===== src/Configgen/Vlans.antt =====
-- internal/configgen/validate.go: the check of the declared VLANs.
pub mod Disjoint
mod Tests
use bramble_gate.Prelude.{
  Bool, true, false, ◌||◌, Option, none, some, List, [], ◌∷◌, ◌++◌, any, is_nil, if◌then◌else◌,
  GoString, Ip, IpNet, net_contains, net_contains?, net_ip, is_empty, str_eq, trim_space,
}
use bramble_gate.Prelude.Results.{Result, ok, err, ◌>>=◌}
use bramble_gate.Vlanmatch.{Vlan}

-- The errors of `validateVLANs`, with the values that their messages name.
pub data VlanError : Type 0 where
  missing_name : VlanError
  duplicate_name : GoString → VlanError
  no_cidrs : GoString → VlanError
  invalid_cidr : GoString → GoString → VlanError
  overlap : GoString → GoString → GoString → GoString → VlanError

-- `ownedCIDR`
pub record OwnedCidr : Type 0 where
  pub vlan : GoString
  pub cidr : GoString
  pub net : IpNet

-- `netsOverlap`
unfoldable pub nets_overlap : IpNet → IpNet → Bool
nets_overlap a b = net_contains? a (net_ip b) || net_contains? b (net_ip a)

-- The loop over the networks accepted so far: the first that overlaps.
unfoldable pub overlapping : IpNet → List OwnedCidr → Option OwnedCidr
overlapping n [] = none
overlapping n (o ∷ os) = if nets_overlap n o.net then some o else overlapping n os

-- What one CIDR string adds to the networks accepted so far, given what net.ParseCIDR returns.
unfoldable pub add_cidr :
    GoString → GoString → Option IpNet → List OwnedCidr → Result VlanError (List OwnedCidr)
add_cidr vlan c none nets = err (invalid_cidr vlan c)
add_cidr vlan c (some n) nets = elim (overlapping n nets) [
  | some o ↦ err (overlap vlan c o.vlan o.cidr)
  | none ↦ ok (nets ++ (record { vlan = vlan; cidr = c; net = n } ∷ []))
]

module _ (parse_cidr : GoString → Option IpNet) where
  -- The loop over one VLAN's CIDR strings.
  unfoldable pub add_cidrs :
      GoString → List GoString → List OwnedCidr → Result VlanError (List OwnedCidr)
  add_cidrs vlan [] nets = ok nets
  add_cidrs vlan (c ∷ cs) nets = do
    nets' ← add_cidr vlan c (parse_cidr c) nets
    add_cidrs vlan cs nets'

  -- The loop over the VLANs, with the names and the networks seen so far.
  unfoldable pub validate_from :
      List Vlan → List GoString → List OwnedCidr → Result VlanError (List OwnedCidr)
  validate_from [] seen nets = ok nets
  validate_from (v ∷ vs) seen nets =
      if is_empty (trim_space v.name)
      then err missing_name
      else if any (str_eq v.name) seen
      then err (duplicate_name v.name)
      else if is_nil v.cidrs
      then err (no_cidrs v.name)
      else (do nets' ← add_cidrs v.name v.cidrs nets; validate_from vs (v.name ∷ seen) nets')

  -- `validateVLANs`; the networks are what the loop has collected when it returns nil.
  unfoldable pub validate_vlans : List Vlan → Result VlanError (List OwnedCidr)
  validate_vlans vs = validate_from vs [] []
