-- ===== src/Vlanmatch/Laws.antt =====
-- vlanmatch/table.go: the first declared VLAN with a CIDR around the address wins.
use bramble_gate.Prelude.{
  Bool, true, Option, none, some, List, [], ◌∷◌, any, if◌then◌else◌, GoString, Ip, IpNet,
  net_contains, ◌≡◌, refl, sym, inl, inr, ◌↔◌, arith, Bool-cases, Option-cases, ◌∙◌,
}
use bramble_gate.Vlanmatch.{Vlan, parse_nets, new_table, lookup_ip, lookup}

module _ (parse_cidr : GoString → Option IpNet) (ip : Ip) where
  -- One of the VLAN's CIDR strings parses to a network that contains the address.
  pub data Covered : List GoString → Type 0 where
    here :
        (c : GoString) (cs : List GoString) (n : IpNet)
        → parse_cidr c ≡ some n
        → net_contains n ip ≡ true
        → Covered (c ∷ cs)
    there : (c : GoString) (cs : List GoString) → Covered cs → Covered (c ∷ cs)

  -- `name` is the first declared VLAN that covers the address.
  pub data FirstVlan (name : GoString) : List Vlan → Type 0 where
    this : (v : Vlan) (vs : List Vlan) → Covered v.cidrs → v.name ≡ name → FirstVlan name (v ∷ vs)
    later :
        (v : Vlan) (vs : List Vlan)
        → ¬ Covered v.cidrs
        → FirstVlan name vs
        → FirstVlan name (v ∷ vs)

  any_net : List GoString → Bool
  any_net cs = any (λ n. net_contains n ip) (parse_nets parse_cidr cs)

  any_net-none :
      (c : GoString) (cs : List GoString) → parse_cidr c ≡ none → any_net (c ∷ cs) ≡ any_net cs
  unfolding parse_nets any_net
  any_net-none c cs e = rw (e, parse_nets)

  any_net-some :
      (c : GoString) (cs : List GoString) (n : IpNet)
      → parse_cidr c ≡ some n
      → any_net (c ∷ cs) ≡ (if net_contains n ip then true else any_net cs)
  unfolding parse_nets any_net
  any_net-some c cs n e = rw (e, parse_nets)

  Covered-of_any : (cs : List GoString) → any_net cs ≡ true → Covered cs
  unfolding any_net parse_nets
  Covered-of_any [] h = cc
  Covered-of_any (c ∷ cs) h = elim (Option-cases (parse_cidr c)) [
    | inl e ↦ there c cs (Covered-of_any cs (sym (any_net-none c cs e) ∙ h))
    | inr (n, e) ↦ elim (Bool-cases (net_contains n ip)) [
      | inl t ↦ here c cs n e t
      | inr f ↦ there c cs (Covered-of_any cs (ground (arith, any_net-some c cs n e)))
    ]
  ]

  any_of_Covered : {cs : List GoString} → Covered cs → any_net cs ≡ true
  any_of_Covered (here c cs n e t) = any_net-some c cs n e ∙ rw t
  any_of_Covered (there c cs k) = elim (Option-cases (parse_cidr c)) [
    | inl e ↦ any_net-none c cs e ∙ any_of_Covered k
    | inr (n, e) ↦ any_net-some c cs n e ∙ ground (arith, any_of_Covered k)
  ]

  table_lookup : List Vlan → Option GoString
  table_lookup vs = lookup_ip (new_table parse_cidr vs) ip

  table_lookup-cons :
      (v : Vlan) (vs : List Vlan)
      → table_lookup (v ∷ vs) ≡ (if any_net v.cidrs then some v.name else table_lookup vs)
  unfolding table_lookup lookup_ip new_table any_net
  table_lookup-cons v vs = refl

  first_of_lookup :
      (vs : List Vlan) (name : GoString) → table_lookup vs ≡ some name → FirstVlan name vs
  unfolding table_lookup lookup_ip new_table
  first_of_lookup [] name h = cc
  first_of_lookup (v ∷ vs) name h = elim (Bool-cases (any_net v.cidrs)) [
    | inl t ↦ this v vs (Covered-of_any v.cidrs t) (ground (arith, table_lookup-cons v vs))
    | inr f ↦
        later v vs (λ k. cc (any_of_Covered k, f))
          (first_of_lookup vs name (ground (arith, table_lookup-cons v vs)))
  ]

  lookup_of_first :
      {name : GoString} {vs : List Vlan} → FirstVlan name vs → table_lookup vs ≡ some name
  lookup_of_first (this v vs k e) = table_lookup-cons v vs ∙ rw (any_of_Covered k) (cc e)
  lookup_of_first (later v vs k f) = elim (Bool-cases (any_net v.cidrs)) [
    | inl t ↦ absurd (k (Covered-of_any v.cidrs t))
    | inr g ↦ table_lookup-cons v vs ∙ rw g (lookup_of_first f)
  ]

  -- A VLAN of the list, given by its place, that covers the address.
  pub data Covers (name : GoString) : List Vlan → Type 0 where
    head : (v : Vlan) (vs : List Vlan) → Covered v.cidrs → v.name ≡ name → Covers name (v ∷ vs)
    tail : (v : Vlan) (vs : List Vlan) → Covers name vs → Covers name (v ∷ vs)

  pub Covers-of_first : {name : GoString} {vs : List Vlan} → FirstVlan name vs → Covers name vs
  Covers-of_first (this v vs k e) = head v vs k e
  Covers-of_first (later v vs k f) = tail v vs (Covers-of_first f)

  found_of_Covers :
      {name : GoString} {vs : List Vlan}
      → Covers name vs
      → (n : GoString) × (table_lookup vs ≡ some n)
  found_of_Covers (head v vs k e) = (v.name, table_lookup-cons v vs ∙ rw (any_of_Covered k))
  found_of_Covers (tail v vs c) = elim (Bool-cases (any_net v.cidrs)) [
    | inl t ↦ (v.name, table_lookup-cons v vs ∙ rw t)
    | inr f ↦ let (n, e) = found_of_Covers c in (n, table_lookup-cons v vs ∙ rw f e)
  ]

  -- Where some VLAN covers the address the lookup finds a name, that of a VLAN that covers it.
  pub lookup-Covers :
      {name : GoString} (vs : List Vlan)
      → Covers name vs
      → (n : GoString) × (lookup (new_table parse_cidr vs) (some ip) ≡ some n) × Covers n vs
  unfolding lookup table_lookup
  lookup-Covers vs c =
      let (n, e) = found_of_Covers c in (n, e, Covers-of_first (first_of_lookup vs n e))

  -- For every parser of CIDR strings and every address: `Lookup` on the table that `NewTable`
  -- builds returns a name exactly when it is that of the first declared VLAN with a CIDR string
  -- that parses and contains the address.
  pub lookup_iff :
      (vs : List Vlan) (name : GoString)
      → (lookup (new_table parse_cidr vs) (some ip) ≡ some name) ↔ FirstVlan name vs
  unfolding lookup table_lookup
  lookup_iff vs name = (first_of_lookup vs name, lookup_of_first)
