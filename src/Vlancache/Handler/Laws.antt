-- ===== src/Vlancache/Handler/Laws.antt =====
-- plugins/vlancache/handler.go: whom the network of an answer's scope contains.
use bramble_gate.Prelude.{
  ℕ, ◌≡◌, refl, sym, subst, true, Option, none, some, List, [], ◌∷◌, Ip, IpNet, net_contains,
}
use bramble_gate.Dns.{Library, Msg}
use bramble_gate.Vlancache.Entry.{Entry}
use bramble_gate.Vlancache.Policy.{Subnet, Upstream, scope_prefix}
use bramble_gate.Vlancache.Policy.Bounds.{FamilyOf, scope_prefix-contains}

module _ {Rr : Type 0} (dns : Library Rr) (up : Upstream Rr)
    (add : ℕ → Entry Rr → List (ℕ × Entry Rr) → List (ℕ × Entry Rr)) where
  -- The upstream's first scope option, if any, is of the address's family.
  abbrev pub FirstFamily : Option Ip → List Subnet → Type 0
  FirstFamily none ses = Unit
  FirstFamily (some ip) [] = Unit
  FirstFamily (some ip) (se ∷ ses) = FamilyOf dns up ip se.family

  -- A network for which a result is valid contains the address that asked.
  abbrev pub Holds : Option Ip → Option IpNet → Type 0
  Holds ip none = Unit
  Holds none (some p) = ⊥
  Holds (some ip) (some p) = net_contains p ip ≡ true

  scope_none : (m : Msg Rr) (ip : Ip) → up.subnets m ≡ [] → scope_prefix dns up m (some ip) ≡ none
  unfolding scope_prefix
  scope_none m ip e = rw (e, scope_prefix) refl

  pub scope-Holds :
      (m : Msg Rr) (ip : Option Ip)
      → FirstFamily ip (up.subnets m)
      → Holds ip (scope_prefix dns up m ip)
  scope-Holds m none f = unfold scope_prefix in tt
  scope-Holds m (some ip) f = go (up.subnets m) refl f
    where
      go :
          (ses : List Subnet)
          → up.subnets m ≡ ses
          → FirstFamily (some ip) ses
          → Holds (some ip) (scope_prefix dns up m (some ip))
      go [] e g = subst (Holds (some ip)) (sym (scope_none m ip e)) tt
      go (se ∷ ses) e g =
          let (n, a, b) = scope_prefix-contains dns up m ip se ses e g in
          subst (Holds (some ip)) (sym a) b
