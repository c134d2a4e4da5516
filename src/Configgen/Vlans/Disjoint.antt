-- ===== src/Configgen/Vlans/Disjoint.antt =====
-- internal/configgen/validate.go: accepted VLANs share no address, so vlanmatch's order does not
-- matter.
use bramble_gate.Prelude.{
  true, Option, none, some, List, [], ◌∷◌, ◌++◌, GoString, Ip, IpNet, v4, v6, net4, net6, net4in6,
  net_contains, ◌≡◌, refl, sym, ap, subst, ◌∙◌, ◌⊎◌, inl, inr, arith, Option-cases, prefix_nested,
  ◌-◌,
}
use bramble_gate.Prelude.Results.{ok, ◌>>=◌, >>=-eq-ok, ok-injective}
use bramble_gate.Vlanmatch.{Vlan, lookup, new_table}
use bramble_gate.Vlanmatch.Laws.{Covered, Covers, lookup-Covers}
use bramble_gate.Configgen.Vlans.{
  OwnedCidr, nets_overlap, overlapping, add_cidr, add_cidrs, validate_from, validate_vlans,
}

-- Two networks with an address in common overlap by the test of the code, which compares each
-- network with the other's own address only.
nets_overlap_of_common :
    (a b : IpNet) (ip : Ip)
    → net_contains a ip ≡ true
    → net_contains b ip ≡ true
    → nets_overlap a b ≡ true
unfolding nets_overlap net_contains
nets_overlap_of_common (net4 x l) (net4 y k) (v4 a) p q =
    ground (arith, prefix_nested (32 - l) (32 - k) x y a)
nets_overlap_of_common (net4 x l) (net4in6 y k) (v4 a) p q =
    ground (arith, prefix_nested (32 - l) (128 - k) x y a)
nets_overlap_of_common (net4in6 x l) (net4 y k) (v4 a) p q =
    ground (arith, prefix_nested (128 - l) (32 - k) x y a)
nets_overlap_of_common (net4in6 x l) (net4in6 y k) (v4 a) p q =
    ground (arith, prefix_nested (128 - l) (128 - k) x y a)
nets_overlap_of_common (net6 x l) (net6 y k) (v6 a) p q =
    ground (arith, prefix_nested (128 - l) (128 - k) x y a)
nets_overlap_of_common _ _ (v4 a) p q = cc
nets_overlap_of_common _ _ (v6 a) p q = cc

module _ (ip : Ip) where
  -- An accepted network of the VLAN `name` contains the address.
  abbrev pub Owns : GoString → List OwnedCidr → Type 0
  Owns name [] = ⊥
  Owns name (o ∷ os) = ((net_contains o.net ip ≡ true) × (o.vlan ≡ name)) ⊎ Owns name os

  Owns-append :
      (name : GoString) (os : List OwnedCidr) (o : OwnedCidr)
      → Owns name (os ++ (o ∷ []))
      → Owns name os ⊎ ((net_contains o.net ip ≡ true) × (o.vlan ≡ name))
  Owns-append name [] o (inl h) = inr h
  Owns-append name [] o (inr h) = elim h [ ]
  Owns-append name (x ∷ os) o (inl h) = inl (inl h)
  Owns-append name (x ∷ os) o (inr h) = elim (Owns-append name os o h) [
    | inl k ↦ inl (inr k)
    | inr k ↦ inr k
  ]

  append-Owns :
      (name : GoString) (os : List OwnedCidr) (o : OwnedCidr)
      → Owns name os ⊎ ((net_contains o.net ip ≡ true) × (o.vlan ≡ name))
      → Owns name (os ++ (o ∷ []))
  append-Owns name [] o (inr h) = inl h
  append-Owns name [] o (inl h) = elim h [ ]
  append-Owns name (x ∷ os) o (inl (inl h)) = inl h
  append-Owns name (x ∷ os) o (inl (inr h)) = inr (append-Owns name os o (inl h))
  append-Owns name (x ∷ os) o (inr h) = inr (append-Owns name os o (inr h))

  -- A network that overlaps none of the accepted ones shares no address with them.
  fresh_disjoint :
      (n : IpNet) (name : GoString) (os : List OwnedCidr)
      → overlapping n os ≡ none
      → net_contains n ip ≡ true
      → Owns name os
      → ⊥
  unfolding overlapping
  fresh_disjoint n name [] e h o = o
  fresh_disjoint n name (x ∷ os) e h (inl o) =
      ground (arith, nets_overlap_of_common n x.net ip h o.0)
  fresh_disjoint n name (x ∷ os) e h (inr o) = fresh_disjoint n name os (ground arith) h o

  -- No two VLANs own the address.
  abbrev pub Sole : List OwnedCidr → Type 0
  Sole os = (a b : GoString) → Owns a os → Owns b os → a ≡ b

  Sole-append :
      (o : OwnedCidr) (os : List OwnedCidr)
      → overlapping o.net os ≡ none
      → Sole os
      → Sole (os ++ (o ∷ []))
  Sole-append o os e s a b p q = elim (Owns-append a os o p) [
    | inl x ↦ elim (Owns-append b os o q) [
      | inl y ↦ s a b x y
      | inr y ↦ absurd (fresh_disjoint o.net a os e y.0 x)
    ]
    | inr x ↦ elim (Owns-append b os o q) [
      | inl y ↦ absurd (fresh_disjoint o.net b os e x.0 y)
      | inr y ↦ sym x.1 ∙ y.1
    ]
  ]

  module _ (parse_cidr : GoString → Option IpNet) where
    -- What `add_cidrs` leaves: still no shared address, all that was owned, and what it added.
    record Added (vlan : GoString) (cs : List GoString) (os os' : List OwnedCidr) : Type 0 where
      sole : Sole os → Sole os'
      kept : (a : GoString) → Owns a os → Owns a os'
      owned : Covered parse_cidr ip cs → Owns vlan os'

    add_cidr-none :
        (vlan c : GoString) (os : List OwnedCidr) {os' : List OwnedCidr}
        → add_cidr vlan c none os ≡ ok os'
        → ⊥
    unfolding add_cidr
    add_cidr-none vlan c os h = cc

    no_cover : Covered parse_cidr ip [] → ⊥
    no_cover k = go k refl
      where
        go : {cs : List GoString} → Covered parse_cidr ip cs → cs ≡ [] → ⊥
        go (Covered.here _ _ _ _ _) e = cc
        go (Covered.there _ _ _) e = cc

    add_cidr_ok :
        (vlan c : GoString) (n : IpNet) (os : List OwnedCidr) {os' : List OwnedCidr}
        → add_cidr vlan c (some n) os ≡ ok os'
        → (overlapping n os ≡ none) × (os' ≡ os ++ (record { vlan = vlan; cidr = c; net = n } ∷ []))
    unfolding add_cidr
    add_cidr_ok vlan c n os h = elim (Option-cases (overlapping n os)) [
      | inl e ↦ (e, ground arith)
      | inr (o, e) ↦ absurd (ground arith)
    ]

    -- One string accepted, then what the rest of the loop adds.
    Added-step :
        (vlan c : GoString) (cs : List GoString) (n : IpNet) (os : List OwnedCidr)
        {os' : List OwnedCidr}
        → parse_cidr c ≡ some n
        → overlapping n os ≡ none
        → Added vlan cs (os ++ (record { vlan = vlan; cidr = c; net = n } ∷ [])) os'
        → Added vlan (c ∷ cs) os os'
    Added-step vlan c cs n os {os'} parsed e r = record {
      sole = λ s. r.sole (Sole-append o os e s);
      kept = λ a h. r.kept a (append-Owns a os o (inl h));
      owned = covered_owned;
    }
      where
        o : OwnedCidr
        o = record { vlan = vlan; cidr = c; net = n }

        covered_owned : Covered parse_cidr ip (c ∷ cs) → Owns vlan os'
        covered_owned (Covered.here _ _ m q k) =
            r.kept vlan (append-Owns vlan os o (inr (ground arith, refl)))
        covered_owned (Covered.there _ _ k) = r.owned k

    add_cidrs-Added :
        (vlan : GoString) (cs : List GoString) (os : List OwnedCidr) {os' : List OwnedCidr}
        → add_cidrs parse_cidr vlan cs os ≡ ok os'
        → Added vlan cs os os'
    unfolding add_cidrs
    add_cidrs-Added vlan [] os h =
        subst (Added vlan [] os) (ok-injective h)
          (record { sole = λ s. s; kept = λ a k. k; owned = covered_nil })
      where
        covered_nil : Covered parse_cidr ip [] → Owns vlan os
        covered_nil k = elim (no_cover k) [ ]
    add_cidrs-Added vlan (c ∷ cs) os {os'} h =
        let (mid, first, rest) = >>=-eq-ok (add_cidr vlan c (parse_cidr c) os) _ h in
        elim (Option-cases (parse_cidr c)) [
          | inl e ↦
              absurd (add_cidr-none vlan c os (sym (ap (λ o. add_cidr vlan c o os) e) ∙ first))
          | inr (n, e) ↦
              let (free, made) =
                add_cidr_ok vlan c n os (sym (ap (λ o. add_cidr vlan c o os) e) ∙ first) in
              Added-step vlan c cs n os e free
                (subst (λ m. Added vlan cs m os') made (add_cidrs-Added vlan cs mid rest))
        ]

    -- What the loop over the VLANs leaves.
    record Accepted (vs : List Vlan) (os os' : List OwnedCidr) : Type 0 where
      sole : Sole os → Sole os'
      kept : (a : GoString) → Owns a os → Owns a os'
      owned : (a : GoString) → Covers parse_cidr ip a vs → Owns a os'

    Accepted-step :
        (v : Vlan) (vs : List Vlan) (os mid : List OwnedCidr) {os' : List OwnedCidr}
        → Added v.name v.cidrs os mid
        → Accepted vs mid os'
        → Accepted (v ∷ vs) os os'
    Accepted-step v vs os mid {os'} a r = record {
      sole = λ s. r.sole (a.sole s);
      kept = λ n h. r.kept n (a.kept n h);
      owned = covers_owned;
    }
      where
        covers_owned : (n : GoString) → Covers parse_cidr ip n (v ∷ vs) → Owns n os'
        covers_owned n (Covers.head _ _ k e) = subst (λ m. Owns m os') e (r.kept v.name (a.owned k))
        covers_owned n (Covers.tail _ _ k) = r.owned n k

    no-Covers : {a : GoString} → Covers parse_cidr ip a [] → ⊥
    no-Covers k = go k refl
      where
        go : {a : GoString} {vs : List Vlan} → Covers parse_cidr ip a vs → vs ≡ [] → ⊥
        go (Covers.head _ _ _ _) e = cc
        go (Covers.tail _ _ _) e = cc

    validate_cons :
        (v : Vlan) (vs : List Vlan) (seen : List GoString) (os : List OwnedCidr)
        {os' : List OwnedCidr}
        → validate_from parse_cidr (v ∷ vs) seen os ≡ ok os'
        → (add_cidrs parse_cidr v.name v.cidrs os >>= λ mid.
            validate_from parse_cidr vs (v.name ∷ seen) mid)
          ≡ ok os'
    unfolding validate_from
    validate_cons v vs seen os h = ground arith

    validate_from-Accepted :
        (vs : List Vlan) (seen : List GoString) (os : List OwnedCidr) {os' : List OwnedCidr}
        → validate_from parse_cidr vs seen os ≡ ok os'
        → Accepted vs os os'
    unfolding validate_from
    validate_from-Accepted [] seen os h =
        subst (Accepted [] os) (ok-injective h)
          (record { sole = λ s. s; kept = λ a k. k; owned = λ a k. absurd (no-Covers k) })
    validate_from-Accepted (v ∷ vs) seen os h =
        let (mid, added, rest) =
          >>=-eq-ok (add_cidrs parse_cidr v.name v.cidrs os) _ (validate_cons v vs seen os h) in
        Accepted-step v vs os mid (add_cidrs-Added v.name v.cidrs os added)
          (validate_from-Accepted vs (v.name ∷ seen) mid rest)

    -- When `validateVLANs` accepts the declared VLANs and some VLAN named `name` has a CIDR around
    -- the address, `Lookup` on the table built from them answers `name`: no other VLAN covers the
    -- address, so the order of declaration does not matter.
    pub validated-lookup :
        (vs : List Vlan) (name : GoString) (nets : List OwnedCidr)
        → validate_vlans parse_cidr vs ≡ ok nets
        → Covers parse_cidr ip name vs
        → lookup (new_table parse_cidr vs) (some ip) ≡ some name
    unfolding validate_vlans
    validated-lookup vs name nets h c =
        let r = validate_from-Accepted vs [] [] h in
        let (n, e, c') = lookup-Covers parse_cidr ip vs c in
        e ∙ ap some (r.sole (λ a b p q. absurd p) n name (r.owned n c') (r.owned name c))
