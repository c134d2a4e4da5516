-- ===== src/Configgen/Records/Accepted.antt =====
-- internal/configgen/validate.go: what `validateRecords` accepts.
use bramble_gate.Prelude.{
  ◌≡◌, refl, sym, ap, ◌∙◌, ◌⊎◌, inl, inr, Bool-cases, Option-cases, true, false, ◌&&◌, ◌||◌, not,
  Option, none, some, List, [], ◌∷◌, ◌++◌, map, any, All, is_nil, ◌==◌, if◌then◌else◌, GoString,
  codes, str_eq, str_eq→eq, string_discrete, is_empty, Ip, v4, v6, ℕ, All_weaken, arith, subst,
}
use bramble_gate.Prelude.Distinct.{Distinct, Fresh, done, new, Fresh-Distinct}
use bramble_gate.Prelude.Results.{ok, >>=-eq-ok, ok-injective, Result-cases}
use bramble_gate.Vlanmatch.{Vlan}
use bramble_gate.Model.Domain.{parse_domain_name, normalized_name}
use bramble_gate.Model.Domain.Canonical.{parse_domain_name-IsCanonical}
use bramble_gate.Model.Settings.{
  Selector, Record, VlanOverride, is_zero, is_mdns, type_a, type_aaaa, type_cname,
}
use bramble_gate.Configgen.Settings.{one_of, vlan_names}
use bramble_gate.Configgen.Records.{
  in_any_zone, any_override_provides_value, check_selector, validate_value, check_value,
  check_override, validate_overrides, check_static, record_key, check_record, validate_records_from,
  validate_records,
}

abbrev pub override_vlans : List VlanOverride → List GoString
override_vlans [] = []
override_vlans (o ∷ os) = o.vlan ∷ override_vlans os

module _ (parse_ip : GoString → Option Ip) (vlans zones : List GoString) where
  -- A value of the form that the record's type asks for: an IPv4 address, an IPv6 address that is
  -- not a mapped IPv4 address, or a domain name.
  abbrev pub HasForm : GoString → GoString → Type 0
  HasForm kind value =
      ((kind ≡ type_a) × (x : ℕ) × (parse_ip value ≡ some (v4 x)))
      ⊎ ((kind ≡ type_aaaa) × (x : ℕ) × (parse_ip value ≡ some (v6 x)))
      ⊎ ((kind ≡ type_cname) × (name : GoString) × (parse_domain_name parse_ip value ≡ ok name))

  a_form :
      (value : GoString) (o : Option Ip)
      → parse_ip value ≡ o
      → validate_value parse_ip type_a value ≡ ok tt
      → HasForm type_a value
  unfolding validate_value
  a_form value none e h = let impossible : ⊥ = ground (arith, e, h) in absurd impossible
  a_form value (some (v4 x)) e h = inl (refl, x, e)
  a_form value (some (v6 x)) e h = let impossible : ⊥ = ground (arith, e, h) in absurd impossible

  aaaa_form :
      (value : GoString) (o : Option Ip)
      → parse_ip value ≡ o
      → validate_value parse_ip type_aaaa value ≡ ok tt
      → HasForm type_aaaa value
  unfolding validate_value string_discrete
  aaaa_form value none e h = let impossible : ⊥ = ground (arith, e, h) in absurd impossible
  aaaa_form value (some (v4 x)) e h = let impossible : ⊥ = ground (arith, e, h) in absurd impossible
  aaaa_form value (some (v6 x)) e h = inr (inl (refl, x, e))

  cname_form :
      (value : GoString)
      → validate_value parse_ip type_cname value ≡ ok tt
      → HasForm type_cname value
  unfolding validate_value string_discrete
  cname_form value h = elim (Result-cases (parse_domain_name parse_ip value)) [
    | inl (failure, bad) ↦ let impossible : ⊥ = ground (arith, bad, h) in absurd impossible
    | inr (name, good) ↦ inr (inr (refl, name, good))
  ]

  validate_value-HasForm :
      (kind value : GoString)
      → one_of kind (type_a ∷ type_aaaa ∷ type_cname ∷ []) ≡ true
      → validate_value parse_ip kind value ≡ ok tt
      → HasForm kind value
  validate_value-HasForm kind value known h = elim (Bool-cases (str_eq kind type_a)) [
    | inl e ↦
        let q = str_eq→eq kind type_a e in
        subst (λ k. HasForm k value) (sym q)
          (a_form value (parse_ip value) refl
            (subst (λ k. validate_value parse_ip k value ≡ ok tt) q h))
    | inr not_a ↦ elim (Bool-cases (str_eq kind type_aaaa)) [
      | inl e ↦
          let q = str_eq→eq kind type_aaaa e in
          subst (λ k. HasForm k value) (sym q)
            (aaaa_form value (parse_ip value) refl
              (subst (λ k. validate_value parse_ip k value ≡ ok tt) q h))
      | inr not_aaaa ↦
          let q = str_eq→eq kind type_cname (ground (arith, known, not_a, not_aaaa)) in
          subst (λ k. HasForm k value) (sym q)
            (cname_form value (subst (λ k. validate_value parse_ip k value ≡ ok tt) q h))
    ]
  ]

  -- An override that says one thing: no answer at all, or a change of an answer that there is.
  pub record IsSensible (r : Record) (o : VlanOverride) : Type 0 where
    pub declared : any (str_eq o.vlan) vlans ≡ true
    -- NXDOMAIN stands alone.
    pub alone : (o.nxdomain && (not (is_empty o.value) || not (o.ttl == 0))) ≡ false
    -- Another override has a value, its own or the record's.
    pub answers : (not o.nxdomain && (is_empty o.value && is_empty r.base)) ≡ false
    pub valid : check_value parse_ip r o ≡ ok tt

  check_override-IsSensible :
      (r : Record) (o : VlanOverride) (seen : List GoString)
      → check_override parse_ip r vlans o seen ≡ ok tt
      → IsSensible r o × (any (str_eq o.vlan) seen ≡ false)
  unfolding check_override
  check_override-IsSensible r o seen h = elim (Result-cases (check_value parse_ip r o)) [
    | inl (failure, bad) ↦ let impossible : ⊥ = ground (arith, bad) in absurd impossible
    | inr (passed, good) ↦ (
      record {
        declared = ground (arith, good);
        alone = ground (arith, good);
        answers = ground (arith, good);
        valid = good;
      },
      ground (arith, good),
    )
  ]

  after-overrides : List VlanOverride → List GoString → List GoString
  after-overrides [] seen = seen
  after-overrides (o ∷ os) seen = after-overrides os (o.vlan ∷ seen)

  overrides-Fresh :
      (r : Record) (os : List VlanOverride) (seen : List GoString)
      → validate_overrides parse_ip r vlans os seen ≡ ok tt
      → All (IsSensible r) os × Fresh seen (override_vlans os) (after-overrides os seen)
  unfolding validate_overrides after-overrides
  overrides-Fresh r [] seen h = (tt, done)
  overrides-Fresh r (o ∷ os) seen h =
      let (u, first, rest) = >>=-eq-ok (check_override parse_ip r vlans o seen) _ h in
      let (sensible, fresh) = check_override-IsSensible r o seen first in
      let (all, more) = overrides-Fresh r os (o.vlan ∷ seen) rest in
      ((sensible, all), new fresh more)

  -- A record that has its value from the configuration.
  pub record IsStatic (r : Record) : Type 0 where
    pub known_type : one_of r.kind (type_a ∷ type_aaaa ∷ type_cname ∷ []) ≡ true
    pub unselected : r.selector ≡ none
    pub base_valid :
        (if is_empty r.base then ok tt else validate_value parse_ip r.kind r.base) ≡ ok tt
    pub sensible : All (IsSensible r) r.overrides
    -- The values are of the form that the type asks for.
    pub base_form : (is_empty r.base ≡ true) ⊎ HasForm r.kind r.base
    pub forms :
        All
          (λ o. (o.nxdomain ≡ true) ⊎ (is_empty o.value ≡ true) ⊎ HasForm r.kind o.value)
          r.overrides
    pub one_each : Distinct (override_vlans r.overrides)
    -- A value stands in the record or in one of its overrides.
    pub answerable : (is_empty r.base && not (any_override_provides_value r)) ≡ false

  -- A record that has its value from mDNS: a selector, and nothing else.
  pub record IsLive (r : Record) : Type 0 where
    pub selects : (s : Selector) × (r.selector ≡ some s) × (is_zero s ≡ false)
    pub bare : (not (is_empty r.base) || (not (r.ttl == 0) || not (is_nil r.overrides))) ≡ false

  base_form-of :
      (r : Record)
      → one_of r.kind (type_a ∷ type_aaaa ∷ type_cname ∷ []) ≡ true
      → (if is_empty r.base then ok tt else validate_value parse_ip r.kind r.base) ≡ ok tt
      → (is_empty r.base ≡ true) ⊎ HasForm r.kind r.base
  base_form-of r known good = elim (Bool-cases (is_empty r.base)) [
    | inl blank ↦ inl blank
    | inr there ↦ inr (validate_value-HasForm r.kind r.base known (rw there at good))
  ]

  override_form :
      (r : Record) (o : VlanOverride)
      → one_of r.kind (type_a ∷ type_aaaa ∷ type_cname ∷ []) ≡ true
      → check_value parse_ip r o ≡ ok tt
      → (o.nxdomain ≡ true) ⊎ (is_empty o.value ≡ true) ⊎ HasForm r.kind o.value
  unfolding check_value
  override_form r o known good = elim (Bool-cases o.nxdomain) [
    | inl denied ↦ inl denied
    | inr kept ↦ elim (Bool-cases (is_empty o.value)) [
      | inl blank ↦ inr (inl blank)
      | inr there ↦
          inr
            (inr (validate_value-HasForm r.kind o.value known (ground (arith, kept, there, good))))
    ]
  ]

  check_static-IsStatic : (r : Record) → check_static parse_ip r vlans ≡ ok tt → IsStatic r
  unfolding check_static
  check_static-IsStatic r h = elim (Option-cases r.selector) [
    | inr (s, there) ↦ let impossible : ⊥ = ground (arith, there) in absurd impossible
    | inl none_there ↦
        elim (Result-cases
          (if is_empty r.base then ok tt else validate_value parse_ip r.kind r.base)) [
            | inl (failure, bad) ↦
                let impossible : ⊥ = ground (arith, none_there, bad) in absurd impossible
            | inr (passed, base_good) ↦
                elim (Result-cases (validate_overrides parse_ip r vlans r.overrides [])) [
                  | inl (failure, bad) ↦
                      let impossible : ⊥ = ground (arith, none_there, base_good, bad) in
                      absurd impossible
                  | inr (all, good) ↦
                      let (sensible, fresh) = overrides-Fresh r r.overrides [] good in
                      let known : one_of r.kind (type_a ∷ type_aaaa ∷ type_cname ∷ []) ≡ true =
                        ground (arith, none_there, base_good, good) in
                      record {
                        known_type = known;
                        base_form = base_form-of r known base_good;
                        forms =
                            All_weaken (IsSensible r) _ r.overrides
                              (λ o sensible. override_form r o known sensible.valid) sensible;
                        unselected = none_there;
                        base_valid = base_good;
                        sensible = sensible;
                        one_each = Fresh-Distinct fresh;
                        answerable = ground (arith, none_there, base_good, good);
                      }
                ]
          ]
  ]

  check_selector-IsLive :
      (r : Record) (o : Option Selector)
      → r.selector ≡ o
      → check_selector r vlans o ≡ ok tt
      → IsLive r
  unfolding check_selector
  check_selector-IsLive r none e h = let impossible : ⊥ = cc in absurd impossible
  check_selector-IsLive r (some s) e h = record {
    selects = (s, e, ground arith);
    bare = ground arith;
  }

  -- What is known of one record that is accepted.
  pub record IsSound (r : Record) : Type 0 where
    pub parses : parse_domain_name parse_ip r.name ≡ ok (normalized_name r.name)
    pub owned : in_any_zone (normalized_name r.name) zones ≡ true
    pub kind : ((is_mdns r ≡ true) × IsLive r) ⊎ ((is_mdns r ≡ false) × IsStatic r)

  module _ (no_dot : (t : GoString) → parse_ip (t ++ codes ".") ≡ none) where
    check_record-IsSound :
        (r : Record) (seen : List GoString) {seen' : List GoString}
        → check_record parse_ip vlans zones r seen ≡ ok seen'
        → IsSound r × (any (str_eq (record_key r)) seen ≡ false) × (record_key r ∷ seen ≡ seen')
    unfolding check_record
    check_record-IsSound r seen {seen'} h =
        elim (Result-cases (parse_domain_name parse_ip r.name)) [
          | inl (failure, bad) ↦ let impossible : ⊥ = ground (arith, bad) in absurd impossible
          | inr (canonical, good) ↦
              let same_name = (parse_domain_name-IsCanonical parse_ip r.name no_dot good).1 in
              elim (Result-cases (
                if is_mdns r
                then check_selector r vlans r.selector
                else check_static parse_ip r vlans)) [
                  | inl (failure, bad) ↦
                      let impossible : ⊥ = ground (arith, good, bad) in absurd impossible
                  | inr (passed, checked) ↦ (
                    record {
                      parses = good ∙ ap ok (sym same_name);
                      owned = ground (arith, good, checked);
                      kind = elim (Bool-cases (is_mdns r)) [
                        | inl live ↦
                            inl (live, check_selector-IsLive r r.selector refl (rw live at checked))
                        | inr static ↦ inr (static, check_static-IsStatic r (rw static at checked))
                      ];
                    },
                    ground (arith, good, checked),
                    ground (arith, good, checked),
                  )
                ]
        ]

    records_from-IsSound :
        (rs : List Record) (seen : List GoString) {seen' : List GoString}
        → validate_records_from parse_ip vlans zones rs seen ≡ ok seen'
        → All IsSound rs × Fresh seen (map record_key rs) seen'
    unfolding validate_records_from
    records_from-IsSound [] seen e = (tt, subst (λ s. Fresh seen [] s) (ok-injective e) done)
    records_from-IsSound (r ∷ rs) seen e =
        let (s, first, rest) = >>=-eq-ok (check_record parse_ip vlans zones r seen) _ e in
        let (sound, fresh, grown) = check_record-IsSound r seen first in
        let (all, more) = records_from-IsSound rs s rest in
        ((sound, all), new fresh (rw grown more))

-- Given that net.ParseIP reads no text that ends with a dot: of records that are accepted no two
-- have the same name in its normal form and the same type, and every one lies in an owned zone. A record of type mdns has a
-- selector that selects, and nothing static. Any other has one of the types that the server
-- answers, and its values and its overrides' have the form for it: an IPv4 address, an IPv6 address,
-- or a domain name. It has at most one override for a VLAN and none for a VLAN that is not declared;
-- each override that does not deny the name has a value, its own or the record's; and the record or
-- an override has one.
pub validate_records-IsSound :
    (parse_ip : GoString → Option Ip) (rs : List Record) (vlans : List Vlan) (zones : List GoString)
    {keys : List GoString}
    → ((t : GoString) → parse_ip (t ++ codes ".") ≡ none)
    → validate_records parse_ip rs vlans zones ≡ ok keys
    → All (IsSound parse_ip (vlan_names vlans) zones) rs × Distinct (map record_key rs)
unfolding validate_records
validate_records-IsSound parse_ip rs vlans zones no_dot e =
    let (all, fresh) = records_from-IsSound parse_ip (vlan_names vlans) zones no_dot rs [] e in
    (all, Fresh-Distinct fresh)
