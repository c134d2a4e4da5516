-- ===== src/Localrecords/Setup/Configured.antt =====
-- internal/configgen and plugins/localrecords: what a client is answered, against the configuration.
use bramble_gate.Prelude.{
  ℕ, ◌≡◌, refl, ap, subst, ◌∙◌, inl, inr, Bool-cases, false, ◌&&◌, not, Option, none, some, List,
  [], ◌∷◌, map, any, All, ◌==◌, GoString, str_eq, str_eq→eq, str_eq_refl, is_empty, arith,
  string_discrete, if◌then◌else◌, lookup, lookup-insert,
}
use bramble_gate.Prelude.Ascending.{str_eq_comm_false}
use bramble_gate.Prelude.Distinct.{Distinct}
use bramble_gate.Dns.{type_cname}
use bramble_gate.Localrecords.{
  LocalRecords, Entry, Override, effective, override_answer, base_answer,
}
use bramble_gate.Localrecords.Setup.{normalize_value, load_overrides, entry_of}
use bramble_gate.Model.Settings.{Record, VlanOverride}
use bramble_gate.Configgen.Records.Accepted.{override_vlans}
use bramble_gate.Localrecords.Setup.Loads.{wire_override, wire_record}

-- The override that a record has for a VLAN; a client without a VLAN has none.
abbrev find_override : GoString → List VlanOverride → Option VlanOverride
find_override vlan [] = none
find_override vlan (o ∷ os) = if str_eq vlan o.vlan then some o else find_override vlan os

abbrev pub override_for : GoString → Record → Option VlanOverride
override_for vlan r = if is_empty vlan then none else find_override vlan r.overrides

-- The TTL of a record: its own, or the server's.
abbrev pub record_ttl : ℕ → Record → ℕ
record_ttl default r = if r.ttl == 0 then default else r.ttl

-- What the configuration says that a client is answered: the value and the TTL, or nothing.
abbrev pub configured :
    (GoString → GoString) → ℕ → Record → Option VlanOverride → Option (GoString × ℕ)
configured value default r none =
    if is_empty r.base then none else some (value r.base, record_ttl default r)
configured value default r (some o) =
    if o.nxdomain
    then none
    else some (
      value (if is_empty o.value then r.base else o.value),
      if o.ttl == 0 then record_ttl default r else o.ttl,
    )

find_absent :
    (vlan : GoString) (os : List VlanOverride)
    → any (str_eq vlan) (override_vlans os) ≡ false
    → find_override vlan os ≡ none
find_absent vlan [] h = refl
find_absent vlan (o ∷ os) h = ground (arith, find_absent vlan os)

module _ (canonical_name : GoString → GoString) (parse_port : GoString → Option ℕ) where
  -- A value as it is served: the name that a CNAME record points to in its canonical form.
  abbrev pub served : ℕ → GoString → GoString
  served rtype v = if rtype == type_cname then canonical_name v else v

  loaded_override : ℕ → VlanOverride → Override
  loaded_override rtype o = record {
    value = normalize_value canonical_name parse_port rtype o.value;
    ttl = o.ttl;
    nxdomain = o.nxdomain;
  }

  abbrev found_or : ℕ → Option VlanOverride → Option Override → Option Override
  found_or rtype none before = before
  found_or rtype (some o) before = some (loaded_override rtype o)

  -- With one override for a VLAN at most, the map that is built has it under the VLAN.
  lookup-load_overrides :
      (rtype : ℕ) (vlan : GoString) (os : List VlanOverride) (m : List (GoString × Override))
      → Distinct (override_vlans os)
      → lookup string_discrete vlan
          (load_overrides canonical_name parse_port rtype (map wire_override os) m)
        ≡ found_or rtype (find_override vlan os) (lookup string_discrete vlan m)
  unfolding load_overrides loaded_override
  lookup-load_overrides rtype vlan [] m d = refl
  lookup-load_overrides rtype vlan (o ∷ os) m d =
      lookup-load_overrides rtype vlan os _ d.1
      ∙ (ap (found_or rtype (find_override vlan os)) (lookup-insert string_discrete o.vlan vlan _ m)
          ∙ (elim (Bool-cases (str_eq o.vlan vlan)) [
            | inl same_vlan ↦ rw same_vlan (
                subst
                  (λ k.
                    found_or rtype (find_override k os) (some (loaded_override rtype o))
                    ≡ found_or rtype (find_override k (o ∷ os)) (lookup string_discrete k m))
                  (str_eq→eq o.vlan vlan same_vlan)
                  (rw (find_absent o.vlan os d.0) (rw (str_eq_refl o.vlan) refl)))
            | inr apart ↦ rw apart (rw (str_eq_comm_false o.vlan vlan apart) refl)
          ]))

  -- dns.CanonicalName of a name that is not empty is not empty.
  abbrev pub Names : Type 0
  Names = (t : GoString) → is_empty t ≡ false → is_empty (canonical_name t) ≡ false

  -- An override that gives an answer or denies one.
  abbrev pub Decides : Record → VlanOverride → Type 0
  Decides r o = (not o.nxdomain && (is_empty o.value && is_empty r.base)) ≡ false

  find_override-Decides :
      (r : Record) (vlan : GoString) (os : List VlanOverride) {o : VlanOverride}
      → All (Decides r) os
      → find_override vlan os ≡ some o
      → Decides r o
  find_override-Decides r vlan [] h e = absurd (cc)
  find_override-Decides r vlan (first ∷ os) {o = o} h e =
      elim (Bool-cases (str_eq vlan first.vlan)) [
        | inl yes_it ↦
            let same_one : first ≡ o = ground (arith, e, yes_it) in subst (Decides r) same_one h.0
        | inr no_it ↦ find_override-Decides r vlan os {o = o} h.1 (ground (arith, e, no_it))
      ]

  normalize_value-served :
      (rtype : ℕ) (v : GoString)
      → is_empty v ≡ false
      → normalize_value canonical_name parse_port rtype v ≡ served rtype v
  unfolding normalize_value
  normalize_value-served rtype v h = rw h refl

  normalize_value-empty :
      (rtype : ℕ) (v : GoString)
      → Names
      → is_empty (normalize_value canonical_name parse_port rtype v) ≡ is_empty v
  unfolding normalize_value
  normalize_value-empty rtype [] names = refl
  normalize_value-empty rtype (c ∷ v) names = elim (Bool-cases (rtype == type_cname)) [
    | inl e ↦ rw e (names (c ∷ v) refl)
    | inr e ↦ rw e refl
  ]

  abbrev pub loaded : ℕ → Record → Entry
  loaded rtype r = entry_of canonical_name parse_port rtype (wire_record r)

  module _ (names : Names) (lr : LocalRecords) (rtype : ℕ) (r : Record) where
    base_configured :
        base_answer lr (loaded rtype r) ≡ configured (served rtype) lr.default_ttl r none
    unfolding entry_of
    base_configured = elim (Bool-cases (is_empty r.base)) [
      | inl e ↦ rw (normalize_value-empty rtype r.base names) (rw e refl)
      | inr e ↦
          rw (normalize_value-empty rtype r.base names)
            (rw e (rw (normalize_value-served rtype r.base e) refl))
    ]

    override_configured :
        (o : VlanOverride)
        → Decides r o
        → override_answer lr (loaded rtype r) (loaded_override rtype o)
          ≡ configured (served rtype) lr.default_ttl r (some o)
    unfolding entry_of override_answer loaded_override
    override_configured o d = elim (Bool-cases o.nxdomain) [
      | inl denied ↦ rw (denied, override_answer) refl
      | inr given ↦ elim (Bool-cases (is_empty o.value)) [
        | inr own ↦
            rw (given, override_answer)
              (rw (normalize_value-empty rtype o.value names) (
                rw own (
                  rw (normalize_value-empty rtype o.value names)
                    (rw own (rw (normalize_value-served rtype o.value own) refl)))))
        | inl inherited ↦
            let has_base : is_empty r.base ≡ false = ground (arith, d, given, inherited) in
            rw (given, override_answer)
              (rw (normalize_value-empty rtype o.value names) (
                rw inherited (
                  rw (normalize_value-empty rtype r.base names)
                    (rw has_base (rw (normalize_value-served rtype r.base has_base) refl)))))
      ]
    ]

    -- What the plugin answers from a record that was accepted is what the configuration says.
    pub effective-configured :
        (vlan : GoString)
        → Distinct (override_vlans r.overrides)
        → All (Decides r) r.overrides
        → effective lr (loaded rtype r) vlan
          ≡ configured (served rtype) lr.default_ttl r (override_for vlan r)
    unfolding effective lookup entry_of
    effective-configured vlan distinct decides = elim (Bool-cases (is_empty vlan)) [
      | inl anyone ↦ rw (anyone, effective) base_configured
      | inr named ↦
          rw (named, effective)
            (rw (lookup-load_overrides rtype vlan r.overrides [] distinct) (
              by_override (find_override vlan r.overrides)
                (λ o e. find_override-Decides r vlan r.overrides decides e)))
    ]
      where
        by_override :
            (f : Option VlanOverride)
            → ((o : VlanOverride) → f ≡ some o → Decides r o)
            → (elim (found_or rtype f none) as (λ _. Option (GoString × ℕ)) [
              | some ov ↦ override_answer lr (loaded rtype r) ov
              | none ↦ base_answer lr (loaded rtype r)
            ])
              ≡ configured (served rtype) lr.default_ttl r f
        by_override none h = base_configured
        by_override (some o) h = override_configured o (h o refl)
