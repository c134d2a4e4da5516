-- ===== src/Configgen/Zones/Beside.antt =====
-- internal/configgen/configgen.go: the records made for the server's own name, beside those
-- declared.
use bramble_gate.Prelude.{
  ℕ, ◌+◌, ◌≤◌, ◌≡◌, refl, ◌⊎◌, sym, ap, ap₂, ◌∙◌, inl, inr, Bool-cases, Bool, true, false, ◌&&◌,
  not, List, [], ◌∷◌, ◌++◌, map, length, any, select, count, count_none, count-append, All,
  All-append, is_nil, GoString, codes, str_eq, str_eq→eq, str_eq_refl, is_empty, arith, subst,
}
use bramble_gate.Prelude.Distinct.{Distinct}
use bramble_gate.Model.Domain.{normalized_name}
use bramble_gate.Model.Settings.{Settings, Record, is_mdns, type_a, type_aaaa}
use bramble_gate.Configgen.Records.{any_override_provides_value, provides_value, record_key}
use bramble_gate.Configgen.Zones.{
  SelfIps, VlanAddrs, normalized_acme_domain, family_overrides, sorted_vlan_names, family_record,
  build_family_record, declared_has, unless_declared, acme_self_records, static_records,
}

-- A record has this normalised name and this type.
abbrev pub has_key : GoString → GoString → Record → Bool
has_key name kind r = str_eq (normalized_name r.name) name && str_eq r.kind kind

key_of :
    (name kind : GoString) (r : Record)
    → has_key name kind r ≡ true
    → record_key r ≡ name ++ (codes "/" ++ kind)
key_of name kind r e =
    ap₂ (λ n k. n ++ (codes "/" ++ k)) (str_eq→eq (normalized_name r.name) name (ground (arith, e)))
      (str_eq→eq r.kind kind (ground (arith, e)))

met_key :
    (name kind : GoString) (r : Record)
    → has_key name kind r ≡ true
    → str_eq (name ++ (codes "/" ++ kind)) (record_key r) ≡ true
met_key name kind r e = rw (key_of name kind r e) (str_eq_refl (name ++ (codes "/" ++ kind)))

none_counted :
    (name kind : GoString) (rs : List Record)
    → any (str_eq (name ++ (codes "/" ++ kind))) (map record_key rs) ≡ false
    → count (has_key name kind) rs ≡ 0
none_counted name kind [] h = refl
none_counted name kind (r ∷ rs) h = elim (Bool-cases (has_key name kind r)) [
  | inl e ↦ let impossible : ⊥ = ground (arith, h, met_key name kind r e) in absurd impossible
  | inr e ↦ ground (arith, e, none_counted name kind rs)
]

pub once_counted :
    (name kind : GoString) (rs : List Record)
    → Distinct (map record_key rs)
    → count (has_key name kind) rs ≤ 1
once_counted name kind [] d = omega arith
once_counted name kind (r ∷ rs) d = elim (Bool-cases (has_key name kind r)) [
  | inl e ↦
      let apart =
        subst (λ k. any (str_eq k) (map record_key rs) ≡ false) (key_of name kind r e) d.0 in
      ground (arith, e, none_counted name kind rs apart)
  | inr e ↦ ground (arith, e, once_counted name kind rs d.1)
]

select_counted : (p q : Record → Bool) (rs : List Record) → count p (select q rs) ≤ count p rs
select_counted p q [] = omega arith
select_counted p q (r ∷ rs) = ground (arith, select_counted p q rs)

-- A value stands in the record or in one of its overrides.
abbrev pub ProvidesValue : Record → Type 0
ProvidesValue r = (is_empty r.base && not (any_override_provides_value r)) ≡ false

overrides_provide :
    (family : Bool) (m : List (GoString × VlanAddrs)) (vlans : List GoString)
    → any provides_value (family_overrides family m vlans)
      ≡ not (is_nil (family_overrides family m vlans))
unfolding family_overrides
overrides_provide family m [] = refl
overrides_provide family m (vlan ∷ vlans) = ground (arith, overrides_provide family m vlans)

family_record-ProvidesValue :
    (name kind : GoString) (ips : SelfIps) (family : Bool)
    → (is_empty (family_record name kind ips family).base
        && is_nil (family_record name kind ips family).overrides)
      ≡ false
    → ProvidesValue (family_record name kind ips family)
unfolding family_record any_override_provides_value
family_record-ProvidesValue name kind ips family h =
    ground (arith, overrides_provide family ips.per_vlan (sorted_vlan_names ips.per_vlan))

-- Records of one type beside those declared: answerable, and no key of theirs is declared.
record IsBeside (declared : List Record) (kind : GoString) (l : List Record) : Type 0 where
  answerable : All ProvidesValue l
  once :
      (n k : GoString)
      → (count (has_key n k) l ≡ 0)
        ⊎ ((k ≡ kind) × (count (has_key n k) l ≤ 1) × (count (has_key n k) declared ≡ 0))

none-IsBeside : (declared : List Record) (kind : GoString) → IsBeside declared kind []
none-IsBeside declared kind = record { answerable = tt; once = λ n k. inl refl }

one-IsBeside :
    (declared : List Record) (r : Record)
    → ProvidesValue r
    → declared_has declared (normalized_name r.name) r.kind ≡ false
    → IsBeside declared r.kind (r ∷ [])
unfolding declared_has
one-IsBeside declared r a free = record {
  answerable = (a, tt);
  once = λ n k. elim (Bool-cases (has_key n k r)) [
    | inr e ↦ inl (ground (arith, e))
    | inl e ↦
        let name = str_eq→eq (normalized_name r.name) n (ground (arith, e)) in
        let kind = str_eq→eq r.kind k (ground (arith, e)) in
        inr (
          sym kind,
          ground (arith, e),
          rw (← name, ← kind) (count_none (has_key (normalized_name r.name) r.kind) declared free),
        )
  ];
}

family-IsBeside :
    (declared : List Record) (name kind : GoString) (ips : SelfIps) (family : Bool)
    → (is_empty (family_record name kind ips family).base
        && is_nil (family_record name kind ips family).overrides)
      ≡ false
    → declared_has declared (normalized_name name) kind ≡ false
    → IsBeside declared kind (family_record name kind ips family ∷ [])
unfolding family_record
family-IsBeside declared name kind ips family valued free =
    one-IsBeside declared (family_record name kind ips family)
      (family_record-ProvidesValue name kind ips family valued) free

self-IsBeside :
    (declared : List Record) (name kind : GoString) (ips : SelfIps) (family : Bool)
    → IsBeside declared kind
        (unless_declared declared name kind (build_family_record name kind ips family))
unfolding build_family_record
self-IsBeside declared name kind ips family =
    let rec = family_record name kind ips family in
    elim (Bool-cases (is_empty rec.base && is_nil rec.overrides)) [
      | inl nothing ↦ rw nothing (none-IsBeside declared kind)
      | inr some_value ↦ elim (Bool-cases (declared_has declared (normalized_name name) kind)) [
        | inl there ↦ rw (some_value, there) (none-IsBeside declared kind)
        | inr free ↦
            rw (some_value, free) (family-IsBeside declared name kind ips family some_value free)
      ]
    ]

-- What is relied on of the records of the zone data beside those declared.
pub record IsJoinable (declared l : List Record) : Type 0 where
  pub answerable : All ProvidesValue l
  pub once :
      (n k : GoString)
      → count (has_key n k) declared ≤ 1
      → count (has_key n k) declared + count (has_key n k) l ≤ 1

types_differ : (k : GoString) → k ≡ type_a → k ≡ type_aaaa → ⊥
types_differ k a b =
    let same_type : type_a ≡ type_aaaa = sym a ∙ b in
    let same_length : ◌≡◌ {A = ℕ} 1 4 = ap length same_type in absurd (omega arith)

join :
    (declared first second : List Record)
    → IsBeside declared type_a first
    → IsBeside declared type_aaaa second
    → IsJoinable declared (first ++ second)
join declared first second va vb = record {
  answerable = All-append ProvidesValue first second va.answerable vb.answerable;
  once = λ n k h. elim (va.once n k) [
    | inl none_a ↦ elim (vb.once n k) [
      | inl none_b ↦ omega (arith, count-append (has_key n k) first second)
      | inr (is_b, one, free) ↦ omega (arith, count-append (has_key n k) first second)
    ]
    | inr (is_a, one, free) ↦ elim (vb.once n k) [
      | inl none_b ↦ omega (arith, count-append (has_key n k) first second)
      | inr (is_b, one_b, free_b) ↦ absurd (types_differ k is_a is_b)
    ]
  ];
}

pub acme-IsJoinable :
    (s : Settings) (declared : List Record) (ips : SelfIps)
    → IsJoinable declared (acme_self_records s declared ips)
unfolding acme_self_records
acme-IsJoinable s declared ips = elim (Bool-cases (is_empty (normalized_acme_domain s))) [
  | inl off ↦ rw off (record { answerable = tt; once = λ n k h. omega arith })
  | inr on ↦ rw on (
      join declared _ _ (self-IsBeside declared _ type_a ips true)
        (self-IsBeside declared _ type_aaaa ips false))
]

pub static_counted :
    (s : Settings) (rs : List Record) (ips : SelfIps) (n k : GoString)
    → count (has_key n k) rs ≤ 1
    → count (has_key n k) (static_records s rs ips) ≤ 1
unfolding static_records
static_counted s rs ips n k h = omega (
  arith,
  count-append (has_key n k) (select (λ r. not (is_mdns r)) rs) (acme_self_records s rs ips),
  select_counted (has_key n k) (λ r. not (is_mdns r)) rs,
  (acme-IsJoinable s rs ips).once n k h,
)
