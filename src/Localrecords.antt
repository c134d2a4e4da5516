-- ===== src/Localrecords.antt =====
-- plugins/localrecords: the authoritative answers for the owned zones, by the client's VLAN.
pub mod Answers
pub mod Handler
pub mod Setup
use bramble_gate.Prelude.{
  ℕ, Bool, true, false, Option, none, some, List, [], ◌∷◌, ◌==◌, if◌then◌else◌, GoString, codes,
  str_eq, is_empty, string_discrete, lookup,
}
use bramble_gate.Prelude.Results.{Result, ok, err, ◌>>=◌}
use bramble_gate.Vlanmatch

-- `override`
pub record Override : Type 0 where
  pub value : GoString
  pub ttl : ℕ
  pub nxdomain : Bool

-- `wireDDRParam`
pub record DdrParam : Type 0 where
  pub key : GoString
  pub value : GoString

-- `record`; an empty `def` is no base answer, a zero TTL the server's default.
pub record Entry : Type 0 where
  pub rtype : ℕ
  pub def : GoString
  pub ttl : ℕ
  pub overrides : List (GoString × Override)
  pub ddr_priority : ℕ
  pub ddr_target : GoString
  pub ddr_params : List DdrParam

-- `LocalRecords`
pub record LocalRecords : Type 0 where
  pub zones : List GoString
  pub fallthrough_zones : List GoString
  pub default_ttl : ℕ
  pub vlans : Vlanmatch.Table
  pub records : List (GoString × List Entry)

-- dns.SVCBKeyValue, of the kinds that the plugin makes
pub data SvcbValue : Type 0 where
  alpn : List GoString → SvcbValue
  port : ℕ → SvcbValue
  doh_path : GoString → SvcbValue

-- dns.RR, of the kinds that the plugin makes: the name, the TTL and the data. Addresses are those
-- of `To4` and `To16`.
pub data Rr : Type 0 where
  a : GoString → ℕ → ℕ → Rr
  aaaa : GoString → ℕ → ℕ → Rr
  cname : GoString → ℕ → GoString → Rr
  svcb : GoString → ℕ → ℕ → GoString → List SvcbValue → Rr
  soa : GoString → ℕ → Rr

-- `buildSVCBValue`'s errors
pub data DdrError : Type 0 where
  bad_port : GoString → DdrError
  unsupported_key : GoString → DdrError

-- strings.Split at a comma; `part` is what came since the last one.
abbrev split_from : GoString → GoString → List GoString
split_from part [] = part ∷ []
split_from part (c ∷ s) =
    if c == b',' then part ∷ split_from [] s else split_from (append_byte part c) s
  where
    append_byte : GoString → ℕ → GoString
    append_byte [] d = d ∷ []
    append_byte (x ∷ xs) d = x ∷ append_byte xs d

-- `buildSVCBValue`, given strconv.ParseUint for 16 bits.
module _ (parse_port : GoString → Option ℕ) where
  unfoldable pub build_svcb_value : DdrParam → Result DdrError SvcbValue
  build_svcb_value p =
      if str_eq p.key (codes "alpn")
      then ok (alpn (split_from [] p.value))
      else if str_eq p.key (codes "port")
      then elim (parse_port p.value) [ none ↦ err (bad_port p.value) | some n ↦ ok (port n) ]
      else if str_eq p.key (codes "dohpath")
      then ok (doh_path p.value)
      else err (unsupported_key p.key)

  -- The loop of `buildSVCB`.
  unfoldable pub build_values : List DdrParam → Result DdrError (List SvcbValue)
  build_values [] = ok []
  build_values (p ∷ ps) = do v ← build_svcb_value p; vs ← build_values ps; ok (v ∷ vs)

  -- `buildSVCB`
  unfoldable pub build_svcb : Entry → GoString → ℕ → Result DdrError Rr
  build_svcb rc qname ttl = do
    vs ← build_values rc.ddr_params
    ok (svcb qname ttl rc.ddr_priority rc.ddr_target vs)

-- The TTL of a record, the server's if it has none.
abbrev pub base_ttl : LocalRecords → Entry → ℕ
base_ttl lr rc = if rc.ttl == 0 then lr.default_ttl else rc.ttl

abbrev pub base_answer : LocalRecords → Entry → Option (GoString × ℕ)
base_answer lr rc = if is_empty rc.def then none else some (rc.def, base_ttl lr rc)

-- The answer of an override.
unfoldable pub override_answer : LocalRecords → Entry → Override → Option (GoString × ℕ)
override_answer lr rc ov =
    if ov.nxdomain
    then none
    else (let v = if is_empty ov.value then rc.def else ov.value in
        if is_empty v then none else some (v, if ov.ttl == 0 then base_ttl lr rc else ov.ttl))

-- `effective`
unfoldable pub effective : LocalRecords → Entry → GoString → Option (GoString × ℕ)
unfolding override_answer
effective lr rc vlan =
    if is_empty vlan then base_answer lr rc else elim (lookup string_discrete vlan rc.overrides) [
      | some ov ↦ override_answer lr rc ov
      | none ↦ base_answer lr rc
    ]

-- `lr.records[qname]`
unfoldable pub records_of : LocalRecords → GoString → List Entry
records_of lr qname = elim (lookup string_discrete qname lr.records) [ none ↦ [] | some es ↦ es ]
