-- ===== src/Localrecords/Answers.antt =====
-- plugins/localrecords/handler.go: `buildAnswers` and `namePresent`. The code follows CNAME records
-- without a bound. Here the recursion has fuel, and `none` says that it ran out.
pub mod Laws
mod Tests
use bramble_gate.Prelude.{
  ℕ, zero, suc, Bool, true, false, Option, none, some, List, [], ◌∷◌, ◌++◌, any, ◌==◌, ◌||◌,
  if◌then◌else◌, GoString, Ip, v4, v6,
}
use bramble_gate.Prelude.Results.{Result, ok, err}
use bramble_gate.Dns.{type_a, type_cname, type_aaaa, type_svcb}
use bramble_gate.Localrecords.{
  Entry, LocalRecords, Rr, a, aaaa, cname, build_svcb, base_ttl, effective, records_of,
}

-- `namePresent`
abbrev pub answers_for : LocalRecords → GoString → Entry → Bool
answers_for lr vlan rc =
    if rc.rtype == type_svcb
    then true
    else elim (effective lr rc vlan) [ none ↦ false | some _ ↦ true ]

unfoldable pub name_present : LocalRecords → GoString → GoString → Bool
name_present lr qname vlan = any (answers_for lr vlan) (records_of lr qname)

-- The first CNAME record that answers for the VLAN.
unfoldable pub first_cname : LocalRecords → GoString → List Entry → Option (GoString × ℕ)
first_cname lr vlan [] = none
first_cname lr vlan (rc ∷ rcs) =
    if rc.rtype == type_cname
    then elim (effective lr rc vlan) [ none ↦ first_cname lr vlan rcs | some p ↦ some p ]
    else first_cname lr vlan rcs

-- net.ParseIP and strconv.ParseUint are parameters.
module _ (parse_ip : GoString → Option Ip) (parse_port : GoString → Option ℕ) where
  -- `rrFor`
  unfoldable pub rr_for : GoString → ℕ → GoString → ℕ → Option Rr
  rr_for qname rtype value ttl =
      if rtype == type_a
      then elim (parse_ip value) [
        | some (v4 x) ↦ some (a qname ttl x)
        | some (v6 x) ↦ none
        | none ↦ none
      ]
      else if rtype == type_aaaa
      then elim (parse_ip value) [
        | some (v6 x) ↦ some (aaaa qname ttl x)
        | some (v4 x) ↦ none
        | none ↦ none
      ]
      else none

  abbrev pub of_option : Option Rr → List Rr
  of_option none = []
  of_option (some r) = r ∷ []

  -- What a record adds to the answers of its own type.
  unfoldable pub record_answers : LocalRecords → GoString → ℕ → GoString → Entry → List Rr
  record_answers lr qname qtype vlan rc =
      if rc.rtype == qtype
      then (if rc.rtype == type_svcb
          then elim (build_svcb parse_port rc qname (base_ttl lr rc)) [ err e ↦ [] | ok r ↦ r ∷ [] ]
          else elim (effective lr rc vlan) [
            | none ↦ []
            | some (value, ttl) ↦ of_option (rr_for qname qtype value ttl)
          ])
      else []

  -- The second loop of `buildAnswers`.
  unfoldable pub own_answers : LocalRecords → GoString → ℕ → GoString → List Entry → List Rr
  own_answers lr qname qtype vlan [] = []
  own_answers lr qname qtype vlan (rc ∷ rcs) =
      record_answers lr qname qtype vlan rc ++ own_answers lr qname qtype vlan rcs

  -- `buildAnswers`
  unfoldable pub build_answers : ℕ → LocalRecords → GoString → ℕ → GoString → Option (List Rr)
  build_answers zero lr qname qtype vlan = none
  build_answers (suc fuel) lr qname qtype vlan = elim (first_cname lr vlan (records_of lr qname)) [
    | none ↦ some (own_answers lr qname qtype vlan (records_of lr qname))
    | some (target, ttl) ↦
        if qtype == type_a || qtype == type_aaaa
        then elim (build_answers fuel lr target qtype vlan) [
          | none ↦ none
          | some rest ↦ some (cname qname ttl target ∷ rest)
        ]
        else some (cname qname ttl target ∷ [])
  ]
