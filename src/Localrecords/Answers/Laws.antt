-- ===== src/Localrecords/Answers/Laws.antt =====
-- plugins/localrecords/handler.go: when `buildAnswers` returns, and that an absent name has no
-- answer of any type.
use bramble_gate.Prelude.{
  ℕ, zero, suc, ◌<◌, ◌≡◌, refl, inl, inr, false, ◌||◌, Option, none, some, List, [], ◌∷◌, any,
  arith, ◌==◌, Bool-cases, Option-cases, GoString, Ip,
}
use bramble_gate.Dns.{type_a, type_aaaa}
use bramble_gate.Localrecords.{Entry, LocalRecords, Rr, cname, records_of}
use bramble_gate.Localrecords.Answers.{
  answers_for, name_present, first_cname, record_answers, own_answers, build_answers,
}

-- A CNAME found for a VLAN points from its name to its target.
abbrev pub Alias : LocalRecords → GoString → GoString → GoString → Type 0
Alias lr vlan name target =
    (ttl : ℕ) × (first_cname lr vlan (records_of lr name) ≡ some (target, ttl))

first_cname_absent :
    (lr : LocalRecords) (vlan : GoString) (rcs : List Entry)
    → any (answers_for lr vlan) rcs ≡ false
    → first_cname lr vlan rcs ≡ none
unfolding first_cname
first_cname_absent lr vlan [] h = refl
first_cname_absent lr vlan (rc ∷ rcs) h = ground (arith, first_cname_absent lr vlan rcs)

module _ (parse_ip : GoString → Option Ip) (parse_port : GoString → Option ℕ) where
  own_absent :
      (lr : LocalRecords) (qname : GoString) (qtype : ℕ) (vlan : GoString) (rcs : List Entry)
      → any (answers_for lr vlan) rcs ≡ false
      → own_answers parse_ip parse_port lr qname qtype vlan rcs ≡ []
  unfolding own_answers record_answers
  own_absent lr qname qtype vlan [] h = refl
  own_absent lr qname qtype vlan (rc ∷ rcs) h = ground (arith, own_absent lr qname qtype vlan rcs)

  -- A name that `namePresent` reports absent for a VLAN has no answer there of any type, so that
  -- NXDOMAIN, which denies every type, is right for it.
  pub build_answers-absent :
      (fuel : ℕ) (lr : LocalRecords) (qname : GoString) (qtype : ℕ) (vlan : GoString)
      → name_present lr qname vlan ≡ false
      → build_answers parse_ip parse_port (suc fuel) lr qname qtype vlan ≡ some []
  unfolding build_answers name_present
  build_answers-absent fuel lr qname qtype vlan h = ground (
    arith,
    first_cname_absent lr vlan (records_of lr qname) h,
    own_absent lr qname qtype vlan (records_of lr qname) h,
  )

  -- `buildAnswers` returns if some measure falls along every CNAME record of the VLAN: then more
  -- rounds than the name's measure are enough.
  pub build_answers-total :
      (lr : LocalRecords) (vlan : GoString) (rank : GoString → ℕ)
      → ((name target : GoString) → Alias lr vlan name target → rank target < rank name)
      → (fuel : ℕ) (qname : GoString) (qtype : ℕ) → rank qname < fuel
      → (rrs : List Rr) × (build_answers parse_ip parse_port fuel lr qname qtype vlan ≡ some rrs)
  unfolding build_answers
  build_answers-total lr vlan rank falls zero qname qtype h = absurd (omega arith)
  build_answers-total lr vlan rank falls (suc fuel) qname qtype h =
      elim (Option-cases (first_cname lr vlan (records_of lr qname))) [
        | inl e ↦ (
          own_answers parse_ip parse_port lr qname qtype vlan (records_of lr qname),
          ground arith,
        )
        | inr ((target, ttl), e) ↦ elim (Bool-cases (qtype == type_a || qtype == type_aaaa)) [
          | inl q ↦
              let (rest, r) =
                build_answers-total lr vlan rank falls fuel target qtype
                  (omega (arith, falls qname target (ttl, e))) in
              (cname qname ttl target ∷ rest, ground arith)
          | inr q ↦ (cname qname ttl target ∷ [], ground arith)
        ]
      ]

  -- A CNAME record that points to its own name makes an address query recurse without an end: no
  -- number of rounds is enough.
  pub build_answers-loop :
      (lr : LocalRecords) (vlan name : GoString)
      → Alias lr vlan name name
      → (fuel : ℕ) → build_answers parse_ip parse_port fuel lr name type_a vlan ≡ none
  unfolding build_answers
  build_answers-loop lr vlan name h zero = refl
  build_answers-loop lr vlan name (ttl, h) (suc fuel) =
      let k = build_answers-loop lr vlan name (ttl, h) fuel in ground arith
