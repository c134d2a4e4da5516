-- ===== src/Localrecords/Answers/Tests.antt =====
-- plugins/localrecords/handler.go: tests of the answers, and the theorems at concrete inputs.
use bramble_gate.Prelude.{
  ℕ, ◌<◌, ◌≡◌, ◌≢◌, refl, sym, subst, true, false, Option, none, some, List, [], ◌∷◌, arith, codes,
  string_discrete, str_eq, lookup, if◌then◌else◌, GoString, Ip,
}
use bramble_gate.Dns.{type_a, type_cname, type_aaaa}
use bramble_gate.Localrecords.{
  Entry, LocalRecords, Rr, a, cname, effective, override_answer, records_of,
}
use bramble_gate.Localrecords.Answers.{
  name_present, first_cname, rr_for, record_answers, own_answers, build_answers,
}
use bramble_gate.Localrecords.Answers.Laws.{
  Alias, build_answers-absent, build_answers-total, build_answers-loop,
}

program : Unit {0}
unfolding name_present first_cname rr_for record_answers own_answers build_answers effective
    override_answer records_of lookup string_discrete
program = tt

abbrev www : GoString
www = codes "www.lan."

abbrev printer : GoString
printer = codes "printer.lan."

abbrev loop : GoString
loop = codes "loop.lan."

abbrev address : Entry
address = record {
  rtype = type_a;
  def = codes "10.1.0.9";
  ttl = 0;
  overrides = (codes "guest", record { value = []; ttl = 0; nxdomain = true }) ∷ [];
  ddr_priority = 0;
  ddr_target = [];
  ddr_params = [];
}

abbrev alias_to : GoString → Entry
alias_to target = record address { rtype = type_cname; def = target; overrides = [] }

abbrev served : LocalRecords
served = record {
  zones = codes "lan." ∷ [];
  fallthrough_zones = [];
  default_ttl = 60;
  vlans = [];
  records = (www, alias_to printer ∷ []) ∷ (printer, address ∷ []) ∷ [];
}

abbrev looping : LocalRecords
looping = record served { records = (loop, alias_to loop ∷ []) ∷ [] }

abbrev parse_ip : GoString → Option Ip
parse_ip s = some (Ip.v4 0x0a010009)

abbrev parse_port : GoString → Option ℕ
parse_port s = none

-- An alias and the address that it leads to, in one reply.
www_address :
    build_answers parse_ip parse_port 2 served www type_a []
    ≡ some (cname www 60 printer ∷ a printer 60 0x0a010009 ∷ [])
unfolding program
www_address = refl

-- The guests' network is denied the printer, and finds the alias alone.
www_guest :
    build_answers parse_ip parse_port 2 served www type_a (codes "guest")
    ≡ some (cname www 60 printer ∷ [])
unfolding program
www_guest = refl

printer_guest : name_present served printer (codes "guest") ≡ false
unfolding program
printer_guest = refl

build_answers-absent_example :
    build_answers parse_ip parse_port 1 served printer type_aaaa (codes "guest") ≡ some []
build_answers-absent_example =
    build_answers-absent parse_ip parse_port 0 served printer type_aaaa (codes "guest")
      printer_guest

loop-Alias : Alias looping [] loop loop
unfolding program
loop-Alias = (60, refl)

build_answers-loop_example : build_answers parse_ip parse_port 1000 looping loop type_a [] ≡ none
build_answers-loop_example = build_answers-loop parse_ip parse_port looping [] loop loop-Alias 1000

abbrev rank : GoString → ℕ
rank name = if str_eq name www then 1 else 0

www_target : (target : GoString) → Alias served [] www target → printer ≡ target
unfolding program
www_target target (ttl, h) = cc h

printer_target : (target : GoString) → ¬ Alias served [] printer target
unfolding program
printer_target target (ttl, h) = cc h

other_target :
    (name target : GoString) → name ≢ www → name ≢ printer → ¬ Alias served [] name target
unfolding first_cname records_of lookup
other_target name target p q (ttl, h) = ground arith

www-rank : rank printer < rank www
unfolding string_discrete
www-rank = omega arith

falls : (name target : GoString) → Alias served [] name target → rank target < rank name
falls name target h = elim (string_discrete name www) [
  | yes e ↦
      subst (λ t. rank t < rank name)
        (www_target target (subst (λ n. Alias served [] n target) e h))
        (subst (λ n. rank printer < rank n) (sym e) www-rank)
  | no e ↦ elim (string_discrete name printer) [
    | yes f ↦ absurd (printer_target target (subst (λ n. Alias served [] n target) f h))
    | no f ↦ absurd (other_target name target e f h)
  ]
]

www_fuel : rank www < 2
unfolding string_discrete
www_fuel = omega arith

build_answers-total_example :
    (rrs : List Rr) × (build_answers parse_ip parse_port 2 served www type_a [] ≡ some rrs)
build_answers-total_example =
    build_answers-total parse_ip parse_port served [] rank falls 2 www type_a www_fuel
