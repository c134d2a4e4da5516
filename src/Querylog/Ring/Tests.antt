-- ===== src/Querylog/Ring/Tests.antt =====
-- plugins/querylog/ring.go: tests, and the ring's theorems at concrete inputs.
use bramble_gate.Prelude.{
  ℕ, ◌≡◌, refl, none, some, [], ◌∷◌, length, take, select, arith, codes, contains, to_lower,
  has_prefix, string_discrete,
}
use bramble_gate.Prelude.Int.{◌-ℤ◌, ◌+ℤ◌, rem}
use bramble_gate.Querylog.Entry.{Entry, zero_entry}
use bramble_gate.Querylog.Ring.{
  Ring, Filter, contains_fold, matches, new_ring, push, read_back, snapshot_from, snapshot,
  push_all,
}
use bramble_gate.Querylog.Ring.Refine.{
  IsValid, contents, logged, push_refines, snapshot_lem, push_all_refines,
}

program : Unit {0}
unfolding contains_fold matches new_ring push read_back snapshot_from snapshot push_all contains
    to_lower has_prefix string_discrete ◌-ℤ◌ ◌+ℤ◌ rem
program = tt

abbrev query : ℕ → Entry
query n = record zero_entry { qtype = n; qname = codes "Printer.home.arpa." }

abbrev two_slots : Ring
two_slots = record { buf = zero_entry ∷ zero_entry ∷ []; head = 0; size = 0 }

-- After three pushes into two slots.
abbrev wrapped : Ring
wrapped = record { buf = query 3 ∷ query 2 ∷ []; head = 1; size = 2 }

abbrev everything : Filter
everything = record { qname = []; client = []; vlan = []; qtype = 0 }

abbrev home_only : Filter
home_only = record { qname = codes "HOME"; client = []; vlan = []; qtype = 2 }

new_ring_two : new_ring 2 ≡ two_slots
unfolding program
new_ring_two = refl

push_three : push_all two_slots (query 1 ∷ query 2 ∷ query 3 ∷ []) ≡ some wrapped
unfolding program
push_three = refl

snapshot_all : snapshot wrapped everything ≡ some (query 3 ∷ query 2 ∷ [])
unfolding program
snapshot_all = refl

snapshot_home : snapshot wrapped home_only ≡ some (query 2 ∷ [])
unfolding program
snapshot_home = refl

-- A ring without slots panics on the first push.
push_empty : push (record { buf = []; head = 0; size = 0 }) (query 1) ≡ none
unfolding program
push_empty = refl

wrapped-IsValid : IsValid wrapped
wrapped-IsValid = omega arith

push_refines_example :
    (r' : Ring) × (push wrapped (query 4) ≡ some r')
    × IsValid r'
    × (length r'.buf ≡ length wrapped.buf)
    × (contents r' ≡ take (length wrapped.buf) (query 4 ∷ contents wrapped))
push_refines_example = push_refines wrapped (query 4) wrapped-IsValid

snapshot_lem_example :
    snapshot wrapped home_only ≡ some (select (matches home_only) (contents wrapped))
snapshot_lem_example = snapshot_lem wrapped home_only wrapped-IsValid

push_all_refines_example :
    (r' : Ring) × (push_all wrapped (query 4 ∷ query 5 ∷ []) ≡ some r')
    × IsValid r'
    × (contents r' ≡ logged (length wrapped.buf) (contents wrapped) (query 4 ∷ query 5 ∷ []))
push_all_refines_example = push_all_refines (query 4 ∷ query 5 ∷ []) wrapped wrapped-IsValid
