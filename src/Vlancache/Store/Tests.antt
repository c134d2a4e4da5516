-- ===== src/Vlancache/Store/Tests.antt =====
-- plugins/vlancache/store.go: tests, and the theorems at concrete inputs.
use bramble_gate.Prelude.{
  ℕ, ◌*◌, ◌+◌, ◌≡◌, ◌≢◌, refl, ◌⊎◌, Bool, [], ◌∷◌, true, false, none, some, codes, arith,
  ℕ_discrete, Unique, lookup, select, inc64, string_discrete, net_contains, IpNet, written_net,
  to_lower, insert,
}
use bramble_gate.Prelude.Int.{pos, ◌-ℤ◌}
use bramble_gate.Vlancache.Entry.{Entry, second, depends_on}
use bramble_gate.Vlancache.Store.{
  Store, bucket, get_scoped, is_fresh, in_grace, consider, best_of, improves, set_scoped,
  put_scoped, replace_prefix, clear_name, walk_direct, walk_scoped, invalidate, if_current,
  set_direct,
}
use bramble_gate.Vlancache.Store.Scoped.{IsBest, get_scoped-IsBest}
use bramble_gate.Vlancache.Store.Buckets.{HasValidBuckets, IsOldest, find, set_scoped_lem}
use bramble_gate.Vlancache.Store.Flush.{surviving, independent, size, clear_name_lem}
use bramble_gate.Vlancache.Store.Epoch.{
  visit, Step, Steps, DirectSince, ScopedSince, flush_name_lem,
}
use bramble_gate.Vlancache.Examples.{
  Record, dns, add, add-IsCacheAdd, printer, camera, requester, lan, wide, empty, filled,
}

program : Unit {0}
unfolding get_scoped bucket best_of consider improves is_fresh in_grace lookup net_contains ◌-ℤ◌
    set_scoped put_scoped replace_prefix insert clear_name walk_direct walk_scoped depends_on
    string_discrete
program = tt

-- The longest prefix that contains the address.
get_scoped_longest : get_scoped filled 3 (some requester) (pos 0) (pos 0) ≡ some (printer, true)
unfolding program
get_scoped_longest = refl

-- An entry expired for 10 seconds, with and without a stale window.
get_scoped_expired : get_scoped filled 3 (some requester) (pos (310 * second)) (pos 0) ≡ none
unfolding program
get_scoped_expired = refl

get_scoped_stale :
    get_scoped filled 3 (some requester) (pos (310 * second)) (pos (60 * second))
    ≡ some (printer, false)
unfolding program
get_scoped_stale = refl

get_scoped-IsBest_example :
    IsBest requester
      (pos 0)
      (pos 0)
      (bucket filled 3)
      (get_scoped filled 3 (some requester) (pos 0) (pos 0))
get_scoped-IsBest_example = get_scoped-IsBest requester (pos 0) (pos 0) filled 3

empty-HasValidBuckets : HasValidBuckets empty
unfolding bucket lookup
empty-HasValidBuckets key = record { bounded = omega arith; distinct = tt }

abbrev one : Store Record
one = set_scoped empty 3 wide camera

one-HasValidBuckets : HasValidBuckets one
one-HasValidBuckets = (set_scoped_lem empty 3 wide camera empty-HasValidBuckets).0

set_scoped_lem_example :
    let s' = set_scoped one 3 lan printer in
    HasValidBuckets s'
    × (find lan (bucket s' 3) ≡ some printer)
    × ((q : IpNet)
        → written_net lan ≢ written_net q
        → (find q (bucket s' 3) ≡ find q (bucket one 3)) ⊎ IsOldest q (bucket one 3))
    × ((j : ℕ) → 3 ≢ j → bucket s' j ≡ bucket one j)
set_scoped_lem_example = set_scoped_lem one 3 lan printer one-HasValidBuckets

direct-Unique : Unique ℕ_discrete filled.direct
unfolding lookup ℕ_discrete
direct-Unique = (refl, (refl, tt))

scoped-Unique : Unique ℕ_discrete filled.scoped
unfolding lookup ℕ_discrete
scoped-Unique = (refl, (refl, tt))

clear_printer : (clear_name dns filled (codes "printer.lan.")).1 ≡ 3
unfolding program to_lower
clear_printer = refl

clear_name_lem_example :
    let (s', n) = clear_name dns filled (codes "printer.lan.") in
    ((k : ℕ)
      → lookup ℕ_discrete k s'.direct
        ≡ surviving dns (codes "printer.lan.") (lookup ℕ_discrete k filled.direct))
    × ((k : ℕ) → bucket s' k ≡ select (independent dns (codes "printer.lan.")) (bucket filled k))
    × (s'.epoch ≡ inc64 filled.epoch)
    × (n + size s' ≡ size filled)
clear_name_lem_example =
    clear_name_lem dns (codes "printer.lan.") filled direct-Unique scoped-Unique

-- A fetch that began in epoch 5 and ends between two visits of a flush's walk.
abbrev born : Entry Record → ℕ
born e = 5

abbrev drops : Entry Record → Bool
drops e = depends_on dns e (codes "printer.lan.")

abbrev late : Store Record
late = if_current 5 (λ t. set_direct add t 3 printer) (visit drops 3 (invalidate filled))

abbrev walked : Store Record
walked = visit drops 8 late

abbrev flushed : Store Record
flushed = record walked { scoped = (walk_scoped dns (codes "printer.lan.") walked.scoped).0 }

flush_name_lem_example :
    DirectSince dns add add-IsCacheAdd born (codes "printer.lan.") 6 flushed
    × ScopedSince dns add add-IsCacheAdd born (codes "printer.lan.") 6 flushed
unfolding invalidate
flush_name_lem_example =
    flush_name_lem dns add add-IsCacheAdd born (λ k. 0) (0 ∷ []) (codes "printer.lan.") filled
      walked flushed (λ k. refl) (omega arith)
      (
        invalidate filled,
        walked,
        3 ∷ 8 ∷ [],
        Steps.here,
        (refl, (refl, tt)),
        (
          invalidate filled,
          Steps.here,
          (late, Steps.next Steps.here (Step.finish_direct 3 printer), Steps.here),
        ),
        Steps.here,
      )
      Steps.here
