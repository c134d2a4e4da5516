-- ===== src/Querylog/Ring.antt =====
-- plugins/querylog/ring.go: the filter and the fixed-capacity ring of entries.
-- An index out of range is a run-time panic, `none` here.
pub mod Refine
mod Tests
use bramble_gate.Prelude.{
  ℕ, zero, suc, ◌+◌, ◌%◌, Bool, true, false, ◌&&◌, ◌||◌, not, Option, none, some, List, [], ◌∷◌,
  GoString, is_empty, str_eq, to_lower, contains, length, get_elem?, set, replicate, ltb, ◌==◌,
  if◌then◌else◌,
}
use bramble_gate.Prelude.Options.{◌>>=◌}
use bramble_gate.Prelude.Int.{ℤ, pos, negsuc, ◌+ℤ◌, ◌-ℤ◌, rem}
use bramble_gate.Querylog.Entry.{Entry, zero_entry}

-- `Filter`; a zero value constrains nothing.
pub record Filter : Type 0 where
  pub qname : GoString
  pub client : GoString
  pub vlan : GoString
  pub qtype : ℕ

-- `containsFold`
unfoldable pub contains_fold : GoString → GoString → Bool
contains_fold s substr = contains (to_lower s) (to_lower substr)

-- `Filter.matches`
unfoldable pub matches : Filter → Entry → Bool
matches f e =
    if not (is_empty f.qname) && not (contains_fold e.qname f.qname)
    then false
    else if not (is_empty f.client) && not (contains_fold e.client.ip f.client)
    then false
    else if not (is_empty f.vlan) && not (str_eq e.client.vlan f.vlan)
    then false
    else if not (f.qtype == 0) && not (e.qtype == f.qtype)
    then false
    else true

-- `Ring`: `head` is the index that the next push writes, `size` the number of valid entries.
pub record Ring : Type 0 where
  pub buf : List Entry
  pub head : ℕ
  pub size : ℕ

-- `NewRing`
unfoldable pub new_ring : ℕ → Ring
new_ring capacity = record { buf = replicate capacity zero_entry; head = 0; size = 0 }

-- `Ring.Cap`
abbrev pub cap : Ring → ℕ
cap r = length r.buf

-- `Ring.Push`
unfoldable pub push : Ring → Entry → Option Ring
push r e =
    if ltb r.head (length r.buf)
    then some (record r {
      buf = set r.buf r.head e;
      head = (r.head + 1) % length r.buf;
      size = if ltb r.size (length r.buf) then r.size + 1 else r.size;
    })
    else none

-- `buf[i]` at a signed index
abbrev index_at : List Entry → ℤ → Option Entry
index_at buf (pos i) = get_elem? buf i
index_at buf (negsuc i) = none

-- The entry that round `i` of the loop in `Snapshot` reads. The remainder by an empty buffer
-- panics in Go, and reads nothing here.
unfoldable pub read_back : Ring → ℕ → Option Entry
read_back r i =
    index_at r.buf (rem (pos r.head -ℤ pos 1 -ℤ pos i +ℤ pos (length r.buf)) (length r.buf))

-- The loop of `Snapshot` from round `i` on, with `n` rounds left.
unfoldable pub snapshot_from : Ring → Filter → ℕ → ℕ → Option (List Entry)
snapshot_from r f i zero = some []
snapshot_from r f i (suc n) = do
  e ← read_back r i
  rest ← snapshot_from r f (i + 1) n
  some (if matches f e then e ∷ rest else rest)

-- `Ring.Snapshot`
unfoldable pub snapshot : Ring → Filter → Option (List Entry)
snapshot r f = snapshot_from r f 0 r.size

-- The pushes of a run of queries, in order.
unfoldable pub push_all : Ring → List Entry → Option Ring
push_all r [] = some r
push_all r (e ∷ es) = do r' ← push r e; push_all r' es
