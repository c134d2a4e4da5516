-- ===== src/Querylog/Handler/Laws.antt =====
-- plugins/querylog/handler.go: what is recorded of every query. `Store.Record` is of store.go.
use bramble_gate.Prelude.{
  ℕ, ◌+◌, ◌<◌, ◌≤◌, ◌++◌, [], if◌then◌else◌, ◌≡◌, Bool, false, Option, none, some, ◌∷◌, length,
  GoString, is_empty,
}
use bramble_gate.Prelude.Int.{ℤ, pos}
use bramble_gate.Dns.{Library, Msg}
use bramble_gate.Querylog.Entry.{Entry}
use bramble_gate.Querylog.Handler.{Buffer}

-- What becomes of an entry in the store: it waits in the write channel, behind what waits there, or
-- is dropped and counted if the channel is full. There may be no store.
abbrev pub IsHandedOver : Entry → Option Buffer → Option Buffer → Type 0
IsHandedOver e none none = Unit
IsHandedOver e none (some c) = ⊥
IsHandedOver e (some b) none = ⊥
IsHandedOver e (some b) (some c) =
    (length b.pending < b.capacity → (c.pending ≡ b.pending ++ (e ∷ [])) × (c.dropped ≡ b.dropped))
    × (b.capacity ≤ length b.pending → (c.pending ≡ b.pending) × (c.dropped ≡ b.dropped + 1))

-- An entry that says where its answer came from and what the cache did.
pub record IsComplete (e : Entry) : Type 0 where
  pub has_source : is_empty e.source ≡ false
  pub has_outcome : is_empty e.cache_outcome ≡ false

module _ {Rr : Type 0} (dns : Library Rr) (client_write : ℤ → Bool)
    (type_to_string : ℕ → GoString) where
  -- The code of the message written, and else the one returned, if coredns lets it stand.
  abbrev pub code_of : Option (Msg Rr) → ℤ → ℤ
  code_of (some m) returned = m.rcode
  code_of none returned = if client_write returned then pos 0 else returned
