-- ===== src/Vlancache/Handler/Fetch.antt =====
-- plugins/vlancache/handler.go: an answer fetched is in the cache afterwards.
use bramble_gate.Prelude.{ℕ, ◌≡◌, ◌⊎◌, true, some, List, IpNet, mask_size, select, not, ◌==◌, ◌≤◌}
use bramble_gate.Prelude.Int.{ℤ}
use mathlib.Core.List.{Memᴰ}
use bramble_gate.Dns.{Library, Msg, type_opt}
use bramble_gate.Vlancache.Entry.{Entry}
use bramble_gate.Vlancache.Policy.{Upstream, ttl_for, scope_prefix}
use bramble_gate.Vlancache.Store.{ScopedEntry, Store, IsCacheAdd, get_scoped, get_direct, bucket}
use bramble_gate.Vlancache.Store.Buckets.{find}
use bramble_gate.Vlancache.Handler.{VlanCache, Call}

module _ {Rr : Type 0} where
  -- The scoped tier of a bucket answers with an entry stored for the prefix, or with a fresh one
  -- that is stored for a prefix at least as long.
  abbrev pub Prefers : List (ScopedEntry Rr) → IpNet → Entry Rr → Entry Rr → Type 0
  Prefers entries p e d =
      (find p entries ≡ some e)
      × (b : ScopedEntry Rr) × (b.e ≡ d)
      × Memᴰ b entries
      × (mask_size p ≤ mask_size b.prefix)

module _ {Rr : Type 0} (dns : Library Rr) (up : Upstream Rr)
    (add : ℕ → Entry Rr → List (ℕ × Entry Rr) → List (ℕ × Entry Rr)) (adds : IsCacheAdd add) where
  abbrev pub without_opt : List Rr → List Rr
  without_opt rrs = select (λ rr. not (dns.rr_type rr == type_opt)) rrs

  -- An entry that keeps an answer: its code, its flags and its three sections without OPT records.
  abbrev pub Keeps : Msg Rr → Entry Rr → Type 0
  Keeps res e =
      (e.rcode ≡ res.rcode)
      × (e.authenticated_data ≡ res.authenticated_data)
      × (e.recursion_available ≡ res.recursion_available)
      × (e.answer ≡ without_opt res.answer)
      × (e.ns ≡ without_opt res.ns)
      × (e.extra ≡ without_opt res.extra)

  -- Where the entry of an answer is found: in the direct tier, or, if the upstream echoed a scope,
  -- stored for it in the scoped tier, which then answers with it or with a fresh entry that is
  -- stored for a prefix at least as long.
  abbrev pub IsFresh : Store Rr → Call Rr → Msg Rr → ℤ → ℤ → Entry Rr → Type 0
  IsFresh s call res t stale_ttl e =
      ((p : IpNet) × (d : Entry Rr) × (scope_prefix dns up res call.ip ≡ some p)
        × (get_scoped s call.scoped_key call.ip t stale_ttl ≡ some (d, true))
        × Prefers (bucket s call.scoped_key) p e d)
      ⊎ (get_direct s call.direct_key t stale_ttl ≡ some (e, true))

  abbrev pub FreshHit : Store Rr → Call Rr → Msg Rr → ℤ → ℤ → Type 0
  FreshHit s call res t stale_ttl = (e : Entry Rr) × Keeps res e × IsFresh s call res t stale_ttl e

  -- The lifetime that the answer to a call is cached for.
  abbrev pub lifetime : VlanCache → Call Rr → Msg Rr → ℤ
  lifetime c call res = ttl_for dns up c.fail_ttl res (up.typify res call.now)
