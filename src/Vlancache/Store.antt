-- ===== src/Vlancache/Store.antt =====
-- plugins/vlancache/store.go: the two tiers of the cache.
pub mod Scoped
pub mod Buckets
pub mod Flush
pub mod Members
pub mod Epoch
mod Tests
use mathlib.Core.List.{Memᴰ}
use bramble_gate.Prelude.{
  ℕ, suc, ◌+◌, ◌≡◌, ◌≢◌, ◌⊎◌, Bool, true, false, ◌&&◌, ◌||◌, not, Option, none, some, List, [], ◌∷◌,
  ◌++◌, ℕ_discrete, length, select, count, is_nil, ltb, leb, ◌==◌, if◌then◌else◌, inc64, GoString,
  Ip, IpNet, net_contains, mask_size, lookup, insert, delete, same, IpNet-discrete, written_net,
}
use bramble_gate.Prelude.Int.{ℤ, ◌-ℤ◌, pos, ltb_ℤ, leb_ℤ}
use bramble_gate.Dns.{Library}
use bramble_gate.Vlancache.Entry.{Entry, remaining, depends_on}

-- `maxScopedPerKey`
abbrev pub max_scoped_per_key : ℕ
max_scoped_per_key = 16

-- `scopedEntry`
pub record ScopedEntry (Rr : Type 0) : Type 0 where
  pub prefix : IpNet
  pub e : Entry Rr

-- `store`. The direct tier is a map of coredns' plugin/pkg/cache.
pub record Store (Rr : Type 0) : Type 0 where
  pub direct : List (ℕ × Entry Rr)
  pub scoped : List (ℕ × List (ScopedEntry Rr))
  pub epoch : ℕ

-- `Cache.Add` of plugin/pkg/cache: the element is kept under its key, and what else the map then
-- holds it held before (others may be evicted).
pub record IsCacheAdd {E : Type 0} (add : ℕ → E → List (ℕ × E) → List (ℕ × E)) : Type 0 where
  pub added : (k : ℕ) (e : E) (m : List (ℕ × E)) → lookup ℕ_discrete k (add k e m) ≡ some e
  pub elements :
      (k : ℕ) (e : E) (m : List (ℕ × E)) (p : ℕ × E) → Memᴰ p (add k e m) → (p ≡ (k, e)) ⊎ Memᴰ p m

module _ {Rr : Type 0} where
  -- Within its TTL, or expired by at most the stale window.
  unfoldable pub is_fresh : Entry Rr → ℤ → Bool
  unfolding remaining
  is_fresh e now = ltb_ℤ (pos 0) (remaining e now)

  unfoldable pub in_grace : Entry Rr → ℤ → ℤ → Bool
  unfolding remaining
  in_grace e now stale_ttl = ltb_ℤ (pos 0) stale_ttl && leb_ℤ (pos 0 -ℤ remaining e now) stale_ttl

  -- The entry with its freshness, or nothing.
  unfoldable pub served : Entry Rr → ℤ → ℤ → Option (Entry Rr × Bool)
  served e now stale_ttl =
      if is_fresh e now
      then some (e, true)
      else if in_grace e now stale_ttl
      then some (e, false)
      else none

  -- `getDirect`
  unfoldable pub get_direct : Store Rr → ℕ → ℤ → ℤ → Option (Entry Rr × Bool)
  get_direct s key now stale_ttl = elim (lookup ℕ_discrete key s.direct) [
    | none ↦ none
    | some e ↦ served e now stale_ttl
  ]

  -- `setDirect`, given `Cache.Add`
  unfoldable pub set_direct :
      (ℕ → Entry Rr → List (ℕ × Entry Rr) → List (ℕ × Entry Rr))
      → Store Rr
      → ℕ
      → Entry Rr
      → Store Rr
  set_direct add s key e = record s { direct = add key e s.direct }

  -- `generation`, `invalidate` and `ifCurrent`
  abbrev pub generation : Store Rr → ℕ
  generation s = s.epoch

  unfoldable pub invalidate : Store Rr → Store Rr
  invalidate s = record s { epoch = inc64 s.epoch }

  unfoldable pub if_current : ℕ → (Store Rr → Store Rr) → Store Rr → Store Rr
  if_current gen f s = if s.epoch == gen then f s else s

  -- `m[k]` of the scoped tier, an empty slice on a missing key
  unfoldable pub bucket : Store Rr → ℕ → List (ScopedEntry Rr)
  bucket s key = elim (lookup ℕ_discrete key s.scoped) [ none ↦ [] | some es ↦ es ]

  -- Is the new candidate better than the best so far?
  unfoldable pub improves : Option (ScopedEntry Rr × Bool) → ScopedEntry Rr → Bool → Bool
  improves none se fresh = true
  improves (some (best, best_fresh)) se fresh =
      (fresh && not best_fresh)
      || ((if fresh then best_fresh else not best_fresh)
          && ltb (mask_size best.prefix) (mask_size se.prefix))

  -- The round of the loop in `getScoped`.
  unfoldable pub consider :
      Ip → ℤ → ℤ → ScopedEntry Rr → Option (ScopedEntry Rr × Bool) → Option (ScopedEntry Rr × Bool)
  unfolding improves
  consider ip now stale_ttl se best =
      if not (is_fresh se.e now) && not (in_grace se.e now stale_ttl)
      then best
      else if not (net_contains se.prefix ip)
      then best
      else if improves best se (is_fresh se.e now)
      then some (se, is_fresh se.e now)
      else best

  unfoldable pub best_of :
      Ip
      → ℤ
      → ℤ
      → List (ScopedEntry Rr)
      → Option (ScopedEntry Rr × Bool)
      → Option (ScopedEntry Rr × Bool)
  best_of ip now stale_ttl [] best = best
  best_of ip now stale_ttl (se ∷ ses) best =
      best_of ip now stale_ttl ses (consider ip now stale_ttl se best)

  -- `getScoped`
  unfoldable pub get_scoped : Store Rr → ℕ → Option Ip → ℤ → ℤ → Option (Entry Rr × Bool)
  get_scoped s key none now stale_ttl = none
  get_scoped s key (some ip) now stale_ttl = elim (best_of ip now stale_ttl (bucket s key) none) [
    | none ↦ none
    | some (se, fresh) ↦ some (se.e, fresh)
  ]

  -- The loop of `setScoped`: the slice with the entry replaced, if one has the same prefix.
  unfoldable pub replace_prefix :
      IpNet → Entry Rr → List (ScopedEntry Rr) → Option (List (ScopedEntry Rr))
  replace_prefix prefix e [] = none
  replace_prefix prefix e (se ∷ ses) =
      if same IpNet-discrete (written_net se.prefix) (written_net prefix)
      then some (record { prefix = prefix; e = e } ∷ ses)
      else elim (replace_prefix prefix e ses) [ none ↦ none | some r ↦ some (se ∷ r) ]

  -- `entries[1:]`
  abbrev pub drop_oldest : List (ScopedEntry Rr) → List (ScopedEntry Rr)
  drop_oldest [] = []
  drop_oldest (se ∷ ses) = ses

  -- The new bucket of `setScoped`.
  unfoldable pub put_scoped : IpNet → Entry Rr → List (ScopedEntry Rr) → List (ScopedEntry Rr)
  put_scoped prefix e entries = elim (replace_prefix prefix e entries) [
    | some r ↦ r
    | none ↦
        (if leb max_scoped_per_key (length entries) then drop_oldest entries else entries)
        ++ (record { prefix = prefix; e = e } ∷ [])
  ]

  -- `setScoped`
  unfoldable pub set_scoped : Store Rr → ℕ → IpNet → Entry Rr → Store Rr
  set_scoped s key prefix e = record s {
    scoped = insert ℕ_discrete key (put_scoped prefix e (bucket s key)) s.scoped;
  }

  -- The entries of a tier of slices.
  unfoldable pub count_scoped : List (ℕ × List (ScopedEntry Rr)) → ℕ
  count_scoped [] = 0
  count_scoped ((k, es) ∷ m) = length es + count_scoped m

  -- `clear`
  unfoldable pub clear : Store Rr → Store Rr × ℕ
  unfolding invalidate count_scoped
  clear s =
      (record (invalidate s) { direct = []; scoped = [] }, length s.direct + count_scoped s.scoped)

  module _ (dns : Library Rr) where
    -- The walk over the direct tier in `clearName`: what stays, and how many were dropped.
    unfoldable pub walk_direct : GoString → List (ℕ × Entry Rr) → List (ℕ × Entry Rr) × ℕ
    walk_direct qname m =
        (select (λ p. not (depends_on dns p.1 qname)) m, count (λ p. depends_on dns p.1 qname) m)

    -- The loop over the scoped tier in `clearName`. A key whose slice is emptied is deleted.
    unfoldable pub walk_scoped :
        GoString → List (ℕ × List (ScopedEntry Rr)) → List (ℕ × List (ScopedEntry Rr)) × ℕ
    walk_scoped qname [] = ([], 0)
    walk_scoped qname ((k, es) ∷ m) =
        let kept = select (λ se. not (depends_on dns se.e qname)) es in
        let (rest, n) = walk_scoped qname m in
        (
          if is_nil kept then rest else (k, kept) ∷ rest,
          count (λ se. depends_on dns se.e qname) es + n,
        )

    -- `clearName`
    unfoldable pub clear_name : Store Rr → GoString → Store Rr × ℕ
    unfolding invalidate walk_direct walk_scoped
    clear_name s qname =
        let (direct, n) = walk_direct qname s.direct in
        let (scoped, k) = walk_scoped qname s.scoped in
        (record (invalidate s) { direct = direct; scoped = scoped }, n + k)
