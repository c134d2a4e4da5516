-- ===== src/Vlancache/Store/Epoch/Kept.antt =====
-- plugins/vlancache/store.go and handler.go: the steps of goroutines on a store. Each step below is
-- atomic in the code: `ifCurrent` holds the epoch's lock, the walk of the scoped tier holds the
-- tier's, and the walk of the direct tier, the cache of coredns, locks for each key that it visits.
use mathlib.Core.List.Memᴰ
use mathlib.Core.List.{Memᴰ}
use bramble_gate.Prelude.{
  ℕ, Bool, ◌&&◌, not, select, ◌+◌, ◌^◌, ◌≤◌, ◌<◌, ◌≡◌, sym, subst, ◌⊎◌, inl, inr, true, List, [],
  mem-select, mem-insert, arith, Bool-cases, ◌==◌, ℕ_discrete, GoString, IpNet,
}
use bramble_gate.Dns.{Library}
use bramble_gate.Vlancache.Entry.{Entry, depends_on}
use bramble_gate.Vlancache.Store.Members.{put_cases, bucket_mem, walk_mem}
use bramble_gate.Vlancache.Store.{
  ScopedEntry, Store, IsCacheAdd, set_direct, set_scoped, if_current, invalidate, put_scoped,
  bucket, walk_scoped,
}

module _ {Rr : Type 0} where
  -- What the walk of the direct tier does at one key: the entry under it, if it is still there, is
  -- deleted if the test holds.
  abbrev pub visit : (Entry Rr → Bool) → ℕ → Store Rr → Store Rr
  visit drops key s = record s { direct = select (λ p. not (p.0 == key && drops p.1)) s.direct }

module _ {Rr : Type 0} (dns : Library Rr)
    (add : ℕ → Entry Rr → List (ℕ × Entry Rr) → List (ℕ × Entry Rr)) (adds : IsCacheAdd add)
    (born : Entry Rr → ℕ) where
  -- The steps of all goroutines on one store. `born e` is the epoch that the fetch of `e` read
  -- before it asked the upstream. Flushes are fewer than 2 ^ 64.
  pub data Step (s : Store Rr) : Store Rr → Type 0 where
    finish_direct :
        (key : ℕ) (e : Entry Rr) → Step s (if_current (born e) (λ t. set_direct add t key e) s)
    finish_scoped :
        (key : ℕ) (prefix : IpNet) (e : Entry Rr)
        → Step s (if_current (born e) (λ t. set_scoped t key prefix e) s)
    start_flush : s.epoch + 1 < 2 ^ 64 → Step s (invalidate s)
    flush_key : (name : GoString) (key : ℕ) → Step s (visit (λ e. depends_on dns e name) key s)
    clear_key : (key : ℕ) → Step s (visit (λ e. true) key s)
    flush_scoped :
        (name : GoString) → Step s (record s { scoped = (walk_scoped dns name s.scoped).0 })
    clear_scoped : Step s (record s { scoped = [] })

  pub data Steps (s : Store Rr) : Store Rr → Type 0 where
    here : Steps s s
    next : {t u : Store Rr} → Steps s t → Step t u → Steps s u

  -- An entry that depends on the name was fetched in epoch `g` or later.
  abbrev pub Since : GoString → ℕ → Entry Rr → Type 0
  Since name g e = depends_on dns e name ≡ true → g ≤ born e

  abbrev pub DirectSince : GoString → ℕ → Store Rr → Type 0
  DirectSince name g s = (p : ℕ × Entry Rr) → Memᴰ p s.direct → Since name g p.1

  -- The same of what stands under one key.
  abbrev pub KeySince : ℕ → GoString → ℕ → Store Rr → Type 0
  KeySince k name g s = (p : ℕ × Entry Rr) → Memᴰ p s.direct → p.0 ≡ k → Since name g p.1

  abbrev pub ScopedSince : GoString → ℕ → Store Rr → Type 0
  ScopedSince name g s =
      (p : ℕ × List (ScopedEntry Rr)) (se : ScopedEntry Rr)
      → Memᴰ p s.scoped
      → Memᴰ se p.1
      → Since name g se.e

  Step-epoch : {s t : Store Rr} → Step s t → s.epoch ≤ t.epoch
  unfolding if_current set_direct set_scoped invalidate
  Step-epoch (finish_direct key e) = ground arith
  Step-epoch (finish_scoped key prefix e) = ground arith
  Step-epoch (start_flush h) = omega arith
  Step-epoch (flush_key name key) = omega arith
  Step-epoch (clear_key key) = omega arith
  Step-epoch (flush_scoped name) = omega arith
  Step-epoch clear_scoped = omega arith

  -- A store through `ifCurrent` either changes nothing or has the epoch's own label.
  current-cases :
      (gen : ℕ) (f : Store Rr → Store Rr) (s : Store Rr)
      → (if_current gen f s ≡ s) ⊎ ((if_current gen f s ≡ f s) × (s.epoch ≡ gen))
  unfolding if_current
  current-cases gen f s = elim (Bool-cases (s.epoch == gen)) [
    | inl e ↦ inr (rw e, ground arith)
    | inr e ↦ inl (rw e)
  ]

  set_direct-Since :
      (k : ℕ) (name : GoString) (g key : ℕ) (e : Entry Rr) (s : Store Rr)
      → g ≤ born e
      → KeySince k name g s
      → KeySince k name g (set_direct add s key e)
  unfolding set_direct
  set_direct-Since k name g key e s h d p m same_key = elim (adds.elements key e s.direct p m) [
    | inl q ↦ λ _. subst (λ (x : ℕ × Entry Rr). g ≤ born x.1) (sym q) h
    | inr there ↦ d p there same_key
  ]

  pub visit-KeySince :
      (k : ℕ) (name : GoString) (g : ℕ) (drops : Entry Rr → Bool) (key : ℕ) (s : Store Rr)
      → KeySince k name g s
      → KeySince k name g (visit drops key s)
  visit-KeySince k name g drops key s d p m same_key = d p (mem-select _ s.direct m).0 same_key

  Step-KeySince :
      (k : ℕ) (name : GoString) (g : ℕ) {s t : Store Rr}
      → Step s t
      → g ≤ s.epoch
      → KeySince k name g s
      → KeySince k name g t
  unfolding invalidate
  Step-KeySince k name g {s} (finish_direct key e) h d =
      elim (current-cases (born e) (λ t. set_direct add t key e) s) [
        | inl q ↦ subst (KeySince k name g) (sym q) d
        | inr (q, w) ↦
            subst (KeySince k name g) (sym q) (set_direct-Since k name g key e s (omega arith) d)
      ]
  Step-KeySince k name g {s} (finish_scoped key prefix e) h d =
      elim (current-cases (born e) (λ t. set_scoped t key prefix e) s) [
        | inl q ↦ subst (KeySince k name g) (sym q) d
        | inr (q, w) ↦ subst (KeySince k name g) (sym q) (unfold set_scoped in d)
      ]
  Step-KeySince k name g (start_flush r) h d = d
  Step-KeySince k name g {s} (flush_key other key) h d =
      visit-KeySince k name g (λ e. depends_on dns e other) key s d
  Step-KeySince k name g {s} (clear_key key) h d = visit-KeySince k name g (λ e. true) key s d
  Step-KeySince k name g (flush_scoped other) h d = d
  Step-KeySince k name g clear_scoped h d = d

  -- Nothing that depends on the name stands under a key just visited.
  pub visited-KeySince :
      (k key : ℕ) (name : GoString) (g : ℕ) (s : Store Rr)
      → key == k ≡ true
      → KeySince k name g (visit (λ e. depends_on dns e name) key s)
  visited-KeySince k key name g s found p m same_key = λ dep.
      let kept = (mem-select _ s.direct m).1 in absurd (ground (arith, kept, dep, found, same_key))

  set_scoped-Since :
      (name : GoString) (g key : ℕ) (prefix : IpNet) (e : Entry Rr) (s : Store Rr)
      → g ≤ born e
      → ScopedSince name g s
      → ScopedSince name g (set_scoped s key prefix e)
  unfolding set_scoped
  set_scoped-Since name g key prefix e s h d p se m n =
      elim (mem-insert ℕ_discrete key (put_scoped prefix e (bucket s key)) s.scoped m) [
        | inl q ↦ elim (put_cases prefix e (bucket s key) se (subst (Memᴰ se) q n)) [
          | inl same_e ↦ λ _. subst (λ x. g ≤ born x) (sym same_e) h
          | inr k ↦ let (r, a, b) = bucket_mem s key se k in d r se a b
        ]
        | inr k ↦ d p se k n
      ]

  Step-ScopedSince :
      (name : GoString) (g : ℕ) {s t : Store Rr}
      → Step s t
      → g ≤ s.epoch
      → ScopedSince name g s
      → ScopedSince name g t
  unfolding invalidate
  Step-ScopedSince name g {s} (finish_direct key e) h d =
      elim (current-cases (born e) (λ t. set_direct add t key e) s) [
        | inl q ↦ subst (ScopedSince name g) (sym q) d
        | inr (q, w) ↦ subst (ScopedSince name g) (sym q) (unfold set_direct in d)
      ]
  Step-ScopedSince name g {s} (finish_scoped key prefix e) h d =
      elim (current-cases (born e) (λ t. set_scoped t key prefix e) s) [
        | inl q ↦ subst (ScopedSince name g) (sym q) d
        | inr (q, w) ↦
            subst (ScopedSince name g) (sym q)
              (set_scoped-Since name g key prefix e s (omega arith) d)
      ]
  Step-ScopedSince name g (start_flush r) h d = d
  Step-ScopedSince name g (flush_key other key) h d = d
  Step-ScopedSince name g (clear_key key) h d = d
  Step-ScopedSince name g {s} (flush_scoped other) h d =
      λ p se m n. let (q, a, b, c) = walk_mem dns other s.scoped m n in d q se a b
  Step-ScopedSince name g clear_scoped h d = λ p se m n. absurd (Memᴰ.not-nil m)

  pub flushed-ScopedSince :
      (name : GoString) (g : ℕ) (s : Store Rr)
      → ScopedSince name g (record s { scoped = (walk_scoped dns name s.scoped).0 })
  flushed-ScopedSince name g s p se m n =
      let (q, a, b, c) = walk_mem dns name s.scoped m n in λ dep. cc (c, dep)

  pub Steps-KeySince :
      (k : ℕ) (name : GoString) (g : ℕ) (s : Store Rr) {t : Store Rr}
      → Steps s t
      → g ≤ s.epoch
      → KeySince k name g s
      → KeySince k name g t × (g ≤ t.epoch)
  Steps-KeySince k name g s here h d = (d, h)
  Steps-KeySince k name g s (next r st) h d =
      let (a, b) = Steps-KeySince k name g s r h d in
      (Step-KeySince k name g st b a, omega (arith, Step-epoch st))

  pub Steps-ScopedSince :
      (name : GoString) (g : ℕ) (s : Store Rr) {t : Store Rr}
      → Steps s t
      → g ≤ s.epoch
      → ScopedSince name g s
      → ScopedSince name g t × (g ≤ t.epoch)
  Steps-ScopedSince name g s here h d = (d, h)
  Steps-ScopedSince name g s (next r st) h d =
      let (k, b) = Steps-ScopedSince name g s r h d in
      (Step-ScopedSince name g st b k, omega (arith, Step-epoch st))

  pub Steps-epoch : (s : Store Rr) {t : Store Rr} → Steps s t → s.epoch ≤ t.epoch
  Steps-epoch s here = omega arith
  Steps-epoch s (next r st) = omega (arith, Steps-epoch s r, Step-epoch st)

  pub epoch-invalidate : (s : Store Rr) → s.epoch + 1 < 2 ^ 64 → (invalidate s).epoch ≡ s.epoch + 1
  unfolding invalidate
  epoch-invalidate s room = omega arith
