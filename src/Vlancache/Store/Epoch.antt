-- ===== src/Vlancache/Store/Epoch.antt =====
-- plugins/vlancache/store.go and handler.go: fetches in flight against the walks of a flush.
mod Kept
pub use Kept.{visit, Step, Steps, DirectSince, ScopedSince}
use mathlib.Core.List.Memᴰ
use mathlib.Core.List.{Memᴰ}
use bramble_gate.Prelude.{
  ℕ, refl, Bool, false, ◌&&◌, ◌||◌, not, any, select, ◌∷◌, All, ◌+◌, ◌^◌, ◌≤◌, ◌<◌, ◌≡◌, sym, subst,
  ◌⊎◌, inl, inr, true, List, [], mem-select, mem-insert, arith, Bool-cases, ◌==◌, ℕ_discrete,
  GoString, IpNet,
}
use bramble_gate.Dns.{Library}
use bramble_gate.Vlancache.Entry.{Entry, depends_on}
use bramble_gate.Vlancache.Store.Members.{put_cases, bucket_mem, walk_mem}
use bramble_gate.Vlancache.Store.{
  ScopedEntry, Store, IsCacheAdd, set_direct, set_scoped, if_current, invalidate, put_scoped,
  bucket, walk_scoped,
}
use Kept.{
  KeySince, visit-KeySince, visited-KeySince, Steps-KeySince, Steps-ScopedSince,
  flushed-ScopedSince, Steps-epoch, epoch-invalidate,
}

module _ {Rr : Type 0} (dns : Library Rr)
    (add : ℕ → Entry Rr → List (ℕ × Entry Rr) → List (ℕ × Entry Rr)) (adds : IsCacheAdd add)
    (born : Entry Rr → ℕ) where
  -- The walk of one shard over the keys that it has read, with steps of any goroutine before each.
  abbrev pub Walk : GoString → List ℕ → Store Rr → Store Rr → Type 0
  Walk name [] s v = Steps dns add adds born s v
  Walk name (key ∷ keys) s v =
      (t : Store Rr) × Steps dns add adds born s t
      × Walk name keys (visit (λ e. depends_on dns e name) key t) v

  Walk-epoch :
      (name : GoString) (keys : List ℕ) (s v : Store Rr) → Walk name keys s v → s.epoch ≤ v.epoch
  Walk-epoch name [] s v w = Steps-epoch dns add adds born s w
  Walk-epoch name (key ∷ keys) s v (t, st, w) =
      omega (arith, Steps-epoch dns add adds born s st, Walk-epoch name keys _ v w)

  -- A key that the walk visits, or that needs no visit.
  Walk-KeySince :
      (k : ℕ) (name : GoString) (g : ℕ) (keys : List ℕ) (s v : Store Rr)
      → Walk name keys s v
      → g ≤ s.epoch
      → (any (λ key. key == k) keys ≡ true) ⊎ KeySince dns add adds born k name g s
      → KeySince dns add adds born k name g v
  Walk-KeySince k name g [] s v w h (inl listed) = absurd (cc)
  Walk-KeySince k name g [] s v w h (inr d) = (Steps-KeySince dns add adds born k name g s w h d).0
  Walk-KeySince k name g (key ∷ keys) s v (t, st, w) h c =
      let reached : g ≤ t.epoch = omega (arith, Steps-epoch dns add adds born s st) in
      Walk-KeySince k name g keys (visit (λ e. depends_on dns e name) key t) v w reached
        (elim (Bool-cases (key == k)) [
          | inl found ↦ inr (visited-KeySince dns add adds born k key name g t found)
          | inr other ↦ elim c [
            | inl listed ↦ inl (rw other at listed)
            | inr d ↦ inr (
                visit-KeySince dns add adds born k name g (λ e. depends_on dns e name) key t
                  (Steps-KeySince dns add adds born k name g s st h d).0)
          ]
        ])

  -- `Cache.Walk` of coredns: for one shard after another it reads the keys under the shard's lock,
  -- and then visits each.
  module _ (shard : ℕ → ℕ) where
    abbrev pub Covers : ℕ → List ℕ → List (ℕ × Entry Rr) → Type 0
    Covers i keys m = All (λ p. (not (shard p.0 == i) || any (λ key. key == p.0) keys) ≡ true) m

    abbrev pub WalkAll : GoString → List ℕ → Store Rr → Store Rr → Type 0
    WalkAll name [] s v = Steps dns add adds born s v
    WalkAll name (i ∷ shards) s v =
        (t : Store Rr) × (u : Store Rr) × (keys : List ℕ) × Steps dns add adds born s t
        × Covers i keys t.direct
        × Walk name keys t u
        × WalkAll name shards u v

    WalkAll-epoch :
        (name : GoString) (shards : List ℕ) (s v : Store Rr)
        → WalkAll name shards s v
        → s.epoch ≤ v.epoch
    WalkAll-epoch name [] s v w = Steps-epoch dns add adds born s w
    WalkAll-epoch name (i ∷ shards) s v (t, u, keys, st, covers, w, rest) = omega (
      arith,
      Steps-epoch dns add adds born s st,
      Walk-epoch name keys t u w,
      WalkAll-epoch name shards u v rest,
    )

    covered :
        (i : ℕ) (keys : List ℕ) (m : List (ℕ × Entry Rr)) {p : ℕ × Entry Rr}
        → Covers i keys m
        → Memᴰ p m
        → (not (shard p.0 == i) || any (λ key. key == p.0) keys) ≡ true
    covered i keys [] c mem = absurd (Memᴰ.not-nil mem)
    covered i keys (x ∷ m) {p} c mem = elim (Memᴰ.cases_cons mem) [
      | inl q ↦
          subst
            (λ (y : ℕ × Entry Rr). (not (shard y.0 == i) || any (λ key. key == y.0) keys) ≡ true)
            (sym q) c.0
      | inr there ↦ covered i keys m c.1 there
    ]

    -- A key that the walk of its shard did not read had no entry then.
    unread-KeySince :
        (k : ℕ) (name : GoString) (g i : ℕ) (keys : List ℕ) (t : Store Rr)
        → Covers i keys t.direct
        → i == shard k ≡ true
        → any (λ key. key == k) keys ≡ false
        → KeySince dns add adds born k name g t
    unread-KeySince k name g i keys t covers own unread p m same_key =
        let read =
          subst (λ j. (not (shard j == i) || any (λ key. key == j) keys) ≡ true) same_key
            (covered i keys t.direct covers m) in
        absurd (ground (arith, read, own, unread))

    WalkAll-KeySince :
        (k : ℕ) (name : GoString) (g : ℕ) (shards : List ℕ) (s v : Store Rr)
        → WalkAll name shards s v
        → g ≤ s.epoch
        → (any (λ i. i == shard k) shards ≡ true) ⊎ KeySince dns add adds born k name g s
        → KeySince dns add adds born k name g v
    WalkAll-KeySince k name g [] s v w h (inl listed) = absurd (cc)
    WalkAll-KeySince k name g [] s v w h (inr d) =
        (Steps-KeySince dns add adds born k name g s w h d).0
    WalkAll-KeySince k name g (i ∷ shards) s v (t, u, keys, st, covers, w, rest) h c =
        let reached : g ≤ t.epoch = omega (arith, Steps-epoch dns add adds born s st) in
        let left : g ≤ u.epoch = omega (arith, reached, Walk-epoch name keys t u w) in
        WalkAll-KeySince k name g shards u v rest left (elim (Bool-cases (i == shard k)) [
          | inl own ↦ inr (
              Walk-KeySince k name g keys t u w reached
                (elim (Bool-cases (any (λ key. key == k) keys)) [
                  | inl read ↦ inl read
                  | inr unread ↦ inr (unread-KeySince k name g i keys t covers own unread)
                ]))
          | inr other ↦ elim c [
            | inl listed ↦ inl (rw other at listed)
            | inr d ↦ inr (
                Walk-KeySince k name g keys t u w reached
                  (inr (Steps-KeySince dns add adds born k name g s st h d).0))
          ]
        ])

    -- A flush of a name starts an epoch, walks the direct tier shard by shard and key by key, and
    -- walks the scoped tier in one step. Other steps of any goroutine may come between any two of
    -- these and after them. From then on, every entry of either tier that depends on the name was
    -- fetched in that epoch or a later one: no answer that was in flight when the flush began comes
    -- back. Every key is in one of the shards.
    pub flush_name_lem :
        (shards : List ℕ) (name : GoString) (s u v : Store Rr)
        → ((k : ℕ) → any (λ i. i == shard k) shards ≡ true)
        → s.epoch + 1 < 2 ^ 64
        → WalkAll name shards (invalidate s) u
        → Steps dns add adds born (record u { scoped = (walk_scoped dns name u.scoped).0 }) v
        → DirectSince dns add adds born name (s.epoch + 1) v
          × ScopedSince dns add adds born name (s.epoch + 1) v
    flush_name_lem shards name s u v total room walk after =
        let g : ℕ = s.epoch + 1 in
        let started : g ≤ (invalidate s).epoch =
          omega (arith, epoch-invalidate dns add adds born s room) in
        let reached : g ≤ u.epoch =
          omega (arith, started, WalkAll-epoch name shards (invalidate s) u walk) in
        let swept : Store Rr = record u { scoped = (walk_scoped dns name u.scoped).0 } in
        (
          λ p m.
              (Steps-KeySince dns add adds born p.0 name g swept after reached (
                  WalkAll-KeySince p.0 name g shards (invalidate s) u walk started
                    (inl (total p.0)))).0
                p m refl,
          (Steps-ScopedSince dns add adds born name g swept after reached
              (flushed-ScopedSince dns add adds born name g u)).0,
        )
