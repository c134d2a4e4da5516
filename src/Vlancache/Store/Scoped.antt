-- ===== src/Vlancache/Store/Scoped.antt =====
-- plugins/vlancache/store.go: which entry of the scoped tier answers an address.
use mathlib.Core.List.{Memᴰ}
use bramble_gate.Prelude.{
  ℕ, ◌≤◌, ◌≡◌, refl, sym, subst, ◌∙◌, ap, ◌⊎◌, inl, inr, Bool, true, Option, none, some, List, [],
  ◌∷◌, All, arith, Ip, net_contains, mask_size,
}
use bramble_gate.Prelude.Int.{ℤ}
use bramble_gate.Vlancache.Entry.{Entry}
use bramble_gate.Vlancache.Store.{
  ScopedEntry, Store, is_fresh, in_grace, consider, best_of, bucket, get_scoped,
}

module _ {Rr : Type 0} (ip : Ip) (now stale_ttl : ℤ) where
  -- The entry may answer the address: its prefix contains it, and it is fresh or in the window.
  abbrev pub Candidate : ScopedEntry Rr → Type 0
  Candidate x =
      (net_contains x.prefix ip ≡ true)
      × ((is_fresh x.e now ≡ true) ⊎ (in_grace x.e now stale_ttl ≡ true))

  -- No worse than `x`: fresh if `x` is, and with as long a prefix if both are alike in that.
  abbrev pub NoWorse : ScopedEntry Rr → Bool → ScopedEntry Rr → Type 0
  NoWorse b fresh x =
      (is_fresh x.e now ≡ true → fresh ≡ true)
      × (is_fresh x.e now ≡ fresh → mask_size x.prefix ≤ mask_size b.prefix)

  -- What the best so far says of an entry looked at.
  abbrev pub Beats : Option (ScopedEntry Rr × Bool) → ScopedEntry Rr → Type 0
  Beats none x = ¬ Candidate x
  Beats (some (b, fresh)) x = Candidate x → NoWorse b fresh x

  consider-Beats_self :
      (se : ScopedEntry Rr) (best : Option (ScopedEntry Rr × Bool))
      → Beats (consider ip now stale_ttl se best) se
  unfolding consider
  consider-Beats_self se none = ground arith
  consider-Beats_self se (some (b, f)) = ground arith

  consider-Beats :
      (se x : ScopedEntry Rr) (best : Option (ScopedEntry Rr × Bool))
      → Beats best x
      → Beats (consider ip now stale_ttl se best) x
  unfolding consider
  consider-Beats se x none h = ground arith
  consider-Beats se x (some (b, f)) h = ground arith

  best_of-Beats :
      (ses : List (ScopedEntry Rr)) (x : ScopedEntry Rr) (best : Option (ScopedEntry Rr × Bool))
      → Beats best x
      → Beats (best_of ip now stale_ttl ses best) x
  unfolding best_of
  best_of-Beats [] x best h = h
  best_of-Beats (se ∷ ses) x best h =
      best_of-Beats ses x (consider ip now stale_ttl se best) (consider-Beats se x best h)

  best_of-All :
      (ses : List (ScopedEntry Rr)) (best : Option (ScopedEntry Rr × Bool))
      → All (Beats (best_of ip now stale_ttl ses best)) ses
  unfolding best_of
  best_of-All [] best = tt
  best_of-All (se ∷ ses) best = (
    best_of-Beats ses se (consider ip now stale_ttl se best) (consider-Beats_self se best),
    best_of-All ses (consider ip now stale_ttl se best),
  )

  -- Where the result comes from.
  consider_origin :
      (se : ScopedEntry Rr) (best : Option (ScopedEntry Rr × Bool)) {b : ScopedEntry Rr} {f : Bool}
      → consider ip now stale_ttl se best ≡ some (b, f)
      → (best ≡ some (b, f)) ⊎ ((b ≡ se) × Candidate se × (f ≡ is_fresh se.e now))
  unfolding consider
  consider_origin se best h = ground arith

  best_of_origin :
      (ses : List (ScopedEntry Rr)) (best : Option (ScopedEntry Rr × Bool)) {b : ScopedEntry Rr}
      {f : Bool}
      → best_of ip now stale_ttl ses best ≡ some (b, f)
      → (best ≡ some (b, f)) ⊎ (Memᴰ b ses × Candidate b × (f ≡ is_fresh b.e now))
  unfolding best_of
  best_of_origin [] best h = inl h
  best_of_origin (se ∷ ses) best {b} {f} h =
      elim (best_of_origin ses (consider ip now stale_ttl se best) h) [
        | inl e ↦ elim (consider_origin se best e) [
          | inl k ↦ inl k
          | inr (p, c, q) ↦
              inr (Memᴰ.head p, subst Candidate (sym p) c, q ∙ ap (λ x. is_fresh x.e now) (sym p))
        ]
        | inr (m, c, q) ↦ inr (Memᴰ.tail m, c, q)
      ]

  -- What `getScoped` answers from a bucket: nothing if no entry is a candidate, and else a
  -- candidate of the bucket that no candidate beats, with its freshness.
  abbrev pub IsBest : List (ScopedEntry Rr) → Option (Entry Rr × Bool) → Type 0
  IsBest entries none = All (λ x. ¬ Candidate x) entries
  IsBest entries (some (e, fresh)) =
      (b : ScopedEntry Rr) × (b.e ≡ e)
      × Memᴰ b entries
      × Candidate b
      × (fresh ≡ is_fresh e now)
      × All (λ x. Candidate x → NoWorse b fresh x) entries

  best_of-IsBest :
      (ses : List (ScopedEntry Rr)) (r : Option (ScopedEntry Rr × Bool))
      → best_of ip now stale_ttl ses none ≡ r
      → IsBest ses (elim r [ none ↦ none | some (se, fresh) ↦ some (se.e, fresh) ])
  best_of-IsBest ses none h = subst (λ r. All (Beats r) ses) h (best_of-All ses none)
  best_of-IsBest ses (some (b, f)) h = elim (best_of_origin ses none h) [
    | inl e ↦ cc
    | inr (m, c, q) ↦ (b, refl, m, c, q, subst (λ r. All (Beats r) ses) h (best_of-All ses none))
  ]

  -- `getScoped` on a bucket answers the address with the best candidate: a fresh entry before one
  -- in the stale window, and among these the longest prefix that contains the address. It answers
  -- nothing only if no entry of the bucket may answer.
  pub get_scoped-IsBest :
      (s : Store Rr) (key : ℕ) → IsBest (bucket s key) (get_scoped s key (some ip) now stale_ttl)
  unfolding get_scoped
  get_scoped-IsBest s key = best_of-IsBest (bucket s key) _ refl
