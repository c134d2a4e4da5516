-- ===== src/Vlancache/Store/Members.antt =====
-- plugins/vlancache/store.go: what the scoped tier's operations may hold, entry by entry.
use mathlib.Core.List.Memᴰ
use mathlib.Core.List.{Memᴰ}
use bramble_gate.Prelude.{
  ℕ, ◌≡◌, refl, subst, ap, ◌⊎◌, inl, inr, Bool, true, false, not, none, some, List, [], ◌∷◌, select,
  mem-select, mem_of_lookup, if◌then◌else◌, arith, Bool-cases, is_nil, suc, ◌++◌, length, leb,
  IpNet-discrete, written_net, lookup, ℕ_discrete, Option-cases, ◌≢◌, GoString, IpNet,
}
use bramble_gate.Dns.{Library}
use bramble_gate.Vlancache.Entry.{Entry, depends_on}
use bramble_gate.Vlancache.Store.{
  ScopedEntry, Store, put_scoped, replace_prefix, drop_oldest, max_scoped_per_key, bucket,
  walk_scoped,
}

module _ {Rr : Type 0} where
  replaced_head :
      (prefix : IpNet) (e : Entry Rr) (x : ScopedEntry Rr) (ses : List (ScopedEntry Rr))
      {r : List (ScopedEntry Rr)}
      → written_net x.prefix ≡ written_net prefix
      → replace_prefix prefix e (x ∷ ses) ≡ some r
      → r ≡ record { prefix = prefix; e = e } ∷ ses
  unfolding replace_prefix
  replaced_head prefix e x ses y h = ground arith

  replaced_tail :
      (prefix : IpNet) (e : Entry Rr) (x : ScopedEntry Rr) (ses : List (ScopedEntry Rr))
      {r : List (ScopedEntry Rr)}
      → written_net x.prefix ≢ written_net prefix
      → replace_prefix prefix e (x ∷ ses) ≡ some r
      → (r' : List (ScopedEntry Rr)) × (replace_prefix prefix e ses ≡ some r') × (r ≡ x ∷ r')
  unfolding replace_prefix
  replaced_tail prefix e x ses y h = elim (Option-cases (replace_prefix prefix e ses)) [
    | inl z ↦ absurd (ground arith)
    | inr (r', z) ↦ (r', z, ground arith)
  ]

  -- A replaced list holds the new entry and otherwise only what was there.
  replace_mem :
      (prefix : IpNet) (e : Entry Rr) (ses : List (ScopedEntry Rr)) (se : ScopedEntry Rr)
      {r : List (ScopedEntry Rr)}
      → replace_prefix prefix e ses ≡ some r
      → Memᴰ se r
      → (se.e ≡ e) ⊎ Memᴰ se ses
  unfolding replace_prefix
  replace_mem prefix e [] se h m = cc
  replace_mem prefix e (x ∷ ses) se h m =
      elim (IpNet-discrete (written_net x.prefix) (written_net prefix)) [
        | yes y ↦ elim (Memᴰ.cases_cons (subst (Memᴰ se) (replaced_head prefix e x ses y h) m)) [
          | inl q ↦ inl (ap (λ (z : ScopedEntry Rr). z.e) q)
          | inr t ↦ inr (Memᴰ.tail t)
        ]
        | no y ↦
            let (r', z, q) = replaced_tail prefix e x ses y h in
            elim (Memᴰ.cases_cons (subst (Memᴰ se) q m)) [
              | inl a ↦ inr (Memᴰ.head a)
              | inr t ↦ elim (replace_mem prefix e ses se z t) [
                | inl a ↦ inl a
                | inr k ↦ inr (Memᴰ.tail k)
              ]
            ]
      ]

  abbrev room : List (ScopedEntry Rr) → List (ScopedEntry Rr)
  room ses = if leb max_scoped_per_key (length ses) then drop_oldest ses else ses

  mem-room : (ses : List (ScopedEntry Rr)) {se : ScopedEntry Rr} → Memᴰ se (room ses) → Memᴰ se ses
  mem-room [] m = m
  mem-room (x ∷ ses) {se} m = elim (Bool-cases (leb max_scoped_per_key (suc (length ses)))) [
    | inl h ↦ Memᴰ.tail (subst (λ b. Memᴰ se (if b then ses else x ∷ ses)) h m)
    | inr h ↦ subst (λ b. Memᴰ se (if b then ses else x ∷ ses)) h m
  ]

  put_append :
      (prefix : IpNet) (e : Entry Rr) (ses : List (ScopedEntry Rr))
      → replace_prefix prefix e ses ≡ none
      → put_scoped prefix e ses ≡ room ses ++ (record { prefix = prefix; e = e } ∷ [])
  unfolding put_scoped
  put_append prefix e ses h = ground arith

  put_replaced :
      (prefix : IpNet) (e : Entry Rr) (ses : List (ScopedEntry Rr)) {r : List (ScopedEntry Rr)}
      → replace_prefix prefix e ses ≡ some r
      → put_scoped prefix e ses ≡ r
  unfolding put_scoped
  put_replaced prefix e ses h = ground arith

  -- A prefix replaced, or the new entry behind all or all but the oldest of the others.
  pub put_cases :
      (prefix : IpNet) (e : Entry Rr) (ses : List (ScopedEntry Rr)) (se : ScopedEntry Rr)
      → Memᴰ se (put_scoped prefix e ses)
      → (se.e ≡ e) ⊎ Memᴰ se ses
  put_cases prefix e ses se m = elim (Option-cases (replace_prefix prefix e ses)) [
    | inl h ↦ elim (Memᴰ.append_cases (room ses) (subst (Memᴰ se) (put_append prefix e ses h) m)) [
      | inl k ↦ inr (mem-room ses k)
      | inr k ↦ inl (ap (λ (z : ScopedEntry Rr). z.e) (Memᴰ.eq_of_singleton k))
    ]
    | inr (r, h) ↦ replace_mem prefix e ses se h (subst (Memᴰ se) (put_replaced prefix e ses h) m)
  ]

  bucket-none : (s : Store Rr) (key : ℕ) → lookup ℕ_discrete key s.scoped ≡ none → bucket s key ≡ []
  unfolding bucket
  bucket-none s key h = ground arith

  bucket-some :
      (s : Store Rr) (key : ℕ) {es : List (ScopedEntry Rr)}
      → lookup ℕ_discrete key s.scoped ≡ some es
      → bucket s key ≡ es
  unfolding bucket
  bucket-some s key h = ground arith

  -- Every entry of a bucket stands in the tier.
  pub bucket_mem :
      (s : Store Rr) (key : ℕ) (se : ScopedEntry Rr)
      → Memᴰ se (bucket s key)
      → (p : ℕ × List (ScopedEntry Rr)) × Memᴰ p s.scoped × Memᴰ se p.1
  bucket_mem s key se m = elim (Option-cases (lookup ℕ_discrete key s.scoped)) [
    | inl h ↦ absurd (Memᴰ.not-nil (subst (Memᴰ se) (bucket-none s key h) m))
    | inr (es, h) ↦
        let (j, k) = mem_of_lookup ℕ_discrete key s.scoped es h in
        ((j, es), k, subst (Memᴰ se) (bucket-some s key h) m)
  ]

module _ {Rr : Type 0} (dns : Library Rr) (name : GoString) where
  walk_kept :
      (k : ℕ) (es : List (ScopedEntry Rr)) (m : List (ℕ × List (ScopedEntry Rr)))
      {p : ℕ × List (ScopedEntry Rr)}
      → Memᴰ p (walk_scoped dns name ((k, es) ∷ m)).0
      → (p ≡ (k, select (λ se. not (depends_on dns se.e name)) es))
        ⊎ Memᴰ p (walk_scoped dns name m).0
  unfolding walk_scoped
  walk_kept k es m {p} h = go (is_nil (select (λ se. not (depends_on dns se.e name)) es)) h
    where
      go :
          (b : Bool)
          → Memᴰ p (
              if b
              then (walk_scoped dns name m).0
              else (k, select (λ se. not (depends_on dns se.e name)) es)
                ∷ (walk_scoped dns name m).0)
          → (p ≡ (k, select (λ se. not (depends_on dns se.e name)) es))
            ⊎ Memᴰ p (walk_scoped dns name m).0
      go true r = inr r
      go false r = Memᴰ.cases_cons r

  -- An entry that the walk leaves stood in the tier, and does not depend on the name.
  pub walk_mem :
      (m : List (ℕ × List (ScopedEntry Rr))) {p : ℕ × List (ScopedEntry Rr)} {se : ScopedEntry Rr}
      → Memᴰ p (walk_scoped dns name m).0
      → Memᴰ se p.1
      → (q : ℕ × List (ScopedEntry Rr)) × Memᴰ q m
        × Memᴰ se q.1
        × (not (depends_on dns se.e name) ≡ true)
  unfolding walk_scoped
  walk_mem [] h n = absurd (Memᴰ.not-nil h)
  walk_mem ((k, es) ∷ m) {p} {se} h n = elim (walk_kept k es m h) [
    | inl e ↦
        let r = mem-select _ es (subst (λ (x : ℕ × List (ScopedEntry Rr)). Memᴰ se x.1) e n) in
        ((k, es), Memᴰ.head refl, r.0, r.1)
    | inr t ↦ let (q, a, b, c) = walk_mem m t n in (q, Memᴰ.tail a, b, c)
  ]
