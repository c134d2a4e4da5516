-- ===== src/Vlancache/Store/Buckets.antt =====
-- plugins/vlancache/store.go: what setScoped does to the bucket of a key.
use bramble_gate.Prelude.{
  ℕ, suc, ◌+◌, ◌≤◌, ◌≡◌, ◌≢◌, refl, sym, subst, ◌∙◌, ◌⊎◌, inl, inr, true, false, Option, none, some,
  List, [], ◌∷◌, ◌++◌, length, length-append, if◌then◌else◌, All, arith, Bool-cases, Option-cases,
  leb, ℕ_discrete, same, IpNet, IpNet-discrete, written_net, lookup-insert,
}
use bramble_gate.Vlancache.Entry.{Entry}
use bramble_gate.Vlancache.Store.{
  ScopedEntry, Store, max_scoped_per_key, replace_prefix, drop_oldest, put_scoped, set_scoped,
  bucket,
}

module _ {Rr : Type 0} where
  -- The entry stored for a prefix: networks are the same if they are written the same.
  unfoldable pub find : IpNet → List (ScopedEntry Rr) → Option (Entry Rr)
  find p [] = none
  find p (se ∷ ses) =
      if same IpNet-discrete (written_net se.prefix) (written_net p) then some se.e else find p ses

  find-written_net :
      (p q : IpNet) (ses : List (ScopedEntry Rr))
      → written_net p ≡ written_net q
      → find p ses ≡ find q ses
  unfolding find
  find-written_net p q [] h = refl
  find-written_net p q (se ∷ ses) h = rw (h, find-written_net p q ses h) refl

  -- No prefix stands twice.
  abbrev pub IsDistinct : List (ScopedEntry Rr) → Type 0
  IsDistinct [] = Unit
  IsDistinct (se ∷ ses) = (find se.prefix ses ≡ none) × IsDistinct ses

  pub record IsValid (ses : List (ScopedEntry Rr)) : Type 0 where
    pub bounded : length ses ≤ max_scoped_per_key
    pub distinct : IsDistinct ses

  -- The prefix is the oldest of a full bucket.
  abbrev pub IsOldest : IpNet → List (ScopedEntry Rr) → Type 0
  IsOldest q [] = ⊥
  IsOldest q (se ∷ ses) =
      (written_net se.prefix ≡ written_net q) × (length (se ∷ ses) ≡ max_scoped_per_key)

  module _ (p : IpNet) (e : Entry Rr) where
    new : ScopedEntry Rr
    new = record { prefix = p; e = e }

    -- The bucket with the entry for the prefix replaced, and as it is if there is none.
    replaced : List (ScopedEntry Rr) → List (ScopedEntry Rr)
    unfolding new
    replaced [] = []
    replaced (se ∷ ses) =
        if same IpNet-discrete (written_net se.prefix) (written_net p)
        then new ∷ ses
        else se ∷ replaced ses

    replace-replaced :
        (ses : List (ScopedEntry Rr))
        → replace_prefix p e ses ≡ elim (find p ses) [ none ↦ none | some _ ↦ some (replaced ses) ]
    unfolding replace_prefix find replaced
    replace-replaced [] = refl
    replace-replaced (se ∷ ses) = ground (arith, replace-replaced ses)

    length-replaced : (ses : List (ScopedEntry Rr)) → length (replaced ses) ≡ length ses
    unfolding replaced
    length-replaced [] = refl
    length-replaced (se ∷ ses) = ground (arith, length-replaced ses)

    find-replaced_ne :
        (q : IpNet) (ses : List (ScopedEntry Rr))
        → written_net p ≢ written_net q
        → find q (replaced ses) ≡ find q ses
    unfolding replaced find
    find-replaced_ne q [] h = refl
    find-replaced_ne q (se ∷ ses) h = ground (arith, find-replaced_ne q ses h)

    find-replaced_self :
        (ses : List (ScopedEntry Rr)) (d : Entry Rr)
        → find p ses ≡ some d
        → find p (replaced ses) ≡ some e
    unfolding replaced find
    find-replaced_self [] d h = cc
    find-replaced_self (se ∷ ses) d h = ground (arith, find-replaced_self ses d)

    replaced-IsDistinct : (ses : List (ScopedEntry Rr)) → IsDistinct ses → IsDistinct (replaced ses)
    unfolding replaced
    replaced-IsDistinct [] h = tt
    replaced-IsDistinct (se ∷ ses) h =
        elim (IpNet-discrete (written_net se.prefix) (written_net p)) [
          | yes x ↦ rw (same_yes x) (sym (find-written_net se.prefix p ses x) ∙ h.0, h.1)
          | no x ↦
              rw (same_no x)
                (find-replaced_ne se.prefix ses (λ y. x (sym y)) ∙ h.0, replaced-IsDistinct ses h.1)
        ]
      where
        same_yes :
            written_net se.prefix ≡ written_net p
            → same IpNet-discrete (written_net se.prefix) (written_net p) ≡ true
        same_yes x = ground arith

        same_no :
            written_net se.prefix ≢ written_net p
            → same IpNet-discrete (written_net se.prefix) (written_net p) ≡ false
        same_no x = ground arith

    find-append_new :
        (q : IpNet) (ses : List (ScopedEntry Rr))
        → find q (ses ++ (new ∷ [])) ≡ elim (find q ses) [
          | some d ↦ some d
          | none ↦ if same IpNet-discrete (written_net p) (written_net q) then some e else none
        ]
    unfolding find new
    find-append_new q [] = refl
    find-append_new q (se ∷ ses) = ground (arith, find-append_new q ses)

    append_new-IsDistinct :
        (ses : List (ScopedEntry Rr))
        → find p ses ≡ none
        → IsDistinct ses
        → IsDistinct (ses ++ (new ∷ []))
    unfolding find
    append_new-IsDistinct [] h d = (refl, tt)
    append_new-IsDistinct (se ∷ ses) h d = (
      ground (arith, find-append_new se.prefix ses),
      append_new-IsDistinct ses (ground arith) d.1,
    )

    -- The room that a full bucket makes.
    trimmed : List (ScopedEntry Rr) → List (ScopedEntry Rr)
    trimmed ses = if leb max_scoped_per_key (length ses) then drop_oldest ses else ses

    put_scoped-trimmed :
        (ses : List (ScopedEntry Rr))
        → put_scoped p e ses
          ≡ elim (find p ses) [ none ↦ trimmed ses ++ (new ∷ []) | some _ ↦ replaced ses ]
    unfolding put_scoped trimmed new
    put_scoped-trimmed ses = ground (arith, replace-replaced ses)

    trimmed_bounded :
        (ses : List (ScopedEntry Rr))
        → length ses ≤ max_scoped_per_key
        → length (trimmed ses) + 1 ≤ max_scoped_per_key
    unfolding trimmed
    trimmed_bounded [] h = omega arith
    trimmed_bounded (se ∷ ses) h = ground arith

    trimmed-find-none :
        (ses : List (ScopedEntry Rr)) → find p ses ≡ none → find p (trimmed ses) ≡ none
    unfolding trimmed find
    trimmed-find-none [] h = refl
    trimmed-find-none (se ∷ ses) h = ground arith

    trimmed-IsDistinct : (ses : List (ScopedEntry Rr)) → IsDistinct ses → IsDistinct (trimmed ses)
    unfolding trimmed
    trimmed-IsDistinct [] d = tt
    trimmed-IsDistinct (se ∷ ses) d =
        elim (Bool-cases (leb max_scoped_per_key (suc (length ses)))) [
          | inl x ↦ rw x d.1
          | inr x ↦ rw x d
        ]

    trimmed-find :
        (q : IpNet) (ses : List (ScopedEntry Rr))
        → length ses ≤ max_scoped_per_key
        → (find q (trimmed ses) ≡ find q ses) ⊎ IsOldest q ses
    unfolding trimmed find
    trimmed-find q [] h = inl refl
    trimmed-find q (se ∷ ses) h = elim (IpNet-discrete (written_net se.prefix) (written_net q)) [
      | yes x ↦ elim (Bool-cases (leb max_scoped_per_key (suc (length ses)))) [
        | inl y ↦ inr (x, ground arith)
        | inr y ↦ inl (rw y)
      ]
      | no x ↦ inl (ground arith)
    ]

    put_scoped-IsValid : (ses : List (ScopedEntry Rr)) → IsValid ses → IsValid (put_scoped p e ses)
    put_scoped-IsValid ses v = elim (Option-cases (find p ses)) [
      | inl x ↦
          rw (put_scoped-trimmed ses, x)
            (record {
              bounded = rw length-append (trimmed_bounded ses v.bounded);
              distinct =
                  append_new-IsDistinct (trimmed ses) (trimmed-find-none ses x)
                    (trimmed-IsDistinct ses v.distinct);
            })
      | inr (d, x) ↦
          rw (put_scoped-trimmed ses, x)
            (record {
              bounded = rw length-replaced v.bounded;
              distinct = replaced-IsDistinct ses v.distinct;
            })
    ]

    pub find-put_self : (ses : List (ScopedEntry Rr)) → find p (put_scoped p e ses) ≡ some e
    find-put_self ses = elim (Option-cases (find p ses)) [
      | inl x ↦
          rw (put_scoped-trimmed ses, x)
            (ground (arith, find-append_new p (trimmed ses), trimmed-find-none ses x))
      | inr (d, x) ↦ rw (put_scoped-trimmed ses, x) (find-replaced_self ses d x)
    ]

    replaced-All :
        (P : ScopedEntry Rr → Type 0) (ses : List (ScopedEntry Rr)) (d : Entry Rr)
        → find p ses ≡ some d
        → All P (replaced ses)
        → P new
    unfolding replaced find
    replaced-All P [] d h a = absurd (ground (arith, h))
    replaced-All P (se ∷ ses) d h a =
        elim (IpNet-discrete (written_net se.prefix) (written_net p)) [
          | yes x ↦ (rw (same_yes x) at a).0
          | no x ↦ replaced-All P ses d (ground arith) (rw (same_no x) at a).1
        ]
      where
        same_yes :
            written_net se.prefix ≡ written_net p
            → same IpNet-discrete (written_net se.prefix) (written_net p) ≡ true
        same_yes x = ground arith

        same_no :
            written_net se.prefix ≢ written_net p
            → same IpNet-discrete (written_net se.prefix) (written_net p) ≡ false
        same_no x = ground arith

    append_new-All :
        (P : ScopedEntry Rr → Type 0) (ses : List (ScopedEntry Rr))
        → All P (ses ++ (new ∷ []))
        → P new
    append_new-All P [] a = a.0
    append_new-All P (se ∷ ses) a = append_new-All P ses a.1

    -- What holds of every entry of the new bucket holds of the entry that is put.
    pub put-All :
        (P : ScopedEntry Rr → Type 0) (ses : List (ScopedEntry Rr))
        → All P (put_scoped p e ses)
        → P (record { prefix = p; e = e })
    unfolding new
    put-All P ses a = elim (Option-cases (find p ses)) [
      | inl x ↦ append_new-All P (trimmed ses) (rw (put_scoped-trimmed ses, x) at a)
      | inr (d, x) ↦ replaced-All P ses d x (rw (put_scoped-trimmed ses, x) at a)
    ]

    find-put_ne :
        (q : IpNet) (ses : List (ScopedEntry Rr))
        → IsValid ses
        → written_net p ≢ written_net q
        → (find q (put_scoped p e ses) ≡ find q ses) ⊎ IsOldest q ses
    find-put_ne q ses v ne = elim (Option-cases (find p ses)) [
      | inl x ↦ elim (trimmed-find q ses v.bounded) [
        | inl k ↦
            inl (rw (put_scoped-trimmed ses, x) (ground (arith, find-append_new q (trimmed ses))))
        | inr k ↦ inr k
      ]
      | inr (d, x) ↦ inl (rw (put_scoped-trimmed ses, x) (find-replaced_ne q ses ne))
    ]

  -- Every bucket of the scoped tier holds at most 16 entries, no two for prefixes written the same.
  abbrev pub HasValidBuckets : Store Rr → Type 0
  HasValidBuckets s = (key : ℕ) → IsValid (bucket s key)

  pub bucket-set_scoped :
      (s : Store Rr) (key j : ℕ) (p : IpNet) (e : Entry Rr)
      → bucket (set_scoped s key p e) j
        ≡ (if same ℕ_discrete key j then put_scoped p e (bucket s key) else bucket s j)
  unfolding bucket set_scoped
  bucket-set_scoped s key j p e =
      ground (arith, lookup-insert ℕ_discrete key j (put_scoped p e (bucket s key)) s.scoped)

  -- `setScoped` on a store with valid buckets keeps them valid: the entry is then found under its
  -- key and prefix, an entry of a prefix written otherwise is kept unless it was the oldest of a full bucket,
  -- and every other key keeps its bucket.
  pub set_scoped_lem :
      (s : Store Rr) (key : ℕ) (p : IpNet) (e : Entry Rr)
      → HasValidBuckets s
      → let s' = set_scoped s key p e in
        HasValidBuckets s'
        × (find p (bucket s' key) ≡ some e)
        × ((q : IpNet)
            → written_net p ≢ written_net q
            → (find q (bucket s' key) ≡ find q (bucket s key)) ⊎ IsOldest q (bucket s key))
        × ((j : ℕ) → key ≢ j → bucket s' j ≡ bucket s j)
  set_scoped_lem s key p e v = (
    valid,
    rw here (find-put_self p e (bucket s key)),
    λ q ne. rw here (find-put_ne p e q (bucket s key) (v key) ne),
    λ j ne. ground (arith, bucket-set_scoped s key j p e),
  )
    where
      here : bucket (set_scoped s key p e) key ≡ put_scoped p e (bucket s key)
      here = ground (arith, bucket-set_scoped s key key p e)

      valid : HasValidBuckets (set_scoped s key p e)
      valid j = elim (ℕ_discrete key j) [
        | yes x ↦
            subst (λ k. IsValid (bucket (set_scoped s key p e) k)) x
              (rw here (put_scoped-IsValid p e (bucket s key) (v key)))
        | no x ↦ subst IsValid (sym (ground (arith, bucket-set_scoped s key j p e))) (v j)
      ]
