-- ===== src/Mdnsbridge/Table/Resolve.antt =====
-- plugins/mdnsbridge/table.go: which addresses `Resolve` answers with.
use bramble_gate.Prelude.{
  ◌≡◌, ◌≢◌, refl, sym, subst, ◌∙◌, inl, inr, Bool, true, false, ◌&&◌, ◌||◌, not, Option, none, some,
  List, [], ◌∷◌, ◌++◌, any, any-append, is_nil, Option-cases, Bool-cases, arith, if◌then◌else◌,
  GoString, str_eq, string_discrete, is_empty, lookup, Ip,
}
use bramble_gate.Prelude.Ascending.{any-sort_strings}
use bramble_gate.Prelude.Int.{ℤ}
use bramble_gate.Vlanmatch
use bramble_gate.Mdnsbridge.Selector.{Entry, Selector, selects}
use bramble_gate.Mdnsbridge.Table.{
  Table, fqdn, unique_from, merge_unique, expired, collect, resolve,
}

str_eq-true : (x s : GoString) → str_eq x s ≡ true → x ≡ s
str_eq-true x s h = ground arith

bool_new :
    (e a u w : Bool)
    → ((if e then true else a) || u) ≡ ((if e then true else a) || w)
    → (a || (if e then true else u)) ≡ (a || (if e then true else w))
bool_new e a u w h = ground arith

bool_seen : (a b : Bool) → (not a && not b) ≡ false → a ≡ false → b ≡ true
bool_seen a b h k = ground arith

-- A string seen is in the list, or in what was seen before.
any_unique :
    (x : GoString) (seen ss : List GoString)
    → is_empty x ≡ false
    → (any (str_eq x) seen || any (str_eq x) (unique_from seen ss))
      ≡ (any (str_eq x) seen || any (str_eq x) ss)
unfolding unique_from
any_unique x seen [] h = refl
any_unique x seen (s ∷ ss) h = elim (Bool-cases (not (is_empty s) && not (any (str_eq s) seen))) [
  | inl c ↦ rw c (
      bool_new (str_eq x s) (any (str_eq x) seen) _ (any (str_eq x) ss)
        (any_unique x (s ∷ seen) ss h))
  | inr c ↦ elim (Bool-cases (str_eq x s)) [
    | inl e ↦
        let q : x ≡ s = str_eq-true x s e in
        let k : is_empty s ≡ false = subst (λ z. is_empty z ≡ false) q h in
        let was_seen : any (str_eq s) seen ≡ true =
          bool_seen (is_empty s) (any (str_eq s) seen) c k in
        let here : any (str_eq x) seen ≡ true =
          subst (λ z. any (str_eq z) seen ≡ true) (sym q) was_seen in
        rw (c, here) refl
    | inr e ↦ rw (c, e) (any_unique x seen ss h)
  ]
]

pub any-merge :
    (x : GoString) (a b : List GoString)
    → is_empty x ≡ false
    → any (str_eq x) (merge_unique a b) ≡ (any (str_eq x) a || any (str_eq x) b)
unfolding merge_unique
any-merge x a b h =
    any-sort_strings (str_eq x) (unique_from [] (a ++ b))
    ∙ any_unique x [] (a ++ b) h
    ∙ any-append (str_eq x) a b

-- A live entry that a test picks.
abbrev pub live : Table → ℤ → (Entry → Bool) → GoString × Entry → Bool
live t now pred p = not (expired t now p.1) && pred p.1

-- Some live entry that the test picks has the address.
abbrev pub offers :
    Table → ℤ → (Entry → Bool) → (Entry → List GoString) → GoString → List (GoString × Entry) → Bool
offers t now pred addresses x es = any (λ p. live t now pred p && any (str_eq x) (addresses p.1)) es

pub collect-offers :
    (t : Table) (now : ℤ) (pred : Entry → Bool) (x : GoString) (es : List (GoString × Entry))
    (v4 v6 : List GoString)
    → is_empty x ≡ false
    → (any (str_eq x) (collect t now pred es (v4, v6)).0
        ≡ (any (str_eq x) v4 || offers t now pred (λ e. e.ipv4) x es))
      × (any (str_eq x) (collect t now pred es (v4, v6)).1
          ≡ (any (str_eq x) v6 || offers t now pred (λ e. e.ipv6) x es))
unfolding collect
collect-offers t now pred x [] v4 v6 h = (ground arith, ground arith)
collect-offers t now pred x ((k, e) ∷ es) v4 v6 h =
    elim (Bool-cases (expired t now e || not (pred e))) [
      | inl c ↦
          let (a, b) = collect-offers t now pred x es v4 v6 h in
          (rw c (a ∙ ground arith), rw c (b ∙ ground arith))
      | inr c ↦
          let (a, b) =
            collect-offers t now pred x es (merge_unique v4 e.ipv4) (merge_unique v6 e.ipv6) h in
          let m = any-merge x v4 e.ipv4 h in
          let n = any-merge x v6 e.ipv6 h in (rw c (a ∙ ground arith), rw c (b ∙ ground arith))
    ]

or_none : (b : Bool) → (false || b) ≡ b
or_none b = ground arith

module _ (vlans : Vlanmatch.Table) (parse_ip : GoString → Option Ip) where
  -- Which entries a name stands for: those that its promoted selector picks, and without one those
  -- published under the name.
  abbrev pub stands_for : Table → GoString → Option Selector → Entry → Bool
  stands_for t name (some sel) e = selects vlans parse_ip sel e
  stands_for t name none e = e.published && str_eq e.name name

  -- The answer has the address exactly if a live entry for which the name stands has it.
  abbrev pub Answers :
      Table → ℤ → (Entry → Bool) → GoString → List GoString × List GoString → Type 0
  Answers t now pred x r =
      (any (str_eq x) r.0 ≡ offers t now pred (λ e. e.ipv4) x t.entries)
      × (any (str_eq x) r.1 ≡ offers t now pred (λ e. e.ipv6) x t.entries)

  collect-Answers :
      (t : Table) (now : ℤ) (pred : Entry → Bool) (x : GoString)
      → is_empty x ≡ false
      → Answers t now pred x (collect t now pred t.entries ([], []))
  collect-Answers t now pred x h =
      let (a, b) = collect-offers t now pred x t.entries [] [] h in (a ∙ or_none _, b ∙ or_none _)

  any_nil : (x : GoString) (xs : List GoString) → is_nil xs ≡ true → any (str_eq x) xs ≡ false
  any_nil x [] h = refl
  any_nil x (y ∷ ys) h = cc

  -- What `Resolve` says of an address under a name. Not answering means that no live entry has it.
  abbrev pub IsResolved :
      Table → ℤ → (Entry → Bool) → GoString → Option (List GoString × List GoString) → Type 0
  IsResolved t now pred x (some r) = Answers t now pred x r
  IsResolved t now pred x none =
      (offers t now pred (λ e. e.ipv4) x t.entries ≡ false)
      × (offers t now pred (λ e. e.ipv6) x t.entries ≡ false)

  pub promoted_resolve :
      (t : Table) (qname : GoString) (now : ℤ) (sel : Selector)
      → lookup string_discrete (fqdn qname) t.cfg.promoted ≡ some sel
      → resolve vlans parse_ip t qname now
        ≡ some (collect t now (selects vlans parse_ip sel) t.entries ([], []))
  unfolding resolve
  promoted_resolve t qname now sel h = ground arith

  pub plain_resolve :
      (t : Table) (qname : GoString) (now : ℤ)
      → lookup string_discrete (fqdn qname) t.cfg.promoted ≡ none
      → let r = collect t now (λ e. e.published && str_eq e.name (fqdn qname)) t.entries ([], []) in
        resolve vlans parse_ip t qname now
        ≡ (if is_nil r.0 && is_nil r.1 then none else some (r.0, r.1))
  unfolding resolve
  plain_resolve t qname now h = ground arith

  -- `Resolve` answers a name with exactly the addresses of the entries, not expired, for which the
  -- name stands: by the promoted selector of the name, which is answered even when no entry matches,
  -- or else by their published mapped name. It leaves a name to the next plugin only if no such
  -- entry has an address.
  pub resolve-IsResolved :
      (t : Table) (qname : GoString) (now : ℤ) (x : GoString)
      → is_empty x ≡ false
      → let promoted = lookup string_discrete (fqdn qname) t.cfg.promoted in
        IsResolved t now (stands_for t (fqdn qname) promoted) x (resolve vlans parse_ip t qname now)
        × ((sel : Selector) → promoted ≡ some sel → resolve vlans parse_ip t qname now ≢ none)
  resolve-IsResolved t qname now x h =
      elim (Option-cases (lookup string_discrete (fqdn qname) t.cfg.promoted)) [
        | inr (sel, e) ↦ (
          subst
              (λ p.
                IsResolved t now (stands_for t (fqdn qname) p) x
                  (resolve vlans parse_ip t qname now))
              (sym e)
              (subst (IsResolved t now (selects vlans parse_ip sel) x)
                (sym (promoted_resolve t qname now sel e))
                (collect-Answers t now (selects vlans parse_ip sel) x h)),
          λ s q n. cc (promoted_resolve t qname now sel e, n),
        )
        | inl e ↦ (
          subst
              (λ p.
                IsResolved t now (stands_for t (fqdn qname) p) x
                  (resolve vlans parse_ip t qname now))
              (sym e)
              (subst (IsResolved t now (stands_for t (fqdn qname) none) x)
                (sym (plain_resolve t qname now e))
                (split (collect t now (stands_for t (fqdn qname) none) t.entries ([], []))
                  (collect-Answers t now (stands_for t (fqdn qname) none) x h))),
          λ s q. cc (e, q),
        )
      ]
    where
      split :
          (r : List GoString × List GoString)
          → Answers t now (stands_for t (fqdn qname) none) x r
          → IsResolved t now
              (stands_for t (fqdn qname) none)
              x
              (if is_nil r.0 && is_nil r.1 then none else some (r.0, r.1))
      split ([], []) a = (sym a.0, sym a.1)
      split (y ∷ ys, v6) a = a
      split ([], y ∷ ys) a = a
