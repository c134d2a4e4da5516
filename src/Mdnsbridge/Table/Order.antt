-- ===== src/Mdnsbridge/Table/Order.antt =====
-- plugins/mdnsbridge/table.go: the order in which Go ranges over a map does not show in an answer.
use bramble_gate.Prelude.{
  ◌≡◌, refl, sym, subst, ap, ap₂, ◌∙◌, inl, inr, Bool, true, false, ◌&&◌, ◌||◌, not, Option, none,
  some, List, [], ◌∷◌, ◌++◌, any, count, is_nil, Option-cases, Bool-cases, arith, if◌then◌else◌,
  ltb, GoString, str_eq, str_eq→eq, str_eq_refl, string_discrete, is_empty, lookup, Ip,
}
use bramble_gate.Prelude.Distinct.{Distinct}
use bramble_gate.Prelude.Ascending.{
  Ascending, Ascending-ext, sort_strings-Ascending, any-sort_strings,
}
use bramble_gate.Prelude.Int.{ℤ}
use bramble_gate.Vlanmatch
use bramble_gate.Mdnsbridge.Selector.{Entry, selects}
use bramble_gate.Mdnsbridge.Table.{
  Table, fqdn, unique_from, merge_unique, expired, collect, resolve,
}
use bramble_gate.Mdnsbridge.Table.Resolve.{collect-offers, promoted_resolve, plain_resolve}

-- The same entries, as often, in any order.
abbrev pub SameEntries : List (GoString × Entry) → List (GoString × Entry) → Type 0
SameEntries es fs = (p : GoString × Entry → Bool) → count p es ≡ count p fs

any_counted :
    (p : GoString × Entry → Bool) (es : List (GoString × Entry)) → any p es ≡ ltb 0 (count p es)
any_counted p [] = refl
any_counted p (e ∷ es) = ground (arith, any_counted p es)

SameEntries-any :
    (es fs : List (GoString × Entry))
    → SameEntries es fs
    → (p : GoString × Entry → Bool) → any p es ≡ any p fs
SameEntries-any es fs h p = any_counted p es ∙ (ap (ltb 0) (h p) ∙ sym (any_counted p fs))

-- What was seen is not given again, so that nothing is given twice.
unique_from-seen :
    (t : GoString) (seen ss : List GoString)
    → any (str_eq t) seen ≡ true
    → any (str_eq t) (unique_from seen ss) ≡ false
unfolding unique_from
unique_from-seen t seen [] h = refl
unique_from-seen t seen (s ∷ ss) h =
    elim (Bool-cases (not (is_empty s) && not (any (str_eq s) seen))) [
      | inr c ↦ rw c (unique_from-seen t seen ss h)
      | inl c ↦ elim (Bool-cases (str_eq t s)) [
        | inr n ↦ rw c (rw n (unique_from-seen t (s ∷ seen) ss (rw n h)))
        | inl e ↦
            let was : any (str_eq s) seen ≡ true =
              subst (λ x. any (str_eq x) seen ≡ true) (str_eq→eq t s e) h in
            let impossible : ⊥ = ground (arith, c, was) in absurd impossible
      ]
    ]

unique_from-Distinct : (seen ss : List GoString) → Distinct (unique_from seen ss)
unfolding unique_from
unique_from-Distinct seen [] = tt
unique_from-Distinct seen (s ∷ ss) =
    elim (Bool-cases (not (is_empty s) && not (any (str_eq s) seen))) [
      | inl c ↦ rw c (
        unique_from-seen s (s ∷ seen) ss (ground (arith, str_eq_refl s)),
        unique_from-Distinct (s ∷ seen) ss,
      )
      | inr c ↦ rw c (unique_from-Distinct seen ss)
    ]

unique_from-full : (seen ss : List GoString) → any (str_eq []) (unique_from seen ss) ≡ false
unfolding unique_from string_discrete
unique_from-full seen [] = refl
unique_from-full seen ([] ∷ ss) = unique_from-full seen ss
unique_from-full seen ((c ∷ s) ∷ ss) = elim (Bool-cases (not (any (str_eq (c ∷ s)) seen))) [
  | inl n ↦ rw n (unique_from-full ((c ∷ s) ∷ seen) ss)
  | inr n ↦ rw n (unique_from-full seen ss)
]

-- A list of addresses as `mergeUnique` leaves it: ascending, and none empty.
abbrev IsMerged : List GoString → Type 0
IsMerged xs = Ascending xs × (any (str_eq []) xs ≡ false)

merge_unique-IsMerged : (a b : List GoString) → IsMerged (merge_unique a b)
unfolding merge_unique
merge_unique-IsMerged a b = (
  sort_strings-Ascending _ (unique_from-Distinct [] (a ++ b)),
  any-sort_strings (str_eq []) (unique_from [] (a ++ b)) ∙ unique_from-full [] (a ++ b),
)

collect-IsMerged :
    (t : Table) (now : ℤ) (pred : Entry → Bool) (es : List (GoString × Entry))
    (v4 v6 : List GoString)
    → IsMerged v4
    → IsMerged v6
    → let r = collect t now pred es (v4, v6) in IsMerged r.0 × IsMerged r.1
unfolding collect
collect-IsMerged t now pred [] v4 v6 a b = (a, b)
collect-IsMerged t now pred ((k, e) ∷ es) v4 v6 a b =
    elim (Bool-cases (expired t now e || not (pred e))) [
      | inl c ↦ rw c (collect-IsMerged t now pred es v4 v6 a b)
      | inr c ↦ rw c (
          collect-IsMerged t now pred es (merge_unique v4 e.ipv4) (merge_unique v6 e.ipv6)
            (merge_unique-IsMerged v4 e.ipv4) (merge_unique-IsMerged v6 e.ipv6))
    ]

IsMerged-ext :
    (xs ys : List GoString)
    → IsMerged xs
    → IsMerged ys
    → ((x : GoString) → is_empty x ≡ false → any (str_eq x) xs ≡ any (str_eq x) ys)
    → xs ≡ ys
IsMerged-ext xs ys a b h = Ascending-ext xs ys a.0 b.0 each
  where
    each : (x : GoString) → any (str_eq x) xs ≡ any (str_eq x) ys
    each [] = a.1 ∙ sym b.1
    each (c ∷ x) = h (c ∷ x) refl

-- The same live entries are collected, whatever their order.
collect_same :
    (t : Table) (now : ℤ) (pred : Entry → Bool) (es : List (GoString × Entry))
    → SameEntries t.entries es
    → collect t now pred t.entries ([], [])
      ≡ collect (record t { entries = es }) now pred es ([], [])
unfolding expired
collect_same t now pred es h =
    let u = record t { entries = es } in
    let a = collect-IsMerged t now pred t.entries [] [] (tt, refl) (tt, refl) in
    let b = collect-IsMerged u now pred es [] [] (tt, refl) (tt, refl) in
    ap₂ (λ x y. (x, y))
      (IsMerged-ext _ _ a.0 b.0 (λ x k.
        (collect-offers t now pred x t.entries [] [] k).0
        ∙ (ap (λ w. false || w) (SameEntries-any t.entries es h _)
            ∙ sym (collect-offers u now pred x es [] [] k).0)))
      (IsMerged-ext _ _ a.1 b.1 (λ x k.
        (collect-offers t now pred x t.entries [] [] k).1
        ∙ (ap (λ w. false || w) (SameEntries-any t.entries es h _)
            ∙ sym (collect-offers u now pred x es [] [] k).1)))

-- `Resolve` gives the same answer, addresses in the same order, whatever the order in which Go
-- ranges over the table's entries.
pub resolve-SameEntries :
    (vlans : Vlanmatch.Table) (parse_ip : GoString → Option Ip) (t : Table)
    (es : List (GoString × Entry)) (qname : GoString) (now : ℤ)
    → SameEntries t.entries es
    → resolve vlans parse_ip t qname now
      ≡ resolve vlans parse_ip (record t { entries = es }) qname now
resolve-SameEntries vlans parse_ip t es qname now h =
    let u = record t { entries = es } in
    elim (Option-cases (lookup string_discrete (fqdn qname) t.cfg.promoted)) [
      | inr (sel, e) ↦
          promoted_resolve vlans parse_ip t qname now sel e
          ∙ (ap some (collect_same t now (selects vlans parse_ip sel) es h)
              ∙ sym (promoted_resolve vlans parse_ip u qname now sel e))
      | inl e ↦
          plain_resolve vlans parse_ip t qname now e
          ∙ (ap (λ r. if is_nil r.0 && is_nil r.1 then none else some (r.0, r.1))
                (collect_same t now (λ e. e.published && str_eq e.name (fqdn qname)) es h)
              ∙ sym (plain_resolve vlans parse_ip u qname now e))
    ]
