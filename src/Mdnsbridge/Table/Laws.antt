-- ===== src/Mdnsbridge/Table/Laws.antt =====
-- plugins/mdnsbridge/table.go: every entry's derived fields agree with the configuration.
use bramble_gate.Prelude.{
  ◌≡◌, refl, ◌∙◌, ap, ap₂, any, codes, trim_dot, inl, inr, Bool, true, ◌||◌, Option, List, [], ◌∷◌,
  ◌++◌, Bool-cases, arith, if◌then◌else◌, GoString, str_eq, string_discrete, is_empty, insert,
  delete, same, select, Ip,
}
use bramble_gate.Vlanmatch
use bramble_gate.Mdnsbridge.Selector.{
  Entry, Selector, Config, txt_matches, family_matches, entry_in_vlan, first_suffix, selects,
  match_any, promoted_match,
}
use bramble_gate.Mdnsbridge.Table.{first_label, mapped_name, rederive, map_entries, approve}

module _ (vlans : Vlanmatch.Table) (parse_ip : GoString → Option Ip) where
  -- The mapped name, and the two derived flags, are those that the configuration gives.
  abbrev pub IsDerived : Config → Entry → Type 0
  IsDerived c e = rederive vlans parse_ip c e ≡ e

  abbrev pub AllDerived : Config → List (GoString × Entry) → Type 0
  AllDerived c [] = Unit
  AllDerived c ((k, e) ∷ es) = IsDerived c e × AllDerived c es

  -- An entry with other derived fields.
  abbrev derived : Entry → GoString → Bool → Bool → Entry
  derived e name published promoted = record e {
    name = name;
    published = published;
    promoted = promoted;
  }

  txt_derived :
      (ts : List (GoString × GoString)) (e : Entry) (n : GoString) (p q : Bool)
      → txt_matches ts (derived e n p q) ≡ txt_matches ts e
  unfolding txt_matches
  txt_derived [] e n p q = refl
  txt_derived ((k, want) ∷ ts) e n p q = ground (arith, txt_derived ts e n p q)

  selects-derived :
      (s : Selector) (e : Entry) (n : GoString) (p q : Bool)
      → selects vlans parse_ip s (derived e n p q) ≡ selects vlans parse_ip s e
  unfolding selects family_matches entry_in_vlan
  selects-derived s e n p q = rw (txt_derived s.txt e n p q) refl

  match_any-derived :
      (ss : List Selector) (e : Entry) (n : GoString) (p q : Bool)
      → match_any vlans parse_ip ss (derived e n p q) ≡ match_any vlans parse_ip ss e
  unfolding match_any
  match_any-derived [] e n p q = refl
  match_any-derived (s ∷ ss) e n p q =
      ap₂ (λ a b. if a then true else b) (selects-derived s e n p q) (match_any-derived ss e n p q)

  promoted_derived :
      (ps : List (GoString × Selector)) (e : Entry) (n : GoString) (p q : Bool)
      → any (λ r. selects vlans parse_ip r.1 (derived e n p q)) ps
        ≡ any (λ r. selects vlans parse_ip r.1 e) ps
  promoted_derived [] e n p q = refl
  promoted_derived (r ∷ ps) e n p q =
      ap₂ (λ a b. if a then true else b) (selects-derived r.1 e n p q) (promoted_derived ps e n p q)

  suffix_derived :
      (default : GoString) (rs : List (Selector × GoString)) (e : Entry) (n : GoString) (p q : Bool)
      → first_suffix vlans parse_ip default rs (derived e n p q)
        ≡ first_suffix vlans parse_ip default rs e
  suffix_derived default [] e n p q = refl
  suffix_derived default ((s, suffix) ∷ rs) e n p q =
      ap₂ (λ a b. if a then suffix else b) (selects-derived s e n p q)
        (suffix_derived default rs e n p q)

  name_derived :
      (c : Config) (e : Entry) (label : GoString) (p q : Bool)
      → mapped_name vlans parse_ip c (derived e (mapped_name vlans parse_ip c e label) p q) label
        ≡ mapped_name vlans parse_ip c e label
  name_derived c e label p q = elim (Bool-cases (is_empty label)) [
    | inl h ↦ rw h refl
    | inr h ↦ rw h (
        ap (λ x. label ++ (codes "." ++ (trim_dot x ++ codes ".")))
          (suffix_derived c.default_suffix c.naming e _ p q))
  ]

  -- Deriving again changes nothing: no selector reads a derived field.
  pub rederive-IsDerived : (c : Config) (e : Entry) → IsDerived c (rederive vlans parse_ip c e)
  unfolding rederive
  rederive-IsDerived c e =
      let n = mapped_name vlans parse_ip c e (first_label e.host) in
      let q = promoted_match vlans parse_ip c e in
      let p = (e.manual || match_any vlans parse_ip c.auto_publish e) || q in
      let same_promoted : promoted_match vlans parse_ip c (derived e n p q) ≡ q =
        promoted_derived c.promoted e n p q in
      let same_published : ((e.manual || match_any vlans parse_ip c.auto_publish (derived e n p q))
            || promoted_match vlans parse_ip c (derived e n p q))
          ≡ p =
        ap₂ (λ a b. (e.manual || a) || b) (match_any-derived c.auto_publish e n p q)
          same_promoted in
      ap₂ (derived e (mapped_name vlans parse_ip c (derived e n p q) (first_label e.host)))
        same_published same_promoted
      ∙ ap (λ x. derived e x p q) (name_derived c e (first_label e.host) p q)

  pub map_entries-AllDerived :
      (c : Config) (f : Entry → Entry) (es : List (GoString × Entry))
      → ((e : Entry) → IsDerived c e → IsDerived c (f e))
      → AllDerived c es
      → AllDerived c (map_entries vlans parse_ip f es)
  map_entries-AllDerived c f [] h v = tt
  map_entries-AllDerived c f ((k, e) ∷ es) h v = (h e v.0, map_entries-AllDerived c f es h v.1)

  pub rederived_entries :
      (c : Config) (es : List (GoString × Entry))
      → AllDerived c (map_entries vlans parse_ip (rederive vlans parse_ip c) es)
  rederived_entries c [] = tt
  rederived_entries c ((k, e) ∷ es) = (rederive-IsDerived c e, rederived_entries c es)

  pub insert-AllDerived :
      (c : Config) (k : GoString) (e : Entry) (es : List (GoString × Entry))
      → IsDerived c e
      → AllDerived c es
      → AllDerived c (insert string_discrete k e es)
  unfolding insert
  insert-AllDerived c k e [] d v = (d, tt)
  insert-AllDerived c k e ((j, w) ∷ es) d v = elim (Bool-cases (same string_discrete j k)) [
    | inl h ↦ rw h (d, v.1)
    | inr h ↦ rw h (v.0, insert-AllDerived c k e es d v.1)
  ]

  pub delete-AllDerived :
      (c : Config) (k : GoString) (es : List (GoString × Entry))
      → AllDerived c es
      → AllDerived c (delete string_discrete k es)
  unfolding delete
  delete-AllDerived c k [] v = tt
  delete-AllDerived c k ((j, w) ∷ es) v = elim (Bool-cases (same string_discrete j k)) [
    | inl h ↦ rw h (delete-AllDerived c k es v.1)
    | inr h ↦ rw h (v.0, delete-AllDerived c k es v.1)
  ]

  pub select-AllDerived :
      (c : Config) (f : GoString × Entry → Bool) (es : List (GoString × Entry))
      → AllDerived c es
      → AllDerived c (select f es)
  select-AllDerived c f [] v = tt
  select-AllDerived c f ((k, e) ∷ es) v = elim (Bool-cases (f (k, e))) [
    | inl h ↦ rw h (v.0, select-AllDerived c f es v.1)
    | inr h ↦ rw h (select-AllDerived c f es v.1)
  ]

  pub approve-IsDerived :
      (c : Config) (target : GoString) (published : Bool) (e : Entry)
      → IsDerived c e
      → IsDerived c (approve vlans parse_ip c target published e)
  approve-IsDerived c target published e d = elim (Bool-cases (str_eq e.name target)) [
    | inl h ↦ rw h (rederive-IsDerived c (record e { manual = published }))
    | inr h ↦ rw h d
  ]
