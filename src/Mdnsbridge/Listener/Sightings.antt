-- ===== src/Mdnsbridge/Listener/Sightings.antt =====
-- plugins/mdnsbridge/listener.go: when the table last saw an instance, and what each operation on the
-- table changes of that.
use bramble_gate.Prelude.{
  ◌≡◌, refl, ap, ◌∙◌, inl, inr, Bool, true, false, not, Option, none, some, List, [], ◌∷◌,
  Bool-cases, Option-cases, arith, if◌then◌else◌, GoString, str_eq, str_eq→eq, subst,
  string_discrete, is_empty, lookup, lookup-insert, lookup-delete, lookup-select, insert, select,
  Unique, insert-Unique, delete-Unique, Ip,
}
use bramble_gate.Prelude.Int.{ℤ, pos, ◌-ℤ◌, ltb_ℤ}
use bramble_gate.Vlanmatch
use bramble_gate.Mdnsbridge.Selector.{Entry, Config}
use bramble_gate.Mdnsbridge.Table as Discoveries
use bramble_gate.Mdnsbridge.Listener.{Found, host_of, ingest}

-- The key under which an instance of a service stands.
abbrev pub key_of : GoString → Found → GoString
key_of service e = Discoveries.entry_key service e.instance_label (host_of e)

-- When an instance was last announced, and the lifetime that it announced.
pub record Sighting : Type 0 where
  pub at : ℤ
  pub ttl : ℤ

abbrev pub sighting_of : Option Entry → Option Sighting
sighting_of none = none
sighting_of (some e) = some (record { at = e.last_seen; ttl = e.ttl })

abbrev pub sighted : GoString → Discoveries.Table → Option Sighting
sighted k t = sighting_of (lookup string_discrete k t.entries)

-- An announcement without a lifetime leaves the one announced before.
abbrev pub announce : ℤ → ℤ → Option Sighting → Option Sighting
announce now ttl none = some (record { at = now; ttl = ttl })
announce now ttl (some old) =
    some (record { at = now; ttl = if ltb_ℤ (pos 0) ttl then ttl else old.ttl })

-- A sighting is over once its lifetime, or the table's without one, is exceeded.
abbrev pub outlive : ℤ → ℤ → Option Sighting → Option Sighting
outlive fallback now none = none
outlive fallback now (some s) =
    if ltb_ℤ (if ltb_ℤ (pos 0) s.ttl then s.ttl else fallback) (now -ℤ s.at) then none else some s

sighting_if :
    (b : Bool) (o : Option Entry)
    → sighting_of (if b then none else o) ≡ (if b then none else sighting_of o)
sighting_if true o = refl
sighting_if false o = refl

pub sighted-remove :
    (k service label host : GoString) (t : Discoveries.Table)
    → sighted k (Discoveries.remove t service label host).0
      ≡ (if str_eq (Discoveries.entry_key service label host) k then none else sighted k t)
unfolding Discoveries.remove
sighted-remove k service label host t =
    let key = Discoveries.entry_key service label host in
    elim (Option-cases (lookup string_discrete key t.entries)) [
      | inr (e, there) ↦
          rw (there, Discoveries.remove)
            (ap sighting_of (lookup-delete string_discrete key k t.entries)
              ∙ sighting_if (str_eq key k) _)
      | inl absent ↦
          rw (absent, Discoveries.remove)
            (elim (Bool-cases (str_eq key k)) [
              | inr apart ↦ rw apart refl
              | inl same_key ↦ rw same_key (
                  subst (λ j. sighting_of (lookup string_discrete j t.entries) ≡ none)
                    (str_eq→eq key k same_key) (rw absent refl))
            ])
    ]

pub select-Unique :
    (f : Entry → Bool) (m : List (GoString × Entry))
    → Unique string_discrete m
    → Unique string_discrete (select (λ p. f p.1) m)
select-Unique f [] u = tt
select-Unique f ((k, e) ∷ m) u =
    ground (arith, lookup-select string_discrete f k m u.1, select-Unique f m u.1)

outlived :
    (t : Discoveries.Table) (now : ℤ) (o : Option Entry)
    → sighting_of (elim o [
      | none ↦ none
      | some e ↦ if not (Discoveries.expired t now e) then some e else none
    ])
      ≡ outlive t.ttl now (sighting_of o)
unfolding Discoveries.expired
outlived t now none = refl
outlived t now (some e) = ground arith

pub sighted-expire :
    (k : GoString) (t : Discoveries.Table) (now : ℤ)
    → Unique string_discrete t.entries
    → sighted k (Discoveries.expire t now).0 ≡ outlive t.ttl now (sighted k t)
unfolding Discoveries.expire
sighted-expire k t now u =
    ap sighting_of
      (lookup-select string_discrete (λ e. not (Discoveries.expired t now e)) k t.entries u)
    ∙ outlived t now (lookup string_discrete k t.entries)

module _ (vlans : Vlanmatch.Table) (parse_ip : GoString → Option Ip) where
  sighting_put :
      (b : Bool) (e : Entry) (o : Option Entry)
      → sighting_of (if b then some e else o) ≡ (if b then sighting_of (some e) else sighting_of o)
  sighting_put true e o = refl
  sighting_put false e o = refl

  -- What is written under the key is the announcement of what was found there.
  announced_of :
      (k key : GoString) (t : Discoveries.Table) (now ttl : ℤ) (found : Option Entry) (e : Entry)
      → lookup string_discrete key t.entries ≡ found
      → sighting_of (some e) ≡ announce now ttl (sighting_of found)
      → sighting_of (lookup string_discrete k (insert string_discrete key e t.entries))
        ≡ (if str_eq key k then announce now ttl (sighted k t) else sighted k t)
  announced_of k key t now ttl found e there same_sighting =
      ap sighting_of (lookup-insert string_discrete key k e t.entries)
      ∙ sighting_put (str_eq key k) e _
      ∙ elim (Bool-cases (str_eq key k)) [
        | inr apart ↦ rw apart refl
        | inl same_key ↦
            let here : lookup string_discrete k t.entries ≡ found =
              subst (λ j. lookup string_discrete j t.entries ≡ found) (str_eq→eq key k same_key)
                there in
            rw (same_key, here) same_sighting
      ]

  sighted-upsert :
      (k : GoString) (t : Discoveries.Table) (e : Entry) (now : ℤ)
      → sighted k (Discoveries.upsert vlans parse_ip t e now) ≡ (
          if str_eq (Discoveries.entry_key e.service e.instance_label e.host) k
          then announce now e.ttl (sighted k t)
          else sighted k t)
  unfolding Discoveries.upsert Discoveries.rederive Discoveries.announced
  sighted-upsert k t e now =
      let key = Discoveries.entry_key e.service e.instance_label e.host in
      elim (Option-cases (lookup string_discrete key t.entries)) [
        | inr (cur, there) ↦
            rw (there, Discoveries.upsert) (announced_of k key t now e.ttl (some cur) _ there refl)
        | inl absent ↦
            rw (absent, Discoveries.upsert) (announced_of k key t now e.ttl none _ absent refl)
      ]

  upsert-Unique :
      (t : Discoveries.Table) (e : Entry) (now : ℤ)
      → Unique string_discrete t.entries
      → Unique string_discrete (Discoveries.upsert vlans parse_ip t e now).entries
  unfolding Discoveries.upsert
  upsert-Unique t e now u =
      let key = Discoveries.entry_key e.service e.instance_label e.host in
      elim (Option-cases (lookup string_discrete key t.entries)) [
        | inr (cur, there) ↦
            rw (there, Discoveries.upsert) (insert-Unique string_discrete key _ t.entries u)
        | inl absent ↦
            rw (absent, Discoveries.upsert) (insert-Unique string_discrete key _ t.entries u)
      ]

  pub remove-Unique :
      (t : Discoveries.Table) (service label host : GoString)
      → Unique string_discrete t.entries
      → Unique string_discrete (Discoveries.remove t service label host).0.entries
  unfolding Discoveries.remove
  remove-Unique t service label host u =
      let key = Discoveries.entry_key service label host in
      elim (Option-cases (lookup string_discrete key t.entries)) [
        | inr (cur, there) ↦
            rw (there, Discoveries.remove) (delete-Unique string_discrete key t.entries u)
        | inl absent ↦ rw (absent, Discoveries.remove) u
      ]

  pub sighted-ingest :
      (k service : GoString) (t : Discoveries.Table) (e : Found) (now : ℤ)
      → sighted k (ingest vlans parse_ip t service e now) ≡ (
          if str_eq (key_of service e) k
          then (if is_empty (host_of e) then sighted k t else announce now e.ttl (sighted k t))
          else sighted k t)
  unfolding ingest
  sighted-ingest k service t e now = elim (Bool-cases (is_empty (host_of e))) [
    | inl hostless ↦ rw (hostless, ingest) (same_either (str_eq (key_of service e) k) (sighted k t))
    | inr named ↦ rw (named, ingest) (sighted-upsert k t _ now)
  ]
    where
      same_either : (c : Bool) (b : Option Sighting) → b ≡ (if c then b else b)
      same_either true b = refl
      same_either false b = refl

  pub ingest-Unique :
      (t : Discoveries.Table) (service : GoString) (e : Found) (now : ℤ)
      → Unique string_discrete t.entries
      → Unique string_discrete (ingest vlans parse_ip t service e now).entries
  unfolding ingest
  ingest-Unique t service e now u = elim (Bool-cases (is_empty (host_of e))) [
    | inl hostless ↦ rw (hostless, ingest) u
    | inr named ↦ rw (named, ingest) (upsert-Unique t _ now u)
  ]

  -- A change of every entry that keeps its sighting.
  module _ (f : Entry → Entry)
      (keeps : (e : Entry) → sighting_of (some (f e)) ≡ sighting_of (some e)) where
    pub sighting-map_entries :
        (k : GoString) (m : List (GoString × Entry))
        → sighting_of (lookup string_discrete k (Discoveries.map_entries vlans parse_ip f m))
          ≡ sighting_of (lookup string_discrete k m)
    unfolding lookup
    sighting-map_entries k [] = refl
    sighting-map_entries k ((j, e) ∷ m) = ground (arith, sighting-map_entries k m, keeps e)

    map_entries-absent :
        (k : GoString) (m : List (GoString × Entry))
        → lookup string_discrete k m ≡ none
        → lookup string_discrete k (Discoveries.map_entries vlans parse_ip f m) ≡ none
    unfolding lookup
    map_entries-absent k [] h = refl
    map_entries-absent k ((j, e) ∷ m) h = ground (arith, map_entries-absent k m)

    pub map_entries-Unique :
        (m : List (GoString × Entry))
        → Unique string_discrete m
        → Unique string_discrete (Discoveries.map_entries vlans parse_ip f m)
    map_entries-Unique [] u = tt
    map_entries-Unique ((k, e) ∷ m) u = (map_entries-absent k m u.0, map_entries-Unique m u.1)

  pub rederive-sighting :
      (c : Config) (e : Entry)
      → sighting_of (some (Discoveries.rederive vlans parse_ip c e)) ≡ sighting_of (some e)
  unfolding Discoveries.rederive
  rederive-sighting c e = refl

  pub approve-sighting :
      (c : Config) (target : GoString) (flag : Bool) (e : Entry)
      → sighting_of (some (Discoveries.approve vlans parse_ip c target flag e))
        ≡ sighting_of (some e)
  unfolding Discoveries.rederive
  approve-sighting c target flag e = elim (Bool-cases (str_eq e.name target)) [
    | inl h ↦ rw h refl
    | inr h ↦ rw h refl
  ]
