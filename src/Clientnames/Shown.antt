-- ===== src/Clientnames/Shown.antt =====
-- plugins/clientnames/table.go: what Snapshot shows against what Resolve answers.
use bramble_gate.Prelude.{
  ℕ, ◌≡◌, refl, sym, subst, ◌∙◌, inl, inr, not, Option, none, some, List, [], ◌∷◌, GoString,
  string_discrete, lookup, count, map, All, All_weaken, is_some, any, arith, Unique, Ip, Bool-cases,
  if◌then◌else◌, str_eq, sort_by-All, count-sort_by, str_eq_refl, str_eq→eq,
}
use bramble_gate.Prelude.Int.{ℤ}
use bramble_gate.Clientnames.{
  Entry, Table, Config, Source, source_none, source_ptr, is_none, is_ptr, new_table, resolve_live,
  resolve, shown, snapshot,
}
use bramble_gate.Clientnames.Valid.{Cached, IsOwn}
use bramble_gate.Clientnames.Runs.{Op, run_all, run_all-IsValid}
use bramble_gate.Clientnames.Seen.{observes, has-run_all}

-- In a map without a repeated key, each pair is the one that its key finds.
abbrev IsFound : List (GoString × Entry) → GoString × Entry → Type 0
IsFound m p = lookup string_discrete p.0 m ≡ some p.1

all-IsFound : (m : List (GoString × Entry)) → Unique string_discrete m → All (IsFound m) m
unfolding lookup
all-IsFound [] u = tt
all-IsFound ((k, v) ∷ m) u = (
  ground (arith, str_eq_refl k),
  All_weaken (IsFound m) (IsFound ((k, v) ∷ m)) m (λ p h. past p h) (all-IsFound m u.1),
)
  where
    past : (p : GoString × Entry) → IsFound m p → IsFound ((k, v) ∷ m) p
    past p h = elim (Bool-cases (str_eq k p.0)) [
      | inl e ↦
          let clash = subst (λ j. lookup string_discrete j m ≡ none) (str_eq→eq k p.0 e) u.0 in cc
      | inr e ↦ rw e h
    ]

-- How often an address stands in a list of entries.
abbrev pub times : GoString → List Entry → ℕ
times ip es = count (λ e. str_eq e.ip ip) es

cached_answer :
    (e : Entry)
    → Cached e
    → ◌≡◌ {A = GoString × Source}
        (if is_ptr e.source then (e.hostname, source_ptr) else ([], source_none))
        (e.hostname, e.source)
cached_answer e (inl c) = cc
cached_answer e (inr c) = cc

module _ (parse_ip : GoString → Option Ip) (t : Table) (now : ℤ) where
  -- An entry that shows what Resolve answers for its address.
  abbrev pub Agrees : Entry → Type 0
  Agrees e = resolve parse_ip t now e.ip ≡ (e.hostname, e.source)

  shown-Agrees :
      (p : GoString × Entry) → IsOwn p → IsFound t.entries p → Agrees (shown parse_ip t.cfg now p.1)
  unfolding resolve
  shown-Agrees (k, e) o f =
      elim (Bool-cases (not (is_none (resolve_live parse_ip t.cfg now e.ip).1))) [
        | inl live ↦ rw (live, resolve) (rw live refl)
        | inr unnamed ↦
            let g = subst (λ j. lookup string_discrete j t.entries ≡ some e) (sym o.0) f in
            rw (unnamed, resolve) (rw unnamed (rw g (cached_answer e o.1)))
      ]

  entries-Agree :
      (m : List (GoString × Entry))
      → All IsOwn m
      → All (IsFound t.entries) m
      → All Agrees (map (λ p. shown parse_ip t.cfg now p.1) m)
  entries-Agree [] o f = tt
  entries-Agree (p ∷ m) o f = (shown-Agrees p o.0 f.0, entries-Agree m o.1 f.1)

  shown-ip : (e : Entry) → (shown parse_ip t.cfg now e).ip ≡ e.ip
  shown-ip e = ground arith

  times-shown :
      (ip : GoString) (m : List (GoString × Entry))
      → Unique string_discrete m
      → All IsOwn m
      → times ip (map (λ p. shown parse_ip t.cfg now p.1) m)
        ≡ (if is_some (lookup string_discrete ip m) then 1 else 0)
  unfolding lookup
  times-shown ip [] u o = refl
  times-shown ip ((k, e) ∷ m) u o = ground (arith, times-shown ip m u.1 o.1, shown-ip e)

-- Whatever operations run on a new table, in any order, Snapshot then shows every address that has
-- been observed, the empty text aside, once, and no other; and the name and the source that it shows for an address are
-- the answer of Resolve.
pub snapshot-Agrees :
    (parse_ip : GoString → Option Ip) (ops : List Op) (cfg : Config) (now : ℤ)
    → let t = run_all parse_ip ops (new_table cfg) in
      All (Agrees parse_ip t now) (snapshot parse_ip t now)
      × ((ip : GoString)
          → times ip (snapshot parse_ip t now) ≡ (if any (observes ip) ops then 1 else 0))
unfolding snapshot new_table lookup
snapshot-Agrees parse_ip ops cfg now =
    let t = run_all parse_ip ops (new_table cfg) in
    let v =
      run_all-IsValid parse_ip ops (new_table cfg)
        record { unique = tt; own = tt; bounded = ground arith; queued = tt } in
    (
      sort_by-All _ (Agrees parse_ip t now) _
          (entries-Agree parse_ip t now t.entries v.own (all-IsFound t.entries v.unique)),
      λ ip.
          count-sort_by _ (λ e. str_eq e.ip ip) _
          ∙ times-shown parse_ip t now ip t.entries v.unique v.own
          ∙ ground (arith, has-run_all parse_ip ops (new_table cfg) ip),
    )
