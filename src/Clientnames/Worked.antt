-- ===== src/Clientnames/Worked.antt =====
-- plugins/clientnames/table.go: the worker of `Run` serves what Observe has queued.
use bramble_gate.Prelude.{
  ℕ, zero, suc, ◌≡◌, refl, sym, subst, ◌∙◌, inl, inr, ◌<◌, false, Option, none, some, List, [], ◌∷◌,
  ◌++◌, GoString, string_discrete, lookup, insert, lookup-insert, length, is_empty, Bool-cases,
  if◌then◌else◌, str_eq, str_eq_refl, lt→ltb, Ip,
}
use bramble_gate.Prelude.Int.{ℤ}
use bramble_gate.Clientnames.{
  Entry, Table, Config, Network, Source, source_ptr, source_none, is_ptr, resolver_for, lookup_ptr,
  attempt_ptr, work, observe, resolve, resolve_live, first_sight,
}
use bramble_gate.Clientnames.Swept.{
  answered, refreshed-vlan, after, attempt_ptr-cfg, attempt_ptr-queue, lookup-attempt_ptr,
}

-- The worker's loop, for a number of addresses from the queue.
abbrev pub drain : Network → ℤ → ℕ → Table → Table
drain net now zero t = t
drain net now (suc n) t = drain net now n (work net t now)

-- The address has an entry, of the VLAN.
abbrev KnownIn : GoString → GoString → Option Entry → Type 0
KnownIn vlan ip none = ⊥
KnownIn vlan ip (some e) = e.vlan ≡ vlan

after-KnownIn :
    (net : Network) (cfg : Config) (now : ℤ) (vlan j ip : GoString) (o : Option Entry)
    → KnownIn vlan ip o
    → KnownIn vlan ip (after net cfg now j ip o)
after-KnownIn net cfg now vlan j ip none k = k
after-KnownIn net cfg now vlan j ip (some e) k = elim (Bool-cases (str_eq j ip)) [
  | inl s ↦ rw s (refreshed-vlan (answered net cfg e.vlan j) now e ∙ k)
  | inr s ↦ rw s k
]

-- The address is found, with the name and the source of a PTR answer.
abbrev NamedBy : GoString → Option Entry → Type 0
NamedBy host none = ⊥
NamedBy host (some e) = (e.hostname ≡ host) × (e.source ≡ source_ptr)

after-NamedBy :
    (net : Network) (cfg : Config) (now : ℤ) (vlan ip host : GoString) (o : Option Entry)
    → answered net cfg vlan ip ≡ some host
    → KnownIn vlan ip o
    → NamedBy host (after net cfg now ip ip o)
after-NamedBy net cfg now vlan ip host none a k = k
after-NamedBy net cfg now vlan ip host (some e) a k = rw (str_eq_refl ip) (rw k (rw a (refl, refl)))

work-cons :
    (net : Network) (now : ℤ) (t : Table) (j : GoString) (rest : List GoString)
    → t.resolve_q ≡ j ∷ rest
    → work net t now ≡ attempt_ptr net (record t { resolve_q = rest }) now j
unfolding work
work-cons net now t j rest e = rw e refl

module _ (net : Network) (now : ℤ) (vlan ip host : GoString) where
  drained :
      (q : List GoString) (t : Table)
      → answered net t.cfg vlan ip ≡ some host
      → KnownIn vlan ip (lookup string_discrete ip t.entries)
      → t.resolve_q ≡ q ++ (ip ∷ [])
      → let u = drain net now (suc (length q)) t in
        (u.cfg ≡ t.cfg) × NamedBy host (lookup string_discrete ip u.entries)
  drained [] t a k e =
      let u = record t { resolve_q = [] } in
      rw (work-cons net now t ip [] e) (
        attempt_ptr-cfg net u now ip,
        rw (lookup-attempt_ptr net u now ip ip) (after-NamedBy net t.cfg now vlan ip host _ a k),
      )
  drained (j ∷ q) t a k e =
      let u = record t { resolve_q = q ++ (ip ∷ []) } in
      let w = attempt_ptr net u now j in
      let same_cfg = attempt_ptr-cfg net u now j in
      let (kept, done_so) =
        drained q w (subst (λ c. answered net c vlan ip ≡ some host) (sym same_cfg) a)
          (rw (lookup-attempt_ptr net u now j ip) (after-KnownIn net t.cfg now vlan j ip _ k))
          (attempt_ptr-queue net u now j) in
      rw (work-cons net now t j (q ++ (ip ∷ [])) e, drain) (kept ∙ same_cfg, done_so)

  named_answer :
      (parse_ip : GoString → Option Ip) (t : Table)
      → (resolve_live parse_ip t.cfg now ip).1 ≡ source_none
      → NamedBy host (lookup string_discrete ip t.entries)
      → resolve parse_ip t now ip ≡ (host, source_ptr)
  unfolding resolve
  named_answer parse_ip t unnamed n =
      rw (unnamed, resolve) (go (lookup string_discrete ip t.entries) n)
    where
      go :
          (o : Option Entry)
          → NamedBy host o
          → (elim o as (λ _. GoString × Source) [
            | none ↦ ([], source_none)
            | some e ↦ if is_ptr e.source then (e.hostname, source_ptr) else ([], source_none)
          ])
            ≡ (host, source_ptr)
      go none h = absurd h
      go (some e) h = cc

abbrev fresh_entry : ℤ → GoString → GoString → Entry
fresh_entry now ip vlan = record {
  ip = ip;
  vlan = vlan;
  hostname = [];
  source = source_none;
  last_seen = now;
  resolved_at = none;
}

observe_fresh :
    (parse_ip : GoString → Option Ip) (t : Table) (now : ℤ) (ip vlan resolver : GoString)
    → is_empty ip ≡ false
    → lookup string_discrete ip t.entries ≡ none
    → length t.resolve_q < 64
    → resolver_for t.cfg vlan ≡ some resolver
    → (resolve_live parse_ip t.cfg now ip).1 ≡ source_none
    → observe parse_ip t now ip vlan ≡ record t {
      entries = insert string_discrete ip (fresh_entry now ip vlan) t.entries;
      resolve_q = t.resolve_q ++ (ip ∷ []);
    }
unfolding observe
observe_fresh parse_ip t now ip vlan resolver nonempty fresh room set unnamed =
    rw (nonempty, observe)
      (rw (fresh, observe)
        (rw (set, observe, first_sight)
          (rw (unnamed, first_sight) (rw (lt→ltb (length t.resolve_q) 64 room, first_sight) refl))))

-- An address, not the empty text, that is observed for the first time, when the queue has room, its
-- VLAN has a resolver and neither the hosts nor the discoveries name it, has the name that the
-- resolver answers as soon as the worker has served the queue up to it, unless that name is empty.
pub observe-drain :
    (parse_ip : GoString → Option Ip) (net : Network) (t : Table) (now : ℤ)
    (ip vlan resolver host : GoString)
    → is_empty ip ≡ false
    → lookup string_discrete ip t.entries ≡ none
    → length t.resolve_q < 64
    → resolver_for t.cfg vlan ≡ some resolver
    → (resolve_live parse_ip t.cfg now ip).1 ≡ source_none
    → lookup_ptr net resolver ip ≡ some host
    → is_empty host ≡ false
    → resolve parse_ip
        (drain net now (suc (length t.resolve_q)) (observe parse_ip t now ip vlan))
        now
        ip
      ≡ (host, source_ptr)
observe-drain parse_ip net t now ip vlan resolver host nonempty fresh room set unnamed found named =
    let (known, kept, queued) = sighted in
    let (same_cfg, n) =
      drained net now vlan ip host t.resolve_q (observe parse_ip t now ip vlan)
        (rw kept (rw (set, answered) (rw (found, answered) (rw (named, answered) refl)))) known
        queued in
    named_answer net now vlan ip host parse_ip _ (rw same_cfg (rw kept unnamed)) n
  where
    sighted :
        let u = observe parse_ip t now ip vlan in
        KnownIn vlan ip (lookup string_discrete ip u.entries)
        × (u.cfg ≡ t.cfg)
        × (u.resolve_q ≡ t.resolve_q ++ (ip ∷ []))
    sighted = rw (observe_fresh parse_ip t now ip vlan resolver nonempty fresh room set unnamed) (
      rw (lookup-insert string_discrete ip ip (fresh_entry now ip vlan) t.entries)
          (rw (str_eq_refl ip) refl),
      refl,
      refl,
    )
