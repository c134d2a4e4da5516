-- ===== src/Clientnames/Seen.antt =====
-- plugins/clientnames/table.go: which addresses have an entry after the operations.
use bramble_gate.Prelude.{
  ◌≡◌, refl, subst, ap, ◌∙◌, inl, inr, Bool, false, ◌&&◌, ◌||◌, not, Option, none, some, List, [],
  ◌∷◌, GoString, string_discrete, is_empty, lookup, insert, lookup-insert, any, is_some, arith, Ip,
  Option-cases, Bool-cases, str_eq, str_eq→eq,
}
use bramble_gate.Prelude.Int.{ℤ}
use bramble_gate.Clientnames.{
  Entry, Table, Config, Network, set_config, observe, first_sight, store_ptr, attempt_ptr,
  attempt_all, work, sweep, sweep_ips,
}
use bramble_gate.Clientnames.Swept.{after, lookup-attempt_ptr}
use bramble_gate.Clientnames.Runs.{
  Op, configure, observed, worked, answered, swept, answer, run, run_all,
}

-- The address has an entry.
abbrev pub has : GoString → Table → Bool
has ip t = is_some (lookup string_discrete ip t.entries)

-- The operation is an observation of the address.
abbrev pub observes : GoString → Op → Bool
observes ip (configure cfg) = false
observes ip (observed j vlan now) = not (is_empty j) && str_eq j ip
observes ip (worked net now) = false
observes ip (answered j host now) = false
observes ip (swept net clock) = false

has-insert :
    (k ip : GoString) (e : Entry) (m : List (GoString × Entry))
    → is_some (lookup string_discrete ip (insert string_discrete k e m))
      ≡ (str_eq k ip || is_some (lookup string_discrete ip m))
has-insert k ip e m = ground (arith, lookup-insert string_discrete k ip e m)

has_self :
    (k ip : GoString) (m : List (GoString × Entry)) (e : Entry)
    → lookup string_discrete k m ≡ some e
    → (str_eq k ip || is_some (lookup string_discrete ip m)) ≡ is_some (lookup string_discrete ip m)
has_self k ip m e known = elim (Bool-cases (str_eq k ip)) [
  | inr n ↦ rw n refl
  | inl same_ip ↦
      let here : lookup string_discrete ip m ≡ some e =
        subst (λ j. lookup string_discrete j m ≡ some e) (str_eq→eq k ip same_ip) known in
      rw (same_ip, here) refl
]

has-store_ptr :
    (t : Table) (now : ℤ) (k host ip : GoString) → has ip (store_ptr t now k host) ≡ has ip t
unfolding store_ptr
has-store_ptr t now k host ip = elim (Option-cases (lookup string_discrete k t.entries)) [
  | inl absent ↦ rw (absent, store_ptr) refl
  | inr (e, known) ↦
      rw (known, store_ptr) (has-insert k ip _ t.entries ∙ has_self k ip t.entries e known)
]

is_some-after :
    (net : Network) (cfg : Config) (now : ℤ) (k ip : GoString) (o : Option Entry)
    → is_some (after net cfg now k ip o) ≡ is_some o
is_some-after net cfg now k ip none = refl
is_some-after net cfg now k ip (some e) = refl

has-attempt_ptr :
    (net : Network) (t : Table) (now : ℤ) (k ip : GoString)
    → has ip (attempt_ptr net t now k) ≡ has ip t
has-attempt_ptr net t now k ip =
    ap is_some (lookup-attempt_ptr net t now k ip) ∙ is_some-after net t.cfg now k ip _

has-attempt_all :
    (net : Network) (clock : GoString → ℤ) (t : Table) (ips : List GoString) (ip : GoString)
    → has ip (attempt_all net clock t ips) ≡ has ip t
has-attempt_all net clock t [] ip = refl
has-attempt_all net clock t (k ∷ ips) ip =
    has-attempt_all net clock (attempt_ptr net t (clock k) k) ips ip
    ∙ has-attempt_ptr net t (clock k) k ip

has-work :
    (net : Network) (t : Table) (now : ℤ) (ip : GoString) → has ip (work net t now) ≡ has ip t
unfolding work
has-work net t now ip = go t.resolve_q
  where
    go : (q : List GoString) → has ip (work net (record t { resolve_q = q }) now) ≡ has ip t
    go [] = refl
    go (k ∷ rest) = has-attempt_ptr net (record t { resolve_q = rest }) now k ip

module _ (parse_ip : GoString → Option Ip) where
  entries-first_sight :
      (t : Table) (now : ℤ) (ip vlan : GoString)
      → (first_sight parse_ip t now ip vlan).entries ≡ t.entries
  entries-first_sight t now ip vlan = ground arith

  has-observe :
      (t : Table) (now : ℤ) (k vlan ip : GoString)
      → has ip (observe parse_ip t now k vlan) ≡ (not (is_empty k) && str_eq k ip || has ip t)
  unfolding observe
  has-observe t now k vlan ip = elim (Bool-cases (is_empty k)) [
    | inl e ↦ rw (e, observe) refl
    | inr e ↦ elim (Option-cases (lookup string_discrete k t.entries)) [
      | inr (old, known) ↦ rw (e, observe) (rw (known, observe) (has-insert k ip _ t.entries))
      | inl fresh ↦
          rw (e, observe)
            (rw (fresh, observe)
              (ap (λ m. is_some (lookup string_discrete ip m)) (entries-first_sight _ now k vlan)
                ∙ has-insert k ip _ t.entries))
    ]
  ]

  has-run :
      (op : Op) (t : Table) (ip : GoString)
      → has ip (run parse_ip op t) ≡ (observes ip op || has ip t)
  unfolding set_config sweep answer
  has-run (configure cfg) t ip = refl
  has-run (observed k vlan now) t ip = has-observe t now k vlan ip
  has-run (worked net now) t ip = has-work net t now ip
  has-run (answered k host now) t ip = elim (Bool-cases (is_empty host)) [
    | inl e ↦ rw (e, answer) refl
    | inr e ↦ rw (e, answer) (has-store_ptr t now k host ip)
  ]
  has-run (swept net clock) t ip = has-attempt_all net clock t (sweep_ips t) ip

  -- An address has an entry exactly if it had one, or was observed.
  pub has-run_all :
      (ops : List Op) (t : Table) (ip : GoString)
      → has ip (run_all parse_ip ops t) ≡ (any (observes ip) ops || has ip t)
  has-run_all [] t ip = refl
  has-run_all (op ∷ ops) t ip =
      ground (arith, has-run_all ops (run parse_ip op t) ip, has-run op t ip)
