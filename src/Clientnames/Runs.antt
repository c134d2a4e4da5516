-- ===== src/Clientnames/Runs.antt =====
-- plugins/clientnames/table.go: the operations in any order, and what Snapshot then shows.
use bramble_gate.Prelude.{
  refl, inl, inr, not, Option, List, [], ◌∷◌, GoString, string_discrete, is_empty, lookup, All,
  arith, Ip, Option-cases, Bool-cases, if◌then◌else◌, length, ◌≤◌, All_of_lookup,
}
use bramble_gate.Prelude.Int.{ℤ}
use bramble_gate.Clientnames.{
  Table, Config, Network, is_none, set_config, observe, first_sight, resolve_live, resolver_for,
  store_ptr, work, sweep, sweep_ips, resolve_queue_size,
}
use bramble_gate.Clientnames.Valid.{
  IsOwn, IsValid, Observed, put-IsValid, enqueue-IsValid, insert-Observed_self, store_ptr-IsValid,
  attempt_ptr-IsValid, attempt_all-IsValid,
}

-- The operations that change the table. `answered` is the second critical section of an attempt
-- that other operations may have come before.
pub data Op : Type 0 where
  configure : Config → Op
  observed : GoString → GoString → ℤ → Op
  worked : Network → ℤ → Op
  answered : GoString → GoString → ℤ → Op
  swept : Network → (GoString → ℤ) → Op

work-IsValid : (net : Network) (t : Table) (now : ℤ) → IsValid t → IsValid (work net t now)
unfolding work
work-IsValid net t now v = go t.resolve_q v.bounded v.queued
  where
    go :
        (q : List GoString)
        → length q ≤ resolve_queue_size
        → All (Observed t.entries) q
        → IsValid (work net (record t { resolve_q = q }) now)
    go [] b o = record { unique = v.unique; own = v.own; bounded = b; queued = o }
    go (ip ∷ rest) b o =
        attempt_ptr-IsValid net (record t { resolve_q = rest }) now ip
          record { unique = v.unique; own = v.own; bounded = ground arith; queued = o.1 }

abbrev pub answer : Table → ℤ → GoString → GoString → Table
answer t now ip host = if is_empty host then t else store_ptr t now ip host

module _ (parse_ip : GoString → Option Ip) where
  observe-IsValid :
      (t : Table) (now : ℤ) (ip vlan : GoString)
      → IsValid t
      → IsValid (observe parse_ip t now ip vlan)
  unfolding observe
  observe-IsValid t now ip vlan v = elim (Bool-cases (is_empty ip)) [
    | inl e ↦ rw (e, observe) v
    | inr e ↦ elim (Option-cases (lookup string_discrete ip t.entries)) [
      | inr (old, known) ↦
          let o = All_of_lookup string_discrete IsOwn t.entries ip v.own known in
          rw (e, observe) (rw (known, observe) (put-IsValid t ip _ o v))
      | inl fresh ↦
          rw (e, observe)
            (rw (fresh, observe)
              (sighted _ (put-IsValid t ip _ (refl, inl (refl, refl)) v)
                (insert-Observed_self ip _ t.entries)))
    ]
  ]
    where
      sighted :
          (u : Table)
          → IsValid u
          → Observed u.entries ip
          → IsValid (first_sight parse_ip u now ip vlan)
      sighted u w o = elim (Option-cases (resolver_for u.cfg vlan)) [
        | inl e ↦ rw (e, first_sight) w
        | inr (resolver, e) ↦
            rw (e, first_sight)
              (elim (Bool-cases (not (is_none (resolve_live parse_ip u.cfg now ip).1))) [
                | inl live ↦ rw (live, first_sight) w
                | inr unnamed ↦ rw (unnamed, first_sight) (enqueue-IsValid parse_ip u ip o w)
              ])
      ]

  abbrev pub run : Op → Table → Table
  run (configure cfg) t = set_config t cfg
  run (observed ip vlan now) t = observe parse_ip t now ip vlan
  run (worked net now) t = work net t now
  run (answered ip host now) t = answer t now ip host
  run (swept net clock) t = (sweep net clock t).0

  abbrev pub run_all : List Op → Table → Table
  run_all [] t = t
  run_all (op ∷ ops) t = run_all ops (run op t)

  run-IsValid : (op : Op) (t : Table) → IsValid t → IsValid (run op t)
  unfolding set_config sweep answer
  run-IsValid (configure cfg) t v = record {
    unique = v.unique;
    own = v.own;
    bounded = v.bounded;
    queued = v.queued;
  }
  run-IsValid (observed ip vlan now) t v = observe-IsValid t now ip vlan v
  run-IsValid (worked net now) t v = work-IsValid net t now v
  run-IsValid (answered ip host now) t v = elim (Bool-cases (is_empty host)) [
    | inl e ↦ rw e v
    | inr e ↦ rw e (store_ptr-IsValid t now ip host e v)
  ]
  run-IsValid (swept net clock) t v = attempt_all-IsValid net clock t (sweep_ips t) v

  pub run_all-IsValid : (ops : List Op) (t : Table) → IsValid t → IsValid (run_all ops t)
  run_all-IsValid [] t v = v
  run_all-IsValid (op ∷ ops) t v = run_all-IsValid ops (run op t) (run-IsValid op t v)
