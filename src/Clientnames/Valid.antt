-- ===== src/Clientnames/Valid.antt =====
-- plugins/clientnames/table.go: what holds of every table, and that the operations keep it.
use bramble_gate.Prelude.{
  ◌≡◌, refl, ◌⊎◌, inl, inr, ◌≤◌, true, false, Option, List, [], ◌∷◌, GoString, string_discrete,
  is_empty, lookup, insert, length, length-append, All, All-append, All_weaken, is_some, ltb, arith,
  Unique, insert-Unique, insert-All, All_of_lookup, lookup-insert, Ip, Option-cases, Bool-cases,
}
use bramble_gate.Prelude.Int.{ℤ}
use bramble_gate.Clientnames.{
  Entry, Table, Network, source_ptr, source_none, resolver_for, store_ptr, attempt_ptr, lookup_ptr,
  enqueue, attempt_all, resolve_queue_size,
}

-- The only source that an entry keeps is a PTR answer, and then it has a name.
abbrev pub Cached : Entry → Type 0
Cached e =
    ((e.source ≡ source_none) × (e.hostname ≡ []))
    ⊎ ((e.source ≡ source_ptr) × (is_empty e.hostname ≡ false))

abbrev pub IsOwn : GoString × Entry → Type 0
IsOwn p = (p.1.ip ≡ p.0) × Cached p.1

abbrev pub Observed : List (GoString × Entry) → GoString → Type 0
Observed entries ip = is_some (lookup string_discrete ip entries) ≡ true

pub record IsValid (t : Table) : Type 0 where
  pub unique : Unique string_discrete t.entries
  pub own : All IsOwn t.entries
  pub bounded : length t.resolve_q ≤ resolve_queue_size
  pub queued : All (Observed t.entries) t.resolve_q

insert-Observed :
    (k ip : GoString) (v : Entry) (m : List (GoString × Entry))
    → Observed m ip
    → Observed (insert string_discrete k v m) ip
insert-Observed k ip v m h = ground (arith, lookup-insert string_discrete k ip v m)

pub insert-Observed_self :
    (k : GoString) (v : Entry) (m : List (GoString × Entry))
    → Observed (insert string_discrete k v m) k
insert-Observed_self k v m = ground (arith, lookup-insert string_discrete k k v m)

-- Writing an entry under its own address keeps the table valid.
pub put-IsValid :
    (t : Table) (ip : GoString) (e : Entry)
    → IsOwn (ip, e)
    → IsValid t
    → IsValid (record t { entries = insert string_discrete ip e t.entries })
put-IsValid t ip e o v = record {
  unique = insert-Unique string_discrete ip e t.entries v.unique;
  own = insert-All string_discrete IsOwn ip e t.entries o v.own;
  bounded = v.bounded;
  queued = All_weaken _ _ t.resolve_q (λ j. insert-Observed ip j e t.entries) v.queued;
}

pub enqueue-IsValid :
    (parse_ip : GoString → Option Ip) (t : Table) (ip : GoString)
    → Observed t.entries ip
    → IsValid t
    → IsValid (enqueue parse_ip t ip)
enqueue-IsValid parse_ip t ip o v = elim (Bool-cases (ltb (length t.resolve_q) 64)) [
  | inl e ↦ rw e record {
    unique = v.unique;
    own = v.own;
    bounded = ground (arith, length-append t.resolve_q (ip ∷ []));
    queued = All-append (Observed t.entries) t.resolve_q (ip ∷ []) v.queued (o, tt);
  }
  | inr e ↦ rw e v
]

pub store_ptr-IsValid :
    (t : Table) (now : ℤ) (ip host : GoString)
    → is_empty host ≡ false
    → IsValid t
    → IsValid (store_ptr t now ip host)
unfolding store_ptr
store_ptr-IsValid t now ip host h v = elim (Option-cases (lookup string_discrete ip t.entries)) [
  | inl e ↦ rw (e, store_ptr) v
  | inr (e, same) ↦
      let o = All_of_lookup string_discrete IsOwn t.entries ip v.own same in
      rw (same, store_ptr) (put-IsValid t ip _ (o.0, inr (refl, h)) v)
]

pub attempt_ptr-IsValid :
    (net : Network) (t : Table) (now : ℤ) (ip : GoString)
    → IsValid t
    → IsValid (attempt_ptr net t now ip)
unfolding attempt_ptr
attempt_ptr-IsValid net t now ip v = elim (Option-cases (lookup string_discrete ip t.entries)) [
  | inl e ↦ rw (e, attempt_ptr) v
  | inr (e, same) ↦
      rw (same, attempt_ptr)
        (elim (Option-cases (resolver_for t.cfg e.vlan)) [
          | inl none_set ↦ rw none_set v
          | inr (resolver, set) ↦ rw set (elim (Option-cases (lookup_ptr net resolver ip)) [
            | inl failed ↦ rw failed v
            | inr (host, found) ↦ rw found (elim (Bool-cases (is_empty host)) [
              | inl nameless ↦ rw nameless v
              | inr named ↦ rw named (store_ptr-IsValid t now ip host named v)
            ])
          ])
        ])
]

pub attempt_all-IsValid :
    (net : Network) (clock : GoString → ℤ) (t : Table) (ips : List GoString)
    → IsValid t
    → IsValid (attempt_all net clock t ips)
attempt_all-IsValid net clock t [] v = v
attempt_all-IsValid net clock t (ip ∷ ips) v =
    attempt_all-IsValid net clock (attempt_ptr net t (clock ip) ip) ips
      (attempt_ptr-IsValid net t (clock ip) ip v)
