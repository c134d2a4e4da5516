-- ===== src/Clientnames/Swept.antt =====
-- plugins/clientnames/table.go: what an attempt and a sweep do to each entry.
use bramble_gate.Prelude.{
  ◌≡◌, refl, sym, codes, ◌&&◌, ◌||◌, not, ◌==◌, contains, has_prefix, subst, ap, ◌∙◌, inl, inr,
  Bool, true, false, Option, none, some, List, [], ◌∷◌, GoString, string_discrete, lookup, insert,
  lookup-insert, count, map, any, select, length, is_empty, arith, Unique, Bool-cases, Option-cases,
  if◌then◌else◌, str_eq, str_eq_refl, str_eq→eq,
}
use bramble_gate.Prelude.Int.{ℤ}
use bramble_gate.Clientnames.{
  is_ptr, Entry, Table, Config, Network, source_ptr, resolver_for, lookup_ptr, store_ptr,
  attempt_ptr, attempt_all, sweep, sweeps, sweep_mode, sweep_ips,
}
use bramble_gate.Clientnames.Valid.{IsValid}

-- The answer that an attempt gets for an entry: none without a resolver, on an error, and when the
-- name is empty.
abbrev answer_of : Option GoString → Option GoString
answer_of none = none
answer_of (some host) = if is_empty host then none else some host

abbrev pub answered : Network → Config → GoString → GoString → Option GoString
answered net cfg vlan ip = elim (resolver_for cfg vlan) [
  | none ↦ none
  | some resolver ↦ answer_of (lookup_ptr net resolver ip)
]

-- An entry after an attempt at its address.
abbrev pub refreshed : Option GoString → ℤ → Entry → Entry
refreshed none now e = e
refreshed (some host) now e = record e {
  hostname = host;
  source = source_ptr;
  resolved_at = some now;
}

abbrev pub attempted : Network → Config → ℤ → GoString → Entry → Entry
attempted net cfg now ip e = refreshed (answered net cfg e.vlan ip) now e

refreshed-refreshed :
    (a : Option GoString) (now : ℤ) (e : Entry)
    → refreshed a now (refreshed a now e) ≡ refreshed a now e
refreshed-refreshed none now e = refl
refreshed-refreshed (some host) now e = refl

pub refreshed-vlan : (a : Option GoString) (now : ℤ) (e : Entry) → (refreshed a now e).vlan ≡ e.vlan
refreshed-vlan none now e = refl
refreshed-vlan (some host) now e = refl

attempted-attempted :
    (net : Network) (cfg : Config) (now : ℤ) (ip : GoString) (e : Entry)
    → attempted net cfg now ip (attempted net cfg now ip e) ≡ attempted net cfg now ip e
attempted-attempted net cfg now ip e =
    let a = answered net cfg e.vlan ip in rw (refreshed-vlan a now e) (refreshed-refreshed a now e)

-- What an attempt at an address leaves under an address.
abbrev pub after : Network → Config → ℤ → GoString → GoString → Option Entry → Option Entry
after net cfg now ip j none = none
after net cfg now ip j (some e) = some (if str_eq ip j then attempted net cfg now ip e else e)

pub attempt_ptr-cfg :
    (net : Network) (t : Table) (now : ℤ) (ip : GoString) → (attempt_ptr net t now ip).cfg ≡ t.cfg
unfolding attempt_ptr store_ptr
attempt_ptr-cfg net t now ip = ground arith

pub attempt_ptr-queue :
    (net : Network) (t : Table) (now : ℤ) (ip : GoString)
    → (attempt_ptr net t now ip).resolve_q ≡ t.resolve_q
unfolding attempt_ptr store_ptr
attempt_ptr-queue net t now ip = ground arith

-- The entries after an attempt, by what is found and answered.
abbrev stored :
    List (GoString × Entry) → ℤ → GoString → Entry → Option GoString → List (GoString × Entry)
stored m now ip e none = m
stored m now ip e (some host) = insert string_discrete ip (refreshed (some host) now e) m

stored_known :
    (net : Network) (t : Table) (now : ℤ) (ip : GoString) (e : Entry)
    → lookup string_discrete ip t.entries ≡ some e
    → (attempt_ptr net t now ip).entries ≡ stored t.entries now ip e (answered net t.cfg e.vlan ip)
unfolding attempt_ptr store_ptr
stored_known net t now ip e known = ground arith

stored_unknown :
    (net : Network) (t : Table) (now : ℤ) (ip : GoString)
    → lookup string_discrete ip t.entries ≡ none
    → (attempt_ptr net t now ip).entries ≡ t.entries
unfolding attempt_ptr
stored_unknown net t now ip unknown = ground arith

stored_other :
    (m : List (GoString × Entry)) (now : ℤ) (ip j : GoString) (e : Entry) (a : Option GoString)
    → str_eq ip j ≡ false
    → lookup string_discrete j (stored m now ip e a) ≡ lookup string_discrete j m
stored_other m now ip j e none n = refl
stored_other m now ip j e (some host) n = lookup-insert string_discrete ip j _ m ∙ rw n refl

stored_self :
    (m : List (GoString × Entry)) (now : ℤ) (ip : GoString) (e : Entry) (a : Option GoString)
    → lookup string_discrete ip m ≡ some e
    → lookup string_discrete ip (stored m now ip e a) ≡ some (refreshed a now e)
stored_self m now ip e none known = known
stored_self m now ip e (some host) known =
    lookup-insert string_discrete ip ip _ m ∙ rw (str_eq_refl ip) refl

after_other :
    (net : Network) (cfg : Config) (now : ℤ) (ip j : GoString) (o : Option Entry)
    → str_eq ip j ≡ false
    → after net cfg now ip j o ≡ o
after_other net cfg now ip j none n = refl
after_other net cfg now ip j (some e) n = rw n refl

-- An attempt at an address changes the entry under it, and no other.
pub lookup-attempt_ptr :
    (net : Network) (t : Table) (now : ℤ) (ip j : GoString)
    → lookup string_discrete j (attempt_ptr net t now ip).entries
      ≡ after net t.cfg now ip j (lookup string_discrete j t.entries)
lookup-attempt_ptr net t now ip j = elim (Option-cases (lookup string_discrete ip t.entries)) [
  | inl unknown ↦ elim (Bool-cases (str_eq ip j)) [
    | inl e ↦
        subst P (str_eq→eq ip j e) (rw (stored_unknown net t now ip unknown) (rw unknown refl))
    | inr n ↦ rw (stored_unknown net t now ip unknown) (sym (after_other net t.cfg now ip j _ n))
  ]
  | inr (e, known) ↦
      let a = answered net t.cfg e.vlan ip in
      rw (stored_known net t now ip e known) (elim (Bool-cases (str_eq ip j)) [
        | inl same_ip ↦
            subst
              (λ k.
                lookup string_discrete k (stored t.entries now ip e a)
                ≡ after net t.cfg now ip k (lookup string_discrete k t.entries))
              (str_eq→eq ip j same_ip)
              (stored_self t.entries now ip e a known ∙ rw known (rw (str_eq_refl ip) refl))
        | inr n ↦ stored_other t.entries now ip j e a n ∙ sym (after_other net t.cfg now ip j _ n)
      ])
]
  where
    P : GoString → Type 0
    P k =
        lookup string_discrete k (attempt_ptr net t now ip).entries
        ≡ after net t.cfg now ip k (lookup string_discrete k t.entries)

-- What stands under an address once a list of addresses has been attempted, or not it.
abbrev swept_by : Network → Config → (GoString → ℤ) → GoString → Bool → Option Entry → Option Entry
swept_by net cfg clock j picked none = none
swept_by net cfg clock j picked (some e) =
    some (if picked then attempted net cfg (clock j) j e else e)

swept_by-after :
    (net : Network) (cfg : Config) (clock : GoString → ℤ) (ip j : GoString) (rest : Bool)
    (o : Option Entry)
    → swept_by net cfg clock j rest (after net cfg (clock ip) ip j o)
      ≡ swept_by net cfg clock j (if str_eq ip j then true else rest) o
swept_by-after net cfg clock ip j rest none = refl
swept_by-after net cfg clock ip j rest (some e) = elim (Bool-cases (str_eq ip j)) [
  | inr n ↦ rw n refl
  | inl same_ip ↦
      subst
        (λ k.
          swept_by net cfg clock k rest (after net cfg (clock ip) ip k (some e))
          ≡ swept_by net cfg clock k (if str_eq ip k then true else rest) (some e))
        (str_eq→eq ip j same_ip) (rw (str_eq_refl ip) (twice rest))
]
  where
    twice :
        (b : Bool)
        → swept_by net cfg clock ip b (some (attempted net cfg (clock ip) ip e))
          ≡ some (attempted net cfg (clock ip) ip e)
    twice true = ap some (attempted-attempted net cfg (clock ip) ip e)
    twice false = refl

lookup-attempt_all :
    (net : Network) (clock : GoString → ℤ) (t : Table) (ips : List GoString) (j : GoString)
    → lookup string_discrete j (attempt_all net clock t ips).entries
      ≡ swept_by net t.cfg clock j (any (λ i. str_eq i j) ips) (lookup string_discrete j t.entries)
lookup-attempt_all net clock t [] j = go (lookup string_discrete j t.entries)
  where
    go : (o : Option Entry) → o ≡ swept_by net t.cfg clock j false o
    go none = refl
    go (some e) = refl
lookup-attempt_all net clock t (ip ∷ ips) j =
    let u = attempt_ptr net t (clock ip) ip in
    let rest = any (λ i. str_eq i j) ips in
    lookup-attempt_all net clock u ips j
    ∙ (ap (λ c. swept_by net c clock j rest (lookup string_discrete j u.entries))
          (attempt_ptr-cfg net t (clock ip) ip)
        ∙ (ap (swept_by net t.cfg clock j rest) (lookup-attempt_ptr net t (clock ip) ip j)
            ∙ swept_by-after net t.cfg clock ip j rest (lookup string_discrete j t.entries)))

-- Whether an entry that is there is swept.
abbrev pub picks : Config → GoString → Option Entry → Bool
picks cfg ip none = false
picks cfg ip (some e) = sweeps (sweep_mode cfg) ip e

abbrev picked_ips : GoString → List (GoString × Entry) → List GoString
picked_ips mode m = map (λ p. p.0) (select (λ p. sweeps mode p.0 p.1) m)

any_picked :
    (cfg : Config) (m : List (GoString × Entry)) (j : GoString)
    → Unique string_discrete m
    → any (λ i. str_eq i j) (picked_ips (sweep_mode cfg) m)
      ≡ picks cfg j (lookup string_discrete j m)
unfolding lookup
any_picked cfg [] j u = refl
any_picked cfg ((k, e) ∷ m) j u = elim (Bool-cases (str_eq k j)) [
  | inr n ↦ rw n (elim (Bool-cases (sweeps (sweep_mode cfg) k e)) [
    | inl s ↦ rw s (rw n (any_picked cfg m j u.1))
    | inr s ↦ rw s (any_picked cfg m j u.1)
  ])
  | inl same_key ↦
      subst P (str_eq→eq k j same_key)
        (rw (str_eq_refl k) (head (sweeps (sweep_mode cfg) k e) refl (any_picked cfg m k u.1)))
]
  where
    P : GoString → Type 0
    P i =
        any (λ x. str_eq x i) (picked_ips (sweep_mode cfg) ((k, e) ∷ m))
        ≡ picks cfg i (lookup string_discrete i ((k, e) ∷ m))

    head :
        (b : Bool)
        → sweeps (sweep_mode cfg) k e ≡ b
        → any (λ i. str_eq i k) (picked_ips (sweep_mode cfg) m)
          ≡ picks cfg k (lookup string_discrete k m)
        → any (λ i. str_eq i k) (picked_ips (sweep_mode cfg) ((k, e) ∷ m))
          ≡ sweeps (sweep_mode cfg) k e
    head true s rest = rw s (rw (str_eq_refl k) refl)
    head false s rest = rw s (rest ∙ ap (picks cfg k) u.0)

length_picked :
    (mode : GoString) (m : List (GoString × Entry))
    → length (picked_ips mode m) ≡ count (λ p. sweeps mode p.0 p.1) m
length_picked mode [] = refl
length_picked mode (p ∷ m) = ground (arith, length_picked mode m)

-- The modes of a sweep, by the setting's text: the default is to leave IPv6 addresses out.
pub data Mode : Type 0 where
  never : Mode
  only_ipv4 : Mode
  every_address : Mode

abbrev pub mode_of : GoString → Mode
mode_of text =
    if str_eq text (codes "none")
    then never
    else if is_empty text || str_eq text (codes "ipv4_only")
    then only_ipv4
    else every_address

-- The entries to refresh: those whose name came from PTR, and in the default mode only those whose
-- address has no colon.
abbrev pub is_picked : Mode → GoString → Entry → Bool
is_picked never ip e = false
is_picked only_ipv4 ip e = is_ptr e.source && not (any (λ c. c == b':') ip)
is_picked every_address ip e = is_ptr e.source

contains_colon : (s : GoString) → contains s (codes ":") ≡ any (λ c. c == b':') s
unfolding contains has_prefix
contains_colon [] = refl
contains_colon (c ∷ s) = ground (arith, contains_colon s)

sweeps_unset :
    (ip : GoString) (e : Entry) → sweeps (codes "ipv4_only") ip e ≡ is_picked (mode_of []) ip e
unfolding sweeps string_discrete
sweeps_unset ip e = ground (arith, contains_colon ip)

sweeps-picked :
    (cfg : Config) (ip : GoString) (e : Entry)
    → sweeps (sweep_mode cfg) ip e ≡ is_picked (mode_of cfg.refresh_hostnames) ip e
unfolding sweeps
sweeps-picked cfg ip e = go cfg.refresh_hostnames
  where
    go :
        (text : GoString)
        → sweeps (if is_empty text then codes "ipv4_only" else text) ip e
          ≡ is_picked (mode_of text) ip e
    go [] = sweeps_unset ip e
    go (c ∷ text) = ground (arith, contains_colon ip)

count_picked :
    (cfg : Config) (m : List (GoString × Entry))
    → count (λ p. sweeps (sweep_mode cfg) p.0 p.1) m
      ≡ count (λ p. is_picked (mode_of cfg.refresh_hostnames) p.0 p.1) m
count_picked cfg [] = refl
count_picked cfg ((ip, e) ∷ m) = rw (sweeps-picked cfg ip e, count_picked cfg m) refl

-- What stands under an address after a sweep.
abbrev pub swept_entry : Network → Config → (GoString → ℤ) → GoString → Option Entry → Option Entry
swept_entry net cfg clock ip none = none
swept_entry net cfg clock ip (some e) = some (
    if is_picked (mode_of cfg.refresh_hostnames) ip e then attempted net cfg (clock ip) ip e else e)

swept_by-picks :
    (net : Network) (cfg : Config) (clock : GoString → ℤ) (ip : GoString) (o : Option Entry)
    → swept_by net cfg clock ip (picks cfg ip o) o ≡ swept_entry net cfg clock ip o
swept_by-picks net cfg clock ip none = refl
swept_by-picks net cfg clock ip (some e) = rw (sweeps-picked cfg ip e) refl

-- A sweep of a valid table attempts the entries that its mode picks and returns how many they are:
-- none in mode "none", those named by PTR at an address without a colon in mode "ipv4_only" and by
-- default, and else all those named by PTR:
-- under an address there is afterwards what was there, refreshed by the answer of the entry's own
-- resolver when the mode picks it, and unchanged otherwise. It neither adds nor drops an address.
pub sweep_lem :
    (net : Network) (clock : GoString → ℤ) (t : Table)
    → IsValid t
    → ((sweep net clock t).1
        ≡ count (λ p. is_picked (mode_of t.cfg.refresh_hostnames) p.0 p.1) t.entries)
      × ((ip : GoString)
          → lookup string_discrete ip (sweep net clock t).0.entries
            ≡ swept_entry net t.cfg clock ip (lookup string_discrete ip t.entries))
unfolding sweep
sweep_lem net clock t v = (
  length_picked (sweep_mode t.cfg) t.entries ∙ count_picked t.cfg t.entries,
  λ ip.
      lookup-attempt_all net clock t (sweep_ips t) ip
      ∙ (ap (λ b. swept_by net t.cfg clock ip b (lookup string_discrete ip t.entries))
            (any_picked t.cfg t.entries ip v.unique)
          ∙ swept_by-picks net t.cfg clock ip (lookup string_discrete ip t.entries)),
)
