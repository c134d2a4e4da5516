-- ===== src/Mdnsbridge/Handler/Laws.antt =====
-- plugins/mdnsbridge/handler.go: what a query is answered with.
use bramble_gate.Prelude.{
  ℕ, Bool, false, count, count-append, ◌≡◌, refl, inl, inr, true, Option, none, some, List, [], ◌∷◌,
  All, All-append, arith, ◌==◌, if◌then◌else◌, Bool-cases, GoString, Ip, v4, v6,
}
use bramble_gate.Prelude.Int.{ℤ}
use bramble_gate.Dns.{Msg, type_a, type_aaaa}
use bramble_gate.Vlanmatch
use bramble_gate.Mdnsbridge.Table
use bramble_gate.Mdnsbridge.Table.{resolve}
use bramble_gate.Mdnsbridge.Handler.{
  Rr, a, aaaa, default_answer_ttl, Log, Request, Served, passed_on, answered, claim_local,
  a_records, aaaa_records, answers_for, serve_dns,
}

-- A record of the name and the type asked for, with the short TTL.
abbrev pub IsAnswerTo : Request → Rr → Type 0
IsAnswerTo r (a name ttl x) = (name ≡ r.qname) × (r.qtype ≡ type_a) × (ttl ≡ default_answer_ttl)
IsAnswerTo r (aaaa name ttl x) =
    (name ≡ r.qname) × (r.qtype ≡ type_aaaa) × (ttl ≡ default_answer_ttl)

-- The record is the one for an IPv4 or an IPv6 address.
abbrev pub gives_v4 : ℕ → Rr → Bool
gives_v4 x (a name ttl y) = y == x
gives_v4 x (aaaa name ttl y) = false

abbrev pub gives_v6 : ℕ → Rr → Bool
gives_v6 x (a name ttl y) = false
gives_v6 x (aaaa name ttl y) = y == x

-- What a text reads as.
abbrev pub is_v4 : ℕ → Option Ip → Bool
is_v4 x (some (v4 y)) = y == x
is_v4 x (some (v6 y)) = false
is_v4 x none = false

abbrev pub is_v6 : ℕ → Option Ip → Bool
is_v6 x (some (v4 y)) = false
is_v6 x (some (v6 y)) = y == x
is_v6 x none = false

-- What is served, given what the table says of the name: each address as often as its texts.
abbrev pub IsServed :
    (GoString → Option Ip)
    → Request
    → Log
    → Option (List GoString × List GoString)
    → Served
    → Type 0
IsServed parse_ip r log none x = x ≡ passed_on log
IsServed parse_ip r log (some found) (passed_on log') = ⊥
IsServed parse_ip r log (some found) (answered m log') =
    (m.authoritative ≡ true)
    × All (IsAnswerTo r) m.answer
    × ((x : ℕ)
        → count (gives_v4 x) m.answer
          ≡ (if r.qtype == type_a then count (λ s. is_v4 x (parse_ip s)) found.0 else 0))
    × ((x : ℕ)
        → count (gives_v6 x) m.answer
          ≡ (if r.qtype == type_aaaa then count (λ s. is_v6 x (parse_ip s)) found.1 else 0))

module _ (vlans : Vlanmatch.Table) (parse_ip : GoString → Option Ip)
    (set_reply : Msg Rr → Msg Rr) where
  a_records-All :
      (r : Request) (ss : List GoString)
      → r.qtype ≡ type_a
      → All (IsAnswerTo r) (a_records vlans parse_ip set_reply r.qname ss)
  unfolding a_records
  a_records-All r [] h = tt
  a_records-All r (s ∷ ss) h = go (parse_ip s) (a_records-All r ss h)
    where
      go :
          (p : Option Ip)
          → All (IsAnswerTo r) (a_records vlans parse_ip set_reply r.qname ss)
          → All (IsAnswerTo r) (elim p as (λ _. List Rr) [
            | some (v4 x) ↦
                a r.qname default_answer_ttl x ∷ a_records vlans parse_ip set_reply r.qname ss
            | some (v6 x) ↦ a_records vlans parse_ip set_reply r.qname ss
            | none ↦ a_records vlans parse_ip set_reply r.qname ss
          ])
      go none rest = rest
      go (some (v4 x)) rest = ((refl, h, refl), rest)
      go (some (v6 x)) rest = rest

  aaaa_records-All :
      (r : Request) (ss : List GoString)
      → r.qtype ≡ type_aaaa
      → All (IsAnswerTo r) (aaaa_records vlans parse_ip set_reply r.qname ss)
  unfolding aaaa_records
  aaaa_records-All r [] h = tt
  aaaa_records-All r (s ∷ ss) h = go (parse_ip s) (aaaa_records-All r ss h)
    where
      go :
          (p : Option Ip)
          → All (IsAnswerTo r) (aaaa_records vlans parse_ip set_reply r.qname ss)
          → All (IsAnswerTo r) (elim p as (λ _. List Rr) [
            | some (v6 x) ↦
                aaaa r.qname default_answer_ttl x ∷ aaaa_records vlans parse_ip set_reply r.qname ss
            | some (v4 x) ↦ aaaa_records vlans parse_ip set_reply r.qname ss
            | none ↦ aaaa_records vlans parse_ip set_reply r.qname ss
          ])
      go none rest = rest
      go (some (v6 x)) rest = ((refl, h, refl), rest)
      go (some (v4 x)) rest = rest

  answers-All :
      (r : Request) (ipv4 ipv6 : List GoString)
      → All (IsAnswerTo r) (answers_for vlans parse_ip set_reply r.qname r.qtype ipv4 ipv6)
  unfolding answers_for
  answers-All r ipv4 ipv6 =
      All-append (IsAnswerTo r)
        (if r.qtype == type_a then a_records vlans parse_ip set_reply r.qname ipv4 else [])
        (if r.qtype == type_aaaa then aaaa_records vlans parse_ip set_reply r.qname ipv6 else [])
        (elim (Bool-cases (r.qtype == type_a)) [
          | inl e ↦ rw e (a_records-All r ipv4 (ground arith))
          | inr e ↦ rw e tt
        ])
        (elim (Bool-cases (r.qtype == type_aaaa)) [
          | inl e ↦ rw e (aaaa_records-All r ipv6 (ground arith))
          | inr e ↦ rw e tt
        ])

  count-a_records :
      (x : ℕ) (qname : GoString) (ss : List GoString)
      → (count (gives_v4 x) (a_records vlans parse_ip set_reply qname ss)
          ≡ count (λ s. is_v4 x (parse_ip s)) ss)
        × (count (gives_v6 x) (a_records vlans parse_ip set_reply qname ss) ≡ 0)
  unfolding a_records
  count-a_records x qname [] = (refl, refl)
  count-a_records x qname (s ∷ ss) = ground (arith, count-a_records x qname ss)

  count-aaaa_records :
      (x : ℕ) (qname : GoString) (ss : List GoString)
      → (count (gives_v6 x) (aaaa_records vlans parse_ip set_reply qname ss)
          ≡ count (λ s. is_v6 x (parse_ip s)) ss)
        × (count (gives_v4 x) (aaaa_records vlans parse_ip set_reply qname ss) ≡ 0)
  unfolding aaaa_records
  count-aaaa_records x qname [] = (refl, refl)
  count-aaaa_records x qname (s ∷ ss) = ground (arith, count-aaaa_records x qname ss)

  v4_answers :
      (r : Request) (ipv4 ipv6 : List GoString) (x : ℕ)
      → count (gives_v4 x) (answers_for vlans parse_ip set_reply r.qname r.qtype ipv4 ipv6)
        ≡ (if r.qtype == type_a then count (λ s. is_v4 x (parse_ip s)) ipv4 else 0)
  unfolding answers_for
  v4_answers r ipv4 ipv6 x = ground (
    arith,
    count-append (gives_v4 x)
        (if r.qtype == type_a then a_records vlans parse_ip set_reply r.qname ipv4 else [])
        (if r.qtype == type_aaaa then aaaa_records vlans parse_ip set_reply r.qname ipv6 else []),
    count-a_records x r.qname ipv4,
    count-aaaa_records x r.qname ipv6,
  )

  v6_answers :
      (r : Request) (ipv4 ipv6 : List GoString) (x : ℕ)
      → count (gives_v6 x) (answers_for vlans parse_ip set_reply r.qname r.qtype ipv4 ipv6)
        ≡ (if r.qtype == type_aaaa then count (λ s. is_v6 x (parse_ip s)) ipv6 else 0)
  unfolding answers_for
  v6_answers r ipv4 ipv6 x = ground (
    arith,
    count-append (gives_v6 x)
        (if r.qtype == type_a then a_records vlans parse_ip set_reply r.qname ipv4 else [])
        (if r.qtype == type_aaaa then aaaa_records vlans parse_ip set_reply r.qname ipv6 else []),
    count-a_records x r.qname ipv4,
    count-aaaa_records x r.qname ipv6,
  )

  -- A query for a name that is not the table's to answer goes to the next plugin, with the query
  -- log's entry as it was. Any other gets an authoritative reply whose answers are all of the name
  -- and the type asked for: for A the IPv4 addresses, and for AAAA the IPv6 addresses that the
  -- table's texts for the name read as, each as often as there are texts for it; for another type
  -- none.
  pub serve_dns-IsServed :
      (t : Table.Table) (r : Request) (now : ℤ) (log : Log)
      → IsServed parse_ip r log
          (resolve vlans parse_ip t r.qname now)
          (serve_dns vlans parse_ip set_reply t r now log)
  unfolding serve_dns
  serve_dns-IsServed t r now log = go (resolve vlans parse_ip t r.qname now)
    where
      go :
          (found : Option (List GoString × List GoString))
          → IsServed parse_ip r log found (elim found as (λ _. Served) [
            | none ↦ passed_on log
            | some (ipv4, ipv6) ↦
                answered
                  (record (set_reply r.msg) {
                    authoritative = true;
                    answer = answers_for vlans parse_ip set_reply r.qname r.qtype ipv4 ipv6;
                  })
                  (claim_local log)
          ])
      go none = refl
      go (some (ipv4, ipv6)) =
          (refl, answers-All r ipv4 ipv6, v4_answers r ipv4 ipv6, v6_answers r ipv4 ipv6)
