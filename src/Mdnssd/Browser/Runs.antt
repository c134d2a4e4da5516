-- ===== src/Mdnssd/Browser/Runs.antt =====
-- mdnssd/browser.go: what a tick reports, and what holds after any messages and ticks.
use bramble_gate.Prelude.{
  ◌+◌, ◌≡◌, refl, inl, inr, Option-cases, true, none, some, List, [], ◌∷◌, any, length, is_nil,
  count, count-delete, Bool, All, All_weaken, if◌then◌else◌, GoString, str_eq, str_eq_refl,
  string_discrete, lookup, delete, lookup-delete, delete-Unique, Unique, AllValues_weaken, arith,
}
use bramble_gate.Prelude.Int.{ℤ}
use bramble_gate.Dns.{Msg}
use bramble_gate.Mdnssd.Cache
use bramble_gate.Mdnssd.Cache.{CacheRecord, Records, expired, due_threshold}
use bramble_gate.Mdnssd.Cache.Ticks.{
  AllBounded, is_due, due_threshold-eq, due_threshold-IsBounded, tick-AllValues, tick-Unique,
  is_nil-due, tick_lem,
}
use bramble_gate.Mdnssd.Cache.Known.{AllWhole, Offered, known-Offered, offers_of, known-offers_of}
use bramble_gate.Mdnssd.Response.{Wire, build_query}
use bramble_gate.Mdnssd.Browser.{
  Entry, BrowserState, new_browser_state, drop_entries, refresh_query, ingest, tick,
}
use bramble_gate.Mdnssd.Browser.Valid.{IsKept, IsValid, ingest-IsValid}

lookup-drop :
    (k : GoString) (gone : List GoString) (m : List (GoString × Entry))
    → lookup string_discrete k (drop_entries gone m).0
      ≡ (if any (str_eq k) gone then none else lookup string_discrete k m)
unfolding drop_entries
lookup-drop k [] m = refl
lookup-drop k (g ∷ gone) m = ground (
  arith,
  lookup-drop k gone m,
  lookup-drop k gone (delete string_discrete g m),
  lookup-delete string_discrete g k m,
)

drop-Unique :
    (gone : List GoString) (m : List (GoString × Entry))
    → Unique string_discrete m
    → Unique string_discrete (drop_entries gone m).0
unfolding drop_entries
drop-Unique [] m u = u
drop-Unique (g ∷ gone) m u = elim (Option-cases (lookup string_discrete g m)) [
  | inl nothing ↦ rw (nothing, drop_entries) (drop-Unique gone m u)
  | inr (e, there) ↦
      rw (there, drop_entries)
        (drop-Unique gone (delete string_discrete g m) (delete-Unique string_discrete g m u))
]

-- What is dropped and what stays are together what was there.
count-drop :
    (test : Entry → Bool) (gone : List GoString) (m : List (GoString × Entry))
    → Unique string_discrete m
    → count test (drop_entries gone m).1 + count (λ p. test p.1) (drop_entries gone m).0
      ≡ count (λ p. test p.1) m
unfolding drop_entries
count-drop test [] m u = omega arith
count-drop test (g ∷ gone) m u = elim (Option-cases (lookup string_discrete g m)) [
  | inl nothing ↦ rw (nothing, drop_entries) (count-drop test gone m u)
  | inr (e, there) ↦
      rw (there, drop_entries)
        (ground (
          arith,
          count-delete string_discrete test g e m u there,
          count-drop test gone (delete string_discrete g m) (delete-Unique string_discrete g m u),
        ))
]

-- An entry of `m` whose key is among `gone`.
abbrev DroppedFrom : List GoString → List (GoString × Entry) → Entry → Type 0
DroppedFrom gone m e =
    (k : GoString) × (lookup string_discrete k m ≡ some e) × (any (str_eq k) gone ≡ true)

drop-DroppedFrom :
    (gone : List GoString) (m : List (GoString × Entry))
    → All (DroppedFrom gone m) (drop_entries gone m).1
unfolding drop_entries
drop-DroppedFrom [] m = tt
drop-DroppedFrom (g ∷ gone) m = elim (Option-cases (lookup string_discrete g m)) [
  | inl nothing ↦
      rw (nothing, drop_entries)
        (All_weaken (DroppedFrom gone m) (DroppedFrom (g ∷ gone) m) _
          (λ e d. (d.0, d.1, ground (arith, d.2))) (drop-DroppedFrom gone m))
  | inr (e, there) ↦
      rw (there, drop_entries)
        (
          (g, there, rw (str_eq_refl g)),
          All_weaken (DroppedFrom gone (delete string_discrete g m)) (DroppedFrom (g ∷ gone) m) _
              (λ a d. (
                d.0,
                ground (arith, d.1, lookup-delete string_discrete g d.0 m),
                ground (arith, d.2),
              ))
              (drop-DroppedFrom gone (delete string_discrete g m)),
        )
]

module _ {Rr : Type 0} where
  kept-AllBounded : (b : BrowserState Rr) → IsValid b → AllBounded b.cache
  kept-AllBounded b v = AllValues_weaken _ _ b.cache (λ r k. k.bounded) v.kept

  advance-IsKept :
      (question : GoString) (now : ℤ) (r : CacheRecord Rr)
      → IsKept question r
      → IsKept question (due_threshold r now).0
  advance-IsKept question now r k = record {
    bounded = due_threshold-IsBounded r now k.bounded;
    whole = rw (due_threshold-eq r now k.bounded) k.whole;
    asked = rw (due_threshold-eq r now k.bounded) k.asked;
  }

  module _ (wire : Wire Rr) where
    open wire use {dns}

    pub tick-IsValid : (now : ℤ) (b : BrowserState Rr) → IsValid b → IsValid (tick wire now b).0
    unfolding tick
    tick-IsValid now b v =
        let bounded = kept-AllBounded b v in
        let gone = (Cache.tick now b.cache).2 in
        record {
          cache_keys = tick-Unique now b.cache v.cache_keys;
          entry_keys = drop-Unique gone b.entries v.entry_keys;
          kept = tick-AllValues _ now b.cache (advance-IsKept b.question now) v.kept;
          in_step = λ k. ground (
            arith,
            lookup-drop k gone b.entries,
            (tick_lem now b.cache v.cache_keys bounded).0 k,
            (tick_lem now b.cache v.cache_keys bounded).1 k,
            v.in_step k,
          );
        }

    -- What a tick at `now` makes of the browse state `b`.
    pub record IsTicked (now : ℤ) (b : BrowserState Rr) : Type 0 where
      -- An entry leaves if and only if the lifetime of its record has passed.
      pub leaves :
          (k : GoString)
          → lookup string_discrete k (tick wire now b).0.entries
            ≡ elim (lookup string_discrete k b.cache) [
              | none ↦ none
              | some r ↦ if expired r now then none else lookup string_discrete k b.entries
            ]
      -- The entries reported are entries that leave, and together with those that stay they are the
      -- entries there were, each as often.
      pub left :
          All
            (λ e.
              (k : GoString) × (lookup string_discrete k b.entries ≡ some e)
              × (lookup string_discrete k (tick wire now b).0.entries ≡ none))
            (tick wire now b).2
      pub reported :
          (test : Entry → Bool)
          → count test (tick wire now b).2 + count (λ p. test p.1) (tick wire now b).0.entries
            ≡ count (λ p. test p.1) b.entries
      -- One query is sent if a record is due, for the question, and none else.
      pub asks : length (tick wire now b).1 ≡ (if any (λ p. is_due now p.1) b.cache then 1 else 0)
      pub question : All (λ q. q.qname ≡ b.question) (tick wire now b).1
      -- It offers as known exactly the answers with more than half of their lifetime left.
      pub known :
          All
            (λ q. q.answers ≡ offers_of dns now b.question (tick wire now b).0.cache)
            (tick wire now b).1
      -- What a query offers as known is far from any refresh.
      pub offers :
          All
            (λ q. All (Offered dns now b.question (tick wire now b).0.cache) q.answers)
            (tick wire now b).1

    length-refresh_query :
        (question : GoString) (kept : Records Rr) (now : ℤ) (due : List GoString)
        → length (refresh_query wire question kept now due) ≡ (if is_nil due then 0 else 1)
    unfolding refresh_query
    length-refresh_query question kept now [] = refl
    length-refresh_query question kept now (d ∷ due) = refl

    refresh_query-known :
        (question : GoString) (kept : Records Rr) (now : ℤ) (due : List GoString)
        → All (λ q. q.qname ≡ question) (refresh_query wire question kept now due)
          × All
              (λ q. q.answers ≡ offers_of dns now question kept)
              (refresh_query wire question kept now due)
    unfolding refresh_query build_query
    refresh_query-known question kept now [] = (tt, tt)
    refresh_query-known question kept now (d ∷ due) =
        ((refl, tt), (known-offers_of dns now question kept, tt))

    refresh_query-Offered :
        (question : GoString) (kept : Records Rr) (now : ℤ) (due : List GoString)
        → AllWhole kept
        → All
            (λ q. All (Offered dns now question kept) q.answers)
            (refresh_query wire question kept now due)
    unfolding refresh_query build_query
    refresh_query-Offered question kept now [] whole = tt
    refresh_query-Offered question kept now (d ∷ due) whole =
        (known-Offered dns now question kept whole, tt)

    tick-IsTicked : (now : ℤ) (b : BrowserState Rr) → IsValid b → IsTicked now b
    unfolding tick
    tick-IsTicked now b v =
        let bounded = kept-AllBounded b v in
        let gone = (Cache.tick now b.cache).2 in
        record {
          leaves = λ k. ground (
            arith,
            lookup-drop k gone b.entries,
            (tick_lem now b.cache v.cache_keys bounded).1 k,
            v.in_step k,
          );
          left =
              All_weaken (DroppedFrom gone b.entries) _ (drop_entries gone b.entries).1
                (λ e d. (d.0, d.1, ground (arith, d.2, lookup-drop d.0 gone b.entries)))
                (drop-DroppedFrom gone b.entries);
          reported = λ test. count-drop test gone b.entries v.entry_keys;
          asks = ground (
            arith,
            length-refresh_query b.question (Cache.tick now b.cache).0 now
                (Cache.tick now b.cache).1,
            is_nil-due now b.cache bounded,
          );
          question =
              (refresh_query-known b.question (Cache.tick now b.cache).0 now
                (Cache.tick now b.cache).1).0;
          known =
              (refresh_query-known b.question (Cache.tick now b.cache).0 now
                (Cache.tick now b.cache).1).1;
          offers =
              refresh_query-Offered b.question (Cache.tick now b.cache).0 now
                (Cache.tick now b.cache).1
                (AllValues_weaken _ _ _ (λ r k. k.whole) (tick-IsValid now b v).kept);
        }

    -- What a browse meets: a message on an interface that it listens to, and the ticker.
    pub data Event : Type 0 where
      received : Msg Rr → GoString → ℤ → Event
      ticked_at : ℤ → Event

    pub run : Event → BrowserState Rr → BrowserState Rr
    run (received msg iface now) b = (ingest wire msg iface now b).0
    run (ticked_at now) b = (tick wire now b).0

    pub run_all : List Event → BrowserState Rr → BrowserState Rr
    run_all [] b = b
    run_all (event ∷ events) b = run_all events (run event b)

    run-IsValid : (event : Event) (b : BrowserState Rr) → IsValid b → IsValid (run event b)
    unfolding run
    run-IsValid (received msg iface now) b v = ingest-IsValid wire msg iface now b v
    run-IsValid (ticked_at now) b v = tick-IsValid now b v

    from_IsValid :
        (events : List Event) (b : BrowserState Rr) → IsValid b → IsValid (run_all events b)
    unfolding run_all
    from_IsValid [] b v = v
    from_IsValid (event ∷ events) b v = from_IsValid events (run event b) (run-IsValid event b v)

    new-IsValid : (question : GoString) → IsValid {Rr = Rr} (new_browser_state question)
    unfolding new_browser_state lookup
    new-IsValid question = record {
      cache_keys = tt;
      entry_keys = tt;
      kept = tt;
      in_step = λ k. refl;
    }

    -- After any messages and ticks a browse is in order: an instance has an entry if and only if it
    -- has a record in the cache, no key stands twice, and every record answers the question, has
    -- sent at most four refreshes and lives for whole seconds. A tick at any time then removes and
    -- reports exactly the entries whose record's lifetime has passed, each once. It sends one query,
    -- for the question, if a record is due and none else, and offers in it exactly the answers with
    -- more than half of their lifetime left, which have reached no refresh threshold.
    pub run_all-IsTicked :
        (events : List Event) (question : GoString) (now : ℤ)
        → IsValid (run_all events (new_browser_state question))
          × IsTicked now (run_all events (new_browser_state question))
    run_all-IsTicked events question now =
        let v = from_IsValid events (new_browser_state question) (new-IsValid question) in
        (v, tick-IsTicked now _ v)
