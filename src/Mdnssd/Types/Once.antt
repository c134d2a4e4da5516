-- ===== src/Mdnssd/Types/Once.antt =====
-- mdnssd/browsetypes.go: a type is reported at most once in a browse.
use bramble_gate.Prelude.{
  ◌≡◌, refl, sym, ◌∙◌, inl, inr, Bool-cases, some, ◌||◌, not, any-append, List, [], ◌∷◌, ◌++◌, any,
  ◌==◌, if◌then◌else◌, GoString, str_eq, str_eq→eq, ◌&&◌, arith,
}
use bramble_gate.Prelude.Distinct.{
  Distinct, Fresh, done, new, Fresh-append, Fresh-after, Fresh-Distinct,
}
use bramble_gate.Prelude.Int.{ℤ}
use bramble_gate.Dns.{Msg}
use bramble_gate.Mdnssd.Cache.{Records, store}
use bramble_gate.Mdnssd.Response.{Wire, PtrRecord, parse_answers, ptr_rr}
use bramble_gate.Mdnssd.Browser.{split_service_question}
use bramble_gate.Mdnssd.Types.{
  TypeBrowserState, new_type_browser_state, report, ingest_type, ingest_types, ingest, tick,
}

-- The types that a message announces: those of the PTR records that answer the question with a
-- lifetime.
told_by : GoString → PtrRecord → List GoString
told_by question p =
    if str_eq p.name question && not (p.ttl == 0) then (split_service_question p.ptr).0 ∷ [] else []

pub announced_by : GoString → List PtrRecord → List GoString
announced_by question [] = []
announced_by question (p ∷ ptrs) = told_by question p ++ announced_by question ptrs

-- What one step of the browse does to the types seen, when it reports `ss` and the message
-- announces `told`.
record Keeps {Rr : Type 0} (t : TypeBrowserState Rr) (told : List GoString)
    (r : TypeBrowserState Rr × List GoString) : Type 0 where
  fresh : Fresh t.seen r.1 r.0.seen
  asks : r.0.question ≡ t.question
  hears : (s : GoString) → any (str_eq s) r.0.seen ≡ (any (str_eq s) t.seen || any (str_eq s) told)

module _ {Rr : Type 0} where
  report-Keeps : (s : GoString) (t : TypeBrowserState Rr) → Keeps t (s ∷ []) (report s t)
  unfolding report
  report-Keeps s t = elim (Bool-cases (any (str_eq s) t.seen)) [
    | inl old ↦
        rw (old, report)
          (record {
            fresh = done;
            asks = refl;
            hears = λ k. elim (Bool-cases (str_eq k s)) [
              | inl e ↦ rw (str_eq→eq k s e) (rw old refl)
              | inr e ↦ rw e (ground arith)
            ];
          })
    | inr first ↦
        rw (first, report)
          (record { fresh = new first done; asks = refl; hears = λ k. ground arith })
  ]

  Keeps-append :
      {t : TypeBrowserState Rr} {told more : List GoString}
      {r q : TypeBrowserState Rr × List GoString}
      → Keeps t told r
      → Keeps r.0 more q
      → Keeps t (told ++ more) (q.0, r.1 ++ q.1)
  Keeps-append {t} {told} {more} first rest = record {
    fresh = Fresh-append first.fresh rest.fresh;
    asks = rest.asks ∙ first.asks;
    hears = λ k. ground (arith, any-append (str_eq k) told more, first.hears k, rest.hears k);
  }

  module _ (wire : Wire Rr) where
    ingest_type-Keeps :
        (now : ℤ) (p : PtrRecord) (t : TypeBrowserState Rr)
        → Keeps t (told_by t.question p) (ingest_type wire now p t)
    unfolding ingest_type told_by
    ingest_type-Keeps now p t = elim (Bool-cases (str_eq p.name t.question)) [
      | inr other ↦ rw other (nothing_told t t.cache)
      | inl ours ↦ elim (Bool-cases (p.ttl == 0)) [
        | inl bye ↦ rw (ours, bye) (nothing_told t _)
        | inr live ↦
            rw (ours, live)
              (let k = report-Keeps (split_service_question p.ptr).0 (record t {
                cache = (store t.cache p.ptr t.question (some (ptr_rr wire p)) p.ttl now).0;
              }) in
                record { fresh = k.fresh; asks = k.asks; hears = k.hears })
      ]
    ]
      where
        nothing_told :
            (t : TypeBrowserState Rr) (cache : Records Rr)
            → Keeps t [] (record t { cache = cache }, [])
        nothing_told t cache = record { fresh = done; asks = refl; hears = λ k. ground arith }

    ingest_types-Keeps :
        (now : ℤ) (ptrs : List PtrRecord) (t : TypeBrowserState Rr)
        → Keeps t (announced_by t.question ptrs) (ingest_types wire now ptrs t)
    unfolding ingest_types announced_by
    ingest_types-Keeps now [] t = record { fresh = done; asks = refl; hears = λ k. ground arith }
    ingest_types-Keeps now (p ∷ ptrs) t =
        let first = ingest_type-Keeps now p t in
        let rest = ingest_types-Keeps now ptrs (ingest_type wire now p t).0 in
        Keeps-append first (rw first.asks at rest)

    -- What a browse of types meets: a message on an interface that it listens to, and the ticker.
    pub data Event : Type 0 where
      received : Msg Rr → ℤ → Event
      ticked_at : ℤ → Event

    pub run : Event → TypeBrowserState Rr → TypeBrowserState Rr × List GoString
    run (received msg now) t = ingest wire msg now t
    run (ticked_at now) t = ((tick wire now t).0, [])

    -- The state after some events, and the types reported.
    pub run_all : List Event → TypeBrowserState Rr → TypeBrowserState Rr × List GoString
    run_all [] t = (t, [])
    run_all (event ∷ events) t =
        let (t', types) = run event t in let (t'', more) = run_all events t' in (t'', types ++ more)

    -- The types that the messages announce.
    pub announced : GoString → List Event → List GoString
    announced question [] = []
    announced question (received msg now ∷ events) =
        announced_by question (parse_answers wire msg).ptr ++ announced question events
    announced question (ticked_at now ∷ events) = announced question events

    run_all-Keeps :
        (events : List Event) (t : TypeBrowserState Rr)
        → Keeps t (announced t.question events) (run_all events t)
    unfolding run_all run announced ingest tick
    run_all-Keeps [] t = record { fresh = done; asks = refl; hears = λ k. ground arith }
    run_all-Keeps (received msg now ∷ events) t =
        let first = ingest_types-Keeps now (parse_answers wire msg).ptr t in
        Keeps-append first (rw first.asks at (run_all-Keeps events (ingest wire msg now t).0))
    run_all-Keeps (ticked_at now ∷ events) t =
        let k = run_all-Keeps events (tick wire now t).0 in
        record { fresh = k.fresh; asks = k.asks; hears = k.hears }

    -- Whatever messages and ticks a browse of types meets, it reports no type twice, and it reports
    -- a type if and only if a message announces it.
    pub run_all-Distinct :
        (events : List Event)
        → Distinct (run_all events new_type_browser_state).1
          × ((s : GoString)
              → any (str_eq s) (run_all events new_type_browser_state).1
                ≡ any (str_eq s) (announced (new_type_browser_state {Rr = Rr}).question events))
    unfolding new_type_browser_state
    run_all-Distinct events =
        let k = run_all-Keeps events new_type_browser_state in
        (Fresh-Distinct k.fresh, λ s. sym (Fresh-after s k.fresh) ∙ k.hears s)
