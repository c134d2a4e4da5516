-- ===== src/Mdnssd/Types.antt =====
-- mdnssd/browsetypes.go: the discovery of service types.
mod Tests
pub mod Once
use bramble_gate.Prelude.{
  ℕ, Bool, true, false, not, Option, none, some, List, [], ◌∷◌, ◌++◌, any, ◌==◌, if◌then◌else◌,
  GoString, codes, str_eq,
}
use bramble_gate.Prelude.Int.{ℤ}
use bramble_gate.Dns.{Msg}
use bramble_gate.Mdnssd.Cache
use bramble_gate.Mdnssd.Cache.{Records}
use bramble_gate.Mdnssd.Response.{Wire, PtrRecord, Query, parse_answers, ptr_rr, build_query}
use bramble_gate.Mdnssd.Browser.{split_service_question, refresh_query}

-- `metaServiceType`
abbrev pub meta_service_type : GoString
meta_service_type = codes "_services._dns-sd._udp"

-- `typeBrowserState`; `seen` holds the keys of the map, whose values are all true.
pub record TypeBrowserState (Rr : Type 0) : Type 0 where
  pub question : GoString
  pub cache : Records Rr
  pub seen : List GoString

-- `newTypeBrowserState`
unfoldable pub new_type_browser_state : {Rr : Type 0} → TypeBrowserState Rr
new_type_browser_state = record {
  question = meta_service_type ++ codes ".local.";
  cache = [];
  seen = [];
}

module _ {Rr : Type 0} where
  -- The type that a PTR record names, if it is reported: for the first time.
  unfoldable pub report : GoString → TypeBrowserState Rr → TypeBrowserState Rr × List GoString
  report type_name t =
      if any (str_eq type_name) t.seen
      then (t, [])
      else (record t { seen = type_name ∷ t.seen }, type_name ∷ [])

module _ {Rr : Type 0} (wire : Wire Rr) where
  unfoldable pub initial_query : TypeBrowserState Rr → Query Rr
  initial_query t = build_query wire t.question [] true

  -- One round of the loop of `Ingest`.
  unfoldable pub ingest_type :
      ℤ → PtrRecord → TypeBrowserState Rr → TypeBrowserState Rr × List GoString
  unfolding report
  ingest_type now p t =
      if not (str_eq p.name t.question)
      then (t, [])
      else if p.ttl == 0
      then (record t { cache = Cache.remove t.cache p.ptr }, [])
      else report (split_service_question p.ptr).0 (record t {
        cache = (Cache.store t.cache p.ptr t.question (some (ptr_rr wire p)) p.ttl now).0;
      })

  unfoldable pub ingest_types :
      ℤ → List PtrRecord → TypeBrowserState Rr → TypeBrowserState Rr × List GoString
  ingest_types now [] t = (t, [])
  ingest_types now (p ∷ ptrs) t =
      let (t', new) = ingest_type now p t in
      let (t'', more) = ingest_types now ptrs t' in (t'', new ++ more)

  -- `Ingest`
  unfoldable pub ingest : Msg Rr → ℤ → TypeBrowserState Rr → TypeBrowserState Rr × List GoString
  ingest msg now t = ingest_types now (parse_answers wire msg).ptr t

  -- `Tick`
  unfoldable pub tick : ℤ → TypeBrowserState Rr → TypeBrowserState Rr × List (Query Rr)
  unfolding refresh_query
  tick now t =
      let (kept, due, gone) = Cache.tick now t.cache in
      (record t { cache = kept }, refresh_query wire t.question kept now due)
