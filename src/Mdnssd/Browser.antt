-- ===== src/Mdnssd/Browser.antt =====
-- mdnssd/browser.go: what a browse of one service type keeps, and what it makes of messages and
-- ticks. `Browse` itself is the loop over a transport that calls these.
pub mod Valid
pub mod Runs
mod Tests
use bramble_gate.Prelude.{
  ℕ, ◌+◌, Bool, true, false, ◌&&◌, ◌||◌, not, Option, none, some, List, [], ◌∷◌, ◌++◌, any, is_nil,
  ◌==◌, if◌then◌else◌, GoString, codes, str_eq, string_discrete, is_empty, has_suffix, trim_suffix,
  trim_dot, lookup, insert, delete, sort_strings, Ip,
}
use bramble_gate.Prelude.Int.{ℤ}
use bramble_gate.Dns.{Msg}
use bramble_gate.Mdnssd.Cache
use bramble_gate.Mdnssd.Cache.{Records, known_answers, known_answers_for}
use bramble_gate.Mdnssd.Response.{
  Wire, PtrRecord, SrvRecord, TxtRecord, AddrRecord, ParsedAnswers, Query, parse_answers, ptr_rr,
  build_query,
}

-- `Entry`, of service.go; `label` is Instance
pub record Entry : Type 0 where
  pub host : GoString
  pub label : GoString
  pub service : GoString
  pub domain : GoString
  pub txt : List (GoString × GoString)
  pub ipv4 : List GoString
  pub ipv6 : List GoString
  pub iface : GoString
  pub ttl : ℕ

-- `browserState`
pub record BrowserState (Rr : Type 0) : Type 0 where
  pub question : GoString
  pub service : GoString
  pub domain : GoString
  pub cache : Records Rr
  pub entries : List (GoString × Entry)

-- `splitServiceQuestion`
unfoldable pub split_service_question : GoString → GoString × GoString
split_service_question question =
    if has_suffix question (codes ".local.")
    then (trim_suffix question (codes ".local."), codes "local")
    else (trim_dot question, [])

-- `instanceLabel`
unfoldable pub instance_label : GoString → GoString → GoString
instance_label instance_name question = trim_dot (trim_suffix instance_name question)

-- `mergeUniqueStr`
unfoldable pub merge_unique_str : List GoString → GoString → List GoString
merge_unique_str existing add =
    if any (str_eq add) existing then existing else sort_strings (existing ++ (add ∷ []))

-- `touched[instance] = true`
unfoldable pub touch : GoString → List GoString → List GoString
touch instance_name touched =
    if any (str_eq instance_name) touched then touched else touched ++ (instance_name ∷ [])

-- `newBrowserState`
unfoldable pub new_browser_state : {Rr : Type 0} → GoString → BrowserState Rr
new_browser_state question =
    let (service, domain) = split_service_question question in
    record { question = question; service = service; domain = domain; cache = []; entries = [] }

-- The variables of `Ingest`.
pub record Progress (Rr : Type 0) : Type 0 where
  pub state : BrowserState Rr
  pub touched : List GoString
  pub removed : List Entry

module _ {Rr : Type 0} where
  -- `ensureEntry`: the entry that is there, or a new one.
  unfoldable pub ensure_entry : BrowserState Rr → GoString → GoString → Option Entry → Entry
  ensure_entry b instance_name iface (some e) = e
  ensure_entry b instance_name iface none = record {
    host = [];
    label = instance_label instance_name b.question;
    service = b.service;
    domain = b.domain;
    txt = [];
    ipv4 = [];
    ipv6 = [];
    iface = iface;
    ttl = 0;
  }

  -- A change of the entry of one instance, if it has one, which touches it.
  unfoldable pub change_entry : GoString → (Entry → Entry) → Progress Rr → Progress Rr
  change_entry instance_name change g =
      elim (lookup string_discrete instance_name g.state.entries) [
        | none ↦ g
        | some e ↦ record g {
          state = record g.state {
            entries = insert string_discrete instance_name (change e) g.state.entries;
          };
          touched = touch instance_name g.touched;
        }
      ]

  -- The loops over the SRV and TXT records.
  unfoldable pub ingest_srvs : List SrvRecord → Progress Rr → Progress Rr
  ingest_srvs [] g = g
  ingest_srvs (r ∷ srvs) g =
      ingest_srvs srvs (change_entry r.name (λ e. record e { host = trim_dot r.target }) g)

  unfoldable pub ingest_txts : List TxtRecord → Progress Rr → Progress Rr
  ingest_txts [] g = g
  ingest_txts (r ∷ txts) g =
      ingest_txts txts (change_entry r.name (λ e. record e { txt = r.text }) g)

-- The loop over the entries for one address record: those of its host get the address.
unfoldable pub has_host : GoString → Entry → Bool
has_host host e = not (is_empty e.host) && str_eq e.host host

unfoldable pub add_address :
    GoString → (Entry → Entry) → List (GoString × Entry) → List (GoString × Entry)
unfolding has_host
add_address host add [] = []
add_address host add ((k, e) ∷ entries) =
    (k, if has_host host e then add e else e) ∷ add_address host add entries

unfoldable pub touch_host : GoString → List (GoString × Entry) → List GoString → List GoString
unfolding has_host touch
touch_host host [] touched = touched
touch_host host ((k, e) ∷ entries) touched =
    touch_host host entries (if has_host host e then touch k touched else touched)

abbrev pub with_ipv4 : GoString → Entry → Entry
with_ipv4 text e = record e { ipv4 = merge_unique_str e.ipv4 text }

abbrev pub with_ipv6 : GoString → Entry → Entry
with_ipv6 text e = record e { ipv6 = merge_unique_str e.ipv6 text }

-- An entry that can be reported: it has a host and an address.
unfoldable pub is_resolvable : Entry → Bool
is_resolvable e = not (is_empty e.host) && not (is_nil e.ipv4 && is_nil e.ipv6)

-- The last loop of `Ingest`.
unfoldable pub resolvable_of : List GoString → List (GoString × Entry) → List Entry
unfolding is_resolvable
resolvable_of [] entries = []
resolvable_of (k ∷ touched) entries =
    let rest = resolvable_of touched entries in
    elim (lookup string_discrete k entries) [
      | none ↦ rest
      | some e ↦ if is_resolvable e then e ∷ rest else rest
    ]

-- The loop of `Tick` over the expired instances.
unfoldable pub drop_entries :
    List GoString → List (GoString × Entry) → List (GoString × Entry) × List Entry
drop_entries [] entries = (entries, [])
drop_entries (k ∷ gone) entries = elim (lookup string_discrete k entries) [
  | none ↦ drop_entries gone entries
  | some e ↦
      (let (left, removed) = drop_entries gone (delete string_discrete k entries) in
        (left, e ∷ removed))
]

module _ {Rr : Type 0} (wire : Wire Rr) where
  open wire use {dns, ip_string}

  -- `initialQuery`
  unfoldable pub initial_query : BrowserState Rr → Query Rr
  initial_query b = build_query wire b.question [] true

  -- A goodbye, and an answer that is kept.
  unfoldable pub say_goodbye : PtrRecord → Progress Rr → Progress Rr
  say_goodbye p g =
      let cache = Cache.remove g.state.cache p.ptr in
      elim (lookup string_discrete p.ptr g.state.entries) [
        | none ↦ record g { state = record g.state { cache = cache } }
        | some e ↦ record g {
          state = record g.state {
            cache = cache;
            entries = delete string_discrete p.ptr g.state.entries;
          };
          removed = g.removed ++ (e ∷ []);
        }
      ]

  unfoldable pub keep_ptr : GoString → ℤ → PtrRecord → Progress Rr → Progress Rr
  keep_ptr iface now p g = record g {
    state = record g.state {
      cache = (Cache.store g.state.cache p.ptr g.state.question (some (ptr_rr wire p)) p.ttl now).0;
      entries =
          insert string_discrete p.ptr
            (record (ensure_entry g.state p.ptr iface
              (lookup string_discrete p.ptr g.state.entries)) { ttl = p.ttl })
            g.state.entries;
    };
    touched = touch p.ptr g.touched;
  }

  -- One round of the loop over the PTR records.
  unfoldable pub ingest_ptr : GoString → ℤ → PtrRecord → Progress Rr → Progress Rr
  ingest_ptr iface now p g =
      if not (str_eq p.name g.state.question)
      then g
      else if p.ttl == 0
      then say_goodbye p g
      else keep_ptr iface now p g

  unfoldable pub ingest_ptrs : GoString → ℤ → List PtrRecord → Progress Rr → Progress Rr
  ingest_ptrs iface now [] g = g
  ingest_ptrs iface now (p ∷ ptrs) g = ingest_ptrs iface now ptrs (ingest_ptr iface now p g)

  -- The loops over the A and AAAA records.
  abbrev pub ingest_addr : (GoString → Entry → Entry) → AddrRecord → Progress Rr → Progress Rr
  ingest_addr add r g =
      let host = trim_dot r.name in
      record g {
        state = record g.state {
          entries = add_address host (add (ip_string r.ip)) g.state.entries;
        };
        touched = touch_host host g.state.entries g.touched;
      }

  unfoldable pub ingest_addrs :
      (GoString → Entry → Entry) → List AddrRecord → Progress Rr → Progress Rr
  ingest_addrs add [] g = g
  ingest_addrs add (r ∷ addrs) g = ingest_addrs add addrs (ingest_addr add r g)

  -- `Ingest`: the state, the entries added and those removed.
  unfoldable pub ingest_all : ParsedAnswers → GoString → ℤ → Progress Rr → Progress Rr
  ingest_all parsed iface now g = ingest_addrs with_ipv6 parsed.aaaa (
      ingest_addrs with_ipv4 parsed.a
        (ingest_txts parsed.txt (ingest_srvs parsed.srv (ingest_ptrs iface now parsed.ptr g))))

  unfoldable pub ingest :
      Msg Rr
      → GoString
      → ℤ
      → BrowserState Rr
      → (state : BrowserState Rr) × (added : List Entry) × List Entry
  ingest msg iface now b =
      let g =
        ingest_all (parse_answers wire msg) iface now
          (record { state = b; touched = []; removed = [] }) in
      (g.state, resolvable_of g.touched g.state.entries, g.removed)

  -- The query of `Tick`, if a record is due.
  unfoldable pub refresh_query : GoString → Records Rr → ℤ → List GoString → List (Query Rr)
  refresh_query question kept now [] = []
  refresh_query question kept now (d ∷ due) =
      build_query wire question
        (known_answers dns (known_answers_for dns kept question now) question) false
      ∷ []

  -- `Tick`: the state, the queries to send and the entries removed.
  unfoldable pub tick :
      ℤ → BrowserState Rr → (state : BrowserState Rr) × (queries : List (Query Rr)) × List Entry
  unfolding refresh_query
  tick now b =
      let (kept, due, gone) = Cache.tick now b.cache in
      let (entries, removed) = drop_entries gone b.entries in
      (record b { cache = kept; entries = entries }, refresh_query b.question kept now due, removed)
