-- ===== src/Mdnssd/Browser/Valid.antt =====
-- mdnssd/browser.go: the entries and the cache of a browse stay in step.
use bramble_gate.Prelude.{
  ◌%◌, ◌≡◌, refl, sym, ◌∙◌, inl, inr, Bool-cases, Option-cases, true, false, Option, none, some,
  List, [], ◌∷◌, All, ◌==◌, if◌then◌else◌, GoString, str_eq, str_eq_refl, string_discrete, lookup,
  insert, delete, same, lookup-insert, lookup-delete, insert-Unique, delete-Unique, Unique,
  AllValues, insert-AllValues, delete-AllValues, is_some, arith,
}
use bramble_gate.Prelude.Int.{ℤ}
use bramble_gate.Dns.{Msg}
use bramble_gate.Mdnssd.Cache
use bramble_gate.Mdnssd.Cache.{CacheRecord, Records, due_threshold}
use bramble_gate.Mdnssd.Cache.Ticks.{IsBounded}
use bramble_gate.Mdnssd.Cache.Known.{IsWhole}
use bramble_gate.Mdnssd.Response.{
  Wire, PtrRecord, SrvRecord, TxtRecord, AddrRecord, second, parse_answers,
}
use bramble_gate.Mdnssd.Response.Laws.{parse_answers-AllWhole}
use bramble_gate.Mdnssd.Browser.{
  Entry, BrowserState, Progress, change_entry, ingest_srvs, ingest_txts, add_address, with_ipv4,
  with_ipv6, say_goodbye, keep_ptr, ingest_ptr, ingest_ptrs, ingest_addr, ingest_addrs, ingest_all,
  ingest,
}

-- A record of the cache is as the browse of `question` stores them.
pub record IsKept {Rr : Type 0} (question : GoString) (r : CacheRecord Rr) : Type 0 where
  pub bounded : IsBounded r
  pub whole : IsWhole r
  pub asked : str_eq r.question question ≡ true

-- An instance has an entry if and only if it has a record in the cache.
abbrev pub InStep : {Rr : Type 0} → Records Rr → List (GoString × Entry) → Type 0
InStep cache entries =
    (k : GoString)
    → is_some (lookup string_discrete k entries) ≡ is_some (lookup string_discrete k cache)

pub record IsValid {Rr : Type 0} (b : BrowserState Rr) : Type 0 where
  pub cache_keys : Unique string_discrete b.cache
  pub entry_keys : Unique string_discrete b.entries
  pub kept : AllValues (IsKept b.question) b.cache
  pub in_step : InStep b.cache b.entries

-- Writing an entry that is there leaves the keys.
is_some-insert :
    {V : Type 0} (k j : GoString) (v : V) (m : List (GoString × V))
    → is_some (lookup string_discrete j (insert string_discrete k v m))
      ≡ (if same string_discrete k j then true else is_some (lookup string_discrete j m))
is_some-insert k j v m = ground (arith, lookup-insert string_discrete k j v m)

is_some-delete :
    {V : Type 0} (k j : GoString) (m : List (GoString × V))
    → is_some (lookup string_discrete j (delete string_discrete k m))
      ≡ (if same string_discrete k j then false else is_some (lookup string_discrete j m))
is_some-delete k j m = ground (arith, lookup-delete string_discrete k j m)

module _ {Rr : Type 0} where
  change_entry-IsValid :
      (k : GoString) (change : Entry → Entry) (g : Progress Rr)
      → IsValid g.state
      → IsValid (change_entry k change g).state
  unfolding change_entry
  change_entry-IsValid k change g v =
      elim (Option-cases (lookup string_discrete k g.state.entries)) [
        | inl nothing ↦ rw (nothing, change_entry) v
        | inr (e, there) ↦
            rw (there, change_entry)
              (record {
                cache_keys = v.cache_keys;
                entry_keys =
                    insert-Unique string_discrete k (change e) g.state.entries v.entry_keys;
                kept = v.kept;
                in_step =
                    λ j. ground (arith, is_some-insert k j (change e) g.state.entries, v.in_step j);
              })
      ]

  ingest_srvs-IsValid :
      (srvs : List SrvRecord) (g : Progress Rr)
      → IsValid g.state
      → IsValid (ingest_srvs srvs g).state
  unfolding ingest_srvs
  ingest_srvs-IsValid [] g v = v
  ingest_srvs-IsValid (r ∷ srvs) g v =
      ingest_srvs-IsValid srvs _ (change_entry-IsValid r.name _ g v)

  ingest_txts-IsValid :
      (txts : List TxtRecord) (g : Progress Rr)
      → IsValid g.state
      → IsValid (ingest_txts txts g).state
  unfolding ingest_txts
  ingest_txts-IsValid [] g v = v
  ingest_txts-IsValid (r ∷ txts) g v =
      ingest_txts-IsValid txts _ (change_entry-IsValid r.name _ g v)

is_some-add :
    (host k : GoString) (add : Entry → Entry) (m : List (GoString × Entry))
    → is_some (lookup string_discrete k (add_address host add m))
      ≡ is_some (lookup string_discrete k m)
unfolding add_address lookup
is_some-add host k add [] = refl
is_some-add host k add ((j, e) ∷ m) = ground (arith, is_some-add host k add m)

none_of_is_some : {V : Type 0} (o : Option V) → is_some o ≡ false → o ≡ none
none_of_is_some none h = refl
none_of_is_some (some v) h = cc

add_address-Unique :
    (host : GoString) (add : Entry → Entry) (m : List (GoString × Entry))
    → Unique string_discrete m
    → Unique string_discrete (add_address host add m)
unfolding add_address
add_address-Unique host add [] u = tt
add_address-Unique host add ((j, e) ∷ m) u =
    (none_of_is_some _ (is_some-add host j add m ∙ rw u.0), add_address-Unique host add m u.1)

module _ {Rr : Type 0} (wire : Wire Rr) where
  open wire use {dns, ip_string}

  ingest_addrs-IsValid :
      (add : GoString → Entry → Entry) (addrs : List AddrRecord) (g : Progress Rr)
      → IsValid g.state
      → IsValid (ingest_addrs wire add addrs g).state
  unfolding ingest_addrs
  ingest_addrs-IsValid add [] g v = v
  ingest_addrs-IsValid add (r ∷ addrs) g v =
      ingest_addrs-IsValid add addrs (ingest_addr wire add r g) (record {
        cache_keys = v.cache_keys;
        entry_keys = add_address-Unique _ (add (ip_string r.ip)) g.state.entries v.entry_keys;
        kept = v.kept;
        in_step = λ k. is_some-add _ k (add (ip_string r.ip)) g.state.entries ∙ v.in_step k;
      })

  say_goodbye-IsValid :
      (p : PtrRecord) (g : Progress Rr) → IsValid g.state → IsValid (say_goodbye wire p g).state
  unfolding say_goodbye Cache.remove
  say_goodbye-IsValid p g v = elim (Option-cases (lookup string_discrete p.ptr g.state.entries)) [
    | inl nothing ↦
        rw (nothing, say_goodbye)
          (record {
            cache_keys = delete-Unique string_discrete p.ptr g.state.cache v.cache_keys;
            entry_keys = v.entry_keys;
            kept = delete-AllValues string_discrete _ p.ptr g.state.cache v.kept;
            in_step = λ j.
                ground (arith, is_some-delete p.ptr j g.state.cache, v.in_step j, v.in_step p.ptr);
          })
    | inr (e, there) ↦
        rw (there, say_goodbye)
          (record {
            cache_keys = delete-Unique string_discrete p.ptr g.state.cache v.cache_keys;
            entry_keys = delete-Unique string_discrete p.ptr g.state.entries v.entry_keys;
            kept = delete-AllValues string_discrete _ p.ptr g.state.cache v.kept;
            in_step = λ j.
                is_some-delete p.ptr j g.state.entries
                ∙ rw (v.in_step j) (sym (is_some-delete p.ptr j g.state.cache));
          })
  ]

  keep_ptr-IsValid :
      (iface : GoString) (now : ℤ) (p : PtrRecord) (g : Progress Rr)
      → p.ttl % second ≡ 0
      → IsValid g.state
      → IsValid (keep_ptr wire iface now p g).state
  unfolding keep_ptr Cache.store
  keep_ptr-IsValid iface now p g whole v = record {
    cache_keys = insert-Unique string_discrete p.ptr _ g.state.cache v.cache_keys;
    entry_keys = insert-Unique string_discrete p.ptr _ g.state.entries v.entry_keys;
    kept =
        insert-AllValues string_discrete _ p.ptr _ g.state.cache
          (record { bounded = omega arith; whole = whole; asked = str_eq_refl g.state.question })
          v.kept;
    in_step = λ j.
        is_some-insert p.ptr j _ g.state.entries
        ∙ rw (v.in_step j) (sym (is_some-insert p.ptr j _ g.state.cache));
  }

  ingest_ptr-IsValid :
      (iface : GoString) (now : ℤ) (p : PtrRecord) (g : Progress Rr)
      → p.ttl % second ≡ 0
      → IsValid g.state
      → IsValid (ingest_ptr wire iface now p g).state
  unfolding ingest_ptr
  ingest_ptr-IsValid iface now p g whole v = elim (Bool-cases (str_eq p.name g.state.question)) [
    | inr theirs ↦ rw theirs v
    | inl ours ↦ elim (Bool-cases (p.ttl == 0)) [
      | inl bye ↦ rw (ours, bye) (say_goodbye-IsValid p g v)
      | inr live ↦ rw (ours, live) (keep_ptr-IsValid iface now p g whole v)
    ]
  ]

  ingest_ptrs-IsValid :
      (iface : GoString) (now : ℤ) (ptrs : List PtrRecord) (g : Progress Rr)
      → All (λ p. p.ttl % second ≡ 0) ptrs
      → IsValid g.state
      → IsValid (ingest_ptrs wire iface now ptrs g).state
  unfolding ingest_ptrs
  ingest_ptrs-IsValid iface now [] g whole v = v
  ingest_ptrs-IsValid iface now (p ∷ ptrs) g whole v =
      ingest_ptrs-IsValid iface now ptrs _ whole.1 (ingest_ptr-IsValid iface now p g whole.0 v)

  pub ingest-IsValid :
      (msg : Msg Rr) (iface : GoString) (now : ℤ) (b : BrowserState Rr)
      → IsValid b
      → IsValid (ingest wire msg iface now b).0
  unfolding ingest ingest_all
  ingest-IsValid msg iface now b v =
      let parsed = parse_answers wire msg in
      ingest_addrs-IsValid with_ipv6 parsed.aaaa _ (
        ingest_addrs-IsValid with_ipv4 parsed.a _ (
          ingest_txts-IsValid parsed.txt _ (
            ingest_srvs-IsValid parsed.srv _
              (ingest_ptrs-IsValid iface now parsed.ptr _ (parse_answers-AllWhole wire msg) v))))
