-- ===== src/Mdnsbridge/Listener/Reports.antt =====
-- plugins/mdnsbridge/listener.go: which entries the table has after the reports of the browses, the
-- ticks of `Run`, and the other operations on the table.
use bramble_gate.Prelude.{
  ◌≡◌, refl, ap, ◌∙◌, Bool, Option, none, List, [], ◌∷◌, arith, if◌then◌else◌, GoString, str_eq,
  string_discrete, is_empty, lookup, Unique, Ip,
}
use bramble_gate.Prelude.Int.{ℤ}
use bramble_gate.Vlanmatch
use bramble_gate.Mdnsbridge.Selector.{Config}
use bramble_gate.Mdnsbridge.Table as Discoveries
use bramble_gate.Mdnsbridge.Listener.{Found, host_of, ingest, remove}
use bramble_gate.Mdnsbridge.Listener.Sightings.{
  Sighting, sighted, announce, outlive, key_of, sighted-remove, select-Unique, sighted-expire,
  remove-Unique, sighted-ingest, ingest-Unique, rederive-sighting, approve-sighting,
  sighting-map_entries, map_entries-Unique,
}

-- What changes the table: the reports of the browses of any services, the ticks of `Run`, and the
-- operations of the web page, in any order.
pub data Event : Type 0 where
  added : GoString → Found → ℤ → Event
  removed : GoString → Found → Event
  expired_at : ℤ → Event
  cleared : Event
  configured : Config → Event
  published : GoString → Bool → Event

-- What the events leave of the sighting of a key.
abbrev pub last_sighting : ℤ → GoString → Option Sighting → List Event → Option Sighting
last_sighting fallback k before [] = before
last_sighting fallback k before (added service e now ∷ events) =
    last_sighting fallback k
      (if str_eq (key_of service e) k
        then (if is_empty (host_of e) then before else announce now e.ttl before)
        else before)
      events
last_sighting fallback k before (removed service e ∷ events) =
    last_sighting fallback k (if str_eq (key_of service e) k then none else before) events
last_sighting fallback k before (expired_at now ∷ events) =
    last_sighting fallback k (outlive fallback now before) events
last_sighting fallback k before (cleared ∷ events) = last_sighting fallback k none events
last_sighting fallback k before (configured cfg ∷ events) = last_sighting fallback k before events
last_sighting fallback k before (published name flag ∷ events) =
    last_sighting fallback k before events

module _ (vlans : Vlanmatch.Table) (parse_ip : GoString → Option Ip) where
  abbrev pub run : Discoveries.Table → Event → Discoveries.Table
  run t (added service e now) = ingest vlans parse_ip t service e now
  run t (removed service e) = remove t service e
  run t (expired_at now) = (Discoveries.expire t now).0
  run t cleared = (Discoveries.clear t).0
  run t (configured cfg) = Discoveries.set_config vlans parse_ip t cfg
  run t (published name flag) = (Discoveries.set_published vlans parse_ip t name flag).0

  abbrev pub run_all : Discoveries.Table → List Event → Discoveries.Table
  run_all t [] = t
  run_all t (r ∷ rs) = run_all (run t r) rs

  run-ttl : (t : Discoveries.Table) (event : Event) → (run t event).ttl ≡ t.ttl
  unfolding ingest remove Discoveries.upsert Discoveries.remove Discoveries.expire Discoveries.clear
      Discoveries.set_config Discoveries.set_published
  run-ttl t (added service e now) = ground arith
  run-ttl t (removed service e) = ground arith
  run-ttl t (expired_at now) = refl
  run-ttl t cleared = refl
  run-ttl t (configured cfg) = refl
  run-ttl t (published name flag) = refl

  run-Unique :
      (t : Discoveries.Table) (event : Event)
      → Unique string_discrete t.entries
      → Unique string_discrete (run t event).entries
  unfolding remove Discoveries.expire Discoveries.clear Discoveries.set_config
      Discoveries.set_published
  run-Unique t (added service e now) u = ingest-Unique vlans parse_ip t service e now u
  run-Unique t (removed service e) u =
      remove-Unique vlans parse_ip t service e.instance_label (host_of e) u
  run-Unique t (expired_at now) u = select-Unique _ t.entries u
  run-Unique t cleared u = tt
  run-Unique t (configured cfg) u =
      map_entries-Unique vlans parse_ip _ (rederive-sighting vlans parse_ip cfg) t.entries u
  run-Unique t (published name flag) u =
      map_entries-Unique vlans parse_ip _
        (approve-sighting vlans parse_ip t.cfg (Discoveries.fqdn name) flag) t.entries u

  past :
      (t : Discoveries.Table) (event : Event) (events : List Event) (k : GoString)
      (before : Option Sighting)
      → sighted k (run t event) ≡ before
      → sighted k (run_all (run t event) events)
        ≡ last_sighting (run t event).ttl k (sighted k (run t event)) events
      → sighted k (run_all (run t event) events) ≡ last_sighting t.ttl k before events
  past t event events k before step rest =
      rest
      ∙ ap (λ b. last_sighting (run t event).ttl k b events) step
      ∙ ap (λ d. last_sighting d k before events) (run-ttl t event)

  -- Whatever happens to a table without repeated keys, in any order: it has an entry for an instance
  -- of a service at a host exactly if the last announcement of it, or the entry that the table had
  -- before, has not been withdrawn, cleared, or found at a tick to have outlived its lifetime since;
  -- and the entry says when it was last announced and with which lifetime. An announcement without a
  -- host is none, and one without a lifetime leaves the lifetime announced before.
  pub run_all-last_sighting :
      (events : List Event) (t : Discoveries.Table) (k : GoString)
      → Unique string_discrete t.entries
      → sighted k (run_all t events) ≡ last_sighting t.ttl k (sighted k t) events
  unfolding remove Discoveries.clear Discoveries.set_config Discoveries.set_published lookup
  run_all-last_sighting [] t k u = refl
  run_all-last_sighting (event ∷ events) t k u =
      go event (run_all-last_sighting events (run t event) k (run-Unique t event u))
    where
      go :
          (event : Event)
          → sighted k (run_all (run t event) events)
            ≡ last_sighting (run t event).ttl k (sighted k (run t event)) events
          → sighted k (run_all (run t event) events)
            ≡ last_sighting t.ttl k (sighted k t) (event ∷ events)
      go (added service e now) rest =
          past t (added service e now) events k _ (sighted-ingest vlans parse_ip k service t e now)
            rest
      go (removed service e) rest =
          past t (removed service e) events k _
            (sighted-remove k service e.instance_label (host_of e) t) rest
      go (expired_at now) rest = past t (expired_at now) events k _ (sighted-expire k t now u) rest
      go cleared rest = past t cleared events k _ refl rest
      go (configured cfg) rest =
          past t (configured cfg) events k _
            (sighting-map_entries vlans parse_ip _ (rederive-sighting vlans parse_ip cfg) k
              t.entries)
            rest
      go (published name flag) rest =
          past t (published name flag) events k _
            (sighting-map_entries vlans parse_ip _
              (approve-sighting vlans parse_ip t.cfg (Discoveries.fqdn name) flag) k t.entries)
            rest
