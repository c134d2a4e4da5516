-- ===== src/Mdnsbridge/Table/Runs.antt =====
-- plugins/mdnsbridge/table.go: the operations in any order, from an empty table.
use bramble_gate.Prelude.{
  Bool, true, false, Option, none, some, List, [], ◌∷◌, GoString, string_discrete, lookup, insert,
  delete, Ip,
}
use bramble_gate.Prelude.Int.{ℤ}
use bramble_gate.Vlanmatch
use bramble_gate.Mdnsbridge.Selector.{Entry, Config}
use bramble_gate.Mdnsbridge.Table.{
  Table, new_table, entry_key, rederive, set_config, announced, upsert, set_published, remove,
  clear, expire, fqdn,
}
use bramble_gate.Mdnsbridge.Table.Laws.{
  AllDerived, rederive-IsDerived, rederived_entries, insert-AllDerived, delete-AllDerived,
  select-AllDerived, approve-IsDerived, map_entries-AllDerived,
}

-- The operations that change the table, on any arguments.
pub data Op : Type 0 where
  configure : Config → Op
  announce : Entry → ℤ → Op
  approve_name : GoString → Bool → Op
  say_goodbye : GoString → GoString → GoString → Op
  clear_all : Op
  sweep : ℤ → Op

module _ (vlans : Vlanmatch.Table) (parse_ip : GoString → Option Ip) where
  abbrev pub run : Op → Table → Table
  run (configure c) t = set_config vlans parse_ip t c
  run (announce e now) t = upsert vlans parse_ip t e now
  run (approve_name name published) t = (set_published vlans parse_ip t name published).0
  run (say_goodbye service label host) t = (remove t service label host).0
  run clear_all t = (clear t).0
  run (sweep now) t = (expire t now).0

  abbrev pub run_all : List Op → Table → Table
  run_all [] t = t
  run_all (op ∷ ops) t = run_all ops (run op t)

  -- Every entry's mapped name and derived flags are those that the configuration gives.
  abbrev pub IsConsistent : Table → Type 0
  IsConsistent t = AllDerived vlans parse_ip t.cfg t.entries

  upsert-IsConsistent :
      (t : Table) (e : Entry) (now : ℤ)
      → IsConsistent t
      → IsConsistent (upsert vlans parse_ip t e now)
  unfolding upsert
  upsert-IsConsistent t e now v =
      go (lookup string_discrete (entry_key e.service e.instance_label e.host) t.entries)
    where
      go :
          (r : Option Entry)
          → IsConsistent (elim r as (λ _. Table) [
            | some cur ↦ record t {
              entries =
                  insert string_discrete
                    (entry_key e.service e.instance_label e.host)
                    (rederive vlans parse_ip t.cfg (announced vlans parse_ip cur e now))
                    t.entries;
            }
            | none ↦ record t {
              entries =
                  insert string_discrete
                    (entry_key e.service e.instance_label e.host)
                    (rederive vlans parse_ip t.cfg (record e { last_seen = now }))
                    t.entries;
            }
          ])
      go (some cur) =
          insert-AllDerived vlans parse_ip t.cfg _ _ t.entries
            (rederive-IsDerived vlans parse_ip t.cfg (announced vlans parse_ip cur e now)) v
      go none =
          insert-AllDerived vlans parse_ip t.cfg _ _ t.entries
            (rederive-IsDerived vlans parse_ip t.cfg (record e { last_seen = now })) v

  remove-IsConsistent :
      (t : Table) (service label host : GoString)
      → IsConsistent t
      → IsConsistent (remove t service label host).0
  unfolding remove
  remove-IsConsistent t service label host v =
      go (lookup string_discrete (entry_key service label host) t.entries)
    where
      go :
          (r : Option Entry)
          → IsConsistent
              (elim r as (λ _. Table × Bool) [
                | none ↦ (t, false)
                | some e ↦ (
                  record t {
                    entries = delete string_discrete (entry_key service label host) t.entries;
                  },
                  true,
                )
              ]).0
      go none = v
      go (some e) = delete-AllDerived vlans parse_ip t.cfg _ t.entries v

  run-IsConsistent : (op : Op) (t : Table) → IsConsistent t → IsConsistent (run op t)
  unfolding set_config set_published clear expire
  run-IsConsistent (configure c) t v = rederived_entries vlans parse_ip c t.entries
  run-IsConsistent (announce e now) t v = upsert-IsConsistent t e now v
  run-IsConsistent (approve_name name published) t v =
      map_entries-AllDerived vlans parse_ip t.cfg _ t.entries
        (approve-IsDerived vlans parse_ip t.cfg (fqdn name) published) v
  run-IsConsistent (say_goodbye service label host) t v = remove-IsConsistent t service label host v
  run-IsConsistent clear_all t v = tt
  run-IsConsistent (sweep now) t v = select-AllDerived vlans parse_ip t.cfg _ t.entries v

  -- Whatever operations run on a new table, in any order, every entry then has the mapped name and
  -- the published and promoted flags that the present configuration, the entry's addresses and
  -- fields, and the approvals give it: deriving them again changes nothing.
  pub run_all-IsConsistent :
      (ops : List Op) (cfg : Config) (ttl : ℤ) → IsConsistent (run_all ops (new_table cfg ttl))
  run_all-IsConsistent ops cfg ttl = from ops (new_table cfg ttl) (unfold new_table in tt)
    where
      from : (more : List Op) (t : Table) → IsConsistent t → IsConsistent (run_all more t)
      from [] t v = v
      from (op ∷ more) t v = from more (run op t) (run-IsConsistent op t v)
