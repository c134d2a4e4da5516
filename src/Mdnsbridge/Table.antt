-- ===== src/Mdnsbridge/Table.antt =====
-- plugins/mdnsbridge/table.go: the table of discoveries.
pub mod Laws
pub mod Runs
pub mod Resolve
pub mod Order
mod Tests
use mathlib.Core.List.{reverse}
use bramble_gate.Prelude.{
  ℕ, zero, suc, ◌+◌, Bool, true, false, ◌&&◌, ◌||◌, not, Option, none, some, List, [], ◌∷◌, ◌++◌,
  map, any, select, count, is_nil, length, leb, ltb, ◌==◌, if◌then◌else◌, GoString, codes, str_eq,
  string_discrete, is_empty, to_lower, trim_dot, lookup, insert, delete, Ip, sort_strings,
  less_string, sort_by,
}
use bramble_gate.Prelude.Int.{ℤ, pos, ◌-ℤ◌, ltb_ℤ}
use bramble_gate.Vlanmatch
use bramble_gate.Mdnsbridge.Selector.{
  Entry, Selector, Config, selects, match_any, suffix_for, promoted_match,
}

-- `Table`, without its clock.
pub record Table : Type 0 where
  pub entries : List (GoString × Entry)
  pub cfg : Config
  pub ttl : ℤ

-- `DefaultTTL`
abbrev pub default_ttl : ℤ
default_ttl = pos 86_400_000_000_000

-- `NewTable`
unfoldable pub new_table : Config → ℤ → Table
new_table cfg ttl = record {
  entries = [];
  cfg = cfg;
  ttl = if ltb_ℤ (pos 0) ttl then ttl else default_ttl;
}

-- `fqdn`
unfoldable pub fqdn : GoString → GoString
fqdn name = to_lower (trim_dot name) ++ codes "."

-- `entryKey`
unfoldable pub entry_key : GoString → GoString → GoString → GoString
entry_key service label host =
    to_lower (service ++ (codes "|" ++ (label ++ (codes "|" ++ (trim_dot host ++ codes ".")))))

-- strings.Trim with one byte
abbrev drop_byte : ℕ → GoString → GoString
drop_byte d [] = []
drop_byte d (c ∷ s) = if c == d then drop_byte d s else c ∷ s

unfoldable pub trim_byte : ℕ → GoString → GoString
trim_byte d s = reverse (drop_byte d (reverse (drop_byte d s)))

-- The loop of `sanitizeLabel`, of listener.go.
unfoldable pub label_bytes : GoString → GoString
label_bytes [] = []
label_bytes (c ∷ s) =
    if (leb b'a' c && leb c b'z') || (leb b'0' c && leb c b'9') || c == b'-'
    then c ∷ label_bytes s
    else if c == b' ' || c == b'_'
    then b'-' ∷ label_bytes s
    else label_bytes s

unfoldable pub sanitize_label : GoString → GoString
unfolding trim_byte label_bytes
sanitize_label s = trim_byte b'-' (label_bytes (to_lower s))

abbrev before_dot : GoString → GoString
before_dot [] = []
before_dot (c ∷ s) = if c == b'.' then [] else c ∷ before_dot s

-- `firstLabel`
unfoldable pub first_label : GoString → GoString
unfolding sanitize_label
first_label host = sanitize_label (before_dot (to_lower (trim_byte b'.' host)))

-- The loop of `mergeUnique`, with the strings seen.
unfoldable pub unique_from : List GoString → List GoString → List GoString
unique_from seen [] = []
unique_from seen (s ∷ ss) =
    if not (is_empty s) && not (any (str_eq s) seen)
    then s ∷ unique_from (s ∷ seen) ss
    else unique_from seen ss

-- `mergeUnique`
unfoldable pub merge_unique : List GoString → List GoString → List GoString
merge_unique a b = sort_strings (unique_from [] (a ++ b))

-- `expired`
unfoldable pub expired : Table → ℤ → Entry → Bool
expired t now e =
    let ttl = if ltb_ℤ (pos 0) e.ttl then e.ttl else t.ttl in ltb_ℤ ttl (now -ℤ e.last_seen)

-- `collect`
unfoldable pub collect :
    Table
    → ℤ
    → (Entry → Bool)
    → List (GoString × Entry)
    → List GoString × List GoString
    → List GoString × List GoString
collect t now pred [] acc = acc
collect t now pred ((k, e) ∷ es) (v4, v6) =
    if expired t now e || not (pred e)
    then collect t now pred es (v4, v6)
    else collect t now pred es (merge_unique v4 e.ipv4, merge_unique v6 e.ipv6)

-- `Snapshot`
unfoldable pub live_entries : Table → ℤ → List (GoString × Entry) → List Entry
unfolding expired
live_entries t now [] = []
live_entries t now ((k, e) ∷ es) =
    if not (expired t now e) then e ∷ live_entries t now es else live_entries t now es

unfoldable pub entry_less : Entry → Entry → Bool
entry_less a b =
    if not (str_eq a.name b.name)
    then less_string a.name b.name
    else less_string a.service b.service

unfoldable pub snapshot : Table → ℤ → List Entry
unfolding entry_less live_entries
snapshot t now = sort_by entry_less (live_entries t now t.entries)

-- `Remove`, `Clear` and `Expire`
unfoldable pub remove : Table → GoString → GoString → GoString → Table × Bool
unfolding entry_key
remove t service label host =
    let k = entry_key service label host in
    elim (lookup string_discrete k t.entries) [
      | none ↦ (t, false)
      | some e ↦ (record t { entries = delete string_discrete k t.entries }, true)
    ]

unfoldable pub clear : Table → Table × ℕ
clear t = (record t { entries = [] }, length t.entries)

unfoldable pub expire : Table → ℤ → Table × ℕ
unfolding expired
expire t now = (
  record t { entries = select (λ p. not (expired t now p.1)) t.entries },
  count (λ p. expired t now p.1) t.entries,
)

module _ (vlans : Vlanmatch.Table) (parse_ip : GoString → Option Ip) where
  abbrev pub mapped_name : Config → Entry → GoString → GoString
  mapped_name c e label =
      if is_empty label
      then e.name
      else label ++ (codes "." ++ (trim_dot (suffix_for vlans parse_ip c e) ++ codes "."))

  -- `rederive`
  unfoldable pub rederive : Config → Entry → Entry
  rederive c e = record e {
    name = mapped_name c e (first_label e.host);
    promoted = promoted_match vlans parse_ip c e;
    published =
        (e.manual || match_any vlans parse_ip c.auto_publish e)
        || promoted_match vlans parse_ip c e;
  }

  -- `SetConfig`
  abbrev pub map_entries : (Entry → Entry) → List (GoString × Entry) → List (GoString × Entry)
  map_entries f [] = []
  map_entries f ((k, e) ∷ es) = (k, f e) ∷ map_entries f es

  unfoldable pub set_config : Table → Config → Table
  set_config t c = record t { cfg = c; entries = map_entries (rederive c) t.entries }

  -- What a re-announcement changes of the entry that is there.
  unfoldable pub announced : Entry → Entry → ℤ → Entry
  announced cur e now = record cur {
    ipv4 = merge_unique cur.ipv4 e.ipv4;
    ipv6 = merge_unique cur.ipv6 e.ipv6;
    txt = if is_nil e.txt then cur.txt else e.txt;
    ttl = if ltb_ℤ (pos 0) e.ttl then e.ttl else cur.ttl;
    last_seen = now;
  }

  -- `Upsert`
  unfoldable pub upsert : Table → Entry → ℤ → Table
  unfolding announced entry_key
  upsert t e now =
      let k = entry_key e.service e.instance_label e.host in
      elim (lookup string_discrete k t.entries) [
        | some cur ↦ record t {
          entries = insert string_discrete k (rederive t.cfg (announced cur e now)) t.entries;
        }
        | none ↦ record t {
          entries =
              insert string_discrete k (rederive t.cfg (record e { last_seen = now })) t.entries;
        }
      ]

  -- `SetPublished`
  abbrev pub approve : Config → GoString → Bool → Entry → Entry
  approve c target published e =
      if str_eq e.name target then rederive c (record e { manual = published }) else e

  unfoldable pub set_published : Table → GoString → Bool → Table × Bool
  set_published t name published =
      let target = fqdn name in
      (
        record t { entries = map_entries (approve t.cfg target published) t.entries },
        any (λ p. str_eq p.1.name target) t.entries,
      )

  -- `Resolve`: `none` says that the name is not the table's to answer.
  unfoldable pub resolve : Table → GoString → ℤ → Option (List GoString × List GoString)
  resolve t qname now =
      let name = fqdn qname in
      elim (lookup string_discrete name t.cfg.promoted) [
        | some sel ↦ some (collect t now (selects vlans parse_ip sel) t.entries ([], []))
        | none ↦
            (let (v4, v6) =
                collect t now (λ e. e.published && str_eq e.name name) t.entries ([], []) in
              if is_nil v4 && is_nil v6 then none else some (v4, v6))
      ]
