-- ===== src/Mdnssd/Cache.antt =====
-- mdnssd/cache.go and knownanswer.go: records with a lifetime, and when they are refreshed.
pub mod Ticks
pub mod Known
use bramble_gate.Prelude.{
  ℕ, zero, suc, ◌+◌, ◌-◌, ◌*◌, ◌/◌, ◌%◌, ◌^◌, Bool, true, false, ◌||◌, not, Option, none, some,
  List, [], ◌∷◌, ◌++◌, ltb, if◌then◌else◌, GoString, str_eq, string_discrete, lookup, insert,
  delete,
}
use bramble_gate.Prelude.Int.{ℤ, pos, ◌-ℤ◌, ◌*ℤ◌, leb_ℤ, ltb_ℤ, quot, pos_part}
use bramble_gate.Dns.{Library}
use bramble_gate.Mdnssd.Response.{second}

-- `cacheRecord`. A TTL is a number of nanoseconds, which is never negative: it is read from a
-- 32-bit number of seconds.
pub record CacheRecord (Rr : Type 0) : Type 0 where
  pub rr : Option Rr
  pub question : GoString
  pub ttl : ℕ
  pub stored_at : ℤ
  pub refreshes_sent : ℕ

-- The table `refreshThresholds`, in percent, and its length.
abbrev pub threshold_percent : ℕ → ℕ
threshold_percent i = 80 + 5 * i

abbrev pub thresholds : ℕ
thresholds = 4

-- `time.Duration(float64(ttl) * refreshThresholds[i])`. The product is exact for a TTL of whole
-- seconds, and every TTL is one.
unfoldable pub threshold_at : ℕ → ℕ → ℕ
threshold_at ttl i = ttl * threshold_percent i / 100

-- `Cache`, without its clock
abbrev pub Records : Type 0 → Type 0
Records Rr = List (GoString × CacheRecord Rr)

-- The loop of `dueThreshold`, by the rounds that are left: the thresholds sent then.
unfoldable pub advance : ℕ → ℕ → ℤ → ℕ → ℕ
advance zero ttl age sent = sent
advance (suc left) ttl age sent =
    let rest = advance left ttl age (sent + 1) in
    if ltb_ℤ age (pos (threshold_at ttl sent)) then sent else rest

module _ {Rr : Type 0} where
  -- `elapsed` and `expired`
  unfoldable pub elapsed : CacheRecord Rr → ℤ → ℤ
  elapsed r now = now -ℤ r.stored_at

  unfoldable pub expired : CacheRecord Rr → ℤ → Bool
  unfolding elapsed
  expired r now = leb_ℤ (pos r.ttl) (elapsed r now)

  -- `dueThreshold`: the record, and whether a round of the loop was made.
  unfoldable pub due_threshold : CacheRecord Rr → ℤ → CacheRecord Rr × Bool
  unfolding advance elapsed
  due_threshold r now =
      let sent = advance (thresholds - r.refreshes_sent) r.ttl (elapsed r now) r.refreshes_sent in
      (record r { refreshes_sent = sent }, ltb r.refreshes_sent sent)

  -- `Store` and `Remove`
  unfoldable pub store : Records Rr → GoString → GoString → Option Rr → ℕ → ℤ → Records Rr × Bool
  store records key question rr ttl now = (
    insert string_discrete key
        (record { rr = rr; question = question; ttl = ttl; stored_at = now; refreshes_sent = 0 })
        records,
    elim (lookup string_discrete key records) [ none ↦ true | some r ↦ false ],
  )

  unfoldable pub remove : Records Rr → GoString → Records Rr
  remove records key = delete string_discrete key records

  -- What `Tick` makes of one record, before what it makes of the others.
  abbrev pub tick_record :
      GoString
      → CacheRecord Rr
      → Bool
      → CacheRecord Rr × Bool
      → (kept : Records Rr) × (due : List GoString) × List GoString
      → (kept : Records Rr) × (due : List GoString) × List GoString
  tick_record key r true advanced (kept, due, gone) = (kept, due, key ∷ gone)
  tick_record key r false (r', fired) (kept, due, gone) =
      ((key, r') ∷ kept, if fired then r.question ∷ due else due, gone)

  -- `Tick`: the records that are left, the questions that are due and the keys that expired.
  unfoldable pub tick : ℤ → Records Rr → (kept : Records Rr) × (due : List GoString) × List GoString
  tick now [] = ([], [], [])
  tick now ((key, r) ∷ records) =
      tick_record key r (expired r now) (due_threshold r now) (tick now records)

-- `knownRecord`
pub record KnownRecord (Rr : Type 0) : Type 0 where
  pub rr : Rr
  pub question : GoString
  pub ttl : ℕ
  pub elapsed : ℤ

module _ {Rr : Type 0} (dns : Library Rr) where
  abbrev known_record : CacheRecord Rr → ℤ → Option Rr → List (KnownRecord Rr)
  known_record rec now none = []
  known_record rec now (some rr) =
      record { rr = rr; question = rec.question; ttl = rec.ttl; elapsed = elapsed rec now } ∷ []

  -- `knownAnswersFor`
  unfoldable pub known_answers_for : Records Rr → GoString → ℤ → List (KnownRecord Rr)
  unfolding elapsed
  known_answers_for [] question now = []
  known_answers_for ((key, rec) ∷ records) question now =
      if str_eq rec.question question
      then known_record rec now rec.rr ++ known_answers_for records question now
      else known_answers_for records question now

  -- The remaining lifetime, and its whole seconds. `Seconds` of a time within a microsecond below a
  -- whole second may round up to it, which is left out.
  unfoldable pub remaining : KnownRecord Rr → ℤ
  remaining rec = pos rec.ttl -ℤ rec.elapsed

  -- `knownAnswers`
  unfoldable pub known_answers : List (KnownRecord Rr) → GoString → List Rr
  unfolding remaining
  known_answers [] question = []
  known_answers (rec ∷ records) question =
      let rest = known_answers records question in
      if not (str_eq rec.question question) || leb_ℤ (remaining rec *ℤ pos 2) (pos rec.ttl)
      then rest
      else dns.copy_with (pos_part (quot (remaining rec) second) % 2 ^ 32) rec.rr ∷ rest
