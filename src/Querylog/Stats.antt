-- ===== src/Querylog/Stats.antt =====
-- plugins/querylog/stats.go: the counters in memory, and the ring of the recent series.
pub mod Series
pub mod Window
mod Tests
use bramble_gate.Prelude.{
  ℕ, zero, suc, ◌+◌, ◌-◌, ◌*◌, ◌/◌, Bool, Option, none, some, List, [], ◌∷◌, length, get_elem?, set,
  replicate, ◌==◌, if◌then◌else◌, inc64, GoString, string_discrete, ℕ_discrete, lookup, insert,
}
use bramble_gate.Prelude.Options.{◌>>=◌}
use bramble_gate.Prelude.Int.{ℤ, pos, negsuc, pos_part, ◌+ℤ◌, ◌-ℤ◌, ltb_ℤ, eq_ℤ, quot, rem}
use bramble_gate.Querylog.Entry.{Entry}

-- `statsBucket`; the epoch counts seconds from the Unix epoch.
pub record StatsBucket : Type 0 where
  pub epoch : ℤ
  pub count : ℕ

-- `statsRollup`. Counts are the 64 bits of an int64, and the width is a time.Duration.
pub record StatsRollup : Type 0 where
  pub queries : ℕ
  pub by_verdict : List (GoString × ℕ)
  pub by_source : List (GoString × ℕ)
  pub by_vlan : List (GoString × ℕ)
  pub by_qtype : List (ℕ × ℕ)
  pub by_cache_outcome : List (GoString × ℕ)
  pub bucket_width : ℕ
  pub buckets : List StatsBucket

-- `Bucket`, its start in Unix seconds.
pub record Bucket : Type 0 where
  pub start : ℤ
  pub count : ℕ

-- time.Second
abbrev pub second : ℕ
second = 1_000_000_000

-- `newStatsRollup`, for a count that is no negative number.
unfoldable pub new_stats_rollup : ℕ → ℕ → StatsRollup
new_stats_rollup width n = record {
  queries = 0;
  by_verdict = [];
  by_source = [];
  by_vlan = [];
  by_qtype = [];
  by_cache_outcome = [];
  bucket_width = width;
  buckets = replicate n (record { epoch = pos 0; count = 0 });
}

-- `m[k]++`
unfoldable pub bump {ℓ} : {K : Type ℓ} → Discrete K → K → List (K × ℕ) → List (K × ℕ)
bump dec k m = insert dec k (inc64 (elim (lookup dec k m) [ none ↦ 0 | some c ↦ c ])) m

-- t.Unix(), of nanoseconds: rounded down.
unfoldable pub unix : ℤ → ℤ
unix (pos n) = pos (n / second)
unix (negsuc n) = negsuc (n / second)

-- `bucketEpoch` and `bucketIndex`, for a width of at least a second and at least one slot: a
-- division by zero panics.
unfoldable pub bucket_epoch : ℤ → ℕ → ℤ
unfolding unix
bucket_epoch t width = unix t -ℤ rem (unix t) (width / second)

unfoldable pub bucket_index : ℤ → ℕ → ℕ → ℕ
bucket_index epoch width n =
    let slot = rem (quot epoch (width / second)) n in
    pos_part (if ltb_ℤ slot (pos 0) then slot +ℤ pos n else slot)

-- The slot after a query of its epoch.
unfoldable pub touch_bucket : ℤ → StatsBucket → StatsBucket
touch_bucket epoch b =
    if eq_ℤ b.epoch epoch
    then record b { count = inc64 b.count }
    else record { epoch = epoch; count = inc64 0 }

-- The slot that a timestamp falls into.
unfoldable pub slot_of : StatsRollup → ℤ → ℕ
slot_of s t = bucket_index (bucket_epoch t s.bucket_width) s.bucket_width (length s.buckets)

-- The counters after a query, with the new slots.
unfoldable pub count_query : StatsRollup → Entry → List StatsBucket → StatsRollup
unfolding bump
count_query s e buckets = record s {
  queries = inc64 s.queries;
  by_verdict = bump string_discrete e.verdict s.by_verdict;
  by_source = bump string_discrete e.source s.by_source;
  by_vlan = bump string_discrete e.client.vlan s.by_vlan;
  by_qtype = bump ℕ_discrete e.qtype s.by_qtype;
  by_cache_outcome = bump string_discrete e.cache_outcome s.by_cache_outcome;
  buckets = buckets;
}

-- `statsRollup.observe`; `none` is a panic.
unfoldable pub observe : StatsRollup → Entry → Option StatsRollup
observe s e =
    if s.bucket_width / second == 0
    then none
    else elim (get_elem? s.buckets (slot_of s e.timestamp)) [
      | none ↦ none
      | some b ↦ some (
          count_query s e (
            set s.buckets (slot_of s e.timestamp)
              (touch_bucket (bucket_epoch e.timestamp s.bucket_width) b)))
    ]

-- The queries of a run, in order.
unfoldable pub observe_all : StatsRollup → List Entry → Option StatsRollup
observe_all s [] = some s
observe_all s (e ∷ es) = do t ← observe s e; observe_all t es

-- The point of the series for an epoch.
unfoldable pub point : StatsRollup → ℤ → Option Bucket
point s epoch = elim (get_elem? s.buckets (bucket_index epoch s.bucket_width (length s.buckets))) [
  | none ↦ none
  | some b ↦ some (record { start = epoch; count = if eq_ℤ b.epoch epoch then b.count else 0 })
]

-- The loop of `recentSeries` from round `i` on, with `k` rounds left.
unfoldable pub series_from : StatsRollup → ℤ → ℕ → ℕ → Option (List Bucket)
series_from s now_epoch i zero = some []
series_from s now_epoch i (suc k) = do
  b ← point s (now_epoch -ℤ pos ((length s.buckets - 1 - i) * (s.bucket_width / second)))
  rest ← series_from s now_epoch (i + 1) k
  some (b ∷ rest)

-- `statsRollup.recentSeries`, for a width of at least a second.
unfoldable pub recent_series : StatsRollup → ℤ → Option (List Bucket)
recent_series s now = series_from s (bucket_epoch now s.bucket_width) 0 (length s.buckets)
