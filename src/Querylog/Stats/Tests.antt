-- ===== src/Querylog/Stats/Tests.antt =====
-- plugins/querylog/stats.go: tests, and the theorem at a concrete input.
use bramble_gate.Prelude.{ℕ, ◌*◌, ◌≡◌, refl, none, some, List, [], codes}
use bramble_gate.Prelude.Int.{pos, negsuc, rem, quot, ◌-ℤ◌}
use bramble_gate.Querylog.Entry.{Entry, zero_entry}
use bramble_gate.Querylog.Stats.{
  StatsRollup, Bucket, second, new_stats_rollup, bucket_epoch, bucket_index, recent_series,
}
use bramble_gate.Querylog.Stats.Series.{width}

epoch_rounds : bucket_epoch (pos (100_000 * second)) width ≡ pos 99_600
unfolding bucket_epoch rem ◌-ℤ◌
epoch_rounds = refl

-- Before 1970 the remainder is negative, and the epoch is rounded up.
epoch_negative : bucket_epoch (negsuc (700 * second)) width ≡ negsuc 599
unfolding bucket_epoch rem ◌-ℤ◌
epoch_negative = refl

index_wraps : bucket_index (pos 99_600) width 144 ≡ 22
unfolding bucket_index rem quot
index_wraps = refl

abbrev at_second : ℕ → Entry
at_second n = record zero_entry { timestamp = pos (n * second); verdict = codes "cached" }

abbrev fresh : StatsRollup
fresh = new_stats_rollup width 144

abbrev points : List Bucket
points = elim (recent_series fresh (pos (100_000 * second))) [ none ↦ [] | some xs ↦ xs ]
