-- ===== src/Querylog/Stats/Window.antt =====
-- plugins/querylog/stats.go: the recent series after a run of queries, against a count of them.
use bramble_gate.Prelude.{ℕ, zero, suc, ◌-◌, ◌*◌, Bool, List, count, inc64}
use bramble_gate.Prelude.Int.{ℤ, pos, ◌-ℤ◌, eq_ℤ}
use bramble_gate.Querylog.Entry.{Entry}
use bramble_gate.Querylog.Stats.{Bucket, bucket_epoch}
use bramble_gate.Querylog.Stats.Series.{width}

-- The epoch of round `i`.
abbrev round : ℤ → ℕ → ℤ
round b i = b -ℤ pos ((143 - i) * 600)

-- `f`, `n` times.
abbrev pub iterate {ℓ} : {A : Type ℓ} → ℕ → (A → A) → A → A
iterate zero f a = a
iterate (suc n) f a = iterate n f (f a)

-- A point with the queries of its bucket counted.
abbrev pub in_bucket : Bucket → Entry → Bool
in_bucket b q = eq_ℤ (bucket_epoch q.timestamp width) b.start

abbrev pub counted : List Entry → Bucket → Bucket
counted qs b = record b { count = iterate (count (in_bucket b) qs) inc64 b.count }
