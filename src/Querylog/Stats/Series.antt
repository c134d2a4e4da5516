-- ===== src/Querylog/Stats/Series.antt =====
-- plugins/querylog/stats.go: the recent series of the process's rollup, which has 144 slots of ten
-- minutes, counts every query of the last 24 hours in its bucket.
use bramble_gate.Prelude.{
  ℕ, suc, ◌+◌, ◌*◌, ◌/◌, ◌%◌, ◌<◌, ◌≡◌, ◌≢◌, refl, sym, subst, ◌∙◌, ap, ap₂, false, some, List,
  length, get_elem?, set, get_elem?-set_self, get_elem?-set_ne, length-set, get_elem?_of_lt, arith,
  if◌then◌else◌, inc64, ◌==◌, ℕ_discrete,
}
use bramble_gate.Prelude.Int.{
  ℤ, pos, negsuc, pos_part, neg_part, ◌+ℤ◌, ◌-ℤ◌, ◌≤ℤ◌, eq_ℤ, quot, rem, int_laws, eq_of_parts,
}
use bramble_gate.Querylog.Entry.{Entry}
use bramble_gate.Querylog.Stats.{
  StatsBucket, StatsRollup, Bucket, second, bucket_epoch, bucket_index, touch_bucket, slot_of,
  count_query, observe, point,
}

-- `statsBucketWidth`
abbrev pub width : ℕ
width = 600_000_000_000

abbrev pub Aligned : ℤ → Type 0
Aligned e = rem e 600 ≡ pos 0

pub epoch-Aligned : (t : ℤ) → Aligned (bucket_epoch t width)
unfolding bucket_epoch rem ◌-ℤ◌
epoch-Aligned t = ground arith

index-lt : (e : ℤ) → bucket_index e width 144 < 144
unfolding bucket_index rem quot ◌-ℤ◌ ◌+ℤ◌
index-lt e = ground arith

-- An aligned epoch is its slot and a number of laps, counted up or down.
index_laps :
    (e : ℤ)
    → Aligned e
    → (up down : ℕ) × (pos_part e + 86400 * down
        ≡ neg_part e + 86400 * up + 600 * bucket_index e width 144)
unfolding bucket_index rem quot ◌-ℤ◌ ◌+ℤ◌
index_laps (pos a) h = (a / 86400, 0, ground arith)
index_laps (negsuc a) h = elim (ℕ_discrete (suc a / 600 % 144) 0) [
  | yes z ↦ (0, suc a / 86400, ground arith)
  | no z ↦ (0, suc a / 86400 + 1, ground arith)
]

-- Two epochs of one window of 24 hours that share a slot are the same.
index-injective :
    (b d e : ℤ)
    → Aligned d
    → Aligned e
    → b ≤ℤ (d +ℤ pos 86399)
    → b ≤ℤ (e +ℤ pos 86399)
    → d ≤ℤ b
    → e ≤ℤ b
    → bucket_index d width 144 ≡ bucket_index e width 144
    → d ≡ e
index-injective b d e x y h k p q i =
    let (u, v, f) = index_laps d x in
    let (u', v', g) = index_laps e y in eq_of_parts d e (omega (int_laws))

-- What a slot says of an epoch.
abbrev value : ℤ → StatsBucket → Bucket
value epoch b = record { start = epoch; count = if eq_ℤ b.epoch epoch then b.count else 0 }

-- One more query in the bucket of an epoch.
abbrev pub bumped : ℤ → Bucket → Bucket
bumped epoch b = if eq_ℤ epoch b.start then record b { count = inc64 b.count } else b

value-touch : (d : ℤ) (b : StatsBucket) → value d (touch_bucket d b) ≡ bumped d (value d b)
unfolding touch_bucket
value-touch d b = ground arith

value_ne : (d e : ℤ) (b : StatsBucket) → d ≢ e → value e b ≡ bumped d (value e b)
value_ne d e b h = ground (arith, eq_of_parts d e)

-- The rollup of the process.
pub record IsProcessWide (s : StatsRollup) : Type 0 where
  pub wide : s.bucket_width ≡ width
  pub slots : length s.buckets ≡ 144

-- The epoch lies in the 24 hours that end with the bucket of `now`.
abbrev pub InWindow : ℤ → ℤ → Type 0
InWindow now e = (e ≤ℤ bucket_epoch now width) × (bucket_epoch now width ≤ℤ (e +ℤ pos 86399))

slot_after :
    (bs : List StatsBucket) (now d e : ℤ) (b : StatsBucket)
    → length bs ≡ 144
    → Aligned d
    → Aligned e
    → InWindow now d
    → InWindow now e
    → get_elem? bs (bucket_index d width 144) ≡ some b
    → (c c' : StatsBucket) × (get_elem? bs (bucket_index e width 144) ≡ some c)
      × (get_elem? (set bs (bucket_index d width 144) (touch_bucket d b)) (bucket_index e width 144)
          ≡ some c')
      × (value e c' ≡ bumped d (value e c))
slot_after bs now d e b l x y p q h =
    elim (ℕ_discrete (bucket_index d width 144) (bucket_index e width 144)) [
      | yes i ↦
          let same_epoch : d ≡ e =
            index-injective (bucket_epoch now width) d e x y p.1 q.1 p.0 q.0 i in
          (
            b,
            touch_bucket d b,
            ap (get_elem? bs) (sym i) ∙ h,
            ap (get_elem? (set bs (bucket_index d width 144) (touch_bucket d b))) (sym i)
                ∙ get_elem?-set_self bs (bucket_index d width 144) (touch_bucket d b)
                    (omega (arith, index-lt d)),
            subst (λ z. value z (touch_bucket d b) ≡ bumped d (value z b)) same_epoch
                (value-touch d b),
          )
      | no i ↦
          let (c, k) = get_elem?_of_lt bs (bucket_index e width 144) (omega (arith, index-lt e)) in
          (
            c,
            c,
            k,
            get_elem?-set_ne bs (bucket_index d width 144) (bucket_index e width 144)
                  (touch_bucket d b) i
                ∙ k,
            value_ne d e c (λ z. i (ap (λ w. bucket_index w width 144) z)),
          )
    ]

process_index :
    (s : StatsRollup) (e : ℤ)
    → IsProcessWide s
    → bucket_index e s.bucket_width (length s.buckets) ≡ bucket_index e width 144
process_index s e v = ap₂ (bucket_index e) v.wide v.slots

point-some :
    (s : StatsRollup) (e : ℤ) (c : StatsBucket)
    → IsProcessWide s
    → get_elem? s.buckets (bucket_index e width 144) ≡ some c
    → point s e ≡ some (value e c)
unfolding point
point-some s e c v h =
    let k : get_elem? s.buckets (bucket_index e s.bucket_width (length s.buckets)) ≡ some c =
      ap (get_elem? s.buckets) (process_index s e v) ∙ h in
    ground arith

process_slot :
    (s : StatsRollup) (t : ℤ)
    → IsProcessWide s
    → slot_of s t ≡ bucket_index (bucket_epoch t width) width 144
unfolding slot_of
process_slot s t v =
    process_index s _ v ∙ ap (λ w. bucket_index (bucket_epoch t w) width 144) v.wide

observe-some :
    (s : StatsRollup) (q : Entry) (b : StatsBucket)
    → IsProcessWide s
    → get_elem? s.buckets (slot_of s q.timestamp) ≡ some b
    → observe s q
      ≡ some (
          count_query s q (
            set s.buckets
              (slot_of s q.timestamp)
              (touch_bucket (bucket_epoch q.timestamp s.bucket_width) b)))
unfolding observe
observe-some s q b v h =
    let wide : (s.bucket_width / second == 0) ≡ false = rw v.wide refl in ground arith

-- The state after a query.
pub observed :
    (s : StatsRollup) (q : Entry)
    → IsProcessWide s
    → (t : StatsRollup) × (b : StatsBucket) × (observe s q ≡ some t)
      × IsProcessWide t
      × (get_elem? s.buckets (bucket_index (bucket_epoch q.timestamp width) width 144) ≡ some b)
      × (t.buckets
          ≡ set s.buckets
              (bucket_index (bucket_epoch q.timestamp width) width 144)
              (touch_bucket (bucket_epoch q.timestamp width) b))
observed s q v =
    let i : slot_of s q.timestamp ≡ bucket_index (bucket_epoch q.timestamp width) width 144 =
      process_slot s q.timestamp v in
    let (b, h) =
      get_elem?_of_lt s.buckets (slot_of s q.timestamp)
        (omega (arith, i, v.slots, index-lt (bucket_epoch q.timestamp width))) in
    let bs : List StatsBucket =
      set s.buckets (slot_of s q.timestamp)
        (touch_bucket (bucket_epoch q.timestamp s.bucket_width) b) in
    let m : bs
        ≡ set s.buckets (bucket_index (bucket_epoch q.timestamp width) width 144)
            (touch_bucket (bucket_epoch q.timestamp width) b) =
      ap₂ (λ j z. set s.buckets j (touch_bucket (bucket_epoch q.timestamp z) b)) i v.wide in
    (
      count_query s q bs,
      b,
      observe-some s q b v h,
      unfold count_query in record { wide = v.wide; slots = length-set s.buckets _ _ ∙ v.slots },
      ap (get_elem? s.buckets) (sym i) ∙ h,
      unfold count_query in m,
    )

-- One more query, seen at one point of the series.
pub point-observe :
    (s t : StatsRollup) (q : Entry) (now e : ℤ)
    → IsProcessWide s
    → observe s q ≡ some t
    → InWindow now (bucket_epoch q.timestamp width)
    → Aligned e
    → InWindow now e
    → (b : Bucket) × (point s e ≡ some b)
      × (point t e ≡ some (bumped (bucket_epoch q.timestamp width) b))
point-observe s t q now e v o p x y =
    let (t', b, o', v', h, m) = observed s q v in
    let same_state : t' ≡ t = cc (o, o') in
    let (c, c', k, k', r) =
      slot_after s.buckets now (bucket_epoch q.timestamp width) e b v.slots
        (epoch-Aligned q.timestamp) x p y h in
    (
      value e c,
      point-some s e c v k,
      subst (λ z. point z e ≡ some (bumped (bucket_epoch q.timestamp width) (value e c))) same_state
          (point-some t' e c' v' (ap (λ bs. get_elem? bs (bucket_index e width 144)) m ∙ k')
            ∙ ap some r),
    )
